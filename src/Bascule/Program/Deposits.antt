-- ===== src/Bascule/Program/Deposits.antt =====
-- The states of a deposit under every instruction, and what a withdrawal needs.
use sol_svm_contracts.Base.{
  ℕ, ◌+◌, ◌≤◌, ◌<◌, ◌≡◌, refl, true, false, List, some, ◌⊎◌, inl, inr, ◌==◌, ==_iff, if◌then◌else◌,
  ok, arith, Option-cases, Bool-cases, Outcome-cases,
}
use sol_svm_contracts.Bascule.State.{
  DepositState, unreported, reported, withdrawn, BasculeData, State, no_accounts, Instruction,
}
use sol_svm_contracts.Bascule.Allowlist.{contains}
use sol_svm_contracts.Bascule.Program.{
  exec, initialize, update_validate_threshold, grant_pauser, grant_reporter,
  add_withdrawal_validator, remove_withdrawal_validator, transfer_admin_init, transfer_admin_accept,
  pause, unpause, report_deposit, validate_withdrawal, after_withdrawal, after_report, state_of,
  to_deposit_id,
}

-- Whether a withdrawal of the deposit went through.
abbrev pub is_withdrawn : DepositState → ℕ
is_withdrawn unreported = 0
is_withdrawn reported = 0
is_withdrawn withdrawn = 1

is_withdrawn-≤ : (s : DepositState) → is_withdrawn s ≤ 1
is_withdrawn-≤ unreported = omega arith
is_withdrawn-≤ reported = omega arith
is_withdrawn-≤ withdrawn = omega arith

-- Whether an instruction withdraws the deposit.
abbrev pub withdrawing : (deposit_id : ℕ) → Instruction → ℕ
withdrawing id (Instruction.validate_withdrawal d r a t v) = if id == d then 1 else 0
withdrawing id i = 0

abbrev MayWithdraw : DepositState → (amount validate_threshold : ℕ) → Type 0
MayWithdraw s amount threshold = (s ≡ reported) ⊎ ((s ≡ unreported) × (amount < threshold))

after_withdrawal-checks :
    (s s' : DepositState) (amount threshold : ℕ)
    → after_withdrawal s amount threshold ≡ ok s'
    → (s' ≡ withdrawn) × MayWithdraw s amount threshold
after_withdrawal-checks unreported s' amount threshold h = (ground arith, inr (refl, ground arith))
after_withdrawal-checks reported s' amount threshold h = (ground arith, inl refl)
after_withdrawal-checks withdrawn s' amount threshold h = absurd (cc h)

module _ (keccak : List ℕ → ℕ) where
  -- Any signer may run any instruction; one that fails leaves the accounts as they are.
  pub data Leads (from : State) : State → Type 0 where
    start : Leads from from
    step :
        {st st' : State} (signer : ℕ) (i : Instruction)
        → Leads from st
        → exec keccak signer i st ≡ ok st'
        → Leads from st'

  unfoldable pub times_withdrawn : {from st : State} → (deposit_id : ℕ) → Leads from st → ℕ
  times_withdrawn id start = 0
  times_withdrawn id (step signer i r h) = times_withdrawn id r + withdrawing id i

  -- A withdrawal that goes through was asked for by a listed validator while the program was not
  -- paused, under the id that its arguments hash to, and its deposit was reported, or was unreported
  -- with an amount below the threshold. It leaves that deposit as withdrawn and no other changed.
  pub validate_withdrawal-checks :
      (validator id recipient amount tx_id tx_vout : ℕ) (st st' : State)
      → validate_withdrawal keccak validator id recipient amount tx_id tx_vout st ≡ ok st'
      → (d : BasculeData) × (st.bascule_data ≡ some d)
        × (contains d.withdrawal_validators validator ≡ true)
        × (d.is_paused ≡ false)
        × (id ≡ to_deposit_id keccak recipient amount tx_id tx_vout)
        × ((state_of (st.deposits id) ≡ reported)
            ⊎ ((state_of (st.deposits id) ≡ unreported) × (amount < d.validate_threshold)))
        × (st'.deposits id ≡ some withdrawn)
        × ((other : ℕ) → (other == id) ≡ false → st'.deposits other ≡ st.deposits other)
  unfolding validate_withdrawal
  validate_withdrawal-checks validator id recipient amount tx_id tx_vout st st' h =
      elim (Option-cases st.bascule_data) [
        | inl e ↦ absurd (ground arith)
        | inr (d, e) ↦
            elim (Outcome-cases
              (after_withdrawal (state_of (st.deposits id)) amount d.validate_threshold)) [
                | inr failed ↦ absurd (ground arith)
                | inl (s, ended) ↦
                    let (is_withdrawn_now, allowed) =
                      after_withdrawal-checks _ s amount d.validate_threshold ended in
                    (
                      d,
                      e,
                      ground arith,
                      ground arith,
                      ground arith,
                      allowed,
                      ground (arith, is_withdrawn_now),
                      λ other ne. ground arith,
                    )
              ]
      ]

  validate_withdrawal-counts :
      (validator id recipient amount tx_id tx_vout : ℕ) (st st' : State) (k : ℕ)
      → validate_withdrawal keccak validator id recipient amount tx_id tx_vout st ≡ ok st'
      → is_withdrawn (state_of (st'.deposits k))
        ≡ is_withdrawn (state_of (st.deposits k)) + (if k == id then 1 else 0)
  validate_withdrawal-counts validator id recipient amount tx_id tx_vout st st' k h =
      let (d, _, _, _, _, allowed, now, others) =
        validate_withdrawal-checks validator id recipient amount tx_id tx_vout st st' h in
      elim (Bool-cases (k == id)) [
        | inr ne ↦ rw (ne, others k ne) (omega arith)
        | inl eq ↦ elim allowed [
          | inl was ↦ rw (eq, (==_iff k id).0 eq, now, was) refl
          | inr (was, _) ↦ rw (eq, (==_iff k id).0 eq, now, was) refl
        ]
      ]

  report-counts : (s : DepositState) → is_withdrawn (after_report s) ≡ is_withdrawn s
  report-counts unreported = refl
  report-counts reported = refl
  report-counts withdrawn = refl

  -- Per instruction, the deposit is withdrawn by as much as the instruction withdraws it.
  exec-counts :
      (signer : ℕ) (i : Instruction) (st st' : State) (k : ℕ)
      → exec keccak signer i st ≡ ok st'
      → is_withdrawn (state_of (st'.deposits k))
        ≡ is_withdrawn (state_of (st.deposits k)) + withdrawing k i
  unfolding exec initialize update_validate_threshold grant_pauser grant_reporter
      add_withdrawal_validator remove_withdrawal_validator transfer_admin_init transfer_admin_accept
      pause unpause report_deposit
  exec-counts signer (Instruction.initialize d) st st' k h = ground arith
  exec-counts signer (Instruction.update_validate_threshold t) st st' k h = ground arith
  exec-counts signer (Instruction.transfer_admin_init a) st st' k h = ground arith
  exec-counts signer Instruction.transfer_admin_accept st st' k h = ground arith
  exec-counts signer (Instruction.grant_pauser p) st st' k h = ground arith
  exec-counts signer (Instruction.grant_reporter r) st st' k h = ground arith
  exec-counts signer (Instruction.add_withdrawal_validator v) st st' k h = ground arith
  exec-counts signer (Instruction.remove_withdrawal_validator v) st st' k h = ground arith
  exec-counts signer Instruction.pause st st' k h = ground arith
  exec-counts signer Instruction.unpause st st' k h = ground arith
  exec-counts signer (Instruction.report_deposit d) st st' k h =
      ground (arith, report-counts (state_of (st.deposits d)))
  exec-counts signer (Instruction.validate_withdrawal d r a t v) st st' k h =
      validate_withdrawal-counts signer d r a t v st st' k h

  -- The withdrawals that go through for one deposit id are as many as its account says: one if it is
  -- withdrawn, else none. So no deposit is withdrawn twice, whatever instructions run.
  pub times_withdrawn_lem :
      {st : State} (id : ℕ) (trace : Leads no_accounts st)
      → (times_withdrawn id trace ≡ is_withdrawn (state_of (st.deposits id)))
        × (times_withdrawn id trace ≤ 1)
  unfolding times_withdrawn
  times_withdrawn_lem id start = (refl, omega arith)
  times_withdrawn_lem id (step {st} {st'} signer i r h) =
      let (eq, _) = times_withdrawn_lem id r in
      let counts = exec-counts signer i st st' id h in
      (
        omega (arith, eq, counts),
        omega (arith, eq, counts, is_withdrawn-≤ (state_of (st'.deposits id))),
      )
