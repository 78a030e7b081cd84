-- ===== src/BasculeGmp/Program/Mints.antt =====
-- The runs of instructions, and how often a mint is validated in one.
use sol_svm_contracts.Base.{
  ℕ, ◌+◌, ◌≤◌, ◌≡◌, refl, inl, inr, ok, arith, Bool-cases, ◌==◌, ==_iff, if◌then◌else◌,
}
use sol_svm_contracts.BasculeGmp.State.{
  MintMessage, MintPayloadState, unreported, reported, minted, State, no_accounts, Runtime, mint_id,
  Instruction,
}
use sol_svm_contracts.BasculeGmp.Program.{exec}
use sol_svm_contracts.BasculeGmp.Program.Inversion.{
  state_of, report_mint_inv, validate_mint_inv, quiet, reports, validates, exec-Effect,
}

-- Whether a mint was validated.
abbrev pub is_minted : MintPayloadState → ℕ
is_minted unreported = 0
is_minted reported = 0
is_minted minted = 1

is_minted-≤ : (s : MintPayloadState) → is_minted s ≤ 1
is_minted-≤ unreported = omega arith
is_minted-≤ reported = omega arith
is_minted-≤ minted = omega arith

module _ (runtime : Runtime) where
  -- Whether an instruction validates the mint.
  abbrev pub minting : (mint : ℕ) → Instruction → ℕ
  minting k (Instruction.validate_mint m) = if k == mint_id runtime m then 1 else 0
  minting k i = 0

  -- Any signer may run any instruction; one that fails leaves the accounts as they are.
  pub data Leads (from : State) : State → Type 0 where
    start : Leads from from
    step :
        {st st' : State} (signer : ℕ) (i : Instruction)
        → Leads from st
        → exec runtime signer i st ≡ ok st'
        → Leads from st'

  unfoldable pub times_minted : {from st : State} → (mint : ℕ) → Leads from st → ℕ
  times_minted k start = 0
  times_minted k (step signer i r h) = times_minted k r + minting k i

  not-minting :
      (k : ℕ) (i : Instruction)
      → ((m : MintMessage) → i ≡ Instruction.validate_mint m → ⊥)
      → minting k i ≡ 0
  not-minting k (Instruction.validate_mint m) never = absurd (never m refl)
  not-minting k (Instruction.initialize u a v t) never = refl
  not-minting k (Instruction.grant_account_role a r) never = refl
  not-minting k (Instruction.revoke_account_roles a) never = refl
  not-minting k Instruction.pause never = refl
  not-minting k Instruction.unpause never = refl
  not-minting k (Instruction.transfer_ownership a) never = refl
  not-minting k Instruction.accept_ownership never = refl
  not-minting k (Instruction.set_trusted_signer t) never = refl
  not-minting k (Instruction.report_mint m p) never = refl
  not-minting k (Instruction.update_validate_threshold t) never = refl

  exec-counts :
      (signer : ℕ) (i : Instruction) (st st' : State) (k : ℕ)
      → exec runtime signer i st ≡ ok st'
      → is_minted (state_of (st'.mint_payloads k))
        ≡ is_minted (state_of (st.mint_payloads k)) + minting k i
  exec-counts signer i st st' k h = elim (exec-Effect runtime signer i st st' h) [
    | quiet never same ↦ ground (arith, not-minting k i never, same)
    | reports m proof is went ↦
        let (_, _, _, _, _, _, _, _, vacant, now) =
          report_mint_inv runtime signer m proof st st' went in
        rw (is) (elim (Bool-cases (k == mint_id runtime m)) [
          | inl eq ↦ rw (now, eq, (==_iff k (mint_id runtime m)).0 eq, vacant) refl
          | inr ne ↦ rw (now, ne) (omega arith)
        ])
    | validates m is went ↦
        let (_, _, _, _, _, _, allowed, now) = validate_mint_inv runtime signer m st st' went in
        rw (is) (elim (Bool-cases (k == mint_id runtime m)) [
          | inr ne ↦ rw (now, ne) (omega arith)
          | inl eq ↦ elim allowed [
            | inl was ↦ rw (now, eq, (==_iff k (mint_id runtime m)).0 eq, was) refl
            | inr (was, _) ↦ rw (now, eq, (==_iff k (mint_id runtime m)).0 eq, was) refl
          ]
        ])
  ]

  -- The validations of one mint id that go through are as many as its account says: one if it is
  -- minted, else none. So no mint is validated twice, whatever instructions run.
  pub times_minted_lem :
      {st : State} (mint : ℕ) (trace : Leads no_accounts st)
      → (times_minted mint trace ≡ is_minted (state_of (st.mint_payloads mint)))
        × (times_minted mint trace ≤ 1)
  unfolding times_minted
  times_minted_lem k start = (refl, omega arith)
  times_minted_lem k (step {st} {st'} signer i r h) =
      let (eq, _) = times_minted_lem k r in
      let counts = exec-counts signer i st st' k h in
      (
        omega (arith, eq, counts),
        omega (arith, eq, counts, is_minted-≤ (state_of (st'.mint_payloads k))),
      )
