-- ===== src/Bascule/Program/Validators.antt =====
-- The list of withdrawal validators under every instruction.
use sol_svm_contracts.Base.{
  ℕ, ◌+◌, ◌<◌, ◌≡◌, ◌&&◌, ◌||◌, not, false, List, [], Option, none, some, ◌⊎◌, inl, inr, length,
  ◌==◌, ok, arith, subst, Option-cases, Bool-cases, ==_iff,
}
use sol_svm_contracts.Bascule.State.{BasculeData, State, Instruction}
use sol_svm_contracts.Bascule.Allowlist.{
  contains, position, same, count, IsAllowlist, count-contains, count-push, length-push,
  count-swap_remove, position-none,
}
use sol_svm_contracts.Bascule.Program.{
  exec, initialize, update_validate_threshold, grant_pauser, grant_reporter,
  add_withdrawal_validator, remove_withdrawal_validator, transfer_admin_init, transfer_admin_accept,
  pause, unpause, report_deposit, validate_withdrawal,
}

abbrev pub validators_of : Option BasculeData → List ℕ
validators_of none = []
validators_of (some d) = d.withdrawal_validators

remove-counts :
    (admin v : ℕ) (st st' : State) (w : ℕ)
    → remove_withdrawal_validator admin v st ≡ ok st'
    → ((validators_of st'.bascule_data ≡ validators_of st.bascule_data)
        × (count (validators_of st.bascule_data) v ≡ 0))
      ⊎ ((count (validators_of st'.bascule_data) w + same v w
            ≡ count (validators_of st.bascule_data) w)
          × (length (validators_of st'.bascule_data) + 1 ≡ length (validators_of st.bascule_data)))
unfolding remove_withdrawal_validator
remove-counts admin v st st' w h = elim (Option-cases st.bascule_data) [
  | inl e ↦ absurd (ground arith)
  | inr (d, e) ↦ elim (Option-cases (position d.withdrawal_validators v)) [
    | inl missing ↦ inl (ground arith, rw e (position-none d.withdrawal_validators v missing))
    | inr (i, found) ↦
        let (counts, lengths) = count-swap_remove d.withdrawal_validators v i w found in
        inr (ground (arith, counts), ground (arith, lengths))
  ]
]

add-counts :
    (admin v : ℕ) (st st' : State) (w : ℕ)
    → add_withdrawal_validator admin v st ≡ ok st'
    → ((validators_of st'.bascule_data ≡ validators_of st.bascule_data)
        × (0 < count (validators_of st.bascule_data) v))
      ⊎ ((count (validators_of st.bascule_data) v ≡ 0)
          × (count (validators_of st'.bascule_data) w
              ≡ count (validators_of st.bascule_data) w + same v w)
          × (length (validators_of st'.bascule_data) ≡ length (validators_of st.bascule_data) + 1)
          × ((length (validators_of st.bascule_data) == 10) ≡ false))
unfolding add_withdrawal_validator
add-counts admin v st st' w h = elim (Option-cases st.bascule_data) [
  | inl e ↦ absurd (ground arith)
  | inr (d, e) ↦
      let is_in = count-contains d.withdrawal_validators v in
      let counts = count-push d.withdrawal_validators v w in
      let lengths = length-push d.withdrawal_validators v in
      elim (Bool-cases (contains d.withdrawal_validators v)) [
        | inl there ↦ inl (ground arith, ground arith)
        | inr new ↦ inr (ground arith, ground arith, ground arith, ground arith)
      ]
]

-- Adding a validator makes the list the old one and the validator, as a set.
pub add_withdrawal_validator-contains :
    (admin v : ℕ) (st st' : State) (w : ℕ)
    → add_withdrawal_validator admin v st ≡ ok st'
    → contains (validators_of st'.bascule_data) w
      ≡ (v == w || contains (validators_of st.bascule_data) w)
add_withdrawal_validator-contains admin v st st' w h =
    let before = validators_of st.bascule_data in
    let after = validators_of st'.bascule_data in
    rw (count-contains after w, count-contains before w)
      (elim (add-counts admin v st st' w h) [
        | inl (kept, there) ↦ elim (Bool-cases (v == w)) [
          | inl eq ↦
              let there_w : 0 < count before w = rw (← (==_iff v w).0 eq) there in
              rw kept (ground (arith, there_w))
          | inr ne ↦ rw kept (ground arith)
        ]
        | inr (new, counts, _, _) ↦ ground (arith, counts)
      ])

-- Removing a validator leaves the list without that validator, as a set, if there are no duplicates.
pub remove_withdrawal_validator-contains :
    (admin v : ℕ) (st st' : State) (w : ℕ)
    → IsAllowlist (validators_of st.bascule_data)
    → remove_withdrawal_validator admin v st ≡ ok st'
    → contains (validators_of st'.bascule_data) w
      ≡ (contains (validators_of st.bascule_data) w && not (v == w))
remove_withdrawal_validator-contains admin v st st' w (unique, _) h =
    let before = validators_of st.bascule_data in
    let after = validators_of st'.bascule_data in
    let once = unique w in
    rw (count-contains after w, count-contains before w)
      (elim (remove-counts admin v st st' w h) [
        | inl (kept, missing) ↦ elim (Bool-cases (v == w)) [
          | inl eq ↦
              let no_w : count before w ≡ 0 = rw (← (==_iff v w).0 eq) missing in
              rw kept (ground (arith, no_w))
          | inr ne ↦ rw kept (ground arith)
        ]
        | inr (counts, _) ↦ ground (arith, counts, once)
      ])

add-IsAllowlist :
    (admin v : ℕ) (st st' : State)
    → IsAllowlist (validators_of st.bascule_data)
    → add_withdrawal_validator admin v st ≡ ok st'
    → IsAllowlist (validators_of st'.bascule_data)
add-IsAllowlist admin v st st' (unique, fits) h = (
  λ w.
      let once = unique w in
      elim (add-counts admin v st st' w h) [
        | inl (kept, _) ↦ rw kept once
        | inr (new, counts, _, _) ↦ elim (Bool-cases (v == w)) [
          | inl eq ↦
              let is_w = (==_iff v w).0 eq in
              let none_w : count (validators_of st.bascule_data) w ≡ 0 = rw (← is_w) new in
              ground (arith, counts, none_w)
          | inr ne ↦ ground (arith, counts)
        ]
      ],
  elim (add-counts admin v st st' v h) [
    | inl (kept, _) ↦ rw kept fits
    | inr (new, _, lengths, room) ↦ ground (arith, lengths, room, fits)
  ],
)

remove-IsAllowlist :
    (admin v : ℕ) (st st' : State)
    → IsAllowlist (validators_of st.bascule_data)
    → remove_withdrawal_validator admin v st ≡ ok st'
    → IsAllowlist (validators_of st'.bascule_data)
remove-IsAllowlist admin v st st' (unique, fits) h = (
  λ w.
      let once = unique w in
      elim (remove-counts admin v st st' w h) [
        | inl (kept, _) ↦ rw kept once
        | inr (counts, _) ↦ omega (arith, counts, once)
      ],
  elim (remove-counts admin v st st' v h) [
    | inl (kept, _) ↦ rw kept fits
    | inr (_, lengths) ↦ omega (arith, lengths, fits)
  ],
)

module _ (keccak : List ℕ → ℕ) where
  validators_kept :
      (validator id recipient amount tx vout : ℕ) (st st' : State)
      → validate_withdrawal keccak validator id recipient amount tx vout st ≡ ok st'
      → st'.bascule_data ≡ st.bascule_data
  unfolding validate_withdrawal
  validators_kept validator id recipient amount tx vout st st' h = ground arith

  -- Every instruction keeps the list of withdrawal validators free of duplicates and no longer than
  -- the 10 that its account has room for.
  pub exec-IsAllowlist :
      (signer : ℕ) (i : Instruction) (st st' : State)
      → IsAllowlist (validators_of st.bascule_data)
      → exec keccak signer i st ≡ ok st'
      → IsAllowlist (validators_of st'.bascule_data)
  unfolding exec initialize update_validate_threshold grant_pauser grant_reporter
      transfer_admin_init transfer_admin_accept pause unpause report_deposit
  exec-IsAllowlist signer (Instruction.initialize d) st st' good h =
      let empty : validators_of st'.bascule_data ≡ [] = ground arith in
      rw empty (λ v. omega arith, omega arith)
  exec-IsAllowlist signer (Instruction.update_validate_threshold t) st st' good h =
      subst IsAllowlist
        (let kept : validators_of st.bascule_data ≡ validators_of st'.bascule_data = ground arith in
          kept)
        good
  exec-IsAllowlist signer (Instruction.transfer_admin_init a) st st' good h =
      subst IsAllowlist
        (let kept : validators_of st.bascule_data ≡ validators_of st'.bascule_data = ground arith in
          kept)
        good
  exec-IsAllowlist signer Instruction.transfer_admin_accept st st' good h =
      subst IsAllowlist
        (let kept : validators_of st.bascule_data ≡ validators_of st'.bascule_data = ground arith in
          kept)
        good
  exec-IsAllowlist signer (Instruction.grant_pauser p) st st' good h =
      subst IsAllowlist
        (let kept : validators_of st.bascule_data ≡ validators_of st'.bascule_data = ground arith in
          kept)
        good
  exec-IsAllowlist signer (Instruction.grant_reporter r) st st' good h =
      subst IsAllowlist
        (let kept : validators_of st.bascule_data ≡ validators_of st'.bascule_data = ground arith in
          kept)
        good
  exec-IsAllowlist signer Instruction.pause st st' good h =
      subst IsAllowlist
        (let kept : validators_of st.bascule_data ≡ validators_of st'.bascule_data = ground arith in
          kept)
        good
  exec-IsAllowlist signer Instruction.unpause st st' good h =
      subst IsAllowlist
        (let kept : validators_of st.bascule_data ≡ validators_of st'.bascule_data = ground arith in
          kept)
        good
  exec-IsAllowlist signer (Instruction.report_deposit d) st st' good h =
      subst IsAllowlist
        (let kept : validators_of st.bascule_data ≡ validators_of st'.bascule_data = ground arith in
          kept)
        good
  exec-IsAllowlist signer (Instruction.add_withdrawal_validator v) st st' good h =
      add-IsAllowlist signer v st st' good h
  exec-IsAllowlist signer (Instruction.remove_withdrawal_validator v) st st' good h =
      remove-IsAllowlist signer v st st' good h
  exec-IsAllowlist signer (Instruction.validate_withdrawal d r a t v) st st' good h =
      rw (validators_kept signer d r a t v st st' h) good
