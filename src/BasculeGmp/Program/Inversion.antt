-- ===== src/BasculeGmp/Program/Inversion.antt =====
-- What a report or a validation that goes through has found, and which mint payloads an instruction
-- touches.
use sol_svm_contracts.Base.{
  ℕ, ◌<◌, ◌≡◌, refl, true, false, List, Option, none, some, ◌⊎◌, inl, inr, ok, arith, Option-cases,
  Outcome-cases,
}
use sol_svm_contracts.BasculeGmp.State.{
  MintMessage, MintProof, Config, MintPayloadState, unreported, reported, minted, MintPayload,
  AccountRole, mint_reporter, mint_validator, has_role, State, put, Runtime, mint_id, Instruction,
}
use sol_svm_contracts.BasculeGmp.Program.{
  initialize, unpause, transfer_ownership, set_trusted_signer, accept_ownership, grant_account_role,
  revoke_account_roles, pause, update_validate_threshold, or_unreported, recover, report_mint,
  validate_mint, exec,
}

-- The state of the account, unreported if it is not there.
abbrev pub state_of : Option MintPayload → MintPayloadState
state_of o = (or_unreported o).state

module _ (runtime : Runtime) where
  pub report_mint_inv :
      (reporter : ℕ) (m : MintMessage) (proof : MintProof) (st st' : State)
      → report_mint runtime reporter m proof st ≡ ok st'
      → (c : Config) × (roles : List AccountRole) × (st.config ≡ some c)
        × (st.account_roles reporter ≡ some roles)
        × (has_role mint_reporter roles ≡ true)
        × (c.paused ≡ false)
        × (m.chain_id ≡ runtime.expected_chain_id)
        × (recover runtime m proof ≡ ok c.trusted_signer)
        × (st.mint_payloads (mint_id runtime m) ≡ none)
        × (st' ≡ record st {
          mint_payloads =
              put
                (mint_id runtime m)
                (some (record { state = reported; amount = m.amount }))
                st.mint_payloads;
        })
  unfolding report_mint
  report_mint_inv reporter m proof st st' h = elim (Option-cases st.config) [
    | inl e ↦ absurd (ground arith)
    | inr (c, e) ↦ elim (Option-cases (st.account_roles reporter)) [
      | inl e₁ ↦ absurd (ground arith)
      | inr (roles, e₁) ↦ elim (Outcome-cases (recover runtime m proof)) [
        | inr failed ↦ absurd (ground arith)
        | inl (signer, recovered) ↦ (
          c,
          roles,
          e,
          e₁,
          ground arith,
          ground arith,
          ground arith,
          ground (arith, recovered),
          ground arith,
          ground arith,
        )
      ]
    ]
  ]

  pub validate_mint_inv :
      (validator : ℕ) (m : MintMessage) (st st' : State)
      → validate_mint runtime validator m st ≡ ok st'
      → (c : Config) × (roles : List AccountRole) × (st.config ≡ some c)
        × (st.account_roles validator ≡ some roles)
        × (has_role mint_validator roles ≡ true)
        × (c.paused ≡ false)
        × ((state_of (st.mint_payloads (mint_id runtime m)) ≡ reported)
            ⊎ ((state_of (st.mint_payloads (mint_id runtime m)) ≡ unreported)
                × (m.amount < c.validate_threshold)))
        × (st' ≡ record st {
          mint_payloads =
              put
                (mint_id runtime m)
                (some (record { state = minted; amount = m.amount }))
                st.mint_payloads;
        })
  unfolding validate_mint
  validate_mint_inv validator m st st' h = elim (Option-cases st.config) [
    | inl e ↦ absurd (ground arith)
    | inr (c, e) ↦ elim (Option-cases (st.account_roles validator)) [
      | inl e₁ ↦ absurd (ground arith)
      | inr (roles, e₁) ↦
          (c, roles, e, e₁, ground arith, ground arith, allowed c e roles e₁ _ refl, ground arith)
    ]
  ]
    where
      allowed :
          (c : Config)
          → st.config ≡ some c
          → (roles : List AccountRole) → st.account_roles validator ≡ some roles
          → (s : MintPayloadState) → state_of (st.mint_payloads (mint_id runtime m)) ≡ s
          → (state_of (st.mint_payloads (mint_id runtime m)) ≡ reported)
            ⊎ ((state_of (st.mint_payloads (mint_id runtime m)) ≡ unreported)
                × (m.amount < c.validate_threshold))
      allowed c e roles e₁ unreported is = inr (is, ground arith)
      allowed c e roles e₁ reported is = inl is
      allowed c e roles e₁ minted is = absurd (ground arith)

  -- An instruction leaves the mint payloads as they are, reports a mint or validates one.
  pub data Effect (signer : ℕ) (i : Instruction) (st st' : State) : Type 0 where
    quiet :
        ((m : MintMessage) → i ≡ Instruction.validate_mint m → ⊥)
        → st'.mint_payloads ≡ st.mint_payloads
        → Effect signer i st st'
    reports :
        (m : MintMessage) (proof : MintProof)
        → i ≡ Instruction.report_mint m proof
        → report_mint runtime signer m proof st ≡ ok st'
        → Effect signer i st st'
    validates :
        (m : MintMessage)
        → i ≡ Instruction.validate_mint m
        → validate_mint runtime signer m st ≡ ok st'
        → Effect signer i st st'

  pub exec-Effect :
      (signer : ℕ) (i : Instruction) (st st' : State)
      → exec runtime signer i st ≡ ok st'
      → Effect signer i st st'
  unfolding exec initialize unpause transfer_ownership set_trusted_signer accept_ownership
      grant_account_role revoke_account_roles pause update_validate_threshold
  exec-Effect signer (Instruction.initialize u a v t) st st' h = quiet (λ m e. cc e) (ground arith)
  exec-Effect signer (Instruction.grant_account_role a r) st st' h =
      quiet (λ m e. cc e) (ground arith)
  exec-Effect signer (Instruction.revoke_account_roles a) st st' h =
      quiet (λ m e. cc e) (ground arith)
  exec-Effect signer Instruction.pause st st' h = quiet (λ m e. cc e) (ground arith)
  exec-Effect signer Instruction.unpause st st' h = quiet (λ m e. cc e) (ground arith)
  exec-Effect signer (Instruction.transfer_ownership a) st st' h =
      quiet (λ m e. cc e) (ground arith)
  exec-Effect signer Instruction.accept_ownership st st' h = quiet (λ m e. cc e) (ground arith)
  exec-Effect signer (Instruction.set_trusted_signer t) st st' h =
      quiet (λ m e. cc e) (ground arith)
  exec-Effect signer (Instruction.report_mint m p) st st' h = reports m p refl h
  exec-Effect signer (Instruction.validate_mint m) st st' h = validates m refl h
  exec-Effect signer (Instruction.update_validate_threshold t) st st' h =
      quiet (λ m e. cc e) (ground arith)
