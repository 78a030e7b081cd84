-- ===== src/AssetRouter/WithFee/Splitting.antt =====
-- What a mint with a fee has found and done.
use sol_svm_contracts.Base.{
  ℕ, ◌-◌, ◌<◌, ◌≡◌, subst, false, true, List, Option, none, some, inl, inr, ok, arith, Option-cases,
  Outcome-cases,
}
use sol_svm_contracts.Base.Bytes.{to_be}
use sol_svm_contracts.Mailbox.State.{Notary}
use sol_svm_contracts.AssetRouter.State.{
  Config, TokenConfig, AccountRole, claimer, has_role, TokenAccount, put, State, World, Runtime,
}
use sol_svm_contracts.AssetRouter.Payloads.{
  DepositV1, from_session_payload, FeeAction, validate_fee,
}
use sol_svm_contracts.AssetRouter.Minting.{check_bascule, execute_mint}
use sol_svm_contracts.AssetRouter.WithFee.{
  from_bytes, InstructionSysvar, verify_ed25519_instruction, FeeAccounts, FeeChecked, fee_checks,
  mint_with_fee,
}

module _ {Tokens : Type 0} (runtime : Runtime Tokens) where
  -- The checks of the accounts.
  pub record AreFeeChecked (notary : Notary) (hash : ℕ) (a : FeeAccounts) (st : State)
      (tokens : Tokens) (c : FeeChecked) : Type 0 where
    pub epoch : ℕ
    pub roles : List AccountRole
    pub treasury : TokenAccount
    pub is_config : st.config ≡ some c.config
    pub is_token_config : st.token_configs a.minting.mint ≡ some c.token_config
    pub is_recipient : runtime.token_account a.minting.recipient tokens ≡ some c.recipient
    pub is_treasury : runtime.token_account a.treasury_token_account tokens ≡ some treasury
    pub is_validated : notary.validated_payload c.config.consortium hash ≡ some epoch
    pub is_new : st.deposit_payloads_spent hash ≡ none
    pub is_open : c.config.paused ≡ false
    pub are_roles : st.account_roles a.payer ≡ some roles
    pub is_claimer : has_role claimer roles ≡ true
    pub is_native : a.minting.mint ≡ c.config.native_mint
    pub is_of_treasury : treasury.owner ≡ c.config.treasury

  fee_checks_inv :
      (notary : Notary) (hash : ℕ) (a : FeeAccounts) (st : State) (tokens : Tokens) (c : FeeChecked)
      → fee_checks runtime notary hash a st tokens ≡ ok c
      → AreFeeChecked notary hash a st tokens c
  unfolding fee_checks
  fee_checks_inv notary hash a st tokens c h = elim (Option-cases st.config) [
    | inl e ↦ absurd (ground arith)
    | inr (config, e) ↦ elim (Option-cases (st.account_roles a.payer)) [
      | inl e₁ ↦ absurd (ground arith)
      | inr (roles, e₁) ↦ elim (Option-cases (st.token_configs a.minting.mint)) [
        | inl e₂ ↦ absurd (ground arith)
        | inr (token_config, e₂) ↦ with_config config e roles e₁ token_config e₂
      ]
    ]
  ]
    where
      with_config :
          (config : Config)
          → st.config ≡ some config
          → (roles : List AccountRole) → st.account_roles a.payer ≡ some roles
          → (token_config : TokenConfig) → st.token_configs a.minting.mint ≡ some token_config
          → AreFeeChecked notary hash a st tokens c
      with_config config e roles e₁ token_config e₂ =
          elim (Option-cases (notary.validated_payload config.consortium hash)) [
            | inl e₃ ↦ absurd (ground arith)
            | inr (epoch, e₃) ↦
                elim (Option-cases (runtime.token_account a.minting.recipient tokens)) [
                  | inl e₄ ↦ absurd (ground arith)
                  | inr (recipient, e₄) ↦
                      elim (Option-cases (runtime.token_account a.treasury_token_account tokens)) [
                        | inl e₅ ↦ absurd (ground arith)
                        | inr (treasury, e₅) ↦
                            let found : FeeChecked = record {
                              config = config;
                              token_config = token_config;
                              recipient = recipient;
                            } in
                            let same : found ≡ c = ground arith in
                            subst (λ k. AreFeeChecked notary hash a st tokens k) same
                              (record {
                                epoch = epoch;
                                roles = roles;
                                treasury = treasury;
                                is_config = e;
                                is_token_config = e₂;
                                is_recipient = e₄;
                                is_treasury = e₅;
                                is_validated = e₃;
                                is_new = ground arith;
                                is_open = ground arith;
                                are_roles = e₁;
                                is_claimer = ground arith;
                                is_native = ground arith;
                                is_of_treasury = ground arith;
                              })
                      ]
                ]
          ]

  -- A mint with a fee that the recipient approved.
  pub record IsFeeMint (notary : Notary) (sysvar : InstructionSysvar) (hash : ℕ)
      (fee_payload fee_signature : List ℕ) (a : FeeAccounts) (w w' : World Tokens) : Type 0 where
    pub found : FeeChecked
    pub payload : List ℕ
    pub p : DepositV1
    pub checked : World Tokens
    pub action : FeeAction
    pub fee : ℕ
    pub taken : Tokens
    pub are_checked : AreFeeChecked notary hash a w.router w.tokens found
    pub is_hashed : runtime.sha256 payload ≡ hash
    pub is_decoded : from_session_payload payload ≡ ok p
    pub is_here : p.destination_chain_id ≡ runtime.chain_id
    pub is_token : p.token_address ≡ found.config.native_mint
    pub is_to : p.recipient ≡ a.minting.recipient
    pub is_asked : check_bascule runtime found.config.bascule a.minting p w ≡ ok checked
    pub is_signed :
        verify_ed25519_instruction runtime sysvar
          (to_be 32 found.recipient.owner)
          fee_payload
          fee_signature
        ≡ ok tt
    pub is_action : from_bytes fee_payload ≡ ok action
    pub is_fee :
        validate_fee runtime.chain_prefix runtime.program_prefix
          (runtime.now w.tokens)
          action
          found.token_config.max_mint_commission
        ≡ ok fee
    pub is_less : fee < p.amount
    pub is_taken :
        execute_mint runtime
          (record a.minting { recipient = a.treasury_token_account })
          fee
          checked.tokens
        ≡ ok taken
    pub is_minted : execute_mint runtime a.minting (p.amount - fee) taken ≡ ok w'.tokens
    pub is_after : w' ≡ record checked {
      router = record checked.router {
        deposit_payloads_spent = put hash (some tt) checked.router.deposit_payloads_spent;
      };
      tokens = w'.tokens;
    }

  pub mint_with_fee_inv :
      (notary : Notary) (sysvar : InstructionSysvar) (posted : Option (List ℕ)) (hash : ℕ)
      (fee_payload fee_signature : List ℕ) (a : FeeAccounts) (w w' : World Tokens)
      → mint_with_fee runtime notary sysvar posted hash fee_payload fee_signature a w ≡ ok w'
      → IsFeeMint notary sysvar hash fee_payload fee_signature a w w'
  unfolding mint_with_fee
  mint_with_fee_inv notary sysvar posted hash fee_payload fee_signature a w w' h =
      elim (Outcome-cases (fee_checks runtime notary hash a w.router w.tokens)) [
        | inr failed ↦ absurd (ground arith)
        | inl (found, e) ↦ elim (Option-cases posted) [
          | inl e₁ ↦ absurd (ground arith)
          | inr (payload, e₁) ↦ elim (Outcome-cases (from_session_payload payload)) [
            | inr failed ↦ absurd (ground arith)
            | inl (p, e₂) ↦
                elim (Outcome-cases (check_bascule runtime found.config.bascule a.minting p w)) [
                  | inr failed ↦ absurd (ground arith)
                  | inl (checked, e₃) ↦ with_deposit found e payload e₁ p e₂ checked e₃
                ]
          ]
        ]
      ]
    where
      with_fee :
          (found : FeeChecked)
          → fee_checks runtime notary hash a w.router w.tokens ≡ ok found
          → (payload : List ℕ) → posted ≡ some payload
          → (p : DepositV1) → from_session_payload payload ≡ ok p
          → (checked : World Tokens)
          → check_bascule runtime found.config.bascule a.minting p w ≡ ok checked
          → verify_ed25519_instruction runtime sysvar
              (to_be 32 found.recipient.owner)
              fee_payload
              fee_signature
            ≡ ok tt
          → (action : FeeAction) → from_bytes fee_payload ≡ ok action
          → (fee : ℕ)
          → validate_fee runtime.chain_prefix runtime.program_prefix
              (runtime.now w.tokens)
              action
              found.token_config.max_mint_commission
            ≡ ok fee
          → IsFeeMint notary sysvar hash fee_payload fee_signature a w w'
      with_fee found e payload e₁ p e₂ checked e₃ e₄ action e₅ fee e₆ =
          elim (Outcome-cases (
            execute_mint runtime (record a.minting { recipient = a.treasury_token_account }) fee
              checked.tokens)) [
                | inr failed ↦ absurd (ground arith)
                | inl (taken, e₇) ↦
                    elim (Outcome-cases (execute_mint runtime a.minting (p.amount - fee) taken)) [
                      | inr failed ↦ absurd (ground arith)
                      | inl (tokens, e₈) ↦ record {
                        found = found;
                        payload = payload;
                        p = p;
                        checked = checked;
                        action = action;
                        fee = fee;
                        taken = taken;
                        are_checked = fee_checks_inv notary hash a w.router w.tokens found e;
                        is_hashed = ground arith;
                        is_decoded = e₂;
                        is_here = ground arith;
                        is_token = ground arith;
                        is_to = ground arith;
                        is_asked = e₃;
                        is_signed = e₄;
                        is_action = e₅;
                        is_fee = e₆;
                        is_less = ground arith;
                        is_taken = e₇;
                        is_minted = ground (arith, e₈);
                        is_after = ground arith;
                      }
                    ]
              ]

      with_deposit :
          (found : FeeChecked)
          → fee_checks runtime notary hash a w.router w.tokens ≡ ok found
          → (payload : List ℕ) → posted ≡ some payload
          → (p : DepositV1) → from_session_payload payload ≡ ok p
          → (checked : World Tokens)
          → check_bascule runtime found.config.bascule a.minting p w ≡ ok checked
          → IsFeeMint notary sysvar hash fee_payload fee_signature a w w'
      with_deposit found e payload e₁ p e₂ checked e₃ =
          elim (Outcome-cases (
            verify_ed25519_instruction runtime sysvar (to_be 32 found.recipient.owner) fee_payload
              fee_signature)) [
                | inr failed ↦ absurd (ground arith)
                | inl (_, e₄) ↦ elim (Outcome-cases (from_bytes fee_payload)) [
                  | inr failed ↦ absurd (ground arith)
                  | inl (action, e₅) ↦
                      elim (Outcome-cases (
                        validate_fee runtime.chain_prefix runtime.program_prefix
                          (runtime.now w.tokens) action found.token_config.max_mint_commission)) [
                            | inr failed ↦ absurd (ground arith)
                            | inl (fee, e₆) ↦
                                with_fee found e payload e₁ p e₂ checked e₃ e₄ action e₅ fee e₆
                          ]
                ]
              ]
