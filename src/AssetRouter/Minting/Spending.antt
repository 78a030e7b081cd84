-- ===== src/AssetRouter/Minting/Spending.antt =====
-- What stands behind a mint from a deposit payload.
use sol_svm_contracts.Base.{
  ℕ, ◌<◌, ◌≡◌, ap, ◌∙◌, subst, false, List, Option, none, some, ◌⊎◌, inl, inr, ==_refl, ok, arith,
  Option-cases, Outcome-cases,
}
use sol_svm_contracts.Consortium.State.{Crypto, ValidatedPayload, State as ConsortiumState}
use sol_svm_contracts.Consortium.Program.Reach.{Reach}
use sol_svm_contracts.Consortium.Program.Quorum.{WasValidated, validated_payload-HasQuorum}
use sol_svm_contracts.Mailbox.State.{Notary}
use sol_svm_contracts.Mailbox.Program.Delivery.{notary_of}
use sol_svm_contracts.Bascule.State.{
  unreported, reported, withdrawn, BasculeData, State as BasculeState,
}
use sol_svm_contracts.Bascule.Program.{to_deposit_id, state_of, validate_withdrawal}
use sol_svm_contracts.Bascule.Program.Deposits.{validate_withdrawal-checks}
use sol_svm_contracts.AssetRouter.State.{Config, put, State, World, Runtime}
use sol_svm_contracts.AssetRouter.Payloads.{DepositV1, from_session_payload}
use sol_svm_contracts.AssetRouter.Minting.{
  MintAccounts, call_bascule, check_bascule, execute_mint, mint_checks, mint_from_payload,
}

module _ {Tokens : Type 0} (runtime : Runtime Tokens) where
  -- The checks of the accounts.
  pub record AreChecked (notary : Notary) (hash : ℕ) (a : MintAccounts) (st : State) (c : Config)
      : Type 0 where
    pub epoch : ℕ
    pub is_config : st.config ≡ some c
    pub is_validated : notary.validated_payload c.consortium hash ≡ some epoch
    pub is_new : st.deposit_payloads_spent hash ≡ none
    pub is_open : c.paused ≡ false
    pub is_native : a.mint ≡ c.native_mint

  mint_checks_inv :
      (notary : Notary) (hash : ℕ) (a : MintAccounts) (st : State) (tokens : Tokens) (c : Config)
      → mint_checks runtime notary hash a st tokens ≡ ok c
      → AreChecked notary hash a st c
  unfolding mint_checks
  mint_checks_inv notary hash a st tokens c h = elim (Option-cases st.config) [
    | inl e ↦ absurd (ground arith)
    | inr (config, e) ↦ elim (Option-cases (runtime.token_account a.recipient tokens)) [
      | inl e₁ ↦ absurd (ground arith)
      | inr (account, e₁) ↦ elim (Option-cases (notary.validated_payload config.consortium hash)) [
        | inl e₂ ↦ absurd (ground arith)
        | inr (epoch, e₂) ↦
            let same : config ≡ c = ground arith in
            subst (λ k. AreChecked notary hash a st k) same
              (record {
                epoch = epoch;
                is_config = e;
                is_validated = e₂;
                is_new = ground arith;
                is_open = ground arith;
                is_native = ground arith;
              })
      ]
    ]
  ]

  -- A mint: the payload has the hash, it is read, the bascule is asked, and the amount is minted.
  pub record IsMint (notary : Notary) (payload : List ℕ) (hash : ℕ) (a : MintAccounts)
      (w w' : World Tokens) : Type 0 where
    pub config : Config
    pub p : DepositV1
    pub checked : World Tokens
    pub are_checked : AreChecked notary hash a w.router config
    pub is_hashed : runtime.sha256 payload ≡ hash
    pub is_decoded : from_session_payload payload ≡ ok p
    pub is_here : p.destination_chain_id ≡ runtime.chain_id
    pub is_token : p.token_address ≡ config.native_mint
    pub is_to : p.recipient ≡ a.recipient
    pub is_asked : check_bascule runtime config.bascule a p w ≡ ok checked
    pub is_minted : execute_mint runtime a p.amount checked.tokens ≡ ok w'.tokens
    pub is_after : w' ≡ record checked {
      router = record checked.router {
        deposit_payloads_spent = put hash (some tt) checked.router.deposit_payloads_spent;
      };
      tokens = w'.tokens;
    }

  pub mint_from_payload_inv :
      (notary : Notary) (payload : List ℕ) (hash : ℕ) (a : MintAccounts) (w w' : World Tokens)
      → mint_from_payload runtime notary payload hash a w ≡ ok w'
      → IsMint notary payload hash a w w'
  unfolding mint_from_payload
  mint_from_payload_inv notary payload hash a w w' h =
      elim (Outcome-cases (mint_checks runtime notary hash a w.router w.tokens)) [
        | inr failed ↦ absurd (ground arith)
        | inl (config, found) ↦ elim (Outcome-cases (from_session_payload payload)) [
          | inr failed ↦ absurd (ground arith)
          | inl (p, decoded) ↦ elim (Outcome-cases (check_bascule runtime config.bascule a p w)) [
            | inr failed ↦ absurd (ground arith)
            | inl (checked, asked) ↦
                elim (Outcome-cases (execute_mint runtime a p.amount checked.tokens)) [
                  | inr failed ↦ absurd (ground arith)
                  | inl (tokens, minted) ↦ record {
                    config = config;
                    p = p;
                    checked = checked;
                    are_checked = mint_checks_inv notary hash a w.router w.tokens config found;
                    is_hashed = ground arith;
                    is_decoded = decoded;
                    is_here = ground arith;
                    is_token = ground arith;
                    is_to = ground arith;
                    is_asked = asked;
                    is_minted = ground (arith, minted);
                    is_after = ground arith;
                  }
                ]
          ]
        ]
      ]

  abbrev deposit_id_of : DepositV1 → ℕ
  deposit_id_of p = to_deposit_id runtime.keccak256 p.recipient p.amount p.txid p.vout

  call_bascule_inv :
      (a : MintAccounts) (p : DepositV1) (w checked : World Tokens)
      → call_bascule runtime runtime.bascule_id p w ≡ ok checked
      → (bascule : BasculeState) × (validate_withdrawal runtime.keccak256 runtime.bascule_validator
            (deposit_id_of p)
            p.recipient
            p.amount
            p.txid
            p.vout
            w.bascule
          ≡ ok bascule)
        × (checked ≡ record w { bascule = bascule })
  unfolding call_bascule
  call_bascule_inv a p w checked h =
      elim (Outcome-cases (
        validate_withdrawal runtime.keccak256 runtime.bascule_validator (deposit_id_of p)
          p.recipient p.amount p.txid p.vout w.bascule)) [
            | inr failed ↦ absurd (ground (arith, ==_refl runtime.bascule_id))
            | inl (bascule, went) ↦
                (bascule, went, ground (arith, ==_refl runtime.bascule_id, went))
          ]

  -- A call of the bascule leaves the router's accounts as they are.
  call_bascule-router :
      (program : ℕ) (p : DepositV1) (w checked : World Tokens)
      → call_bascule runtime program p w ≡ ok checked
      → checked.router ≡ w.router
  unfolding call_bascule
  call_bascule-router program p w checked h = ground arith

  pub check_bascule-router :
      (bascule : Option ℕ) (a : MintAccounts) (p : DepositV1) (w checked : World Tokens)
      → check_bascule runtime bascule a p w ≡ ok checked
      → checked.router ≡ w.router
  unfolding check_bascule
  check_bascule-router none a p w checked h = ground arith
  check_bascule-router (some bascule) a p w checked h = elim (Option-cases a.bascule_program) [
    | inl e ↦ absurd (ground arith)
    | inr (program, e) ↦ call_bascule-router program p w checked (ground arith)
  ]

  -- If the bascule is that of this repository, it has let the withdrawal through.
  check_bascule_inv :
      (a : MintAccounts) (p : DepositV1) (w checked : World Tokens)
      → check_bascule runtime (some runtime.bascule_id) a p w ≡ ok checked
      → (bascule : BasculeState) × (validate_withdrawal runtime.keccak256 runtime.bascule_validator
            (deposit_id_of p)
            p.recipient
            p.amount
            p.txid
            p.vout
            w.bascule
          ≡ ok bascule)
        × (checked ≡ record w { bascule = bascule })
  unfolding check_bascule
  check_bascule_inv a p w checked h = elim (Option-cases a.bascule_program) [
    | inl e ↦ absurd (ground arith)
    | inr (program, e) ↦
        let called_it : call_bascule runtime program p w ≡ ok checked = ground arith in
        let ours : program ≡ runtime.bascule_id = ground arith in
        call_bascule_inv a p w checked
          (subst (λ k. call_bascule runtime k p w ≡ ok checked) ours called_it)
  ]

  -- A payload that a quorum of the consortium has validated, and what it says.
  pub record IsBacked (crypto : Crypto) (accounts : ConsortiumState) (a : MintAccounts)
      (payload : List ℕ) (hash : ℕ) (c : Config) (w w' : World Tokens) : Type 0 where
    pub p : DepositV1
    pub v : ValidatedPayload
    pub bascule_data : BasculeData
    pub is_hashed : runtime.sha256 payload ≡ hash
    pub is_decoded : from_session_payload payload ≡ ok p
    pub was_validated : WasValidated crypto hash v accounts
    pub was_new : w.router.deposit_payloads_spent hash ≡ none
    pub is_spent : w'.router.deposit_payloads_spent hash ≡ some tt
    pub is_open : c.paused ≡ false
    pub is_here : p.destination_chain_id ≡ runtime.chain_id
    pub is_token : (p.token_address ≡ c.native_mint) × (a.mint ≡ c.native_mint)
    pub is_to : p.recipient ≡ a.recipient
    pub has_bascule : w.bascule.bascule_data ≡ some bascule_data
    pub was_pending :
        (state_of (w.bascule.deposits (deposit_id_of p)) ≡ reported)
        ⊎ ((state_of (w.bascule.deposits (deposit_id_of p)) ≡ unreported)
            × (p.amount < bascule_data.validate_threshold))
    pub is_withdrawn : w'.bascule.deposits (deposit_id_of p) ≡ some withdrawn
    pub is_minted : execute_mint runtime a p.amount w.tokens ≡ ok w'.tokens

  validated_by :
      (id program hash epoch : ℕ) (accounts : ConsortiumState)
      → (notary_of id accounts).validated_payload program hash ≡ some epoch
      → (v : ValidatedPayload) × (accounts.validated_payloads hash ≡ some v)
  validated_by id program hash epoch accounts h =
      elim (Option-cases (accounts.validated_payloads hash)) [
        | inl e ↦ absurd (ground (arith, h))
        | inr (v, e) ↦ (v, e)
      ]

  -- If the config names the bascule of this repository and the consortium program is in a state that
  -- it can reach, then a mint that goes through is of the amount, and to the token account, of a
  -- deposit payload whose hash a quorum of the consortium has validated, for this chain and for the
  -- native mint, while the router was open. That payload had not been spent, and now is. Its deposit
  -- had been reported to the bascule, or was below the threshold, and is now withdrawn.
  pub mint_from_payload-IsBacked :
      (crypto : Crypto) (id : ℕ) (accounts : ConsortiumState) (payload : List ℕ) (hash : ℕ)
      (a : MintAccounts) (c : Config) (w w' : World Tokens)
      → Reach crypto accounts
      → w.router.config ≡ some c
      → c.bascule ≡ some runtime.bascule_id
      → mint_from_payload runtime (notary_of id accounts) payload hash a w ≡ ok w'
      → IsBacked crypto accounts a payload hash c w w'
  mint_from_payload-IsBacked crypto id accounts payload hash a c w w' r configured guarded h =
      let m = mint_from_payload_inv (notary_of id accounts) payload hash a w w' h in
      let same : m.config ≡ c = ground (arith, m.are_checked.is_config, configured) in
      let asked : check_bascule runtime (some runtime.bascule_id) a m.p w ≡ ok m.checked =
        subst (λ o. check_bascule runtime o a m.p w ≡ ok m.checked)
          (ap (λ k. k.bascule) same ∙ guarded) m.is_asked in
      let (bascule, went, after) = check_bascule_inv a m.p w m.checked asked in
      let (bascule_data, has, _, _, _, pending, withdrawn_now, _) =
        validate_withdrawal-checks runtime.keccak256 runtime.bascule_validator (deposit_id_of m.p)
          m.p.recipient m.p.amount m.p.txid m.p.vout w.bascule bascule went in
      let (v, found) =
        validated_by id m.config.consortium hash m.are_checked.epoch accounts
          m.are_checked.is_validated in
      subst (λ k. IsBacked crypto accounts a payload hash k w w') same
        (record {
          p = m.p;
          v = v;
          bascule_data = bascule_data;
          is_hashed = m.is_hashed;
          is_decoded = m.is_decoded;
          was_validated = validated_payload-HasQuorum crypto hash v r found;
          was_new = m.are_checked.is_new;
          is_spent = ap (λ k. k.router.deposit_payloads_spent hash) m.is_after ∙ rw (==_refl hash);
          is_open = m.are_checked.is_open;
          is_here = m.is_here;
          is_token = (m.is_token, m.are_checked.is_native);
          is_to = m.is_to;
          has_bascule = has;
          was_pending = pending;
          is_withdrawn =
              ap (λ k. k.bascule.deposits (deposit_id_of m.p)) (m.is_after)
              ∙ ap (λ k. k.bascule.deposits (deposit_id_of m.p)) after
              ∙ withdrawn_now;
          is_minted =
              subst (λ k. execute_mint runtime a m.p.amount k ≡ ok w'.tokens)
                (ap (λ k. k.tokens) after) m.is_minted;
        })
