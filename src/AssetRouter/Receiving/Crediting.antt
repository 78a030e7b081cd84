-- ===== src/AssetRouter/Receiving/Crediting.antt =====
-- What a mint for a message has found and done.
use sol_svm_contracts.Base.{
  ℕ, ◌<◌, ◌≡◌, refl, subst, false, true, Option, none, some, inl, inr, ==_refl, ok, arith,
  Option-cases, Outcome-cases,
}
use sol_svm_contracts.Mailbox.State.{MessageV1Info, State as MailboxState}
use sol_svm_contracts.Mailbox.Message.{to_session_payload}
use sol_svm_contracts.BasculeGmp.State.{MintMessage, State as GmpState}
use sol_svm_contracts.BasculeGmp.Program.{validate_mint}
use sol_svm_contracts.AssetRouter.State.{btc_staking_module_address, put, World, Runtime}
use sol_svm_contracts.AssetRouter.Messages.{Mint, from_message}
use sol_svm_contracts.AssetRouter.Receiving.{
  Receive, Received, is_recipient, receive_checks, call_bascule_gmp, check_bascule_gmp,
  mint_message, gmp_receive,
}

module _ {Tokens : Type 0} (runtime : Runtime Tokens) where
  -- The checks of the accounts.
  pub record AreChecked (hash : ℕ) (r : Receive) (st : MailboxState (World Tokens))
      (w : World Tokens) (a : Received) : Type 0 where
    pub info : MessageV1Info
    pub is_info : st.messages hash ≡ some info
    pub is_message : a.message ≡ info.message
    pub is_config : w.router.config ≡ some a.config
    pub is_account : runtime.token_account r.recipient w.tokens ≡ some a.recipient
    pub is_new : w.router.messages_handled hash ≡ none
    pub is_mailbox : runtime.mailbox_id ≡ a.config.mailbox
    pub is_signed : r.message_is_signer ≡ true
    pub is_open : a.config.paused ≡ false

  receive_checks_inv :
      (hash : ℕ) (r : Receive) (st : MailboxState (World Tokens)) (w : World Tokens) (a : Received)
      → receive_checks runtime hash r st w ≡ ok a
      → AreChecked hash r st w a
  unfolding receive_checks
  receive_checks_inv hash r st w a h = elim (Option-cases (st.messages hash)) [
    | inl e ↦ absurd (ground arith)
    | inr (info, e) ↦ elim (Option-cases w.router.config) [
      | inl e₁ ↦ absurd (ground arith)
      | inr (config, e₁) ↦ elim (Option-cases (runtime.token_account r.recipient w.tokens)) [
        | inl e₂ ↦ absurd (ground arith)
        | inr (account, e₂) ↦
            let found : Received = record {
              config = config;
              message = info.message;
              recipient = account;
            } in
            let same : found ≡ a = ground arith in
            subst (λ k. AreChecked hash r st w k) same
              (record {
                info = info;
                is_info = e;
                is_message = refl;
                is_config = e₁;
                is_account = e₂;
                is_new = ground arith;
                is_mailbox = ground arith;
                is_signed = ground arith;
                is_open = ground arith;
              })
      ]
    ]
  ]

  -- A mint for a message.
  pub record IsReceived (hash : ℕ) (r : Receive) (st : MailboxState (World Tokens))
      (w w' : World Tokens) : Type 0 where
    pub accounts : Received
    pub mint : Mint
    pub checked : World Tokens
    pub are_checked : AreChecked hash r st w accounts
    pub is_hashed : runtime.sha256 (to_session_payload accounts.message) ≡ hash
    pub is_from : accounts.message.sender ≡ btc_staking_module_address
    pub is_decoded : from_message accounts.message.body ≡ ok mint
    pub is_token : mint.token_address ≡ r.mint
    pub is_to : is_recipient runtime r accounts.recipient mint.recipient ≡ true
    pub is_positive : 0 < mint.amount
    pub is_asked :
        check_bascule_gmp runtime accounts.config.bascule_gmp r
          (mint_message runtime accounts.message.nonce mint)
          w
        ≡ ok checked
    pub is_minted :
        runtime.mint_to r.token_program r.mint r.recipient r.mint_authority runtime.token_authority
          mint.amount checked.tokens
        ≡ some w'.tokens
    pub is_after : w' ≡ record checked {
      router = record checked.router {
        messages_handled = put hash (some tt) checked.router.messages_handled;
      };
      tokens = w'.tokens;
    }

  pub gmp_receive_inv :
      (hash : ℕ) (r : Receive) (st : MailboxState (World Tokens)) (w w' : World Tokens)
      → gmp_receive runtime hash r st w ≡ ok w'
      → IsReceived hash r st w w'
  unfolding gmp_receive
  gmp_receive_inv hash r st w w' h = elim (Outcome-cases (receive_checks runtime hash r st w)) [
    | inr failed ↦ absurd (ground arith)
    | inl (a, e) ↦ elim (Outcome-cases (from_message a.message.body)) [
      | inr failed ↦ absurd (ground arith)
      | inl (mint, e₁) ↦
          elim (Outcome-cases (
            check_bascule_gmp runtime a.config.bascule_gmp r
              (mint_message runtime a.message.nonce mint) w)) [
                | inr failed ↦ absurd (ground arith)
                | inl (checked, e₂) ↦
                    elim (Option-cases (
                      runtime.mint_to r.token_program r.mint r.recipient r.mint_authority
                        runtime.token_authority mint.amount checked.tokens)) [
                          | inl e₃ ↦ absurd (ground arith)
                          | inr (tokens, e₃) ↦ record {
                            accounts = a;
                            mint = mint;
                            checked = checked;
                            are_checked = receive_checks_inv hash r st w a e;
                            is_hashed = ground arith;
                            is_from = ground arith;
                            is_decoded = e₁;
                            is_token = ground arith;
                            is_to = ground arith;
                            is_positive = ground arith;
                            is_asked = e₂;
                            is_minted = ground (arith, e₃);
                            is_after = ground arith;
                          }
                        ]
              ]
    ]
  ]

  -- A call of the bascule leaves the router's accounts as they are.
  call_bascule_gmp-router :
      (program : ℕ) (m : MintMessage) (w checked : World Tokens)
      → call_bascule_gmp runtime program m w ≡ ok checked
      → checked.router ≡ w.router
  unfolding call_bascule_gmp
  call_bascule_gmp-router program m w checked h = ground arith

  pub check_bascule_gmp-router :
      (bascule : Option ℕ) (r : Receive) (m : MintMessage) (w checked : World Tokens)
      → check_bascule_gmp runtime bascule r m w ≡ ok checked
      → checked.router ≡ w.router
  unfolding check_bascule_gmp
  check_bascule_gmp-router none r m w checked h = ground arith
  check_bascule_gmp-router (some bascule) r m w checked h =
      elim (Option-cases r.bascule_gmp_program) [
        | inl e ↦ absurd (ground arith)
        | inr (program, e) ↦ call_bascule_gmp-router program m w checked (ground arith)
      ]

  -- If the bascule is that of this repository, it has let the mint through.
  call_bascule_gmp_inv :
      (m : MintMessage) (w checked : World Tokens)
      → call_bascule_gmp runtime runtime.bascule_gmp_id m w ≡ ok checked
      → (gmp : GmpState) × (validate_mint runtime.bascule_gmp runtime.bascule_validator m
            w.bascule_gmp
          ≡ ok gmp)
        × (checked ≡ record w { bascule_gmp = gmp })
  unfolding call_bascule_gmp
  call_bascule_gmp_inv m w checked h =
      elim (Outcome-cases
        (validate_mint runtime.bascule_gmp runtime.bascule_validator m w.bascule_gmp)) [
          | inr failed ↦ absurd (ground (arith, ==_refl runtime.bascule_gmp_id))
          | inl (gmp, went) ↦ (gmp, went, ground (arith, ==_refl runtime.bascule_gmp_id, went))
        ]

  pub check_bascule_gmp_inv :
      (r : Receive) (m : MintMessage) (w checked : World Tokens)
      → check_bascule_gmp runtime (some runtime.bascule_gmp_id) r m w ≡ ok checked
      → (gmp : GmpState) × (validate_mint runtime.bascule_gmp runtime.bascule_validator m
            w.bascule_gmp
          ≡ ok gmp)
        × (checked ≡ record w { bascule_gmp = gmp })
  unfolding check_bascule_gmp
  check_bascule_gmp_inv r m w checked h = elim (Option-cases r.bascule_gmp_program) [
    | inl e ↦ absurd (ground arith)
    | inr (program, e) ↦
        let called_it : call_bascule_gmp runtime program m w ≡ ok checked = ground arith in
        let ours : program ≡ runtime.bascule_gmp_id = ground arith in
        call_bascule_gmp_inv m w checked
          (subst (λ k. call_bascule_gmp runtime k m w ≡ ok checked) ours called_it)
  ]
