-- ===== src/AssetRouter/Sending/Redemptions.antt =====
-- What a redemption takes, burns and sends.
use sol_svm_contracts.Base.{
  ℕ, ◌≡◌, refl, ap, ◌∙◌, subst, false, List, some, inl, inr, ok, arith, Option-cases, Outcome-cases,
}
use sol_svm_contracts.Mailbox.State.{
  OutboundMessagePath, State as MailboxState, Runtime as MailboxRuntime, SendResult,
}
use sol_svm_contracts.Mailbox.Program.{send_message}
use sol_svm_contracts.AssetRouter.State.{
  Config, TokenConfig, is_deposit, TokenRouteType, Route, TokenAccount, World, Runtime,
}
use sol_svm_contracts.AssetRouter.Sending.{
  SendAccounts, to_send, execute_burn, burn_and_send, redeem_checks,
}

is_deposit-false : (k : TokenRouteType) → is_deposit k ≡ false → k ≡ TokenRouteType.redeem
is_deposit-false TokenRouteType.deposit h = absurd (cc h)
is_deposit-false TokenRouteType.redeem h = refl

module _ {Tokens : Type 0} (runtime : Runtime Tokens)
    (mailbox : MailboxRuntime (World Tokens)) where
  abbrev pub with_tokens : MailboxState (World Tokens) → Tokens → MailboxState (World Tokens)
  with_tokens st tokens = record st { world = record st.world { tokens = tokens } }

  pub burn_and_send_inv :
      (a : SendAccounts) (amount : ℕ) (body : List ℕ) (recipient : ℕ)
      (st st' : MailboxState (World Tokens)) (result : SendResult)
      → burn_and_send runtime mailbox a amount body recipient st ≡ ok (st', result)
      → (tokens : Tokens) × (runtime.burn a.token_program a.payer_token_account a.mint a.payer
            amount st.world.tokens
          ≡ some tokens)
        × (send_message mailbox a.payer
              (to_send runtime mailbox a body recipient)
              (with_tokens st tokens)
            ≡ ok (st', result))
  unfolding burn_and_send execute_burn
  burn_and_send_inv a amount body recipient st st' result h =
      elim (Option-cases (
        runtime.burn a.token_program a.payer_token_account a.mint a.payer amount st.world.tokens)) [
          | inl e ↦ absurd (ground arith)
          | inr (tokens, e) ↦
              elim (Outcome-cases (
                send_message mailbox a.payer (to_send runtime mailbox a body recipient)
                  (with_tokens st tokens))) [
                    | inr failed ↦ absurd (ground arith)
                    | inl (done, went) ↦ (tokens, e, ground (arith, went))
                  ]
        ]

  -- The checks of the accounts.
  pub record AreChecked (a : SendAccounts) (treasury_token_account : ℕ) (to : Config → ℕ × ℕ)
      (st : MailboxState (World Tokens)) (c : Config) (t : TokenConfig) : Type 0 where
    pub treasury : TokenAccount
    pub outbound : OutboundMessagePath
    pub account : TokenAccount
    pub is_config : st.world.router.config ≡ some c
    pub is_token_config : st.world.router.token_configs a.mint ≡ some t
    pub is_route :
        st.world.router.token_routes (record {
          from_chain_id = runtime.chain_id;
          from_token_address = a.mint;
          to_chain_id = (to c).0;
          to_token_address = (to c).1;
        })
        ≡ some TokenRouteType.redeem
    pub is_account : runtime.token_account a.payer_token_account st.world.tokens ≡ some account
    pub is_of_payer : (account.owner ≡ a.payer) × (account.mint ≡ a.mint)
    pub is_treasury : runtime.token_account treasury_token_account st.world.tokens ≡ some treasury
    pub is_of_treasury : (treasury.owner ≡ c.treasury) × (treasury.mint ≡ a.mint)
    pub is_outbound : st.outbound_message_paths a.path ≡ some outbound
    pub is_to_ledger : outbound.destination_chain_id ≡ c.ledger_lchain_id
    pub is_open : c.paused ≡ false

  pub redeem_checks_inv :
      (a : SendAccounts) (treasury_token_account : ℕ) (to : Config → ℕ × ℕ)
      (st : MailboxState (World Tokens)) (c : Config) (t : TokenConfig)
      → redeem_checks runtime mailbox a treasury_token_account to st ≡ ok (c, t)
      → AreChecked a treasury_token_account to st c t
  unfolding redeem_checks
  redeem_checks_inv a treasury_token_account to st c t h =
      elim (Option-cases st.world.router.config) [
        | inl e ↦ absurd (ground arith)
        | inr (config, e) ↦ elim (Option-cases (st.world.router.token_configs a.mint)) [
          | inl e₁ ↦ absurd (ground arith)
          | inr (token_config, e₁) ↦
              elim (Option-cases (st.world.router.token_routes (route config))) [
                | inl e₂ ↦ absurd (ground arith)
                | inr (route_type, e₂) ↦ with_route config e token_config e₁ route_type e₂
              ]
        ]
      ]
    where
      route : Config → Route
      route c = record {
        from_chain_id = runtime.chain_id;
        from_token_address = a.mint;
        to_chain_id = (to c).0;
        to_token_address = (to c).1;
      }

      with_route :
          (config : Config)
          → st.world.router.config ≡ some config
          → (token_config : TokenConfig) → st.world.router.token_configs a.mint ≡ some token_config
          → (route_type : TokenRouteType)
          → st.world.router.token_routes (record {
            from_chain_id = runtime.chain_id;
            from_token_address = a.mint;
            to_chain_id = (to config).0;
            to_token_address = (to config).1;
          })
            ≡ some route_type
          → AreChecked a treasury_token_account to st c t
      with_route config e token_config e₁ route_type e₂ =
          elim (Option-cases (runtime.token_account a.payer_token_account st.world.tokens)) [
            | inl e₃ ↦ absurd (ground arith)
            | inr (account, e₃) ↦
                elim (Option-cases (runtime.token_account treasury_token_account st.world.tokens)) [
                  | inl e₄ ↦ absurd (ground arith)
                  | inr (treasury, e₄) ↦ elim (Option-cases st.world.router.messaging_authority) [
                    | inl e₅ ↦ absurd (ground arith)
                    | inr (authority, e₅) ↦ elim (Option-cases (st.outbound_message_paths a.path)) [
                      | inl e₆ ↦ absurd (ground arith)
                      | inr (outbound, e₆) ↦
                          let same : config ≡ c = ground arith in
                          let same₁ : token_config ≡ t = ground arith in
                          subst (λ k. AreChecked a treasury_token_account to st k t) same
                            (subst (λ k. AreChecked a treasury_token_account to st config k) same₁
                              (record {
                                treasury = treasury;
                                outbound = outbound;
                                account = account;
                                is_config = e;
                                is_token_config = e₁;
                                is_route =
                                    e₂ ∙ ap some (is_deposit-false route_type (ground arith));
                                is_account = e₃;
                                is_of_payer = (ground arith, ground arith);
                                is_treasury = e₄;
                                is_of_treasury = (ground arith, ground arith);
                                is_outbound = e₆;
                                is_to_ledger = ground arith;
                                is_open = ground arith;
                              }))
                    ]
                  ]
                ]
          ]
