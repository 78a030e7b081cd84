-- ===== src/AssetRouter/Sending/Settling.antt =====
-- The payment of a redemption: the fee, the tokens that are burned, and the message to the ledger.
use sol_svm_contracts.Base.{
  ℕ, ◌+◌, ◌<◌, ◌≡◌, List, none, some, inl, inr, false, refl, ap, ◌∙◌, subst, ==_refl, ok, arith,
  Option-cases,
}
use sol_svm_contracts.Mailbox.State.{
  Config as MailboxConfig, OutboundMessagePath, State as MailboxState, Runtime as MailboxRuntime,
  SendResult,
}
use sol_svm_contracts.Mailbox.Message.{to_session_payload}
use sol_svm_contracts.Mailbox.Program.Inversion.{sent, send_message_inv}
use sol_svm_contracts.AssetRouter.State.{btc_decimals, Config, TokenConfig, World, Runtime}
use sol_svm_contracts.AssetRouter.Sending.{SendAccounts, to_send, burn_and_send, pay_and_send}
use sol_svm_contracts.AssetRouter.Sending.Redemptions.{with_tokens, burn_and_send_inv, AreChecked}

module _ {Tokens : Type 0} (runtime : Runtime Tokens)
    (mailbox : MailboxRuntime (World Tokens)) where
  -- `fee` goes to the treasury's token account, `rest` is burned, and the mailbox stores a message
  -- from the router with the body.
  pub record IsSettled (a : SendAccounts) (treasury_token_account fee rest : ℕ) (body : List ℕ)
      (handler : ℕ) (st st' : MailboxState (World Tokens)) : Type 0 where
    pub paid : Tokens
    pub burned : Tokens
    pub c : MailboxConfig
    pub path : OutboundMessagePath
    pub is_paid :
        runtime.transfer_checked a.token_program a.payer_token_account treasury_token_account
          a.payer a.mint fee btc_decimals st.world.tokens
        ≡ some paid
    pub is_burned :
        runtime.burn a.token_program a.payer_token_account a.mint a.payer rest paid ≡ some burned
    pub is_config : st.config ≡ some c
    pub is_path : st.outbound_message_paths a.path ≡ some path
    pub is_stored :
        st'.outbound_messages c.global_nonce
        ≡ some (
            to_session_payload (record {
              message_path_identifier = path.identifier;
              nonce = c.global_nonce;
              sender = runtime.router_id;
              recipient = handler;
              destination_caller = none;
              body = body;
            }))

  pay_and_send_inv :
      (a : SendAccounts) (treasury_token_account fee rest : ℕ) (body : List ℕ) (handler : ℕ)
      (st st' : MailboxState (World Tokens)) (result : SendResult)
      → mailbox.bytes_are_curve_point runtime.messaging_authority ≡ false
      → pay_and_send runtime mailbox a treasury_token_account fee rest body handler st
        ≡ ok (st', result)
      → IsSettled a treasury_token_account fee rest body handler st st'
  unfolding pay_and_send
  pay_and_send_inv a y fee rest body handler st st' result derived h =
      elim (Option-cases (
        runtime.transfer_checked a.token_program a.payer_token_account y a.payer a.mint fee
          btc_decimals st.world.tokens)) [
            | inl e ↦ absurd (ground arith)
            | inr (paid, e) ↦
                let rest_sent : burn_and_send runtime mailbox a rest body handler
                      (with_tokens runtime mailbox st paid)
                    ≡ ok (st', result) =
                  ground arith in
                let (burned, is_burned, went) =
                  burn_and_send_inv runtime mailbox a rest body handler
                    (with_tokens runtime mailbox st paid) st' result rest_sent in
                let (c, path, s, price, there, way, _, _, _, _, _, _, eq, _) =
                  send_message_inv mailbox a.payer (to_send runtime mailbox a body handler)
                    (with_tokens runtime mailbox (with_tokens runtime mailbox st paid) burned) st'
                    result went in
                let sent_so : sent mailbox c path (to_send runtime mailbox a body handler)
                    ≡ record {
                      message_path_identifier = path.identifier;
                      nonce = c.global_nonce;
                      sender = runtime.router_id;
                      recipient = handler;
                      destination_caller = none;
                      body = body;
                    } =
                  rw (derived) refl in
                record {
                  paid = paid;
                  burned = burned;
                  c = c;
                  path = path;
                  is_paid = e;
                  is_burned = is_burned;
                  is_config = there;
                  is_path = way;
                  is_stored =
                      ap (λ k. k.outbound_messages c.global_nonce) eq
                      ∙ rw (==_refl c.global_nonce) (ap (λ m. some (to_session_payload m)) sent_so);
                }
          ]

  -- A redemption: the fee of the token's config and the rest make up the amount.
  pub record IsRedemption (a : SendAccounts) (treasury_token_account : ℕ) (to : Config → ℕ × ℕ)
      (amount : ℕ) (c : Config) (t : TokenConfig) (fee : ℕ) (body : ℕ → List ℕ)
      (st st' : MailboxState (World Tokens)) : Type 0 where
    pub rest : ℕ
    pub is_split : fee + rest ≡ amount
    pub is_positive : 0 < rest
    pub are_checked : AreChecked runtime mailbox a treasury_token_account to st c t
    pub is_settled :
        IsSettled a treasury_token_account fee rest (body rest) t.ledger_redeem_handler st st'

  pub pay_and_send_as :
      (a : SendAccounts) (treasury_token_account fee rest : ℕ) (body body' : List ℕ) (handler : ℕ)
      (st st' : MailboxState (World Tokens)) (result : SendResult)
      → body ≡ body'
      → mailbox.bytes_are_curve_point runtime.messaging_authority ≡ false
      → pay_and_send runtime mailbox a treasury_token_account fee rest body handler st
        ≡ ok (st', result)
      → IsSettled a treasury_token_account fee rest body' handler st st'
  pay_and_send_as a y fee rest body body' handler st st' result same derived h =
      subst (λ b. IsSettled a y fee rest b handler st st') same
        (pay_and_send_inv a y fee rest body handler st st' result derived h)
