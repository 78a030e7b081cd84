-- ===== src/AssetRouter/Sending/Frame.antt =====
-- Staking deposits and redemptions leave the router's accounts as they are.
use sol_svm_contracts.Base.{
  ℕ, ◌-◌, ◌*◌, ◌≡◌, List, Option, none, some, inl, inr, ok, arith, Option-cases, Outcome-cases,
  ◌==◌,
}
use sol_svm_contracts.Base.Bytes.{to_be}
use sol_svm_contracts.Mailbox.State.{
  Config as MailboxConfig, State as MailboxState, Runtime as MailboxRuntime, SendResult,
}
use sol_svm_contracts.Mailbox.Message.{accountable_abi_bytes}
use sol_svm_contracts.Mailbox.Program.{charge, pay_fee}
use sol_svm_contracts.Mailbox.Program.Inversion.{send_message_inv}
use sol_svm_contracts.AssetRouter.State.{
  bitcoin_token_address, btc_staking_module_address, World, Runtime,
}
use sol_svm_contracts.AssetRouter.Sending.{
  SendAccounts, burn_and_send, deposit_checks, deposit, redeem_checks, pay_and_send, redeem,
  redeem_for_btc, btc_fee, btc_body, redeem_message,
}
use sol_svm_contracts.AssetRouter.Messages.{deposit_body, redeem_body, get_output_type}
use sol_svm_contracts.AssetRouter.Sending.Redemptions.{burn_and_send_inv}

module _ {Tokens : Type 0} (runtime : Runtime Tokens)
    (mailbox : MailboxRuntime (World Tokens)) where
  -- A transfer of lamports by the system program leaves the router's accounts as they are.
  abbrev pub TransferKeepsRouter : Type 0
  TransferKeepsRouter =
      (from to amount : ℕ) (w w' : World Tokens)
      → mailbox.transfer from to amount w ≡ some w'
      → w'.router ≡ w.router

  module _ (keeps : TransferKeepsRouter) where
    charge-router :
        (c : MailboxConfig) (payer : ℕ) (treasury price : Option ℕ) (len : ℕ) (w w' : World Tokens)
        → charge mailbox c payer treasury price len w ≡ ok w'
        → w'.router ≡ w.router
    unfolding charge pay_fee
    charge-router c payer treasury none len w w' h = ground arith
    charge-router c payer none (some price) len w w' h = ground arith
    charge-router c payer (some treasury) (some price) len w w' h =
        elim (Option-cases
          (mailbox.transfer payer treasury (accountable_abi_bytes len * price) w)) [
            | inl e ↦ ground arith
            | inr (w₁, e) ↦
                ground (arith, keeps payer treasury (accountable_abi_bytes len * price) w w₁ e)
          ]

    burn_and_send-router :
        (a : SendAccounts) (amount : ℕ) (body : List ℕ) (recipient : ℕ)
        (st st' : MailboxState (World Tokens)) (result : SendResult)
        → burn_and_send runtime mailbox a amount body recipient st ≡ ok (st', result)
        → st'.world.router ≡ st.world.router
    burn_and_send-router a amount body recipient st st' result h =
        let (tokens, _, went) =
          burn_and_send_inv runtime mailbox a amount body recipient st st' result h in
        let (c, path, s, price, _, _, _, _, _, _, _, charged, _, _) =
          send_message_inv mailbox a.payer _ _ st' result went in
        charge-router c a.payer a.treasury price _ _ st'.world charged

    pay_and_send-router :
        (a : SendAccounts) (y fee rest : ℕ) (body : List ℕ) (handler : ℕ)
        (st st' : MailboxState (World Tokens)) (result : SendResult)
        → pay_and_send runtime mailbox a y fee rest body handler st ≡ ok (st', result)
        → st'.world.router ≡ st.world.router
    unfolding pay_and_send
    pay_and_send-router a y fee rest body handler st st' result h =
        elim (Option-cases (
          runtime.transfer_checked a.token_program a.payer_token_account y a.payer a.mint fee 8
            st.world.tokens)) [
              | inl e ↦ absurd (ground arith)
              | inr (paid, e) ↦
                  burn_and_send-router a rest body handler
                    (record st { world = record st.world { tokens = paid } }) st' result
                    (ground arith)
            ]

    pub deposit-router :
        (a : SendAccounts) (c t r n : ℕ) (st st' : MailboxState (World Tokens))
        (result : SendResult)
        → deposit runtime mailbox a c t r n st ≡ ok (st', result)
        → st'.world.router ≡ st.world.router
    unfolding deposit
    deposit-router a c t r n st st' result h =
        elim (Outcome-cases (deposit_checks runtime mailbox a c t st)) [
          | inr failed ↦ absurd (ground arith)
          | inl (config, e) ↦
              burn_and_send-router a n
                (deposit_body (record {
                  destination_chain_id = c;
                  staking_token_address = t;
                  sender = a.payer_token_account;
                  recipient = r;
                  amount = n;
                }))
                btc_staking_module_address st st' result (ground arith)
        ]

    pub redeem-router :
        (a : SendAccounts) (y c t r n : ℕ) (st st' : MailboxState (World Tokens))
        (result : SendResult)
        → redeem runtime mailbox a y c t r n st ≡ ok (st', result)
        → st'.world.router ≡ st.world.router
    unfolding redeem
    redeem-router a y c t r n st st' result h =
        elim (Outcome-cases (redeem_checks runtime mailbox a y (λ k. (c, t)) st)) [
          | inr failed ↦ absurd (ground arith)
          | inl ((config, token), e) ↦
              pay_and_send-router a y token.redeem_fee (n - token.redeem_fee)
                (redeem_body
                  (redeem_message runtime mailbox a c (to_be 32 r) (n - token.redeem_fee)))
                token.ledger_redeem_handler st st' result (ground arith)
        ]

    pub redeem_for_btc-router :
        (a : SendAccounts) (y : ℕ) (s : List ℕ) (n : ℕ) (st st' : MailboxState (World Tokens))
        (result : SendResult)
        → redeem_for_btc runtime mailbox a y s n st ≡ ok (st', result)
        → st'.world.router ≡ st.world.router
    unfolding redeem_for_btc
    redeem_for_btc-router a y s n st st' result h =
        elim (Outcome-cases (
          redeem_checks runtime mailbox a y (λ k. (k.bitcoin_lchain_id, bitcoin_token_address))
            st)) [
              | inr failed ↦ absurd (ground arith)
              | inl ((config, token), e) ↦
                  elim (Outcome-cases
                    (btc_fee runtime mailbox (a.mint == config.native_mint) token)) [
                      | inr failed ↦ absurd (ground arith)
                      | inl (fee, e₁) ↦ elim (Outcome-cases (get_output_type s)) [
                        | inr failed ↦ absurd (ground arith)
                        | inl (kind, e₂) ↦
                            pay_and_send-router a y fee (n - fee)
                              (btc_body runtime mailbox (a.mint == config.native_mint) a
                                config.bitcoin_lchain_id s (n - fee))
                              token.ledger_redeem_handler st st' result (ground arith)
                      ]
                    ]
            ]
