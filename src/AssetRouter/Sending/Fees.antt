-- ===== src/AssetRouter/Sending/Fees.antt =====
-- The fees of a redemption, and what the ledger is asked for.
use sol_svm_contracts.Base.{
  ℕ, ◌+◌, ◌-◌, ◌≤◌, ◌<◌, ◌≡◌, ◌⊎◌, List, inl, inr, false, ◌==◌, ==_iff, ok, arith, Outcome-cases,
  Bool-cases,
}
use sol_svm_contracts.Base.Bytes.{to_be}
use sol_svm_contracts.Mailbox.State.{State as MailboxState, Runtime as MailboxRuntime, SendResult}
use sol_svm_contracts.AssetRouter.State.{bitcoin_token_address, Config, TokenConfig, World, Runtime}
use sol_svm_contracts.AssetRouter.Messages.{redeem_body, OutputType, get_output_type}
use sol_svm_contracts.AssetRouter.Messages.Layout.{IsScript, get_output_type-IsScript}
use sol_svm_contracts.AssetRouter.Messages.Requests.{
  native_request, token_request, redeem_for_btc_body-native, redeem_body-token,
}
use sol_svm_contracts.AssetRouter.Sending.{
  SendAccounts, redeem_checks, pay_and_send, redeem_message, redeem, btc_fee, btc_body,
  redeem_for_btc,
}
use sol_svm_contracts.AssetRouter.Sending.Redemptions.{redeem_checks_inv}
use sol_svm_contracts.AssetRouter.Sending.Settling.{IsRedemption, pay_and_send_as}

module _ {Tokens : Type 0} (runtime : Runtime Tokens)
    (mailbox : MailboxRuntime (World Tokens)) where
  -- A redemption that goes through, over a redeem route of this chain and while the router is open,
  -- splits its amount in the fee of the token's config, which goes to a token account of the
  -- treasury, and a positive rest, which is burned. The mailbox stores a message of the router to the
  -- config's handler, over a path to the ledger's chain, and it asks for that rest. (The messaging
  -- authority, a derived address, is not on the curve.)
  pub redeem-IsRedemption :
      (a : SendAccounts) (treasury_token_account to_lchain_id to_token_address recipient amount : ℕ)
      (st st' : MailboxState (World Tokens)) (result : SendResult)
      → mailbox.bytes_are_curve_point runtime.messaging_authority ≡ false
      → redeem runtime mailbox a treasury_token_account to_lchain_id to_token_address recipient
          amount st
        ≡ ok (st', result)
      → (c : Config) × (t : TokenConfig) × IsRedemption runtime mailbox a treasury_token_account
          (λ k. (to_lchain_id, to_token_address))
          amount
          c
          t
          t.redeem_fee
          (token_request to_lchain_id a.mint a.payer_token_account (to_be 32 recipient))
          st
          st'
  unfolding redeem
  redeem-IsRedemption a y to_chain to_token recipient amount st st' result derived h =
      elim (Outcome-cases (redeem_checks runtime mailbox a y (λ k. (to_chain, to_token)) st)) [
        | inr failed ↦ absurd (ground arith)
        | inl ((c, t), e) ↦
            let rest : ℕ = amount - t.redeem_fee in
            let message = redeem_message runtime mailbox a to_chain (to_be 32 recipient) rest in
            (
              c,
              t,
              record {
                rest = rest;
                is_split = ground arith;
                is_positive = ground arith;
                are_checked = redeem_checks_inv runtime mailbox a y _ st c t e;
                is_settled =
                    pay_and_send_as runtime mailbox a y t.redeem_fee rest (redeem_body message) _
                      t.ledger_redeem_handler st st' result (redeem_body-token message) derived
                      (ground arith);
              },
            )
      ]

  abbrev to_bitcoin : Config → ℕ × ℕ
  to_bitcoin c = (c.bitcoin_lchain_id, bitcoin_token_address)

  -- Of the native mint for the commission, or of another for the redeem fee and the commission.
  abbrev pub IsBtcRedemption :
      SendAccounts
      → (treasury_token_account : ℕ) (script : List ℕ) (amount : ℕ) → Config
      → TokenConfig
      → (fee : ℕ) → (st st' : MailboxState (World Tokens)) → Type 0
  IsBtcRedemption a treasury_token_account script amount c t fee st st' =
      ((a.mint ≡ c.native_mint)
        × (fee ≡ t.to_native_commission)
        × IsRedemption runtime mailbox a treasury_token_account to_bitcoin amount c t fee
            (native_request a.payer_token_account script) st st')
      ⊎ (((a.mint ≡ c.native_mint) → ⊥)
          × (fee ≡ t.redeem_fee + t.to_native_commission)
          × IsRedemption runtime mailbox a treasury_token_account to_bitcoin amount c t fee
              (token_request c.bitcoin_lchain_id a.mint a.payer_token_account script) st st')

  btc_redemption :
      (a : SendAccounts) (y : ℕ) (script : List ℕ) (amount : ℕ) (c : Config) (t : TokenConfig)
      (fee : ℕ) (st st' : MailboxState (World Tokens)) (result : SendResult)
      → mailbox.bytes_are_curve_point runtime.messaging_authority ≡ false
      → redeem_checks runtime mailbox a y to_bitcoin st ≡ ok (c, t)
      → btc_fee runtime mailbox (a.mint == c.native_mint) t ≡ ok fee
      → fee < amount
      → pay_and_send runtime mailbox a y fee
          (amount - fee)
          (btc_body runtime mailbox
            (a.mint == c.native_mint)
            a
            c.bitcoin_lchain_id
            script
            (amount - fee))
          t.ledger_redeem_handler
          st
        ≡ ok (st', result)
      → IsBtcRedemption a y script amount c t fee st st'
  btc_redemption a y script amount c t fee st st' result derived e priced less h =
      let rest : ℕ = amount - fee in
      elim (Bool-cases (a.mint == c.native_mint)) [
        | inl native ↦ inl (
          (==_iff a.mint c.native_mint).0 native,
          ground (arith, priced, native),
          record {
            rest = rest;
            is_split = omega (arith, less);
            is_positive = omega (arith, less);
            are_checked = redeem_checks_inv runtime mailbox a y _ st c t e;
            is_settled =
                pay_and_send_as runtime mailbox a y fee rest _ _ t.ledger_redeem_handler st st'
                  result
                  (rw (native) (
                    redeem_for_btc_body-native (record {
                      sender = a.payer_token_account;
                      script_pubkey = script;
                      amount = rest;
                    })))
                  derived h;
          },
        )
        | inr other ↦ inr (
          λ eq. absurd (cc (other, (==_iff a.mint c.native_mint).1 eq)),
          ground (arith, priced, other),
          record {
            rest = rest;
            is_split = omega (arith, less);
            is_positive = omega (arith, less);
            are_checked = redeem_checks_inv runtime mailbox a y _ st c t e;
            is_settled =
                pay_and_send_as runtime mailbox a y fee rest _ _ t.ledger_redeem_handler st st'
                  result
                  (rw (other) (
                    redeem_body-token
                      (redeem_message runtime mailbox a c.bitcoin_lchain_id script rest)))
                  derived h;
          },
        )
      ]

  -- A redemption for bitcoin that goes through, over the redeem route of this chain to bitcoin and
  -- while the router is open, is for a script of one of the three kinds. It splits its amount in the
  -- fee, which goes to a token account of the treasury, and a positive rest, which is burned and is
  -- at least the minimum of the token's config. For the native mint the fee is the config's
  -- commission, and the message asks for the rest for that script; for another mint the redeem fee is
  -- added to the commission, and the message names the mint and the chain of bitcoin as well. The
  -- mailbox stores the message, of the router and to the config's handler, over a path to the ledger's
  -- chain. (The messaging authority, a derived address, is not on the curve.)
  pub redeem_for_btc-IsRedemption :
      (a : SendAccounts) (treasury_token_account : ℕ) (script_pubkey : List ℕ) (amount : ℕ)
      (st st' : MailboxState (World Tokens)) (result : SendResult)
      → mailbox.bytes_are_curve_point runtime.messaging_authority ≡ false
      → redeem_for_btc runtime mailbox a treasury_token_account script_pubkey amount st
        ≡ ok (st', result)
      → (c : Config) × (t : TokenConfig) × (fee : ℕ) × (kind : OutputType) × IsScript kind
          script_pubkey
        × (t.redeem_for_btc_min_amount + fee ≤ amount)
        × IsBtcRedemption a treasury_token_account script_pubkey amount c t fee st st'
  unfolding redeem_for_btc
  redeem_for_btc-IsRedemption a y script amount st st' result derived h =
      elim (Outcome-cases (
        redeem_checks runtime mailbox a y (λ k. (k.bitcoin_lchain_id, bitcoin_token_address)) st)) [
          | inr failed ↦ absurd (ground arith)
          | inl ((c, t), e) ↦
              elim (Outcome-cases (btc_fee runtime mailbox (a.mint == c.native_mint) t)) [
                | inr failed ↦ absurd (ground arith)
                | inl (fee, priced) ↦ elim (Outcome-cases (get_output_type script)) [
                  | inr failed ↦ absurd (ground arith)
                  | inl (kind, supported) ↦ (
                    c,
                    t,
                    fee,
                    kind,
                    get_output_type-IsScript script kind supported,
                    ground arith,
                    btc_redemption a y script amount c t fee st st' result derived e priced
                        (ground arith) (ground arith),
                  )
                ]
              ]
        ]
