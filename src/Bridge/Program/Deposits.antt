-- ===== src/Bridge/Program/Deposits.antt =====
-- What a deposit that goes through has found and done.
use sol_svm_contracts.Base.{
  ◌-◌, ◌≤◌, ◌<◌, ◌≡◌, subst, true, false, some, inl, inr, ok, arith, Option-cases, Outcome-cases,
}
use sol_svm_contracts.Mailbox.State.{
  fee_adjustment_base, OutboundMessagePath, State as MailboxState, Runtime as MailboxRuntime,
  SendResult,
}
use sol_svm_contracts.Mailbox.Instruction.{Send}
use sol_svm_contracts.Mailbox.Program.{sender_of, send_message}
use sol_svm_contracts.Bridge.State.{
  Config, SenderConfig, LocalTokenConfig, outbound_direction, TokenAccount, Surroundings, Runtime,
}
use sol_svm_contracts.Bridge.Messages.{to_gmp_body}
use sol_svm_contracts.Bridge.Instruction.{Deposit}
use sol_svm_contracts.Bridge.Sending.{
  allows, to_send, to_bridge_token, execute_burn, DepositAccounts, deposit_checks, deposit_accounts,
  deposit,
}

module _ {Bucket LimitConfig Tokens : Type 0} (runtime : Runtime Bucket LimitConfig Tokens)
    (mailbox : MailboxRuntime (Surroundings Bucket Tokens)) where
  -- The accounts of a deposit pass the checks.
  pub record AreChecked (d : Deposit) (a : DepositAccounts Bucket) (account : TokenAccount)
      : Type 0 where
    pub is_open : a.config.paused ≡ false
    pub is_whitelisted : a.sender_config.whitelisted ≡ true
    pub is_enabled : allows a.remote_token.direction outbound_direction ≡ true
    pub is_mailbox : runtime.mailbox_id ≡ a.config.mailbox
    pub is_of_sender : account.owner ≡ d.sender_authority.key
    pub is_of_mint : account.mint ≡ d.token_mint

  deposit_checks_inv :
      (d : Deposit) (a : DepositAccounts Bucket) (account : TokenAccount) (local : LocalTokenConfig)
      (tokens : Tokens)
      → deposit_checks runtime mailbox d a account local tokens ≡ ok tt
      → AreChecked d a account
  unfolding deposit_checks
  deposit_checks_inv d a account local tokens h = record {
    is_open = ground arith;
    is_whitelisted = ground arith;
    is_enabled = ground arith;
    is_mailbox = ground arith;
    is_of_sender = ground arith;
    is_of_mint = ground arith;
  }

  -- They are those of the state.
  pub record AreDepositAccounts (d : Deposit) (st : MailboxState (Surroundings Bucket Tokens))
      (a : DepositAccounts Bucket) : Type 0 where
    pub account : TokenAccount
    pub is_account : runtime.token_account d.sender_token_account st.world.tokens ≡ some account
    pub is_config : st.world.bridge.config ≡ some a.config
    pub is_sender_config :
        st.world.bridge.sender_configs (sender_of mailbox d.sender_authority) ≡ some a.sender_config
    pub is_outbound : st.outbound_message_paths d.path ≡ some a.outbound
    pub is_remote_bridge :
        st.world.bridge.remote_bridge_configs a.outbound.destination_chain_id ≡ some a.remote_bridge
    pub is_remote_token :
        st.world.bridge.remote_token_configs d.token_mint a.outbound.destination_chain_id
        ≡ some a.remote_token
    pub are_checked : AreChecked d a account

  deposit_accounts_inv :
      (d : Deposit) (st : MailboxState (Surroundings Bucket Tokens)) (a : DepositAccounts Bucket)
      → deposit_accounts runtime mailbox d st ≡ ok a
      → AreDepositAccounts d st a
  unfolding deposit_accounts
  deposit_accounts_inv d st a h =
      elim (Option-cases (runtime.token_account d.sender_token_account st.world.tokens)) [
        | inl e ↦ absurd (ground arith)
        | inr (account, e) ↦ elim (Option-cases st.world.bridge.config) [
          | inl e₁ ↦ absurd (ground arith)
          | inr (config, e₁) ↦
              elim (Option-cases
                (st.world.bridge.sender_configs (sender_of mailbox d.sender_authority))) [
                  | inl e₂ ↦ absurd (ground arith)
                  | inr (sender_config, e₂) ↦
                      elim (Option-cases (st.outbound_message_paths d.path)) [
                        | inl e₃ ↦ absurd (ground arith)
                        | inr (outbound, e₃) ↦
                            with_path account e config e₁ sender_config e₂ outbound e₃
                      ]
                ]
        ]
      ]
    where
      with_path :
          (account : TokenAccount)
          → runtime.token_account d.sender_token_account st.world.tokens ≡ some account
          → (config : Config) → st.world.bridge.config ≡ some config
          → (sender_config : SenderConfig)
          → st.world.bridge.sender_configs (sender_of mailbox d.sender_authority)
            ≡ some sender_config
          → (outbound : OutboundMessagePath) → st.outbound_message_paths d.path ≡ some outbound
          → AreDepositAccounts d st a
      with_path account e config e₁ sender_config e₂ outbound e₃ =
          elim (Option-cases
            (st.world.bridge.remote_bridge_configs outbound.destination_chain_id)) [
              | inl e₄ ↦ absurd (ground arith)
              | inr (remote_bridge, e₄) ↦
                  elim (Option-cases (st.world.bridge.local_token_configs d.token_mint)) [
                    | inl e₅ ↦ absurd (ground arith)
                    | inr (local, e₅) ↦
                        elim (Option-cases (
                          st.world.bridge.remote_token_configs d.token_mint
                            outbound.destination_chain_id)) [
                              | inl e₆ ↦ absurd (ground arith)
                              | inr (remote_token, e₆) ↦
                                  let accounts : DepositAccounts Bucket = record {
                                    config = config;
                                    sender_config = sender_config;
                                    outbound = outbound;
                                    remote_bridge = remote_bridge;
                                    remote_token = remote_token;
                                  } in
                                  elim (Outcome-cases (
                                    deposit_checks runtime mailbox d accounts account local
                                      st.world.tokens)) [
                                        | inr failed ↦ absurd (ground arith)
                                        | inl (_, checked) ↦
                                            let same : accounts ≡ a = ground arith in
                                            subst (λ x. AreDepositAccounts d st x) same
                                              (record {
                                                account = account;
                                                is_account = e;
                                                is_config = e₁;
                                                is_sender_config = e₂;
                                                is_outbound = e₃;
                                                is_remote_bridge = e₄;
                                                is_remote_token = e₆;
                                                are_checked =
                                                    deposit_checks_inv d accounts account local
                                                      st.world.tokens checked;
                                              })
                                      ]
                            ]
                  ]
            ]

  execute_burn_inv :
      (d : Deposit) (tokens tokens' : Tokens)
      → execute_burn runtime mailbox d tokens ≡ ok tokens'
      → runtime.burn d.token_program d.sender_token_account d.token_mint d.sender_authority.key
          d.amount tokens
        ≡ some tokens'
  unfolding execute_burn
  execute_burn_inv d tokens tokens' h =
      elim (Option-cases (
        runtime.burn d.token_program d.sender_token_account d.token_mint d.sender_authority.key
          d.amount tokens)) [ inl e ↦ absurd (ground arith) | inr (t, e) ↦ ground arith ]

  -- What is sent.
  abbrev pub sending : Deposit → DepositAccounts Bucket → Send
  sending d a =
      to_send runtime mailbox d a.remote_bridge.bridge
        (to_gmp_body (to_bridge_token runtime mailbox d a.remote_token.token))
        (fee_adjustment_base - a.sender_config.fee_discount)

  -- A deposit: the amount is burned, and the mailbox sends the message.
  pub record IsDeposit (d : Deposit) (st st' : MailboxState (Surroundings Bucket Tokens))
      (result : SendResult) : Type 0 where
    pub a : DepositAccounts Bucket
    pub tokens : Tokens
    pub is_accounts : deposit_accounts runtime mailbox d st ≡ ok a
    pub is_found : AreDepositAccounts d st a
    pub is_positive : 0 < d.amount
    pub is_discount : a.sender_config.fee_discount ≤ fee_adjustment_base
    pub is_burned :
        runtime.burn d.token_program d.sender_token_account d.token_mint d.sender_authority.key
          d.amount st.world.tokens
        ≡ some tokens
    pub is_sent :
        send_message mailbox d.fee_payer
          (sending d a)
          (record st { world = record st.world { tokens = tokens } })
        ≡ ok (st', result)

  pub deposit_inv :
      (d : Deposit) (st st' : MailboxState (Surroundings Bucket Tokens)) (result : SendResult)
      → deposit runtime mailbox d st ≡ ok (st', result)
      → IsDeposit d st st' result
  unfolding deposit
  deposit_inv d st st' result h = elim (Outcome-cases (deposit_accounts runtime mailbox d st)) [
    | inr failed ↦ absurd (ground arith)
    | inl (a, found) ↦ elim (Outcome-cases (execute_burn runtime mailbox d st.world.tokens)) [
      | inr failed ↦ absurd (ground arith)
      | inl (tokens, burned) ↦
          elim (Outcome-cases (
            send_message mailbox d.fee_payer (sending d a)
              (record st { world = record st.world { tokens = tokens } }))) [
                | inr failed ↦ absurd (ground arith)
                | inl (done, sent) ↦ record {
                  a = a;
                  tokens = tokens;
                  is_accounts = found;
                  is_found = deposit_accounts_inv d st a found;
                  is_positive = ground arith;
                  is_discount = ground arith;
                  is_burned = execute_burn_inv d st.world.tokens tokens burned;
                  is_sent = ground (arith, sent);
                }
              ]
    ]
  ]
