-- ===== src/Bridge/Program/Inversion.antt =====
-- What a receipt or a deposit that goes through has found and done.
use sol_svm_contracts.Base.{
  ℕ, ◌<◌, ◌≡◌, refl, subst, true, false, none, some, inl, inr, ok, arith, Option-cases,
  Outcome-cases,
}
use sol_svm_contracts.Mailbox.State.{
  MessageV1Info, InboundMessagePath, State as MailboxState, Runtime as MailboxRuntime,
}
use sol_svm_contracts.Mailbox.Message.{to_session_payload}
use sol_svm_contracts.Bridge.State.{
  Config, LocalTokenConfig, inbound_direction, TokenAccount, Surroundings, Runtime,
}
use sol_svm_contracts.Bridge.Messages.{Mint, from_message, InboundResponse}
use sol_svm_contracts.Bridge.Instruction.{Receive}
use sol_svm_contracts.Bridge.Sending.{allows}
use sol_svm_contracts.Bridge.Receiving.{
  is_recipient, execute_mint, received, GmpReceive, receive_checks, gmp_receive_accounts,
  gmp_receive,
}

module _ {Bucket LimitConfig Tokens : Type 0} (runtime : Runtime Bucket LimitConfig Tokens)
    (mailbox : MailboxRuntime (Surroundings Bucket Tokens)) where
  execute_mint_inv :
      (r : Receive) (amount : ℕ) (tokens tokens' : Tokens)
      → execute_mint runtime mailbox r amount tokens ≡ ok tokens'
      → runtime.mint_to r.token_program r.token_mint r.recipient r.mint_authority
          runtime.token_authority amount tokens
        ≡ some tokens'
  unfolding execute_mint
  execute_mint_inv r amount tokens tokens' h =
      elim (Option-cases (
        runtime.mint_to r.token_program r.token_mint r.recipient r.mint_authority
          runtime.token_authority amount tokens)) [
            | inl e ↦ absurd (ground arith)
            | inr (t, e) ↦ ground arith
          ]

  -- The accounts of a receipt pass the checks.
  pub record AreChecked (payload_hash : ℕ) (r : Receive) (w : Surroundings Bucket Tokens)
      (a : GmpReceive Bucket) : Type 0 where
    pub is_mailbox : runtime.mailbox_id ≡ a.config.mailbox
    pub is_signed : r.message_is_signer ≡ true
    pub is_open : a.config.paused ≡ false
    pub is_new : w.bridge.messages_handled payload_hash ≡ none
    pub is_of_mint : a.recipient.mint ≡ r.token_mint
    pub is_from_bridge : a.remote_bridge.bridge ≡ a.message.sender
    pub is_enabled : allows a.remote_token.direction inbound_direction ≡ true
    pub is_chain : a.inbound.source_chain_id ≡ r.path
    pub is_path : a.inbound.identifier ≡ a.message.message_path_identifier

  receive_checks_inv :
      (payload_hash : ℕ) (r : Receive) (a : GmpReceive Bucket) (local : LocalTokenConfig)
      (w : Surroundings Bucket Tokens)
      → receive_checks runtime mailbox payload_hash r a local w ≡ ok tt
      → AreChecked payload_hash r w a
  unfolding receive_checks
  receive_checks_inv hash r a local w h = record {
    is_mailbox = ground arith;
    is_signed = ground arith;
    is_open = ground arith;
    is_new = ground arith;
    is_of_mint = ground arith;
    is_from_bridge = ground arith;
    is_enabled = ground arith;
    is_chain = ground arith;
    is_path = ground arith;
  }

  -- They are those of the state.
  pub record AreReceiveAccounts (payload_hash : ℕ) (r : Receive)
      (st : MailboxState (Surroundings Bucket Tokens)) (w : Surroundings Bucket Tokens)
      (a : GmpReceive Bucket) : Type 0 where
    pub info : MessageV1Info
    pub is_info : st.messages payload_hash ≡ some info
    pub is_message : a.message ≡ info.message
    pub is_config : w.bridge.config ≡ some a.config
    pub is_account : runtime.token_account r.recipient w.tokens ≡ some a.recipient
    pub is_inbound : st.inbound_message_paths r.path ≡ some a.inbound
    pub is_remote_bridge :
        w.bridge.remote_bridge_configs a.inbound.source_chain_id ≡ some a.remote_bridge
    pub is_remote_token :
        w.bridge.remote_token_configs r.token_mint a.inbound.source_chain_id ≡ some a.remote_token
    pub are_checked : AreChecked payload_hash r w a

  gmp_receive_accounts_inv :
      (payload_hash : ℕ) (r : Receive) (st : MailboxState (Surroundings Bucket Tokens))
      (w : Surroundings Bucket Tokens) (a : GmpReceive Bucket)
      → gmp_receive_accounts runtime mailbox payload_hash r st w ≡ ok a
      → AreReceiveAccounts payload_hash r st w a
  unfolding gmp_receive_accounts
  gmp_receive_accounts_inv hash r st w a h = elim (Option-cases (st.messages hash)) [
    | inl e ↦ absurd (ground arith)
    | inr (info, e) ↦ elim (Option-cases w.bridge.config) [
      | inl e₁ ↦ absurd (ground arith)
      | inr (config, e₁) ↦ elim (Option-cases (runtime.token_account r.recipient w.tokens)) [
        | inl e₂ ↦ absurd (ground arith)
        | inr (account, e₂) ↦ elim (Option-cases (st.inbound_message_paths r.path)) [
          | inl e₃ ↦ absurd (ground arith)
          | inr (inbound, e₃) ↦ with_path info e config e₁ account e₂ inbound e₃
        ]
      ]
    ]
  ]
    where
      with_path :
          (info : MessageV1Info)
          → st.messages hash ≡ some info
          → (config : Config) → w.bridge.config ≡ some config
          → (account : TokenAccount) → runtime.token_account r.recipient w.tokens ≡ some account
          → (inbound : InboundMessagePath) → st.inbound_message_paths r.path ≡ some inbound
          → AreReceiveAccounts hash r st w a
      with_path info e config e₁ account e₂ inbound e₃ =
          elim (Option-cases (w.bridge.remote_bridge_configs inbound.source_chain_id)) [
            | inl e₄ ↦ absurd (ground arith)
            | inr (remote_bridge, e₄) ↦
                elim (Option-cases (w.bridge.local_token_configs r.token_mint)) [
                  | inl e₅ ↦ absurd (ground arith)
                  | inr (local, e₅) ↦
                      elim (Option-cases
                        (w.bridge.remote_token_configs r.token_mint inbound.source_chain_id)) [
                          | inl e₆ ↦ absurd (ground arith)
                          | inr (remote_token, e₆) ↦
                              let accounts : GmpReceive Bucket = record {
                                config = config;
                                message = info.message;
                                recipient = account;
                                inbound = inbound;
                                remote_bridge = remote_bridge;
                                remote_token = remote_token;
                              } in
                              elim (Outcome-cases
                                (receive_checks runtime mailbox hash r accounts local w)) [
                                  | inr failed ↦ absurd (ground arith)
                                  | inl (_, checked) ↦
                                      let same : accounts ≡ a = ground arith in
                                      subst (λ x. AreReceiveAccounts hash r st w x) same
                                        (record {
                                          info = info;
                                          is_info = e;
                                          is_message = refl;
                                          is_config = e₁;
                                          is_account = e₂;
                                          is_inbound = e₃;
                                          is_remote_bridge = e₄;
                                          is_remote_token = e₆;
                                          are_checked =
                                              receive_checks_inv hash r accounts local w checked;
                                        })
                                ]
                        ]
                ]
          ]

  -- A receipt: the message hashes to the payload hash, its body is read, and its amount is minted.
  pub record IsReceipt (payload_hash : ℕ) (r : Receive)
      (st : MailboxState (Surroundings Bucket Tokens)) (w w' : Surroundings Bucket Tokens)
      (response : InboundResponse) : Type 0 where
    pub a : GmpReceive Bucket
    pub mint : Mint
    pub bucket : Bucket
    pub tokens : Tokens
    pub is_found : AreReceiveAccounts payload_hash r st w a
    pub is_hashed : mailbox.sha256 (to_session_payload a.message) ≡ payload_hash
    pub is_decoded : from_message a.message.body ≡ ok mint
    pub is_token : mint.token_address ≡ r.token_mint
    pub is_to : is_recipient runtime mailbox r a.recipient mint.recipient ≡ true
    pub is_positive : 0 < mint.amount
    pub is_within_limit :
        runtime.consume mint.amount w.tokens a.remote_token.inbound_rate_limit ≡ some bucket
    pub is_minted :
        runtime.mint_to r.token_program r.token_mint r.recipient r.mint_authority
          runtime.token_authority mint.amount w.tokens
        ≡ some tokens
    pub is_after :
        w'
        ≡ received runtime mailbox payload_hash r.token_mint a.inbound.source_chain_id
            a.remote_token bucket tokens w
    pub is_response : response ≡ record { amount = mint.amount; message = mint.message }

  pub gmp_receive_inv :
      (payload_hash : ℕ) (r : Receive) (st : MailboxState (Surroundings Bucket Tokens))
      (w w' : Surroundings Bucket Tokens) (response : InboundResponse)
      → gmp_receive runtime mailbox payload_hash r st w ≡ ok (w', response)
      → IsReceipt payload_hash r st w w' response
  unfolding gmp_receive
  gmp_receive_inv hash r st w w' response h =
      elim (Outcome-cases (gmp_receive_accounts runtime mailbox hash r st w)) [
        | inr failed ↦ absurd (ground arith)
        | inl (a, found) ↦ elim (Outcome-cases (from_message a.message.body)) [
          | inr failed ↦ absurd (ground arith)
          | inl (mint, decoded) ↦
              elim (Option-cases
                (runtime.consume mint.amount w.tokens a.remote_token.inbound_rate_limit)) [
                  | inl e ↦ absurd (ground arith)
                  | inr (bucket, e) ↦
                      elim (Outcome-cases (execute_mint runtime mailbox r mint.amount w.tokens)) [
                        | inr failed ↦ absurd (ground arith)
                        | inl (tokens, minted) ↦ record {
                          a = a;
                          mint = mint;
                          bucket = bucket;
                          tokens = tokens;
                          is_found = gmp_receive_accounts_inv hash r st w a found;
                          is_hashed = ground arith;
                          is_decoded = decoded;
                          is_token = ground arith;
                          is_to = ground arith;
                          is_positive = ground arith;
                          is_within_limit = e;
                          is_minted = execute_mint_inv r mint.amount w.tokens tokens minted;
                          is_after = ground arith;
                          is_response = ground arith;
                        }
                      ]
                ]
        ]
      ]
