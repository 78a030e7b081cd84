-- ===== src/Bridge/Program/Arrivals.antt =====
-- A deposit on one chain is received on the other.
use sol_svm_contracts.Base.{ℕ, ◌≡◌, ap, sym, ◌∙◌, subst, false, List, [], some, ok, arith}
use sol_svm_contracts.Mailbox.State.{
  MessageV1, MessageV1Info, OutboundMessagePath, Config as MailboxConfig, State as MailboxState,
  Runtime as MailboxRuntime, SendResult,
}
use sol_svm_contracts.Mailbox.Message.{to_session_payload, from_session_payload}
use sol_svm_contracts.Mailbox.Message.RoundTrip.{IsMessage, from_session_payload-to}
use sol_svm_contracts.Bridge.State.{
  RemoteBridgeConfig, RemoteTokenConfig, put, put₂, Surroundings, Runtime,
}
use sol_svm_contracts.Bridge.Messages.{from_message}
use sol_svm_contracts.Bridge.Messages.RoundTrip.{IsBridgeToken}
use sol_svm_contracts.Bridge.Instruction.{Deposit, Receive}
use sol_svm_contracts.Bridge.Sending.{deposit}
use sol_svm_contracts.Bridge.Program.Transfers.{deposit-sends}
use sol_svm_contracts.Bridge.Receiving.{gmp_receive}
use sol_svm_contracts.Bridge.Program.Acceptance.{MayReceive, gmp_receive_succeeds}

module _ {Bucket₁ LimitConfig₁ Tokens₁ Bucket₂ LimitConfig₂ Tokens₂ : Type 0}
    (runtime₁ : Runtime Bucket₁ LimitConfig₁ Tokens₁)
    (mailbox₁ : MailboxRuntime (Surroundings Bucket₁ Tokens₁))
    (runtime₂ : Runtime Bucket₂ LimitConfig₂ Tokens₂)
    (mailbox₂ : MailboxRuntime (Surroundings Bucket₂ Tokens₂)) where
  -- What a deposit on one chain burns, a bridge on another chain mints: if the deposit goes through,
  -- its fields and the ids that it is sent with have the sizes of their types, and the other chain has
  -- a message that is read from the payload that the mailbox stored, under the hash that it returned,
  -- then the other bridge receives that message whenever the accounts are in place there, the
  -- configured token is the one that is minted, the amount is within the rate limit and the token
  -- program mints it. It mints the deposit's amount to the deposit's recipient, answers with the amount
  -- and the optional message, marks the message as handled, and stores what is left of the rate
  -- limit; nothing else of the bridge changes.
  pub transfer-arrives :
      (d : Deposit) (st st' : MailboxState (Surroundings Bucket₁ Tokens₁)) (result : SendResult)
      (path : OutboundMessagePath) (there : RemoteBridgeConfig) (token₁ : RemoteTokenConfig Bucket₁)
      (c : MailboxConfig) (payload : List ℕ) (info : MessageV1Info) (r : Receive)
      (st₂ : MailboxState (Surroundings Bucket₂ Tokens₂)) (w₂ : Surroundings Bucket₂ Tokens₂)
      (token₂ : RemoteTokenConfig Bucket₂) (bucket : Bucket₂) (tokens : Tokens₂)
      → mailbox₁.bytes_are_curve_point runtime₁.config_address ≡ false
      → st.config ≡ some c
      → st.outbound_message_paths d.path ≡ some path
      → st.world.bridge.remote_bridge_configs path.destination_chain_id ≡ some there
      → st.world.bridge.remote_token_configs d.token_mint path.destination_chain_id ≡ some token₁
      → IsBridgeToken (record {
        destination_token_address = token₁.token;
        sender = d.sender;
        recipient = d.recipient;
        amount = d.amount;
        optional_message = d.message;
      })
      → IsMessage (record {
        message_path_identifier = path.identifier;
        nonce = c.global_nonce;
        sender = runtime₁.bridge_id;
        recipient = there.bridge;
        destination_caller = d.caller;
        body = [];
      })
      → deposit runtime₁ mailbox₁ d st ≡ ok (st', result)
      → st'.outbound_messages c.global_nonce ≡ some payload
      → from_session_payload payload ≡ ok info.message
      → mailbox₂.sha256 ≡ mailbox₁.sha256
      → MayReceive runtime₂ mailbox₂ result.payload_hash r st₂ w₂ info token₂ d.recipient
      → token₁.token ≡ r.token_mint
      → runtime₂.consume d.amount w₂.tokens token₂.inbound_rate_limit ≡ some bucket
      → runtime₂.mint_to r.token_program r.token_mint r.recipient r.mint_authority
          runtime₂.token_authority d.amount w₂.tokens
        ≡ some tokens
      → (burned : Tokens₁) × (runtime₁.burn d.token_program d.sender_token_account d.token_mint
            d.sender_authority.key d.amount st.world.tokens
          ≡ some burned)
        × (gmp_receive runtime₂ mailbox₂ result.payload_hash r st₂ w₂
            ≡ ok (
              record {
                bridge = record w₂.bridge {
                  messages_handled = put result.payload_hash (some tt) w₂.bridge.messages_handled;
                  remote_token_configs =
                      put₂ r.token_mint r.path
                        (some (record token₂ { inbound_rate_limit = bucket }))
                        w₂.bridge.remote_token_configs;
                };
                tokens = tokens;
              },
              record { amount = d.amount; message = d.message },
            ))
  transfer-arrives d st st' result path there token₁ c payload info r st₂ w₂ token₂ bucket tokens
        derived config way bridge known sizes ids h stored read same_sha may to_token limit minted =
      let (c₁, body, burned, config₁, (kept, hashed), decoded, fits, is_burned, positive) =
        deposit-sends runtime₁ mailbox₁ d st st' result path there token₁ derived way bridge known
          sizes h in
      let same : c₁ ≡ c = cc (config₁, config) in
      let m : MessageV1 = record {
        message_path_identifier = path.identifier;
        nonce = c.global_nonce;
        sender = runtime₁.bridge_id;
        recipient = there.bridge;
        destination_caller = d.caller;
        body = body;
      } in
      let stored_so : st'.outbound_messages c.global_nonce ≡ some (to_session_payload m) =
        subst
          (λ k.
            st'.outbound_messages k.global_nonce
            ≡ some (to_session_payload (record m { nonce = k.global_nonce })))
          same kept in
      let hashed_so : result.payload_hash ≡ mailbox₁.sha256 (to_session_payload m) =
        subst
          (λ k.
            result.payload_hash
            ≡ mailbox₁.sha256 (to_session_payload (record m { nonce = k.global_nonce })))
          same hashed in
      let is_message : IsMessage m = record {
        identifier = ids.identifier;
        nonce = ids.nonce;
        sender = ids.sender;
        recipient = ids.recipient;
        caller = ids.caller;
        body = omega (arith, fits);
      } in
      let payload_so : payload ≡ to_session_payload m = cc (stored, stored_so) in
      let info_so : info.message ≡ m =
        cc (
          read,
          ap (λ b. from_session_payload b) payload_so,
          from_session_payload-to m is_message,
        ) in
      (
        burned,
        is_burned,
        gmp_receive_succeeds runtime₂ mailbox₂ result.payload_hash r st₂ w₂ info token₂
            (record {
              token_address = token₁.token;
              sender = d.sender;
              recipient = d.recipient;
              amount = d.amount;
              message = d.message;
            })
            bucket tokens may
            (ap (λ f. f (to_session_payload info.message)) same_sha
              ∙ ap (λ k. mailbox₁.sha256 (to_session_payload k)) info_so
              ∙ sym hashed_so)
            (ap (λ k. from_message k.body) info_so ∙ decoded) to_token positive limit minted,
      )
