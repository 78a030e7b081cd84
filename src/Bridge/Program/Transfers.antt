-- ===== src/Bridge/Program/Transfers.antt =====
-- What a deposit sends.
use sol_svm_contracts.Base.{
  ℕ, ◌≤◌, length, subst, arith, inl, inr, Option-cases, ◌<◌, List, ◌≡◌, refl, ap, sym, ◌∙◌, false,
  some, ok, ==_refl,
}
use sol_svm_contracts.Mailbox.State.{
  MessageV1, OutboundMessagePath, Config as MailboxConfig, State as MailboxState,
  Runtime as MailboxRuntime, SendResult,
}
use sol_svm_contracts.Mailbox.Message.{to_session_payload}
use sol_svm_contracts.Mailbox.Program.Inversion.{sent, send_message_inv}
use sol_svm_contracts.Bridge.State.{RemoteBridgeConfig, RemoteTokenConfig, Surroundings, Runtime}
use sol_svm_contracts.Bridge.Messages.{BridgeToken, or_nothing, to_gmp_body, from_message}
use sol_svm_contracts.Bridge.Messages.RoundTrip.{
  IsBridgeToken, IsOptionalMessage, length-to_gmp_body, from_message-to_gmp_body,
}
use sol_svm_contracts.Bridge.Instruction.{Deposit}
use sol_svm_contracts.Bridge.Sending.{to_bridge_token, deposit}
use sol_svm_contracts.Bridge.Program.Deposits.{sending, deposit_inv}

body_fits : (b : BridgeToken) → IsOptionalMessage b.optional_message → length (to_gmp_body b) ≤ 177
body_fits b sizes = elim (Option-cases b.optional_message) [
  | inl e ↦ omega (arith, length-to_gmp_body b, ap (λ o. length (or_nothing o)) e)
  | inr (message, e) ↦
      let fits : length message ≡ 48 = subst (λ o. IsOptionalMessage o) e sizes in
      omega (arith, length-to_gmp_body b, ap (λ o. length (or_nothing o)) e, fits)
]

some-injective : {A : Type 0} {x y : A} → some x ≡ some y → x ≡ y
some-injective e = cc e

module _ {Bucket LimitConfig Tokens : Type 0} (runtime : Runtime Bucket LimitConfig Tokens)
    (mailbox : MailboxRuntime (Surroundings Bucket Tokens)) where
  -- The mailbox has the message under the nonce, and the result has the hash of its payload.
  abbrev pub Stores :
      MailboxConfig → MessageV1 → MailboxState (Surroundings Bucket Tokens) → SendResult → Type 0
  Stores c m st' result =
      (st'.outbound_messages c.global_nonce ≡ some (to_session_payload m))
      × (result.payload_hash ≡ mailbox.sha256 (to_session_payload m))

  -- A deposit that goes through burns its amount, which is not zero, from the sender's token account,
  -- and leaves a message with the mailbox, under the mailbox's nonce and with the hash that it
  -- returns. The message is from the bridge, over the outbound path that is passed, for the bridge
  -- that is configured for the path's chain and for the caller that the deposit names. What is read
  -- from its body there is the token that is configured for that chain, and the deposit's sender,
  -- recipient, amount and optional message, if these have the sizes of their types; the body has at
  -- most 177 bytes. (The bridge's config account, a derived address, is not on the curve.)
  pub deposit-sends :
      (d : Deposit) (st st' : MailboxState (Surroundings Bucket Tokens)) (result : SendResult)
      (path : OutboundMessagePath) (there : RemoteBridgeConfig) (token : RemoteTokenConfig Bucket)
      → mailbox.bytes_are_curve_point runtime.config_address ≡ false
      → st.outbound_message_paths d.path ≡ some path
      → st.world.bridge.remote_bridge_configs path.destination_chain_id ≡ some there
      → st.world.bridge.remote_token_configs d.token_mint path.destination_chain_id ≡ some token
      → IsBridgeToken (record {
        destination_token_address = token.token;
        sender = d.sender;
        recipient = d.recipient;
        amount = d.amount;
        optional_message = d.message;
      })
      → deposit runtime mailbox d st ≡ ok (st', result)
      → (c : MailboxConfig) × (body : List ℕ) × (tokens : Tokens) × (st.config ≡ some c)
        × Stores c
            (record {
              message_path_identifier = path.identifier;
              nonce = c.global_nonce;
              sender = runtime.bridge_id;
              recipient = there.bridge;
              destination_caller = d.caller;
              body = body;
            })
            st'
            result
        × (from_message body
            ≡ ok (record {
              token_address = token.token;
              sender = d.sender;
              recipient = d.recipient;
              amount = d.amount;
              message = d.message;
            }))
        × (length body ≤ 177)
        × (runtime.burn d.token_program d.sender_token_account d.token_mint d.sender_authority.key
              d.amount st.world.tokens
            ≡ some tokens)
        × (0 < d.amount)
  deposit-sends d st st' result path there token derived way bridge known sizes h =
      let x = deposit_inv runtime mailbox d st st' result h in
      let same_path : x.a.outbound ≡ path = cc (x.is_found.is_outbound, way) in
      let same_bridge : x.a.remote_bridge ≡ there = some-injective (
        sym x.is_found.is_remote_bridge
        ∙ ap (λ k. st.world.bridge.remote_bridge_configs k.destination_chain_id) same_path
        ∙ bridge) in
      let same_token : x.a.remote_token ≡ token = some-injective (
        sym x.is_found.is_remote_token
        ∙ ap (λ k. st.world.bridge.remote_token_configs d.token_mint k.destination_chain_id)
            same_path
        ∙ known) in
      let (c, path₁, _, _, e, way₁, _, _, _, _, _, _, after, returned) =
        send_message_inv mailbox d.fee_payer _ _ st' result x.is_sent in
      let same_path₁ : path₁ ≡ path = cc (way₁, way) in
      let sent_so : sent mailbox c path₁ (sending runtime mailbox d x.a) ≡ record {
        message_path_identifier = path.identifier;
        nonce = c.global_nonce;
        sender = runtime.bridge_id;
        recipient = there.bridge;
        destination_caller = d.caller;
        body = to_gmp_body (to_bridge_token runtime mailbox d x.a.remote_token.token);
      } =
        rw (derived, same_path₁, same_bridge) refl in
      (
        c,
        to_gmp_body (to_bridge_token runtime mailbox d x.a.remote_token.token),
        x.tokens,
        e,
        (
          ap (λ s. s.outbound_messages c.global_nonce) after
              ∙ rw (==_refl c.global_nonce) (ap (λ m. some (to_session_payload m)) sent_so),
          ap (λ s. s.payload_hash) returned
              ∙ ap (λ m. mailbox.sha256 (to_session_payload m)) sent_so,
        ),
        rw (same_token)
            (from_message-to_gmp_body (to_bridge_token runtime mailbox d token.token) sizes),
        body_fits (to_bridge_token runtime mailbox d x.a.remote_token.token) sizes.message,
        x.is_burned,
        x.is_positive,
      )
