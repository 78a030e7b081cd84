-- ===== src/Mailbox/Program/Liveness.antt =====
-- When a message gets through: what suffices to send and to deliver it.
use sol_svm_contracts.Base.{
  ℕ, ◌+◌, ◌^◌, ◌≤◌, ◌<◌, ◌≡◌, true, false, List, Option, none, some, inl, inr, ok, arith,
  Option-cases, length, leb, le→leb, ◌==◌, ==_iff, ltb, not, require,
}
use sol_svm_contracts.Mailbox.State.{
  MessageV1, Config, InboundMessagePath, OutboundMessagePath, delivered, SenderConfig, State, put,
  Runtime, Notary, paused,
}
use sol_svm_contracts.Mailbox.Instruction.{Send}
use sol_svm_contracts.Mailbox.Message.{
  from_session_payload, to_session_payload, accountable_abi_bytes,
}
use sol_svm_contracts.Mailbox.Message.Size.{from_session_payload-size, length-to_session_payload}
use sol_svm_contracts.Mailbox.Program.{
  serialized_size, deliver_message, send_message, passed_config, byte_price, max_payload_size,
  charge,
}
use sol_svm_contracts.Mailbox.Program.Inversion.{sent}

-- The account that is sized for the payload has room for the message.
serialized_size-fits :
    (bytes : List ℕ) (m : MessageV1)
    → from_session_payload bytes ≡ ok m
    → serialized_size m ≤ length bytes
serialized_size-fits bytes m h = elim (Option-cases m.destination_caller) [
  | inl e ↦ rw e (omega (arith, from_session_payload-size bytes m h))
  | inr (caller, e) ↦ rw e (omega (arith, from_session_payload-size bytes m h))
]

module _ {World : Type 0} (runtime : Runtime World) where
  -- Delivery succeeds, and only adds the message as delivered, whenever the mailbox is not paused, the
  -- deliverer has posted a payload with the hash, a validated payload is recorded for it, no message
  -- with the hash was delivered before, the payload decodes and the inbound path that is passed has
  -- the message's identifier.
  pub deliver_message_succeeds :
      (notary : Notary) (deliverer hash path : ℕ) (st : State World) (c : Config)
      (inbound : InboundMessagePath) (payload : List ℕ) (epoch : ℕ) (m : MessageV1)
      → st.config ≡ some c
      → c.paused ≡ false
      → st.inbound_message_paths path ≡ some inbound
      → notary.session_payload c.consortium deliverer hash ≡ some payload
      → notary.validated_payload c.consortium hash ≡ some epoch
      → st.messages hash ≡ none
      → runtime.sha256 payload ≡ hash
      → from_session_payload payload ≡ ok m
      → m.message_path_identifier ≡ inbound.identifier
      → deliver_message runtime notary deliverer hash path st
        ≡ ok (record st {
          messages = put hash (some (record { status = delivered; message = m })) st.messages;
        })
  unfolding deliver_message
  deliver_message_succeeds notary deliverer hash path st c inbound payload epoch m e open₁ way
        posted validated fresh hashed decoded matches =
      let fits : leb (1 + serialized_size m) (1 + length payload) ≡ true =
        le→leb _ _ (omega (arith, serialized_size-fits payload m decoded)) in
      let genuine : (runtime.sha256 payload == hash) ≡ true = (==_iff _ hash).1 hashed in
      let same : (m.message_path_identifier == inbound.identifier) ≡ true =
        (==_iff _ _).1 matches in
      rw (e, way, posted, validated, fresh, open₁, genuine, decoded, same, fits)

  -- Sending succeeds whenever the mailbox is not paused, the outbound path is enabled, the account for
  -- the next nonce is free, the body is within the limit, the fee can be charged and there is a next
  -- nonce. The payload is then stored at the nonce, and the next nonce is returned with the hash.
  pub send_message_succeeds :
      (fee_payer : ℕ) (send : Send) (st : State World) (c : Config) (path : OutboundMessagePath)
      (sender_config : Option SenderConfig) (price : Option ℕ) (world : World)
      → st.config ≡ some c
      → c.paused ≡ false
      → st.outbound_message_paths send.path ≡ some path
      → passed_config runtime send st ≡ ok sender_config
      → st.outbound_messages c.global_nonce ≡ none
      → byte_price c sender_config send.fee_override ≡ ok price
      → length send.message_body ≤ max_payload_size c sender_config
      → charge runtime c fee_payer send.treasury price (length send.message_body) st.world
        ≡ ok world
      → c.global_nonce + 1 < 2 ^ 64
      → send_message runtime fee_payer send st
        ≡ ok (
          record st {
            config = some (record c { global_nonce = c.global_nonce + 1 });
            outbound_messages =
                put c.global_nonce
                  (some (to_session_payload (sent runtime c path send)))
                  st.outbound_messages;
            world = world;
          },
          record {
            nonce = c.global_nonce + 1;
            payload_hash = runtime.sha256 (to_session_payload (sent runtime c path send));
          },
        )
  unfolding send_message
  send_message_succeeds fee_payer send st c path sender_config price world e open₁ way passed free
        priced fits charged next =
      let within : leb (length send.message_body) (max_payload_size c sender_config) ≡ true =
        le→leb _ _ fits in
      let counted : ltb (c.global_nonce + 1) (2 ^ 64) ≡ true = ground (arith, next) in
      let room : (length (to_session_payload (sent runtime c path send))
            == accountable_abi_bytes (length send.message_body))
          ≡ true =
        (==_iff _ _).1 (length-to_session_payload (sent runtime c path send)) in
      let running : require (not c.paused) paused ≡ ok tt = rw open₁ in
      rw (e, way, passed, free, running, priced, within, charged, counted, room)
