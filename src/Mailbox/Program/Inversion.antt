-- ===== src/Mailbox/Program/Inversion.antt =====
-- What a call that goes through has found and done.
use sol_svm_contracts.Base.{
  ℕ, ◌+◌, ◌≤◌, ◌≡◌, true, false, List, Option, none, some, inl, inr, length, ok, arith,
  Option-cases, Outcome-cases,
}
use sol_svm_contracts.Mailbox.State.{
  MessageV1, Config, OutboundMessagePath, InboundMessagePath, SenderConfig, delivered, handled,
  State, put, Runtime, AccountMeta, Notary, SendResult,
}
use sol_svm_contracts.Mailbox.Instruction.{Send}
use sol_svm_contracts.Mailbox.Message.{from_session_payload, to_session_payload}
use sol_svm_contracts.Mailbox.Program.{
  byte_price, max_payload_size, may_handle, sender_of, passed_config, charge, send_message,
  deliver_message, call_recipient, handle_message,
}

module _ {World : Type 0} (runtime : Runtime World) where
  pub deliver_message_inv :
      (notary : Notary) (deliverer hash path : ℕ) (st st' : State World)
      → deliver_message runtime notary deliverer hash path st ≡ ok st'
      → (c : Config) × (inbound : InboundMessagePath) × (payload : List ℕ) × (epoch : ℕ)
        × (m : MessageV1) × (st.config ≡ some c)
        × (st.inbound_message_paths path ≡ some inbound)
        × (notary.session_payload c.consortium deliverer hash ≡ some payload)
        × (notary.validated_payload c.consortium hash ≡ some epoch)
        × (st.messages hash ≡ none)
        × (c.paused ≡ false)
        × (runtime.sha256 payload ≡ hash)
        × (from_session_payload payload ≡ ok m)
        × (m.message_path_identifier ≡ inbound.identifier)
        × (st' ≡ record st {
          messages = put hash (some (record { status = delivered; message = m })) st.messages;
        })
  unfolding deliver_message
  deliver_message_inv notary deliverer hash path st st' h = elim (Option-cases st.config) [
    | inl e ↦ absurd (ground arith)
    | inr (c, e) ↦ elim (Option-cases (st.inbound_message_paths path)) [
      | inl e₁ ↦ absurd (ground arith)
      | inr (inbound, e₁) ↦
          elim (Option-cases (notary.session_payload c.consortium deliverer hash)) [
            | inl e₂ ↦ absurd (ground arith)
            | inr (payload, e₂) ↦ elim (Option-cases (notary.validated_payload c.consortium hash)) [
              | inl e₃ ↦ absurd (ground arith)
              | inr (epoch, e₃) ↦ elim (Outcome-cases (from_session_payload payload)) [
                | inr failed ↦ absurd (ground arith)
                | inl (m, decoded) ↦ (
                  c,
                  inbound,
                  payload,
                  epoch,
                  m,
                  e,
                  e₁,
                  e₂,
                  e₃,
                  ground arith,
                  ground arith,
                  ground arith,
                  decoded,
                  ground arith,
                  ground arith,
                )
              ]
            ]
          ]
    ]
  ]

  pub handle_message_inv :
      (handler hash program : ℕ) (accounts : List AccountMeta) (st st' : State World)
      (result : Option (List ℕ))
      → handle_message runtime handler hash program accounts st ≡ ok (st', result)
      → (c : Config) × (m : MessageV1) × (world : World) × (st.config ≡ some c)
        × (st.messages hash ≡ some (record { status = delivered; message = m }))
        × (c.paused ≡ false)
        × (program ≡ m.recipient)
        × (may_handle m.destination_caller handler ≡ true)
        × (st' ≡ record st {
          messages = put hash (some (record { status = handled; message = m })) st.messages;
          world = world;
        })
  unfolding handle_message
  handle_message_inv handler hash program accounts st st' result h = elim (Option-cases st.config) [
    | inl e ↦ absurd (ground arith)
    | inr (c, e) ↦ elim (Option-cases (st.messages hash)) [
      | inl e₁ ↦ absurd (ground arith)
      | inr (info, e₁) ↦
          elim (Outcome-cases (call_recipient runtime hash program accounts st.world)) [
            | inr failed ↦ absurd (ground arith)
            | inl ((world, return_data), called) ↦ (
              c,
              info.message,
              world,
              e,
              ground arith,
              ground arith,
              ground arith,
              ground arith,
              ground arith,
            )
          ]
    ]
  ]

  -- The call of the recipient in it.
  pub handle_message-calls :
      (handler hash program : ℕ) (accounts : List AccountMeta) (st st' : State World)
      (result : Option (List ℕ))
      → handle_message runtime handler hash program accounts st ≡ ok (st', result)
      → (return_data : Option (ℕ × List ℕ)) × (call_recipient runtime hash program accounts st.world
          ≡ ok (st'.world, return_data))
  unfolding handle_message
  handle_message-calls handler hash program accounts st st' result h =
      elim (Outcome-cases (call_recipient runtime hash program accounts st.world)) [
        | inr failed ↦ absurd (ground arith)
        | inl ((world, return_data), called) ↦ (return_data, ground (arith, called))
      ]

  abbrev pub sent : Config → OutboundMessagePath → Send → MessageV1
  sent c path send = record {
    message_path_identifier = path.identifier;
    nonce = c.global_nonce;
    sender = sender_of runtime send.authority;
    recipient = send.recipient;
    destination_caller = send.destination_caller;
    body = send.message_body;
  }

  pub send_message_inv :
      (fee_payer : ℕ) (send : Send) (st st' : State World) (result : SendResult)
      → send_message runtime fee_payer send st ≡ ok (st', result)
      → (c : Config) × (path : OutboundMessagePath) × (sender_config : Option SenderConfig)
        × (price : Option ℕ) × (st.config ≡ some c)
        × (st.outbound_message_paths send.path ≡ some path)
        × (passed_config runtime send st ≡ ok sender_config)
        × (st.outbound_messages c.global_nonce ≡ none)
        × (c.paused ≡ false)
        × (byte_price c sender_config send.fee_override ≡ ok price)
        × (length send.message_body ≤ max_payload_size c sender_config)
        × (charge runtime c fee_payer send.treasury price (length send.message_body) st.world
            ≡ ok st'.world)
        × (st' ≡ record st {
          config = some (record c { global_nonce = c.global_nonce + 1 });
          outbound_messages =
              put c.global_nonce
                (some (to_session_payload (sent c path send)))
                st.outbound_messages;
          world = st'.world;
        })
        × (result ≡ record {
          nonce = c.global_nonce + 1;
          payload_hash = runtime.sha256 (to_session_payload (sent c path send));
        })
  unfolding send_message
  send_message_inv fee_payer send st st' result h = elim (Option-cases st.config) [
    | inl e ↦ absurd (ground arith)
    | inr (c, e) ↦ elim (Option-cases (st.outbound_message_paths send.path)) [
      | inl e₁ ↦ absurd (ground arith)
      | inr (path, e₁) ↦ elim (Outcome-cases (passed_config runtime send st)) [
        | inr failed ↦ absurd (ground arith)
        | inl (sender_config, e₂) ↦
            elim (Outcome-cases (byte_price c sender_config send.fee_override)) [
              | inr failed ↦ absurd (ground arith)
              | inl (price, e₃) ↦
                  elim (Outcome-cases (
                    charge runtime c fee_payer send.treasury price (length send.message_body)
                      st.world)) [
                        | inr failed ↦ absurd (ground arith)
                        | inl (world, e₄) ↦ (
                          c,
                          path,
                          sender_config,
                          price,
                          e,
                          e₁,
                          e₂,
                          ground arith,
                          ground arith,
                          e₃,
                          ground arith,
                          ground arith,
                          ground arith,
                          ground arith,
                        )
                      ]
            ]
      ]
    ]
  ]
