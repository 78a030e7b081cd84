-- ===== src/Mailbox/Program.antt =====
-- Sending, delivering and handling messages: programs/mailbox/src/instructions/send_message.rs,
-- deliver_message.rs, handle_message.rs, and programs/mailbox/src/utils/cpi.rs. The framework
-- deserializes the accounts first, creates the `init` accounts next and then checks the other
-- constraints.
pub mod Inversion
pub mod Lifecycle
pub mod Sending
pub mod Paths
pub mod Liveness
pub mod Handling
pub mod Runs
mod Witnesses
pub mod Delivery
use sol_svm_contracts.Base.{
  ℕ, ◌+◌, ◌*◌, ◌/◌, ◌≡◌, not, ◌&&◌, ◌||◌, Bool, true, false, List, [], ◌∷◌, ◌++◌, Option, none,
  some, ltb, leb, ◌==◌, if◌then◌else◌, length, Outcome, ok, err, fault, panicked,
  constraint_address, cross_program_call_failed, account_did_not_serialize, ◌>>=◌, ◌>>◌, require,
  constrain, load, vacant, add_checked, mul_checked,
}
use sol_svm_contracts.Base.Bytes.{to_be}
use sol_svm_contracts.Mailbox.State.{
  Error, paused, payload_too_large, treasury_mismatch, public_send_with_fee_disabled,
  invalid_payload_hash, invalid_message_path, invalid_destination_caller, invalid_payload_state,
  fee_adjustment_base, MessageV1, Config, MessageState, delivered, handled, MessageV1Info,
  SenderConfig, State, put, Runtime, AccountMeta, Notary, SenderAuthority, SendResult,
}
use sol_svm_contracts.Mailbox.Instruction
use sol_svm_contracts.Mailbox.Instruction.{Instruction, Send}
use sol_svm_contracts.Mailbox.Message.{
  accountable_abi_bytes, from_session_payload, to_session_payload,
}
use sol_svm_contracts.Mailbox.Admin

-- Fee and size limit of a send: of the sender's config if the caller passes it.
abbrev pub is_fee_disabled : Option SenderConfig → Bool
is_fee_disabled none = false
is_fee_disabled (some s) = s.fee_disabled

abbrev pub max_payload_size : Config → Option SenderConfig → ℕ
max_payload_size config none = config.default_max_payload_size
max_payload_size config (some s) = s.max_payload_size

-- What a byte costs, `none` for no fee. An override, in ten-thousandths, applies where the sender's
-- config disables the fee.
unfoldable pub byte_price :
    Config → Option SenderConfig → (fee_override : ℕ) → Outcome Error (Option ℕ)
byte_price config sender_config fee_override =
    let overridden = do
      product ← mul_checked 64 config.fee_per_byte fee_override
      ok (some (product / fee_adjustment_base))
    in if is_fee_disabled sender_config
      then (if ltb 0 fee_override then overridden else ok none)
      else ok (some config.fee_per_byte)

-- `message_info.status == MessageState::Delivered`
abbrev pub is_delivered : MessageState → Bool
is_delivered MessageState.unknown = false
is_delivered MessageState.delivered = true
is_delivered MessageState.handled = false

abbrev pub may_handle : Option ℕ → ℕ → Bool
may_handle none handler = true
may_handle (some caller) handler = caller == handler

-- Bytes of a message in an account, behind the discriminator and the status: the option takes one
-- byte, and 32 more for an address.
abbrev pub serialized_size : MessageV1 → ℕ
serialized_size m =
    32 + 8 + 32 + 32 + elim m.destination_caller [ none ↦ 1 | some c ↦ 33 ] + 4 + length m.body

-- `return_data` counts only if the recipient set it.
abbrev pub returned_by : ℕ → Option (ℕ × List ℕ) → Option (List ℕ)
returned_by program none = none
returned_by program (some (setter, bytes)) = if setter == program then some bytes else none

unfoldable pub gmp_receive_instr_data : (payload_hash : ℕ) → List ℕ
gmp_receive_instr_data payload_hash = to_be 8 0x4b48dbe65503182c ++ to_be 32 payload_hash

module _ {World : Type 0} (runtime : Runtime World) where
  abbrev pub sender_of : SenderAuthority → ℕ
  sender_of a = if runtime.bytes_are_curve_point a.key || a.data_is_empty then a.key else a.owner

  -- The optional account: the config of the sender, if the caller passes it.
  abbrev pub passed_config : Send → State World → Outcome Error (Option SenderConfig)
  passed_config send st =
      let passed = do
        sender_config ← load (st.sender_configs (sender_of send.authority))
        ok (some sender_config)
      in if send.with_sender_config then passed else ok none

  unfoldable pub pay_fee :
      Config → (fee_payer : ℕ) (treasury : Option ℕ) (fee : ℕ) → World → Outcome Error World
  pay_fee config fee_payer none fee world =
      if fee == 0 then ok world else err public_send_with_fee_disabled
  pay_fee config fee_payer (some treasury) fee world =
      let paid = do
        require (treasury == config.treasury) treasury_mismatch
        elim (runtime.transfer fee_payer treasury fee world) [
          | none ↦ fault cross_program_call_failed
          | some world' ↦ ok world'
        ]
      in if fee == 0 then ok world else paid

  unfoldable pub charge :
      Config
      → (fee_payer : ℕ) (treasury price : Option ℕ) (body_length : ℕ) → World
      → Outcome Error World
  charge config fee_payer treasury none body_length world = ok world
  charge config fee_payer treasury (some price) body_length world = do
    fee ← mul_checked 64 (accountable_abi_bytes body_length) price
    pay_fee config fee_payer treasury fee world

  unfoldable pub send_message :
      (fee_payer : ℕ) → Send → State World → Outcome Error (State World × SendResult)
  send_message fee_payer send st = do
    config ← load st.config
    path ← load (st.outbound_message_paths send.path)
    sender_config ← passed_config send st
    vacant (st.outbound_messages config.global_nonce)
    require (not config.paused) paused
    price ← byte_price config sender_config send.fee_override
    require (leb (length send.message_body) (max_payload_size config sender_config))
        payload_too_large
    let message : MessageV1 = record {
      message_path_identifier = path.identifier;
      nonce = config.global_nonce;
      sender = sender_of send.authority;
      recipient = send.recipient;
      destination_caller = send.destination_caller;
      body = send.message_body;
    }
    world ← charge config fee_payer send.treasury price (length send.message_body) st.world
    let payload = to_session_payload message
    next ← add_checked 64 config.global_nonce 1
    constrain (length payload == accountable_abi_bytes (length send.message_body)) panicked
    ok (
      record st {
        config = some (record config { global_nonce = next });
        outbound_messages = put config.global_nonce (some payload) st.outbound_messages;
        world = world;
      },
      record { nonce = next; payload_hash = runtime.sha256 payload },
    )

  -- `path` is the source chain of the inbound path that is passed. The new account has room for the
  -- posted payload.
  unfoldable pub deliver_message :
      Notary → (deliverer payload_hash path : ℕ) → State World → Outcome Error (State World)
  deliver_message notary deliverer payload_hash path st = do
    config ← load st.config
    inbound ← load (st.inbound_message_paths path)
    payload ← load (notary.session_payload config.consortium deliverer payload_hash)
    epoch ← load (notary.validated_payload config.consortium payload_hash)
    vacant (st.messages payload_hash)
    require (not config.paused) paused
    require (runtime.sha256 payload == payload_hash) invalid_payload_hash
    message ← from_session_payload payload
    require (message.message_path_identifier == inbound.identifier) invalid_message_path
    constrain (leb (1 + serialized_size message) (1 + length payload)) account_did_not_serialize
    let info : MessageV1Info = record { status = delivered; message = message }
    ok (record st { messages = put payload_hash (some info) st.messages })

  -- The message account signs the call, which is how the recipient knows that it is genuine; the
  -- other accounts are those that the handler passes.
  unfoldable pub call_recipient :
      (payload_hash program : ℕ)
      → List AccountMeta
      → World
      → Outcome Error (World × Option (ℕ × List ℕ))
  call_recipient payload_hash program remaining_accounts world =
      let message_account : AccountMeta = record {
        key = runtime.message_address payload_hash;
        is_signer = true;
        is_writable = false;
      } in
      elim (runtime.invoke program (message_account ∷ remaining_accounts)
        (gmp_receive_instr_data payload_hash) world) [
          | none ↦ fault cross_program_call_failed
          | some r ↦ ok r
        ]

  unfoldable pub handle_message :
      (handler payload_hash recipient_program : ℕ) (remaining_accounts : List AccountMeta)
      → State World
      → Outcome Error (State World × Option (List ℕ))
  handle_message handler payload_hash recipient_program remaining_accounts st = do
    config ← load st.config
    info ← load (st.messages payload_hash)
    require (not config.paused) paused
    constrain (recipient_program == info.message.recipient) constraint_address
    require (may_handle info.message.destination_caller handler) invalid_destination_caller
    require (is_delivered info.status) invalid_payload_state
    (world, return_data) ← call_recipient payload_hash recipient_program remaining_accounts st.world
    let info' : MessageV1Info = record info { status = handled }
    ok (
      record st { messages = put payload_hash (some info') st.messages; world = world },
      returned_by recipient_program return_data,
    )

-- Of an instruction that returns a value, the accounts.
abbrev pub accounts_of {ℓ} :
    {World : Type 0} {A : Type ℓ} → Outcome Error (State World × A) → Outcome Error (State World)
accounts_of r = r >>= λ x. ok x.0

-- One instruction, signed by `payer`, against the accounts `notary` of the consortium. `self` is the
-- program's id and `self_chain_id` the constant of the build.
module _ {World : Type 0} (runtime : Runtime World) (self self_chain_id : ℕ) where
  unfoldable pub exec :
      Notary → (payer : ℕ) → Instruction → State World → Outcome Error (State World)
  exec notary payer (Instruction.initialize u a c t m f) st = Admin.initialize u payer a c t m f st
  exec notary payer (Instruction.grant_account_role a r) st = Admin.grant_account_role payer a r st
  exec notary payer (Instruction.revoke_account_roles a) st = Admin.revoke_account_roles payer a st
  exec notary payer (Instruction.enable_inbound_message_path c m) st =
      Admin.enable_inbound_message_path runtime self self_chain_id payer c m st
  exec notary payer (Instruction.enable_outbound_message_path c) st =
      Admin.enable_outbound_message_path runtime self self_chain_id payer c st
  exec notary payer (Instruction.disable_inbound_message_path c) st =
      Admin.disable_inbound_message_path payer c st
  exec notary payer (Instruction.disable_outbound_message_path c) st =
      Admin.disable_outbound_message_path payer c st
  exec notary payer (Instruction.send_message s) st = accounts_of (send_message runtime payer s st)
  exec notary payer (Instruction.deliver_message h p) st =
      deliver_message runtime notary payer h p st
  exec notary payer (Instruction.handle_message h r a) st =
      accounts_of (handle_message runtime payer h r a st)
  exec notary payer (Instruction.transfer_ownership a) st = Admin.transfer_ownership payer a st
  exec notary payer Instruction.accept_ownership st = Admin.accept_ownership payer st
  exec notary payer (Instruction.update_config m f) st = Admin.update_config payer m f st
  exec notary payer (Instruction.set_treasury t) st = Admin.set_treasury payer t st
  exec notary payer Instruction.pause st = Admin.pause payer st
  exec notary payer Instruction.unpause st = Admin.unpause payer st
  exec notary payer (Instruction.set_sender_config p m f) st =
      Admin.set_sender_config payer p m f st
  exec notary payer (Instruction.unset_sender_config p) st = Admin.unset_sender_config payer p st
