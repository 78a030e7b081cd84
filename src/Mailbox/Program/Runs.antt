-- ===== src/Mailbox/Program/Runs.antt =====
-- Runs of the mailbox program: a message is sent, and one that the two validators of the consortium's
-- runs have signed is delivered and handled.
use sol_svm_contracts.Base.{
  ℕ, ◌+◌, ◌≡◌, refl, List, [], ◌∷◌, true, false, none, some, ok, err, arith, length,
}
use sol_svm_contracts.Base.Bytes.{to_be}
use sol_svm_contracts.Consortium.State.{
  State as ConsortiumState, put_session, put_session_payload, put_validated_payload,
}
use sol_svm_contracts.Consortium.Instruction.{Instruction as Request}
use sol_svm_contracts.Consortium.Signatures.{
  recovers, check_signature, add_signature, post_signature, post_signatures,
}
use sol_svm_contracts.Consortium.Payload.RoundTrip.{encode}
use sol_svm_contracts.Consortium.Program.{
  exec as exec_consortium, create_session, post_session_signatures, finalize_session,
  post_session_payload,
}
use sol_svm_contracts.Consortium.Program.Runs.{
  crypto, skipped, two_validators, with_set, initialize-runs as consortium-initialize-runs,
  set_initial_valset-runs,
}
use sol_svm_contracts.Mailbox.State.{
  MessageV1, Config, OutboundMessagePath, delivered, handled, State, put, Runtime, Notary,
  no_accounts, invalid_payload_state, invalid_destination_caller,
}
use sol_svm_contracts.Mailbox.Instruction.{Instruction, Send}
use sol_svm_contracts.Mailbox.Message.{to_session_payload, message_path_identifier}
use sol_svm_contracts.Mailbox.Message.RoundTrip.{IsMessage, from_session_payload-to}
use sol_svm_contracts.Mailbox.Message.Size.{length-to_session_payload}
use sol_svm_contracts.Mailbox.Admin
use sol_svm_contracts.Mailbox.Program.{
  exec, send_message, deliver_message, handle_message, byte_price, charge, pay_fee, call_recipient,
}
use sol_svm_contracts.Mailbox.Program.Delivery.{notary_of, Together, begin, consortium, mailbox}

-- A stand-in for the runtime: the world counts the lamports of the treasury and the calls.
abbrev pub runtime : Runtime ℕ
runtime = record {
  sha256 = λ bytes. length bytes;
  keccak256 = λ bytes. length bytes;
  bytes_are_curve_point = λ key. true;
  transfer = λ from to amount world. some (world + amount);
  message_address = λ payload_hash. payload_hash;
  invoke = λ program accounts instruction_data world. some (world + 1, some (program, 1 ∷ []));
}

abbrev pub message : MessageV1
message = record {
  message_path_identifier = 96;
  nonce = 3;
  sender = 50;
  recipient = 60;
  destination_caller = some 8;
  body = 1 ∷ [];
}

pub message-IsMessage : IsMessage message
message-IsMessage = record {
  identifier = omega arith;
  nonce = omega arith;
  sender = omega arith;
  recipient = omega arith;
  caller = (omega arith, ground arith);
  body = omega arith;
}

abbrev pub payload : List ℕ
payload = to_session_payload message

abbrev pub hash : ℕ
hash = 260

pub payload_length : length payload ≡ hash
payload_length = length-to_session_payload message

-- The consortium validates the payload, and signer 5 posts it.
abbrev pub opened : ConsortiumState
opened = record with_set {
  sessions =
      put_session 1 5 hash (some (record { signed = false ∷ false ∷ []; weight = 0 }))
        with_set.sessions;
}

abbrev pub signed : ConsortiumState
signed = record opened {
  sessions =
      put_session 1 5 hash (some (record { signed = true ∷ true ∷ []; weight = 2 }))
        opened.sessions;
}

abbrev pub finalized : ConsortiumState
finalized = record signed {
  sessions = put_session 1 5 hash none signed.sessions;
  validated_payloads =
      put_validated_payload hash (record { latest_epoch = 1 }) signed.validated_payloads;
}

abbrev pub attested : ConsortiumState
attested = record finalized {
  session_payloads =
      put_session_payload 5 hash (some (record { payload = payload; allocated = 260 }))
        finalized.session_payloads;
}

create_session-runs : exec_consortium crypto 5 (Request.create_session hash) with_set ≡ ok opened
unfolding exec_consortium create_session
create_session-runs = refl

post_session_signatures-runs :
    exec_consortium crypto 5
      (Request.post_session_signatures hash (280 ∷ 270 ∷ []) (1 ∷ 0 ∷ []))
      opened
    ≡ ok signed
unfolding exec_consortium post_session_signatures post_signatures post_signature add_signature
    check_signature recovers
post_session_signatures-runs = refl

finalize_session-runs :
    exec_consortium crypto 5 (Request.finalize_session hash) signed ≡ ok finalized
unfolding exec_consortium finalize_session
finalize_session-runs = refl

post_session_payload-runs :
    exec_consortium crypto 5 (Request.post_session_payload hash payload 260) finalized ≡ ok attested
unfolding exec_consortium post_session_payload
post_session_payload-runs = rw payload_length

abbrev pub config₀ : Config
config₀ = record {
  admin = 7;
  pending_admin = 0;
  treasury = 70;
  paused = false;
  consortium = 900;
  global_nonce = 1;
  default_max_payload_size = 100;
  fee_per_byte = 2;
}

abbrev pub initialized : State ℕ
initialized = record (no_accounts 0) { config = some config₀ }

pub initialize-runs :
    (notary : Notary)
    → exec runtime 11 2 notary 9 (Instruction.initialize (some 9) 7 900 70 100 2) (no_accounts 0)
      ≡ ok initialized
unfolding exec Admin.initialize
initialize-runs notary = refl

abbrev pub notary : Notary
notary = notary_of 900 attested

-- A path from mailbox 33 at chain 1, and one to chain 4.
abbrev pub with_inbound : State ℕ
with_inbound = record initialized {
  inbound_message_paths =
      put 1 (some (record { identifier = 96; source_mailbox_address = 33; source_chain_id = 1 }))
        initialized.inbound_message_paths;
}

abbrev pub path : OutboundMessagePath
path = record { identifier = 96; destination_chain_id = 4 }

abbrev pub with_paths : State ℕ
with_paths = record with_inbound {
  outbound_message_paths = put 4 (some path) with_inbound.outbound_message_paths;
}

pub enable_inbound_message_path-runs :
    exec runtime 11 2 notary 7 (Instruction.enable_inbound_message_path 1 33) initialized
    ≡ ok with_inbound
unfolding exec Admin.enable_inbound_message_path message_path_identifier to_be
enable_inbound_message_path-runs = refl

pub enable_outbound_message_path-runs :
    exec runtime 11 2 notary 7 (Instruction.enable_outbound_message_path 4) with_inbound
    ≡ ok with_paths
unfolding exec Admin.enable_outbound_message_path message_path_identifier to_be
enable_outbound_message_path-runs = refl

-- Signer 5 delivers the message, and signer 8, whom it names, has it handled.
abbrev pub with_message : State ℕ
with_message = record with_paths {
  messages = put hash (some (record { status = delivered; message = message })) with_paths.messages;
}

abbrev pub with_handled : State ℕ
with_handled = record with_message {
  messages = put hash (some (record { status = handled; message = message })) with_message.messages;
  world = 1;
}

pub deliver_message-runs : deliver_message runtime notary 5 hash 1 with_paths ≡ ok with_message
unfolding deliver_message
deliver_message-runs = rw (payload_length, from_session_payload-to message message-IsMessage)

pub handle_message-runs :
    exec runtime 11 2 notary 8 (Instruction.handle_message hash 60 []) with_message
    ≡ ok with_handled
unfolding exec handle_message call_recipient
handle_message-runs = refl

handled_once :
    exec runtime 11 2 notary 8 (Instruction.handle_message hash 60 []) with_handled
    ≡ err invalid_payload_state
unfolding exec handle_message call_recipient
handled_once = refl

wrong_caller :
    exec runtime 11 2 notary 9 (Instruction.handle_message hash 60 []) with_message
    ≡ err invalid_destination_caller
unfolding exec handle_message call_recipient
wrong_caller = refl

-- A message of one byte goes out over the other path, for 260 bytes at 2 lamports each.
abbrev pub send : Send
send = record {
  authority = record { key = 50; owner = 51; data_is_empty = true };
  path = 4;
  treasury = some 70;
  with_sender_config = false;
  message_body = 1 ∷ [];
  recipient = 60;
  destination_caller = none;
  fee_override = 0;
}

abbrev pub sent_message : MessageV1
sent_message = record {
  message_path_identifier = 96;
  nonce = 1;
  sender = 50;
  recipient = 60;
  destination_caller = none;
  body = 1 ∷ [];
}

abbrev pub with_sent : State ℕ
with_sent = record with_paths {
  config = some (record config₀ { global_nonce = 2 });
  outbound_messages = put 1 (some (to_session_payload sent_message)) with_paths.outbound_messages;
  world = 520;
}

pub send_message-runs :
    send_message runtime 6 send with_paths
    ≡ ok (with_sent, record { nonce = 2; payload_hash = 260 })
unfolding send_message byte_price charge pay_fee
send_message-runs = rw (length-to_session_payload sent_message)

pub Together-attested : Together crypto runtime 900 11 2 0 attested (no_accounts 0)
Together-attested =
    consortium 5 (Request.post_session_payload hash payload 260)
      (consortium 5 (Request.finalize_session hash)
        (consortium 5 (Request.post_session_signatures hash (280 ∷ 270 ∷ []) (1 ∷ 0 ∷ []))
          (consortium 5 (Request.create_session hash)
            (consortium 7 (Request.set_initial_valset (encode skipped two_validators))
              (consortium 9 (Request.initialize (some 9) 7) begin consortium-initialize-runs)
              set_initial_valset-runs)
            create_session-runs)
          post_session_signatures-runs)
        finalize_session-runs)
      post_session_payload-runs

pub Together-paths : Together crypto runtime 900 11 2 0 attested with_paths
Together-paths =
    mailbox 7 (Instruction.enable_outbound_message_path 4)
      (mailbox 7 (Instruction.enable_inbound_message_path 1 33)
        (mailbox 9 (Instruction.initialize (some 9) 7 900 70 100 2) Together-attested
          (initialize-runs notary))
        enable_inbound_message_path-runs)
      enable_outbound_message_path-runs

pub Together-handled : Together crypto runtime 900 11 2 0 attested with_handled
unfolding exec
Together-handled =
    mailbox 8 (Instruction.handle_message hash 60 [])
      (mailbox 5 (Instruction.deliver_message hash 1) Together-paths deliver_message-runs)
      handle_message-runs
