-- ===== src/Bridge/Program/Reached.antt =====
-- Runs of the bridge beside the mailbox and the consortium program: two validators sign a message,
-- and it is delivered.
use sol_svm_contracts.Base.{◌≡◌, refl, [], ◌∷◌, true, false, none, some, ok}
use sol_svm_contracts.Base.Bytes.{to_be, u64_word}
use sol_svm_contracts.Consortium.State.{
  State as ConsortiumState, put_session, put_session_payload, put_validated_payload,
}
use sol_svm_contracts.Consortium.Instruction.{Instruction as Request}
use sol_svm_contracts.Consortium.Signatures.{
  recovers, check_signature, add_signature, post_signature, post_signatures,
}
use sol_svm_contracts.Consortium.Payload.RoundTrip.{encode}
use sol_svm_contracts.Consortium.Program.{
  exec as exec_consortium, create_session, post_session_signatures, finalize_session,
  post_session_payload,
}
use sol_svm_contracts.Consortium.Program.Runs.{
  crypto, skipped, two_validators, with_set, initialize-runs as consortium-initialize-runs,
  set_initial_valset-runs,
}
use sol_svm_contracts.Mailbox.Instruction.{Instruction as MailboxInstruction}
use sol_svm_contracts.Mailbox.Message.{message_path_identifier}
use sol_svm_contracts.Mailbox.Message.RoundTrip.{from_session_payload-to}
use sol_svm_contracts.Mailbox.Admin as MailboxAdmin
use sol_svm_contracts.Mailbox.Program.{exec as exec_mailbox, deliver_message}
use sol_svm_contracts.Mailbox.Program.Delivery.{notary_of}
use sol_svm_contracts.Bridge.Messages.{to_gmp_body}
use sol_svm_contracts.Bridge.Instruction.{Instruction}
use sol_svm_contracts.Bridge.Admin
use sol_svm_contracts.Bridge.Program.{exec, with_bridge}
use sol_svm_contracts.Bridge.Program.Trust.{System, begin, consortium, of_mailbox, of_bridge}
use sol_svm_contracts.Bridge.Program.Runs.{
  runtime, mailbox, message, message-IsMessage, payload, hash, payload_length, empty, with_mailbox,
  with_inbound, with_paths, b₁, b₂, b₃, b₄, with_bridge_of, configured, with_message, receive,
}

-- The consortium validates the payload, and signer 5 posts it.
abbrev opened : ConsortiumState
opened = record with_set {
  sessions =
      put_session 1 5 hash (some (record { signed = false ∷ false ∷ []; weight = 0 }))
        with_set.sessions;
}

abbrev signed : ConsortiumState
signed = record opened {
  sessions =
      put_session 1 5 hash (some (record { signed = true ∷ true ∷ []; weight = 2 }))
        opened.sessions;
}

abbrev finalized : ConsortiumState
finalized = record signed {
  sessions = put_session 1 5 hash none signed.sessions;
  validated_payloads =
      put_validated_payload hash (record { latest_epoch = 1 }) signed.validated_payloads;
}

abbrev pub attested : ConsortiumState
attested = record finalized {
  session_payloads =
      put_session_payload 5 hash (some (record { payload = payload; allocated = 388 }))
        finalized.session_payloads;
}

create_session-runs : exec_consortium crypto 5 (Request.create_session hash) with_set ≡ ok opened
unfolding exec_consortium create_session
create_session-runs = refl

post_session_signatures-runs :
    exec_consortium crypto 5
      (Request.post_session_signatures hash (408 ∷ 398 ∷ []) (1 ∷ 0 ∷ []))
      opened
    ≡ ok signed
unfolding exec_consortium post_session_signatures post_signatures post_signature add_signature
    check_signature recovers
post_session_signatures-runs = refl

finalize_session-runs :
    exec_consortium crypto 5 (Request.finalize_session hash) signed ≡ ok finalized
unfolding exec_consortium finalize_session
finalize_session-runs = refl

post_session_payload-runs :
    exec_consortium crypto 5 (Request.post_session_payload hash payload 388) finalized ≡ ok attested
unfolding exec_consortium post_session_payload
post_session_payload-runs = rw payload_length

pub System-attested : System crypto runtime mailbox 900 2 attested empty
System-attested =
    consortium 5 (Request.post_session_payload hash payload 388)
      (consortium 5 (Request.finalize_session hash)
        (consortium 5 (Request.post_session_signatures hash (408 ∷ 398 ∷ []) (1 ∷ 0 ∷ []))
          (consortium 5 (Request.create_session hash)
            (consortium 7 (Request.set_initial_valset (encode skipped two_validators))
              (consortium 9 (Request.initialize (some 9) 7) (begin 100) consortium-initialize-runs)
              set_initial_valset-runs)
            create_session-runs)
          post_session_signatures-runs)
        finalize_session-runs)
      post_session_payload-runs

pub System-paths : System crypto runtime mailbox 900 2 attested with_paths
unfolding exec_mailbox MailboxAdmin.initialize MailboxAdmin.enable_inbound_message_path
    MailboxAdmin.enable_outbound_message_path message_path_identifier to_be
System-paths =
    of_mailbox {st = with_inbound} {st' = with_paths} 7
      (MailboxInstruction.enable_outbound_message_path 1) receive
      (of_mailbox {st = with_mailbox} {st' = with_inbound} 7
        (MailboxInstruction.enable_inbound_message_path 1 33) receive
        (of_mailbox {st' = with_mailbox} 9 (MailboxInstruction.initialize (some 9) 7 900 90 1000 2)
          receive System-attested refl)
        refl)
      refl

pub System-configured : System crypto runtime mailbox 900 2 attested configured
unfolding exec Admin.initialize Admin.set_sender_config Admin.set_remote_bridge_config
    Admin.set_local_token_config Admin.set_remote_token_config
System-configured =
    of_bridge {st = with_bridge_of b₄} {st' = configured} 7
      (Instruction.set_remote_token_config 2 1 3 3)
      (of_bridge {st = with_bridge_of b₃} {st' = with_bridge_of b₄} 7
        (Instruction.set_local_token_config 2)
        (of_bridge {st = with_bridge_of b₂} {st' = with_bridge_of b₃} 7
          (Instruction.set_remote_bridge_config 1 50)
          (of_bridge {st = with_bridge_of b₁} {st' = with_bridge_of b₂} 7
            (Instruction.set_sender_config 65 10000 true)
            (of_bridge {st' = with_bridge_of b₁} 9 (Instruction.initialize (some 9) 2 7 11)
              System-paths refl)
            refl)
          refl)
        refl)
      refl

deliver_message-runs :
    deliver_message
      (with_bridge runtime mailbox receive configured)
      (notary_of 900 attested)
      5
      hash
      1
      configured
    ≡ ok with_message
unfolding deliver_message to_gmp_body to_be u64_word
deliver_message-runs = rw (payload_length, from_session_payload-to message message-IsMessage)

pub System-delivered : System crypto runtime mailbox 900 2 attested with_message
unfolding exec_mailbox
System-delivered =
    of_mailbox 5 (MailboxInstruction.deliver_message hash 1) receive System-configured
      deliver_message-runs
