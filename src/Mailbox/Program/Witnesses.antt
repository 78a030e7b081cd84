-- ===== src/Mailbox/Program/Witnesses.antt =====
-- The theorems about the mailbox program at concrete inputs.
use sol_svm_contracts.Base.{
  ℕ, ◌∷◌, ◌+◌, ◌≤◌, ◌≡◌, ◌↔◌, refl, List, [], none, some, ok, arith, length,
}
use sol_svm_contracts.Mailbox.State.{InboundMessagePath, handled, State, no_accounts}
use sol_svm_contracts.Mailbox.Program.Liveness.{deliver_message_succeeds, send_message_succeeds}
use sol_svm_contracts.Mailbox.Program.Handling.{IsHandling, handle_message-ok_iff}
use sol_svm_contracts.Mailbox.Program.{
  exec, deliver_message, handle_message, byte_price, charge, pay_fee, send_message,
}
use sol_svm_contracts.Mailbox.Instruction.{Instruction}
use sol_svm_contracts.Mailbox.Message.{to_session_payload, from_session_payload}
use sol_svm_contracts.Mailbox.Message.RoundTrip.{from_session_payload-to}
use sol_svm_contracts.Mailbox.Admin
use sol_svm_contracts.Mailbox.Program.Runs.{
  runtime, payload_length, message, message-IsMessage, payload, hash, attested, config₀, notary,
  initialized, initialize-runs, with_inbound, with_paths, path, with_message, with_handled, send,
  sent_message, with_sent, deliver_message-runs, handle_message-runs, send_message-runs,
  enable_inbound_message_path-runs, enable_outbound_message_path-runs, Together-handled,
}
use sol_svm_contracts.Consortium.Program.Runs.{crypto}
use sol_svm_contracts.Mailbox.Program.Lifecycle.{
  Life, is_handled, Leads, start, step, exec-Life, times_handled, times_handled_lem, next_nonce,
}
use sol_svm_contracts.Mailbox.Program.Sending.{
  IsGapless, Leads-IsGapless, Paid, send_message-Paid, send_message-stores,
}
use sol_svm_contracts.Mailbox.Program.Paths.{IsInbound, exec-HasInboundPaths}
use sol_svm_contracts.Mailbox.Program.Delivery.{IsAttested, IsInboundMessage, message-IsAttested}

from_session_payload-to_example : from_session_payload (to_session_payload message) ≡ ok message
from_session_payload-to_example = from_session_payload-to message message-IsMessage

exec-Life_example : Life (with_message.messages hash) (with_handled.messages hash)
exec-Life_example =
    exec-Life runtime 11 2 notary 8 (Instruction.handle_message hash 60 []) with_message
      with_handled hash handle_message-runs

trace_handled : Leads runtime 11 2 with_paths with_handled
unfolding exec
trace_handled =
    step notary 8 (Instruction.handle_message hash 60 [])
      (step notary 5 (Instruction.deliver_message hash 1) start deliver_message-runs)
      handle_message-runs

trace_paths : Leads runtime 11 2 (no_accounts 0) with_paths
trace_paths =
    step notary 7 (Instruction.enable_outbound_message_path 4)
      (step notary 7 (Instruction.enable_inbound_message_path 1 33)
        (step notary 9 (Instruction.initialize (some 9) 7 900 70 100 2) start
          (initialize-runs notary))
        enable_inbound_message_path-runs)
      enable_outbound_message_path-runs

trace_all : Leads runtime 11 2 (no_accounts 0) with_handled
unfolding exec
trace_all =
    step notary 8 (Instruction.handle_message hash 60 [])
      (step notary 5 (Instruction.deliver_message hash 1) trace_paths deliver_message-runs)
      handle_message-runs

times_handled_lem_example :
    (times_handled runtime 11 2 hash trace_all ≡ is_handled (with_handled.messages hash))
    × (times_handled runtime 11 2 hash trace_all ≤ 1)
times_handled_lem_example = times_handled_lem runtime 11 2 hash trace_all

trace_sent : Leads runtime 11 2 (no_accounts 0) with_sent
unfolding exec
trace_sent = step notary 6 (Instruction.send_message send) trace_paths (rw send_message-runs)

abbrev with_new_treasury : State ℕ
with_new_treasury = record with_sent {
  config = some (record config₀ { global_nonce = 2; treasury = 71 });
}

trace_treasury : Leads runtime 11 2 with_sent with_new_treasury
unfolding exec Admin.set_treasury
trace_treasury = step notary 7 (Instruction.set_treasury 71) start refl

Leads-IsGapless_example : IsGapless with_sent
Leads-IsGapless_example = Leads-IsGapless runtime 11 2 trace_sent

send_message-Paid_example : (1 ≤ 100) × Paid runtime config₀ 6 (some 70) 520 0 520
send_message-Paid_example =
    send_message-Paid runtime 6 send with_paths with_sent _ config₀ none refl refl send_message-runs

send_message-stores_example :
    (bytes : List ℕ) × (with_sent.outbound_messages 1 ≡ some bytes)
    × (from_session_payload bytes ≡ ok sent_message)
    × (260 ≡ length bytes)
    × (2 ≡ 1 + 1)
    × (next_nonce with_sent.config ≡ 1 + 1)
send_message-stores_example =
    send_message-stores runtime 6 send with_paths with_sent
      (record { nonce = 2; payload_hash = 260 }) config₀ path refl refl
      (record {
        identifier = omega arith;
        nonce = omega arith;
        sender = omega arith;
        recipient = omega arith;
        caller = tt;
        body = omega arith;
      })
      send_message-runs

abbrev path_from_chain_1 : InboundMessagePath
path_from_chain_1 = record { identifier = 96; source_mailbox_address = 33; source_chain_id = 1 }

exec-HasInboundPaths_example :
    (path_from_chain_1.source_chain_id ≡ 1) × IsInbound runtime 11 2 path_from_chain_1
exec-HasInboundPaths_example =
    exec-HasInboundPaths runtime 11 2 notary 7 (Instruction.enable_inbound_message_path 1 33)
      initialized with_inbound (λ k path found. absurd (cc found)) enable_inbound_message_path-runs
      1 path_from_chain_1 refl

message-IsAttested_example :
    IsAttested crypto runtime 900 11 2 hash message attested
    × IsInboundMessage crypto runtime 900 11 2 message
message-IsAttested_example =
    message-IsAttested crypto runtime 900 11 2 hash (record { status = handled; message = message })
      Together-handled refl

deliver_message_succeeds_example :
    deliver_message runtime notary 5 hash 1 with_paths ≡ ok with_message
deliver_message_succeeds_example =
    deliver_message_succeeds runtime notary 5 hash 1 with_paths config₀
      (record { identifier = 96; source_mailbox_address = 33; source_chain_id = 1 }) payload 1
      message refl refl refl refl refl refl payload_length
      (from_session_payload-to message message-IsMessage) refl

handle_message-ok_iff_example :
    (handle_message runtime 8 hash 60 [] with_message ≡ ok (with_handled, some (1 ∷ [])))
    ↔ IsHandling runtime 8 hash 60 [] with_message with_handled (some (1 ∷ []))
handle_message-ok_iff_example =
    handle_message-ok_iff runtime 8 hash 60 [] with_message with_handled (some (1 ∷ []))

send_message_succeeds_example :
    send_message runtime 6 send with_paths
    ≡ ok (with_sent, record { nonce = 2; payload_hash = length (to_session_payload sent_message) })
unfolding byte_price charge pay_fee
send_message_succeeds_example =
    send_message_succeeds runtime 6 send with_paths config₀ path none (some 2) 520 refl refl refl
      refl refl refl (omega arith) refl (omega arith)
