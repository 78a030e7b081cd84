-- ===== src/Bridge/Program/Witnesses.antt =====
-- The theorems about the bridge at concrete inputs.
use sol_svm_contracts.Base.{
  ℕ, ◌-◌, ◌<◌, ◌≤◌, ◌≡◌, ◌⊎◌, refl, [], true, none, some, ok, err, arith, length,
}
use sol_svm_contracts.Base.Bytes.{
  to_be, u64_word, from_be, from_be_from, read_array, read_exact, read_u64,
}
use sol_svm_contracts.Mailbox.State.{
  MessageV1, delivered, handled, fee_adjustment_base, State as MailboxState, put,
}
use sol_svm_contracts.Mailbox.Message.{to_session_payload, caller_word, padding}
use sol_svm_contracts.Mailbox.Program.{handle_message, call_recipient, gmp_receive_instr_data}
use sol_svm_contracts.Mailbox.Program.Delivery.{IsAttested}
use sol_svm_contracts.Bridge.State.{
  put₂, Surroundings, invalid_message_length, invalid_message_version,
}
use sol_svm_contracts.Bridge.Messages.{
  Mint, to_gmp_body, trailing_message, from_message, InboundResponse,
}
use sol_svm_contracts.Bridge.Messages.RoundTrip.{mint_of, from_message-to_gmp_body}
use sol_svm_contracts.Bridge.Messages.Errors.{
  first_byte, IsWrongVersion, IsRightVersion, from_message-cases,
}
use sol_svm_contracts.Bridge.Instruction.{Instruction}
use sol_svm_contracts.Bridge.Admin
use sol_svm_contracts.Bridge.Sending.{fee_override}
use sol_svm_contracts.Bridge.Receiving.{
  GmpReceive, execute_mint, receive_checks, gmp_receive_accounts, gmp_receive,
}
use sol_svm_contracts.Bridge.Program.{exec, run_bridge, handle_with_bridge}
use sol_svm_contracts.Bridge.Program.Inversion.{IsReceipt}
use sol_svm_contracts.Bridge.Program.Receipts.{
  is_there, Leads, start, step, outside, times_received, TransferKeepsBridge, times_received_lem,
}
use sol_svm_contracts.Bridge.Program.Discounts.{fee_override-ok}
use sol_svm_contracts.Bridge.Program.Handling.{signed, handle_with_bridge-receives}
use sol_svm_contracts.Bridge.Program.Trust.{handle_with_bridge-IsAttested}
use sol_svm_contracts.Consortium.Program.Runs.{crypto}
use sol_svm_contracts.Bridge.Program.Runs.{
  runtime, mailbox, token, token-IsBridgeToken, message, hash, configured, with_message, receive,
  b₁, b₂, b₃, b₄, with_bridge_of, with_paths, sender_config, bridge_config, remote_token,
}
use sol_svm_contracts.Bridge.Program.Reached.{attested, System-delivered}

-- The message is received.
abbrev after_receipt : Surroundings ℕ ℕ
after_receipt = record {
  bridge = record configured.world.bridge {
    messages_handled = put hash (some tt) configured.world.bridge.messages_handled;
    remote_token_configs =
        put₂ 2 1 (some (record remote_token { inbound_rate_limit = 995 }))
          configured.world.bridge.remote_token_configs;
  };
  tokens = 105;
}

abbrev with_received : MailboxState (Surroundings ℕ ℕ)
with_received = record with_message {
  messages = put hash (some (record { status = handled; message = message })) with_message.messages;
  world = after_receipt;
}

abbrev response : InboundResponse
response = record { amount = 5; message = none }

handle-runs :
    handle_with_bridge runtime mailbox 8 hash 60 [] receive with_message
    ≡ ok (with_received, some [])
unfolding handle_with_bridge handle_message call_recipient gmp_receive_instr_data run_bridge
    gmp_receive gmp_receive_accounts receive_checks execute_mint to_session_payload caller_word
    padding from_message trailing_message read_array read_exact read_u64 from_be from_be_from
    to_gmp_body u64_word to_be
handle-runs = refl

receive-runs :
    gmp_receive runtime mailbox hash receive with_message with_message.world
    ≡ ok (after_receipt, response)
unfolding gmp_receive gmp_receive_accounts receive_checks execute_mint to_session_payload
    caller_word padding from_message trailing_message read_array read_exact read_u64 from_be
    from_be_from to_gmp_body u64_word to_be
receive-runs = refl

from_message-to_gmp_body_example : from_message (to_gmp_body token) ≡ ok (mint_of token)
from_message-to_gmp_body_example = from_message-to_gmp_body token token-IsBridgeToken

from_message-cases_example :
    ((length message.body < 129) × (from_message message.body ≡ err invalid_message_length))
    ⊎ ((129 ≤ length message.body)
        × ((IsWrongVersion (first_byte message.body) (length message.body)
              × (from_message message.body ≡ err invalid_message_version))
            ⊎ (IsRightVersion (first_byte message.body) (length message.body)
                × (mint : Mint) × (from_message message.body ≡ ok mint))))
from_message-cases_example = from_message-cases message.body

keeps_bridge : TransferKeepsBridge runtime mailbox
keeps_bridge = λ from to amount w w' e. ground arith

run_of_sender : Leads runtime mailbox with_paths (with_bridge_of b₂)
unfolding exec Admin.initialize Admin.set_sender_config
run_of_sender =
    step {st = with_bridge_of b₁} {st' = with_bridge_of b₂} 7
      (Instruction.set_sender_config 65 10000 true)
      (step {st' = with_bridge_of b₁} 9 (Instruction.initialize (some 9) 2 7 11) start refl) refl

fee_override-ok_example :
    (sender_config.fee_discount ≤ fee_adjustment_base)
    × (fee_override sender_config.fee_discount
        ≡ ok (fee_adjustment_base - sender_config.fee_discount))
fee_override-ok_example =
    fee_override-ok runtime mailbox 65 sender_config keeps_bridge refl run_of_sender refl

run_of_bridge : Leads runtime mailbox with_paths configured
unfolding exec Admin.set_remote_bridge_config Admin.set_local_token_config
    Admin.set_remote_token_config
run_of_bridge =
    step {st = with_bridge_of b₄} {st' = configured} 7 (Instruction.set_remote_token_config 2 1 3 3)
      (step {st = with_bridge_of b₃} {st' = with_bridge_of b₄} 7
        (Instruction.set_local_token_config 2)
        (step {st = with_bridge_of b₂} {st' = with_bridge_of b₃} 7
          (Instruction.set_remote_bridge_config 1 50) run_of_sender refl)
        refl)
      refl

run_of_receipt : Leads runtime mailbox with_paths (record with_message { world = after_receipt })
unfolding exec
run_of_receipt =
    step {st = with_message} 8 (Instruction.gmp_receive hash receive) (outside run_of_bridge refl)
      (rw receive-runs)

times_received_lem_example :
    (times_received runtime mailbox hash run_of_receipt
      ≡ is_there (after_receipt.bridge.messages_handled hash))
    × (times_received runtime mailbox hash run_of_receipt ≤ 1)
times_received_lem_example =
    times_received_lem runtime mailbox keeps_bridge hash refl run_of_receipt

abbrev received_accounts : GmpReceive ℕ
received_accounts = record {
  config = bridge_config;
  message = message;
  recipient = record { token_program = 1; mint = 2; owner = 65 };
  inbound = record { identifier = 96; source_mailbox_address = 33; source_chain_id = 1 };
  remote_bridge = record { chain_id = 1; bridge = 50 };
  remote_token = remote_token;
}

handle_with_bridge-receives_example :
    (m : MessageV1) × (answer : InboundResponse) × (with_message.messages hash
      ≡ some (record { status = delivered; message = m }))
    × (m.recipient ≡ runtime.bridge_id)
    × IsReceipt runtime mailbox hash
        (signed runtime mailbox receive)
        with_message
        with_message.world
        after_receipt
        answer
    × (with_received ≡ record with_message {
      messages = put hash (some (record { status = handled; message = m })) with_message.messages;
      world = after_receipt;
    })
handle_with_bridge-receives_example =
    handle_with_bridge-receives runtime mailbox 8 hash [] receive with_message with_received
      (some []) (omega arith) handle-runs

handle_with_bridge-IsAttested_example :
    (answer : InboundResponse) × (x : IsReceipt runtime mailbox hash
      (signed runtime mailbox receive)
      with_message
      with_message.world
      after_receipt
      answer)
    × IsAttested crypto mailbox 900 11 2 hash x.a.message attested
    × (x.a.message.recipient ≡ runtime.bridge_id)
    × (x.a.message.sender ≡ x.a.remote_bridge.bridge)
    × (with_message.world.bridge.messages_handled hash ≡ none)
handle_with_bridge-IsAttested_example =
    handle_with_bridge-IsAttested crypto runtime mailbox 900 2 8 hash [] receive with_message
      with_received (some []) (omega arith) System-delivered handle-runs
