-- ===== src/Bridge/Program/DepositWitnesses.antt =====
-- A deposit at concrete inputs.
use sol_svm_contracts.Base.{
  ℕ, ◌≤◌, length, List, ◌<◌, ◌≡◌, refl, true, false, none, some, ok, arith,
}
use sol_svm_contracts.Base.Bytes.{to_be, u64_word}
use sol_svm_contracts.Mailbox.State.{
  MessageV1, Config as MailboxConfig, State as MailboxState, put, SendResult,
}
use sol_svm_contracts.Mailbox.Message.{to_session_payload, caller_word, padding}
use sol_svm_contracts.Mailbox.Program.{send_message, byte_price, charge, pay_fee}
use sol_svm_contracts.Bridge.State.{Surroundings}
use sol_svm_contracts.Bridge.Messages.{to_gmp_body, from_message}
use sol_svm_contracts.Bridge.Instruction.{Deposit}
use sol_svm_contracts.Bridge.Sending.{
  to_bridge_token, execute_burn, deposit_checks, deposit_accounts, deposit,
}
use sol_svm_contracts.Bridge.Program.Transfers.{Stores, deposit-sends}
use sol_svm_contracts.Bridge.Program.Runs.{
  runtime, mailbox, mailbox_config, configured, remote_token,
}

-- Sender 65 deposits 5 of mint 2 for recipient 71 at chain 1.
abbrev pub leaving : Deposit
leaving = record {
  fee_payer = 66;
  sender_authority = record { key = 65; owner = 0; data_is_empty = true };
  sender_token_account = 67;
  token_program = 1;
  token_mint = 2;
  path = 1;
  treasury = some 90;
  with_sender_config = false;
  sender = 65;
  recipient = 71;
  caller = none;
  amount = 5;
  message = none;
}

abbrev pub sent_message : MessageV1
sent_message = record {
  message_path_identifier = 96;
  nonce = 1;
  sender = 60;
  recipient = 50;
  destination_caller = none;
  body = to_gmp_body (to_bridge_token runtime mailbox leaving 3);
}

abbrev pub with_sent : MailboxState (Surroundings ℕ ℕ)
with_sent = record configured {
  config = some (record mailbox_config { global_nonce = 2 });
  outbound_messages = put 1 (some (to_session_payload sent_message)) configured.outbound_messages;
  world = record configured.world { tokens = 95 };
}

abbrev pub send_result : SendResult
send_result = record { nonce = 2; payload_hash = 388 }

pub deposit-runs : deposit runtime mailbox leaving configured ≡ ok (with_sent, send_result)
unfolding deposit deposit_accounts deposit_checks execute_burn send_message byte_price charge
    pay_fee to_session_payload caller_word padding to_gmp_body u64_word to_be
deposit-runs = refl

deposit-sends_example :
    (c : MailboxConfig) × (body : List ℕ) × (tokens : ℕ) × (configured.config ≡ some c)
    × Stores runtime mailbox c
        (record {
          message_path_identifier = 96;
          nonce = c.global_nonce;
          sender = 60;
          recipient = 50;
          destination_caller = none;
          body = body;
        })
        with_sent
        send_result
    × (from_message body
        ≡ ok
            (record { token_address = 3; sender = 65; recipient = 71; amount = 5; message = none }))
    × (length body ≤ 177)
    × (runtime.burn 1 67 2 65 5 configured.world.tokens ≡ some tokens)
    × (0 < 5)
deposit-sends_example =
    deposit-sends runtime mailbox leaving configured with_sent send_result
      (record { identifier = 96; destination_chain_id = 1 }) (record { chain_id = 1; bridge = 50 })
      remote_token refl refl refl refl
      (record {
        token = omega arith;
        sender = omega arith;
        recipient = omega arith;
        amount = omega arith;
        message = tt;
      })
      deposit-runs
