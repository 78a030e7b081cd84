-- ===== src/Bridge/Program/ArrivalWitnesses.antt =====
-- The deposit of the other runs arrives at a bridge of another chain, where its token is 3.
use sol_svm_contracts.Base.{ℕ, ◌≡◌, refl, true, none, some, inl, ok, arith}
use sol_svm_contracts.Mailbox.State.{MessageV1Info, delivered, State as MailboxState, put}
use sol_svm_contracts.Mailbox.Message.{to_session_payload}
use sol_svm_contracts.Mailbox.Message.RoundTrip.{IsMessage, from_session_payload-to}
use sol_svm_contracts.Bridge.State.{
  State, no_accounts, put₂, RemoteTokenConfig, Surroundings, Runtime,
}
use sol_svm_contracts.Bridge.Messages.RoundTrip.{length-to_gmp_body}
use sol_svm_contracts.Bridge.Instruction.{Receive}
use sol_svm_contracts.Bridge.Sending.{to_bridge_token}
use sol_svm_contracts.Bridge.Receiving.{gmp_receive}
use sol_svm_contracts.Bridge.Program.Arrivals.{transfer-arrives}
use sol_svm_contracts.Bridge.Program.Runs.{
  runtime, mailbox, mailbox_config, configured, with_inbound, bridge_config, remote_token,
}
use sol_svm_contracts.Bridge.Program.DepositWitnesses.{
  leaving, sent_message, with_sent, send_result, deposit-runs,
}

abbrev runtime₂ : Runtime ℕ ℕ ℕ
runtime₂ = record runtime {
  bridge_id = 50;
  token_account = λ key supply. some (record { token_program = 1; mint = 3; owner = 65 });
}

abbrev token₂ : RemoteTokenConfig ℕ
token₂ = record { chain_id = 1; token = 2; direction = 2; inbound_rate_limit = 20 }

abbrev bridge₂ : State ℕ
bridge₂ = record no_accounts {
  config = some bridge_config;
  remote_bridge_configs = put 1 (some (record { chain_id = 1; bridge = 60 })) (λ _. none);
  local_token_configs = put 3 (some (record { mint = 3 })) (λ _. none);
  remote_token_configs = put₂ 3 1 (some token₂) (λ _ _. none);
}

abbrev info : MessageV1Info
info = record { status = delivered; message = sent_message }

abbrev world₂ : Surroundings ℕ ℕ
world₂ = record { bridge = bridge₂; tokens = 40 }

abbrev arrived : MailboxState (Surroundings ℕ ℕ)
arrived = record with_inbound { messages = put 388 (some info) (λ _. none); world = world₂ }

abbrev receive : Receive
receive = record {
  message_is_signer = true;
  token_program = 1;
  recipient = 71;
  token_mint = 3;
  mint_authority = 80;
  path = 1;
}

sent_message-IsMessage : IsMessage sent_message
sent_message-IsMessage = record {
  identifier = omega arith;
  nonce = omega arith;
  sender = omega arith;
  recipient = omega arith;
  caller = tt;
  body = omega (arith, length-to_gmp_body (to_bridge_token runtime mailbox leaving 3));
}

transfer-arrives_example :
    (burned : ℕ) × (runtime.burn 1 67 2 65 5 configured.world.tokens ≡ some burned)
    × (gmp_receive runtime₂ mailbox 388 receive arrived world₂
        ≡ ok (
          record {
            bridge = record bridge₂ {
              messages_handled = put 388 (some tt) bridge₂.messages_handled;
              remote_token_configs =
                  put₂ 3 1
                    (some (record token₂ { inbound_rate_limit = 15 }))
                    bridge₂.remote_token_configs;
            };
            tokens = 45;
          },
          record { amount = 5; message = none },
        ))
transfer-arrives_example =
    transfer-arrives runtime mailbox runtime₂ mailbox leaving configured with_sent send_result
      (record { identifier = 96; destination_chain_id = 1 }) (record { chain_id = 1; bridge = 50 })
      remote_token mailbox_config (to_session_payload sent_message) info receive arrived world₂
      token₂ 15 45 refl refl refl refl refl
      (record {
        token = omega arith;
        sender = omega arith;
        recipient = omega arith;
        amount = omega arith;
        message = tt;
      })
      (record {
        identifier = omega arith;
        nonce = omega arith;
        sender = omega arith;
        recipient = omega arith;
        caller = tt;
        body = omega arith;
      })
      deposit-runs refl (from_session_payload-to sent_message sent_message-IsMessage) refl
      (record {
        c = bridge_config;
        account = record { token_program = 1; mint = 3; owner = 65 };
        inbound = record { identifier = 96; source_mailbox_address = 33; source_chain_id = 1 };
        there = record { chain_id = 1; bridge = 60 };
        local = record { mint = 3 };
        is_info = refl;
        is_config = refl;
        is_open = refl;
        is_mailbox = refl;
        is_signed = refl;
        is_new = refl;
        is_account = refl;
        is_of_mint = refl;
        is_of_program = refl;
        is_recipient = inl refl;
        is_mint = refl;
        is_inbound = refl;
        is_chain = refl;
        is_path = refl;
        is_there = refl;
        is_sender = refl;
        is_local = refl;
        is_local_mint = refl;
        is_token = refl;
        is_enabled = refl;
      })
      refl refl refl
