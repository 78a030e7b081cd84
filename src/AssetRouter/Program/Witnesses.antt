-- ===== src/AssetRouter/Program/Witnesses.antt =====
-- Runs of the asset router: a mint, a mint with a fee, and a redemption for bitcoin.
use sol_svm_contracts.Base.{
  ℕ, ◌≤◌, ◌≡◌, refl, List, ◌∷◌, false, none, some, ok, length, replicate, arith, ◌+◌,
}
use sol_svm_contracts.Base.Bytes.{to_be, u64_word}
use sol_svm_contracts.Mailbox.State.{
  MessageV1, State as MailboxState, Runtime as MailboxRuntime, put as put_mailbox,
  no_accounts as no_mailbox,
}
use sol_svm_contracts.Mailbox.Message.{to_session_payload}
use sol_svm_contracts.Mailbox.Message.Size.{length-to_session_payload}
use sol_svm_contracts.Mailbox.Program.{send_message, byte_price, charge, pay_fee}
use sol_svm_contracts.Mailbox.Program.Delivery.{notary_of}
use sol_svm_contracts.AssetRouter.State.{
  Config, TokenConfig, redeem, State, put, no_accounts, World,
}
use sol_svm_contracts.AssetRouter.Standins.{runtime}
use sol_svm_contracts.AssetRouter.Messages.{
  redeem_for_btc_body, padded, padded_from, OutputType, get_output_type,
}
use sol_svm_contracts.AssetRouter.Messages.Layout.{IsScript}
use sol_svm_contracts.AssetRouter.Admin as Admin
use sol_svm_contracts.AssetRouter.Minting.Witnesses.{
  finalized, payload, hash, config, before, after, accounts, mint_from_payload-runs,
}
use sol_svm_contracts.AssetRouter.Sending.{
  SendAccounts, execute_burn, burn_and_send, redeem_checks, pay_and_send, redeem_for_btc,
}
use sol_svm_contracts.AssetRouter.Sending.Fees.{IsBtcRedemption, redeem_for_btc-IsRedemption}
use sol_svm_contracts.AssetRouter.Instruction.{Instruction}
use sol_svm_contracts.AssetRouter.Program.{exec}
use sol_svm_contracts.AssetRouter.Sending.Frame.{TransferKeepsRouter}
use sol_svm_contracts.AssetRouter.Program.Effects.{is_there}
use sol_svm_contracts.AssetRouter.Program.Spends.{Leads, start, step, times_spent, times_spent_lem}

-- Stand-ins for what the mailbox calls.
abbrev mailbox : MailboxRuntime (World ℕ)
mailbox = record {
  sha256 = λ bytes. length bytes;
  keccak256 = λ bytes. length bytes;
  bytes_are_curve_point = λ key. false;
  transfer = λ from to amount w. some w;
  message_address = λ payload_hash. payload_hash;
  invoke = λ program accounts instruction_data w. none;
}

keeps_router : TransferKeepsRouter runtime mailbox
keeps_router = λ from to amount w w' e. ground arith

abbrev state_of : World ℕ → MailboxState (World ℕ)
state_of w = no_mailbox w

abbrev world₀ : World ℕ
world₀ = record before { router = no_accounts }

run_of_mint : Leads runtime mailbox (state_of world₀) (state_of after)
unfolding exec Admin.initialize
run_of_mint =
    step {st = state_of before} {st' = state_of after} (notary_of 900 finalized) 5
      (Instruction.mint_from_payload payload hash accounts)
      (step {st' = state_of before} (notary_of 900 finalized) 9
        (Instruction.initialize (some 9) config) start refl)
      (rw mint_from_payload-runs)

times_spent_lem_example :
    (times_spent runtime mailbox hash run_of_mint
      ≡ is_there (after.router.deposit_payloads_spent hash))
    × (times_spent runtime mailbox hash run_of_mint ≤ 1)
times_spent_lem_example = times_spent_lem runtime mailbox keeps_router hash refl run_of_mint

-- A redemption of 20 of token 2 for a script of 22 bytes, with a commission of 3.
abbrev script : List ℕ
script = 0x00 ∷ 0x14 ∷ replicate 20 7

abbrev token_config : TokenConfig
token_config = record {
  redeem_fee = 2;
  redeem_for_btc_min_amount = 10;
  max_mint_commission = 4;
  to_native_commission = 3;
  ledger_redeem_handler = 44;
}

abbrev sender : SendAccounts
sender = record {
  payer = 65;
  payer_token_account = 70;
  token_program = 1;
  mint = 2;
  path = 1;
  with_sender_config = false;
  treasury = some 91;
}

abbrev router : State
router = record before.router {
  config = some (record config { treasury = 65 });
  token_configs = put 2 (some token_config) (λ _. none);
  token_routes = λ r. some redeem;
}

abbrev with_path : MailboxState (World ℕ)
with_path = record (no_mailbox (record before { router = router })) {
  config = some (record {
    admin = 7;
    pending_admin = 0;
    paused = false;
    consortium = 900;
    treasury = 91;
    default_max_payload_size = 1000;
    fee_per_byte = 2;
    global_nonce = 1;
  });
  outbound_message_paths =
      put_mailbox 1 (some (record { identifier = 77; destination_chain_id = 1 })) (λ _. none);
}

abbrev message : MessageV1
message = record {
  message_path_identifier = 77;
  nonce = 1;
  sender = 60;
  recipient = 44;
  destination_caller = none;
  body = redeem_for_btc_body (record { sender = 70; script_pubkey = script; amount = 17 });
}

abbrev with_redemption : MailboxState (World ℕ)
with_redemption = record with_path {
  config = some (record {
    admin = 7;
    pending_admin = 0;
    paused = false;
    consortium = 900;
    treasury = 91;
    default_max_payload_size = 1000;
    fee_per_byte = 2;
    global_nonce = 2;
  });
  outbound_messages = put_mailbox 1 (some (to_session_payload message)) (λ _. none);
  world = record with_path.world { tokens = 83 };
}

body_length : length message.body ≡ 164
unfolding redeem_for_btc_body padded padded_from u64_word to_be
body_length = refl

redeem_for_btc-runs :
    redeem_for_btc runtime mailbox sender 71 script 20 with_path
    ≡ ok (with_redemption, record { nonce = 2; payload_hash = length (to_session_payload message) })
unfolding redeem_for_btc redeem_checks pay_and_send burn_and_send execute_burn get_output_type
    send_message byte_price charge pay_fee
redeem_for_btc-runs = rw (length-to_session_payload message, body_length) refl

redeem_for_btc-IsRedemption_example :
    (c : Config) × (t : TokenConfig) × (fee : ℕ) × (kind : OutputType) × IsScript kind script
    × (t.redeem_for_btc_min_amount + fee ≤ 20)
    × IsBtcRedemption runtime mailbox sender 71 script 20 c t fee with_path with_redemption
redeem_for_btc-IsRedemption_example =
    redeem_for_btc-IsRedemption runtime mailbox sender 71 script 20 with_path with_redemption
      (record { nonce = 2; payload_hash = length (to_session_payload message) }) refl
      redeem_for_btc-runs
