-- ===== src/Bridge/Program/Runs.antt =====
-- The bridge, the mailbox and a message for the runs of the three programs, with stand-ins for what
-- they call.
use sol_svm_contracts.Base.{
  ℕ, ◌+◌, ◌-◌, ◌≡◌, List, [], true, false, none, some, arith, length, leb, if◌then◌else◌,
}
use sol_svm_contracts.Base.Bytes.{to_be, u64_word}
use sol_svm_contracts.Mailbox.State.{
  MessageV1, Config as MailboxConfig, delivered, State as MailboxState, put,
  Runtime as MailboxRuntime, no_accounts as no_mailbox,
}
use sol_svm_contracts.Mailbox.Message.{to_session_payload}
use sol_svm_contracts.Mailbox.Message.RoundTrip.{IsMessage}
use sol_svm_contracts.Mailbox.Message.Size.{length-to_session_payload}
use sol_svm_contracts.Bridge.State.{
  Config, SenderConfig, RemoteTokenConfig, State, no_accounts, put₂, Surroundings, Runtime,
}
use sol_svm_contracts.Bridge.Messages.{BridgeToken, to_gmp_body}
use sol_svm_contracts.Bridge.Messages.RoundTrip.{IsBridgeToken}
use sol_svm_contracts.Bridge.Instruction.{Receive}

-- Stand-ins: the accounts of the token programs are the supply, and the rate limit is what is left.
abbrev pub runtime : Runtime ℕ ℕ ℕ
runtime = record {
  bridge_id = 60;
  mailbox_id = 11;
  config_address = 61;
  token_authority = 62;
  token_account = λ key supply. some (record { token_program = 1; mint = 2; owner = 65 });
  is_mint = λ key supply. true;
  burn = λ token_program from mint authority amount supply. some (supply - amount);
  mint_to =
      λ token_program mint to mint_authority token_authority amount supply. some (supply + amount);
  associated_token_address = λ owner mint token_program. 0;
  serialized = λ amount message. [];
  empty_bucket = 1000;
  set_token_bucket_config = λ limit supply bucket. some limit;
  consume = λ amount supply bucket. if leb amount bucket then some (bucket - amount) else none;
}

abbrev pub mailbox : MailboxRuntime (Surroundings ℕ ℕ)
mailbox = record {
  sha256 = λ bytes. length bytes;
  keccak256 = λ bytes. length bytes;
  bytes_are_curve_point = λ key. false;
  transfer = λ from to amount w. some w;
  message_address = λ payload_hash. payload_hash;
  invoke = λ program accounts instruction_data w. some (w, none);
}

abbrev pub token : BridgeToken
token = record {
  destination_token_address = 2;
  sender = 55;
  recipient = 70;
  amount = 5;
  optional_message = none;
}

pub token-IsBridgeToken : IsBridgeToken token
token-IsBridgeToken = record {
  token = omega arith;
  sender = omega arith;
  recipient = omega arith;
  amount = omega arith;
  message = tt;
}

abbrev pub message : MessageV1
message = record {
  message_path_identifier = 96;
  nonce = 3;
  sender = 50;
  recipient = 60;
  destination_caller = none;
  body = to_gmp_body token;
}

pub message-IsMessage : IsMessage message
unfolding to_gmp_body u64_word to_be
message-IsMessage = record {
  identifier = omega arith;
  nonce = omega arith;
  sender = omega arith;
  recipient = omega arith;
  caller = tt;
  body = omega arith;
}

abbrev pub payload : List ℕ
payload = to_session_payload message

abbrev pub hash : ℕ
hash = 388

pub payload_length : length payload ≡ hash
unfolding to_gmp_body u64_word to_be
payload_length = length-to_session_payload message

-- The mailbox has paths from chain 1 and to it.
abbrev pub mailbox_config : MailboxConfig
mailbox_config = record {
  admin = 7;
  pending_admin = 0;
  treasury = 90;
  paused = false;
  consortium = 900;
  global_nonce = 1;
  default_max_payload_size = 1000;
  fee_per_byte = 2;
}

abbrev pub empty : MailboxState (Surroundings ℕ ℕ)
empty = no_mailbox (record { bridge = no_accounts; tokens = 100 })

abbrev pub with_mailbox : MailboxState (Surroundings ℕ ℕ)
with_mailbox = record empty { config = some mailbox_config }

abbrev pub with_inbound : MailboxState (Surroundings ℕ ℕ)
with_inbound = record with_mailbox {
  inbound_message_paths =
      put 1 (some (record { identifier = 96; source_mailbox_address = 33; source_chain_id = 1 }))
        with_mailbox.inbound_message_paths;
}

abbrev pub with_paths : MailboxState (Surroundings ℕ ℕ)
with_paths = record with_inbound {
  outbound_message_paths =
      put 1 (some (record { identifier = 96; destination_chain_id = 1 }))
        with_inbound.outbound_message_paths;
}

-- The bridge is configured for mint 2 here and bridge 50 and token 3 at chain 1.
abbrev pub bridge_config : Config
bridge_config = record { admin = 7; pending_admin = 0; paused = false; mailbox = 11 }

abbrev pub sender_config : SenderConfig
sender_config = record { fee_discount = 10000; whitelisted = true }

abbrev pub remote_token : RemoteTokenConfig ℕ
remote_token = record { chain_id = 1; token = 3; direction = 3; inbound_rate_limit = 1000 }

abbrev pub b₁ : State ℕ
b₁ = record no_accounts { config = some bridge_config }

abbrev pub b₂ : State ℕ
b₂ = record b₁ { sender_configs = put 65 (some sender_config) b₁.sender_configs }

abbrev pub b₃ : State ℕ
b₃ = record b₂ {
  remote_bridge_configs =
      put 1 (some (record { chain_id = 1; bridge = 50 })) b₂.remote_bridge_configs;
}

abbrev pub b₄ : State ℕ
b₄ = record b₃ { local_token_configs = put 2 (some (record { mint = 2 })) b₃.local_token_configs }

abbrev pub b₅ : State ℕ
b₅ = record b₄ { remote_token_configs = put₂ 2 1 (some remote_token) b₄.remote_token_configs }

abbrev pub with_bridge_of : State ℕ → MailboxState (Surroundings ℕ ℕ)
with_bridge_of b = record with_paths { world = record with_paths.world { bridge = b } }

abbrev pub configured : MailboxState (Surroundings ℕ ℕ)
configured = with_bridge_of b₅

abbrev pub with_message : MailboxState (Surroundings ℕ ℕ)
with_message = record configured {
  messages = put hash (some (record { status = delivered; message = message })) configured.messages;
}

abbrev pub receive : Receive
receive = record {
  message_is_signer = true;
  token_program = 1;
  recipient = 70;
  token_mint = 2;
  mint_authority = 80;
  path = 1;
}
