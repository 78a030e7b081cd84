-- ===== src/Bridge/Receiving.antt =====
-- Receipts: programs/bridge/src/instructions/gmp_receive.rs and utils/token_actions.rs, in the order
-- in which the framework checks the accounts.
use sol_svm_contracts.Base.{
  ℕ, not, ◌&&◌, ◌||◌, Bool, Option, none, some, ltb, ◌==◌, Outcome, ok, fault, constraint_address,
  constraint_seeds, constraint_signer, constraint_raw, constraint_token, account_not_initialized,
  library_error, ◌>>=◌, ◌>>◌, require, constrain, load, vacant,
}
use sol_svm_contracts.Mailbox.State.{State as MailboxState, Runtime as MailboxRuntime}
use sol_svm_contracts.Mailbox.Message.{to_session_payload}
use sol_svm_contracts.Bridge.State.{
  Error, paused, inbound_direction_disabled, zero_amount, invalid_payload_hash,
  invalid_token_address, recipient_mismatch, inbound_direction, TokenAccount, RemoteTokenConfig,
  put, put₂, Surroundings, Runtime,
}
use sol_svm_contracts.Bridge.Messages.{from_message, InboundResponse}
use sol_svm_contracts.Bridge.Instruction.{Receive}
use sol_svm_contracts.Mailbox.State.{MessageV1, InboundMessagePath}
use sol_svm_contracts.Bridge.State.{Config, RemoteBridgeConfig, LocalTokenConfig}
use sol_svm_contracts.Bridge.Sending.{allows, succeeds}

-- An error of the library.
abbrev pub granted {ℓ} : {A : Type ℓ} → Option A → Outcome Error A
granted none = fault library_error
granted (some a) = ok a

-- The accounts of `GMPReceive` that the checks and the handler read.
pub record GmpReceive (Bucket : Type 0) : Type 0 where
  pub config : Config
  pub message : MessageV1
  pub recipient : TokenAccount
  pub inbound : InboundMessagePath
  pub remote_bridge : RemoteBridgeConfig
  pub remote_token : RemoteTokenConfig Bucket

module _ {Bucket LimitConfig Tokens : Type 0} (runtime : Runtime Bucket LimitConfig Tokens)
    (mailbox : MailboxRuntime (Surroundings Bucket Tokens)) where
  -- The recipient is the token account that the message names, or the associated one of its owner
  -- that the message names.
  abbrev pub is_recipient : Receive → TokenAccount → (recipient : ℕ) → Bool
  is_recipient r account recipient =
      recipient == r.recipient
      || (r.recipient == runtime.associated_token_address recipient r.token_mint r.token_program
          && account.owner == recipient)

  -- `token_actions::execute_mint`
  unfoldable pub execute_mint : Receive → (amount : ℕ) → Tokens → Outcome Error Tokens
  execute_mint r amount tokens = succeeds (
      runtime.mint_to r.token_program r.token_mint r.recipient r.mint_authority
        runtime.token_authority amount tokens)

  -- The accounts after a receipt: the message is handled, and the rate limit is what is left of it.
  abbrev pub received :
      (payload_hash mint chain : ℕ)
      → RemoteTokenConfig Bucket
      → Bucket
      → Tokens
      → Surroundings Bucket Tokens
      → Surroundings Bucket Tokens
  received payload_hash mint chain remote bucket tokens w = record {
    bridge = record w.bridge {
      messages_handled = put payload_hash (some tt) w.bridge.messages_handled;
      remote_token_configs =
          put₂ mint chain (some (record remote { inbound_rate_limit = bucket }))
            w.bridge.remote_token_configs;
    };
    tokens = tokens;
  }

  -- The constraints of `GMPReceive`, with `local` the config of the local token.
  unfoldable pub receive_checks :
      (payload_hash : ℕ)
      → Receive
      → GmpReceive Bucket
      → LocalTokenConfig
      → Surroundings Bucket Tokens
      → Outcome Error (Unit {0})
  receive_checks payload_hash r a local w = do
    constrain (runtime.is_mint r.token_mint w.tokens) account_not_initialized
    vacant (w.bridge.messages_handled payload_hash)
    constrain (runtime.mailbox_id == a.config.mailbox) constraint_seeds
    constrain r.message_is_signer constraint_signer
    require (not a.config.paused) paused
    constrain (a.recipient.mint == r.token_mint && a.recipient.token_program == r.token_program)
        constraint_token
    constrain (r.token_mint == local.mint) constraint_address
    constrain (a.remote_bridge.bridge == a.message.sender) constraint_raw
    require (allows a.remote_token.direction inbound_direction) inbound_direction_disabled
    constrain (a.inbound.source_chain_id == r.path) constraint_seeds
    constrain (a.inbound.identifier == a.message.message_path_identifier) constraint_raw

  -- The accounts of `GMPReceive`, checked. `st` holds the mailbox's accounts, of which these are the
  -- message and the path; `w` is what the call acts on.
  unfoldable pub gmp_receive_accounts :
      (payload_hash : ℕ)
      → Receive
      → MailboxState (Surroundings Bucket Tokens)
      → Surroundings Bucket Tokens
      → Outcome Error (GmpReceive Bucket)
  gmp_receive_accounts payload_hash r st w = do
    info ← load (st.messages payload_hash)
    config ← load w.bridge.config
    account ← load (runtime.token_account r.recipient w.tokens)
    inbound ← load (st.inbound_message_paths r.path)
    remote_bridge ← load (w.bridge.remote_bridge_configs inbound.source_chain_id)
    local ← load (w.bridge.local_token_configs r.token_mint)
    remote_token ← load (w.bridge.remote_token_configs r.token_mint inbound.source_chain_id)
    let accounts : GmpReceive Bucket = record {
      config = config;
      message = info.message;
      recipient = account;
      inbound = inbound;
      remote_bridge = remote_bridge;
      remote_token = remote_token;
    }
    receive_checks payload_hash r accounts local w
    ok accounts

  unfoldable pub gmp_receive :
      (payload_hash : ℕ)
      → Receive
      → MailboxState (Surroundings Bucket Tokens)
      → Surroundings Bucket Tokens
      → Outcome Error (Surroundings Bucket Tokens × InboundResponse)
  gmp_receive payload_hash r st w = do
    accounts ← gmp_receive_accounts payload_hash r st w
    require (mailbox.sha256 (to_session_payload accounts.message) == payload_hash)
        invalid_payload_hash
    mint ← from_message accounts.message.body
    require (mint.token_address == r.token_mint) invalid_token_address
    require (is_recipient r accounts.recipient mint.recipient) recipient_mismatch
    require (ltb 0 mint.amount) zero_amount
    bucket ← granted (runtime.consume mint.amount w.tokens accounts.remote_token.inbound_rate_limit)
    tokens ← execute_mint r mint.amount w.tokens
    ok (
      received payload_hash r.token_mint accounts.inbound.source_chain_id accounts.remote_token
          bucket tokens w,
      record { amount = mint.amount; message = mint.message },
    )
