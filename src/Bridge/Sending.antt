-- ===== src/Bridge/Sending.antt =====
-- Deposits: programs/bridge/src/instructions/deposit.rs and utils/token_actions.rs. The framework
-- deserializes the accounts first, creates the `init` accounts next and then checks the other
-- constraints.
use sol_svm_contracts.Base.{
  ℕ, ◌-◌, ◌/◌, ◌%◌, not, ◌&&◌, Bool, false, List, Option, none, some, ltb, leb, ◌==◌, if◌then◌else◌,
  Outcome, ok, err, fault, panicked, constraint_address, constraint_token, account_not_initialized,
  cross_program_call_failed, ◌>>=◌, ◌>>◌, require, constrain, load,
}
use sol_svm_contracts.Mailbox.State.{
  Error as MailboxError, fee_adjustment_base, State as MailboxState, Runtime as MailboxRuntime,
  SendResult,
}
use sol_svm_contracts.Mailbox.Instruction.{Send}
use sol_svm_contracts.Mailbox.Program.{sender_of, send_message}
use sol_svm_contracts.Bridge.State.{
  Error, paused, not_whitelisted, outbound_direction_disabled, zero_amount, outbound_direction,
  TokenAccount, Surroundings, Runtime,
}
use sol_svm_contracts.Bridge.Messages.{BridgeToken, to_gmp_body}
use sol_svm_contracts.Bridge.Instruction.{Deposit}
use sol_svm_contracts.Mailbox.State.{OutboundMessagePath}
use sol_svm_contracts.Bridge.State.{
  Config, SenderConfig, RemoteBridgeConfig, RemoteTokenConfig, LocalTokenConfig,
}

-- `direction & flag != 0` for a flag that is a power of two
abbrev pub allows : (direction flag : ℕ) → Bool
allows direction flag = direction / flag % 2 == 1

-- `FEE_ADJUSTMET_BASE - fee_discount`, with overflow checks
abbrev pub fee_override : (fee_discount : ℕ) → Outcome Error ℕ
fee_override fee_discount =
    if leb fee_discount fee_adjustment_base
    then ok (fee_adjustment_base - fee_discount)
    else fault panicked

-- A call of the mailbox that fails ends the transaction.
abbrev pub called {ℓ} : {A : Type ℓ} → Outcome MailboxError A → Outcome Error A
called (ok a) = ok a
called (err e) = fault cross_program_call_failed
called (fault x) = fault cross_program_call_failed

-- The same for another program.
abbrev pub succeeds {ℓ} : {A : Type ℓ} → Option A → Outcome Error A
succeeds none = fault cross_program_call_failed
succeeds (some a) = ok a

-- The accounts of `Deposit` that the checks and the handler read.
pub record DepositAccounts (Bucket : Type 0) : Type 0 where
  pub config : Config
  pub sender_config : SenderConfig
  pub outbound : OutboundMessagePath
  pub remote_bridge : RemoteBridgeConfig
  pub remote_token : RemoteTokenConfig Bucket

module _ {Bucket LimitConfig Tokens : Type 0} (runtime : Runtime Bucket LimitConfig Tokens)
    (mailbox : MailboxRuntime (Surroundings Bucket Tokens)) where
  -- The bridge's config account signs as the sender of the message.
  abbrev pub to_send : Deposit → (recipient : ℕ) (body : List ℕ) (fee : ℕ) → Send
  to_send d recipient body fee = record {
    authority = record {
      key = runtime.config_address;
      owner = runtime.bridge_id;
      data_is_empty = false;
    };
    path = d.path;
    treasury = d.treasury;
    with_sender_config = d.with_sender_config;
    message_body = body;
    recipient = recipient;
    destination_caller = d.caller;
    fee_override = fee;
  }

  abbrev pub to_bridge_token : Deposit → (token : ℕ) → BridgeToken
  to_bridge_token d token = record {
    destination_token_address = token;
    sender = d.sender;
    recipient = d.recipient;
    amount = d.amount;
    optional_message = d.message;
  }

  -- `token_actions::execute_burn`
  unfoldable pub execute_burn : Deposit → Tokens → Outcome Error Tokens
  execute_burn d tokens = succeeds (
      runtime.burn d.token_program d.sender_token_account d.token_mint d.sender_authority.key
        d.amount tokens)

  -- `token::mint`, `token::authority` and `token::token_program` of the sender's token account
  abbrev pub is_sender_account : Deposit → TokenAccount → Bool
  is_sender_account d account =
      account.mint == d.token_mint
      && (account.owner == d.sender_authority.key && account.token_program == d.token_program)

  -- The constraints of `Deposit`, with the sender's token account and the local token's config.
  unfoldable pub deposit_checks :
      Deposit
      → DepositAccounts Bucket
      → TokenAccount
      → LocalTokenConfig
      → Tokens
      → Outcome Error (Unit {0})
  deposit_checks d a account local tokens = do
    constrain (runtime.is_mint d.token_mint tokens) account_not_initialized
    constrain (is_sender_account d account) constraint_token
    require (not a.config.paused) paused
    require a.sender_config.whitelisted not_whitelisted
    require (allows a.remote_token.direction outbound_direction) outbound_direction_disabled
    constrain (d.token_mint == local.mint) constraint_address
    constrain (runtime.mailbox_id == a.config.mailbox) constraint_address

  -- The accounts of `Deposit`, checked.
  unfoldable pub deposit_accounts :
      Deposit → MailboxState (Surroundings Bucket Tokens) → Outcome Error (DepositAccounts Bucket)
  deposit_accounts d st = do
    let bridge = st.world.bridge
    account ← load (runtime.token_account d.sender_token_account st.world.tokens)
    config ← load bridge.config
    sender_config ← load (bridge.sender_configs (sender_of mailbox d.sender_authority))
    outbound ← load (st.outbound_message_paths d.path)
    remote_bridge ← load (bridge.remote_bridge_configs outbound.destination_chain_id)
    local ← load (bridge.local_token_configs d.token_mint)
    remote_token ← load (bridge.remote_token_configs d.token_mint outbound.destination_chain_id)
    let accounts : DepositAccounts Bucket = record {
      config = config;
      sender_config = sender_config;
      outbound = outbound;
      remote_bridge = remote_bridge;
      remote_token = remote_token;
    }
    deposit_checks d accounts account local st.world.tokens
    ok accounts

  unfoldable pub deposit :
      Deposit
      → MailboxState (Surroundings Bucket Tokens)
      → Outcome Error (MailboxState (Surroundings Bucket Tokens) × SendResult)
  deposit d st = do
    accounts ← deposit_accounts d st
    require (ltb 0 d.amount) zero_amount
    tokens ← execute_burn d st.world.tokens
    let body = to_gmp_body (to_bridge_token d accounts.remote_token.token)
    fee ← fee_override accounts.sender_config.fee_discount
    let send = to_send d accounts.remote_bridge.bridge body fee
    called (
        send_message mailbox d.fee_payer send
          (record st { world = record st.world { tokens = tokens } }))
