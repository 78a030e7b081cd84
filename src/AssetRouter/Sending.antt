-- ===== src/AssetRouter/Sending.antt =====
-- Staking deposits and redemptions, which burn tokens and send a message to the ledger:
-- programs/asset_router/src/instructions/deposit.rs, redeem.rs, redeem_for_btc.rs and utils/mod.rs.
pub mod Redemptions
pub mod Frame
pub mod Settling
pub mod Fees
use sol_svm_contracts.Base.{
  ℕ, ◌-◌, not, ◌&&◌, Bool, true, false, List, Option, none, some, ltb, leb, ◌==◌, Outcome, ok,
  constraint_address, constraint_token, account_not_initialized, ◌>>=◌, ◌>>◌, require, constrain,
  load, add_checked, if◌then◌else◌,
}
use sol_svm_contracts.Base.Bytes.{to_be}
use sol_svm_contracts.Mailbox.State.{State as MailboxState, Runtime as MailboxRuntime, SendResult}
use sol_svm_contracts.Mailbox.Instruction.{Send}
use sol_svm_contracts.Mailbox.Program.{send_message}
use sol_svm_contracts.AssetRouter.State.{
  Error, paused, zero_amount, invalid_token_route_type, invalid_message_path, fee_gte_amount,
  amount_below_dust_limit, btc_decimals, bitcoin_token_address, btc_staking_module_address, Config,
  TokenConfig, is_deposit, Route, TokenAccount, World, Runtime,
}
use sol_svm_contracts.AssetRouter.Messages.{
  Deposit, Redeem, RedeemForBtc, deposit_body, redeem_body, redeem_for_btc_body, get_output_type,
}
use sol_svm_contracts.AssetRouter.Minting.{called, succeeds}

-- The accounts that the caller chooses. `path` is the destination chain of the outbound path, and
-- `treasury` that of the mailbox.
pub record SendAccounts : Type 0 where
  pub payer : ℕ
  pub payer_token_account : ℕ
  pub token_program : ℕ
  pub mint : ℕ
  pub path : ℕ
  pub with_sender_config : Bool
  pub treasury : Option ℕ

-- `token::mint`, `token::authority` and `token::token_program` of a token account
abbrev pub is_account_of : SendAccounts → (authority : ℕ) → TokenAccount → Bool
is_account_of a authority account =
    account.mint == a.mint
    && (account.owner == authority && account.token_program == a.token_program)

module _ {Tokens : Type 0} (runtime : Runtime Tokens)
    (mailbox : MailboxRuntime (World Tokens)) where
  -- The messaging authority of the router signs as the sender.
  abbrev pub to_send : SendAccounts → (body : List ℕ) (recipient : ℕ) → Send
  to_send a body recipient = record {
    authority = record {
      key = runtime.messaging_authority;
      owner = runtime.router_id;
      data_is_empty = false;
    };
    path = a.path;
    treasury = a.treasury;
    with_sender_config = a.with_sender_config;
    message_body = body;
    recipient = recipient;
    destination_caller = none;
    fee_override = 0;
  }

  -- `utils::execute_burn`
  unfoldable pub execute_burn : SendAccounts → (amount : ℕ) → Tokens → Outcome Error Tokens
  execute_burn a amount tokens =
      succeeds (runtime.burn a.token_program a.payer_token_account a.mint a.payer amount tokens)

  -- `amount` is burned, and the mailbox sends the message.
  unfoldable pub burn_and_send :
      SendAccounts
      → (amount : ℕ) (body : List ℕ) (recipient : ℕ) → MailboxState (World Tokens)
      → Outcome Error (MailboxState (World Tokens) × SendResult)
  burn_and_send a amount body recipient st = do
    tokens ← execute_burn a amount st.world.tokens
    called (
        send_message mailbox a.payer (to_send a body recipient)
          (record st { world = record st.world { tokens = tokens } }))

  -- The constraints of `Deposit`.
  unfoldable pub deposit_checks :
      SendAccounts
      → (to_lchain_id to_token_address : ℕ) → MailboxState (World Tokens)
      → Outcome Error Config
  deposit_checks a to_lchain_id to_token_address st = do
    config ← load st.world.router.config
    let route : Route = record {
      from_chain_id = runtime.chain_id;
      from_token_address = a.mint;
      to_chain_id = to_lchain_id;
      to_token_address = to_token_address;
    }
    route_type ← load (st.world.router.token_routes route)
    account ← load (runtime.token_account a.payer_token_account st.world.tokens)
    constrain (runtime.is_mint a.mint st.world.tokens) account_not_initialized
    authority ← load st.world.router.messaging_authority
    outbound ← load (st.outbound_message_paths a.path)
    require (not config.paused) paused
    require (is_deposit route_type) invalid_token_route_type
    constrain (is_account_of a a.payer account) constraint_token
    constrain (a.mint == config.native_mint) constraint_address
    require (outbound.destination_chain_id == config.ledger_lchain_id) invalid_message_path
    ok config

  unfoldable pub deposit :
      SendAccounts
      → (to_lchain_id to_token_address recipient amount : ℕ) → MailboxState (World Tokens)
      → Outcome Error (MailboxState (World Tokens) × SendResult)
  deposit a to_lchain_id to_token_address recipient amount st = do
    config ← deposit_checks a to_lchain_id to_token_address st
    require (ltb 0 amount) zero_amount
    let message : Deposit = record {
      destination_chain_id = to_lchain_id;
      staking_token_address = to_token_address;
      sender = a.payer_token_account;
      recipient = recipient;
      amount = amount;
    }
    burn_and_send a amount (deposit_body message) btc_staking_module_address st

  -- The constraints of `Redeem` and of `RedeemForBtc`, which differ in where the route goes.
  unfoldable pub redeem_checks :
      SendAccounts
      → (treasury_token_account : ℕ) (to : Config → ℕ × ℕ) → MailboxState (World Tokens)
      → Outcome Error (Config × TokenConfig)
  redeem_checks a treasury_token_account to st = do
    config ← load st.world.router.config
    token_config ← load (st.world.router.token_configs a.mint)
    let route : Route = record {
      from_chain_id = runtime.chain_id;
      from_token_address = a.mint;
      to_chain_id = (to config).0;
      to_token_address = (to config).1;
    }
    route_type ← load (st.world.router.token_routes route)
    account ← load (runtime.token_account a.payer_token_account st.world.tokens)
    constrain (runtime.is_mint a.mint st.world.tokens) account_not_initialized
    treasury ← load (runtime.token_account treasury_token_account st.world.tokens)
    authority ← load st.world.router.messaging_authority
    outbound ← load (st.outbound_message_paths a.path)
    require (not config.paused) paused
    require (not (is_deposit route_type)) invalid_token_route_type
    constrain (is_account_of a a.payer account) constraint_token
    constrain (is_account_of a config.treasury treasury) constraint_token
    require (outbound.destination_chain_id == config.ledger_lchain_id) invalid_message_path
    ok (config, token_config)

  -- The fee goes to the treasury, and the rest is redeemed.
  unfoldable pub pay_and_send :
      SendAccounts
      → (treasury_token_account fee rest : ℕ) (body : List ℕ) (handler : ℕ)
      → MailboxState (World Tokens)
      → Outcome Error (MailboxState (World Tokens) × SendResult)
  pay_and_send a treasury_token_account fee rest body handler st = do
    tokens ← succeeds (
        runtime.transfer_checked a.token_program a.payer_token_account treasury_token_account
          a.payer a.mint fee btc_decimals st.world.tokens)
    burn_and_send a rest body handler (record st { world = record st.world { tokens = tokens } })

  abbrev pub redeem_message :
      SendAccounts → (to_lchain_id : ℕ) (recipient : List ℕ) (rest : ℕ) → Redeem
  redeem_message a to_lchain_id recipient rest = record {
    destination_chain_id = to_lchain_id;
    from_token_address = a.mint;
    sender = a.payer_token_account;
    recipient = recipient;
    amount = rest;
  }

  unfoldable pub redeem :
      SendAccounts
      → (treasury_token_account to_lchain_id to_token_address recipient amount : ℕ)
      → MailboxState (World Tokens)
      → Outcome Error (MailboxState (World Tokens) × SendResult)
  redeem a treasury_token_account to_lchain_id to_token_address recipient amount st = do
    (config, token_config) ←
        redeem_checks a treasury_token_account (λ c. (to_lchain_id, to_token_address)) st
    require (ltb 0 amount) zero_amount
    require (ltb token_config.redeem_fee amount) fee_gte_amount
    let rest = amount - token_config.redeem_fee
    pay_and_send a treasury_token_account token_config.redeem_fee rest
        (redeem_body (redeem_message a to_lchain_id (to_be 32 recipient) rest))
        token_config.ledger_redeem_handler st

  -- The fee of a redemption for bitcoin, with overflow checks
  abbrev pub btc_fee : (is_native : Bool) → TokenConfig → Outcome Error ℕ
  btc_fee true c = ok c.to_native_commission
  btc_fee false c = add_checked 64 c.redeem_fee c.to_native_commission

  abbrev pub btc_body :
      (is_native : Bool)
      → SendAccounts
      → (bitcoin_lchain_id : ℕ) (script_pubkey : List ℕ) (rest : ℕ) → List ℕ
  btc_body true a bitcoin_lchain_id script_pubkey rest =
      redeem_for_btc_body
        (record { sender = a.payer_token_account; script_pubkey = script_pubkey; amount = rest })
  btc_body false a bitcoin_lchain_id script_pubkey rest =
      redeem_body (redeem_message a bitcoin_lchain_id script_pubkey rest)

  unfoldable pub redeem_for_btc :
      SendAccounts
      → (treasury_token_account : ℕ) (script_pubkey : List ℕ) (amount : ℕ)
      → MailboxState (World Tokens)
      → Outcome Error (MailboxState (World Tokens) × SendResult)
  redeem_for_btc a treasury_token_account script_pubkey amount st = do
    (config, token_config) ←
        redeem_checks a treasury_token_account (λ c. (c.bitcoin_lchain_id, bitcoin_token_address))
          st
    require (ltb 0 amount) zero_amount
    let is_native = a.mint == config.native_mint
    fee ← btc_fee is_native token_config
    require (ltb fee amount) fee_gte_amount
    require (leb token_config.redeem_for_btc_min_amount (amount - fee)) amount_below_dust_limit
    kind ← get_output_type script_pubkey
    pay_and_send a treasury_token_account fee (amount - fee)
        (btc_body is_native a config.bitcoin_lchain_id script_pubkey (amount - fee))
        token_config.ledger_redeem_handler st
