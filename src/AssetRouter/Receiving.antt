-- ===== src/AssetRouter/Receiving.antt =====
-- Mints for a message of the ledger: programs/asset_router/src/instructions/gmp_receive.rs, in the
-- order in which the framework checks the accounts.
pub mod Crediting
use sol_svm_contracts.Base.{
  ℕ, not, ◌&&◌, ◌||◌, Bool, List, Option, none, some, ltb, ◌==◌, if◌then◌else◌, Outcome, ok,
  constraint_seeds, constraint_signer, constraint_token, account_not_initialized, ◌>>=◌, ◌>>◌,
  require, constrain, load, vacant,
}
use sol_svm_contracts.Mailbox.State.{MessageV1, State as MailboxState}
use sol_svm_contracts.Mailbox.Message.{to_session_payload}
use sol_svm_contracts.BasculeGmp.State.{MintMessage}
use sol_svm_contracts.BasculeGmp.Program.{validate_mint}
use sol_svm_contracts.AssetRouter.State.{
  Error, paused, invalid_payload_hash, invalid_message_sender, invalid_token_address,
  recipient_mismatch, zero_amount, missing_bascule_account, invalid_bascule_program,
  btc_staking_module_address, Config, TokenAccount, put, World, Runtime,
}
use sol_svm_contracts.AssetRouter.Messages.{Mint, from_message}
use sol_svm_contracts.AssetRouter.Minting.{called, succeeds, passed}

-- The accounts of `gmp_receive`. The last four tests say whether the accounts for the bascule are
-- passed.
pub record Receive : Type 0 where
  pub message_is_signer : Bool
  pub token_program : ℕ
  pub recipient : ℕ
  pub mint : ℕ
  pub mint_authority : ℕ
  pub bascule_gmp_program : Option ℕ
  pub with_bascule_gmp_config : Bool
  pub with_bascule_gmp_account_roles : Bool
  pub with_bascule_gmp_mint_payload : Bool
  pub with_bascule_validator : Bool

-- What the handler reads of them.
pub record Received : Type 0 where
  pub config : Config
  pub message : MessageV1
  pub recipient : TokenAccount

module _ {Tokens : Type 0} (runtime : Runtime Tokens) where
  abbrev pub is_recipient : Receive → TokenAccount → (recipient : ℕ) → Bool
  is_recipient r account recipient =
      recipient == r.recipient
      || (r.recipient == runtime.associated_token_address recipient r.mint r.token_program
          && account.owner == recipient)

  unfoldable pub receive_checks :
      (payload_hash : ℕ)
      → Receive
      → MailboxState (World Tokens)
      → World Tokens
      → Outcome Error Received
  receive_checks payload_hash r st w = do
    info ← load (st.messages payload_hash)
    config ← load w.router.config
    account ← load (runtime.token_account r.recipient w.tokens)
    constrain (runtime.is_mint r.mint w.tokens) account_not_initialized
    vacant (w.router.messages_handled payload_hash)
    constrain (runtime.mailbox_id == config.mailbox) constraint_seeds
    constrain r.message_is_signer constraint_signer
    require (not config.paused) paused
    constrain (account.mint == r.mint && account.token_program == r.token_program) constraint_token
    ok (record { config = config; message = info.message; recipient = account })

  -- The call of the program that is configured as the bascule for messages.
  unfoldable pub call_bascule_gmp :
      (program : ℕ) → MintMessage → World Tokens → Outcome Error (World Tokens)
  call_bascule_gmp program m w =
      let ours = do
        bascule_gmp ←
            called (validate_mint runtime.bascule_gmp runtime.bascule_validator m w.bascule_gmp)
        ok (record w { bascule_gmp = bascule_gmp })
      in let other = do
        tokens ← succeeds (runtime.call_other_gmp program runtime.bascule_validator m w.tokens)
        ok (record w { tokens = tokens })
        in if program == runtime.bascule_gmp_id then ours else other

  unfoldable pub check_bascule_gmp :
      Option ℕ → Receive → MintMessage → World Tokens → Outcome Error (World Tokens)
  check_bascule_gmp none r m w = ok w
  check_bascule_gmp (some bascule_gmp) r m w = do
    program ← passed r.bascule_gmp_program
    require (program == bascule_gmp) invalid_bascule_program
    require r.with_bascule_gmp_config missing_bascule_account
    require r.with_bascule_gmp_account_roles missing_bascule_account
    require r.with_bascule_gmp_mint_payload missing_bascule_account
    require r.with_bascule_validator missing_bascule_account
    call_bascule_gmp program m w

  abbrev pub mint_message : (nonce : ℕ) → Mint → MintMessage
  mint_message nonce mint = record {
    nonce = nonce;
    chain_id = runtime.chain_id;
    token_address = mint.token_address;
    recipient = mint.recipient;
    amount = mint.amount;
  }

  -- `st` holds the mailbox's accounts, of which one is the message; `w` is what the call acts on.
  unfoldable pub gmp_receive :
      (payload_hash : ℕ)
      → Receive
      → MailboxState (World Tokens)
      → World Tokens
      → Outcome Error (World Tokens)
  gmp_receive payload_hash r st w = do
    accounts ← receive_checks payload_hash r st w
    require (runtime.sha256 (to_session_payload accounts.message) == payload_hash)
        invalid_payload_hash
    require (accounts.message.sender == btc_staking_module_address) invalid_message_sender
    mint ← from_message accounts.message.body
    require (mint.token_address == r.mint) invalid_token_address
    require (is_recipient r accounts.recipient mint.recipient) recipient_mismatch
    require (ltb 0 mint.amount) zero_amount
    checked ←
        check_bascule_gmp accounts.config.bascule_gmp r (mint_message accounts.message.nonce mint) w
    tokens ← succeeds (
        runtime.mint_to r.token_program r.mint r.recipient r.mint_authority runtime.token_authority
          mint.amount checked.tokens)
    ok (record checked {
      router = record checked.router {
        messages_handled = put payload_hash (some tt) checked.router.messages_handled;
      };
      tokens = tokens;
    })
