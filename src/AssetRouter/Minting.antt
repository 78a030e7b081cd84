-- ===== src/AssetRouter/Minting.antt =====
-- Minting from a notarized deposit: programs/asset_router/src/instructions/mint_from_payload.rs and
-- utils/mod.rs.
pub mod Spending
pub mod Witnesses
use sol_svm_contracts.Base.{
  ℕ, not, ◌&&◌, Bool, true, false, List, Option, none, some, ◌==◌, Outcome, ok, err, fault,
  if◌then◌else◌, constraint_address, constraint_seeds, constraint_token, account_not_initialized,
  cross_program_call_failed, ◌>>=◌, ◌>>◌, require, constrain, load, vacant,
}
use sol_svm_contracts.Mailbox.State.{Notary}
use sol_svm_contracts.Bascule.State.{State as BasculeState, Error as BasculeError}
use sol_svm_contracts.Bascule.Program.{to_deposit_id, validate_withdrawal}
use sol_svm_contracts.AssetRouter.State.{
  Error, paused, mint_payload_hash_mismatch, invalid_chain_id, invalid_token_address,
  recipient_mismatch, missing_bascule_account, invalid_bascule_program, Config, TokenAccount, State,
  put, World, Runtime,
}
use sol_svm_contracts.AssetRouter.Payloads.{DepositV1, from_session_payload}

-- The accounts of `mint_from_payload`. The three tests say whether the bascule's data, deposit and
-- validator accounts are passed.
pub record MintAccounts : Type 0 where
  pub token_program : ℕ
  pub recipient : ℕ
  pub mint : ℕ
  pub mint_authority : ℕ
  pub bascule_program : Option ℕ
  pub with_bascule_data : Bool
  pub with_bascule_deposit : Bool
  pub with_bascule_validator : Bool

abbrev pub succeeds {ℓ} : {A : Type ℓ} → Option A → Outcome Error A
succeeds none = fault cross_program_call_failed
succeeds (some a) = ok a

-- A call of another program that fails ends the transaction.
abbrev pub called {ℓ κ} : {E : Type κ} {A : Type ℓ} → Outcome E A → Outcome Error A
called (ok a) = ok a
called (err e) = fault cross_program_call_failed
called (fault x) = fault cross_program_call_failed

-- `ok_or(AssetRouterError::MissingBasculeAccount)`
abbrev pub passed {ℓ} : {A : Type ℓ} → Option A → Outcome Error A
passed none = err missing_bascule_account
passed (some a) = ok a

module _ {Tokens : Type 0} (runtime : Runtime Tokens) where
  -- The call of the program that is configured as the bascule, with the validator account of the
  -- router as the signer.
  unfoldable pub call_bascule :
      (program : ℕ) → DepositV1 → World Tokens → Outcome Error (World Tokens)
  call_bascule program p w =
      let deposit_id = to_deposit_id runtime.keccak256 p.recipient p.amount p.txid p.vout in
      let ours = do
        bascule ← called (
            validate_withdrawal runtime.keccak256 runtime.bascule_validator deposit_id p.recipient
              p.amount p.txid p.vout w.bascule)
        ok (record w { bascule = bascule })
      in let other = do
        tokens ← succeeds (
            runtime.call_other program runtime.bascule_validator deposit_id p.recipient p.amount
              p.txid p.vout w.tokens)
        ok (record w { tokens = tokens })
        in if program == runtime.bascule_id then ours else other

  -- The check of a withdrawal, if the config names a bascule.
  unfoldable pub check_bascule :
      Option ℕ → MintAccounts → DepositV1 → World Tokens → Outcome Error (World Tokens)
  check_bascule none accounts p w = ok w
  check_bascule (some bascule) accounts p w = do
    program ← passed accounts.bascule_program
    require (program == bascule) invalid_bascule_program
    require accounts.with_bascule_data missing_bascule_account
    require accounts.with_bascule_deposit missing_bascule_account
    require accounts.with_bascule_validator missing_bascule_account
    call_bascule program p w

  -- `utils::execute_mint`
  unfoldable pub execute_mint : MintAccounts → (amount : ℕ) → Tokens → Outcome Error Tokens
  execute_mint a amount tokens = succeeds (
      runtime.mint_to a.token_program a.mint a.recipient a.mint_authority runtime.token_authority
        amount tokens)

  -- The constraints of `MintFromPayload`; the payload is validated by the consortium that the config
  -- names, and the account of a spent payload is new.
  unfoldable pub mint_checks :
      Notary → (payload_hash : ℕ) → MintAccounts → State → Tokens → Outcome Error Config
  mint_checks notary payload_hash a st tokens = do
    config ← load st.config
    account ← load (runtime.token_account a.recipient tokens)
    epoch ← load (notary.validated_payload config.consortium payload_hash)
    constrain (runtime.is_mint a.mint tokens) account_not_initialized
    vacant (st.deposit_payloads_spent payload_hash)
    require (not config.paused) paused
    constrain (account.mint == a.mint && account.token_program == a.token_program) constraint_token
    constrain (a.mint == config.native_mint) constraint_address
    ok config

  unfoldable pub mint_from_payload :
      Notary
      → (mint_payload : List ℕ) (mint_payload_hash : ℕ) → MintAccounts
      → World Tokens
      → Outcome Error (World Tokens)
  mint_from_payload notary mint_payload mint_payload_hash a w = do
    config ← mint_checks notary mint_payload_hash a w.router w.tokens
    require (mint_payload_hash == runtime.sha256 mint_payload) mint_payload_hash_mismatch
    p ← from_session_payload mint_payload
    require (p.destination_chain_id == runtime.chain_id) invalid_chain_id
    require (p.token_address == config.native_mint) invalid_token_address
    require (p.recipient == a.recipient) recipient_mismatch
    checked ← check_bascule config.bascule a p w
    tokens ← execute_mint a p.amount checked.tokens
    ok (record checked {
      router = record checked.router {
        deposit_payloads_spent =
            put mint_payload_hash (some tt) checked.router.deposit_payloads_spent;
      };
      tokens = tokens;
    })
