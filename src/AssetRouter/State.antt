-- ===== src/AssetRouter/State.antt =====
-- The accounts, errors and constants of the asset router: programs/asset_router/src/state.rs,
-- errors.rs and constants.rs. Accounts at derived addresses are maps from the seeds of the address.
use sol_svm_contracts.Base.{
  ℕ, ◌&&◌, ◌||◌, Bool, true, false, List, [], ◌∷◌, ◌++◌, Option, none, ◌==◌, if◌then◌else◌,
}
use sol_svm_contracts.Bascule.State.{State as BasculeState}
use sol_svm_contracts.BasculeGmp.State.{MintMessage, State as GmpState, Runtime as GmpRuntime}

pub data Error : Type 0 where
  unauthorized account_role_already_granted recipient_mismatch invalid_chain_id : Error
  bascule_not_available invalid_token_address mint_payload_used mint_payload_hash_mismatch : Error
  withdrawals_disabled fee_gte_amount fee_approval_expired unsupported_redeem_address : Error
  amount_below_dust_limit invalid_fee_action invalid_fee_signature invalid_fee_payload_length :
      Error
  paused not_paused invalid_verifying_contract fee_too_high invalid_payload_length : Error
  invalid_payload_selector invalid_payload_hash buffer_io_error invalid_message_length : Error
  invalid_message_selector invalid_message_sender zero_amount invalid_token_route_type : Error
  program_error treasury_token_account_not_found missing_ed25519_instruction : Error
  invalid_ed25519_instruction invalid_public_key invalid_message invalid_signature : Error
  missing_bascule_account invalid_bascule_program invalid_bascule_deposit : Error
  invalid_session_payload invalid_message_path : Error

abbrev pub max_fee : ℕ
max_fee = 100000

abbrev pub btc_decimals : ℕ
btc_decimals = 8

abbrev pub bitcoin_token_address : ℕ
bitcoin_token_address = 1

abbrev pub btc_staking_module_address : ℕ
btc_staking_module_address = 0x89e3e4e7a699d6f131d893aeef7ee143706ac23a

pub record Config : Type 0 where
  pub admin : ℕ
  pub pending_admin : ℕ
  pub treasury : ℕ
  pub paused : Bool
  pub native_mint : ℕ
  pub consortium : ℕ
  pub mailbox : ℕ
  pub bascule : Option ℕ
  pub bascule_gmp : Option ℕ
  pub ledger_lchain_id : ℕ
  pub bitcoin_lchain_id : ℕ

pub record TokenConfig : Type 0 where
  pub redeem_fee : ℕ
  pub redeem_for_btc_min_amount : ℕ
  pub max_mint_commission : ℕ
  pub to_native_commission : ℕ
  pub ledger_redeem_handler : ℕ

pub data TokenRouteType : Type 0 where
  deposit redeem : TokenRouteType

abbrev pub is_deposit : TokenRouteType → Bool
is_deposit deposit = true
is_deposit redeem = false

-- The seeds of a route.
pub record Route : Type 0 where
  pub from_chain_id : ℕ
  pub from_token_address : ℕ
  pub to_chain_id : ℕ
  pub to_token_address : ℕ

abbrev pub same_route : Route → Route → Bool
same_route r s =
    r.from_chain_id == s.from_chain_id
    && (r.from_token_address == s.from_token_address
        && (r.to_chain_id == s.to_chain_id && r.to_token_address == s.to_token_address))

pub data AccountRole : Type 0 where
  operator pauser claimer : AccountRole

-- The tag of the role, by which two roles are compared.
abbrev pub tag : AccountRole → ℕ
tag operator = 0
tag pauser = 1
tag claimer = 2

-- `AccountRoles::has_role` and `AccountRoles::add_role`
abbrev pub has_role : AccountRole → List AccountRole → Bool
has_role role [] = false
has_role role (r ∷ rs) = tag r == tag role || has_role role rs

abbrev pub add_role : AccountRole → List AccountRole → List AccountRole
add_role role rs = rs ++ (role ∷ [])

-- The token configs by mint, the roles by account, the spent deposit payloads and the handled
-- messages by hash. The messaging authority, a spent payload and a handled message are accounts with
-- nothing in them.
pub record State : Type 0 where
  pub config : Option Config
  pub messaging_authority : Option (Unit {0})
  pub token_configs : ℕ → Option TokenConfig
  pub token_routes : Route → Option TokenRouteType
  pub account_roles : ℕ → Option (List AccountRole)
  pub deposit_payloads_spent : ℕ → Option (Unit {0})
  pub messages_handled : ℕ → Option (Unit {0})

-- Before `initialize`.
abbrev pub no_accounts : State
no_accounts = record {
  config = none;
  messaging_authority = none;
  token_configs = λ _. none;
  token_routes = λ _. none;
  account_roles = λ _. none;
  deposit_payloads_spent = λ _. none;
  messages_handled = λ _. none;
}

abbrev pub put {ℓ} : {A : Type ℓ} → ℕ → Option A → (ℕ → Option A) → ℕ → Option A
put k v m j = if j == k then v else m j

abbrev pub put_route :
    Route → Option TokenRouteType → (Route → Option TokenRouteType) → Route → Option TokenRouteType
put_route k v m j = if same_route j k then v else m j

-- The router's accounts, those of the two bascules, and those of the token programs and the rest.
pub record World (Tokens : Type 0) : Type 0 where
  pub router : State
  pub bascule : BasculeState
  pub bascule_gmp : GmpState
  pub tokens : Tokens

-- A token account: the token program that owns it, its mint and its authority.
pub record TokenAccount : Type 0 where
  pub token_program : ℕ
  pub mint : ℕ
  pub owner : ℕ

-- What the program calls, and the constants of the deployment. `none` is a call that fails.
-- `call_other` and `call_other_gmp` are the checks of programs other than the bascules of this
-- repository, if the admin has configured one. The prefixes are the first 16 bytes of the chain's id
-- and of the program's.
pub record Runtime (Tokens : Type 0) : Type 0 where
  pub chain_id : ℕ
  pub chain_prefix : ℕ
  pub router_id : ℕ
  pub program_prefix : ℕ
  pub mailbox_id : ℕ
  pub bascule_id : ℕ
  pub bascule_gmp_id : ℕ
  pub bascule_validator : ℕ
  pub token_authority : ℕ
  pub messaging_authority : ℕ
  pub sha256 : List ℕ → ℕ
  pub keccak256 : List ℕ → ℕ
  pub bascule_gmp : GmpRuntime
  pub ed25519_program : ℕ
  pub now : Tokens → ℕ
  pub associated_token_address : (owner mint token_program : ℕ) → ℕ
  pub token_account : (key : ℕ) → Tokens → Option TokenAccount
  pub is_mint : (key : ℕ) → Tokens → Bool
  pub burn : (token_program from mint authority amount : ℕ) → Tokens → Option Tokens
  pub transfer_checked :
      (token_program from to authority mint amount decimals : ℕ) → Tokens → Option Tokens
  pub mint_to :
      (token_program mint to mint_authority token_authority amount : ℕ) → Tokens → Option Tokens
  pub set_mint_authority :
      (token_program mint current_authority token_authority new_authority : ℕ)
      → Tokens
      → Option Tokens
  pub call_other :
      (program validator deposit_id recipient amount tx_id tx_vout : ℕ) → Tokens → Option Tokens
  pub call_other_gmp : (program validator : ℕ) → MintMessage → Tokens → Option Tokens
