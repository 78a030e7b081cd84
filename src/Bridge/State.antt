-- ===== src/Bridge/State.antt =====
-- The accounts, errors and constants of the bridge: programs/bridge/src/state.rs, errors.rs and
-- constants.rs. Accounts at derived addresses are maps from the seeds of the address.
use sol_svm_contracts.Base.{
  ℕ, ◌||◌, Bool, true, false, List, [], ◌∷◌, ◌++◌, Option, none, ◌==◌, if◌then◌else◌,
}

pub data Error : Type 0 where
  unauthorized account_role_already_granted paused not_paused invalid_admin : Error
  invalid_pauser pauser_already_exists pauser_not_found buffer_io_error : Error
  invalid_message_sender invalid_token_address recipient_mismatch zero_amount : Error
  invalid_message_length invalid_message_version outbound_direction_disabled : Error
  inbound_direction_disabled not_whitelisted paid_operation_not_supported : Error
  unexpected_fee_discount wrong_token_owner invalid_payload_hash : Error

abbrev pub outbound_direction : ℕ
outbound_direction = 1

abbrev pub inbound_direction : ℕ
inbound_direction = 2

abbrev pub optional_message_size : ℕ
optional_message_size = 48

pub record Config : Type 0 where
  pub admin : ℕ
  pub pending_admin : ℕ
  pub paused : Bool
  pub mailbox : ℕ

-- `AccountRole::None` is the dummy case.
pub data AccountRole : Type 0 where
  pauser no_role : AccountRole

abbrev pub same_role : AccountRole → AccountRole → Bool
same_role pauser pauser = true
same_role pauser no_role = false
same_role no_role pauser = false
same_role no_role no_role = true

-- `AccountRoles::has_role` and `AccountRoles::add_role`
abbrev pub has_role : AccountRole → List AccountRole → Bool
has_role role [] = false
has_role role (r ∷ rs) = same_role r role || has_role role rs

abbrev pub add_role : AccountRole → List AccountRole → List AccountRole
add_role role rs = rs ++ (role ∷ [])

-- The configs are without the bump, which is part of the derived address.
pub record SenderConfig : Type 0 where
  pub fee_discount : ℕ
  pub whitelisted : Bool

pub record RemoteBridgeConfig : Type 0 where
  pub chain_id : ℕ
  pub bridge : ℕ

pub record LocalTokenConfig : Type 0 where
  pub mint : ℕ

-- `Bucket` is the `RateLimitTokenBucket` of the token pool library.
pub record RemoteTokenConfig (Bucket : Type 0) : Type 0 where
  pub chain_id : ℕ
  pub token : ℕ
  pub direction : ℕ
  pub inbound_rate_limit : Bucket

-- Every account of the program: the roles by account, the handled messages by payload hash (an
-- account with nothing in it), the sender configs by program or signer, the remote bridges by chain,
-- the local tokens by mint and the remote tokens by mint and chain.
pub record State (Bucket : Type 0) : Type 0 where
  pub config : Option Config
  pub account_roles : ℕ → Option (List AccountRole)
  pub messages_handled : ℕ → Option (Unit {0})
  pub sender_configs : ℕ → Option SenderConfig
  pub remote_bridge_configs : ℕ → Option RemoteBridgeConfig
  pub local_token_configs : ℕ → Option LocalTokenConfig
  pub remote_token_configs : (mint chain : ℕ) → Option (RemoteTokenConfig Bucket)

-- Before `initialize`.
abbrev pub no_accounts : {Bucket : Type 0} → State Bucket
no_accounts = record {
  config = none;
  account_roles = λ _. none;
  messages_handled = λ _. none;
  sender_configs = λ _. none;
  remote_bridge_configs = λ _. none;
  local_token_configs = λ _. none;
  remote_token_configs = λ _ _. none;
}

abbrev pub put {ℓ} : {A : Type ℓ} → ℕ → Option A → (ℕ → Option A) → ℕ → Option A
put k v m j = if j == k then v else m j

abbrev pub put₂ {ℓ} : {A : Type ℓ} → (k l : ℕ) → Option A → (ℕ → ℕ → Option A) → ℕ → ℕ → Option A
put₂ k l v m i j = if i == k then (if j == l then v else m i j) else m i j

-- What lies around the mailbox's accounts: the bridge's accounts, and those of the token programs
-- and the rest.
pub record Surroundings (Bucket Tokens : Type 0) : Type 0 where
  pub bridge : State Bucket
  pub tokens : Tokens

-- A token account: the token program that owns it, its mint and its authority.
pub record TokenAccount : Type 0 where
  pub token_program : ℕ
  pub mint : ℕ
  pub owner : ℕ

-- What the program calls: the token programs, the token pool library's rate limit (which reads the
-- clock), the serialization of a response, and the derived addresses of the deployment. `none` is a
-- call that fails.
pub record Runtime (Bucket LimitConfig Tokens : Type 0) : Type 0 where
  pub bridge_id : ℕ
  pub mailbox_id : ℕ
  pub config_address : ℕ
  pub token_authority : ℕ
  pub token_account : (key : ℕ) → Tokens → Option TokenAccount
  pub is_mint : (key : ℕ) → Tokens → Bool
  pub burn : (token_program from mint authority amount : ℕ) → Tokens → Option Tokens
  pub mint_to :
      (token_program mint to mint_authority token_authority amount : ℕ) → Tokens → Option Tokens
  pub associated_token_address : (owner mint token_program : ℕ) → ℕ
  pub serialized : (amount : ℕ) (message : Option (List ℕ)) → List ℕ
  pub empty_bucket : Bucket
  pub set_token_bucket_config : LimitConfig → Tokens → Bucket → Option Bucket
  pub consume : (amount : ℕ) → Tokens → Bucket → Option Bucket
