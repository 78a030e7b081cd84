-- ===== src/Bridge/Admin.antt =====
-- The instructions that configure the bridge: programs/bridge/src/instructions but `deposit` and
-- `gmp_receive`. Each takes the key that signs.
use sol_svm_contracts.Base.{
  ℕ, not, Bool, true, false, List, [], Option, none, some, leb, ◌==◌, Outcome, ok, fault,
  library_error, account_not_initialized, ◌>>=◌, ◌>>◌, require, constrain, load, vacant,
}
use sol_svm_contracts.Mailbox.State.{fee_adjustment_base}
use sol_svm_contracts.Bridge.State.{
  Error, unauthorized, paused, account_role_already_granted, unexpected_fee_discount, Config,
  SenderConfig, RemoteBridgeConfig, LocalTokenConfig, RemoteTokenConfig, AccountRole, pauser,
  has_role, add_role, State, put, put₂, Runtime,
}

abbrev pub unwrap_or_default : Option ℕ → ℕ
unwrap_or_default none = 0
unwrap_or_default (some a) = a

abbrev pub or_empty : Option (List AccountRole) → List AccountRole
or_empty none = []
or_empty (some roles) = roles

-- `config` is there and its admin signs, as in every `address = config.admin` constraint.
abbrev pub load_as_admin : {Bucket : Type 0} → (admin : ℕ) → State Bucket → Outcome Error Config
load_as_admin admin st = do
  config ← load st.config
  require (admin == config.admin) unauthorized
  ok config

module _ {Bucket : Type 0} where
  unfoldable pub transfer_ownership :
      (admin new_admin : ℕ) → State Bucket → Outcome Error (State Bucket)
  transfer_ownership admin new_admin st = do
    config ← load_as_admin admin st
    ok (record st { config = some (record config { pending_admin = new_admin }) })

  unfoldable pub accept_ownership : (payer : ℕ) → State Bucket → Outcome Error (State Bucket)
  accept_ownership payer st = do
    config ← load st.config
    require (payer == config.pending_admin) unauthorized
    ok (record st { config = some (record config { admin = payer; pending_admin = 0 }) })

  unfoldable pub pause : (payer : ℕ) → State Bucket → Outcome Error (State Bucket)
  pause payer st = do
    config ← load st.config
    roles ← load (st.account_roles payer)
    require (not config.paused) paused
    require (has_role pauser roles) unauthorized
    ok (record st { config = some (record config { paused = true }) })

  unfoldable pub unpause : (admin : ℕ) → State Bucket → Outcome Error (State Bucket)
  unpause admin st = do
    config ← load_as_admin admin st
    ok (record st { config = some (record config { paused = false }) })

  -- The constraint of the account of the roles, which is created if needed, comes before the admin's.
  unfoldable pub grant_account_role :
      (admin account : ℕ) (account_role : AccountRole) → State Bucket → Outcome Error (State Bucket)
  grant_account_role admin account account_role st = do
    config ← load st.config
    let roles = or_empty (st.account_roles account)
    require (not (has_role account_role roles)) account_role_already_granted
    require (admin == config.admin) unauthorized
    ok (record st {
      account_roles = put account (some (add_role account_role roles)) st.account_roles;
    })

  unfoldable pub revoke_account_roles :
      (admin account : ℕ) → State Bucket → Outcome Error (State Bucket)
  revoke_account_roles admin account st = do
    config ← load st.config
    roles ← load (st.account_roles account)
    require (admin == config.admin) unauthorized
    ok (record st { account_roles = put account none st.account_roles })

  unfoldable pub set_sender_config :
      (admin sender_program fee_discount : ℕ) (whitelisted : Bool)
      → State Bucket
      → Outcome Error (State Bucket)
  set_sender_config admin sender_program fee_discount whitelisted st = do
    config ← load_as_admin admin st
    require (leb fee_discount fee_adjustment_base) unexpected_fee_discount
    let s : SenderConfig = record { fee_discount = fee_discount; whitelisted = whitelisted }
    ok (record st { sender_configs = put sender_program (some s) st.sender_configs })

  unfoldable pub unset_sender_config :
      (admin sender_program : ℕ) → State Bucket → Outcome Error (State Bucket)
  unset_sender_config admin sender_program st = do
    config ← load st.config
    s ← load (st.sender_configs sender_program)
    require (admin == config.admin) unauthorized
    ok (record st { sender_configs = put sender_program none st.sender_configs })

  unfoldable pub set_local_token_config :
      (admin mint : ℕ) → State Bucket → Outcome Error (State Bucket)
  set_local_token_config admin mint st = do
    config ← load_as_admin admin st
    let local : LocalTokenConfig = record { mint = mint }
    ok (record st { local_token_configs = put mint (some local) st.local_token_configs })

  unfoldable pub unset_local_token_config :
      (admin mint : ℕ) → State Bucket → Outcome Error (State Bucket)
  unset_local_token_config admin mint st = do
    config ← load st.config
    local ← load (st.local_token_configs mint)
    require (admin == config.admin) unauthorized
    ok (record st { local_token_configs = put mint none st.local_token_configs })

  unfoldable pub set_remote_bridge_config :
      (admin chain_id bridge : ℕ) → State Bucket → Outcome Error (State Bucket)
  set_remote_bridge_config admin chain_id bridge st = do
    config ← load_as_admin admin st
    let remote : RemoteBridgeConfig = record { chain_id = chain_id; bridge = bridge }
    ok (record st { remote_bridge_configs = put chain_id (some remote) st.remote_bridge_configs })

  unfoldable pub unset_remote_bridge_config :
      (admin chain_id : ℕ) → State Bucket → Outcome Error (State Bucket)
  unset_remote_bridge_config admin chain_id st = do
    config ← load st.config
    remote ← load (st.remote_bridge_configs chain_id)
    require (admin == config.admin) unauthorized
    ok (record st { remote_bridge_configs = put chain_id none st.remote_bridge_configs })

  unfoldable pub unset_remote_token_config :
      (admin mint chain_id : ℕ) → State Bucket → Outcome Error (State Bucket)
  unset_remote_token_config admin mint chain_id st = do
    config ← load st.config
    remote ← load (st.remote_token_configs mint chain_id)
    require (admin == config.admin) unauthorized
    ok (record st { remote_token_configs = put₂ mint chain_id none st.remote_token_configs })

-- The rate limit of a new account is all zeros, and one that is there is kept.
abbrev pub rate_limit_of : {Bucket : Type 0} → Bucket → Option (RemoteTokenConfig Bucket) → Bucket
rate_limit_of empty none = empty
rate_limit_of empty (some remote) = remote.inbound_rate_limit

module _ {Bucket LimitConfig Tokens : Type 0} (runtime : Runtime Bucket LimitConfig Tokens) where
  unfoldable pub initialize :
      (upgrade_authority : Option ℕ) (deployer token_mint admin mailbox : ℕ)
      → Tokens
      → State Bucket
      → Outcome Error (State Bucket)
  initialize upgrade_authority deployer token_mint admin mailbox tokens st = do
    constrain (runtime.is_mint token_mint tokens) account_not_initialized
    vacant st.config
    require (deployer == unwrap_or_default upgrade_authority) unauthorized
    ok (record st {
      config =
          some (record { admin = admin; pending_admin = 0; paused = false; mailbox = mailbox });
    })

  unfoldable pub set_remote_token_config :
      (admin mint chain_id token direction : ℕ) → State Bucket → Outcome Error (State Bucket)
  set_remote_token_config admin mint chain_id token direction st = do
    config ← load_as_admin admin st
    let remote : RemoteTokenConfig Bucket = record {
      chain_id = chain_id;
      token = token;
      direction = direction;
      inbound_rate_limit =
          rate_limit_of runtime.empty_bucket (st.remote_token_configs mint chain_id);
    }
    ok (record st {
      remote_token_configs = put₂ mint chain_id (some remote) st.remote_token_configs;
    })

  unfoldable pub configured : LimitConfig → Tokens → Bucket → Outcome Error Bucket
  configured limit tokens bucket = elim (runtime.set_token_bucket_config limit tokens bucket) [
    | none ↦ fault library_error
    | some bucket' ↦ ok bucket'
  ]

  unfoldable pub set_rate_limit :
      (admin mint chain_id : ℕ) (inbound_rate_limit : LimitConfig)
      → Tokens
      → State Bucket
      → Outcome Error (State Bucket)
  set_rate_limit admin mint chain_id inbound_rate_limit tokens st = do
    config ← load st.config
    remote ← load (st.remote_token_configs mint chain_id)
    require (admin == config.admin) unauthorized
    bucket ← configured inbound_rate_limit tokens remote.inbound_rate_limit
    let remote' : RemoteTokenConfig Bucket = record remote { inbound_rate_limit = bucket }
    ok (record st {
      remote_token_configs = put₂ mint chain_id (some remote') st.remote_token_configs;
    })
