-- ===== src/AssetRouter/Admin.antt =====
-- The instructions that configure the asset router: programs/asset_router/src/instructions,
-- `initialize`, `admin`, the roles, the token configs and routes, and the authority of a mint. Each
-- takes the key that signs.
use sol_svm_contracts.Base.{
  ℕ, not, ◌||◌, true, false, List, [], Option, none, some, leb, ◌==◌, Outcome, ok, fault,
  constraint_address, constraint_raw, account_not_initialized, cross_program_call_failed, ◌>>=◌,
  ◌>>◌, require, constrain, load, vacant,
}
use sol_svm_contracts.AssetRouter.State.{
  Error, unauthorized, paused, account_role_already_granted, fee_too_high, invalid_chain_id,
  max_fee, Config, TokenConfig, TokenRouteType, Route, AccountRole, operator, pauser, has_role,
  add_role, State, put, put_route, Runtime,
}

abbrev pub unwrap_or_default : Option ℕ → ℕ
unwrap_or_default none = 0
unwrap_or_default (some a) = a

abbrev pub or_empty : Option (List AccountRole) → List AccountRole
or_empty none = []
or_empty (some roles) = roles

-- `config` is there and its admin signs: with the program's error, and with the framework's.
abbrev pub load_as_admin : (admin : ℕ) → State → Outcome Error Config
load_as_admin admin st = do
  config ← load st.config
  require (admin == config.admin) unauthorized
  ok config

abbrev pub load_at_admin : (admin : ℕ) → State → Outcome Error Config
load_at_admin admin st = do
  config ← load st.config
  constrain (admin == config.admin) constraint_address
  ok config

-- The pending admin and the pause of the given config are not looked at.
unfoldable pub initialize :
    (upgrade_authority : Option ℕ) (deployer : ℕ) (config : Config) → State → Outcome Error State
initialize upgrade_authority deployer config st = do
  vacant st.config
  vacant st.messaging_authority
  constrain (deployer == unwrap_or_default upgrade_authority) constraint_raw
  ok (record st {
    config = some (record config { pending_admin = 0; paused = false });
    messaging_authority = some tt;
  })

unfoldable pub transfer_ownership : (admin new_admin : ℕ) → State → Outcome Error State
transfer_ownership admin new_admin st = do
  config ← load_as_admin admin st
  ok (record st { config = some (record config { pending_admin = new_admin }) })

unfoldable pub accept_ownership : (payer : ℕ) → State → Outcome Error State
accept_ownership payer st = do
  config ← load st.config
  constrain (payer == config.pending_admin) constraint_address
  ok (record st { config = some (record config { admin = payer; pending_admin = 0 }) })

unfoldable pub set_bascule : (admin : ℕ) (bascule : Option ℕ) → State → Outcome Error State
set_bascule admin bascule st = do
  config ← load_as_admin admin st
  ok (record st { config = some (record config { bascule = bascule }) })

unfoldable pub set_bascule_gmp : (admin : ℕ) (bascule_gmp : Option ℕ) → State → Outcome Error State
set_bascule_gmp admin bascule_gmp st = do
  config ← load_as_admin admin st
  ok (record st { config = some (record config { bascule_gmp = bascule_gmp }) })

unfoldable pub set_treasury : (admin treasury : ℕ) → State → Outcome Error State
set_treasury admin treasury st = do
  config ← load_at_admin admin st
  ok (record st { config = some (record config { treasury = treasury }) })

unfoldable pub change_native_mint : (admin native_mint : ℕ) → State → Outcome Error State
change_native_mint admin native_mint st = do
  config ← load_at_admin admin st
  ok (record st { config = some (record config { native_mint = native_mint }) })

unfoldable pub pause : (payer : ℕ) → State → Outcome Error State
pause payer st = do
  config ← load st.config
  roles ← load (st.account_roles payer)
  require (not config.paused) paused
  require (has_role pauser roles) unauthorized
  ok (record st { config = some (record config { paused = true }) })

unfoldable pub unpause : (admin : ℕ) → State → Outcome Error State
unpause admin st = do
  config ← load_as_admin admin st
  ok (record st { config = some (record config { paused = false }) })

-- The constraint of the account of the roles, which is created if needed, comes before the admin's.
unfoldable pub grant_account_role :
    (admin account : ℕ) (account_role : AccountRole) → State → Outcome Error State
grant_account_role admin account account_role st = do
  config ← load st.config
  let roles = or_empty (st.account_roles account)
  require (not (has_role account_role roles)) account_role_already_granted
  require (admin == config.admin) unauthorized
  ok (record st {
    account_roles = put account (some (add_role account_role roles)) st.account_roles;
  })

unfoldable pub revoke_account_roles : (admin account : ℕ) → State → Outcome Error State
revoke_account_roles admin account st = do
  config ← load st.config
  roles ← load (st.account_roles account)
  require (admin == config.admin) unauthorized
  ok (record st { account_roles = put account none st.account_roles })

unfoldable pub set_token_config :
    (admin mint_address : ℕ) (token_config : TokenConfig) → State → Outcome Error State
set_token_config admin mint_address token_config st = do
  config ← load_as_admin admin st
  ok (record st { token_configs = put mint_address (some token_config) st.token_configs })

-- Of the token config of any mint.
unfoldable pub set_mint_fee : (signer mint mint_fee : ℕ) → State → Outcome Error State
set_mint_fee signer mint mint_fee st = do
  roles ← load (st.account_roles signer)
  token_config ← load (st.token_configs mint)
  require (has_role operator roles) unauthorized
  require (leb mint_fee max_fee) fee_too_high
  let token_config' : TokenConfig = record token_config { max_mint_commission = mint_fee }
  ok (record st { token_configs = put mint (some token_config') st.token_configs })

unfoldable pub unset_token_route : (admin : ℕ) (route : Route) → State → Outcome Error State
unset_token_route admin route st = do
  config ← load st.config
  route_type ← load (st.token_routes route)
  require (admin == config.admin) unauthorized
  ok (record st { token_routes = put_route route none st.token_routes })

module _ {Tokens : Type 0} (runtime : Runtime Tokens) where
  unfoldable pub set_token_route :
      (admin : ℕ) (route : Route) (token_route_type : TokenRouteType) → State → Outcome Error State
  set_token_route admin route token_route_type st = do
    config ← load st.config
    vacant (st.token_routes route)
    require (admin == config.admin) unauthorized
    require (route.from_chain_id == runtime.chain_id || route.to_chain_id == runtime.chain_id)
        invalid_chain_id
    ok (record st { token_routes = put_route route (some token_route_type) st.token_routes })

  unfoldable pub change_mint_auth :
      (admin mint current_auth token_program new_auth : ℕ) → State → Tokens → Outcome Error Tokens
  change_mint_auth admin mint current_auth token_program new_auth st tokens = do
    config ← load st.config
    constrain (runtime.is_mint mint tokens) account_not_initialized
    constrain (admin == config.admin) constraint_address
    elim (runtime.set_mint_authority token_program mint current_auth runtime.token_authority
        new_auth tokens) [ none ↦ fault cross_program_call_failed | some tokens' ↦ ok tokens' ]
