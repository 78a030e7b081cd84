-- ===== src/Mailbox/Admin.antt =====
-- The instructions that configure the mailbox: programs/mailbox/src/instructions, `initialize`,
-- `admin`, `accept_ownership`, `pause`, the roles, the message paths and the sender configs. Each
-- takes the key that signs.
use sol_svm_contracts.Base.{
  ℕ, not, Bool, true, false, List, [], Option, none, some, ◌==◌, Outcome, ok, ◌>>=◌, ◌>>◌, require,
  load, vacant,
}
use sol_svm_contracts.Mailbox.State.{
  Error, unauthorized, paused, not_paused, account_role_already_granted, Config,
  OutboundMessagePath, InboundMessagePath, SenderConfig, AccountRole, pauser, has_role, add_role,
  State, put, Runtime,
}
use sol_svm_contracts.Mailbox.Message.{message_path_identifier}

abbrev pub unwrap_or_default : Option ℕ → ℕ
unwrap_or_default none = 0
unwrap_or_default (some a) = a

abbrev pub or_old : Option ℕ → ℕ → ℕ
or_old none old = old
or_old (some new) old = new

abbrev pub or_empty : Option (List AccountRole) → List AccountRole
or_empty none = []
or_empty (some roles) = roles

-- `config` is there and its admin signs, as in every `address = config.admin` constraint.
abbrev pub load_as_admin : {World : Type 0} → (admin : ℕ) → State World → Outcome Error Config
load_as_admin admin st = do
  config ← load st.config
  require (admin == config.admin) unauthorized
  ok config

module _ {World : Type 0} where
  unfoldable pub initialize :
      (upgrade_authority : Option ℕ)
      (deployer admin consortium treasury default_max_payload_size fee_per_byte : ℕ)
      → State World
      → Outcome Error (State World)
  initialize u deployer admin consortium treasury default_max_payload_size fee_per_byte st = do
    vacant st.config
    require (deployer == unwrap_or_default u) unauthorized
    ok (record st {
      config = some (record {
        admin = admin;
        pending_admin = 0;
        treasury = treasury;
        paused = false;
        consortium = consortium;
        global_nonce = 1;
        default_max_payload_size = default_max_payload_size;
        fee_per_byte = fee_per_byte;
      });
    })

  unfoldable pub transfer_ownership :
      (admin new_admin : ℕ) → State World → Outcome Error (State World)
  transfer_ownership admin new_admin st = do
    config ← load_as_admin admin st
    ok (record st { config = some (record config { pending_admin = new_admin }) })

  unfoldable pub accept_ownership : (payer : ℕ) → State World → Outcome Error (State World)
  accept_ownership payer st = do
    config ← load st.config
    require (payer == config.pending_admin) unauthorized
    ok (record st { config = some (record config { admin = payer; pending_admin = 0 }) })

  unfoldable pub update_config :
      (admin : ℕ) (default_max_payload_size fee_per_byte : Option ℕ)
      → State World
      → Outcome Error (State World)
  update_config admin default_max_payload_size fee_per_byte st = do
    config ← load_as_admin admin st
    ok (record st {
      config = some (record config {
        default_max_payload_size = or_old default_max_payload_size config.default_max_payload_size;
        fee_per_byte = or_old fee_per_byte config.fee_per_byte;
      });
    })

  unfoldable pub set_treasury : (admin new_treasury : ℕ) → State World → Outcome Error (State World)
  set_treasury admin new_treasury st = do
    config ← load_as_admin admin st
    ok (record st { config = some (record config { treasury = new_treasury }) })

  unfoldable pub unpause : (admin : ℕ) → State World → Outcome Error (State World)
  unpause admin st = do
    config ← load_as_admin admin st
    require config.paused not_paused
    ok (record st { config = some (record config { paused = false }) })

  -- The signer needs an account of roles with the pauser's among them.
  unfoldable pub pause : (signer : ℕ) → State World → Outcome Error (State World)
  pause signer st = do
    config ← load st.config
    roles ← load (st.account_roles signer)
    require (not config.paused) paused
    require (has_role pauser roles) unauthorized
    ok (record st { config = some (record config { paused = true }) })

  -- `account_roles` is created, with no roles, if it is not there.
  -- The constraint of the account of the roles, which is created if needed, comes before the admin's.
  unfoldable pub grant_account_role :
      (admin account : ℕ) (account_role : AccountRole) → State World → Outcome Error (State World)
  grant_account_role admin account account_role st = do
    config ← load st.config
    let roles = or_empty (st.account_roles account)
    require (not (has_role account_role roles)) account_role_already_granted
    require (admin == config.admin) unauthorized
    ok (record st {
      account_roles = put account (some (add_role account_role roles)) st.account_roles;
    })

  unfoldable pub revoke_account_roles :
      (admin account : ℕ) → State World → Outcome Error (State World)
  revoke_account_roles admin account st = do
    config ← load st.config
    roles ← load (st.account_roles account)
    require (admin == config.admin) unauthorized
    ok (record st { account_roles = put account none st.account_roles })

  unfoldable pub set_sender_config :
      (admin sender_program max_payload_size : ℕ) (fee_disabled : Bool)
      → State World
      → Outcome Error (State World)
  set_sender_config admin sender_program max_payload_size fee_disabled st = do
    config ← load_as_admin admin st
    let sender_config : SenderConfig = record {
      max_payload_size = max_payload_size;
      fee_disabled = fee_disabled;
    }
    ok (record st { sender_configs = put sender_program (some sender_config) st.sender_configs })

  unfoldable pub unset_sender_config :
      (admin sender_program : ℕ) → State World → Outcome Error (State World)
  unset_sender_config admin sender_program st = do
    config ← load st.config
    sender_config ← load (st.sender_configs sender_program)
    require (admin == config.admin) unauthorized
    ok (record st { sender_configs = put sender_program none st.sender_configs })

  unfoldable pub disable_inbound_message_path :
      (admin source_chain_id : ℕ) → State World → Outcome Error (State World)
  disable_inbound_message_path admin source_chain_id st = do
    config ← load st.config
    path ← load (st.inbound_message_paths source_chain_id)
    require (admin == config.admin) unauthorized
    ok (record st { inbound_message_paths = put source_chain_id none st.inbound_message_paths })

  unfoldable pub disable_outbound_message_path :
      (admin destination_chain_id : ℕ) → State World → Outcome Error (State World)
  disable_outbound_message_path admin destination_chain_id st = do
    config ← load st.config
    path ← load (st.outbound_message_paths destination_chain_id)
    require (admin == config.admin) unauthorized
    ok (record st {
      outbound_message_paths = put destination_chain_id none st.outbound_message_paths;
    })

  -- `self` is the program's id and `self_chain_id` the constant of the build.
  module _ (runtime : Runtime World) (self self_chain_id : ℕ) where
    unfoldable pub enable_inbound_message_path :
        (admin source_chain_id source_mailbox_address : ℕ)
        → State World
        → Outcome Error (State World)
    enable_inbound_message_path admin source_chain_id source_mailbox_address st = do
      config ← load st.config
      vacant (st.inbound_message_paths source_chain_id)
      require (admin == config.admin) unauthorized
      let path : InboundMessagePath = record {
        identifier =
            message_path_identifier runtime source_mailbox_address source_chain_id self_chain_id;
        source_mailbox_address = source_mailbox_address;
        source_chain_id = source_chain_id;
      }
      ok (record st {
        inbound_message_paths = put source_chain_id (some path) st.inbound_message_paths;
      })

    unfoldable pub enable_outbound_message_path :
        (admin destination_chain_id : ℕ) → State World → Outcome Error (State World)
    enable_outbound_message_path admin destination_chain_id st = do
      config ← load st.config
      vacant (st.outbound_message_paths destination_chain_id)
      require (admin == config.admin) unauthorized
      let path : OutboundMessagePath = record {
        identifier = message_path_identifier runtime self self_chain_id destination_chain_id;
        destination_chain_id = destination_chain_id;
      }
      ok (record st {
        outbound_message_paths = put destination_chain_id (some path) st.outbound_message_paths;
      })
