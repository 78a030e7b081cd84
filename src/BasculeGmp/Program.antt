-- ===== src/BasculeGmp/Program.antt =====
-- The instructions of the bascule for mints: programs/bascule_gmp/src/instructions and lib.rs. Each
-- takes the key that signs.
pub mod Inversion
pub mod Mints
pub mod Reports
mod Witnesses
use sol_svm_contracts.Base.{
  ℕ, ◌≡◌, not, Bool, true, false, List, [], Option, none, some, leb, ◌==◌, if◌then◌else◌, Outcome,
  ok, err, ◌>>=◌, ◌>>◌, require, load, vacant,
}
use sol_svm_contracts.BasculeGmp.State.{
  Error, unauthorized, account_role_already_granted, paused, already_minted,
  must_be_reported_when_above_threshold, invalid_proof, invalid_chain_id, MintMessage, MintProof,
  Config, MintPayloadState, unreported, reported, minted, MintPayload, AccountRole, pauser,
  mint_reporter, mint_validator, validation_guardian, has_role, add_role, State, put, Runtime,
  mint_id, Instruction,
}

abbrev unwrap_or_default : Option ℕ → ℕ
unwrap_or_default none = 0
unwrap_or_default (some a) = a

abbrev or_empty : Option (List AccountRole) → List AccountRole
or_empty none = []
or_empty (some roles) = roles

unfoldable pub initialize :
    (upgrade_authority : Option ℕ) (deployer admin validate_threshold trusted_signer : ℕ)
    → State
    → Outcome Error State
initialize upgrade_authority deployer admin validate_threshold trusted_signer st = do
  vacant st.config
  require (deployer == unwrap_or_default upgrade_authority) unauthorized
  ok (record st {
    config = some (record {
      admin = admin;
      pending_admin = 0;
      paused = false;
      validate_threshold = validate_threshold;
      trusted_signer = trusted_signer;
    });
  })

abbrev load_as_admin : (admin : ℕ) → State → Outcome Error Config
load_as_admin admin st = do
  config ← load st.config
  require (admin == config.admin) unauthorized
  ok config

unfoldable pub unpause : (admin : ℕ) → State → Outcome Error State
unpause admin st = do
  config ← load_as_admin admin st
  ok (record st { config = some (record config { paused = false }) })

unfoldable pub transfer_ownership : (admin new_admin : ℕ) → State → Outcome Error State
transfer_ownership admin new_admin st = do
  config ← load_as_admin admin st
  ok (record st { config = some (record config { pending_admin = new_admin }) })

unfoldable pub set_trusted_signer : (admin trusted_signer : ℕ) → State → Outcome Error State
set_trusted_signer admin trusted_signer st = do
  config ← load_as_admin admin st
  ok (record st { config = some (record config { trusted_signer = trusted_signer }) })

unfoldable pub accept_ownership : (accept_admin : ℕ) → State → Outcome Error State
accept_ownership accept_admin st = do
  config ← load st.config
  require (config.pending_admin == accept_admin) unauthorized
  ok (record st {
    config = some (record config { admin = config.pending_admin; pending_admin = 0 });
  })

-- The constraint of the account of the roles, which is created if needed, comes before the admin's.
unfoldable pub grant_account_role :
    (admin account : ℕ) (account_role : AccountRole) → State → Outcome Error State
grant_account_role admin account account_role st = do
  config ← load st.config
  let roles = or_empty (st.account_roles account)
  require (not (has_role account_role roles)) account_role_already_granted
  require (admin == config.admin) unauthorized
  ok (record st {
    account_roles = put account (some (add_role account_role roles)) st.account_roles;
  })

unfoldable pub revoke_account_roles : (admin account : ℕ) → State → Outcome Error State
revoke_account_roles admin account st = do
  config ← load st.config
  roles ← load (st.account_roles account)
  require (admin == config.admin) unauthorized
  ok (record st { account_roles = put account none st.account_roles })

unfoldable pub pause : (signer : ℕ) → State → Outcome Error State
pause signer st = do
  config ← load st.config
  roles ← load (st.account_roles signer)
  require (not config.paused) paused
  require (has_role pauser roles) unauthorized
  ok (record st { config = some (record config { paused = true }) })

unfoldable pub update_validate_threshold :
    (guardian new_threshold : ℕ) → State → Outcome Error State
update_validate_threshold guardian new_threshold st = do
  config ← load st.config
  roles ← load (st.account_roles guardian)
  require (has_role validation_guardian roles) unauthorized
  ok (record st { config = some (record config { validate_threshold = new_threshold }) })

-- The account of a mint, which `init_if_needed` fills with zeros if it is not there.
abbrev pub or_unreported : Option MintPayload → MintPayload
or_unreported none = record { state = unreported; amount = 0 }
or_unreported (some p) = p

abbrev pub is_minted : MintPayloadState → Bool
is_minted unreported = false
is_minted reported = false
is_minted minted = true

abbrev pub is_reported : MintPayloadState → Bool
is_reported unreported = false
is_reported reported = true
is_reported minted = false

module _ (runtime : Runtime) where
  -- The signer that the proof shows, if there is one.
  unfoldable pub recover : MintMessage → MintProof → Outcome Error ℕ
  recover m proof =
      elim (runtime.secp256k1_recover (mint_id runtime m) proof.recovery_id proof.signature) [
        | none ↦ err invalid_proof
        | some signer ↦ ok signer
      ]

  unfoldable pub report_mint :
      (reporter : ℕ) (mint_message : MintMessage) (proof : MintProof) → State → Outcome Error State
  report_mint reporter m proof st = do
    config ← load st.config
    roles ← load (st.account_roles reporter)
    vacant (st.mint_payloads (mint_id runtime m))
    require (not config.paused) paused
    require (has_role mint_reporter roles) unauthorized
    require (m.chain_id == runtime.expected_chain_id) invalid_chain_id
    recovered ← recover m proof
    require (recovered == config.trusted_signer) invalid_proof
    let payload : MintPayload = record { state = reported; amount = m.amount }
    ok (record st { mint_payloads = put (mint_id runtime m) (some payload) st.mint_payloads })

  unfoldable pub validate_mint :
      (validator : ℕ) (mint_message : MintMessage) → State → Outcome Error State
  validate_mint validator m st = do
    config ← load st.config
    roles ← load (st.account_roles validator)
    require (not config.paused) paused
    require (has_role mint_validator roles) unauthorized
    let state = (or_unreported (st.mint_payloads (mint_id runtime m))).state
    require (not (is_minted state)) already_minted
    let above = require (is_reported state) must_be_reported_when_above_threshold
    if leb config.validate_threshold m.amount then above else ok tt
    let payload : MintPayload = record { state = minted; amount = m.amount }
    ok (record st { mint_payloads = put (mint_id runtime m) (some payload) st.mint_payloads })

  -- One instruction, signed by `signer`.
  unfoldable pub exec : (signer : ℕ) → Instruction → State → Outcome Error State
  exec signer (Instruction.initialize u a v t) = initialize u signer a v t
  exec signer (Instruction.grant_account_role a r) = grant_account_role signer a r
  exec signer (Instruction.revoke_account_roles a) = revoke_account_roles signer a
  exec signer Instruction.pause = pause signer
  exec signer Instruction.unpause = unpause signer
  exec signer (Instruction.transfer_ownership a) = transfer_ownership signer a
  exec signer Instruction.accept_ownership = accept_ownership signer
  exec signer (Instruction.set_trusted_signer t) = set_trusted_signer signer t
  exec signer (Instruction.report_mint m p) = report_mint signer m p
  exec signer (Instruction.validate_mint m) = validate_mint signer m
  exec signer (Instruction.update_validate_threshold t) = update_validate_threshold signer t
