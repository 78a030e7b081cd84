-- ===== src/Consortium/Program.antt =====
-- The instructions of the consortium program: programs/consortium/src/instructions, one function
-- for each, with the account constraints of its `#[derive(Accounts)]` struct. The framework
-- deserializes the accounts first, creates the `init` accounts next and then checks the other
-- constraints. `payer` is the key that signs.
pub mod Inversion
pub mod Invariant
pub mod Reach
pub mod Quorum
pub mod Liveness
pub mod Authority
pub mod Chunks
pub mod Succession
pub mod Runs
mod Witnesses
use sol_svm_contracts.Base.{
  ℕ, ◌+◌, not, Bool, true, false, List, [], ◌++◌, Option, none, some, ltb, leb, ◌==◌, length,
  replicate, Outcome, ok, err, fault, constraint_address, constraint_space,
  account_did_not_serialize, ◌>>=◌, ◌>>◌, require, constrain, load, vacant, add_checked,
  if◌then◌else◌,
}
use sol_svm_contracts.Consortium.State.{
  Error, unauthorized, no_validator_set, signatures_indices_mismatch, empty_payload_chunk,
  not_enough_signatures, validator_set_already_set, validated_payload_epoch_mismatch,
  session_payload_hash_mismatch, not_consecutive_epoch, not_incrementing_height, Config, Session,
  SessionPayload, ValidatedPayload, State, Crypto, put_session, put_session_payload,
  put_validated_payload,
}
use sol_svm_contracts.Consortium.Instruction.{Instruction}
use sol_svm_contracts.Consortium.Payload.{
  UpdateValSetPayload, from_session_payload, validate_valset,
}
use sol_svm_contracts.Consortium.Signatures.{post_signatures}

abbrev unwrap_or_default : Option ℕ → ℕ
unwrap_or_default none = 0
unwrap_or_default (some a) = a

-- A new account is filled with zeros; the handler sets the admin.
pub initialize : (upgrade_authority : Option ℕ) (deployer admin : ℕ) → State → Outcome Error State
initialize upgrade_authority deployer admin st = do
  vacant st.config
  require (deployer == unwrap_or_default upgrade_authority) unauthorized
  ok (record st {
    config = some (record {
      admin = admin;
      pending_admin = 0;
      current_epoch = 0;
      current_validators = [];
      current_weights = [];
      current_weight_threshold = 0;
      current_height = 0;
    });
  })

unfoldable pub create_session : (payer payload_hash : ℕ) → State → Outcome Error State
create_session payer payload_hash st = do
  config ← load st.config
  vacant (st.sessions config.current_epoch payer payload_hash)
  require (not (config.current_epoch == 0)) no_validator_set
  let session : Session = record {
    signed = replicate (length config.current_validators) false;
    weight = 0;
  }
  ok (record st {
    sessions = put_session config.current_epoch payer payload_hash (some session) st.sessions;
  })

pub close_session_for_epoch : (payer payload_hash epoch : ℕ) → State → Outcome Error State
close_session_for_epoch payer payload_hash epoch st = do
  session ← load (st.sessions epoch payer payload_hash)
  ok (record st { sessions = put_session epoch payer payload_hash none st.sessions })

-- A call for an account that is there has to repeat the length that it was created with. The
-- account is written back when the handler is done, which fails if the payload outgrew it.
unfoldable pub post_session_payload :
    (payer payload_hash : ℕ) (payload_chunk : List ℕ) (full_payload_length : ℕ)
    → State
    → Outcome Error State
post_session_payload payer payload_hash payload_chunk full_payload_length st = do
  account ← elim (st.session_payloads payer payload_hash) [
    | none ↦ ok (record { payload = []; allocated = full_payload_length })
    | some a ↦ constrain (a.allocated == full_payload_length) constraint_space >> ok a
  ]
  require (ltb 0 (length payload_chunk)) empty_payload_chunk
  let payload = account.payload ++ payload_chunk
  constrain (leb (length payload) account.allocated) account_did_not_serialize
  ok (record st {
    session_payloads =
        put_session_payload payer payload_hash (some (record account { payload = payload }))
          st.session_payloads;
  })

unfoldable pub finalize_session : (payer payload_hash : ℕ) → State → Outcome Error State
finalize_session payer payload_hash st = do
  config ← load st.config
  session ← load (st.sessions config.current_epoch payer payload_hash)
  require (leb config.current_weight_threshold session.weight) not_enough_signatures
  ok (record st {
    sessions = put_session config.current_epoch payer payload_hash none st.sessions;
    validated_payloads =
        put_validated_payload payload_hash (record { latest_epoch = config.current_epoch })
          st.validated_payloads;
  })

pub transfer_ownership : (payer new_admin : ℕ) → State → Outcome Error State
transfer_ownership payer new_admin st = do
  config ← load st.config
  require (payer == config.admin) unauthorized
  ok (record st { config = some (record config { pending_admin = new_admin }) })

pub accept_ownership : (payer : ℕ) → State → Outcome Error State
accept_ownership payer st = do
  config ← load st.config
  require (payer == config.pending_admin) unauthorized
  ok (record st { config = some (record config { admin = payer; pending_admin = 0 }) })

abbrev with_valset : Config → UpdateValSetPayload → Config
with_valset config p = record config {
  current_epoch = p.epoch;
  current_validators = p.validators;
  current_weights = p.weights;
  current_weight_threshold = p.weight_threshold;
  current_height = p.height;
}

pub initialize_config_with_valset : Config → List ℕ → Outcome Error Config
initialize_config_with_valset config payload = do
  require (config.current_epoch == 0) validator_set_already_set
  p ← from_session_payload payload
  validate_valset p
  ok (with_valset config p)

pub set_initial_valset : (admin : ℕ) (payload : List ℕ) → State → Outcome Error State
set_initial_valset admin payload st = do
  config ← load st.config
  constrain (admin == config.admin) constraint_address
  config' ← initialize_config_with_valset config payload
  ok (record st { config = some config' })

pub set_initial_valset_from_session : (admin payload_hash : ℕ) → State → Outcome Error State
set_initial_valset_from_session admin payload_hash st = do
  config ← load st.config
  session_payload ← load (st.session_payloads admin payload_hash)
  constrain (admin == config.admin) constraint_address
  config' ← initialize_config_with_valset config session_payload.payload
  ok (record st {
    config = some config';
    session_payloads = put_session_payload admin payload_hash none st.session_payloads;
  })

module _ (crypto : Crypto) where
  unfoldable pub post_session_signatures :
      (payer payload_hash : ℕ) (signatures indices : List ℕ) → State → Outcome Error State
  post_session_signatures payer payload_hash signatures indices st = do
    config ← load st.config
    session ← load (st.sessions config.current_epoch payer payload_hash)
    require (not (config.current_epoch == 0)) no_validator_set
    require (length signatures == length indices) signatures_indices_mismatch
    session' ← post_signatures crypto config payload_hash signatures indices session
    ok (record st {
      sessions = put_session config.current_epoch payer payload_hash (some session') st.sessions;
    })

  -- The checks of `update_valset` on the posted payload, and the config that it leads to.
  pub next_valset : Config → (payload_hash : ℕ) → List ℕ → Outcome Error Config
  next_valset config payload_hash payload = do
    require (crypto.sha256 payload == payload_hash) session_payload_hash_mismatch
    p ← from_session_payload payload
    validate_valset p
    next ← add_checked 64 config.current_epoch 1
    require (p.epoch == next) not_consecutive_epoch
    require (ltb config.current_height p.height) not_incrementing_height
    ok (with_valset config p)

  pub update_valset : (payer payload_hash : ℕ) → State → Outcome Error State
  update_valset payer payload_hash st = do
    config ← load st.config
    validated_payload ← load (st.validated_payloads payload_hash)
    session_payload ← load (st.session_payloads payer payload_hash)
    require (validated_payload.latest_epoch == config.current_epoch)
        validated_payload_epoch_mismatch
    config' ← next_valset config payload_hash session_payload.payload
    ok (record st {
      config = some config';
      session_payloads = put_session_payload payer payload_hash none st.session_payloads;
    })

-- One instruction, signed by `payer`.
unfoldable pub exec : Crypto → (payer : ℕ) → Instruction → State → Outcome Error State
exec crypto payer (Instruction.initialize u a) = initialize u payer a
exec crypto payer (Instruction.create_session h) = create_session payer h
exec crypto payer (Instruction.post_session_signatures h s i) =
    post_session_signatures crypto payer h s i
exec crypto payer (Instruction.post_session_payload h c l) = post_session_payload payer h c l
exec crypto payer (Instruction.finalize_session h) = finalize_session payer h
exec crypto payer (Instruction.set_initial_valset p) = set_initial_valset payer p
exec crypto payer (Instruction.set_initial_valset_from_session h) =
    set_initial_valset_from_session payer h
exec crypto payer Instruction.accept_ownership = accept_ownership payer
exec crypto payer (Instruction.transfer_ownership a) = transfer_ownership payer a
exec crypto payer (Instruction.update_valset h) = update_valset crypto payer h
exec crypto payer (Instruction.close_session_for_epoch h e) = close_session_for_epoch payer h e
