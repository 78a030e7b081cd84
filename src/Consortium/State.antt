-- ===== src/Consortium/State.antt =====
-- The accounts of the consortium program and its errors: programs/consortium/src/state.rs,
-- constants.rs and errors.rs.
--
-- Public keys, hashes and signatures are fixed-size byte arrays that the code copies and compares;
-- each is the number that its bytes spell. `Pubkey::default()` is 0. Accounts at derived addresses
-- are maps from the seeds of the address.
use sol_svm_contracts.Base.{ℕ, Bool, List, Option, none, some, ◌&&◌, ◌==◌, if◌then◌else◌}

abbrev pub validator_pubkey_size : ℕ
validator_pubkey_size = 64

abbrev pub min_validator_set_size : ℕ
min_validator_set_size = 1

abbrev pub max_validator_set_size : ℕ
max_validator_set_size = 102

pub data Error : Type 0 where
  unauthorized not_enough_signatures leftover_data validator_set_already_set : Error
  outdated_epoch not_consecutive_epoch not_incrementing_height no_validator_set : Error
  validator_set_size_too_big validator_set_size_too_small invalid_weight_threshold : Error
  validators_and_weights_mismatch zero_weight weights_below_threshold : Error
  signatures_indices_mismatch wrong_payload_selector invalid_payload_length : Error
  invalid_validator_pubkey_length buffer_io_error empty_payload_chunk : Error
  session_payload_hash_mismatch validated_payload_already_exists : Error
  validated_payload_not_empty validated_payload_epoch_mismatch invalid_epoch : Error
  duplicate_validator : Error

pub record Config : Type 0 where
  pub admin : ℕ
  pub pending_admin : ℕ
  pub current_epoch : ℕ
  pub current_validators : List ℕ
  pub current_weights : List ℕ
  pub current_weight_threshold : ℕ
  pub current_height : ℕ

pub record Session : Type 0 where
  pub signed : List Bool
  pub weight : ℕ

-- `allocated` is the payload length that the account's space was computed from.
pub record SessionPayload : Type 0 where
  pub payload : List ℕ
  pub allocated : ℕ

pub record ValidatedPayload : Type 0 where
  pub latest_epoch : ℕ

-- Every account that the program owns: the config, the sessions by epoch, payer and payload hash,
-- the session payloads by payer and payload hash, the validated payloads by payload hash.
pub record State : Type 0 where
  pub config : Option Config
  pub sessions : ℕ → ℕ → ℕ → Option Session
  pub session_payloads : ℕ → ℕ → Option SessionPayload
  pub validated_payloads : ℕ → Option ValidatedPayload

-- Before `initialize`.
abbrev pub no_accounts : State
no_accounts = record {
  config = none;
  sessions = λ _ _ _. none;
  session_payloads = λ _ _. none;
  validated_payloads = λ _. none;
}

abbrev pub put_session :
    (epoch payer hash : ℕ)
    → Option Session
    → (ℕ → ℕ → ℕ → Option Session)
    → ℕ
    → ℕ
    → ℕ
    → Option Session
put_session epoch payer hash v m e p h =
    if (e == epoch) && ((p == payer) && (h == hash)) then v else m e p h

abbrev pub put_session_payload :
    (payer hash : ℕ)
    → Option SessionPayload
    → (ℕ → ℕ → Option SessionPayload)
    → ℕ
    → ℕ
    → Option SessionPayload
put_session_payload payer hash v m p h = if (p == payer) && (h == hash) then v else m p h

abbrev pub put_validated_payload :
    (hash : ℕ) → ValidatedPayload → (ℕ → Option ValidatedPayload) → ℕ → Option ValidatedPayload
put_validated_payload hash v m h = if h == hash then some v else m h

-- The functions of the runtime that the program calls.
-- `secp256k1_recover hash recovery_id signature` is the public key, if the recovery succeeds.
pub record Crypto : Type 0 where
  pub sha256 : List ℕ → ℕ
  pub secp256k1_recover : ℕ → ℕ → ℕ → Option ℕ
