-- ===== src/RatioOracle/State.antt =====
-- The accounts, errors and instructions of the ratio oracle: programs/ratio_oracle/src/state.rs,
-- errors.rs, constants.rs and lib.rs. The denomination is the list of its bytes.
use sol_svm_contracts.Base.{ℕ, ◌*◌, List, Option}

pub data Error : Type 0 where
  unauthorized buffer_io_error invalid_payload_length invalid_payload_selector wrong_denom : Error
  outdated_ratio_update max_ahead_interval_exceeded ratio_threshold_exceeded empty_denom : Error
  zero_ratio_threshold exceeded_max_ratio_threshold : Error

abbrev pub max_ratio_threshold : ℕ
max_ratio_threshold = 100000000

abbrev pub default_switch_interval : ℕ
default_switch_interval = 60 * 60 * 24

pub record Config : Type 0 where
  pub admin : ℕ
  pub pending_admin : ℕ
  pub consortium : ℕ

pub record Oracle : Type 0 where
  pub denom : List ℕ
  pub mint_address : ℕ
  pub previous_ratio : Option ℕ
  pub current_ratio : ℕ
  pub switch_time : ℕ
  pub max_ahead_interval : ℕ
  pub ratio_threshold : ℕ

-- The oracles by the hash of their denomination.
pub record State : Type 0 where
  pub config : Option Config
  pub oracles : ℕ → Option Oracle

-- What the program reads of the runtime and of the consortium program: the hash, the time of the
-- clock, and the epoch in which a payload was validated.
pub record Environment : Type 0 where
  pub sha256 : List ℕ → ℕ
  pub unix_timestamp : ℕ
  pub validated_payload : (program payload_hash : ℕ) → Option ℕ

-- `oracle` is the account that is passed.
pub data Instruction : Type 0 where
  initialize : (upgrade_authority : Option ℕ) (admin consortium : ℕ) → Instruction
  accept_ownership : Instruction
  transfer_ownership : (new_admin : ℕ) → Instruction
  update_consortium : (new_consortium : ℕ) → Instruction
  update_ratio_threshold : (oracle ratio_threshold : ℕ) → Instruction
  initialize_oracle :
      (denom : List ℕ)
      (mint_address initial_ratio switch_time max_ahead_interval ratio_threshold : ℕ)
      → Instruction
  publish_ratio : (oracle : ℕ) (payload : List ℕ) → Instruction
