-- ===== src/Bascule/State.antt =====
-- The accounts, errors and instructions of the bascule program: programs/bascule/src/state.rs,
-- errors.rs and lib.rs.
use sol_svm_contracts.Base.{ℕ, Bool, List, Option, none, ◌==◌, if◌then◌else◌}

pub data Error : Type 0 where
  not_deployer not_admin not_pending_admin not_reporter not_pauser not_validator paused : Error
  already_withdrawn withdrawal_failed_validation max_validators_reached invalid_deposit_id : Error

abbrev pub max_validators : ℕ
max_validators = 10

pub data DepositState : Type 0 where
  unreported reported withdrawn : DepositState

-- Without the bump, which is part of the derived address.
pub record BasculeData : Type 0 where
  pub admin : ℕ
  pub pending_admin : ℕ
  pub pauser : ℕ
  pub deposit_reporter : ℕ
  pub withdrawal_validators : List ℕ
  pub is_paused : Bool
  pub validate_threshold : ℕ

-- The deposits by their id: an account of a deposit holds its state.
pub record State : Type 0 where
  pub bascule_data : Option BasculeData
  pub deposits : ℕ → Option DepositState

-- Before `initialize`.
abbrev pub no_accounts : State
no_accounts = record { bascule_data = none; deposits = λ _. none }

abbrev pub put_deposit :
    ℕ → Option DepositState → (ℕ → Option DepositState) → ℕ → Option DepositState
put_deposit k v m j = if j == k then v else m j

-- `program_data` is `none` for a program that cannot be upgraded, else it has the upgrade authority,
-- if there is one.
pub data Instruction : Type 0 where
  initialize : (program_data : Option (Option ℕ)) → Instruction
  update_validate_threshold : (new_threshold : ℕ) → Instruction
  transfer_admin_init : (new_admin : ℕ) → Instruction
  transfer_admin_accept : Instruction
  grant_pauser grant_reporter : ℕ → Instruction
  add_withdrawal_validator remove_withdrawal_validator : (validator : ℕ) → Instruction
  pause unpause : Instruction
  report_deposit : (deposit_id : ℕ) → Instruction
  validate_withdrawal : (deposit_id recipient amount tx_id tx_vout : ℕ) → Instruction
