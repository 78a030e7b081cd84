-- ===== src/Bascule/Program.antt =====
-- The instructions of the bascule program: programs/bascule/src/instructions and lib.rs. Each takes
-- the key that signs. Of two constraints on one account the one with a condition is checked before
-- the one with an address.
pub mod Deposits
pub mod Validators
pub mod Identity
mod Witnesses
use sol_svm_contracts.Base.{
  ℕ, ◌≡◌, not, Bool, true, false, List, [], ◌∷◌, ◌++◌, Option, none, some, length, leb, ◌==◌,
  if◌then◌else◌, Outcome, ok, err, ◌>>=◌, ◌>>◌, require, load, vacant,
}
use sol_svm_contracts.Base.Bytes.{to_be}
use sol_svm_contracts.Bascule.State.{
  Error, not_deployer, not_admin, not_pending_admin, not_reporter, not_pauser, not_validator,
  paused, already_withdrawn, withdrawal_failed_validation, max_validators_reached,
  invalid_deposit_id, max_validators, DepositState, unreported, reported, withdrawn, BasculeData,
  State, put_deposit, Instruction,
}
use sol_svm_contracts.Bascule.Allowlist.{contains, position, swap_remove}

-- A program that cannot be upgraded has no upgrade authority to compare with.
abbrev pub is_deployer : Option (Option ℕ) → ℕ → Bool
is_deployer none payer = true
is_deployer (some none) payer = false
is_deployer (some (some authority)) payer = payer == authority

unfoldable pub initialize :
    (payer : ℕ) (program_data : Option (Option ℕ)) → State → Outcome Error State
initialize payer program_data st = do
  vacant st.bascule_data
  require (is_deployer program_data payer) not_deployer
  ok (record st {
    bascule_data = some (record {
      admin = payer;
      pending_admin = 0;
      pauser = 0;
      deposit_reporter = 0;
      withdrawal_validators = [];
      is_paused = false;
      validate_threshold = 0;
    });
  })

-- `bascule_data` is there and `admin` is its admin.
abbrev pub load_as_admin : (admin : ℕ) → State → Outcome Error BasculeData
load_as_admin admin st = do
  bascule_data ← load st.bascule_data
  require (admin == bascule_data.admin) not_admin
  ok bascule_data

unfoldable pub update_validate_threshold : (admin new_threshold : ℕ) → State → Outcome Error State
update_validate_threshold admin new_threshold st = do
  bascule_data ← load_as_admin admin st
  require (not bascule_data.is_paused) paused
  ok (record st {
    bascule_data = some (record bascule_data { validate_threshold = new_threshold });
  })

unfoldable pub grant_pauser : (admin pauser : ℕ) → State → Outcome Error State
grant_pauser admin pauser st = do
  bascule_data ← load_as_admin admin st
  ok (record st { bascule_data = some (record bascule_data { pauser = pauser }) })

unfoldable pub grant_reporter : (admin reporter : ℕ) → State → Outcome Error State
grant_reporter admin reporter st = do
  bascule_data ← load_as_admin admin st
  ok (record st { bascule_data = some (record bascule_data { deposit_reporter = reporter }) })

abbrev pub with_validators : List ℕ → BasculeData → State → State
with_validators validators bascule_data st = record st {
  bascule_data = some (record bascule_data { withdrawal_validators = validators });
}

unfoldable pub add_withdrawal_validator : (admin validator : ℕ) → State → Outcome Error State
add_withdrawal_validator admin validator st = do
  bascule_data ← load_as_admin admin st
  let allowlist = bascule_data.withdrawal_validators
  let pushed = with_validators (allowlist ++ (validator ∷ [])) bascule_data st
  let added = if length allowlist == max_validators then err max_validators_reached else ok pushed
  if contains allowlist validator then ok st else added

unfoldable pub remove_withdrawal_validator : (admin validator : ℕ) → State → Outcome Error State
remove_withdrawal_validator admin validator st = do
  bascule_data ← load_as_admin admin st
  let allowlist = bascule_data.withdrawal_validators
  elim (position allowlist validator) [
    | none ↦ ok st
    | some idx ↦ ok (with_validators (swap_remove allowlist idx) bascule_data st)
  ]

unfoldable pub transfer_admin_init : (admin new_admin : ℕ) → State → Outcome Error State
transfer_admin_init admin new_admin st = do
  bascule_data ← load_as_admin admin st
  ok (record st { bascule_data = some (record bascule_data { pending_admin = new_admin }) })

unfoldable pub transfer_admin_accept : (pending_admin : ℕ) → State → Outcome Error State
transfer_admin_accept pending_admin st = do
  bascule_data ← load st.bascule_data
  require (pending_admin == bascule_data.pending_admin) not_pending_admin
  ok (record st {
    bascule_data = some (record bascule_data { admin = pending_admin; pending_admin = 0 });
  })

abbrev pub set_paused : Bool → (pauser : ℕ) → State → Outcome Error State
set_paused is_paused pauser st = do
  bascule_data ← load st.bascule_data
  require (pauser == bascule_data.pauser) not_pauser
  ok (record st { bascule_data = some (record bascule_data { is_paused = is_paused }) })

unfoldable pub pause : (pauser : ℕ) → State → Outcome Error State
pause = set_paused true

unfoldable pub unpause : (pauser : ℕ) → State → Outcome Error State
unpause = set_paused false

-- The account of a deposit, which is created as unreported if it is not there.
abbrev pub state_of : Option DepositState → DepositState
state_of none = unreported
state_of (some state) = state

abbrev pub after_report : DepositState → DepositState
after_report unreported = reported
after_report reported = reported
after_report withdrawn = withdrawn

unfoldable pub report_deposit : (reporter deposit_id : ℕ) → State → Outcome Error State
report_deposit reporter deposit_id st = do
  bascule_data ← load st.bascule_data
  require (not bascule_data.is_paused) paused
  require (reporter == bascule_data.deposit_reporter) not_reporter
  let state = after_report (state_of (st.deposits deposit_id))
  ok (record st { deposits = put_deposit deposit_id (some state) st.deposits })

-- The match of `validate_withdrawal`.
abbrev pub after_withdrawal :
    DepositState → (amount validate_threshold : ℕ) → Outcome Error DepositState
after_withdrawal reported amount threshold = ok withdrawn
after_withdrawal withdrawn amount threshold = err already_withdrawn
after_withdrawal unreported amount threshold =
    if leb threshold amount then err withdrawal_failed_validation else ok withdrawn

-- What the id of a deposit is the hash of.
unfoldable pub hash_data : (recipient amount tx_id tx_vout : ℕ) → List ℕ
hash_data recipient amount tx_id tx_vout =
    to_be 32 0
    ++ (to_be 4 0x03534f4c
        ++ (to_be 32 recipient ++ (to_be 8 amount ++ (to_be 32 tx_id ++ to_be 4 tx_vout))))

-- `keccak` is the hash of the runtime.
module _ (keccak : List ℕ → ℕ) where
  unfoldable pub to_deposit_id : (recipient amount tx_id tx_vout : ℕ) → ℕ
  to_deposit_id recipient amount tx_id tx_vout = keccak (hash_data recipient amount tx_id tx_vout)

  unfoldable pub validate_withdrawal :
      (validator deposit_id recipient amount tx_id tx_vout : ℕ) → State → Outcome Error State
  validate_withdrawal validator deposit_id recipient amount tx_id tx_vout st = do
    bascule_data ← load st.bascule_data
    require (contains bascule_data.withdrawal_validators validator) not_validator
    require (not bascule_data.is_paused) paused
    require (deposit_id == to_deposit_id recipient amount tx_id tx_vout) invalid_deposit_id
    state ←
        after_withdrawal (state_of (st.deposits deposit_id)) amount bascule_data.validate_threshold
    ok (record st { deposits = put_deposit deposit_id (some state) st.deposits })

  -- One instruction, signed by `signer`.
  unfoldable pub exec : (signer : ℕ) → Instruction → State → Outcome Error State
  exec signer (Instruction.initialize d) = initialize signer d
  exec signer (Instruction.update_validate_threshold t) = update_validate_threshold signer t
  exec signer (Instruction.transfer_admin_init a) = transfer_admin_init signer a
  exec signer Instruction.transfer_admin_accept = transfer_admin_accept signer
  exec signer (Instruction.grant_pauser p) = grant_pauser signer p
  exec signer (Instruction.grant_reporter r) = grant_reporter signer r
  exec signer (Instruction.add_withdrawal_validator v) = add_withdrawal_validator signer v
  exec signer (Instruction.remove_withdrawal_validator v) = remove_withdrawal_validator signer v
  exec signer Instruction.pause = pause signer
  exec signer Instruction.unpause = unpause signer
  exec signer (Instruction.report_deposit d) = report_deposit signer d
  exec signer (Instruction.validate_withdrawal d r a t v) = validate_withdrawal signer d r a t v
