-- ===== src/Bascule/Program/Witnesses.antt =====
-- The bascule program at concrete inputs: a deposit is reported and withdrawn.
use sol_svm_contracts.Base.{
  ℕ, ◌+◌, ◌≤◌, ◌<◌, ◌≡◌, refl, ◌&&◌, not, true, false, List, [], ◌∷◌, none, some, ◌⊎◌, ◌==◌, ok,
  err, arith,
}
use sol_svm_contracts.Base.Bytes.{to_be}
use sol_svm_contracts.Bascule.State.{
  unreported, reported, withdrawn, BasculeData, State, no_accounts, put_deposit, Instruction,
  already_withdrawn, withdrawal_failed_validation,
}
use sol_svm_contracts.Bascule.Allowlist.{contains, IsAllowlist}
use sol_svm_contracts.Bascule.Program.{
  exec, initialize, grant_reporter, add_withdrawal_validator, remove_withdrawal_validator,
  report_deposit, validate_withdrawal, to_deposit_id, hash_data, state_of,
}
use sol_svm_contracts.Bascule.Program.Deposits.{
  Leads, start, step, is_withdrawn, times_withdrawn, times_withdrawn_lem,
  validate_withdrawal-checks,
}
use sol_svm_contracts.Bascule.Program.Validators.{
  remove_withdrawal_validator-contains, exec-IsAllowlist,
}
use sol_svm_contracts.Bascule.Program.Identity.{hash_data-injective}

-- A stand-in for the hash: the sum of the bytes.
abbrev keccak : List ℕ → ℕ
keccak [] = 0
keccak (b ∷ bs) = b + keccak bs

abbrev with_validators : List ℕ → (reporter : ℕ) → State
with_validators validators reporter = record {
  bascule_data = some (record {
    admin = 7;
    pending_admin = 0;
    pauser = 0;
    deposit_reporter = reporter;
    withdrawal_validators = validators;
    is_paused = false;
    validate_threshold = 0;
  });
  deposits = λ _. none;
}

-- The deposit of 5 satoshi for recipient 1 in output 3 of transaction 2.
abbrev deposit_id : ℕ
deposit_id = 252

abbrev with_reported : State
with_reported = record (with_validators (20 ∷ 30 ∷ []) 8) {
  deposits = put_deposit deposit_id (some reported) (λ _. none);
}

abbrev with_withdrawn : State
with_withdrawn = record with_reported {
  deposits = put_deposit deposit_id (some withdrawn) with_reported.deposits;
}

report_deposit-runs :
    exec keccak 8 (Instruction.report_deposit deposit_id) (with_validators (20 ∷ 30 ∷ []) 8)
    ≡ ok with_reported
unfolding exec report_deposit
report_deposit-runs = refl

validate_withdrawal-runs :
    validate_withdrawal keccak 30 deposit_id 1 5 2 3 with_reported ≡ ok with_withdrawn
unfolding validate_withdrawal to_deposit_id hash_data to_be
validate_withdrawal-runs = refl

validated_once :
    validate_withdrawal keccak 30 deposit_id 1 5 2 3 with_withdrawn ≡ err already_withdrawn
unfolding validate_withdrawal to_deposit_id hash_data to_be
validated_once = refl

not_reported :
    validate_withdrawal keccak 30 deposit_id 1 5 2 3 (with_validators (20 ∷ 30 ∷ []) 8)
    ≡ err withdrawal_failed_validation
unfolding validate_withdrawal to_deposit_id hash_data to_be
not_reported = refl

add-runs :
    add_withdrawal_validator 7 30 (with_validators (20 ∷ []) 8)
    ≡ ok (with_validators (20 ∷ 30 ∷ []) 8)
unfolding add_withdrawal_validator
add-runs = refl

remove-runs :
    remove_withdrawal_validator 7 20 (with_validators (20 ∷ 30 ∷ 40 ∷ []) 8)
    ≡ ok (with_validators (40 ∷ 30 ∷ []) 8)
unfolding remove_withdrawal_validator
remove-runs = refl

trace : Leads keccak no_accounts with_withdrawn
unfolding exec initialize grant_reporter add_withdrawal_validator
trace =
    step 30 (Instruction.validate_withdrawal deposit_id 1 5 2 3)
      (step 8 (Instruction.report_deposit deposit_id)
        (step 7 (Instruction.add_withdrawal_validator 30)
          (step {st' = with_validators (20 ∷ []) 8} 7 (Instruction.add_withdrawal_validator 20)
            (step {st' = with_validators [] 8} 7 (Instruction.grant_reporter 8)
              (step {st' = with_validators [] 0} 7 (Instruction.initialize (some (some 7))) start
                refl)
              refl)
            refl)
          add-runs)
        report_deposit-runs)
      validate_withdrawal-runs

times_withdrawn_lem_example :
    (times_withdrawn keccak deposit_id trace
      ≡ is_withdrawn (state_of (with_withdrawn.deposits deposit_id)))
    × (times_withdrawn keccak deposit_id trace ≤ 1)
times_withdrawn_lem_example = times_withdrawn_lem keccak deposit_id trace

validate_withdrawal-checks_example :
    (d : BasculeData) × (with_reported.bascule_data ≡ some d)
    × (contains d.withdrawal_validators 30 ≡ true)
    × (d.is_paused ≡ false)
    × (deposit_id ≡ to_deposit_id keccak 1 5 2 3)
    × ((reported ≡ reported) ⊎ ((reported ≡ unreported) × (5 < d.validate_threshold)))
    × (with_withdrawn.deposits deposit_id ≡ some withdrawn)
    × ((other : ℕ)
        → (other == deposit_id) ≡ false
        → with_withdrawn.deposits other ≡ with_reported.deposits other)
validate_withdrawal-checks_example =
    validate_withdrawal-checks keccak 30 deposit_id 1 5 2 3 with_reported with_withdrawn
      validate_withdrawal-runs

three-IsAllowlist : IsAllowlist (20 ∷ 30 ∷ 40 ∷ [])
three-IsAllowlist = (λ v. ground arith, omega arith)

remove_withdrawal_validator-contains_example :
    contains (40 ∷ 30 ∷ []) 20 ≡ (contains (20 ∷ 30 ∷ 40 ∷ []) 20 && not (20 == 20))
remove_withdrawal_validator-contains_example =
    remove_withdrawal_validator-contains 7 20 (with_validators (20 ∷ 30 ∷ 40 ∷ []) 8)
      (with_validators (40 ∷ 30 ∷ []) 8) 20 three-IsAllowlist remove-runs

exec-IsAllowlist_example : IsAllowlist (40 ∷ 30 ∷ [])
unfolding exec
exec-IsAllowlist_example =
    exec-IsAllowlist keccak 7 (Instruction.remove_withdrawal_validator 20)
      (with_validators (20 ∷ 30 ∷ 40 ∷ []) 8) (with_validators (40 ∷ 30 ∷ []) 8) three-IsAllowlist
      remove-runs

abbrev recipient : ℕ
recipient = 1

abbrev amount : ℕ
amount = 5

abbrev tx_id : ℕ
tx_id = 2

abbrev tx_vout : ℕ
tx_vout = 3

hash_data-injective_example : (recipient ≡ 1) × (amount ≡ 5) × (tx_id ≡ 2) × (tx_vout ≡ 3)
hash_data-injective_example =
    hash_data-injective recipient amount tx_id tx_vout 1 5 2 3 (omega arith) (omega arith)
      (omega arith) (omega arith) (omega arith) (omega arith) (omega arith) (omega arith) refl
