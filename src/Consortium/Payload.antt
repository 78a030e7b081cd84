-- ===== src/Consortium/Payload.antt =====
-- The payload of a validator set update: programs/consortium/src/utils/session_payloads.rs.
pub mod Valset
pub mod RoundTrip
use sol_svm_contracts.Base.{
  ℕ, zero, suc, ◌+◌, ◌*◌, ◌≡◌, Bool, true, false, not, ◌&&◌, ◌||◌, List, [], ◌∷◌, ◌++◌, ltb, leb,
  ◌==◌, if◌then◌else◌, length, drop, Outcome, ok, err, fault, ◌>>=◌, ◌>>◌, require, add_checked,
  mul_checked,
}
use sol_svm_contracts.Base.Bytes.{read_exact, read_array, read_u64, from_be}
use sol_svm_contracts.Consortium.State.{
  Error, buffer_io_error, invalid_payload_length, wrong_payload_selector,
  invalid_validator_pubkey_length, validators_and_weights_mismatch, leftover_data,
  validator_set_size_too_small, validator_set_size_too_big, invalid_epoch, invalid_weight_threshold,
  duplicate_validator, zero_weight, weights_below_threshold, validator_pubkey_size,
  min_validator_set_size, max_validator_set_size,
}

-- `UPDATE_VALSET_SELECTOR`, as a number
abbrev pub update_valset_selector : ℕ
update_valset_selector = 0x4aab1d6f

pub record UpdateValSetPayload : Type 0 where
  pub epoch : ℕ
  pub validators : List ℕ
  pub weights : List ℕ
  pub weight_threshold : ℕ
  pub height : ℕ

-- One round of the loop over the validators' keys: the length slot, a prefix byte, the key and 31
-- bytes of padding. `reader.consume` stops at the end of the slice.
unfoldable pub read_validator : List ℕ → Outcome Error (ℕ × List ℕ)
read_validator bs = do
  (pubkey_field_length, r) ← read_u64 buffer_io_error bs
  require (pubkey_field_length == validator_pubkey_size + 1) invalid_validator_pubkey_length
  (validator, r') ← read_array buffer_io_error validator_pubkey_size (drop 1 r)
  ok (validator, drop 31 r')

unfoldable pub read_validators : ℕ → List ℕ → Outcome Error (List ℕ × List ℕ)
read_validators zero bs = ok ([], bs)
read_validators (suc n) bs = do
  (v, r) ← read_validator bs
  (vs, r') ← read_validators n r
  ok (v ∷ vs, r')

unfoldable pub read_weights : ℕ → List ℕ → Outcome Error (List ℕ × List ℕ)
read_weights zero bs = ok ([], bs)
read_weights (suc n) bs = do
  (w, r) ← read_u64 buffer_io_error bs
  (ws, r') ← read_weights n r
  ok (w ∷ ws, r')

abbrev pub is_empty : List ℕ → Bool
is_empty [] = true
is_empty (x ∷ xs) = false

-- `UpdateValSetPayload::from_session_payload`
unfoldable pub from_session_payload : List ℕ → Outcome Error UpdateValSetPayload
from_session_payload payload = do
  require (leb (4 + 32 * 6) (length payload)) invalid_payload_length
  (selector, r₁) ← read_array buffer_io_error 4 payload
  require (selector == update_valset_selector) wrong_payload_selector
  (epoch, r₂) ← read_u64 buffer_io_error r₁
  let r₃ = drop 32 r₂
  let r₄ = drop 32 r₃
  (weight_threshold, r₅) ← read_u64 buffer_io_error r₄
  (height, r₆) ← read_u64 buffer_io_error r₅
  (validators_length, r₇) ← read_u64 buffer_io_error r₆
  skipped ← mul_checked 64 32 validators_length
  (validators, r₈) ← read_validators validators_length (drop skipped r₇)
  (weights_length, r₉) ← read_u64 buffer_io_error r₈
  require (weights_length == validators_length) validators_and_weights_mismatch
  (weights, r₁₀) ← read_weights weights_length r₉
  require (is_empty r₁₀) leftover_data
  ok (record {
    epoch = epoch;
    validators = validators;
    weights = weights;
    weight_threshold = weight_threshold;
    height = height;
  })

-- `validators[i] != validators[j]` for every later `j`
unfoldable pub differs_from : ℕ → List ℕ → Outcome Error (Unit {0})
differs_from v [] = ok tt
differs_from v (x ∷ xs) = require (not (v == x)) duplicate_validator >> differs_from v xs

-- The two nested loops over the validators.
unfoldable pub check_duplicates : List ℕ → Outcome Error (Unit {0})
check_duplicates [] = ok tt
check_duplicates (v ∷ vs) = differs_from v vs >> check_duplicates vs

-- The loop that adds the weights up, from `sum`.
unfoldable pub add_weights : ℕ → List ℕ → Outcome Error ℕ
add_weights sum [] = ok sum
add_weights sum (w ∷ ws) = do
  require (ltb 0 w) zero_weight
  sum' ← add_checked 64 sum w
  add_weights sum' ws

-- `UpdateValSetPayload::validate_valset`
unfoldable pub validate_valset : UpdateValSetPayload → Outcome Error (Unit {0})
validate_valset p = do
  require (leb min_validator_set_size (length p.validators)) validator_set_size_too_small
  require (leb (length p.validators) max_validator_set_size) validator_set_size_too_big
  require (ltb 0 p.epoch) invalid_epoch
  require (ltb 0 p.weight_threshold) invalid_weight_threshold
  require (length p.validators == length p.weights) validators_and_weights_mismatch
  check_duplicates p.validators
  sum ← add_weights 0 p.weights
  require (leb p.weight_threshold sum) weights_below_threshold
