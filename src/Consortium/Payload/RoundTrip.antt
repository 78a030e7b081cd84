-- ===== src/Consortium/Payload/RoundTrip.antt =====
-- The ABI encoding of a validator set update, and that the decoder reads it back.
use mathlib.Core.List.{append_assoc, append-nil}
use sol_svm_contracts.Base.{
  ℕ, ◌+◌, ◌*◌, ◌^◌, ◌<◌, ◌≡◌, refl, List, [], ◌∷◌, ◌++◌, leb, le→leb, length, length-append, drop,
  drop-append_left, true, replicate, All, ok, arith, lt→ltb, ==_iff,
}
use sol_svm_contracts.Base.Bytes.{
  IsU64, to_be, length-to_be, u64_word, length-u64_word, read_array-append, read_u64-append,
}
use sol_svm_contracts.Consortium.State.{buffer_io_error}
use sol_svm_contracts.Consortium.Payload.{
  UpdateValSetPayload, update_valset_selector, read_validator, read_validators, read_weights,
  from_session_payload,
}

-- A key of the set: its length slot, the prefix byte of the format, the 64 bytes, 31 of padding.
unfoldable pub encode_validator : ℕ → ℕ → List ℕ
encode_validator prefix v = u64_word 65 ++ ((prefix ∷ []) ++ (to_be 64 v ++ replicate 31 0))

unfoldable pub encode_validators : ℕ → List ℕ → List ℕ
encode_validators prefix [] = []
encode_validators prefix (v ∷ vs) = encode_validator prefix v ++ encode_validators prefix vs

unfoldable pub encode_weights : List ℕ → List ℕ
encode_weights [] = []
encode_weights (w ∷ ws) = u64_word w ++ encode_weights ws

length-encode_validator : (prefix v : ℕ) → length (encode_validator prefix v) ≡ 128
unfolding encode_validator
length-encode_validator prefix v = omega (
  arith,
  length-append (u64_word 65) ((prefix ∷ []) ++ (to_be 64 v ++ replicate 31 0)),
  length-append (to_be 64 v) (replicate 31 0),
  length-u64_word 65,
  length-to_be 64 v,
)

read_validator-encode :
    (prefix v : ℕ) (rest : List ℕ)
    → v < 256 ^ 64
    → read_validator (encode_validator prefix v ++ rest) ≡ ok (v, rest)
unfolding read_validator encode_validator
read_validator-encode prefix v rest h = simp append_assoc (
    rw (read_u64-append buffer_io_error 65 _ (omega arith))
      (rw (read_array-append buffer_io_error 64 v _ h)))

read_validators-encode :
    (prefix : ℕ) (vs rest : List ℕ)
    → All (λ v. v < 256 ^ 64) vs
    → read_validators (length vs) (encode_validators prefix vs ++ rest) ≡ ok (vs, rest)
unfolding read_validators encode_validators
read_validators-encode prefix [] rest h = refl
read_validators-encode prefix (v ∷ vs) rest h =
    simp append_assoc
      (rw (read_validator-encode prefix v _ h.0) (rw (read_validators-encode prefix vs rest h.1)))

read_weights-encode :
    (ws rest : List ℕ)
    → All IsU64 ws
    → read_weights (length ws) (encode_weights ws ++ rest) ≡ ok (ws, rest)
unfolding read_weights encode_weights
read_weights-encode [] rest h = refl
read_weights-encode (w ∷ ws) rest h =
    simp append_assoc
      (rw (read_u64-append buffer_io_error w _ h.0) (rw (read_weights-encode ws rest h.1)))

-- What the two array offsets of the tuple are, the decoder does not look at; nor at the offsets of
-- the keys, nor at the format byte of a key.
pub record Skipped : Type 0 where
  pub validators_offset : ℕ
  pub weights_offset : ℕ
  pub key_offsets : List ℕ
  pub prefix : ℕ

-- The ABI encoding of (uint256, bytes[], uint256[], uint256, uint256) behind the selector.
unfoldable pub encode : Skipped → UpdateValSetPayload → List ℕ
encode k p =
    to_be 4 update_valset_selector
    ++ (u64_word p.epoch
        ++ (u64_word k.validators_offset
            ++ (u64_word k.weights_offset
                ++ (u64_word p.weight_threshold
                    ++ (u64_word p.height
                        ++ (u64_word (length p.validators)
                            ++ (encode_weights k.key_offsets
                                ++ (encode_validators k.prefix p.validators
                                    ++ (u64_word (length p.weights)
                                        ++ encode_weights p.weights)))))))))

-- The numbers of the payload fit their fields, and each key has one offset.
pub record IsEncodable (k : Skipped) (p : UpdateValSetPayload) : Type 0 where
  pub epoch_fits : IsU64 p.epoch
  pub threshold_fits : IsU64 p.weight_threshold
  pub height_fits : IsU64 p.height
  pub keys_fit : All (λ v. v < 256 ^ 64) p.validators
  pub weights_fit : All IsU64 p.weights
  pub same_length : length p.weights ≡ length p.validators
  pub offsets : length k.key_offsets ≡ length p.validators
  pub count_fits : 32 * length p.validators < 2 ^ 64

length-encode_weights : (ws : List ℕ) → length (encode_weights ws) ≡ 32 * length ws
unfolding encode_weights
length-encode_weights [] = refl
length-encode_weights (w ∷ ws) = omega (
  arith,
  length-append (u64_word w) (encode_weights ws),
  length-u64_word w,
  length-encode_weights ws,
)

drop_word : (n : ℕ) (rest : List ℕ) → drop 32 (u64_word n ++ rest) ≡ rest
drop_word n rest = rw (← length-u64_word n) (drop-append_left (u64_word n) rest)

drop_words :
    (n : ℕ) (ws rest : List ℕ) → length ws ≡ n → drop (32 * n) (encode_weights ws ++ rest) ≡ rest
drop_words n ws rest h =
    rw (← h, ← length-encode_weights ws) (drop-append_left (encode_weights ws) rest)

-- The static part, which the decoder asks for first.
static_length :
    (k : Skipped) (p : UpdateValSetPayload) → leb (4 + 32 * 6) (length (encode k p)) ≡ true
unfolding encode
static_length k p = simp (length-append, length-u64_word, length-to_be) (le→leb _ _ (omega arith))

All-weights :
    (n : ℕ) (ws : List ℕ)
    → All IsU64 ws
    → length ws ≡ n
    → read_weights n (encode_weights ws) ≡ ok (ws, [])
All-weights n ws h e = rw (← e, ← append-nil (encode_weights ws)) (read_weights-encode ws [] h)

-- The decoder reads back every payload from its ABI encoding, whatever 64-bit words stand as the
-- offsets that it skips and whatever byte as the format of the keys, if the numbers fit 64 bits and the keys 64 bytes, there are as many weights and offsets as
-- validators, and 32 bytes for each validator are fewer than 2 ^ 64 in all.
pub from_session_payload-encode :
    (k : Skipped) (p : UpdateValSetPayload)
    → IsEncodable k p
    → from_session_payload (encode k p) ≡ ok p
unfolding from_session_payload encode
from_session_payload-encode k p h = rw (static_length k p) (
    rw (read_array-append buffer_io_error 4 update_valset_selector _ (omega arith)) (
      rw (read_u64-append buffer_io_error p.epoch _ h.epoch_fits) (
        rw (drop_word k.validators_offset, drop_word k.weights_offset)
          (rw (read_u64-append buffer_io_error p.weight_threshold _ h.threshold_fits) (
            rw (read_u64-append buffer_io_error p.height _ h.height_fits) (
              rw
                (read_u64-append buffer_io_error (length p.validators) _
                  (omega (arith, h.count_fits)))
                (rw (lt→ltb _ _ h.count_fits) (
                  rw (drop_words (length p.validators) k.key_offsets _ h.offsets) (
                    rw (read_validators-encode k.prefix p.validators _ h.keys_fit) (
                      rw
                        (read_u64-append buffer_io_error (length p.weights) _
                          (omega (arith, h.count_fits, h.same_length)))
                        (rw (All-weights (length p.weights) p.weights h.weights_fit refl)
                          (rw ((==_iff _ _).1 h.same_length)))))))))))))
