-- ===== src/Consortium/Payload/Valset.antt =====
-- What `validate_valset` accepts, in terms of the validator set alone.
use sol_svm_contracts.Base.{
  ℕ, ◌+◌, ◌^◌, ◌≤◌, ◌<◌, ◌≡◌, ◌≢◌, ◌↔◌, refl, List, [], ◌∷◌, length, All, ok, arith, Outcome-cases,
  inl, inr,
}
use sol_svm_contracts.Consortium.Payload.{
  UpdateValSetPayload, differs_from, check_duplicates, add_weights, validate_valset,
}
use sol_svm_contracts.Consortium.State.{max_validator_set_size}

abbrev pub sum : List ℕ → ℕ
sum [] = 0
sum (w ∷ ws) = w + sum ws

-- No element stands twice in the list.
abbrev pub Distinct : List ℕ → Type 0
Distinct [] = Unit
Distinct (v ∷ vs) = All (λ x. v ≢ x) vs × Distinct vs

pub record IsValset (validators weights : List ℕ) (threshold epoch : ℕ) : Type 0 where
  pub not_empty : 1 ≤ length validators
  pub not_too_big : length validators ≤ max_validator_set_size
  pub has_epoch : 0 < epoch
  pub has_threshold : 0 < threshold
  pub same_length : length validators ≡ length weights
  pub distinct : Distinct validators
  pub weighted : All (λ w. 0 < w) weights
  pub no_overflow : sum weights < 2 ^ 64
  pub reachable : threshold ≤ sum weights

differs_from-ok : (v : ℕ) (xs : List ℕ) → differs_from v xs ≡ ok tt → All (λ x. v ≢ x) xs
unfolding differs_from
differs_from-ok v [] h = tt
differs_from-ok v (x ∷ xs) h = ground (arith, differs_from-ok v xs)

ok-differs_from : (v : ℕ) (xs : List ℕ) → All (λ x. v ≢ x) xs → differs_from v xs ≡ ok tt
unfolding differs_from
ok-differs_from v [] h = refl
ok-differs_from v (x ∷ xs) h = ground (arith, ok-differs_from v xs h.1)

check_duplicates-ok : (vs : List ℕ) → check_duplicates vs ≡ ok tt → Distinct vs
unfolding check_duplicates
check_duplicates-ok [] h = tt
check_duplicates-ok (v ∷ vs) h = ground (arith, differs_from-ok v vs, check_duplicates-ok vs)

ok-check_duplicates : (vs : List ℕ) → Distinct vs → check_duplicates vs ≡ ok tt
unfolding check_duplicates
ok-check_duplicates [] h = refl
ok-check_duplicates (v ∷ vs) h =
    ground (arith, ok-differs_from v vs h.0, ok-check_duplicates vs h.1)

add_weights-ok :
    (s : ℕ) (ws : List ℕ) (t : ℕ)
    → s < 2 ^ 64
    → add_weights s ws ≡ ok t
    → All (λ w. 0 < w) ws × (s + sum ws < 2 ^ 64) × (t ≡ s + sum ws)
unfolding add_weights
add_weights-ok s [] t b h = ground arith
add_weights-ok s (w ∷ ws) t b h = ground (arith, add_weights-ok (s + w) ws t)

ok-add_weights :
    (s : ℕ) (ws : List ℕ)
    → All (λ w. 0 < w) ws
    → s + sum ws < 2 ^ 64
    → add_weights s ws ≡ ok (s + sum ws)
unfolding add_weights
ok-add_weights s [] a b = ground arith
ok-add_weights s (w ∷ ws) a b = ground (arith, ok-add_weights (s + w) ws a.1)

-- A payload passes `validate_valset` exactly when its validators and weights form a valid set: 1 to
-- 102 distinct validators, as many weights, each positive, with a sum that fits 64 bits, a positive
-- epoch, and a positive threshold that the sum of the weights reaches.
pub validate_valset-ok_iff :
    (p : UpdateValSetPayload)
    → (validate_valset p ≡ ok tt) ↔ IsValset p.validators p.weights p.weight_threshold p.epoch
unfolding validate_valset
validate_valset-ok_iff p = (
  λ h. elim (Outcome-cases (add_weights 0 p.weights)) [
    | inl (t, e) ↦
        ground
          (arith, check_duplicates-ok p.validators, add_weights-ok 0 p.weights t (omega arith) e)
    | inr other ↦ ground (arith, check_duplicates-ok p.validators)
  ],
  λ v.
      ground
        (arith, ok-check_duplicates p.validators v.distinct, ok-add_weights 0 p.weights v.weighted),
)
