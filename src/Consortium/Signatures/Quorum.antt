-- ===== src/Consortium/Signatures/Quorum.antt =====
-- Distinct marked validators add their weights to the weight of a session.
use sol_svm_contracts.Base.{
  ℕ, zero, suc, ◌+◌, ◌≤◌, ◌≡◌, ◌≢◌, ◌∙◌, Bool, true, false, List, [], ◌∷◌, none, some, get_elem?,
  set, get_elem?-set_ne, All, arith,
}
use sol_svm_contracts.Consortium.Payload.Valset.{Distinct}
use sol_svm_contracts.Consortium.Signatures.Weight.{signed_weight}

-- The weight of the validator at an index, 0 if there is none.
abbrev pub weight_at : List ℕ → ℕ → ℕ
weight_at ws i = elim (get_elem? ws i) [ none ↦ 0 | some w ↦ w ]

abbrev pub total_weight : (weights indices : List ℕ) → ℕ
total_weight ws [] = 0
total_weight ws (i ∷ is) = weight_at ws i + total_weight ws is

unmark :
    (bs : List Bool) (ws : List ℕ) (i : ℕ)
    → get_elem? bs i ≡ some true
    → signed_weight bs ws ≡ signed_weight (set bs i false) ws + weight_at ws i
unmark [] ws i h = cc
unmark (b ∷ bs) [] i h = ground arith
unmark (false ∷ bs) (w ∷ ws) zero h = cc
unmark (true ∷ bs) (w ∷ ws) zero h = omega arith
unmark (true ∷ bs) (w ∷ ws) (suc i) h = omega (arith, unmark bs ws i h)
unmark (false ∷ bs) (w ∷ ws) (suc i) h = omega (arith, unmark bs ws i h)

still_marked :
    (bs : List Bool) (i : ℕ) (is : List ℕ)
    → All (λ j. i ≢ j) is
    → All (λ j. get_elem? bs j ≡ some true) is
    → All (λ j. get_elem? (set bs i false) j ≡ some true) is
still_marked bs i [] ne m = tt
still_marked bs i (j ∷ is) ne m =
    (get_elem?-set_ne bs i j false ne.0 ∙ m.0, still_marked bs i is ne.1 m.1)

pub total_weight-le-signed_weight :
    (bs : List Bool) (ws is : List ℕ)
    → Distinct is
    → All (λ j. get_elem? bs j ≡ some true) is
    → total_weight ws is ≤ signed_weight bs ws
total_weight-le-signed_weight bs ws [] d m = omega arith
total_weight-le-signed_weight bs ws (i ∷ is) d m = omega (
  arith,
  unmark bs ws i m.0,
  total_weight-le-signed_weight (set bs i false) ws is d.1 (still_marked bs i is d.0 m.1),
)
