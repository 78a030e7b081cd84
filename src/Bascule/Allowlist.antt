-- ===== src/Bascule/Allowlist.antt =====
-- The list of withdrawal validators: the calls of `Vec` in programs/bascule/src/instructions/admin.rs,
-- and how often a validator is in the list.
use sol_svm_contracts.Base.{
  ℕ, zero, suc, ◌+◌, ◌≤◌, ◌≡◌, refl, Bool, false, ◌||◌, List, [], ◌∷◌, ◌++◌, Option, none, some,
  length, ltb, ◌==◌, if◌then◌else◌, arith,
}

-- `allowlist.contains(&validator)`
abbrev pub contains : List ℕ → ℕ → Bool
contains [] v = false
contains (x ∷ xs) v = x == v || contains xs v

-- `allowlist.iter().position(|v| v == &validator)`
abbrev pub position : List ℕ → ℕ → Option ℕ
position [] v = none
position (x ∷ xs) v =
    let rest = position xs v in
    if x == v then some 0 else elim rest [ none ↦ none | some i ↦ some (suc i) ]

abbrev pub last : ℕ → List ℕ → ℕ
last x [] = x
last x (y ∷ ys) = last y ys

-- The list `x ∷ xs` without its last element.
abbrev pub drop_last : ℕ → List ℕ → List ℕ
drop_last x [] = []
drop_last x (y ∷ ys) = x ∷ drop_last y ys

-- `allowlist.swap_remove(idx)`: the last element takes the place of the one that goes.
abbrev pub swap_remove : List ℕ → ℕ → List ℕ
swap_remove [] i = []
swap_remove (x ∷ []) zero = []
swap_remove (x ∷ y ∷ ys) zero = last y ys ∷ drop_last y ys
swap_remove (x ∷ xs) (suc i) = x ∷ swap_remove xs i

abbrev pub same : ℕ → ℕ → ℕ
same x v = if x == v then 1 else 0

abbrev pub count : List ℕ → ℕ → ℕ
count [] v = 0
count (x ∷ xs) v = same x v + count xs v

-- No duplicates, and no more than fit the account.
abbrev pub IsAllowlist : List ℕ → Type 0
IsAllowlist xs = ((v : ℕ) → count xs v ≤ 1) × (length xs ≤ 10)

pub count-contains : (xs : List ℕ) (v : ℕ) → contains xs v ≡ ltb 0 (count xs v)
count-contains [] v = refl
count-contains (x ∷ xs) v = ground (arith, count-contains xs v)

pub count-push : (xs : List ℕ) (x v : ℕ) → count (xs ++ (x ∷ [])) v ≡ count xs v + same x v
count-push [] x v = omega arith
count-push (y ∷ xs) x v = omega (arith, count-push xs x v)

pub length-push : (xs : List ℕ) (x : ℕ) → length (xs ++ (x ∷ [])) ≡ length xs + 1
length-push [] x = refl
length-push (y ∷ xs) x = omega (arith, length-push xs x)

count-drop_last :
    (x : ℕ) (xs : List ℕ) (v : ℕ) → same (last x xs) v + count (drop_last x xs) v ≡ count (x ∷ xs) v
count-drop_last x [] v = refl
count-drop_last x (y ∷ ys) v = omega (arith, count-drop_last y ys v)

length-drop_last : (x : ℕ) (xs : List ℕ) → length (drop_last x xs) ≡ length xs
length-drop_last x [] = refl
length-drop_last x (y ∷ ys) = omega (arith, length-drop_last y ys)

-- What goes is the one that was found.
pub count-swap_remove :
    (xs : List ℕ) (v i w : ℕ)
    → position xs v ≡ some i
    → (count (swap_remove xs i) w + same v w ≡ count xs w)
      × (length (swap_remove xs i) + 1 ≡ length xs)
count-swap_remove [] v i w h = absurd (cc h)
count-swap_remove (x ∷ []) v zero w h = (ground arith, ground arith)
count-swap_remove (x ∷ y ∷ ys) v zero w h =
    let found : x ≡ v = ground arith in
    (rw found (omega (arith, count-drop_last y ys w)), omega (arith, length-drop_last y ys))
count-swap_remove (x ∷ xs) v (suc i) w h =
    let later : position xs v ≡ some i = ground arith in
    let (counts, lengths) = count-swap_remove xs v i w later in
    (omega (arith, counts), omega (arith, lengths))

pub position-none : (xs : List ℕ) (v : ℕ) → position xs v ≡ none → count xs v ≡ 0
position-none [] v h = refl
position-none (x ∷ xs) v h = ground (arith, position-none xs v)
