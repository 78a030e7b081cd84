-- ===== src/AssetRouter/Messages/Layout.antt =====
-- The padding of the router's messages, and the scripts that a redemption may name.
use sol_svm_contracts.Base.{
  ℕ, zero, suc, ◌-◌, ◌%◌, ◌≤◌, ◌≡◌, refl, ap, ◌∙◌, List, [], ◌∷◌, ◌++◌, length, take, drop,
  replicate, length-drop, length-take, sym, ok, inl, inr, arith, leb, Bool-cases,
}
use mathlib.Core.List.{append_assoc, append-nil}
use sol_svm_contracts.AssetRouter.Messages.{
  padded_from, padded, OutputType, p2wpkh, p2tr, p2wsh, get_output_type,
}

take-drop : (n : ℕ) (xs : List ℕ) → take n xs ++ drop n xs ≡ xs
take-drop zero xs = refl
take-drop (suc n) [] = refl
take-drop (suc n) (x ∷ xs) = ap (λ ys. x ∷ ys) (take-drop n xs)

drop_short : (n : ℕ) (xs : List ℕ) → length xs ≤ n → drop n xs ≡ []
drop_short zero [] h = refl
drop_short zero (x ∷ xs) h = absurd (omega (arith, h))
drop_short (suc n) [] h = refl
drop_short (suc n) (x ∷ xs) h = drop_short n xs (omega (arith, h))

take_short : (n : ℕ) (xs : List ℕ) → length xs ≤ n → take n xs ≡ xs
take_short n xs h =
    sym (append-nil (take n xs))
    ∙ ap (λ ys. take n xs ++ ys) (sym (drop_short n xs h))
    ∙ take-drop n xs

-- Zeros up to a multiple of 32 bytes.
abbrev pub zeros_after : ℕ → ℕ
zeros_after n = (32 - n % 32) % 32

padded_from-nil : (fuel : ℕ) → padded_from fuel [] ≡ []
unfolding padded_from
padded_from-nil zero = refl
padded_from-nil (suc fuel) = refl

padded_from-zeros :
    (fuel : ℕ) (bytes : List ℕ)
    → length bytes ≤ fuel
    → padded_from fuel bytes ≡ bytes ++ replicate (zeros_after (length bytes)) 0
unfolding padded_from
padded_from-zeros zero [] h = refl
padded_from-zeros zero (b ∷ bs) h = absurd (omega (arith, h))
padded_from-zeros (suc fuel) [] h = refl
padded_from-zeros (suc fuel) (b ∷ bs) h =
    let zeros : List ℕ = replicate (zeros_after (suc (length bs))) 0 in
    let step : (rest : List ℕ) → List ℕ =
      λ rest. b ∷ (take 31 bs ++ (replicate (32 - suc (length (take 31 bs))) 0 ++ rest)) in
    elim (Bool-cases (leb 31 (length bs))) [
      | inl long ↦
          let enough : 31 ≤ length bs = ground (arith, long) in
          let fits : length (drop 31 bs) ≤ fuel = omega (arith, length-drop 31 bs, h) in
          let same : zeros_after (length (drop 31 bs)) ≡ zeros_after (suc (length bs)) =
            omega (arith, length-drop 31 bs, enough) in
          let full : 32 - suc (length (take 31 bs)) ≡ 0 =
            ground (arith, length-take 31 bs, enough) in
          let joined : take 31 bs ++ (drop 31 bs ++ zeros) ≡ bs ++ zeros =
            sym (append_assoc (take 31 bs) (drop 31 bs) zeros)
            ∙ ap (λ ys. ys ++ zeros) (take-drop 31 bs) in
          ap step
            (padded_from-zeros fuel (drop 31 bs) fits ∙ ap (λ n. drop 31 bs ++ replicate n 0) same)
          ∙ ap (λ n. b ∷ (take 31 bs ++ (replicate n 0 ++ (drop 31 bs ++ zeros)))) full
          ∙ ap (λ ys. b ∷ ys) joined
      | inr short ↦
          let few : length bs ≤ 30 = ground (arith, short) in
          let count : 32 - suc (length bs) ≡ zeros_after (suc (length bs)) = omega (arith, few) in
          ap step (
            ap (λ ys. padded_from fuel ys) (drop_short 31 bs (omega (arith, few)))
            ∙ padded_from-nil fuel)
          ∙ ap (λ ys. b ∷ (ys ++ (replicate (32 - suc (length ys)) 0 ++ [])))
              (take_short 31 bs (omega (arith, few)))
          ∙ ap (λ ys. b ∷ (bs ++ ys))
              (append-nil (replicate (32 - suc (length bs)) 0) ∙ ap (λ n. replicate n 0) count)
    ]

-- The loop over chunks fills the last one up with zeros, and changes nothing else.
pub padded-zeros :
    (bytes : List ℕ) → padded bytes ≡ bytes ++ replicate (zeros_after (length bytes)) 0
unfolding padded
padded-zeros bytes = padded_from-zeros (length bytes) bytes (omega arith)

-- The scripts of each kind: a version, the length of a hash or key, and the hash or key.
abbrev pub IsScript : OutputType → List ℕ → Type 0
IsScript p2wpkh script = (hash : List ℕ) × (script ≡ 0x00 ∷ 0x14 ∷ hash) × (length hash ≡ 20)
IsScript p2tr script = (key : List ℕ) × (script ≡ 0x51 ∷ 0x20 ∷ key) × (length key ≡ 32)
IsScript p2wsh script = (hash : List ℕ) × (script ≡ 0x00 ∷ 0x20 ∷ hash) × (length hash ≡ 32)

pub get_output_type-IsScript :
    (script : List ℕ) (kind : OutputType) → get_output_type script ≡ ok kind → IsScript kind script
unfolding get_output_type
get_output_type-IsScript [] kind h = absurd (ground arith)
get_output_type-IsScript (a ∷ []) kind h = absurd (ground arith)
get_output_type-IsScript (a ∷ b ∷ rest) p2wpkh h = (rest, ground arith, ground arith)
get_output_type-IsScript (a ∷ b ∷ rest) p2tr h = (rest, ground arith, ground arith)
get_output_type-IsScript (a ∷ b ∷ rest) p2wsh h = (rest, ground arith, ground arith)
