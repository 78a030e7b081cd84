-- ===== src/Base/Bytes.antt =====
-- Byte strings as lists of numbers, big-endian integers, and a reader over a byte slice
-- (`std::io::BufReader` on a slice: what is left of the slice is its state).
use native.Mathlib.Nat.{pow-suc}
use sol_svm_contracts.Base.Tests.{leb, le→leb, if◌then◌else◌}
use sol_svm_contracts.Base.Lists.{
  length, take, drop, replicate, length-append, length-take, length-drop, take-append_left,
  drop-append_left,
}
use sol_svm_contracts.Base.Fallible.{Outcome, ok, err, ◌>>=◌}
use Prim.Native.Nat.{ℕ, zero, suc, ◌+◌, ◌*◌, ◌/◌, ◌%◌, ◌^◌, ◌<◌}
use mathlib.Core.Path.{◌≡◌, refl, ◌∙◌}
use mathlib.Core.List.{List, [], ◌∷◌, ◌++◌}
use native.Mathlib.Omega.{arith}

abbrev pub IsByte : ℕ → Type 0
IsByte b = b < 256

abbrev pub IsU64 : ℕ → Type 0
IsU64 n = n < 2 ^ 64

-- `from_be_bytes`
unfoldable pub from_be_from : ℕ → List ℕ → ℕ
from_be_from acc [] = acc
from_be_from acc (b ∷ bs) = from_be_from (acc * 256 + b) bs

unfoldable pub from_be : List ℕ → ℕ
unfolding from_be_from
from_be bs = from_be_from 0 bs

-- `to_be_bytes` of an integer of `w` bytes
unfoldable pub to_be : ℕ → ℕ → List ℕ
to_be zero n = []
to_be (suc w) n = to_be w (n / 256) ++ (n % 256 ∷ [])

from_be_from-snoc :
    (acc : ℕ) (bs : List ℕ) (b : ℕ)
    → from_be_from acc (bs ++ (b ∷ [])) ≡ from_be_from acc bs * 256 + b
unfolding from_be_from
from_be_from-snoc acc [] b = refl
from_be_from-snoc acc (x ∷ bs) b = from_be_from-snoc (acc * 256 + x) bs b

from_be_from-zeros :
    (k : ℕ) (bs : List ℕ) → from_be_from 0 (replicate k 0 ++ bs) ≡ from_be_from 0 bs
unfolding from_be_from
from_be_from-zeros zero bs = refl
from_be_from-zeros (suc k) bs = from_be_from-zeros k bs

pub length-to_be : (w n : ℕ) → length (to_be w n) ≡ w
unfolding to_be
length-to_be zero n = refl
length-to_be (suc w) n =
    omega (arith, length-append (to_be w (n / 256)) (n % 256 ∷ []), length-to_be w (n / 256))

-- Reading back what was written.
pub from_be-to_be : (w n : ℕ) → n < 256 ^ w → from_be (to_be w n) ≡ n
unfolding from_be to_be from_be_from
from_be-to_be zero n h = omega arith
from_be-to_be (suc w) n h =
    from_be_from-snoc 0 (to_be w (n / 256)) (n % 256)
    ∙ omega (arith, from_be-to_be w (n / 256) (omega (arith, pow-suc 256 w)))

-- An unsigned 64-bit integer in a 32-byte ABI slot.
unfoldable pub u64_word : ℕ → List ℕ
u64_word n = replicate 24 0 ++ to_be 8 n

pub length-u64_word : (n : ℕ) → length (u64_word n) ≡ 32
unfolding u64_word
length-u64_word n = omega (arith, length-to_be 8 n)

module _ {ℓ} {E : Type ℓ} (e : E) where
  -- `reader.read_exact(&mut [0u8; n])?`, where `e` is what an `io::Error` is turned into
  unfoldable pub read_exact : ℕ → List ℕ → Outcome E (List ℕ × List ℕ)
  read_exact n bs = if leb n (length bs) then ok (take n bs, drop n bs) else err e

  -- A byte array, as the number that its bytes spell.
  unfoldable pub read_array : ℕ → List ℕ → Outcome E (ℕ × List ℕ)
  read_array n bs = do (word, rest) ← read_exact n bs; ok (from_be word, rest)

  -- `u64::from_be_bytes(word[24..32])` of the next 32 bytes
  unfoldable pub read_u64 : List ℕ → Outcome E (ℕ × List ℕ)
  read_u64 bs = do (word, rest) ← read_exact 32 bs; ok (from_be (drop 24 word), rest)

  pub read_exact-append :
      (n : ℕ) (xs ys : List ℕ) → length xs ≡ n → read_exact n (xs ++ ys) ≡ ok (xs, ys)
  unfolding read_exact
  read_exact-append n xs ys h = rw (← h) (
      rw (
        le→leb (length xs) (length (xs ++ ys)) (omega (arith, length-append xs ys)),
        take-append_left xs ys,
        drop-append_left xs ys,
      ))

  pub read_array-append :
      (w n : ℕ) (ys : List ℕ) → n < 256 ^ w → read_array w (to_be w n ++ ys) ≡ ok (n, ys)
  unfolding read_array
  read_array-append w n ys h =
      rw (read_exact-append w (to_be w n) ys (length-to_be w n), from_be-to_be w n h)

  pub read_u64-append : (n : ℕ) (ys : List ℕ) → IsU64 n → read_u64 (u64_word n ++ ys) ≡ ok (n, ys)
  unfolding read_u64 u64_word
  read_u64-append n ys h = rw (
    read_exact-append 32 (replicate 24 0 ++ to_be 8 n) ys (omega (arith, length-to_be 8 n)),
    from_be-to_be 8 n h,
  )

  pub length-read_exact :
      (n : ℕ) (bs xs rest : List ℕ)
      → read_exact n bs ≡ ok (xs, rest)
      → (length xs ≡ n) × (length bs ≡ n + length rest)
  unfolding read_exact
  length-read_exact n bs xs rest h = ground (arith, length-take n bs, length-drop n bs)

  pub length-read_array :
      (n : ℕ) (bs : List ℕ) (v : ℕ) (rest : List ℕ)
      → read_array n bs ≡ ok (v, rest)
      → length bs ≡ n + length rest
  unfolding read_array read_exact
  length-read_array n bs v rest h = ground (arith, length-take n bs, length-drop n bs)

  pub length-read_u64 :
      (bs : List ℕ) (v : ℕ) (rest : List ℕ)
      → read_u64 bs ≡ ok (v, rest)
      → length bs ≡ 32 + length rest
  unfolding read_u64 read_exact
  length-read_u64 bs v rest h = ground (arith, length-take 32 bs, length-drop 32 bs)
