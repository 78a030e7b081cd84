-- ===== src/Bridge/Messages/Errors.antt =====
-- Which bodies the bridge reads, and the error for every other.
use sol_svm_contracts.Base.{
  ℕ, ◌+◌, ◌≤◌, ◌<◌, ◌≡◌, ◌≢◌, refl, ap, leb→le, ◌⊎◌, inl, inr, List, [], ◌∷◌, true, false, leb,
  le→leb, length, take, drop, length-drop, ok, err, arith, Bool-cases,
}
use sol_svm_contracts.Base.Bytes.{from_be, from_be_from, read_exact, read_array, read_u64}
use sol_svm_contracts.Bridge.State.{
  buffer_io_error, invalid_message_length, invalid_message_version,
}
use sol_svm_contracts.Bridge.Messages.{
  mint_message_min_length, msg_version_min, msg_version, Mint, trailing_message, is_wrong_version,
  from_message,
}

abbrev pub first_byte : List ℕ → ℕ
first_byte [] = 0
first_byte (b ∷ bs) = b

-- The version is not known, or the message has the length of the other version.
abbrev pub IsWrongVersion : (version length : ℕ) → Type 0
IsWrongVersion version len =
    (version < msg_version_min)
    ⊎ ((msg_version < version) ⊎ ((version ≡ msg_version_min) × (len ≢ mint_message_min_length)))

abbrev pub IsRightVersion : (version length : ℕ) → Type 0
IsRightVersion version len =
    ((version ≡ msg_version_min) × (len ≡ mint_message_min_length)) ⊎ (version ≡ msg_version)

module _ {ℓ} {E : Type ℓ} (e : E) where
  pub read_array-enough :
      (n : ℕ) (bs : List ℕ)
      → n ≤ length bs
      → (v : ℕ) × (rest : List ℕ) × (read_array e n bs ≡ ok (v, rest))
        × (length bs ≡ n + length rest)
  unfolding read_array read_exact
  read_array-enough n bs h = (
    from_be (take n bs),
    drop n bs,
    rw (le→leb n (length bs) h) refl,
    omega (arith, h, length-drop n bs),
  )

  pub read_u64-enough :
      (bs : List ℕ) → 32 ≤ length bs → (v : ℕ) × (rest : List ℕ) × (read_u64 e bs ≡ ok (v, rest))
  unfolding read_u64 read_exact
  read_u64-enough bs h =
      (from_be (drop 24 (take 32 bs)), drop 32 bs, rw (le→leb 32 (length bs) h) refl)

read_version :
    (message : List ℕ)
    → 129 ≤ length message
    → (rest : List ℕ) × (read_array buffer_io_error 1 message ≡ ok (first_byte message, rest))
      × (length message ≡ 1 + length rest)
unfolding read_array read_exact from_be from_be_from
read_version [] h = absurd (omega (arith, h))
read_version (b ∷ bs) h = (
  bs,
  rw (le→leb 1 (length (b ∷ bs)) (omega arith)) (ap (λ v. ok (v, bs)) (omega arith)),
  omega arith,
)

version-cases :
    (version len : ℕ)
    → ((is_wrong_version version len ≡ true) × IsWrongVersion version len)
      ⊎ ((is_wrong_version version len ≡ false) × IsRightVersion version len)
version-cases version len = elim (Bool-cases (is_wrong_version version len)) [
  | inl wrong ↦ inl (wrong, ground arith)
  | inr right ↦ inr (right, ground arith)
]

-- A body of less than 129 bytes is refused for its length. Of the longer ones, those are refused for
-- their version whose first byte is neither 1 nor 2, or is 1 with a length other than 129. Every
-- other body is read. So reading never runs out of bytes.
pub from_message-cases :
    (message : List ℕ)
    → ((length message < 129) × (from_message message ≡ err invalid_message_length))
      ⊎ ((129 ≤ length message)
          × ((IsWrongVersion (first_byte message) (length message)
                × (from_message message ≡ err invalid_message_version))
              ⊎ (IsRightVersion (first_byte message) (length message)
                  × (mint : Mint) × (from_message message ≡ ok mint))))
unfolding from_message
from_message-cases message = elim (Bool-cases (leb 129 (length message))) [
  | inr short ↦ inl (ground (arith, short), rw (short) refl)
  | inl long ↦
      let (r₁, e₁, l₁) = read_version message (ground (arith, long)) in
      inr (
        ground (arith, long),
        elim (version-cases (first_byte message) (length message)) [
          | inl (wrong, is_wrong) ↦ inl (is_wrong, rw (long, e₁, wrong) refl)
          | inr (right, is_right) ↦
              let (token, r₂, e₂, l₂) =
                read_array-enough buffer_io_error 32 r₁ (omega (arith, leb→le _ _ long, l₁)) in
              let (sender, r₃, e₃, l₃) =
                read_array-enough buffer_io_error 32 r₂ (omega (arith, leb→le _ _ long, l₁, l₂)) in
              let (recipient, r₄, e₄, l₄) =
                read_array-enough buffer_io_error 32 r₃
                  (omega (arith, leb→le _ _ long, l₁, l₂, l₃)) in
              let (amount, r₅, e₅) =
                read_u64-enough buffer_io_error r₄
                  (omega (arith, leb→le _ _ long, l₁, l₂, l₃, l₄)) in
              inr (
                is_right,
                record {
                  token_address = token;
                  sender = sender;
                  recipient = recipient;
                  amount = amount;
                  message = trailing_message message;
                },
                rw (long, e₁, right, e₂, e₃, e₄, e₅) refl,
              )
        ],
      )
]
