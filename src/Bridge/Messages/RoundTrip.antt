-- ===== src/Bridge/Messages/RoundTrip.antt =====
-- A bridge message that is written is read back.
use sol_svm_contracts.Base.{
  ℕ, ◌+◌, ◌<◌, ◌≡◌, refl, ap, ◌∙◌, subst, List, [], ◌++◌, Option, none, some, leb, le→leb, length,
  length-append, take, drop, take-append_left, drop-append_left, ok, arith, true, false, ◌^◌,
}
use mathlib.Core.List.{append_assoc, append-nil}
use sol_svm_contracts.Base.Bytes.{
  IsU64, to_be, length-to_be, u64_word, length-u64_word, read_array, read_array-append,
  read_u64-append,
}
use sol_svm_contracts.Bridge.State.{buffer_io_error, optional_message_size}
use sol_svm_contracts.Bridge.Messages.{
  BridgeToken, version_of, or_nothing, to_gmp_body, Mint, is_wrong_version, trailing_message,
  from_message,
}
use sol_svm_contracts.Mailbox.Message.RoundTrip.{IsWord}

abbrev pub IsOptionalMessage : Option (List ℕ) → Type 0
IsOptionalMessage none = Unit
IsOptionalMessage (some message) = length message ≡ optional_message_size

-- The fields have the sizes of their types.
pub record IsBridgeToken (b : BridgeToken) : Type 0 where
  pub token : IsWord b.destination_token_address
  pub sender : IsWord b.sender
  pub recipient : IsWord b.recipient
  pub amount : IsU64 b.amount
  pub message : IsOptionalMessage b.optional_message

-- What the other side reads.
abbrev pub mint_of : BridgeToken → Mint
mint_of b = record {
  token_address = b.destination_token_address;
  sender = b.sender;
  recipient = b.recipient;
  amount = b.amount;
  message = b.optional_message;
}

pub length-to_gmp_body :
    (b : BridgeToken) → length (to_gmp_body b) ≡ 129 + length (or_nothing b.optional_message)
unfolding to_gmp_body
length-to_gmp_body b = simp (length-append, length-u64_word, length-to_be) (omega arith)

fixed_part : BridgeToken → List ℕ
fixed_part b =
    to_be 1 (version_of b.optional_message)
    ++ (to_be 32 b.destination_token_address
        ++ (to_be 32 b.sender ++ (to_be 32 b.recipient ++ u64_word b.amount)))

length-fixed_part : (b : BridgeToken) → length (fixed_part b) ≡ 129
unfolding fixed_part
length-fixed_part b = simp (length-append, length-u64_word, length-to_be) (omega arith)

to_gmp_body-fixed_part :
    (b : BridgeToken) → to_gmp_body b ≡ fixed_part b ++ or_nothing b.optional_message
unfolding to_gmp_body fixed_part
to_gmp_body-fixed_part b = simp (append_assoc)

drop_fixed_part : (b : BridgeToken) → drop 129 (to_gmp_body b) ≡ or_nothing b.optional_message
drop_fixed_part b =
    rw (to_gmp_body-fixed_part b)
      (rw (← length-fixed_part b) (drop-append_left (fixed_part b) (or_nothing b.optional_message)))

take-all : (xs : List ℕ) → take (length xs) xs ≡ xs
take-all xs = subst (λ ys. take (length xs) ys ≡ xs) (append-nil xs) (take-append_left xs [])

trailing_message-eq :
    (bytes : List ℕ) (o : Option (List ℕ))
    → IsOptionalMessage o
    → length bytes ≡ 129 + length (or_nothing o)
    → drop 129 bytes ≡ or_nothing o
    → trailing_message bytes ≡ o
unfolding trailing_message
trailing_message-eq bytes none h len rest = rw (len) refl
trailing_message-eq bytes (some message) h len rest =
    rw (len, h, rest)
      (ap some
        (append-nil (take 48 message) ∙ subst (λ n. take n message ≡ message) h (take-all message)))

long_enough : (b : BridgeToken) → leb 129 (length (to_gmp_body b)) ≡ true
long_enough b = le→leb _ _ (omega (arith, length-to_gmp_body b))

behind_version : BridgeToken → List ℕ
behind_version b =
    to_be 32 b.destination_token_address
    ++ (to_be 32 b.sender
        ++ (to_be 32 b.recipient ++ (u64_word b.amount ++ or_nothing b.optional_message)))

version_of-< : (o : Option (List ℕ)) → version_of o < 256 ^ 1
version_of-< none = omega arith
version_of-< (some message) = omega arith

read_version :
    (b : BridgeToken)
    → read_array buffer_io_error 1 (to_gmp_body b)
      ≡ ok (version_of b.optional_message, behind_version b)
unfolding to_gmp_body behind_version
read_version b =
    read_array-append buffer_io_error 1 (version_of b.optional_message) _
      (version_of-< b.optional_message)

right_version :
    (o : Option (List ℕ)) {len : ℕ}
    → len ≡ 129 + length (or_nothing o)
    → is_wrong_version (version_of o) len ≡ false
right_version none e = ground arith
right_version (some message) e = refl

-- `from_message` reads back every message that `to_gmp_body` writes, if its fields have the sizes of
-- their types.
pub from_message-to_gmp_body :
    (b : BridgeToken) → IsBridgeToken b → from_message (to_gmp_body b) ≡ ok (mint_of b)
unfolding from_message behind_version
from_message-to_gmp_body b h = rw (long_enough b) (
    rw (read_version b) (
      rw (right_version b.optional_message (length-to_gmp_body b)) (
        rw (read_array-append buffer_io_error 32 b.destination_token_address _ h.token) (
          rw (read_array-append buffer_io_error 32 b.sender _ h.sender) (
            rw (read_array-append buffer_io_error 32 b.recipient _ h.recipient) (
              rw (read_u64-append buffer_io_error b.amount _ h.amount)
                (ap (λ o. ok (record (mint_of b) { message = o })) trailing)))))))
  where
    trailing : trailing_message (to_gmp_body b) ≡ b.optional_message
    trailing =
        trailing_message-eq (to_gmp_body b) b.optional_message h.message (length-to_gmp_body b)
          (drop_fixed_part b)
