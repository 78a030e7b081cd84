-- ===== src/Mailbox/Message/RoundTrip.antt =====
-- A message that is sent is read back from its ABI form.
use sol_svm_contracts.Base.{
  ℕ, zero, ◌+◌, ◌*◌, ◌^◌, ◌<◌, ◌≡◌, ◌≢◌, refl, List, ◌++◌, Option, none, some, leb, le→leb, length,
  length-append, drop, drop-append_left, length-replicate, ok, arith, true,
}
use sol_svm_contracts.Base.Bytes.{
  IsU64, to_be, length-to_be, u64_word, length-u64_word, read_exact-append, read_array-append,
  read_u64-append, read_array,
}
use sol_svm_contracts.Mailbox.State.{buffer_io_error, MessageV1}
use sol_svm_contracts.Mailbox.Message.{
  message_v1_selector, caller_of, from_session_payload, caller_word, to_session_payload,
}

abbrev pub IsWord : ℕ → Type 0
IsWord n = n < 256 ^ 32

abbrev pub IsCaller : Option ℕ → Type 0
IsCaller none = Unit
IsCaller (some caller) = IsWord caller × (caller ≢ 0)

-- The fields fit their slots, and a destination caller is not the zero address.
pub record IsMessage (m : MessageV1) : Type 0 where
  pub identifier : IsWord m.message_path_identifier
  pub nonce : IsU64 m.nonce
  pub sender : IsWord m.sender
  pub recipient : IsWord m.recipient
  pub caller : IsCaller m.destination_caller
  pub body : IsU64 (length m.body)

caller_value : Option ℕ → ℕ
caller_value none = 0
caller_value (some caller) = caller

caller_word-to_be : (o : Option ℕ) → caller_word o ≡ to_be 32 (caller_value o)
unfolding caller_word caller_value to_be
caller_word-to_be none = refl
caller_word-to_be (some caller) = refl

caller_value-IsWord : (o : Option ℕ) → IsCaller o → IsWord (caller_value o)
unfolding caller_value
caller_value-IsWord none h = omega arith
caller_value-IsWord (some caller) h = h.0

read_caller :
    (o : Option ℕ) (rest : List ℕ)
    → IsCaller o
    → read_array buffer_io_error 32 (caller_word o ++ rest) ≡ ok (caller_value o, rest)
read_caller o rest h =
    rw (caller_word-to_be o)
      (read_array-append buffer_io_error 32 (caller_value o) rest (caller_value-IsWord o h))

caller_of-value : (o : Option ℕ) → IsCaller o → caller_of (caller_value o) ≡ o
unfolding caller_value
caller_of-value none h = refl
caller_of-value (some caller) h = ground (arith, h.1)

pub length-caller_word : (o : Option ℕ) → length (caller_word o) ≡ 32
unfolding caller_word
length-caller_word none = length-replicate 32 (zero)
length-caller_word (some caller) = length-to_be 32 caller

drop_word : (n : ℕ) (rest : List ℕ) → drop 32 (u64_word n ++ rest) ≡ rest
drop_word n rest = rw (← length-u64_word n) (drop-append_left (u64_word n) rest)

static_length : (m : MessageV1) → leb (4 + 32 * 7) (length (to_session_payload m)) ≡ true
unfolding to_session_payload
static_length m =
    simp (length-append, length-u64_word, length-to_be, length-caller_word)
      (le→leb _ _ (omega arith))

-- `from_session_payload` reads back every message that `to_session_payload` writes, if its fields
-- fit their slots and its destination caller, if it has one, is not the zero address.
pub from_session_payload-to :
    (m : MessageV1) → IsMessage m → from_session_payload (to_session_payload m) ≡ ok m
unfolding from_session_payload to_session_payload
from_session_payload-to m h = rw (static_length m) (
    rw (read_array-append buffer_io_error 4 message_v1_selector _ (omega arith)) (
      rw (read_array-append buffer_io_error 32 m.message_path_identifier _ h.identifier) (
        rw (read_u64-append buffer_io_error m.nonce _ h.nonce) (
          rw (read_array-append buffer_io_error 32 m.sender _ h.sender) (
            rw (read_array-append buffer_io_error 32 m.recipient _ h.recipient) (
              rw (read_caller m.destination_caller _ h.caller) (
                rw (drop_word 192) (
                  rw (read_u64-append buffer_io_error (length m.body) _ h.body) (
                    rw (read_exact-append buffer_io_error (length m.body) m.body _ refl)
                      (rw (caller_of-value m.destination_caller h.caller)))))))))))
