-- ===== src/Mailbox/Message.antt =====
-- The ABI form of a message: programs/mailbox/src/utils/message_utils.rs.
pub mod RoundTrip
pub mod Size
use sol_svm_contracts.Base.{
  ℕ, ◌+◌, ◌-◌, ◌*◌, ◌/◌, ◌%◌, ◌≡◌, List, [], ◌∷◌, ◌++◌, Option, none, some, not, leb, ◌==◌,
  if◌then◌else◌, length, drop, replicate, Outcome, ok, err, ◌>>=◌, ◌>>◌, require,
}
use sol_svm_contracts.Base.Bytes.{to_be, u64_word, read_exact, read_array, read_u64}
use sol_svm_contracts.Mailbox.State.{
  Error, invalid_payload_length, invalid_payload_selector, buffer_io_error, MessageV1, Runtime,
}

-- `MESSAGE_V1_SELECTOR`, as a number
abbrev pub message_v1_selector : ℕ
message_v1_selector = 0xe288fb4a

unfoldable pub message_path_identifier :
    {World : Type 0} → Runtime World → (source_mailbox source_chain destination_chain : ℕ) → ℕ
message_path_identifier runtime source_mailbox source_chain destination_chain =
    runtime.keccak256
      (to_be 32 source_mailbox ++ (to_be 32 source_chain ++ to_be 32 destination_chain))

-- `MessageV1::size`
abbrev pub size : (body_length : ℕ) → ℕ
size body_length = 32 + 8 + 32 + 32 + 1 + 32 + 4 + body_length

-- `MessageV1::accountable_abi_bytes`
abbrev pub accountable_abi_bytes : (body_length : ℕ) → ℕ
accountable_abi_bytes body_length =
    4
    + 32
    + 32
    + 32
    + 32
    + 32
    + 32
    + 32
    + body_length / 32 * 32
    + (if body_length % 32 == 0 then 0 else 32)

-- An optional address in a slot, with zeros for none.
abbrev pub caller_of : ℕ → Option ℕ
caller_of word = if word == 0 then none else some word

-- `MessageV1::from_session_payload`. What follows the body is not looked at.
unfoldable pub from_session_payload : List ℕ → Outcome Error MessageV1
from_session_payload bytes = do
  require (leb (4 + 32 * 7) (length bytes)) invalid_payload_length
  (selector, r₁) ← read_array buffer_io_error 4 bytes
  require (selector == message_v1_selector) invalid_payload_selector
  (identifier, r₂) ← read_array buffer_io_error 32 r₁
  (nonce, r₃) ← read_u64 buffer_io_error r₂
  (sender, r₄) ← read_array buffer_io_error 32 r₃
  (recipient, r₅) ← read_array buffer_io_error 32 r₄
  (destination_caller, r₆) ← read_array buffer_io_error 32 r₅
  let r₇ = drop 32 r₆
  (body_length, r₈) ← read_u64 buffer_io_error r₇
  (body, r₉) ← read_exact buffer_io_error body_length r₈
  ok (record {
    message_path_identifier = identifier;
    nonce = nonce;
    sender = sender;
    recipient = recipient;
    destination_caller = caller_of destination_caller;
    body = body;
  })

unfoldable pub caller_word : Option ℕ → List ℕ
caller_word none = replicate 32 0
caller_word (some caller) = to_be 32 caller

-- `(32 - len % 32) % 32` zeros
unfoldable pub padding : ℕ → List ℕ
padding len = replicate ((32 - len % 32) % 32) 0

-- `MessageV1::to_session_payload`
unfoldable pub to_session_payload : MessageV1 → List ℕ
to_session_payload m =
    to_be 4 message_v1_selector
    ++ (to_be 32 m.message_path_identifier
        ++ (u64_word m.nonce
            ++ (to_be 32 m.sender
                ++ (to_be 32 m.recipient
                    ++ (caller_word m.destination_caller
                        ++ (u64_word 192
                            ++ (u64_word (length m.body)
                                ++ (m.body ++ padding (length m.body)))))))))
