-- ===== src/Bridge/Messages.antt =====
-- The body of a bridge message: programs/bridge/src/utils/gmp_messages.rs.
pub mod RoundTrip
pub mod Errors
use sol_svm_contracts.Base.{
  ℕ, ◌-◌, ◌≡◌, ◌&&◌, ◌||◌, not, List, [], ◌∷◌, ◌++◌, Option, none, some, leb, ltb, ◌==◌, Bool,
  if◌then◌else◌, length, take, drop, replicate, Outcome, ok, err, ◌>>=◌, ◌>>◌, require,
}
use Prim.Native.Nat.{min}
use sol_svm_contracts.Base.Bytes.{to_be, u64_word, read_array, read_u64}
use sol_svm_contracts.Bridge.State.{
  Error, invalid_message_length, invalid_message_version, buffer_io_error, optional_message_size,
}

abbrev pub msg_version_min : ℕ
msg_version_min = 1

abbrev pub msg_version : ℕ
msg_version = 2

abbrev pub mint_message_min_length : ℕ
mint_message_min_length = 129

pub record BridgeToken : Type 0 where
  pub destination_token_address : ℕ
  pub sender : ℕ
  pub recipient : ℕ
  pub amount : ℕ
  pub optional_message : Option (List ℕ)

abbrev pub version_of : Option (List ℕ) → ℕ
version_of none = msg_version_min
version_of (some message) = msg_version

abbrev pub or_nothing : Option (List ℕ) → List ℕ
or_nothing none = []
or_nothing (some message) = message

-- `BridgeToken::to_gmp_body`
unfoldable pub to_gmp_body : BridgeToken → List ℕ
to_gmp_body b =
    to_be 1 (version_of b.optional_message)
    ++ (to_be 32 b.destination_token_address
        ++ (to_be 32 b.sender
            ++ (to_be 32 b.recipient ++ (u64_word b.amount ++ or_nothing b.optional_message))))

pub record Mint : Type 0 where
  pub token_address : ℕ
  pub sender : ℕ
  pub recipient : ℕ
  pub amount : ℕ
  pub message : Option (List ℕ)

-- What stands behind the fixed part, filled up with zeros and cut off at the size of the optional
-- message.
unfoldable pub trailing_message : (message : List ℕ) → Option (List ℕ)
trailing_message message =
    let remaining = min (length message - mint_message_min_length) optional_message_size in
    let bytes = take remaining (drop mint_message_min_length message) in
    if ltb mint_message_min_length (length message)
    then some (bytes ++ replicate (optional_message_size - remaining) 0)
    else none

abbrev pub is_wrong_version : (version length : ℕ) → Bool
is_wrong_version version len =
    ltb version msg_version_min
    || (ltb msg_version version
        || (version == msg_version_min && not (len == mint_message_min_length)))

-- `Mint::from_message`
unfoldable pub from_message : List ℕ → Outcome Error Mint
from_message message = do
  require (leb mint_message_min_length (length message)) invalid_message_length
  (version, r₁) ← read_array buffer_io_error 1 message
  require (not (is_wrong_version version (length message))) invalid_message_version
  (token_address, r₂) ← read_array buffer_io_error 32 r₁
  (sender, r₃) ← read_array buffer_io_error 32 r₂
  (recipient, r₄) ← read_array buffer_io_error 32 r₃
  (amount, r₅) ← read_u64 buffer_io_error r₄
  ok (record {
    token_address = token_address;
    sender = sender;
    recipient = recipient;
    amount = amount;
    message = trailing_message message;
  })

-- What the recipient of a message returns.
pub record InboundResponse : Type 0 where
  pub amount : ℕ
  pub message : Option (List ℕ)
