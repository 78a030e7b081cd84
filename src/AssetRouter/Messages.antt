-- ===== src/AssetRouter/Messages.antt =====
-- The bodies of the router's messages and the scripts of a redemption:
-- programs/asset_router/src/utils/gmp_messages.rs and bitcoin_utils.rs.
pub mod Layout
pub mod Requests
use sol_svm_contracts.Base.{
  ℕ, zero, suc, ◌-◌, ◌&&◌, ◌||◌, List, [], ◌∷◌, ◌++◌, ◌==◌, if◌then◌else◌, length, take, drop,
  replicate, Outcome, ok, err, ◌>>=◌, ◌>>◌, require, at,
}
use sol_svm_contracts.Base.Bytes.{to_be, u64_word, read_array, read_u64}
use sol_svm_contracts.AssetRouter.State.{
  Error, invalid_message_length, invalid_message_selector, buffer_io_error,
  unsupported_redeem_address,
}

-- The selectors, as numbers
abbrev pub deposit_selector : ℕ
deposit_selector = 0xccb41215

abbrev pub mint_selector : ℕ
mint_selector = 0x155b6b13

abbrev pub redeem_selector : ℕ
redeem_selector = 0xaa3db85f

abbrev pub redeem_for_btc_selector : ℕ
redeem_for_btc_selector = 0x4e3e5047

abbrev pub mint_message_length : ℕ
mint_message_length = 100

pub record Deposit : Type 0 where
  pub destination_chain_id : ℕ
  pub staking_token_address : ℕ
  pub sender : ℕ
  pub recipient : ℕ
  pub amount : ℕ

pub record Mint : Type 0 where
  pub token_address : ℕ
  pub recipient : ℕ
  pub amount : ℕ

pub record Redeem : Type 0 where
  pub destination_chain_id : ℕ
  pub from_token_address : ℕ
  pub sender : ℕ
  pub recipient : List ℕ
  pub amount : ℕ

pub record RedeemForBtc : Type 0 where
  pub sender : ℕ
  pub script_pubkey : List ℕ
  pub amount : ℕ

-- `Deposit::to_gmp_body`
unfoldable pub deposit_body : Deposit → List ℕ
deposit_body d =
    to_be 4 deposit_selector
    ++ (to_be 32 d.destination_chain_id
        ++ (to_be 32 d.staking_token_address
            ++ (to_be 32 d.sender ++ (to_be 32 d.recipient ++ u64_word d.amount))))

-- `Mint::from_message`
unfoldable pub from_message : List ℕ → Outcome Error Mint
from_message message = do
  require (length message == mint_message_length) invalid_message_length
  (selector, r₁) ← read_array buffer_io_error 4 message
  require (selector == mint_selector) invalid_message_selector
  (token_address, r₂) ← read_array buffer_io_error 32 r₁
  (recipient, r₃) ← read_array buffer_io_error 32 r₂
  (amount, r₄) ← read_u64 buffer_io_error r₃
  ok (record { token_address = token_address; recipient = recipient; amount = amount })

-- The loop over chunks of 32 bytes, of which the last is filled up with zeros. A list has at most as
-- many chunks as bytes, which is the fuel.
unfoldable pub padded_from : (fuel : ℕ) → List ℕ → List ℕ
padded_from zero bytes = []
padded_from (suc fuel) [] = []
padded_from (suc fuel) (b ∷ bs) =
    let rest = padded_from fuel (drop 31 bs) in
    let chunk = take 32 (b ∷ bs) in chunk ++ (replicate (32 - length chunk) 0 ++ rest)

unfoldable pub padded : List ℕ → List ℕ
padded bytes = padded_from (length bytes) bytes

-- `Redeem::to_gmp_body`
unfoldable pub redeem_body : Redeem → List ℕ
redeem_body r =
    to_be 4 redeem_selector
    ++ (to_be 32 r.destination_chain_id
        ++ (to_be 32 r.from_token_address
            ++ (to_be 32 r.sender
                ++ (u64_word 160
                    ++ (u64_word r.amount
                        ++ (u64_word (length r.recipient) ++ padded r.recipient))))))

-- `RedeemForBtc::to_gmp_body`
unfoldable pub redeem_for_btc_body : RedeemForBtc → List ℕ
redeem_for_btc_body r =
    to_be 4 redeem_for_btc_selector
    ++ (to_be 32 r.sender
        ++ (u64_word 96
            ++ (u64_word r.amount
                ++ (u64_word (length r.script_pubkey) ++ padded r.script_pubkey))))

pub data OutputType : Type 0 where
  p2wpkh p2tr p2wsh : OutputType

-- `get_output_type`
unfoldable pub get_output_type : List ℕ → Outcome Error OutputType
get_output_type script = do
  let len = length script
  require (len == 22 || len == 34) unsupported_redeem_address
  first ← at script 0
  second ← at script 1
  let of_34 =
      if first == 0x51 && second == 0x20
      then ok p2tr
      else (if first == 0x00 && second == 0x20 then ok p2wsh else err unsupported_redeem_address)
  let of_22 = if first == 0x00 && second == 0x14 then ok p2wpkh else err unsupported_redeem_address
  if len == 22 then of_22 else of_34
