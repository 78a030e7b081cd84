-- ===== src/AssetRouter/Payloads.antt =====
-- The deposit payload of the consortium, and the user's approval of a fee:
-- programs/asset_router/src/utils/consortium_payloads.rs and fee.rs.
use sol_svm_contracts.Base.{
  ℕ, List, not, ltb, ◌==◌, length, drop, Outcome, ok, ◌>>=◌, ◌>>◌, require,
}
use Prim.Native.Nat.{min}
use mathlib.Core.List.{reverse}
use sol_svm_contracts.Base.Bytes.{from_be, read_exact, read_array, read_u64}
use sol_svm_contracts.AssetRouter.State.{
  Error, invalid_payload_length, invalid_payload_selector, buffer_io_error, invalid_fee_action,
  invalid_chain_id, invalid_verifying_contract, fee_approval_expired,
}

-- `DEPOSIT_V1_SELECTOR`, as a number, and `DEPOSIT_V1_PAYLOAD_LEN`
abbrev pub deposit_v1_selector : ℕ
deposit_v1_selector = 0xce25e7c2

abbrev pub deposit_v1_payload_len : ℕ
deposit_v1_payload_len = 196

pub record DepositV1 : Type 0 where
  pub destination_chain_id : ℕ
  pub recipient : ℕ
  pub amount : ℕ
  pub txid : ℕ
  pub vout : ℕ
  pub token_address : ℕ

-- `DepositV1::from_session_payload`
unfoldable pub from_session_payload : List ℕ → Outcome Error DepositV1
from_session_payload payload = do
  require (length payload == deposit_v1_payload_len) invalid_payload_length
  (selector, r₁) ← read_array buffer_io_error 4 payload
  require (selector == deposit_v1_selector) invalid_payload_selector
  (destination_chain_id, r₂) ← read_array buffer_io_error 32 r₁
  (recipient, r₃) ← read_array buffer_io_error 32 r₂
  (amount, r₄) ← read_u64 buffer_io_error r₃
  (txid, r₅) ← read_exact buffer_io_error 32 r₄
  (vout_bytes, r₆) ← read_exact buffer_io_error 32 r₅
  (token_address, r₇) ← read_array buffer_io_error 32 r₆
  ok (record {
    destination_chain_id = destination_chain_id;
    recipient = recipient;
    amount = amount;
    txid = from_be (reverse txid);
    vout = from_be (drop 28 vout_bytes);
    token_address = token_address;
  })

-- `FEE_APPROVAL_ACTION`, as a number
abbrev pub fee_approval_action : ℕ
fee_approval_action = 0x04acbbb2

pub record FeeAction : Type 0 where
  pub action : ℕ
  pub chain_id : ℕ
  pub verifying_contract : ℕ
  pub fee : ℕ
  pub expiry : ℕ

-- `FeeAction::validate_fee`, with the first 16 bytes of the chain's id and of the program's, and the
-- time of the clock
unfoldable pub validate_fee :
    (chain_prefix program_prefix now : ℕ) → FeeAction → (max_fee : ℕ) → Outcome Error ℕ
validate_fee chain_prefix program_prefix now f max_fee = do
  require (f.action == fee_approval_action) invalid_fee_action
  require (f.chain_id == chain_prefix) invalid_chain_id
  require (f.verifying_contract == program_prefix) invalid_verifying_contract
  require (not (ltb f.expiry now)) fee_approval_expired
  ok (min f.fee max_fee)
