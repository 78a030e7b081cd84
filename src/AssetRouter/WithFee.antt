-- ===== src/AssetRouter/WithFee.antt =====
-- Minting with a fee that the recipient has approved: programs/asset_router/src/instructions/
-- mint_with_fee.rs, utils/ed25519.rs and utils/fee.rs.
mod Witnesses
pub mod Splitting
pub mod Approvals
use sol_svm_contracts.Base.{
  ℕ, zero, suc, ◌+◌, ◌*◌, ◌-◌, not, ◌&&◌, Bool, true, false, List, [], ◌∷◌, Option, none, some, ltb,
  leb, ◌==◌, length, take, drop, get_elem?, Outcome, ok, err, fault, panicked, constraint_address,
  constraint_token, account_not_initialized, library_error, ◌>>=◌, ◌>>◌, require, constrain, load,
  vacant, at, if◌then◌else◌,
}
use sol_svm_contracts.Base.Bytes.{to_be, read_exact, read_array}
use sol_svm_contracts.Mailbox.State.{Notary}
use sol_svm_contracts.AssetRouter.State.{
  Error, unauthorized, paused, mint_payload_hash_mismatch, invalid_chain_id, invalid_token_address,
  recipient_mismatch, fee_gte_amount, missing_ed25519_instruction, invalid_ed25519_instruction,
  invalid_public_key, invalid_message, invalid_signature, buffer_io_error, Config, TokenConfig,
  claimer, has_role, TokenAccount, State, put, World, Runtime,
}
use sol_svm_contracts.AssetRouter.Payloads.{
  DepositV1, from_session_payload, FeeAction, validate_fee,
}
use sol_svm_contracts.AssetRouter.Minting.{MintAccounts, check_bascule, execute_mint}

-- A little-endian number
abbrev pub from_le : List ℕ → ℕ
from_le [] = 0
from_le (b ∷ bs) = b + 256 * from_le bs

-- `FeeAction::from_bytes`, of a payload of `FEE_PAYLOAD_LEN` bytes or another length
unfoldable pub from_bytes : List ℕ → Outcome Error FeeAction
from_bytes bytes = do
  (action, r₁) ← read_array buffer_io_error 4 bytes
  (chain_id, r₂) ← read_array buffer_io_error 16 r₁
  (verifying_contract, r₃) ← read_array buffer_io_error 16 r₂
  (fee, r₄) ← read_exact buffer_io_error 8 r₃
  (expiry, r₅) ← read_exact buffer_io_error 8 r₄
  ok (record {
    action = action;
    chain_id = chain_id;
    verifying_contract = verifying_contract;
    fee = from_le fee;
    expiry = from_le expiry;
  })

-- An instruction of the transaction: its program and its data.
pub record TransactionInstruction : Type 0 where
  pub program_id : ℕ
  pub instruction_data : List ℕ

-- The instructions sysvar: the instructions of the transaction, and the index of this one.
pub record InstructionSysvar : Type 0 where
  pub current_index : ℕ
  pub instructions : List TransactionInstruction

-- `load_instruction_at_checked`
abbrev pub load_instruction : (index : ℕ) → InstructionSysvar → Outcome Error TransactionInstruction
load_instruction index sysvar = elim (get_elem? sysvar.instructions index) [
  | none ↦ fault library_error
  | some i ↦ ok i
]

-- `&bytes[start..start + size]`
abbrev pub slice : (start size : ℕ) → List ℕ → Outcome Error (List ℕ)
slice start size bytes =
    if leb (start + size) (length bytes) then ok (take size (drop start bytes)) else fault panicked

-- The fields of two bytes of `Ed25519SignatureOffsets`, from byte `start`
abbrev pub u16_at : (start : ℕ) → List ℕ → ℕ
u16_at start bytes = from_le (take 2 (drop start bytes))

pub record Ed25519SignatureOffsets : Type 0 where
  pub signature_offset : ℕ
  pub signature_instruction_index : ℕ
  pub public_key_offset : ℕ
  pub public_key_instruction_index : ℕ
  pub message_data_offset : ℕ
  pub message_data_size : ℕ
  pub message_instruction_index : ℕ

abbrev pub to_offsets : List ℕ → Ed25519SignatureOffsets
to_offsets bytes = record {
  signature_offset = u16_at 0 bytes;
  signature_instruction_index = u16_at 2 bytes;
  public_key_offset = u16_at 4 bytes;
  public_key_instruction_index = u16_at 6 bytes;
  message_data_offset = u16_at 8 bytes;
  message_data_size = u16_at 10 bytes;
  message_instruction_index = u16_at 12 bytes;
}

unfoldable pub same_bytes : (xs ys : List ℕ) → Bool
same_bytes [] [] = true
same_bytes [] (y ∷ ys) = false
same_bytes (x ∷ xs) [] = false
same_bytes (x ∷ xs) (y ∷ ys) = x == y && same_bytes xs ys

-- The accounts of `mint_with_fee`, those of a mint among them.
pub record FeeAccounts : Type 0 where
  pub payer : ℕ
  pub treasury_token_account : ℕ
  pub minting : MintAccounts

-- What the handler reads of them.
pub record FeeChecked : Type 0 where
  pub config : Config
  pub token_config : TokenConfig
  pub recipient : TokenAccount

-- `verify_ed25519_instruction` of the data of the instruction before this one; `u16::MAX` is the
-- instruction itself.
unfoldable pub verify_data :
    (instruction_data expected_public_key message signature : List ℕ) → Outcome Error (Unit {0})
verify_data instruction_data expected_public_key message signature = do
  require (not (ltb (length instruction_data) 2)) invalid_ed25519_instruction
  num_signatures ← at instruction_data 0
  require (num_signatures == 1) invalid_ed25519_instruction
  bytes ← slice 2 14 instruction_data
  let offsets = to_offsets bytes
  require (offsets.public_key_instruction_index == 0xffff) invalid_ed25519_instruction
  public_key ← slice offsets.public_key_offset 32 instruction_data
  require (same_bytes public_key expected_public_key) invalid_public_key
  require (offsets.message_instruction_index == 0xffff) invalid_ed25519_instruction
  signed ← slice offsets.message_data_offset offsets.message_data_size instruction_data
  require (same_bytes signed message) invalid_message
  require (offsets.signature_instruction_index == 0xffff) invalid_ed25519_instruction
  given ← slice offsets.signature_offset 64 instruction_data
  require (same_bytes given signature) invalid_signature

module _ {Tokens : Type 0} (runtime : Runtime Tokens) where
  unfoldable pub verify_ed25519_instruction :
      InstructionSysvar
      → (expected_public_key message signature : List ℕ) → Outcome Error (Unit {0})
  verify_ed25519_instruction sysvar expected_public_key message signature = do
    require (not (sysvar.current_index == 0)) missing_ed25519_instruction
    instruction ← load_instruction (sysvar.current_index - 1) sysvar
    require (instruction.program_id == runtime.ed25519_program) invalid_ed25519_instruction
    verify_data instruction.instruction_data expected_public_key message signature

  -- The constraints of `MintWithFee`.
  unfoldable pub fee_checks :
      Notary → (mint_payload_hash : ℕ) → FeeAccounts → State → Tokens → Outcome Error FeeChecked
  fee_checks notary mint_payload_hash a st tokens = do
    config ← load st.config
    roles ← load (st.account_roles a.payer)
    token_config ← load (st.token_configs a.minting.mint)
    epoch ← load (notary.validated_payload config.consortium mint_payload_hash)
    recipient ← load (runtime.token_account a.minting.recipient tokens)
    constrain (runtime.is_mint a.minting.mint tokens) account_not_initialized
    treasury ← load (runtime.token_account a.treasury_token_account tokens)
    vacant (st.deposit_payloads_spent mint_payload_hash)
    require (not config.paused) paused
    require (has_role claimer roles) unauthorized
    constrain
        (recipient.mint == a.minting.mint && recipient.token_program == a.minting.token_program)
        constraint_token
    constrain (a.minting.mint == config.native_mint) constraint_address
    constrain
        (treasury.mint == a.minting.mint
          && (treasury.owner == config.treasury
              && treasury.token_program == a.minting.token_program))
        constraint_token
    ok (record { config = config; token_config = token_config; recipient = recipient })

  -- The posted payload may lie in any account.
  unfoldable pub mint_with_fee :
      Notary
      → InstructionSysvar
      → (session_payload : Option (List ℕ)) (mint_payload_hash : ℕ)
      → (fee_payload fee_signature : List ℕ) → FeeAccounts
      → World Tokens
      → Outcome Error (World Tokens)
  mint_with_fee notary sysvar session_payload mint_payload_hash fee_payload fee_signature a w = do
    accounts ← fee_checks notary mint_payload_hash a w.router w.tokens
    payload ← load session_payload
    require (runtime.sha256 payload == mint_payload_hash) mint_payload_hash_mismatch
    p ← from_session_payload payload
    require (p.destination_chain_id == runtime.chain_id) invalid_chain_id
    require (p.token_address == accounts.config.native_mint) invalid_token_address
    require (p.recipient == a.minting.recipient) recipient_mismatch
    checked ← check_bascule runtime accounts.config.bascule a.minting p w
    verify_ed25519_instruction sysvar (to_be 32 accounts.recipient.owner) fee_payload fee_signature
    fee_action ← from_bytes fee_payload
    fee ←
        validate_fee runtime.chain_prefix runtime.program_prefix (runtime.now w.tokens) fee_action
          accounts.token_config.max_mint_commission
    require (ltb fee p.amount) fee_gte_amount
    taken ←
        execute_mint runtime (record a.minting { recipient = a.treasury_token_account }) fee
          checked.tokens
    tokens ← execute_mint runtime a.minting (p.amount - fee) taken
    ok (record checked {
      router = record checked.router {
        deposit_payloads_spent =
            put mint_payload_hash (some tt) checked.router.deposit_payloads_spent;
      };
      tokens = tokens;
    })
