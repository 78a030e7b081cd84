-- ===== src/BasculeGmp/State.antt =====
-- The accounts, errors and instructions of the bascule for mints: programs/bascule_gmp/src/state.rs,
-- errors.rs and lib.rs.
use sol_svm_contracts.Base.{
  ℕ, ◌||◌, Bool, false, List, [], ◌∷◌, ◌++◌, Option, none, ◌==◌, if◌then◌else◌,
}
use sol_svm_contracts.Base.Bytes.{to_be, u64_word}

pub data Error : Type 0 where
  unauthorized account_role_already_granted paused already_minted : Error
  must_be_reported_when_above_threshold mint_payload_not_found invalid_proof invalid_chain_id :
      Error

pub record MintMessage : Type 0 where
  pub nonce : ℕ
  pub chain_id : ℕ
  pub token_address : ℕ
  pub recipient : ℕ
  pub amount : ℕ

-- What `MintMessage::mint_id` hashes.
unfoldable pub mint_id_data : MintMessage → List ℕ
mint_id_data m =
    u64_word m.nonce
    ++ (to_be 32 m.chain_id
        ++ (to_be 32 m.recipient ++ (to_be 32 m.token_address ++ u64_word m.amount)))

pub record MintProof : Type 0 where
  pub signature : ℕ
  pub recovery_id : ℕ

pub record Config : Type 0 where
  pub admin : ℕ
  pub pending_admin : ℕ
  pub paused : Bool
  pub validate_threshold : ℕ
  pub trusted_signer : ℕ

pub data MintPayloadState : Type 0 where
  unreported reported minted : MintPayloadState

pub record MintPayload : Type 0 where
  pub state : MintPayloadState
  pub amount : ℕ

pub data AccountRole : Type 0 where
  pauser mint_reporter mint_validator validation_guardian : AccountRole

-- The tag of the role, by which two roles are compared.
abbrev pub tag : AccountRole → ℕ
tag pauser = 0
tag mint_reporter = 1
tag mint_validator = 2
tag validation_guardian = 3

-- `AccountRoles::has_role` and `AccountRoles::add_role`
abbrev pub has_role : AccountRole → List AccountRole → Bool
has_role role [] = false
has_role role (r ∷ rs) = tag r == tag role || has_role role rs

abbrev pub add_role : AccountRole → List AccountRole → List AccountRole
add_role role rs = if has_role role rs then rs else rs ++ (role ∷ [])

-- The roles by account, the mint payloads by mint id.
pub record State : Type 0 where
  pub config : Option Config
  pub account_roles : ℕ → Option (List AccountRole)
  pub mint_payloads : ℕ → Option MintPayload

-- Before `initialize`.
abbrev pub no_accounts : State
no_accounts = record { config = none; account_roles = λ _. none; mint_payloads = λ _. none }

abbrev pub put {ℓ} : {A : Type ℓ} → ℕ → Option A → (ℕ → Option A) → ℕ → Option A
put k v m j = if j == k then v else m j

-- The functions of the runtime that the program calls, and the constant `CHAIN_ID` of the build.
-- `secp256k1_recover hash recovery_id signature` is the public key, if the recovery succeeds.
pub record Runtime : Type 0 where
  pub keccak256 : List ℕ → ℕ
  pub secp256k1_recover : ℕ → ℕ → ℕ → Option ℕ
  pub expected_chain_id : ℕ

-- `MintMessage::mint_id`
unfoldable pub mint_id : Runtime → MintMessage → ℕ
mint_id runtime m = runtime.keccak256 (mint_id_data m)

pub data Instruction : Type 0 where
  initialize :
      (upgrade_authority : Option ℕ) (admin validate_threshold trusted_signer : ℕ) → Instruction
  grant_account_role : (account : ℕ) (account_role : AccountRole) → Instruction
  revoke_account_roles : (account : ℕ) → Instruction
  pause unpause : Instruction
  transfer_ownership : (new_admin : ℕ) → Instruction
  accept_ownership : Instruction
  set_trusted_signer : (trusted_signer : ℕ) → Instruction
  report_mint : (mint_message : MintMessage) (proof : MintProof) → Instruction
  validate_mint : (mint_message : MintMessage) → Instruction
  update_validate_threshold : (new_threshold : ℕ) → Instruction
