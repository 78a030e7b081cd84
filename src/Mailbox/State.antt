-- ===== src/Mailbox/State.antt =====
-- The accounts and errors of the mailbox program: programs/mailbox/src/state.rs, errors.rs and
-- constants.rs. Accounts at derived addresses are maps from the seeds of the address.
use sol_svm_contracts.Base.{
  ℕ, ◌||◌, Bool, true, false, List, [], ◌∷◌, ◌++◌, Option, none, ◌==◌, if◌then◌else◌,
}

pub data Error : Type 0 where
  unauthorized account_role_already_granted paused not_paused invalid_payload_hash : Error
  invalid_payload_length payload_too_large invalid_payload_selector invalid_message_path : Error
  payload_not_found payload_already_handled invalid_payload_state insufficient_funds : Error
  invalid_fee_configuration invalid_admin invalid_pauser pauser_already_exists : Error
  pauser_not_found invalid_nonce buffer_io_error treasury_mismatch : Error
  public_send_with_fee_disabled invalid_destination_caller : Error

-- `FEE_ADJUSTMET_BASE`: a fee override counts ten-thousandths.
abbrev pub fee_adjustment_base : ℕ
fee_adjustment_base = 10000

pub record MessageV1 : Type 0 where
  pub message_path_identifier : ℕ
  pub nonce : ℕ
  pub sender : ℕ
  pub recipient : ℕ
  pub destination_caller : Option ℕ
  pub body : List ℕ

pub record Config : Type 0 where
  pub admin : ℕ
  pub pending_admin : ℕ
  pub treasury : ℕ
  pub paused : Bool
  pub consortium : ℕ
  pub global_nonce : ℕ
  pub default_max_payload_size : ℕ
  pub fee_per_byte : ℕ

pub record OutboundMessagePath : Type 0 where
  pub identifier : ℕ
  pub destination_chain_id : ℕ

pub record InboundMessagePath : Type 0 where
  pub identifier : ℕ
  pub source_mailbox_address : ℕ
  pub source_chain_id : ℕ

-- `MessageState`; `Unknown` is that of an account that is not there.
pub data MessageState : Type 0 where
  unknown delivered handled : MessageState

pub record MessageV1Info : Type 0 where
  pub status : MessageState
  pub message : MessageV1

-- Without the bump, which is part of the derived address.
pub record SenderConfig : Type 0 where
  pub max_payload_size : ℕ
  pub fee_disabled : Bool

-- `AccountRole::None` is the dummy case.
pub data AccountRole : Type 0 where
  pauser no_role : AccountRole

abbrev pub same_role : AccountRole → AccountRole → Bool
same_role pauser pauser = true
same_role pauser no_role = false
same_role no_role pauser = false
same_role no_role no_role = true

-- `AccountRoles::has_role` and `AccountRoles::add_role`
abbrev pub has_role : AccountRole → List AccountRole → Bool
has_role role [] = false
has_role role (r ∷ rs) = same_role r role || has_role role rs

abbrev pub add_role : AccountRole → List AccountRole → List AccountRole
add_role role rs = rs ++ (role ∷ [])

-- Every account of the program: the paths by the chain at the other end, the messages by payload
-- hash, the messages that were sent by nonce, the sender configs by program, the roles by account.
-- `world` is what the program's calls into other programs act on.
pub record State (World : Type 0) : Type 0 where
  pub config : Option Config
  pub outbound_message_paths : ℕ → Option OutboundMessagePath
  pub inbound_message_paths : ℕ → Option InboundMessagePath
  pub messages : ℕ → Option MessageV1Info
  pub outbound_messages : ℕ → Option (List ℕ)
  pub sender_configs : ℕ → Option SenderConfig
  pub account_roles : ℕ → Option (List AccountRole)
  pub world : World

abbrev pub put {ℓ} : {A : Type ℓ} → ℕ → Option A → (ℕ → Option A) → ℕ → Option A
put k v m j = if j == k then v else m j

-- An account that is passed on in a call.
pub record AccountMeta : Type 0 where
  pub key : ℕ
  pub is_signer : Bool
  pub is_writable : Bool

-- What the program calls: the hashes of the runtime, the test whether a key lies on the curve, the
-- system program's transfer of lamports, the address of a message's account, and the recipient of a
-- message (`gmp_receive`), which returns the program that set the return data, and the data. `none`
-- is a call that fails.
pub record Runtime (World : Type 0) : Type 0 where
  pub sha256 : List ℕ → ℕ
  pub keccak256 : List ℕ → ℕ
  pub bytes_are_curve_point : ℕ → Bool
  pub transfer : (from to amount : ℕ) → World → Option World
  pub message_address : (payload_hash : ℕ) → ℕ
  pub invoke :
      (program : ℕ) (accounts : List AccountMeta) (instruction_data : List ℕ)
      → World
      → Option (World × Option (ℕ × List ℕ))

-- The accounts of the program that `Config.consortium` names, as the mailbox reads them: the posted
-- payload of a payer, and the latest epoch in which a payload was validated.
pub record Notary : Type 0 where
  pub session_payload : (program payer payload_hash : ℕ) → Option (List ℕ)
  pub validated_payload : (program payload_hash : ℕ) → Option ℕ

-- The account that signs a message as its sender.
pub record SenderAuthority : Type 0 where
  pub key : ℕ
  pub owner : ℕ
  pub data_is_empty : Bool

pub record SendResult : Type 0 where
  pub nonce : ℕ
  pub payload_hash : ℕ

-- Before `initialize`.
abbrev pub no_accounts : {World : Type 0} → World → State World
no_accounts world = record {
  config = none;
  outbound_message_paths = λ _. none;
  inbound_message_paths = λ _. none;
  messages = λ _. none;
  outbound_messages = λ _. none;
  sender_configs = λ _. none;
  account_roles = λ _. none;
  world = world;
}
