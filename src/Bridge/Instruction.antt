-- ===== src/Bridge/Instruction.antt =====
-- The instructions of the bridge, programs/bridge/src/lib.rs, with their arguments and, where a
-- caller has a choice, the accounts that it passes.
use sol_svm_contracts.Base.{ℕ, Bool, List, Option}
use sol_svm_contracts.Mailbox.State.{SenderAuthority}
use sol_svm_contracts.Bridge.State.{AccountRole}

-- Both `fee_payer` and `sender_authority` sign. `path` is the destination chain of the mailbox's
-- outbound path that is passed; `treasury` and `with_sender_config` are what the mailbox finds for
-- its optional accounts.
pub record Deposit : Type 0 where
  pub fee_payer : ℕ
  pub sender_authority : SenderAuthority
  pub sender_token_account : ℕ
  pub token_program : ℕ
  pub token_mint : ℕ
  pub path : ℕ
  pub treasury : Option ℕ
  pub with_sender_config : Bool
  pub sender : ℕ
  pub recipient : ℕ
  pub caller : Option ℕ
  pub amount : ℕ
  pub message : Option (List ℕ)

-- The accounts of `gmp_receive`: `path` is the source chain of the mailbox's inbound path that is
-- passed, `message_is_signer` whether the message's account signs.
pub record Receive : Type 0 where
  pub message_is_signer : Bool
  pub token_program : ℕ
  pub recipient : ℕ
  pub token_mint : ℕ
  pub mint_authority : ℕ
  pub path : ℕ

pub data Instruction (LimitConfig : Type 0) : Type 0 where
  initialize :
      (upgrade_authority : Option ℕ) (token_mint admin mailbox : ℕ) → Instruction LimitConfig
  grant_account_role : (account : ℕ) (account_role : AccountRole) → Instruction LimitConfig
  revoke_account_roles : (account : ℕ) → Instruction LimitConfig
  deposit : Deposit → Instruction LimitConfig
  gmp_receive : (payload_hash : ℕ) → Receive → Instruction LimitConfig
  transfer_ownership : (new_admin : ℕ) → Instruction LimitConfig
  accept_ownership pause unpause : Instruction LimitConfig
  set_sender_config :
      (sender_program fee_discount : ℕ) (whitelisted : Bool) → Instruction LimitConfig
  unset_sender_config : (sender_program : ℕ) → Instruction LimitConfig
  set_local_token_config : (mint : ℕ) → Instruction LimitConfig
  unset_local_token_config : (mint : ℕ) → Instruction LimitConfig
  set_remote_token_config : (mint chain_id token direction : ℕ) → Instruction LimitConfig
  unset_remote_token_config : (mint chain_id : ℕ) → Instruction LimitConfig
  set_remote_bridge_config : (chain_id bridge : ℕ) → Instruction LimitConfig
  unset_remote_bridge_config : (chain_id : ℕ) → Instruction LimitConfig
  set_rate_limit : (mint chain_id : ℕ) (inbound_rate_limit : LimitConfig) → Instruction LimitConfig
