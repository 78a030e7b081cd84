-- ===== src/Mailbox/Instruction.antt =====
-- The instructions of the mailbox program, programs/mailbox/src/lib.rs, with their arguments and,
-- where a caller has a choice, the accounts that it passes.
use sol_svm_contracts.Base.{ℕ, Bool, List, Option}
use sol_svm_contracts.Mailbox.State.{AccountRole, AccountMeta, SenderAuthority}

-- `path` is the destination chain of the outbound path that is passed.
pub record Send : Type 0 where
  pub authority : SenderAuthority
  pub path : ℕ
  pub treasury : Option ℕ
  pub with_sender_config : Bool
  pub message_body : List ℕ
  pub recipient : ℕ
  pub destination_caller : Option ℕ
  pub fee_override : ℕ

pub data Instruction : Type 0 where
  initialize :
      (upgrade_authority : Option ℕ)
      (admin consortium treasury default_max_payload_size fee_per_byte : ℕ)
      → Instruction
  grant_account_role : (account : ℕ) (account_role : AccountRole) → Instruction
  revoke_account_roles : (account : ℕ) → Instruction
  enable_inbound_message_path : (source_chain_id source_mailbox_address : ℕ) → Instruction
  enable_outbound_message_path : (destination_chain_id : ℕ) → Instruction
  disable_inbound_message_path : (source_chain_id : ℕ) → Instruction
  disable_outbound_message_path : (destination_chain_id : ℕ) → Instruction
  send_message : Send → Instruction
  deliver_message : (payload_hash path : ℕ) → Instruction
  handle_message :
      (payload_hash recipient_program : ℕ) (remaining_accounts : List AccountMeta) → Instruction
  transfer_ownership : (new_admin : ℕ) → Instruction
  accept_ownership : Instruction
  update_config : (default_max_payload_size fee_per_byte : Option ℕ) → Instruction
  set_treasury : (new_treasury : ℕ) → Instruction
  pause : Instruction
  unpause : Instruction
  set_sender_config : (sender_program max_payload_size : ℕ) (fee_disabled : Bool) → Instruction
  unset_sender_config : (sender_program : ℕ) → Instruction
