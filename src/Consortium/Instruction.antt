-- ===== src/Consortium/Instruction.antt =====
-- The instructions of the consortium program, programs/consortium/src/lib.rs, with their arguments.
use sol_svm_contracts.Base.{ℕ, List, Option}

pub data Instruction : Type 0 where
  initialize : (upgrade_authority : Option ℕ) (admin : ℕ) → Instruction
  create_session : (payload_hash : ℕ) → Instruction
  post_session_signatures : (payload_hash : ℕ) (signatures indices : List ℕ) → Instruction
  post_session_payload :
      (payload_hash : ℕ) (payload_chunk : List ℕ) (payload_length : ℕ) → Instruction
  finalize_session : (payload_hash : ℕ) → Instruction
  set_initial_valset : (payload : List ℕ) → Instruction
  set_initial_valset_from_session : (payload_hash : ℕ) → Instruction
  accept_ownership : Instruction
  transfer_ownership : (new_admin : ℕ) → Instruction
  update_valset : (payload_hash : ℕ) → Instruction
  close_session_for_epoch : (payload_hash epoch : ℕ) → Instruction
