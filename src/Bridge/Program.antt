-- ===== src/Bridge/Program.antt =====
-- The instructions of the bridge and its call by the mailbox: programs/bridge/src/lib.rs.
pub mod Inversion
pub mod Deposits
pub mod Effects
pub mod Receipts
pub mod Discounts
pub mod Transfers
pub mod Acceptance
pub mod Arrivals
pub mod Handling
pub mod Trust
pub mod Runs
pub mod Reached
mod Witnesses
pub mod DepositWitnesses
mod ArrivalWitnesses
use sol_svm_contracts.Base.{
  ℕ, ◌-◌, ◌/◌, ◌%◌, not, ◌&&◌, ◌||◌, Bool, true, false, List, [], ◌∷◌, Option, none, some, ltb, leb,
  ◌==◌, if◌then◌else◌, drop, Outcome, ok, err, fault, panicked, constraint_address,
  constraint_seeds, constraint_signer, constraint_raw, constraint_token, account_not_initialized,
  cross_program_call_failed, library_error, ◌>>=◌, ◌>>◌, require, constrain, load, vacant,
}
use sol_svm_contracts.Base.Bytes.{from_be}
use sol_svm_contracts.Mailbox.State.{
  Error as MailboxError, fee_adjustment_base, State as MailboxState, Runtime as MailboxRuntime,
  AccountMeta, SendResult,
}
use sol_svm_contracts.Mailbox.Instruction.{Send}
use sol_svm_contracts.Mailbox.Message.{to_session_payload}
use sol_svm_contracts.Mailbox.Program.{sender_of, send_message, handle_message}
use sol_svm_contracts.Bridge.State.{
  Error, paused, not_whitelisted, outbound_direction_disabled, inbound_direction_disabled,
  zero_amount, invalid_payload_hash, invalid_token_address, recipient_mismatch, outbound_direction,
  inbound_direction, TokenAccount, State, RemoteTokenConfig, put, put₂, Surroundings, Runtime,
}
use sol_svm_contracts.Bridge.Messages.{
  BridgeToken, Mint, to_gmp_body, from_message, InboundResponse,
}
use sol_svm_contracts.Bridge.Instruction.{Deposit, Receive, Instruction}
use sol_svm_contracts.Bridge.Admin
use sol_svm_contracts.Bridge.Sending.{deposit}
use sol_svm_contracts.Bridge.Receiving.{gmp_receive}

module _ {Bucket LimitConfig Tokens : Type 0} (runtime : Runtime Bucket LimitConfig Tokens)
    (mailbox : MailboxRuntime (Surroundings Bucket Tokens)) where
  -- How the mailbox's call reaches `gmp_receive`: its data is the discriminator and the payload hash,
  -- and the first account is the message's. `r` has the other accounts, which the handler chose.
  abbrev pub message_signs : (payload_hash : ℕ) → List AccountMeta → Bool
  message_signs payload_hash [] = false
  message_signs payload_hash (a ∷ rest) =
      a.key == mailbox.message_address payload_hash && a.is_signer

  abbrev pub answered :
      Outcome Error (Surroundings Bucket Tokens × InboundResponse)
      → Option (Surroundings Bucket Tokens × Option (ℕ × List ℕ))
  answered (ok (w, response)) =
      some (w, some (runtime.bridge_id, runtime.serialized response.amount response.message))
  answered (err e) = none
  answered (fault x) = none

  unfoldable pub run_bridge :
      Receive
      → MailboxState (Surroundings Bucket Tokens)
      → List AccountMeta
      → (instruction_data : List ℕ) → Surroundings Bucket Tokens
      → Option (Surroundings Bucket Tokens × Option (ℕ × List ℕ))
  run_bridge r st accounts instruction_data w =
      let payload_hash = from_be (drop 8 instruction_data) in
      let r' : Receive = record r { message_is_signer = message_signs payload_hash accounts } in
      answered (gmp_receive runtime mailbox payload_hash r' st w)

  -- The runtime as the mailbox in the state `st` meets it: a call of the bridge runs the bridge.
  abbrev pub with_bridge :
      Receive
      → MailboxState (Surroundings Bucket Tokens)
      → MailboxRuntime (Surroundings Bucket Tokens)
  with_bridge r st = record mailbox {
    invoke = λ program accounts instruction_data w.
        if program == runtime.bridge_id
        then run_bridge r st accounts instruction_data w
        else mailbox.invoke program accounts instruction_data w;
  }

  -- The mailbox handles a message, and the bridge may be its recipient.
  unfoldable pub handle_with_bridge :
      (handler payload_hash recipient_program : ℕ) (remaining_accounts : List AccountMeta)
      → Receive
      → MailboxState (Surroundings Bucket Tokens)
      → Outcome MailboxError (MailboxState (Surroundings Bucket Tokens) × Option (List ℕ))
  handle_with_bridge handler payload_hash recipient_program remaining_accounts r st =
      handle_message (with_bridge r st) handler payload_hash recipient_program remaining_accounts st

  abbrev pub on_bridge :
      MailboxState (Surroundings Bucket Tokens)
      → Outcome Error (State Bucket)
      → Outcome Error (MailboxState (Surroundings Bucket Tokens))
  on_bridge st o = do bridge ← o; ok (record st { world = record st.world { bridge = bridge } })

  -- One instruction, signed by `payer`.
  unfoldable pub exec :
      (payer : ℕ)
      → Instruction LimitConfig
      → MailboxState (Surroundings Bucket Tokens)
      → Outcome Error (MailboxState (Surroundings Bucket Tokens))
  exec payer (Instruction.initialize u m a b) st =
      on_bridge st (Admin.initialize runtime u payer m a b st.world.tokens st.world.bridge)
  exec payer (Instruction.grant_account_role a r) st =
      on_bridge st (Admin.grant_account_role payer a r st.world.bridge)
  exec payer (Instruction.revoke_account_roles a) st =
      on_bridge st (Admin.revoke_account_roles payer a st.world.bridge)
  exec payer (Instruction.deposit d) st = deposit runtime mailbox d st >>= λ x. ok x.0
  exec payer (Instruction.gmp_receive h r) st =
      gmp_receive runtime mailbox h r st st.world >>= λ x. ok (record st { world = x.0 })
  exec payer (Instruction.transfer_ownership a) st =
      on_bridge st (Admin.transfer_ownership payer a st.world.bridge)
  exec payer Instruction.accept_ownership st =
      on_bridge st (Admin.accept_ownership payer st.world.bridge)
  exec payer Instruction.pause st = on_bridge st (Admin.pause payer st.world.bridge)
  exec payer Instruction.unpause st = on_bridge st (Admin.unpause payer st.world.bridge)
  exec payer (Instruction.set_sender_config p f w) st =
      on_bridge st (Admin.set_sender_config payer p f w st.world.bridge)
  exec payer (Instruction.unset_sender_config p) st =
      on_bridge st (Admin.unset_sender_config payer p st.world.bridge)
  exec payer (Instruction.set_local_token_config m) st =
      on_bridge st (Admin.set_local_token_config payer m st.world.bridge)
  exec payer (Instruction.unset_local_token_config m) st =
      on_bridge st (Admin.unset_local_token_config payer m st.world.bridge)
  exec payer (Instruction.set_remote_token_config m c t d) st =
      on_bridge st (Admin.set_remote_token_config runtime payer m c t d st.world.bridge)
  exec payer (Instruction.unset_remote_token_config m c) st =
      on_bridge st (Admin.unset_remote_token_config payer m c st.world.bridge)
  exec payer (Instruction.set_remote_bridge_config c b) st =
      on_bridge st (Admin.set_remote_bridge_config payer c b st.world.bridge)
  exec payer (Instruction.unset_remote_bridge_config c) st =
      on_bridge st (Admin.unset_remote_bridge_config payer c st.world.bridge)
  exec payer (Instruction.set_rate_limit m c l) st =
      on_bridge st (Admin.set_rate_limit runtime payer m c l st.world.tokens st.world.bridge)
