-- ===== src/Mailbox/Program/Paths.antt =====
-- The inbound paths: every one leads from the mailbox and the chain that it names to this chain.
use sol_svm_contracts.Base.{ℕ, ◌≡◌, some, ok, arith, >>=-eq-ok}
use sol_svm_contracts.Mailbox.State.{InboundMessagePath, State, Runtime, Notary}
use sol_svm_contracts.Mailbox.Instruction.{Instruction}
use sol_svm_contracts.Mailbox.Message.{message_path_identifier}
use sol_svm_contracts.Mailbox.Admin
use sol_svm_contracts.Mailbox.Program.{exec, send_message, handle_message}
use sol_svm_contracts.Mailbox.Program.Inversion.{
  deliver_message_inv, handle_message_inv, send_message_inv,
}

module _ {World : Type 0} (runtime : Runtime World) (self self_chain_id : ℕ) where
  abbrev pub IsInbound : InboundMessagePath → Type 0
  IsInbound path =
      path.identifier
      ≡ message_path_identifier runtime path.source_mailbox_address path.source_chain_id
          self_chain_id

  -- The path is stored under its own source chain, and its identifier is that of its source.
  abbrev pub HasInboundPaths : State World → Type 0
  HasInboundPaths st =
      (k : ℕ) (path : InboundMessagePath)
      → st.inbound_message_paths k ≡ some path
      → (path.source_chain_id ≡ k) × IsInbound path

  exec-at :
      (notary : Notary) (payer : ℕ) (i : Instruction) (st st' : State World) (k : ℕ)
      (path : InboundMessagePath)
      → (st.inbound_message_paths k ≡ some path → (path.source_chain_id ≡ k) × IsInbound path)
      → exec runtime self self_chain_id notary payer i st ≡ ok st'
      → st'.inbound_message_paths k ≡ some path
      → (path.source_chain_id ≡ k) × IsInbound path
  unfolding exec Admin.initialize Admin.transfer_ownership Admin.accept_ownership
      Admin.update_config Admin.set_treasury Admin.pause Admin.unpause Admin.grant_account_role
      Admin.revoke_account_roles Admin.set_sender_config Admin.unset_sender_config
      Admin.enable_inbound_message_path Admin.enable_outbound_message_path
      Admin.disable_inbound_message_path Admin.disable_outbound_message_path
  exec-at notary payer (Instruction.initialize u a c t m f) st st' k path good h found =
      good (ground arith)
  exec-at notary payer (Instruction.grant_account_role a r) st st' k path good h found =
      good (ground arith)
  exec-at notary payer (Instruction.revoke_account_roles a) st st' k path good h found =
      good (ground arith)
  exec-at notary payer (Instruction.enable_inbound_message_path c m) st st' k path good h found =
      ground (arith, good)
  exec-at notary payer (Instruction.enable_outbound_message_path c) st st' k path good h found =
      good (ground arith)
  exec-at notary payer (Instruction.disable_inbound_message_path c) st st' k path good h found =
      good (ground arith)
  exec-at notary payer (Instruction.disable_outbound_message_path c) st st' k path good h found =
      good (ground arith)
  exec-at notary payer (Instruction.send_message s) st st' k path good h found =
      let ((st₁, r), e, eq) = >>=-eq-ok (send_message runtime payer s st) _ h in
      let (c, way, o, price, _, _, _, _, _, _, _, _, is, _) =
        send_message_inv runtime payer s st st₁ r e in
      good (ground (arith, is))
  exec-at notary payer (Instruction.deliver_message hash p) st st' k path good h found =
      let (c, inbound, payload, epoch, m, _, _, _, _, _, _, _, _, _, is) =
        deliver_message_inv runtime notary payer hash p st st' h in
      good (ground (arith, is))
  exec-at notary payer (Instruction.handle_message hash r a) st st' k path good h found =
      let ((st₁, b), e, eq) = >>=-eq-ok (handle_message runtime payer hash r a st) _ h in
      let (c, m, world, _, _, _, _, _, is) = handle_message_inv runtime payer hash r a st st₁ b e in
      good (ground (arith, is))
  exec-at notary payer (Instruction.transfer_ownership a) st st' k path good h found =
      good (ground arith)
  exec-at notary payer Instruction.accept_ownership st st' k path good h found = good (ground arith)
  exec-at notary payer (Instruction.update_config m f) st st' k path good h found =
      good (ground arith)
  exec-at notary payer (Instruction.set_treasury t) st st' k path good h found = good (ground arith)
  exec-at notary payer Instruction.pause st st' k path good h found = good (ground arith)
  exec-at notary payer Instruction.unpause st st' k path good h found = good (ground arith)
  exec-at notary payer (Instruction.set_sender_config p m f) st st' k path good h found =
      good (ground arith)
  exec-at notary payer (Instruction.unset_sender_config p) st st' k path good h found =
      good (ground arith)

  -- Every inbound path is stored under its own source chain, with the identifier of the path from
  -- the source mailbox that it names to this chain, and every instruction keeps it so.
  pub exec-HasInboundPaths :
      (notary : Notary) (payer : ℕ) (i : Instruction) (st st' : State World)
      → HasInboundPaths st
      → exec runtime self self_chain_id notary payer i st ≡ ok st'
      → HasInboundPaths st'
  exec-HasInboundPaths notary payer i st st' good h k path found =
      exec-at notary payer i st st' k path (good k path) h found
