-- ===== src/Mailbox/Program/Lifecycle.antt =====
-- What an instruction of the mailbox can do to the messages, and what follows for any sequence of
-- instructions.
use sol_svm_contracts.Base.{
  ℕ, ◌+◌, ◌≤◌, ◌≡◌, refl, ◌∙◌, List, Option, none, some, ◌⊎◌, inl, inr, ok, arith, Bool-cases,
  >>=-eq-ok, ◌==◌, ==_iff, if◌then◌else◌,
}
use sol_svm_contracts.Mailbox.State.{
  MessageV1, Config, MessageState, delivered, handled, MessageV1Info, State, Runtime, AccountMeta,
  Notary, no_accounts,
}
use sol_svm_contracts.Mailbox.Instruction.{Instruction, Send}
use sol_svm_contracts.Mailbox.Admin
use sol_svm_contracts.Mailbox.Program.{exec, send_message, deliver_message, handle_message}
use sol_svm_contracts.Mailbox.Program.Inversion.{
  deliver_message_inv, handle_message_inv, send_message_inv,
}

abbrev pub next_nonce : Option Config → ℕ
next_nonce none = 1
next_nonce (some c) = c.global_nonce

-- Whether an instruction handles the message.
abbrev pub handling : (hash : ℕ) → Instruction → ℕ
handling hash (Instruction.handle_message k r a) = if hash == k then 1 else 0
handling hash i = 0

module _ {World : Type 0} where
  -- No message is sent, delivered or handled.
  abbrev pub Quiet : State World → State World → Type 0
  Quiet st st' =
      (st'.messages ≡ st.messages)
      × (st'.outbound_messages ≡ st.outbound_messages)
      × (next_nonce st'.config ≡ next_nonce st.config)

module _ {World : Type 0} (runtime : Runtime World) (self self_chain_id : ℕ) where
  -- An instruction is one of configuration, or a call that sends, delivers or handles a message.
  pub data Effect (notary : Notary) (payer : ℕ) (i : Instruction) (st st' : State World)
      : Type 0 where
    quiet : ((hash : ℕ) → handling hash i ≡ 0) → Quiet st st' → Effect notary payer i st st'
    sends :
        (send : Send) (r : _)
        → i ≡ Instruction.send_message send
        → send_message runtime payer send st ≡ ok (st', r)
        → Effect notary payer i st st'
    delivers :
        (h p : ℕ)
        → i ≡ Instruction.deliver_message h p
        → deliver_message runtime notary payer h p st ≡ ok st'
        → Effect notary payer i st st'
    handles :
        (h r : ℕ) (a : List AccountMeta) (b : Option (List ℕ))
        → i ≡ Instruction.handle_message h r a
        → handle_message runtime payer h r a st ≡ ok (st', b)
        → Effect notary payer i st st'

  pub exec-Effect :
      (notary : Notary) (payer : ℕ) (i : Instruction) (st st' : State World)
      → exec runtime self self_chain_id notary payer i st ≡ ok st'
      → Effect notary payer i st st'
  unfolding exec Admin.initialize Admin.transfer_ownership Admin.accept_ownership
      Admin.update_config Admin.set_treasury Admin.pause Admin.unpause Admin.grant_account_role
      Admin.revoke_account_roles Admin.set_sender_config Admin.unset_sender_config
      Admin.enable_inbound_message_path Admin.enable_outbound_message_path
      Admin.disable_inbound_message_path Admin.disable_outbound_message_path
  exec-Effect notary payer (Instruction.initialize u a c t m f) st st' h =
      quiet (λ _. refl) (ground arith)
  exec-Effect notary payer (Instruction.grant_account_role a r) st st' h =
      quiet (λ _. refl) (ground arith)
  exec-Effect notary payer (Instruction.revoke_account_roles a) st st' h =
      quiet (λ _. refl) (ground arith)
  exec-Effect notary payer (Instruction.enable_inbound_message_path c m) st st' h =
      quiet (λ _. refl) (ground arith)
  exec-Effect notary payer (Instruction.enable_outbound_message_path c) st st' h =
      quiet (λ _. refl) (ground arith)
  exec-Effect notary payer (Instruction.disable_inbound_message_path c) st st' h =
      quiet (λ _. refl) (ground arith)
  exec-Effect notary payer (Instruction.disable_outbound_message_path c) st st' h =
      quiet (λ _. refl) (ground arith)
  exec-Effect notary payer (Instruction.send_message s) st st' h =
      let ((st₁, r), e, eq) = >>=-eq-ok (send_message runtime payer s st) _ h in
      sends s r refl (cc (e, eq))
  exec-Effect notary payer (Instruction.deliver_message k p) st st' h = delivers k p refl h
  exec-Effect notary payer (Instruction.handle_message k r a) st st' h =
      let ((st₁, b), e, eq) = >>=-eq-ok (handle_message runtime payer k r a st) _ h in
      handles k r a b refl (cc (e, eq))
  exec-Effect notary payer (Instruction.transfer_ownership a) st st' h =
      quiet (λ _. refl) (ground arith)
  exec-Effect notary payer Instruction.accept_ownership st st' h = quiet (λ _. refl) (ground arith)
  exec-Effect notary payer (Instruction.update_config m f) st st' h =
      quiet (λ _. refl) (ground arith)
  exec-Effect notary payer (Instruction.set_treasury t) st st' h = quiet (λ _. refl) (ground arith)
  exec-Effect notary payer Instruction.pause st st' h = quiet (λ _. refl) (ground arith)
  exec-Effect notary payer Instruction.unpause st st' h = quiet (λ _. refl) (ground arith)
  exec-Effect notary payer (Instruction.set_sender_config p m f) st st' h =
      quiet (λ _. refl) (ground arith)
  exec-Effect notary payer (Instruction.unset_sender_config p) st st' h =
      quiet (λ _. refl) (ground arith)

  -- The accounts of the consortium change between the instructions, by its own instructions.
  pub data Leads (from : State World) : State World → Type 0 where
    start : Leads from from
    step :
        {st st' : State World} (notary : Notary) (payer : ℕ) (i : Instruction)
        → Leads from st
        → exec runtime self self_chain_id notary payer i st ≡ ok st'
        → Leads from st'

-- What becomes of the account of a message: it is created as delivered, or a delivered one becomes
-- handled, with its contents as they are.
abbrev pub Life : Option MessageV1Info → Option MessageV1Info → Type 0
Life before after =
    (after ≡ before)
    ⊎ ((m : MessageV1) × (before ≡ none)
        × (after ≡ some (record { status = delivered; message = m })))
    ⊎ (m : MessageV1) × (before ≡ some (record { status = delivered; message = m }))
      × (after ≡ some (record { status = handled; message = m }))

abbrev pub is_handled : Option MessageV1Info → ℕ
is_handled none = 0
is_handled (some info) = elim info.status [ MessageState.unknown ↦ 0 | delivered ↦ 0 | handled ↦ 1 ]

is_handled-≤ : (o : Option MessageV1Info) → is_handled o ≤ 1
is_handled-≤ none = omega arith
is_handled-≤ (some info) =
    elim info.status
      as (λ x. elim x [ MessageState.unknown ↦ 0 | delivered ↦ 0 | handled ↦ 1 ] ≤ 1) [
        | MessageState.unknown ↦ omega arith
        | delivered ↦ omega arith
        | handled ↦ omega arith
      ]

-- How far a message is.
abbrev pub rank : MessageState → ℕ
rank MessageState.unknown = 0
rank delivered = 1
rank handled = 2

module _ {World : Type 0} (runtime : Runtime World) (self self_chain_id : ℕ) where
  -- Whatever instruction runs, each message account stays as it is, is created as delivered, or goes
  -- from delivered to handled with its contents kept.
  pub exec-Life :
      (notary : Notary) (payer : ℕ) (i : Instruction) (st st' : State World) (hash : ℕ)
      → exec runtime self self_chain_id notary payer i st ≡ ok st'
      → Life (st.messages hash) (st'.messages hash)
  exec-Life notary payer i st st' hash h =
      elim (exec-Effect runtime self self_chain_id notary payer i st st' h) [
        | quiet _ (same, _, _) ↦ inl (rw same)
        | sends send r _ e ↦
            let (c, path, s, price, _, _, _, _, _, _, _, _, eq, _) =
              send_message_inv runtime payer send st st' r e in
            inl (rw eq)
        | delivers k p _ e ↦
            let (c, path, payload, epoch, m, _, _, _, _, fresh, _, _, _, _, eq) =
              deliver_message_inv runtime notary payer k p st st' e in
            elim (Bool-cases (hash == k)) [
              | inl same ↦ inr (inl (m, rw ((==_iff hash k).0 same) fresh, ground arith))
              | inr other ↦ inl (ground arith)
            ]
        | handles k r a b _ e ↦
            let (c, m, world, _, found, _, _, _, eq) =
              handle_message_inv runtime payer k r a st st' b e in
            elim (Bool-cases (hash == k)) [
              | inl same ↦ inr (inr (m, rw ((==_iff hash k).0 same) found, ground arith))
              | inr other ↦ inl (ground arith)
            ]
      ]

  -- An account of a message is never closed and its contents never change, whatever instructions
  -- follow, and its status never falls back.
  pub Leads-message :
      {st st' : State World} (hash : ℕ) (info : MessageV1Info)
      → Leads runtime self self_chain_id st st'
      → st.messages hash ≡ some info
      → (info' : MessageV1Info) × (st'.messages hash ≡ some info')
        × (info'.message ≡ info.message)
        × (rank info.status ≤ rank info'.status)
  Leads-message hash info start found = (info, found, refl, omega arith)
  Leads-message hash info (step {st} {st'} notary payer i r h) found =
      let (before, e, same, up) = Leads-message hash info r found in
      elim (exec-Life notary payer i st st' hash h) [
        | inl eq ↦ (before, eq ∙ e, same, up)
        | inr (inl (m, empty, _)) ↦ absurd (cc (empty, e))
        | inr (inr (m, was, now)) ↦ (
          record { status = handled; message = m },
          now,
          ground (arith, was, e, same),
          ground (arith, was, e),
        )
      ]

  -- How often a message was handled on the way.
  unfoldable pub times_handled :
      {st st' : State World} (hash : ℕ) → Leads runtime self self_chain_id st st' → ℕ
  times_handled hash start = 0
  times_handled hash (step notary payer i r h) = times_handled hash r + handling hash i

  handling_counts :
      (notary : Notary) (payer : ℕ) (i : Instruction) (st st' : State World) (hash : ℕ)
      → exec runtime self self_chain_id notary payer i st ≡ ok st'
      → is_handled (st'.messages hash) ≡ is_handled (st.messages hash) + handling hash i
  handling_counts notary payer i st st' hash h =
      elim (exec-Effect runtime self self_chain_id notary payer i st st' h) [
        | quiet none_handled (same, _, _) ↦ ground (arith, none_handled hash, same)
        | sends send r is e ↦
            let (c, path, s, price, _, _, _, _, _, _, _, _, eq, _) =
              send_message_inv runtime payer send st st' r e in
            ground arith
        | delivers k p is e ↦
            let (c, path, payload, epoch, m, _, _, _, _, fresh, _, _, _, _, eq) =
              deliver_message_inv runtime notary payer k p st st' e in
            ground arith
        | handles k r a b is e ↦
            let (c, m, world, _, found, _, _, _, eq) =
              handle_message_inv runtime payer k r a st st' b e in
            ground arith
      ]

  -- The calls of `handle_message` that go through for one payload hash are as many as its account
  -- says: one if its status is handled, else none. So no message is handled twice.
  pub times_handled_lem :
      {world : World} {st : State World} (hash : ℕ)
      (trace : Leads runtime self self_chain_id (no_accounts world) st)
      → (times_handled hash trace ≡ is_handled (st.messages hash)) × (times_handled hash trace ≤ 1)
  unfolding times_handled
  times_handled_lem hash start = (refl, omega arith)
  times_handled_lem hash (step {st} {st'} notary payer i r h) =
      let (eq, _) = times_handled_lem hash r in
      let counts = handling_counts notary payer i st st' hash h in
      (omega (arith, eq, counts), omega (arith, eq, counts, is_handled-≤ (st'.messages hash)))
