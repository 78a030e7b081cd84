-- ===== src/AssetRouter/Program/Spends.antt =====
-- The runs of the router's instructions, and how often a deposit payload is minted in one.
use sol_svm_contracts.Base.{ℕ, ◌+◌, ◌≤◌, ◌≡◌, refl, inl, inr, ok, arith, Bool-cases, ◌==◌, ==_iff}
use sol_svm_contracts.Mailbox.State.{State as MailboxState, Runtime as MailboxRuntime, Notary}
use sol_svm_contracts.AssetRouter.State.{no_accounts, World, Runtime}
use sol_svm_contracts.AssetRouter.Instruction.{Instruction}
use sol_svm_contracts.AssetRouter.Program.{exec}
use sol_svm_contracts.AssetRouter.Sending.Frame.{TransferKeepsRouter}
use sol_svm_contracts.AssetRouter.Program.Effects.{
  minting, receiving, is_there, is_there-≤, quiet, spends, receives, exec-Effect,
}

module _ {Tokens : Type 0} (runtime : Runtime Tokens)
    (mailbox : MailboxRuntime (World Tokens)) where
  -- Any payer may run any instruction, whatever the consortium program holds then; and between them
  -- the other programs run, which leave the router's accounts as they are.
  pub data Leads (from : MailboxState (World Tokens)) : MailboxState (World Tokens) → Type 0 where
    start : Leads from from
    step :
        {st st' : MailboxState (World Tokens)} (notary : Notary) (payer : ℕ) (i : Instruction)
        → Leads from st
        → exec runtime mailbox notary payer i st ≡ ok st'
        → Leads from st'
    outside :
        {st st' : MailboxState (World Tokens)}
        → Leads from st
        → st'.world.router ≡ st.world.router
        → Leads from st'

  unfoldable pub times_spent :
      {from st : MailboxState (World Tokens)} → (mint_payload_hash : ℕ) → Leads from st → ℕ
  times_spent k start = 0
  times_spent k (step notary payer i r h) = times_spent k r + minting k i
  times_spent k (outside r same) = times_spent k r

  unfoldable pub times_credited :
      {from st : MailboxState (World Tokens)} → (payload_hash : ℕ) → Leads from st → ℕ
  times_credited k start = 0
  times_credited k (step notary payer i r h) = times_credited k r + receiving k i
  times_credited k (outside r same) = times_credited k r

  module _ (keeps : TransferKeepsRouter runtime mailbox) where
    exec-mints :
        (notary : Notary) (payer : ℕ) (i : Instruction) (st st' : MailboxState (World Tokens))
        (k : ℕ)
        → exec runtime mailbox notary payer i st ≡ ok st'
        → is_there (st'.world.router.deposit_payloads_spent k)
          ≡ is_there (st.world.router.deposit_payloads_spent k) + minting k i
    exec-mints notary payer i st st' k h =
        elim (exec-Effect runtime mailbox keeps notary payer i st st' h) [
          | quiet same _ never _ ↦ rw (same, never k) (omega arith)
          | receives hash _ _ same _ never ↦ rw (same, never k) (omega arith)
          | spends hash new now _ counts _ ↦
              rw (now, counts k)
                (elim (Bool-cases (k == hash)) [
                  | inr ne ↦ rw (ne) (omega arith)
                  | inl eq ↦ rw (eq, (==_iff k hash).0 eq, new) refl
                ])
        ]

    exec-receives :
        (notary : Notary) (payer : ℕ) (i : Instruction) (st st' : MailboxState (World Tokens))
        (k : ℕ)
        → exec runtime mailbox notary payer i st ≡ ok st'
        → is_there (st'.world.router.messages_handled k)
          ≡ is_there (st.world.router.messages_handled k) + receiving k i
    exec-receives notary payer i st st' k h =
        elim (exec-Effect runtime mailbox keeps notary payer i st st' h) [
          | quiet _ same _ never ↦ rw (same, never k) (omega arith)
          | spends hash _ _ same _ never ↦ rw (same, never k) (omega arith)
          | receives hash new now _ counts _ ↦
              rw (now, counts k)
                (elim (Bool-cases (k == hash)) [
                  | inr ne ↦ rw (ne) (omega arith)
                  | inl eq ↦ rw (eq, (==_iff k hash).0 eq, new) refl
                ])
        ]

    -- The mints from one deposit payload that go through, with a fee and without, are as many as its
    -- account of spent payloads says: one if it is there, else none. So no payload is minted twice,
    -- whatever instructions of the router run, whatever the consortium and the mailbox say and
    -- whatever other programs do in between, if a transfer of lamports leaves the router's accounts
    -- alone.
    pub times_spent_lem :
        {from st : MailboxState (World Tokens)} (mint_payload_hash : ℕ)
        → from.world.router ≡ no_accounts
        → (trace : Leads from st)
        → (times_spent mint_payload_hash trace
            ≡ is_there (st.world.router.deposit_payloads_spent mint_payload_hash))
          × (times_spent mint_payload_hash trace ≤ 1)
    unfolding times_spent
    times_spent_lem k new start = rw (new) (refl, omega arith)
    times_spent_lem k new (step {st} {st'} notary payer i r h) =
        let (eq, _) = times_spent_lem k new r in
        let counts = exec-mints notary payer i st st' k h in
        (
          omega (arith, eq, counts),
          omega (arith, eq, counts, is_there-≤ (st'.world.router.deposit_payloads_spent k)),
        )
    times_spent_lem k new (outside {st} {st'} r same) = rw (same) (times_spent_lem k new r)

    -- The mints for one message that go through are as many as its account of handled messages says:
    -- one if it is there, else none, under the same conditions.
    pub times_credited_lem :
        {from st : MailboxState (World Tokens)} (payload_hash : ℕ)
        → from.world.router ≡ no_accounts
        → (trace : Leads from st)
        → (times_credited payload_hash trace
            ≡ is_there (st.world.router.messages_handled payload_hash))
          × (times_credited payload_hash trace ≤ 1)
    unfolding times_credited
    times_credited_lem k new start = rw (new) (refl, omega arith)
    times_credited_lem k new (step {st} {st'} notary payer i r h) =
        let (eq, _) = times_credited_lem k new r in
        let counts = exec-receives notary payer i st st' k h in
        (
          omega (arith, eq, counts),
          omega (arith, eq, counts, is_there-≤ (st'.world.router.messages_handled k)),
        )
    times_credited_lem k new (outside {st} {st'} r same) = rw (same) (times_credited_lem k new r)
