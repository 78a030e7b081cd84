-- ===== src/Bridge/Program/Receipts.antt =====
-- The runs of the bridge's instructions, and how often a message is received in one.
use sol_svm_contracts.Base.{
  ℕ, ◌+◌, ◌≤◌, ◌≡◌, refl, Option, none, some, inl, inr, ok, arith, ◌*◌, Option-cases, Bool-cases,
  ◌==◌, ==_iff,
}
use sol_svm_contracts.Mailbox.State.{
  Config as MailboxConfig, State as MailboxState, Runtime as MailboxRuntime, SendResult,
}
use sol_svm_contracts.Mailbox.Message.{accountable_abi_bytes}
use sol_svm_contracts.Mailbox.Program.{charge, pay_fee}
use sol_svm_contracts.Mailbox.Program.Inversion.{send_message_inv}
use sol_svm_contracts.Bridge.State.{no_accounts, Surroundings, Runtime}
use sol_svm_contracts.Bridge.Instruction.{Deposit, Instruction}
use sol_svm_contracts.Bridge.Sending.{deposit}
use sol_svm_contracts.Bridge.Program.{exec}
use sol_svm_contracts.Bridge.Program.Effects.{
  receiving, configures, deposits, receives, exec-Effect,
}
use sol_svm_contracts.Bridge.Program.Inversion.{gmp_receive_inv}
use sol_svm_contracts.Bridge.Program.Deposits.{deposit_inv}

-- Whether an account is there.
abbrev pub is_there : Option (Unit {0}) → ℕ
is_there none = 0
is_there (some u) = 1

is_there-≤ : (o : Option (Unit {0})) → is_there o ≤ 1
is_there-≤ none = omega arith
is_there-≤ (some u) = omega arith

module _ {Bucket LimitConfig Tokens : Type 0} (runtime : Runtime Bucket LimitConfig Tokens)
    (mailbox : MailboxRuntime (Surroundings Bucket Tokens)) where
  -- Any payer may run any instruction of the bridge, called by the mailbox or not; and between them
  -- the other programs run, which leave the bridge's accounts as they are.
  pub data Leads (from : MailboxState (Surroundings Bucket Tokens))
      : MailboxState (Surroundings Bucket Tokens) → Type 0 where
    start : Leads from from
    step :
        {st st' : MailboxState (Surroundings Bucket Tokens)} (payer : ℕ)
        (i : Instruction LimitConfig)
        → Leads from st
        → exec runtime mailbox payer i st ≡ ok st'
        → Leads from st'
    outside :
        {st st' : MailboxState (Surroundings Bucket Tokens)}
        → Leads from st
        → st'.world.bridge ≡ st.world.bridge
        → Leads from st'

  unfoldable pub times_received :
      {from st : MailboxState (Surroundings Bucket Tokens)} → (payload_hash : ℕ) → Leads from st → ℕ
  times_received k start = 0
  times_received k (step payer i r h) = times_received k r + receiving k i
  times_received k (outside r same) = times_received k r

  -- A transfer of lamports by the system program leaves the bridge's accounts as they are.
  abbrev pub TransferKeepsBridge : Type 0
  TransferKeepsBridge =
      (from to amount : ℕ) (w w' : Surroundings Bucket Tokens)
      → mailbox.transfer from to amount w ≡ some w'
      → w'.bridge ≡ w.bridge

  module _ (keeps : TransferKeepsBridge) where
    charge-bridge :
        (c : MailboxConfig) (payer : ℕ) (treasury price : Option ℕ) (len : ℕ)
        (w w' : Surroundings Bucket Tokens)
        → charge mailbox c payer treasury price len w ≡ ok w'
        → w'.bridge ≡ w.bridge
    unfolding charge pay_fee
    charge-bridge c payer treasury none len w w' h = ground arith
    charge-bridge c payer none (some price) len w w' h = ground arith
    charge-bridge c payer (some treasury) (some price) len w w' h =
        elim (Option-cases
          (mailbox.transfer payer treasury (accountable_abi_bytes len * price) w)) [
            | inl e ↦ ground arith
            | inr (w₁, e) ↦
                ground (arith, keeps payer treasury (accountable_abi_bytes len * price) w w₁ e)
          ]

    pub deposit-bridge :
        (d : Deposit) (st st' : MailboxState (Surroundings Bucket Tokens)) (result : SendResult)
        → deposit runtime mailbox d st ≡ ok (st', result)
        → st'.world.bridge ≡ st.world.bridge
    deposit-bridge d st st' result h =
        let x = deposit_inv runtime mailbox d st st' result h in
        let (c, path, s, price, _, _, _, _, _, _, _, charged, _, _) =
          send_message_inv mailbox d.fee_payer _ _ st' result x.is_sent in
        charge-bridge c d.fee_payer d.treasury price _ _ st'.world charged

    exec-counts :
        (payer : ℕ) (i : Instruction LimitConfig)
        (st st' : MailboxState (Surroundings Bucket Tokens)) (k : ℕ)
        → exec runtime mailbox payer i st ≡ ok st'
        → is_there (st'.world.bridge.messages_handled k)
          ≡ is_there (st.world.bridge.messages_handled k) + receiving k i
    exec-counts payer i st st' k h = elim (exec-Effect runtime mailbox payer i st st' h) [
      | configures b eq same _ none_received ↦ rw (eq, same, none_received k) (omega arith)
      | deposits d result is e ↦ rw (is, deposit-bridge d st st' result e) (omega arith)
      | receives hash r w response is e eq ↦
          let x = gmp_receive_inv runtime mailbox hash r st st.world w response e in
          rw (is, eq, x.is_after)
            (elim (Bool-cases (k == hash)) [
              | inr ne ↦ rw (ne) (omega arith)
              | inl same ↦ rw (same, (==_iff k hash).0 same, x.is_found.are_checked.is_new) refl
            ])
    ]

    -- The receipts of one payload hash that go through are as many as its account of handled messages
    -- says: one if it is there, else none. So no message is received twice, whatever instructions of
    -- the bridge run, whatever the mailbox says and whatever other programs do in between, if a
    -- transfer of lamports leaves the bridge's accounts alone.
    pub times_received_lem :
        {from st : MailboxState (Surroundings Bucket Tokens)} (payload_hash : ℕ)
        → from.world.bridge ≡ no_accounts
        → (trace : Leads from st)
        → (times_received payload_hash trace
            ≡ is_there (st.world.bridge.messages_handled payload_hash))
          × (times_received payload_hash trace ≤ 1)
    unfolding times_received
    times_received_lem k new start = rw (new) (refl, omega arith)
    times_received_lem k new (step {st} {st'} payer i r h) =
        let (eq, _) = times_received_lem k new r in
        let counts = exec-counts payer i st st' k h in
        (
          omega (arith, eq, counts),
          omega (arith, eq, counts, is_there-≤ (st'.world.bridge.messages_handled k)),
        )
    times_received_lem k new (outside {st} {st'} r same) = rw (same) (times_received_lem k new r)
