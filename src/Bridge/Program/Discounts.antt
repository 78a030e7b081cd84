-- ===== src/Bridge/Program/Discounts.antt =====
-- The fee discounts that the bridge grants.
use sol_svm_contracts.Base.{ℕ, ◌-◌, ◌≤◌, ◌≡◌, refl, sym, ap, ◌∙◌, some, inl, inr, ok, le→leb}
use sol_svm_contracts.Mailbox.State.{
  fee_adjustment_base, State as MailboxState, Runtime as MailboxRuntime,
}
use sol_svm_contracts.Bridge.State.{SenderConfig, State, no_accounts, Surroundings, Runtime}
use sol_svm_contracts.Bridge.Instruction.{Instruction}
use sol_svm_contracts.Bridge.Sending.{fee_override}
use sol_svm_contracts.Bridge.Program.{exec}
use sol_svm_contracts.Bridge.Program.Inversion.{gmp_receive_inv}
use sol_svm_contracts.Bridge.Program.Effects.{configures, deposits, receives, exec-Effect}
use sol_svm_contracts.Bridge.Program.Receipts.{
  Leads, start, step, outside, TransferKeepsBridge, deposit-bridge,
}

module _ {Bucket LimitConfig Tokens : Type 0} (runtime : Runtime Bucket LimitConfig Tokens)
    (mailbox : MailboxRuntime (Surroundings Bucket Tokens)) where
  abbrev HasDiscounts : State Bucket → Type 0
  HasDiscounts b =
      (p : ℕ) (s : SenderConfig)
      → b.sender_configs p ≡ some s
      → s.fee_discount ≤ fee_adjustment_base

  exec-HasDiscounts :
      (keeps : TransferKeepsBridge runtime mailbox) (payer : ℕ) (i : Instruction LimitConfig)
      (st st' : MailboxState (Surroundings Bucket Tokens))
      → exec runtime mailbox payer i st ≡ ok st'
      → HasDiscounts st.world.bridge
      → HasDiscounts st'.world.bridge
  exec-HasDiscounts keeps payer i st st' h before p s found =
      elim (exec-Effect runtime mailbox payer i st st' h) [
        | configures b eq _ discounts _ ↦
            elim (discounts p s (sym (ap (λ x. x.world.bridge.sender_configs p) eq) ∙ found)) [
              | inl old ↦ before p s old
              | inr within ↦ within
            ]
        | deposits d result _ e ↦ before p s (
            sym (
              ap (λ b. b.sender_configs p) (deposit-bridge runtime mailbox keeps d st st' result e))
            ∙ found)
        | receives hash r w response _ e eq ↦
            let x = gmp_receive_inv runtime mailbox hash r st st.world w response e in
            before p s (
              sym (
                ap (λ k. k.world.bridge.sender_configs p) eq
                ∙ ap (λ k. k.bridge.sender_configs p) x.is_after)
              ∙ found)
      ]

  -- Whatever instructions of the bridge run, no sender has a discount above the whole fee, so the fee
  -- that a deposit passes to the mailbox is computed without an underflow, if a transfer of lamports
  -- leaves the bridge's accounts alone.
  pub fee_override-ok :
      {from st : MailboxState (Surroundings Bucket Tokens)} (p : ℕ) (s : SenderConfig)
      → TransferKeepsBridge runtime mailbox
      → from.world.bridge ≡ no_accounts
      → Leads runtime mailbox from st
      → st.world.bridge.sender_configs p ≡ some s
      → (s.fee_discount ≤ fee_adjustment_base)
        × (fee_override s.fee_discount ≡ ok (fee_adjustment_base - s.fee_discount))
  fee_override-ok {from = from} p s keeps new trace found =
      let within = discounts-within trace p s found in
      (within, rw (le→leb s.fee_discount fee_adjustment_base within) refl)
    where
      discounts-within :
          {st : MailboxState (Surroundings Bucket Tokens)}
          → Leads runtime mailbox from st
          → HasDiscounts st.world.bridge
      discounts-within start =
          λ q x there. absurd (cc (sym (ap (λ b. b.sender_configs q) new) ∙ there))
      discounts-within (step {st} {st'} payer i r h) =
          exec-HasDiscounts keeps payer i st st' h (discounts-within r)
      discounts-within (outside r same) =
          λ q x there. discounts-within r q x (sym (ap (λ b. b.sender_configs q) same) ∙ there)
