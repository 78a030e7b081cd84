-- ===== src/Bridge/Program/Effects.antt =====
-- What an instruction of the bridge does to the handled messages and to the mailbox.
use sol_svm_contracts.Base.{
  ℕ, ◌≤◌, ◌≡◌, refl, sym, ap, ◌∙◌, Bool-cases, ◌⊎◌, Bool, some, inl, inr, Outcome, ok, arith,
  Outcome-cases, Option-cases, ◌==◌, if◌then◌else◌,
}
use sol_svm_contracts.Mailbox.State.{
  fee_adjustment_base, State as MailboxState, Runtime as MailboxRuntime, SendResult,
}
use sol_svm_contracts.Bridge.State.{Error, SenderConfig, State, Surroundings, Runtime}
use sol_svm_contracts.Bridge.Messages.{InboundResponse}
use sol_svm_contracts.Bridge.Instruction.{Deposit, Receive, Instruction}
use sol_svm_contracts.Bridge.Admin.{
  initialize, grant_account_role, revoke_account_roles, transfer_ownership, accept_ownership, pause,
  unpause, set_sender_config, unset_sender_config, set_local_token_config, unset_local_token_config,
  set_remote_token_config, unset_remote_token_config, set_remote_bridge_config,
  unset_remote_bridge_config, set_rate_limit, configured,
}
use sol_svm_contracts.Bridge.Sending.{deposit}
use sol_svm_contracts.Bridge.Receiving.{gmp_receive}
use sol_svm_contracts.Bridge.Program.{on_bridge, exec}

-- Whether an instruction receives the message.
abbrev pub receiving : {LimitConfig : Type 0} → (payload_hash : ℕ) → Instruction LimitConfig → ℕ
receiving k (Instruction.gmp_receive h r) = if k == h then 1 else 0
receiving k i = 0

-- Every sender config after is one from before, or has a discount within the base.
abbrev pub KeepsDiscounts : {Bucket : Type 0} → State Bucket → State Bucket → Type 0
KeepsDiscounts st b =
    (p : ℕ) (s : SenderConfig)
    → b.sender_configs p ≡ some s
    → (st.sender_configs p ≡ some s) ⊎ (s.fee_discount ≤ fee_adjustment_base)

module _ {Bucket LimitConfig Tokens : Type 0} (runtime : Runtime Bucket LimitConfig Tokens)
    (mailbox : MailboxRuntime (Surroundings Bucket Tokens)) where
  pub data Effect (payer : ℕ) (i : Instruction LimitConfig)
      (st st' : MailboxState (Surroundings Bucket Tokens)) : Type 0 where
    configures :
        (b : State Bucket)
        → st' ≡ record st { world = record st.world { bridge = b } }
        → b.messages_handled ≡ st.world.bridge.messages_handled
        → KeepsDiscounts st.world.bridge b
        → ((payload_hash : ℕ) → receiving payload_hash i ≡ 0)
        → Effect payer i st st'
    deposits :
        (d : Deposit) (result : SendResult)
        → i ≡ Instruction.deposit d
        → deposit runtime mailbox d st ≡ ok (st', result)
        → Effect payer i st st'
    receives :
        (hash : ℕ) (r : Receive) (w : Surroundings Bucket Tokens) (response : InboundResponse)
        → i ≡ Instruction.gmp_receive hash r
        → gmp_receive runtime mailbox hash r st st.world ≡ ok (w, response)
        → st' ≡ record st { world = w }
        → Effect payer i st st'

  on_bridge_inv :
      (st st' : MailboxState (Surroundings Bucket Tokens)) (o : Outcome Error (State Bucket))
      → on_bridge runtime mailbox st o ≡ ok st'
      → (b : State Bucket) × (o ≡ ok b)
        × (st' ≡ record st { world = record st.world { bridge = b } })
  on_bridge_inv st st' o h = elim (Outcome-cases o) [
    | inr failed ↦ absurd (ground arith)
    | inl (b, e) ↦ (b, e, ground arith)
  ]

  set_rate_limit_quiet :
      (payer m c : ℕ) (l : LimitConfig) (tokens : Tokens) (st b : State Bucket)
      → set_rate_limit runtime payer m c l tokens st ≡ ok b
      → (b.messages_handled ≡ st.messages_handled) × (b.sender_configs ≡ st.sender_configs)
  unfolding set_rate_limit
  set_rate_limit_quiet payer m c l tokens st b h =
      elim (Option-cases (st.remote_token_configs m c)) [
        | inl e ↦ absurd (ground arith)
        | inr (remote, e) ↦
            elim (Outcome-cases (configured runtime l tokens remote.inbound_rate_limit)) [
              | inr failed ↦ absurd (ground arith)
              | inl (bucket, e₁) ↦ (ground arith, ground arith)
            ]
      ]

  set_sender_config_discounts :
      (payer q d : ℕ) (w : Bool) (st b : State Bucket)
      → set_sender_config payer q d w st ≡ ok b
      → KeepsDiscounts st b
  unfolding set_sender_config
  set_sender_config_discounts payer q d w st b h p s f = elim (Bool-cases (p == q)) [
    | inl same ↦ inr (ground (arith, same))
    | inr ne ↦ inl (ground (arith, ne))
  ]

  unset_sender_config_discounts :
      (payer q : ℕ) (st b : State Bucket)
      → unset_sender_config payer q st ≡ ok b
      → KeepsDiscounts st b
  unfolding unset_sender_config
  unset_sender_config_discounts payer q st b h p s f = elim (Bool-cases (p == q)) [
    | inl same ↦ absurd (ground (arith, same))
    | inr ne ↦ inl (ground (arith, ne))
  ]

  pub exec-Effect :
      (payer : ℕ) (i : Instruction LimitConfig) (st st' : MailboxState (Surroundings Bucket Tokens))
      → exec runtime mailbox payer i st ≡ ok st'
      → Effect payer i st st'
  unfolding exec initialize grant_account_role revoke_account_roles transfer_ownership
      accept_ownership pause unpause set_sender_config unset_sender_config set_local_token_config
      unset_local_token_config set_remote_token_config unset_remote_token_config
      set_remote_bridge_config unset_remote_bridge_config
  exec-Effect payer (Instruction.initialize u m a o) st st' h =
      let (b, e, eq) = on_bridge_inv st st' _ h in
      configures b eq (ground arith) (λ p s f. inl (ground arith)) (λ k. refl)
  exec-Effect payer (Instruction.grant_account_role a r) st st' h =
      let (b, e, eq) = on_bridge_inv st st' _ h in
      configures b eq (ground arith) (λ p s f. inl (ground arith)) (λ k. refl)
  exec-Effect payer (Instruction.revoke_account_roles a) st st' h =
      let (b, e, eq) = on_bridge_inv st st' _ h in
      configures b eq (ground arith) (λ p s f. inl (ground arith)) (λ k. refl)
  exec-Effect payer (Instruction.transfer_ownership a) st st' h =
      let (b, e, eq) = on_bridge_inv st st' _ h in
      configures b eq (ground arith) (λ p s f. inl (ground arith)) (λ k. refl)
  exec-Effect payer Instruction.accept_ownership st st' h =
      let (b, e, eq) = on_bridge_inv st st' _ h in
      configures b eq (ground arith) (λ p s f. inl (ground arith)) (λ k. refl)
  exec-Effect payer Instruction.pause st st' h =
      let (b, e, eq) = on_bridge_inv st st' _ h in
      configures b eq (ground arith) (λ p s f. inl (ground arith)) (λ k. refl)
  exec-Effect payer Instruction.unpause st st' h =
      let (b, e, eq) = on_bridge_inv st st' _ h in
      configures b eq (ground arith) (λ p s f. inl (ground arith)) (λ k. refl)
  exec-Effect payer (Instruction.set_sender_config q d w) st st' h =
      let (b, e, eq) = on_bridge_inv st st' _ h in
      configures b eq (ground arith) (set_sender_config_discounts payer q d w st.world.bridge b e)
        (λ k. refl)
  exec-Effect payer (Instruction.unset_sender_config q) st st' h =
      let (b, e, eq) = on_bridge_inv st st' _ h in
      configures b eq (ground arith) (unset_sender_config_discounts payer q st.world.bridge b e)
        (λ k. refl)
  exec-Effect payer (Instruction.set_local_token_config m) st st' h =
      let (b, e, eq) = on_bridge_inv st st' _ h in
      configures b eq (ground arith) (λ p s f. inl (ground arith)) (λ k. refl)
  exec-Effect payer (Instruction.unset_local_token_config m) st st' h =
      let (b, e, eq) = on_bridge_inv st st' _ h in
      configures b eq (ground arith) (λ p s f. inl (ground arith)) (λ k. refl)
  exec-Effect payer (Instruction.set_remote_token_config m c t d) st st' h =
      let (b, e, eq) = on_bridge_inv st st' _ h in
      configures b eq (ground arith) (λ p s f. inl (ground arith)) (λ k. refl)
  exec-Effect payer (Instruction.unset_remote_token_config m c) st st' h =
      let (b, e, eq) = on_bridge_inv st st' _ h in
      configures b eq (ground arith) (λ p s f. inl (ground arith)) (λ k. refl)
  exec-Effect payer (Instruction.set_remote_bridge_config c o) st st' h =
      let (b, e, eq) = on_bridge_inv st st' _ h in
      configures b eq (ground arith) (λ p s f. inl (ground arith)) (λ k. refl)
  exec-Effect payer (Instruction.unset_remote_bridge_config c) st st' h =
      let (b, e, eq) = on_bridge_inv st st' _ h in
      configures b eq (ground arith) (λ p s f. inl (ground arith)) (λ k. refl)
  exec-Effect payer (Instruction.set_rate_limit m c l) st st' h =
      let (b, e, eq) = on_bridge_inv st st' _ h in
      let (same, discounts) =
        set_rate_limit_quiet payer m c l st.world.tokens st.world.bridge b e in
      configures b eq same (λ p s f. inl (sym (ap (λ g. g p) discounts) ∙ f)) (λ k. refl)
  exec-Effect payer (Instruction.deposit d) st st' h =
      elim (Outcome-cases (deposit runtime mailbox d st)) [
        | inr failed ↦ absurd (ground arith)
        | inl ((done, result), e) ↦ deposits d result refl (ground (arith, e))
      ]
  exec-Effect payer (Instruction.gmp_receive hash r) st st' h =
      elim (Outcome-cases (gmp_receive runtime mailbox hash r st st.world)) [
        | inr failed ↦ absurd (ground arith)
        | inl ((w, response), e) ↦ receives hash r w response refl e (ground (arith, e))
      ]
