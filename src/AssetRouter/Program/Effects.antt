-- ===== src/AssetRouter/Program/Effects.antt =====
-- How often a deposit payload is minted, and how often a message is received.
use sol_svm_contracts.Base.{
  ℕ, ◌≤◌, ◌≡◌, refl, sym, ap, ◌∙◌, Option, none, some, inl, inr, Outcome, ok, arith, Outcome-cases,
  ◌==◌, if◌then◌else◌,
}
use sol_svm_contracts.Mailbox.State.{State as MailboxState, Runtime as MailboxRuntime, Notary}
use sol_svm_contracts.AssetRouter.State.{Error, State, put, World, Runtime}
use sol_svm_contracts.AssetRouter.Admin.{
  initialize, accept_ownership, transfer_ownership, set_bascule, set_bascule_gmp, set_mint_fee,
  set_treasury, pause, unpause, set_token_config, set_token_route, unset_token_route,
  change_native_mint, grant_account_role, revoke_account_roles, change_mint_auth,
}
use sol_svm_contracts.AssetRouter.Minting.Spending.{check_bascule-router, mint_from_payload_inv}
use sol_svm_contracts.AssetRouter.WithFee.Splitting.{mint_with_fee_inv}
use sol_svm_contracts.AssetRouter.Receiving.Crediting.{check_bascule_gmp-router, gmp_receive_inv}
use sol_svm_contracts.AssetRouter.Sending.{deposit, redeem, redeem_for_btc}
use sol_svm_contracts.AssetRouter.Sending.Frame.{
  TransferKeepsRouter, deposit-router, redeem-router, redeem_for_btc-router,
}
use sol_svm_contracts.AssetRouter.Instruction.{Instruction}
use sol_svm_contracts.AssetRouter.Program.{on_router, on_world, exec}

-- Whether an instruction mints from the deposit payload.
abbrev pub minting : (mint_payload_hash : ℕ) → Instruction → ℕ
minting k (Instruction.mint_from_payload p h a) = if k == h then 1 else 0
minting k (Instruction.mint_with_fee y p h f g a) = if k == h then 1 else 0
minting k i = 0

-- Whether it mints for the message.
abbrev pub receiving : (payload_hash : ℕ) → Instruction → ℕ
receiving k (Instruction.gmp_receive h r) = if k == h then 1 else 0
receiving k i = 0

-- Whether an account is there.
abbrev pub is_there : Option (Unit {0}) → ℕ
is_there none = 0
is_there (some u) = 1

pub is_there-≤ : (o : Option (Unit {0})) → is_there o ≤ 1
is_there-≤ none = omega arith
is_there-≤ (some u) = omega arith

module _ {Tokens : Type 0} (runtime : Runtime Tokens)
    (mailbox : MailboxRuntime (World Tokens)) where
  -- An instruction leaves the spent payloads and the handled messages as they are, or adds a new one.
  pub data Effect (i : Instruction) (st st' : MailboxState (World Tokens)) : Type 0 where
    quiet :
        st'.world.router.deposit_payloads_spent ≡ st.world.router.deposit_payloads_spent
        → st'.world.router.messages_handled ≡ st.world.router.messages_handled
        → ((k : ℕ) → minting k i ≡ 0)
        → ((k : ℕ) → receiving k i ≡ 0)
        → Effect i st st'
    spends :
        (hash : ℕ)
        → st.world.router.deposit_payloads_spent hash ≡ none
        → st'.world.router.deposit_payloads_spent
          ≡ put hash (some tt) st.world.router.deposit_payloads_spent
        → st'.world.router.messages_handled ≡ st.world.router.messages_handled
        → ((k : ℕ) → minting k i ≡ (if k == hash then 1 else 0))
        → ((k : ℕ) → receiving k i ≡ 0)
        → Effect i st st'
    receives :
        (hash : ℕ)
        → st.world.router.messages_handled hash ≡ none
        → st'.world.router.messages_handled ≡ put hash (some tt) st.world.router.messages_handled
        → st'.world.router.deposit_payloads_spent ≡ st.world.router.deposit_payloads_spent
        → ((k : ℕ) → receiving k i ≡ (if k == hash then 1 else 0))
        → ((k : ℕ) → minting k i ≡ 0)
        → Effect i st st'

  on_router_inv :
      (st st' : MailboxState (World Tokens)) (o : Outcome Error State)
      → on_router runtime mailbox st o ≡ ok st'
      → (b : State) × (o ≡ ok b) × (st' ≡ record st { world = record st.world { router = b } })
  on_router_inv st st' o h = elim (Outcome-cases o) [
    | inr failed ↦ absurd (ground arith)
    | inl (b, e) ↦ (b, e, ground arith)
  ]

  on_world_inv :
      (st st' : MailboxState (World Tokens)) (o : Outcome Error (World Tokens))
      → on_world runtime mailbox st o ≡ ok st'
      → (w : World Tokens) × (o ≡ ok w) × (st' ≡ record st { world = w })
  on_world_inv st st' o h = elim (Outcome-cases o) [
    | inr failed ↦ absurd (ground arith)
    | inl (w, e) ↦ (w, e, ground arith)
  ]

  module _ (keeps : TransferKeepsRouter runtime mailbox) where
    pub exec-Effect :
        (notary : Notary) (payer : ℕ) (i : Instruction) (st st' : MailboxState (World Tokens))
        → exec runtime mailbox notary payer i st ≡ ok st'
        → Effect i st st'
    unfolding exec initialize accept_ownership transfer_ownership set_bascule set_bascule_gmp
        set_mint_fee set_treasury pause unpause set_token_config set_token_route unset_token_route
        change_native_mint grant_account_role revoke_account_roles change_mint_auth
    exec-Effect notary payer (Instruction.initialize u c) st st' h =
        let (b, e, eq) = on_router_inv st st' _ h in
        quiet (rw (eq) (ground arith)) (rw (eq) (ground arith)) (λ k. refl) (λ k. refl)
    exec-Effect notary payer Instruction.accept_ownership st st' h =
        let (b, e, eq) = on_router_inv st st' _ h in
        quiet (rw (eq) (ground arith)) (rw (eq) (ground arith)) (λ k. refl) (λ k. refl)
    exec-Effect notary payer (Instruction.transfer_ownership x) st st' h =
        let (b, e, eq) = on_router_inv st st' _ h in
        quiet (rw (eq) (ground arith)) (rw (eq) (ground arith)) (λ k. refl) (λ k. refl)
    exec-Effect notary payer (Instruction.set_bascule b) st st' h =
        let (b, e, eq) = on_router_inv st st' _ h in
        quiet (rw (eq) (ground arith)) (rw (eq) (ground arith)) (λ k. refl) (λ k. refl)
    exec-Effect notary payer (Instruction.set_bascule_gmp b) st st' h =
        let (b, e, eq) = on_router_inv st st' _ h in
        quiet (rw (eq) (ground arith)) (rw (eq) (ground arith)) (λ k. refl) (λ k. refl)
    exec-Effect notary payer (Instruction.set_mint_fee m f) st st' h =
        let (b, e, eq) = on_router_inv st st' _ h in
        quiet (rw (eq) (ground arith)) (rw (eq) (ground arith)) (λ k. refl) (λ k. refl)
    exec-Effect notary payer (Instruction.set_treasury t) st st' h =
        let (b, e, eq) = on_router_inv st st' _ h in
        quiet (rw (eq) (ground arith)) (rw (eq) (ground arith)) (λ k. refl) (λ k. refl)
    exec-Effect notary payer Instruction.pause st st' h =
        let (b, e, eq) = on_router_inv st st' _ h in
        quiet (rw (eq) (ground arith)) (rw (eq) (ground arith)) (λ k. refl) (λ k. refl)
    exec-Effect notary payer Instruction.unpause st st' h =
        let (b, e, eq) = on_router_inv st st' _ h in
        quiet (rw (eq) (ground arith)) (rw (eq) (ground arith)) (λ k. refl) (λ k. refl)
    exec-Effect notary payer (Instruction.set_token_config m c) st st' h =
        let (b, e, eq) = on_router_inv st st' _ h in
        quiet (rw (eq) (ground arith)) (rw (eq) (ground arith)) (λ k. refl) (λ k. refl)
    exec-Effect notary payer (Instruction.set_token_route r t) st st' h =
        let (b, e, eq) = on_router_inv st st' _ h in
        quiet (rw (eq) (ground arith)) (rw (eq) (ground arith)) (λ k. refl) (λ k. refl)
    exec-Effect notary payer (Instruction.unset_token_route r) st st' h =
        let (b, e, eq) = on_router_inv st st' _ h in
        quiet (rw (eq) (ground arith)) (rw (eq) (ground arith)) (λ k. refl) (λ k. refl)
    exec-Effect notary payer (Instruction.change_native_mint m) st st' h =
        let (b, e, eq) = on_router_inv st st' _ h in
        quiet (rw (eq) (ground arith)) (rw (eq) (ground arith)) (λ k. refl) (λ k. refl)
    exec-Effect notary payer (Instruction.grant_account_role x r) st st' h =
        let (b, e, eq) = on_router_inv st st' _ h in
        quiet (rw (eq) (ground arith)) (rw (eq) (ground arith)) (λ k. refl) (λ k. refl)
    exec-Effect notary payer (Instruction.revoke_account_roles x) st st' h =
        let (b, e, eq) = on_router_inv st st' _ h in
        quiet (rw (eq) (ground arith)) (rw (eq) (ground arith)) (λ k. refl) (λ k. refl)
    exec-Effect notary payer (Instruction.change_mint_auth m c p n) st st' h =
        let (w, e, eq) = on_world_inv st st' _ h in
        elim (Outcome-cases
          (change_mint_auth runtime payer m c p n st.world.router st.world.tokens)) [
            | inr failed ↦ absurd (ground arith)
            | inl (tokens, e₁) ↦
                let same : w ≡ record st.world { tokens = tokens } = ground (arith, e, e₁) in
                quiet (rw (eq, same) refl) (rw (eq, same) refl) (λ k. refl) (λ k. refl)
          ]
    exec-Effect notary payer (Instruction.deposit a c t r n) st st' h =
        elim (Outcome-cases (deposit runtime mailbox (record a { payer = payer }) c t r n st)) [
          | inr failed ↦ absurd (ground arith)
          | inl ((done, result), e) ↦
              let same : done ≡ st' = ground (arith, e) in
              let kept =
                sym (ap (λ k. k.world.router) same)
                ∙ deposit-router runtime mailbox keeps (record a { payer = payer }) c t r n st done
                    result e in
              quiet (ap (λ k. k.deposit_payloads_spent) kept) (ap (λ k. k.messages_handled) kept)
                (λ k. refl) (λ k. refl)
        ]
    exec-Effect notary payer (Instruction.redeem a y c t r n) st st' h =
        elim (Outcome-cases (redeem runtime mailbox (record a { payer = payer }) y c t r n st)) [
          | inr failed ↦ absurd (ground arith)
          | inl ((done, result), e) ↦
              let same : done ≡ st' = ground (arith, e) in
              let kept =
                sym (ap (λ k. k.world.router) same)
                ∙ redeem-router runtime mailbox keeps (record a { payer = payer }) y c t r n st done
                    result e in
              quiet (ap (λ k. k.deposit_payloads_spent) kept) (ap (λ k. k.messages_handled) kept)
                (λ k. refl) (λ k. refl)
        ]
    exec-Effect notary payer (Instruction.redeem_for_btc a y s n) st st' h =
        elim (Outcome-cases
          (redeem_for_btc runtime mailbox (record a { payer = payer }) y s n st)) [
            | inr failed ↦ absurd (ground arith)
            | inl ((done, result), e) ↦
                let same : done ≡ st' = ground (arith, e) in
                let kept =
                  sym (ap (λ k. k.world.router) same)
                  ∙ redeem_for_btc-router runtime mailbox keeps (record a { payer = payer }) y s n
                      st done result e in
                quiet (ap (λ k. k.deposit_payloads_spent) kept) (ap (λ k. k.messages_handled) kept)
                  (λ k. refl) (λ k. refl)
          ]
    exec-Effect notary payer (Instruction.mint_from_payload p hash a) st st' h =
        let (w, e, eq) = on_world_inv st st' _ h in
        let m = mint_from_payload_inv runtime notary p hash a st.world w e in
        let kept =
          check_bascule-router runtime m.config.bascule a m.p st.world m.checked m.is_asked in
        spends hash m.are_checked.is_new (rw (eq, m.is_after, kept) refl)
          (rw (eq, m.is_after, kept) refl) (λ k. refl) (λ k. refl)
    exec-Effect notary payer (Instruction.mint_with_fee y p hash f g a) st st' h =
        let (w, e, eq) = on_world_inv st st' _ h in
        let m =
          mint_with_fee_inv runtime notary y p hash f g (record a { payer = payer }) st.world w e in
        let kept =
          check_bascule-router runtime m.found.config.bascule a.minting m.p st.world m.checked
            m.is_asked in
        spends hash m.are_checked.is_new (rw (eq, m.is_after, kept) refl)
          (rw (eq, m.is_after, kept) refl) (λ k. refl) (λ k. refl)
    exec-Effect notary payer (Instruction.gmp_receive hash r) st st' h =
        let (w, e, eq) = on_world_inv st st' _ h in
        let m = gmp_receive_inv runtime hash r st st.world w e in
        let kept =
          check_bascule_gmp-router runtime m.accounts.config.bascule_gmp r _ st.world m.checked
            m.is_asked in
        receives hash m.are_checked.is_new (rw (eq, m.is_after, kept) refl)
          (rw (eq, m.is_after, kept) refl) (λ k. refl) (λ k. refl)
