-- ===== src/AssetRouter/Program.antt =====
-- The instructions of the asset router, run one at a time: programs/asset_router/src/lib.rs.
pub mod Effects
pub mod Spends
mod Witnesses
use sol_svm_contracts.Base.{ℕ, Outcome, ok, ◌>>=◌}
use sol_svm_contracts.Mailbox.State.{State as MailboxState, Runtime as MailboxRuntime, Notary}
use sol_svm_contracts.AssetRouter.State.{Error, State, World, Runtime}
use sol_svm_contracts.AssetRouter.Admin
use sol_svm_contracts.AssetRouter.Minting.{mint_from_payload}
use sol_svm_contracts.AssetRouter.WithFee.{mint_with_fee}
use sol_svm_contracts.AssetRouter.Sending.{deposit, redeem, redeem_for_btc}
use sol_svm_contracts.AssetRouter.Receiving.{gmp_receive}
use sol_svm_contracts.AssetRouter.Instruction.{Instruction}

module _ {Tokens : Type 0} (runtime : Runtime Tokens)
    (mailbox : MailboxRuntime (World Tokens)) where
  abbrev pub on_router :
      MailboxState (World Tokens)
      → Outcome Error State
      → Outcome Error (MailboxState (World Tokens))
  on_router st o = do router ← o; ok (record st { world = record st.world { router = router } })

  abbrev pub on_world :
      MailboxState (World Tokens)
      → Outcome Error (World Tokens)
      → Outcome Error (MailboxState (World Tokens))
  on_world st o = do world ← o; ok (record st { world = world })

  -- One instruction, signed by `payer`, with what the consortium program holds.
  unfoldable pub exec :
      Notary
      → (payer : ℕ) → Instruction
      → MailboxState (World Tokens)
      → Outcome Error (MailboxState (World Tokens))
  exec notary payer (Instruction.initialize u c) st =
      on_router st (Admin.initialize u payer c st.world.router)
  exec notary payer (Instruction.mint_from_payload p h a) st =
      on_world st (mint_from_payload runtime notary p h a st.world)
  exec notary payer (Instruction.mint_with_fee y p h f g a) st =
      on_world st (mint_with_fee runtime notary y p h f g (record a { payer = payer }) st.world)
  exec notary payer (Instruction.deposit a c t r n) st =
      deposit runtime mailbox (record a { payer = payer }) c t r n st >>= λ x. ok x.0
  exec notary payer (Instruction.redeem a y c t r n) st =
      redeem runtime mailbox (record a { payer = payer }) y c t r n st >>= λ x. ok x.0
  exec notary payer (Instruction.redeem_for_btc a y s n) st =
      redeem_for_btc runtime mailbox (record a { payer = payer }) y s n st >>= λ x. ok x.0
  exec notary payer (Instruction.gmp_receive h r) st =
      on_world st (gmp_receive runtime h r st st.world)
  exec notary payer Instruction.accept_ownership st =
      on_router st (Admin.accept_ownership payer st.world.router)
  exec notary payer (Instruction.transfer_ownership a) st =
      on_router st (Admin.transfer_ownership payer a st.world.router)
  exec notary payer (Instruction.set_bascule b) st =
      on_router st (Admin.set_bascule payer b st.world.router)
  exec notary payer (Instruction.set_bascule_gmp b) st =
      on_router st (Admin.set_bascule_gmp payer b st.world.router)
  exec notary payer (Instruction.set_mint_fee m f) st =
      on_router st (Admin.set_mint_fee payer m f st.world.router)
  exec notary payer (Instruction.set_treasury t) st =
      on_router st (Admin.set_treasury payer t st.world.router)
  exec notary payer (Instruction.change_mint_auth m c p n) st = on_world st (
      Admin.change_mint_auth runtime payer m c p n st.world.router st.world.tokens >>= λ tokens.
      ok (record st.world { tokens = tokens }))
  exec notary payer Instruction.pause st = on_router st (Admin.pause payer st.world.router)
  exec notary payer Instruction.unpause st = on_router st (Admin.unpause payer st.world.router)
  exec notary payer (Instruction.set_token_config m c) st =
      on_router st (Admin.set_token_config payer m c st.world.router)
  exec notary payer (Instruction.set_token_route r t) st =
      on_router st (Admin.set_token_route runtime payer r t st.world.router)
  exec notary payer (Instruction.unset_token_route r) st =
      on_router st (Admin.unset_token_route payer r st.world.router)
  exec notary payer (Instruction.change_native_mint m) st =
      on_router st (Admin.change_native_mint payer m st.world.router)
  exec notary payer (Instruction.grant_account_role a r) st =
      on_router st (Admin.grant_account_role payer a r st.world.router)
  exec notary payer (Instruction.revoke_account_roles a) st =
      on_router st (Admin.revoke_account_roles payer a st.world.router)
