-- ===== src/Consortium/Program/Authority.antt =====
-- Who may change the config, and how.
use sol_svm_contracts.Base.{ℕ, ◌+◌, ◌<◌, ◌≡◌, refl, subst, List, some, ok, arith}
use sol_svm_contracts.Consortium.State.{Config, State, Crypto}
use sol_svm_contracts.Consortium.Instruction.{Instruction}
use sol_svm_contracts.Consortium.Payload.{UpdateValSetPayload, from_session_payload}
use sol_svm_contracts.Consortium.Payload.Valset.{IsValset}
use sol_svm_contracts.Consortium.Program.{
  exec, update_valset, with_valset, initialize_config_with_valset,
}
use sol_svm_contracts.Consortium.Program.Inversion.{
  create_session_inv, close_session_for_epoch_inv, finalize_session_inv,
  post_session_signatures_inv, next_valset_inv, update_valset_inv, initialize_inv,
  transfer_ownership_inv, accept_ownership_inv, initialize_config_with_valset_inv,
  set_initial_valset_inv, set_initial_valset_from_session_inv, post_session_payload_inv,
}

module _ (crypto : Crypto) where
  -- How a signer may turn the config `c` into `c'`.
  pub data Change (payer : ℕ) (st : State) (c : Config) (c' : Config) : Type 0 where
    unchanged : c' ≡ c → Change payer st c c'
    offered :
        (new_admin : ℕ)
        → payer ≡ c.admin
        → c' ≡ record c { pending_admin = new_admin }
        → Change payer st c c'
    accepted :
        payer ≡ c.pending_admin
        → c' ≡ record c { admin = payer; pending_admin = 0 }
        → Change payer st c c'
    first_valset :
        (p : UpdateValSetPayload)
        → payer ≡ c.admin
        → c.current_epoch ≡ 0
        → IsValset p.validators p.weights p.weight_threshold p.epoch
        → c' ≡ with_valset c p
        → Change payer st c c'
    next_valset :
        (payload : List ℕ) (p : UpdateValSetPayload)
        → st.validated_payloads (crypto.sha256 payload)
          ≡ some (record { latest_epoch = c.current_epoch })
        → from_session_payload payload ≡ ok p
        → IsValset p.validators p.weights p.weight_threshold p.epoch
        → p.epoch ≡ c.current_epoch + 1
        → c.current_height < p.height
        → c' ≡ with_valset c p
        → Change payer st c c'

  first :
      (payer : ℕ) (st : State) (c c' : Config) (payload : List ℕ)
      → payer ≡ c.admin
      → initialize_config_with_valset c payload ≡ ok c'
      → Change payer st c c'
  first payer st c c' payload owner set =
      let (p, epoch, valid, eq) = initialize_config_with_valset_inv c c' payload set in
      first_valset p owner epoch valid eq

  next :
      (payer hash : ℕ) (st st' : State)
      → update_valset crypto payer hash st ≡ ok st'
      → (c : Config) × (c' : Config) × (st.config ≡ some c)
        × (st'.config ≡ some c')
        × Change payer st c c'
  next payer hash st st' h =
      let (c, c', v, s, e, validated, posted, fresh, next_set, eq) =
        update_valset_inv crypto payer hash st st' h in
      let (p, hashed, decoded, valid, epoch, higher, eq') =
        next_valset_inv crypto c c' hash s.payload next_set in
      (
        c,
        c',
        e,
        rw eq,
        next_valset s.payload p (ground (arith, hashed, validated, fresh)) decoded valid epoch
            higher eq',
      )

  -- Once the program is initialized it stays so, and an instruction that goes through leaves the
  -- config as it was, or its signer is the admin and offers the ownership, or the signer was offered
  -- it and accepts, or the signer is the admin and installs a first valid validator set, or a valid
  -- set for the next epoch, of a greater height, is installed from a payload that was validated in
  -- the current epoch.
  pub exec-Change :
      (payer : ℕ) (i : Instruction) (st st' : State) (c : Config)
      → exec crypto payer i st ≡ ok st'
      → st.config ≡ some c
      → (c' : Config) × (st'.config ≡ some c') × Change payer st c c'
  unfolding exec
  exec-Change payer (Instruction.initialize u a) st st' c h e =
      absurd (cc ((initialize_inv u payer a st st' h).0, e))
  exec-Change payer (Instruction.create_session k) st st' c h e =
      let (c₁, e₁, pos, eq) = create_session_inv payer k st st' h in (c, rw eq e, unchanged refl)
  exec-Change payer (Instruction.post_session_signatures k xs is) st st' c h e =
      let (c₁, s, s', e₁, there, pos, posted, eq) =
        post_session_signatures_inv crypto payer k xs is st st' h in
      (c, rw eq e, unchanged refl)
  exec-Change payer (Instruction.post_session_payload k chunk len) st st' c h e =
      let (s, a, fits, eq) = post_session_payload_inv payer k chunk len st st' h in
      (c, rw eq e, unchanged refl)
  exec-Change payer (Instruction.finalize_session k) st st' c h e =
      let (c₁, s, e₁, there, reached, eq) = finalize_session_inv payer k st st' h in
      (c, rw eq e, unchanged refl)
  exec-Change payer (Instruction.set_initial_valset payload) st st' c h e =
      let (c₁, c', e₁, owner, set, eq) = set_initial_valset_inv payer payload st st' h in
      (
        c',
        rw eq,
        subst (λ x. Change payer st x c') (ground arith) (first payer st c₁ c' payload owner set),
      )
  exec-Change payer (Instruction.set_initial_valset_from_session k) st st' c h e =
      let (c₁, c', s, e₁, owner, set, eq) = set_initial_valset_from_session_inv payer k st st' h in
      (
        c',
        rw eq,
        subst (λ x. Change payer st x c') (ground arith) (first payer st c₁ c' s.payload owner set),
      )
  exec-Change payer Instruction.accept_ownership st st' c h e =
      let (c₁, e₁, owner, eq) = accept_ownership_inv payer st st' h in
      (
        record c { admin = payer; pending_admin = 0 },
        ground (arith, eq),
        accepted (ground (arith, owner)) refl,
      )
  exec-Change payer (Instruction.transfer_ownership new_admin) st st' c h e =
      let (c₁, e₁, owner, eq) = transfer_ownership_inv payer new_admin st st' h in
      (
        record c { pending_admin = new_admin },
        ground (arith, eq),
        offered new_admin (ground (arith, owner)) refl,
      )
  exec-Change payer (Instruction.update_valset k) st st' c h e =
      let (c₁, c', e₁, e', change) = next payer k st st' h in
      (c', e', subst (λ x. Change payer st x c') (ground arith) change)
  exec-Change payer (Instruction.close_session_for_epoch k epoch) st st' c h e =
      (c, rw (close_session_for_epoch_inv payer k epoch st st' h) e, unchanged refl)
