-- ===== src/Consortium/Program/Reach.antt =====
-- The states that instructions lead to, from no accounts on.
use sol_svm_contracts.Base.{ℕ, List, ◌≡◌, refl, subst, Option, none, some, ok, arith}
use sol_svm_contracts.Consortium.State.{Config, State, Crypto, no_accounts, put_session}
use sol_svm_contracts.Consortium.Instruction.{Instruction}
use sol_svm_contracts.Consortium.Signatures.Weight.{post_signatures-IsSession}
use sol_svm_contracts.Consortium.Program.{
  exec, create_session, post_session_signatures, finalize_session, update_valset,
  close_session_for_epoch, initialize_config_with_valset,
}
use sol_svm_contracts.Consortium.Program.Inversion.{
  new_session, create_session_inv, close_session_for_epoch_inv, finalize_session_inv,
  post_session_signatures_inv, next_valset_inv, update_valset_inv, initialize_inv,
  transfer_ownership_inv, accept_ownership_inv, initialize_config_with_valset_inv,
  set_initial_valset_inv, set_initial_valset_from_session_inv, post_session_payload_inv,
}
use sol_svm_contracts.Consortium.Program.Invariant.{
  IsCurrent, IsConsistentWith, IsConsistent, new_session-IsSession, put-IsCurrent, remove-IsCurrent,
  valset-IsCurrent, owner-IsCurrent, fresh-IsCurrent,
}

module _ (crypto : Crypto) where
  -- Any signer may run any instruction; one that fails leaves the accounts as they are.
  pub data Leads (from : State) : State → Type 0 where
    start : Leads from from
    step :
        {st st' : State} (payer : ℕ) (i : Instruction)
        → Leads from st
        → exec crypto payer i st ≡ ok st'
        → Leads from st'

  abbrev pub Reach : State → Type 0
  Reach = Leads no_accounts

  pub with_config :
      (st : State) (c : Config)
      → st.config ≡ some c
      → IsConsistent crypto st
      → IsCurrent crypto c st.sessions
  with_config st c e k = subst (λ x. IsConsistentWith crypto x st.sessions) e k

  create_session-IsConsistent :
      (payer hash : ℕ) (st st' : State)
      → IsConsistent crypto st
      → create_session payer hash st ≡ ok st'
      → IsConsistent crypto st'
  create_session-IsConsistent payer hash st st' k h =
      let (c, e, pos, eq) = create_session_inv payer hash st st' h in
      rw (eq, e)
        (put-IsCurrent crypto c st.sessions payer hash (new_session c) (with_config st c e k) pos
          (new_session-IsSession crypto c hash))

  post_session_signatures-IsConsistent :
      (payer hash : ℕ) (signatures indices : List ℕ) (st st' : State)
      → IsConsistent crypto st
      → post_session_signatures crypto payer hash signatures indices st ≡ ok st'
      → IsConsistent crypto st'
  post_session_signatures-IsConsistent payer hash xs is st st' k h =
      let (c, s, s', e, there, pos, posted, eq) =
        post_session_signatures_inv crypto payer hash xs is st st' h in
      let current = with_config st c e k in
      rw (eq, e)
        (put-IsCurrent crypto c st.sessions payer hash s' current pos (
          post_signatures-IsSession crypto c hash xs is s s' (current.genuine payer hash s there)
            posted))

  finalize_session-IsConsistent :
      (payer hash : ℕ) (st st' : State)
      → IsConsistent crypto st
      → finalize_session payer hash st ≡ ok st'
      → IsConsistent crypto st'
  finalize_session-IsConsistent payer hash st st' k h =
      let (c, s, e, there, reached, eq) = finalize_session_inv payer hash st st' h in
      rw (eq, e)
        (remove-IsCurrent crypto c st.sessions c.current_epoch payer hash (with_config st c e k))

  close_session_for_epoch-IsConsistent :
      (payer hash epoch : ℕ) (st st' : State)
      → IsConsistent crypto st
      → close_session_for_epoch payer hash epoch st ≡ ok st'
      → IsConsistent crypto st'
  close_session_for_epoch-IsConsistent payer hash epoch st st' k h =
      rw (close_session_for_epoch_inv payer hash epoch st st' h) (remove st.config k)
    where
      remove :
          (o : Option Config)
          → IsConsistentWith crypto o st.sessions
          → IsConsistentWith crypto o (put_session epoch payer hash none st.sessions)
      remove none empty = λ e p h. ground (arith, empty e p h)
      remove (some c) current = remove-IsCurrent crypto c st.sessions epoch payer hash current

  initial_valset-IsConsistent :
      (st : State) (c c' : Config) (payload : List ℕ)
      → IsConsistent crypto st
      → st.config ≡ some c
      → initialize_config_with_valset c payload ≡ ok c'
      → IsCurrent crypto c' st.sessions
  initial_valset-IsConsistent st c c' payload k e set =
      let (p, zero_epoch, valid, eq) = initialize_config_with_valset_inv c c' payload set in
      rw eq (
        valset-IsCurrent crypto c p st.sessions (with_config st c e k) valid
          (omega (arith, valid.has_epoch)))

  update_valset-IsConsistent :
      (payer hash : ℕ) (st st' : State)
      → IsConsistent crypto st
      → update_valset crypto payer hash st ≡ ok st'
      → IsConsistent crypto st'
  update_valset-IsConsistent payer hash st st' k h =
      let (c, c', v, s, e, validated, posted, fresh, next, eq) =
        update_valset_inv crypto payer hash st st' h in
      let (p, hashed, decoded, valid, next_epoch, higher, eq') =
        next_valset_inv crypto c c' hash s.payload next in
      rw (eq, eq')
        (valset-IsCurrent crypto c p st.sessions (with_config st c e k) valid (omega arith))

  -- Every instruction preserves the invariant: before `initialize` there is no session; then the
  -- validator set is valid once there is one, every session is of epoch 1 up to the current one, and
  -- a session of the current epoch has a mark for each validator, marks only validators who have
  -- signed its payload hash, and has the sum of their weights as its weight.
  pub exec-IsConsistent :
      (payer : ℕ) (i : Instruction) (st st' : State)
      → IsConsistent crypto st
      → exec crypto payer i st ≡ ok st'
      → IsConsistent crypto st'
  unfolding exec
  exec-IsConsistent payer (Instruction.initialize u a) st st' k h =
      let (e, eq) = initialize_inv u payer a st st' h in
      rw eq (
        fresh-IsCurrent crypto _ st.sessions refl
          (subst (λ x. IsConsistentWith crypto x st.sessions) e k))
  exec-IsConsistent payer (Instruction.create_session hash) st st' k h =
      create_session-IsConsistent payer hash st st' k h
  exec-IsConsistent payer (Instruction.post_session_signatures hash xs is) st st' k h =
      post_session_signatures-IsConsistent payer hash xs is st st' k h
  exec-IsConsistent payer (Instruction.post_session_payload hash chunk len) st st' k h =
      let (s, a, fits, eq) = post_session_payload_inv payer hash chunk len st st' h in rw eq k
  exec-IsConsistent payer (Instruction.finalize_session hash) st st' k h =
      finalize_session-IsConsistent payer hash st st' k h
  exec-IsConsistent payer (Instruction.set_initial_valset payload) st st' k h =
      let (c, c', e, owner, set, eq) = set_initial_valset_inv payer payload st st' h in
      rw eq (initial_valset-IsConsistent st c c' payload k e set)
  exec-IsConsistent payer (Instruction.set_initial_valset_from_session hash) st st' k h =
      let (c, c', s, e, owner, set, eq) = set_initial_valset_from_session_inv payer hash st st' h in
      rw eq (initial_valset-IsConsistent st c c' s.payload k e set)
  exec-IsConsistent payer Instruction.accept_ownership st st' k h =
      let (c, e, owner, eq) = accept_ownership_inv payer st st' h in
      rw eq (owner-IsCurrent crypto c payer 0 st.sessions (with_config st c e k))
  exec-IsConsistent payer (Instruction.transfer_ownership new_admin) st st' k h =
      let (c, e, owner, eq) = transfer_ownership_inv payer new_admin st st' h in
      rw eq (owner-IsCurrent crypto c c.admin new_admin st.sessions (with_config st c e k))
  exec-IsConsistent payer (Instruction.update_valset hash) st st' k h =
      update_valset-IsConsistent payer hash st st' k h
  exec-IsConsistent payer (Instruction.close_session_for_epoch hash epoch) st st' k h =
      close_session_for_epoch-IsConsistent payer hash epoch st st' k h

  pub Reach-IsConsistent : {st : State} → Reach st → IsConsistent crypto st
  Reach-IsConsistent start = λ e p h. refl
  Reach-IsConsistent (step {st} {st'} payer i r h) =
      exec-IsConsistent payer i st st' (Reach-IsConsistent r) h
