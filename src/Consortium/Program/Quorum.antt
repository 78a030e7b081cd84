-- ===== src/Consortium/Program/Quorum.antt =====
-- Why a validated payload can be trusted: `finalize_session` and what it rests on.
use sol_svm_contracts.Base.{
  ℕ, ◌≤◌, ◌≡◌, sym, ◌∙◌, Bool, true, List, some, ◌⊎◌, inl, inr, ◌==◌, length, get_elem?, ok, arith,
  Bool-cases, ==_iff,
}
use sol_svm_contracts.Consortium.State.{Config, ValidatedPayload, State, Crypto}
use sol_svm_contracts.Consortium.Instruction.{Instruction}
use sol_svm_contracts.Consortium.Payload.Valset.{IsValset}
use sol_svm_contracts.Consortium.Signatures.Weight.{signed_weight, HasSigned}
use sol_svm_contracts.Consortium.Program.{exec, finalize_session}
use sol_svm_contracts.Consortium.Program.Inversion.{
  create_session_inv, close_session_for_epoch_inv, finalize_session_inv,
  post_session_signatures_inv, update_valset_inv, initialize_inv, transfer_ownership_inv,
  accept_ownership_inv, set_initial_valset_inv, set_initial_valset_from_session_inv,
  post_session_payload_inv,
}
use sol_svm_contracts.Consortium.Program.Reach.{
  Leads, start, step, Reach, with_config, Reach-IsConsistent,
}

module _ (crypto : Crypto) where
  -- Validators of the set `c` that have each signed the payload reach the threshold together: one
  -- mark for each validator, so none is counted twice.
  pub record HasQuorum (c : Config) (hash : ℕ) (marks : List Bool) : Type 0 where
    pub valid :
        IsValset c.current_validators c.current_weights c.current_weight_threshold c.current_epoch
    pub one_each : length marks ≡ length c.current_validators
    pub signed : (i : ℕ) → get_elem? marks i ≡ some true → HasSigned crypto c hash i
    pub reached : c.current_weight_threshold ≤ signed_weight marks c.current_weights

  -- In any state that instructions can lead to, a session that is finalized has a quorum: its marks
  -- stand for genuine signatures of the payload hash by distinct current validators, whose weights
  -- reach the threshold, and the payload is recorded as validated in the current epoch.
  pub finalize_session-HasQuorum :
      (payer hash : ℕ) {st st' : State}
      → Reach crypto st
      → finalize_session payer hash st ≡ ok st'
      → (c : Config) × (marks : List Bool) × (st.config ≡ some c)
        × HasQuorum c hash marks
        × (st'.validated_payloads hash ≡ some (record { latest_epoch = c.current_epoch }))
  finalize_session-HasQuorum payer hash {st} {st'} r h =
      let (c, s, e, there, reached, eq) = finalize_session_inv payer hash st st' h in
      let current = with_config crypto st c e (Reach-IsConsistent crypto r) in
      let good = current.genuine payer hash s there in
      let (pos, _) = current.past c.current_epoch payer hash s there in
      (
        c,
        s.signed,
        e,
        record {
          valid = elim current.valset [ inl no_set ↦ absurd (omega arith) | inr valid ↦ valid ];
          one_each = good.same_length;
          signed = good.genuine;
          reached = omega (arith, good.counted);
        },
        ground arith,
      )

  -- Only `finalize_session` touches the validated payloads.
  exec-validated_payloads :
      (payer : ℕ) (i : Instruction) (st st' : State) (hash : ℕ)
      → exec crypto payer i st ≡ ok st'
      → (st'.validated_payloads hash ≡ st.validated_payloads hash)
        ⊎ (finalize_session payer hash st ≡ ok st')
  unfolding exec
  exec-validated_payloads payer (Instruction.initialize u a) st st' hash h =
      inl (rw (initialize_inv u payer a st st' h).1)
  exec-validated_payloads payer (Instruction.create_session k) st st' hash h =
      let (c, e, pos, eq) = create_session_inv payer k st st' h in inl (rw eq)
  exec-validated_payloads payer (Instruction.post_session_signatures k xs is) st st' hash h =
      let (c, s, s', e, there, pos, posted, eq) =
        post_session_signatures_inv crypto payer k xs is st st' h in
      inl (rw eq)
  exec-validated_payloads payer (Instruction.post_session_payload k chunk len) st st' hash h =
      let (s, a, fits, eq) = post_session_payload_inv payer k chunk len st st' h in inl (rw eq)
  exec-validated_payloads payer (Instruction.finalize_session k) st st' hash h =
      let (c, s, e, there, reached, eq) = finalize_session_inv payer k st st' h in
      elim (Bool-cases (hash == k)) [
        | inl same ↦ inr (rw ((==_iff hash k).0 same) h)
        | inr other ↦ inl (ground arith)
      ]
  exec-validated_payloads payer (Instruction.set_initial_valset payload) st st' hash h =
      let (c, c', e, owner, set, eq) = set_initial_valset_inv payer payload st st' h in inl (rw eq)
  exec-validated_payloads payer (Instruction.set_initial_valset_from_session k) st st' hash h =
      let (c, c', s, e, owner, set, eq) = set_initial_valset_from_session_inv payer k st st' h in
      inl (rw eq)
  exec-validated_payloads payer Instruction.accept_ownership st st' hash h =
      let (c, e, owner, eq) = accept_ownership_inv payer st st' h in inl (rw eq)
  exec-validated_payloads payer (Instruction.transfer_ownership new_admin) st st' hash h =
      let (c, e, owner, eq) = transfer_ownership_inv payer new_admin st st' h in inl (rw eq)
  exec-validated_payloads payer (Instruction.update_valset k) st st' hash h =
      let (c, c', v, s, e, validated, posted, fresh, next, eq) =
        update_valset_inv crypto payer k st st' h in
      inl (rw eq)
  exec-validated_payloads payer (Instruction.close_session_for_epoch k epoch) st st' hash h =
      inl (rw (close_session_for_epoch_inv payer k epoch st st' h))

  -- The state in which a payload was last validated, on the way to `st`.
  abbrev pub WasValidated : (hash : ℕ) → ValidatedPayload → State → Type 0
  WasValidated hash v st =
      (past : State) × (c : Config) × (marks : List Bool) × Reach crypto past
      × Leads crypto past st
      × (past.config ≡ some c)
      × (c.current_epoch ≡ v.latest_epoch)
      × HasQuorum c hash marks

  -- Every payload that is recorded as validated, after any sequence of instructions by any signers,
  -- had a quorum in an earlier state of that sequence, of the validators that were current then; and
  -- the epoch that is recorded with it is the epoch of that state.
  pub validated_payload-HasQuorum :
      {st : State} (hash : ℕ) (v : ValidatedPayload)
      → Reach crypto st
      → st.validated_payloads hash ≡ some v
      → WasValidated hash v st
  validated_payload-HasQuorum hash v start found = absurd (cc found)
  validated_payload-HasQuorum hash v (step {st} {st'} payer i r h) found =
      elim (exec-validated_payloads payer i st st' hash h) [
        | inl same ↦
            let (past, c, marks, before, leads, e, epoch, quorum) =
              validated_payload-HasQuorum hash v r (sym same ∙ found) in
            (past, c, marks, before, step payer i leads h, e, epoch, quorum)
        | inr finalized ↦
            let (c, marks, e, quorum, recorded) =
              finalize_session-HasQuorum payer hash r finalized in
            (st, c, marks, r, step payer i start h, e, ground (arith, recorded), quorum)
      ]
