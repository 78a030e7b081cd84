-- ===== src/Consortium/Program/Liveness.antt =====
-- Signatures that reach the threshold are enough to validate a payload.
use sol_svm_contracts.Base.{
  ℕ, ◌≤◌, ◌<◌, ◌≡◌, List, [], ◌∷◌, none, some, length, All, lt_of_get_elem?, Outcome, ok, ◌>>=◌,
  arith,
}
use sol_svm_contracts.Consortium.State.{
  Error, Config, Session, State, Crypto, put_session, put_validated_payload,
}
use sol_svm_contracts.Consortium.Payload.Valset.{IsValset, Distinct}
use sol_svm_contracts.Consortium.Signatures.{post_signatures}
use sol_svm_contracts.Consortium.Signatures.Weight.{post_signatures-IsSession}
use sol_svm_contracts.Consortium.Signatures.Progress.{
  AllGenuine, post_signatures_total, post_signatures_marks,
}
use sol_svm_contracts.Consortium.Signatures.Quorum.{total_weight, total_weight-le-signed_weight}
use sol_svm_contracts.Consortium.Program.{create_session, post_session_signatures, finalize_session}
use sol_svm_contracts.Consortium.Program.Inversion.{new_session}
use sol_svm_contracts.Consortium.Program.Invariant.{new_session-IsSession}

module _ (crypto : Crypto) (c : Config) (payer hash : ℕ) where
  -- The three calls of a notary session in which all signatures are posted at once.
  abbrev pub notarize : (signatures indices : List ℕ) → State → Outcome Error State
  notarize signatures indices st = do
    opened ← create_session payer hash st
    signed ← post_session_signatures crypto payer hash signatures indices opened
    finalize_session payer hash signed

  opens :
      (st : State)
      → st.config ≡ some c
      → st.sessions c.current_epoch payer hash ≡ none
      → 0 < c.current_epoch
      → (st' : State) × (create_session payer hash st ≡ ok st')
        × (st'.config ≡ some c)
        × (st'.sessions c.current_epoch payer hash ≡ some (new_session c))
  unfolding create_session
  opens st e free pos = (
    record st {
      sessions = put_session c.current_epoch payer hash (some (new_session c)) st.sessions;
    },
    ground arith,
    ground arith,
    ground arith,
  )

  posts :
      (signatures indices : List ℕ) (s s' : Session) (st : State)
      → st.config ≡ some c
      → st.sessions c.current_epoch payer hash ≡ some s
      → 0 < c.current_epoch
      → length signatures ≡ length indices
      → post_signatures crypto c hash signatures indices s ≡ ok s'
      → (st' : State) × (post_session_signatures crypto payer hash signatures indices st ≡ ok st')
        × (st'.config ≡ some c)
        × (st'.sessions c.current_epoch payer hash ≡ some s')
  unfolding post_session_signatures
  posts signatures indices s s' st e there pos len posted = (
    record st { sessions = put_session c.current_epoch payer hash (some s') st.sessions },
    ground arith,
    ground arith,
    ground arith,
  )

  finalizes :
      (s : Session) (st : State)
      → st.config ≡ some c
      → st.sessions c.current_epoch payer hash ≡ some s
      → c.current_weight_threshold ≤ s.weight
      → (st' : State) × (finalize_session payer hash st ≡ ok st')
        × (st'.validated_payloads hash ≡ some (record { latest_epoch = c.current_epoch }))
        × (st'.sessions c.current_epoch payer hash ≡ none)
  unfolding finalize_session
  finalizes s st e there enough = (
    record st {
      sessions = put_session c.current_epoch payer hash none st.sessions;
      validated_payloads =
          put_validated_payload hash (record { latest_epoch = c.current_epoch })
            st.validated_payloads;
    },
    ground arith,
    ground arith,
    ground arith,
  )

  in_range :
      (signatures indices : List ℕ)
      → length signatures ≡ length indices
      → AllGenuine crypto c hash signatures indices
      → All (λ i. i < length c.current_validators) indices
  in_range [] [] len g = tt
  in_range [] (i ∷ is) len g = absurd (omega arith)
  in_range (x ∷ xs) [] len g = tt
  in_range (x ∷ xs) (i ∷ is) len g =
      let (v, found, checks) = g.0 in
      (lt_of_get_elem? c.current_validators i found, in_range xs is (omega arith) g.1)

  module _
      (valid : IsValset c.current_validators c.current_weights c.current_weight_threshold
        c.current_epoch)
      (signatures indices : List ℕ) (same_length : length signatures ≡ length indices)
      (genuine : AllGenuine crypto c hash signatures indices) where
    -- All signatures are taken, and the session's weight is at least that of their validators.
    collected :
        Distinct indices
        → (s : Session) × (post_signatures crypto c hash signatures indices (new_session c) ≡ ok s)
          × (total_weight c.current_weights indices ≤ s.weight)
    collected distinct =
        let fresh = new_session-IsSession crypto c hash in
        let (s, posted) =
          post_signatures_total crypto c hash valid signatures indices (new_session c) fresh
            (in_range signatures indices same_length genuine) in
        let good =
          post_signatures-IsSession crypto c hash signatures indices (new_session c) s fresh
            posted in
        let marked =
          post_signatures_marks crypto c hash signatures indices (new_session c) s same_length
            genuine posted in
        (
          s,
          posted,
          omega (
            arith,
            good.counted,
            total_weight-le-signed_weight s.signed c.current_weights indices distinct marked,
          ),
        )

    -- With a valid validator set `c`, no session yet for the payer and the payload, and genuine
    -- signatures by validators with distinct indices whose weights reach the threshold, opening the
    -- session, posting the signatures and finalizing it all go through, and the payload is recorded
    -- as validated in the current epoch.
    pub notarize_validates :
        (st : State)
        → st.config ≡ some c
        → st.sessions c.current_epoch payer hash ≡ none
        → Distinct indices
        → c.current_weight_threshold ≤ total_weight c.current_weights indices
        → (st' : State) × (notarize signatures indices st ≡ ok st')
          × (st'.validated_payloads hash ≡ some (record { latest_epoch = c.current_epoch }))
          × (st'.sessions c.current_epoch payer hash ≡ none)
    notarize_validates st e free distinct enough =
        let (s, posted, weight) = collected distinct in
        let (st₁, opened, e₁, there₁) = opens st e free valid.has_epoch in
        let (st₂, signed, e₂, there₂) =
          posts signatures indices (new_session c) s st₁ e₁ there₁ valid.has_epoch same_length
            posted in
        let (st₃, finalized, recorded, closed) = finalizes s st₂ e₂ there₂ (omega arith) in
        (st₃, rw (opened, signed) finalized, recorded, closed)
