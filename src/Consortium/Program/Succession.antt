-- ===== src/Consortium/Program/Succession.antt =====
-- Each validator set authorizes the next one.
use sol_svm_contracts.Base.{
  ℕ, ◌+◌, ◌<◌, ◌≡◌, refl, sym, ◌∙◌, subst, List, Bool, some, ◌⊎◌, inl, inr, ok, arith,
}
use sol_svm_contracts.Consortium.State.{Config, SessionPayload, State, Crypto}
use sol_svm_contracts.Consortium.Payload.{UpdateValSetPayload, from_session_payload}
use sol_svm_contracts.Consortium.Payload.Valset.{IsValset}
use sol_svm_contracts.Consortium.Program.{update_valset}
use sol_svm_contracts.Consortium.Program.Inversion.{update_valset_inv, next_valset_inv}
use sol_svm_contracts.Consortium.Program.Reach.{Leads, start, step, Reach}
use sol_svm_contracts.Consortium.Program.Quorum.{HasQuorum, validated_payload-HasQuorum}
use sol_svm_contracts.Consortium.Program.Authority.{
  Change, unchanged, offered, accepted, first_valset, next_valset, exec-Change,
}

-- Epoch, validators, weights, threshold and height are those of `c`.
abbrev pub SameValset : Config → Config → Type 0
SameValset c c' =
    (admin : ℕ) × (pending_admin : ℕ) × (c'
      ≡ record c { admin = admin; pending_admin = pending_admin })

module _ (crypto : Crypto) where
  Change-epoch :
      {payer : ℕ} {st : State} {c c' : Config}
      → Change crypto payer st c c'
      → SameValset c c' ⊎ (c.current_epoch < c'.current_epoch)
  Change-epoch {c = c} (unchanged eq) = inl (c.admin, c.pending_admin, eq)
  Change-epoch {c = c} (offered new_admin owner eq) = inl (c.admin, new_admin, eq)
  Change-epoch {payer} (accepted owner eq) = inl (payer, 0, eq)
  Change-epoch (first_valset p owner epoch valid eq) = inr (rw eq (omega (arith, valid.has_epoch)))
  Change-epoch (next_valset payload p validated decoded valid epoch higher eq) =
      inr (rw eq (omega arith))

  same_then :
      (c₀ c c' : Config)
      → SameValset c₀ c ⊎ (c₀.current_epoch < c.current_epoch)
      → SameValset c c' ⊎ (c.current_epoch < c'.current_epoch)
      → SameValset c₀ c' ⊎ (c₀.current_epoch < c'.current_epoch)
  same_then c₀ c c' (inl (a, b, eq)) (inl (a', b', eq')) = inl (a', b', rw (eq', eq))
  same_then c₀ c c' (inl (a, b, eq)) (inr later) = inr (ground (arith, eq))
  same_then c₀ c c' (inr later) (inl (a', b', eq')) = inr (ground (arith, eq'))
  same_then c₀ c c' (inr later) (inr later') = inr (omega arith)

  -- Along any sequence of instructions the validator set, its threshold, epoch and height stay, or
  -- the epoch has grown: no epoch has two validator sets, and no epoch comes back.
  pub Leads-epoch :
      {past st : State} (c₀ : Config)
      → Leads crypto past st
      → past.config ≡ some c₀
      → (c : Config) × (st.config ≡ some c)
        × (SameValset c₀ c ⊎ (c₀.current_epoch < c.current_epoch))
  Leads-epoch c₀ start e = (c₀, e, inl (c₀.admin, c₀.pending_admin, refl))
  Leads-epoch c₀ (step {st} {st'} payer i r h) e =
      let (c, e₁, so_far) = Leads-epoch c₀ r e in
      let (c', e₂, change) = exec-Change crypto payer i st st' c h e₁ in
      (c', e₂, same_then c₀ c c' so_far (Change-epoch change))

  owner-HasQuorum :
      (c : Config) (admin pending_admin hash : ℕ) (marks : List Bool)
      → HasQuorum crypto c hash marks
      → HasQuorum crypto (record c { admin = admin; pending_admin = pending_admin }) hash marks
  owner-HasQuorum c admin pending_admin hash marks q = record {
    valid = q.valid;
    one_each = q.one_each;
    signed = q.signed;
    reached = q.reached;
  }

  -- In any state that instructions can lead to, `update_valset` replaces the validator set by what the
  -- payload decodes to that the caller has posted under the hash. The payload has that hash, and
  -- validators of the very set that is replaced have signed it, with weights that reach its
  -- threshold. The new set is valid, of the next epoch and of a greater height; the admins stay.
  pub update_valset-HasQuorum :
      (payer hash : ℕ) {st st' : State}
      → Reach crypto st
      → update_valset crypto payer hash st ≡ ok st'
      → (c : Config) × (marks : List Bool) × (s : SessionPayload) × (p : UpdateValSetPayload)
        × (st.config ≡ some c)
        × (st.session_payloads payer hash ≡ some s)
        × HasQuorum crypto c hash marks
        × (crypto.sha256 s.payload ≡ hash)
        × (from_session_payload s.payload ≡ ok p)
        × IsValset p.validators p.weights p.weight_threshold p.epoch
        × (p.epoch ≡ c.current_epoch + 1)
        × (c.current_height < p.height)
        × (st'.config
            ≡ some (record {
              admin = c.admin;
              pending_admin = c.pending_admin;
              current_epoch = p.epoch;
              current_validators = p.validators;
              current_weights = p.weights;
              current_weight_threshold = p.weight_threshold;
              current_height = p.height;
            }))
  update_valset-HasQuorum payer hash {st} {st'} r h =
      let (c, c', v, s, e, validated, posted, fresh, next, eq) =
        update_valset_inv crypto payer hash st st' h in
      let (p, hashed, decoded, valid, following, higher, eq₁) =
        next_valset_inv crypto c c' hash s.payload next in
      let (past, c₀, marks, before, leads, e₀, epoch, quorum) =
        validated_payload-HasQuorum crypto hash v r validated in
      let (c₁, e₁, which) = Leads-epoch c₀ leads e₀ in
      let same : c₁ ≡ c = ground (arith, e, e₁) in
      elim which [
        | inl (a, b, eq') ↦ (
          c,
          marks,
          s,
          p,
          e,
          posted,
          subst (λ x. HasQuorum crypto x hash marks) (sym eq' ∙ same)
              (owner-HasQuorum c₀ a b hash marks quorum),
          hashed,
          decoded,
          valid,
          following,
          higher,
          rw (eq, eq₁) refl,
        )
        | inr later ↦ absurd (ground (arith, same, later, epoch, fresh))
      ]
