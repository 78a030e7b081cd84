-- ===== src/Consortium/Program/Invariant.antt =====
-- What holds of the accounts after any sequence of instructions.
use sol_svm_contracts.Base.{
  ℕ, ◌≤◌, ◌<◌, ◌≡◌, refl, sym, subst, true, false, ◌&&◌, ◌==◌, List, [], Option, none, some, ◌⊎◌,
  inl, inr, length, replicate, length-replicate, get_elem?, arith, Bool-cases, zero, suc, ◌∷◌,
}
use sol_svm_contracts.Consortium.State.{Config, Session, State, Crypto, put_session}
use sol_svm_contracts.Consortium.Payload.{UpdateValSetPayload}
use sol_svm_contracts.Consortium.Payload.Valset.{IsValset}
use sol_svm_contracts.Consortium.Signatures.Weight.{signed_weight, IsSession}
use sol_svm_contracts.Consortium.Program.{with_valset}
use sol_svm_contracts.Consortium.Program.Inversion.{new_session}

-- The sessions, by epoch, payer and payload hash.
abbrev pub Sessions : Type 0
Sessions = ℕ → ℕ → ℕ → Option Session

signed_weight-unsigned : (n : ℕ) (ws : List ℕ) → signed_weight (replicate n false) ws ≡ 0
signed_weight-unsigned zero ws = refl
signed_weight-unsigned (suc n) [] = refl
signed_weight-unsigned (suc n) (w ∷ ws) = signed_weight-unsigned n ws

none_signed : (n i : ℕ) → get_elem? (replicate n false) i ≡ some true → ⊥
none_signed zero i h = cc
none_signed (suc n) zero h = cc
none_signed (suc n) (suc i) h = none_signed n i h

module _ (crypto : Crypto) where
  -- Once there is a validator set it is valid. No session belongs to a future epoch or to epoch 0,
  -- and those of the current epoch count genuine signatures of the current validators.
  pub record IsCurrent (c : Config) (m : Sessions) : Type 0 where
    pub valset :
        (c.current_epoch ≡ 0)
        ⊎ IsValset c.current_validators c.current_weights c.current_weight_threshold c.current_epoch
    pub past : (e p h : ℕ) (s : Session) → m e p h ≡ some s → (0 < e) × (e ≤ c.current_epoch)
    pub genuine : (p h : ℕ) (s : Session) → m c.current_epoch p h ≡ some s → IsSession crypto c h s

  abbrev pub IsConsistentWith : Option Config → Sessions → Type 0
  IsConsistentWith none m = (e p h : ℕ) → m e p h ≡ none
  IsConsistentWith (some c) m = IsCurrent c m

  abbrev pub IsConsistent : State → Type 0
  IsConsistent st = IsConsistentWith st.config st.sessions

  pub new_session-IsSession : (c : Config) (h : ℕ) → IsSession crypto c h (new_session c)
  new_session-IsSession c h = record {
    same_length = length-replicate (length c.current_validators) false;
    counted = sym (signed_weight-unsigned (length c.current_validators) c.current_weights);
    genuine = λ i e. absurd (none_signed (length c.current_validators) i e);
  }

  pub put-IsCurrent :
      (c : Config) (m : Sessions) (payer hash : ℕ) (s : Session)
      → IsCurrent c m
      → 0 < c.current_epoch
      → IsSession crypto c hash s
      → IsCurrent c (put_session c.current_epoch payer hash (some s) m)
  put-IsCurrent c m payer hash s k pos good = record {
    valset = k.valset;
    past = λ e p h s' found. ground (arith, k.past e p h s');
    genuine = λ p h s' found. elim (Bool-cases ((p == payer) && (h == hash))) [
      | inl same ↦
          let is_new : s ≡ s' = ground arith in
          let its_hash : hash ≡ h = ground arith in
          subst (λ x. IsSession crypto c x s') its_hash
            (subst (λ x. IsSession crypto c hash x) is_new good)
      | inr other ↦ k.genuine p h s' (ground arith)
    ];
  }

  pub remove-IsCurrent :
      (c : Config) (m : Sessions) (epoch payer hash : ℕ)
      → IsCurrent c m
      → IsCurrent c (put_session epoch payer hash none m)
  remove-IsCurrent c m epoch payer hash k = record {
    valset = k.valset;
    past = λ e p h s' found. ground (arith, k.past e p h s');
    genuine = λ p h s' found. k.genuine p h s' (ground arith);
  }

  -- A first set, or one for the next epoch: no session of its epoch is there yet.
  pub valset-IsCurrent :
      (c : Config) (p : UpdateValSetPayload) (m : Sessions)
      → IsCurrent c m
      → IsValset p.validators p.weights p.weight_threshold p.epoch
      → c.current_epoch < p.epoch
      → IsCurrent (with_valset c p) m
  valset-IsCurrent c p m k valid later = record {
    valset = inr valid;
    past = λ e payer h s found. let (pos, le) = k.past e payer h s found in (pos, omega arith);
    genuine =
        λ payer h s found. let (pos, le) = k.past p.epoch payer h s found in absurd (omega arith);
  }

  pub owner-IsCurrent :
      (c : Config) (admin pending_admin : ℕ) (m : Sessions)
      → IsCurrent c m
      → IsCurrent (record c { admin = admin; pending_admin = pending_admin }) m
  owner-IsCurrent c admin pending_admin m k = record {
    valset = k.valset;
    past = k.past;
    genuine = λ p h s found.
        let good = k.genuine p h s found in
        record { same_length = good.same_length; counted = good.counted; genuine = good.genuine };
  }

  pub fresh-IsCurrent :
      (c : Config) (m : Sessions) → c.current_epoch ≡ 0 → IsConsistentWith none m → IsCurrent c m
  fresh-IsCurrent c m e empty = record {
    valset = inl e;
    past = λ e p h s found. absurd (cc (empty e p h, found));
    genuine = λ p h s found. absurd (cc (empty c.current_epoch p h, found));
  }
