-- ===== src/Consortium/Signatures/Weight.antt =====
-- The weight of a session is that of the validators whose signatures it has seen.
use sol_svm_contracts.Base.{
  ℕ, zero, suc, ◌+◌, ◌≤◌, ◌≡◌, sym, ap, ◌∙◌, subst, Bool, true, false, List, [], ◌∷◌, some, ◌⊎◌,
  inl, inr, ◌==◌, length, get_elem?, set, length-set, get_elem?-set_ne, ok, >>=-eq-ok, arith,
  Bool-cases, Option-cases, ==_iff,
}
use sol_svm_contracts.Consortium.State.{Config, Session, Crypto}
use sol_svm_contracts.Consortium.Payload.Valset.{sum}
use sol_svm_contracts.Consortium.Signatures.{
  check_signature, add_signature, post_signature, post_signatures,
}

-- The sum of the weights that are marked.
abbrev pub signed_weight : List Bool → List ℕ → ℕ
signed_weight [] ws = 0
signed_weight (b ∷ bs) [] = 0
signed_weight (true ∷ bs) (w ∷ ws) = w + signed_weight bs ws
signed_weight (false ∷ bs) (w ∷ ws) = signed_weight bs ws

pub signed_weight-le-sum : (bs : List Bool) (ws : List ℕ) → signed_weight bs ws ≤ sum ws
signed_weight-le-sum [] ws = omega arith
signed_weight-le-sum (b ∷ bs) [] = omega arith
signed_weight-le-sum (true ∷ bs) (w ∷ ws) = omega (arith, signed_weight-le-sum bs ws)
signed_weight-le-sum (false ∷ bs) (w ∷ ws) = omega (arith, signed_weight-le-sum bs ws)

pub signed_weight-set :
    (bs : List Bool) (ws : List ℕ) (i w : ℕ)
    → get_elem? bs i ≡ some false
    → get_elem? ws i ≡ some w
    → signed_weight (set bs i true) ws ≡ signed_weight bs ws + w
signed_weight-set [] ws i w hb hw = cc
signed_weight-set (b ∷ bs) [] i w hb hw = cc
signed_weight-set (true ∷ bs) (x ∷ ws) zero w hb hw = cc
signed_weight-set (false ∷ bs) (x ∷ ws) zero w hb hw = ground arith
signed_weight-set (true ∷ bs) (x ∷ ws) (suc i) w hb hw =
    omega (arith, signed_weight-set bs ws i w hb hw)
signed_weight-set (false ∷ bs) (x ∷ ws) (suc i) w hb hw =
    omega (arith, signed_weight-set bs ws i w hb hw)

module _ (crypto : Crypto) (c : Config) (hash : ℕ) where
  -- The validator at `i` has signed the payload: some signature of it passes the check.
  abbrev pub HasSigned : ℕ → Type 0
  HasSigned i =
      (validator : ℕ) × (signature : ℕ) × (get_elem? c.current_validators i ≡ some validator)
      × (check_signature crypto validator signature hash ≡ true)

  -- The marks of a session stand for signatures, and its weight is theirs.
  pub record IsSession (s : Session) : Type 0 where
    pub same_length : length s.signed ≡ length c.current_validators
    pub counted : s.weight ≡ signed_weight s.signed c.current_weights
    pub genuine : (i : ℕ) → get_elem? s.signed i ≡ some true → HasSigned i

  -- What one round does: nothing, or it counts a validator that had not signed.
  abbrev pub Counts : (signature index : ℕ) → Session → Session → Type 0
  Counts signature index s s' =
      (validator : ℕ) × (weight : ℕ) × (get_elem? s.signed index ≡ some false)
      × (get_elem? c.current_validators index ≡ some validator)
      × (check_signature crypto validator signature hash ≡ true)
      × (get_elem? c.current_weights index ≡ some weight)
      × (s' ≡ record { signed = set s.signed index true; weight = s.weight + weight })

  add_signature_cases :
      (signature index : ℕ) (s s' : Session)
      → get_elem? s.signed index ≡ some false
      → add_signature crypto c hash signature index s ≡ ok s'
      → (s' ≡ s) ⊎ Counts signature index s s'
  unfolding add_signature
  add_signature_cases signature index s s' hs h =
      elim (Option-cases (get_elem? c.current_validators index)) [
        | inl out ↦ ground arith
        | inr (v, hv) ↦ elim (Option-cases (get_elem? c.current_weights index)) [
          | inl out ↦ elim (Bool-cases (check_signature crypto v signature hash)) [
            | inl good ↦ ground arith
            | inr bad ↦ inl (ground arith)
          ]
          | inr (w, hw) ↦ elim (Bool-cases (check_signature crypto v signature hash)) [
            | inl good ↦ inr (v, w, hs, hv, good, hw, ground arith)
            | inr bad ↦ inl (ground arith)
          ]
        ]
      ]

  pub post_signature_cases :
      (signature index : ℕ) (s s' : Session)
      → post_signature crypto c hash signature index s ≡ ok s'
      → (s' ≡ s) ⊎ Counts signature index s s'
  unfolding post_signature
  post_signature_cases signature index s s' h = elim (Option-cases (get_elem? s.signed index)) [
    | inl out ↦ ground arith
    | inr (true, hs) ↦ inl (ground arith)
    | inr (false, hs) ↦ add_signature_cases signature index s s' hs (ground arith)
  ]

  Counts-IsSession :
      (signature index : ℕ) (s s' : Session)
      → IsSession s
      → Counts signature index s s'
      → IsSession s'
  Counts-IsSession signature index s s' good (v, w, hs, hv, ok_sig, hw, e) =
      subst IsSession (sym e) (record {
        same_length = length-set s.signed index true ∙ good.same_length;
        counted =
            ap (λ (n : ℕ). n + w) good.counted
            ∙ sym (signed_weight-set s.signed c.current_weights index w hs hw);
        genuine = λ i hi. elim (Bool-cases (i == index)) [
          | inl same ↦ (v, signature, rw ((==_iff i index).0 same) hv, ok_sig)
          | inr other ↦
              good.genuine i
                (sym (get_elem?-set_ne s.signed index i true (ground (arith, ==_iff i index))) ∙ hi)
        ];
      })

  pub post_signature-IsSession :
      (signature index : ℕ) (s s' : Session)
      → IsSession s
      → post_signature crypto c hash signature index s ≡ ok s'
      → IsSession s'
  post_signature-IsSession signature index s s' good h =
      elim (post_signature_cases signature index s s' h) [
        | inl same ↦ subst IsSession (sym same) good
        | inr counts ↦ Counts-IsSession signature index s s' good counts
      ]

  pub post_signatures-IsSession :
      (signatures indices : List ℕ) (s s' : Session)
      → IsSession s
      → post_signatures crypto c hash signatures indices s ≡ ok s'
      → IsSession s'
  unfolding post_signatures
  post_signatures-IsSession [] indices s s' good h = subst IsSession (ground arith) good
  post_signatures-IsSession (x ∷ xs) [] s s' good h = subst IsSession (ground arith) good
  post_signatures-IsSession (x ∷ xs) (i ∷ is) s s' good h =
      let (s₁, h₁, h₂) = >>=-eq-ok (post_signature crypto c hash x i s) _ h in
      post_signatures-IsSession xs is s₁ s' (post_signature-IsSession x i s s₁ good h₁) h₂
