-- ===== src/Consortium/Signatures/Progress.antt =====
-- Posting signatures of the current validators goes through, and counts every one of them.
use sol_svm_contracts.Base.{
  ℕ, ◌+◌, ◌^◌, ◌<◌, ◌≡◌, refl, ◌∙◌, true, false, List, [], ◌∷◌, some, inl, inr, length, get_elem?,
  set, get_elem?_in, get_elem?-set_self, get_elem?-set_ne, lt_of_get_elem?, All, ok, >>=-eq-ok,
  arith, Bool-cases, Option-cases,
}
use sol_svm_contracts.Consortium.State.{Config, Session, Crypto}
use sol_svm_contracts.Consortium.Payload.Valset.{IsValset}
use sol_svm_contracts.Consortium.Signatures.{
  check_signature, add_signature, post_signature, post_signatures,
}
use sol_svm_contracts.Consortium.Signatures.Weight.{
  signed_weight-le-sum, signed_weight-set, IsSession, post_signature_cases,
  post_signature-IsSession,
}

module _ (crypto : Crypto) (c : Config) (hash : ℕ) where
  -- The i-th signature is one of the validator that the i-th index names.
  abbrev pub AllGenuine : (signatures indices : List ℕ) → Type 0
  AllGenuine [] is = Unit
  AllGenuine (x ∷ xs) [] = Unit
  AllGenuine (x ∷ xs) (i ∷ is) =
      ((validator : ℕ) × (get_elem? c.current_validators i ≡ some validator)
        × (check_signature crypto validator x hash ≡ true))
      × AllGenuine xs is

  module _
      (valid : IsValset c.current_validators c.current_weights c.current_weight_threshold
        c.current_epoch) where
    weight_fits :
        (index weight : ℕ) (s : Session)
        → IsSession crypto c hash s
        → get_elem? s.signed index ≡ some false
        → get_elem? c.current_weights index ≡ some weight
        → s.weight + weight < 2 ^ 64
    weight_fits index weight s good hs hw = omega (
      arith,
      good.counted,
      signed_weight-set s.signed c.current_weights index weight hs hw,
      signed_weight-le-sum (set s.signed index true) c.current_weights,
      valid.no_overflow,
    )

    add_signature_total :
        (signature index : ℕ) (s : Session)
        → IsSession crypto c hash s
        → get_elem? s.signed index ≡ some false
        → index < length c.current_validators
        → (s' : Session) × (add_signature crypto c hash signature index s ≡ ok s')
    unfolding add_signature
    add_signature_total signature index s good hs lt =
        let (v, hv) = get_elem?_in c.current_validators index lt in
        let (w, hw) = get_elem?_in c.current_weights index (omega (arith, valid.same_length)) in
        elim (Bool-cases (check_signature crypto v signature hash)) [
          | inl checks ↦ (
            record { signed = set s.signed index true; weight = s.weight + w },
            ground (arith, weight_fits index w s good hs hw),
          )
          | inr fails ↦ (s, ground arith)
        ]

    post_signature_total :
        (signature index : ℕ) (s : Session)
        → IsSession crypto c hash s
        → index < length c.current_validators
        → (s' : Session) × (post_signature crypto c hash signature index s ≡ ok s')
    unfolding post_signature
    post_signature_total signature index s good lt =
        elim (Option-cases (get_elem? s.signed index)) [
          | inl out ↦
              let (b, hs) = get_elem?_in s.signed index (omega (arith, good.same_length)) in
              absurd (cc (out, hs))
          | inr (true, hs) ↦ (s, ground arith)
          | inr (false, hs) ↦
              let (s', e) = add_signature_total signature index s good hs lt in (s', ground arith)
        ]

    -- With every index in range nothing panics: the weights of a valid set do not overflow.
    pub post_signatures_total :
        (signatures indices : List ℕ) (s : Session)
        → IsSession crypto c hash s
        → All (λ i. i < length c.current_validators) indices
        → (s' : Session) × (post_signatures crypto c hash signatures indices s ≡ ok s')
    unfolding post_signatures
    post_signatures_total [] indices s good h = (s, refl)
    post_signatures_total (x ∷ xs) [] s good h = (s, refl)
    post_signatures_total (x ∷ xs) (i ∷ is) s good h =
        let (s₁, e) = post_signature_total x i s good h.0 in
        let (s', e') =
          post_signatures_total xs is s₁ (post_signature-IsSession crypto c hash x i s s₁ good e)
            h.1 in
        (s', rw e e')

  -- A mark is never taken back.
  post_signature_keeps :
      (signature index : ℕ) (s s' : Session) (i : ℕ)
      → post_signature crypto c hash signature index s ≡ ok s'
      → get_elem? s.signed i ≡ some true
      → get_elem? s'.signed i ≡ some true
  post_signature_keeps signature index s s' i h marked =
      elim (post_signature_cases crypto c hash signature index s s' h) [
        | inl same ↦ rw same marked
        | inr (v, w, hs, hv, checks, hw, e) ↦
            rw e (get_elem?-set_ne s.signed index i true (λ eq. cc (marked, hs, eq)) ∙ marked)
      ]

  post_signatures_keeps :
      (signatures indices : List ℕ) (s s' : Session) (i : ℕ)
      → post_signatures crypto c hash signatures indices s ≡ ok s'
      → get_elem? s.signed i ≡ some true
      → get_elem? s'.signed i ≡ some true
  unfolding post_signatures
  post_signatures_keeps [] indices s s' i h marked = ground arith
  post_signatures_keeps (x ∷ xs) [] s s' i h marked = ground arith
  post_signatures_keeps (x ∷ xs) (j ∷ is) s s' i h marked =
      let (s₁, h₁, h₂) = >>=-eq-ok (post_signature crypto c hash x j s) _ h in
      post_signatures_keeps xs is s₁ s' i h₂ (post_signature_keeps x j s s₁ i h₁ marked)

  post_signature_marks :
      (signature index : ℕ) (s s' : Session) (validator : ℕ)
      → post_signature crypto c hash signature index s ≡ ok s'
      → get_elem? c.current_validators index ≡ some validator
      → check_signature crypto validator signature hash ≡ true
      → get_elem? s'.signed index ≡ some true
  unfolding post_signature add_signature
  post_signature_marks signature index s s' validator h hv checks =
      elim (Option-cases (get_elem? s.signed index)) [
        | inl out ↦ ground arith
        | inr (true, hs) ↦ ground arith
        | inr (false, hs) ↦ elim (Option-cases (get_elem? c.current_weights index)) [
          | inl out ↦ ground arith
          | inr (w, hw) ↦
              ground
                (arith, get_elem?-set_self s.signed index true (lt_of_get_elem? s.signed index hs))
        ]
      ]

  -- Every genuine signature that is posted is marked in the end.
  pub post_signatures_marks :
      (signatures indices : List ℕ) (s s' : Session)
      → length signatures ≡ length indices
      → AllGenuine signatures indices
      → post_signatures crypto c hash signatures indices s ≡ ok s'
      → All (λ i. get_elem? s'.signed i ≡ some true) indices
  unfolding post_signatures
  post_signatures_marks [] [] s s' len g h = tt
  post_signatures_marks [] (i ∷ is) s s' len g h = absurd (omega arith)
  post_signatures_marks (x ∷ xs) [] s s' len g h = tt
  post_signatures_marks (x ∷ xs) (i ∷ is) s s' len g h =
      let (s₁, h₁, h₂) = >>=-eq-ok (post_signature crypto c hash x i s) _ h in
      let (v, hv, checks) = g.0 in
      (
        post_signatures_keeps xs is s₁ s' i h₂ (post_signature_marks x i s s₁ v h₁ hv checks),
        post_signatures_marks xs is s₁ s' (omega arith) g.1 h₂,
      )
