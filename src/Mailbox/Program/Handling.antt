-- ===== src/Mailbox/Program/Handling.antt =====
-- Exactly when a message is handled, and with what result.
use sol_svm_contracts.Base.{
  ℕ, ◌≡◌, refl, sym, ap, Bool-cases, subst, ◌↔◌, true, false, List, ◌∷◌, Option, none, some, ◌⊎◌,
  inl, inr, ok, arith, Option-cases, Outcome-cases, ◌==◌, ==_iff,
}
use sol_svm_contracts.Base.Bytes.{to_be}
use mathlib.Core.List.{◌++◌}
use sol_svm_contracts.Mailbox.State.{
  MessageV1, Config, delivered, handled, State, put, Runtime, AccountMeta,
}
use sol_svm_contracts.Mailbox.Program.{
  handle_message, call_recipient, gmp_receive_instr_data, may_handle, returned_by,
}

-- What the caller gets: the return data that the recipient itself has set.
abbrev pub Returns : (recipient : ℕ) → Option (ℕ × List ℕ) → Option (List ℕ) → Type 0
Returns recipient set result =
    ((bytes : List ℕ) × (set ≡ some (recipient, bytes)) × (result ≡ some bytes))
    ⊎ (((bytes : List ℕ) → set ≡ some (recipient, bytes) → ⊥) × (result ≡ none))

returned_by_iff :
    (recipient : ℕ) (set : Option (ℕ × List ℕ)) (result : Option (List ℕ))
    → (returned_by recipient set ≡ result) ↔ Returns recipient set result
returned_by_iff recipient none result = (
  λ h. inr (λ bytes e. cc e, sym h),
  λ x. elim x [ inl (bytes, e, _) ↦ absurd (cc e) | inr (_, e) ↦ sym e ],
)
returned_by_iff recipient (some (setter, found)) result = elim (Bool-cases (setter == recipient)) [
  | inl eq ↦ (
    λ h. inl (found, rw ((==_iff setter recipient).0 eq) refl, ground (arith, h, eq)),
    λ x. elim x [
      | inl (bytes, e, is) ↦ ground (arith, e, is, eq)
      | inr (never, is) ↦ absurd (never found (rw ((==_iff setter recipient).0 eq) refl))
    ],
  )
  | inr ne ↦ (
    λ h. inr (λ bytes e. ground (arith, e, ne), ground (arith, h, ne)),
    λ x. elim x [
      | inl (bytes, e, is) ↦ absurd (ground (arith, e, ne))
      | inr (_, is) ↦ ground (arith, is, ne)
    ],
  )
]

may_handle_iff :
    (caller : Option ℕ) (handler : ℕ)
    → (may_handle caller handler ≡ true) ↔ ((caller ≡ none) ⊎ (caller ≡ some handler))
may_handle_iff none handler = (λ h. inl refl, λ h. refl)
may_handle_iff (some c) handler = (
  λ h. inr (ap some ((==_iff c handler).0 h)),
  λ x. elim x [ inl e ↦ absurd (cc e) | inr e ↦ (==_iff c handler).1 (cc e) ],
)

module _ {World : Type 0} (runtime : Runtime World) where
  -- A delivered message that is handled.
  pub record IsHandling (handler hash program : ℕ) (accounts : List AccountMeta)
      (st st' : State World) (result : Option (List ℕ)) : Type 0 where
    pub c : Config
    pub m : MessageV1
    pub world : World
    pub set : Option (ℕ × List ℕ)
    pub is_config : st.config ≡ some c
    pub is_open : c.paused ≡ false
    pub is_delivered : st.messages hash ≡ some (record { status = delivered; message = m })
    pub is_recipient : program ≡ m.recipient
    pub is_caller : (m.destination_caller ≡ none) ⊎ (m.destination_caller ≡ some handler)
    pub is_called :
        runtime.invoke m.recipient
          (record { key = runtime.message_address hash; is_signer = true; is_writable = false }
            ∷ accounts)
          (to_be 8 0x4b48dbe65503182c ++ to_be 32 hash)
          st.world
        ≡ some (world, set)
    pub is_result : Returns m.recipient set result
    pub is_after : st' ≡ record st {
      messages = put hash (some (record { status = handled; message = m })) st.messages;
      world = world;
    }

  call_recipient_inv :
      (hash program : ℕ) (accounts : List AccountMeta) (w world : World) (set : Option (ℕ × List ℕ))
      → call_recipient runtime hash program accounts w ≡ ok (world, set)
      → runtime.invoke program
          (record { key = runtime.message_address hash; is_signer = true; is_writable = false }
            ∷ accounts)
          (to_be 8 0x4b48dbe65503182c ++ to_be 32 hash)
          w
        ≡ some (world, set)
  unfolding call_recipient gmp_receive_instr_data
  call_recipient_inv hash program accounts w world set h =
      elim (Option-cases (
        runtime.invoke program
          (record { key = runtime.message_address hash; is_signer = true; is_writable = false }
            ∷ accounts)
          (to_be 8 0x4b48dbe65503182c ++ to_be 32 hash) w)) [
            | inl e ↦ absurd (ground arith)
            | inr (r, e) ↦ ground arith
          ]

  handles :
      (handler hash program : ℕ) (accounts : List AccountMeta) (st st' : State World)
      (result : Option (List ℕ))
      → handle_message runtime handler hash program accounts st ≡ ok (st', result)
      → IsHandling handler hash program accounts st st' result
  unfolding handle_message
  handles handler hash program accounts st st' result h = elim (Option-cases st.config) [
    | inl e ↦ absurd (ground arith)
    | inr (c, e) ↦ elim (Option-cases (st.messages hash)) [
      | inl e₁ ↦ absurd (ground arith)
      | inr (info, e₁) ↦
          elim (Outcome-cases (call_recipient runtime hash program accounts st.world)) [
            | inr failed ↦ absurd (ground arith)
            | inl ((world, set), called) ↦
                let same : program ≡ info.message.recipient = ground arith in
                let allowed : may_handle info.message.destination_caller handler ≡ true =
                  ground arith in
                let returned : returned_by info.message.recipient set ≡ result = ground arith in
                record {
                  c = c;
                  m = info.message;
                  world = world;
                  set = set;
                  is_config = e;
                  is_open = ground arith;
                  is_delivered = ground arith;
                  is_recipient = same;
                  is_caller = (may_handle_iff info.message.destination_caller handler).0 allowed;
                  is_called =
                      subst
                        (λ k.
                          runtime.invoke k
                            (record {
                              key = runtime.message_address hash;
                              is_signer = true;
                              is_writable = false;
                            }
                              ∷ accounts)
                            (to_be 8 0x4b48dbe65503182c ++ to_be 32 hash) st.world
                          ≡ some (world, set))
                        same (call_recipient_inv hash program accounts st.world world set called);
                  is_result = (returned_by_iff info.message.recipient set result).0 returned;
                  is_after = ground arith;
                }
          ]
    ]
  ]

  call_recipient_so :
      (hash program : ℕ) (accounts : List AccountMeta) (w world : World) (set : Option (ℕ × List ℕ))
      → runtime.invoke program
          (record { key = runtime.message_address hash; is_signer = true; is_writable = false }
            ∷ accounts)
          (to_be 8 0x4b48dbe65503182c ++ to_be 32 hash)
          w
        ≡ some (world, set)
      → call_recipient runtime hash program accounts w ≡ ok (world, set)
  unfolding call_recipient gmp_receive_instr_data
  call_recipient_so hash program accounts w world set called = ground arith

  handled_so :
      (handler hash program : ℕ) (accounts : List AccountMeta) (st st' : State World)
      (result : Option (List ℕ))
      → IsHandling handler hash program accounts st st' result
      → handle_message runtime handler hash program accounts st ≡ ok (st', result)
  unfolding handle_message
  handled_so handler hash program accounts st st' result x =
      let same : (x.m.recipient == x.m.recipient) ≡ true = (==_iff _ x.m.recipient).1 refl in
      let allowed = (may_handle_iff x.m.destination_caller handler).1 x.is_caller in
      let returned = (returned_by_iff x.m.recipient x.set result).1 x.is_result in
      let called =
        call_recipient_so hash x.m.recipient accounts st.world x.world x.set x.is_called in
      rw (x.is_recipient, x.is_config, x.is_delivered, x.is_open, same, allowed, called)
        (cc (returned, x.is_after))

  -- A message is handled, with a state and a result, exactly when the mailbox is not paused, the
  -- message is delivered and not yet handled, the program that is called is its recipient, the
  -- message names no destination caller or names the handler, and the recipient's call, with the
  -- message account as the signer before the accounts that the handler passes and with the payload
  -- hash behind the discriminator as its data, succeeds. The message is then handled, the world is
  -- what the call left, and the result is the return data if the recipient has set it.
  pub handle_message-ok_iff :
      (handler hash program : ℕ) (accounts : List AccountMeta) (st st' : State World)
      (result : Option (List ℕ))
      → (handle_message runtime handler hash program accounts st ≡ ok (st', result))
        ↔ IsHandling handler hash program accounts st st' result
  handle_message-ok_iff handler hash program accounts st st' result = (
    handles handler hash program accounts st st' result,
    handled_so handler hash program accounts st st' result,
  )
