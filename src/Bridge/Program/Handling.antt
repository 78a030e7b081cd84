-- ===== src/Bridge/Program/Handling.antt =====
-- The mailbox handles a message whose recipient is the bridge: programs/mailbox/src/instructions/
-- handle_message.rs and utils/cpi.rs together with programs/bridge/src/instructions/gmp_receive.rs.
use sol_svm_contracts.Base.{
  ℕ, ◌≡◌, refl, sym, ap, ◌∙◌, subst, true, false, List, ◌∷◌, ◌++◌, Option, some, inl, inr, drop,
  drop-append_left, ok, arith, Option-cases, ==_refl, Outcome, err, fault,
}
use sol_svm_contracts.Base.Bytes.{to_be, from_be, from_be-to_be, length-to_be}
use sol_svm_contracts.Mailbox.State.{
  MessageV1, delivered, handled, put, State as MailboxState, Runtime as MailboxRuntime, AccountMeta,
}
use sol_svm_contracts.Mailbox.Program.{gmp_receive_instr_data, call_recipient}
use sol_svm_contracts.Mailbox.Program.Inversion.{handle_message_inv, handle_message-calls}
use sol_svm_contracts.Mailbox.Message.RoundTrip.{IsWord}
use sol_svm_contracts.Bridge.State.{Error, Surroundings, Runtime}
use sol_svm_contracts.Bridge.Messages.{InboundResponse}
use sol_svm_contracts.Bridge.Instruction.{Receive}
use sol_svm_contracts.Bridge.Receiving.{gmp_receive}
use sol_svm_contracts.Bridge.Program.{answered, run_bridge, with_bridge, handle_with_bridge}
use sol_svm_contracts.Bridge.Program.Inversion.{IsReceipt, gmp_receive_inv}

-- The payload hash is read back from the data of the mailbox's call.
hash_of_data : (hash : ℕ) → IsWord hash → from_be (drop 8 (gmp_receive_instr_data hash)) ≡ hash
unfolding gmp_receive_instr_data
hash_of_data hash h = rw (dropped) (from_be-to_be 32 hash h)
  where
    dropped : drop 8 (to_be 8 0x4b48dbe65503182c ++ to_be 32 hash) ≡ to_be 32 hash
    dropped =
        subst (λ n. drop n (to_be 8 0x4b48dbe65503182c ++ to_be 32 hash) ≡ to_be 32 hash)
          (length-to_be 8 0x4b48dbe65503182c)
          (drop-append_left (to_be 8 0x4b48dbe65503182c) (to_be 32 hash))

module _ {Bucket LimitConfig Tokens : Type 0} (runtime : Runtime Bucket LimitConfig Tokens)
    (mailbox : MailboxRuntime (Surroundings Bucket Tokens)) where
  -- In the mailbox's call the message's account signs.
  abbrev pub signed : Receive → Receive
  signed r = record r { message_is_signer = true }

  answered-eq-some :
      (o : Outcome Error (Surroundings Bucket Tokens × InboundResponse))
      (w : Surroundings Bucket Tokens) (return_data : Option (ℕ × List ℕ))
      → answered runtime mailbox o ≡ some (w, return_data)
      → (response : InboundResponse) × (o ≡ ok (w, response))
  answered-eq-some (ok (w₁, response)) w return_data h = (response, ground arith)
  answered-eq-some (err e) w return_data h = absurd (cc h)
  answered-eq-some (fault x) w return_data h = absurd (cc h)

  abbrev message_account : (hash : ℕ) → AccountMeta
  message_account hash = record {
    key = mailbox.message_address hash;
    is_signer = true;
    is_writable = false;
  }

  run_bridge-receives :
      (hash : ℕ) (accounts : List AccountMeta) (r : Receive)
      (st : MailboxState (Surroundings Bucket Tokens)) (w : Surroundings Bucket Tokens)
      → IsWord hash
      → run_bridge runtime mailbox r st
          (message_account hash ∷ accounts)
          (gmp_receive_instr_data hash)
          w
        ≡ answered runtime mailbox (gmp_receive runtime mailbox hash (signed r) st w)
  unfolding run_bridge
  run_bridge-receives hash accounts r st w word =
      rw (hash_of_data hash word) (rw (==_refl (mailbox.message_address hash)) refl)

  call_recipient-receives :
      (hash : ℕ) (accounts : List AccountMeta) (r : Receive)
      (st : MailboxState (Surroundings Bucket Tokens)) (w w' : Surroundings Bucket Tokens)
      (return_data : Option (ℕ × List ℕ))
      → IsWord hash
      → call_recipient (with_bridge runtime mailbox r st) hash runtime.bridge_id accounts w
        ≡ ok (w', return_data)
      → (response : InboundResponse) × (gmp_receive runtime mailbox hash (signed r) st w
          ≡ ok (w', response))
  unfolding call_recipient
  call_recipient-receives hash accounts r st w w' return_data word h =
      elim (Option-cases (
        run_bridge runtime mailbox r st (message_account hash ∷ accounts)
          (gmp_receive_instr_data hash) w)) [
            | inl failed ↦ absurd (ground (arith, ==_refl runtime.bridge_id, failed))
            | inr (x, went) ↦
                let same : x ≡ (w', return_data) =
                  ground (arith, ==_refl runtime.bridge_id, went) in
                answered-eq-some _ w' return_data
                  (sym (run_bridge-receives hash accounts r st w word) ∙ went ∙ ap some same)
          ]

  -- When the mailbox handles a message for the bridge, the bridge receives it: the mailbox held it as
  -- delivered, for this recipient, and calls `gmp_receive` on the accounts of that moment with the
  -- message's account as a signer. The accounts are then those that the bridge left, with the message
  -- as handled.
  pub handle_with_bridge-receives :
      (handler hash : ℕ) (accounts : List AccountMeta) (r : Receive)
      (st st' : MailboxState (Surroundings Bucket Tokens)) (result : Option (List ℕ))
      → IsWord hash
      → handle_with_bridge runtime mailbox handler hash runtime.bridge_id accounts r st
        ≡ ok (st', result)
      → (m : MessageV1) × (response : InboundResponse) × (st.messages hash
          ≡ some (record { status = delivered; message = m }))
        × (m.recipient ≡ runtime.bridge_id)
        × IsReceipt runtime mailbox hash (signed r) st st.world st'.world response
        × (st' ≡ record st {
          messages = put hash (some (record { status = handled; message = m })) st.messages;
          world = st'.world;
        })
  unfolding handle_with_bridge
  handle_with_bridge-receives handler hash accounts r st st' result word h =
      let (c, m, w, _, was, _, to, _, after) =
        handle_message_inv (with_bridge runtime mailbox r st) handler hash runtime.bridge_id
          accounts st st' result h in
      let (return_data, called) =
        handle_message-calls (with_bridge runtime mailbox r st) handler hash runtime.bridge_id
          accounts st st' result h in
      let (response, went) =
        call_recipient-receives hash accounts r st st.world st'.world return_data word called in
      (
        m,
        response,
        was,
        sym to,
        gmp_receive_inv runtime mailbox hash (signed r) st st.world st'.world response went,
        subst
            (λ x. st' ≡ record st {
              messages = put hash (some (record { status = handled; message = m })) st.messages;
              world = x;
            })
            (sym (ap (λ s. s.world) after)) after,
      )
