-- ===== src/Bridge/Program/Trust.antt =====
-- The bridge beside the mailbox and the consortium program, and why what it mints can be trusted.
use sol_svm_contracts.Base.{
  ℕ, ◌≡◌, sym, ap, ◌∙◌, subst, List, Option, none, some, inl, inr, ok, arith,
}
use sol_svm_contracts.Consortium.State.{
  Crypto, State as ConsortiumState, no_accounts as no_consortium,
}
use sol_svm_contracts.Consortium.Instruction.{Instruction as ConsortiumInstruction}
use sol_svm_contracts.Consortium.Program.{exec as exec_consortium}
use sol_svm_contracts.Consortium.Program.Reach.{Reach, start, step}
use sol_svm_contracts.Mailbox.State.{
  MessageV1, MessageV1Info, State as MailboxState, Runtime as MailboxRuntime, AccountMeta,
  no_accounts as no_mailbox,
}
use sol_svm_contracts.Mailbox.Instruction.{Instruction as MailboxInstruction}
use sol_svm_contracts.Mailbox.Program.{exec as exec_mailbox}
use sol_svm_contracts.Mailbox.Program.Inversion.{send_message_inv}
use sol_svm_contracts.Mailbox.Program.Delivery.{
  notary_of, IsAttested, WasValidated-step, contents_effect, deliver_message-IsAttested,
}
use sol_svm_contracts.Mailbox.Message.RoundTrip.{IsWord}
use sol_svm_contracts.Bridge.State.{no_accounts, Surroundings, Runtime}
use sol_svm_contracts.Bridge.Messages.{InboundResponse}
use sol_svm_contracts.Bridge.Instruction.{Receive, Instruction}
use sol_svm_contracts.Bridge.Program.{exec, with_bridge, handle_with_bridge}
use sol_svm_contracts.Bridge.Program.Inversion.{IsReceipt}
use sol_svm_contracts.Bridge.Program.Deposits.{deposit_inv}
use sol_svm_contracts.Bridge.Program.Effects.{configures, deposits, receives, exec-Effect}
use sol_svm_contracts.Bridge.Program.Handling.{signed, handle_with_bridge-receives}

module _ {Bucket LimitConfig Tokens : Type 0} (crypto : Crypto)
    (runtime : Runtime Bucket LimitConfig Tokens)
    (mailbox : MailboxRuntime (Surroundings Bucket Tokens)) (consortium_id self_chain_id : ℕ) where
  -- The three programs, from no accounts on: instructions of any of them in any order, by any
  -- signers, and any change of the accounts of the token programs. The recipient of a message that
  -- the mailbox handles may be the bridge, with any accounts `r`.
  pub data System : ConsortiumState → MailboxState (Surroundings Bucket Tokens) → Type 0 where
    begin :
        (tokens : Tokens)
        → System no_consortium (no_mailbox (record { bridge = no_accounts; tokens = tokens }))
    consortium :
        {accounts accounts' : ConsortiumState} {st : MailboxState (Surroundings Bucket Tokens)}
        (payer : ℕ) (i : ConsortiumInstruction)
        → System accounts st
        → exec_consortium crypto payer i accounts ≡ ok accounts'
        → System accounts' st
    of_mailbox :
        {accounts : ConsortiumState} {st st' : MailboxState (Surroundings Bucket Tokens)}
        (payer : ℕ) (i : MailboxInstruction) (r : Receive)
        → System accounts st
        → exec_mailbox
            (with_bridge runtime mailbox r st)
            runtime.mailbox_id
            self_chain_id
            (notary_of consortium_id accounts)
            payer
            i
            st
          ≡ ok st'
        → System accounts st'
    of_bridge :
        {accounts : ConsortiumState} {st st' : MailboxState (Surroundings Bucket Tokens)}
        (payer : ℕ) (i : Instruction LimitConfig)
        → System accounts st
        → exec runtime mailbox payer i st ≡ ok st'
        → System accounts st'
    of_tokens :
        {accounts : ConsortiumState} {st : MailboxState (Surroundings Bucket Tokens)}
        (tokens : Tokens)
        → System accounts st
        → System accounts (record st { world = record st.world { tokens = tokens } })

  pub System-Reach :
      {accounts : ConsortiumState} {st : MailboxState (Surroundings Bucket Tokens)}
      → System accounts st
      → Reach crypto accounts
  System-Reach (begin tokens) = start
  System-Reach (consortium payer i s h) = step payer i (System-Reach s) h
  System-Reach (of_mailbox payer i r s h) = System-Reach s
  System-Reach (of_bridge payer i s h) = System-Reach s
  System-Reach (of_tokens tokens s) = System-Reach s

  -- The bridge leaves the messages of the mailbox as they are.
  exec-messages :
      (payer : ℕ) (i : Instruction LimitConfig) (st st' : MailboxState (Surroundings Bucket Tokens))
      → exec runtime mailbox payer i st ≡ ok st'
      → st'.messages ≡ st.messages
  exec-messages payer i st st' h = elim (exec-Effect runtime mailbox payer i st st' h) [
    | configures b eq same _ none_received ↦ ap (λ s. s.messages) eq
    | receives hash r w response is e eq ↦ ap (λ s. s.messages) eq
    | deposits d result is e ↦
        let x = deposit_inv runtime mailbox d st st' result e in
        let (_, _, _, _, _, _, _, _, _, _, _, _, after, _) =
          send_message_inv mailbox d.fee_payer _ _ st' result x.is_sent in
        ap (λ s. s.messages) after
  ]

  abbrev IsTrusted : (hash : ℕ) → MessageV1 → ConsortiumState → Type 0
  IsTrusted = IsAttested crypto mailbox consortium_id runtime.mailbox_id self_chain_id

  pub System-IsAttested :
      {accounts : ConsortiumState} {st : MailboxState (Surroundings Bucket Tokens)} (hash : ℕ)
      (info : MessageV1Info)
      → System accounts st
      → st.messages hash ≡ some info
      → IsTrusted hash info.message accounts
  System-IsAttested hash info (begin tokens) found = absurd (cc found)
  System-IsAttested hash info (consortium {accounts} {accounts'} payer i s h) found =
      let (payload, v, hashed, decoded, validated) = System-IsAttested hash info s found in
      (
        payload,
        v,
        hashed,
        decoded,
        WasValidated-step crypto mailbox consortium_id runtime.mailbox_id self_chain_id hash v payer
            i accounts accounts' h validated,
      )
  System-IsAttested hash info (of_tokens tokens s) found = System-IsAttested hash info s found
  System-IsAttested hash info (of_bridge {accounts} {st} {st'} payer i s h) found =
      System-IsAttested hash info s
        (sym (ap (λ f. f hash) (exec-messages payer i st st' h)) ∙ found)
  System-IsAttested hash info (of_mailbox {accounts} {st} {st'} payer i r s h) found =
      elim (contents_effect crypto (with_bridge runtime mailbox r st) consortium_id
        runtime.mailbox_id self_chain_id (notary_of consortium_id accounts) payer i st st' hash info
        h found) [
          | inl (before, there, same) ↦
              subst (λ m. IsTrusted hash m accounts) same (System-IsAttested hash before s there)
          | inr (path, e) ↦
              let (m, inbound, stored, way, matches, attested) =
                deliver_message-IsAttested crypto (with_bridge runtime mailbox r st) consortium_id
                  runtime.mailbox_id self_chain_id payer hash path accounts st st' (System-Reach s)
                  e in
              let is_new : m ≡ info.message = ground (arith, stored, found) in
              subst (λ x. IsTrusted hash x accounts) is_new attested
        ]

  -- What the bridge mints when the mailbox calls it, in any state that the three programs reach, is
  -- what a message says that a quorum of the consortium's validators has signed, for this recipient,
  -- from the bridge that is configured for the source chain; and the message is new to the bridge.
  -- The hash is of 32 bytes.
  pub handle_with_bridge-IsAttested :
      {accounts : ConsortiumState} (handler hash : ℕ) (metas : List AccountMeta) (r : Receive)
      (st st' : MailboxState (Surroundings Bucket Tokens)) (result : Option (List ℕ))
      → IsWord hash
      → System accounts st
      → handle_with_bridge runtime mailbox handler hash runtime.bridge_id metas r st
        ≡ ok (st', result)
      → (response : InboundResponse) × (x : IsReceipt runtime mailbox hash
          (signed runtime mailbox r)
          st
          st.world
          st'.world
          response)
        × IsAttested crypto mailbox consortium_id runtime.mailbox_id self_chain_id hash x.a.message
            accounts
        × (x.a.message.recipient ≡ runtime.bridge_id)
        × (x.a.message.sender ≡ x.a.remote_bridge.bridge)
        × (st.world.bridge.messages_handled hash ≡ none)
  handle_with_bridge-IsAttested {accounts} handler hash metas r st st' result word s h =
      let (m, response, was, to, x, after) =
        handle_with_bridge-receives runtime mailbox handler hash metas r st st' result word h in
      let same : x.a.message ≡ m = ground (arith, x.is_found.is_info, was, x.is_found.is_message) in
      (
        response,
        x,
        subst (λ k. IsTrusted hash k accounts) (sym same) (System-IsAttested hash _ s was),
        ap (λ k. k.recipient) same ∙ to,
        sym x.is_found.are_checked.is_from_bridge,
        x.is_found.are_checked.is_new,
      )
