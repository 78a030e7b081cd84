-- ===== src/Mailbox/Program/Delivery.antt =====
-- The mailbox beside the consortium program whose accounts it reads, and why a message that is
-- delivered can be trusted.
use sol_svm_contracts.Base.{
  ℕ, ◌≡◌, refl, subst, List, Option, none, some, ◌⊎◌, inl, inr, ok, arith, Bool-cases, ◌==◌, ==_iff,
  if◌then◌else◌,
}
use sol_svm_contracts.Consortium.State.{
  Crypto, ValidatedPayload, SessionPayload, State as ConsortiumState, no_accounts as no_consortium,
}
use sol_svm_contracts.Consortium.Instruction.{Instruction as ConsortiumInstruction}
use sol_svm_contracts.Consortium.Program.{exec as exec_consortium}
use sol_svm_contracts.Consortium.Program.Reach.{Reach, start, step}
use sol_svm_contracts.Consortium.Program.Quorum.{WasValidated, validated_payload-HasQuorum}
use sol_svm_contracts.Mailbox.State.{
  MessageV1, delivered, MessageV1Info, State, Runtime, Notary, no_accounts, InboundMessagePath,
}
use sol_svm_contracts.Mailbox.Instruction.{Instruction}
use sol_svm_contracts.Mailbox.Message.{from_session_payload}
use sol_svm_contracts.Mailbox.Program.{exec, deliver_message}
use sol_svm_contracts.Mailbox.Program.Inversion.{
  deliver_message_inv, handle_message_inv, send_message_inv,
}
use sol_svm_contracts.Mailbox.Program.Paths.{IsInbound, HasInboundPaths, exec-HasInboundPaths}
use sol_svm_contracts.Mailbox.Program.Lifecycle.{quiet, sends, delivers, handles, exec-Effect}

abbrev pub bytes_of : Option SessionPayload → Option (List ℕ)
bytes_of none = none
bytes_of (some s) = some s.payload

abbrev pub epoch_of : Option ValidatedPayload → Option ℕ
epoch_of none = none
epoch_of (some v) = some v.latest_epoch

-- What the mailbox reads of the consortium program with the address `id`: an account of another
-- program is not an account of its types.
abbrev pub notary_of : (id : ℕ) → ConsortiumState → Notary
notary_of id st = record {
  session_payload = λ program payer hash.
      if program == id then bytes_of (st.session_payloads payer hash) else none;
  validated_payload =
      λ program hash. if program == id then epoch_of (st.validated_payloads hash) else none;
}

module _ {World : Type 0} (crypto : Crypto) (runtime : Runtime World)
    (id self self_chain_id : ℕ) where
  -- Both programs, from no accounts on: instructions of either in any order, by any signers.
  pub data Together (world : World) : ConsortiumState → State World → Type 0 where
    begin : Together world no_consortium (no_accounts world)
    consortium :
        {accounts accounts' : ConsortiumState} {st : State World} (payer : ℕ)
        (i : ConsortiumInstruction)
        → Together world accounts st
        → exec_consortium crypto payer i accounts ≡ ok accounts'
        → Together world accounts' st
    mailbox :
        {accounts : ConsortiumState} {st st' : State World} (payer : ℕ) (i : Instruction)
        → Together world accounts st
        → exec runtime self self_chain_id (notary_of id accounts) payer i st ≡ ok st'
        → Together world accounts st'

  pub Together-Reach :
      {world : World} {consortium : ConsortiumState} {st : State World}
      → Together world consortium st
      → Reach crypto consortium
  Together-Reach begin = start
  Together-Reach (consortium payer i t h) = step payer i (Together-Reach t) h
  Together-Reach (mailbox payer i t h) = Together-Reach t

  -- Why a message can be trusted: it is what a payload with that hash says, and that payload was
  -- validated by a quorum.
  abbrev pub IsAttested : (hash : ℕ) → MessageV1 → ConsortiumState → Type 0
  IsAttested hash m st =
      (payload : List ℕ) × (v : ValidatedPayload) × (runtime.sha256 payload ≡ hash)
      × (from_session_payload payload ≡ ok m)
      × WasValidated crypto hash v st

  epoch_of-some :
      (o : Option ValidatedPayload) (epoch : ℕ)
      → epoch_of o ≡ some epoch
      → (v : ValidatedPayload) × (o ≡ some v)
  epoch_of-some none epoch h = absurd (cc h)
  epoch_of-some (some v) epoch h = (v, refl)

  -- Delivery stores, as delivered, what a payload with the hash says that a quorum of the consortium
  -- has validated, over a path that is enabled.
  pub deliver_message-IsAttested :
      (deliverer hash path : ℕ) (accounts : ConsortiumState) (st st' : State World)
      → Reach crypto accounts
      → deliver_message runtime (notary_of id accounts) deliverer hash path st ≡ ok st'
      → (m : MessageV1) × (inbound : InboundMessagePath) × (st'.messages hash
          ≡ some (record { status = delivered; message = m }))
        × (st.inbound_message_paths path ≡ some inbound)
        × (m.message_path_identifier ≡ inbound.identifier)
        × IsAttested hash m accounts
  deliver_message-IsAttested deliverer hash path accounts st st' r h =
      let (
        c, inbound, payload, epoch, m, _, way, posted, validated, fresh, _, hashed, decoded,
        matches, eq,
      ) =
        deliver_message_inv runtime (notary_of id accounts) deliverer hash path st st' h in
      let recorded : epoch_of (accounts.validated_payloads hash) ≡ some epoch =
        ground (arith, validated) in
      let (v, found) = epoch_of-some (accounts.validated_payloads hash) epoch recorded in
      (
        m,
        inbound,
        ground (arith, eq),
        way,
        matches,
        (payload, v, hashed, decoded, validated_payload-HasQuorum crypto hash v r found),
      )

  pub WasValidated-step :
      (hash : ℕ) (v : ValidatedPayload) (payer : ℕ) (i : ConsortiumInstruction)
      (st st' : ConsortiumState)
      → exec_consortium crypto payer i st ≡ ok st'
      → WasValidated crypto hash v st
      → WasValidated crypto hash v st'
  WasValidated-step hash v payer i st st' h (past, c, marks, before, leads, e, epoch, quorum) =
      (past, c, marks, before, step payer i leads h, e, epoch, quorum)

  -- The messages after an instruction are those that were there, or one that it has delivered.
  pub contents_effect :
      (notary : Notary) (payer : ℕ) (i : Instruction) (st st' : State World) (hash : ℕ)
      (info' : MessageV1Info)
      → exec runtime self self_chain_id notary payer i st ≡ ok st'
      → st'.messages hash ≡ some info'
      → ((info : MessageV1Info) × (st.messages hash ≡ some info) × (info.message ≡ info'.message))
        ⊎ (path : ℕ) × (deliver_message runtime notary payer hash path st ≡ ok st')
  contents_effect notary payer i st st' hash info' h found =
      elim (exec-Effect runtime self self_chain_id notary payer i st st' h) [
        | quiet _ (same, _, _) ↦ inl (info', rw (← same) found, refl)
        | sends send r _ e ↦
            let (c, path, s, price, _, _, _, _, _, _, _, _, eq, _) =
              send_message_inv runtime payer send st st' r e in
            inl (info', ground (arith, eq), refl)
        | delivers k p _ e ↦
            let (c, path, payload, epoch, m, _, _, _, _, fresh, _, _, _, _, eq) =
              deliver_message_inv runtime notary payer k p st st' e in
            elim (Bool-cases (hash == k)) [
              | inl same ↦ inr (p, rw ((==_iff hash k).0 same) e)
              | inr other ↦ inl (info', ground (arith, eq), refl)
            ]
        | handles k r a b _ e ↦
            let (c, m, world, _, was, _, _, _, eq) =
              handle_message_inv runtime payer k r a st st' b e in
            elim (Bool-cases (hash == k)) [
              | inl same ↦ inl (
                record { status = delivered; message = m },
                rw ((==_iff hash k).0 same) was,
                ground (arith, eq),
              )
              | inr other ↦ inl (info', ground (arith, eq), refl)
            ]
      ]

  Together-HasInboundPaths :
      {world : World} {accounts : ConsortiumState} {st : State World}
      → Together world accounts st
      → HasInboundPaths runtime self self_chain_id st
  Together-HasInboundPaths begin = λ k path found. absurd (cc found)
  Together-HasInboundPaths (consortium payer i t h) = Together-HasInboundPaths t
  Together-HasInboundPaths (mailbox {accounts} {st} {st'} payer i t h) =
      exec-HasInboundPaths runtime self self_chain_id (notary_of id accounts) payer i st st'
        (Together-HasInboundPaths t) h

  -- The message came over a path to this chain, from a mailbox at some chain.
  abbrev pub IsInboundMessage : MessageV1 → Type 0
  IsInboundMessage m =
      (path : InboundMessagePath) × IsInbound runtime self self_chain_id path
      × (m.message_path_identifier ≡ path.identifier)

  -- Every message account, delivered or handled, after any instructions of both programs by any
  -- signers in any order, holds what a payload with its hash says that a quorum of the consortium
  -- has validated, and the message is one for a path that leads to this chain.
  pub message-IsAttested :
      {world : World} {accounts : ConsortiumState} {st : State World} (hash : ℕ)
      (info : MessageV1Info)
      → Together world accounts st
      → st.messages hash ≡ some info
      → IsAttested hash info.message accounts × IsInboundMessage info.message
  message-IsAttested hash info begin found = absurd (cc found)
  message-IsAttested hash info (consortium {accounts} {accounts'} payer i t h) found =
      let ((payload, v, hashed, decoded, validated), inbound) =
        message-IsAttested hash info t found in
      (
        (
          payload,
          v,
          hashed,
          decoded,
          WasValidated-step hash v payer i accounts accounts' h validated,
        ),
        inbound,
      )
  message-IsAttested hash info (mailbox {accounts} {st} {st'} payer i t h) found =
      elim (contents_effect (notary_of id accounts) payer i st st' hash info h found) [
        | inl (before, there, same) ↦
            subst (λ m. IsAttested hash m accounts × IsInboundMessage m) same
              (message-IsAttested hash before t there)
        | inr (path, e) ↦
            let (m, inbound, stored, way, matches, attested) =
              deliver_message-IsAttested payer hash path accounts st st' (Together-Reach t) e in
            let is_new : m ≡ info.message = ground (arith, stored, found) in
            let (_, is_inbound) = Together-HasInboundPaths t path inbound way in
            subst (λ x. IsAttested hash x accounts × IsInboundMessage x) is_new
              (attested, (inbound, is_inbound, matches))
      ]
