-- ===== src/Mailbox/Program/Sending.antt =====
-- What is kept of the messages that are sent, what a message costs, and what the sender gets.
use sol_svm_contracts.Base.{
  ℕ, ◌+◌, ◌*◌, ◌≤◌, ◌<◌, ◌≡◌, ◌≢◌, refl, ap, ltb, mul_checked, ◌/◌, List, Option, none, some, ◌⊎◌,
  inl, inr, ok, arith, Option-cases, Bool-cases, >>=-eq-ok, ◌==◌, ==_iff, if◌then◌else◌, length,
}
use sol_svm_contracts.Mailbox.State.{
  Config, OutboundMessagePath, State, put, Runtime, SenderConfig, SendResult, Notary, no_accounts,
}
use sol_svm_contracts.Mailbox.Instruction.{Instruction, Send}
use sol_svm_contracts.Mailbox.Message.{
  to_session_payload, from_session_payload, accountable_abi_bytes,
}
use sol_svm_contracts.Mailbox.Message.RoundTrip.{IsMessage, from_session_payload-to}
use sol_svm_contracts.Mailbox.Program.{
  exec, max_payload_size, send_message, byte_price, charge, pay_fee, passed_config,
}
use sol_svm_contracts.Mailbox.Program.Inversion.{
  deliver_message_inv, handle_message_inv, sent, send_message_inv,
}
use sol_svm_contracts.Mailbox.Program.Lifecycle.{
  next_nonce, quiet, sends, delivers, handles, exec-Effect, Leads, start, step,
}

module _ {World : Type 0} where
  -- There is a payload for exactly the nonces below the next one, from 1 on.
  abbrev pub IsGapless : State World → Type 0
  IsGapless st =
      (0 < next_nonce st.config)
      × ((n : ℕ) → st.outbound_messages n ≢ none → (0 < n) × (n < next_nonce st.config))
      × ((n : ℕ) → 0 < n → n < next_nonce st.config → st.outbound_messages n ≢ none)

module _ {World : Type 0} (runtime : Runtime World) (self self_chain_id : ℕ) where
  -- What an instruction does to the messages that were sent: nothing, or one is added at the next
  -- nonce, which was free, and the next nonce goes up by one.
  outbound_effect :
      (notary : Notary) (payer : ℕ) (i : Instruction) (st st' : State World)
      → exec runtime self self_chain_id notary payer i st ≡ ok st'
      → ((st'.outbound_messages ≡ st.outbound_messages)
          × (next_nonce st'.config ≡ next_nonce st.config))
        ⊎ (payload : List ℕ) × (st.outbound_messages (next_nonce st.config) ≡ none)
          × (st'.outbound_messages ≡ put (next_nonce st.config) (some payload) st.outbound_messages)
          × (next_nonce st'.config ≡ next_nonce st.config + 1)
  outbound_effect notary payer i st st' h =
      elim (exec-Effect runtime self self_chain_id notary payer i st st' h) [
        | quiet _ (_, same, nonce) ↦ inl (same, nonce)
        | sends send r _ e ↦
            let (c, path, s, price, there, _, _, free, _, _, _, _, eq, _) =
              send_message_inv runtime payer send st st' r e in
            inr (
              to_session_payload (sent runtime c path send),
              rw there free,
              rw (eq, there) refl,
              rw (eq, there) refl,
            )
        | delivers k p _ e ↦
            let (c, path, payload, epoch, m, _, _, _, _, _, _, _, _, _, eq) =
              deliver_message_inv runtime notary payer k p st st' e in
            inl (rw eq refl, rw eq refl)
        | handles k r a b _ e ↦
            let (c, m, world, _, _, _, _, _, eq) =
              handle_message_inv runtime payer k r a st st' b e in
            inl (rw eq refl, rw eq refl)
      ]

  -- The payload of a message that was sent stays as it is, whatever instructions follow.
  pub Leads-outbound_messages :
      {st st' : State World} (n : ℕ) (payload : List ℕ)
      → Leads runtime self self_chain_id st st'
      → st.outbound_messages n ≡ some payload
      → st'.outbound_messages n ≡ some payload
  Leads-outbound_messages n payload start found = found
  Leads-outbound_messages n payload (step {st} {st'} notary payer i r h) found =
      let kept = Leads-outbound_messages n payload r found in
      elim (outbound_effect notary payer i st st' h) [
        | inl (same, _) ↦ rw same kept
        | inr (p, free, eq, _) ↦ ground (arith, kept, free, eq)
      ]

  -- After any sequence of instructions, from no accounts on, the nonces of the messages that were
  -- sent are 1, 2, 3 and so on up to the one before the config's next nonce, with no gap.
  pub Leads-IsGapless :
      {world : World} {st : State World}
      → Leads runtime self self_chain_id (no_accounts world) st
      → IsGapless st
  Leads-IsGapless start =
      (omega arith, λ n there. absurd (there refl), λ n pos lt. absurd (omega arith))
  Leads-IsGapless (step {st} {st'} notary payer i r h) =
      let (pos, only, all) = Leads-IsGapless r in
      elim (outbound_effect notary payer i st st' h) [
        | inl (same, nonce) ↦ rw (same, nonce) (pos, only, all)
        | inr (p, free, eq, nonce) ↦
            rw (eq, nonce)
              (
                omega arith,
                λ n there. elim (Bool-cases (n == next_nonce st.config)) [
                  | inl same ↦
                      let is_next = (==_iff n (next_nonce st.config)).0 same in
                      (omega arith, omega arith)
                  | inr other ↦
                      let (above, below) = only n (λ gone. there (rw other gone)) in
                      (above, omega arith)
                ],
                λ n above below gone. elim (Bool-cases (n == next_nonce st.config)) [
                  | inl same ↦ ground arith
                  | inr other ↦ all n above (ground arith) (ground arith)
                ],
              )
      ]

-- What a byte costs: the config's price, unless the sender's config disables the fee, when an
-- override sets its part in ten-thousandths, and no override makes it free.
abbrev pub price_of : Config → Option SenderConfig → (fee_override : ℕ) → ℕ
price_of c none fee_override = c.fee_per_byte
price_of c (some s) fee_override =
    if s.fee_disabled then c.fee_per_byte * fee_override / 10000 else c.fee_per_byte

abbrev pub value_of : Option ℕ → ℕ
value_of none = 0
value_of (some price) = price

byte_price-price_of :
    (c : Config) (s : Option SenderConfig) (fee_override : ℕ) (price : Option ℕ)
    → byte_price c s fee_override ≡ ok price
    → value_of price ≡ price_of c s fee_override
unfolding byte_price
byte_price-price_of c none o price h = ground arith
byte_price-price_of c (some s) o price h = elim (Bool-cases s.fee_disabled) [
  | inr charged ↦ ground arith
  | inl disabled ↦ elim (Bool-cases (ltb 0 o)) [
    | inl overridden ↦ ground arith
    | inr free ↦ let zero_o : o ≡ 0 = ground arith in rw (disabled, zero_o) (ground arith)
  ]
]

module _ {World : Type 0} (runtime : Runtime World) where
  -- The fee payer has paid `fee` to the treasury of the config, which was passed, or nothing was due.
  abbrev pub Paid : Config → (fee_payer : ℕ) → Option ℕ → (fee : ℕ) (world world' : World) → Type 0
  Paid c fee_payer treasury fee world world' =
      ((fee ≡ 0) × (world' ≡ world))
      ⊎ ((0 < fee)
          × (treasury ≡ some c.treasury)
          × (runtime.transfer fee_payer c.treasury fee world ≡ some world'))

  pay_fee-Paid :
      (c : Config) (fee_payer : ℕ) (treasury : Option ℕ) (fee : ℕ) (world world' : World)
      → pay_fee runtime c fee_payer treasury fee world ≡ ok world'
      → Paid c fee_payer treasury fee world world'
  unfolding pay_fee
  pay_fee-Paid c fee_payer none fee world world' h = inl (ground arith)
  pay_fee-Paid c fee_payer (some treasury) fee world world' h = elim (Bool-cases (fee == 0)) [
    | inl free ↦ inl (ground arith)
    | inr due ↦ elim (Bool-cases (treasury == c.treasury)) [
      | inr wrong ↦ absurd (ground arith)
      | inl right ↦ elim (Option-cases (runtime.transfer fee_payer treasury fee world)) [
        | inl failed ↦ absurd (ground arith)
        | inr (world₁, paid) ↦
            let is_treasury = (==_iff treasury c.treasury).0 right in
            inr (ground arith, ap some is_treasury, rw (← is_treasury) (ground arith))
      ]
    ]
  ]

  charge-Paid :
      (c : Config) (fee_payer : ℕ) (treasury price : Option ℕ) (n : ℕ) (world world' : World)
      → charge runtime c fee_payer treasury price n world ≡ ok world'
      → Paid c fee_payer treasury (accountable_abi_bytes n * value_of price) world world'
  unfolding charge
  charge-Paid c fee_payer treasury none n world world' h = inl (ground arith)
  charge-Paid c fee_payer treasury (some price) n world world' h =
      let (fee, multiplied, paid) =
        >>=-eq-ok (mul_checked 64 (accountable_abi_bytes n) price) _ h in
      let is_product : fee ≡ accountable_abi_bytes n * price = ground (arith, multiplied) in
      rw (← is_product) (pay_fee-Paid c fee_payer treasury fee world world' paid)

  -- A message that goes through has cost its length in the ABI form times the price of a byte, which
  -- the fee payer has paid to the config's treasury, and its body is not longer than the limit. A
  -- sender's own config, where it is passed, sets the limit; where it disables the fee, the override
  -- sets the price, in ten-thousandths of the config's, and without one the message is free.
  pub send_message-Paid :
      (fee_payer : ℕ) (send : Send) (st st' : State World) (result : SendResult) (c : Config)
      (sender_config : Option SenderConfig)
      → st.config ≡ some c
      → passed_config runtime send st ≡ ok sender_config
      → send_message runtime fee_payer send st ≡ ok (st', result)
      → (length send.message_body ≤ max_payload_size c sender_config)
        × Paid c fee_payer send.treasury
            (accountable_abi_bytes (length send.message_body)
              * price_of c sender_config send.fee_override)
            st.world
            st'.world
  send_message-Paid fee_payer send st st' result c sender_config there passed h =
      let (c₁, path, s, price, e, _, passed₁, _, _, priced, fits, charged, eq, _) =
        send_message_inv runtime fee_payer send st st' result h in
      let same : c₁ ≡ c = cc (e, there) in
      let same_config : s ≡ sender_config = cc (passed₁, passed) in
      let is_price : value_of price ≡ price_of c sender_config send.fee_override =
        rw (← same, ← same_config) (byte_price-price_of c₁ s send.fee_override price priced) in
      (
        rw (← same, ← same_config) fits,
        rw (← is_price, ← same)
            (charge-Paid c₁ fee_payer send.treasury price (length send.message_body) st.world
              st'.world charged),
      )

  -- What a message leaves behind when it goes through: its payload, stored at the nonce that the
  -- config had, which reads back as the message with that nonce, if its fields fit their slots and its
  -- destination caller, if it has one, is not the zero address; the
  -- result has the hash of that payload, and the nonce of the message to come, one more than its own.
  pub send_message-stores :
      (fee_payer : ℕ) (send : Send) (st st' : State World) (result : SendResult) (c : Config)
      (path : OutboundMessagePath)
      → st.config ≡ some c
      → st.outbound_message_paths send.path ≡ some path
      → IsMessage (sent runtime c path send)
      → send_message runtime fee_payer send st ≡ ok (st', result)
      → (payload : List ℕ) × (st'.outbound_messages c.global_nonce ≡ some payload)
        × (from_session_payload payload ≡ ok (sent runtime c path send))
        × (result.payload_hash ≡ runtime.sha256 payload)
        × (result.nonce ≡ c.global_nonce + 1)
        × (next_nonce st'.config ≡ c.global_nonce + 1)
  send_message-stores fee_payer send st st' result c path there way good h =
      let (c₁, path₁, s, price, e, way₁, passed₁, _, _, priced, fits, charged, eq, sent_eq) =
        send_message_inv runtime fee_payer send st st' result h in
      let same : c₁ ≡ c = cc (e, there) in
      let same_path : path₁ ≡ path = cc (way, way₁) in
      (
        to_session_payload (sent runtime c path send),
        ground (arith, eq, same, same_path),
        from_session_payload-to (sent runtime c path send) good,
        rw (sent_eq, same, same_path) refl,
        rw (sent_eq, same) refl,
        rw (eq, same) refl,
      )
