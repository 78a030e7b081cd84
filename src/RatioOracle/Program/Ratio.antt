-- ===== src/RatioOracle/Program/Ratio.antt =====
-- How a ratio can change, and when.
use sol_svm_contracts.Base.{
  ℕ, ◌+◌, ◌-◌, ◌*◌, ◌/◌, ◌%◌, ◌^◌, length, take, drop, ◌≤◌, ◌<◌, ◌≡◌, refl, ◌∙◌, false, List, leb,
  if◌then◌else◌, some, inl, inr, ◌==◌, ==_iff, ◌⊎◌, ok, arith, Option-cases, Outcome-cases,
  Bool-cases,
}
use sol_svm_contracts.Base.Bytes.{from_be, read_array, read_exact, read_u64}
use sol_svm_contracts.RatioOracle.State.{Config, Oracle, State, Environment, Instruction}
use sol_svm_contracts.RatioOracle.Program.{
  exec, initialize, accept_ownership, transfer_ownership, update_consortium, update_ratio_threshold,
  validate_ratio_threshold, initialize_oracle, publish_ratio, RatioUpdate, from_session_payload,
  change, threshold_for, with_ratio,
}

threshold_for-ok :
    (current interval part threshold : ℕ)
    → threshold_for current interval part ≡ ok threshold
    → threshold ≡ current * interval * part / 8640000000000
unfolding threshold_for
threshold_for-ok current interval part threshold h = ground arith

below_quotient : (d n : ℕ) → d ≤ n / 8640000000000 → d * 8640000000000 ≤ n
below_quotient d n h = omega arith

-- A payload of 100 bytes that starts with the selector, and what its words say.
abbrev pub Says : List ℕ → RatioUpdate → Type 0
Says payload u =
    (length payload ≡ 100)
    × (from_be (take 4 payload) ≡ 0x6c722c2c)
    × (u.denom_hash ≡ from_be (take 32 (drop 4 payload)))
    × (u.ratio ≡ from_be (take 32 (drop 32 (drop 4 payload))) % 2 ^ 128)
    × (u.timestamp ≡ from_be (drop 24 (take 32 (drop 32 (drop 32 (drop 4 payload))))))

from_session_payload-Says :
    (payload : List ℕ) (u : RatioUpdate) → from_session_payload payload ≡ ok u → Says payload u
unfolding from_session_payload read_array read_exact read_u64
from_session_payload-Says payload u h =
    (ground arith, ground arith, ground arith, ground arith, ground arith)

change-bounds :
    (current new bound : ℕ)
    → change current new * 8640000000000 ≤ bound
    → (new * 8640000000000 ≤ current * 8640000000000 + bound)
      × (current * 8640000000000 ≤ new * 8640000000000 + bound)
change-bounds current new bound h = (ground arith, ground arith)

module _ (env : Environment) where
  -- A ratio that is published stands in the last 16 bytes of the second word of a payload of 100
  -- bytes with the selector, whose hash the consortium has validated, and its time in the last 8
  -- bytes of the third word. The payload is for the denomination of the oracle; its time is later
  -- than the last one and not later than the clock's plus the interval; and it is above and below
  -- the last ratio by at most the part that the threshold allows for a day, in proportion to the
  -- time between the two. The oracle then has that ratio and that time, its previous ratio is the
  -- last one if the clock had reached the last time and stays otherwise, and the rest of it and
  -- every other oracle stay.
  pub publish_ratio-bounds :
      (key : ℕ) (payload : List ℕ) (st st' : State)
      → publish_ratio env key payload st ≡ ok st'
      → (c : Config) × (o : Oracle) × (u : RatioUpdate) × (epoch : ℕ) × (st.config ≡ some c)
        × (st.oracles key ≡ some o)
        × (env.validated_payload c.consortium (env.sha256 payload) ≡ some epoch)
        × (from_session_payload payload ≡ ok u)
        × Says payload u
        × (u.denom_hash ≡ env.sha256 o.denom)
        × (o.switch_time < u.timestamp)
        × (u.timestamp ≤ env.unix_timestamp + o.max_ahead_interval)
        × (u.ratio * 8640000000000
            ≤ o.current_ratio * 8640000000000
              + o.current_ratio * (u.timestamp - o.switch_time) * o.ratio_threshold)
        × (o.current_ratio * 8640000000000
            ≤ u.ratio * 8640000000000
              + o.current_ratio * (u.timestamp - o.switch_time) * o.ratio_threshold)
        × (st'.oracles key
            ≡ some (record {
              denom = o.denom;
              mint_address = o.mint_address;
              previous_ratio =
                  if leb o.switch_time env.unix_timestamp
                  then some o.current_ratio
                  else o.previous_ratio;
              current_ratio = u.ratio;
              switch_time = u.timestamp;
              max_ahead_interval = o.max_ahead_interval;
              ratio_threshold = o.ratio_threshold;
            }))
        × ((other : ℕ) → (other == key) ≡ false → st'.oracles other ≡ st.oracles other)
  unfolding publish_ratio
  publish_ratio-bounds key payload st st' h = elim (Option-cases st.config) [
    | inl e ↦ absurd (ground arith)
    | inr (c, e) ↦ elim (Option-cases (st.oracles key)) [
      | inl e₁ ↦ absurd (ground arith)
      | inr (o, e₁) ↦
          elim (Option-cases (env.validated_payload c.consortium (env.sha256 payload))) [
            | inl e₂ ↦ absurd (ground arith)
            | inr (epoch, e₂) ↦ elim (Outcome-cases (from_session_payload payload)) [
              | inr failed ↦ absurd (ground arith)
              | inl (u, decoded) ↦
                  elim (Outcome-cases (
                    threshold_for o.current_ratio (u.timestamp - o.switch_time)
                      o.ratio_threshold)) [
                        | inr failed ↦ absurd (ground arith)
                        | inl (threshold, computed) ↦
                            let is_quotient = threshold_for-ok _ _ _ threshold computed in
                            let within : change o.current_ratio u.ratio ≤ threshold =
                              ground arith in
                            let scaled : change o.current_ratio u.ratio * 8640000000000
                                ≤ o.current_ratio
                                  * (u.timestamp - o.switch_time)
                                  * o.ratio_threshold =
                              below_quotient _ _ (omega (arith, within, is_quotient)) in
                            (
                              c,
                              o,
                              u,
                              epoch,
                              e,
                              e₁,
                              e₂,
                              decoded,
                              from_session_payload-Says payload u decoded,
                              ground arith,
                              ground arith,
                              ground arith,
                              (change-bounds o.current_ratio u.ratio _ scaled).0,
                              (change-bounds o.current_ratio u.ratio _ scaled).1,
                              ground arith,
                              λ other ne. ground arith,
                            )
                      ]
            ]
          ]
    ]
  ]

  abbrev pub Kept : Oracle → Oracle → Type 0
  Kept o o' =
      (o'.denom ≡ o.denom)
      × (o'.mint_address ≡ o.mint_address)
      × (o'.max_ahead_interval ≡ o.max_ahead_interval)
      × (((o'.current_ratio ≡ o.current_ratio) × (o'.switch_time ≡ o.switch_time))
          ⊎ (o.switch_time < o'.switch_time))

  abbrev pub IsKept : (key : ℕ) → Oracle → State → Type 0
  IsKept key o st' = (o' : Oracle) × (st'.oracles key ≡ some o') × Kept o o'

  unchanged : (key : ℕ) (o : Oracle) (st' : State) → st'.oracles key ≡ some o → IsKept key o st'
  unchanged key o st' e = (o, e, (refl, refl, refl, inl (refl, refl)))

  threshold-IsKept :
      (payer k t key : ℕ) (o : Oracle) (st st' : State)
      → st.oracles key ≡ some o
      → update_ratio_threshold payer k t st ≡ ok st'
      → IsKept key o st'
  unfolding update_ratio_threshold validate_ratio_threshold
  threshold-IsKept payer k t key o st st' e h = elim (Bool-cases (key == k)) [
    | inl eq ↦ (
      record o { ratio_threshold = t },
      ground (arith, (==_iff key k).0 eq),
      (refl, refl, refl, inl (refl, refl)),
    )
    | inr ne ↦ unchanged key o st' (ground arith)
  ]

  publish-IsKept :
      (k : ℕ) (payload : List ℕ) (key : ℕ) (o : Oracle) (st st' : State)
      → st.oracles key ≡ some o
      → publish_ratio env k payload st ≡ ok st'
      → IsKept key o st'
  publish-IsKept k payload key o st st' e h =
      let (c, o₁, u, epoch, _, there, _, _, _, _, later, _, _, _, stored, others) =
        publish_ratio-bounds k payload st st' h in
      elim (Bool-cases (key == k)) [
        | inl eq ↦
            let is_k = (==_iff key k).0 eq in
            let same_oracle : o₁ ≡ o = cc (e, there, is_k) in
            (
              with_ratio env.unix_timestamp u o,
              rw (is_k, ← same_oracle) stored,
              (refl, refl, refl, inr (rw (← same_oracle) later)),
            )
        | inr ne ↦ unchanged key o st' (others key ne ∙ e)
      ]

  -- Whatever instruction runs, an oracle that is there stays, with its denomination, mint and
  -- interval; and its ratio and switch time stay, or its switch time moves forward.
  pub exec-IsKept :
      (payer : ℕ) (i : Instruction) (st st' : State) (key : ℕ) (o : Oracle)
      → st.oracles key ≡ some o
      → exec env payer i st ≡ ok st'
      → IsKept key o st'
  unfolding exec initialize accept_ownership transfer_ownership update_consortium initialize_oracle
      validate_ratio_threshold
  exec-IsKept payer (Instruction.initialize u a c) st st' key o e h =
      unchanged key o st' (ground arith)
  exec-IsKept payer Instruction.accept_ownership st st' key o e h =
      unchanged key o st' (ground arith)
  exec-IsKept payer (Instruction.transfer_ownership a) st st' key o e h =
      unchanged key o st' (ground arith)
  exec-IsKept payer (Instruction.update_consortium c) st st' key o e h =
      unchanged key o st' (ground arith)
  exec-IsKept payer (Instruction.update_ratio_threshold k t) st st' key o e h =
      threshold-IsKept payer k t key o st st' e h
  exec-IsKept payer (Instruction.initialize_oracle d m i s x t) st st' key o e h =
      unchanged key o st' (ground arith)
  exec-IsKept payer (Instruction.publish_ratio k p) st st' key o e h =
      publish-IsKept k p key o st st' e h
