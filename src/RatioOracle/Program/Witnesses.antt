-- ===== src/RatioOracle/Program/Witnesses.antt =====
-- The ratio oracle at concrete inputs: a day after the last update the ratio grows by one part in a
-- hundred.
use sol_svm_contracts.Base.{
  ℕ, ◌+◌, ◌-◌, ◌*◌, ◌≤◌, ◌<◌, ◌≡◌, refl, false, List, [], ◌∷◌, ◌++◌, none, some, length, ◌==◌, leb,
  if◌then◌else◌, ok, err,
}
use sol_svm_contracts.Base.Bytes.{
  to_be, u64_word, from_be, from_be_from, read_exact, read_array, read_u64,
}
use sol_svm_contracts.RatioOracle.State.{Config, Oracle, State, Environment, outdated_ratio_update}
use sol_svm_contracts.RatioOracle.Program.{
  publish_ratio, RatioUpdate, from_session_payload, threshold_for, with_ratio, put_oracle,
}
use sol_svm_contracts.RatioOracle.Program.Ratio.{Says, publish_ratio-bounds}

abbrev env : Environment
env = record {
  sha256 = λ bytes. length bytes;
  unix_timestamp = 90000;
  validated_payload = λ program hash. some 1;
}

abbrev oracle : Oracle
oracle = record {
  denom = 117 ∷ 98 ∷ 116 ∷ 99 ∷ [];
  mint_address = 40;
  previous_ratio = none;
  current_ratio = 1000;
  switch_time = 100;
  max_ahead_interval = 600;
  ratio_threshold = 1000000;
}

abbrev before : State
before = record {
  config = some (record { admin = 7; pending_admin = 0; consortium = 900 });
  oracles = put_oracle 4 oracle (λ _. none);
}

abbrev payload : List ℕ
payload = to_be 4 0x6c722c2c ++ (to_be 32 4 ++ (to_be 32 990 ++ u64_word 86500))

abbrev update : RatioUpdate
update = record { denom_hash = 4; ratio = 990; timestamp = 86500 }

abbrev after : State
after = record before { oracles = put_oracle 4 (with_ratio 90000 update oracle) before.oracles }

publish_ratio-runs : publish_ratio env 4 payload before ≡ ok after
unfolding publish_ratio from_session_payload threshold_for read_array read_u64 read_exact from_be
    from_be_from to_be u64_word
publish_ratio-runs = refl

published_once : publish_ratio env 4 payload after ≡ err outdated_ratio_update
unfolding publish_ratio from_session_payload threshold_for read_array read_u64 read_exact from_be
    from_be_from to_be u64_word
published_once = refl

publish_ratio-bounds_example :
    (c : Config) × (o : Oracle) × (u : RatioUpdate) × (epoch : ℕ) × (before.config ≡ some c)
    × (before.oracles 4 ≡ some o)
    × (env.validated_payload c.consortium (env.sha256 payload) ≡ some epoch)
    × (from_session_payload payload ≡ ok u)
    × Says payload u
    × (u.denom_hash ≡ env.sha256 o.denom)
    × (o.switch_time < u.timestamp)
    × (u.timestamp ≤ env.unix_timestamp + o.max_ahead_interval)
    × (u.ratio * 8640000000000
        ≤ o.current_ratio * 8640000000000
          + o.current_ratio * (u.timestamp - o.switch_time) * o.ratio_threshold)
    × (o.current_ratio * 8640000000000
        ≤ u.ratio * 8640000000000
          + o.current_ratio * (u.timestamp - o.switch_time) * o.ratio_threshold)
    × (after.oracles 4
        ≡ some (record {
          denom = o.denom;
          mint_address = o.mint_address;
          previous_ratio =
              if leb o.switch_time env.unix_timestamp
              then some o.current_ratio
              else o.previous_ratio;
          current_ratio = u.ratio;
          switch_time = u.timestamp;
          max_ahead_interval = o.max_ahead_interval;
          ratio_threshold = o.ratio_threshold;
        }))
    × ((other : ℕ) → (other == 4) ≡ false → after.oracles other ≡ before.oracles other)
publish_ratio-bounds_example = publish_ratio-bounds env 4 payload before after publish_ratio-runs
