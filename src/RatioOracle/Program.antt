-- ===== src/RatioOracle/Program.antt =====
-- The instructions of the ratio oracle: programs/ratio_oracle/src/instructions and utils. Each takes
-- the key that signs.
pub mod Ratio
mod Witnesses
use sol_svm_contracts.Base.{
  ℕ, ◌+◌, ◌-◌, ◌*◌, ◌/◌, ◌%◌, ◌^◌, ◌≡◌, Bool, true, false, List, [], ◌∷◌, Option, none, some,
  length, ltb, leb, ◌==◌, if◌then◌else◌, Outcome, ok, err, constraint_address, ◌>>=◌, ◌>>◌, require,
  constrain, load, vacant, add_checked, mul_checked,
}
use sol_svm_contracts.Base.Bytes.{read_array, read_u64}
use sol_svm_contracts.RatioOracle.State.{
  Error, unauthorized, buffer_io_error, invalid_payload_length, invalid_payload_selector,
  wrong_denom, outdated_ratio_update, max_ahead_interval_exceeded, ratio_threshold_exceeded,
  empty_denom, zero_ratio_threshold, exceeded_max_ratio_threshold, max_ratio_threshold,
  default_switch_interval, Config, Oracle, State, Environment, Instruction,
}

abbrev unwrap_or_default : Option ℕ → ℕ
unwrap_or_default none = 0
unwrap_or_default (some a) = a

abbrev pub put_oracle : ℕ → Oracle → (ℕ → Option Oracle) → ℕ → Option Oracle
put_oracle k o m j = if j == k then some o else m j

unfoldable pub initialize :
    (upgrade_authority : Option ℕ) (deployer admin consortium : ℕ) → State → Outcome Error State
initialize upgrade_authority deployer admin consortium st = do
  vacant st.config
  require (deployer == unwrap_or_default upgrade_authority) unauthorized
  ok (record st {
    config = some (record { admin = admin; pending_admin = 0; consortium = consortium });
  })

unfoldable pub accept_ownership : (payer : ℕ) → State → Outcome Error State
accept_ownership payer st = do
  config ← load st.config
  constrain (payer == config.pending_admin) constraint_address
  ok (record st { config = some (record config { admin = payer; pending_admin = 0 }) })

unfoldable pub transfer_ownership : (payer new_admin : ℕ) → State → Outcome Error State
transfer_ownership payer new_admin st = do
  config ← load st.config
  require (payer == config.admin) unauthorized
  ok (record st { config = some (record config { pending_admin = new_admin }) })

unfoldable pub update_consortium : (payer new_consortium : ℕ) → State → Outcome Error State
update_consortium payer new_consortium st = do
  config ← load st.config
  require (payer == config.admin) unauthorized
  ok (record st { config = some (record config { consortium = new_consortium }) })

unfoldable pub validate_ratio_threshold : ℕ → Outcome Error (Unit {0})
validate_ratio_threshold ratio_threshold = do
  require (ltb 0 ratio_threshold) zero_ratio_threshold
  require (leb ratio_threshold max_ratio_threshold) exceeded_max_ratio_threshold
  ok tt

unfoldable pub update_ratio_threshold :
    (payer key ratio_threshold : ℕ) → State → Outcome Error State
update_ratio_threshold payer key ratio_threshold st = do
  config ← load st.config
  oracle ← load (st.oracles key)
  require (payer == config.admin) unauthorized
  validate_ratio_threshold ratio_threshold
  ok (record st {
    oracles = put_oracle key (record oracle { ratio_threshold = ratio_threshold }) st.oracles;
  })

-- `RatioUpdate` of utils/consortium_payloads.rs
pub record RatioUpdate : Type 0 where
  pub denom_hash : ℕ
  pub ratio : ℕ
  pub timestamp : ℕ

unfoldable pub from_session_payload : List ℕ → Outcome Error RatioUpdate
from_session_payload payload = do
  require (length payload == 4 + 32 * 3) invalid_payload_length
  (selector, rest) ← read_array buffer_io_error 4 payload
  require (selector == 0x6c722c2c) invalid_payload_selector
  (denom_hash, rest₁) ← read_array buffer_io_error 32 rest
  (ratio_word, rest₂) ← read_array buffer_io_error 32 rest₁
  (timestamp, rest₃) ← read_u64 buffer_io_error rest₂
  ok (record { denom_hash = denom_hash; ratio = ratio_word % 2 ^ 128; timestamp = timestamp })

-- `|current - new|`, as the two branches of the match take it.
abbrev pub change : (current new : ℕ) → ℕ
change current new = if ltb new current then current - new else new - current

-- The most that the ratio may change in the interval.
unfoldable pub threshold_for : (current_ratio interval ratio_threshold : ℕ) → Outcome Error ℕ
threshold_for current_ratio interval ratio_threshold = do
  product ← mul_checked 128 current_ratio interval
  product₁ ← mul_checked 128 product ratio_threshold
  ok (product₁ / (max_ratio_threshold * default_switch_interval))

abbrev pub with_ratio : (now : ℕ) → RatioUpdate → Oracle → Oracle
with_ratio now update oracle = record oracle {
  previous_ratio =
      if leb oracle.switch_time now then some oracle.current_ratio else oracle.previous_ratio;
  current_ratio = update.ratio;
  switch_time = update.timestamp;
}

module _ (env : Environment) where
  unfoldable pub initialize_oracle :
      (payer : ℕ) (denom : List ℕ)
      (mint_address initial_ratio switch_time max_ahead_interval ratio_threshold : ℕ)
      → State
      → Outcome Error State
  initialize_oracle payer denom mint_address initial_ratio switch_time max_ahead_interval
        ratio_threshold st =
      do
        config ← load st.config
        vacant (st.oracles (env.sha256 denom))
        require (payer == config.admin) unauthorized
        require (ltb 0 (length denom)) empty_denom
        validate_ratio_threshold ratio_threshold
        let oracle : Oracle = record {
          denom = denom;
          mint_address = mint_address;
          previous_ratio = none;
          current_ratio = initial_ratio;
          switch_time = switch_time;
          max_ahead_interval = max_ahead_interval;
          ratio_threshold = ratio_threshold;
        }
        ok (record st { oracles = put_oracle (env.sha256 denom) oracle st.oracles })

  unfoldable pub publish_ratio : (key : ℕ) (payload : List ℕ) → State → Outcome Error State
  publish_ratio key payload st = do
    config ← load st.config
    oracle ← load (st.oracles key)
    epoch ← load (env.validated_payload config.consortium (env.sha256 payload))
    update ← from_session_payload payload
    require (update.denom_hash == env.sha256 oracle.denom) wrong_denom
    require (ltb oracle.switch_time update.timestamp) outdated_ratio_update
    latest ← add_checked 64 env.unix_timestamp oracle.max_ahead_interval
    require (leb update.timestamp latest) max_ahead_interval_exceeded
    threshold ←
        threshold_for oracle.current_ratio (update.timestamp - oracle.switch_time)
          oracle.ratio_threshold
    require (leb (change oracle.current_ratio update.ratio) threshold) ratio_threshold_exceeded
    ok (record st {
      oracles = put_oracle key (with_ratio env.unix_timestamp update oracle) st.oracles;
    })

  -- One instruction, signed by `payer`.
  unfoldable pub exec : (payer : ℕ) → Instruction → State → Outcome Error State
  exec payer (Instruction.initialize u a c) = initialize u payer a c
  exec payer Instruction.accept_ownership = accept_ownership payer
  exec payer (Instruction.transfer_ownership a) = transfer_ownership payer a
  exec payer (Instruction.update_consortium c) = update_consortium payer c
  exec payer (Instruction.update_ratio_threshold k t) = update_ratio_threshold payer k t
  exec payer (Instruction.initialize_oracle d m i s x t) = initialize_oracle payer d m i s x t
  exec payer (Instruction.publish_ratio k p) = publish_ratio k p
