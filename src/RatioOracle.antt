-- ===== src/RatioOracle.antt =====
-- The ratio oracle, programs/ratio_oracle: the ratio of a token to its underlying asset, updated by
-- payloads that the consortium has validated.
pub mod State
pub mod Program
