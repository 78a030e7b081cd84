-- ===== src/BasculeGmp.antt =====
-- The bascule for mints, programs/bascule_gmp: a record of the mints that a trusted signer has
-- signed, which a validation has to find and uses up.
pub mod State
pub mod Program
