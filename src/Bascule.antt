-- ===== src/Bascule.antt =====
-- The bascule program, programs/bascule: a record of the deposits that were reported, which a
-- withdrawal has to find unspent.
pub mod State
pub mod Allowlist
pub mod Program
