-- ===== src/Consortium.antt =====
-- The consortium program (programs/consortium): the notary sessions of a weighted validator set.
pub mod State
pub mod Instruction
pub mod Payload
pub mod Signatures
pub mod Program
