-- ===== src/Mailbox.antt =====
-- The mailbox program (programs/mailbox): messages to and from other chains.
pub mod Message
pub mod State
pub mod Instruction
pub mod Admin
pub mod Program
