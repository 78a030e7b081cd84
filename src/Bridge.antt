-- ===== src/Bridge.antt =====
-- The bridge program, programs/bridge: tokens are burned on one chain and minted on another, on a
-- message through the mailbox.
pub mod State
pub mod Messages
pub mod Instruction
pub mod Admin
pub mod Sending
pub mod Receiving
pub mod Program
