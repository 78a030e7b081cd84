-- ===== src/AssetRouter.antt =====
-- The asset router, programs/asset_router: its accounts, the payloads and messages that it reads and
-- writes, the instructions that configure it, and minting from a notarized deposit.
pub mod State
pub mod Payloads
pub mod Messages
pub mod Admin
pub mod Minting
pub mod Standins
pub mod Sending
pub mod Receiving
pub mod WithFee
pub mod Instruction
pub mod Program
