-- ===== src/Messages.antt =====
-- domains/messages: the messages that the SDK hands to its caller, and their conversion from the wire.
pub mod Blocks
pub mod Tasks
pub mod Activity
pub mod Events
pub mod Types
pub mod Convert
pub mod Origin
