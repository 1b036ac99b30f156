-- ===== src/Protocol.antt =====
-- domains/protocol: the types and the coding of the lines between the SDK and the CLI.
pub mod Wire
pub mod Frames
pub mod Blocks
pub mod Lifecycle
pub mod Activity
pub mod Events
pub mod Parser
pub mod Requests
pub mod Builder
