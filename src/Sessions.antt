-- ===== src/Sessions.antt =====
-- Package sessions (domains/sessions).
pub mod Types
pub mod Summary
pub mod MemoryStore
pub mod Paginate
pub mod Chain
pub mod ProjectKey
pub mod Listing
pub mod Edits
pub mod Fork
pub mod Subagents
pub mod Import
