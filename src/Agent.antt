-- ===== src/Agent.antt =====
-- Package agent (domains/agent).
pub mod RunEnd
pub mod Path
pub mod Mirror
pub mod Control
pub mod McpServer
pub mod Requests
pub mod Lines
pub mod Options
pub mod Client
pub mod HookOutput
pub mod Initialize
pub mod HookFields
pub mod HookInput
pub mod ErrorLine
pub mod Query
