-- ===== src/Workspace.antt =====
-- packages/graph-renderer/chart-workspace.mjs.
pub mod State
pub mod History
pub mod Search
pub mod Keeps
pub mod Valid
pub mod Path
pub mod Export
pub mod Notes
pub mod Manual
pub mod AiNote
pub mod Reach
pub mod Removal
pub mod Redaction
pub mod Snapshots
pub mod Ids
pub mod Tasks
pub mod Found
pub mod Status
pub mod Examples
