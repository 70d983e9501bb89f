-- ===== src/Phrases.antt =====
-- packages/graph-renderer/bloom-exploration.mjs: scene presets, the parser of graph phrases and their execution.
pub mod Preset
pub mod Pattern
pub mod Execute
pub mod Parse
pub mod Split
pub mod Between
pub mod Keeps
pub mod Rows
pub mod Examples
