-- ===== src/Layout.antt =====
-- packages/graph-renderer/layout-model.mjs: layout checkpoints, node visuals and the check of node images.
pub mod Visuals
pub mod Image
pub mod Examples
