-- ===== src/Timeline.antt =====
-- packages/graph-renderer/graph-model.mjs: the period models, the summary of two periods, and the split of the
-- visible relationships into chronological models.
pub mod Period
pub mod Split
pub mod Order
pub mod Gaps
pub mod Cover
pub mod Rows
pub mod Examples
