-- ===== src/Harbor.antt =====
-- packages/guided-workflow/harbor-lantern.mjs: the state of the guided analysis, its settings, the
-- relationships that they show, the analysis they lead to, and the preflight of the report.
-- The values of a setting are compared by their texts in the code, so that a number and its numeral
-- are one value; here they are the number. The fixture (data/fixtures/harbor-lantern.v1.json) is a
-- parameter: its relationships and its default settings.
pub mod State
pub mod Settings
pub mod Report
pub mod Configure
pub mod Examples
