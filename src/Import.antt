-- ===== src/Import.antt =====
-- packages/guided-workflow/transaction-import.mjs: the import of transactions from a text, the preview that accepts
-- or rejects each row, and the workflow over the accepted rows. `JSON.parse`, `Number` and `Date` are parameters.
-- Amounts are whole thousandths.
pub mod Csv
pub mod Rows
pub mod Mapping
pub mod Values
pub mod Preview
pub mod Sound
pub mod Decided
pub mod Workflow
pub mod Detection
pub mod Benchmark
pub mod Scores
pub mod Closed
pub mod Labels
pub mod Preflight
pub mod Examples
