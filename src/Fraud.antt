-- ===== src/Fraud.antt =====
-- packages/guided-workflow/financial-fraud.mjs: the workflow over the synthetic transactions, and what the workflow
-- over imported transactions shares with it. Amounts are whole thousandths of the currency's unit, as natural
-- numbers; `new Date(…).getTime()` and `localeCompare` are parameters.
pub mod Flow
pub mod Case
pub mod Detect
pub mod Ranked
pub mod Safe
pub mod Examples
