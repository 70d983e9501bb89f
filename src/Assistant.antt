-- ===== src/Assistant.antt =====
-- packages/ai-assistant/production-readiness.mjs: the gates before a request goes to an external model.
pub mod Patterns
pub mod Retrieval
pub mod Provider
pub mod Study
pub mod Audit
pub mod Allowed
pub mod Examples
