-- ===== src/Copilot.antt =====
-- packages/ai-assistant/analyst-copilot.mjs: the policy on prompts, the retrieval of visible evidence, the answers, the
-- neutral draft, the red-team review and the notes that come of them, the previews of queries and the suggestions of
-- entity resolutions.
pub mod Policy
pub mod Evidence
pub mod Answer
pub mod Review
pub mod Guides
pub mod Query
pub mod Resolution
pub mod Pairs
pub mod Grounded
pub mod Blocked
pub mod Examples
