-- ===== src/Gates.antt =====
-- packages/predictive/model-gates.mjs, and production-readiness.mjs beside it: the gates that a predictive model
-- candidate has to pass. The metrics are thousandths, as whole numbers. `Date.parse` is a parameter: the
-- milliseconds of a date, or none; so are the numbers of the calibration curve.
pub mod Leakage
pub mod Candidate
pub mod Card
pub mod Claim
pub mod Folds
pub mod Double
pub mod Panel
pub mod Defaults
pub mod Replay
pub mod Eligible
pub mod Safe
pub mod Calibration
pub mod Calibrated
pub mod Production
pub mod Promotion
pub mod Promoted
pub mod Trials
pub mod Examples
