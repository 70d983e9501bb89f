-- ===== src/Import/Preflight.antt =====
-- When the report of an imported case passes its preflight.
use network_analytics_predic.Fraud.Flow.{Clock}
use network_analytics_predic.Fraud.Detect.{FraudState}
use network_analytics_predic.Fraud.Safe.{has_neutral_note}
use network_analytics_predic.Import.Preview.{Preview}
use network_analytics_predic.Import.Benchmark.{
  imported_checks, imported_report_model, imported_report_checks, run_imported_preflight, is_mapped,
  imported_interpretation, detect_imported_fraud_rings,
}
use network_analytics_predic.Prelude.{
  lower, arith, includes, is_empty, all, ◌≡◌, true, length, ◌&&◌, not, leb, ltb,
}

report_checks-eq :
    (clock : Clock) (preview : Preview) (state : FraudState)
    → let report = imported_report_model clock preview state in
      all (λ c. c.1) (imported_report_checks preview report) ≡ (
        is_mapped preview.mapped_columns
        && leb preview.summary.accepted preview.summary.total_rows
        && not (is_empty report.known_at)
        && ltb 0 (length report.dependencies))
unfolding imported_report_checks imported_report_model
report_checks-eq clock preview state =
    let neutral = has_neutral_note (
      imported_interpretation
        (detect_imported_fraud_rings clock preview.accepted_rows state.settings true)) in
    rw neutral (unfold includes lower in ground arith)

-- The report of an import passes its preflight exactly when the four steps of the journey are done, the
-- finding is marked ready, a column is mapped, no more rows are accepted than there are, the known-at date is
-- given and some score depends on a transaction.
pub run_imported_preflight-passed :
    (clock : Clock) (preview : Preview) (state : FraudState)
    → let j = state.journey in
      let report = imported_report_model clock preview state in
      run_imported_preflight clock preview state ≡ (
        j.evidence_inspected
        && j.reasoning_inspected
        && j.alternative_reviewed
        && j.recommendation_acknowledged
        && state.finding_ready
        && is_mapped preview.mapped_columns
        && leb preview.summary.accepted preview.summary.total_rows
        && not (is_empty report.known_at)
        && ltb 0 (length report.dependencies))
unfolding run_imported_preflight imported_checks
run_imported_preflight-passed clock preview state =
    rw (report_checks-eq clock preview state) (ground arith)
