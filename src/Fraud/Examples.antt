-- ===== src/Fraud/Examples.antt =====
-- The synthetic case with all steps done.
use network_analytics_predic.Fraud.Flow.{Clock, default_settings}
use network_analytics_predic.Fraud.Detect.{FraudState, run_fraud_preflight}
use network_analytics_predic.Fraud.Safe.{run_fraud_preflight-passed}
use network_analytics_predic.Gates.Folds.{sorts_after}
use network_analytics_predic.Prelude.{◌≡◌, true}

-- A clock that stands still.
abbrev pub clock : Clock
clock = record { ms = λ at. 0; id_before = λ a b. sorts_after b a }

abbrev pub done : FraudState
done = record {
  settings = default_settings;
  finding_ready = true;
  journey = record {
    evidence_inspected = true;
    reasoning_inspected = true;
    alternative_reviewed = true;
    recommendation_acknowledged = true;
  };
}

run_fraud_preflight-passed_example : run_fraud_preflight clock done ≡ true
run_fraud_preflight-passed_example = run_fraud_preflight-passed clock done
