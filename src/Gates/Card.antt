-- ===== src/Gates/Card.antt =====
-- packages/predictive/model-gates.mjs: `buildCandidateModelCard`.
use network_analytics_predic.Gates.Candidate.{
  Candidate, RedTeam, evaluate_red_team_gates, red_team_scenarios, max_calibration_error,
  max_hard_negative_false_positive_rate,
}
use network_analytics_predic.Gates.Leakage.{LeakageReport, detect_temporal_leakage}
use mathlib.Core.Option
use network_analytics_predic.Prelude.{some, sub_ℕ, get_or, ℤ, String, ℕ, List, Option}

-- `DEFAULT_PREDICTION_TIME`, which an absent prediction time stands for.
abbrev pub default_prediction_time : String
default_prediction_time = "2026-04-04T18:00:00Z"

-- The context of a card; of the baseline's precision, minus infinity is none.
pub record CardContext : Type 0 where
  pub training_window : Option String
  pub fold_count : Option ℕ
  pub baseline_precision_at_budget : Option (Option ℕ)
  pub prediction_time : Option String

pub record ModelCard : Type 0 where
  pub id : String
  pub label : String
  pub family : String
  pub target : String
  pub population : String
  pub horizon : String
  pub training_window : String
  pub fold_count : ℕ
  pub feature_families : List String
  pub leakage_report : LeakageReport
  pub baseline_lift : Option ℤ
  pub expected_calibration_error : ℕ
  pub max_allowed_calibration_error : ℕ
  pub false_positive_rate : ℕ
  pub max_allowed_false_positive_rate : ℕ
  pub random_negative_precision : ℕ
  pub explanation_coverage : ℕ
  pub red_team : RedTeam
  pub prohibited_use : String

-- `precision - (baseline ?? 0)`, which is infinite, here none, without a baseline candidate.
abbrev pub lift_over : ℕ → Option ℕ → Option ℤ
lift_over precision baseline = Option.map (sub_ℕ precision) baseline

unfoldable pub build_candidate_model_card :
    (String → Option ℕ)
    → Candidate
    → Option LeakageReport
    → Option RedTeam
    → CardContext
    → ModelCard
unfolding detect_temporal_leakage evaluate_red_team_gates
build_candidate_model_card parse_time c leakage red_team context = record {
  id = c.id;
  label = c.label;
  family = c.family;
  target = c.target;
  population = c.population;
  horizon = c.horizon;
  training_window = get_or context.training_window "rolling temporal folds";
  fold_count = get_or context.fold_count 3;
  feature_families = c.feature_families;
  leakage_report = get_or leakage (
      detect_temporal_leakage parse_time c.dependencies
        (get_or context.prediction_time default_prediction_time));
  baseline_lift =
      lift_over c.precision_at_budget (get_or context.baseline_precision_at_budget (some 0));
  expected_calibration_error = c.calibration_error;
  max_allowed_calibration_error = max_calibration_error;
  false_positive_rate = c.hard_negative_false_positive_rate;
  max_allowed_false_positive_rate = max_hard_negative_false_positive_rate;
  random_negative_precision = c.random_negative_precision;
  explanation_coverage = c.explanation_coverage;
  red_team = get_or red_team (evaluate_red_team_gates c red_team_scenarios);
  prohibited_use = "Never person-level guilt, criminality, dangerousness, or enforcement action.";
}
