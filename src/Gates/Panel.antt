-- ===== src/Gates/Panel.antt =====
-- packages/predictive/model-gates.mjs: `evaluatePredictiveModelCandidates` and `enableCandidate`.
use network_analytics_predic.Gates.Candidate.{
  min_robustness, min_explanation_coverage, max_latency_ms, max_hard_negative_false_positive_rate,
  simulate_hard_negative_benchmark, baseline_precision, evaluate_red_team_gates,
  max_calibration_error, Scenario, is_baseline, min_precision_gain, BenchmarkRow, Candidate,
  RedTeam,
}
use network_analytics_predic.Gates.Card.{ModelCard, build_candidate_model_card}
use network_analytics_predic.Gates.Folds.{
  TemporalFold, FoldClock, FoldOptions, Event, build_temporal_folds,
}
use network_analytics_predic.Gates.Leakage.{LeakageReport, detect_temporal_leakage}
use network_analytics_predic.Gates.Double.{thousandths, sum_of}
use mathlib.Core.Option
use network_analytics_predic.Prelude.{
  when, any, true, unique, length, ◌&&◌, ◌++◌, ◌||◌, all, eqb, ltb, not, false, find, if◌then◌else◌,
  map, ◌==◌, ◌⧺◌, Bool, List, Option, String, ℕ, ◌∷◌, [], none, some,
}

-- `precision < baseline + gain`, whose sum is rounded as JavaScript does
abbrev pub below_baseline : Option ℕ → Candidate → Bool
below_baseline none c = false
below_baseline (some best) c =
    ltb (thousandths c.precision_at_budget)
      (sum_of (thousandths best) (thousandths min_precision_gain))

abbrev pub benchmark_failed : Option BenchmarkRow → Bool
benchmark_failed none = false
benchmark_failed (some row) = not row.passed

pub record Evaluated : Type 0 where
  pub candidate : Candidate
  pub open candidate use *
  pub leakage_report : LeakageReport
  pub red_team : RedTeam
  pub hard_negative_benchmark : Option BenchmarkRow
  pub gate_status : String
  pub enabled : Bool
  pub failures : List String
  pub model_card : ModelCard

pub record Panel : Type 0 where
  pub baseline_precision_at_budget : Option ℕ
  pub temporal_folds : List TemporalFold
  pub hard_negative_benchmark : List BenchmarkRow
  pub candidates : List Evaluated
  pub production_predictions_enabled : Bool

module _ (parse_time : String → Option ℕ) where
  -- The list `failures` before repetitions are taken out.
  unfoldable pub failures_of :
      Option ℕ → LeakageReport → RedTeam → Option BenchmarkRow → Candidate → List String
  failures_of baseline leakage red_team row c =
      when (not leakage.leakage_safe) "leakage gate failed"
      ++ map (λ v. v.reason) leakage.violations
      ++ when (below_baseline baseline c && not (is_baseline c))
          "does not beat deterministic baseline enough"
      ++ when (ltb max_calibration_error c.calibration_error) "calibration error too high"
      ++ when (ltb max_hard_negative_false_positive_rate c.hard_negative_false_positive_rate)
          "hard-negative false positives too high"
      ++ when (ltb max_latency_ms c.latency_ms) "latency budget exceeded"
      ++ when (ltb c.explanation_coverage min_explanation_coverage) "explanation coverage too low"
      ++ when (ltb c.robustness min_robustness) "robustness gate failed"
      ++ when (not (c.overreliance_gate == "passed")) "analyst overreliance gate not passed"
      ++ when (not red_team.passed) "red-team scenario gate failed"
      ++ when (benchmark_failed row) "hard-negative benchmark failed"

  unfoldable pub evaluate_candidate :
      Option ℕ → List BenchmarkRow → List Scenario → String → ℕ → Candidate → Evaluated
  unfolding failures_of thousandths sum_of
  evaluate_candidate baseline rows scenarios prediction_time fold_count c =
      let leakage = detect_temporal_leakage parse_time c.dependencies prediction_time in
      let red_team = evaluate_red_team_gates c scenarios in
      let row = find (λ r. r.candidate_id == c.id) rows in
      let failures = failures_of baseline leakage red_team row c in
      record {
        candidate = c;
        leakage_report = leakage;
        red_team = red_team;
        hard_negative_benchmark = row;
        gate_status = if eqb (length failures) 0 then "eligible" else "blocked";
        enabled = false;
        failures = unique failures;
        model_card =
            build_candidate_model_card parse_time c (some leakage) (some red_team) (record {
              training_window = none;
              fold_count = some fold_count;
              baseline_precision_at_budget = some baseline;
              prediction_time = some prediction_time;
            });
      }

  -- The panel, with the folds that were built.
  unfoldable pub panel_of : List Candidate → List Scenario → String → List TemporalFold → Panel
  unfolding evaluate_candidate
  panel_of candidates scenarios prediction_time folds =
      let baseline = baseline_precision candidates in
      let rows = simulate_hard_negative_benchmark candidates in
      let evaluated =
        map (evaluate_candidate baseline rows scenarios prediction_time (length folds))
          candidates in
      record {
        baseline_precision_at_budget = baseline;
        temporal_folds = folds;
        hard_negative_benchmark = rows;
        candidates = evaluated;
        production_predictions_enabled =
            all (λ e. e.gate_status == "eligible") evaluated
            && any (λ e. not (is_baseline e.candidate)) evaluated;
      }

abbrev pub default_options : FoldOptions
default_options = record { horizon_ms = none; step_ms = none; train_window_ms = none }

-- None if the fuel of the folds is used up.
unfoldable pub evaluate_predictive_model_candidates :
    FoldClock → List Candidate → List Scenario → String → List Event → Option Panel
unfolding panel_of build_temporal_folds
evaluate_predictive_model_candidates clock candidates scenarios prediction_time events =
    Option.map (panel_of clock.parse_time candidates scenarios prediction_time)
      (build_temporal_folds clock events default_options)

-- `failures.join("; ")`
abbrev pub joined : List String → String
joined [] = ""
joined (x ∷ []) = x
joined (x ∷ y ∷ rest) = x ⧺ "; " ⧺ joined (y ∷ rest)

pub record Enablement : Type 0 where
  pub enabled : Bool
  pub reason : String
  pub candidate : Option Evaluated

unfoldable pub enable_candidate : Panel → String → Enablement
enable_candidate panel candidate_id = elim (find (λ e. e.id == candidate_id) panel.candidates) [
  | none ↦ record { enabled = false; reason = "Unknown candidate."; candidate = none }
  | some e ↦
      if not panel.production_predictions_enabled || not (e.gate_status == "eligible")
      then record {
        enabled = false;
        reason = "Blocked: " ⧺ joined e.failures ⧺ ".";
        candidate = some e;
      }
      else record {
        enabled = true;
        reason = "Eligible for supervised pilot display only; still decision-support.";
        candidate = some e;
      }
]
