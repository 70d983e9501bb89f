-- ===== src/Gates/Examples.antt =====
-- The theorems on the gates at concrete candidates, dependencies and runs.
use network_analytics_predic.Gates.Replay.{
  build_temporal_folds-PastOnly, PastOnly, training_times-stuck,
}
use network_analytics_predic.Gates.Folds.{
  timed_events, sort_events, last_time, first_training, dated, build_temporal_folds, Event,
  FoldClock, FoldOptions, TemporalFold, training_times,
}
use network_analytics_predic.Gates.Leakage.{Dependency}
use network_analytics_predic.Gates.Safe.{enable_candidate-safe}
use network_analytics_predic.Gates.Eligible.{evaluate_candidate-eligible, MeetsGates}
use network_analytics_predic.Gates.Leakage.{
  detect_temporal_leakage-safe, DependencySafe, detect_temporal_leakage,
}
use network_analytics_predic.Gates.Claim.{
  HasSource, Silent, validate_benchmark_claim_gate-passed, text_of, matches, Run,
  validate_benchmark_claim_gate,
}
use network_analytics_predic.Gates.Candidate.{
  score_of, simulate_hard_negative_benchmark, baseline_precision, benchmark_row, red_team_scenarios,
  Candidate, evaluate_red_team_gates,
}
use network_analytics_predic.Gates.Panel.{
  Panel, panel_of, failures_of, evaluate_predictive_model_candidates, enable_candidate,
  evaluate_candidate,
}
use network_analytics_predic.Prelude.{
  ◌⊎◌, arith, show, ◌==◌, Bool, if◌then◌else◌, lower, includes, true, ℕ, ◌↔◌, Option, false, ◌≡◌,
  All, List, String, ◌∷◌, [], none, some, refl,
}

-- Two dates that parse.
abbrev parse_date : String → Option ℕ
parse_date value =
    if value == "2026-04-01" then some 100 else if value == "2026-04-04" then some 400 else none

abbrev early : Dependency
early = record {
  id = some "tx-004";
  event_time = some "2026-04-01";
  known_at = some "2026-04-04";
  label_known_at = none;
  scaler_fit_at = none;
  feature_window_end = none;
}

abbrev motifs : Candidate
motifs = record {
  id = "temporal-motifs";
  label = "Temporal motif baseline";
  family = "deterministic baseline";
  target = "relationship/event/subgraph/community review hypotheses";
  population = "authorized visible synthetic graph projection";
  horizon = "next review window";
  metrics = record {
    precision_at_budget = 690;
    calibration_error = 110;
    hard_negative_false_positive_rate = 190;
    random_negative_precision = 720;
    latency_ms = 11;
    explanation_coverage = 1000;
    robustness = 740;
    overreliance_gate = "passed";
    feature_families = "fan-in/fan-out motif" ∷ [];
    red_team_scores = ("smurfing", 580) ∷ ("circular-flows", 550) ∷ [];
  };
  dependencies = early ∷ [];
}

abbrev graph_model : Candidate
graph_model = record motifs {
  id = "graph-model";
  family = "classical ML";
  metrics = record motifs.metrics { precision_at_budget = 760 };
}

leakage_example :
    ((detect_temporal_leakage parse_date (early ∷ []) "2026-04-04").leakage_safe ≡ true) ↔ (
      (limit : ℕ) × (parse_date "2026-04-04" ≡ some limit)
      × All (DependencySafe parse_date limit) (early ∷ []))
leakage_example = detect_temporal_leakage-safe parse_date (early ∷ []) "2026-04-04"

eligible_example :
    ((evaluate_candidate parse_date
        (some 690)
        (benchmark_row motifs ∷ [])
        red_team_scenarios
        "2026-04-04"
        3
        motifs).gate_status
      ≡ "eligible")
    ↔ MeetsGates parse_date
        (some 690)
        (benchmark_row motifs ∷ [])
        red_team_scenarios
        "2026-04-04"
        motifs
eligible_example =
    evaluate_candidate-eligible parse_date (some 690) (benchmark_row motifs ∷ []) red_team_scenarios
      "2026-04-04" 3 motifs

abbrev candidates : List Candidate
candidates = motifs ∷ graph_model ∷ []

abbrev scorer_run : Run
scorer_run = record {
  algorithm = some "transaction-anomaly-scorer";
  model_family = none;
  summary = none;
  claim = none;
  limitations = "Scores are uncalibrated review-priority indicators for training." ∷ [];
  benchmark_derived = some false;
  source_note = none;
  calibrated = some false;
  production_predictions_enabled = some false;
}

claim_gate_example : ((validate_benchmark_claim_gate scorer_run).passed ≡ true) ↔ (
    HasSource scorer_run
    × Path (Option Bool) (some false) (some false)
    × Path (Option Bool) (some false) (some false)
    × Silent (lower (text_of scorer_run)))
claim_gate_example = validate_benchmark_claim_gate-passed scorer_run

-- The disclaimer of the anomaly scorer is taken for a claim.
scorer_run-blocked : (validate_benchmark_claim_gate scorer_run).passed ≡ false
unfolding validate_benchmark_claim_gate matches includes lower
scorer_run-blocked = refl

abbrev fold_clock : FoldClock
fold_clock = record { parse_time = parse_date; iso = λ t. show t; id_before = λ a b. a == "e1" }

abbrev events : List Event
events =
    record { id = "e1"; at = some "2026-04-01"; event_time = none; known_at = none }
    ∷ record { id = "e2"; at = none; event_time = some "2026-04-04"; known_at = none }
    ∷ record { id = "e3"; at = none; event_time = none; known_at = none }
    ∷ []

enable_candidate_example :
    (panel : Panel) × (evaluate_predictive_model_candidates fold_clock candidates red_team_scenarios
        "2026-04-04" events
      ≡ some panel)
    × (((enable_candidate panel "graph-model").enabled ≡ false)
        ⊎ All
            (MeetsGates parse_date
              (baseline_precision candidates)
              (simulate_hard_negative_benchmark candidates)
              red_team_scenarios
              "2026-04-04")
            candidates)
enable_candidate_example =
    enable_candidate-safe fold_clock candidates red_team_scenarios "2026-04-04" events "graph-model"

-- Both candidates meet the gates, and the second one is enabled.
panel_test :
    let panel = panel_of parse_date candidates red_team_scenarios "2026-04-04" [] in
    ((enable_candidate panel "graph-model").enabled ≡ true)
    × ((enable_candidate panel "cawn").reason ≡ "Unknown candidate.")
unfolding enable_candidate panel_of evaluate_candidate detect_temporal_leakage
    evaluate_red_team_gates score_of baseline_precision simulate_hard_negative_benchmark failures_of
panel_test = (refl, refl)

abbrev fold_options : FoldOptions
fold_options = record { horizon_ms = some 100; step_ms = none; train_window_ms = some 100 }

folds_example :
    (folds : List TemporalFold) × (build_temporal_folds fold_clock events fold_options ≡ some folds)
    × All
        (PastOnly fold_clock 100
          (dated fold_clock events)
          (first_training 100 (dated fold_clock events))
          (last_time (dated fold_clock events)))
        folds
unfolding mathlib.Core.Option.bind
folds_example =
    build_temporal_folds-PastOnly fold_clock events fold_options (omega arith)
      (unfold sort_events timed_events in omega arith)

stuck_example : training_times 500 100 400 0 ≡ none
stuck_example = training_times-stuck 500 100 400 (omega arith)
