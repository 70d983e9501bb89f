-- ===== src/Gates/Candidate.antt =====
-- packages/predictive/model-gates.mjs: the candidates, `evaluateRedTeamGates`, `simulateHardNegativeBenchmark` and
-- `baselinePrecision`.
use network_analytics_predic.Gates.Leakage.{Dependency}
use network_analytics_predic.Prelude.{
  length, eqb, not, filter, if◌then◌else◌, map, max, ℤ, ◌==◌, Bool, List, Option, String, leb,
  sub_ℕ, ℕ, ◌∷◌, [], none, some,
}

pub record Metrics : Type 0 where
  pub precision_at_budget : ℕ
  pub calibration_error : ℕ
  pub hard_negative_false_positive_rate : ℕ
  pub random_negative_precision : ℕ
  pub latency_ms : ℕ
  pub explanation_coverage : ℕ
  pub robustness : ℕ
  pub overreliance_gate : String
  pub feature_families : List String
  pub red_team_scores : List (String × ℕ)

pub record Candidate : Type 0 where
  pub id : String
  pub label : String
  pub family : String
  pub target : String
  pub population : String
  pub horizon : String
  pub metrics : Metrics
  pub open metrics use *
  pub dependencies : List Dependency

pub record Scenario : Type 0 where
  pub id : String
  pub label : String
  pub expected_max_rank : ℕ

-- `RED_TEAM_SCENARIOS`
abbrev pub red_team_scenarios : List Scenario
red_team_scenarios =
    record {
      id = "legitimate-high-degree";
      label = "Legitimate high-degree actors";
      expected_max_rank = 550;
    }
    ∷ record { id = "delayed-reports"; label = "Delayed reports"; expected_max_rank = 600 }
    ∷ record { id = "duplicated-entities"; label = "Duplicated entities"; expected_max_rank = 580 }
    ∷ record { id = "missing-data"; label = "Missing data"; expected_max_rank = 620 }
    ∷ record { id = "smurfing"; label = "Smurfing / split transfers"; expected_max_rank = 650 }
    ∷ record { id = "circular-flows"; label = "Circular flows"; expected_max_rank = 600 }
    ∷ record {
      id = "shared-infrastructure";
      label = "Shared infrastructure";
      expected_max_rank = 550;
    }
    ∷ []

-- `Number(scores[id] ?? 0)`
unfoldable pub score_of : List (String × ℕ) → String → ℕ
score_of [] id = 0
score_of ((key, score) ∷ scores) id =
    let rest = score_of scores id in if key == id then score else rest

pub record ScenarioResult : Type 0 where
  pub scenario : Scenario
  pub observed_rank : ℕ
  pub passed : Bool

abbrev pub scenario_result : Candidate → Scenario → ScenarioResult
scenario_result c s = record {
  scenario = s;
  observed_rank = score_of c.red_team_scores s.id;
  passed = leb (score_of c.red_team_scores s.id) s.expected_max_rank;
}

pub record RedTeam : Type 0 where
  pub passed : Bool
  pub failures : List ScenarioResult
  pub scenarios : List (String × ℕ)

unfoldable pub evaluate_red_team_gates : Candidate → List Scenario → RedTeam
evaluate_red_team_gates c scenarios =
    let failures = filter (λ r. not r.passed) (map (scenario_result c) scenarios) in
    record {
      passed = eqb (length failures) 0;
      failures = failures;
      scenarios = map (λ s. (s.id, score_of c.red_team_scores s.id)) scenarios;
    }

pub record BenchmarkRow : Type 0 where
  pub candidate_id : String
  pub random_negative_precision : ℕ
  pub hard_negative_false_positive_rate : ℕ
  pub gap : ℤ
  pub passed : Bool

-- `GATES`, in thousandths; the latency is in milliseconds.
abbrev pub min_precision_gain : ℕ
min_precision_gain = 50

abbrev pub max_calibration_error : ℕ
max_calibration_error = 120

abbrev pub max_hard_negative_false_positive_rate : ℕ
max_hard_negative_false_positive_rate = 200

abbrev pub max_latency_ms : ℕ
max_latency_ms = 150

abbrev pub min_explanation_coverage : ℕ
min_explanation_coverage = 850

abbrev pub min_robustness : ℕ
min_robustness = 650

abbrev pub benchmark_row : Candidate → BenchmarkRow
benchmark_row c = record {
  candidate_id = c.id;
  random_negative_precision = c.random_negative_precision;
  hard_negative_false_positive_rate = c.hard_negative_false_positive_rate;
  gap = sub_ℕ c.random_negative_precision c.precision_at_budget;
  passed = leb c.hard_negative_false_positive_rate max_hard_negative_false_positive_rate;
}

unfoldable pub simulate_hard_negative_benchmark : List Candidate → List BenchmarkRow
simulate_hard_negative_benchmark = map benchmark_row

abbrev pub is_baseline : Candidate → Bool
is_baseline c = c.family == "deterministic baseline"

-- `Math.max(...precisions)`: with no baseline it is minus infinity, here none.
unfoldable pub max_precision : List Candidate → Option ℕ
max_precision [] = none
max_precision (c ∷ cs) = elim (max_precision cs) [
  | none ↦ some c.precision_at_budget
  | some best ↦ some (max c.precision_at_budget best)
]

unfoldable pub baseline_precision : List Candidate → Option ℕ
unfolding max_precision
baseline_precision candidates = max_precision (filter is_baseline candidates)
