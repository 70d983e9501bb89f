-- ===== src/Gates/Eligible.antt =====
-- packages/predictive/model-gates.mjs: when a candidate's gate status is "eligible".
use network_analytics_predic.Gates.Double.{thousandths, sum_of}
use network_analytics_predic.Gates.Leakage.{detect_temporal_leakage, LeakageReport}
use network_analytics_predic.Gates.Panel.{
  evaluate_candidate, failures_of, below_baseline, benchmark_failed,
}
use network_analytics_predic.Gates.Candidate.{
  min_robustness, min_explanation_coverage, max_latency_ms, max_hard_negative_false_positive_rate,
  max_calibration_error, is_baseline, score_of, BenchmarkRow, RedTeam, Scenario, Candidate,
  evaluate_red_team_gates,
}
use network_analytics_predic.Prelude.{
  ltb→le, none, some, ◌⊎◌, count_of, length-when, ap, find, length-map, length-append, ◌==◌,
  if◌then◌else◌, ltb, ◌+◌, inr, leb→le, inl, eq_iff, leb, not, Bool-cases, arith, false, ◌&&◌, ◌↔◌,
  ◌≤◌, eqb, true, All, ℕ, ◌≡◌, Option, length, Bool, List, String, ◌∷◌, [], refl,
}

-- Every scenario ranks the candidate at most as high as it may.
pub RedTeamSafe : Candidate → List Scenario → Type 0
RedTeamSafe c scenarios = All (λ s. score_of c.red_team_scores s.id ≤ s.expected_max_rank) scenarios

-- The red-team gate is passed exactly when no scenario's rank exceeds its maximum.
pub evaluate_red_team_gates-passed :
    (c : Candidate) (scenarios : List Scenario)
    → ((evaluate_red_team_gates c scenarios).passed ≡ true) ↔ RedTeamSafe c scenarios
unfolding evaluate_red_team_gates RedTeamSafe
evaluate_red_team_gates-passed c [] = (λ h. tt, λ h. refl)
evaluate_red_team_gates-passed c (s ∷ scenarios) =
    let rest = evaluate_red_team_gates-passed c scenarios in
    elim (Bool-cases (leb (score_of c.red_team_scores s.id) s.expected_max_rank)) [
      | inl e ↦ rw e (λ h. (leb→le _ _ e, rest.0 h), λ h. rest.1 h.1)
      | inr e ↦ rw e (λ h. absurd (ground arith), λ h. absurd (ground (arith, h.0)))
    ]

-- The precision reaches that of the best baseline, if there is one, and 0.05 more, by the sum of floating-point numbers.
abbrev pub Beats : Option ℕ → ℕ → Type 0
Beats none precision = Unit
Beats (some best) precision = sum_of (thousandths best) (thousandths 50) ≤ thousandths precision

abbrev pub Confirmed : Option BenchmarkRow → Type 0
Confirmed none = Unit
Confirmed (some row) = row.passed ≡ true

-- What a candidate has to meet.
pub record Passes (leakage : LeakageReport) (red_team : RedTeam) (row : Option BenchmarkRow)
    (baseline : Option ℕ) (c : Candidate) : Type 0 where
  pub no_leakage : leakage.leakage_safe ≡ true
  pub better : (c.family ≡ "deterministic baseline") ⊎ Beats baseline c.precision_at_budget
  pub calibrated : c.calibration_error ≤ 120
  pub hard_negatives : c.hard_negative_false_positive_rate ≤ 200
  pub fast : c.latency_ms ≤ 150
  pub explained : 850 ≤ c.explanation_coverage
  pub robust : 650 ≤ c.robustness
  pub studied : c.overreliance_gate ≡ "passed"
  pub red_team_passed : red_team.passed ≡ true
  pub benchmark : Confirmed row

below_baseline-Beats :
    (baseline : Option ℕ) (c : Candidate)
    → (below_baseline baseline c ≡ false) ↔ Beats baseline c.precision_at_budget
below_baseline-Beats none c = (λ h. tt, λ h. refl)
below_baseline-Beats (some best) c = (λ h. ltb→le _ _ h, λ h. ground (arith, h))

better-is :
    (baseline : Option ℕ) (c : Candidate)
    → ((below_baseline baseline c && not (is_baseline c)) ≡ false)
      ↔ ((c.family ≡ "deterministic baseline") ⊎ Beats baseline c.precision_at_budget)
better-is baseline c = elim (Bool-cases (is_baseline c)) [
  | inl e ↦ (λ h. inl ((eq_iff c.family "deterministic baseline").0 e), λ h. ground (arith, e))
  | inr e ↦
      let beats = below_baseline-Beats baseline c in
      (
        λ h. inr (beats.0 (ground (arith, h, e))),
        λ h. elim h [
          | inl same ↦ absurd (cc ((eq_iff c.family "deterministic baseline").1 same, e))
          | inr more ↦ let reached = beats.1 more in ground (arith, reached)
        ],
      )
]

benchmark_failed-Confirmed :
    (row : Option BenchmarkRow) → (benchmark_failed row ≡ false) ↔ Confirmed row
benchmark_failed-Confirmed none = (λ h. tt, λ h. refl)
benchmark_failed-Confirmed (some row) = (λ h. ground (arith, h), λ h. ground (arith, h))

module _ (parse_time : String → Option ℕ) (baseline : Option ℕ) (leakage : LeakageReport)
    (red_team : RedTeam) (row : Option BenchmarkRow) (c : Candidate)
    (consistent : leakage.leakage_safe ≡ eqb (length leakage.violations) 0) where
  abbrev checks : List Bool
  checks =
      not leakage.leakage_safe
      ∷ (below_baseline baseline c && not (is_baseline c))
      ∷ ltb max_calibration_error c.calibration_error
      ∷ ltb max_hard_negative_false_positive_rate c.hard_negative_false_positive_rate
      ∷ ltb max_latency_ms c.latency_ms
      ∷ ltb c.explanation_coverage min_explanation_coverage
      ∷ ltb c.robustness min_robustness
      ∷ not (c.overreliance_gate == "passed")
      ∷ not red_team.passed
      ∷ benchmark_failed row
      ∷ []

  abbrev total : List Bool → ℕ
  total [] = 0
  total (b ∷ bs) = count_of b + total bs

  length-failures_of :
      length (failures_of parse_time baseline leakage red_team row c)
      ≡ total checks + length leakage.violations
  unfolding failures_of
  length-failures_of = simp (length-append, length-map, length-when) (omega arith)

  all_false : (bs : List Bool) → total bs ≡ 0 → All (λ b. b ≡ false) bs
  all_false [] h = tt
  all_false (true ∷ bs) h = absurd (omega arith)
  all_false (false ∷ bs) h = (refl, all_false bs (omega arith))

  none_counted : (bs : List Bool) → All (λ b. b ≡ false) bs → total bs ≡ 0
  none_counted [] h = refl
  none_counted (true ∷ bs) h = cc h.0
  none_counted (false ∷ bs) h = omega (arith, none_counted bs h.1)

  failures_of-none :
      (length (failures_of parse_time baseline leakage red_team row c) ≡ 0)
      ↔ Passes leakage red_team row baseline c
  failures_of-none = (
    λ h.
        let (no_leak, (b, (cal, (hard, (lat, (expl, (rob, (over, (red, (bench, _)))))))))) =
          all_false checks (omega (arith, h, length-failures_of)) in
        record {
          no_leakage = ground (arith, no_leak);
          better = (better-is baseline c).0 b;
          calibrated = ground (arith, cal);
          hard_negatives = ground (arith, hard);
          fast = ground (arith, lat);
          explained = ground (arith, expl);
          robust = ground (arith, rob);
          studied = ground (arith, over, eq_iff c.overreliance_gate "passed");
          red_team_passed = ground (arith, red);
          benchmark = (benchmark_failed-Confirmed row).0 bench;
        },
    λ p.
        let clear : All (λ b. b ≡ false) checks = (
          ground (arith, p.no_leakage),
          (
            (better-is baseline c).1 p.better,
            (
              ground (arith, p.calibrated),
              (
                ground (arith, p.hard_negatives),
                (
                  ground (arith, p.fast),
                  (
                    ground (arith, p.explained),
                    (
                      ground (arith, p.robust),
                      (
                        ground (arith, p.studied, eq_iff c.overreliance_gate "passed"),
                        (
                          ground (arith, p.red_team_passed),
                          ((benchmark_failed-Confirmed row).1 p.benchmark, tt),
                        ),
                      ),
                    ),
                  ),
                ),
              ),
            ),
          ),
        ) in
        let no_violations : length leakage.violations ≡ 0 =
          ground (arith, p.no_leakage, consistent) in
        omega (arith, length-failures_of, none_counted checks clear, no_violations),
  )

module _ (parse_time : String → Option ℕ) (baseline : Option ℕ) (rows : List BenchmarkRow)
    (scenarios : List Scenario) (prediction_time : String) where
  -- The gates as `evaluatePredictiveModelCandidates` applies them to a candidate.
  abbrev pub MeetsGates : Candidate → Type 0
  MeetsGates c =
      Passes (detect_temporal_leakage parse_time c.dependencies prediction_time)
        (evaluate_red_team_gates c scenarios) (find (λ r. r.candidate_id == c.id) rows) baseline c

  -- A candidate's gate status is "eligible" exactly when it meets every gate: no leakage; a precision of that of the best
  -- baseline and 0.05 more, summed as floating-point numbers, unless it is a baseline or there is none; a calibration
  -- error of at most 0.12, hard-negative false positives of at most 0.2, a latency of at most 150 ms, an explanation
  -- coverage of at least 0.85 and a robustness of at least 0.65; a passed study of overreliance; no red-team score above
  -- its limit; and a hard-negative benchmark that is passed if there is one.
  pub evaluate_candidate-eligible :
      (fold_count : ℕ) (c : Candidate)
      → ((evaluate_candidate parse_time baseline rows scenarios prediction_time fold_count
            c).gate_status
          ≡ "eligible")
        ↔ MeetsGates c
  unfolding evaluate_candidate
  evaluate_candidate-eligible fold_count c =
      let leakage = detect_temporal_leakage parse_time c.dependencies prediction_time in
      let red_team = evaluate_red_team_gates c scenarios in
      let row = find (λ r. r.candidate_id == c.id) rows in
      let n = length (failures_of parse_time baseline leakage red_team row c) in
      let none_left =
        failures_of-none parse_time baseline leakage red_team row c
          (unfold detect_temporal_leakage in refl) in
      let status = status-eligible n in
      (λ h. none_left.0 (status.0 h), λ p. status.1 (none_left.1 p))
    where
      status-eligible :
          (n : ℕ) → Path String (if eqb n 0 then "eligible" else "blocked") "eligible" ↔ (n ≡ 0)
      status-eligible n = elim (Bool-cases (eqb n 0)) [
        | inl e ↦ rw e (λ _. ground arith, λ _. refl)
        | inr e ↦ rw e (λ same. cc (ap (λ s. s == "eligible") same), λ h. absurd (ground arith))
      ]
