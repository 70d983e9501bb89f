-- ===== src/Gates/Safe.antt =====
-- packages/predictive/model-gates.mjs: what `enableCandidate` needs.
use network_analytics_predic.Gates.Defaults.{default_candidates}
use network_analytics_predic.Gates.Eligible.{evaluate_candidate-eligible, MeetsGates}
use network_analytics_predic.Gates.Candidate.{
  Candidate, Scenario, baseline_precision, simulate_hard_negative_benchmark,
}
use network_analytics_predic.Gates.Folds.{Event, FoldClock, TemporalFold}
use network_analytics_predic.Gates.Panel.{
  Panel, default_options, enable_candidate, evaluate_candidate,
  evaluate_predictive_model_candidates, panel_of,
}
use network_analytics_predic.Gates.Replay.{build_temporal_folds-total}
use network_analytics_predic.Prelude.{
  refl, ◌⊎◌, false, length, some, All_of_map, eq_iff, Bool-cases, inr, inl, ◌==◌, find,
  Option-cases, arith, true, ℕ, Option, map, ◌≡◌, All, String, all, Bool, List, ◌∷◌, [],
}

all-All {ℓ} : {A : Type ℓ} (p : A → Bool) (xs : List A) → all p xs ≡ true → All (λ x. p x ≡ true) xs
all-All p [] h = tt
all-All p (x ∷ xs) h = (ground arith, all-All p xs (ground arith))

-- The branches of `enableCandidate`.
enable_candidate-on :
    (panel : Panel) (id : String)
    → (enable_candidate panel id).enabled ≡ true
    → panel.production_predictions_enabled ≡ true
unfolding enable_candidate
enable_candidate-on panel id h = elim (Option-cases (find (λ e. e.id == id) panel.candidates)) [
  | inl e ↦ cc (rw (e, enable_candidate) at h)
  | inr (found, e) ↦ elim (Bool-cases panel.production_predictions_enabled) [
    | inl on ↦ on
    | inr off ↦ cc (rw (e, enable_candidate, off) at h)
  ]
]

panel_of-safe :
    (parse_time : String → Option ℕ) (candidates : List Candidate) (scenarios : List Scenario)
    (prediction_time : String) (folds : List TemporalFold)
    → (panel_of parse_time candidates scenarios prediction_time
        folds).production_predictions_enabled
      ≡ true
    → All
        (MeetsGates parse_time
          (baseline_precision candidates)
          (simulate_hard_negative_benchmark candidates)
          scenarios
          prediction_time)
        candidates
unfolding panel_of
panel_of-safe parse_time candidates scenarios prediction_time folds on =
    let baseline = baseline_precision candidates in
    let rows = simulate_hard_negative_benchmark candidates in
    let evaluate =
      evaluate_candidate parse_time baseline rows scenarios prediction_time (length folds) in
    let eligible =
      all-All (λ e. e.gate_status == "eligible") (map evaluate candidates) (ground (arith, on)) in
    All_of_map (λ e. (e.gate_status == "eligible") ≡ true)
      (MeetsGates parse_time baseline rows scenarios prediction_time) evaluate candidates
      (λ c same.
        (evaluate_candidate-eligible parse_time baseline rows scenarios prediction_time
            (length folds) c).0
          ((eq_iff (evaluate c).gate_status "eligible").0 same))
      eligible

-- Whatever the candidates, the events and the scenarios, the evaluation gives a panel, and a candidate is not enabled on
-- it unless every candidate of the panel meets every gate.
pub enable_candidate-safe :
    (clock : FoldClock) (candidates : List Candidate) (scenarios : List Scenario)
    (prediction_time : String) (events : List Event) (id : String)
    → (panel : Panel) × (evaluate_predictive_model_candidates clock candidates scenarios
          prediction_time events
        ≡ some panel)
      × (((enable_candidate panel id).enabled ≡ false)
          ⊎ All
              (MeetsGates clock.parse_time
                (baseline_precision candidates)
                (simulate_hard_negative_benchmark candidates)
                scenarios
                prediction_time)
              candidates)
unfolding evaluate_predictive_model_candidates
enable_candidate-safe clock candidates scenarios prediction_time events id =
    let (folds, built) = build_temporal_folds-total clock events default_options (omega arith) in
    let panel = panel_of clock.parse_time candidates scenarios prediction_time folds in
    (
      panel,
      rw built refl,
      elim (Bool-cases (enable_candidate panel id).enabled) [
        | inl on ↦ inr (
            panel_of-safe clock.parse_time candidates scenarios prediction_time folds
              (enable_candidate-on panel id on))
        | inr off ↦ inl off
      ],
    )

-- Whatever the scenarios, the events and the prediction time, no default candidate is enabled: none of the default
-- baselines has passed a study of overreliance.
default_candidates-blocked :
    (clock : FoldClock) (scenarios : List Scenario) (prediction_time : String) (events : List Event)
    (id : String)
    → (panel : Panel) × (evaluate_predictive_model_candidates clock default_candidates scenarios
          prediction_time events
        ≡ some panel)
      × ((enable_candidate panel id).enabled ≡ false)
default_candidates-blocked clock scenarios prediction_time events id =
    let (panel, built, safe) =
      enable_candidate-safe clock default_candidates scenarios prediction_time events id in
    (
      panel,
      built,
      elim safe [
        | inl off ↦ off
        | inr all ↦ absurd (cc ((eq_iff "needs-human-study" "passed").1 all.0.studied))
      ],
    )
