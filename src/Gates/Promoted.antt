-- ===== src/Gates/Promoted.antt =====
-- When a trained model is eligible for a pilot.
use network_analytics_predic.Gates.Card.{default_prediction_time}
use network_analytics_predic.Gates.Calibrated.{compute_calibration_curve-passed, is_scored}
use network_analytics_predic.Gates.Calibration.{Curve, Numbers, compute_calibration_curve}
use network_analytics_predic.Gates.Candidate.{red_team_scenarios}
use network_analytics_predic.Gates.Eligible.{RedTeamSafe, evaluate_red_team_gates-passed}
use network_analytics_predic.Gates.Leakage.{DependencySafe, detect_temporal_leakage-safe}
use network_analytics_predic.Gates.Production.{
  is_falsy, ModelProviderConfig, validate_model_provider_config,
}
use network_analytics_predic.Gates.Promotion.{
  is_undefined, Manifest, evaluate_production_promotion, validate_trained_model_artifact,
  missing_checks, promotion_checks, study_passed, is_prohibited, empty_config, scored_candidate,
}
use network_analytics_predic.Prelude.{
  inr, inl, ◌==◌, Bool-cases, ◌≢◌, ltb, if◌then◌else◌, messages-none_of, none, eq_iff, eqb_iff,
  refl, ap, arith, filter, messages-none, ◌<◌, ◌↔◌, false, messages, true, All, length, ◌≡◌, eqb,
  some, ℕ, String, get_or, Bool, List, Option, [], ◌∷◌,
}

-- No check leaves a message exactly when each of its conditions fails.
messages-passed :
    (checks : List (Bool × String))
    → (eqb (length (messages checks)) 0 ≡ true) ↔ All (λ c. c.0 ≡ false) checks
messages-passed checks = (
  λ h. messages-none checks ((eqb_iff (length (messages checks)) 0).0 h),
  λ h. (eqb_iff (length (messages checks)) 0).1 (messages-none_of checks h),
)

abbrev pub curve_of : {V N : Type 0} → Numbers V N → Manifest V → Curve N
curve_of num m =
    compute_calibration_curve num (get_or m.predictions []) (some (get_or m.calibration_bins 10))

abbrev decision_of : List String → String
decision_of failures =
    if ltb 0 (length failures)
    then "blocked-production-display"
    else "eligible-for-supervised-pilot-only"

decision-eligible :
    (failures : List String)
    → decision_of failures ≡ (
        if eqb (length failures) 0
        then "eligible-for-supervised-pilot-only"
        else "blocked-production-display")
decision-eligible [] = refl
decision-eligible (failure ∷ failures) =
    let more : ltb 0 (length (failure ∷ failures)) ≡ true = ground arith in
    let some_left : eqb (length (failure ∷ failures)) 0 ≡ false = ground arith in
    rw (more, some_left) refl

-- An option that holds something, and a text that is there and not empty.
abbrev pub Given : {A : Type 0} → Option A → Type 0
Given {A} o = (a : A) × (o ≡ some a)

abbrev pub Named : Option String → Type 0
Named o = (text : String) × (o ≡ some text) × (text ≢ "")

Given-is : {A : Type 0} (o : Option A) → (is_undefined o ≡ false) ↔ Given o
Given-is none = (λ h. cc h, λ h. cc h.1)
Given-is (some a) = (λ h. (a, refl), λ h. refl)

Named-is : (o : Option String) → (is_falsy o ≡ false) ↔ Named o
Named-is none = (λ h. cc h, λ h. cc h.1)
Named-is (some text) = (
  λ h. (text, refl, λ e. absurd (cc (h, (eq_iff text "").1 e))),
  λ h. elim (Bool-cases (text == "")) [
    | inl e ↦ absurd (h.2 (cc (h.1, (eq_iff text "").0 e)))
    | inr e ↦ e
  ],
)

-- The eight parts of a manifest that are required.
pub record Complete {V : Type 0} (m : Manifest V) : Type 0 where
  pub candidate_id : Named m.candidate_id
  pub artifact_hash : Named m.artifact_hash
  pub training_data_hash : Named m.training_data_hash
  pub fold_metrics : m.has_fold_metrics ≡ true
  pub predictions : Given m.predictions
  pub dependencies : Given m.dependencies
  pub red_team_scores : Given m.red_team_scores
  pub overreliance_study : Given m.overreliance_study

missing_checks-Complete :
    {V : Type 0} (m : Manifest V) → All (λ c. c.0 ≡ false) (missing_checks m) ↔ Complete m
missing_checks-Complete m = (
  λ h.
      let metrics = h.1.1.1 in
      let parts = metrics.1 in
      record {
        candidate_id = (Named-is m.candidate_id).0 h.0;
        artifact_hash = (Named-is m.artifact_hash).0 h.1.0;
        training_data_hash = (Named-is m.training_data_hash).0 h.1.1.0;
        fold_metrics = ground (arith, metrics.0);
        predictions = (Given-is m.predictions).0 parts.0;
        dependencies = (Given-is m.dependencies).0 parts.1.0;
        red_team_scores = (Given-is m.red_team_scores).0 parts.1.1.0;
        overreliance_study = (Given-is m.overreliance_study).0 parts.1.1.1.0;
      },
  λ h. (
    (Named-is m.candidate_id).1 h.candidate_id,
    (
      (Named-is m.artifact_hash).1 h.artifact_hash,
      (
        (Named-is m.training_data_hash).1 h.training_data_hash,
        (
          rw h.fold_metrics refl,
          (
            (Given-is m.predictions).1 h.predictions,
            (
              (Given-is m.dependencies).1 h.dependencies,
              (
                (Given-is m.red_team_scores).1 h.red_team_scores,
                ((Given-is m.overreliance_study).1 h.overreliance_study, tt),
              ),
            ),
          ),
        ),
      ),
    ),
  ),
)

module _ {V N : Type 0} (num : Numbers V N) (parse_time : String → Option ℕ) where
  -- What a manifest and a provider's config have to meet.
  pub record Promotable (m : Manifest V) (config : Option ModelProviderConfig) : Type 0 where
    pub complete : Complete m
    pub no_leakage :
        (limit : ℕ) × (parse_time (get_or m.prediction_time default_prediction_time) ≡ some limit)
        × All (DependencySafe parse_time limit) (get_or m.dependencies [])
    pub scored : 0 < length (filter (is_scored num) (get_or m.predictions []))
    pub calibrated : (curve_of num m).passed ≡ true
    pub red_team :
        RedTeamSafe
          (scored_candidate (get_or m.candidate_id "") (get_or m.red_team_scores []))
          red_team_scenarios
    pub provider : (validate_model_provider_config (get_or config empty_config)).passed ≡ true
    pub studied : m.overreliance_study ≡ some (some "passed")
    pub allowed : is_prohibited m.target ≡ false

  study_passed-is :
      (study : Option (Option String))
      → (study_passed study ≡ true) ↔ (study ≡ some (some "passed"))
  study_passed-is none = (λ h. cc h, λ h. cc h)
  study_passed-is (some none) = (λ h. cc h, λ h. cc h)
  study_passed-is (some (some status)) = (
    λ h. ap (λ s. some (some s)) ((eq_iff status "passed").0 h),
    λ h. (eq_iff status "passed").1 (cc h),
  )

  -- Whatever the arithmetic, production predictions stay off, and a manifest is eligible for a pilot exactly when none
  -- of the eight required parts is missing, the prediction time is a date and no dependency has a later one, there is
  -- a prediction with a finite score and label and the calibration curve passes, no red-team score exceeds its limit,
  -- the provider's config passes, the overreliance study has passed, and the target is not person-level guilt. The
  -- decision says whether it is eligible.
  pub evaluate_production_promotion-eligible :
      (json : Manifest V → String) (hex : ℕ → String) (m : Manifest V)
      (config : Option ModelProviderConfig)
      → let promotion = evaluate_production_promotion num parse_time json hex m config in
        (promotion.production_predictions_enabled ≡ false)
        × ((promotion.eligible_for_pilot ≡ true) ↔ Promotable m config)
        × (promotion.decision ≡ (
            if promotion.eligible_for_pilot
            then "eligible-for-supervised-pilot-only"
            else "blocked-production-display"))
  unfolding evaluate_production_promotion validate_trained_model_artifact
  evaluate_production_promotion-eligible json hex m config =
      let checked = messages-passed (promotion_checks num parse_time m config) in
      let complete = messages-passed (missing_checks m) in
      let parts = missing_checks-Complete m in
      let leakage =
        detect_temporal_leakage-safe parse_time (get_or m.dependencies [])
          (get_or m.prediction_time default_prediction_time) in
      let curve =
        compute_calibration_curve-passed num (get_or m.predictions [])
          (some (get_or m.calibration_bins 10)) in
      let team =
        evaluate_red_team_gates-passed
          (scored_candidate (get_or m.candidate_id "") (get_or m.red_team_scores []))
          red_team_scenarios in
      let study = study_passed-is m.overreliance_study in
      (
        refl,
        (
          λ h.
              let all = checked.0 h in
              record {
                complete = parts.0 (complete.0 (ground (arith, all.0)));
                no_leakage = leakage.0 (ground (arith, all.0));
                scored = (curve.1.0 (ground (arith, all.0))).0;
                calibrated = ground (arith, all.0);
                red_team = team.0 (ground (arith, all.0));
                provider = ground (arith, all.1.0);
                studied = study.0 (ground (arith, all.1.1.0));
                allowed = all.1.1.1.0;
              },
          λ h. checked.1 (
            rw
                (
                  complete.1 (parts.1 h.complete),
                  leakage.1 h.no_leakage,
                  h.calibrated,
                  team.1 h.red_team,
                )
                refl,
            (rw h.provider refl, (rw (study.1 h.studied) refl, (h.allowed, tt))),
          ),
        ),
        decision-eligible (messages (promotion_checks num parse_time m config)),
      )
