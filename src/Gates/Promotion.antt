-- ===== src/Gates/Promotion.antt =====
-- packages/predictive/production-readiness.mjs: `validateTrainedModelArtifact` and `evaluateProductionPromotion`. A
-- field that may be missing is an option; of the fold metrics the code only asks whether they are there. `Date.parse`,
-- what `JSON.stringify` writes of a manifest and the hexadecimal text of a number are parameters, as is the arithmetic.
use network_analytics_predic.Gates.Card.{default_prediction_time}
use network_analytics_predic.Gates.Calibration.{
  Curve, Numbers, Prediction, compute_calibration_curve,
}
use network_analytics_predic.Gates.Candidate.{
  Candidate, RedTeam, evaluate_red_team_gates, red_team_scenarios,
}
use network_analytics_predic.Gates.Leakage.{Dependency, LeakageReport, detect_temporal_leakage}
use network_analytics_predic.Gates.Production.{
  ConfigValidation, ModelProviderConfig, is_falsy, validate_model_provider_config,
}
use network_analytics_predic.Assistant.Audit.{hash_of}
use network_analytics_predic.Prelude.{
  ltb, if◌then◌else◌, ◌&&◌, ◌⧺◌, length, eqb, get_or, messages, ◌==◌, false, not, some, ℕ, String,
  includes, none, true, Bool, List, Option, [], ◌∷◌,
}

pub record Manifest (V : Type 0) : Type 0 where
  pub candidate_id : Option String
  pub artifact_hash : Option String
  pub training_data_hash : Option String
  pub has_fold_metrics : Bool
  pub predictions : Option (List (Prediction V))
  pub dependencies : Option (List Dependency)
  pub red_team_scores : Option (List (String × ℕ))
  pub overreliance_study : Option (Option String)  -- its status
  pub prediction_time : Option String
  pub calibration_bins : Option ℕ
  pub target : Option String

pub record ArtifactValidation (N : Type 0) : Type 0 where
  pub artifact_id : String
  pub missing : List String
  pub leakage : LeakageReport
  pub calibration : Curve N
  pub red_team : RedTeam
  pub artifact_hash : Option String
  pub training_data_hash : Option String
  pub passed : Bool

pub record Promotion (N : Type 0) : Type 0 where
  pub production_predictions_enabled : Bool
  pub eligible_for_pilot : Bool
  pub failures : List String
  pub artifact : ArtifactValidation N
  pub provider : ConfigValidation
  pub manifest_hash : String
  pub decision : String

abbrev pub is_undefined : {A : Type 0} → Option A → Bool
is_undefined none = true
is_undefined (some a) = false

-- The candidate that only has an id and scores: no other field of it is read.
abbrev pub scored_candidate : String → List (String × ℕ) → Candidate
scored_candidate id scores = record {
  id = id;
  label = "";
  family = "";
  target = "";
  population = "";
  horizon = "";
  metrics = record {
    precision_at_budget = 0;
    calibration_error = 0;
    hard_negative_false_positive_rate = 0;
    random_negative_precision = 0;
    latency_ms = 0;
    explanation_coverage = 0;
    robustness = 0;
    overreliance_gate = "";
    feature_families = [];
    red_team_scores = scores;
  };
  dependencies = [];
}

abbrev pub missing_checks : {V : Type 0} → Manifest V → List (Bool × String)
missing_checks m =
    (is_falsy m.candidate_id, "candidateId")
    ∷ (is_falsy m.artifact_hash, "artifactHash")
    ∷ (is_falsy m.training_data_hash, "trainingDataHash")
    ∷ (not m.has_fold_metrics, "foldMetrics")
    ∷ (is_undefined m.predictions, "predictions")
    ∷ (is_undefined m.dependencies, "dependencies")
    ∷ (is_undefined m.red_team_scores, "redTeamScores")
    ∷ (is_undefined m.overreliance_study, "overrelianceStudy")
    ∷ []

-- `manifest.overrelianceStudy?.status === "passed"`
abbrev pub study_passed : Option (Option String) → Bool
study_passed (some (some status)) = status == "passed"
study_passed (some none) = false
study_passed none = false

-- `manifest.target?.includes("person-level guilt")`
abbrev pub is_prohibited : Option String → Bool
is_prohibited none = false
is_prohibited (some target) = includes target "person-level guilt"

abbrev pub empty_config : ModelProviderConfig
empty_config = record {
  provider = none;
  endpoint = none;
  secrets_in_config = false;
  data_policy = none;
  deployment_mode = none;
}

module _ {V N : Type 0} (num : Numbers V N) (parse_time : String → Option ℕ) where
  unfoldable pub validate_trained_model_artifact : Manifest V → ArtifactValidation N
  unfolding detect_temporal_leakage compute_calibration_curve evaluate_red_team_gates
  validate_trained_model_artifact m =
      let missing = messages (missing_checks m) in
      let leakage =
        detect_temporal_leakage parse_time (get_or m.dependencies [])
          (get_or m.prediction_time default_prediction_time) in
      let calibration =
        compute_calibration_curve num (get_or m.predictions [])
          (some (get_or m.calibration_bins 10)) in
      let red_team =
        evaluate_red_team_gates
          (scored_candidate (get_or m.candidate_id "") (get_or m.red_team_scores []))
          red_team_scenarios in
      record {
        artifact_id = get_or m.candidate_id "unknown";
        missing = missing;
        leakage = leakage;
        calibration = calibration;
        red_team = red_team;
        artifact_hash = m.artifact_hash;
        training_data_hash = m.training_data_hash;
        passed =
            eqb (length missing) 0 && leakage.leakage_safe && calibration.passed && red_team.passed;
      }

  abbrev pub promotion_checks : Manifest V → Option ModelProviderConfig → List (Bool × String)
  promotion_checks m config =
      (not (validate_trained_model_artifact m).passed, "trained artifact validation failed")
      ∷ (
        not (validate_model_provider_config (get_or config empty_config)).passed,
        "model provider validation failed",
      )
      ∷ (not (study_passed m.overreliance_study), "representative overreliance study not passed")
      ∷ (is_prohibited m.target, "prohibited target")
      ∷ []

  unfoldable pub evaluate_production_promotion :
      (Manifest V → String) → (ℕ → String) → Manifest V → Option ModelProviderConfig → Promotion N
  unfolding validate_trained_model_artifact validate_model_provider_config hash_of includes
  evaluate_production_promotion json hex m config =
      let failures = messages (promotion_checks m config) in
      record {
        production_predictions_enabled = false;
        eligible_for_pilot = eqb (length failures) 0;
        failures = failures;
        artifact = validate_trained_model_artifact m;
        provider = validate_model_provider_config (get_or config empty_config);
        manifest_hash = "training-" ⧺ hex (hash_of (json m));
        decision =
            if ltb 0 (length failures)
            then "blocked-production-display"
            else "eligible-for-supervised-pilot-only";
      }
