-- ===== src/Gates/Production.antt =====
-- packages/predictive/production-readiness.mjs: `validateModelProviderConfig` and `createNeuralTrainingRunPlan`. A
-- field that may be missing is an option; `secretsInConfig` is its truth value, and `seed` a whole number.
use network_analytics_predic.Prelude.{
  ◌↔◌, ◌≡◌, false, true, if◌then◌else◌, length, ◌++◌, eqb, not, when, ◌==◌, get_or, any, Bool, List,
  Option, String, ℕ, ◌+◌, false, true, ◌≡◌, ◌↔◌, refl, length-append, length-when, not_counted,
  count_of, eqb_iff, arith, ◌∷◌, [], none, some,
}

pub record ModelProviderConfig : Type 0 where
  pub provider : Option String
  pub endpoint : Option String
  pub secrets_in_config : Bool
  pub data_policy : Option String
  pub deployment_mode : Option String

pub record ConfigValidation : Type 0 where
  pub contract : String
  pub provider : String
  pub deployment_mode : String
  pub failures : List String
  pub passed : Bool

abbrev deployment_modes : List String
deployment_modes = "local-offline" ∷ "private-vpc" ∷ "approved-managed-provider" ∷ []

-- `!text`
abbrev pub is_falsy : Option String → Bool
is_falsy none = true
is_falsy (some text) = text == ""

-- `[…].includes(mode)`, which a missing mode is not part of
abbrev pub is_deployment_mode : Option String → Bool
is_deployment_mode none = false
is_deployment_mode (some mode) = any (λ m. m == mode) deployment_modes

abbrev pub fails_closed : Option String → Bool
fails_closed none = false
fails_closed (some policy) = policy == "no-operational-data-without-authorization"

unfoldable pub validate_model_provider_config : ModelProviderConfig → ConfigValidation
validate_model_provider_config config =
    let failures =
      when (is_falsy config.provider) "provider is required"
      ++ when (is_falsy config.endpoint) "endpoint is required"
      ++ when config.secrets_in_config "secrets must not be stored in model config"
      ++ when (not (fails_closed config.data_policy)) "data policy must fail closed"
      ++ when (not (is_deployment_mode config.deployment_mode)) "deployment mode is not approved" in
    record {
      contract = "ModelProviderConfigValidationV1";
      provider = get_or config.provider "unconfigured";
      deployment_mode = get_or config.deployment_mode "unconfigured";
      failures = failures;
      passed = eqb (length failures) 0;
    }

record PlanRequest : Type 0 where
  candidate_id : Option String
  family : Option String
  fold_ids : List String
  framework : Option String
  acceleration : Option String
  seed : Option ℕ

record TrainingRunPlan : Type 0 where
  contract : String
  candidate_id : Option String
  family : String
  framework : String
  acceleration : String
  seed : ℕ
  deterministic_replay_required : Bool
  data_contract : String
  required_artifacts : List String
  fold_ids : List String
  status : String

abbrev required_artifacts : List String
required_artifacts =
    "training manifest" ∷ "fold metrics" ∷ "calibration curve" ∷ "leakage report"
    ∷ "red-team report" ∷ "model card" ∷ "overreliance study evidence" ∷ []

unfoldable create_neural_training_run_plan : PlanRequest → TrainingRunPlan
create_neural_training_run_plan r =
    let framework = get_or r.framework "adapter-required" in
    record {
      contract = "NeuralTrainingRunPlanV1";
      candidate_id = r.candidate_id;
      family = get_or r.family "temporal GNN";
      framework = framework;
      acceleration = get_or r.acceleration "cpu-first";
      seed = get_or r.seed 20260404;
      deterministic_replay_required = true;
      data_contract = "authorized temporal graph projection only";
      required_artifacts = required_artifacts;
      fold_ids = r.fold_ids;
      status =
          if framework == "adapter-required"
          then "blocked-no-training-adapter"
          else "ready-for-offline-training";
    }

-- A config passes exactly when it names a provider and an endpoint, holds no secrets, states the policy that fails
-- closed, and has one of the approved deployment modes.
pub validate_model_provider_config-passed :
    (config : ModelProviderConfig)
    → ((validate_model_provider_config config).passed ≡ true) ↔ (
        (is_falsy config.provider ≡ false)
        × (is_falsy config.endpoint ≡ false)
        × (config.secrets_in_config ≡ false)
        × (fails_closed config.data_policy ≡ true)
        × (is_deployment_mode config.deployment_mode ≡ true))
unfolding validate_model_provider_config
validate_model_provider_config-passed config =
    exactly (is_falsy config.provider) (is_falsy config.endpoint) config.secrets_in_config
      (fails_closed config.data_policy) (is_deployment_mode config.deployment_mode)
  where
    double : {b : Bool} → not b ≡ false → b ≡ true
    double {b = true} h = refl
    double {b = false} h = cc h

    exactly :
        (no_provider no_endpoint secrets closed mode : Bool)
        → (eqb
              (length (
                when no_provider "provider is required"
                ++ when no_endpoint "endpoint is required"
                ++ when secrets "secrets must not be stored in model config"
                ++ when (not closed) "data policy must fail closed"
                ++ when (not mode) "deployment mode is not approved"))
              0
            ≡ true)
          ↔ ((no_provider ≡ false)
              × (no_endpoint ≡ false)
              × (secrets ≡ false)
              × (closed ≡ true)
              × (mode ≡ true))
    exactly p e s c m =
        let failures =
          when p "provider is required"
          ++ when e "endpoint is required"
          ++ when s "secrets must not be stored in model config"
          ++ when (not c) "data policy must fail closed"
          ++ when (not m) "deployment mode is not approved" in
        let sum : length failures
            ≡ count_of p + count_of e + count_of s + count_of (not c) + count_of (not m) =
          simp (length-append, length-when) (omega arith) in
        (
          λ h.
              let none_left : length failures ≡ 0 = (eqb_iff (length failures) 0).0 h in
              (
                not_counted p (omega (arith, sum, none_left)),
                not_counted e (omega (arith, sum, none_left)),
                not_counted s (omega (arith, sum, none_left)),
                double (not_counted (not c) (omega (arith, sum, none_left))),
                double (not_counted (not m) (omega (arith, sum, none_left))),
              ),
          λ h. rw (h.0, h.1, h.2, h.3, h.4) refl,
        )
