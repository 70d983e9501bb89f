-- ===== src/Gates/Trials.antt =====
-- A trained model at the promotion gate, with numbers in thousandths.
use network_analytics_predic.Gates.Candidate.{score_of}
use network_analytics_predic.Gates.Calibrated.{
  IsOrdered, compute_calibration_curve-counts, count_at, falls_in,
}
use network_analytics_predic.Gates.Calibration.{
  Numbers, Prediction, compute_calibration_curve, error_from, error_limit,
}
use network_analytics_predic.Gates.Production.{ModelProviderConfig}
use network_analytics_predic.Gates.Promoted.{Promotable, evaluate_production_promotion-eligible}
use network_analytics_predic.Gates.Promotion.{Manifest, evaluate_production_promotion}
use network_analytics_predic.Gates.Leakage.{Dependency}
use network_analytics_predic.Prelude.{
  zero, arith, suc, inr, inl, ◌⊎◌, ◌-◌, ◌/◌, ◌<◌, filter, leb, refl, ◌+◌, ◌==◌, ◌↔◌, false, get_or,
  if◌then◌else◌, length, true, ◌*◌, ◌≡◌, String, none, show, some, ℕ, Bool, List, Option, [], ◌∷◌,
}

-- Thousandths, or none where JavaScript has NaN.
abbrev with_both : (ℕ → ℕ → ℕ) → Option ℕ → Option ℕ → Option ℕ
with_both f none b = none
with_both f (some a) none = none
with_both f (some a) (some b) = some (f a b)

abbrev distance : ℕ → ℕ → ℕ
distance a b = if leb b a then a - b else b - a

abbrev is_number : Option ℕ → Bool
is_number none = false
is_number (some a) = true

abbrev is_at_most : Option ℕ → Option ℕ → Bool
is_at_most none b = false
is_at_most (some a) none = false
is_at_most (some a) (some b) = leb a b

-- The difference is only squared, or made absolute.
abbrev in_thousandths : Numbers (Option ℕ) (Option ℕ)
in_thousandths = record {
  number = λ value. value;
  is_finite = is_number;
  of_count = λ n. some (n * 1000);
  plus = with_both (λ a b. a + b);
  minus = with_both distance;
  times = with_both (λ a b. a * b / 1000);
  over = with_both (λ a b. a * 1000 / b);
  square = λ a. with_both (λ b c. b * c / 1000) a a;
  abs = λ a. a;
  at_most = is_at_most;
  floor = λ a. get_or a 0 / 1000;
  to_fixed = λ a. a;
}

abbrev prediction : ℕ → ℕ → Prediction (Option ℕ)
prediction score label = record { score = some score; label = some label }

abbrev predictions : List (Prediction (Option ℕ))
predictions =
    prediction 930 1000
    ∷ prediction 70 0
    ∷ record { score = none; label = some 0 }
    ∷ prediction 1500 1000
    ∷ []

in_thousandths-IsOrdered : IsOrdered in_thousandths
in_thousandths-IsOrdered = record { one_zero = refl; up = up }
  where
    up : (x : Option ℕ) → (is_at_most x (some 0) ≡ false) ⊎ (is_at_most x (some 1000) ≡ true)
    up none = inl refl
    up (some zero) = inr refl
    up (some (suc n)) = inl (ground arith)

compute_calibration_curve-counts_example :
    let curve = compute_calibration_curve in_thousandths predictions none in
    (length curve.bins ≡ 10)
    × ((k : ℕ) → count_at k curve.bins ≡ length (filter (falls_in in_thousandths 10 k) predictions))
    × (curve.total ≡ 3)
    × ((curve.passed ≡ true) ↔ (
        (0 < 3)
        × (is_at_most
              (error_from in_thousandths curve.total (some 0) curve.bins)
              (error_limit in_thousandths)
            ≡ true)))
compute_calibration_curve-counts_example =
    compute_calibration_curve-counts in_thousandths in_thousandths-IsOrdered predictions none

-- The score 1500 is cut off, and both it and 930 fall into the last bin.
bins_test :
    let curve = compute_calibration_curve in_thousandths predictions none in
    (count_at 0 curve.bins ≡ 1) × (count_at 5 curve.bins ≡ 0) × (count_at 9 curve.bins ≡ 2)
unfolding compute_calibration_curve
bins_test = (refl, refl, refl)

abbrev parse_date : String → Option ℕ
parse_date value =
    if value == "2026-04-04T18:00:00Z"
    then some 400
    else if value == "2026-04-01"
    then some 100
    else none

abbrev early : Dependency
early = record {
  id = some "tx-004";
  event_time = some "2026-04-01";
  known_at = none;
  label_known_at = none;
  scaler_fit_at = none;
  feature_window_end = none;
}

abbrev model : Manifest (Option ℕ)
model = record {
  candidate_id = some "graph-model";
  artifact_hash = some "a-1";
  training_data_hash = some "t-1";
  has_fold_metrics = true;
  predictions = some predictions;
  dependencies = some (early ∷ []);
  red_team_scores = some [];
  overreliance_study = some (some "passed");
  prediction_time = none;
  calibration_bins = none;
  target = some "review priority of accounts";
}

abbrev config : ModelProviderConfig
config = record {
  provider = some "local";
  endpoint = some "file:model";
  secrets_in_config = false;
  data_policy = some "no-operational-data-without-authorization";
  deployment_mode = some "local-offline";
}

abbrev json : Manifest (Option ℕ) → String
json m = get_or m.candidate_id ""

evaluate_production_promotion-eligible_example :
    let promotion =
      evaluate_production_promotion in_thousandths parse_date json show model (some config) in
    (promotion.production_predictions_enabled ≡ false)
    × ((promotion.eligible_for_pilot ≡ true)
        ↔ Promotable in_thousandths parse_date model (some config))
    × (promotion.decision ≡ (
        if promotion.eligible_for_pilot
        then "eligible-for-supervised-pilot-only"
        else "blocked-production-display"))
evaluate_production_promotion-eligible_example =
    evaluate_production_promotion-eligible in_thousandths parse_date json show model (some config)

-- A model without a single red-team score is eligible.
promotion_test :
    ((evaluate_production_promotion in_thousandths parse_date json show model
        (some config)).eligible_for_pilot
      ≡ true)
    × ((evaluate_production_promotion in_thousandths parse_date json show model none).failures
        ≡ "model provider validation failed" ∷ [])
    × ((evaluate_production_promotion in_thousandths parse_date json show
          (record model { target = some "person-level guilt" })
          (some config)).failures
        ≡ "prohibited target" ∷ [])
unfolding evaluate_production_promotion score_of
promotion_test = (refl, refl, refl)
