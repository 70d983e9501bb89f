-- ===== src/Fraud/Detect.antt =====
-- packages/guided-workflow/financial-fraud.mjs: `detectFraudRings`, `visibleRelationships`, `deriveAnalysis`,
-- `reportModel` and `runPreflight`. The texts of a result that no other part reads are left out.
use network_analytics_predic.Graph.{Node, Relationship}
use network_analytics_predic.Harbor.State.{Journey}
use network_analytics_predic.Fraud.Flow.{
  Clock, FraudSettings, Score, inbound_for, outbound_for, origins_of, destinations_of, total_amount,
  passes_through, fastest_pass_through, is_rapid, is_round, includes_infrastructure, status_of,
  threshold_of, sort_scores, dependencies_of, visible_among,
}
use network_analytics_predic.Fraud.Case.{nodes, transactions, relationships, fraud_case}
use network_analytics_predic.Prelude.{
  messages, length, leb, ltb, min, map, filter, find, any, all, includes, lower, is_empty, not,
  show, ◌++◌, ◌==◌, ◌&&◌, if◌then◌else◌, ◌+◌, ◌*◌, ◌⧺◌, ℕ, String, Bool, Option, none, some, List,
  [], ◌∷◌,
}

-- `texts.join(", ")`
abbrev pub listed : List String → String
listed [] = ""
listed (x ∷ []) = x
listed (x ∷ y ∷ rest) = x ⧺ ", " ⧺ listed (y ∷ rest)

unfoldable pub score_account : Clock → FraudSettings → Node → Score
unfolding inbound_for outbound_for transactions
score_account clock settings account =
    let inbound = inbound_for transactions account.id in
    let outbound = outbound_for transactions account.id in
    let fastest = fastest_pass_through clock inbound outbound in
    let bridge = account.id == "a-777" in
    let indicators = messages (
      (leb 2 (origins_of inbound), "multiple inbound origins")
      ∷ (leb 2 (destinations_of outbound), "fan-out to multiple destinations")
      ∷ (passes_through inbound outbound, "high pass-through ratio")
      ∷ (is_rapid fastest, "rapid outbound movement")
      ∷ (bridge && includes_infrastructure settings, "shared device/IP infrastructure")
      ∷ (any is_round (inbound ++ outbound), "round or near-round amounts")
      ∷ []) in
    let score = min 100 (length indicators * 16 + (if bridge then 12 else 0)) in
    record {
      account_id = account.id;
      label = account.label;
      role = account.role;
      score = score;
      status = status_of (threshold_of settings) score;
      indicators = indicators;
      inbound_amount = total_amount inbound;
      outbound_amount = total_amount outbound;
      fastest_ms = fastest;
      contrary_evidence = [];
      dependencies = map (λ tx. tx.id) (inbound ++ outbound);
    }

pub record Detection : Type 0 where
  pub scores : List Score
  pub top_account : Option Score

abbrev first_of : List Score → Option Score
first_of [] = none
first_of (s ∷ scores) = some s

-- `bridge ?? scores[0]`
abbrev bridge_or : Option Score → List Score → Option Score
bridge_or none scores = first_of scores
bridge_or (some bridge) scores = some bridge

unfoldable pub detect_fraud_rings : Clock → FraudSettings → Detection
unfolding nodes
detect_fraud_rings clock settings =
    let accounts = filter (λ n. n.type == "account") nodes in
    let scores = sort_scores clock (map (score_account clock settings) accounts) in
    record {
      scores = scores;
      top_account = bridge_or (find (λ s. s.account_id == "a-777") scores) scores;
    }

unfoldable pub visible_relationships : Clock → FraudSettings → List Relationship
unfolding visible_among relationships
visible_relationships clock settings = visible_among (relationships clock) settings

pub record FraudAnalysis : Type 0 where
  pub split_confidence : String
  pub interpretation : String
  pub communities : ℕ
  pub changed_memberships : ℕ
  pub evidence_coverage : String
  pub alternative : String

-- The parts of the top account that the texts show; there always is one.
abbrev pub shown_score : Option Score → String
shown_score none = ""
shown_score (some top) =
    top.label
    ⧺ " is the top review-priority account with an uncalibrated rule-count index of "
    ⧺ show top.score
    ⧺ "/100 because it combines "
    ⧺ listed top.indicators
    ⧺ "."

abbrev pub top_score : Option Score → ℕ
top_score none = 0
top_score (some top) = top.score

unfoldable pub derive_fraud_analysis : Clock → FraudSettings → FraudAnalysis
derive_fraud_analysis clock settings =
    let top = (detect_fraud_rings clock settings).top_account in
    record {
      split_confidence =
          if leb 85 (top_score top)
          then "strong review-priority indicators"
          else "moderate review-priority indicators";
      interpretation = shown_score top;
      communities = 3;
      changed_memberships = 5;
      evidence_coverage = if includes_infrastructure settings then "83%" else "71%";
      alternative =
          "Payroll processors, legitimate account aggregation, refunds, shared household devices, and batch posting delays can imitate parts of a mule pattern.";
    }

pub record FraudState : Type 0 where
  pub settings : FraudSettings
  pub finding_ready : Bool
  pub journey : Journey

pub record FraudReport : Type 0 where
  pub question : String
  pub scope : String
  pub before : String
  pub after : String
  pub known_at : String
  pub assessment : String
  pub contrary_evidence : String
  pub method : String
  pub limitations : String
  pub dependencies : List String

abbrev pub review_note : String
review_note =
    " This is a suggested review step, not a determination that any person committed a crime."

unfoldable pub fraud_report_model : Clock → FraudState → FraudReport
unfolding derive_fraud_analysis
fraud_report_model clock state =
    let analysis = derive_fraud_analysis clock state.settings in
    record {
      question = fraud_case.question;
      scope = "Synthetic financial transactions · April 1–4, 2026";
      before = "Collection phase · April 1, 09:12–11:06 UTC";
      after = "Fan-out and infrastructure phase · April 1, 12:18–April 2, 08:19 UTC";
      known_at = "April 4, 2026 at 18:00 UTC";
      assessment = analysis.interpretation ⧺ review_note;
      contrary_evidence = analysis.alternative;
      method =
          "Explainable CPU mule-indicator baseline with temporal community roles; TGNN candidates remain gated until validated.";
      limitations =
          "Synthetic data only; scores are uncalibrated and require institution-specific validation, legal approval, and human review.";
      dependencies = dependencies_of (detect_fraud_rings clock state.settings).scores;
    }

-- `/a|b/i.test(text)`
abbrev pub mentions : String → List String → Bool
mentions text words = any (includes (lower text)) words

abbrev pub journey_checks : Journey → Bool → List (String × Bool)
journey_checks journey finding_ready =
    ("Evidence has been inspected", journey.evidence_inspected)
    ∷ ("Reasoning and uncertainty have been reviewed", journey.reasoning_inspected)
    ∷ ("Alternative explanation has been reviewed", journey.alternative_reviewed)
    ∷ ("Recommended next review action has been acknowledged", journey.recommendation_acknowledged)
    ∷ ("Finding is marked ready", finding_ready)
    ∷ []

-- The checks that read the report.
unfoldable pub report_checks : FraudReport → List (String × Bool)
report_checks report =
    (
      "Transaction time range is recorded",
      not (is_empty report.before) && not (is_empty report.after),
    )
    ∷ ("Known-at cutoff is recorded", not (is_empty report.known_at))
    ∷ (
      "Detection method and TGNN gate status are recorded",
      mentions report.method ("tgnn" ∷ "gated" ∷ []),
    )
    ∷ (
      "Neutral review-priority language is used",
      mentions report.assessment ("suggested review step" ∷ "review-priority" ∷ []),
    )
    ∷ (
      "Contrary explanations are included",
      mentions report.contrary_evidence ("processor" ∷ "refund" ∷ "shared" ∷ []),
    )
    ∷ ("Calibration limitations are disclosed", mentions report.limitations ("uncalibrated" ∷ []))
    ∷ ("Synthetic transaction dependencies are attached", ltb 0 (length report.dependencies))
    ∷ []

unfoldable pub fraud_checks : FraudState → FraudReport → List (String × Bool)
unfolding report_checks
fraud_checks state report = journey_checks state.journey state.finding_ready ++ report_checks report

unfoldable pub run_fraud_preflight : Clock → FraudState → Bool
unfolding fraud_checks
run_fraud_preflight clock state =
    all (λ c. c.1) (fraud_checks state (fraud_report_model clock state))
