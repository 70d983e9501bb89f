-- ===== src/Fraud/Safe.antt =====
-- What the detection and the preflight of the synthetic case come to.
use network_analytics_predic.Graph.{Node}
use network_analytics_predic.Fraud.Flow.{Clock, FraudSettings, Score, dependencies_of, sort_scores}
use network_analytics_predic.Fraud.Case.{nodes}
use network_analytics_predic.Fraud.Detect.{
  shown_score, derive_fraud_analysis, report_checks, score_account, detect_fraud_rings, FraudState,
  fraud_report_model, fraud_checks, run_fraud_preflight, review_note,
}
use network_analytics_predic.Fraud.Ranked.{length-sort_scores, find-sort_other, find-sort_only}
use network_analytics_predic.Prelude.{
  includes-lower_append, all, ◌⧺◌, lower, includes, ltb, ◌∙◌, map, arith, find, refl, filter,
  unique, ◌==◌, some, ◌≡◌, ◌≤◌, Bool, true, String, length, ◌&&◌, pos,
}

abbrev bridge_account : Node
bridge_account = record {
  id = "a-777";
  type = "account";
  label = "Acct 777";
  role = some "possible mule";
  x = pos 56;
  y = pos 43;
}

module _ (clock : Clock) (settings : FraudSettings) where
  abbrev is_bridge : Score → Bool
  is_bridge s = s.account_id == "a-777"

  is_bridge-score_account :
      (n : Node) → is_bridge (score_account clock settings n) ≡ (n.id == "a-777")
  unfolding score_account
  is_bridge-score_account n = refl

  bridge_score :
      let bridge = score_account clock settings bridge_account in
      (76 ≤ bridge.score) × (bridge.score ≤ 100)
  unfolding score_account unique
  bridge_score = ground arith

  -- The bridge is the top account, with a score of at least 76 of 100, whatever the dates and the settings.
  pub detect_fraud_rings-bridge :
      let bridge = score_account clock settings bridge_account in
      ((detect_fraud_rings clock settings).top_account ≡ some bridge)
      × (76 ≤ bridge.score)
      × (bridge.score ≤ 100)
  unfolding detect_fraud_rings nodes
  detect_fraud_rings-bridge =
      let score = score_account clock settings in
      let accounts = filter (λ (n : Node). n.type == "account") nodes in
      let found : find is_bridge (sort_scores clock (map score accounts))
          ≡ some (score bridge_account) =
        find-sort_other clock is_bridge _ _ (is_bridge-score_account _)
        ∙ find-sort_other clock is_bridge _ _ (is_bridge-score_account _)
        ∙ find-sort_only clock is_bridge _ _ (is_bridge-score_account _)
            (is_bridge-score_account _, (is_bridge-score_account _, tt)) in
      (rw found refl, bridge_score.0, bridge_score.1)

pub has_neutral_note :
    (text : String) → includes (lower (text ⧺ review_note)) "suggested review step" ≡ true
has_neutral_note text = includes-lower_append text review_note "suggested review step" note
  where
    note : includes (lower review_note) "suggested review step" ≡ true
    note = unfold includes lower in refl

length-dependencies :
    (clock : Clock) (settings : FraudSettings)
    → ltb 0 (length (dependencies_of (detect_fraud_rings clock settings).scores)) ≡ true
unfolding detect_fraud_rings
length-dependencies clock settings =
    let scores =
      map (score_account clock settings) (filter (λ (n : Node). n.type == "account") nodes) in
    rw (length-sort_scores clock scores) (unfold nodes score_account in refl)

report_checks-pass :
    (clock : Clock) (state : FraudState)
    → all (λ c. c.1) (report_checks (fraud_report_model clock state)) ≡ true
unfolding report_checks fraud_report_model derive_fraud_analysis
report_checks-pass clock state =
    let neutral =
      has_neutral_note (shown_score (detect_fraud_rings clock state.settings).top_account) in
    let given = length-dependencies clock state.settings in
    rw (neutral, given) (unfold includes lower in refl)

-- The report of the synthetic case passes its preflight exactly when the four steps of the journey are done and the
-- finding is marked ready, whatever the settings.
pub run_fraud_preflight-passed :
    (clock : Clock) (state : FraudState)
    → let j = state.journey in
      run_fraud_preflight clock state ≡ (
        j.evidence_inspected && j.reasoning_inspected && j.alternative_reviewed
        && j.recommendation_acknowledged && state.finding_ready)
unfolding run_fraud_preflight fraud_checks
run_fraud_preflight-passed clock state = rw (report_checks-pass clock state) (ground arith)
