-- ===== src/Import/Detection.antt =====
-- packages/guided-workflow/transaction-import.mjs: `hardNegativeReasons`, `detectFraudRings` and `labeledAccounts`.
use network_analytics_predic.Import.Workflow.{
  imported_nodes, transaction_of, mentions_any, nodes_from,
}
use network_analytics_predic.Graph.{Node}
use network_analytics_predic.Fraud.Flow.{
  Clock, Transaction, FraudSettings, Score, inbound_for, outbound_for, origins_of, destinations_of,
  total_amount, passes_through, fastest_pass_through, is_rapid, is_round, status_of, threshold_of,
  sort_scores,
}
use network_analytics_predic.Import.Preview.{AcceptedRow}
use network_analytics_predic.Prelude.{
  messages, length, leb, ltb, eqb, min, map, filter, any, all, includes, lower, is_empty, ◌++◌,
  ◌==◌, ◌&&◌, ◌||◌, if◌then◌else◌, ◌*◌, ◌⧺◌, String, Bool, Option, none, some, List, [], ◌∷◌,
}

-- `texts.join(" ")`
abbrev spaced : List String → String
spaced [] = ""
spaced (x ∷ []) = x
spaced (x ∷ y ∷ rest) = x ⧺ " " ⧺ spaced (y ∷ rest)

unfoldable pub hard_negative_reasons : List Transaction → String → List String
hard_negative_reasons transactions account_id =
    let related =
      filter (λ tx. tx.origin == account_id || tx.destination == account_id) transactions in
    let text = lower (
      spaced (
        map (λ tx. tx.type ⧺ " " ⧺ tx.description ⧺ " " ⧺ tx.origin ⧺ " " ⧺ tx.destination)
          related)) in
    messages (
      (any (includes text) ("payroll" ∷ "salary" ∷ "wage" ∷ []), "payroll or salary hub pattern")
      ∷ (
        any (includes text) ("payment processor" ∷ "processor" ∷ "merchant" ∷ "omnibus" ∷ []),
        "legitimate payment processor indicator",
      )
      ∷ (
        any (includes text) ("refund" ∷ "chargeback" ∷ "reversal" ∷ []),
        "refund or reversal pattern",
      )
      ∷ (any (includes text) ("batch" ∷ "bulk" ∷ "settlement" ∷ []), "batch transfer context")
      ∷ (
        ltb 0 (length related)
            && all
                (λ tx.
                  eqb tx.amount 0
                  || mentions_any (tx.type ⧺ " " ⧺ tx.description)
                      ("login" ∷ "device" ∷ "ip" ∷ "shared infrastructure" ∷ "branch" ∷ []))
                related,
        "shared infrastructure without money movement",
      )
      ∷ [])

-- `plain` is `hardNegatives.length === 0`, the guard of each indicator.
unfoldable pub indicators_of : Bool → Bool → Bool → Bool → Bool → Bool → List String
indicators_of plain origins destinations through rapid round = messages (
    (plain && origins, "multiple inbound origins")
    ∷ (plain && destinations, "fan-out to multiple destinations")
    ∷ (plain && through, "high pass-through ratio")
    ∷ (plain && rapid, "rapid outbound movement")
    ∷ (plain && round, "round or near-round amounts")
    ∷ [])

unfoldable pub score_imported : Clock → List Transaction → FraudSettings → Node → Score
unfolding hard_negative_reasons inbound_for outbound_for indicators_of
score_imported clock transactions settings account =
    let inbound = inbound_for transactions account.id in
    let outbound = outbound_for transactions account.id in
    let fastest = fastest_pass_through clock inbound outbound in
    let hard_negatives = hard_negative_reasons transactions account.id in
    let plain = eqb (length hard_negatives) 0 in
    let indicators =
      indicators_of plain (leb 2 (origins_of inbound)) (leb 2 (destinations_of outbound))
        (passes_through inbound outbound) (is_rapid fastest) (any is_round (inbound ++ outbound)) in
    let score = min 100 (length indicators * 18) in
    record {
      account_id = account.id;
      label = account.label;
      role = account.role;
      score = score;
      status = status_of (threshold_of settings) score;
      indicators = indicators;
      inbound_amount = total_amount inbound;
      outbound_amount = total_amount outbound;
      fastest_ms = fastest;
      contrary_evidence = hard_negatives;
      dependencies = map (λ tx. tx.id) (inbound ++ outbound);
    }

-- The scores of `detectFraudRings`.
unfoldable pub imported_scores : Clock → List AcceptedRow → FraudSettings → List Score
unfolding score_imported sort_scores nodes_from
imported_scores clock rows settings =
    let accounts = filter (λ n. n.type == "account") (imported_nodes rows) in
    sort_scores clock (map (score_imported clock (map transaction_of rows) settings) accounts)

-- A `Map` from accounts to labels.
abbrev pub Labels : Type 0
Labels = List (String × Bool)

-- `if (!labels.has(id)) labels.set(id, value); labels.set(id, labels.get(id) || value)`
abbrev pub set_label : String → Bool → Labels → Labels
set_label id value [] = (id, value) ∷ []
set_label id value ((k, v) ∷ labels) =
    let later = set_label id value labels in
    if k == id then (k, v || value) ∷ labels else (k, v) ∷ later

abbrev pub label_row : String → Option Bool → Labels → Labels
label_row id none labels = labels
label_row id (some value) labels = if is_empty id then labels else set_label id value labels

unfoldable pub label_rows : Labels → List AcceptedRow → Labels
label_rows labels [] = labels
label_rows labels (row ∷ rows) =
    label_rows (label_row row.expected_account_id row.expected_review_priority labels) rows

abbrev pub labeled_accounts : List AcceptedRow → Labels
labeled_accounts = label_rows []
