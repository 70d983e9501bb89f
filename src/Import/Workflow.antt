-- ===== src/Import/Workflow.antt =====
-- packages/guided-workflow/transaction-import.mjs: `createImportedFraudWorkflow` over the accepted rows of a preview:
-- its nodes and relationships. The decimal text of an amount is a parameter.
use Prim.Native.Char.{code}
use network_analytics_predic.Graph.{Node, Relationship}
use network_analytics_predic.Fraud.Flow.{visible_among, Clock, Transaction, FraudSettings}
use network_analytics_predic.Fraud.Case.{fraud_case, shown_time}
use network_analytics_predic.Gates.Folds.{sort_ids}
use network_analytics_predic.Import.Preview.{AcceptedRow}
use network_analytics_predic.Prelude.{
  length, leb, eqb, map, any, get_or, includes, lower, show, ◌++◌, ◌==◌, ◌||◌, if◌then◌else◌, ◌+◌,
  ◌*◌, ◌%◌, ◌/◌, ◌⧺◌, pos, pos_part, last?, ℕ, suc, zero, String, Bool, some, List, [], ◌∷◌,
}

-- The source's rows serve as transactions. Amounts of accepted rows are not negative.
abbrev pub transaction_of : AcceptedRow → Transaction
transaction_of row = record {
  id = row.id;
  at = row.at;
  origin = row.origin;
  destination = row.destination;
  amount = pos_part row.amount;
  currency = row.currency;
  type = row.type;
  description = row.description;
}

-- `id.replace(/^acct[-_]?/i, "")`
abbrev without_separator : String → String
without_separator String.[] = ""
without_separator (String.◌∷◌ c s) =
    if eqb (code c) 45 || eqb (code c) 95 then s else String.◌∷◌ c s

abbrev short_id : String → String
short_id (String.◌∷◌ a (String.◌∷◌ b (String.◌∷◌ c (String.◌∷◌ d s)))) =
    let start = String.◌∷◌ a (String.◌∷◌ b (String.◌∷◌ c (String.◌∷◌ d ""))) in
    if lower start == "acct" then without_separator s else start ⧺ s
short_id other = other

unfoldable pub node_for : String → String → ℕ → Node
node_for id kind index =
    let lane =
      if kind == "person"
      then 16
      else if kind == "account"
      then 48
      else if kind == "device" || kind == "place"
      then 76
      else 30 in
    record {
      id = id;
      type = if kind == "ip" then "place" else kind;
      label = if kind == "account" then "Acct " ⧺ short_id id else id;
      role = some (if kind == "account" then "imported account" else "imported entity");
      x = pos (12 + (index * 17) % 76);
      y = pos (lane + (index * 11) % 18);
    }

-- `if (!nodeMap.has(id)) nodeMap.set(id, nodeFor(id, kind, nodeMap.size))`
abbrev pub add_node : String → String → List Node → List Node
add_node id kind nodes =
    if any (λ n. n.id == id) nodes then nodes else nodes ++ node_for id kind (length nodes) ∷ []

unfoldable pub nodes_from : List Node → List AcceptedRow → List Node
unfolding node_for
nodes_from nodes [] = nodes
nodes_from nodes (row ∷ rows) =
    nodes_from
      (add_node row.destination row.destination_kind (add_node row.origin row.origin_kind nodes))
      rows

abbrev pub imported_nodes : List AcceptedRow → List Node
imported_nodes = nodes_from []

-- `acceptedRows.map((row) => row.at).sort().at(-1) ?? DEFAULT_CASE.knownAt`
unfoldable pub known_at_of : List AcceptedRow → String
unfolding sort_ids
known_at_of rows = get_or (last? (sort_ids (map (λ row. row.at) rows))) fraud_case.known_at

abbrev insert_number : ℕ → List ℕ → List ℕ
insert_number n [] = n ∷ []
insert_number n (m ∷ ms) = let rest = insert_number n ms in if leb n m then n ∷ m ∷ ms else m ∷ rest

abbrev sort_numbers : List ℕ → List ℕ
sort_numbers [] = []
sort_numbers (n ∷ ns) = insert_number n (sort_numbers ns)

abbrev number_at : List ℕ → ℕ → ℕ
number_at [] i = 0
number_at (n ∷ ns) zero = n
number_at (n ∷ ns) (suc i) = number_at ns i

unfoldable pub midpoint_of : Clock → List AcceptedRow → ℕ
midpoint_of clock rows =
    number_at (sort_numbers (map (λ row. clock.ms row.at) rows)) (length rows / 2)

abbrev pub mentions_any : String → List String → Bool
mentions_any text words = any (includes (lower text)) words

unfoldable pub imported_relationship :
    (ℕ → String) → Clock → ℕ → String → AcceptedRow → Relationship
imported_relationship amount_text clock midpoint known_at row =
    let amount = pos_part row.amount in
    let infrastructure =
      eqb amount 0 || mentions_any row.type ("login" ∷ "device" ∷ "ip" ∷ "infrastructure" ∷ []) in
    let before = leb (clock.ms row.at) midpoint in
    record {
      id = row.id;
      subject = row.origin;
      object = row.destination;
      predicate = if infrastructure then "accesses" else "transfers to";
      relation =
          if infrastructure
          then "infrastructure"
          else if mentions_any row.type ("cash" ∷ "withdraw" ∷ "atm" ∷ "wallet" ∷ [])
          then "cashout"
          else "transfers";
      periods = (if before then "before" else "after") ∷ [];
      status = if before then "observed" else "appeared";
      event_time = shown_time row.at;
      known_at = shown_time known_at;
      evidence_class = "imported financial transaction";
      confidence = "imported";
      reliability = "uploaded ledger";
      credibility = "requires validation";
      source =
          row.id
          ⧺ " · row "
          ⧺ show row.row_number
          ⧺ " · "
          ⧺ row.type
          ⧺ " · "
          ⧺ amount_text amount
          ⧺ " "
          ⧺ row.currency;
      reasoning =
          amount_text amount
          ⧺ " "
          ⧺ row.currency
          ⧺ " moved from "
          ⧺ row.origin
          ⧺ " to "
          ⧺ row.destination
          ⧺ " at "
          ⧺ row.at
          ⧺ ". Imported row "
          ⧺ show row.row_number
          ⧺ " is treated as training evidence.";
      caveat =
          "Imported rows are synthetic/training data in GitHub Pages mode. Operational use requires authorized ingestion, validation, and governance.";
      community_before = "imported collection";
      community_after = if row.origin == row.destination then "self-loop" else "imported flow";
    }

unfoldable pub imported_relationships : (ℕ → String) → Clock → List AcceptedRow → List Relationship
unfolding imported_relationship midpoint_of known_at_of
imported_relationships amount_text clock rows =
    map (imported_relationship amount_text clock (midpoint_of clock rows) (known_at_of rows)) rows

-- The workflow's `visibleRelationships`.
unfoldable pub imported_visible :
    (ℕ → String) → Clock → List AcceptedRow → FraudSettings → List Relationship
unfolding visible_among imported_relationships
imported_visible amount_text clock rows settings =
    visible_among (imported_relationships amount_text clock rows) settings
