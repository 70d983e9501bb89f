-- ===== src/Phrases/Examples.antt =====
-- The theorem on connected-node phrases at a concrete graph.
use network_analytics_predic.Phrases.Pattern.{is_blank}
use network_analytics_predic.Workspace.Path.Walk.{Walk}
use network_analytics_predic.Workspace.Path.{no_path}
use network_analytics_predic.Workspace.Path.Round.{IsShortestPath}
use network_analytics_predic.Phrases.Between.{execute_graph_phrase-path, path_in}
use network_analytics_predic.Phrases.Split.{has_joint}
use network_analytics_predic.Phrases.Parse.{
  execute_graph_phrase, find_node_by_phrase, clean_label, parse_graph_phrase,
}
use network_analytics_predic.Phrases.Rows.{Ends, Joins, execute_connected-rows}
use network_analytics_predic.Workspace.State.{normalized, create_chart_workspace}
use network_analytics_predic.Phrases.Execute.{
  nodes_of, unsupported, community, connected_by_type, dependency_on, execute_connected,
}
use network_analytics_predic.Graph.{Node, Relationship, Settings, Source}
use mathlib.Core.List.{Memᴰ}
use network_analytics_predic.Prelude.{
  unique, lower, ap, ℕ, ◌⊎◌, refl, is_space, ◌⧺◌, All, false, pos, ◌==◌, find, true, ◌≡◌, String,
  ◌∷◌, [], none, some,
}

abbrev account : String → Node
account id = record { id = id; type = "account"; label = id; role = none; x = pos 10; y = pos 20 }

abbrev transfer : Relationship
transfer = record {
  id = "t1";
  subject = "acct-100";
  object = "acct-777";
  predicate = "sent";
  relation = "transfers";
  periods = "before" ∷ [];
  status = "observed";
  event_time = "2026-05-01";
  known_at = "2026-05-02";
  evidence_class = "ledger";
  confidence = "high";
  reliability = "A";
  credibility = "1";
  source = "Synthetic ledger";
  reasoning = "Ledger entry";
  caveat = "Training data";
  community_before = "mule";
  community_after = "mule bridge";
}

abbrev ledger : Source
ledger = record {
  nodes = account "acct-100" ∷ account "acct-777" ∷ [];
  node_by_id = λ id. find (λ n. n.id == id) (account "acct-100" ∷ account "acct-777" ∷ []);
  visible_relationships = λ _. transfer ∷ [];
}

abbrev view : Settings
view = record {
  alias_included = true;
  window_days = 30;
  relation_filter = "all";
  comparison_mode = "side-by-side";
  split_count = 2;
  split_boundary_percent = 50;
  split_strategy = "algorithmic-largest-gap";
  label_density = "comfortable";
  spacing = 1;
  high_contrast = false;
  show_communities = true;
}

connected_rows_example :
    let result = execute_connected create_chart_workspace ledger view "account" "acct-777" in
    All
      (λ n.
        (n.type ≡ "account")
        × ((r : Relationship) × (id : String) × Memᴰ r (transfer ∷ [])
            × Joins "acct-777" id r
            × (ledger.node_by_id id ≡ some n)))
      result.rows
    × All
        (λ d.
          (r : Relationship) × Memᴰ r (transfer ∷ []) × Ends "acct-777" r × (d ≡ dependency_on r))
        result.dependencies
connected_rows_example =
    execute_connected-rows create_chart_workspace ledger view "account" "acct-777"

connected_test :
    (execute_connected create_chart_workspace ledger view "account" "acct-777").rows
    ≡ account "acct-100" ∷ []
unfolding execute_connected nodes_of unique
connected_test = refl

abbrev phrase : String
phrase = " Paths between Acct-100 and acct-777? "

execute_graph_phrase-path_example :
    let result = execute_graph_phrase create_chart_workspace phrase ledger view in
    let path = path_in result.workspace in
    (result.ok ≡ true)
    × (IsShortestPath (transfer ∷ []) "acct-100" "acct-777" path
        ⊎ ((path ≡ no_path) × ((k : ℕ) → ¬ Walk (transfer ∷ []) "acct-100" k "acct-777")))
unfolding clean_label normalized find_node_by_phrase has_joint is_space lower is_blank
execute_graph_phrase-path_example =
    execute_graph_phrase-path phrase "acct-100" "acct-777" ledger refl
      (record { dark = refl; inside = refl }) (record { dark = refl; inside = refl }) refl
      create_chart_workspace view (account "acct-100") (account "acct-777") refl refl refl refl
      (λ e. cc (ap (λ s. s == "acct-777") e))

parse_test :
    (parse_graph_phrase "show people connected to ACCT-777" ledger
      ≡ connected_by_type "person" "acct-777"
          ("person nodes connected to " ⧺ (account "acct-777").label))
    × (parse_graph_phrase "Show community Mule Bridge." ledger
        ≡ community "mule bridge" "Community mule bridge")
    × (parse_graph_phrase "show paths between mr and and acct-100" ledger
        ≡ unsupported "Both path endpoints must be visible nodes in the authorized graph.")
unfolding parse_graph_phrase
parse_test = (refl, refl, refl)
