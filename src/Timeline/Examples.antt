-- ===== src/Timeline/Examples.antt =====
-- The theorems on periods and splits at three dated relationships.
use network_analytics_predic.Timeline.Cover.{split_models-cover, edges_of}
use network_analytics_predic.Graph.{Relationship, Node, Settings, Source}
use network_analytics_predic.Timeline.Split.{
  has_edges, visible_edges, Clock, build_chronological_split_models,
}
use network_analytics_predic.Prelude.{
  max, ◌≤◌, length, some, ◌||◌, false, pos, ◌==◌, ◌≡◌, All, if◌then◌else◌, none, true, String, ◌∷◌,
  [],
}

abbrev clock : Clock
clock = record {
  parse_date = λ t.
      if t == "2026-02-01"
      then some 100
      else if t == "2026-02-02"
      then some 200
      else if t == "2026-03-09"
      then some 900
      else none;
  id_before = λ a b. a == "r1" || b == "r3";
}

abbrev dated : String → String → String → Relationship
dated id time period = record {
  id = id;
  subject = "ana";
  object = "bo";
  predicate = "contacted";
  relation = "communications";
  periods = period ∷ [];
  status = "observed";
  event_time = time;
  known_at = time;
  evidence_class = "report";
  confidence = "moderate";
  reliability = "B";
  credibility = "2";
  source = "Synthetic log";
  reasoning = "Direct record";
  caveat = "Training data";
  community_before = "harbor";
  community_after = "north";
}

abbrev ana : Node
ana = record { id = "ana"; type = "person"; label = "Ana"; role = none; x = pos 10; y = pos 20 }

abbrev history : Source
history = record {
  nodes = ana ∷ [];
  node_by_id = λ id. if id == "ana" then some ana else none;
  visible_relationships = λ _.
      dated "r2" "2026-02-02" "before"
      ∷ dated "r1" "2026-02-01" "before"
      ∷ dated "r3" "2026-03-09" "after"
      ∷ [];
}

abbrev defaults : Settings
defaults = record {
  alias_included = true;
  window_days = 30;
  relation_filter = "all";
  comparison_mode = "side-by-side";
  split_count = 2;
  split_boundary_percent = 50;
  split_strategy = "algorithmic-largest-gap";
  label_density = "comfortable";
  spacing = 1;
  high_contrast = false;
  show_communities = true;
}

split_models_example :
    let models = build_chronological_split_models clock defaults history 2 in
    (edges_of models ≡ visible_edges clock defaults history)
    × (length models ≤ max 1 2)
    × (2 ≤ 2 → All (λ m. has_edges m ≡ true) models)
split_models_example = split_models-cover clock defaults history 2
