-- ===== src/Graph.antt =====
-- What the workspace reads of a case: the nodes and relationships of the fixtures
-- (data/fixtures/harbor-lantern.v1.json, packages/guided-workflow), the analysis settings, and the
-- graph source, an object with a list of nodes and two functions. Every workflow supplies one.
use network_analytics_predic.Prelude.{ℕ, ℤ, String, Bool, Option, List}

pub record Node : Type 0 where
  pub id : String
  pub type : String
  pub label : String
  pub role : Option String
  pub x : ℤ
  pub y : ℤ

pub record Relationship : Type 0 where
  pub id : String
  pub subject : String
  pub object : String
  pub predicate : String
  pub relation : String
  pub periods : List String
  pub status : String
  pub event_time : String
  pub known_at : String
  pub evidence_class : String
  pub confidence : String
  pub reliability : String
  pub credibility : String
  pub source : String
  pub reasoning : String
  pub caveat : String
  pub community_before : String
  pub community_after : String

pub record Settings : Type 0 where
  pub alias_included : Bool
  pub window_days : ℕ
  pub relation_filter : String
  pub comparison_mode : String
  pub split_count : ℕ
  pub split_boundary_percent : ℕ
  pub split_strategy : String
  pub label_density : String
  pub spacing : ℕ
  pub high_contrast : Bool
  pub show_communities : Bool

pub record Source : Type 0 where
  pub nodes : List Node
  pub node_by_id : String → Option Node
  pub visible_relationships : Settings → List Relationship
