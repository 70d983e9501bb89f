-- ===== src/Phrases/Execute.antt =====
-- packages/graph-renderer/bloom-exploration.mjs: `executeGraphPhrase` from the parsed phrase on. What
-- `parseGraphPhrase` makes of a text is an argument, which Phrases/Parse fills.
use network_analytics_predic.Workspace.Path.{set_path}
use network_analytics_predic.Workspace.Search.{label_or_undefined, expand_neighbors, touches}
use network_analytics_predic.Graph.{Node, Settings, Relationship, Source}
use network_analytics_predic.Workspace.State.{normalized, edit, Workspace}
use network_analytics_predic.Workspace.Export.{explain_path, PathStep}
use network_analytics_predic.Prelude.{
  length, show, map, ◌++◌, ◌⧺◌, eqb, false, filter, true, unique, ◌&&◌, ◌==◌, Option, if◌then◌else◌,
  includes, Bool, List, String, ℕ, ◌∷◌, [], none, some,
}

-- The result of `parseGraphPhrase`.
pub data Parsed : Type 0 where
  unsupported : String → Parsed
  path_between : String → String → String → Parsed
  connected_by_type : String → String → String → Parsed
  community : String → String → Parsed

pub record PhraseDependency : Type 0 where
  pub id : String
  pub source : String
  pub event_time : Option String
  pub known_at : Option String
  pub confidence : Option String

abbrev pub dependency_on : Relationship → PhraseDependency
dependency_on r = record {
  id = r.id;
  source = r.source;
  event_time = some r.event_time;
  known_at = some r.known_at;
  confidence = some r.confidence;
}

-- A step of an explained path is a dependency with a label and a caveat.
abbrev pub dependency_of_step : PathStep → PhraseDependency
dependency_of_step s = record {
  id = s.id;
  source = s.source;
  event_time = s.event_time;
  known_at = s.known_at;
  confidence = s.confidence;
}

pub record PhraseResult : Type 0 where
  pub ok : Bool
  pub workspace : Workspace
  pub rows : List Node
  pub dependencies : List PhraseDependency
  pub explanation : String

-- `ids.map((id) => source.nodeById(id)).filter(Boolean)`
unfoldable pub nodes_of : Source → List String → List Node
nodes_of source [] = []
nodes_of source (id ∷ ids) = elim (source.node_by_id id) [
  | none ↦ nodes_of source ids
  | some n ↦ n ∷ nodes_of source ids
]

-- The end of the relationship that is not the target.
abbrev pub other_end : String → Relationship → String
other_end target_id r = if r.subject == target_id then r.object else r.subject

abbrev has_type : String → Option Node → Bool
has_type node_type none = false
has_type node_type (some n) = n.type == node_type

abbrev pub is_connection : Source → String → String → Relationship → Bool
is_connection source node_type target_id r =
    touches target_id r && has_type node_type (source.node_by_id (other_end target_id r))

-- The loop over the visible relationships; `connectedIds` is a Set.
abbrev pub connections : Source → Settings → String → String → List Relationship
connections source settings node_type target_id =
    filter (is_connection source node_type target_id) (source.visible_relationships settings)

abbrev pub connected_ids : Source → Settings → String → String → List String
connected_ids source settings node_type target_id =
    unique (map (other_end target_id) (connections source settings node_type target_id))

abbrev pub pin_all : List String → Workspace → Workspace
pin_all ids w = edit (λ c. record c { pinned_node_ids = unique (c.pinned_node_ids ++ ids) }) w

abbrev s_of : ℕ → String
s_of n = if eqb n 1 then "" else "s"

unfoldable pub execute_connected : Workspace → Source → Settings → String → String → PhraseResult
execute_connected w source settings node_type target_id =
    let ids = connected_ids source settings node_type target_id in
    record {
      ok = true;
      workspace = pin_all (target_id ∷ ids) (expand_neighbors w source settings target_id);
      rows = nodes_of source ids;
      dependencies = map dependency_on (connections source settings node_type target_id);
      explanation =
          show (length ids)
          ⧺ " visible "
          ⧺ node_type
          ⧺ " node"
          ⧺ s_of (length ids)
          ⧺ " connected to "
          ⧺ label_or_undefined (source.node_by_id target_id)
          ⧺ ". Results use only authorized visible relationships.";
    }

unfoldable pub execute_path : Workspace → Source → Settings → String → String → PhraseResult
execute_path w source settings start_id end_id =
    let next = set_path w source settings start_id end_id in
    let dependencies = map dependency_of_step (explain_path next source settings) in
    record {
      ok = true;
      workspace = next;
      rows = nodes_of source next.path_node_ids;
      dependencies = dependencies;
      explanation =
          if eqb (length dependencies) 0
          then "No visible path was found in the authorized graph projection."
          else "Found a visible path with "
            ⧺ show (length dependencies)
            ⧺ " evidence-linked relationship"
            ⧺ s_of (length dependencies)
            ⧺ " using the current known-at cutoff.";
    }

abbrev pub of_community : String → Relationship → Bool
of_community name r = includes (normalized (r.community_before ⧺ " " ⧺ r.community_after)) name

-- `relationships.flatMap((relationship) => [relationship.subject, relationship.object])`
abbrev pub both_ends : List Relationship → List String
both_ends [] = []
both_ends (r ∷ rs) = r.subject ∷ r.object ∷ both_ends rs

unfoldable pub execute_community : Workspace → Source → Settings → String → PhraseResult
execute_community w source settings name =
    let matching = filter (of_community name) (source.visible_relationships settings) in
    let node_ids = unique (both_ends matching) in
    record {
      ok = true;
      workspace =
          edit
            (λ c. record c {
              pinned_node_ids = unique (c.pinned_node_ids ++ node_ids);
              path_relationship_ids = unique (c.path_relationship_ids ++ map (λ r. r.id) matching);
            })
            w;
      rows = nodes_of source node_ids;
      dependencies = map dependency_on matching;
      explanation =
          show (length matching)
          ⧺ " visible relationship"
          ⧺ s_of (length matching)
          ⧺ " support the "
          ⧺ name
          ⧺ " community view. This is a review hypothesis, not a determination.";
    }

unfoldable pub execute_parsed : Workspace → Parsed → Source → Settings → PhraseResult
execute_parsed w (unsupported reason) source settings = record {
  ok = false;
  workspace = w;
  rows = [];
  dependencies = [];
  explanation = reason;
}
execute_parsed w (path_between start_id end_id label) source settings =
    execute_path w source settings start_id end_id
execute_parsed w (connected_by_type node_type target_id label) source settings =
    execute_connected w source settings node_type target_id
execute_parsed w (community name label) source settings = execute_community w source settings name
