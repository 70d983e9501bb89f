-- ===== src/Workspace/Search.antt =====
-- packages/graph-renderer/chart-workspace.mjs: `searchGraph`, `saveSearch`, `pinSearchResult` and
-- `expandNeighbors`.
use network_analytics_predic.Prelude.{
  get_or, eqb, ℕ, String, Bool, ◌||◌, Option, none, some, List, [], ◌∷◌, ◌++◌, map, length, filter,
  find, take, includes, is_empty, ◌⧺◌, show, unique, if◌then◌else◌, ◌==◌, foldl,
}
use network_analytics_predic.Graph.{Node, Relationship, Settings, Source}
use network_analytics_predic.Workspace.State.{
  Workspace, SavedSearch, text, count, edit, next_id, normalized, clean_text, record_audit,
}

pub data Kind : Type 0 where
  node relationship : Kind

pub record SearchResult : Type 0 where
  pub kind : Kind
  pub id : String
  pub label : String
  pub detail : String

-- `${value?.label}`: the text "undefined" where the node is not there.
abbrev pub label_or_undefined : Option Node → String
label_or_undefined none = "undefined"
label_or_undefined (some n) = n.label

-- `node.role ?? ""`
abbrev pub role_text : Node → String
role_text n = get_or n.role ""

abbrev pub node_haystack : Node → String
node_haystack n = normalized (n.label ⧺ " " ⧺ n.type ⧺ " " ⧺ role_text n)

abbrev pub node_result : Node → SearchResult
node_result n = record {
  kind = node;
  id = n.id;
  label = n.label;
  detail = n.type ⧺ (if is_empty (role_text n) then "" else " · " ⧺ role_text n);
}

module _ (source : Source) where
  abbrev pub relationship_haystack : Relationship → String
  relationship_haystack r = normalized (
      label_or_undefined (source.node_by_id r.subject)
      ⧺ " "
      ⧺ r.predicate
      ⧺ " "
      ⧺ label_or_undefined (source.node_by_id r.object)
      ⧺ " "
      ⧺ r.source
      ⧺ " "
      ⧺ r.reasoning)

  abbrev pub relationship_result : Relationship → SearchResult
  relationship_result r = record {
    kind = relationship;
    id = r.id;
    label =
        label_or_undefined (source.node_by_id r.subject)
        ⧺ " "
        ⧺ r.predicate
        ⧺ " "
        ⧺ label_or_undefined (source.node_by_id r.object);
    detail = r.source;
  }

unfoldable pub search_graph : String → Source → Settings → List SearchResult
search_graph query source settings =
    let needle = normalized query in
    let node_matches =
      map node_result (filter (λ n. includes (node_haystack n) needle) source.nodes) in
    let relationship_matches = map (relationship_result source) (
      filter (λ r. includes (relationship_haystack source r) needle)
        (source.visible_relationships settings)) in
    if is_empty needle then [] else take 8 (node_matches ++ relationship_matches)

-- The branch of `pinSearchResult` for a relationship.
unfoldable pub pin_relationship : Workspace → String → List Relationship → Workspace
pin_relationship w id visible = elim (find (λ r. r.id == id) visible) [
  | none ↦ w
  | some r ↦
      edit
        (λ c. record c {
          pinned_node_ids = unique (c.pinned_node_ids ++ r.subject ∷ r.object ∷ []);
        })
        w
]

unfoldable pub pin_search_result : Workspace → Option SearchResult → Source → Settings → Workspace
unfolding pin_relationship
pin_search_result w none source settings = w
pin_search_result w (some result) source settings = elim result.kind [
  | node ↦ edit (λ c. record c { pinned_node_ids = unique (c.pinned_node_ids ++ result.id ∷ []) }) w
  | relationship ↦ pin_relationship w result.id (source.visible_relationships settings)
]

-- The loop of `expandNeighbors`: the ids of the relationships at the node, and of their ends.
abbrev pub touches : String → Relationship → Bool
touches node_id r = r.subject == node_id || r.object == node_id

unfoldable pub neighbor_step :
    String → List String × List String → Relationship → List String × List String
neighbor_step node_id (relationship_ids, neighbor_ids) r =
    if touches node_id r
    then (relationship_ids ++ r.id ∷ [], neighbor_ids ++ r.subject ∷ r.object ∷ [])
    else (relationship_ids, neighbor_ids)

unfoldable pub expand_neighbors : Workspace → Source → Settings → String → Workspace
unfolding neighbor_step
expand_neighbors w source settings node_id =
    let (relationship_ids, neighbor_ids) =
      foldl (neighbor_step node_id) ([], []) (source.visible_relationships settings) in
    edit
      (λ c. record c {
        expanded_node_ids = unique (c.expanded_node_ids ++ node_id ∷ neighbor_ids);
        path_relationship_ids = unique (c.path_relationship_ids ++ relationship_ids);
      })
      w

abbrev plural : ℕ → String
plural n = if eqb n 1 then "" else "s"

abbrev projection : String
projection = "current authorized visible graph projection"

abbrev saved_search : Workspace → String → String → ℕ → SavedSearch
saved_search w name query found = record {
  id = next_id "saved-search" w.saved_searches;
  name = clean_text name query;
  query = query;
  result_count = found;
  bounded_to = projection;
  explanation =
      "Search replay is capped at "
      ⧺ show found
      ⧺ " visible result"
      ⧺ plural found
      ⧺ " from the current authorized projection.";
}

unfoldable pub save_search : Workspace → String → Source → Settings → Workspace
save_search w name source settings =
    let query = clean_text w.query "" in
    let entry = saved_search w name query (length (search_graph query source settings)) in
    if is_empty query
    then w
    else record_audit (edit (λ c. record c { saved_searches = c.saved_searches ++ entry ∷ [] }) w)
        "saved-search"
        (("id", text entry.id)
          ∷ ("query", text entry.query)
          ∷ ("resultCount", count entry.result_count)
          ∷ [])
