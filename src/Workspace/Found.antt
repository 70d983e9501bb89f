-- ===== src/Workspace/Found.antt =====
-- packages/graph-renderer/chart-workspace.mjs: what `searchGraph` finds, and what `expandNeighbors` reaches.
use network_analytics_predic.Workspace.State.{normalized, Workspace}
use network_analytics_predic.Graph.{Node, Relationship, Settings, Source}
use network_analytics_predic.Workspace.Search.{
  relationship_result, node_result, relationship_haystack, node_haystack, touches, SearchResult,
  neighbor_step, expand_neighbors, search_graph,
}
use mathlib.Core.List.{Memᴰ}
use network_analytics_predic.Prelude.{
  ◌∙◌, ap, false, All-append, All-take, length-take, map, filter-Mem, filter, inr, All-map, ◌++◌,
  ◌⊎◌, inl, refl, Bool-cases, has-append, is_empty, true, arith, has-unique, All, any, includes,
  ◌&&◌, ◌==◌, foldl, ◌||◌, ◌≤◌, Bool, List, has, length, String, [], ◌∷◌, ◌≡◌,
}

module _ (source : Source) (settings : Settings) (needle : String) where
  -- A result stands for a node of the source, or for a relationship visible under the settings, whose
  -- text has the needle in it.
  abbrev pub FoundIn : SearchResult → Type 0
  FoundIn r =
      ((n : Node) × Memᴰ n source.nodes
        × (includes (node_haystack n) needle ≡ true)
        × (r ≡ node_result n))
      ⊎ ((e : Relationship) × Memᴰ e (source.visible_relationships settings)
          × (includes (relationship_haystack source e) needle ≡ true)
          × (r ≡ relationship_result source e))

-- A search gives at most eight results, each for a node of the source or a relationship that is visible under
-- the settings, with the trimmed and lower-cased query in its text; a blank query gives none.
pub search_graph-FoundIn :
    (query : String) (source : Source) (settings : Settings)
    → let results = search_graph query source settings in
      (length results ≤ 8)
      × All (FoundIn source settings (normalized query)) results
      × (is_empty (normalized query) ≡ true → results ≡ [])
unfolding search_graph
search_graph-FoundIn query source settings =
    let needle = normalized query in
    let P = FoundIn source settings needle in
    let node_test : Node → Bool = λ n. includes (node_haystack n) needle in
    let visible = source.visible_relationships settings in
    let edge_test : Relationship → Bool = λ r. includes (relationship_haystack source r) needle in
    let nodes =
      All-map (λ n. Memᴰ n source.nodes × (node_test n ≡ true)) P node_result
        (filter node_test source.nodes) (λ n h. inl (n, h.0, h.1, refl))
        (filter-Mem node_test source.nodes) in
    let edges =
      All-map (λ r. Memᴰ r visible × (edge_test r ≡ true)) P (relationship_result source)
        (filter edge_test visible) (λ r h. inr (r, h.0, h.1, refl))
        (filter-Mem edge_test visible) in
    let found =
      map node_result (filter node_test source.nodes)
      ++ map (relationship_result source) (filter edge_test visible) in
    elim (Bool-cases (is_empty needle)) [
      | inl e ↦ rw e (omega arith, tt, λ _. refl)
      | inr e ↦ rw e (
        omega (arith, length-take 8 found),
        All-take P 8 found (All-append P _ _ nodes edges),
        λ h. cc h,
      )
    ]

module _ (node_id : String) where
  abbrev end_of : String → Relationship → Bool
  end_of a r = touches node_id r && (r.subject == a || r.object == a)

  abbrev id_of : String → Relationship → Bool
  id_of a r = touches node_id r && r.id == a

  step_at :
      (ids ends : List String) (r : Relationship)
      → touches node_id r ≡ true
      → neighbor_step node_id (ids, ends) r ≡ (ids ++ r.id ∷ [], ends ++ r.subject ∷ r.object ∷ [])
  unfolding neighbor_step
  step_at ids ends r e = rw e

  step_past :
      (ids ends : List String) (r : Relationship)
      → touches node_id r ≡ false
      → neighbor_step node_id (ids, ends) r ≡ (ids, ends)
  unfolding neighbor_step
  step_past ids ends r e = rw e

  fold-ends :
      (rs : List Relationship) (ids ends : List String) (a : String)
      → has (foldl (neighbor_step node_id) (ids, ends) rs).1 a ≡ (has ends a || any (end_of a) rs)
  fold-ends [] ids ends a = ground arith
  fold-ends (r ∷ rs) ids ends a =
      let go : List String × List String → Bool =
        λ s. has (foldl (neighbor_step node_id) s rs).1 a in
      elim (Bool-cases (touches node_id r)) [
        | inl e ↦
            ap go (step_at ids ends r e)
            ∙ fold-ends rs (ids ++ r.id ∷ []) (ends ++ r.subject ∷ r.object ∷ []) a
            ∙ rw (e, has-append) (ground arith)
        | inr e ↦ ap go (step_past ids ends r e) ∙ fold-ends rs ids ends a ∙ rw e (ground arith)
      ]

  fold-ids :
      (rs : List Relationship) (ids ends : List String) (a : String)
      → has (foldl (neighbor_step node_id) (ids, ends) rs).0 a ≡ (has ids a || any (id_of a) rs)
  fold-ids [] ids ends a = ground arith
  fold-ids (r ∷ rs) ids ends a =
      let go : List String × List String → Bool =
        λ s. has (foldl (neighbor_step node_id) s rs).0 a in
      elim (Bool-cases (touches node_id r)) [
        | inl e ↦
            ap go (step_at ids ends r e)
            ∙ fold-ids rs (ids ++ r.id ∷ []) (ends ++ r.subject ∷ r.object ∷ []) a
            ∙ rw (e, has-append) (ground arith)
        | inr e ↦ ap go (step_past ids ends r e) ∙ fold-ids rs ids ends a ∙ rw e (ground arith)
      ]

-- The expansion of a node adds to the expanded nodes exactly the node and the ends of the visible relationships at
-- it, and to the relationships of the path exactly those relationships.
pub expand_neighbors-members :
    (w : Workspace) (source : Source) (settings : Settings) (node_id a : String)
    → let visible = source.visible_relationships settings in
      let after = expand_neighbors w source settings node_id in
      (has after.expanded_node_ids a ≡ (
        has w.expanded_node_ids a
        || (node_id == a
            || any (λ r. touches node_id r && (r.subject == a || r.object == a)) visible)))
      × (has after.path_relationship_ids a
          ≡ (has w.path_relationship_ids a || any (λ r. touches node_id r && r.id == a) visible))
unfolding expand_neighbors
expand_neighbors-members w source settings node_id a =
    let visible = source.visible_relationships settings in
    (
      rw (has-unique, has-append, fold-ends node_id visible [] [] a) refl,
      rw (has-unique, has-append, fold-ids node_id visible [] [] a) refl,
    )
