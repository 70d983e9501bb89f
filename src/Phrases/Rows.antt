-- ===== src/Phrases/Rows.antt =====
-- packages/graph-renderer/bloom-exploration.mjs: what the rows and dependencies of a connected-node phrase are.
use network_analytics_predic.Workspace.Search.{touches}
use network_analytics_predic.Workspace.State.{Workspace}
use network_analytics_predic.Graph.{Relationship, Settings, Source, Node}
use network_analytics_predic.Phrases.Execute.{
  connected_ids, is_connection, connections, dependency_on, other_end, execute_connected, nodes_of,
}
use mathlib.Core.List.{Memᴰ}
use network_analytics_predic.Prelude.{
  ◌⊎◌, filter-Mem, All-map, has-unique, ◌&&◌, ◌∙◌, ap, filter-Mem_iff, eq_iff, inr, ◌==◌,
  Bool-cases, arith, inl, Option-cases, true, All, map, ◌≡◌, has, List, String, ◌∷◌, [], some, refl,
}

-- The nodes of a list of ids have a property that the nodes found under the ids have.
nodes_of-All {ℓ} :
    (P : Node → Type ℓ) (source : Source) (ids : List String)
    → All (λ id. (n : Node) → source.node_by_id id ≡ some n → P n) ids
    → All P (nodes_of source ids)
unfolding nodes_of
nodes_of-All P source [] h = tt
nodes_of-All P source (id ∷ ids) h = elim (Option-cases (source.node_by_id id)) [
  | inl e ↦ rw (e, nodes_of) (nodes_of-All P source ids h.1)
  | inr (n, e) ↦ rw (e, nodes_of) (h.0 n e, nodes_of-All P source ids h.1)
]

All_of_has {ℓ} :
    (P : String → Type ℓ) (ids : List String)
    → ((id : String) → has ids id ≡ true → P id)
    → All P ids
All_of_has P [] h = tt
All_of_has P (x ∷ ids) h =
    (h x (ground (arith, eq_iff x x)), All_of_has P ids (λ id k. h id (ground arith)))

has-map {ℓ} :
    {A : Type ℓ} (f : A → String) (xs : List A) (id : String)
    → has (map f xs) id ≡ true
    → (x : A) × Memᴰ x xs × (f x ≡ id)
has-map f [] id h = cc h
has-map f (x ∷ xs) id h = elim (Bool-cases (f x == id)) [
  | inl e ↦ (x, Memᴰ.head refl, (eq_iff (f x) id).0 e)
  | inr e ↦ let (y, m, same) = has-map f xs id (ground arith) in (y, Memᴰ.tail m, same)
]

-- The relationship ends at the target.
abbrev pub Ends : String → Relationship → Type 0
Ends target_id r = (r.subject ≡ target_id) ⊎ (r.object ≡ target_id)

-- One end of the relationship is the target, and the other one has an id.
abbrev pub Joins : String → String → Relationship → Type 0
Joins target_id id r =
    ((r.subject ≡ target_id) × (r.object ≡ id)) ⊎ ((r.object ≡ target_id) × (r.subject ≡ id))

touches-Ends :
    (target_id : String) (r : Relationship) → touches target_id r ≡ true → Ends target_id r
touches-Ends target_id r h = elim (Bool-cases (r.subject == target_id)) [
  | inl e ↦ inl ((eq_iff r.subject target_id).0 e)
  | inr e ↦ inr ((eq_iff r.object target_id).0 (ground (arith, h, e)))
]

other_end-Joins :
    (target_id : String) (r : Relationship)
    → touches target_id r ≡ true
    → Joins target_id (other_end target_id r) r
other_end-Joins target_id r h = elim (Bool-cases (r.subject == target_id)) [
  | inl e ↦ inl ((eq_iff r.subject target_id).0 e, rw e refl)
  | inr e ↦ inr ((eq_iff r.object target_id).0 (ground (arith, h, e)), rw e refl)
]

-- The rows of a connected-node phrase are nodes of the type that was asked for, each found under the id of one end of a
-- relationship that is visible under the settings and whose other end is the target; and the dependencies are visible
-- relationships that end at the target.
pub execute_connected-rows :
    (w : Workspace) (source : Source) (settings : Settings) (node_type target_id : String)
    → let result = execute_connected w source settings node_type target_id in
      let visible = source.visible_relationships settings in
      All
        (λ n.
          (n.type ≡ node_type)
          × ((r : Relationship) × (id : String) × Memᴰ r visible
              × Joins target_id id r
              × (source.node_by_id id ≡ some n)))
        result.rows
      × All
          (λ d. (r : Relationship) × Memᴰ r visible × Ends target_id r × (d ≡ dependency_on r))
          result.dependencies
unfolding execute_connected
execute_connected-rows w source settings node_type target_id =
    let visible = source.visible_relationships settings in
    let test = is_connection source node_type target_id in
    let found = connections source settings node_type target_id in
    (
      nodes_of-All _ source (connected_ids source settings node_type target_id) (
          All_of_has _ (connected_ids source settings node_type target_id)
            (λ id h n e. row id (has-map (other_end target_id) found id (rw has-unique at h)) n e)),
      All-map (λ r. Memᴰ r visible × (test r ≡ true))
          (λ d. (r : Relationship) × Memᴰ r visible × Ends target_id r × (d ≡ dependency_on r))
          dependency_on found
          (λ r h. (r, h.0, touches-Ends target_id r (ground (arith, h.1)), refl))
          (filter-Mem test visible),
    )
  where
    row :
        (id : String)
        → ((r : Relationship) × Memᴰ r (connections source settings node_type target_id)
            × (other_end target_id r ≡ id))
        → (n : Node) → source.node_by_id id ≡ some n
        → (n.type ≡ node_type)
          × ((r : Relationship) × (id : String) × Memᴰ r (source.visible_relationships settings)
              × Joins target_id id r
              × (source.node_by_id id ≡ some n))
    row id (r, m, same) n e =
        let test = is_connection source node_type target_id in
        let (listed, holds) = (filter-Mem_iff test (source.visible_relationships settings) r).0 m in
        let at_end : source.node_by_id (other_end target_id r) ≡ some n =
          ap source.node_by_id same ∙ e in
        let typed : (touches target_id r && n.type == node_type) ≡ true = rw at_end at holds in
        (
          (eq_iff n.type node_type).0 (ground (arith, typed)),
          (
            r,
            other_end target_id r,
            listed,
            other_end-Joins target_id r (ground (arith, typed)),
            at_end,
          ),
        )
