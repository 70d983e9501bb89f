-- ===== src/Import/Closed.antt =====
-- The graph of an imported case.
use mathlib.Core.List.{map-append}
use network_analytics_predic.Graph.{Node, Relationship}
use network_analytics_predic.Fraud.Flow.{Clock}
use network_analytics_predic.Import.Preview.{AcceptedRow}
use network_analytics_predic.Import.Workflow.{
  known_at_of, midpoint_of, add_node, nodes_from, node_for, imported_nodes, imported_relationships,
  imported_relationship,
}
use network_analytics_predic.Prelude.{
  has-unique, All-map, All-imp, inr, unique-Distinct, eq_iff, inl, sym, ◌||◌, ◌∙◌, Bool-cases, ap,
  arith, subst, ◌==◌, All, Distinct, any, foldl, refl, set_add, unique, ◌≡◌, true, String, List, [],
  ◌∷◌, ℕ, map, has,
}

abbrev ids_of : List Node → List String
ids_of = map (λ n. n.id)

any-has : (nodes : List Node) (id : String) → any (λ n. n.id == id) nodes ≡ has (ids_of nodes) id
any-has [] id = refl
any-has (n ∷ nodes) id = ap (λ b. n.id == id || b) (any-has nodes id)

node_for-id : (id kind : String) (index : ℕ) → (node_for id kind index).id ≡ id
unfolding node_for
node_for-id id kind index = refl

add_node-ids :
    (id kind : String) (nodes : List Node)
    → ids_of (add_node id kind nodes) ≡ set_add (ids_of nodes) id
unfolding set_add node_for
add_node-ids id kind nodes = elim (Bool-cases (has (ids_of nodes) id)) [
  | inl e ↦ rw (any-has nodes id, e)
  | inr e ↦ rw (any-has nodes id, e) (rw map-append)
]

-- Ids of the ends of the rows, in the order in which they first appear.
abbrev ends_of : List AcceptedRow → List String
ends_of [] = []
ends_of (row ∷ rows) = row.origin ∷ row.destination ∷ ends_of rows

nodes_from-ids :
    (nodes : List Node) (rows : List AcceptedRow)
    → ids_of (nodes_from nodes rows) ≡ foldl set_add (ids_of nodes) (ends_of rows)
nodes_from-ids nodes [] = unfold nodes_from in refl
nodes_from-ids nodes (row ∷ rows) =
    let first = add_node row.origin row.origin_kind nodes in
    let second = add_node row.destination row.destination_kind first in
    let step : nodes_from nodes (row ∷ rows) ≡ nodes_from second rows = unfold nodes_from in refl in
    ap ids_of step
    ∙ nodes_from-ids second rows
    ∙ ap (λ ids. foldl set_add ids (ends_of rows))
        (add_node-ids row.destination row.destination_kind first
          ∙ ap (λ ids. set_add ids row.destination) (add_node-ids row.origin row.origin_kind nodes))

imported_nodes-ids :
    (rows : List AcceptedRow) → ids_of (imported_nodes rows) ≡ unique (ends_of rows)
unfolding unique
imported_nodes-ids rows = nodes_from-ids [] rows

has-ends_of :
    (rows : List AcceptedRow)
    → All
        (λ r. (has (ends_of rows) r.origin ≡ true) × (has (ends_of rows) r.destination ≡ true))
        rows
has-ends_of [] = tt
has-ends_of (row ∷ rows) = (
  (
    ground (arith, eq_iff row.origin row.origin),
    ground (arith, eq_iff row.destination row.destination),
  ),
  All-imp (λ r. (has (ends_of rows) r.origin ≡ true) × (has (ends_of rows) r.destination ≡ true))
      (λ r.
        (has (ends_of (row ∷ rows)) r.origin ≡ true)
        × (has (ends_of (row ∷ rows)) r.destination ≡ true))
      rows (λ r h. (ground arith, ground arith)) (has-ends_of rows),
)

-- No two nodes of an imported case have the same id, and both ends of each relationship are nodes.
pub imported_relationships-Closed :
    (amount_text : ℕ → String) (clock : Clock) (rows : List AcceptedRow)
    → let ids = map (λ n. n.id) (imported_nodes rows) in
      Distinct ids
      × All
          (λ r. (has ids r.subject ≡ true) × (has ids r.object ≡ true))
          (imported_relationships amount_text clock rows)
unfolding imported_relationships imported_relationship
imported_relationships-Closed amount_text clock rows =
    let ids = imported_nodes-ids rows in
    (
      subst Distinct (sym ids) (unique-Distinct (ends_of rows)),
      All-map
          (λ (r : AcceptedRow).
            (has (ends_of rows) r.origin ≡ true) × (has (ends_of rows) r.destination ≡ true))
          (λ (r : Relationship).
            (has (ids_of (imported_nodes rows)) r.subject ≡ true)
            × (has (ids_of (imported_nodes rows)) r.object ≡ true))
          (imported_relationship amount_text clock (midpoint_of clock rows) (known_at_of rows)) rows
          (λ r h. (
            ap (λ xs. has xs r.origin) ids ∙ has-unique (ends_of rows) r.origin ∙ h.0,
            ap (λ xs. has xs r.destination) ids ∙ has-unique (ends_of rows) r.destination ∙ h.1,
          ))
          (has-ends_of rows),
    )
