-- ===== src/Community.antt =====
-- packages/predictive/community-baselines.mjs: `neighborsFromEdges` and `connectedComponents`. A Map is a list of keys
-- with their values, a Set a list without repetitions. The two `while` loops take fuel, a round each; `none` is the
-- end of it. `localeCompare` is a parameter.
pub mod Linked
pub mod Fill
pub mod Parts
pub mod Components
pub mod Labels
pub mod Examples
use mathlib.Core.Option
use network_analytics_predic.Gates.Folds.{sort_ids}
use network_analytics_predic.Prelude.{
  has, set_add, unique, filter, not, foldl, length, if◌then◌else◌, ◌==◌, String, Bool, Option, none,
  some, List, [], ◌∷◌, ◌++◌, ℕ, zero, suc,
}

pub record Link : Type 0 where
  pub source : String
  pub target : String

abbrev pub Neighbors : Type 0
Neighbors = List (String × List String)

-- `neighbors.get(id) ?? []`
pub neighbors_at : Neighbors → String → List String
neighbors_at [] id = []
neighbors_at ((key, ids) ∷ rest) id = if key == id then ids else neighbors_at rest id

-- `if (!neighbors.has(key)) neighbors.set(key, new Set())`, then `neighbors.get(key).add(id)`. The source first makes
-- the two sets and then adds to them.
pub make_set : String → Neighbors → Neighbors
make_set key [] = (key, []) ∷ []
make_set key ((k, ids) ∷ rest) = if k == key then (k, ids) ∷ rest else (k, ids) ∷ make_set key rest

pub add_to_set : String → String → Neighbors → Neighbors
add_to_set key id [] = []
add_to_set key id ((k, ids) ∷ rest) =
    if k == key then (k, set_add ids id) ∷ rest else (k, ids) ∷ add_to_set key id rest

pub add_link : Neighbors → Link → Neighbors
unfolding make_set add_to_set
add_link neighbors link =
    add_to_set link.target link.source
      (add_to_set link.source link.target (make_set link.target (make_set link.source neighbors)))

unfoldable pub neighbors_from_edges : List Link → Neighbors
unfolding add_link
neighbors_from_edges = foldl add_link []

-- `remaining.delete(id)`
abbrev pub delete : String → List String → List String
delete id = filter (λ x. not (x == id))

-- The variables of the inner loop; the top of the stack stands first.
pub record Filling : Type 0 where
  pub remaining : List String
  pub stack : List String
  pub component : List String

-- `if (!remaining.has(neighbor)) continue; remaining.delete(neighbor); stack.push(neighbor)`
abbrev pub push_neighbor : Filling → String → Filling
push_neighbor s neighbor =
    if has s.remaining neighbor
    then record s { remaining = delete neighbor s.remaining; stack = neighbor ∷ s.stack }
    else s

pub push_neighbors : Filling → List String → Filling
push_neighbors s [] = s
push_neighbors s (n ∷ ns) = push_neighbors (push_neighbor s n) ns

-- A round of the inner loop on the node taken from the stack.
pub visit : Neighbors → Filling → String → List String → Filling
unfolding push_neighbors neighbors_at sort_ids
visit neighbors s id stack =
    push_neighbors (record s { stack = stack; component = s.component ++ id ∷ [] })
      (sort_ids (neighbors_at neighbors id))

pub fill : ℕ → Neighbors → Filling → Option Filling
unfolding visit
fill zero neighbors s = elim s.stack [ [] ↦ some s | _ ∷ _ ↦ none ]
fill (suc fuel) neighbors s = elim s.stack [
  | [] ↦ some s
  | id ∷ stack ↦ fill fuel neighbors (visit neighbors s id stack)
]

abbrev pub first_id : List String → String
first_id [] = ""
first_id (id ∷ ids) = id

abbrev pub start_filling : List String → Filling
start_filling remaining =
    let start = first_id (sort_ids remaining) in
    record { remaining = delete start remaining; stack = start ∷ []; component = [] }

-- The outer loop: the components in the order in which they are found.
pub components_loop : ℕ → Neighbors → List String → Option (List (List String))
unfolding fill sort_ids
components_loop zero neighbors remaining = elim remaining [ [] ↦ some [] | _ ∷ _ ↦ none ]
components_loop (suc fuel) neighbors remaining = elim remaining [
  | [] ↦ some []
  | id ∷ ids ↦ elim (fill (suc (length (id ∷ ids))) neighbors (start_filling (id ∷ ids))) [
    | none ↦ none
    | some s ↦ elim (components_loop fuel neighbors s.remaining) [
      | none ↦ none
      | some components ↦ some (sort_ids s.component ∷ components)
    ]
  ]
]

-- `components.sort((a, b) => a[0].localeCompare(b[0]))`, stable
pub insert_component :
    (String → String → Bool) → List String → List (List String) → List (List String)
insert_component id_before c [] = c ∷ []
insert_component id_before c (d ∷ components) =
    let rest = insert_component id_before c components in
    if id_before (first_id d) (first_id c) then d ∷ rest else c ∷ d ∷ components

pub sort_components : (String → String → Bool) → List (List String) → List (List String)
unfolding insert_component
sort_components id_before [] = []
sort_components id_before (c ∷ components) =
    insert_component id_before c (sort_components id_before components)

unfoldable pub connected_components :
    (String → String → Bool) → List String → List Link → Option (List (List String))
unfolding components_loop sort_components unique neighbors_from_edges
connected_components id_before node_ids links =
    let remaining = unique node_ids in
    Option.map (sort_components id_before)
      (components_loop (length remaining) (neighbors_from_edges links) remaining)
