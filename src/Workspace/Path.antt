-- ===== src/Workspace/Path.antt =====
-- packages/graph-renderer/chart-workspace.mjs: `shortestPath`, a breadth-first search over the visible
-- relationships, and `setPath`. The adjacency map is a list of keys with their edges, and the
-- `while` loop takes fuel: one round for each edge target and one for the start.
pub mod Walk
pub mod Correct
pub mod Round
pub mod Layers
pub mod Fuel
pub mod Neighbours
use network_analytics_predic.Prelude.{
  ℕ, zero, suc, ◌+◌, String, true, false, ◌||◌, List, [], ◌∷◌, ◌++◌, length, has, set_add, is_empty,
  if◌then◌else◌, ◌==◌, foldl,
}
use network_analytics_predic.Graph.{Relationship, Settings, Source}
use network_analytics_predic.Workspace.State.{Workspace, edit}

-- `{ next, relationshipId }`
pub record Edge : Type 0 where
  pub next : String
  pub relationship_id : String

abbrev pub Adjacency : Type 0
Adjacency = List (String × List Edge)

-- `adjacency.get(id) ?? []`
pub edges_at : Adjacency → String → List Edge
edges_at [] id = []
edges_at ((key, edges) ∷ rest) id = if key == id then edges else edges_at rest id

-- `if (!adjacency.has(from)) adjacency.set(from, []); adjacency.get(from).push(edge)`
pub add_edge : String → Edge → Adjacency → Adjacency
add_edge from edge [] = (from, edge ∷ []) ∷ []
add_edge from edge ((key, edges) ∷ rest) =
    if key == from then (key, edges ++ edge ∷ []) ∷ rest else (key, edges) ∷ add_edge from edge rest

pub add_relationship : Adjacency → Relationship → Adjacency
unfolding add_edge
add_relationship adjacency r =
    add_edge r.object (record { next = r.subject; relationship_id = r.id })
      (add_edge r.subject (record { next = r.object; relationship_id = r.id }) adjacency)

pub adjacency_of : List Relationship → Adjacency
unfolding add_relationship
adjacency_of = foldl add_relationship []

pub record FoundPath : Type 0 where
  pub node_ids : List String
  pub relationship_ids : List String

-- An entry of the queue.
pub record Partial : Type 0 where
  pub node_id : String
  pub path : FoundPath
  pub open path use *

pub record Search : Type 0 where
  pub queue : List Partial
  pub visited : List String

abbrev pub extend : Partial → Edge → Partial
extend current edge = record {
  node_id = edge.next;
  path = record {
    node_ids = current.node_ids ++ edge.next ∷ [];
    relationship_ids = current.relationship_ids ++ edge.relationship_id ∷ [];
  };
}

abbrev pub visit : Search → Partial → Search
visit s p = record { queue = s.queue ++ p ∷ []; visited = set_add s.visited p.node_id }

-- The inner loop: it goes on with a new search state, or returns the path to the end.
pub data Scanned : Type 0 where
  go_on : Search → Scanned
  arrived : FoundPath → Scanned

pub scan : String → Partial → List Edge → Search → Scanned
scan end_id current [] s = go_on s
scan end_id current (edge ∷ edges) s = elim (has s.visited edge.next) [
  | true ↦ scan end_id current edges s
  | false ↦ elim (edge.next == end_id) [
    | true ↦ arrived (extend current edge).path
    | false ↦ scan end_id current edges (visit s (extend current edge))
  ]
]

pub data Outcome : Type 0 where
  found : FoundPath → Outcome
  exhausted out_of_fuel : Outcome

pub search_loop : ℕ → Adjacency → String → Search → Outcome
unfolding scan edges_at
search_loop zero adjacency end_id s = elim s.queue [ [] ↦ exhausted | _ ∷ _ ↦ out_of_fuel ]
search_loop (suc fuel) adjacency end_id s = elim s.queue [
  | [] ↦ exhausted
  | current ∷ rest ↦
      elim (scan end_id current (edges_at adjacency current.node_id) (record s { queue = rest })) [
        | arrived path ↦ found path
        | go_on s' ↦ search_loop fuel adjacency end_id s'
      ]
]

abbrev pub no_path : FoundPath
no_path = record { node_ids = []; relationship_ids = [] }

abbrev pub start_search : String → Search
start_search start_id = record {
  queue =
      record {
        node_id = start_id;
        path = record { node_ids = start_id ∷ []; relationship_ids = [] };
      }
      ∷ [];
  visited = start_id ∷ [];
}

abbrev pub fuel_for : List Relationship → ℕ
fuel_for rs = length rs + length rs + 1

pub run_search : List Relationship → String → String → Outcome
unfolding search_loop adjacency_of
run_search rs start_id end_id =
    search_loop (fuel_for rs) (adjacency_of rs) end_id (start_search start_id)

abbrev path_of_outcome : Outcome → FoundPath
path_of_outcome (found path) = path
path_of_outcome exhausted = no_path
path_of_outcome out_of_fuel = no_path

unfoldable pub shortest_path : Source → Settings → String → String → FoundPath
unfolding run_search
shortest_path source settings start_id end_id =
    if is_empty start_id || is_empty end_id || start_id == end_id
    then record {
      node_ids = if is_empty start_id then [] else start_id ∷ [];
      relationship_ids = [];
    }
    else path_of_outcome (run_search (source.visible_relationships settings) start_id end_id)

unfoldable pub set_path : Workspace → Source → Settings → String → String → Workspace
set_path w source settings start_id end_id =
    let path = shortest_path source settings start_id end_id in
    edit
      (λ c. record c {
        path_node_ids = path.node_ids;
        path_relationship_ids = path.relationship_ids;
      })
      w
