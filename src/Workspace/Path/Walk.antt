-- ===== src/Workspace/Path/Walk.antt =====
-- What a path through the visible relationships is: arcs, both ways along each relationship, and
-- walks that spell out their nodes and relationships.
use network_analytics_predic.Prelude.{ℕ, zero, suc, ◌≡◌, String, List, [], ◌∷◌, ◌++◌, ◌⊎◌}
use mathlib.Core.List.{Memᴰ}
use network_analytics_predic.Graph.{Relationship}

-- Relationship `rid` joins `u` and `v`, in one direction or the other.
pub record Arc (rs : List Relationship) (u v rid : String) : Type 0 where
  pub via : Relationship
  pub listed : Memᴰ via rs
  pub named : via.id ≡ rid
  pub ends : ((via.subject ≡ u) × (via.object ≡ v)) ⊎ ((via.object ≡ u) × (via.subject ≡ v))

-- A walk from `s` to `v` of a given length.
pub data Walk (rs : List Relationship) (s : String) : ℕ → String → Type 0 where
  here : Walk rs s zero s
  step :
      {n : ℕ} {u v : String} (rid : String) → Walk rs s n u → Arc rs u v rid → Walk rs s (suc n) v

-- The same, with the lists of node and relationship ids along it.
pub data Spells (rs : List Relationship) (s : String)
    : ℕ → String → List String → List String → Type 0 where
  start : Spells rs s zero s (s ∷ []) []
  next :
      {n : ℕ} {u v : String} {nodes rids : List String} (rid : String)
      → Spells rs s n u nodes rids
      → Arc rs u v rid
      → Spells rs s (suc n) v (nodes ++ v ∷ []) (rids ++ rid ∷ [])

pub Walk-of_Spells :
    {rs : List Relationship} {s : String} {n : ℕ} {v : String} {nodes rids : List String}
    → Spells rs s n v nodes rids
    → Walk rs s n v
Walk-of_Spells start = here
Walk-of_Spells (next rid p arc) = step rid (Walk-of_Spells p) arc
