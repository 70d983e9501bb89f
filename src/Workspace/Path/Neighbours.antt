-- ===== src/Workspace/Path/Neighbours.antt =====
-- The adjacency map holds at each node the arcs that leave it, in the order of the relationships.
use network_analytics_predic.Prelude.{
  has, subst, ◌⊎◌, if◌then◌else◌, ◌≡◌, refl, sym, ap, ◌∙◌, String, Bool, true, false, List, [], ◌∷◌,
  ◌++◌, inl, inr, arith, eq_iff, ◌==◌, append_assoc, append-nil, foldl, Bool-cases,
}
use mathlib.Core.List.{Memᴰ}
use mathlib.Core.List.Memᴰ
use network_analytics_predic.Graph.{Relationship}
use network_analytics_predic.Workspace.Path.{
  Edge, Adjacency, edges_at, add_edge, add_relationship, adjacency_of,
}
use network_analytics_predic.Workspace.Path.Walk.{Arc}

abbrev edge_to : String → Relationship → Edge
edge_to next r = record { next = next; relationship_id = r.id }

abbrev when : Bool → Edge → List Edge
when true e = e ∷ []
when false e = []

-- The arcs of one relationship that leave `u`.
abbrev arcs_at : String → Relationship → List Edge
arcs_at u r =
    when (r.subject == u) (edge_to r.object r) ++ when (r.object == u) (edge_to r.subject r)

abbrev pub neighbours : List Relationship → String → List Edge
neighbours [] u = []
neighbours (r ∷ rs) u = arcs_at u r ++ neighbours rs u

edges_at-add_edge :
    (from : String) (e : Edge) (a : Adjacency) (u : String)
    → edges_at (add_edge from e a) u ≡ edges_at a u ++ when (from == u) e
unfolding edges_at add_edge
edges_at-add_edge from e [] u = ground arith
edges_at-add_edge from e ((key, edges) ∷ a) u = elim (Bool-cases (key == from)) [
  | inl same ↦ rw (same, (eq_iff key from).0 same) (split (from == u))
  | inr other ↦ rw other (
      ground (
        arith,
        other,
        edges_at-add_edge from e a u,
        eq_iff key from,
        eq_iff key u,
        eq_iff from u,
        append-nil edges,
      ))
]
  where
    split :
        (b : Bool)
        → (if b then edges ++ e ∷ [] else edges_at a u)
          ≡ (if b then edges else edges_at a u) ++ when b e
    split true = refl
    split false = sym (append-nil (edges_at a u))

edges_at-add_relationship :
    (a : Adjacency) (r : Relationship) (u : String)
    → edges_at (add_relationship a r) u ≡ edges_at a u ++ arcs_at u r
unfolding add_relationship
edges_at-add_relationship a r u =
    edges_at-add_edge r.object (edge_to r.subject r) (add_edge r.subject (edge_to r.object r) a) u
    ∙ ap (λ es. es ++ when (r.object == u) (edge_to r.subject r))
        (edges_at-add_edge r.subject (edge_to r.object r) a u)
    ∙ append_assoc (edges_at a u) _ _

edges_at-foldl :
    (a : Adjacency) (rs : List Relationship) (u : String)
    → edges_at (foldl add_relationship a rs) u ≡ edges_at a u ++ neighbours rs u
edges_at-foldl a [] u = sym (append-nil (edges_at a u))
edges_at-foldl a (r ∷ rs) u =
    edges_at-foldl (add_relationship a r) rs u
    ∙ ap (λ es. es ++ neighbours rs u) (edges_at-add_relationship a r u)
    ∙ append_assoc (edges_at a u) (arcs_at u r) (neighbours rs u)

pub edges_at-adjacency_of :
    (rs : List Relationship) (u : String) → edges_at (adjacency_of rs) u ≡ neighbours rs u
unfolding adjacency_of edges_at
edges_at-adjacency_of rs u = edges_at-foldl [] rs u

-- An edge of the list at `u` is an arc, and every arc is one.
mem-when : (b : Bool) (x e : Edge) → Memᴰ e (when b x) → (b ≡ true) × (e ≡ x)
mem-when true x e m = (refl, Memᴰ.eq_of_singleton m)
mem-when false x e m = absurd (Memᴰ.not-nil m)

weaken-Arc :
    {r : Relationship} {rs : List Relationship} {u v rid : String}
    → Arc rs u v rid
    → Arc (r ∷ rs) u v rid
weaken-Arc a = record { via = a.via; listed = Memᴰ.tail a.listed; named = a.named; ends = a.ends }

pub Arc-of_mem :
    (rs : List Relationship) (u : String) (e : Edge)
    → Memᴰ e (neighbours rs u)
    → Arc rs u e.next e.relationship_id
Arc-of_mem [] u e m = absurd (Memᴰ.not-nil m)
Arc-of_mem (r ∷ rs) u e m = elim (Memᴰ.append_cases (arcs_at u r) m) [
  | inr later ↦ weaken-Arc (Arc-of_mem rs u e later)
  | inl now ↦ elim (Memᴰ.append_cases (when (r.subject == u) (edge_to r.object r)) now) [
    | inl first ↦
        let (test, eq) = mem-when (r.subject == u) _ e first in
        record {
          via = r;
          listed = Memᴰ.head refl;
          named = ap (λ (x : Edge). x.relationship_id) (sym eq);
          ends = inl ((eq_iff r.subject u).0 test, ap (λ (x : Edge). x.next) (sym eq));
        }
    | inr second ↦
        let (test, eq) = mem-when (r.object == u) _ e second in
        record {
          via = r;
          listed = Memᴰ.head refl;
          named = ap (λ (x : Edge). x.relationship_id) (sym eq);
          ends = inr ((eq_iff r.object u).0 test, ap (λ (x : Edge). x.next) (sym eq));
        }
  ]
]

mem-when_true : (b : Bool) (x e : Edge) → b ≡ true → e ≡ x → Memᴰ e (when b x)
mem-when_true true x e b eq = Memᴰ.head eq
mem-when_true false x e b eq = cc

edge_path :
    (e : Edge) (v rid : String)
    → v ≡ e.next
    → rid ≡ e.relationship_id
    → e ≡ record { next = v; relationship_id = rid }
edge_path e v rid p q = λ i. record { next = sym p i; relationship_id = sym q i }

mem_of_ends :
    (r : Relationship) (u v rid : String)
    → r.id ≡ rid
    → ((r.subject ≡ u) × (r.object ≡ v)) ⊎ ((r.object ≡ u) × (r.subject ≡ v))
    → Memᴰ {A = Edge} (record { next = v; relationship_id = rid }) (arcs_at u r)
mem_of_ends r u v rid n (inl (s, o)) =
    Memᴰ.append_left _ (
      mem-when_true (r.subject == u) _ _ ((eq_iff r.subject u).1 s) (edge_path _ r.object r.id o n))
mem_of_ends r u v rid n (inr (o, s)) =
    Memᴰ.append_right (when (r.subject == u) (edge_to r.object r))
      (mem-when_true (r.object == u) _ _ ((eq_iff r.object u).1 o) (edge_path _ r.subject r.id s n))

mem_of_listed :
    (rs : List Relationship) (u v rid : String) (r : Relationship)
    → Memᴰ r rs
    → r.id ≡ rid
    → ((r.subject ≡ u) × (r.object ≡ v)) ⊎ ((r.object ≡ u) × (r.subject ≡ v))
    → Memᴰ {A = Edge} (record { next = v; relationship_id = rid }) (neighbours rs u)
mem_of_listed [] u v rid r m n ends = absurd (Memᴰ.not-nil m)
mem_of_listed (r₀ ∷ rs) u v rid r m n ends = elim (Memᴰ.cases_cons m) [
  | inl same ↦ Memᴰ.append_left _ (
      subst (λ x. Memᴰ {A = Edge} (record { next = v; relationship_id = rid }) (arcs_at u x)) same
        (mem_of_ends r u v rid n ends))
  | inr later ↦ Memᴰ.append_right (arcs_at u r₀) (mem_of_listed rs u v rid r later n ends)
]

pub mem_of_arc :
    (rs : List Relationship) (u v rid : String)
    → Arc rs u v rid
    → Memᴰ {A = Edge} (record { next = v; relationship_id = rid }) (neighbours rs u)
mem_of_arc rs u v rid a = mem_of_listed rs u v rid a.via a.listed a.named a.ends

-- The ends of all relationships, each way: what the search can visit.
abbrev pub targets : List Relationship → List String
targets [] = []
targets (r ∷ rs) = r.object ∷ r.subject ∷ targets rs

has_target :
    (r : Relationship) (u : String) (e : Edge)
    → Memᴰ e (arcs_at u r)
    → (e.next ≡ r.object) ⊎ (e.next ≡ r.subject)
has_target r u e m = elim (Memᴰ.append_cases (when (r.subject == u) (edge_to r.object r)) m) [
  | inl first ↦ inl (ap (λ (x : Edge). x.next) (mem-when (r.subject == u) _ e first).1)
  | inr second ↦ inr (ap (λ (x : Edge). x.next) (mem-when (r.object == u) _ e second).1)
]

pub has-targets :
    (rs : List Relationship) (u : String) (e : Edge)
    → Memᴰ e (neighbours rs u)
    → has (targets rs) e.next ≡ true
has-targets [] u e m = absurd (Memᴰ.not-nil m)
has-targets (r ∷ rs) u e m = elim (Memᴰ.append_cases (arcs_at u r) m) [
  | inr later ↦ ground (arith, has-targets rs u e later)
  | inl now ↦ ground (arith, has_target r u e now, eq_iff r.object e.next, eq_iff r.subject e.next)
]
