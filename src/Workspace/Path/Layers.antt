-- ===== src/Workspace/Path/Layers.antt =====
-- The invariant of the breadth-first search: the queue is spelled out by walks that are shortest, in
-- two layers, and every walk up to the first layer ends in a visited node.
use network_analytics_predic.Prelude.{
  ℕ, suc, ◌≤◌, ◌≡◌, refl, subst, String, true, false, List, [], ◌∷◌, ◌++◌, ◌⊎◌, inl, inr, arith,
  has, length, length-append, All, All-append,
}
use native.Mathlib.Decide.{dec_le}
use mathlib.Core.List.{Memᴰ}
use network_analytics_predic.Graph.{Relationship}
use network_analytics_predic.Workspace.Path.{Edge, Partial, Search, extend}
use network_analytics_predic.Workspace.Path.Walk.{Walk, Spells, next}
use network_analytics_predic.Workspace.Path.Neighbours.{neighbours, Arc-of_mem}

abbrev pub len : Partial → ℕ
len p = length p.relationship_ids

-- Entries of length `d`, then entries of length `d + 1`.
abbrev pub Layers : ℕ → List Partial → Type 0
Layers d [] = Unit
Layers d (p ∷ q) = ((len p ≡ d) × Layers d q) ⊎ All (λ x. len x ≡ suc d) (p ∷ q)

abbrev pub InQueue : String → List Partial → Type 0
InQueue u [] = ⊥
InQueue u (p ∷ q) = (u ≡ p.node_id) ⊎ InQueue u q

pub InQueue-snoc :
    (u : String) (q : List Partial) (p : Partial) → InQueue u q → InQueue u (q ++ p ∷ [])
InQueue-snoc u [] p h = elim h [ ]
InQueue-snoc u (x ∷ q) p (inl e) = inl e
InQueue-snoc u (x ∷ q) p (inr h) = inr (InQueue-snoc u q p h)

pub InQueue-last : (q : List Partial) (p : Partial) → InQueue p.node_id (q ++ p ∷ [])
InQueue-last [] p = inl refl
InQueue-last (x ∷ q) p = inr (InQueue-last q p)

pub Layers-snoc :
    (d : ℕ) (q : List Partial) (p : Partial) → Layers d q → len p ≡ suc d → Layers d (q ++ p ∷ [])
Layers-snoc d [] p l e = inr (e, tt)
Layers-snoc d (x ∷ q) p (inl (e₀, l)) e = inl (e₀, Layers-snoc d q p l e)
Layers-snoc d (x ∷ q) p (inr all) e =
    inr (All-append (λ y. len y ≡ suc d) (x ∷ q) (p ∷ []) all (e, tt))

pub Layers-of_All : (d : ℕ) (q : List Partial) → All (λ x. len x ≡ d) q → Layers d q
Layers-of_All d [] h = tt
Layers-of_All d (x ∷ q) (e, h) = inl (e, Layers-of_All d q h)

-- A property of all entries, at the entry of a queued node.
pub at_queued {κ} :
    (P : Partial → Type κ) (u : String) (q : List Partial)
    → All P q
    → InQueue u q
    → (p : Partial) × P p × (u ≡ p.node_id)
at_queued P u [] all h = elim h [ ]
at_queued P u (x ∷ q) (px, all) (inl e) = (x, px, e)
at_queued P u (x ∷ q) (px, all) (inr h) = at_queued P u q all h

module _ (rs : List Relationship) (s t : String) where
  -- The entry is a walk from the start, and no walk to its node is shorter.
  pub record IsShortest (p : Partial) : Type 0 where
    pub spelled : Spells rs s (len p) p.node_id p.node_ids p.relationship_ids
    pub least : (k : ℕ) → Walk rs s k p.node_id → len p ≤ k

  abbrev pub Closed : List String → String → Type 0
  Closed visited u = (e : Edge) → Memᴰ e (neighbours rs u) → has visited e.next ≡ true

  -- `busy` is the node in hand, whose edges are being scanned.
  pub record Inv (d : ℕ) (busy : String → Type 0) (z : Search) : Type 0 where
    pub layers : Layers d z.queue
    pub shortest : All IsShortest z.queue
    pub reached : (k : ℕ) (v : String) → Walk rs s k v → k ≤ d → has z.visited v ≡ true
    pub closed :
        (u : String) → has z.visited u ≡ true → busy u ⊎ (InQueue u z.queue ⊎ Closed z.visited u)
    pub missing : has z.visited t ≡ false

  module _ (d : ℕ) (p : Partial) (short : IsShortest p) (at_d : len p ≡ d) where
    pub Spells-extend :
        (e : Edge)
        → Memᴰ e (neighbours rs p.node_id)
        → Spells rs s (len (extend p e)) e.next (extend p e).node_ids (extend p e).relationship_ids
    Spells-extend e m =
        subst (λ n. Spells rs s n e.next (extend p e).node_ids (extend p e).relationship_ids)
          (omega (arith, length-append p.relationship_ids (e.relationship_id ∷ [])))
          (next e.relationship_id short.spelled (Arc-of_mem rs p.node_id e m))

    pub len-extend : (e : Edge) → len (extend p e) ≡ suc d
    len-extend e = omega (arith, length-append p.relationship_ids (e.relationship_id ∷ []))

    pub least_extend :
        (z : Search) (e : Edge) (busy : String → Type 0)
        → Inv d busy z
        → has z.visited e.next ≡ false
        → (k : ℕ) → Walk rs s k e.next
        → len (extend p e) ≤ k
    least_extend z e busy inv new k w = elim (dec_le k d) [
      | yes near ↦ absurd (cc (inv.reached k e.next w near))
      | no far ↦ omega (arith, len-extend e)
    ]
