-- ===== src/Workspace/Path/Round.antt =====
-- One round of the search keeps the invariant, or arrives by a shortest path.
use network_analytics_predic.Prelude.{
  ℕ, ◌≤◌, ◌≡◌, refl, sym, subst, String, true, false, List, [], ◌∷◌, ◌++◌, ◌⊎◌, inl, inr, arith,
  eq_iff, ◌==◌, has, has-set_add, set_add, length, Bool-cases, All-append,
}
use mathlib.Core.List.{Memᴰ}
use mathlib.Core.List.Memᴰ
use network_analytics_predic.Graph.{Relationship}
use network_analytics_predic.Workspace.Path.{
  FoundPath, Edge, Partial, Search, extend, visit, Scanned, go_on, arrived, scan,
}
use network_analytics_predic.Workspace.Path.Walk.{Walk, Spells}
use network_analytics_predic.Workspace.Path.Neighbours.{neighbours}
use network_analytics_predic.Workspace.Path.Layers.{
  len, InQueue, InQueue-snoc, InQueue-last, Layers-snoc, IsShortest, Closed, Inv, Spells-extend,
  len-extend, least_extend,
}

has-visited : (v : List String) (x a : String) → has v a ≡ true → has (set_add v x) a ≡ true
has-visited v x a h = ground (arith, has-set_add v x a)

module _ (rs : List Relationship) (s t : String) where
  -- A path that the specification accepts.
  pub record IsShortestPath (path : FoundPath) : Type 0 where
    pub spelled : Spells rs s (length path.relationship_ids) t path.node_ids path.relationship_ids
    pub least : (k : ℕ) → Walk rs s k t → length path.relationship_ids ≤ k

  module _ (d : ℕ) (p : Partial) (short : IsShortest rs s t p) (at_d : len p ≡ d) where
    abbrev pub Busy : String → Type 0
    Busy u = u ≡ p.node_id

    visit-Inv :
        (z : Search) (e : Edge)
        → Memᴰ e (neighbours rs p.node_id)
        → has z.visited e.next ≡ false
        → (e.next == t) ≡ false
        → Inv rs s t d Busy z
        → Inv rs s t d Busy (visit z (extend p e))
    visit-Inv z e m new miss inv = record {
      layers = Layers-snoc d z.queue (extend p e) inv.layers (len-extend rs s t d p short at_d e);
      shortest = All-append (IsShortest rs s t) z.queue (extend p e ∷ []) inv.shortest (
        record {
          spelled = Spells-extend rs s t d p short at_d e m;
          least = least_extend rs s t d p short at_d z e Busy inv new;
        },
        tt,
      );
      reached = λ k v w near. has-visited z.visited e.next v (inv.reached k v w near);
      closed = λ u h. closed_by u h (Bool-cases (has z.visited u));
      missing = ground (arith, inv.missing, has-set_add z.visited e.next t, miss);
    }
      where
        closed_by :
            (u : String)
            → has (set_add z.visited e.next) u ≡ true
            → (has z.visited u ≡ true) ⊎ (has z.visited u ≡ false)
            → Busy u
              ⊎ (InQueue u (z.queue ++ extend p e ∷ [])
                  ⊎ Closed rs s t (set_add z.visited e.next) u)
        closed_by u h (inl old) = elim (inv.closed u old) [
          | inl busy ↦ inl busy
          | inr (inl queued) ↦ inr (inl (InQueue-snoc u z.queue (extend p e) queued))
          | inr (inr done) ↦ inr (inr (λ x mx. has-visited z.visited e.next x.next (done x mx)))
        ]
        closed_by u h (inr fresh) =
            let same : e.next ≡ u =
              (eq_iff e.next u).0 (ground (arith, has-set_add z.visited e.next u)) in
            inr (
              inl (
                subst (λ x. InQueue x (z.queue ++ extend p e ∷ [])) same
                  (InQueue-last z.queue (extend p e))))

    -- What the inner loop returns is right.
    abbrev pub ScanRight : List Edge → List String → Scanned → Type 0
    ScanRight edges visited (arrived path) = IsShortestPath path
    ScanRight edges visited (go_on z) =
        Inv rs s t d Busy z
        × ((e : Edge) → Memᴰ e edges → has z.visited e.next ≡ true)
        × ((a : String) → has visited a ≡ true → has z.visited a ≡ true)

    more :
        (e : Edge) (edges : List Edge) (v v' : List String) (r : Scanned)
        → ((a : String) → has v a ≡ true → has v' a ≡ true)
        → has v' e.next ≡ true
        → ScanRight edges v' r
        → ScanRight (e ∷ edges) v r
    more e edges v v' (arrived path) grow seen h = h
    more e edges v v' (go_on z) grow seen (inv, all, mono) = (
      inv,
      λ x m. elim (Memᴰ.cases_cons m) [
        | inl same ↦ mono x.next (rw same seen)
        | inr later ↦ all x later
      ],
      λ a h. mono a (grow a h),
    )

    pub scan_right :
        (edges : List Edge) (z : Search)
        → ((e : Edge) → Memᴰ e edges → Memᴰ e (neighbours rs p.node_id))
        → Inv rs s t d Busy z
        → ScanRight edges z.visited (scan t p edges z)
    unfolding scan
    scan_right [] z sub inv = (inv, λ e m. absurd (Memᴰ.not-nil m), λ a h. h)
    scan_right (e ∷ edges) z sub inv = elim (Bool-cases (has z.visited e.next)) [
      | inl old ↦
          rw (old, scan)
            (more e edges z.visited z.visited _ (λ a h. h) old
              (scan_right edges z (λ x m. sub x (Memᴰ.tail m)) inv))
      | inr new ↦ elim (Bool-cases (e.next == t)) [
        | inl hit ↦ rw (new, scan) (rw hit (arrive new ((eq_iff e.next t).0 hit)))
        | inr miss ↦
            let z' = visit z (extend p e) in
            rw (new, scan)
              (rw miss (
                more e edges z.visited z'.visited _ (has-visited z.visited e.next)
                  (ground (arith, has-set_add z.visited e.next e.next, eq_iff e.next e.next))
                  (scan_right edges z' (λ x m. sub x (Memᴰ.tail m))
                    (visit-Inv z e (sub e (Memᴰ.head refl)) new miss inv))))
      ]
    ]
      where
        arrive : has z.visited e.next ≡ false → e.next ≡ t → IsShortestPath (extend p e).path
        arrive new same = record {
          spelled =
              subst
                (λ v.
                  Spells rs s (len (extend p e)) v (p.node_ids ++ e.next ∷ [])
                    (extend p e).relationship_ids)
                same (Spells-extend rs s t d p short at_d e (sub e (Memᴰ.head refl)));
          least = λ k w.
              least_extend rs s t d p short at_d z e Busy inv new k
                (subst (Walk rs s k) (sym same) w);
        }
