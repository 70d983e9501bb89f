-- ===== src/Workspace/Path/Correct.antt =====
-- `shortestPath` returns a shortest path, or none exactly where there is none.
use network_analytics_predic.Prelude.{
  ℕ, zero, suc, ◌≤◌, ◌≡◌, refl, sym, subst, String, true, false, List, [], ◌∷◌, ◌⊎◌, inl, inr,
  arith, eq_iff, ◌==◌, ◌≢◌, has, All, is_empty,
}
use mathlib.Core.List.{Memᴰ}
use network_analytics_predic.Graph.{Relationship, Source, Settings}
use network_analytics_predic.Workspace.Path.{
  FoundPath, Edge, Partial, Search, scan, search_loop, Outcome, found, exhausted, out_of_fuel,
  adjacency_of, edges_at, run_search, start_search, fuel_for, shortest_path, no_path,
}
use network_analytics_predic.Workspace.Path.Walk.{Walk, here, step, start}
use network_analytics_predic.Workspace.Path.Neighbours.{
  neighbours, mem_of_arc, edges_at-adjacency_of,
}
use network_analytics_predic.Workspace.Path.Fuel.{
  Scanned-cases, List-cases, round_empty, loop_dry, round_arrived, round_on, loop_zero,
  run_search_terminates,
}
use network_analytics_predic.Workspace.Path.Layers.{
  len, Layers, InQueue, Layers-of_All, at_queued, IsShortest, Inv,
}
use network_analytics_predic.Workspace.Path.Round.{IsShortestPath, ScanRight, scan_right}

module _ (rs : List Relationship) (s t : String) where
  abbrev Idle : String → Type 0
  Idle u = ⊥

  -- Between two rounds: the entry in hand is done.
  settle :
      (d : ℕ) (p : Partial) (z : Search)
      → ((e : Edge) → Memᴰ e (neighbours rs p.node_id) → has z.visited e.next ≡ true)
      → Inv rs s t d (λ u. u ≡ p.node_id) z
      → Inv rs s t d Idle z
  settle d p z all inv = record {
    layers = inv.layers;
    shortest = inv.shortest;
    reached = inv.reached;
    closed = λ u h. elim (inv.closed u h) [
      | inl same ↦ inr (inr (λ e m. all e (subst (λ x. Memᴰ e (neighbours rs x)) same m)))
      | inr other ↦ inr other
    ];
    missing = inv.missing;
  }

  pop :
      (d : ℕ) (p : Partial) (rest : List Partial) (z : Search)
      → z.queue ≡ p ∷ rest
      → Layers d rest
      → Inv rs s t d Idle z
      → IsShortest rs s t p × Inv rs s t d (λ u. u ≡ p.node_id) (record z { queue = rest })
  pop d p rest z e layers inv =
      let shortest : All (IsShortest rs s t) (p ∷ rest) =
        subst (All (IsShortest rs s t)) e inv.shortest in
      (
        shortest.0,
        record {
          layers = layers;
          shortest = shortest.1;
          reached = inv.reached;
          closed = λ u h. elim (inv.closed u h) [
            | inl none ↦ absurd none
            | inr (inr done) ↦ inr (inr done)
            | inr (inl queued) ↦ elim (subst (InQueue u) e queued) [
              | inl same ↦ inl same
              | inr later ↦ inr (inl later)
            ]
          ];
          missing = inv.missing;
        },
      )

  both :
      (d : ℕ) (q : List Partial)
      → All (IsShortest rs s t) q
      → All (λ x. len x ≡ d) q
      → All (λ x. IsShortest rs s t x × (len x ≡ d)) q
  both d [] h k = tt
  both d (x ∷ q) (h, hs) (k, ks) = ((h, k), both d q hs ks)

  -- Nodes whose entries are all in the second layer have no walk as short as the first.
  past :
      (d : ℕ) (z : Search)
      → All (λ x. len x ≡ suc d) z.queue
      → Inv rs s t d Idle z
      → (k : ℕ) (u : String) → Walk rs s k u
      → k ≤ d
      → InQueue u z.queue
      → ⊥
  past d z all inv k u w near queued =
      let (p, (short, long), same) =
        at_queued (λ x. IsShortest rs s t x × (len x ≡ suc d)) u z.queue
          (both (suc d) z.queue inv.shortest all) queued in
      omega (arith, short.least k (subst (Walk rs s k) same w), long)

  reach :
      (d : ℕ) (z : Search)
      → All (λ x. len x ≡ suc d) z.queue
      → Inv rs s t d Idle z
      → {k : ℕ} {v : String} → Walk rs s k v
      → k ≤ suc d
      → has z.visited v ≡ true
  reach d z all inv here near = inv.reached 0 s here (omega arith)
  reach d z all inv (step {n} {u} {v} rid w arc) near =
      elim (inv.closed u (inv.reached n u w (omega arith))) [
        | inl none ↦ absurd none
        | inr (inl queued) ↦ absurd (past d z all inv n u w (omega arith) queued)
        | inr (inr done) ↦ done _ (mem_of_arc rs u v rid arc)
      ]

  -- Where only the second layer is left, it becomes the first.
  advance :
      (d : ℕ) (z : Search)
      → All (λ x. len x ≡ suc d) z.queue
      → Inv rs s t d Idle z
      → Inv rs s t (suc d) Idle z
  advance d z all inv = record {
    layers = Layers-of_All (suc d) z.queue all;
    shortest = inv.shortest;
    reached = λ k v w near. reach d z all inv w near;
    closed = inv.closed;
    missing = inv.missing;
  }

  -- With nothing left to expand, every walk ends in a visited node.
  drained :
      (d : ℕ) (z : Search)
      → z.queue ≡ []
      → Inv rs s t d Idle z
      → {k : ℕ} {v : String} → Walk rs s k v
      → has z.visited v ≡ true
  drained d z e inv here = inv.reached 0 s here (omega arith)
  drained d z e inv (step {n} {u} {v} rid w arc) = elim (inv.closed u (drained d z e inv w)) [
    | inl none ↦ absurd none
    | inr (inl queued) ↦ absurd (subst (InQueue u) e queued)
    | inr (inr done) ↦ done _ (mem_of_arc rs u v rid arc)
  ]

  -- What an outcome of the search promises.
  abbrev Right : Outcome → Type 0
  Right (found path) = IsShortestPath rs s t path
  Right exhausted = (k : ℕ) → ¬ Walk rs s k t
  Right out_of_fuel = Unit

  no-Walk : (d : ℕ) (z : Search) → z.queue ≡ [] → Inv rs s t d Idle z → (k : ℕ) → ¬ Walk rs s k t
  no-Walk d z e inv k w = cc (drained d z e inv w, inv.missing)

  scanned :
      (p : Partial) (z : Search) (d : ℕ) (short : IsShortest rs s t p) (at_d : len p ≡ d)
      → Inv rs s t d (λ u. u ≡ p.node_id) z
      → ScanRight rs s t d p short at_d
          (neighbours rs p.node_id)
          z.visited
          (scan t p (edges_at (adjacency_of rs) p.node_id) z)
  scanned p z d short at_d inv =
      rw (edges_at-adjacency_of rs p.node_id)
        (scan_right rs s t d p short at_d (neighbours rs p.node_id) z (λ x m. m) inv)

  -- The entry at the head is in the first layer, of this search or of the advanced one.
  head_layer :
      (d : ℕ) (z : Search) (p : Partial) (rest : List Partial)
      → z.queue ≡ p ∷ rest
      → Inv rs s t d Idle z
      → (d' : ℕ) × (len p ≡ d') × Layers d' rest × Inv rs s t d' Idle z
  head_layer d z p rest e inv = elim (subst (Layers d) e inv.layers) [
    | inl (at_d, layers) ↦ (d, at_d, layers, inv)
    | inr all ↦ (
      suc d,
      all.0,
      Layers-of_All (suc d) rest all.1,
      advance d z (subst (All (λ x. len x ≡ suc d)) (sym e) all) inv,
    )
  ]

  module _ (fuel d : ℕ) (z : Search) (p : Partial) (rest : List Partial) where
    round-Right :
        z.queue ≡ p ∷ rest
        → (at_d : len p ≡ d) → Layers d rest
        → Inv rs s t d Idle z
        → ((z' : Search) → Inv rs s t d Idle z' → Right (search_loop fuel (adjacency_of rs) t z'))
        → Right (search_loop (suc fuel) (adjacency_of rs) t z)
    round-Right e at_d layers inv rec =
        let (short, popped) = pop d p rest z e layers inv in
        let z₀ : Search = record z { queue = rest } in
        let right = scanned p z₀ d short at_d popped in
        elim (Scanned-cases (scan t p (edges_at (adjacency_of rs) p.node_id) z₀)) [
          | inr (path, r) ↦
              rw (round_arrived (adjacency_of rs) t fuel z p rest path e r) (
                subst (ScanRight rs s t d p short at_d (neighbours rs p.node_id) z.visited) r right)
          | inl (z', r) ↦
              let (inv', all, _) =
                subst (ScanRight rs s t d p short at_d (neighbours rs p.node_id) z.visited) r
                  right in
              rw (round_on (adjacency_of rs) t fuel z p rest z' e r)
                (rec z' (settle d p z' all inv'))
        ]

  loop-Right :
      (fuel d : ℕ) (z : Search)
      → Inv rs s t d Idle z
      → Right (search_loop fuel (adjacency_of rs) t z)
  loop-Right zero d z inv = elim (List-cases z.queue) [
    | inl e ↦ rw (loop_zero (adjacency_of rs) t z e) (no-Walk d z e inv)
    | inr (p, rest, e) ↦ rw (loop_dry (adjacency_of rs) t z p rest e) tt
  ]
  loop-Right (suc fuel) d z inv = elim (List-cases z.queue) [
    | inl e ↦ rw (round_empty (adjacency_of rs) t fuel z e) (no-Walk d z e inv)
    | inr (p, rest, e) ↦
        let (d', at_d, layers, inv') = head_layer d z p rest e inv in
        round-Right fuel d' z p rest e at_d layers inv' (λ z' h. loop-Right fuel d' z' h)
  ]

  start-Inv : (s == t) ≡ false → Inv rs s t 0 Idle (start_search s)
  start-Inv differ = record {
    layers = inl (refl, tt);
    shortest = (record { spelled = start; least = λ k w. omega arith }, tt);
    reached = λ k v w near. reach_zero w near;
    closed = λ u h. inr (inl (inl (sym ((eq_iff s u).0 (ground arith)))));
    missing = ground (arith, differ);
  }
    where
      reach_zero : {k : ℕ} {v : String} → Walk rs s k v → k ≤ 0 → has (s ∷ []) v ≡ true
      reach_zero here near = ground (arith, eq_iff s s)
      reach_zero (step rid w arc) near = absurd (omega arith)

  run_search-Right : (s == t) ≡ false → Right (run_search rs s t)
  unfolding run_search
  run_search-Right differ = loop-Right (fuel_for rs) 0 (start_search s) (start-Inv differ)

-- For two different ids, the search returns a path through the visible relationships that no walk
-- between them is shorter than, or there is no walk and it returns none; it never runs out of fuel.
pub run_search_correct :
    (rs : List Relationship) (start_id end_id : String)
    → start_id ≢ end_id
    → ((path : FoundPath) × (run_search rs start_id end_id ≡ found path)
        × IsShortestPath rs start_id end_id path)
      ⊎ ((run_search rs start_id end_id ≡ exhausted) × ((k : ℕ) → ¬ Walk rs start_id k end_id))
run_search_correct rs s t ne =
    by_outcome (run_search rs s t) refl (run_search-Right rs s t (ground (arith, eq_iff s t)))
  where
    by_outcome :
        (o : Outcome)
        → run_search rs s t ≡ o
        → Right rs s t o
        → ((path : FoundPath) × (run_search rs s t ≡ found path) × IsShortestPath rs s t path)
          ⊎ ((run_search rs s t ≡ exhausted) × ((k : ℕ) → ¬ Walk rs s k t))
    by_outcome (found path) e right = inl (path, e, right)
    by_outcome exhausted e right = inr (e, right)
    by_outcome out_of_fuel e right = absurd (run_search_terminates rs s t e)

-- For two different ids that are not empty, `shortestPath` returns a path through the relationships visible under
-- the settings, spelled out by its nodes and relationships, that no walk between the two is shorter than, or
-- there is no walk between them and it returns the empty path.
pub shortest_path_correct :
    (source : Source) (settings : Settings) (start_id end_id : String)
    → is_empty start_id ≡ false
    → is_empty end_id ≡ false
    → start_id ≢ end_id
    → IsShortestPath
        (source.visible_relationships settings)
        start_id
        end_id
        (shortest_path source settings start_id end_id)
      ⊎ ((shortest_path source settings start_id end_id ≡ no_path)
          × ((k : ℕ) → ¬ Walk (source.visible_relationships settings) start_id k end_id))
unfolding shortest_path
shortest_path_correct source settings s t hs ht ne =
    let differ : (s == t) ≡ false = ground (arith, eq_iff s t) in
    elim (run_search_correct (source.visible_relationships settings) s t ne) [
      | inl (path, e, right) ↦ inl (rw (hs, ht, differ) (rw e right))
      | inr (e, none) ↦ inr (rw (hs, ht, differ) (rw e), none)
    ]
