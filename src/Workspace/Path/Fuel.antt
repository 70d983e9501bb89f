-- ===== src/Workspace/Path/Fuel.antt =====
-- The `while` loop of `shortestPath` ends: each round takes one entry off the queue, and an entry is
-- queued only for an edge target that was not visited and now is.
use network_analytics_predic.Prelude.{
  subst, sym, ◌∙◌, ℕ, zero, suc, ◌+◌, ◌≤◌, ◌≡◌, refl, ap, ◌≢◌, String, true, false, List, [], ◌∷◌,
  ◌⊎◌, inl, inr, arith, eq_iff, ◌==◌, has, has-set_add, set_add, length, length-append, Bool-cases,
  if◌then◌else◌,
}
use mathlib.Core.List.{Memᴰ}
use network_analytics_predic.Graph.{Relationship}
use network_analytics_predic.Workspace.Path.{
  FoundPath, Scanned, found, exhausted, Edge, Partial, Search, Adjacency, extend, visit, go_on,
  arrived, scan, search_loop, out_of_fuel, adjacency_of, run_search, start_search, fuel_for,
  edges_at,
}
use network_analytics_predic.Workspace.Path.Neighbours.{targets, has-targets, edges_at-adjacency_of}

-- How many of the listed ids are not visited.
abbrev pub unseen : List String → List String → ℕ
unseen visited [] = 0
unseen visited (x ∷ xs) = (if has visited x then 0 else 1) + unseen visited xs

unseen_mono :
    (visited : List String) (x : String) (xs : List String)
    → unseen (set_add visited x) xs ≤ unseen visited xs
unseen_mono visited x [] = omega arith
unseen_mono visited x (y ∷ xs) = ground (arith, unseen_mono visited x xs, has-set_add visited x y)

unseen-set_add :
    (visited : List String) (x : String) (xs : List String)
    → has xs x ≡ true
    → has visited x ≡ false
    → unseen (set_add visited x) xs + 1 ≤ unseen visited xs
unseen-set_add visited x [] h new = cc
unseen-set_add visited x (y ∷ xs) h new = elim (Bool-cases (y == x)) [
  | inl same ↦
      let seen : has (set_add visited x) y ≡ true =
        ground (arith, has-set_add visited x y, (eq_iff y x).0 same, eq_iff x y) in
      let fresh : has visited y ≡ false = ground (arith, (eq_iff y x).0 same) in
      rw (seen, fresh) (omega (arith, unseen_mono visited x xs))
  | inr other ↦
      ground (arith, has-set_add visited x y, eq_iff x y, eq_iff y x, unseen-set_add visited x xs)
]

abbrev pub work : List String → Search → ℕ
work ts s = unseen s.visited ts + length s.queue

scan-work :
    (end_id : String) (p : Partial) (ts : List String) (edges : List Edge) (s s' : Search)
    → ((e : Edge) → Memᴰ e edges → has ts e.next ≡ true)
    → scan end_id p edges s ≡ go_on s'
    → work ts s' ≤ work ts s
unfolding scan
scan-work end_id p ts [] s s' known h = ground arith
scan-work end_id p ts (e ∷ edges) s s' known h = elim (Bool-cases (has s.visited e.next)) [
  | inl old ↦ scan-work end_id p ts edges s s' (λ x m. known x (Memᴰ.tail m)) (rw (old, scan) at h)
  | inr new ↦ elim (Bool-cases (e.next == end_id)) [
    | inl hit ↦ absurd (cc (rw (new, hit, scan) at h))
    | inr miss ↦
        let later : work ts s' ≤ work ts (visit s (extend p e)) =
          scan-work end_id p ts edges (visit s (extend p e)) s' (λ x m. known x (Memᴰ.tail m))
            (rw (new, miss, scan) at h) in
        omega (
          arith,
          later,
          unseen-set_add s.visited e.next ts (known e (Memᴰ.head refl)) new,
          length-append s.queue (extend p e ∷ []),
        )
  ]
]

pub Scanned-cases :
    (r : Scanned) → ((s : Search) × (r ≡ go_on s)) ⊎ ((path : FoundPath) × (r ≡ arrived path))
Scanned-cases (go_on s) = inl (s, refl)
Scanned-cases (arrived path) = inr (path, refl)

pub List-cases {ℓ} :
    {A : Type ℓ} (xs : List A) → (xs ≡ []) ⊎ ((x : A) × (rest : List A) × (xs ≡ x ∷ rest))
List-cases [] = inl refl
List-cases (x ∷ xs) = inr (x, xs, refl)

-- One round of the loop, by what the inner loop returns.
module _ (a : Adjacency) (end_id : String) (fuel : ℕ) (s : Search) where
  pub round_empty : s.queue ≡ [] → search_loop (suc fuel) a end_id s ≡ exhausted
  unfolding search_loop
  round_empty e = rw (e, search_loop)

  pub round_arrived :
      (p : Partial) (rest : List Partial) (path : FoundPath)
      → s.queue ≡ p ∷ rest
      → scan end_id p (edges_at a p.node_id) (record s { queue = rest }) ≡ arrived path
      → search_loop (suc fuel) a end_id s ≡ found path
  unfolding search_loop
  round_arrived p rest path e r = rw (e, search_loop) (rw r)

  pub round_on :
      (p : Partial) (rest : List Partial) (s' : Search)
      → s.queue ≡ p ∷ rest
      → scan end_id p (edges_at a p.node_id) (record s { queue = rest }) ≡ go_on s'
      → search_loop (suc fuel) a end_id s ≡ search_loop fuel a end_id s'
  unfolding search_loop
  round_on p rest s' e r = rw (e, search_loop) (rw r)

pub loop_zero :
    (a : Adjacency) (end_id : String) (s : Search)
    → s.queue ≡ []
    → search_loop 0 a end_id s ≡ exhausted
unfolding search_loop
loop_zero a end_id s e = rw (e, search_loop)

pub loop_dry :
    (a : Adjacency) (end_id : String) (s : Search) (p : Partial) (rest : List Partial)
    → s.queue ≡ p ∷ rest
    → search_loop 0 a end_id s ≡ out_of_fuel
unfolding search_loop
loop_dry a end_id s p rest e = rw (e, search_loop)

-- With as much fuel as there is work, the loop does not run out of it.
pub loop_ends :
    (rs : List Relationship) (end_id : String) (fuel : ℕ) (s : Search)
    → work (targets rs) s ≤ fuel
    → search_loop fuel (adjacency_of rs) end_id s ≢ out_of_fuel
loop_ends rs end_id zero s h out = elim (List-cases s.queue) [
  | inl e ↦ cc (loop_zero (adjacency_of rs) end_id s e)
  | inr (p, rest, e) ↦ absurd (omega (arith, ap length e))
]
loop_ends rs end_id (suc fuel) s h out = elim (List-cases s.queue) [
  | inl e ↦ cc (round_empty (adjacency_of rs) end_id fuel s e)
  | inr (p, rest, e) ↦
      elim (Scanned-cases
        (scan end_id p (edges_at (adjacency_of rs) p.node_id) (record s { queue = rest }))) [
          | inr (path, r) ↦ cc (round_arrived (adjacency_of rs) end_id fuel s p rest path e r)
          | inl (s', r) ↦
              let less : work (targets rs) s' ≤ work (targets rs) (record s { queue = rest }) =
                scan-work end_id p (targets rs) (edges_at (adjacency_of rs) p.node_id)
                  (record s { queue = rest }) s'
                  (λ x m.
                    has-targets rs p.node_id x
                      (subst (Memᴰ x) (edges_at-adjacency_of rs p.node_id) m))
                  r in
              loop_ends rs end_id fuel s' (omega (arith, less, ap length e))
                (sym (round_on (adjacency_of rs) end_id fuel s p rest s' e r) ∙ out)
        ]
]

length-targets : (rs : List Relationship) → length (targets rs) ≡ length rs + length rs
length-targets [] = omega arith
length-targets (r ∷ rs) = omega (arith, length-targets rs)

unseen_le : (visited xs : List String) → unseen visited xs ≤ length xs
unseen_le visited [] = omega arith
unseen_le visited (x ∷ xs) = ground (arith, unseen_le visited xs)

-- The fuel of `shortestPath` is enough for every graph and every pair of ends.
pub run_search_terminates :
    (rs : List Relationship) (start_id end_id : String)
    → run_search rs start_id end_id ≢ out_of_fuel
unfolding run_search
run_search_terminates rs start_id end_id =
    loop_ends rs end_id (fuel_for rs) (start_search start_id)
      (omega (arith, length-targets rs, unseen_le (start_id ∷ []) (targets rs)))
