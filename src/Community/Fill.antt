-- ===== src/Community/Fill.antt =====
-- The inner loop of `connectedComponents` collects what is connected to its start.
use network_analytics_predic.Workspace.Path.Fuel.{List-cases}
use network_analytics_predic.Gates.Folds.{sort_ids, insert_id}
use network_analytics_predic.Community.{
  Link, neighbors_at, neighbors_from_edges, delete, Filling, push_neighbor, push_neighbors, visit,
  fill,
}
use network_analytics_predic.Community.Linked.{joined, Connected, step, has-neighbors}
use network_analytics_predic.Prelude.{
  sym, subst, has-append, inr, eq_iff, length-filter-le, ap, has-filter, inl, refl, Bool-cases,
  arith, not, ◌==◌, ◌∙◌, ◌≡◌, Bool, true, false, String, List, [], ◌∷◌, ◌++◌, ◌||◌, ◌&&◌, has,
  length, ℕ, zero, suc, ◌+◌, ◌≤◌, some,
}

has-insert_id :
    (id : String) (xs : List String) (v : String) → has (insert_id id xs) v ≡ (id == v || has xs v)
unfolding insert_id
has-insert_id id [] v = refl
has-insert_id id (x ∷ xs) v = ground (arith, has-insert_id id xs v)

pub has-sort_ids : (xs : List String) (v : String) → has (sort_ids xs) v ≡ has xs v
unfolding sort_ids
has-sort_ids [] v = refl
has-sort_ids (x ∷ xs) v =
    has-insert_id x (sort_ids xs) v ∙ ap (λ b. x == v || b) (has-sort_ids xs v)

pub has-delete :
    (id : String) (xs : List String) (v : String)
    → has (delete id xs) v ≡ (has xs v && not (v == id))
has-delete id xs v = has-filter (λ x. not (x == id)) xs v

pub length-delete :
    (id : String) (xs : List String) → has xs id ≡ true → length (delete id xs) + 1 ≤ length xs
length-delete id [] h = cc
length-delete id (x ∷ xs) h = elim (Bool-cases (x == id)) [
  | inl e ↦ rw e (omega (arith, length-filter-le (λ y. not (y == id)) xs))
  | inr e ↦ rw e (omega (arith, length-delete id xs (ground arith)))
]

-- The state after the neighbours of a node were pushed, by what is in it.
record Pushed (s t : Filling) (ns : List String) : Type 0 where
  same : t.component ≡ s.component
  left : (v : String) → has t.remaining v ≡ (has s.remaining v && not (has ns v))
  waits : (v : String) → has t.stack v ≡ (has s.stack v || (has s.remaining v && has ns v))
  work : length t.stack + length t.remaining ≤ length s.stack + length s.remaining
  fewer : length t.remaining ≤ length s.remaining

push_neighbor-Pushed : (s : Filling) (n : String) → Pushed s (push_neighbor s n) (n ∷ [])
push_neighbor-Pushed s n = elim (Bool-cases (has s.remaining n)) [
  | inl e ↦ rw e (record {
    same = refl;
    left = λ v. ground (arith, has-delete n s.remaining v, eq_iff v n, eq_iff n v);
    waits = λ v. ground (arith, e, eq_iff n v);
    work = omega (arith, length-delete n s.remaining e);
    fewer = omega (arith, length-delete n s.remaining e);
  })
  | inr e ↦ rw e (record {
    same = refl;
    left = λ v. ground (arith, e, eq_iff n v);
    waits = λ v. ground (arith, e, eq_iff n v);
    work = omega arith;
    fewer = omega arith;
  })
]

push_neighbors-Pushed : (s : Filling) (ns : List String) → Pushed s (push_neighbors s ns) ns
unfolding push_neighbors
push_neighbors-Pushed s [] = record {
  same = refl;
  left = λ v. ground arith;
  waits = λ v. ground arith;
  work = omega arith;
  fewer = omega arith;
}
push_neighbors-Pushed s (n ∷ ns) =
    let p = push_neighbor-Pushed s n in
    let q = push_neighbors-Pushed (push_neighbor s n) ns in
    record {
      same = q.same ∙ p.same;
      left = λ v. ground (arith, q.left v, p.left v);
      waits = λ v. ground (arith, q.waits v, p.waits v, p.left v);
      work = omega (arith, q.work, p.work);
      fewer = omega (arith, q.fewer, p.fewer);
    }

module _ (links : List Link) (nodes : List String) (start : String) where
  abbrev pub seen : Filling → String → Bool
  seen s v = has s.component v || has s.stack v

  -- What is in the component or on the stack is connected to the start and no longer remains, all else remains, and
  -- no node of the component has a neighbour that remains.
  pub record Inv (s : Filling) : Type 0 where
    pub reached : (v : String) → seen s v ≡ true → Connected links nodes start v
    pub split : (v : String) → has nodes v ≡ (has s.remaining v || seen s v)
    pub apart : (v : String) → has s.remaining v ≡ true → seen s v ≡ false
    pub closed :
        (v w : String)
        → has s.component v ≡ true
        → joined links v w ≡ true
        → has s.remaining w ≡ false
    pub begun : seen s start ≡ true

  visit-Inv :
      (s : Filling) (id : String) (stack : List String)
      → s.stack ≡ id ∷ stack
      → Inv s
      → Inv (visit (neighbors_from_edges links) s id stack)
  unfolding visit
  visit-Inv s id stack e inv =
      let ns = sort_ids (neighbors_at (neighbors_from_edges links) id) in
      let s0 : Filling = record s { stack = stack; component = s.component ++ id ∷ [] } in
      let t = push_neighbors s0 ns in
      let p = push_neighbors-Pushed s0 ns in
      let near : (v : String) → has ns v ≡ joined links id v = λ v.
        has-sort_ids (neighbors_at (neighbors_from_edges links) id) v ∙ has-neighbors links id v in
      let in_component : (v : String) → has t.component v ≡ (has s.component v || id == v) =
        λ v. ap (λ xs. has xs v) p.same ∙ ground (arith, has-append s.component (id ∷ []) v) in
      let on_stack : (v : String) → has s.stack v ≡ (id == v || has stack v) =
        λ v. ap (λ xs. has xs v) e in
      let seen_id : seen s id ≡ true = ground (arith, on_stack id, eq_iff id id) in
      let seen_now : (v : String)
          → seen t v ≡ (seen s v || (has s.remaining v && joined links id v)) =
        λ v. ground (arith, in_component v, on_stack v, p.waits v, near v) in
      let left_now : (v : String)
          → has t.remaining v ≡ (has s.remaining v && not (joined links id v)) =
        λ v. ground (arith, p.left v, near v) in
      record {
        reached = λ v h. elim (Bool-cases (seen s v)) [
          | inl old ↦ inv.reached v old
          | inr new ↦
              step v (inv.reached id seen_id) (ground (arith, seen_now v))
                (ground (arith, seen_now v, inv.split v))
        ];
        split = λ v. ground (arith, inv.split v, seen_now v, left_now v);
        apart = λ v h. ground (arith, inv.apart v, seen_now v, left_now v);
        closed = λ v w h j. elim (Bool-cases (has s.component v)) [
          | inl old ↦ ground (arith, inv.closed v w old j, left_now w)
          | inr new ↦
              let same : id ≡ v = (eq_iff id v).0 (ground (arith, in_component v)) in
              let joined_id : joined links id w ≡ true =
                subst (λ x. joined links x w ≡ true) (sym same) j in
              ground (arith, left_now w, joined_id)
        ];
        begun = ground (arith, inv.begun, seen_now start);
      }

  visit-work :
      (s : Filling) (id : String) (stack : List String)
      → s.stack ≡ id ∷ stack
      → let t = visit (neighbors_from_edges links) s id stack in
        (length t.stack + length t.remaining + 1 ≤ length s.stack + length s.remaining)
        × (length t.remaining ≤ length s.remaining)
  unfolding visit
  visit-work s id stack e =
      let p =
        push_neighbors-Pushed (record s { stack = stack; component = s.component ++ id ∷ [] })
          (sort_ids (neighbors_at (neighbors_from_edges links) id)) in
      (omega (arith, p.work, ap length e), omega (arith, p.fewer))

  -- With fuel for what is on the stack or remains, the loop ends, with its invariant and an empty stack.
  pub fill-Inv :
      (fuel : ℕ) (s : Filling)
      → Inv s
      → length s.stack + length s.remaining ≤ fuel
      → (t : Filling) × (fill fuel (neighbors_from_edges links) s ≡ some t)
        × Inv t
        × (t.stack ≡ [])
        × (length t.remaining ≤ length s.remaining)
  unfolding fill
  fill-Inv zero s inv h = elim (List-cases s.stack) [
    | inl e ↦ (s, simp (e, fill), inv, e, omega arith)
    | inr (id, stack, e) ↦ absurd (omega (arith, ap length e))
  ]
  fill-Inv (suc fuel) s inv h = elim (List-cases s.stack) [
    | inl e ↦ (s, simp (e, fill), inv, e, omega arith)
    | inr (id, stack, e) ↦
        let (less, fewer) = visit-work s id stack e in
        let (t, ends, kept, empty, left) =
          fill-Inv fuel (visit (neighbors_from_edges links) s id stack) (visit-Inv s id stack e inv)
            (omega (arith, less)) in
        (t, rw (e, fill) ends, kept, empty, omega (arith, left, fewer))
  ]
