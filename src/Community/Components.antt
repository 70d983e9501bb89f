-- ===== src/Community/Components.antt =====
-- The components that `connectedComponents` finds are the classes of connected nodes.
use network_analytics_predic.Community.Parts.{
  any-sort_components, sort_components-IsApart, covers-Apart, sort_components-All, IsClass, Parts,
}
use network_analytics_predic.Gates.Folds.{sort_ids}
use network_analytics_predic.Community.{
  Link, neighbors_from_edges, delete, Filling, fill, first_id, start_filling, components_loop,
  sort_components, connected_components,
}
use network_analytics_predic.Community.Linked.{joined, joined_sym, Connected, here, step}
use network_analytics_predic.Community.Fill.{
  Inv, seen, fill-Inv, has-sort_ids, has-delete, length-delete,
}
use network_analytics_predic.Prelude.{
  has-unique, inr, inl, refl, Bool-cases, sym, ap, eq_iff, arith, subst, ◌∙◌, ◌≡◌, Bool, true,
  String, List, [], ◌∷◌, has, length, ℕ, zero, suc, ◌≤◌, some, unique,
}

has-first_id : (xs : List String) (a : String) → has xs a ≡ true → has xs (first_id xs) ≡ true
has-first_id [] a h = cc
has-first_id (x ∷ xs) a h = ground (arith, eq_iff x x)

module _ (links : List Link) (nodes : List String) where
  -- The nodes that remain are nodes, and have no neighbours but those that remain.
  record Rest (remaining : List String) : Type 0 where
    sub : (v : String) → has remaining v ≡ true → has nodes v ≡ true
    closed :
        (v w : String)
        → has remaining v ≡ true
        → joined links v w ≡ true
        → has nodes w ≡ true
        → has remaining w ≡ true

  start-Inv :
      (remaining : List String) (start : String)
      → has remaining start ≡ true
      → Inv links remaining start
          (record { remaining = delete start remaining; stack = start ∷ []; component = [] })
  start-Inv remaining start h = record {
    reached =
        λ v m. subst (Connected links remaining start) ((eq_iff start v).0 (ground arith)) (here h);
    split = λ v. ground (arith, has-delete start remaining v, eq_iff start v, eq_iff v start);
    apart = λ v m. ground (arith, has-delete start remaining v, eq_iff start v, eq_iff v start);
    closed = λ v w m j. cc;
    begun = ground (arith, eq_iff start start);
  }

  module _ (remaining : List String) (start : String) (s : Filling)
      (inv : Inv links remaining start s) (empty : s.stack ≡ []) where
    seen-component : (v : String) → seen links remaining start s v ≡ has s.component v
    seen-component v = ground (arith, ap (λ xs. has xs v) empty)

    complete : (v : String) → Connected links remaining start v → has s.component v ≡ true
    complete v (here h) = ground (arith, seen-component start, inv.begun)
    complete v (step {v = u} w c j h) =
        ground (arith, inv.closed u w (complete u c) j, inv.split w, seen-component w)

    sound : (v : String) → has s.component v ≡ true → Connected links remaining start v
    sound v h = inv.reached v (seen-component v ∙ h)

    widen :
        (v : String)
        → Rest remaining
        → Connected links remaining start v
        → Connected links nodes start v
    widen v r (here h) = here (r.sub start h)
    widen v r (step {v = u} w c j h) = step w (widen u r c) j (r.sub w h)

    ends_in : {v : String} → Connected links remaining start v → has remaining v ≡ true
    ends_in (here h) = h
    ends_in (step w c j h) = h

    narrow :
        (v : String)
        → Rest remaining
        → has remaining start ≡ true
        → Connected links nodes start v
        → Connected links remaining start v
    narrow v r b (here h) = here b
    narrow v r b (step {v = u} w c j h) =
        let before = narrow u r b c in step w before j (r.closed u w (ends_in before) j h)

    component-IsClass :
        Rest remaining → has remaining start ≡ true → IsClass links nodes (sort_ids s.component)
    component-IsClass r b = (
      start,
      r.sub start b,
      λ v. (
        λ h. widen v r (sound v (sym (has-sort_ids s.component v) ∙ h)),
        λ c. has-sort_ids s.component v ∙ complete v (narrow v r b c),
      ),
    )

    Rest-next : Rest remaining → Rest s.remaining
    Rest-next r = record {
      sub = λ v h. r.sub v (ground (arith, inv.split v));
      closed = λ v w h j m.
          let was : has remaining w ≡ true = r.closed v w (ground (arith, inv.split v)) j m in
          elim (Bool-cases (has s.component w)) [
            | inl c ↦ absurd (cc (inv.closed w v c (joined_sym links w v ∙ j), h))
            | inr n ↦ ground (arith, inv.split w, seen-component w)
          ];
    }

  loop_round :
      (fuel : ℕ) (x : String) (xs : List String) (s : Filling) (cs : List (List String))
      → fill (suc (length (x ∷ xs))) (neighbors_from_edges links) (start_filling (x ∷ xs)) ≡ some s
      → components_loop fuel (neighbors_from_edges links) s.remaining ≡ some cs
      → components_loop (suc fuel) (neighbors_from_edges links) (x ∷ xs)
        ≡ some (sort_ids s.component ∷ cs)
  unfolding components_loop
  loop_round fuel x xs s cs ends rest = rw (ends, components_loop) (rw rest)

  -- With a round for each node that remains, the outer loop ends with the classes of those nodes.
  components_loop-Parts :
      (fuel : ℕ) (remaining : List String)
      → Rest remaining
      → length remaining ≤ fuel
      → (cs : List (List String)) × (components_loop fuel (neighbors_from_edges links) remaining
          ≡ some cs)
        × Parts links nodes remaining cs
  unfolding components_loop
  components_loop-Parts zero [] r h =
      ([], refl, record { classes = tt; apart = tt; covers = λ v. refl })
  components_loop-Parts zero (x ∷ xs) r h = absurd (omega arith)
  components_loop-Parts (suc fuel) [] r h =
      ([], refl, record { classes = tt; apart = tt; covers = λ v. refl })
  components_loop-Parts (suc fuel) (x ∷ xs) r h =
      let remaining = x ∷ xs in
      let start = first_id (sort_ids remaining) in
      let first : has remaining x ≡ true = ground (arith, eq_iff x x) in
      let b : has remaining start ≡ true =
        sym (has-sort_ids remaining start)
        ∙ has-first_id (sort_ids remaining) x (has-sort_ids remaining x ∙ first) in
      let shorter = length-delete start remaining b in
      let (s, ends, inv, empty, fewer) =
        fill-Inv links remaining start (suc (length remaining)) (start_filling remaining)
          (start-Inv remaining start b) (omega (arith, shorter)) in
      let (cs, rest, parts) =
        components_loop-Parts fuel s.remaining (Rest-next remaining start s inv empty r)
          (omega (arith, fewer, shorter)) in
      (
        sort_ids s.component ∷ cs,
        loop_round fuel x xs s cs ends rest,
        record {
          classes = (component-IsClass remaining start s inv empty r b, parts.classes);
          apart = (
            covers-Apart (sort_ids s.component) cs (λ v m. ground (
              arith,
              parts.covers v,
              has-sort_ids s.component v,
              inv.apart v,
              seen-component remaining start s inv empty v,
            )),
            parts.apart,
          );
          covers = λ v. ground (
            arith,
            parts.covers v,
            has-sort_ids s.component v,
            inv.split v,
            seen-component remaining start s inv empty v,
          );
        },
      )

-- Whatever the nodes and the links, the search ends, and each of its lists holds exactly the nodes that are
-- connected with one node of it by links among the given nodes. No two lists share a node, and together they
-- hold exactly the given nodes.
pub connected_components-Parts :
    (id_before : String → String → Bool) (node_ids : List String) (links : List Link)
    → (cs : List (List String)) × (connected_components id_before node_ids links ≡ some cs)
      × Parts links node_ids node_ids cs
unfolding connected_components
connected_components-Parts id_before node_ids links =
    let remaining = unique node_ids in
    let same : (v : String) → has remaining v ≡ has node_ids v = has-unique node_ids in
    let (cs, ends, p) =
      components_loop-Parts links node_ids (length remaining) remaining
        (record { sub = λ v h. sym (same v) ∙ h; closed = λ v w h j m. same w ∙ m })
        (omega arith) in
    (
      sort_components id_before cs,
      rw ends,
      record {
        classes = sort_components-All id_before (IsClass links node_ids) cs p.classes;
        apart = sort_components-IsApart id_before cs p.apart;
        covers = λ v. any-sort_components id_before v cs ∙ p.covers v ∙ same v;
      },
    )
