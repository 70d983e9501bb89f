-- ===== src/Timeline/Order.antt =====
-- packages/graph-renderer/graph-model.mjs: `visibleEdgesWithNodes` lists the visible relationships by time.
use network_analytics_predic.Graph.{Source, Settings}
use network_analytics_predic.Timeline.Split.{
  timed_edge, comes_before, Clock, TimedEdge, insert_edge, sort_edges, visible_edges,
}
use mathlib.Core.List.{Memᴰ}
use mathlib.Core.List.Memᴰ
use network_analytics_predic.Prelude.{
  refl, arith, inr, map, ◌+◌, inl, ◌≡◌, Bool-cases, length, ◌↔◌, ◌≤◌, List, ◌∷◌, [],
}

abbrev pub Chronological : List TimedEdge → Type 0
Chronological [] = Unit
Chronological (x ∷ []) = Unit
Chronological (x ∷ y ∷ rest) = (x.at_ms ≤ y.at_ms) × Chronological (y ∷ rest)

insert-Chronological :
    (clock : Clock) (e : TimedEdge) (xs : List TimedEdge)
    → Chronological xs
    → Chronological (insert_edge clock e xs)
unfolding insert_edge
insert-Chronological clock e [] h = tt
insert-Chronological clock e (x ∷ []) h = elim (Bool-cases (comes_before clock e x)) [
  | inl t ↦ rw t (ground arith, tt)
  | inr f ↦ rw f (ground arith, tt)
]
insert-Chronological clock e (x ∷ y ∷ xs) h = elim (Bool-cases (comes_before clock e x)) [
  | inl t ↦ rw t (ground arith, h)
  | inr f ↦
      let later = insert-Chronological clock e (y ∷ xs) h.1 in
      elim (Bool-cases (comes_before clock e y)) [
        | inl t ↦ rw (f, t) (ground arith, rw t at later)
        | inr g ↦ rw (f, g) (h.0, rw g at later)
      ]
]

sort-Chronological : (clock : Clock) (xs : List TimedEdge) → Chronological (sort_edges clock xs)
unfolding sort_edges
sort-Chronological clock [] = tt
sort-Chronological clock (x ∷ xs) =
    insert-Chronological clock x (sort_edges clock xs) (sort-Chronological clock xs)

insert-Mem :
    (clock : Clock) (e a : TimedEdge) (xs : List TimedEdge)
    → Memᴰ a (insert_edge clock e xs) ↔ Memᴰ a (e ∷ xs)
unfolding insert_edge
insert-Mem clock e a [] = (λ m. m, λ m. m)
insert-Mem clock e a (x ∷ xs) = elim (Bool-cases (comes_before clock e x)) [
  | inl t ↦ rw t (λ m. m, λ m. m)
  | inr f ↦
      let later = insert-Mem clock e a xs in
      rw f (
        λ m. elim (Memᴰ.cases_cons m) [
          | inl same ↦ Memᴰ.tail (Memᴰ.head same)
          | inr rest ↦ elim (Memᴰ.cases_cons (later.0 rest)) [
            | inl same ↦ Memᴰ.head same
            | inr deep ↦ Memᴰ.tail (Memᴰ.tail deep)
          ]
        ],
        λ m. elim (Memᴰ.cases_cons m) [
          | inl same ↦ Memᴰ.tail (later.1 (Memᴰ.head same))
          | inr rest ↦ elim (Memᴰ.cases_cons rest) [
            | inl same ↦ Memᴰ.head same
            | inr deep ↦ Memᴰ.tail (later.1 (Memᴰ.tail deep))
          ]
        ],
      )
]

sort-Mem :
    (clock : Clock) (a : TimedEdge) (xs : List TimedEdge) → Memᴰ a (sort_edges clock xs) ↔ Memᴰ a xs
unfolding sort_edges
sort-Mem clock a [] = (λ m. m, λ m. m)
sort-Mem clock a (x ∷ xs) =
    let at_head = insert-Mem clock x a (sort_edges clock xs) in
    let rest = sort-Mem clock a xs in
    (
      λ m. elim (Memᴰ.cases_cons (at_head.0 m)) [
        | inl same ↦ Memᴰ.head same
        | inr later ↦ Memᴰ.tail (rest.0 later)
      ],
      λ m. elim (Memᴰ.cases_cons m) [
        | inl same ↦ at_head.1 (Memᴰ.head same)
        | inr later ↦ at_head.1 (Memᴰ.tail (rest.1 later))
      ],
    )

length-insert :
    (clock : Clock) (e : TimedEdge) (xs : List TimedEdge)
    → length (insert_edge clock e xs) ≡ length xs + 1
unfolding insert_edge
length-insert clock e [] = refl
length-insert clock e (x ∷ xs) = elim (Bool-cases (comes_before clock e x)) [
  | inl t ↦ rw t (omega arith)
  | inr f ↦ rw f (omega (arith, length-insert clock e xs))
]

length-sort : (clock : Clock) (xs : List TimedEdge) → length (sort_edges clock xs) ≡ length xs
unfolding sort_edges
length-sort clock [] = refl
length-sort clock (x ∷ xs) =
    omega (arith, length-insert clock x (sort_edges clock xs), length-sort clock xs)

-- The edges of the timeline are the visible relationships with their nodes and times, as many as there are, and
-- no edge is before the one that precedes it in the list.
pub visible_edges-Chronological :
    (clock : Clock) (settings : Settings) (source : Source) (a : TimedEdge)
    → let edges = visible_edges clock settings source in
      let visible = map (timed_edge clock source) (source.visible_relationships settings) in
      Chronological edges × (Memᴰ a edges ↔ Memᴰ a visible) × (length edges ≡ length visible)
unfolding visible_edges
visible_edges-Chronological clock settings source a =
    let visible = map (timed_edge clock source) (source.visible_relationships settings) in
    (sort-Chronological clock visible, sort-Mem clock a visible, length-sort clock visible)
