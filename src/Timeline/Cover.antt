-- ===== src/Timeline/Cover.antt =====
-- packages/graph-renderer/graph-model.mjs: the split models together hold every visible edge once, in order.
use network_analytics_predic.Graph.{Source, Settings}
use network_analytics_predic.Timeline.Split.{
  boundary_index, visible_edges, Clock, build_unified_model, build_chronological_split_models,
  model_from_edges, slices, has_edges, SplitModel, TimedEdge,
}
use native.Mathlib.Nat.{lt-mul-div-succ, mul-le-mul_left}
use network_analytics_predic.Prelude.{
  filter-All, length-filter-le, ◌==◌, not, ◌&&◌, append-nil, eqb, none, true, All, ◌<◌,
  take-append-drop, take, ◌/◌, subst, ◌-◌, max, ◌∙◌, inr, sym, inl, Bool-cases, ap, refl, ◌*◌,
  arith, ◌+◌, filter, ◌++◌, ◌≡◌, ◌≤◌, drop, length, List, ℕ, ◌∷◌, [], zero, suc, refl,
}

abbrev pub edges_of : List SplitModel → List TimedEdge
edges_of [] = []
edges_of (m ∷ ms) = m.edges ++ edges_of ms

edges_of-filter : (ms : List SplitModel) → edges_of (filter has_edges ms) ≡ edges_of ms
edges_of-filter [] = refl
edges_of-filter (m ∷ ms) = elim (Bool-cases (has_edges m)) [
  | inl e ↦ rw e (ap (m.edges ++◌) (edges_of-filter ms))
  | inr e ↦
      let none_left : m.edges ≡ [] = no_edges m.edges (ground arith) in
      rw (e, none_left) (edges_of-filter ms)
]
  where
    no_edges : (es : List TimedEdge) → length es ≡ 0 → es ≡ []
    no_edges [] h = refl
    no_edges (e ∷ es) h = absurd (omega arith)

drop_nil {ℓ} : {A : Type ℓ} (k : ℕ) → drop {A = A} k [] ≡ []
drop_nil zero = refl
drop_nil (suc k) = refl

drop-drop {ℓ} : {A : Type ℓ} (m n : ℕ) (xs : List A) → drop m (drop n xs) ≡ drop (n + m) xs
drop-drop m zero xs = ap (λ k. drop k xs) (omega arith)
drop-drop m (suc n) [] = drop_nil m ∙ sym (drop_nil (suc n + m))
drop-drop m (suc n) (x ∷ xs) =
    let same : suc (n + m) ≡ suc n + m = omega arith in
    drop-drop m n xs ∙ ap (λ k. drop k (x ∷ xs)) same

drop_all {ℓ} : {A : Type ℓ} (n : ℕ) (xs : List A) → length xs ≤ n → drop n xs ≡ []
drop_all zero [] h = refl
drop_all zero (x ∷ xs) h = absurd (omega arith)
drop_all (suc n) [] h = refl
drop_all (suc n) (x ∷ xs) h = drop_all n xs (omega arith)

slices_cover :
    (chunk index count : ℕ) (visible : List TimedEdge)
    → length visible ≤ (index + count) * chunk
    → edges_of (slices chunk index count visible) ≡ drop (index * chunk) visible
unfolding slices model_from_edges
slices_cover chunk index zero visible h =
    sym (drop_all (index * chunk) visible (subst (λ k. length visible ≤ k * chunk) (omega arith) h))
slices_cover chunk index (suc count) visible h =
    let shift : index + suc count ≡ suc index + count = omega arith in
    let next : suc index * chunk ≡ index * chunk + chunk = omega arith in
    let later =
      slices_cover chunk (suc index) count visible
        (subst (λ k. length visible ≤ k * chunk) shift h) in
    ap (take chunk (drop (index * chunk) visible) ++◌)
      (later ∙ ap (λ k. drop k visible) next ∙ sym (drop-drop chunk (index * chunk) visible))
    ∙ take-append-drop chunk (drop (index * chunk) visible)

length-slices :
    (chunk index count : ℕ) (visible : List TimedEdge)
    → length (slices chunk index count visible) ≡ count
unfolding slices
length-slices chunk index zero visible = refl
length-slices chunk index (suc count) visible =
    ap suc (length-slices chunk (suc index) count visible)

enough_chunks : (n count : ℕ) → 1 ≤ count → n ≤ count * max 1 ((n + count - 1) / count)
enough_chunks n count h =
    let q = (n + count - 1) / count in
    let above : n + count - 1 < count * (q + 1) = lt-mul-div-succ (n + count - 1) h in
    let distribute : count * (q + 1) ≡ count * q + count = omega arith in
    let grow : count * q ≤ count * max 1 q = mul-le-mul_left count (omega arith) in
    omega (arith, above, distribute, grow)

-- Whatever the number of models asked for and the strategy, the models together hold the visible relationships in
-- chronological order, each once; and no model is empty where more than one is asked for, and there are at most
-- as many as asked for, and one at least is asked for.
pub split_models-cover :
    (clock : Clock) (settings : Settings) (source : Source) (count : ℕ)
    → let models = build_chronological_split_models clock settings source count in
      (edges_of models ≡ visible_edges clock settings source)
      × (length models ≤ max 1 count)
      × (2 ≤ count → All (λ m. has_edges m ≡ true) models)
unfolding build_chronological_split_models build_unified_model model_from_edges
split_models-cover clock settings source count =
    let visible = visible_edges clock settings source in
    let n = max 1 count in
    let boundary = boundary_index (length visible) settings.split_boundary_percent in
    let chunk = max 1 ((length visible + n - 1) / n) in
    let halves : List SplitModel =
      model_from_edges "Before split" (take boundary visible) none
      ∷ model_from_edges "After split" (drop boundary visible) none
      ∷ [] in
    elim (Bool-cases (eqb n 1)) [
      | inl e ↦ rw e (append-nil visible, omega arith, λ h. absurd (ground arith))
      | inr e ↦ elim (Bool-cases (eqb n 2 && not (settings.split_strategy == "equal"))) [
        | inl two ↦
            rw (e, two)
              (
                edges_of-filter halves
                    ∙ ap (take boundary visible ++◌) (append-nil (drop boundary visible))
                    ∙ take-append-drop boundary visible,
                ground (arith, length-filter-le has_edges halves),
                λ h. filter-All has_edges halves,
              )
        | inr two ↦
            let cut = slices chunk 0 n visible in
            let enough : length visible ≤ (0 + n) * chunk =
              omega (arith, enough_chunks (length visible) n (omega arith)) in
            let zero_chunks : 0 * chunk ≡ 0 = omega arith in
            rw (e, two)
              (
                edges_of-filter cut
                    ∙ slices_cover chunk 0 n visible enough
                    ∙ ap (λ k. drop k visible) zero_chunks,
                omega (arith, length-filter-le has_edges cut, length-slices chunk 0 n visible),
                λ h. filter-All has_edges cut,
              )
      ]
    ]
