-- ===== src/Layout/Visuals.antt =====
-- packages/graph-renderer/layout-model.mjs: `snapshotGraphView`, `pushLayoutCheckpoint`, `setNodeIcon`,
-- `setNodeImage` and `resetNodeVisual`. The object of node visuals is a list of its properties in their order.
use network_analytics_predic.Workspace.State.{Visual, GraphView}
use network_analytics_predic.Prelude.{
  take_last, eqb, ◌∙◌, zero, length-drop, ap, length-append, arith, suc, false, inr, last?-append,
  eq_iff, inl, last?, Bool-cases, sym, ◌+◌, ◌-◌, eq_refl, min, true, ◌++◌, has, length, not, ◌==◌,
  ◌≡◌, ◌≢◌, Option, drop, filter, if◌then◌else◌, ◌≤◌, List, String, ℕ, ◌∷◌, [], none, some, refl,
}

-- The graph view with its two stacks; `snapshotGraphView` leaves the view.
pub record LayoutState : Type 0 where
  pub view : GraphView
  pub open view use *
  pub undo : List GraphView
  pub redo : List GraphView

-- `views.slice(-limit)`; with the limit 0 that is all of them.
abbrev pub last_views : ℕ → List GraphView → List GraphView
last_views limit views = if eqb limit 0 then views else take_last limit views

unfoldable pub push_layout_checkpoint : ℕ → LayoutState → LayoutState
push_layout_checkpoint limit s = record s {
  undo = last_views limit (s.undo ++ s.view ∷ []);
  redo = [];
}

-- The keys of `BUILT_IN_NODE_ICONS`
abbrev pub built_in_node_icons : List String
built_in_node_icons =
    "default" ∷ "account" ∷ "alert" ∷ "device" ∷ "person" ∷ "place" ∷ "organization" ∷ []

abbrev pub Visuals : Type 0
Visuals = List (String × Visual)

-- `nodeVisuals[nodeId]`
unfoldable pub visual_of : Visuals → String → Option Visual
visual_of [] id = none
visual_of ((key, v) ∷ rest) id =
    let later = visual_of rest id in if key == id then some v else later

-- `{ ...nodeVisuals, [nodeId]: visual }`
unfoldable pub put_visual : String → Visual → Visuals → Visuals
put_visual id v [] = (id, v) ∷ []
put_visual id v ((key, old) ∷ rest) =
    let later = put_visual id v rest in if key == id then (id, v) ∷ rest else (key, old) ∷ later

abbrev pub safe_icon : String → String
safe_icon icon = if has built_in_node_icons icon then icon else "default"

unfoldable pub set_node_icon : Visuals → String → String → Visuals
set_node_icon visuals node_id icon =
    put_visual node_id (record { icon = safe_icon icon; image = none }) visuals

unfoldable pub set_node_image : Visuals → String → String → Visuals
set_node_image visuals node_id image =
    put_visual node_id (record { icon = "default"; image = some image }) visuals

-- `delete next[nodeId]`
unfoldable pub reset_node_visual : Visuals → String → Visuals
reset_node_visual visuals node_id = filter (λ p. not (p.0 == node_id)) visuals

-- A checkpoint keeps the latest views, no more than the limit, with the current one last if any is kept, leaves the
-- view alone and clears what could be redone.
pub push_layout_checkpoint-undo :
    (limit : ℕ) (s : LayoutState)
    → 1 ≤ limit
    → let after = push_layout_checkpoint limit s in
      (length after.undo ≡ min limit (length s.undo + 1))
      × (last? after.undo ≡ some s.view)
      × (after.view ≡ s.view)
      × (after.redo ≡ [])
unfolding push_layout_checkpoint
push_layout_checkpoint-undo limit s h =
    let all_views = s.undo ++ s.view ∷ [] in
    let sum = length-append s.undo (s.view ∷ []) in
    let some_limit : eqb limit 0 ≡ false = ground (arith, h) in
    rw some_limit (
      omega (arith, sum, length-drop (length all_views - limit) all_views),
      last?-drop (length all_views - limit) s.undo s.view (omega (arith, sum)),
      refl,
      refl,
    )
  where
    last?-drop :
        (n : ℕ) (views : List GraphView) (v : GraphView)
        → n ≤ length views
        → last? (drop n (views ++ v ∷ [])) ≡ some v
    last?-drop zero views v le = last?-append views v
    last?-drop (suc n) [] v le = absurd (omega arith)
    last?-drop (suc n) (x ∷ views) v le = last?-drop n views v (omega arith)

visual_of-put :
    (id : String) (v : Visual) (visuals : Visuals) → visual_of (put_visual id v visuals) id ≡ some v
unfolding visual_of put_visual
visual_of-put id v [] = rw (eq_refl id) refl
visual_of-put id v ((key, old) ∷ rest) = elim (Bool-cases (key == id)) [
  | inl e ↦ rw (e, eq_refl id) refl
  | inr e ↦ rw (e, e) (visual_of-put id v rest)
]

visual_of-put_other :
    (id other : String) (v : Visual) (visuals : Visuals)
    → other ≢ id
    → visual_of (put_visual id v visuals) other ≡ visual_of visuals other
unfolding visual_of put_visual
visual_of-put_other id other v [] apart =
    let differ : (id == other) ≡ false = ground (arith, eq_iff id other, apart_sym) in
    rw differ refl
  where
    apart_sym : (id == other) ≡ true → ⊥
    apart_sym e = apart (sym ((eq_iff id other).0 e))
visual_of-put_other id other v ((key, old) ∷ rest) apart = elim (Bool-cases (key == id)) [
  | inl e ↦
      let same : key ≡ id = (eq_iff key id).0 e in
      let differ : (id == other) ≡ false = not_same id other apart in
      let differ_key : (key == other) ≡ false = rw same differ in rw (e, differ, differ_key) refl
  | inr e ↦ rw e (
      ap (λ later. if key == other then some old else later)
        (visual_of-put_other id other v rest apart))
]
  where
    not_same : (id other : String) → other ≢ id → (id == other) ≡ false
    not_same id other ne = elim (Bool-cases (id == other)) [
      | inl t ↦ absurd (ne (sym ((eq_iff id other).0 t)))
      | inr f ↦ f
    ]

reset-visual :
    (id other : String) (visuals : Visuals)
    → (visual_of (reset_node_visual visuals id) id ≡ none)
      × (other ≢ id → visual_of (reset_node_visual visuals id) other ≡ visual_of visuals other)
unfolding visual_of reset_node_visual
reset-visual id other [] = (refl, λ _. refl)
reset-visual id other ((key, v) ∷ rest) =
    let later = reset-visual id other rest in
    elim (Bool-cases (key == id)) [
      | inl e ↦
          let same : key ≡ id = (eq_iff key id).0 e in
          rw e (later.0, λ apart. rw (differ key other (λ k. apart (k ∙ same))) (later.1 apart))
      | inr e ↦
          rw (e, e) (later.0, λ apart. ap (λ x. if key == other then some v else x) (later.1 apart))
    ]
  where
    differ : (key other : String) → (other ≡ key → ⊥) → (key == other) ≡ false
    differ key other ne = elim (Bool-cases (key == other)) [
      | inl t ↦ absurd (ne (sym ((eq_iff key other).0 t)))
      | inr f ↦ f
    ]

safe_icon-built_in : (icon : String) → has built_in_node_icons (safe_icon icon) ≡ true
safe_icon-built_in icon = elim (Bool-cases (has built_in_node_icons icon)) [
  | inl e ↦ rw e e
  | inr e ↦ rw e refl
]

-- After an icon is set for a node, the node shows a built-in icon, the one asked for if it is built in, and no image;
-- after an image is set, it shows the image; after a reset it shows neither; and each of the three leaves the visuals of
-- every other node alone.
pub node_visuals-set :
    (visuals : Visuals) (id other icon image : String)
    → (visual_of (set_node_icon visuals id icon) id
        ≡ some (record { icon = safe_icon icon; image = none }))
      × (has built_in_node_icons (safe_icon icon) ≡ true)
      × (visual_of (set_node_image visuals id image) id
          ≡ some (record { icon = "default"; image = some image }))
      × (visual_of (reset_node_visual visuals id) id ≡ none)
      × (other ≢ id
          → (visual_of (set_node_icon visuals id icon) other ≡ visual_of visuals other)
            × (visual_of (set_node_image visuals id image) other ≡ visual_of visuals other)
            × (visual_of (reset_node_visual visuals id) other ≡ visual_of visuals other))
unfolding set_node_icon set_node_image
node_visuals-set visuals id other icon image =
    let icon_visual : Visual = record { icon = safe_icon icon; image = none } in
    let image_visual : Visual = record { icon = "default"; image = some image } in
    let reset = reset-visual id other visuals in
    (
      visual_of-put id icon_visual visuals,
      safe_icon-built_in icon,
      visual_of-put id image_visual visuals,
      reset.0,
      λ apart. (
        visual_of-put_other id other icon_visual visuals apart,
        visual_of-put_other id other image_visual visuals apart,
        reset.1 apart,
      ),
    )
