-- ===== src/Workspace/Keeps/Items.antt =====
-- The operations on manual chart items, redactions, layouts and snapshots keep a workspace well formed.
use network_analytics_predic.Workspace.Manual.{
  moved_to, new_edge, updated_edge, updated_entity, EdgeUpdates, EntityUpdates, add_manual_edge,
  add_manual_entity, edit_manual_edge, edit_manual_entity, move_manual_entity, new_entity,
  redact_chart_item, remove_manual_edge, remove_manual_entity, restore_redactions,
  restore_workspace_snapshot, restored, save_layout, save_workspace_snapshot,
}
use network_analytics_predic.Prelude.{
  refl, eq_iff, ◌+ℤ◌, [], filter-Distinct, ◌&&◌, false, if_keeps, inr, not, ◌∷◌, All-filter, find,
  if◌then◌else◌, inl, ◌++◌, ◌/◌, ◌≡◌, All-map, All-snoc, Bool-cases, Option-cases, length,
  unique-Distinct, ◌==◌, ◌||◌, ◌≤ℤ◌, is_empty, String, ◌+◌, ◌*◌, ◌%◌, ℤ, pos, Option, none, some,
  arith,
}
use network_analytics_predic.Workspace.State.{
  ManualEdge, clean_text, GraphView, ManualEntity, saved, unsaved, Snapshot, Workspace,
  clamp_coordinate,
}
use network_analytics_predic.Workspace.Valid.{
  EdgeOk, content-WorkspaceOk, record_audit-WorkspaceOk, EntityOk, WorkspaceOk, SnapshotOk, InRange,
}

-- A coordinate that the workspace accepts is on the chart, if the fallback is.
pub clamp_coordinate-InRange :
    (value : Option ℤ) (fallback : ℤ) → InRange fallback → InRange (clamp_coordinate value fallback)
unfolding clamp_coordinate
clamp_coordinate-InRange none fallback h = h
clamp_coordinate-InRange (some number) fallback h = ground arith

clamp_coordinate-above :
    (value : Option ℤ) (fallback : ℤ) → pos 5 ≤ℤ fallback → pos 5 ≤ℤ clamp_coordinate value fallback
unfolding clamp_coordinate
clamp_coordinate-above none fallback h = h
clamp_coordinate-above (some number) fallback h = ground arith

new_entity-EntityOk :
    (w : Workspace) (clean : String) (type : Option String) (x y : Option ℤ) (style : Option String)
    → EntityOk (new_entity w clean type x y style)
new_entity-EntityOk w clean type x y style = record {
  across = clamp_coordinate-InRange x (pos (28 + length w.manual_entities % 4 * 14)) (omega arith);
  down = clamp_coordinate-above y (pos (28 + length w.manual_entities / 4 * 14)) (omega arith);
  not_evidence = refl;
}

pub add_manual_entity-WorkspaceOk :
    (w : Workspace) (label : String) (type : Option String) (x y : Option ℤ) (style : Option String)
    → WorkspaceOk w
    → WorkspaceOk (add_manual_entity w label type x y style)
unfolding add_manual_entity
add_manual_entity-WorkspaceOk w label type x y style h =
    let v = h.body.content in
    let more =
      All-snoc EntityOk w.manual_entities (new_entity w (clean_text label "") type x y style)
        v.entities (new_entity-EntityOk w (clean_text label "") type x y style) in
    if_keeps WorkspaceOk (is_empty (clean_text label "")) w _ h
      (content-WorkspaceOk w h (assumption more))

updated_entity-EntityOk :
    (updates : EntityUpdates) (e : ManualEntity) → EntityOk e → EntityOk (updated_entity updates e)
updated_entity-EntityOk updates e h = record {
  across = clamp_coordinate-InRange updates.x e.x h.across;
  down = clamp_coordinate-above updates.y e.y h.down;
  not_evidence = h.not_evidence;
}

pub edit_manual_entity-WorkspaceOk :
    (w : Workspace) (id : String) (updates : EntityUpdates)
    → WorkspaceOk w
    → WorkspaceOk (edit_manual_entity w id updates)
unfolding edit_manual_entity
edit_manual_entity-WorkspaceOk w id updates h =
    let v = h.body.content in
    let changed =
      All-map EntityOk EntityOk (λ e. if e.id == id then updated_entity updates e else e)
        w.manual_entities
        (λ e he.
          if_keeps EntityOk (e.id == id) (updated_entity updates e) e
            (updated_entity-EntityOk updates e he) he)
        v.entities in
    content-WorkspaceOk w h (assumption changed)

pub move_manual_entity-WorkspaceOk :
    (w : Workspace) (id : String) (dx dy : ℤ)
    → WorkspaceOk w
    → WorkspaceOk (move_manual_entity w id dx dy)
move_manual_entity-WorkspaceOk w id dx dy h =
    elim (Option-cases (find (λ item. item.id == id) w.manual_entities)) [
      | inl e ↦ unfold move_manual_entity in rw (e, move_manual_entity) h
      | inr (entity, e) ↦
          unfold move_manual_entity in
          rw (e, move_manual_entity)
            (edit_manual_entity-WorkspaceOk w id (moved_to (entity.x +ℤ dx) (entity.y +ℤ dy)) h)
    ]

pub remove_manual_entity-WorkspaceOk :
    (w : Workspace) (id : String) → WorkspaceOk w → WorkspaceOk (remove_manual_entity w id)
unfolding remove_manual_entity
remove_manual_entity-WorkspaceOk w id h =
    let v = h.body.content in
    content-WorkspaceOk w h (
      assumption (
        All-filter EntityOk (λ (e : ManualEntity). not (e.id == id)) w.manual_entities v.entities,
        All-filter EdgeOk (λ (e : ManualEdge). not (e.source_id == id) && not (e.target_id == id))
            w.manual_edges v.edges,
        filter-Distinct (λ (x : String). not (x == id)) w.redacted_item_ids v.redacted,
      ))

new_edge-EdgeOk :
    (w : Workspace) (a b : String) (label : Option String)
    → (is_empty a || is_empty b || a == b) ≡ false
    → EdgeOk (new_edge w a b label)
new_edge-EdgeOk w a b label h = record {
  from = ground arith;
  to = ground arith;
  apart = λ e. ground (arith, eq_iff a b);
  not_evidence = refl;
}

pub add_manual_edge-WorkspaceOk :
    (w : Workspace) (a b : String) (label : Option String)
    → WorkspaceOk w
    → WorkspaceOk (add_manual_edge w a b label)
add_manual_edge-WorkspaceOk w a b label h = elim (Bool-cases (is_empty a || is_empty b || a == b)) [
  | inl e ↦ unfold add_manual_edge in rw e h
  | inr e ↦
      let v = h.body.content in
      let more =
        All-snoc EdgeOk w.manual_edges (new_edge w a b label) v.edges
          (new_edge-EdgeOk w a b label e) in
      unfold add_manual_edge in rw e (content-WorkspaceOk w h (assumption more))
]

pub edit_manual_edge-WorkspaceOk :
    (w : Workspace) (id : String) (updates : EdgeUpdates)
    → WorkspaceOk w
    → WorkspaceOk (edit_manual_edge w id updates)
unfolding edit_manual_edge
edit_manual_edge-WorkspaceOk w id updates h =
    let v = h.body.content in
    let changed =
      All-map EdgeOk EdgeOk (λ e. if e.id == id then updated_edge updates e else e) w.manual_edges
        (λ e he.
          if_keeps EdgeOk (e.id == id) (updated_edge updates e) e
            (record {
              from = he.from;
              to = he.to;
              apart = he.apart;
              not_evidence = he.not_evidence;
            })
            he)
        v.edges in
    content-WorkspaceOk w h (assumption changed)

pub remove_manual_edge-WorkspaceOk :
    (w : Workspace) (id : String) → WorkspaceOk w → WorkspaceOk (remove_manual_edge w id)
unfolding remove_manual_edge
remove_manual_edge-WorkspaceOk w id h =
    let v = h.body.content in
    content-WorkspaceOk w h (
      assumption (
        All-filter EdgeOk (λ (e : ManualEdge). not (e.id == id)) w.manual_edges v.edges,
        filter-Distinct (λ (x : String). not (x == id)) w.redacted_item_ids v.redacted,
      ))

pub redact_chart_item-WorkspaceOk :
    (w : Workspace) (id : String) → WorkspaceOk w → WorkspaceOk (redact_chart_item w id)
unfolding redact_chart_item
redact_chart_item-WorkspaceOk w id h =
    let v = h.body.content in
    let more = unique-Distinct (w.redacted_item_ids ++ id ∷ []) in
    if_keeps WorkspaceOk (is_empty id) w _ h (content-WorkspaceOk w h (assumption more))

pub restore_redactions-WorkspaceOk :
    (w : Workspace) → WorkspaceOk w → WorkspaceOk (restore_redactions w)
unfolding restore_redactions
restore_redactions-WorkspaceOk w h =
    let v = h.body.content in content-WorkspaceOk w h (assumption tt)

pub save_layout-WorkspaceOk :
    (w : Workspace) (name : String) (view : GraphView)
    → WorkspaceOk w
    → WorkspaceOk (save_layout w name view)
unfolding save_layout
save_layout-WorkspaceOk w name view h =
    let v = h.body.content in content-WorkspaceOk w h (assumption)

pub save_workspace_snapshot-WorkspaceOk :
    (w : Workspace) (name : Option String)
    → WorkspaceOk w
    → WorkspaceOk (save_workspace_snapshot w name)
unfolding save_workspace_snapshot
save_workspace_snapshot-WorkspaceOk w name h = record_audit-WorkspaceOk _ _ _ (record {
  body = record { content = h.body.content; snapshot = (h.body.content, h.body.snapshot) };
  past = h.past;
  future = h.future;
})

restored-WorkspaceOk :
    (w : Workspace) (s : Snapshot) → SnapshotOk s → WorkspaceOk w → WorkspaceOk (restored w s)
unfolding restored
restored-WorkspaceOk w unsaved ok h = h
restored-WorkspaceOk w (saved title content inner) ok h =
    record_audit-WorkspaceOk _ _ _
      (record { body = record { content = ok.0; snapshot = ok }; past = tt; future = tt })

-- A snapshot that comes from outside, out of the browser's storage, has to be well formed itself.
abbrev pub ChosenOk : Option Snapshot → Type 0
ChosenOk none = Unit
ChosenOk (some s) = SnapshotOk s

pub restore_workspace_snapshot-WorkspaceOk :
    (w : Workspace) (chosen : Option Snapshot)
    → ChosenOk chosen
    → WorkspaceOk w
    → WorkspaceOk (restore_workspace_snapshot w chosen)
unfolding restore_workspace_snapshot
restore_workspace_snapshot-WorkspaceOk w none ok h =
    restored-WorkspaceOk w w.saved_workspace_snapshot h.body.snapshot h
restore_workspace_snapshot-WorkspaceOk w (some s) ok h = restored-WorkspaceOk w s ok h
