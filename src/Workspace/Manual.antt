-- ===== src/Workspace/Manual.antt =====
-- packages/graph-renderer/chart-workspace.mjs: chart items made by the analyst, redactions, saved
-- layouts and workspace snapshots.
use network_analytics_predic.Prelude.{
  ◌+◌, ◌*◌, ◌/◌, ◌%◌, ℤ, pos, ◌+ℤ◌, String, not, ◌&&◌, ◌||◌, Option, none, some, [], ◌∷◌, ◌++◌, map,
  length, filter, find, is_empty, get_or, or_else, trim, lower, show, unique, if◌then◌else◌, ◌==◌,
  ◌⧺◌,
}
use network_analytics_predic.Workspace.State.{
  Workspace, Snapshot, unsaved, saved, ManualEntity, ManualEdge, Layout, GraphView, text, edit,
  next_id, clean_text, record_audit, clamp_coordinate,
}

-- The `options` and `updates` objects: a property that is not given is `none`.
pub record EntityUpdates : Type 0 where
  pub label : Option String
  pub type : Option String
  pub style : Option String
  pub x : Option ℤ
  pub y : Option ℤ

pub record EdgeUpdates : Type 0 where
  pub label : Option String
  pub style : Option String

-- A new entity goes to the next free place of a grid with four columns, unless `options` say where.
abbrev pub new_entity :
    Workspace → String → Option String → Option ℤ → Option ℤ → Option String → ManualEntity
new_entity w clean type x y style =
    let index = length w.manual_entities in
    record {
      id = next_id "manual-entity" w.manual_entities;
      label = clean;
      type = lower (trim (or_else (get_or type "entity") "entity"));
      role = "analyst-created chart entity";
      classification = "analyst chart item";
      evidence_status = "not evidence";
      x = clamp_coordinate x (pos (28 + index % 4 * 14));
      y = clamp_coordinate y (pos (28 + index / 4 * 14));
      style = clean_text (get_or style "slate") "slate";
    }

unfoldable pub add_manual_entity :
    Workspace → String → Option String → Option ℤ → Option ℤ → Option String → Workspace
add_manual_entity w label type x y style =
    let clean = clean_text label "" in
    let entity = new_entity w clean type x y style in
    if is_empty clean
    then w
    else edit (λ c. record c { manual_entities = c.manual_entities ++ entity ∷ [] }) w

abbrev pub updated_entity : EntityUpdates → ManualEntity → ManualEntity
updated_entity updates entity = record entity {
  label = clean_text (get_or updates.label entity.label) entity.label;
  type = or_else (lower (trim (get_or updates.type entity.type))) entity.type;
  style = clean_text (get_or updates.style entity.style) "slate";
  x = clamp_coordinate updates.x entity.x;
  y = clamp_coordinate updates.y entity.y;
}

unfoldable pub edit_manual_entity : Workspace → String → EntityUpdates → Workspace
edit_manual_entity w entity_id updates =
    edit
      (λ c. record c {
        manual_entities =
            map (λ entity. if entity.id == entity_id then updated_entity updates entity else entity)
              c.manual_entities;
      })
      w

abbrev pub moved_to : ℤ → ℤ → EntityUpdates
moved_to x y = record { label = none; type = none; style = none; x = some x; y = some y }

unfoldable pub move_manual_entity : Workspace → String → ℤ → ℤ → Workspace
move_manual_entity w entity_id delta_x delta_y =
    elim (find (λ item. item.id == entity_id) w.manual_entities) [
      | none ↦ w
      | some entity ↦
          edit_manual_entity w entity_id (moved_to (entity.x +ℤ delta_x) (entity.y +ℤ delta_y))
    ]

unfoldable pub remove_manual_entity : Workspace → String → Workspace
remove_manual_entity w entity_id =
    edit
      (λ c. record c {
        manual_entities = filter (λ entity. not (entity.id == entity_id)) c.manual_entities;
        manual_edges =
            filter (λ e. not (e.source_id == entity_id) && not (e.target_id == entity_id))
              c.manual_edges;
        redacted_item_ids = filter (λ id. not (id == entity_id)) c.redacted_item_ids;
      })
      w

abbrev pub new_edge : Workspace → String → String → Option String → ManualEdge
new_edge w source_id target_id label = record {
  id = next_id "manual-edge" w.manual_edges;
  source_id = source_id;
  target_id = target_id;
  label = clean_text (get_or label "related to") "related to";
  style = "solid";
  classification = "analyst chart link";
  evidence_status = "not evidence";
}

unfoldable pub add_manual_edge : Workspace → String → String → Option String → Workspace
add_manual_edge w source_id target_id label =
    let edge = new_edge w source_id target_id label in
    if is_empty source_id || is_empty target_id || source_id == target_id
    then w
    else edit (λ c. record c { manual_edges = c.manual_edges ++ edge ∷ [] }) w

abbrev pub updated_edge : EdgeUpdates → ManualEdge → ManualEdge
updated_edge updates edge = record edge {
  label = clean_text (get_or updates.label edge.label) edge.label;
  style = clean_text (get_or updates.style edge.style) edge.style;
}

unfoldable pub edit_manual_edge : Workspace → String → EdgeUpdates → Workspace
edit_manual_edge w edge_id updates =
    edit
      (λ c. record c {
        manual_edges =
            map (λ edge. if edge.id == edge_id then updated_edge updates edge else edge)
              c.manual_edges;
      })
      w

unfoldable pub remove_manual_edge : Workspace → String → Workspace
remove_manual_edge w edge_id =
    edit
      (λ c. record c {
        manual_edges = filter (λ edge. not (edge.id == edge_id)) c.manual_edges;
        redacted_item_ids = filter (λ id. not (id == edge_id)) c.redacted_item_ids;
      })
      w

unfoldable pub redact_chart_item : Workspace → String → Workspace
redact_chart_item w item_id =
    if is_empty item_id
    then w
    else edit (λ c. record c { redacted_item_ids = unique (c.redacted_item_ids ++ item_id ∷ []) }) w

unfoldable pub restore_redactions : Workspace → Workspace
restore_redactions w = edit (λ c. record c { redacted_item_ids = [] }) w

abbrev pub new_layout : Workspace → String → GraphView → Layout
new_layout w name view = record {
  id = next_id "layout" w.saved_layouts;
  name = clean_text name ("Layout " ⧺ show (length w.saved_layouts + 1));
  view = view;
}

unfoldable pub save_layout : Workspace → String → GraphView → Workspace
save_layout w name view =
    let layout = new_layout w name view in
    edit
      (λ c. record c {
        saved_layouts = c.saved_layouts ++ layout ∷ [];
        selected_saved_layout_id = layout.id;
      })
      w

unfoldable pub selected_layout : Workspace → Option Layout
selected_layout w = find (λ layout. layout.id == w.selected_saved_layout_id) w.saved_layouts

unfoldable pub save_workspace_snapshot : Workspace → Option String → Workspace
save_workspace_snapshot w name =
    let title = clean_text (get_or name "Workspace snapshot") "Workspace snapshot" in
    let snapshot = saved title w.content w.saved_workspace_snapshot in
    record_audit (record w { body = record w.body { saved_workspace_snapshot = snapshot } })
      "workspace-snapshot-saved" (("name", text title) ∷ [])

unfoldable pub restored : Workspace → Snapshot → Workspace
restored w unsaved = w
restored w (saved title content inner) =
    record_audit
      (record {
        body = record { content = content; saved_workspace_snapshot = saved title content inner };
        undo_stack = [];
        redo_stack = [];
      })
      "workspace-snapshot-restored" (("name", text title) ∷ [])

-- `none` is the default argument, the snapshot of the workspace itself.
unfoldable pub restore_workspace_snapshot : Workspace → Option Snapshot → Workspace
restore_workspace_snapshot w chosen = restored w (get_or chosen w.saved_workspace_snapshot)
