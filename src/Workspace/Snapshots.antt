-- ===== src/Workspace/Snapshots.antt =====
-- packages/graph-renderer/chart-workspace.mjs and the controls of apps/web/app.mjs: a saved workspace snapshot
-- survives the controls that come after it, and `restoreWorkspaceSnapshot` brings its content back.
use network_analytics_predic.Graph.{Relationship, Settings, Source}
use network_analytics_predic.Copilot.Review.{Draft, NotePreview, prepare_assistant_note}
use network_analytics_predic.Workspace.Path.{set_path}
use network_analytics_predic.Workspace.Notes.{
  set_review_status, upsert_task, set_task_state, add_comment, add_annotation, add_case_note,
}
use network_analytics_predic.Workspace.Reach.{
  phrase, keep_layout, restore_redacted, redact, remove_edge, edit_edge, add_edge, remove_entity,
  move_entity, edit_entity, add_entity, review, task, note, comment, annotate, keep_search,
  find_path, expand, pin, perform, perform_all, restore, snapshot, Action,
}
use network_analytics_predic.Workspace.AiNote.{save_ai_note, save_note}
use network_analytics_predic.Workspace.Manual.{
  save_layout, restore_redactions, redact_chart_item, remove_manual_edge, edit_manual_edge,
  add_manual_edge, remove_manual_entity, add_manual_entity, edit_manual_entity,
  save_workspace_snapshot, move_manual_entity, restore_workspace_snapshot, restored,
}
use network_analytics_predic.Phrases.Execute.{
  community, connected_by_type, path_between, unsupported, Parsed, execute_community, execute_path,
  execute_connected, execute_parsed,
}
use network_analytics_predic.Workspace.History.{
  undo-commit, redo_workspace_change, undo_workspace_change, commit_workspace_change,
}
use network_analytics_predic.Workspace.State.{
  edit, text, clean_text, unsaved, saved, record_audit, Snapshot, Workspace,
}
use network_analytics_predic.Workspace.Search.{
  node, relationship, SearchResult, save_search, pin_relationship, expand_neighbors,
  pin_search_result,
}
use network_analytics_predic.Prelude.{
  ap, ◌∙◌, ◌++◌, unique, inr, inl, ℕ, [], ◌==◌, find, none, Option-cases, get_or, ◌∷◌, if_keeps,
  some, ℤ, All, Option, String, List, ◌≡◌, refl,
}

-- All operations but the saving of another snapshot, and the restoring of one from outside.
abbrev pub Plain : Action → Type 0
Plain (snapshot name) = ⊥
Plain (restore (some chosen)) = ⊥
Plain _ = Unit

-- The workspaces that the controls bring about from `start` while it is the last snapshot saved: any control but the
-- start of a new workspace, where an undo or a redo does not go to a body with another snapshot.
pub data Since (start : Workspace) : Workspace → Type 0 where
  here : Since start start
  then_committed :
      (actions : List Action) {w : Workspace}
      → Since start w
      → All Plain actions
      → Since start (commit_workspace_change w (perform_all actions w))
  then_undone :
      {w : Workspace}
      → Since start w
      → (undo_workspace_change w).saved_workspace_snapshot ≡ start.saved_workspace_snapshot
      → Since start (undo_workspace_change w)
  then_redone :
      {w : Workspace}
      → Since start w
      → (redo_workspace_change w).saved_workspace_snapshot ≡ start.saved_workspace_snapshot
      → Since start (redo_workspace_change w)
  then_typed :
      (query : String) {w : Workspace}
      → Since start w
      → Since start (edit (λ c. record c { query = query }) w)
  then_note_saved :
      (hex : ℕ → String) (draft : Draft) (citations : List String) {w : Workspace}
      → Since start w
      → Since start (save_ai_note hex draft citations w)

abbrev Holds : Snapshot → Workspace → Type 0
Holds s w = w.saved_workspace_snapshot ≡ s

restored-Holds : (s : Snapshot) (w : Workspace) → Holds s w → Holds s (restored w s)
unfolding restored record_audit
restored-Holds unsaved w h = h
restored-Holds (saved title content inner) w h = refl

move_manual_entity-Holds :
    (s : Snapshot) (w : Workspace) (id : String) (x y : ℤ)
    → Holds s w
    → Holds s (move_manual_entity w id x y)
move_manual_entity-Holds s w id x y h =
    elim (Option-cases (find (λ item. item.id == id) w.manual_entities)) [
      | inl e ↦ unfold move_manual_entity in rw (e, move_manual_entity) h
      | inr (entity, e) ↦
          unfold move_manual_entity edit_manual_entity in rw (e, move_manual_entity) h
    ]

pin_relationship-Holds :
    (s : Snapshot) (w : Workspace) (id : String) (visible : List Relationship)
    → Holds s w
    → Holds s (pin_relationship w id visible)
pin_relationship-Holds s w id visible h = elim (Option-cases (find (λ r. r.id == id) visible)) [
  | inl e ↦ unfold pin_relationship in rw (e, pin_relationship) h
  | inr (r, e) ↦ unfold pin_relationship in rw (e, pin_relationship) h
]

pin_search_result-Holds :
    (s : Snapshot) (w : Workspace) (r : Option SearchResult) (source : Source) (settings : Settings)
    → Holds s w
    → Holds s (pin_search_result w r source settings)
unfolding pin_search_result
pin_search_result-Holds s w none source settings h = h
pin_search_result-Holds s w (some r) source settings h =
    elim r.kind
      as (λ k. Holds s (elim k [
        | node ↦
            edit (λ c. record c { pinned_node_ids = unique (c.pinned_node_ids ++ r.id ∷ []) }) w
        | relationship ↦ pin_relationship w r.id (source.visible_relationships settings)
      ])) [
        | node ↦ h
        | relationship ↦ pin_relationship-Holds s w r.id (source.visible_relationships settings) h
      ]

execute_parsed-Holds :
    (s : Snapshot) (w : Workspace) (parsed : Parsed) (source : Source) (settings : Settings)
    → Holds s w
    → Holds s (execute_parsed w parsed source settings).workspace
unfolding execute_parsed execute_connected execute_path execute_community set_path expand_neighbors
execute_parsed-Holds s w (unsupported reason) source settings h = h
execute_parsed-Holds s w (path_between a b label) source settings h = h
execute_parsed-Holds s w (connected_by_type type target label) source settings h = h
execute_parsed-Holds s w (community name label) source settings h = h

perform-Holds :
    (s : Snapshot) (a : Action) (w : Workspace) → Plain a → Holds s w → Holds s (perform a w)
unfolding expand_neighbors set_path save_search add_annotation add_comment add_case_note
    set_task_state upsert_task set_review_status add_manual_entity edit_manual_entity
    remove_manual_entity add_manual_edge edit_manual_edge remove_manual_edge redact_chart_item
    restore_redactions save_layout restore_workspace_snapshot record_audit
perform-Holds s (pin r source settings) w ok h = pin_search_result-Holds s w r source settings h
perform-Holds s (expand source settings id) w ok h = h
perform-Holds s (find_path source settings a b) w ok h = h
perform-Holds s (keep_search name source settings) w ok h = if_keeps (Holds s) _ w _ h h
perform-Holds s (annotate remark target) w ok h = if_keeps (Holds s) _ w _ h h
perform-Holds s (comment remark target) w ok h = if_keeps (Holds s) _ w _ h h
perform-Holds s (note remark) w ok h = if_keeps (Holds s) _ w _ h h
perform-Holds s (task label status) w ok h = if_keeps (Holds s) _ w _ h h
perform-Holds s (review status) w ok h = h
perform-Holds s (add_entity label type x y style) w ok h = if_keeps (Holds s) _ w _ h h
perform-Holds s (edit_entity id updates) w ok h = h
perform-Holds s (move_entity id dx dy) w ok h = move_manual_entity-Holds s w id dx dy h
perform-Holds s (remove_entity id) w ok h = h
perform-Holds s (add_edge a b label) w ok h = if_keeps (Holds s) _ w _ h h
perform-Holds s (edit_edge id updates) w ok h = h
perform-Holds s (remove_edge id) w ok h = h
perform-Holds s (redact id) w ok h = if_keeps (Holds s) _ w _ h h
perform-Holds s restore_redacted w ok h = h
perform-Holds s (keep_layout name view) w ok h = h
perform-Holds s (snapshot name) w ok h = absurd ok
perform-Holds s (restore none) w ok h = restored-Holds w.saved_workspace_snapshot w refl ∙ h
perform-Holds s (restore (some chosen)) w ok h = absurd ok
perform-Holds s (phrase parsed source settings) w ok h =
    execute_parsed-Holds s w parsed source settings h

perform_all-Holds :
    (s : Snapshot) (actions : List Action) (w : Workspace)
    → All Plain actions
    → Holds s w
    → Holds s (perform_all actions w)
perform_all-Holds s [] w ok h = h
perform_all-Holds s (a ∷ actions) w ok h =
    perform_all-Holds s actions (perform a w) ok.1 (perform-Holds s a w ok.0 h)

save_note-Holds :
    (s : Snapshot) (preview : NotePreview) (w : Workspace)
    → Holds s w
    → Holds s (save_note preview w)
unfolding save_note add_case_note record_audit commit_workspace_change
save_note-Holds s preview w h =
    if_keeps (Holds s) preview.allowed _ w (if_keeps (Holds s) _ w _ h h) h

Since-Holds : {start v : Workspace} → Since start v → Holds start.saved_workspace_snapshot v
unfolding commit_workspace_change save_ai_note
Since-Holds here = refl
Since-Holds {start = start} (then_committed actions {w = w} since ok) =
    perform_all-Holds start.saved_workspace_snapshot actions w ok (Since-Holds since)
Since-Holds (then_undone since same) = same
Since-Holds (then_redone since same) = same
Since-Holds (then_typed query since) = Since-Holds since
Since-Holds {start = start} (then_note_saved hex draft citations {w = w} since) =
    save_note-Holds start.saved_workspace_snapshot (prepare_assistant_note hex draft citations) w
      (Since-Holds since)

-- A snapshot is saved, and the save committed; controls follow, in any number and order, that neither save another
-- snapshot nor bring one from outside nor start anew, and whose undos and redos stay at bodies with this snapshot.
-- Then the committed restoration gives the content at the time of saving, with the restoration recorded in its audit
-- log, and one undo brings back the body that the restoration replaced.
pub restore-save :
    (w : Workspace) (name : Option String) {v : Workspace}
    → Since (commit_workspace_change w (save_workspace_snapshot w name)) v
    → let title = clean_text (get_or name "Workspace snapshot") "Workspace snapshot" in
      let back = commit_workspace_change v (restore_workspace_snapshot v none) in
      (back.content
        ≡ (record_audit w "workspace-snapshot-restored" (("name", text title) ∷ [])).content)
      × ((undo_workspace_change back).body ≡ v.body)
unfolding restore_workspace_snapshot save_workspace_snapshot restored record_audit
    commit_workspace_change
restore-save w name {v = v} since = (
  ap (λ s. (restored v s).content) (Since-Holds since),
  undo-commit v (restore_workspace_snapshot v none),
)
