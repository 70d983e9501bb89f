-- ===== src/Workspace/Reach.antt =====
-- apps/web/app.mjs: the controls of the chart workspace. Most replace the workspace by
-- `commitWorkspaceChange(workspace, operation(workspace))`, or by an undo or a redo; typing in the search box sets the
-- query in place, saving the assistant's draft as a note commits and then adds an audit entry in place, and another use
-- case or an import starts with a new workspace.
use network_analytics_predic.Copilot.Review.{Draft}
use network_analytics_predic.Workspace.AiNote.{
  save_ai_note, save_ai_note-IsBounded, save_ai_note-WorkspaceOk,
}
use network_analytics_predic.Phrases.Keeps.{execute_parsed-WorkspaceOk}
use network_analytics_predic.Phrases.Execute.{Parsed, execute_parsed}
use network_analytics_predic.Workspace.Manual.{
  restore_workspace_snapshot, save_workspace_snapshot, save_layout, restore_redactions,
  redact_chart_item, remove_manual_edge, edit_manual_edge, add_manual_edge, remove_manual_entity,
  move_manual_entity, edit_manual_entity, add_manual_entity, EdgeUpdates, EntityUpdates,
}
use network_analytics_predic.Workspace.Notes.{
  set_review_status, set_task_state, add_case_note, add_comment, add_annotation,
}
use network_analytics_predic.Graph.{Settings, Source}
use network_analytics_predic.Workspace.Path.{set_path}
use network_analytics_predic.Workspace.Keeps.Past.{
  redo-WorkspaceOk, undo-WorkspaceOk, commit-WorkspaceOk,
}
use network_analytics_predic.Workspace.Keeps.{
  set_review_status-WorkspaceOk, set_task_state-WorkspaceOk, add_case_note-WorkspaceOk,
  add_comment-WorkspaceOk, add_annotation-WorkspaceOk, save_search-WorkspaceOk,
  set_path-WorkspaceOk, expand_neighbors-WorkspaceOk, pin_search_result-WorkspaceOk,
}
use network_analytics_predic.Workspace.Valid.{content-WorkspaceOk, create-WorkspaceOk, WorkspaceOk}
use network_analytics_predic.Workspace.Search.{
  save_search, SearchResult, expand_neighbors, pin_search_result,
}
use network_analytics_predic.Workspace.Keeps.Items.{
  restore_workspace_snapshot-WorkspaceOk, save_workspace_snapshot-WorkspaceOk,
  save_layout-WorkspaceOk, restore_redactions-WorkspaceOk, redact_chart_item-WorkspaceOk,
  remove_manual_edge-WorkspaceOk, edit_manual_edge-WorkspaceOk, add_manual_edge-WorkspaceOk,
  remove_manual_entity-WorkspaceOk, move_manual_entity-WorkspaceOk, edit_manual_entity-WorkspaceOk,
  add_manual_entity-WorkspaceOk, ChosenOk,
}
use network_analytics_predic.Workspace.History.{
  redo_workspace_change, redo-IsBounded, undo_workspace_change, commit_workspace_change,
  undo-IsBounded, commit-IsBounded, IsBounded,
}
use network_analytics_predic.Prelude.{ℕ, [], ℤ, String, arith, All, ◌∷◌, List, Option}
use network_analytics_predic.Workspace.State.{
  Snapshot, GraphView, edit, Workspace, create_chart_workspace,
}

-- The operations of chart-workspace.mjs, and the graph phrases of bloom-exploration.mjs, with their
-- arguments, as the controls call them.
pub data Action : Type 0 where
  pin : Option SearchResult → Source → Settings → Action
  expand : Source → Settings → String → Action
  find_path : Source → Settings → String → String → Action
  keep_search : String → Source → Settings → Action
  annotate : String → String → Action
  comment : String → Option String → Action
  note : String → Action
  task : String → Option String → Action
  review : Option String → Action
  add_entity : String → Option String → Option ℤ → Option ℤ → Option String → Action
  edit_entity : String → EntityUpdates → Action
  move_entity : String → ℤ → ℤ → Action
  remove_entity : String → Action
  add_edge : String → String → Option String → Action
  edit_edge : String → EdgeUpdates → Action
  remove_edge : String → Action
  redact : String → Action
  restore_redacted : Action
  keep_layout : String → GraphView → Action
  snapshot : Option String → Action
  restore : Option Snapshot → Action
  phrase : Parsed → Source → Settings → Action

abbrev pub perform : Action → Workspace → Workspace
perform (pin r source settings) w = pin_search_result w r source settings
perform (expand source settings id) w = expand_neighbors w source settings id
perform (find_path source settings a b) w = set_path w source settings a b
perform (keep_search name source settings) w = save_search w name source settings
perform (annotate remark target) w = add_annotation w remark target
perform (comment remark target) w = add_comment w remark target
perform (note remark) w = add_case_note w remark
perform (task label status) w = set_task_state w label status
perform (review status) w = set_review_status w status
perform (add_entity label type x y style) w = add_manual_entity w label type x y style
perform (edit_entity id updates) w = edit_manual_entity w id updates
perform (move_entity id dx dy) w = move_manual_entity w id dx dy
perform (remove_entity id) w = remove_manual_entity w id
perform (add_edge a b label) w = add_manual_edge w a b label
perform (edit_edge id updates) w = edit_manual_edge w id updates
perform (remove_edge id) w = remove_manual_edge w id
perform (redact id) w = redact_chart_item w id
perform restore_redacted w = restore_redactions w
perform (keep_layout name view) w = save_layout w name view
perform (snapshot name) w = save_workspace_snapshot w name
perform (restore chosen) w = restore_workspace_snapshot w chosen
perform (phrase parsed source settings) w = (execute_parsed w parsed source settings).workspace

-- A snapshot that comes from the browser's storage is taken as it is, so it has to be well formed.
abbrev pub ActionOk : Action → Type 0
ActionOk (restore chosen) = ChosenOk chosen
ActionOk _ = Unit

-- A control commits once, after one operation or several: the expansion of a relationship expands
-- both its ends, a new edge may get its style.
abbrev pub perform_all : List Action → Workspace → Workspace
perform_all [] w = w
perform_all (a ∷ actions) w = perform_all actions (perform a w)

pub data Step : Workspace → Workspace → Type 0 where
  committed :
      (actions : List Action) {w : Workspace}
      → All ActionOk actions
      → Step w (commit_workspace_change w (perform_all actions w))
  undone : {w : Workspace} → Step w (undo_workspace_change w)
  redone : {w : Workspace} → Step w (redo_workspace_change w)
  typed : (query : String) {w : Workspace} → Step w (edit (λ c. record c { query = query }) w)
  note_saved :
      (hex : ℕ → String) (draft : Draft) (citations : List String) {w : Workspace}
      → Step w (save_ai_note hex draft citations w)
  restarted : {w : Workspace} → Step w create_chart_workspace

pub data Reachable : Workspace → Type 0 where
  created : Reachable create_chart_workspace
  after : {w v : Workspace} → Reachable w → Step w v → Reachable v

perform-WorkspaceOk :
    (a : Action) (w : Workspace) → ActionOk a → WorkspaceOk w → WorkspaceOk (perform a w)
perform-WorkspaceOk (pin r source settings) w ok h =
    pin_search_result-WorkspaceOk w r source settings h
perform-WorkspaceOk (expand source settings id) w ok h =
    expand_neighbors-WorkspaceOk w source settings id h
perform-WorkspaceOk (find_path source settings a b) w ok h =
    set_path-WorkspaceOk w source settings a b h
perform-WorkspaceOk (keep_search name source settings) w ok h =
    save_search-WorkspaceOk w name source settings h
perform-WorkspaceOk (annotate remark target) w ok h = add_annotation-WorkspaceOk w remark target h
perform-WorkspaceOk (comment remark target) w ok h = add_comment-WorkspaceOk w remark target h
perform-WorkspaceOk (note remark) w ok h = add_case_note-WorkspaceOk w remark h
perform-WorkspaceOk (task label status) w ok h = set_task_state-WorkspaceOk w label status h
perform-WorkspaceOk (review status) w ok h = set_review_status-WorkspaceOk w status h
perform-WorkspaceOk (add_entity label type x y style) w ok h =
    add_manual_entity-WorkspaceOk w label type x y style h
perform-WorkspaceOk (edit_entity id updates) w ok h = edit_manual_entity-WorkspaceOk w id updates h
perform-WorkspaceOk (move_entity id dx dy) w ok h = move_manual_entity-WorkspaceOk w id dx dy h
perform-WorkspaceOk (remove_entity id) w ok h = remove_manual_entity-WorkspaceOk w id h
perform-WorkspaceOk (add_edge a b label) w ok h = add_manual_edge-WorkspaceOk w a b label h
perform-WorkspaceOk (edit_edge id updates) w ok h = edit_manual_edge-WorkspaceOk w id updates h
perform-WorkspaceOk (remove_edge id) w ok h = remove_manual_edge-WorkspaceOk w id h
perform-WorkspaceOk (redact id) w ok h = redact_chart_item-WorkspaceOk w id h
perform-WorkspaceOk restore_redacted w ok h = restore_redactions-WorkspaceOk w h
perform-WorkspaceOk (keep_layout name view) w ok h = save_layout-WorkspaceOk w name view h
perform-WorkspaceOk (snapshot name) w ok h = save_workspace_snapshot-WorkspaceOk w name h
perform-WorkspaceOk (restore chosen) w ok h = restore_workspace_snapshot-WorkspaceOk w chosen ok h
perform-WorkspaceOk (phrase parsed source settings) w ok h =
    execute_parsed-WorkspaceOk w parsed source settings h

perform_all-WorkspaceOk :
    (actions : List Action) (w : Workspace)
    → All ActionOk actions
    → WorkspaceOk w
    → WorkspaceOk (perform_all actions w)
perform_all-WorkspaceOk [] w ok h = h
perform_all-WorkspaceOk (a ∷ actions) w ok h =
    perform_all-WorkspaceOk actions (perform a w) ok.1 (perform-WorkspaceOk a w ok.0 h)

Step-WorkspaceOk : {w v : Workspace} → Step w v → WorkspaceOk w → WorkspaceOk v
Step-WorkspaceOk {w = w} (committed actions ok) h =
    commit-WorkspaceOk w (perform_all actions w) h (perform_all-WorkspaceOk actions w ok h)
Step-WorkspaceOk {w = w} undone h = undo-WorkspaceOk w h
Step-WorkspaceOk {w = w} redone h = redo-WorkspaceOk w h
Step-WorkspaceOk {w = w} (typed query) h =
    let v = h.body.content in content-WorkspaceOk w h (assumption)
Step-WorkspaceOk {w = w} (note_saved hex draft citations) h =
    save_ai_note-WorkspaceOk hex draft citations w h
Step-WorkspaceOk restarted h = create-WorkspaceOk

Step-IsBounded : {w v : Workspace} → Step w v → IsBounded w → IsBounded v
Step-IsBounded {w = w} (committed actions ok) h = commit-IsBounded w (perform_all actions w)
Step-IsBounded {w = w} undone h = undo-IsBounded w h
Step-IsBounded {w = w} redone h = redo-IsBounded w h
Step-IsBounded {w = w} (typed query) h = h
Step-IsBounded {w = w} (note_saved hex draft citations) h =
    save_ai_note-IsBounded hex draft citations w h
Step-IsBounded restarted h = omega arith

-- Every workspace that the controls can bring about from a new one, provided that each snapshot
-- restored from outside holds well-formed contents, is well formed, together with its snapshot and all
-- bodies in its history (pins, expansions and redactions without repetitions, known statuses,
-- chart items off the evidence and edges between two different items, entities on the chart but for
-- a bottom limit, audit ids numbered without gaps), and its two history stacks hold at most thirty bodies together.
pub Reachable-WorkspaceOk : {w : Workspace} → Reachable w → WorkspaceOk w × IsBounded w
Reachable-WorkspaceOk created = (create-WorkspaceOk, omega arith)
Reachable-WorkspaceOk (after r s) =
    let h = Reachable-WorkspaceOk r in (Step-WorkspaceOk s h.0, Step-IsBounded s h.1)
