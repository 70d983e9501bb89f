-- ===== src/Workspace/Notes.antt =====
-- packages/graph-renderer/chart-workspace.mjs: annotations, comments, case notes, task states and the
-- review status. A default parameter of the source is an `Option` argument here.
use network_analytics_predic.Prelude.{
  String, Bool, Option, none, some, List, [], ◌∷◌, ◌++◌, map, find, has, is_empty, get_or,
  if◌then◌else◌, ◌==◌,
}
use network_analytics_predic.Workspace.State.{
  Workspace, Annotation, Comment, CaseNote, Task, text, edit, next_id, normalized, clean_text,
  record_audit, review_statuses, task_statuses,
}

abbrev pub new_annotation : Workspace → String → String → Annotation
new_annotation w clean target_id = record {
  id = next_id "note" w.annotations;
  target_id = target_id;
  text = clean;
  classification = "analyst annotation";
}

unfoldable pub add_annotation : Workspace → String → String → Workspace
add_annotation w note target_id =
    let clean = clean_text note "" in
    if is_empty clean
    then w
    else edit
        (λ c. record c { annotations = c.annotations ++ new_annotation w clean target_id ∷ [] }) w

abbrev pub new_comment : Workspace → String → Option String → Comment
new_comment w clean target = record {
  id = next_id "comment" w.comments;
  target_id = get_or target "workspace";
  text = clean;
  classification = "analyst comment";
  evidence_status = "not evidence";
}

unfoldable pub add_comment : Workspace → String → Option String → Workspace
add_comment w remark target =
    let clean = clean_text remark "" in
    let comment = new_comment w clean target in
    if is_empty clean
    then w
    else record_audit (edit (λ c. record c { comments = c.comments ++ comment ∷ [] }) w)
        "comment-added" (("id", text comment.id) ∷ ("targetId", text comment.target_id) ∷ [])

abbrev pub new_case_note : Workspace → String → CaseNote
new_case_note w clean = record {
  id = next_id "case-note" w.case_notes;
  text = clean;
  classification = "case note";
  evidence_status = "not evidence";
}

unfoldable pub add_case_note : Workspace → String → Workspace
add_case_note w remark =
    let clean = clean_text remark "" in
    let note = new_case_note w clean in
    if is_empty clean
    then w
    else record_audit (edit (λ c. record c { case_notes = c.case_notes ++ note ∷ [] }) w)
        "case-note-added" (("id", text note.id) ∷ [])

-- `TASK_STATUSES.has(status) ? status : "todo"`
abbrev pub checked_status : List String → String → String → String
checked_status allowed status fallback = if has allowed status then status else fallback

abbrev pub same_label : String → Task → Bool
same_label label task = normalized task.label == normalized label

unfoldable pub find_task : String → List Task → Option Task
find_task label tasks = find (same_label label) tasks

-- `taskStates.map((item) => item.id === task.id ? task : item)`
unfoldable pub put_task : Task → List Task → List Task
put_task task = map (λ item. if item.id == task.id then task else item)

abbrev pub new_task : String → String → List Task → Task
new_task label status tasks = record {
  id = next_id "task" tasks;
  label = label;
  status = status;
  classification = "workspace task";
}

unfoldable pub upsert_task : String → String → List Task → Task × List Task
unfolding find_task put_task
upsert_task label status tasks = elim (find_task label tasks) [
  | none ↦ let task = new_task label status tasks in (task, tasks ++ task ∷ [])
  | some existing ↦
      let task : Task = record existing { status = status } in (task, put_task task tasks)
]

unfoldable pub set_task_state : Workspace → String → Option String → Workspace
unfolding upsert_task
set_task_state w label status =
    let clean = clean_text label "" in
    let (task, task_states) =
      upsert_task clean (checked_status task_statuses (get_or status "todo") "todo")
        w.task_states in
    if is_empty clean
    then w
    else record_audit (edit (λ c. record c { task_states = task_states }) w) "task-state-updated"
        (("id", text task.id) ∷ ("status", text task.status) ∷ [])

unfoldable pub set_review_status : Workspace → Option String → Workspace
set_review_status w status =
    let review_status = checked_status review_statuses (get_or status "triage") "triage" in
    record_audit (edit (λ c. record c { review_status = review_status }) w) "review-status-updated"
      (("reviewStatus", text review_status) ∷ [])
