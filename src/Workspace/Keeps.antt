-- ===== src/Workspace/Keeps.antt =====
-- Every operation keeps a workspace well formed.
pub mod Items
pub mod Past
use network_analytics_predic.Prelude.{
  All-snoc, unique, ◌≡◌, refl, String, true, Option, none, some, List, [], ◌∷◌, ◌++◌, ◌==◌, has,
  All, All-map, is_empty, inl, inr, Bool-cases, Option-cases, if_keeps, unique-Distinct, find,
  get_or,
}
use network_analytics_predic.Graph.{Relationship, Settings, Source}
use network_analytics_predic.Workspace.State.{
  clean_text, Workspace, Comment, CaseNote, Task, edit, review_statuses, task_statuses,
}
use network_analytics_predic.Workspace.Valid.{
  content-WorkspaceOk, TaskOk, WorkspaceOk, record_audit-WorkspaceOk,
}
use network_analytics_predic.Workspace.Search.{
  pin_relationship, SearchResult, pin_search_result, expand_neighbors, save_search, node,
  relationship,
}
use network_analytics_predic.Workspace.Path.{set_path}
use network_analytics_predic.Workspace.Notes.{
  new_case_note, new_comment, new_task, add_annotation, add_comment, add_case_note, checked_status,
  find_task, put_task, upsert_task, set_task_state, set_review_status,
}

pin_relationship-WorkspaceOk :
    (w : Workspace) (id : String) (visible : List Relationship)
    → WorkspaceOk w
    → WorkspaceOk (pin_relationship w id visible)
unfolding pin_relationship
pin_relationship-WorkspaceOk w id visible h = elim (Option-cases (find (λ r. r.id == id) visible)) [
  | inl e ↦ rw (e, pin_relationship) h
  | inr (r, e) ↦
      let v = h.body.content in
      rw (e, pin_relationship) (content-WorkspaceOk w h (search unique-Distinct))
]

pub pin_search_result-WorkspaceOk :
    (w : Workspace) (r : Option SearchResult) (source : Source) (settings : Settings)
    → WorkspaceOk w
    → WorkspaceOk (pin_search_result w r source settings)
unfolding pin_search_result
pin_search_result-WorkspaceOk w none source settings h = h
pin_search_result-WorkspaceOk w (some r) source settings h =
    let v = h.body.content in
    elim r.kind
      as (λ k. WorkspaceOk (elim k [
        | node ↦
            edit (λ c. record c { pinned_node_ids = unique (c.pinned_node_ids ++ r.id ∷ []) }) w
        | relationship ↦ pin_relationship w r.id (source.visible_relationships settings)
      ])) [
        | node ↦ content-WorkspaceOk w h (search unique-Distinct)
        | relationship ↦
            pin_relationship-WorkspaceOk w r.id (source.visible_relationships settings) h
      ]

pub expand_neighbors-WorkspaceOk :
    (w : Workspace) (source : Source) (settings : Settings) (id : String)
    → WorkspaceOk w
    → WorkspaceOk (expand_neighbors w source settings id)
unfolding expand_neighbors
expand_neighbors-WorkspaceOk w source settings id h =
    let v = h.body.content in content-WorkspaceOk w h (search unique-Distinct)

pub set_path-WorkspaceOk :
    (w : Workspace) (source : Source) (settings : Settings) (a b : String)
    → WorkspaceOk w
    → WorkspaceOk (set_path w source settings a b)
unfolding set_path
set_path-WorkspaceOk w source settings a b h =
    let v = h.body.content in content-WorkspaceOk w h (assumption)

pub save_search-WorkspaceOk :
    (w : Workspace) (name : String) (source : Source) (settings : Settings)
    → WorkspaceOk w
    → WorkspaceOk (save_search w name source settings)
unfolding save_search
save_search-WorkspaceOk w name source settings h =
    let v = h.body.content in
    if_keeps WorkspaceOk _ w _ h
      (record_audit-WorkspaceOk _ _ _ (content-WorkspaceOk w h (assumption)))

pub add_annotation-WorkspaceOk :
    (w : Workspace) (note target_id : String)
    → WorkspaceOk w
    → WorkspaceOk (add_annotation w note target_id)
unfolding add_annotation
add_annotation-WorkspaceOk w note target_id h =
    let v = h.body.content in
    if_keeps WorkspaceOk (is_empty (clean_text note "")) w _ h
      (content-WorkspaceOk w h (assumption))

pub add_comment-WorkspaceOk :
    (w : Workspace) (remark : String) (target : Option String)
    → WorkspaceOk w
    → WorkspaceOk (add_comment w remark target)
unfolding add_comment
add_comment-WorkspaceOk w remark target h =
    let v = h.body.content in
    let more =
      All-snoc (λ (x : Comment). x.evidence_status ≡ "not evidence") w.comments
        (new_comment w (clean_text remark "") target) v.comments refl in
    if_keeps WorkspaceOk (is_empty (clean_text remark "")) w _ h
      (record_audit-WorkspaceOk _ _ _ (content-WorkspaceOk w h (assumption more)))

pub add_case_note-WorkspaceOk :
    (w : Workspace) (remark : String) → WorkspaceOk w → WorkspaceOk (add_case_note w remark)
unfolding add_case_note
add_case_note-WorkspaceOk w remark h =
    let v = h.body.content in
    let more =
      All-snoc (λ (x : CaseNote). x.evidence_status ≡ "not evidence") w.case_notes
        (new_case_note w (clean_text remark "")) v.notes refl in
    if_keeps WorkspaceOk (is_empty (clean_text remark "")) w _ h
      (record_audit-WorkspaceOk _ _ _ (content-WorkspaceOk w h (assumption more)))

pub checked_status-has :
    (allowed : List String) (status fallback : String)
    → has allowed fallback ≡ true
    → has allowed (checked_status allowed status fallback) ≡ true
checked_status-has allowed status fallback h = elim (Bool-cases (has allowed status)) [
  | inl e ↦ rw e e
  | inr e ↦ rw e h
]

put_task-TaskOk :
    (task : Task) (tasks : List Task)
    → TaskOk task
    → All TaskOk tasks
    → All TaskOk (put_task task tasks)
unfolding put_task
put_task-TaskOk task tasks t h =
    All-map TaskOk TaskOk _ tasks (λ x hx. if_keeps TaskOk (x.id == task.id) task x t hx) h

upsert_task-TaskOk :
    (label status : String) (tasks : List Task)
    → has task_statuses status ≡ true
    → All TaskOk tasks
    → All TaskOk (upsert_task label status tasks).1
upsert_task-TaskOk label status tasks ok h = elim (Option-cases (find_task label tasks)) [
  | inl e ↦
      unfold upsert_task in
      rw (e, upsert_task) (All-snoc TaskOk tasks (new_task label status tasks) h ok)
  | inr (t, e) ↦
      unfold upsert_task in
      rw (e, upsert_task) (put_task-TaskOk (record t { status = status }) tasks ok h)
]

pub set_task_state-WorkspaceOk :
    (w : Workspace) (label : String) (status : Option String)
    → WorkspaceOk w
    → WorkspaceOk (set_task_state w label status)
set_task_state-WorkspaceOk w label status h =
    let v = h.body.content in
    let checked = checked_status task_statuses (get_or status "todo") "todo" in
    let more =
      upsert_task-TaskOk (clean_text label "") checked w.task_states
        (checked_status-has task_statuses (get_or status "todo") "todo" refl) v.tasks in
    unfold set_task_state in
    if_keeps WorkspaceOk (is_empty (clean_text label "")) w _ h
      (record_audit-WorkspaceOk _ _ _ (content-WorkspaceOk w h (assumption more)))

pub set_review_status-WorkspaceOk :
    (w : Workspace) (status : Option String)
    → WorkspaceOk w
    → WorkspaceOk (set_review_status w status)
unfolding set_review_status
set_review_status-WorkspaceOk w status h =
    let v = h.body.content in
    let ok = checked_status-has review_statuses (get_or status "triage") "triage" refl in
    record_audit-WorkspaceOk _ _ _ (content-WorkspaceOk w h (assumption ok))
