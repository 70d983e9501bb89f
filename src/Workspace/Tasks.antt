-- ===== src/Workspace/Tasks.antt =====
-- packages/graph-renderer/chart-workspace.mjs: `setTaskState` inserts a task or updates it.
use network_analytics_predic.Workspace.State.{
  task_statuses, clean_text, normalized, Workspace, record_audit, Task,
}
use network_analytics_predic.Workspace.Notes.{
  checked_status, new_task, set_task_state, upsert_task, same_label, put_task, find_task,
}
use network_analytics_predic.Prelude.{
  refl, subst, get_or, false, length-map, is_empty, length-append, Option, Option-cases, ◌+◌,
  length, eq_refl, inr, inl, ◌==◌, Bool-cases, [], ◌++◌, ◌∷◌, none, some, true, List, String, ◌≡◌,
}

find_task-put_task :
    (label : String) (task : Task) (tasks : List Task) (old : Task)
    → same_label label task ≡ true
    → old.id ≡ task.id
    → find_task label tasks ≡ some old
    → find_task label (put_task task tasks) ≡ some task
unfolding find_task put_task
find_task-put_task label task [] old same id found = cc
find_task-put_task label task (t ∷ tasks) old same id found = elim (Bool-cases (t.id == task.id)) [
  | inl e ↦ rw (e, same)
  | inr e ↦ elim (Bool-cases (same_label label t)) [
    | inl k ↦ let this : t ≡ old = cc (rw k at found) in absurd (cc (e, this, id, eq_refl task.id))
    | inr k ↦ rw (e, k) (find_task-put_task label task tasks old same id (rw k at found))
  ]
]

find_task-append :
    (label : String) (task : Task) (tasks : List Task)
    → same_label label task ≡ true
    → find_task label tasks ≡ none
    → find_task label (tasks ++ task ∷ []) ≡ some task
unfolding find_task
find_task-append label task [] same h = rw same
find_task-append label task (t ∷ tasks) same h = elim (Bool-cases (same_label label t)) [
  | inl e ↦ absurd (cc (rw e at h))
  | inr e ↦ rw e (find_task-append label task tasks same (rw e at h))
]

-- The task that was found bears the label that was looked for.
found-same_label :
    (label : String) (tasks : List Task) (t : Task)
    → find_task label tasks ≡ some t
    → same_label label t ≡ true
unfolding find_task
found-same_label label [] t h = cc
found-same_label label (x ∷ tasks) t h = elim (Bool-cases (same_label label x)) [
  | inl e ↦ let this : x ≡ t = cc (rw e at h) in subst (λ a. same_label label a ≡ true) this e
  | inr e ↦ found-same_label label tasks t (rw e at h)
]

record Upserted (label status : String) (tasks : List Task) (result : Task × List Task)
    : Type 0 where
  found : find_task label result.1 ≡ some result.0
  set : result.0.status ≡ status
  size :
      length result.1
      ≡ (elim (find_task label tasks) [ none ↦ length tasks + 1 | some _ ↦ length tasks ])

upsert_task-Upserted :
    (label status : String) (tasks : List Task)
    → Upserted label status tasks (upsert_task label status tasks)
unfolding upsert_task
upsert_task-Upserted label status tasks = elim (Option-cases (find_task label tasks)) [
  | inl e ↦
      let task = new_task label status tasks in
      rw (e, upsert_task)
        (record {
          found = find_task-append label task tasks (eq_refl (normalized label)) e;
          set = refl;
          size = rw e (length-append tasks (task ∷ []));
        })
  | inr (old, e) ↦
      let task : Task = record old { status = status } in
      rw (e, upsert_task)
        (record {
          found =
              find_task-put_task label task tasks old (found-same_label label tasks old e) refl e;
          set = refl;
          size = rw e (unfold put_task in length-map _ tasks);
        })
]

-- After a task is given a state under a label that is not blank, the task of that label has the state, or
-- "todo" when the state is not one of the four, and the list is one longer if there was no task of the
-- label (compared without case and outer spaces) and as long as before otherwise.
pub set_task_state-Upserted :
    (w : Workspace) (label : String) (status : Option String)
    → is_empty (clean_text label "") ≡ false
    → let clean = clean_text label "" in
      let state = checked_status task_statuses (get_or status "todo") "todo" in
      let after = (set_task_state w label status).task_states in
      (t : Task) × (find_task clean after ≡ some t)
      × (t.status ≡ state)
      × (length after ≡ (elim (find_task clean w.task_states) [
        | none ↦ length w.task_states + 1
        | some _ ↦ length w.task_states
      ]))
unfolding set_task_state record_audit
set_task_state-Upserted w label status h =
    let clean = clean_text label "" in
    let state = checked_status task_statuses (get_or status "todo") "todo" in
    let u = upsert_task-Upserted clean state w.task_states in
    rw h ((upsert_task clean state w.task_states).0, u.found, u.set, u.size)
