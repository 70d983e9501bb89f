-- ===== src/Workspace/Valid.antt =====
-- The well-formedness of a workspace, of its snapshots and of the bodies in its history.
use network_analytics_predic.Prelude.{
  length-map, ℕ, suc, ◌+◌, ◌≡◌, ◌≢◌, ap, ℤ, pos, ◌≤ℤ◌, String, true, false, List, [], ◌∷◌, ◌++◌,
  map, length, has, Distinct, All, is_empty, arith, ◌⧺◌, show,
}
use mathlib.Core.List.{map-append}
use network_analytics_predic.Workspace.State.{
  Workspace, Body, Content, Snapshot, unsaved, saved, ManualEntity, ManualEdge, Task, AuditEntry,
  Value, edit, record_audit, audit_entry, next_id, review_statuses, task_statuses,
  create_chart_workspace,
}

-- The ids are `prefix-k`, `prefix-(k + 1)`, and so on.
abbrev pub NumberedFrom : String → ℕ → List String → Type 0
NumberedFrom prefix k [] = Unit
NumberedFrom prefix k (id ∷ ids) = (id ≡ prefix ⧺ "-" ⧺ show k) × NumberedFrom prefix (suc k) ids

abbrev pub InRange : ℤ → Type 0
InRange c = (pos 5 ≤ℤ c) × (c ≤ℤ pos 95)

pub record EntityOk (e : ManualEntity) : Type 0 where
  pub across : InRange e.x
  pub down : pos 5 ≤ℤ e.y
  pub not_evidence : e.evidence_status ≡ "not evidence"

pub record EdgeOk (e : ManualEdge) : Type 0 where
  pub from : is_empty e.source_id ≡ false
  pub to : is_empty e.target_id ≡ false
  pub apart : e.source_id ≢ e.target_id
  pub not_evidence : e.evidence_status ≡ "not evidence"

abbrev pub TaskOk : Task → Type 0
TaskOk t = has task_statuses t.status ≡ true

pub record IsValid (c : Content) : Type 0 where
  pub pinned : Distinct c.pinned_node_ids
  pub expanded : Distinct c.expanded_node_ids
  pub redacted : Distinct c.redacted_item_ids
  pub review : has review_statuses c.review_status ≡ true
  pub tasks : All TaskOk c.task_states
  pub entities : All EntityOk c.manual_entities
  pub edges : All EdgeOk c.manual_edges
  pub comments : All (λ x. x.evidence_status ≡ "not evidence") c.comments
  pub notes : All (λ x. x.evidence_status ≡ "not evidence") c.case_notes
  pub audit : NumberedFrom "audit" 1 (map (λ x. x.id) c.audit_log)

abbrev pub SnapshotOk : Snapshot → Type 0
SnapshotOk unsaved = Unit
SnapshotOk (saved title content inner) = IsValid content × SnapshotOk inner

pub record BodyOk (b : Body) : Type 0 where
  pub content : IsValid b.content
  pub snapshot : SnapshotOk b.saved_workspace_snapshot

pub record WorkspaceOk (w : Workspace) : Type 0 where
  pub body : BodyOk w.body
  pub past : All BodyOk w.undo_stack
  pub future : All BodyOk w.redo_stack

pub create-WorkspaceOk : WorkspaceOk create_chart_workspace
create-WorkspaceOk = record {
  body = record { content = ground arith; snapshot = tt };
  past = tt;
  future = tt;
}

-- An operation that only edits the content keeps the rest.
pub edit-WorkspaceOk :
    (f : Content → Content) (w : Workspace)
    → (IsValid w.content → IsValid (f w.content))
    → WorkspaceOk w
    → WorkspaceOk (edit f w)
edit-WorkspaceOk f w keep h = record {
  body = record { content = keep h.body.content; snapshot = h.body.snapshot };
  past = h.past;
  future = h.future;
}

-- The same, at the content itself.
pub content-WorkspaceOk :
    (w : Workspace) {c : Content}
    → WorkspaceOk w
    → IsValid c
    → WorkspaceOk (record w { body = record w.body { content = c } })
content-WorkspaceOk w h v = record {
  body = record { content = v; snapshot = h.body.snapshot };
  past = h.past;
  future = h.future;
}

pub NumberedFrom-append :
    (prefix : String) (k : ℕ) (ids : List String)
    → NumberedFrom prefix k ids
    → NumberedFrom prefix k (ids ++ (prefix ⧺ "-" ⧺ show (length ids + k)) ∷ [])
NumberedFrom-append prefix k [] h = (ap (λ n. prefix ⧺ "-" ⧺ show n) (omega arith), tt)
NumberedFrom-append prefix k (id ∷ ids) h =
    let shift : suc (length ids) + k ≡ length ids + suc k = omega arith in
    (h.0, rw shift (NumberedFrom-append prefix (suc k) ids h.1))

length-ids : (log : List AuditEntry) → length (map (λ x. x.id) log) ≡ length log
length-ids log = length-map (λ x. x.id) log

-- A recorded action takes the next number of the audit log.
pub record_audit-WorkspaceOk :
    (w : Workspace) (action : String) (detail : List (String × Value))
    → WorkspaceOk w
    → WorkspaceOk (record_audit w action detail)
unfolding record_audit
record_audit-WorkspaceOk w action detail h =
    edit-WorkspaceOk
      (λ c. record c { audit_log = c.audit_log ++ audit_entry c.audit_log action detail ∷ [] }) w
      (λ v. record {
        pinned = v.pinned;
        expanded = v.expanded;
        redacted = v.redacted;
        review = v.review;
        tasks = v.tasks;
        entities = v.entities;
        edges = v.edges;
        comments = v.comments;
        notes = v.notes;
        audit = numbered w.audit_log v.audit;
      })
      h
  where
    numbered :
        (log : List AuditEntry)
        → NumberedFrom "audit" 1 (map (λ x. x.id) log)
        → NumberedFrom "audit" 1 (map (λ x. x.id) (log ++ audit_entry log action detail ∷ []))
    numbered log v =
        unfold next_id in
        rw (map-append, ← length-ids log) (NumberedFrom-append "audit" 1 (map (λ x. x.id) log) v)
