-- ===== src/Workspace/AiNote.antt =====
-- apps/web/app.mjs: the control `saveAiNote`, which saves the assistant's draft as a case note by a commit, and then adds
-- the assistant's audit to the audit log in place.
use network_analytics_predic.Copilot.Policy.{AiAudit}
use network_analytics_predic.Copilot.Query.{slice}
use network_analytics_predic.Copilot.Review.{NotePreview, Draft, prepare_assistant_note}
use network_analytics_predic.Workspace.History.{
  IsBounded, commit-IsBounded, commit_workspace_change,
}
use network_analytics_predic.Workspace.Keeps.Past.{commit-WorkspaceOk}
use network_analytics_predic.Workspace.Keeps.{add_case_note-WorkspaceOk}
use network_analytics_predic.Workspace.Notes.{add_case_note}
use network_analytics_predic.Workspace.State.{
  Value, Workspace, record_audit, text, flag, texts, summary,
}
use network_analytics_predic.Workspace.Valid.{WorkspaceOk, record_audit-WorkspaceOk}
use network_analytics_predic.Prelude.{[], inr, if◌then◌else◌, inl, ◌∷◌, List, String, ℕ, Bool-cases}

-- The object of an assistant's audit, as the detail of an entry.
abbrev pub detail_of : AiAudit → List (String × Value)
detail_of audit =
    ("prompt", text audit.prompt)
    ∷ ("action", text audit.action)
    ∷ ("policyDecision", text audit.policy_decision)
    ∷ ("policyReason", text audit.policy_reason)
    ∷ ("retrievedSourceIds", texts audit.retrieved_source_ids)
    ∷ ("outputSummary", summary audit.output_summary.length audit.output_summary.hash)
    ∷ ("model", text audit.model)
    ∷ ("configVersion", text audit.config_version)
    ∷ ("userDecision", text audit.user_decision)
    ∷ ("saved", flag audit.saved)
    ∷ []

-- The part after the review: a note that may be saved is committed, and its audit is added in place.
unfoldable pub save_note : NotePreview → Workspace → Workspace
save_note preview w =
    if preview.allowed
    then record_audit (commit_workspace_change w (add_case_note w (slice 160 preview.note)))
        "ai-note-saved" (detail_of preview.audit)
    else w

-- The draft, and the ids that are cited for it; `hex` writes a number as a hexadecimal text.
unfoldable pub save_ai_note : (ℕ → String) → Draft → List String → Workspace → Workspace
save_ai_note hex draft citations w = save_note (prepare_assistant_note hex draft citations) w

save_note-WorkspaceOk :
    (preview : NotePreview) (w : Workspace) → WorkspaceOk w → WorkspaceOk (save_note preview w)
unfolding save_note
save_note-WorkspaceOk preview w h =
    let next = add_case_note w (slice 160 preview.note) in
    elim (Bool-cases preview.allowed) [
      | inl e ↦ rw e (
          record_audit-WorkspaceOk (commit_workspace_change w next) "ai-note-saved"
            (detail_of preview.audit)
            (commit-WorkspaceOk w next h (add_case_note-WorkspaceOk w (slice 160 preview.note) h)))
      | inr e ↦ rw e h
    ]

save_note-IsBounded :
    (preview : NotePreview) (w : Workspace) → IsBounded w → IsBounded (save_note preview w)
unfolding save_note record_audit
save_note-IsBounded preview w h = elim (Bool-cases preview.allowed) [
  | inl e ↦ rw e (commit-IsBounded w (add_case_note w (slice 160 preview.note)))
  | inr e ↦ rw e h
]

pub save_ai_note-WorkspaceOk :
    (hex : ℕ → String) (draft : Draft) (citations : List String) (w : Workspace)
    → WorkspaceOk w
    → WorkspaceOk (save_ai_note hex draft citations w)
unfolding save_ai_note
save_ai_note-WorkspaceOk hex draft citations w h =
    save_note-WorkspaceOk (prepare_assistant_note hex draft citations) w h

pub save_ai_note-IsBounded :
    (hex : ℕ → String) (draft : Draft) (citations : List String) (w : Workspace)
    → IsBounded w
    → IsBounded (save_ai_note hex draft citations w)
unfolding save_ai_note
save_ai_note-IsBounded hex draft citations w h =
    save_note-IsBounded (prepare_assistant_note hex draft citations) w h
