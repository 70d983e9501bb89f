-- ===== src/Workspace/Examples.antt =====
-- Concrete workspaces and sources, as the fixtures of the repository have them, to which the theorems apply.
use network_analytics_predic.Workspace.Notes.{add_annotation, add_case_note}
use network_analytics_predic.Copilot.Review.{prepare_assistant_note, Draft}
use network_analytics_predic.Workspace.AiNote.{save_note, save_ai_note}
use network_analytics_predic.Workspace.Snapshots.{
  restore-save, Since, here, then_undone, then_committed,
}
use network_analytics_predic.Workspace.Path.Correct.{shortest_path_correct}
use network_analytics_predic.Workspace.Path.Walk.{Walk}
use network_analytics_predic.Workspace.Redaction.{export_briefing_chart-Alike}
use network_analytics_predic.Workspace.Status.{
  export_case_packet-ready, path_dependencies-Disclosed, Disclosed,
}
use network_analytics_predic.Graph.{Node, Relationship, Settings, Source}
use network_analytics_predic.Workspace.Valid.{create-WorkspaceOk, WorkspaceOk}
use network_analytics_predic.Workspace.Manual.{
  redact_chart_item, save_workspace_snapshot, add_manual_entity, remove_manual_entity,
  restore_workspace_snapshot,
}
use network_analytics_predic.Workspace.Path.Round.{IsShortestPath}
use network_analytics_predic.Workspace.Reach.{
  note_saved, remove_entity, committed, created, Reachable-WorkspaceOk, after, redact, annotate,
  perform_all, Reachable,
}
use network_analytics_predic.Workspace.History.{
  push_capped, redo-undo, IsBounded, commit_workspace_change, redo_workspace_change,
  undo_workspace_change,
}
use network_analytics_predic.Workspace.Ids.{
  Reachable-audit_log-Distinct, add_manual_entity-repeats_id, entity_ids,
}
use network_analytics_predic.Workspace.State.{
  next_id, text, record_audit, clean_text, ManualEntity, create_chart_workspace, edit, Workspace,
}
use network_analytics_predic.Workspace.Export.{export_briefing_chart, export_case_packet}
use network_analytics_predic.Workspace.Path.{no_path, shortest_path}
use network_analytics_predic.Prelude.{
  ◌⧺◌, some, arith, trim, ℕ, ap, has-unique, show, ◌+◌, false, pos, ◌==◌, ◌↔◌, ◌⊎◌, find, map, none,
  true, ◌≡◌, All, Distinct, List, String, length, [], ◌∷◌, refl,
}

abbrev person : String → Node
person id = record { id = id; type = "person"; label = id; role = none; x = pos 10; y = pos 20 }

abbrev link : String → String → String → Relationship
link id subject object = record {
  id = id;
  subject = subject;
  object = object;
  predicate = "contacted";
  relation = "communications";
  periods = "before" ∷ "after" ∷ [];
  status = "observed";
  event_time = "2026-02-19 10:00 UTC";
  known_at = "2026-02-20 09:00 UTC";
  evidence_class = "report";
  confidence = "moderate";
  reliability = "B";
  credibility = "2";
  source = "Synthetic log";
  reasoning = "Direct record";
  caveat = "Training data";
  community_before = "harbor";
  community_after = "north";
}

abbrev settings : Settings
settings = record {
  alias_included = true;
  window_days = 30;
  relation_filter = "all";
  comparison_mode = "split";
  split_count = 3;
  split_boundary_percent = 50;
  split_strategy = "recommended";
  label_density = "comfortable";
  spacing = 1;
  high_contrast = false;
  show_communities = true;
}

abbrev links : List Relationship
links = link "r1" "ana" "bo" ∷ link "r2" "bo" "cy" ∷ link "r3" "ana" "cy" ∷ []

abbrev source : Source
source = record {
  nodes = person "ana" ∷ person "bo" ∷ person "cy" ∷ person "di" ∷ [];
  node_by_id =
      λ id. find (λ n. n.id == id) (person "ana" ∷ person "bo" ∷ person "cy" ∷ person "di" ∷ []);
  visible_relationships = λ _. links;
}

abbrev entity : String → String → ManualEntity
entity id label = record {
  id = id;
  label = label;
  type = "place";
  role = "analyst-created chart entity";
  classification = "analyst chart item";
  evidence_status = "not evidence";
  x = pos 28;
  y = pos 28;
  style = "slate";
}

abbrev one_entity : Workspace
one_entity =
    edit (λ c. record c { manual_entities = entity "manual-entity-1" "Depot" ∷ [] })
      create_chart_workspace

abbrev redacted_entity : String → Workspace
redacted_entity label =
    edit
      (λ c. record c {
        manual_entities = entity "manual-entity-1" label ∷ [];
        redacted_item_ids = "manual-entity-1" ∷ [];
      })
      create_chart_workspace

shortest_path_correct_example :
    IsShortestPath links "ana" "cy" (shortest_path source settings "ana" "cy")
    ⊎ ((shortest_path source settings "ana" "cy" ≡ no_path) × ((k : ℕ) → ¬ Walk links "ana" k "cy"))
shortest_path_correct_example =
    shortest_path_correct source settings "ana" "cy" refl refl (λ e. cc (ap (λ s. s == "cy") e))

abbrev marked : Workspace
marked =
    commit_workspace_change create_chart_workspace
      (perform_all (annotate "check" "ana" ∷ redact "ana" ∷ []) create_chart_workspace)

abbrev draft : Draft
draft = record { text = some "The evidence [r1] needs review."; answer = none; prompt = none }

abbrev noted : Workspace
noted = save_ai_note show draft ("r1" ∷ []) marked

-- The note gives two entries: its own, and the assistant's.
noted_test :
    map (λ x. x.id ⧺ " " ⧺ x.action) noted.audit_log
    ≡ "audit-1 case-note-added" ∷ "audit-2 ai-note-saved" ∷ []
unfolding save_ai_note save_note prepare_assistant_note record_audit commit_workspace_change
    add_case_note clean_text redact_chart_item add_annotation next_id show
noted_test = refl

noted-Reachable : Reachable noted
noted-Reachable =
    after (after created (committed (annotate "check" "ana" ∷ redact "ana" ∷ []) (tt, (tt, tt))))
      (note_saved show draft ("r1" ∷ []))

Reachable-WorkspaceOk_example : WorkspaceOk noted × IsBounded noted
Reachable-WorkspaceOk_example = Reachable-WorkspaceOk noted-Reachable

Reachable-audit_log-Distinct_example : Distinct (map (λ x. x.id) noted.audit_log)
Reachable-audit_log-Distinct_example = Reachable-audit_log-Distinct noted-Reachable

briefing_Alike_example :
    export_briefing_chart (redacted_entity "Depot") source settings
    ≡ export_briefing_chart (redacted_entity "Safe house") source settings
briefing_Alike_example =
    export_briefing_chart-Alike (redacted_entity "Depot") (redacted_entity "Safe house") source
      settings
      (record {
        redacted = refl;
        path = refl;
        entities = (
          record {
            same_id = refl;
            same_type = refl;
            same_evidence = refl;
            shown = λ h. cc (has-unique ("manual-entity-1" ∷ []) "manual-entity-1", h);
          },
          tt,
        );
        edges = tt;
        notes = tt;
      })

packet_ready_example :
    ((export_case_packet create_chart_workspace source settings).status ≡ "ready-for-review") ↔ (
      (length create_chart_workspace.manual_entities + length create_chart_workspace.manual_edges
        ≡ 0)
      × All (λ t. t.status ≡ "done") create_chart_workspace.task_states)
packet_ready_example =
    export_case_packet-ready create_chart_workspace source settings create-WorkspaceOk.body.content

abbrev on_path : Workspace
on_path =
    edit (λ c. record c { path_relationship_ids = "r1" ∷ "r9" ∷ []; redacted_item_ids = "r1" ∷ [] })
      create_chart_workspace

path_dependencies_example :
    All (Disclosed on_path links) (export_briefing_chart on_path source settings).path_dependencies
path_dependencies_example = path_dependencies-Disclosed on_path source settings

abbrev two_steps : Workspace
two_steps = commit_workspace_change create_chart_workspace one_entity

abbrev committed_once : Workspace
committed_once = record one_entity { undo_stack = create_chart_workspace.body ∷ [] }

redo-undo_example : redo_workspace_change (undo_workspace_change committed_once) ≡ committed_once
redo-undo_example = redo-undo committed_once (omega arith) (λ e. cc e)

-- A snapshot is saved, the entity removed and a note written, the note undone.
abbrev snapped : Workspace
snapped = commit_workspace_change one_entity (save_workspace_snapshot one_entity none)

abbrev removed : Workspace
removed =
    commit_workspace_change snapped (perform_all (remove_entity "manual-entity-1" ∷ []) snapped)

abbrev undone_note : Workspace
undone_note =
    undo_workspace_change
      (commit_workspace_change removed (perform_all (annotate "check" "ana" ∷ []) removed))

undone_note-Since : Since snapped undone_note
unfolding save_workspace_snapshot undo_workspace_change commit_workspace_change push_capped
    record_audit remove_manual_entity
undone_note-Since =
    then_undone
      (then_committed (annotate "check" "ana" ∷ [])
        (then_committed (remove_entity "manual-entity-1" ∷ []) here (tt, tt)) (tt, tt))
      refl

snapshot_example :
    let back = commit_workspace_change undone_note (restore_workspace_snapshot undone_note none) in
    (back.content
      ≡ (record_audit one_entity "workspace-snapshot-restored"
          (("name", text (clean_text "Workspace snapshot" "Workspace snapshot")) ∷ [])).content)
    × ((undo_workspace_change back).body ≡ undone_note.body)
snapshot_example = restore-save one_entity none undone_note-Since

abbrev two_entities : Workspace
two_entities =
    edit
      (λ c. record c {
        manual_entities = entity "manual-entity-1" "Depot" ∷ entity "manual-entity-2" "Ship" ∷ [];
      })
      create_chart_workspace

repeated_id_example :
    entity_ids
      (add_manual_entity
        (remove_manual_entity two_entities "manual-entity-1")
        "Crane"
        none
        none
        none
        none).manual_entities
    ≡ "manual-entity-2" ∷ "manual-entity-2" ∷ []
repeated_id_example =
    add_manual_entity-repeats_id two_entities (entity "manual-entity-1" "Depot")
      (entity "manual-entity-2" "Ship") [] "Crane" none none none none refl
      (unfold show in (refl, (refl, tt))) (unfold clean_text trim in refl)
