-- ===== src/Workspace/Export.antt =====
-- packages/graph-renderer/chart-workspace.mjs: `explainPath`, `explainExpansion`, `semanticChartRows`,
-- `exportBriefingChart` and `exportCasePacket`. The constant texts of an export are left out where no
-- state enters them.
use network_analytics_predic.Prelude.{
  ℕ, ◌+◌, ℤ, String, Bool, not, ◌&&◌, Option, none, some, List, ◌++◌, map, length, filter, find,
  has, get_or, if◌then◌else◌, ◌==◌, ◌⧺◌, unique, eqb,
}
use mathlib.Core.Option
use network_analytics_predic.Graph.{Relationship, Settings, Source}
use network_analytics_predic.Workspace.State.{
  Workspace, ManualEntity, ManualEdge, Annotation, Comment, CaseNote, SavedSearch, Task, AuditEntry,
}

-- A step of an explained path. The fields that only a visible relationship has are `none` for a
-- hidden one.
pub record PathStep : Type 0 where
  pub id : String
  pub label : String
  pub source : String
  pub event_time : Option String
  pub known_at : Option String
  pub confidence : Option String
  pub caveat : String

abbrev pub hidden_step : String → PathStep
hidden_step id = record {
  id = id;
  label = id;
  source = "Relationship is not visible in the current authorized projection";
  event_time = none;
  known_at = none;
  confidence = none;
  caveat = "Hidden or filtered relationships cannot support a visible path explanation.";
}

-- `subject?.label ?? relationship.subject`
abbrev pub end_label : Source → String → String
end_label source id = get_or (Option.map (λ n. n.label) (source.node_by_id id)) id

abbrev pub visible_step : Source → String → Relationship → PathStep
visible_step source id r = record {
  id = id;
  label = end_label source r.subject ⧺ " " ⧺ r.predicate ⧺ " " ⧺ end_label source r.object;
  source = r.source;
  event_time = some r.event_time;
  known_at = some r.known_at;
  confidence = some r.confidence;
  caveat = r.caveat;
}

abbrev pub relationship_with : String → List Relationship → Option Relationship
relationship_with id rs = find (λ r. r.id == id) rs

abbrev pub step_for : Source → List Relationship → String → PathStep
step_for source rs id = elim (relationship_with id rs) [
  | none ↦ hidden_step id
  | some r ↦ visible_step source id r
]

unfoldable pub explain_path : Workspace → Source → Settings → List PathStep
explain_path w source settings =
    map (step_for source (source.visible_relationships settings)) w.path_relationship_ids

pub record ExpansionRow : Type 0 where
  pub id : String
  pub source : String
  pub confidence : String

pub record Expansion : Type 0 where
  pub visible_node_count : ℕ
  pub visible_relationship_count : ℕ
  pub relationships : List ExpansionRow

abbrev pub expansion_row : List Relationship → String → ExpansionRow
expansion_row rs id = elim (relationship_with id rs) [
  | none ↦ record { id = id; source = "visible relationship"; confidence = "unknown" }
  | some r ↦ record { id = id; source = r.source; confidence = r.confidence }
]

unfoldable pub explain_expansion : Workspace → Source → Settings → Expansion
explain_expansion w source settings =
    let rs = source.visible_relationships settings in
    let visible_ids = unique (map (λ r. r.id) rs) in
    let relationships =
      map (expansion_row rs) (filter (λ id. has visible_ids id) w.path_relationship_ids) in
    record {
      visible_node_count = length (unique (w.pinned_node_ids ++ w.expanded_node_ids));
      visible_relationship_count = length relationships;
      relationships = relationships;
    }

pub record ChartRow : Type 0 where
  pub id : String
  pub label : String
  pub type : String
  pub role : String
  pub note_count : ℕ
  pub redacted : Bool
  pub classification : String

abbrev pub note_count_for : Workspace → String → ℕ
note_count_for w id = length (filter (λ note. note.target_id == id) w.annotations)

abbrev source_row : Workspace → Source → String → ChartRow
source_row w source id =
    let node = source.node_by_id id in
    let redacted = has w.redacted_item_ids id in
    record {
      id = id;
      label =
          if redacted then "Redacted chart item" else get_or (Option.map (λ n. n.label) node) id;
      type = get_or (Option.map (λ n. n.type) node) "unknown";
      role = get_or (Option.bind node (λ n. n.role)) "not assigned";
      note_count = note_count_for w id;
      redacted = redacted;
      classification = "source projection item";
    }

-- `{ ...entity, label, noteCount, redacted }`
pub record ManualRow : Type 0 where
  pub entity : ManualEntity
  pub note_count : ℕ
  pub redacted : Bool

abbrev manual_row : Workspace → ManualEntity → ManualRow
manual_row w entity =
    let redacted = has w.redacted_item_ids entity.id in
    record {
      entity = record entity { label = if redacted then "Redacted chart item" else entity.label };
      note_count = note_count_for w entity.id;
      redacted = redacted;
    }

pub data SemanticRow : Type 0 where
  projected : ChartRow → SemanticRow
  manual : ManualRow → SemanticRow

unfoldable pub semantic_chart_rows : Workspace → Source → List SemanticRow
semantic_chart_rows w source =
    map (λ id. projected (source_row w source id))
      (unique (w.pinned_node_ids ++ w.expanded_node_ids ++ w.path_node_ids))
    ++ map (λ entity. manual (manual_row w entity)) w.manual_entities

pub record Dependency : Type 0 where
  pub id : String
  pub label : String
  pub source : String
  pub confidence : Option String

pub record ExportedEntity : Type 0 where
  pub id : String
  pub label : String
  pub type : String
  pub x : Option ℤ
  pub y : Option ℤ
  pub style : String
  pub evidence_status : String
  pub redacted : Bool

pub record ExportedEdge : Type 0 where
  pub id : String
  pub source_id : String
  pub target_id : String
  pub label : String
  pub style : String
  pub evidence_status : String
  pub redacted : Bool

pub record BriefingChart : Type 0 where
  pub status : String
  pub redaction_count : ℕ
  pub path_dependencies : List Dependency
  pub manual_item_count : ℕ
  pub note_count : ℕ
  pub manual_entities : List ExportedEntity
  pub manual_edges : List ExportedEdge
  pub annotations : List Annotation
  pub unsupported_claims : List String

abbrev pub export_entity : List String → ManualEntity → ExportedEntity
export_entity redacted_ids entity =
    let redacted = has redacted_ids entity.id in
    record {
      id = entity.id;
      label = if redacted then "Redacted chart item" else entity.label;
      type = entity.type;
      x = if redacted then none else some entity.x;
      y = if redacted then none else some entity.y;
      style = if redacted then "redacted" else entity.style;
      evidence_status = entity.evidence_status;
      redacted = redacted;
    }

abbrev pub export_edge : List String → ManualEdge → ExportedEdge
export_edge redacted_ids edge =
    let redacted = has redacted_ids edge.id in
    record {
      id = edge.id;
      source_id = edge.source_id;
      target_id = edge.target_id;
      label = if redacted then "Redacted chart link" else edge.label;
      style = edge.style;
      evidence_status = edge.evidence_status;
      redacted = redacted;
    }

abbrev pub export_annotation : List String → Annotation → Annotation
export_annotation redacted_ids note = record note {
  text = if has redacted_ids note.target_id then "Redacted analyst note" else note.text;
}

abbrev pub dependency_of : PathStep → Dependency
dependency_of step = record {
  id = step.id;
  label = step.label;
  source = step.source;
  confidence = step.confidence;
}

unfoldable pub unsupported_claims_of : List ExportedEntity → List ExportedEdge → List String
unsupported_claims_of entities edges =
    map (λ e. e.id) (filter (λ e. not (e.evidence_status == "evidence")) entities)
    ++ map (λ e. e.id) (filter (λ e. not (e.evidence_status == "evidence")) edges)

unfoldable pub export_briefing_chart : Workspace → Source → Settings → BriefingChart
unfolding unsupported_claims_of
export_briefing_chart w source settings =
    let redacted = unique w.redacted_item_ids in
    let entities = map (export_entity redacted) w.manual_entities in
    let edges = map (export_edge redacted) w.manual_edges in
    let unsupported = unsupported_claims_of entities edges in
    record {
      status = if eqb (length unsupported) 0 then "ready" else "blocked-for-factual-claims";
      redaction_count = length redacted;
      path_dependencies =
          map dependency_of
            (filter (λ step. not (has redacted step.id)) (explain_path w source settings));
      manual_item_count = length entities + length edges;
      note_count = length w.annotations;
      manual_entities = entities;
      manual_edges = edges;
      annotations = map (export_annotation redacted) w.annotations;
      unsupported_claims = unsupported;
    }

pub record CasePacket : Type 0 where
  pub status : String
  pub review_status : String
  pub saved_searches : List SavedSearch
  pub comments : List Comment
  pub case_notes : List CaseNote
  pub task_states : List Task
  pub expansion : Expansion
  pub chart : BriefingChart
  pub audit_log : List AuditEntry

abbrev pub open_tasks : Workspace → List Task
open_tasks w = filter (λ task. not (task.status == "done")) w.task_states

abbrev packet_comment : Comment → Comment
packet_comment comment = record comment { evidence_status = "not evidence" }

abbrev packet_note : CaseNote → CaseNote
packet_note note = record note { evidence_status = "not evidence" }

unfoldable pub export_case_packet : Workspace → Source → Settings → CasePacket
unfolding export_briefing_chart explain_expansion
export_case_packet w source settings =
    let chart = export_briefing_chart w source settings in
    record {
      status =
          if chart.status == "ready" && eqb (length (open_tasks w)) 0
          then "ready-for-review"
          else "needs-review";
      review_status = w.review_status;
      saved_searches = w.saved_searches;
      comments = map packet_comment w.comments;
      case_notes = map packet_note w.case_notes;
      task_states = w.task_states;
      expansion = explain_expansion w source settings;
      chart = chart;
      audit_log = w.audit_log;
    }
