-- ===== src/Workspace/State.antt =====
-- packages/graph-renderer/chart-workspace.mjs: the state of a chart workspace, `createChartWorkspace`
-- and the helpers of its operations. Each `?? []` of the source guards a field that
-- `createChartWorkspace` always sets, so the fields here are never absent. Coordinates are whole
-- numbers; an absent or non-finite one, as an argument, is `none`.
use network_analytics_predic.Prelude.{
  Bool, ℕ, ◌+◌, ℤ, pos, String, Option, none, some, List, [], ◌∷◌, ◌++◌, length, trim, or_else,
  show, lower, minℤ, maxℤ, ◌⧺◌,
}

pub record ManualEntity : Type 0 where
  pub id : String
  pub label : String
  pub type : String
  pub role : String
  pub classification : String
  pub evidence_status : String
  pub x : ℤ
  pub y : ℤ
  pub style : String

pub record ManualEdge : Type 0 where
  pub id : String
  pub source_id : String
  pub target_id : String
  pub label : String
  pub style : String
  pub classification : String
  pub evidence_status : String

pub record Annotation : Type 0 where
  pub id : String
  pub target_id : String
  pub text : String
  pub classification : String

pub record Comment : Type 0 where
  pub id : String
  pub target_id : String
  pub text : String
  pub classification : String
  pub evidence_status : String

pub record CaseNote : Type 0 where
  pub id : String
  pub text : String
  pub classification : String
  pub evidence_status : String

pub record SavedSearch : Type 0 where
  pub id : String
  pub name : String
  pub query : String
  pub result_count : ℕ
  pub bounded_to : String
  pub explanation : String

pub record Task : Type 0 where
  pub id : String
  pub label : String
  pub status : String
  pub classification : String

-- The values in the `detail` object of an audit entry.
pub data Value : Type 0 where
  text : String → Value
  count : ℕ → Value
  flag : Bool → Value
  texts : List String → Value
  summary : ℕ → String → Value  -- an object of a length and a hash

pub record AuditEntry : Type 0 where
  pub id : String
  pub at : String
  pub actor : String
  pub action : String
  pub detail : List (String × Value)

pub record Visual : Type 0 where
  pub icon : String
  pub image : Option String

-- The part of the graph view that a layout saves: positions, rotation and node visuals.
pub record GraphView : Type 0 where
  pub positions : List (String × (ℤ × ℤ))
  pub rotation : ℤ
  pub node_visuals : List (String × Visual)

pub record Layout : Type 0 where
  pub id : String
  pub name : String
  pub view : GraphView

-- The fields of a workspace but for the snapshot and the two history stacks.
pub record Content : Type 0 where
  pub query : String
  pub pinned_node_ids : List String
  pub expanded_node_ids : List String
  pub path_node_ids : List String
  pub path_relationship_ids : List String
  pub manual_entities : List ManualEntity
  pub manual_edges : List ManualEdge
  pub annotations : List Annotation
  pub comments : List Comment
  pub case_notes : List CaseNote
  pub saved_searches : List SavedSearch
  pub task_states : List Task
  pub review_status : String
  pub audit_log : List AuditEntry
  pub redacted_item_ids : List String
  pub saved_layouts : List Layout
  pub selected_saved_layout_id : String

-- `savedWorkspaceSnapshot`: null, or a name with the workspace that it saves, which has a snapshot
-- of its own. Its `contract` and `savedAt` are constants of the code.
pub data Snapshot : Type 0 where
  unsaved : Snapshot
  saved : String → Content → Snapshot → Snapshot

-- What `withoutHistory` leaves of a workspace. `structuredClone` copies a value and is the identity.
pub record Body : Type 0 where
  pub content : Content
  pub open content use *
  pub saved_workspace_snapshot : Snapshot

pub record Workspace : Type 0 where
  pub body : Body
  pub open body use *
  pub undo_stack : List Body
  pub redo_stack : List Body

-- `{ ...workspace, … }` where the fields given anew are in the content.
abbrev pub edit : (Content → Content) → Workspace → Workspace
edit f w = record w { body = record w.body { content = f w.content } }

abbrev pub empty_content : Content
empty_content = record {
  query = "";
  pinned_node_ids = [];
  expanded_node_ids = [];
  path_node_ids = [];
  path_relationship_ids = [];
  manual_entities = [];
  manual_edges = [];
  annotations = [];
  comments = [];
  case_notes = [];
  saved_searches = [];
  task_states = [];
  review_status = "triage";
  audit_log = [];
  redacted_item_ids = [];
  saved_layouts = [];
  selected_saved_layout_id = "";
}

abbrev pub create_chart_workspace : Workspace
create_chart_workspace = record {
  body = record { content = empty_content; saved_workspace_snapshot = unsaved };
  undo_stack = [];
  redo_stack = [];
}

-- `${prefix}-${items.length + 1}`
unfoldable pub next_id {ℓ} : {A : Type ℓ} → String → List A → String
next_id prefix items = prefix ⧺ "-" ⧺ show (length items + 1)

unfoldable pub normalized : String → String
normalized value = lower (trim value)

unfoldable pub clean_text : String → String → String
clean_text value fallback = or_else (trim value) fallback

abbrev pub review_statuses : List String
review_statuses =
    "triage" ∷ "in-review" ∷ "ready-for-review" ∷ "needs-more-evidence" ∷ "closed-training" ∷ []

abbrev pub task_statuses : List String
task_statuses = "todo" ∷ "in-progress" ∷ "blocked" ∷ "done" ∷ []

abbrev pub audit_entry : List AuditEntry → String → List (String × Value) → AuditEntry
audit_entry log action detail = record {
  id = next_id "audit" log;
  at = "training-session";
  actor = "training-analyst";
  action = action;
  detail = detail;
}

unfoldable pub record_audit : Workspace → String → List (String × Value) → Workspace
record_audit w action detail =
    edit (λ c. record c { audit_log = c.audit_log ++ audit_entry c.audit_log action detail ∷ [] }) w

abbrev clamp : ℤ → ℤ
clamp number = maxℤ (pos 5) (minℤ (pos 95) number)

-- `none` is a value that `Number` does not read as a finite number.
unfoldable pub clamp_coordinate : Option ℤ → ℤ → ℤ
clamp_coordinate none fallback = fallback
clamp_coordinate (some number) fallback = clamp number
