-- ===== src/Copilot/Guides.antt =====
-- `findEvidenceGaps`, `coachNextStep` and `suggestNextReviewAction`. A row of `semanticRows` has no `statusLabel`.
-- The texts of the coach and of the suggestions that are the same for all are left out.
use network_analytics_predic.Copilot.Evidence.{ReportText}
use network_analytics_predic.Timeline.Rows.{SemanticEdge, semantic_rows}
use network_analytics_predic.Workspace.State.{Task, Workspace}
use network_analytics_predic.Workspace.Export.{export_briefing_chart}
use network_analytics_predic.Graph.{Settings, Source}
use Prim.Native.String.{String}
use mathlib.Core.Option
use network_analytics_predic.Prelude.{
  refl, ◌∙◌, sym, ap, arith, ◌<◌, ◌||◌, ◌↔◌, ◌≡◌, ltb, ◌++◌, length, ◌==◌, any, eqb, find, get_or,
  if◌then◌else◌, lower, not, ℕ, ◌⧺◌, Bool, List, Option, includes, show, true, false, none, some,
  [], ◌∷◌,
}

pub record Gap : Type 0 where
  pub severity : String
  pub issue : String

pub record GapReport : Type 0 where
  pub gaps : List Gap
  pub status : String

abbrev pub gap_when : Bool → String → String → List Gap
gap_when b severity issue = if b then record { severity = severity; issue = issue } ∷ [] else []

unfoldable pub includes_one : List String → String → Bool
unfolding includes lower
includes_one parts words = any (includes (lower words)) parts

abbrev pub is_open : Task → Bool
is_open task = not (task.status == "done")

abbrev pub open_task : Option Workspace → Option Task
open_task none = none
open_task (some w) = find is_open w.task_states

abbrev pub has_open_task : Option Workspace → Bool
has_open_task workspace = elim (open_task workspace) [ none ↦ false | some task ↦ true ]

-- `briefing?.unsupportedClaims?.length`
unfoldable pub unsupported_count : Source → Settings → Option Workspace → ℕ
unfolding export_briefing_chart
unsupported_count source settings none = 0
unsupported_count source settings (some w) =
    length (export_briefing_chart w source settings).unsupported_claims

unfoldable pub understates : Option ReportText → Bool
unfolding includes_one
understates none = false
understates (some report) = not (
    includes_one ("contrary" ∷ "limitation" ∷ "uncertain" ∷ "synthetic" ∷ [])
      (report.contrary_evidence ⧺ " " ⧺ report.limitations))

unfoldable pub gaps_of :
    Source → Settings → Option ReportText → Option Workspace → List SemanticEdge → List Gap
unfolding includes_one unsupported_count understates show
gaps_of source settings report workspace rows =
    let unsupported = unsupported_count source settings workspace in
    gap_when (eqb (length rows) 0) "high" "No visible evidence rows in authorized projection."
    ++ gap_when
        (any
          (λ row. includes_one ("uncertain" ∷ "moderate" ∷ []) (row.relationship.confidence ⧺ " "))
          rows)
        "medium" "Some visible relationships are uncertain or moderate confidence."
    ++ gap_when (ltb 0 unsupported) "high"
        (show unsupported ⧺ " manual chart item(s) cannot support factual claims.")
    ++ gap_when (understates report) "medium"
        "Report text may understate uncertainty or contrary evidence."
    ++ gap_when (has_open_task workspace) "medium" "Open review tasks remain before export."

unfoldable pub find_evidence_gaps :
    Source → Settings → Option ReportText → Option Workspace → Option GapReport
unfolding semantic_rows gaps_of
find_evidence_gaps source settings report workspace =
    Option.map
      (λ rows.
        let gaps = gaps_of source settings report workspace rows in
        record {
          gaps = gaps;
          status =
              if any (λ gap. gap.severity == "high") gaps then "needs-review" else "reviewable";
        })
      (semantic_rows settings source)

pub record GuidedStep : Type 0 where
  pub id : String
  pub label : String
  pub explanation : String
  pub task : String

pub record Coaching : Type 0 where
  pub mode : String
  pub step_id : String
  pub explanation : String
  pub recommended_next_action : String

abbrev pub step_text : (GuidedStep → String) → String → Option GuidedStep → String
step_text field other step = get_or (Option.map field step) other

unfoldable pub coach_next_step : Option GuidedStep → String → Option Workspace → Coaching
coach_next_step step mode workspace = record {
  mode = if mode == "expert" then "expert" else "novice";
  step_id = step_text (λ s. s.id) "unknown" step;
  explanation =
      if mode == "expert"
      then "Review "
        ⧺ step_text (λ s. s.label) "the current step" step
        ⧺ " for projection, dependency, and uncertainty impacts."
      else "This step helps you decide what the visible evidence can and cannot support: "
        ⧺ step_text (λ s. s.explanation) "follow the guided task." step;
  recommended_next_action =
      if has_open_task workspace
      then "Finish or update open review tasks before export."
      else step_text (λ s. s.task) "Continue to the next guided step." step;
}

-- What the suggestion reads of a candidate of the model evaluation.
pub record EvaluatedCandidate : Type 0 where
  pub label : String
  pub failures : List String

pub record ReviewAction : Type 0 where
  pub action : String
  pub label : String
  pub expected_metric : String
  pub dependency_id : Option String

abbrev is_blocked : EvaluatedCandidate → Bool
unfolding includes_one
is_blocked c = any (includes_one ("hard-negative" ∷ "overreliance" ∷ "calibration" ∷ [])) c.failures

abbrev is_uncertain : SemanticEdge → Bool
unfolding includes_one
is_uncertain row =
    let r = row.relationship in
    includes_one ("moderate" ∷ "low" ∷ "uncertain" ∷ [])
      (r.confidence ⧺ " " ⧺ r.reasoning ⧺ " " ⧺ r.caveat)

abbrev pub action_of : Option Task → Option SemanticEdge → Option EvaluatedCandidate → ReviewAction
action_of (some task) row candidate = record {
  action = "complete-open-task";
  label = task.label;
  expected_metric = "task-completion-rate";
  dependency_id = none;
}
action_of none (some row) candidate = record {
  action = "review-uncertain-evidence";
  label = row.subject_label ⧺ " " ⧺ row.relationship.predicate ⧺ " " ⧺ row.object_label;
  expected_metric = "explanation-coverage";
  dependency_id = some row.relationship.id;
}
action_of none none candidate = record {
  action = "label-hard-negative";
  label = get_or (Option.map (λ c. c.label) candidate) "Review hard-negative example";
  expected_metric = "hard-negative false-positive rate";
  dependency_id = none;
}

unfoldable pub suggest_next_review_action :
    Source → Settings → Option Workspace → List EvaluatedCandidate → Option ReviewAction
unfolding semantic_rows is_blocked is_uncertain
suggest_next_review_action source settings workspace candidates =
    Option.map
      (λ rows.
        action_of (open_task workspace) (find is_uncertain rows) (find is_blocked candidates))
      (semantic_rows settings source)

high_gaps :
    (source : Source) (settings : Settings) (report : Option ReportText)
    (workspace : Option Workspace) (rows : List SemanticEdge)
    → any (λ gap. gap.severity == "high") (gaps_of source settings report workspace rows)
      ≡ (eqb (length rows) 0 || ltb 0 (unsupported_count source settings workspace))
unfolding gaps_of
high_gaps source settings report workspace rows = ground arith

abbrev status_if : Bool → String
status_if b = if b then "needs-review" else "reviewable"

reviewable_if : (b : Bool) → (status_if b ≡ "reviewable") ↔ (b ≡ false)
reviewable_if true = (λ h. cc h, λ h. cc h)
reviewable_if false = (λ h. refl, λ h. refl)

reviewable_cases : (n m : ℕ) → (eqb n 0 || ltb 0 m) ≡ false → (0 < n) × (m ≡ 0)
reviewable_cases n m h = (ground (arith, h), ground (arith, h))

-- The evidence can be reviewed as it is exactly when there is a visible relationship and the chart of the workspace
-- makes no claim without support.
find_evidence_gaps-reviewable :
    (source : Source) (settings : Settings) (report : Option ReportText)
    (workspace : Option Workspace) (rows : List SemanticEdge) (found : GapReport)
    → semantic_rows settings source ≡ some rows
    → find_evidence_gaps source settings report workspace ≡ some found
    → (found.status ≡ "reviewable")
      ↔ ((0 < length rows) × (unsupported_count source settings workspace ≡ 0))
unfolding find_evidence_gaps
find_evidence_gaps-reviewable source settings report workspace rows found e h =
    let high =
      any (λ gap. gap.severity == "high") (gaps_of source settings report workspace rows) in
    let status : status_if high ≡ found.status =
      ap (λ o. (get_or o found).status) (rw (find_evidence_gaps, e) at h) in
    let read = high_gaps source settings report workspace rows in
    (
      λ r. reviewable_cases _ _ (sym read ∙ (reviewable_if high).0 (status ∙ r)),
      λ r. sym status ∙ (reviewable_if high).1 (read ∙ ground (arith, r.0, r.1)),
    )
