-- ===== src/Copilot/Answer.antt =====
-- `answerGraphQuestion` and `draftNeutralReport`. A report that is given has all its texts.
use network_analytics_predic.Copilot.Policy.{AiAudit, Policy, ai_audit, classify_prompt}
use network_analytics_predic.Copilot.Evidence.{
  Question, Ranked, ReportText, Retrieval, RetrievedRow, retrieve_graph_evidence, top_rows,
}
use network_analytics_predic.Timeline.Rows.{semantic_rows, SemanticEdge}
use network_analytics_predic.Graph.{Settings, Source}
use Prim.Native.String.{String}
use mathlib.Core.Option
use Prim.Native.Char.{code}
use network_analytics_predic.Prelude.{
  replace_part, eqb, ◌&&◌, get_or, is_empty, map, Bool, List, Option, if◌then◌else◌, ℕ, ◌⧺◌, true,
  false, none, some, [], ◌∷◌,
}

abbrev pub cited : String → String
cited id = "[" ⧺ id ⧺ "]"

-- `texts.join(separator)`
abbrev pub join : String → List String → String
join separator [] = ""
join separator (t ∷ []) = t
join separator (t ∷ u ∷ rest) = t ⧺ separator ⧺ join separator (u ∷ rest)

pub record Citation : Type 0 where
  pub id : String
  pub source : String
  pub event_time : String
  pub known_at : String

-- A retrieved row has a label, a row of `topRows` has none.
pub record Support : Type 0 where
  pub citation : Citation
  pub label : Option String

abbrev pub support_of : RetrievedRow → Support
support_of row = record {
  citation = record {
    id = row.id;
    source = row.source;
    event_time = row.event_time;
    known_at = row.known_at;
  };
  label = some row.label;
}

abbrev pub unlabeled : Ranked → Support
unlabeled ranked =
    let r = ranked.row.relationship in
    record {
      citation = record {
        id = r.id;
        source = r.source;
        event_time = r.event_time;
        known_at = r.known_at;
      };
      label = none;
    }

-- `retrieval.rows.length ? retrieval.rows : topRows(source, settings)`
abbrev pub support_or : List Support → List RetrievedRow → List Support
support_or top [] = top
support_or top (row ∷ rows) = map support_of (row ∷ rows)

unfoldable pub evidence_for :
    (String → String → Bool) → List SemanticEdge → Retrieval → List Support
unfolding top_rows
evidence_for id_before rows retrieval =
    support_or (map unlabeled (top_rows id_before rows 4)) retrieval.rows

-- `focus?.label ?? "The selected graph"` and `focus?.id ?? "none"`
abbrev pub focus_label : List Support → String
focus_label [] = "The selected graph"
focus_label (s ∷ rest) = get_or s.label "The selected graph"

abbrev pub focus_id : List Support → String
focus_id [] = "none"
focus_id (s ∷ rest) = s.citation.id

abbrev pub review_aid : String
review_aid = "This report support is a review aid only and does not assert guilt or criminality "

unfoldable pub answer_text : List Support → String
answer_text evidence =
    focus_label evidence
    ⧺ " is important because the visible authorized graph links it to high-signal relationship evidence "
    ⧺ cited (focus_id evidence)
    ⧺ ". The strongest support is timing, direction, and role/context language from "
    ⧺ join ", " (map (λ s. cited s.citation.id) evidence)
    ⧺ ". "
    ⧺ review_aid
    ⧺ cited (focus_id evidence)
    ⧺ "."

pub record GraphAnswer : Type 0 where
  pub refused : Bool
  pub reason : Option String
  pub answer : String
  pub citations : List Citation
  pub uncertainty : List String
  pub retrieval : Retrieval
  pub audit : AiAudit

abbrev pub refusal : String → String
refusal reason =
    "Refused " ⧺ reason
    ⧺ ". I can summarize cited evidence and uncertainty, but I cannot make accusations or enforcement decisions."

unfoldable pub refused_answer : (ℕ → String) → Question → Policy → Retrieval → GraphAnswer
unfolding ai_audit
refused_answer hex q policy retrieval = record {
  refused = true;
  reason = some (refusal policy.reason);
  answer = "";
  citations = [];
  uncertainty = "No factual answer generated because the request violates assistant policy." ∷ [];
  retrieval = retrieval;
  audit = ai_audit hex q.prompt "answer" policy [] (refusal policy.reason) "not-saved" false;
}

unfoldable pub given_answer :
    (ℕ → String) → Question → Policy → List Support → Retrieval → GraphAnswer
unfolding ai_audit answer_text
given_answer hex q policy evidence retrieval = record {
  refused = false;
  reason = none;
  answer = answer_text evidence;
  citations = map (λ s. s.citation) evidence;
  uncertainty =
      get_or (Option.map (λ r. r.contrary_evidence) q.report)
        "Contrary evidence must be checked before any escalation."
      ∷ get_or (Option.map (λ r. r.limitations) q.report)
          "Model and assistant outputs are uncalibrated training behavior."
      ∷ [];
  retrieval = retrieval;
  audit =
      ai_audit hex q.prompt "answer" policy (map (λ s. s.citation.id) evidence)
        (answer_text evidence) "not-saved" false;
}

-- What an answer gives to the retrieval: no workspace, and no limit of its own.
abbrev pub question_of : String → Source → Settings → Option ReportText → Question
question_of prompt source settings report = record {
  prompt = prompt;
  source = source;
  settings = settings;
  workspace = none;
  report = report;
  limit = none;
}

unfoldable pub answer_of :
    (String → String → Bool) → (ℕ → String) → Question → List SemanticEdge → Retrieval → GraphAnswer
unfolding classify_prompt evidence_for given_answer refused_answer
answer_of id_before hex q rows retrieval =
    let policy = classify_prompt q.prompt in
    if policy.allowed
    then given_answer hex q policy (evidence_for id_before rows retrieval) retrieval
    else refused_answer hex q policy retrieval

unfoldable pub answer_graph_question :
    (String → String → Bool)
    → (ℕ → String)
    → String
    → Source
    → Settings
    → Option ReportText
    → Option GraphAnswer
unfolding retrieve_graph_evidence semantic_rows answer_of
answer_graph_question id_before hex prompt source settings report =
    let q = question_of prompt source settings report in
    elim (semantic_rows settings source) [
      | none ↦ none
      | some rows ↦
          Option.map (answer_of id_before hex q rows) (retrieve_graph_evidence id_before q)
    ]

-- `text.replace(/\.$/, words)`
unfoldable pub replace_last_dot : String → String → String
replace_last_dot words String.[] = ""
replace_last_dot words (String.◌∷◌ c s) =
    if is_empty s && eqb (code c) 46 then words else String.◌∷◌ c (replace_last_dot words s)

pub record ReportDraft : Type 0 where
  pub text : String
  pub citations : List String
  pub audit : AiAudit

-- `evidence[0]?.id ?? "none"`
abbrev lead_id : List RetrievedRow → String
lead_id [] = "none"
lead_id (row ∷ rest) = row.id

unfoldable pub draft_of : (ℕ → String) → ReportText → Retrieval → ReportDraft
unfolding ai_audit replace_part replace_last_dot
draft_of hex report retrieval =
    let lead = cited (lead_id retrieval.rows) in
    let ids = map (λ row. row.id) retrieval.rows in
    let text =
      "Draft summary: "
      ⧺ replace_part ". This is" (" " ⧺ lead ⧺ ". This is") report.assessment
      ⧺ " "
      ⧺ lead
      ⧺ "\nKey support: "
      ⧺ join "; " (map (λ row. row.label ⧺ " " ⧺ cited row.id) retrieval.rows)
      ⧺ ".\nUncertainty: "
      ⧺ replace_last_dot (" " ⧺ lead ⧺ ".") report.contrary_evidence
      ⧺ " "
      ⧺ report.limitations
      ⧺ " "
      ⧺ lead
      ⧺ "\nNext lawful action: "
      ⧺ report.next_action
      ⧺ " "
      ⧺ lead in
    record {
      text = text;
      citations = ids;
      audit =
          ai_audit hex "draft neutral report" "draft-report"
            (record { allowed = true; reason = "neutral report drafting" }) ids text
            "draft-not-evidence" false;
    }

unfoldable pub draft_neutral_report :
    (String → String → Bool) → (ℕ → String) → Source → Settings → ReportText → Option ReportDraft
unfolding retrieve_graph_evidence draft_of
draft_neutral_report id_before hex source settings report = Option.map (draft_of hex report) (
    retrieve_graph_evidence id_before
      (question_of "draft neutral report" source settings (some report)))
