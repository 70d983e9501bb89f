-- ===== src/Harbor/Report.antt =====
-- packages/guided-workflow/harbor-lantern.mjs: `deriveAnalysis`, `reportModel` and `runPreflight`. The report's
-- fields that no check reads and no state enters (title, scope, next action) are left out.
use network_analytics_predic.Graph.{Relationship, Settings}
use network_analytics_predic.Harbor.State.{visible_relationships, differs_from, Analysis}
use network_analytics_predic.Prelude.{
  inr, arith, inl, Bool-cases, length-map, length, ltb, refl, ◌&&◌, false, is_empty, map, true,
  if◌then◌else◌, not, show, ◌||◌, ◌≡◌, Bool, all, eqb, lower, ℕ, ◌⧺◌, List, String, includes, ◌∷◌,
  [],
}

pub record Derived : Type 0 where
  pub split_confidence : String
  pub interpretation : String
  pub communities : ℕ
  pub changed_memberships : ℕ
  pub evidence_coverage : String
  pub alternative : String
  pub version_reason : String

unfoldable pub derive_analysis : Settings → Settings → Derived
derive_analysis defaults s =
    let short_window = eqb s.window_days 14 in
    record {
      split_confidence =
          if not s.alias_included
          then "low"
          else if short_window
          then "low–moderate"
          else "moderate";
      interpretation =
          if not s.alias_included
          then "The apparent second branch is too weak to support a split interpretation."
          else if short_window
          then "The shorter window makes the pattern look abrupt, but it also removes useful context."
          else "The observed network is consistent with a possible temporary split.";
      communities = if s.alias_included then 2 else 1;
      changed_memberships = if s.alias_included then 3 else 1;
      evidence_coverage = if short_window then "61%" else if s.alias_included then "78%" else "72%";
      alternative =
          "A source-coverage gap from February 24–March 2 could make gradual drift look like a discrete split.";
      version_reason =
          if not (differs_from defaults s)
          then "Recommended analysis"
          else "Alternative analytical assumptions";
    }

pub record Report : Type 0 where
  pub question : String
  pub before : String
  pub after : String
  pub known_at : String
  pub fixture : String
  pub assessment : String
  pub contrary_evidence : String
  pub method : String
  pub limitations : String
  pub dependencies : List String

-- The fixture: its question, its relationships and its default settings.
pub record Fixture : Type 0 where
  pub question : String
  pub relationships : List Relationship
  pub defaults : Settings

abbrev pub assessment_of : Derived → String
assessment_of analysis =
    analysis.interpretation ⧺ " Confidence is " ⧺ analysis.split_confidence
    ⧺ " and sensitive to an unresolved alias and a source-coverage gap."

unfoldable pub report_model : Fixture → Analysis → Report
report_model fixture state =
    let analysis = derive_analysis fixture.defaults state.settings in
    record {
      question = fixture.question;
      before = "January 18–February 16, 2026";
      after = "February 17–March 18, 2026";
      known_at = "March 18, 2026 at 23:59";
      fixture = "HarborLanternInterchangeV1@1.0.0";
      assessment = assessment_of analysis;
      contrary_evidence =
          "The disputed alias may join two people incorrectly, and no direct observation establishes that the Northstar–Halcyon relationship ended.";
      method =
          "Independent community snapshots with explicit lineage matching · analysis v"
          ⧺ show state.analysis_version;
      limitations =
          analysis.evidence_coverage
          ⧺ " estimated source coverage; missing observations are not negative evidence.";
      dependencies =
          map (λ r. r.source) (visible_relationships fixture.relationships state.settings);
    }

-- `/possible|consistent/i.test(text)`
abbrev pub is_neutral : String → Bool
is_neutral words = includes (lower words) "possible" || includes (lower words) "consistent"

pub record Preflight : Type 0 where
  pub checks : List (String × Bool)
  pub passed : Bool

unfoldable pub checks_of : Analysis → Report → List (String × Bool)
checks_of state report =
    let journey = state.journey in
    ("Evidence has been inspected", journey.evidence_inspected)
    ∷ ("Reasoning and uncertainty have been reviewed", journey.reasoning_inspected)
    ∷ ("Alternative explanation has been reviewed", journey.alternative_reviewed)
    ∷ ("Recommended next review action has been acknowledged", journey.recommendation_acknowledged)
    ∷ ("Finding is marked ready", state.finding_ready)
    ∷ (
      "Both event-time windows are recorded",
      not (is_empty report.before) && not (is_empty report.after),
    )
    ∷ ("Known-at cutoff is recorded", not (is_empty report.known_at))
    ∷ ("Canonical fixture version is recorded", not (is_empty report.fixture))
    ∷ ("Neutral community language is used", is_neutral report.assessment)
    ∷ ("Contrary evidence is included", not (is_empty report.contrary_evidence))
    ∷ ("Confidence and limitations are disclosed", not (is_empty report.limitations))
    ∷ ("Source dependencies are attached", ltb 0 (length report.dependencies))
    ∷ []

unfoldable pub run_preflight : Fixture → Analysis → Preflight
run_preflight fixture state =
    let checks = checks_of state (report_model fixture state) in
    record { checks = checks; passed = all (λ c. c.1) checks }

-- The three assessments, of which one has a neutral word.
neutral_words :
    is_neutral
      "The observed network is consistent with a possible temporary split. Confidence is moderate and sensitive to an unresolved alias and a source-coverage gap."
    ≡ true
unfolding includes lower
neutral_words = refl

weak_words :
    is_neutral
      "The apparent second branch is too weak to support a split interpretation. Confidence is low and sensitive to an unresolved alias and a source-coverage gap."
    ≡ false
unfolding includes lower
weak_words = refl

abrupt_words :
    is_neutral
      "The shorter window makes the pattern look abrupt, but it also removes useful context. Confidence is low–moderate and sensitive to an unresolved alias and a source-coverage gap."
    ≡ false
unfolding includes lower
abrupt_words = refl

neutral_assessment :
    (defaults s : Settings)
    → is_neutral (assessment_of (derive_analysis defaults s))
      ≡ (s.alias_included && not (eqb s.window_days 14))
unfolding derive_analysis
neutral_assessment defaults s = elim (Bool-cases s.alias_included) [
  | inl a ↦ elim (Bool-cases (eqb s.window_days 14)) [
    | inl b ↦ rw (a, b) abrupt_words
    | inr b ↦ rw (a, b) neutral_words
  ]
  | inr a ↦ rw a weak_words
]

has_limitations :
    (defaults s : Settings)
    → is_empty (
        (derive_analysis defaults s).evidence_coverage
        ⧺ " estimated source coverage; missing observations are not negative evidence.")
      ≡ false
unfolding derive_analysis
has_limitations defaults s = elim (Bool-cases s.alias_included) [
  | inl a ↦ elim (Bool-cases (eqb s.window_days 14)) [
    | inl b ↦ rw (a, b) refl
    | inr b ↦ rw (a, b) refl
  ]
  | inr a ↦ elim (Bool-cases (eqb s.window_days 14)) [
    | inl b ↦ rw (a, b) refl
    | inr b ↦ rw (a, b) refl
  ]
]

-- The report passes its preflight exactly when the four steps of the journey are done, the finding is marked
-- ready, a relationship is visible, and the disputed alias is included with a window other than 14 days: with the
-- alias excluded, or with the short window, no report passes.
pub run_preflight-passed :
    (fixture : Fixture) (state : Analysis)
    → let j = state.journey in
      (run_preflight fixture state).passed ≡ (
        j.evidence_inspected
        && j.reasoning_inspected
        && j.alternative_reviewed
        && j.recommendation_acknowledged
        && state.finding_ready
        && (state.settings.alias_included && not (eqb state.settings.window_days 14))
        && ltb 0 (length (visible_relationships fixture.relationships state.settings)))
unfolding run_preflight checks_of report_model
run_preflight-passed fixture state =
    rw
      (
        neutral_assessment fixture.defaults state.settings,
        has_limitations fixture.defaults state.settings,
        length-map,
      )
      (ground arith)
