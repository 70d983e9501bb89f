-- ===== src/Import/Benchmark.antt =====
-- packages/guided-workflow/transaction-import.mjs: `evaluateImportedFraudBenchmark`, and the detection, analysis,
-- report and preflight of `createImportedFraudWorkflow`. Ratios are given by their two counts.
use network_analytics_predic.Fraud.Flow.{Clock, FraudSettings, Score, dependencies_of}
use network_analytics_predic.Fraud.Case.{shown_time}
use network_analytics_predic.Fraud.Detect.{
  FraudState, listed, mentions, journey_checks, review_note,
}
use network_analytics_predic.Import.Mapping.{Field, Mapping}
use network_analytics_predic.Import.Preview.{AcceptedRow, Preview}
use network_analytics_predic.Import.Workflow.{known_at_of}
use network_analytics_predic.Import.Detection.{
  Labels, labeled_accounts, label_rows, imported_scores,
}
use network_analytics_predic.Prelude.{
  unique, messages, length, leb, ltb, eqb, min, max, map, filter, any, all, has, take, is_empty,
  not, show, ◌++◌, ◌==◌, ◌&&◌, ◌||◌, if◌then◌else◌, ◌⧺◌, ℕ, suc, zero, String, Bool, true, false,
  Option, none, some, List, [], ◌∷◌,
}

pub record Evaluation : Type 0 where
  pub review_budget : ℕ
  pub labeled : ℕ
  pub positive_accounts : ℕ
  pub negative_accounts : ℕ
  pub true_positive_accounts : List String
  pub reviewed : ℕ
  pub false_positive_accounts : List String
  pub flagged_hard_negatives : List String
  pub abstained : ℕ
  pub explained : ℕ
  pub scored : ℕ
  pub overreliance_warnings : List String

abbrev pub ids_labeled : Bool → Labels → List String
ids_labeled true labels = map (λ l. l.0) (filter (λ l. l.1) labels)
ids_labeled false labels = map (λ l. l.0) (filter (λ l. not l.1) labels)

abbrev pub account_ids : List Score → List String
account_ids = map (λ s. s.account_id)

-- `Math.max(1, Math.min(3, labels.size || 1))`
abbrev pub budget_of : ℕ → ℕ
budget_of zero = max 1 (min 3 1)
budget_of (suc n) = max 1 (min 3 (suc n))

unfoldable pub evaluate_scores : Labels → List Score → Evaluation
evaluate_scores labels scores =
    let budget = budget_of (length labels) in
    let reviewed = take budget scores in
    let positives = ids_labeled true labels in
    let negatives = ids_labeled false labels in
    let false_positives = account_ids (filter (λ s. has negatives s.account_id) reviewed) in
    let flagged =
      account_ids
        (filter (λ s. has negatives s.account_id && s.status == "review-priority") scores) in
    record {
      review_budget = budget;
      labeled = length labels;
      positive_accounts = length positives;
      negative_accounts = length negatives;
      true_positive_accounts = account_ids (filter (λ s. has positives s.account_id) reviewed);
      reviewed = length reviewed;
      false_positive_accounts = false_positives;
      flagged_hard_negatives = flagged;
      abstained =
          length (
            filter (λ s. eqb (length s.indicators) 0 && ltb 0 (length s.contrary_evidence)) scores);
      explained =
          length (
            filter (λ s. ltb 0 (length s.indicators) || ltb 0 (length s.contrary_evidence)) scores);
      scored = length scores;
      overreliance_warnings = messages (
          (true, "Synthetic labels do not establish operational calibration.")
          ∷ (true, "Review-priority means analyst workload ordering, not criminality.")
          ∷ (
            ltb 0 (length flagged),
            "Hard-negative accounts were still flagged and require detector revision.",
          )
          ∷ (
            ltb 0 (length false_positives),
            "Top-review budget includes labeled negatives; analysts must inspect contrary evidence.",
          )
          ∷ []);
    }

unfoldable pub evaluate_imported_fraud_benchmark :
    Clock → List AcceptedRow → FraudSettings → Evaluation
unfolding evaluate_scores imported_scores label_rows
evaluate_imported_fraud_benchmark clock rows settings =
    evaluate_scores (labeled_accounts rows) (imported_scores clock rows settings)

pub record ImportedDetection : Type 0 where
  pub scores : List Score
  pub top_label : String
  pub top_score : ℕ
  pub top_indicators : List String
  pub benchmark_evaluation : Option Evaluation

abbrev top_label_of : List Score → String
top_label_of [] = "No account"
top_label_of (s ∷ scores) = s.label

abbrev top_score_of : List Score → ℕ
top_score_of [] = 0
top_score_of (s ∷ scores) = s.score

abbrev top_indicators_of : List Score → List String
top_indicators_of [] = "no accepted rows" ∷ []
top_indicators_of (s ∷ scores) = s.indicators

-- `evaluated` is `settings.includeBenchmarkEvaluation !== false`.
unfoldable pub detect_imported_fraud_rings :
    Clock → List AcceptedRow → FraudSettings → Bool → ImportedDetection
unfolding imported_scores evaluate_imported_fraud_benchmark label_rows
detect_imported_fraud_rings clock rows settings evaluated =
    let scores = imported_scores clock rows settings in
    record {
      scores = scores;
      top_label = top_label_of scores;
      top_score = top_score_of scores;
      top_indicators = top_indicators_of scores;
      benchmark_evaluation =
          if evaluated && not (eqb (length (labeled_accounts rows)) 0)
          then some (evaluate_imported_fraud_benchmark clock rows settings)
          else none;
    }

pub record ImportedReport : Type 0 where
  pub scope : String
  pub known_at : String
  pub fixture : String
  pub assessment : String
  pub contrary_evidence : String
  pub limitations : String
  pub dependencies : List String

abbrev pub imported_interpretation : ImportedDetection → String
imported_interpretation d =
    d.top_label
    ⧺ " is the top imported review-priority account with an uncalibrated rule-count index of "
    ⧺ show d.top_score
    ⧺ "/100 because it combines "
    ⧺ listed d.top_indicators
    ⧺ "."

unfoldable pub imported_report_model : Clock → Preview → FraudState → ImportedReport
unfolding detect_imported_fraud_rings known_at_of
imported_report_model clock preview state =
    let detection = detect_imported_fraud_rings clock preview.accepted_rows state.settings true in
    record {
      scope =
          preview.file_name
          ⧺ " · "
          ⧺ show preview.summary.accepted
          ⧺ " accepted / "
          ⧺ show preview.summary.rejected
          ⧺ " rejected rows";
      known_at = shown_time (known_at_of preview.accepted_rows);
      fixture = "TransactionImportV1@" ⧺ preview.parser_version;
      assessment = imported_interpretation detection ⧺ review_note;
      contrary_evidence =
          "Rejected rows, legitimate processors, refunds, shared accounts, and delayed posting can change the imported pattern.";
      limitations =
          "Training import only; rejected rows and mapping assumptions are disclosed; scores are uncalibrated.";
      dependencies = dependencies_of detection.scores;
    }

abbrev pub all_fields : List Field
all_fields =
    Field.id ∷ Field.at ∷ Field.origin ∷ Field.origin_kind ∷ Field.destination
    ∷ Field.destination_kind ∷ Field.amount ∷ Field.currency ∷ Field.direction ∷ Field.type
    ∷ Field.description ∷ Field.expected_account_id ∷ Field.expected_review_priority ∷ []

-- `Object.values(preview.mappedColumns).some(Boolean)`
abbrev pub is_mapped : Mapping → Bool
is_mapped mapping = any (λ field. not (is_empty (mapping field))) all_fields

-- The checks that read the preview and the report.
unfoldable pub imported_report_checks : Preview → ImportedReport → List (String × Bool)
imported_report_checks preview report =
    ("Import mapping is recorded", is_mapped preview.mapped_columns)
    ∷ (
      "Accepted and rejected row counts are recorded",
      leb preview.summary.accepted preview.summary.total_rows,
    )
    ∷ ("Known-at cutoff is recorded", not (is_empty report.known_at))
    ∷ (
      "Neutral review-priority language is used",
      mentions report.assessment ("suggested review step" ∷ "review-priority" ∷ []),
    )
    ∷ (
      "Contrary explanations are included",
      mentions report.contrary_evidence ("rejected rows" ∷ "processor" ∷ "refund" ∷ []),
    )
    ∷ ("Calibration limitations are disclosed", mentions report.limitations ("uncalibrated" ∷ []))
    ∷ ("Imported transaction dependencies are attached", ltb 0 (length report.dependencies))
    ∷ []

unfoldable pub imported_checks : Preview → FraudState → ImportedReport → List (String × Bool)
unfolding imported_report_checks
imported_checks preview state report =
    journey_checks state.journey state.finding_ready ++ imported_report_checks preview report

unfoldable pub run_imported_preflight : Clock → Preview → FraudState → Bool
unfolding imported_checks
run_imported_preflight clock preview state =
    all (λ c. c.1) (imported_checks preview state (imported_report_model clock preview state))

pub record ImportedAnalysis : Type 0 where
  pub split_confidence : String
  pub interpretation : String
  pub communities : ℕ
  pub changed_memberships : ℕ

abbrev end_ids : List AcceptedRow → List String
end_ids [] = []
end_ids (row ∷ rows) = row.origin ∷ row.destination ∷ end_ids rows

-- `deriveAnalysis`, without the rounded percentage.
unfoldable pub derive_imported_analysis :
    Clock → List AcceptedRow → FraudSettings → ImportedAnalysis
unfolding detect_imported_fraud_rings
derive_imported_analysis clock rows settings =
    let detection = detect_imported_fraud_rings clock rows settings true in
    record {
      split_confidence =
          if leb 70 detection.top_score
          then "review-priority indicators"
          else "low-moderate review-priority indicators";
      interpretation = imported_interpretation detection;
      communities = max 1 (if ltb 4 (length (unique (end_ids rows))) then 3 else 1);
      changed_memberships = length rows;
    }
