-- ===== src/Copilot/Evidence.antt =====
-- `rowImportance`, `topRows` and `retrieveGraphEvidence`. `localeCompare` is the parameter `id_before`; the rows are
-- those of `semanticRows`, and none is its exception.
use network_analytics_predic.Prelude.{
  has, ◌++◌, true, false, none, some, ◌&&◌, eqb, is_empty, [], any, map, not, ◌+◌, ◌||◌, filter,
  get_or, if◌then◌else◌, length, ltb, take, ◌∷◌, Bool, List, Option, includes, lower, ℕ, ◌⧺◌,
}
use network_analytics_predic.Timeline.Rows.{SemanticEdge, semantic_rows}
use network_analytics_predic.Graph.{Settings, Source}
use network_analytics_predic.Workspace.State.{Workspace}
use network_analytics_predic.Workspace.Export.{Expansion, PathStep, explain_expansion, explain_path}
use network_analytics_predic.Assistant.Patterns.{is_word_char}
use Prim.Native.String.{String}
use mathlib.Core.Option

abbrev mentions_one : List String → String → ℕ → ℕ
unfolding includes
mentions_one parts words weight = if any (includes words) parts then weight else 0

unfoldable pub row_importance : SemanticEdge → ℕ
unfolding mentions_one lower
row_importance row =
    let r = row.relationship in
    let words = lower (
      r.source ⧺ " " ⧺ r.reasoning ⧺ " " ⧺ r.caveat ⧺ " " ⧺ r.community_before ⧺ " "
      ⧺ r.community_after) in
    mentions_one
      ("mule" ∷ "bridge" ∷ "consolidation" ∷ "cash-out" ∷ "pass-through" ∷ "split" ∷ "alias" ∷ [])
      words 2
    + mentions_one
        ("uncertain" ∷ "caveat" ∷ "refund" ∷ "processor" ∷ "shared" ∷ "coverage" ∷ "legitimate"
          ∷ [])
        words 1

-- A row with its `importance` or `retrievalScore`.
pub record Ranked : Type 0 where
  pub row : SemanticEdge
  pub score : ℕ

module _ (id_before : String → String → Bool) where
  -- `b.score - a.score || a.id.localeCompare(b.id)`
  abbrev pub outranks : Ranked → Ranked → Bool
  outranks a b =
      ltb b.score a.score
      || (eqb a.score b.score && id_before a.row.relationship.id b.row.relationship.id)

  unfoldable pub insert_ranked : Ranked → List Ranked → List Ranked
  insert_ranked a [] = a ∷ []
  insert_ranked a (b ∷ ranked) =
      let later = insert_ranked a ranked in if outranks b a then b ∷ later else a ∷ b ∷ ranked

  unfoldable pub sort_ranked : List Ranked → List Ranked
  unfolding insert_ranked
  sort_ranked [] = []
  sort_ranked (a ∷ ranked) = insert_ranked a (sort_ranked ranked)

  unfoldable pub top_rows : List SemanticEdge → ℕ → List Ranked
  unfolding sort_ranked
  top_rows rows limit =
      take limit (sort_ranked (map (λ row. record { row = row; score = row_importance row }) rows))

-- `needle.split(/\W+/).filter(Boolean)`: the word that has begun comes first.
unfoldable pub words_of : String → String → List String
words_of current String.[] = filter (λ w. not (is_empty w)) (current ∷ [])
words_of current (String.◌∷◌ c s) = elim (is_word_char c) [
  | true ↦ words_of (current ⧺ String.◌∷◌ c "") s
  | false ↦ filter (λ w. not (is_empty w)) (current ∷ []) ++ words_of "" s
]

unfoldable pub retrieval_score : List String → SemanticEdge → ℕ
unfolding lower includes row_importance
retrieval_score tokens row =
    let r = row.relationship in
    let haystack = lower (
      row.subject_label ⧺ " " ⧺ row.object_label ⧺ " " ⧺ r.predicate ⧺ " " ⧺ r.source ⧺ " "
      ⧺ r.reasoning ⧺ " " ⧺ r.caveat ⧺ " " ⧺ r.community_before ⧺ " " ⧺ r.community_after) in
    length (filter (includes haystack) tokens) + row_importance row

unfoldable pub scored : String → SemanticEdge → Ranked
unfolding retrieval_score words_of lower
scored prompt row = record { row = row; score = retrieval_score (words_of "" (lower prompt)) row }

unfoldable pub ranked_rows : (String → String → Bool) → String → List SemanticEdge → ℕ → List Ranked
unfolding sort_ranked scored
ranked_rows id_before prompt rows limit =
    take limit (sort_ranked id_before (map (scored prompt) rows))

pub record RetrievedRow : Type 0 where
  pub id : String
  pub source : String
  pub event_time : String
  pub known_at : String
  pub confidence : String
  pub caveat : String
  pub label : String

abbrev pub retrieved_row : Ranked → RetrievedRow
retrieved_row ranked =
    let r = ranked.row.relationship in
    record {
      id = r.id;
      source = r.source;
      event_time = r.event_time;
      known_at = r.known_at;
      confidence = r.confidence;
      caveat = r.caveat;
      label = ranked.row.subject_label ⧺ " " ⧺ r.predicate ⧺ " " ⧺ ranked.row.object_label;
    }

pub record Retrieval : Type 0 where
  pub retrieved_source_ids : List String
  pub rows : List RetrievedRow
  pub path_dependencies : List PathStep
  pub expansion : Option Expansion
  pub report_dependencies : List String

-- What the copilot reads of a report.
pub record ReportText : Type 0 where
  pub assessment : String
  pub contrary_evidence : String
  pub limitations : String
  pub next_action : String
  pub dependencies : List String

pub record Question : Type 0 where
  pub prompt : String
  pub source : Source
  pub settings : Settings
  pub workspace : Option Workspace
  pub report : Option ReportText
  pub limit : Option ℕ

unfoldable pub path_dependencies_of : Question → List SemanticEdge → List PathStep
unfolding explain_path
path_dependencies_of q rows = elim q.workspace [
  | none ↦ []
  | some w ↦
      filter (λ step. has (map (λ row. row.relationship.id) rows) step.id)
        (explain_path w q.source q.settings)
]

unfoldable pub report_dependencies_of : Question → List Ranked → List String
unfolding includes
report_dependencies_of q ranked = elim q.report [
  | none ↦ []
  | some report ↦
      filter (λ dependency. any (λ r. includes dependency r.row.relationship.id) ranked)
        report.dependencies
]

unfoldable pub retrieval_of : (String → String → Bool) → Question → List SemanticEdge → Retrieval
unfolding ranked_rows explain_expansion path_dependencies_of report_dependencies_of
retrieval_of id_before q rows =
    let ranked = ranked_rows id_before q.prompt rows (get_or q.limit 5) in
    record {
      retrieved_source_ids = map (λ r. r.row.relationship.id) ranked;
      rows = map retrieved_row ranked;
      path_dependencies = path_dependencies_of q rows;
      expansion = Option.map (λ w. explain_expansion w q.source q.settings) q.workspace;
      report_dependencies = report_dependencies_of q ranked;
    }

unfoldable pub retrieve_graph_evidence : (String → String → Bool) → Question → Option Retrieval
unfolding semantic_rows retrieval_of
retrieve_graph_evidence id_before q =
    Option.map (retrieval_of id_before q) (semantic_rows q.settings q.source)
