-- ===== src/Copilot/Resolution.antt =====
-- `suggestEntityResolutions`: pairs of nodes that may be one, for an analyst to decide.
use network_analytics_predic.Copilot.Evidence.{words_of}
use network_analytics_predic.Timeline.Rows.{SemanticEdge, semantic_rows}
use network_analytics_predic.Graph.{Node, Settings, Source}
use network_analytics_predic.Copilot.Answer.{join}
use Prim.Native.String.{String}
use mathlib.Core.Option
use network_analytics_predic.Prelude.{
  not, messages, length, ltb, ◌+◌, has, ◌&&◌, ◌++◌, ◌||◌, ◌⧺◌, filter, if◌then◌else◌, take, unique,
  ℕ, ◌==◌, Bool, List, Option, lower, show, true, [], ◌∷◌,
}

pub record Suggestion : Type 0 where
  pub id : String
  pub left_id : String
  pub right_id : String
  pub label : String
  pub reasons : List String
  pub contrary_evidence : List String
  pub required_decision : String

-- The two Sets of tokens, and what is in both of them.
abbrev pub tokens_of : Node → List String
unfolding words_of lower unique
tokens_of n = unique (words_of "" (lower n.label))

abbrev pub shared_tokens : Node → Node → List String
unfolding tokens_of
shared_tokens left right = filter (has (tokens_of right)) (tokens_of left)

abbrev pub has_end : SemanticEdge → String → Bool
has_end row id = row.relationship.subject == id || row.relationship.object == id

abbrev pub shared_edges : List SemanticEdge → Node → Node → List SemanticEdge
shared_edges rows left right = filter (λ row. has_end row left.id && has_end row right.id) rows

unfoldable pub is_alike : List SemanticEdge → Node → Node → Bool
unfolding shared_tokens
is_alike rows left right =
    left.type == right.type
    && (ltb 0 (length (shared_tokens left right)) || ltb 0 (length (shared_edges rows left right)))

unfoldable pub suggestion_of : List SemanticEdge → ℕ → Node → Node → Suggestion
unfolding shared_tokens show
suggestion_of rows count left right = record {
  id = "entity-resolution-" ⧺ show (count + 1);
  left_id = left.id;
  right_id = right.id;
  label = left.label ⧺ " / " ⧺ right.label;
  reasons = messages (
      (
        ltb 0 (length (shared_tokens left right)),
        "Shared label token(s): " ⧺ join ", " (shared_tokens left right),
      )
      ∷ (ltb 0 (length (shared_edges rows left right)), "Connected by visible relationship context")
      ∷ []);
  contrary_evidence = messages (
      (not (left.id == right.id), "Distinct local identifiers remain separate.")
      ∷ (true, "Suggestion is not identity truth and requires analyst confirmation.")
      ∷ []);
  required_decision = "analyst-confirmation-before-any-merge";
}

-- The inner loop, and the outer one: `found` holds the suggestions so far.
unfoldable pub compare_with :
    List SemanticEdge → Node → List Node → List Suggestion → List Suggestion
unfolding is_alike suggestion_of
compare_with rows left [] found = found
compare_with rows left (right ∷ nodes) found = compare_with rows left nodes (
    if is_alike rows left right
    then found ++ suggestion_of rows (length found) left right ∷ []
    else found)

unfoldable pub compare_all : List SemanticEdge → List Node → List Suggestion → List Suggestion
unfolding compare_with
compare_all rows [] found = found
compare_all rows (left ∷ nodes) found = compare_all rows nodes (compare_with rows left nodes found)

unfoldable pub suggest_entity_resolutions : Source → Settings → Option (List Suggestion)
unfolding compare_all semantic_rows
suggest_entity_resolutions source settings =
    Option.map (λ rows. take 5 (compare_all rows source.nodes [])) (semantic_rows settings source)
