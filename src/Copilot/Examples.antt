-- ===== src/Copilot/Examples.antt =====
-- The theorems on the copilot at a graph of one transfer.
use network_analytics_predic.Copilot.Pairs.{suggest_entity_resolutions-pairs, Numbered, IsPair}
use network_analytics_predic.Copilot.Resolution.{suggest_entity_resolutions, Suggestion}
use network_analytics_predic.Copilot.Query.{
  scene_preset, search_visible_accounts, graph_phrase, preview_of,
}
use network_analytics_predic.Copilot.Policy.{classify_prompt}
use network_analytics_predic.Copilot.Answer.{GraphAnswer, answer_graph_question}
use network_analytics_predic.Copilot.Review.{Draft, prepare_assistant_note, sentences_of}
use network_analytics_predic.Copilot.Grounded.{Grounded, Refused, answer_graph_question-Grounded}
use network_analytics_predic.Copilot.Blocked.{
  Sober, draft_of_answer, prepare_assistant_note-allowed, prepare_assistant_note-answer,
}
use network_analytics_predic.Timeline.Rows.{semantic_edge, SemanticEdge, semantic_rows, Connected}
use network_analytics_predic.Graph.{Node, Relationship, Settings, Source}
use network_analytics_predic.Prelude.{
  All, ◌≤◌, length, List, if◌then◌else◌, pos, Bool, refl, ◌↔◌, ◌⊎◌, ◌⧺◌, String, show, ◌≡◌, true,
  false, none, some, [], ◌∷◌,
}

abbrev account : String → Node
account id = record {
  id = id;
  type = "account";
  label = "Acct " ⧺ id;
  role = none;
  x = pos 10;
  y = pos 20;
}

abbrev transfer : Relationship
transfer = record {
  id = "t1";
  subject = "a1";
  object = "a2";
  predicate = "transfers to";
  relation = "transfers";
  periods = "before" ∷ [];
  status = "observed";
  event_time = "2026-04-01 10:00 UTC";
  known_at = "2026-04-02 09:00 UTC";
  evidence_class = "transaction";
  confidence = "moderate";
  reliability = "B";
  credibility = "2";
  source = "Synthetic ledger";
  reasoning = "Rapid pass-through";
  caveat = "Refunds are possible";
  community_before = "A";
  community_after = "B";
}

abbrev ledger : Source
ledger = record {
  nodes = account "a1" ∷ account "a2" ∷ [];
  node_by_id = λ id. some (account id);
  visible_relationships = λ _. transfer ∷ [];
}

abbrev settings : Settings
settings = record {
  alias_included = true;
  window_days = 30;
  relation_filter = "all";
  comparison_mode = "split";
  split_count = 3;
  split_boundary_percent = 50;
  split_strategy = "recommended";
  label_density = "comfortable";
  spacing = 1;
  high_contrast = false;
  show_communities = true;
}

abbrev before : String → String → Bool
before a b = false

abbrev question : String
question = "Why is the pass-through account important?"

transfer-Connected : Connected ledger transfer
transfer-Connected = record {
  subject = account "a1";
  object = account "a2";
  from = refl;
  to = refl;
}

answer_graph_question-Grounded_example :
    (answer : GraphAnswer) × (answer_graph_question before show question ledger settings none
      ≡ some answer)
    × ((((classify_prompt question).allowed ≡ true) × Grounded (transfer ∷ []) answer)
        ⊎ (((classify_prompt question).allowed ≡ false) × Refused answer))
answer_graph_question-Grounded_example =
    answer_graph_question-Grounded before show question ledger settings none
      (transfer-Connected, tt)

policy_test :
    ((classify_prompt question).allowed ≡ true)
    × ((classify_prompt "Prove that the cashier is guilty").allowed ≡ false)
    × ((classify_prompt "who  are the criminal accounts").reason ≡ "unsupported accusation")
    × ((classify_prompt "Please freeze assets now").reason ≡ "operational enforcement prompt")
    × ((classify_prompt "Trace the payments").allowed ≡ true)
unfolding classify_prompt
policy_test = (refl, refl, refl, refl, refl)

sentences_test : sentences_of "One [t1]. Two!  Three." ≡ "One [t1]." ∷ "Two!" ∷ "Three." ∷ []
unfolding sentences_of
sentences_test = refl

abbrev draft : Draft
draft = record { text = some "The evidence [t1] needs review."; answer = none; prompt = none }

prepare_assistant_note-allowed_example :
    let note = prepare_assistant_note show draft ("t1" ∷ []) in
    ((note.allowed ≡ true) ↔ Sober "The evidence [t1] needs review." ("t1" ∷ []))
    × (note.audit.saved ≡ note.allowed)
    × (note.audit.policy_decision ≡ (if note.allowed then "allowed" else "refused"))
    × (note.audit.retrieved_source_ids ≡ "t1" ∷ [])
prepare_assistant_note-allowed_example = prepare_assistant_note-allowed show draft ("t1" ∷ [])

abbrev given : GraphAnswer
given = answer_graph_question-Grounded_example.0

prepare_assistant_note-answer_example :
    (prepare_assistant_note show (draft_of_answer given) ("t1" ∷ [])).allowed ≡ false
prepare_assistant_note-answer_example =
    prepare_assistant_note-answer show ("t1" ∷ []) before question ledger settings none given
      answer_graph_question-Grounded_example.1

abbrev shown : List SemanticEdge
shown = semantic_edge transfer (account "a1") (account "a2") ∷ []

suggest_entity_resolutions-pairs_example :
    (suggestions : List Suggestion) × (suggest_entity_resolutions ledger settings
      ≡ some suggestions)
    × (length suggestions ≤ 5)
    × All (IsPair shown ledger.nodes) suggestions
    × Numbered 0 suggestions
unfolding semantic_rows
suggest_entity_resolutions-pairs_example =
    suggest_entity_resolutions-pairs ledger settings shown refl

query_test :
    (preview_of none "Show the path, please, between A1 and A2"
      ≡ graph_phrase "paths between a1 and a2")
    × (preview_of (some ledger) "Which account is new?" ≡ search_visible_accounts "Acct a1")
    × (preview_of none "Boardroom view" ≡ scene_preset "financial-flow")
unfolding preview_of
query_test = (refl, refl, refl)
