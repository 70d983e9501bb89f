-- ===== src/Copilot/Review.antt =====
-- `checkCitedFactualClaims`, `redTeamReview`, `prepareAssistantNote` and `findEvidenceGaps`. A text that is tested is
-- tested in lower case, as its patterns ignore case.
use network_analytics_predic.Copilot.Policy.{AiAudit, ai_audit, has_one_word}
use network_analytics_predic.Copilot.Answer.{cited}
use network_analytics_predic.Assistant.Patterns.{after_front, is_word_char, starts_with_word_char}
use Prim.Native.String.{String}
use Prim.Native.Char.{Char, code}
use network_analytics_predic.Prelude.{
  map, is_empty, length, ◌&&◌, any, eqb, filter, messages, not, ◌||◌, Bool, List, Option, get_or,
  if◌then◌else◌, includes, is_space, lower, prefix_of, trim, ℕ, ◌⧺◌, true, false, none, some, [],
  ◌∷◌,
}

-- Where `split(/(?<=[.!?])\s+/)` is in the text: inside a sentence, after a mark that ends one, or in the white space
-- after it.
pub data Place : Type 0 where
  inside : Place
  ended : Place
  between : Place

abbrev place_after : Char → Place
place_after c = if eqb (code c) 46 || eqb (code c) 33 || eqb (code c) 63 then ended else inside

abbrev pub grown : String → Char → String
grown current c = current ⧺ String.◌∷◌ c ""

unfoldable pub pieces : Place → String → String → List String
unfolding is_space
pieces place current String.[] = current ∷ []
pieces inside current (String.◌∷◌ c s) = pieces (place_after c) (grown current c) s
pieces ended current (String.◌∷◌ c s) = elim (is_space (code c)) [
  | true ↦ current ∷ pieces between "" s
  | false ↦ pieces (place_after c) (grown current c) s
]
pieces between current (String.◌∷◌ c s) = elim (is_space (code c)) [
  | true ↦ pieces between current s
  | false ↦ pieces (place_after c) (grown current c) s
]

unfoldable pub sentences_of : String → List String
unfolding pieces trim
sentences_of words = filter (λ s. not (is_empty s)) (map trim (pieces inside "" words))

abbrev pub factual_words : List String
factual_words =
    "account" ∷ "acct" ∷ "graph" ∷ "evidence" ∷ "transaction" ∷ "relationship" ∷ "report" ∷ "source"
    ∷ "support" ∷ "because" ∷ []

unfoldable pub is_factual : String → Bool
unfolding has_one_word lower
is_factual sentence = has_one_word factual_words (lower sentence)

unfoldable pub has_citation : List String → String → Bool
unfolding includes
has_citation citation_ids sentence = any (λ id. includes sentence (cited id)) citation_ids

pub record CitationCheck : Type 0 where
  pub passed : Bool
  pub missing : List String

unfoldable pub check_cited_factual_claims : String → List String → CitationCheck
unfolding sentences_of is_factual has_citation
check_cited_factual_claims words citation_ids =
    let missing =
      filter (λ s. not (has_citation citation_ids s)) (filter is_factual (sentences_of words)) in
    record { passed = eqb (length missing) 0; missing = missing }

-- `\bpart`: whether the character before is one of a word comes first; and `part\b`.
unfoldable pub begins_word : Bool → String → String → Bool
unfolding prefix_of
begins_word within part String.[] = false
begins_word within part (String.◌∷◌ c s) =
    (not within && prefix_of part (String.◌∷◌ c s)) || begins_word (is_word_char c) part s

abbrev ends_here : Option String → Bool
ends_here none = false
ends_here (some rest) = not (starts_with_word_char rest)

unfoldable pub ends_word : String → String → Bool
unfolding after_front
ends_word part String.[] = false
ends_word part (String.◌∷◌ c s) = ends_here (after_front part (String.◌∷◌ c s)) || ends_word part s

unfoldable pub overclaims : String → Bool
unfolding begins_word ends_word includes
overclaims words =
    begins_word false "guilty" words
    || any (includes words) ("criminal" ∷ "crime ring" ∷ "money launderer" ∷ [])
    || ends_word "culprit" words

unfoldable pub is_certain : String → Bool
unfolding begins_word ends_word includes
is_certain words =
    begins_word false "definitely" words
    || any (includes words) ("proves" ∷ "certainly" ∷ [])
    || ends_word "without doubt" words

unfoldable pub is_hedged : String → Bool
unfolding includes
is_hedged words = any (includes words) ("uncertain" ∷ "limitation" ∷ "contrary" ∷ "review" ∷ [])

pub record RedTeamReview : Type 0 where
  pub passed : Bool
  pub flags : List String
  pub citation_check : CitationCheck

unfoldable pub review_checks : String → List String → List (Bool × String)
unfolding overclaims is_certain is_hedged lower check_cited_factual_claims
review_checks words citation_ids =
    (overclaims (lower words), "Overclaims criminality or guilt.")
    ∷ (is_certain (lower words), "Uses certainty language beyond the evidence.")
    ∷ (eqb (length citation_ids) 0, "No citations attached to the generated text.")
    ∷ (not (is_hedged (lower words)), "Does not foreground uncertainty or review-only status.")
    ∷ (
      not (check_cited_factual_claims words citation_ids).passed,
      "One or more factual sentences lack exact citations.",
    )
    ∷ []

unfoldable pub red_team_review : String → List String → RedTeamReview
unfolding review_checks check_cited_factual_claims
red_team_review words citation_ids =
    let flags = messages (review_checks words citation_ids) in
    record {
      passed = eqb (length flags) 0;
      flags = flags;
      citation_check = check_cited_factual_claims words citation_ids;
    }

-- The draft on the screen: a report draft has a text, an answer an answer, other suggestions neither.
pub record Draft : Type 0 where
  pub text : Option String
  pub answer : Option String
  pub prompt : Option String

pub record NotePreview : Type 0 where
  pub allowed : Bool
  pub note : String
  pub review : RedTeamReview
  pub audit : AiAudit

abbrev pub draft_text : Draft → String
draft_text draft = elim draft.text [ some words ↦ words | none ↦ get_or draft.answer "" ]

unfoldable pub prepare_assistant_note : (ℕ → String) → Draft → List String → NotePreview
unfolding red_team_review ai_audit
prepare_assistant_note hex draft citation_ids =
    let review = red_team_review (draft_text draft) citation_ids in
    let note = "AI draft; not evidence. " ⧺ draft_text draft in
    record {
      allowed = review.passed;
      note = note;
      review = review;
      audit =
          ai_audit hex (get_or draft.prompt "save AI draft as note") "save-as-note"
            (record {
              allowed = review.passed;
              reason = if review.passed then "red-team passed" else "red-team failed";
            })
            citation_ids note (if review.passed then "saved-as-analyst-note" else "blocked-save")
            review.passed;
    }
