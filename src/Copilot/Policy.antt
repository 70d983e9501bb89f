-- ===== src/Copilot/Policy.antt =====
-- `PROHIBITED_PATTERNS`, `classifyPrompt`, `outputSummary` and `aiAudit`. Each pattern is a test on the prompt in lower
-- case. What `toString(16)` writes is a parameter.
use network_analytics_predic.Prelude.{
  [], ◌∷◌, ◌||◌, ◌&&◌, ◌+◌, ltb, not, some, any, false, find, if◌then◌else◌, none, true, ◌⧺◌, Bool,
  List, Option, String, is_space, lower, ℕ,
}
use network_analytics_predic.Assistant.Patterns.{
  after_front, first_line, has_word, is_word_char, starts_with_word_char,
}
use network_analytics_predic.Assistant.Audit.{hash_of}
use Prim.Native.Char.{code}
use mathlib.Core.Option

-- `\s+`: what is left after the white space at the front, if there is any.
abbrev skip_spaces : String → String
skip_spaces String.[] = ""
skip_spaces (String.◌∷◌ c s) =
    let rest = skip_spaces s in if is_space (code c) then rest else String.◌∷◌ c s

abbrev after_spaces : String → Option String
after_spaces String.[] = none
after_spaces (String.◌∷◌ c s) = if is_space (code c) then some (skip_spaces s) else none

-- What is left after the first of the words that is at the front.
abbrev after_one : List String → String → Option String
unfolding after_front
after_one [] words = none
after_one (w ∷ ws) words = elim (after_front w words) [
  | some rest ↦ some rest
  | none ↦ after_one ws words
]

-- `/who\s+(is|are)\s+(guilty|criminal|the criminal)/i`
abbrev accusation_at : String → Option String
unfolding after_front is_space mathlib.Core.Option.bind
accusation_at words =
    Option.bind
      (Option.bind
        (Option.bind (Option.bind (after_front "who" words) after_spaces)
          (after_one ("is" ∷ "are" ∷ [])))
        after_spaces)
      (after_one ("guilty" ∷ "criminal" ∷ "the criminal" ∷ []))

unfoldable pub accuses : String → Bool
unfolding accusation_at
accuses String.[] = false
accuses (String.◌∷◌ c s) = elim (accusation_at (String.◌∷◌ c s)) [
  | some rest ↦ true
  | none ↦ accuses s
]

unfoldable pub has_one_word : List String → String → Bool
unfolding has_word
has_one_word targets words = any (λ w. has_word false w words) targets

-- `/\bprove\b.*\b(crime|criminal|guilt|guilty)\b/i`: whether the character before is one of a word comes first.
abbrev proof_follows : Option String → Bool
unfolding first_line has_one_word
proof_follows none = false
proof_follows (some rest) =
    not (starts_with_word_char rest)
    && has_one_word ("crime" ∷ "criminal" ∷ "guilt" ∷ "guilty" ∷ []) (first_line rest)

unfoldable pub asks_for_proof : Bool → String → Bool
unfolding proof_follows after_front
asks_for_proof inside String.[] = false
asks_for_proof inside (String.◌∷◌ c s) =
    (not inside && proof_follows (after_front "prove" (String.◌∷◌ c s)))
    || asks_for_proof (is_word_char c) s

unfoldable pub prohibited_patterns : List ((String → Bool) × String)
unfolding accuses has_one_word asks_for_proof
prohibited_patterns =
    (accuses, "unsupported accusation")
    ∷ (
      has_one_word
          ("arrest" ∷ "detain" ∷ "raid" ∷ "surveil" ∷ "freeze assets" ∷ "enforcement action" ∷ []),
      "operational enforcement prompt",
    )
    ∷ (
      has_one_word ("race" ∷ "religion" ∷ "ethnicity" ∷ "nationality" ∷ "protected attribute" ∷ []),
      "protected-attribute inference",
    )
    ∷ (asks_for_proof false, "unsupported accusation")
    ∷ []

pub record Policy : Type 0 where
  pub allowed : Bool
  pub reason : String

abbrev pub policy_of : Option ((String → Bool) × String) → Policy
policy_of none = record { allowed = true; reason = "source-grounded decision-support request" }
policy_of (some pattern) = record { allowed = false; reason = pattern.1 }

unfoldable pub classify_prompt : String → Policy
unfolding prohibited_patterns lower
classify_prompt prompt = policy_of (find (λ p. p.0 (lower prompt)) prohibited_patterns)

-- `content.length`, in units of 16 bits
abbrev pub text_length : String → ℕ
text_length String.[] = 0
text_length (String.◌∷◌ c s) = (if ltb (code c) 65536 then 1 else 2) + text_length s

pub record OutputSummary : Type 0 where
  pub length : ℕ
  pub hash : String

unfoldable pub output_summary : (ℕ → String) → String → OutputSummary
output_summary hex content = record {
  length = text_length content;
  hash = "training-" ⧺ hex (hash_of content);
}

pub record AiAudit : Type 0 where
  pub prompt : String
  pub action : String
  pub policy_decision : String
  pub policy_reason : String
  pub retrieved_source_ids : List String
  pub output_summary : OutputSummary
  pub model : String
  pub config_version : String
  pub user_decision : String
  pub saved : Bool

unfoldable pub ai_audit :
    (ℕ → String) → String → String → Policy → List String → String → String → Bool → AiAudit
ai_audit hex prompt action policy retrieved_source_ids output user_decision saved = record {
  prompt = prompt;
  action = action;
  policy_decision = if policy.allowed then "allowed" else "refused";
  policy_reason = policy.reason;
  retrieved_source_ids = retrieved_source_ids;
  output_summary = output_summary hex output;
  model = "deterministic-ai-workbench-training@2.0.0";
  config_version = "ai-step-9-local-v2";
  user_decision = user_decision;
  saved = saved;
}
