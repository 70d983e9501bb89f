-- ===== src/Copilot/Query.antt =====
-- `suggestSafeQuery`. What `JSON.stringify` writes of a preview is a parameter, as is the hexadecimal text of a number.
use network_analytics_predic.Copilot.Policy.{AiAudit, ai_audit, classify_prompt}
use network_analytics_predic.Phrases.Pattern.{
  Piece, anything, lazy_text, literal, matched, spaces, whole_text,
}
use network_analytics_predic.Phrases.Parse.{capture, second}
use network_analytics_predic.Graph.{Source}
use mathlib.Core.Option
use network_analytics_predic.Prelude.{
  ◌==◌, ◌||◌, find, zero, ◌⧺◌, get_or, if◌then◌else◌, includes, suc, Bool, List, Option, String,
  lower, ℕ, true, false, none, some, [], ◌∷◌,
}

pub data Preview : Type 0 where
  graph_phrase : String → Preview
  scene_preset : String → Preview
  search_visible_accounts : String → Preview
  search_visible_graph : String → Preview

-- `/path.*between\s+(.+?)\s+and\s+(.+)/`, which may match anywhere in the text: the earliest place is taken.
abbrev pub path_pattern : List Piece
path_pattern =
    literal "path"
    ∷ anything
    ∷ literal "between"
    ∷ spaces
    ∷ lazy_text
    ∷ spaces
    ∷ literal "and"
    ∷ spaces
    ∷ whole_text
    ∷ []

unfoldable pub matched_anywhere : List Piece → String → Option (List String)
unfolding matched
matched_anywhere pieces String.[] = matched pieces ""
matched_anywhere pieces (String.◌∷◌ c s) = elim (matched pieces (String.◌∷◌ c s)) [
  | some captures ↦ some captures
  | none ↦ matched_anywhere pieces s
]

-- `text.slice(0, count)`, for texts of the basic plane, whose characters are one unit each.
abbrev pub slice : ℕ → String → String
slice zero words = ""
slice (suc n) String.[] = ""
slice (suc n) (String.◌∷◌ c s) = String.◌∷◌ c (slice n s)

-- `source?.nodes?.find((node) => node.type === "account")?.label ?? "account"`
abbrev pub account_label : Option Source → String
account_label none = "account"
account_label (some source) =
    get_or (Option.map (λ n. n.label) (find (λ n. n.type == "account") source.nodes)) "account"

unfoldable pub preview_of : Option Source → String → Preview
unfolding matched_anywhere lower includes
preview_of source prompt =
    let words = lower prompt in
    elim (matched_anywhere path_pattern words) [
      | some captures ↦
          graph_phrase ("paths between " ⧺ capture captures ⧺ " and " ⧺ second captures)
      | none ↦
          if includes words "financial" || includes words "boardroom"
          then scene_preset "financial-flow"
          else if includes words "account" || includes words "acct"
          then search_visible_accounts (account_label source)
          else search_visible_graph (slice 80 prompt)
    ]

-- The reason of a refusal, and the preview of a query that was not refused.
pub record QueryPreview : Type 0 where
  pub refused : Bool
  pub reason : Option String
  pub preview : Option Preview
  pub audit : AiAudit

unfoldable pub suggest_safe_query :
    (Preview → String) → (ℕ → String) → String → Option Source → QueryPreview
unfolding classify_prompt preview_of ai_audit
suggest_safe_query json hex prompt source =
    let policy = classify_prompt prompt in
    let preview = preview_of source prompt in
    if policy.allowed
    then record {
      refused = false;
      reason = none;
      preview = some preview;
      audit = ai_audit hex prompt "query-preview" policy [] (json preview) "not-saved" false;
    }
    else record {
      refused = true;
      reason = some policy.reason;
      preview = none;
      audit = ai_audit hex prompt "query-preview" policy [] policy.reason "not-saved" false;
    }
