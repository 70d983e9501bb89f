-- ===== src/Phrases/Pattern.antt =====
-- The regular expressions of packages/graph-renderer/bloom-exploration.mjs and of the query previews in
-- packages/ai-assistant/analyst-copilot.mjs: sequences of pieces, some of them captured, matched from the start of a
-- text as JavaScript does, a greedy piece trying its longest run first and a lazy one its shortest. The text is in lower
-- case, as the patterns ignore case.
use network_analytics_predic.Assistant.Patterns.{after_front, is_line_end, is_word_char}
use Prim.Native.Char.{Char, code}
use mathlib.Core.Option
use network_analytics_predic.Prelude.{
  not, ◌⧺◌, Bool, List, Option, String, is_space, true, false, none, some, [], ◌∷◌,
}

pub data Piece : Type 0 where
  literal : String → Piece  -- the text itself
  spaces : Piece  -- `\s+`
  anything : Piece  -- `.*`
  lazy_text : Piece  -- `(.+?)`
  whole_text : Piece  -- `(.+)`
  one_word : Piece  -- `(\w+)`
  text_end : Piece  -- `$`

-- What is captured in the rest of the text, if the rest of the pattern matches there.
abbrev pub Rest : Type 0
Rest = String → Option (List String)

abbrev pub grow : String → Char → String
grow current c = current ⧺ String.◌∷◌ c ""

abbrev pub or_try : Option (List String) → Option (List String) → Option (List String)
or_try none other = other
or_try (some captures) other = some captures

-- A run of at least one character of a class, the longest first, not captured; and what it may still be after its first
-- character.
unfoldable pub skip_run : (Char → Bool) → Rest → Rest
skip_run class rest String.[] = none
skip_run class rest (String.◌∷◌ c s) = elim (class c) [
  | true ↦ or_try (skip_run class rest s) (rest s)
  | false ↦ none
]

-- A captured run, of which a part has been taken: the longest first, or the shortest.
unfoldable pub take_run : (Char → Bool) → Rest → String → Rest
take_run class rest current String.[] = none
take_run class rest current (String.◌∷◌ c s) = elim (class c) [
  | true ↦ or_try (take_run class rest (grow current c) s) (Option.map (grow current c ∷◌) (rest s))
  | false ↦ none
]

unfoldable pub take_lazily : (Char → Bool) → Rest → String → Rest
take_lazily class rest current String.[] = none
take_lazily class rest current (String.◌∷◌ c s) = elim (class c) [
  | true ↦
      or_try (Option.map (grow current c ∷◌) (rest s)) (take_lazily class rest (grow current c) s)
  | false ↦ none
]

unfoldable pub is_blank : Char → Bool
unfolding is_space
is_blank c = is_space (code c)

abbrev pub in_line : Char → Bool
in_line c = not (is_line_end c)

abbrev pub at_end : Rest → Rest
at_end rest String.[] = rest ""
at_end rest (String.◌∷◌ c s) = none

unfoldable pub matched : List Piece → Rest
unfolding skip_run take_run take_lazily after_front is_blank
matched [] s = some []
matched (literal part ∷ pieces) s = elim (after_front part s) [
  | none ↦ none
  | some words ↦ matched pieces words
]
matched (spaces ∷ pieces) s = skip_run is_blank (matched pieces) s
matched (anything ∷ pieces) s = or_try (skip_run in_line (matched pieces) s) (matched pieces s)
matched (lazy_text ∷ pieces) s = take_lazily in_line (matched pieces) "" s
matched (whole_text ∷ pieces) s = take_run in_line (matched pieces) "" s
matched (one_word ∷ pieces) s = take_run is_word_char (matched pieces) "" s
matched (text_end ∷ pieces) s = at_end (matched pieces) s

-- The first of some patterns that matches: an optional group is written as two patterns, the one with it first.
unfoldable pub first_matched : List (List Piece) → Rest
unfolding matched
first_matched [] s = none
first_matched (p ∷ patterns) s = or_try (matched p s) (first_matched patterns s)
