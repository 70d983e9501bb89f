-- ===== src/Assistant/Patterns.antt =====
-- packages/ai-assistant/production-readiness.mjs: `INJECTION_PATTERNS` and `PRIVACY_PATTERNS` as tests on texts. A
-- pattern is a list of alternatives; each is a part of the text in lower case, a word between word
-- boundaries, or a part that another one follows in the same line. An optional group is written out.
use network_analytics_predic.Prelude.{
  any, none, not, ◌&&◌, ◌||◌, eqb, false, if◌then◌else◌, includes, leb, some, Bool, List, Option,
  String,
}
use Prim.Native.String.{[], ◌∷◌}
use Prim.Native.Char.{Char, code}

pub data Alternative : Type 0 where
  part : String → Alternative
  word : String → Alternative
  part_then : String → List String → Alternative

-- The characters of `\w`.
abbrev pub is_word_char : Char → Bool
is_word_char c =
    (leb 48 (code c) && leb (code c) 57)
    || (leb 65 (code c) && leb (code c) 90)
    || (leb 97 (code c) && leb (code c) 122)
    || eqb (code c) 95

-- The line terminators, which `.` does not match.
abbrev pub is_line_end : Char → Bool
is_line_end c = eqb (code c) 10 || eqb (code c) 13 || eqb (code c) 8232 || eqb (code c) 8233

abbrev pub starts_with_word_char : String → Bool
starts_with_word_char [] = false
starts_with_word_char (c ∷ _) = is_word_char c

-- What is left of the text after the part at its front, if it is there.
unfoldable pub after_front : String → String → Option String
after_front [] words = some words
after_front (_ ∷ _) [] = none
after_front (p ∷ front) (c ∷ words) =
    let rest = after_front front words in if eqb (code p) (code c) then rest else none

unfoldable pub first_line : String → String
first_line [] = []
first_line (c ∷ words) = let rest = first_line words in if is_line_end c then [] else c ∷ rest

abbrev ends_word : Option String → Bool
ends_word none = false
ends_word (some rest) = not (starts_with_word_char rest)

-- Whether the word stands at a place where the character before is none of a word.
unfoldable pub has_word : Bool → String → String → Bool
unfolding after_front
has_word inside target [] = false
has_word inside target (c ∷ words) =
    (not inside && ends_word (after_front target (c ∷ words)))
    || has_word (is_word_char c) target words

abbrev any_follows : List String → Option String → Bool
any_follows parts none = false
any_follows parts (some rest) = any (λ p. includes (first_line rest) p) parts

unfoldable pub has_then : String → List String → String → Bool
unfolding after_front first_line
has_then front parts [] = false
has_then front parts (c ∷ words) =
    any_follows parts (after_front front (c ∷ words)) || has_then front parts words

unfoldable pub alternative_matches : String → Alternative → Bool
unfolding has_word has_then
alternative_matches words (part p) = includes words p
alternative_matches words (word w) = has_word false w words
alternative_matches words (part_then front parts) = has_then front parts words
