-- ===== src/Prelude/Text.antt =====
-- Text as the JavaScript sources use it: `trim`, `toLowerCase`, `includes` and `||` fallbacks.
-- `trim` removes exactly the white space and line terminators of ECMAScript. `toLowerCase` is exact
-- for texts over Basic Latin and Latin-1, the characters of the repository's fixtures.
use Prim.Native.Nat.{ℕ}
use Prim.Native.Char.{Char, code}
use Prim.Native.String.{String, [], ◌∷◌, ◌++◌}
use mathlib.Core.Bool.{Bool, true, false, ◌&&◌, ◌||◌}
use mathlib.Core.Path.{◌≡◌, refl}
use mathlib.Core.Logic.{inl, inr}
use network_analytics_predic.Prelude.Tests.{leb, eqb, if◌then◌else◌, Bool-cases}

-- A template literal: its parts one after the other.
infixr 65 ◌⧺◌
abbrev pub ◌⧺◌ : String → String → String
s ⧺ t = s ++ t

unfoldable pub is_space : ℕ → Bool
is_space c =
    (leb 9 c && leb c 13)
    || eqb c 32
    || eqb c 160
    || eqb c 5760
    || (leb 8192 c && leb c 8202)
    || eqb c 8232
    || eqb c 8233
    || eqb c 8239
    || eqb c 8287
    || eqb c 12288
    || eqb c 65279

abbrev pub is_empty : String → Bool
is_empty [] = true
is_empty (_ ∷ _) = false

pub trim_start : String → String
trim_start [] = []
trim_start (c ∷ s) = let rest = trim_start s in if is_space (code c) then rest else c ∷ s

pub trim_end : String → String
trim_end [] = []
trim_end (c ∷ s) =
    let rest = trim_end s in if is_empty rest && is_space (code c) then [] else c ∷ rest

unfoldable pub trim : String → String
unfolding trim_start trim_end is_space
trim s = trim_end (trim_start s)

lower_from : String → String → Char → Char
lower_from [] _ c = c
lower_from (u ∷ us) [] c = c
lower_from (u ∷ us) (l ∷ ls) c =
    let rest = lower_from us ls c in if eqb (code u) (code c) then l else rest

abbrev capitals : String
capitals = "ABCDEFGHIJKLMNOPQRSTUVWXYZÀÁÂÃÄÅÆÇÈÉÊËÌÍÎÏÐÑÒÓÔÕÖØÙÚÛÜÝÞ"

abbrev small_letters : String
small_letters = "abcdefghijklmnopqrstuvwxyzàáâãäåæçèéêëìíîïðñòóôõöøùúûüýþ"

pub lower_char : Char → Char
lower_char c = lower_from capitals small_letters c

unfoldable pub lower : String → String
unfolding lower_char lower_from
lower [] = []
lower (c ∷ s) = lower_char c ∷ lower s

-- Exact for Basic Latin and for the letters whose capital is of Latin-1, as `lower` is.
unfoldable pub upper : String → String
unfolding lower_from
upper [] = []
upper (c ∷ s) = lower_from small_letters capitals c ∷ upper s

-- `value || fallback`
abbrev pub or_else : String → String → String
or_else [] fallback = fallback
or_else (c ∷ s) _ = c ∷ s

unfoldable pub prefix_of : String → String → Bool
prefix_of [] _ = true
prefix_of (_ ∷ _) [] = false
prefix_of (c ∷ cs) (d ∷ ds) = eqb (code c) (code d) && prefix_of cs ds

-- `text.includes(part)`
unfoldable pub includes : String → String → Bool
unfolding prefix_of
includes [] part = prefix_of part []
includes (c ∷ s) part = prefix_of part (c ∷ s) || includes s part

-- `text.replace(part, words)`, which replaces the first place where the part stands.
abbrev pub without_front : String → String → String
without_front [] words = words
without_front (p ∷ front) [] = ""
without_front (p ∷ front) (c ∷ words) = without_front front words

unfoldable pub replace_part : String → String → String → String
unfolding prefix_of
replace_part part words [] = ""
replace_part part words (c ∷ s) = elim (prefix_of part (c ∷ s)) [
  | true ↦ words ⧺ without_front part (c ∷ s)
  | false ↦ c ∷ replace_part part words s
]

-- `replaceAll(/\s+/g, "-")`: whether the character before was white space comes first.
unfoldable pub hyphenate : Bool → String → String
unfolding is_space
hyphenate spaced [] = []
hyphenate spaced (c ∷ s) =
    let after_space = hyphenate true s in
    let after_other = hyphenate false s in
    if is_space (code c)
    then (if spaced then after_space else "-" ++ after_space)
    else c ∷ after_other

-- What `trim` leaves has no white space at its ends.
NoLead : String → Type 0
NoLead [] = Unit
NoLead (c ∷ s) = is_space (code c) ≡ false

trim_start-NoLead : (s : String) → NoLead (trim_start s)
unfolding trim_start NoLead
trim_start-NoLead [] = tt
trim_start-NoLead (c ∷ s) = elim (Bool-cases (is_space (code c))) [
  | inl e ↦ rw e (trim_start-NoLead s)
  | inr e ↦ rw e e
]

trim_start_of_NoLead : (s : String) → NoLead s → trim_start s ≡ s
unfolding trim_start NoLead
trim_start_of_NoLead [] h = refl
trim_start_of_NoLead (c ∷ s) h = rw h

trim_end-NoLead : (s : String) → NoLead s → NoLead (trim_end s)
unfolding trim_end NoLead
trim_end-NoLead [] h = tt
trim_end-NoLead (c ∷ s) h = elim (Bool-cases (is_empty (trim_end s))) [
  | inl e ↦ rw (e, h) h
  | inr e ↦ rw e h
]

trim_end-cons-keep :
    (c : Char) (r : String)
    → trim_end r ≡ r
    → (is_empty r && is_space (code c)) ≡ false
    → trim_end (c ∷ r) ≡ c ∷ r
unfolding trim_end
trim_end-cons-keep c r h e = rw (h, e)

trim_end-trim_end : (s : String) → trim_end (trim_end s) ≡ trim_end s
trim_end-trim_end [] = unfold trim_end in refl
trim_end-trim_end (c ∷ s) = elim (Bool-cases (is_empty (trim_end s) && is_space (code c))) [
  | inl e ↦ unfold trim_end in rw e
  | inr e ↦
      let step : trim_end (c ∷ s) ≡ c ∷ trim_end s = unfold trim_end in rw e in
      rw step (trim_end-cons-keep c (trim_end s) (trim_end-trim_end s) e)
]

-- Trimming twice is trimming once.
pub trim-trim : (s : String) → trim (trim s) ≡ trim s
trim-trim s =
    unfold trim in
    rw
      (trim_start_of_NoLead (trim_end (trim_start s))
        (trim_end-NoLead (trim_start s) (trim_start-NoLead s)))
      (trim_end-trim_end (trim_start s))
