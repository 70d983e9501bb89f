-- ===== src/Phrases/Split.antt =====
-- How a path phrase is split into its two ends: at the first " and " of the text.
use network_analytics_predic.Phrases.Parse.{path_patterns, between_ends}
use network_analytics_predic.Assistant.Patterns.{after_front}
use network_analytics_predic.Phrases.Pattern.{
  lazy_text, first_matched, skip_run, matched, in_line, Piece, Rest, grow, is_blank, literal,
  spaces, take_lazily, take_run, whole_text, text_end,
}
use Prim.Native.Char.{Char}
use text.Mathlib.TextLemmas
use network_analytics_predic.Prelude.{
  inr, inl, Bool-cases, refl, is_space, ap, ◌||◌, if◌then◌else◌, not, ◌&&◌, ◌∙◌, Bool, ◌≡◌, ◌⧺◌,
  List, String, prefix_of, true, false, none, some, [], ◌∷◌, arith,
}

-- A text before another one, by clauses, so that a literal at the front computes.
abbrev pub front : String → String → String
front String.[] rest = rest
front (String.◌∷◌ c s) rest = String.◌∷◌ c (front s rest)

pub append-front : (s rest : String) → s ⧺ rest ≡ front s rest
append-front String.[] rest = TextLemmas.nil-append rest
append-front (String.◌∷◌ c s) rest =
    TextLemmas.cons-append c s rest ∙ ap (String.◌∷◌ c) (append-front s rest)

abbrev pub all_of : (Char → Bool) → String → Bool
all_of class String.[] = true
all_of class (String.◌∷◌ c s) = class c && all_of class s

abbrev pub starts_dark : String → Bool
starts_dark String.[] = false
starts_dark (String.◌∷◌ c s) = not (is_blank c)

-- Whether the text, after white space, goes on with "and" or ends.
unfoldable pub joins : String → Bool
unfolding prefix_of
joins String.[] = true
joins (String.◌∷◌ c s) =
    let rest = joins s in if is_blank c then rest else prefix_of "and" (String.◌∷◌ c s)

unfoldable pub has_joint : String → Bool
unfolding joins
has_joint String.[] = false
has_joint (String.◌∷◌ c s) = (is_blank c && joins s) || has_joint s

-- The pieces after the first end.
abbrev joint : List Piece
joint = spaces ∷ literal "and" ∷ spaces ∷ whole_text ∷ text_end ∷ []

grow_then :
    (current : String) (c : Char) (s : String) → grow current c ⧺ s ≡ current ⧺ String.◌∷◌ c s
grow_then current c s =
    TextLemmas.append_assoc current (String.◌∷◌ c "") s
    ∙ ap (λ t. current ⧺ t)
        (TextLemmas.cons-append c "" s ∙ ap (String.◌∷◌ c) (TextLemmas.nil-append s))

module _ (class : Char → Bool) (rest : Rest) where
  -- The longest run is the whole text, if the rest matches at its end.
  take_run-all :
      rest "" ≡ some []
      → (current : String) (c : Char) (s : String) → all_of class (String.◌∷◌ c s) ≡ true
      → take_run class rest current (String.◌∷◌ c s) ≡ some ((current ⧺ String.◌∷◌ c s) ∷ [])
  unfolding take_run
  take_run-all ends current c String.[] h =
      let inside : class c ≡ true = ground (arith, h) in rw (take_run, inside, ends)
  take_run-all ends current c (String.◌∷◌ d s) h =
      let inside : class c ≡ true = ground (arith, h) in
      let longer = take_run-all ends (grow current c) d s (ground (arith, h)) in
      rw (take_run, inside, longer) (ap (λ t. some (t ∷ [])) (grow_then current c (String.◌∷◌ d s)))

  -- The rest matches nowhere in the first text, where the other one follows it.
  abbrev Clear : String → String → Type 0
  Clear t String.[] = Unit
  Clear t (String.◌∷◌ c s) = (rest (String.◌∷◌ c (front s t)) ≡ none) × Clear t s

  -- A lazy run ends at the first place where the rest matches.
  take_lazily-first :
      (t : String) (captures : List String)
      → rest t ≡ some captures
      → (current : String) (c : Char) (s : String) → all_of class (String.◌∷◌ c s) ≡ true
      → Clear t s
      → take_lazily class rest current (front (String.◌∷◌ c s) t)
        ≡ some ((current ⧺ String.◌∷◌ c s) ∷ captures)
  unfolding take_lazily
  take_lazily-first t captures e current c String.[] h none_before =
      let inside : class c ≡ true = ground (arith, h) in rw (take_lazily, inside, e)
  take_lazily-first t captures e current c (String.◌∷◌ d s) h none_before =
      let inside : class c ≡ true = ground (arith, h) in
      let later =
        take_lazily-first t captures e (grow current c) d s (ground (arith, h)) none_before.1 in
      rw (take_lazily, inside, none_before.0, later)
        (ap (λ u. some (u ∷ captures)) (grow_then current c (String.◌∷◌ d s)))

module _ (class : Char → Bool) (rest : Rest) where
  skip_run-none :
      (c : Char) (s : String) → class c ≡ false → skip_run class rest (String.◌∷◌ c s) ≡ none
  unfolding skip_run
  skip_run-none c s h = rw (skip_run, h)

  skip_run-one :
      (b c : Char) (s : String)
      → class b ≡ true
      → class c ≡ false
      → skip_run class rest (String.◌∷◌ b (String.◌∷◌ c s)) ≡ rest (String.◌∷◌ c s)
  unfolding skip_run
  skip_run-one b c s h k = rw (skip_run, h, skip_run-none c s k)

-- "and" does not begin where white space stands, nor where a text without it at its front is followed by white space.
front-and :
    (c : Char) (s t : String)
    → prefix_of "and" (String.◌∷◌ c s) ≡ false
    → after_front "and" (String.◌∷◌ c (front s (front " " t))) ≡ none
unfolding after_front prefix_of
front-and c String.[] t h = ground arith
front-and c (String.◌∷◌ d String.[]) t h = ground arith
front-and c (String.◌∷◌ d (String.◌∷◌ e s)) t h = ground arith

blank-and : (c : Char) (s : String) → is_blank c ≡ true → after_front "and" (String.◌∷◌ c s) ≡ none
unfolding after_front is_space is_blank
blank-and c s h = ground (arith, h)

module _ (c : Char) (s : String) (dark : is_blank c ≡ false)
    (inside : all_of in_line (String.◌∷◌ c s) ≡ true) where
  abbrev tail : String
  tail = front " and " (String.◌∷◌ c s)

  abbrev after_and : List Piece
  after_and = literal "and" ∷ spaces ∷ whole_text ∷ text_end ∷ []

  matched-tail : matched joint tail ≡ some (String.◌∷◌ c s ∷ [])
  unfolding matched after_front is_space is_blank
  matched-tail =
      skip_run-one is_blank (matched after_and) " " "a" (front "nd " (String.◌∷◌ c s)) refl refl
      ∙ skip_run-one is_blank (matched (whole_text ∷ text_end ∷ [])) " " c s refl dark
      ∙ take_run-all in_line (matched (text_end ∷ [])) refl "" c s inside
      ∙ ap (λ t. some (t ∷ [])) (TextLemmas.nil-append (String.◌∷◌ c s))

  none_inside :
      (r : String)
      → joins r ≡ false
      → (skip_run is_blank (matched after_and) (front r tail) ≡ none)
        × (matched after_and (front r tail) ≡ none)
  unfolding matched skip_run joins
  none_inside String.[] h = absurd (cc h)
  none_inside (String.◌∷◌ d r) h = elim (Bool-cases (is_blank d)) [
    | inl e ↦
        let later = none_inside r (rw e at h) in
        (rw (skip_run, e, later.0, later.1), rw (matched, blank-and d (front r tail) e))
    | inr e ↦ (
      skip_run-none is_blank (matched after_and) d (front r tail) e,
      rw (matched, front-and d r (front "and " (String.◌∷◌ c s)) (rw e at h)),
    )
  ]

  pub tail-Clear : (r : String) → has_joint r ≡ false → Clear in_line (matched joint) tail r
  unfolding matched skip_run has_joint
  tail-Clear String.[] h = tt
  tail-Clear (String.◌∷◌ d r) h =
      let unjoined : (is_blank d && joins r) ≡ false = ground (arith, h) in
      (
        elim (Bool-cases (is_blank d)) [
          | inl e ↦
              let later = none_inside r (rw e at unjoined) in rw (skip_run, e, later.0, later.1)
          | inr e ↦ skip_run-none is_blank (matched after_and) d (front r tail) e
        ],
        tail-Clear r (ground (arith, h)),
      )

-- An end of a path phrase: it starts with no white space and stays in a line.
pub record IsEnd (s : String) : Type 0 where
  pub dark : starts_dark s ≡ true
  pub inside : all_of in_line s ≡ true

has_joint-rest : (d : Char) (r : String) → has_joint (String.◌∷◌ d r) ≡ false → has_joint r ≡ false
unfolding has_joint
has_joint-rest d r h = ground (arith, h)

matched-between :
    (a b : String)
    → IsEnd a
    → IsEnd b
    → has_joint a ≡ false
    → matched between_ends (front " between " (front a (front " and " b))) ≡ some (a ∷ b ∷ [])
unfolding matched after_front is_space
matched-between String.[] b ha hb h = absurd (cc ha.dark)
matched-between (String.◌∷◌ d r) String.[] ha hb h = absurd (cc hb.dark)
matched-between (String.◌∷◌ d r) (String.◌∷◌ c s) ha hb h =
    let dark_d : is_blank d ≡ false = ground (arith, ha.dark) in
    let dark_c : is_blank c ≡ false = ground (arith, hb.dark) in
    let tail = front " and " (String.◌∷◌ c s) in
    skip_run-one is_blank (matched (literal "between" ∷ spaces ∷ lazy_text ∷ joint)) " " "b"
      (front "etween " (front (String.◌∷◌ d r) tail)) refl refl
    ∙ skip_run-one is_blank (matched (lazy_text ∷ joint)) " " d (front r tail) refl dark_d
    ∙ take_lazily-first in_line (matched joint) tail (String.◌∷◌ c s ∷ [])
        (matched-tail c s dark_c hb.inside) "" d r ha.inside
        (tail-Clear c s dark_c hb.inside r (has_joint-rest d r h))
    ∙ ap (λ t. some (t ∷ String.◌∷◌ c s ∷ [])) (TextLemmas.nil-append (String.◌∷◌ d r))

-- A text "paths between a and b", whose first end has no other " and ", is split into a and b.
pub first_matched-between :
    (a b : String)
    → IsEnd a
    → IsEnd b
    → has_joint a ≡ false
    → first_matched path_patterns (front "paths between " (front a (front " and " b)))
      ≡ some (a ∷ b ∷ [])
unfolding first_matched matched after_front
first_matched-between a b ha hb h = rw (matched-between a b ha hb h)
