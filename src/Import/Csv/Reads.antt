-- ===== src/Import/Csv/Reads.antt =====
-- What `splitCsvLine` makes of a line whose cells are all in quotes.
use Prim.Native.Char.{Char}
use Prim.Native.Char.{code}
use text.Mathlib.TextEquality.{Char-path}
use text.Mathlib.TextLemmas
use network_analytics_predic.Import.Csv.{
  scan_cells, split_csv_line, is_quote, is_separator, quote, push, cons, escaped, following, encode,
  only_quotes, as_read,
}
use network_analytics_predic.Prelude.{
  arith, eqb_iff, subst, ap, ◌∙◌, sym, inl, inr, Bool-cases, map, refl, ◌≡◌, Bool, String, List,
  true, false, not, [], ◌∷◌, ◌⧺◌, trim,
}

-- A pair of quotes stands for one, and any other quote opens or closes.
scan-pair :
    (quoted : Bool) (current : String) (c : Char) (s : String)
    → is_quote c ≡ true
    → scan_cells quoted current (cons c (cons c s)) ≡ scan_cells quoted (push current c) s
unfolding scan_cells
scan-pair quoted current c s e = rw (e, scan_cells) (rw e)

scan-toggle :
    (quoted : Bool) (current : String) (c : Char) (s : String)
    → is_quote c ≡ false
    → scan_cells quoted current (cons quote (cons c s)) ≡ scan_cells (not quoted) current (cons c s)
unfolding scan_cells
scan-toggle quoted current c s e = rw (e, scan_cells)

scan-char :
    (quoted : Bool) (current : String) (c : Char) (s : String)
    → is_quote c ≡ false
    → is_separator quoted c ≡ false
    → scan_cells quoted current (cons c s) ≡ scan_cells quoted (push current c) s
unfolding scan_cells
scan-char quoted current c String.[] e n = rw (e, scan_cells) (rw (n, scan_cells))
scan-char quoted current c (String.◌∷◌ d s) e n = rw (e, scan_cells) (rw (n, scan_cells))

push_then : (current : String) (c : Char) (s : String) → push current c ⧺ s ≡ current ⧺ cons c s
push_then current c s =
    TextLemmas.append_assoc current (cons c "") s
    ∙ ap (λ t. current ⧺ t) (TextLemmas.cons-append c "" s ∙ ap (cons c) (TextLemmas.nil-append s))

-- At the end of a cell comes the closing quote, and then a comma or the end.
scan-close :
    (current : String) (cells : List String)
    → scan_cells true current (cons quote (following cells))
      ≡ scan_cells false current (following cells)
unfolding scan_cells
scan-close current [] = refl
scan-close current (s ∷ cells) = refl

-- Inside the quotes the cell is read as it was written.
scan-inside :
    (current s : String) (cells : List String)
    → scan_cells true current (escaped s (cons quote (following cells)))
      ≡ scan_cells false (current ⧺ s) (following cells)
scan-inside current String.[] cells =
    scan-close current cells
    ∙ ap (λ t. scan_cells false t (following cells)) (sym (TextLemmas.append-nil current))
scan-inside current (String.◌∷◌ c s) cells =
    let rest =
      scan-inside (push current c) s cells
      ∙ ap (λ t. scan_cells false t (following cells)) (push_then current c s) in
    elim (Bool-cases (is_quote c)) [
      | inl e ↦ rw e (scan-pair true current c (escaped s (cons quote (following cells))) e ∙ rest)
      | inr e ↦ rw e (
          scan-char true current c (escaped s (cons quote (following cells))) e (rw not_apart)
          ∙ rest)
    ]
  where
    not_apart : is_separator true c ≡ false
    not_apart = ground arith

quote_of_code : (c : Char) → is_quote c ≡ true → c ≡ quote
quote_of_code c e = Char-path c quote ((eqb_iff (code c) 34).0 e)

as_read-quote : (s : String) → as_read (cons quote s) ≡ cons quote (as_read s)
as_read-quote s = elim (Bool-cases (only_quotes s)) [
  | inl e ↦ rw e (TextLemmas.cons-append quote s (cons quote ""))
  | inr e ↦ rw e
]

-- A cell after its opening quote was read.
scan-open :
    (current s : String) (cells : List String)
    → scan_cells false current (cons quote (escaped s (cons quote (following cells))))
      ≡ scan_cells false (current ⧺ as_read s) (following cells)
scan-open current String.[] cells = scan-pair false current quote (following cells) refl
scan-open current (String.◌∷◌ c s) cells = elim (Bool-cases (is_quote c)) [
  | inl e ↦
      let rest = scan-open (push current quote) s cells in
      let moved : push current quote ⧺ as_read s ≡ current ⧺ as_read (cons quote s) =
        push_then current quote (as_read s) ∙ ap (λ t. current ⧺ t) (sym (as_read-quote s)) in
      subst
        (λ d.
          scan_cells false current (cons quote (escaped (cons d s) (cons quote (following cells))))
          ≡ scan_cells false (current ⧺ as_read (cons d s)) (following cells))
        (sym (quote_of_code c e))
        (scan-pair false current quote (cons quote (escaped s (cons quote (following cells)))) refl
          ∙ rest
          ∙ ap (λ t. scan_cells false t (following cells)) moved)
  | inr e ↦
      let text = escaped s (cons quote (following cells)) in
      let here : escaped (cons c s) (cons quote (following cells)) ≡ cons c text = rw e in
      let whole : as_read (cons c s) ≡ cons c s = rw e in
      ap (λ t. scan_cells false current (cons quote t)) here
      ∙ scan-toggle false current c text e
      ∙ ap (scan_cells true current) (sym here)
      ∙ scan-inside current (cons c s) cells
      ∙ ap (λ t. scan_cells false (current ⧺ t) (following cells)) (sym whole)
]

scan-following :
    (current : String) (cells : List String)
    → scan_cells false current (following cells) ≡ trim current ∷ map (λ s. trim (as_read s)) cells
unfolding scan_cells
scan-following current [] = refl
scan-following current (s ∷ cells) = ap (trim current ∷◌) (
    scan-open "" s cells
    ∙ ap (λ t. scan_cells false t (following cells)) (TextLemmas.nil-append (as_read s))
    ∙ scan-following (as_read s) cells)

-- A line whose cells are all written in quotes, with the quotes inside doubled, is split into the cells, each trimmed;
-- but a cell of quotes alone, the empty cell among them, comes out with one quote too many.
pub split_csv_line-encode :
    (s : String) (cells : List String)
    → split_csv_line (encode s cells) ≡ map (λ t. trim (as_read t)) (s ∷ cells)
unfolding split_csv_line
split_csv_line-encode s cells =
    scan-open "" s cells
    ∙ ap (λ t. scan_cells false t (following cells)) (TextLemmas.nil-append (as_read s))
    ∙ scan-following (as_read s) cells
