-- ===== src/Import/Csv.antt =====
-- packages/guided-workflow/transaction-import.mjs: `splitCsvLine`, and an encoder of cells after RFC 4180 to
-- compare it with. The characters are code points.
pub mod Reads
use Prim.Native.Char.{Char, code}
use network_analytics_predic.Prelude.{
  refl, not, ◌&&◌, if◌then◌else◌, trim, eqb, ◌≡◌, Bool, String, List, true, false, [], ◌∷◌, ◌⧺◌,
}

abbrev pub quote : Char
quote = "\""

abbrev pub comma : Char
comma = ","

abbrev pub is_quote : Char → Bool
is_quote c = eqb (code c) 34

abbrev pub is_separator : Bool → Char → Bool
is_separator quoted c = eqb (code c) 44 && not quoted

-- `current += char`
abbrev pub push : String → Char → String
push current c = current ⧺ String.◌∷◌ c ""

-- `current` and `quoted` are the variables of the loop; the cells are given as they are pushed.
pub scan_cells : Bool → String → String → List String
scan_cells quoted current String.[] = trim current ∷ []
scan_cells quoted current (String.◌∷◌ c String.[]) = elim (is_quote c) [
  | true ↦ trim current ∷ []
  | false ↦ elim (is_separator quoted c) [
    | true ↦ trim current ∷ trim "" ∷ []
    | false ↦ trim (push current c) ∷ []
  ]
]
scan_cells quoted current (String.◌∷◌ c (String.◌∷◌ d s)) = elim (is_quote c) [
  | true ↦ elim (is_quote d) [
    | true ↦ scan_cells quoted (push current c) s
    | false ↦ scan_cells (not quoted) current (String.◌∷◌ d s)
  ]
  | false ↦ elim (is_separator quoted c) [
    | true ↦ trim current ∷ scan_cells quoted "" (String.◌∷◌ d s)
    | false ↦ scan_cells quoted (push current c) (String.◌∷◌ d s)
  ]
]

unfoldable pub split_csv_line : String → List String
unfolding scan_cells
split_csv_line line = scan_cells false "" line

abbrev pub cons : Char → String → String
cons c s = String.◌∷◌ c s

-- A cell with its quotes doubled, before the rest of the line.
abbrev pub escaped : String → String → String
escaped String.[] rest = rest
escaped (String.◌∷◌ c s) rest =
    if is_quote c then cons c (cons c (escaped s rest)) else cons c (escaped s rest)

abbrev pub following : List String → String
following [] = ""
following (s ∷ cells) = cons comma (cons quote (escaped s (cons quote (following cells))))

-- Each cell in quotes, with commas between them.
abbrev pub encode : String → List String → String
encode s cells = cons quote (escaped s (cons quote (following cells)))

abbrev pub only_quotes : String → Bool
only_quotes String.[] = true
only_quotes (String.◌∷◌ c s) = is_quote c && only_quotes s

-- What the code reads where `s` was written.
abbrev pub as_read : String → String
as_read s = if only_quotes s then push s quote else s
