-- ===== src/Import/Decided.antt =====
-- Each row of an import is accepted or rejected, once and in the order of the rows.
use mathlib.Core.List.{map-append}
use network_analytics_predic.Import.Values.{Readers}
use network_analytics_predic.Import.Mapping.{normalize_column_mapping, Field, Mapping}
use network_analytics_predic.Import.Rows.{Parsed, parse_transaction_input, Row, JsonResult}
use network_analytics_predic.Import.Preview.{
  Preview, preview_parsed, is_taken, missing_of, reasons_of, values_of, AcceptedRow, RejectedRow,
  Sorted, sort_row, sort_rows, Options, preview_transaction_import,
}
use network_analytics_predic.Prelude.{
  inr, inl, length-map, eqb, none, Bool-cases, append_assoc, refl, String, ap, append-nil, arith,
  map, ◌≡◌, ℕ, suc, ◌+◌, List, [], ◌∷◌, ◌++◌, length,
}

-- The third list is a merge of the first two.
pub data Merge : List ℕ → List ℕ → List ℕ → Type 0 where
  done : Merge [] [] []
  left : {n : ℕ} {xs ys zs : List ℕ} → Merge xs ys zs → Merge (n ∷ xs) ys (n ∷ zs)
  right : {n : ℕ} {xs ys zs : List ℕ} → Merge xs ys zs → Merge xs (n ∷ ys) (n ∷ zs)

-- n, n + 1, …
abbrev pub numbers {ℓ} : {A : Type ℓ} → ℕ → List A → List ℕ
numbers n [] = []
numbers n (_ ∷ xs) = n ∷ numbers (suc n) xs

left_snoc : {xs ys zs : List ℕ} (n : ℕ) → Merge xs ys zs → Merge (xs ++ n ∷ []) ys (zs ++ n ∷ [])
left_snoc n done = left done
left_snoc n (left m) = left (left_snoc n m)
left_snoc n (right m) = right (left_snoc n m)

right_snoc : {xs ys zs : List ℕ} (n : ℕ) → Merge xs ys zs → Merge xs (ys ++ n ∷ []) (zs ++ n ∷ [])
right_snoc n done = right done
right_snoc n (left m) = left (right_snoc n m)
right_snoc n (right m) = right (right_snoc n m)

length-Merge : {xs ys zs : List ℕ} → Merge xs ys zs → length xs + length ys ≡ length zs
length-Merge done = omega arith
length-Merge (left m) = omega (arith, length-Merge m)
length-Merge (right m) = omega (arith, length-Merge m)

length-numbers {ℓ} : {A : Type ℓ} (n : ℕ) (xs : List A) → length (numbers n xs) ≡ length xs
length-numbers n [] = refl
length-numbers n (x ∷ xs) = ap suc (length-numbers (suc n) xs)

abbrev pub accepted_numbers : Sorted → List ℕ
accepted_numbers s = map (λ a. a.row_number) s.accepted_rows

abbrev pub rejected_numbers : Sorted → List ℕ
rejected_numbers s = map (λ r. r.row_number) s.rejected_rows

module _ (readers : Readers) (mapping : Mapping) (missing : List Field) where
  sort_row-Merge :
      (n : ℕ) (row : Row) (s : Sorted) (before : List ℕ)
      → Merge (accepted_numbers s) (rejected_numbers s) before
      → let s' = sort_row readers mapping missing n row s in
        Merge (accepted_numbers s') (rejected_numbers s') (before ++ n ∷ [])
  unfolding sort_row
  sort_row-Merge n row s before m =
      let v = values_of readers mapping row n in
      elim (Bool-cases (eqb (length (reasons_of missing (is_taken s v.id) v)) 0)) [
        | inl e ↦ rw (e, map-append) (left_snoc n m)
        | inr e ↦ rw (e, map-append) (right_snoc n m)
      ]

  sort_rows-Merge :
      (n : ℕ) (rows : List Row) (s : Sorted) (before : List ℕ)
      → Merge (accepted_numbers s) (rejected_numbers s) before
      → let s' = sort_rows readers mapping missing n rows s in
        Merge (accepted_numbers s') (rejected_numbers s') (before ++ numbers n rows)
  unfolding sort_rows
  sort_rows-Merge n [] s before m = rw append-nil m
  sort_rows-Merge n (row ∷ rows) s before m =
      let s' = sort_row readers mapping missing n row s in
      rw (← append_assoc before (n ∷ []) (numbers (suc n) rows))
        (sort_rows-Merge (suc n) rows s' (before ++ n ∷ []) (sort_row-Merge n row s before m))

abbrev IsMerge : Preview → List Row → Type 0
IsMerge preview rows =
    Merge (accepted_numbers preview.sorted) (rejected_numbers preview.sorted) (numbers 2 rows)
    × (preview.summary.total_rows ≡ length rows)
    × (preview.summary.accepted ≡ length preview.accepted_rows)
    × (preview.summary.rejected ≡ length preview.rejected_rows)
    × (preview.summary.accepted + preview.summary.rejected ≡ preview.summary.total_rows)

preview_parsed-Merge :
    (readers : Readers) (options : Options) (parsed : Parsed)
    → parsed.parse_error ≡ none
    → IsMerge (preview_parsed readers options parsed) parsed.rows
unfolding preview_parsed
preview_parsed-Merge readers options parsed e =
    let mapping = normalize_column_mapping parsed.headers options.mapping in
    let start : Sorted = record { accepted_rows = []; rejected_rows = [] } in
    let sorted = sort_rows readers mapping (missing_of mapping) 2 parsed.rows start in
    let m : Merge (accepted_numbers sorted) (rejected_numbers sorted) (numbers 2 parsed.rows) =
      sort_rows-Merge readers mapping (missing_of mapping) 2 parsed.rows start [] done in
    rw e (
      m,
      refl,
      refl,
      refl,
      omega (
        arith,
        length-Merge m,
        length-numbers {0} 2 parsed.rows,
        length-map {0, 0} (λ (a : AcceptedRow). a.row_number) sorted.accepted_rows,
        length-map {0, 0} (λ (r : RejectedRow). r.row_number) sorted.rejected_rows,
      ),
    )

-- Where the text can be read, the numbers of the accepted and of the rejected rows, each in increasing order, are
-- together the numbers of all rows from 2 on, and the summary counts all rows, the accepted and the rejected ones.
pub preview_transaction_import-Merge :
    (read_json : String → JsonResult) (readers : Readers) (text : String) (options : Options)
    → let parsed = parse_transaction_input read_json text options.format in
      let preview = preview_transaction_import read_json readers text options in
      parsed.parse_error ≡ none
      → Merge
          (accepted_numbers preview.sorted)
          (rejected_numbers preview.sorted)
          (numbers 2 parsed.rows)
        × (preview.summary.total_rows ≡ length parsed.rows)
        × (preview.summary.accepted ≡ length preview.accepted_rows)
        × (preview.summary.rejected ≡ length preview.rejected_rows)
        × (preview.summary.accepted + preview.summary.rejected ≡ preview.summary.total_rows)
unfolding preview_transaction_import
preview_transaction_import-Merge read_json readers text options =
    preview_parsed-Merge readers options (parse_transaction_input read_json text options.format)
