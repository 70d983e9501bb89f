-- ===== src/Import/Preview.antt =====
-- packages/guided-workflow/transaction-import.mjs: `previewTransactionImport`. The texts that describe the file and
-- its parser enter no decision; of them the format is kept.
use network_analytics_predic.Import.Rows.{
  Row, Parsed, JsonResult, value_at, parse_transaction_input, format_of,
}
use network_analytics_predic.Import.Mapping.{
  Field, Mapping, normalize_column_mapping, required_fields, field_name,
}
use network_analytics_predic.Import.Values.{
  Readers, parse_amount, valid_date, normalize_kind, normalize_direction, parse_boolean,
  valid_entity_id, zone_of, is_given,
}
use network_analytics_predic.Prelude.{
  messages, is_empty, trim, upper, get_or, show, filter, map, any, not, has, length, ◌⧺◌, ◌++◌,
  ◌==◌, ◌&&◌, ◌||◌, if◌then◌else◌, eqb, Bool, true, false, String, List, [], ◌∷◌, Option, none,
  some, ℕ, zero, suc, ℤ, pos, negsuc,
}

pub record AcceptedRow : Type 0 where
  pub id : String
  pub at : String
  pub origin : String
  pub origin_kind : String
  pub destination : String
  pub destination_kind : String
  pub amount : ℤ
  pub currency : String
  pub direction : String
  pub timezone : String
  pub type : String
  pub description : String
  pub expected_account_id : String
  pub expected_review_priority : Option Bool
  pub row_number : ℕ

pub record RejectedRow : Type 0 where
  pub row_number : ℕ
  pub id : String
  pub reasons : List String
  pub raw : Row

abbrev pub supported_currencies : List String
supported_currencies = "USD" ∷ "EUR" ∷ "GBP" ∷ "PEN" ∷ "MXN" ∷ "COP" ∷ "BRL" ∷ "CAD" ∷ "N/A" ∷ []

abbrev pub supported_directions : List String
supported_directions =
    "" ∷ "inbound" ∷ "outbound" ∷ "credit" ∷ "debit" ∷ "context" ∷ "transfer" ∷ []

-- `mapping.field ? row[mapping.field] ?? "" : ""`
abbrev pub cell : Mapping → Row → Field → String
cell mapping row field =
    if is_empty (mapping field) then "" else get_or (value_at row (mapping field)) ""

-- The values of a row that decide on it.
pub record Values : Type 0 where
  pub at : Option String
  pub amount : Option ℤ
  pub currency : String
  pub origin : String
  pub destination : String
  pub direction : String
  pub type : String
  pub id : String

unfoldable pub values_of : Readers → Mapping → Row → ℕ → Values
values_of readers mapping row row_number = record {
  at = if is_empty (mapping Field.at) then none else valid_date readers (cell mapping row Field.at);
  amount =
      if is_empty (mapping Field.amount)
      then none
      else parse_amount readers (cell mapping row Field.amount);
  currency = upper (trim (cell mapping row Field.currency));
  origin = trim (cell mapping row Field.origin);
  destination = trim (cell mapping row Field.destination);
  direction = normalize_direction (cell mapping row Field.direction);
  type = trim (cell mapping row Field.type);
  id =
      if is_empty (mapping Field.id)
      then "row-" ⧺ show row_number
      else trim (cell mapping row Field.id);
}

abbrev pub is_zero : Option ℤ → Bool
is_zero (some (pos zero)) = true
is_zero other = false

abbrev pub is_negative : Option ℤ → Bool
is_negative (some (negsuc n)) = true
is_negative other = false

-- `names.join(", ")`
abbrev joined : List String → String
joined [] = ""
joined (x ∷ []) = x
joined (x ∷ y ∷ rest) = x ⧺ ", " ⧺ joined (y ∷ rest)

-- The conditions under which a reason is pushed, in their order.
abbrev pub row_checks : List Field → Bool → Values → List (Bool × String)
row_checks missing duplicate v =
    (
      not (eqb (length missing) 0),
      "Missing required mapped fields: " ⧺ joined (map field_name missing),
    )
    ∷ (not (is_given v.at), "Invalid timestamp or missing explicit timezone")
    ∷ (not (is_given v.amount), "Invalid amount")
    ∷ (is_empty v.currency, "Missing currency")
    ∷ (
      not (is_empty v.currency) && not (has supported_currencies v.currency),
      "Unsupported currency: " ⧺ v.currency,
    )
    ∷ (is_empty v.origin, "Missing origin")
    ∷ (is_empty v.destination, "Missing destination")
    ∷ (not (is_empty v.origin) && not (valid_entity_id v.origin), "Invalid origin identity")
    ∷ (
      not (is_empty v.destination) && not (valid_entity_id v.destination),
      "Invalid destination identity",
    )
    ∷ (
      not (is_empty v.origin)
          && not (is_empty v.destination)
          && v.origin == v.destination
          && not (is_zero v.amount),
      "Origin and destination are identical for money movement",
    )
    ∷ (not (has supported_directions v.direction), "Unsupported direction: " ⧺ v.direction)
    ∷ (
      is_zero v.amount && not (v.currency == "N/A"),
      "Zero-amount context rows must use N/A currency",
    )
    ∷ (is_negative v.amount, "Amount cannot be negative")
    ∷ (is_empty v.type, "Missing transaction type")
    ∷ (is_empty v.id, "Missing transaction id")
    ∷ (not (is_empty v.id) && not (valid_entity_id v.id), "Invalid transaction id")
    ∷ (duplicate, "Duplicate transaction id")
    ∷ []

unfoldable pub reasons_of : List Field → Bool → Values → List String
reasons_of missing duplicate v = messages (row_checks missing duplicate v)

pub record Sorted : Type 0 where
  pub accepted_rows : List AcceptedRow
  pub rejected_rows : List RejectedRow

abbrev pub is_taken : Sorted → String → Bool
is_taken s id = any (λ a. a.id == id) s.accepted_rows || any (λ r. r.id == id) s.rejected_rows

abbrev pub accepted_row : Mapping → Row → ℕ → Values → AcceptedRow
accepted_row mapping row row_number v = record {
  id = v.id;
  at = get_or v.at "";
  origin = v.origin;
  origin_kind = normalize_kind (cell mapping row Field.origin_kind) v.origin;
  destination = v.destination;
  destination_kind = normalize_kind (cell mapping row Field.destination_kind) v.destination;
  amount = get_or v.amount (pos 0);
  currency = v.currency;
  direction = v.direction;
  timezone = upper (get_or (zone_of (get_or (value_at row (mapping Field.at)) "")) "");
  type = v.type;
  description = trim (cell mapping row Field.description);
  expected_account_id = trim (cell mapping row Field.expected_account_id);
  expected_review_priority =
      if is_empty (mapping Field.expected_review_priority)
      then none
      else parse_boolean (cell mapping row Field.expected_review_priority);
  row_number = row_number;
}

module _ (readers : Readers) (mapping : Mapping) (missing : List Field) where
  -- The body of the `forEach`.
  unfoldable pub sort_row : ℕ → Row → Sorted → Sorted
  unfolding reasons_of values_of
  sort_row row_number row s =
      let v = values_of readers mapping row row_number in
      let reasons = reasons_of missing (is_taken s v.id) v in
      if eqb (length reasons) 0
      then record s {
        accepted_rows = s.accepted_rows ++ accepted_row mapping row row_number v ∷ [];
      }
      else record s {
        rejected_rows =
            s.rejected_rows
            ++ record { row_number = row_number; id = v.id; reasons = reasons; raw = row } ∷ [];
      }

  unfoldable pub sort_rows : ℕ → List Row → Sorted → Sorted
  unfolding sort_row
  sort_rows row_number [] s = s
  sort_rows row_number (row ∷ rows) s = sort_rows (suc row_number) rows (sort_row row_number row s)

pub record Summary : Type 0 where
  pub total_rows : ℕ
  pub accepted : ℕ
  pub rejected : ℕ

pub record Preview : Type 0 where
  pub file_name : String
  pub format : String
  pub parser_version : String
  pub headers : List String
  pub mapped_columns : Mapping
  pub missing_fields : List Field
  pub sorted : Sorted
  pub open sorted use *
  pub summary : Summary

pub record Options : Type 0 where
  pub format : Option String
  pub mapping : Field → Option String
  pub file_name : Option String

abbrev pub missing_of : Mapping → List Field
missing_of mapping = filter (λ field. is_empty (mapping field)) required_fields

abbrev preview_of : Options → Parsed → Mapping → List Field → Sorted → Summary → Preview
preview_of options parsed mapping missing sorted summary = record {
  file_name = get_or options.file_name ("pasted-transactions." ⧺ format_of options.format);
  format = format_of options.format;
  parser_version = format_of options.format ⧺ "-import-0.2";
  headers = parsed.headers;
  mapped_columns = mapping;
  missing_fields = missing;
  sorted = sorted;
  summary = summary;
}

abbrev preview_error : Options → Parsed → Mapping → String → Preview
preview_error options parsed mapping message =
    preview_of options parsed mapping required_fields
      (record {
        accepted_rows = [];
        rejected_rows =
            record { row_number = 1; id = "parse-error"; reasons = message ∷ []; raw = [] } ∷ [];
      })
      (record { total_rows = 0; accepted = 0; rejected = 1 })

abbrev preview_rows : Readers → Options → Parsed → Mapping → Preview
preview_rows readers options parsed mapping =
    let sorted =
      sort_rows readers mapping (missing_of mapping) 2 parsed.rows
        (record { accepted_rows = []; rejected_rows = [] }) in
    preview_of options parsed mapping (missing_of mapping) sorted (record {
      total_rows = length parsed.rows;
      accepted = length sorted.accepted_rows;
      rejected = length sorted.rejected_rows;
    })

unfoldable pub preview_parsed : Readers → Options → Parsed → Preview
unfolding sort_rows normalize_column_mapping
preview_parsed readers options parsed =
    let mapping = normalize_column_mapping parsed.headers options.mapping in
    elim parsed.parse_error [
      | some message ↦ preview_error options parsed mapping message
      | none ↦ preview_rows readers options parsed mapping
    ]

unfoldable pub preview_transaction_import :
    (String → JsonResult) → Readers → String → Options → Preview
unfolding preview_parsed parse_transaction_input
preview_transaction_import read_json readers text options =
    preview_parsed readers options (parse_transaction_input read_json text options.format)
