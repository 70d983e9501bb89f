-- ===== src/Import/Rows.antt =====
-- packages/guided-workflow/transaction-import.mjs: `normalizeHeader`, `parseCsv`, `flattenRecord`, `parseJson` and
-- `parseTransactionInput`. A row is an object with text values, as the list of its entries in the order of insertion;
-- a number of a JSON text is given by its text. The reader of JSON is a parameter.
use Prim.Native.Char.{code}
use network_analytics_predic.Gates.Folds.{sort_ids}
use network_analytics_predic.Import.Csv.{cons, push, split_csv_line}
use network_analytics_predic.Prelude.{
  unique, ◌++◌, is_empty, ◌⧺◌, lower, trim, map, filter, not, ◌||◌, ◌&&◌, eqb, is_space,
  if◌then◌else◌, ◌==◌, get_or, all, Bool, true, false, String, List, [], ◌∷◌, Option, none, some,
}

abbrev pub Row : Type 0
Row = List (String × String)

-- `row[key]`
abbrev pub value_at : Row → String → Option String
value_at [] key = none
value_at ((k, v) ∷ row) key = let later = value_at row key in if k == key then some v else later

-- `row[key] = value`
abbrev pub put : String → String → Row → Row
put key value [] = (key, value) ∷ []
put key value ((k, v) ∷ row) =
    let later = put key value row in if k == key then (k, value) ∷ row else (k, v) ∷ later

-- `Object.assign(row, entries)`, and `Object.fromEntries` from the empty row
abbrev pub assign : Row → Row → Row
assign row [] = row
assign row ((k, v) ∷ entries) = assign (put k v row) entries

-- `replaceAll(/[\s-]+/g, "_")`: whether the character before was one of these comes first.
underscore : Bool → String → String
underscore within String.[] = ""
underscore within (String.◌∷◌ c s) =
    let after_gap = underscore true s in
    let after_other = underscore false s in
    if is_space (code c) || eqb (code c) 45
    then (if within then after_gap else "_" ⧺ after_gap)
    else cons c after_other

unfoldable pub normalize_header : String → String
unfolding underscore
normalize_header value = underscore false (lower (trim value))

-- `split(/\r?\n/)`
split_lines : String → String → List String
split_lines current String.[] = current ∷ []
split_lines current (String.◌∷◌ c String.[]) =
    if eqb (code c) 10 then current ∷ "" ∷ [] else push current c ∷ []
split_lines current (String.◌∷◌ c (String.◌∷◌ d s)) = elim (eqb (code c) 13 && eqb (code d) 10) [
  | true ↦ current ∷ split_lines "" s
  | false ↦ elim (eqb (code c) 10) [
    | true ↦ current ∷ split_lines "" (String.◌∷◌ d s)
    | false ↦ split_lines (push current c) (String.◌∷◌ d s)
  ]
]

pub record Parsed : Type 0 where
  pub headers : List String
  pub rows : List Row
  pub parse_error : Option String

-- `headers.map((header, index) => [header, cells[index] ?? ""])`
abbrev pub with_cells : List String → List String → Row
with_cells [] cells = []
with_cells (h ∷ headers) [] = (h, "") ∷ with_cells headers []
with_cells (h ∷ headers) (c ∷ cells) = (h, c) ∷ with_cells headers cells

abbrev csv_of_lines : List String → Parsed
csv_of_lines [] = record { headers = []; rows = []; parse_error = none }
csv_of_lines (first ∷ lines) =
    let headers = map normalize_header (split_csv_line first) in
    record {
      headers = headers;
      rows = map (λ line. assign [] (with_cells headers (split_csv_line line))) lines;
      parse_error = none;
    }

unfoldable pub parse_csv : String → Parsed
unfolding split_lines
parse_csv text =
    csv_of_lines (filter (λ line. not (is_empty line)) (map trim (split_lines "" text)))

mutual
  pub data Json : Type 0 where
    null : Json
    bool : Bool → Json
    num : String → Json
    str : String → Json
    arr : Items → Json
    obj : Fields → Json

  pub data Items : Type 0 where
    nil : Items
    item : Json → Items → Items

  pub data Fields : Type 0 where
    end : Fields
    field : String → Json → Fields → Fields

-- `String(value)`, where null and undefined are written as nothing; an array joins its elements by commas.
unfoldable mutual
  pub text_of_json : Json → String
  text_of_json null = ""
  text_of_json (bool b) = if b then "true" else "false"
  text_of_json (num text) = text
  text_of_json (str text) = text
  text_of_json (arr items) = joined items
  text_of_json (obj fields) = "[object Object]"

  pub joined : Items → String
  joined nil = ""
  joined (item j items) = text_of_json j ⧺ joined_rest items

  pub joined_rest : Items → String
  joined_rest nil = ""
  joined_rest (item j items) = "," ⧺ text_of_json j ⧺ joined_rest items

-- `flattenRecord`: the entries of `fields` are put into `output`.
unfoldable mutual
  unfolding text_of_json normalize_header

  pub flatten_value : Json → String → Row → Row
  flatten_value (obj fields) key output = assign output (flatten_record fields key [])
  flatten_value null key output = put key "" output
  flatten_value (bool b) key output = put key (text_of_json (bool b)) output
  flatten_value (num text) key output = put key text output
  flatten_value (str text) key output = put key text output
  flatten_value (arr items) key output = put key (text_of_json (arr items)) output

  pub flatten_record : Fields → String → Row → Row
  flatten_record end prefix output = output
  flatten_record (field key value fields) prefix output = flatten_record fields prefix (
      flatten_value value (normalize_header (if is_empty prefix then key else prefix ⧺ "_" ⧺ key))
        output)

pub data JsonResult : Type 0 where
  json : Json → JsonResult
  json_error : String → JsonResult

abbrev list_of : Items → List Json
list_of nil = []
list_of (item j items) = j ∷ list_of items

abbrev transactions_of : Fields → List Json
transactions_of end = []
transactions_of (field key (arr items) fields) =
    let later = transactions_of fields in if key == "transactions" then list_of items else later
transactions_of (field key other fields) = transactions_of fields

-- The array, or the array under `transactions`, or no records.
abbrev pub records_of : Json → List Json
records_of (arr items) = list_of items
records_of (obj fields) = transactions_of fields
records_of other = []

abbrev is_record : Json → Bool
is_record (obj fields) = true
is_record other = false

abbrev flat_row : Json → Row
flat_row (obj fields) = flatten_record fields "" []
flat_row other = []

abbrev keys_of : List Row → List String
keys_of [] = []
keys_of (row ∷ rows) = map (λ e. e.0) row ++ keys_of rows

abbrev failed : String → Parsed
failed message = record { headers = []; rows = []; parse_error = some message }

abbrev json_rows : List Json → Parsed
json_rows [] = failed "JSON import expects an array of transaction objects or a transactions array"
json_rows (r ∷ records) =
    if all is_record (r ∷ records)
    then record {
      headers = sort_ids (unique (keys_of (map flat_row (r ∷ records))));
      rows = map flat_row (r ∷ records);
      parse_error = none;
    }
    else failed "JSON import expects an array of transaction objects or a transactions array"

abbrev json_parsed : JsonResult → Parsed
json_parsed (json_error message) = failed ("Invalid JSON: " ⧺ message)
json_parsed (json j) = json_rows (records_of j)

unfoldable pub parse_json : (String → JsonResult) → String → Parsed
unfolding flatten_record flatten_value
parse_json read_json text = json_parsed (read_json text)

abbrev pub is_json : Option String → Bool
is_json format = get_or format "" == "json"

abbrev pub format_of : Option String → String
format_of format = if is_json format then "json" else "csv"

unfoldable pub parse_transaction_input : (String → JsonResult) → String → Option String → Parsed
unfolding parse_json parse_csv
parse_transaction_input read_json text format =
    if is_json format then parse_json read_json text else parse_csv text
