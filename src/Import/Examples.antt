-- ===== src/Import/Examples.antt =====
-- A short import: five rows, of which two are rejected.
use mathlib.Core.List.{Perm}
use network_analytics_predic.Fraud.Flow.{default_settings}
use network_analytics_predic.Fraud.Ranked.{IsRanked}
use network_analytics_predic.Fraud.Examples.{clock}
use network_analytics_predic.Import.Csv.{split_csv_line, encode}
use network_analytics_predic.Import.Csv.Reads.{split_csv_line-encode}
use network_analytics_predic.Import.Rows.{JsonResult, json_error, parse_transaction_input}
use network_analytics_predic.Import.Values.{
  Readers, valid_date, parse_amount, valid_entity_id, normalize_direction, parse_boolean,
}
use network_analytics_predic.Import.Preview.{Options, Preview, preview_transaction_import}
use network_analytics_predic.Import.Sound.{IsSound, preview_transaction_import-IsSound}
use network_analytics_predic.Import.Decided.{
  Merge, accepted_numbers, rejected_numbers, numbers, preview_transaction_import-Merge,
}
use network_analytics_predic.Import.Workflow.{imported_nodes, imported_relationships}
use network_analytics_predic.Import.Detection.{imported_scores, labeled_accounts}
use network_analytics_predic.Import.Scores.{IsFair, imported_scores-IsFair}
use network_analytics_predic.Import.Closed.{imported_relationships-Closed}
use network_analytics_predic.Import.Labels.{label_at, said_of, labeled_accounts-said}
use network_analytics_predic.Prelude.{
  filter, show, upper, has, lower, ◌+◌, All, Distinct, length, trim, ◌≡◌, refl, ◌⧺◌, ◌==◌,
  if◌then◌else◌, true, String, [], ◌∷◌, none, some, pos, map,
}

-- Cells with a quote and a comma, of quotes alone, and empty.
split_csv_line-encode_example :
    split_csv_line (encode "a,\"b\"" ("\"" ∷ "" ∷ [])) ≡ "a,\"b\"" ∷ "\"\"" ∷ "\"" ∷ []
unfolding trim
split_csv_line-encode_example = split_csv_line-encode "a,\"b\"" ("\"" ∷ "" ∷ [])

abbrev text : String
text =
    "Transaction ID,timestamp,from,to,amount,currency,type,label_account_id,label_review_priority\r\n"
    ⧺ "t1,2026-05-01T09:00Z,victim-a,acct-1,900,usd,transfer,acct-2,no\r\n"
    ⧺ "t2,2026-05-01T09:10Z,acct-1,acct-2,900,USD,transfer,acct-2,yes\n"
    ⧺ "t2,2026-05-01T09:10Z,acct-1,acct-2,900,USD,transfer,,\n"
    ⧺ "t3,2026-05-01T09:10,acct-1,acct-2,900,USD,transfer,,\n"
    ⧺ "t4,2026-05-01T09:20Z,acct-2,acct-3,900,USD,\"cash, out\",,\n"

-- The texts of the example that are numbers and dates.
abbrev readers : Readers
readers = record {
  number = λ t. if t == "900" then some (pos 900000) else none;
  iso_date = λ t. some t;
}

abbrev options : Options
options = record { format = some "csv"; mapping = λ field. none; file_name = none }

abbrev no_json : String → JsonResult
no_json t = json_error "no JSON"

abbrev preview : Preview
preview = preview_transaction_import no_json readers text options

accepted_test : accepted_numbers preview.sorted ≡ 2 ∷ 3 ∷ 6 ∷ []
unfolding preview_transaction_import split_csv_line valid_date parse_amount valid_entity_id
    normalize_direction trim lower upper
accepted_test = refl

rejected_test :
    map (λ r. r.reasons) preview.rejected_rows
    ≡ ("Duplicate transaction id" ∷ [])
      ∷ ("Invalid timestamp or missing explicit timezone" ∷ [])
      ∷ []
unfolding preview_transaction_import split_csv_line valid_date parse_amount valid_entity_id
    normalize_direction trim lower upper
rejected_test = refl

preview_transaction_import-IsSound_example :
    All (IsSound readers) preview.accepted_rows × Distinct (map (λ a. a.id) preview.accepted_rows)
preview_transaction_import-IsSound_example =
    preview_transaction_import-IsSound no_json readers text options

preview_transaction_import-Merge_example :
    Merge
      (accepted_numbers preview.sorted)
      (rejected_numbers preview.sorted)
      (numbers 2 (parse_transaction_input no_json text options.format).rows)
    × (preview.summary.total_rows
        ≡ length (parse_transaction_input no_json text options.format).rows)
    × (preview.summary.accepted ≡ length preview.accepted_rows)
    × (preview.summary.rejected ≡ length preview.rejected_rows)
    × (preview.summary.accepted + preview.summary.rejected ≡ preview.summary.total_rows)
unfolding trim
preview_transaction_import-Merge_example =
    preview_transaction_import-Merge no_json readers text options
      (unfold parse_transaction_input in refl)

imported_scores_example :
    let scores = imported_scores clock preview.accepted_rows default_settings in
    All (IsFair default_settings) scores
    × IsRanked scores
    × Perm
        (map (λ s. s.account_id) scores)
        (map (λ n. n.id) (filter (λ n. n.type == "account") (imported_nodes preview.accepted_rows)))
imported_scores_example = imported_scores-IsFair clock preview.accepted_rows default_settings

imported_relationships-Closed_example :
    let ids = map (λ n. n.id) (imported_nodes preview.accepted_rows) in
    Distinct ids
    × All
        (λ r. (has ids r.subject ≡ true) × (has ids r.object ≡ true))
        (imported_relationships show clock preview.accepted_rows)
imported_relationships-Closed_example =
    imported_relationships-Closed show clock preview.accepted_rows

labeled_accounts-said_example :
    label_at (labeled_accounts preview.accepted_rows) "acct-2"
    ≡ said_of "acct-2" preview.accepted_rows
labeled_accounts-said_example = labeled_accounts-said "acct-2" preview.accepted_rows

label_test : said_of "acct-2" preview.accepted_rows ≡ some true
unfolding parse_boolean preview_transaction_import split_csv_line valid_date parse_amount
    valid_entity_id normalize_direction trim lower upper
label_test = refl

csv_test : split_csv_line "a, \"b,\"\"c\"\" d\",,\"\" " ≡ "a" ∷ "b,\"c\" d" ∷ "" ∷ "\"" ∷ []
unfolding split_csv_line trim
csv_test = refl
