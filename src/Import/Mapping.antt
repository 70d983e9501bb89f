-- ===== src/Import/Mapping.antt =====
-- packages/guided-workflow/transaction-import.mjs: `FIELD_ALIASES`, `inferColumnMapping` and
-- `normalizeColumnMapping`. A mapping gives each field its column, or the empty text.
use network_analytics_predic.Import.Rows.{normalize_header}
use network_analytics_predic.Prelude.{
  is_empty, map, find, has, not, ◌&&◌, get_or, if◌then◌else◌, String, List, [], ◌∷◌, Option,
}

pub data Field : Type 0 where
  id at origin origin_kind destination destination_kind amount currency direction : Field
  type description expected_account_id expected_review_priority : Field

pub field_aliases : Field → List String
field_aliases Field.id = "transaction_id" ∷ "transactionid" ∷ "tx_id" ∷ "id" ∷ "reference" ∷ []
field_aliases Field.at =
    "timestamp" ∷ "datetime" ∷ "date_time" ∷ "transaction_time" ∷ "date" ∷ "time" ∷ "at" ∷ []
field_aliases Field.origin =
    "origin_id" ∷ "origin" ∷ "source" ∷ "source_id" ∷ "from" ∷ "from_account" ∷ "account_origin"
    ∷ "person_origin_id" ∷ []
field_aliases Field.origin_kind = "origin_kind" ∷ "origin_type" ∷ "source_type" ∷ "from_type" ∷ []
field_aliases Field.destination =
    "destination_id" ∷ "destination" ∷ "target" ∷ "target_id" ∷ "to" ∷ "to_account"
    ∷ "account_destination" ∷ "person_destination_id" ∷ []
field_aliases Field.destination_kind =
    "destination_kind" ∷ "destination_type" ∷ "target_type" ∷ "to_type" ∷ []
field_aliases Field.amount = "amount" ∷ "value" ∷ "transaction_amount" ∷ []
field_aliases Field.currency = "currency" ∷ "ccy" ∷ []
field_aliases Field.direction = "direction" ∷ "flow_direction" ∷ "debit_credit" ∷ "dr_cr" ∷ []
field_aliases Field.type = "type" ∷ "transaction_type" ∷ "description_type" ∷ "category" ∷ []
field_aliases Field.description = "description" ∷ "memo" ∷ "narrative" ∷ "details" ∷ "concept" ∷ []
field_aliases Field.expected_account_id =
    "expected_account_id" ∷ "label_account_id" ∷ "ground_truth_account_id" ∷ []
field_aliases Field.expected_review_priority =
    "expected_review_priority" ∷ "label_review_priority" ∷ "ground_truth_review_priority" ∷ []

abbrev pub Mapping : Type 0
Mapping = Field → String

unfoldable pub infer_column_mapping : List String → Mapping
unfolding field_aliases
infer_column_mapping headers field =
    get_or (find (has (field_aliases field)) (map normalize_header headers)) ""

-- `overrides` names a column for some of the fields.
unfoldable pub normalize_column_mapping : List String → (Field → Option String) → Mapping
unfolding infer_column_mapping
normalize_column_mapping headers overrides field =
    let override = normalize_header (get_or (overrides field) "") in
    if not (is_empty override) && has (map normalize_header headers) override
    then override
    else infer_column_mapping headers field

abbrev pub required_fields : List Field
required_fields =
    Field.id ∷ Field.at ∷ Field.origin ∷ Field.destination ∷ Field.amount ∷ Field.currency
    ∷ Field.type ∷ []

abbrev pub field_name : Field → String
field_name Field.id = "id"
field_name Field.at = "at"
field_name Field.origin = "origin"
field_name Field.origin_kind = "originKind"
field_name Field.destination = "destination"
field_name Field.destination_kind = "destinationKind"
field_name Field.amount = "amount"
field_name Field.currency = "currency"
field_name Field.direction = "direction"
field_name Field.type = "type"
field_name Field.description = "description"
field_name Field.expected_account_id = "expectedAccountId"
field_name Field.expected_review_priority = "expectedReviewPriority"
