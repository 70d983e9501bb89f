-- ===== src/Import/Labels.antt =====
-- `labeledAccounts` of packages/guided-workflow/transaction-import.mjs against what the rows say.
use network_analytics_predic.Import.Preview.{AcceptedRow}
use network_analytics_predic.Import.Detection.{
  Labels, set_label, label_row, label_rows, labeled_accounts,
}
use network_analytics_predic.Prelude.{
  inr, inl, Bool-cases, ap, eq_iff, ◌∙◌, arith, sym, ◌≡◌, Bool, String, List, [], ◌∷◌, Option, none,
  some, ◌||◌, ◌&&◌, not, is_empty, if◌then◌else◌, ◌==◌, refl,
}

-- `labels.get(id)`
abbrev pub label_at : Labels → String → Option Bool
label_at [] id = none
label_at ((k, v) ∷ labels) id = let later = label_at labels id in if k == id then some v else later

-- Positive if one of the two is.
abbrev pub both : Option Bool → Option Bool → Option Bool
both none later = later
both (some a) none = some a
both (some a) (some b) = some (a || b)

-- What a row says of an account.
abbrev said_by : String → AcceptedRow → Option Bool
said_by id row =
    if row.expected_account_id == id && not (is_empty id)
    then row.expected_review_priority
    else none

-- What all rows together say of it.
abbrev pub said_of : String → List AcceptedRow → Option Bool
said_of id [] = none
said_of id (row ∷ rows) = both (said_by id row) (said_of id rows)

both-none : (o : Option Bool) → both o none ≡ o
both-none none = refl
both-none (some a) = refl

both_assoc : (a b c : Option Bool) → both (both a b) c ≡ both a (both b c)
both_assoc none b c = refl
both_assoc (some a) none c = refl
both_assoc (some a) (some b) none = refl
both_assoc (some a) (some b) (some c) = ground arith

label_at-set_label :
    (k id : String) (v : Bool) (labels : Labels)
    → label_at (set_label k v labels) id
      ≡ (if k == id then both (label_at labels id) (some v) else label_at labels id)
label_at-set_label k id v [] = ground arith
label_at-set_label k id v ((j, w) ∷ labels) =
    ground (arith, eq_iff k id, eq_iff j k, eq_iff j id, label_at-set_label k id v labels)

label_at-label_row :
    (id : String) (row : AcceptedRow) (labels : Labels)
    → label_at (label_row row.expected_account_id row.expected_review_priority labels) id
      ≡ both (label_at labels id) (said_by id row)
label_at-label_row id row labels = step row.expected_account_id row.expected_review_priority
  where
    step :
        (k : String) (o : Option Bool)
        → label_at (label_row k o labels) id
          ≡ both (label_at labels id) (if k == id && not (is_empty id) then o else none)
    step k none = ground (arith, both-none (label_at labels id))
    step k (some v) = elim (Bool-cases (k == id)) [
      | inl e ↦
          let same : k ≡ id = (eq_iff k id).0 e in
          let empty : is_empty k ≡ is_empty id = ap is_empty same in
          ground (arith, e, empty, label_at-set_label k id v labels, both-none (label_at labels id))
      | inr e ↦ ground (arith, e, label_at-set_label k id v labels, both-none (label_at labels id))
    ]

label_rows-said :
    (id : String) (labels : Labels) (rows : List AcceptedRow)
    → label_at (label_rows labels rows) id ≡ both (label_at labels id) (said_of id rows)
unfolding label_rows
label_rows-said id labels [] = sym (both-none (label_at labels id))
label_rows-said id labels (row ∷ rows) =
    label_rows-said id (label_row row.expected_account_id row.expected_review_priority labels) rows
    ∙ ap (λ o. both o (said_of id rows)) (label_at-label_row id row labels)
    ∙ both_assoc (label_at labels id) (said_by id row) (said_of id rows)

-- An account is labeled by an import as soon as one row labels it, and positively exactly when some row does so,
-- whatever the order of the rows; rows without an account or without a label say nothing.
pub labeled_accounts-said :
    (id : String) (rows : List AcceptedRow) → label_at (labeled_accounts rows) id ≡ said_of id rows
labeled_accounts-said id rows = label_rows-said id [] rows
