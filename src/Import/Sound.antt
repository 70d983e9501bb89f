-- ===== src/Import/Sound.antt =====
-- What the rows that a preview accepts satisfy.
use network_analytics_predic.Import.Values.{
  Readers, valid_date, has_explicit_timezone, valid_entity_id, is_given,
}
use network_analytics_predic.Import.Mapping.{normalize_column_mapping, Field, Mapping}
use network_analytics_predic.Import.Rows.{Parsed, parse_transaction_input, JsonResult, Row}
use network_analytics_predic.Import.Preview.{
  preview_parsed, missing_of, Options, preview_transaction_import, row_checks, AcceptedRow, Values,
  values_of, reasons_of, accepted_row, supported_currencies, supported_directions, is_zero,
  is_negative, is_taken, cell, Sorted, sort_row, sort_rows,
}
use mathlib.Core.List.{map-append}
use network_analytics_predic.Prelude.{
  Option-cases, Distinct-snoc, ◌||◌, All-snoc, eqb_iff, inr, map, zero, ◌∙◌, Distinct, eqb, inl,
  negsuc, sym, ◌==◌, All, Bool-cases, any, ap, get_or, suc, messages-none, is_empty, eq_iff, has,
  refl, length, ◌≡◌, Bool, true, false, String, List, [], ◌∷◌, Option, some, none, ℕ, ℤ, pos, arith,
}

-- A dated row with ids of the accepted form, a currency and a direction of the lists, and an amount that is not
-- negative, is zero for the currency "N/A" only if anywhere, and is zero where the two ends are the same.
pub record IsSound (readers : Readers) (a : AcceptedRow) : Type 0 where
  pub named : valid_entity_id a.id ≡ true
  pub from_entity : valid_entity_id a.origin ≡ true
  pub to_entity : valid_entity_id a.destination ≡ true
  pub in_currency : has supported_currencies a.currency ≡ true
  pub directed : has supported_directions a.direction ≡ true
  pub typed : is_empty a.type ≡ false
  pub not_negative : is_negative (some a.amount) ≡ false
  pub context : a.amount ≡ pos 0 → a.currency ≡ "N/A"
  pub moves : a.origin ≡ a.destination → a.amount ≡ pos 0
  pub dated :
      (text : String) × (has_explicit_timezone text ≡ true) × (readers.iso_date text ≡ some a.at)

-- Without a reason, each of the conditions fails.
record Passes (missing : List Field) (duplicate : Bool) (v : Values) : Type 0 where
  at : is_given v.at ≡ true
  amount : is_given v.amount ≡ true
  currency : has supported_currencies v.currency ≡ true
  origin : valid_entity_id v.origin ≡ true
  destination : valid_entity_id v.destination ≡ true
  apart : v.origin ≡ v.destination → is_zero v.amount ≡ true
  direction : has supported_directions v.direction ≡ true
  context : is_zero v.amount ≡ true → v.currency ≡ "N/A"
  sign : is_negative v.amount ≡ false
  type : is_empty v.type ≡ false
  id : valid_entity_id v.id ≡ true
  fresh : duplicate ≡ false
  mapped : length missing ≡ 0

reasons_of-Passes :
    (missing : List Field) (duplicate : Bool) (v : Values)
    → length (reasons_of missing duplicate v) ≡ 0
    → Passes missing duplicate v
unfolding reasons_of
reasons_of-Passes missing duplicate v h =
    let (
      m,
      (
        a,
        (n, (c, (cs, (o, (d, (ov, (dv, (same, (dir, (z, (neg, (t, (e, (ev, (dup, _))))))))))))))),
      ),
    ) =
      messages-none (row_checks missing duplicate v) h in
    record {
      at = ground arith;
      amount = ground arith;
      currency = ground arith;
      origin = ground arith;
      destination = ground arith;
      apart = λ p. ground (arith, eq_iff v.origin v.destination);
      direction = ground arith;
      context = λ p. ground (arith, eq_iff v.currency "N/A");
      sign = neg;
      type = t;
      id = ground arith;
      fresh = dup;
      mapped = ground arith;
    }

module _ (readers : Readers) (mapping : Mapping) where
  given : (o : Option String) → is_given o ≡ true → o ≡ some (get_or o "")
  given none h = cc h
  given (some t) h = refl

  amount_of : (o : Option ℤ) → is_given o ≡ true → o ≡ some (get_or o (pos 0))
  amount_of none h = cc h
  amount_of (some z) h = refl

  zero_of : (z : ℤ) → is_zero (some z) ≡ true → z ≡ pos 0
  zero_of (pos zero) h = refl
  zero_of (pos (suc n)) h = cc h
  zero_of (negsuc n) h = cc h

  valid_date-timezone :
      (text at : String)
      → valid_date readers text ≡ some at
      → (has_explicit_timezone text ≡ true) × (readers.iso_date text ≡ some at)
  unfolding valid_date has_explicit_timezone
  valid_date-timezone text at h = ground arith

  dated_of :
      (row : Row) (n : ℕ) (at : String)
      → (values_of readers mapping row n).at ≡ some at
      → (text : String) × (has_explicit_timezone text ≡ true) × (readers.iso_date text ≡ some at)
  unfolding values_of
  dated_of row n at h = elim (Bool-cases (is_empty (mapping Field.at))) [
    | inl e ↦ absurd (cc (rw e at h))
    | inr e ↦
        let text = cell mapping row Field.at in
        let (zone, date) = valid_date-timezone text at (ground (arith, e, h)) in (text, zone, date)
  ]

  accepted_row-IsSound :
      (missing : List Field) (duplicate : Bool) (row : Row) (n : ℕ)
      → Passes missing duplicate (values_of readers mapping row n)
      → IsSound readers (accepted_row mapping row n (values_of readers mapping row n))
  accepted_row-IsSound missing duplicate row n p =
      let v = values_of readers mapping row n in
      let amount = amount_of v.amount p.amount in
      record {
        named = p.id;
        from_entity = p.origin;
        to_entity = p.destination;
        in_currency = p.currency;
        directed = p.direction;
        typed = p.type;
        not_negative = ap is_negative (sym amount) ∙ p.sign;
        context = λ z. p.context (ap is_zero amount ∙ ap (λ a. is_zero (some a)) z);
        moves = λ e. zero_of (get_or v.amount (pos 0)) (ap is_zero (sym amount) ∙ p.apart e);
        dated = dated_of row n (get_or v.at "") (given v.at p.at);
      }

  module _ (missing : List Field) where
    -- The state of the loop: sound accepted rows, no two with the same id.
    record Keeps (s : Sorted) : Type 0 where
      sound : All (IsSound readers) s.accepted_rows
      distinct : Distinct (map (λ a. a.id) s.accepted_rows)

    any-has :
        (rows : List AcceptedRow) (id : String)
        → any (λ a. a.id == id) rows ≡ has (map (λ a. a.id) rows) id
    any-has [] id = refl
    any-has (a ∷ rows) id = ap (λ b. a.id == id || b) (any-has rows id)

    sort_row-Keeps :
        (n : ℕ) (row : Row) (s : Sorted)
        → Keeps s
        → Keeps (sort_row readers mapping missing n row s)
    unfolding sort_row
    sort_row-Keeps n row s k =
        let v = values_of readers mapping row n in
        let taken = is_taken s v.id in
        let reasons = reasons_of missing taken v in
        elim (Bool-cases (eqb (length reasons) 0)) [
          | inr e ↦ rw e (record { sound = k.sound; distinct = k.distinct })
          | inl e ↦
              let p = reasons_of-Passes missing taken v ((eqb_iff (length reasons) 0).0 e) in
              let a = accepted_row mapping row n v in
              let fresh : has (map (λ a. a.id) s.accepted_rows) v.id ≡ false =
                sym (any-has s.accepted_rows v.id) ∙ ground (arith, p.fresh) in
              rw e (record {
                sound =
                    All-snoc (IsSound readers) s.accepted_rows a k.sound
                      (accepted_row-IsSound missing taken row n p);
                distinct =
                    rw map-append
                      (Distinct-snoc (map (λ a. a.id) s.accepted_rows) v.id k.distinct fresh);
              })
        ]

    sort_rows-Keeps :
        (n : ℕ) (rows : List Row) (s : Sorted)
        → Keeps s
        → Keeps (sort_rows readers mapping missing n rows s)
    unfolding sort_rows
    sort_rows-Keeps n [] s k = k
    sort_rows-Keeps n (row ∷ rows) s k =
        sort_rows-Keeps (suc n) rows (sort_row readers mapping missing n row s)
          (sort_row-Keeps n row s k)

preview_parsed-IsSound :
    (readers : Readers) (options : Options) (parsed : Parsed)
    → let preview = preview_parsed readers options parsed in
      All (IsSound readers) preview.accepted_rows × Distinct (map (λ a. a.id) preview.accepted_rows)
unfolding preview_parsed
preview_parsed-IsSound readers options parsed =
    let mapping = normalize_column_mapping parsed.headers options.mapping in
    elim (Option-cases parsed.parse_error) [
      | inr (message, e) ↦ rw e (tt, tt)
      | inl e ↦
          let k =
            sort_rows-Keeps readers mapping (missing_of mapping) 2 parsed.rows
              (record { accepted_rows = []; rejected_rows = [] })
              (record { sound = tt; distinct = tt }) in
          rw e (k.sound, k.distinct)
    ]

-- Whatever text is imported under whatever options, each accepted row has valid ids, a supported currency and
-- direction, a type, a date with an explicit time zone and an amount that is not negative; a zero amount is in
-- the currency "N/A", and only a row of a zero amount has the same origin and destination. No two accepted
-- rows have the same id.
pub preview_transaction_import-IsSound :
    (read_json : String → JsonResult) (readers : Readers) (text : String) (options : Options)
    → let preview = preview_transaction_import read_json readers text options in
      All (IsSound readers) preview.accepted_rows × Distinct (map (λ a. a.id) preview.accepted_rows)
unfolding preview_transaction_import
preview_transaction_import-IsSound read_json readers text options =
    preview_parsed-IsSound readers options (parse_transaction_input read_json text options.format)
