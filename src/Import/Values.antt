-- ===== src/Import/Values.antt =====
-- packages/guided-workflow/transaction-import.mjs: how the cells of a row are read: `parseAmount`,
-- `hasExplicitTimezone`, `validDate`, `normalizeKind`, `normalizeDirection`, `parseBoolean` and `validEntityId`.
-- `Number` and `new Date(…).toISOString()` are parameters, which give none for what is no finite number and no date.
use Prim.Native.Char.{Char, code}
use network_analytics_predic.Import.Csv.{cons}
use network_analytics_predic.Prelude.{
  ◌||◌, ◌&&◌, leb, eqb, trim, lower, or_else, includes, has, prefix_of, is_empty, if◌then◌else◌,
  not, Bool, true, false, String, List, [], ◌∷◌, Option, none, some, ℕ, suc, zero, ◌≡◌, refl, ℤ,
}

pub record Readers : Type 0 where
  pub number : String → Option ℤ
  pub iso_date : String → Option String

-- `replaceAll(",", "")`
without_commas : String → String
without_commas String.[] = ""
without_commas (String.◌∷◌ c s) =
    let rest = without_commas s in if eqb (code c) 44 then rest else cons c rest

unfoldable pub parse_amount : Readers → String → Option ℤ
unfolding without_commas
parse_amount readers value = readers.number (without_commas value)

abbrev pub is_digit : Char → Bool
is_digit c = leb 48 (code c) && leb (code c) 57

abbrev is_sign : Char → Bool
is_sign c = eqb (code c) 43 || eqb (code c) 45

-- Two digits, and no more.
abbrev two_digits : String → Bool
two_digits (String.◌∷◌ a (String.◌∷◌ b String.[])) = is_digit a && is_digit b
two_digits other = false

-- `:?\d{2}`
abbrev minutes : String → Bool
minutes (String.◌∷◌ c s) = eqb (code c) 58 && two_digits s || two_digits (cons c s)
minutes String.[] = false

-- Whether all of a text is `z|[+-]\d{2}:?\d{2}`, in either case.
abbrev pub is_zone : String → Bool
is_zone (String.◌∷◌ c String.[]) = eqb (code c) 90 || eqb (code c) 122
is_zone (String.◌∷◌ c (String.◌∷◌ a (String.◌∷◌ b s))) =
    is_sign c && is_digit a && is_digit b && minutes s
is_zone other = false

-- The first match of `/(?:z|[+-]\d{2}:?\d{2})$/i`
unfoldable pub zone_of : String → Option String
zone_of String.[] = none
zone_of (String.◌∷◌ c s) =
    let later = zone_of s in if is_zone (cons c s) then some (cons c s) else later

abbrev pub is_given {ℓ} : {A : Type ℓ} → Option A → Bool
is_given none = false
is_given (some _) = true

unfoldable pub has_explicit_timezone : String → Bool
unfolding zone_of
has_explicit_timezone value = is_given (zone_of (trim value))

unfoldable pub valid_date : Readers → String → Option String
unfolding has_explicit_timezone
valid_date readers value = if has_explicit_timezone value then readers.iso_date value else none

abbrev kinds : List String
kinds = "person" ∷ "account" ∷ "device" ∷ "ip" ∷ "place" ∷ "organization" ∷ []

unfoldable pub normalize_kind : String → String → String
normalize_kind value fallback =
    let clean = lower (trim (or_else value fallback)) in
    if has kinds clean
    then clean
    else if includes clean "device"
    then "device"
    else if includes clean "ip"
    then "place"
    else if includes clean "person" || prefix_of "p-" clean || prefix_of "victim" clean
    then "person"
    else "account"

unfoldable pub normalize_direction : String → String
normalize_direction value =
    let clean = lower (trim value) in
    if is_empty clean
    then ""
    else if has ("cr" ∷ "credit" ∷ []) clean
    then "credit"
    else if has ("dr" ∷ "debit" ∷ []) clean
    then "debit"
    else if has ("in" ∷ "incoming" ∷ "inbound" ∷ []) clean
    then "inbound"
    else if has ("out" ∷ "outgoing" ∷ "outbound" ∷ []) clean
    then "outbound"
    else clean

unfoldable pub parse_boolean : String → Option Bool
parse_boolean value =
    let clean = lower (trim value) in
    if has ("true" ∷ "yes" ∷ "1" ∷ "review-priority" ∷ "positive" ∷ []) clean
    then some true
    else if has ("false" ∷ "no" ∷ "0" ∷ "background" ∷ "negative" ∷ []) clean
    then some false
    else none

abbrev is_alphanumeric : Char → Bool
is_alphanumeric c =
    is_digit c || (leb 65 (code c) && leb (code c) 90) || (leb 97 (code c) && leb (code c) 122)

-- `[A-Za-z0-9._:-]`
abbrev is_id_char : Char → Bool
is_id_char c =
    is_alphanumeric c || eqb (code c) 46 || eqb (code c) 95 || eqb (code c) 58 || eqb (code c) 45

-- At most `room` characters, all of them of an id.
abbrev pub id_chars : ℕ → String → Bool
id_chars room String.[] = true
id_chars zero (String.◌∷◌ c s) = false
id_chars (suc room) (String.◌∷◌ c s) = is_id_char c && id_chars room s

-- `/^[A-Za-z0-9][A-Za-z0-9._:-]{1,63}$/`
abbrev pub is_entity_id : String → Bool
is_entity_id String.[] = false
is_entity_id (String.◌∷◌ c s) = is_alphanumeric c && not (is_empty s) && id_chars 63 s

unfoldable pub valid_entity_id : String → Bool
valid_entity_id value = is_entity_id (trim value)

zone_test : zone_of "2026-05-03T09:05:00-05:00" ≡ some "-05:00"
unfolding zone_of
zone_test = refl
