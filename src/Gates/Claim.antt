-- ===== src/Gates/Claim.antt =====
-- packages/predictive/model-gates.mjs: `validateBenchmarkClaimGate`. A property that a run does not have is
-- none. A pattern matches where one of its alternatives is part of the text, in lower case.
use network_analytics_predic.Prelude.{
  ◌||◌, ◌⊎◌, ◌≢◌, length-when, when, length-map, inr, length-append, arith, eqb, ◌+◌, inl, map,
  Bool-cases, ap, ◌++◌, All, is_empty, lower, if◌then◌else◌, includes, ◌&&◌, ◌↔◌, any, false,
  get_or, length, true, ◌⧺◌, Bool, List, Option, String, filter, ◌≡◌, ◌∷◌, [], none, some, refl,
}

pub record Run : Type 0 where
  pub algorithm : Option String
  pub model_family : Option String
  pub summary : Option String
  pub claim : Option String
  pub limitations : List String
  pub benchmark_derived : Option Bool
  pub source_note : Option String
  pub calibrated : Option Bool
  pub production_predictions_enabled : Option Bool

-- A pattern of the gate: its source and its alternatives.
pub record Pattern : Type 0 where
  pub source : String
  pub alternatives : List String

abbrev pub blocked_patterns : List Pattern
blocked_patterns =
    record { source = "state of the art|sota"; alternatives = "state of the art" ∷ "sota" ∷ [] }
    ∷ record { source = "pretrained"; alternatives = "pretrained" ∷ [] }
    ∷ record {
      source = "production prediction|production model";
      alternatives = "production prediction" ∷ "production model" ∷ [];
    }
    ∷ record { source = "calibrated"; alternatives = "calibrated" ∷ [] }
    ∷ record { source = "profitability"; alternatives = "profitability" ∷ [] }
    ∷ []

unfoldable pub matches : String → Pattern → Bool
matches words p = any (λ part. includes (lower words) part) p.alternatives

-- `[…].join(" ")`
abbrev pub spaced : List String → String
spaced [] = ""
spaced (x ∷ []) = x
spaced (x ∷ y ∷ rest) = x ⧺ " " ⧺ spaced (y ∷ rest)

abbrev pub text_of : Run → String
text_of run = spaced (
    get_or run.algorithm ""
    ∷ get_or run.model_family ""
    ∷ get_or run.summary ""
    ∷ get_or run.claim ""
    ∷ run.limitations)

-- `value === true` and `value !== false`
abbrev pub is_true : Option Bool → Bool
is_true none = false
is_true (some b) = b

abbrev pub is_not_false : Option Bool → Bool
is_not_false none = true
is_not_false (some b) = b

pub record ClaimGate : Type 0 where
  pub passed : Bool
  pub failures : List String

unfoldable pub validate_benchmark_claim_gate : Run → ClaimGate
validate_benchmark_claim_gate run =
    let blocked = filter (matches (text_of run)) blocked_patterns in
    let failures =
      when (is_true run.benchmark_derived && is_empty (get_or run.source_note ""))
        "benchmark-derived run requires source note"
      ++ when (is_not_false run.calibrated) "benchmark/local run must declare calibrated: false"
      ++ when (is_not_false run.production_predictions_enabled)
          "production predictions must remain disabled"
      ++ map (λ p. "blocked claim: " ⧺ p.source) blocked in
    record { passed = eqb (length failures) 0; failures = failures }

none_matches :
    (words : String) (ps : List Pattern)
    → (length (filter (matches words) ps) ≡ 0) ↔ All (λ p. matches words p ≡ false) ps
none_matches words [] = (λ h. tt, λ h. refl)
none_matches words (p ∷ ps) =
    let rest = none_matches words ps in
    elim (Bool-cases (matches words p)) [
      | inl e ↦ rw e (λ h. absurd (omega arith), λ h. cc h.0)
      | inr e ↦ rw e (λ h. (refl, rest.0 h), λ h. rest.1 h.1)
    ]

-- The words that a benchmark may not claim.
abbrev pub Silent : String → Type 0
Silent words =
    All (λ word. includes words word ≡ false)
      ("state of the art" ∷ "sota" ∷ "pretrained" ∷ "production prediction" ∷ "production model"
        ∷ "calibrated" ∷ "profitability" ∷ [])

any_one : (a : Bool) → ((a || false) ≡ false) ↔ (a ≡ false)
any_one true = (λ h. cc h, λ h. cc h)
any_one false = (λ h. refl, λ h. refl)

any_two : (a b : Bool) → ((a || (b || false)) ≡ false) ↔ ((a ≡ false) × (b ≡ false))
any_two true b = (λ h. cc h, λ h. cc h.0)
any_two false true = (λ h. cc h, λ h. cc h.1)
any_two false false = (λ h. (refl, refl), λ h. refl)

patterns-Silent :
    (words : String) → All (λ p. matches words p ≡ false) blocked_patterns ↔ Silent (lower words)
unfolding matches
patterns-Silent words =
    let part = includes (lower words) in
    let art = any_two (part "state of the art") (part "sota") in
    let trained = any_one (part "pretrained") in
    let production = any_two (part "production prediction") (part "production model") in
    let calibrated = any_one (part "calibrated") in
    let profit = any_one (part "profitability") in
    (
      λ h.
          let a = art.0 h.0 in
          let p = production.0 h.1.1.0 in
          (
            a.0,
            (
              a.1,
              (trained.0 h.1.0, (p.0, (p.1, (calibrated.0 h.1.1.1.0, (profit.0 h.1.1.1.1.0, tt))))),
            ),
          ),
      λ h.
          let rest = h.1.1.1 in
          (
            art.1 (h.0, h.1.0),
            (
              trained.1 h.1.1.0,
              (
                production.1 (rest.0, rest.1.0),
                (calibrated.1 rest.1.1.0, (profit.1 rest.1.1.1.0, tt)),
              ),
            ),
          ),
    )

-- A run is not derived from a benchmark, or it has a source note that is not empty.
abbrev pub HasSource : Run → Type 0
HasSource run =
    (run.benchmark_derived ≢ some true)
    ⊎ ((note : String) × (run.source_note ≡ some note) × (is_empty note ≡ false))

HasSource-is :
    (run : Run)
    → ((is_true run.benchmark_derived && is_empty (get_or run.source_note "")) ≡ false)
      ↔ HasSource run
HasSource-is run = sourced run.benchmark_derived run.source_note
  where
    sourced :
        (derived : Option Bool) (note : Option String)
        → ((is_true derived && is_empty (get_or note "")) ≡ false) ↔ (
            (derived ≢ some true)
            ⊎ ((text : String) × (note ≡ some text) × (is_empty text ≡ false)))
    sourced none source = (λ h. inl (λ e. cc e), λ h. refl)
    sourced (some false) source = (λ h. inl (λ e. cc e), λ h. refl)
    sourced (some true) none = (λ h. cc h, λ h. elim h [ inl n ↦ absurd (n refl) | inr e ↦ cc e.1 ])
    sourced (some true) (some text) = (
      λ h. inr (text, refl, h),
      λ h. elim h [ inl n ↦ absurd (n refl) | inr (same, e, k) ↦ cc (e, k) ],
    )

-- A run passes the gate exactly when it has a source note that is not empty if it is derived from a benchmark, says that
-- it is not calibrated and that production predictions are off, and none of "state of the art", "sota", "pretrained",
-- "production prediction", "production model", "calibrated" and "profitability" is part of its texts in lower case.
pub validate_benchmark_claim_gate-passed :
    (run : Run)
    → ((validate_benchmark_claim_gate run).passed ≡ true) ↔ (
        HasSource run
        × (run.calibrated ≡ some false)
        × (run.production_predictions_enabled ≡ some false)
        × Silent (lower (text_of run)))
unfolding validate_benchmark_claim_gate
validate_benchmark_claim_gate-passed run =
    let words = text_of run in
    let a = is_true run.benchmark_derived && is_empty (get_or run.source_note "") in
    let blocked = filter (matches words) blocked_patterns in
    let failures =
      when a "benchmark-derived run requires source note"
      ++ when (is_not_false run.calibrated) "benchmark/local run must declare calibrated: false"
      ++ when (is_not_false run.production_predictions_enabled)
          "production predictions must remain disabled"
      ++ map (λ p. "blocked claim: " ⧺ p.source) blocked in
    let sum : length failures
        ≡ (if a then 1 else 0)
          + (if is_not_false run.calibrated then 1 else 0)
          + (if is_not_false run.production_predictions_enabled then 1 else 0)
          + length blocked =
      simp (length-append, length-map, length-when) (omega arith) in
    let clean = none_matches words blocked_patterns in
    let silent = patterns-Silent words in
    let sourced = HasSource-is run in
    (
      λ h.
          let none_left : length failures ≡ 0 = ground arith in
          (
            sourced.0 (ground (arith, sum, none_left)),
            said_false run.calibrated (ground (arith, sum, none_left)),
            said_false run.production_predictions_enabled (ground (arith, sum, none_left)),
            silent.0 (clean.0 (omega (arith, sum, none_left))),
          ),
      λ h.
          let none_blocked = clean.1 (silent.1 h.3) in
          let note_given = sourced.1 h.0 in
          let said : is_not_false run.calibrated ≡ false = rw h.1 refl in
          let off : is_not_false run.production_predictions_enabled ≡ false = rw h.2 refl in
          let none_left : length failures ≡ 0 =
            ground (arith, sum, said, off, none_blocked, note_given) in
          ground (arith, none_left),
    )
  where
    said_false : (b : Option Bool) → is_not_false b ≡ false → b ≡ some false
    said_false none h = cc h
    said_false (some b) h = ap some h
