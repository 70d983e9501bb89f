-- ===== src/Gates/Leakage.antt =====
-- packages/predictive/model-gates.mjs: `detectTemporalLeakage`.
use network_analytics_predic.Prelude.{
  refl, sym, length-append, subst, Bool-cases, inr, inl, Option-cases, arith, true, ltb, false, ◌≤◌,
  ◌⧺◌, eqb, is_empty, none, ◌↔◌, All, length, some, ◌++◌, ◌≡◌, get_or, if◌then◌else◌, ℕ, Bool, List,
  Option, String, ◌∷◌, [],
}

pub record Dependency : Type 0 where
  pub id : Option String
  pub event_time : Option String
  pub known_at : Option String
  pub label_known_at : Option String
  pub scaler_fit_at : Option String
  pub feature_window_end : Option String

pub record Violation : Type 0 where
  pub dependency_id : String
  pub field : String
  pub value : String
  pub reason : String

pub record LeakageReport : Type 0 where
  pub prediction_time : String
  pub leakage_safe : Bool
  pub violations : List Violation

-- A field of a dependency with its name and the reason when it lies in the future.
pub record Field : Type 0 where
  pub name : String
  pub value : Option String
  pub future_reason : String

abbrev pub fields_of : Dependency → List Field
fields_of d =
    record { name = "eventTime"; value = d.event_time; future_reason = "future event dependency" }
    ∷ record { name = "knownAt"; value = d.known_at; future_reason = "future known-at dependency" }
    ∷ record {
      name = "labelKnownAt";
      value = d.label_known_at;
      future_reason = "future label dependency";
    }
    ∷ record { name = "scalerFitAt"; value = d.scaler_fit_at; future_reason = "future scaler fit" }
    ∷ record {
      name = "featureWindowEnd";
      value = d.feature_window_end;
      future_reason = "future feature window";
    }
    ∷ []

abbrev pub violation : Dependency → Field → String → String → Violation
violation d f value reason = record {
  dependency_id = get_or d.id "unknown";
  field = f.name;
  value = value;
  reason = reason;
}

module _ (parse_time : String → Option ℕ) where
  -- A value that is there: none if it does not parse, or if it does and there is a cutoff that it passes.
  unfoldable pub check_value : Option ℕ → Dependency → Field → String → List Violation
  check_value cutoff d f value = elim (parse_time value) [
    | none ↦ violation d f value ("invalid " ⧺ f.name ⧺ " timestamp") ∷ []
    | some at ↦ elim cutoff [
      | none ↦ []
      | some limit ↦ if ltb limit at then violation d f value f.future_reason ∷ [] else []
    ]
  ]

  -- `if (!dependency[field]) continue`
  unfoldable pub check_field : Option ℕ → Dependency → Field → List Violation
  unfolding check_value
  check_field cutoff d f = elim f.value [
    | none ↦ []
    | some value ↦ if is_empty value then [] else check_value cutoff d f value
  ]

  unfoldable pub check_fields : Option ℕ → Dependency → List Field → List Violation
  unfolding check_field
  check_fields cutoff d [] = []
  check_fields cutoff d (f ∷ fields) = check_field cutoff d f ++ check_fields cutoff d fields

  unfoldable pub check_dependencies : Option ℕ → List Dependency → List Violation
  unfolding check_fields
  check_dependencies cutoff [] = []
  check_dependencies cutoff (d ∷ ds) =
      check_fields cutoff d (fields_of d) ++ check_dependencies cutoff ds

  abbrev pub check_cutoff : String → Option ℕ → List Violation
  check_cutoff prediction_time none =
      record {
        dependency_id = "prediction-time";
        field = "predictionTime";
        value = prediction_time;
        reason = "invalid prediction time";
      }
      ∷ []
  check_cutoff prediction_time (some _) = []

  unfoldable pub detect_temporal_leakage : List Dependency → String → LeakageReport
  unfolding check_dependencies
  detect_temporal_leakage dependencies prediction_time =
      let cutoff = parse_time prediction_time in
      let violations =
        check_cutoff prediction_time cutoff ++ check_dependencies cutoff dependencies in
      record {
        prediction_time = prediction_time;
        leakage_safe = eqb (length violations) 0;
        violations = violations;
      }

  -- A field is absent or empty, or a time at or before the limit.
  abbrev pub FieldSafe : ℕ → Field → Type 0
  FieldSafe limit f =
      (value : String)
      → f.value ≡ some value
      → is_empty value ≡ false
      → (at : ℕ) × (parse_time value ≡ some at) × (at ≤ limit)

  abbrev pub DependencySafe : ℕ → Dependency → Type 0
  DependencySafe limit d = All (FieldSafe limit) (fields_of d)

  check_value-safe :
      (limit : ℕ) (d : Dependency) (f : Field) (value : String)
      → (length (check_value (some limit) d f value) ≡ 0)
        ↔ ((at : ℕ) × (parse_time value ≡ some at) × (at ≤ limit))
  unfolding check_value
  check_value-safe limit d f value = elim (Option-cases (parse_time value)) [
    | inl e ↦ rw (e, check_value) (λ h. absurd (omega arith), λ h. cc h.1)
    | inr (at, e) ↦ elim (Bool-cases (ltb limit at)) [
      | inl late ↦ rw (e, check_value, late) (λ h. absurd (omega arith), λ h. late_absurd at h late)
      | inr early ↦ rw (e, check_value, early) (λ h. (at, refl, ground arith), λ h. refl)
    ]
  ]
    where
      late_absurd :
          (at : ℕ) (h : (t : ℕ) × (some at ≡ some t) × (t ≤ limit))
          → ltb limit at ≡ true
          → Path ℕ 1 0
      late_absurd at h late = let same : at ≡ h.0 = cc h.1 in absurd (ground (arith, same, h.2))

  check_field-safe :
      (limit : ℕ) (d : Dependency) (f : Field)
      → (length (check_field (some limit) d f) ≡ 0) ↔ FieldSafe limit f
  unfolding check_field
  check_field-safe limit d f = elim (Option-cases f.value) [
    | inl e ↦ rw (e, check_field) (λ h value v filled. cc v, λ h. refl)
    | inr (value, e) ↦ elim (Bool-cases (is_empty value)) [
      | inl blank ↦
          rw (e, check_field, blank) (λ h v same filled. cc (same, blank, filled), λ h. refl)
      | inr filled ↦
          let checked = check_value-safe limit d f value in
          rw (e, check_field, filled)
            (
              λ h v same _.
                  subst (λ x. (at : ℕ) × (parse_time x ≡ some at) × (at ≤ limit)) (cc same)
                    (checked.0 h),
              λ h. checked.1 (h value refl filled),
            )
    ]
  ]

  check_fields-safe :
      (limit : ℕ) (d : Dependency) (fields : List Field)
      → (length (check_fields (some limit) d fields) ≡ 0) ↔ All (FieldSafe limit) fields
  unfolding check_fields
  check_fields-safe limit d [] = (λ h. tt, λ h. refl)
  check_fields-safe limit d (f ∷ fields) =
      let here = check_field-safe limit d f in
      let rest = check_fields-safe limit d fields in
      let sum = length-append (check_field (some limit) d f) (check_fields (some limit) d fields) in
      (
        λ h. (here.0 (omega (arith, h, sum)), rest.0 (omega (arith, h, sum))),
        λ h. omega (arith, here.1 h.0, rest.1 h.1, sum),
      )

  check_dependencies-safe :
      (limit : ℕ) (ds : List Dependency)
      → (length (check_dependencies (some limit) ds) ≡ 0) ↔ All (DependencySafe limit) ds
  unfolding check_dependencies
  check_dependencies-safe limit [] = (λ h. tt, λ h. refl)
  check_dependencies-safe limit (d ∷ ds) =
      let here = check_fields-safe limit d (fields_of d) in
      let rest = check_dependencies-safe limit ds in
      let sum =
        length-append (check_fields (some limit) d (fields_of d))
          (check_dependencies (some limit) ds) in
      (
        λ h. (here.0 (omega (arith, h, sum)), rest.0 (omega (arith, h, sum))),
        λ h. omega (arith, here.1 h.0, rest.1 h.1, sum),
      )

  -- A report calls the dependencies leakage-safe exactly when the prediction time is a date and every time that a
  -- dependency gives is a date that is not after it.
  pub detect_temporal_leakage-safe :
      (dependencies : List Dependency) (prediction_time : String)
      → ((detect_temporal_leakage dependencies prediction_time).leakage_safe ≡ true) ↔ (
          (limit : ℕ) × (parse_time prediction_time ≡ some limit)
          × All (DependencySafe limit) dependencies)
  unfolding detect_temporal_leakage
  detect_temporal_leakage-safe dependencies prediction_time =
      elim (Option-cases (parse_time prediction_time)) [
        | inl e ↦ rw e (λ h. absurd (ground arith), λ h. cc h.1)
        | inr (limit, e) ↦
            let checked = check_dependencies-safe limit dependencies in
            rw e (λ h. (limit, refl, checked.0 (ground arith)), λ h. safe_at limit h.0 (cc h.1) h.2)
      ]
    where
      safe_at :
          (limit other : ℕ)
          → limit ≡ other
          → All (DependencySafe other) dependencies
          → eqb (length (check_dependencies (some limit) dependencies)) 0 ≡ true
      safe_at limit other same all_safe =
          let none_left =
            (check_dependencies-safe limit dependencies).1
              (subst (λ l. All (DependencySafe l) dependencies) (sym same) all_safe) in
          ground (arith, none_left)
