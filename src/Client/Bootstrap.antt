-- ===== src/Client/Bootstrap.antt =====
-- packages/api-client/workbench-client.mjs: `validateWorkbenchBootstrap` and `staticWorkbenchBootstrap`. Of the
-- payload's parts the code only asks whether they are there; a part that is missing, null or undefined is none.
use network_analytics_predic.Prelude.{
  Option-cases, refl, eq_iff, inl, inr, Bool-cases, ap, All, ◌↔◌, ◌⊎◌, ◌≡◌, ◌==◌, ◌||◌, false, not,
  true, ℕ, ◌⧺◌, Bool, List, Option, String, if◌then◌else◌, ◌∷◌, [], none, some,
}

-- A part of the payload, any JSON value but null, as its text.
abbrev pub Part : Type 0
Part = Option String

pub record Bootstrap : Type 0 where
  pub contract : Part
  pub fixture_schema : Part
  pub fixture_version : Part
  pub case_part : Part
  pub guided_steps : Part
  pub nodes : Part
  pub relationships : Part
  pub defaults : Part
  pub prioritization : Part
  pub transport : Part

-- An exception with the fields of `WorkbenchBootstrapError`; another error has only its message.
pub data Failure : Type 0 where
  plain : String → Failure
  bootstrap_error : String → String → Option ℕ → String → Failure

pub data Result {ℓ} (A : Type ℓ) : Type ℓ where
  returned : A → Result A
  thrown : Failure → Result A

abbrev pub is_text : Part → String → Bool
is_text none value = false
is_text (some s) value = s == value

abbrev pub is_absent : Part → Bool
is_absent none = true
is_absent (some _) = false

-- The parts that the loop of `validateWorkbenchBootstrap` asks for, by their names.
abbrev pub required_parts : Bootstrap → List (String × Part)
required_parts b =
    ("case", b.case_part)
    ∷ ("guided_steps", b.guided_steps)
    ∷ ("nodes", b.nodes)
    ∷ ("relationships", b.relationships)
    ∷ ("defaults", b.defaults)
    ∷ ("prioritization", b.prioritization)
    ∷ []

unfoldable pub first_missing : List (String × Part) → Option String
first_missing [] = none
first_missing ((name, part) ∷ parts) =
    let later = first_missing parts in if is_absent part then some name else later

abbrev check_parts : Option String → Bootstrap → Result Bootstrap
check_parts none b = returned b
check_parts (some name) b = thrown (plain ("Workbench bootstrap is missing " ⧺ name))

abbrev check_payload : Bootstrap → Result Bootstrap
check_payload b =
    if not (is_text b.contract "WorkbenchBootstrapV1")
    then thrown (plain "Expected WorkbenchBootstrapV1")
    else if not (is_text b.fixture_schema "HarborLanternInterchangeV1")
        || not (is_text b.fixture_version "1.0.0")
    then thrown (plain "Workbench fixture version is unsupported")
    else check_parts (first_missing (required_parts b)) b

-- `none` is a payload that is null.
unfoldable pub validate_workbench_bootstrap : Option Bootstrap → Result Bootstrap
unfolding first_missing
validate_workbench_bootstrap none = thrown (plain "Expected WorkbenchBootstrapV1")
validate_workbench_bootstrap (some b) = check_payload b

-- The fixture's parts, which data/fixtures/harbor-lantern.v1.json supplies.
pub record StaticFixture : Type 0 where
  pub schema : String
  pub version : String
  pub case_text : String
  pub guided_steps : String
  pub nodes : String
  pub relationships : String
  pub defaults : String

abbrev pub static_workbench_bootstrap : StaticFixture → Bootstrap
static_workbench_bootstrap f = record {
  contract = some "WorkbenchBootstrapV1";
  fixture_schema = some f.schema;
  fixture_version = some f.version;
  case_part = some f.case_text;
  guided_steps = some f.guided_steps;
  nodes = some f.nodes;
  relationships = some f.relationships;
  defaults = some f.defaults;
  prioritization = some "[]";
  transport = some "static-training-fallback";
}

first_missing-none :
    (parts : List (String × Part))
    → (first_missing parts ≡ none) ↔ All (λ p. is_absent p.1 ≡ false) parts
unfolding first_missing
first_missing-none [] = (λ h. tt, λ h. refl)
first_missing-none ((name, part) ∷ parts) =
    let later = first_missing-none parts in
    elim (Bool-cases (is_absent part)) [
      | inl e ↦ rw e (λ h. cc h, λ h. cc h.0)
      | inr e ↦ rw e (λ h. (refl, later.0 h), λ h. later.1 h.1)
    ]

is_text-some : (part : Part) (value : String) → (is_text part value ≡ true) ↔ (part ≡ some value)
is_text-some none value = (λ h. cc h, λ h. cc h)
is_text-some (some s) value = (λ h. ap some ((eq_iff s value).0 h), λ h. (eq_iff s value).1 (cc h))

-- The supported contract, schema and version, and no part missing.
pub record Supported (b : Bootstrap) : Type 0 where
  pub contract : b.contract ≡ some "WorkbenchBootstrapV1"
  pub fixture_schema : b.fixture_schema ≡ some "HarborLanternInterchangeV1"
  pub fixture_version : b.fixture_version ≡ some "1.0.0"
  pub parts : All (λ p. is_absent p.1 ≡ false) (required_parts b)

-- A payload is either supported and returned as it is, or an error is thrown and it is not supported: the
-- contract, the schema or the version is another one, or one of the six parts is missing.
pub validate_workbench_bootstrap-cases :
    (b : Bootstrap)
    → ((validate_workbench_bootstrap (some b) ≡ returned b) × Supported b)
      ⊎ ((e : Failure) × (validate_workbench_bootstrap (some b) ≡ thrown e) × ¬ Supported b)
unfolding validate_workbench_bootstrap
validate_workbench_bootstrap-cases b =
    let contract = is_text-some b.contract "WorkbenchBootstrapV1" in
    let schema = is_text-some b.fixture_schema "HarborLanternInterchangeV1" in
    let version = is_text-some b.fixture_version "1.0.0" in
    elim (Bool-cases (is_text b.contract "WorkbenchBootstrapV1")) [
      | inr c ↦
          inr (plain "Expected WorkbenchBootstrapV1", rw c refl, λ s. cc (contract.1 s.contract, c))
      | inl c ↦ elim (Bool-cases (is_text b.fixture_schema "HarborLanternInterchangeV1")) [
        | inr s ↦ inr (
          plain "Workbench fixture version is unsupported",
          rw (c, s) refl,
          λ h. cc (schema.1 h.fixture_schema, s),
        )
        | inl s ↦ elim (Bool-cases (is_text b.fixture_version "1.0.0")) [
          | inr v ↦ inr (
            plain "Workbench fixture version is unsupported",
            rw (c, s, v) refl,
            λ h. cc (version.1 h.fixture_version, v),
          )
          | inl v ↦ elim (Option-cases (first_missing (required_parts b))) [
            | inl none_missing ↦ inl (
              rw (c, s, v, none_missing) refl,
              record {
                contract = contract.0 c;
                fixture_schema = schema.0 s;
                fixture_version = version.0 v;
                parts = (first_missing-none (required_parts b)).0 none_missing;
              },
            )
            | inr (name, missing) ↦ inr (
              plain ("Workbench bootstrap is missing " ⧺ name),
              rw (c, s, v, missing) refl,
              λ h. cc ((first_missing-none (required_parts b)).1 h.parts, missing),
            )
          ]
        ]
      ]
    ]
