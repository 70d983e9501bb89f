-- ===== src/Phrases/Preset.antt =====
-- packages/graph-renderer/bloom-exploration.mjs: `SCENE_PRESETS`, `validateScenePreset`, `applyScenePreset` and
-- `graphRuleLegend`. A setting that a preset does not give is none.
use mathlib.Core.List.{Memᴰ}
use network_analytics_predic.Prelude.{
  refl, All, Bool-cases, eq_iff, ◌∙◌, ap, sym, subst, All_self, All-find, inr, inl, Option-cases,
  ◌&&◌, ◌⧺◌, has, ◌==◌, false, find, get_or, not, true, ◌≡◌, Bool, List, Option, String,
  if◌then◌else◌, ◌∷◌, [], none, some,
}

pub record SceneSettings : Type 0 where
  pub relation_filter : String
  pub visual_style : String
  pub label_density : String
  pub include_infrastructure : Option Bool
  pub show_communities : Option Bool

pub record Preset : Type 0 where
  pub id : String
  pub label : String
  pub allowed_use_cases : List String
  pub settings : SceneSettings
  pub rule_style : String
  pub explanation : String

abbrev pub scene_presets : List Preset
scene_presets =
    record {
      id = "financial-flow";
      label = "Financial flow";
      allowed_use_cases = "fraud" ∷ "imported-fraud" ∷ [];
      settings = record {
        relation_filter = "transfers";
        visual_style = "boardroom";
        label_density = "comfortable";
        include_infrastructure = none;
        show_communities = none;
      };
      rule_style = "evidence-class";
      explanation =
          "Focuses on financial transfers and uses restrained institution-friendly styling.";
    }
    ∷ record {
      id = "infrastructure-review";
      label = "Infrastructure review";
      allowed_use_cases = "fraud" ∷ "imported-fraud" ∷ [];
      settings = record {
        relation_filter = "all";
        visual_style = "boardroom";
        label_density = "dense";
        include_infrastructure = some true;
        show_communities = none;
      };
      rule_style = "entity-type";
      explanation =
          "Keeps device, IP, and account context visible for shared-infrastructure review.";
    }
    ∷ record {
      id = "community-uncertainty";
      label = "Community uncertainty";
      allowed_use_cases = "harbor" ∷ "fraud" ∷ "imported-fraud" ∷ [];
      settings = record {
        relation_filter = "all";
        visual_style = "classic";
        label_density = "comfortable";
        include_infrastructure = none;
        show_communities = some true;
      };
      rule_style = "community-uncertainty";
      explanation = "Highlights community membership and uncertain or derived relationships.";
    }
    ∷ record {
      id = "time-window-review";
      label = "Time window review";
      allowed_use_cases = "harbor" ∷ "fraud" ∷ "imported-fraud" ∷ [];
      settings = record {
        relation_filter = "all";
        visual_style = "boardroom";
        label_density = "minimal";
        include_infrastructure = none;
        show_communities = none;
      };
      rule_style = "time-window";
      explanation = "Uses a compact scene to inspect event order and known-at cutoffs.";
    }
    ∷ []

pub record Context : Type 0 where
  pub use_case : Option String
  pub can_see_infrastructure : Option Bool

pub data Validation : Type 0 where
  invalid : String → Validation
  valid : Preset → Validation

-- `value === false`
abbrev pub is_denied : Option Bool → Bool
is_denied none = false
is_denied (some b) = not b

abbrev pub needs_infrastructure : Preset → Bool
needs_infrastructure p = get_or p.settings.include_infrastructure false

unfoldable pub check_preset : Preset → Context → Validation
check_preset p context =
    if not (has p.allowed_use_cases (get_or context.use_case "harbor"))
    then invalid (p.label ⧺ " is not available for the current authorized workflow.")
    else if needs_infrastructure p && is_denied context.can_see_infrastructure
    then invalid
        "Infrastructure preset is unavailable because infrastructure nodes are not visible in this projection."
    else valid p

unfoldable pub validate_scene_preset : String → Context → Validation
unfolding check_preset
validate_scene_preset preset_id context = elim (find (λ p. p.id == preset_id) scene_presets) [
  | none ↦ invalid "Unknown scene preset."
  | some p ↦ check_preset p context
]

pub data Applied : Type 0 where
  refused : String → Applied
  applied : Preset → SceneSettings → String → String → Applied

unfoldable pub apply_scene_preset : String → Context → Applied
unfolding validate_scene_preset
apply_scene_preset preset_id context = elim (validate_scene_preset preset_id context) [
  | invalid reason ↦ refused reason
  | valid p ↦ applied p p.settings p.rule_style p.explanation
]

-- A preset is valid in a context only if it is one of the presets, bears the id that was asked for, is allowed for
-- the workflow (Harbor Lantern when none is named), and needs no infrastructure where that must not be seen.
pub validate_scene_preset-valid :
    (preset_id : String) (context : Context) (p : Preset)
    → validate_scene_preset preset_id context ≡ valid p
    → Memᴰ p scene_presets
      × (p.id ≡ preset_id)
      × (has p.allowed_use_cases (get_or context.use_case "harbor") ≡ true)
      × ((needs_infrastructure p && is_denied context.can_see_infrastructure) ≡ false)
unfolding validate_scene_preset check_preset
validate_scene_preset-valid preset_id context p h =
    elim (Option-cases (find (λ p. p.id == preset_id) scene_presets)) [
      | inl e ↦ absurd (refused-valid _ p (rw (e, validate_scene_preset) at h))
      | inr (q, e) ↦
          let listed =
            All-find (λ x. Memᴰ x scene_presets) (λ p. p.id == preset_id) scene_presets
              (All_self scene_presets) e in
          let checked = check_preset-valid q context p (rw (e, validate_scene_preset) at h) in
          (
            subst (λ x. Memᴰ x scene_presets) checked.0 listed.0,
            sym (ap (λ x. x.id) checked.0) ∙ (eq_iff q.id preset_id).0 listed.1,
            checked.1,
            checked.2,
          )
    ]
  where
    refused-valid : (reason : String) (p : Preset) → invalid reason ≡ valid p → ⊥
    refused-valid reason p e = cc e

    of_valid : (q p : Preset) → valid q ≡ valid p → q ≡ p
    of_valid q p e = cc e

    check_preset-valid :
        (q : Preset) (context : Context) (p : Preset)
        → check_preset q context ≡ valid p
        → (q ≡ p)
          × (has p.allowed_use_cases (get_or context.use_case "harbor") ≡ true)
          × ((needs_infrastructure p && is_denied context.can_see_infrastructure) ≡ false)
    check_preset-valid q context p h =
        elim (Bool-cases (has q.allowed_use_cases (get_or context.use_case "harbor"))) [
          | inr unfit ↦ absurd (refused-valid _ p (rw (check_preset, unfit) at h))
          | inl fits ↦
              elim (Bool-cases
                (needs_infrastructure q && is_denied context.can_see_infrastructure)) [
                  | inl hidden ↦ absurd (refused-valid _ p (rw (check_preset, fits, hidden) at h))
                  | inr shown ↦
                      let same : q ≡ p = of_valid q p (rw (check_preset, fits, shown) at h) in
                      (
                        same,
                        subst
                            (λ x. has x.allowed_use_cases (get_or context.use_case "harbor") ≡ true)
                            same fits,
                        subst
                            (λ x.
                              (needs_infrastructure x && is_denied context.can_see_infrastructure)
                              ≡ false)
                            same shown,
                      )
                ]
        ]

-- `graphRuleLegend`
unfoldable pub graph_rule_legend : String → List String
graph_rule_legend rule_style =
    if rule_style == "evidence-class"
    then "Financial transaction edges remain ledger-backed."
      ∷ "Derived result edges are visually secondary and require review." ∷ []
    else if rule_style == "entity-type"
    then "Accounts, devices, places, people, and organizations keep distinct node shapes."
      ∷ "Infrastructure context is visible only when authorized." ∷ []
    else if rule_style == "community-uncertainty"
    then "Community outlines remain hypotheses."
      ∷ "Uncertain or derived relationships are emphasized for review." ∷ []
    else if rule_style == "time-window"
    then "Scene uses event time and known-at cutoffs."
      ∷ "Missing observations are not treated as negative evidence." ∷ []
    else "Default graph styling is active." ∷ []

-- Every preset's rule style has a legend of its own.
presets-legend :
    All
      (λ p. (has (graph_rule_legend p.rule_style) "Default graph styling is active.") ≡ false)
      scene_presets
unfolding graph_rule_legend
presets-legend = (refl, (refl, (refl, (refl, tt))))
