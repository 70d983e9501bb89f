-- ===== src/Harbor/State.antt =====
-- packages/guided-workflow/harbor-lantern.mjs: `createInitialState`, `updateSetting`, `resetAnalysis`
-- and `visibleRelationships`.
use network_analytics_predic.Graph.{Relationship, Settings}
use network_analytics_predic.Prelude.{
  has, filter, ◌&&◌, ◌==◌, ◌||◌, String, eqb, false, not, true, ◌+◌, Bool, List, if◌then◌else◌, ℕ,
  ◌∷◌, [],
}

pub record Journey : Type 0 where
  pub evidence_inspected : Bool
  pub reasoning_inspected : Bool
  pub alternative_reviewed : Bool
  pub recommendation_acknowledged : Bool

pub record Analysis : Type 0 where
  pub step_index : ℕ
  pub selected_id : String
  pub settings : Settings
  pub analysis_version : ℕ
  pub finding_ready : Bool
  pub preflight_run : Bool
  pub journey : Journey

abbrev pub create_initial_state : Settings → Analysis
create_initial_state defaults = record {
  step_index = 0;
  selected_id = "r1";
  settings = defaults;
  analysis_version = 1;
  finding_ready = false;
  preflight_run = false;
  journey = record {
    evidence_inspected = false;
    reasoning_inspected = false;
    alternative_reviewed = false;
    recommendation_acknowledged = false;
  };
}

-- A key of the settings with a new value.
pub data Change : Type 0 where
  alias_included : Bool → Change
  window_days : ℕ → Change
  relation_filter : String → Change
  comparison_mode : String → Change
  split_count : ℕ → Change
  split_boundary_percent : ℕ → Change
  split_strategy : String → Change
  label_density : String → Change
  spacing : ℕ → Change
  high_contrast : Bool → Change
  show_communities : Bool → Change

abbrev pub same_flag : Bool → Bool → Bool
same_flag true b = b
same_flag false b = not b

-- `String(state.settings[key]) === String(value)`
unfoldable pub is_set_to : Settings → Change → Bool
is_set_to s (alias_included b) = same_flag s.alias_included b
is_set_to s (window_days n) = eqb s.window_days n
is_set_to s (relation_filter v) = s.relation_filter == v
is_set_to s (comparison_mode v) = s.comparison_mode == v
is_set_to s (split_count n) = eqb s.split_count n
is_set_to s (split_boundary_percent n) = eqb s.split_boundary_percent n
is_set_to s (split_strategy v) = s.split_strategy == v
is_set_to s (label_density v) = s.label_density == v
is_set_to s (spacing n) = eqb s.spacing n
is_set_to s (high_contrast b) = same_flag s.high_contrast b
is_set_to s (show_communities b) = same_flag s.show_communities b

-- `{ ...settings, [key]: value }`
unfoldable pub with_change : Settings → Change → Settings
with_change s (alias_included b) = record s { alias_included = b }
with_change s (window_days n) = record s { window_days = n }
with_change s (relation_filter v) = record s { relation_filter = v }
with_change s (comparison_mode v) = record s { comparison_mode = v }
with_change s (split_count n) = record s { split_count = n }
with_change s (split_boundary_percent n) = record s { split_boundary_percent = n }
with_change s (split_strategy v) = record s { split_strategy = v }
with_change s (label_density v) = record s { label_density = v }
with_change s (spacing n) = record s { spacing = n }
with_change s (high_contrast b) = record s { high_contrast = b }
with_change s (show_communities b) = record s { show_communities = b }

unfoldable pub is_analytical_setting : Change → Bool
is_analytical_setting (alias_included _) = true
is_analytical_setting (window_days _) = true
is_analytical_setting (relation_filter _) = true
is_analytical_setting _ = false

unfoldable pub update_setting : Analysis → Change → Analysis
update_setting state change = if is_set_to state.settings change then state else record state {
  settings = with_change state.settings change;
  analysis_version = state.analysis_version + (if is_analytical_setting change then 1 else 0);
  preflight_run = false;
}

-- The three settings that `resetAnalysis` compares.
unfoldable pub differs_from : Settings → Settings → Bool
differs_from defaults s =
    not (same_flag s.alias_included defaults.alias_included)
    || not (eqb s.window_days defaults.window_days)
    || not (s.relation_filter == defaults.relation_filter)

unfoldable pub reset_analysis : Settings → Analysis → Analysis
reset_analysis defaults state = record state {
  settings = record state.settings {
    alias_included = defaults.alias_included;
    window_days = defaults.window_days;
    relation_filter = defaults.relation_filter;
    comparison_mode = defaults.comparison_mode;
    split_count = defaults.split_count;
    split_boundary_percent = defaults.split_boundary_percent;
    split_strategy = defaults.split_strategy;
  };
  analysis_version =
      state.analysis_version + (if differs_from defaults state.settings then 1 else 0);
  preflight_run = false;
}

-- The relationships that rest on the disputed alias.
abbrev pub alias_relationships : List String
alias_relationships = "r1" ∷ "r5" ∷ "r6" ∷ []

abbrev pub is_visible : Settings → Relationship → Bool
is_visible s r =
    if not s.alias_included && has alias_relationships r.id
    then false
    else if not (s.relation_filter == "all") && not (r.relation == s.relation_filter)
    then false
    else true

unfoldable pub visible_relationships : List Relationship → Settings → List Relationship
visible_relationships relationships s = filter (is_visible s) relationships
