-- ===== src/Harbor/Settings.antt =====
-- packages/guided-workflow/harbor-lantern.mjs: what a change of a setting and a reset do to the analysis
-- version and to the preflight, and which relationships the settings show.
use mathlib.Core.List.{Memᴰ}
use network_analytics_predic.Graph.{Settings, Relationship}
use network_analytics_predic.Harbor.State.{
  visible_relationships, is_visible, alias_relationships, differs_from, reset_analysis,
  alias_included, window_days, relation_filter, comparison_mode, split_count,
  split_boundary_percent, split_strategy, label_density, spacing, high_contrast, show_communities,
}
use network_analytics_predic.Harbor.State.{
  is_analytical_setting, Change, Analysis, same_flag, with_change, is_set_to, update_setting,
}
use network_analytics_predic.Prelude.{
  filter-Mem_iff, ◌==◌, has, ◌||◌, ◌↔◌, ap, List, inr, inl, Bool-cases, refl, false, eq_refl, ◌&&◌,
  not, if◌then◌else◌, arith, ◌+◌, true, ◌≡◌, eqb, Bool, ℕ,
}

same_flag_self : (b : Bool) → same_flag b b ≡ true
same_flag_self true = refl
same_flag_self false = refl

eqb_self : (n : ℕ) → eqb n n ≡ true
eqb_self n = ground arith

-- A change that is made is in force.
with_change-is_set_to : (s : Settings) (c : Change) → is_set_to (with_change s c) c ≡ true
unfolding is_set_to with_change
with_change-is_set_to s (alias_included b) = same_flag_self b
with_change-is_set_to s (window_days n) = eqb_self n
with_change-is_set_to s (relation_filter v) = eq_refl v
with_change-is_set_to s (comparison_mode v) = eq_refl v
with_change-is_set_to s (split_count n) = eqb_self n
with_change-is_set_to s (split_boundary_percent n) = eqb_self n
with_change-is_set_to s (split_strategy v) = eq_refl v
with_change-is_set_to s (label_density v) = eq_refl v
with_change-is_set_to s (spacing n) = eqb_self n
with_change-is_set_to s (high_contrast b) = same_flag_self b
with_change-is_set_to s (show_communities b) = same_flag_self b

-- After a setting is set, it has the value, and setting it to the value again changes nothing; the analysis
-- version goes up by one if the value is new and the setting is analytical, and stays otherwise; and unless the
-- value was there before, the report has to pass its preflight again.
pub update_setting_once :
    (state : Analysis) (c : Change)
    → let after = update_setting state c in
      (is_set_to after.settings c ≡ true)
      × (update_setting after c ≡ after)
      × (after.analysis_version
          ≡ state.analysis_version
            + (if not (is_set_to state.settings c) && is_analytical_setting c then 1 else 0))
      × (is_set_to state.settings c ≡ false → after.preflight_run ≡ false)
unfolding update_setting
update_setting_once state c = elim (Bool-cases (is_set_to state.settings c)) [
  | inl e ↦ rw (e, e) (refl, refl, omega arith, λ h. cc h)
  | inr e ↦
      let set = with_change-is_set_to state.settings c in rw (e, set) (refl, refl, refl, λ _. refl)
]

-- A reset puts back the three analytical settings and the four of the comparison, leaves the presentation
-- settings alone, and raises the analysis version by one exactly when an analytical setting was different; a
-- second reset changes nothing.
pub reset_analysis_once :
    (defaults : Settings) (state : Analysis)
    → let after = reset_analysis defaults state in
      (differs_from defaults after.settings ≡ false)
      × (reset_analysis defaults after ≡ after)
      × (after.analysis_version
          ≡ state.analysis_version + (if differs_from defaults state.settings then 1 else 0))
      × (after.settings.label_density ≡ state.settings.label_density)
      × (after.settings.spacing ≡ state.settings.spacing)
      × (after.settings.high_contrast ≡ state.settings.high_contrast)
      × (after.settings.show_communities ≡ state.settings.show_communities)
unfolding reset_analysis differs_from
reset_analysis_once defaults state =
    let a = same_flag_self defaults.alias_included in
    let b = eqb_self defaults.window_days in
    let c = eq_refl defaults.relation_filter in
    (
      rw (a, b, c) refl,
      rw (a, b, c)
          (ap (λ n. record (reset_analysis defaults state) { analysis_version = n }) (omega arith)),
      refl,
      refl,
      refl,
      refl,
      refl,
    )

-- A relationship is shown exactly when it is of the fixture, does not rest on the disputed alias or the alias
-- is included, and has the relation that is asked for.
pub visible_relationships-Mem :
    (relationships : List Relationship) (s : Settings) (r : Relationship)
    → Memᴰ r (visible_relationships relationships s) ↔ (
        Memᴰ r relationships
        × ((s.alias_included || not (has alias_relationships r.id)) ≡ true)
        × ((s.relation_filter == "all" || r.relation == s.relation_filter) ≡ true))
unfolding visible_relationships
visible_relationships-Mem relationships s r = (
  λ m.
      let (listed, test) = (filter-Mem_iff (is_visible s) relationships r).0 m in
      (listed, ground arith, ground arith),
  λ h. (filter-Mem_iff (is_visible s) relationships r).1 (h.0, ground arith),
)
