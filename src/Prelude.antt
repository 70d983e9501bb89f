-- ===== src/Prelude.antt =====
-- The names that the other modules share: the libraries', passed on, and those of its children.
mod Tests
mod Lists
mod Text
mod Decimal
mod IdSet
mod Int
mod Filters
mod Checks
mod Includes
pub use Tests.*
pub use Lists.*
unfoldable pub use Text.{trim, lower, upper, includes, hyphenate, is_space, prefix_of, replace_part}
pub use Text.{◌⧺◌, is_empty, or_else, trim-trim, without_front}
unfoldable pub use Decimal.{show}
pub use Decimal.{show_inj}
unfoldable pub use IdSet.{set_add, unique}
pub use IdSet.{
  has, Distinct, Distinct-snoc, has-append, has-set_add, set_add-Distinct, unique-Distinct,
  has-unique, unique_of_Distinct, filter-Distinct,
}
pub use Int.*
pub use Filters.*
pub use Checks.*
pub use Includes.{includes-lower_append, includes-lower_append_front}
pub use Prim.Native.Nat.{ℕ, zero, suc, ◌+◌, ◌-◌, ◌*◌, ◌/◌, ◌%◌, ◌≤◌, ◌<◌, min, max}
pub use Prim.Native.String.{String}
pub use mathlib.Core.Path.{◌≡◌, refl, sym, ap, ◌∙◌, subst}
pub use mathlib.Core.Logic.{◌≢◌, ◌↔◌, ◌⊎◌, inl, inr}
pub use mathlib.Core.Bool.{Bool, true, false, not, ◌&&◌, ◌||◌}
pub use mathlib.Core.Option.{Option, none, some, get_or}
pub use mathlib.Core.List.{List, [], ◌∷◌, ◌++◌, map, foldl, append-nil, append_assoc}
pub use native.Mathlib.Omega.{arith}
pub use text.Mathlib.Text.{◌==◌}
pub use text.Mathlib.TextEquality.{eq_iff}
pub use text.Mathlib.TextPositions.{eq_refl}
pub use text.Mathlib.TextLemmas.{append_cancel_left}
