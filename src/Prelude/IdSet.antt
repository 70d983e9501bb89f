-- ===== src/Prelude/IdSet.antt =====
-- A JavaScript `Set` of identifiers: a list without repetitions in the order of insertion.
use mathlib.Core.Path.{◌≡◌, refl, sym, ◌∙◌}
use mathlib.Core.Logic.{inl, inr}
use mathlib.Core.Bool.{Bool, false, ◌||◌}
use mathlib.Core.List.{List, [], ◌∷◌, ◌++◌, foldl, append-nil, append_assoc}
use Prim.Native.String.{String}
use native.Mathlib.Omega.{arith}
use text.Mathlib.Text.{◌==◌}
use text.Mathlib.TextEquality.{eq_iff}
use network_analytics_predic.Prelude.Tests.{if◌then◌else◌, Bool-cases}
use network_analytics_predic.Prelude.Lists.{filter}

-- `set.has(id)`, and `array.includes(id)`
abbrev pub has : List String → String → Bool
has [] x = false
has (y ∷ ys) x = y == x || has ys x

-- `set.add(id)`
unfoldable pub set_add : List String → String → List String
set_add s x = if has s x then s else s ++ x ∷ []

-- `[...new Set(ids)]`
unfoldable pub unique : List String → List String
unfolding set_add
unique = foldl set_add []

abbrev pub Distinct : List String → Type 0
Distinct [] = Unit
Distinct (x ∷ xs) = (has xs x ≡ false) × Distinct xs

pub has-append : (xs ys : List String) (a : String) → has (xs ++ ys) a ≡ (has xs a || has ys a)
has-append [] ys a = refl
has-append (x ∷ xs) ys a = ground (arith, has-append xs ys a)

pub has-set_add : (s : List String) (x a : String) → has (set_add s x) a ≡ (has s a || x == a)
unfolding set_add
has-set_add s x a = ground (arith, has-append s (x ∷ []) a, eq_iff x a)

pub Distinct-snoc :
    (s : List String) (x : String) → Distinct s → has s x ≡ false → Distinct (s ++ x ∷ [])
Distinct-snoc [] x d h = (refl, tt)
Distinct-snoc (y ∷ s) x d h = (
  ground (arith, has-append s (x ∷ []) y, eq_iff x y, eq_iff y x),
  Distinct-snoc s x d.1 (ground arith),
)

pub set_add-Distinct : (s : List String) (x : String) → Distinct s → Distinct (set_add s x)
unfolding set_add
set_add-Distinct s x d = elim (Bool-cases (has s x)) [
  | inl e ↦ rw e d
  | inr e ↦ rw e (Distinct-snoc s x d e)
]

fold-Distinct : (s xs : List String) → Distinct s → Distinct (foldl set_add s xs)
fold-Distinct s [] d = d
fold-Distinct s (x ∷ xs) d = fold-Distinct (set_add s x) xs (set_add-Distinct s x d)

has-fold : (s xs : List String) (a : String) → has (foldl set_add s xs) a ≡ (has s a || has xs a)
has-fold s [] a = ground arith
has-fold s (x ∷ xs) a = ground (arith, has-fold (set_add s x) xs a, has-set_add s x a)

-- `[...new Set(ids)]` has no repetitions.
pub unique-Distinct : (xs : List String) → Distinct (unique xs)
unique-Distinct xs = unfold unique in fold-Distinct [] xs tt

-- It has the same members.
pub has-unique : (xs : List String) (a : String) → has (unique xs) a ≡ has xs a
has-unique xs a = unfold unique in has-fold [] xs a

not-has_of_Distinct : (s xs : List String) (x : String) → Distinct (s ++ x ∷ xs) → has s x ≡ false
not-has_of_Distinct [] xs x d = refl
not-has_of_Distinct (y ∷ s) xs x d =
    ground (arith, has-append s (x ∷ xs) y, eq_iff x y, eq_iff y x, not-has_of_Distinct s xs x d.1)

fold_of_Distinct : (s xs : List String) → Distinct (s ++ xs) → foldl set_add s xs ≡ s ++ xs
fold_of_Distinct s [] d = sym (append-nil s)
fold_of_Distinct s (x ∷ xs) d =
    let fresh : set_add s x ≡ s ++ x ∷ [] = unfold set_add in rw (not-has_of_Distinct s xs x d) in
    let shift : (s ++ x ∷ []) ++ xs ≡ s ++ x ∷ xs = append_assoc s (x ∷ []) xs in
    rw fresh (fold_of_Distinct (s ++ x ∷ []) xs (rw shift d) ∙ shift)

-- A list without repetitions stays as it is.
pub unique_of_Distinct : (xs : List String) → Distinct xs → unique xs ≡ xs
unique_of_Distinct xs d = unfold unique in fold_of_Distinct [] xs d

has-filter-false :
    (p : String → Bool) (xs : List String) (a : String)
    → has xs a ≡ false
    → has (filter p xs) a ≡ false
has-filter-false p [] a h = refl
has-filter-false p (x ∷ xs) a h =
    let later : has xs a ≡ false = ground arith in ground (arith, has-filter-false p xs a later)

pub filter-Distinct : (p : String → Bool) (xs : List String) → Distinct xs → Distinct (filter p xs)
filter-Distinct p [] d = tt
filter-Distinct p (x ∷ xs) d = elim (Bool-cases (p x)) [
  | inl e ↦ rw e (has-filter-false p xs x d.0, filter-Distinct p xs d.1)
  | inr e ↦ rw e (filter-Distinct p xs d.1)
]
