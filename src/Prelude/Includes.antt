-- ===== src/Prelude/Includes.antt =====
-- A text that ends in another one includes what that includes, in lower case too.
use text.Mathlib.TextLemmas
use mathlib.Core.Path.{refl, ◌≡◌, ap, sym, ◌∙◌}
use mathlib.Core.Bool.{true}
use Prim.Native.String.{String, [], ◌∷◌}
use native.Mathlib.Omega.{arith}
use mathlib.Core.Logic.{inl, inr}
use network_analytics_predic.Prelude.Tests.{Bool-cases}
use network_analytics_predic.Prelude.Text.{prefix_of, includes, lower, lower_char, ◌⧺◌}

lower-append : (s t : String) → lower (s ⧺ t) ≡ lower s ⧺ lower t
unfolding lower
lower-append [] t = ap lower (TextLemmas.nil-append t) ∙ sym (TextLemmas.nil-append (lower t))
lower-append (c ∷ s) t =
    ap lower (TextLemmas.cons-append c s t)
    ∙ ap (lower_char c ∷◌) (lower-append s t)
    ∙ sym (TextLemmas.cons-append (lower_char c) (lower s) (lower t))

includes-append : (s t part : String) → includes t part ≡ true → includes (s ⧺ t) part ≡ true
unfolding includes
includes-append [] t part h = ap (λ x. includes x part) (TextLemmas.nil-append t) ∙ h
includes-append (c ∷ s) t part h =
    ap (λ x. includes x part) (TextLemmas.cons-append c s t)
    ∙ ground (arith, includes-append s t part h)

pub includes-lower_append :
    (s t part : String) → includes (lower t) part ≡ true → includes (lower (s ⧺ t)) part ≡ true
includes-lower_append s t part h =
    ap (λ x. includes x part) (lower-append s t) ∙ includes-append (lower s) (lower t) part h

prefix_of-append : (part s t : String) → prefix_of part s ≡ true → prefix_of part (s ⧺ t) ≡ true
unfolding prefix_of
prefix_of-append [] s t h = refl
prefix_of-append (p ∷ part) [] t h = absurd (cc h)
prefix_of-append (p ∷ part) (c ∷ s) t h =
    ap (prefix_of (p ∷ part)) (TextLemmas.cons-append c s t)
    ∙ ground (arith, prefix_of-append part s t, h)

includes_of_empty : (part t : String) → prefix_of part "" ≡ true → includes t part ≡ true
unfolding includes prefix_of
includes_of_empty [] [] h = refl
includes_of_empty [] (c ∷ s) h = refl
includes_of_empty (p ∷ part) t h = absurd (cc h)

includes_append_front : (s t part : String) → includes s part ≡ true → includes (s ⧺ t) part ≡ true
unfolding includes
includes_append_front [] t part h =
    ap (λ x. includes x part) (TextLemmas.nil-append t) ∙ includes_of_empty part t h
includes_append_front (c ∷ s) t part h =
    ap (λ x. includes x part) (TextLemmas.cons-append c s t)
    ∙ (elim (Bool-cases (prefix_of part (c ∷ s))) [
      | inl e ↦
          let longer =
            sym (ap (prefix_of part) (TextLemmas.cons-append c s t))
            ∙ prefix_of-append part (c ∷ s) t e in
          ground (arith, longer)
      | inr e ↦ ground (arith, includes_append_front s t part (ground (arith, e, h)))
    ])

pub includes-lower_append_front :
    (s t part : String) → includes (lower s) part ≡ true → includes (lower (s ⧺ t)) part ≡ true
includes-lower_append_front s t part h =
    ap (λ x. includes x part) (lower-append s t) ∙ includes_append_front (lower s) (lower t) part h
