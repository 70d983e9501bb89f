-- ===== src/Timeline/Gaps.antt =====
-- packages/graph-renderer/graph-model.mjs: the loop of `recommendSplit` finds the largest gap.
use network_analytics_predic.Timeline.Order.{Chronological}
use network_analytics_predic.Timeline.Split.{TimedEdge, widest_gap}
use network_analytics_predic.Prelude.{
  sym, ap, ◌∙◌, Bool-cases, refl, inr, inl, negsuc, length, subst, ◌+◌, some, sub_ℕ, ◌≤◌, ◌⊎◌,
  Option, arith, lebℤ, ◌≡◌, if◌then◌else◌, ◌≤ℤ◌, List, ℕ, ℤ, ◌∷◌, [], zero, suc, none,
}

-- The gap after the edge of an index.
abbrev pub gap_at : ℕ → List TimedEdge → Option ℤ
gap_at n [] = none
gap_at n (a ∷ []) = none
gap_at zero (a ∷ b ∷ rest) = some (sub_ℕ b.at_ms a.at_ms)
gap_at (suc n) (a ∷ b ∷ rest) = gap_at n (b ∷ rest)

leℤ_trans : (a b c : ℤ) → a ≤ℤ b → b ≤ℤ c → a ≤ℤ c
leℤ_trans a b c h k = omega (arith, h, k)

abbrev better : ℕ × ℤ → ℕ → ℤ → ℕ × ℤ
better best index gap = if lebℤ gap best.1 then best else (index, gap)

better-best : (best : ℕ × ℤ) (index : ℕ) (gap : ℤ) → best.1 ≤ℤ (better best index gap).1
better-best best index gap = ground arith

better-gap : (best : ℕ × ℤ) (index : ℕ) (gap : ℤ) → gap ≤ℤ (better best index gap).1
better-gap best index gap = ground arith

widest_gap-best :
    (index : ℕ) (best : ℕ × ℤ) (xs : List TimedEdge) → best.1 ≤ℤ (widest_gap index best xs).1
unfolding widest_gap
widest_gap-best index best [] = omega arith
widest_gap-best index best (a ∷ []) = omega arith
widest_gap-best index best (a ∷ b ∷ rest) =
    let gap = sub_ℕ b.at_ms a.at_ms in
    leℤ_trans best.1 (better best index gap).1 _ (better-best best index gap)
      (widest_gap-best (suc index) (better best index gap) (b ∷ rest))

widest_gap-most :
    (index : ℕ) (best : ℕ × ℤ) (xs : List TimedEdge) (j : ℕ) (g : ℤ)
    → gap_at j xs ≡ some g
    → g ≤ℤ (widest_gap index best xs).1
unfolding widest_gap
widest_gap-most index best [] j g e = cc
widest_gap-most index best (a ∷ []) j g e = cc
widest_gap-most index best (a ∷ b ∷ rest) zero g e =
    let gap = sub_ℕ b.at_ms a.at_ms in
    subst (λ x. x ≤ℤ (widest_gap index best (a ∷ b ∷ rest)).1) (cc e)
      (leℤ_trans gap (better best index gap).1 _ (better-gap best index gap)
        (widest_gap-best (suc index) (better best index gap) (b ∷ rest)))
widest_gap-most index best (a ∷ b ∷ rest) (suc j) g e =
    widest_gap-most (suc index) (better best index (sub_ℕ b.at_ms a.at_ms)) (b ∷ rest) j g e

-- The result is the one before the loop, or a gap of the list with its index.
widest_gap-from :
    (index : ℕ) (best : ℕ × ℤ) (xs : List TimedEdge)
    → let result = widest_gap index best xs in
      (result ≡ best) ⊎ ((i : ℕ) × (result.0 ≡ index + i) × (gap_at i xs ≡ some result.1))
unfolding widest_gap
widest_gap-from index best [] = inl refl
widest_gap-from index best (a ∷ []) = inl refl
widest_gap-from index best (a ∷ b ∷ rest) =
    let gap = sub_ℕ b.at_ms a.at_ms in
    elim (widest_gap-from (suc index) (better best index gap) (b ∷ rest)) [
      | inr (i, at_i, is) ↦ inr (suc i, omega (arith, at_i), is)
      | inl same ↦ elim (Bool-cases (lebℤ gap best.1)) [
        | inl t ↦ inl (same ∙ rw t refl)
        | inr f ↦
            let mine : better best index gap ≡ (index, gap) = rw f refl in
            inr
              (0, ap (λ r. r.0) (same ∙ mine) ∙ omega arith, ap (λ r. some r.1) (sym (same ∙ mine)))
      ]
    ]

-- In a chronological list of two edges or more, the loop of the recommendation ends with the index of a gap
-- between two neighbours that no other gap exceeds.
pub widest_gap-largest :
    (xs : List TimedEdge)
    → Chronological xs
    → 2 ≤ length xs
    → let result = widest_gap 0 (0, negsuc 0) xs in
      (gap_at result.0 xs ≡ some result.1)
      × ((j : ℕ) (g : ℤ) → gap_at j xs ≡ some g → g ≤ℤ result.1)
widest_gap-largest [] h two = absurd (omega arith)
widest_gap-largest (a ∷ []) h two = absurd (omega arith)
widest_gap-largest (a ∷ b ∷ rest) h two =
    let xs = a ∷ b ∷ rest in
    let result = widest_gap 0 (0, negsuc 0) xs in
    let most = widest_gap-most 0 (0, negsuc 0) xs in
    elim (widest_gap-from 0 (0, negsuc 0) xs) [
      | inr (i, at_i, is) ↦
          let same : i ≡ result.0 = omega (arith, at_i) in
          (subst (λ k. gap_at k xs ≡ some result.1) same is, most)
      | inl start ↦
          let first : sub_ℕ b.at_ms a.at_ms ≤ℤ negsuc 0 =
            subst (λ r. sub_ℕ b.at_ms a.at_ms ≤ℤ r.1) start (most 0 (sub_ℕ b.at_ms a.at_ms) refl) in
          absurd (ground (arith, h.0, first))
    ]
