-- ===== src/Fraud/Ranked.antt =====
-- What the sort of the scores keeps, and that it ranks them.
use network_analytics_predic.Fraud.Flow.{
  Clock, Score, ranks_before, insert_score, sort_scores, dependencies_of,
}
use mathlib.Core.List.{Perm}
use mathlib.Core.List.Perm
use network_analytics_predic.Prelude.{
  All-imp, inr, refl, some, find, inl, length-append, All, Bool-cases, arith, false, true, ◌+◌, ◌≡◌,
  ◌≤◌, Bool, List, [], ◌∷◌, length,
}

-- Higher scores come first.
abbrev pub IsRanked : List Score → Type 0
IsRanked [] = Unit
IsRanked (a ∷ scores) = All (λ b. b.score ≤ a.score) scores × IsRanked scores

module _ (clock : Clock) where
  insert_score-All {κ} :
      (P : Score → Type κ) (a : Score) (scores : List Score)
      → P a
      → All P scores
      → All P (insert_score clock a scores)
  unfolding insert_score
  insert_score-All P a [] p h = (p, tt)
  insert_score-All P a (b ∷ scores) p h = elim (Bool-cases (ranks_before clock b a)) [
    | inl e ↦ rw e (h.0, insert_score-All P a scores p h.1)
    | inr e ↦ rw e (p, h)
  ]

  pub sort_scores-All {κ} :
      (P : Score → Type κ) (scores : List Score) → All P scores → All P (sort_scores clock scores)
  unfolding sort_scores
  sort_scores-All P [] h = tt
  sort_scores-All P (a ∷ scores) h =
      insert_score-All P a (sort_scores clock scores) h.0 (sort_scores-All P scores h.1)

  insert_score-IsRanked :
      (a : Score) (scores : List Score) → IsRanked scores → IsRanked (insert_score clock a scores)
  unfolding insert_score
  insert_score-IsRanked a [] h = (tt, tt)
  insert_score-IsRanked a (b ∷ scores) h = elim (Bool-cases (ranks_before clock b a)) [
    | inl e ↦ rw e (
      insert_score-All (λ s. s.score ≤ b.score) a scores (ground (arith, e)) h.0,
      insert_score-IsRanked a scores h.1,
    )
    | inr e ↦
        let below : b.score ≤ a.score = ground (arith, e) in
        rw e (
          (
            below,
            All-imp (λ s. s.score ≤ b.score) (λ s. s.score ≤ a.score) scores (λ s k. omega arith)
                h.0,
          ),
          h,
        )
  ]

  pub sort_scores-IsRanked : (scores : List Score) → IsRanked (sort_scores clock scores)
  unfolding sort_scores
  sort_scores-IsRanked [] = tt
  sort_scores-IsRanked (a ∷ scores) =
      insert_score-IsRanked a (sort_scores clock scores) (sort_scores-IsRanked scores)

  insert_score-perm :
      (a : Score) (scores : List Score) → Perm (insert_score clock a scores) (a ∷ scores)
  unfolding insert_score
  insert_score-perm a [] = Perm.refl (a ∷ [])
  insert_score-perm a (b ∷ scores) = elim (Bool-cases (ranks_before clock b a)) [
    | inl e ↦ rw e (Perm.trans (Perm.cons b (insert_score-perm a scores)) (Perm.swap a b scores))
    | inr e ↦ rw e (Perm.refl (a ∷ b ∷ scores))
  ]

  -- The scores sorted are the scores.
  pub sort_scores-perm : (scores : List Score) → Perm (sort_scores clock scores) scores
  unfolding sort_scores
  sort_scores-perm [] = Perm.refl []
  sort_scores-perm (a ∷ scores) =
      Perm.trans (insert_score-perm a (sort_scores clock scores))
        (Perm.cons a (sort_scores-perm scores))

  length-insert_score :
      (a : Score) (scores : List Score)
      → length (dependencies_of (insert_score clock a scores))
        ≡ length a.dependencies + length (dependencies_of scores)
  unfolding insert_score
  length-insert_score a [] = omega (arith, length-append a.dependencies [])
  length-insert_score a (b ∷ scores) = elim (Bool-cases (ranks_before clock b a)) [
    | inl e ↦ rw e (
        omega (
          arith,
          length-insert_score a scores,
          length-append b.dependencies (dependencies_of scores),
          length-append b.dependencies (dependencies_of (insert_score clock a scores)),
        ))
    | inr e ↦ rw e (omega (arith, length-append a.dependencies (dependencies_of (b ∷ scores))))
  ]

  -- As many dependencies are listed after the sort as before.
  pub length-sort_scores :
      (scores : List Score)
      → length (dependencies_of (sort_scores clock scores)) ≡ length (dependencies_of scores)
  unfolding sort_scores
  length-sort_scores [] = refl
  length-sort_scores (a ∷ scores) = omega (
    arith,
    length-sort_scores scores,
    length-insert_score a (sort_scores clock scores),
    length-append a.dependencies (dependencies_of scores),
  )

  find-insert_other :
      (p : Score → Bool) (a : Score) (scores : List Score)
      → p a ≡ false
      → find p (insert_score clock a scores) ≡ find p scores
  unfolding insert_score
  find-insert_other p a [] n = rw n
  find-insert_other p a (b ∷ scores) n = elim (Bool-cases (ranks_before clock b a)) [
    | inl e ↦
        rw e
          (elim (Bool-cases (p b)) [ inl k ↦ rw k | inr k ↦ rw k (find-insert_other p a scores n) ])
    | inr e ↦ rw (e, n)
  ]

  find-insert_only :
      (p : Score → Bool) (a : Score) (scores : List Score)
      → p a ≡ true
      → All (λ s. p s ≡ false) scores
      → find p (insert_score clock a scores) ≡ some a
  unfolding insert_score
  find-insert_only p a [] y h = rw y
  find-insert_only p a (b ∷ scores) y h = elim (Bool-cases (ranks_before clock b a)) [
    | inl e ↦ rw (e, h.0) (find-insert_only p a scores y h.1)
    | inr e ↦ rw (e, y)
  ]

  pub find-sort_other :
      (p : Score → Bool) (a : Score) (scores : List Score)
      → p a ≡ false
      → find p (sort_scores clock (a ∷ scores)) ≡ find p (sort_scores clock scores)
  unfolding sort_scores
  find-sort_other p a scores = find-insert_other p a (sort_scores clock scores)

  -- What only one score satisfies finds that score.
  pub find-sort_only :
      (p : Score → Bool) (a : Score) (scores : List Score)
      → p a ≡ true
      → All (λ s. p s ≡ false) scores
      → find p (sort_scores clock (a ∷ scores)) ≡ some a
  unfolding sort_scores
  find-sort_only p a scores y h =
      find-insert_only p a (sort_scores clock scores) y
        (sort_scores-All (λ s. p s ≡ false) scores h)
