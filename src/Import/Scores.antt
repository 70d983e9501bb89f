-- ===== src/Import/Scores.antt =====
-- What `detectFraudRings` of an imported case comes to.
use network_analytics_predic.Graph.{Node}
use network_analytics_predic.Fraud.Flow.{
  is_round, fastest_pass_through, is_rapid, passes_through, destinations_of, origins_of,
  outbound_for, status_of, inbound_for, Clock, Transaction, FraudSettings, Score, threshold_of,
  sort_scores,
}
use network_analytics_predic.Fraud.Ranked.{
  IsRanked, sort_scores-IsRanked, sort_scores-perm, sort_scores-All,
}
use mathlib.Core.List.{Perm}
use mathlib.Core.List.Perm
use network_analytics_predic.Import.Preview.{AcceptedRow}
use network_analytics_predic.Import.Workflow.{imported_nodes, transaction_of}
use network_analytics_predic.Import.Detection.{
  indicators_of, score_imported, imported_scores, hard_negative_reasons,
}
use network_analytics_predic.Prelude.{
  subst, ap, ◌==◌, filter, map, ◌++◌, any, inr, zero, leb→le, ◌∙◌, inl, refl, sym, leb, suc, true,
  Bool-cases, arith, eqb, false, All, min, ℕ, ◌*◌, ◌≡◌, ◌≤◌, ◌<◌, Bool, List, [], ◌∷◌, length,
}

-- The score is 18 for each indicator. With an innocent explanation at hand there is none, and the account is not
-- put forward for review unless the threshold is 0.
pub record IsFair (settings : FraudSettings) (s : Score) : Type 0 where
  pub counted : s.score ≡ 18 * length s.indicators
  pub bounded : s.score ≤ 90
  pub innocent : 0 < length s.contrary_evidence → s.score ≡ 0
  pub flagged :
      s.status ≡ "review-priority"
      → (threshold_of settings ≤ s.score)
        × ((0 < threshold_of settings) → length s.contrary_evidence ≡ 0)

length-indicators_of :
    (p a b c d e : Bool)
    → let n = length (indicators_of p a b c d e) in (n ≤ 5) × (p ≡ false → n ≡ 0)
unfolding indicators_of
length-indicators_of true a b c d e = ground arith
length-indicators_of false a b c d e = (omega arith, λ h. refl)

status_of-review :
    (threshold score : ℕ) → status_of threshold score ≡ "review-priority" → threshold ≤ score
status_of-review threshold score h = elim (Bool-cases (leb threshold score)) [
  | inl e ↦ leb→le threshold score e
  | inr e ↦ elim (Bool-cases (leb 45 score)) [
    | inl w ↦ absurd (cc (rw (e, w) at h))
    | inr w ↦ absurd (cc (rw (e, w) at h))
  ]
]

-- The record by its parts.
fair :
    (settings : FraudSettings) (s : Score)
    → s.score ≡ min 100 (length s.indicators * 18)
    → s.status ≡ status_of (threshold_of settings) s.score
    → length s.indicators ≤ 5
    → (eqb (length s.contrary_evidence) 0 ≡ false → length s.indicators ≡ 0)
    → IsFair settings s
fair settings s scored status few none_given =
    let innocent : 0 < length s.contrary_evidence → s.score ≡ 0 =
      λ h. omega (arith, none_given (ground arith)) in
    record {
      counted = omega arith;
      bounded = omega arith;
      innocent = innocent;
      flagged = λ h.
          let above = status_of-review (threshold_of settings) s.score (sym status ∙ h) in
          (above, λ pos_threshold. not_given (length s.contrary_evidence) innocent (omega arith));
    }
  where
    not_given : (n : ℕ) → (0 < n → s.score ≡ 0) → 0 < s.score → n ≡ 0
    not_given zero zero_score h = refl
    not_given (suc n) zero_score h = absurd (omega (arith, zero_score (omega arith)))

score_imported-IsFair :
    (clock : Clock) (transactions : List Transaction) (settings : FraudSettings) (account : Node)
    → IsFair settings (score_imported clock transactions settings account)
score_imported-IsFair clock transactions settings account =
    let inbound = inbound_for transactions account.id in
    let outbound = outbound_for transactions account.id in
    let facts =
      length-indicators_of (eqb (length (hard_negative_reasons transactions account.id)) 0)
        (leb 2 (origins_of inbound)) (leb 2 (destinations_of outbound))
        (passes_through inbound outbound) (is_rapid (fastest_pass_through clock inbound outbound))
        (any is_round (inbound ++ outbound)) in
    fair settings (score_imported clock transactions settings account)
      (unfold score_imported in refl) (unfold score_imported in refl)
      (unfold score_imported in facts.0) (unfold score_imported in facts.1)

-- The detection on an import ranks its accounts, each once, by their scores. A score is 18 for each indicator
-- and at most 90; an account with contrary evidence has the score 0; and one with the status "review-priority"
-- reaches the threshold and has no contrary evidence, if the threshold is above 0.
pub imported_scores-IsFair :
    (clock : Clock) (rows : List AcceptedRow) (settings : FraudSettings)
    → let scores = imported_scores clock rows settings in
      All (IsFair settings) scores
      × IsRanked scores
      × Perm
          (map (λ s. s.account_id) scores)
          (map (λ n. n.id) (filter (λ n. n.type == "account") (imported_nodes rows)))
unfolding imported_scores
imported_scores-IsFair clock rows settings =
    let accounts = filter (λ (n : Node). n.type == "account") (imported_nodes rows) in
    let score = score_imported clock (map transaction_of rows) settings in
    (
      sort_scores-All clock (IsFair settings) (map score accounts) (each accounts),
      sort_scores-IsRanked clock (map score accounts),
      subst (Perm (map (λ s. s.account_id) (sort_scores clock (map score accounts)))) (ids accounts)
          (Perm.map (λ (s : Score). s.account_id) (sort_scores-perm clock (map score accounts))),
    )
  where
    each :
        (accounts : List Node)
        → All
            (IsFair settings)
            (map (score_imported clock (map transaction_of rows) settings) accounts)
    each [] = tt
    each (n ∷ accounts) =
        (score_imported-IsFair clock (map transaction_of rows) settings n, each accounts)

    ids :
        (accounts : List Node)
        → map
            (λ s. s.account_id)
            (map (score_imported clock (map transaction_of rows) settings) accounts)
          ≡ map (λ n. n.id) accounts
    ids [] = refl
    ids (n ∷ accounts) = ap (n.id ∷◌) (ids accounts)
