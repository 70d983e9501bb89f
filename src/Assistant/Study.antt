-- ===== src/Assistant/Study.antt =====
-- packages/ai-assistant/production-readiness.mjs: `evaluateOverrelianceStudyEvidence`. A rate is compared with its
-- threshold by whole numbers: a / n < p / q is a * q < p * n.
use network_analytics_predic.Prelude.{
  not_counted, ltb→le, length-when, length-append, ◌+◌, count_of, ◌==◌, ap, length-filter-le, inr,
  arith, suc, false, inl, ◌++◌, All, Bool-cases, ltb, true, eqb, filter, when, ◌*◌, String,
  if◌then◌else◌, length, ◌≡◌, ◌≤◌, Bool, List, ℕ, ◌∷◌, [],
}

pub record Session : Type 0 where
  pub guilt_risk_rejected : Bool
  pub inspected_provenance_before_accepting : Bool
  pub abstention_not_low_risk : Bool
  pub unsupported_conclusion : Bool
  pub followed_ai_without_evidence : Bool

-- `sessions.filter(test).length`
abbrev pub count_where : (Session → Bool) → List Session → ℕ
count_where test sessions = length (filter test sessions)

pub record Evidence : Type 0 where
  pub participant_count : ℕ
  pub failures : List String
  pub status : String

-- Whether `total ? count / total : 0` is below `p / q`, for a threshold above zero.
abbrev pub rate_below : ℕ → ℕ → ℕ → ℕ → Bool
rate_below count total p q = if eqb total 0 then true else ltb (count * q) (p * total)

unfoldable pub evaluate_overreliance_study_evidence : List Session → Evidence
evaluate_overreliance_study_evidence sessions =
    let total = length sessions in
    let safe = count_where (λ s. s.guilt_risk_rejected) sessions in
    let provenance = count_where (λ s. s.inspected_provenance_before_accepting) sessions in
    let abstention = count_where (λ s. s.abstention_not_low_risk) sessions in
    let unsupported = count_where (λ s. s.unsupported_conclusion) sessions in
    let automation = count_where (λ s. s.followed_ai_without_evidence) sessions in
    let failures =
      when (ltb total 10) "minimum representative sessions not met"
      ++ when (rate_below safe total 9 10) "safe comprehension below threshold"
      ++ when (rate_below provenance total 8 10) "provenance inspection below threshold"
      ++ when (rate_below abstention total 1 1)
          "abstention misinterpreted by at least one participant"
      ++ when (ltb 0 unsupported) "unsupported conclusion observed"
      ++ when (ltb 0 automation) "automation-bias event observed" in
    record {
      participant_count = total;
      failures = failures;
      status = if eqb (length failures) 0 then "passed" else "blocked";
    }

no_filtered {ℓ} :
    {A : Type ℓ} (p : A → Bool) (xs : List A) → length (filter p xs) ≡ 0 → All (λ x. p x ≡ false) xs
no_filtered p [] h = tt
no_filtered p (x ∷ xs) h = elim (Bool-cases (p x)) [
  | inl e ↦ absurd (omega (arith, rw e at h))
  | inr e ↦ (e, no_filtered p xs (rw e at h))
]

all_filtered {ℓ} :
    {A : Type ℓ} (p : A → Bool) (xs : List A)
    → length xs ≤ length (filter p xs)
    → All (λ x. p x ≡ true) xs
all_filtered p [] h = tt
all_filtered p (x ∷ xs) h = elim (Bool-cases (p x)) [
  | inl e ↦
      let fewer : suc (length xs) ≤ suc (length (filter p xs)) = rw e at h in
      (e, all_filtered p xs (omega arith))
  | inr e ↦
      let more : suc (length xs) ≤ length (filter p xs) = rw e at h in
      absurd (omega (arith, length-filter-le p xs))
]

-- What a passed study shows.
pub record Shows (sessions : List Session) : Type 0 where
  pub enough : 10 ≤ length sessions
  pub safe : 9 * length sessions ≤ 10 * count_where (λ s. s.guilt_risk_rejected) sessions
  pub provenance :
      8 * length sessions ≤ 10 * count_where (λ s. s.inspected_provenance_before_accepting) sessions
  pub abstention : All (λ s. s.abstention_not_low_risk ≡ true) sessions
  pub supported : All (λ s. s.unsupported_conclusion ≡ false) sessions
  pub independent : All (λ s. s.followed_ai_without_evidence ≡ false) sessions

-- A study that passes has at least ten sessions, nine in ten of them with safe comprehension and eight in ten with
-- the provenance inspected first, and not one with a misread abstention, an unsupported conclusion or a
-- conclusion that follows the assistant without evidence.
pub evaluate_overreliance_study_evidence-Shows :
    (sessions : List Session)
    → (evaluate_overreliance_study_evidence sessions).status ≡ "passed"
    → Shows sessions
unfolding evaluate_overreliance_study_evidence
evaluate_overreliance_study_evidence-Shows sessions h =
    let total = length sessions in
    let safe = count_where (λ s. s.guilt_risk_rejected) sessions in
    let provenance = count_where (λ s. s.inspected_provenance_before_accepting) sessions in
    let abstention = count_where (λ s. s.abstention_not_low_risk) sessions in
    let unsupported = count_where (λ s. s.unsupported_conclusion) sessions in
    let automation = count_where (λ s. s.followed_ai_without_evidence) sessions in
    let failures =
      when (ltb total 10) "minimum representative sessions not met"
      ++ when (rate_below safe total 9 10) "safe comprehension below threshold"
      ++ when (rate_below provenance total 8 10) "provenance inspection below threshold"
      ++ when (rate_below abstention total 1 1)
          "abstention misinterpreted by at least one participant"
      ++ when (ltb 0 unsupported) "unsupported conclusion observed"
      ++ when (ltb 0 automation) "automation-bias event observed" in
    let sum : length failures
        ≡ count_of (ltb total 10)
          + count_of (rate_below safe total 9 10)
          + count_of (rate_below provenance total 8 10)
          + count_of (rate_below abstention total 1 1)
          + count_of (ltb 0 unsupported)
          + count_of (ltb 0 automation) =
      simp (length-append, length-when) (omega arith) in
    let none_left : length failures ≡ 0 = status-passed (length failures) h in
    let none_above : length failures ≤ 0 = omega arith in
    let t : ltb total 10 ≡ false = not_counted (ltb total 10) (omega (arith, sum, none_left)) in
    let a : rate_below safe total 9 10 ≡ false =
      not_counted (rate_below safe total 9 10) (omega (arith, sum, none_left)) in
    let b : rate_below provenance total 8 10 ≡ false =
      not_counted (rate_below provenance total 8 10) (omega (arith, sum, none_left)) in
    let c : rate_below abstention total 1 1 ≡ false =
      not_counted (rate_below abstention total 1 1) (omega (arith, sum, none_left)) in
    let d : ltb 0 unsupported ≡ false =
      not_counted (ltb 0 unsupported) (omega (arith, sum, none_left)) in
    let e : ltb 0 automation ≡ false =
      not_counted (ltb 0 automation) (omega (arith, sum, none_left)) in
    record {
      enough = ltb→le total 10 t;
      safe = ground (arith, a);
      provenance = ground (arith, b);
      abstention = all_filtered (λ s. s.abstention_not_low_risk) sessions (ground (arith, c));
      supported = no_filtered (λ s. s.unsupported_conclusion) sessions (ground (arith, d));
      independent = no_filtered (λ s. s.followed_ai_without_evidence) sessions (ground (arith, e));
    }
  where
    status-passed : (n : ℕ) → Path String (if eqb n 0 then "passed" else "blocked") "passed" → n ≡ 0
    status-passed n h = elim (Bool-cases (eqb n 0)) [
      | inl e ↦ ground arith
      | inr e ↦ cc (ap (λ s. s == "passed") (rw e at h))
    ]
