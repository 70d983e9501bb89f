-- ===== src/Gates/Calibrated.antt =====
-- What the bins of a calibration curve count.
use network_analytics_predic.Gates.Calibration.{
  Numbers, Prediction, Bin, Tally, update_at, sum_counts, finite_number, bin_index, bin_count,
  empty_bins, add_to_bin, add_numbers, add_predictions, closed, compute_calibration_curve, clamped,
  empty_bin, error_from, error_limit,
}
use network_analytics_predic.Prelude.{
  min, ◌-◌, if◌then◌else◌, ◌⊎◌, get_or, max, ltb, inr, inl, length-map, Bool-cases, ◌↔◌, filter,
  map, ◌∙◌, ap, none, zero, arith, count_of, eqb, suc, true, length, some, ◌<◌, ◌∷◌, false, ℕ, ◌&&◌,
  ◌+◌, Bool, List, Option, [], refl, ◌≡◌,
}

abbrev pub count_at : {N : Type 0} → ℕ → List (Bin N) → ℕ
count_at k [] = 0
count_at zero (b ∷ bins) = b.count
count_at (suc k) (b ∷ bins) = count_at k bins

module _ {N : Type 0} (f : Bin N → Bin N) (grows : (b : Bin N) → (f b).count ≡ b.count + 1) where
  length-update_at : (i : ℕ) (bins : List (Bin N)) → length (update_at i f bins) ≡ length bins
  length-update_at i [] = refl
  length-update_at zero (b ∷ bins) = refl
  length-update_at (suc i) (b ∷ bins) = ap suc (length-update_at i bins)

  count_at-update_at :
      (k i : ℕ) (bins : List (Bin N))
      → i < length bins
      → count_at k (update_at i f bins) ≡ count_at k bins + count_of (eqb k i)
  count_at-update_at k i [] h = absurd (omega (arith, h))
  count_at-update_at zero zero (b ∷ bins) h = grows b
  count_at-update_at zero (suc i) (b ∷ bins) h = ground arith
  count_at-update_at (suc k) zero (b ∷ bins) h = ground arith
  count_at-update_at (suc k) (suc i) (b ∷ bins) h =
      ground (arith, count_at-update_at k i bins (omega (arith, h)))

  sum_counts-update_at :
      (i : ℕ) (bins : List (Bin N))
      → i < length bins
      → sum_counts (update_at i f bins) ≡ sum_counts bins + 1
  sum_counts-update_at i [] h = absurd (omega (arith, h))
  sum_counts-update_at zero (b ∷ bins) h = omega (arith, grows b)
  sum_counts-update_at (suc i) (b ∷ bins) h =
      omega (arith, sum_counts-update_at i bins (omega (arith, h)))

length-filter-cons :
    {A : Type 0} (q : A → Bool) (a : A) (rest : List A)
    → length (filter q (a ∷ rest)) ≡ count_of (q a) + length (filter q rest)
length-filter-cons q a rest = elim (Bool-cases (q a)) [
  | inl e ↦ rw e (omega arith)
  | inr e ↦ rw e (omega arith)
]

module _ {V N : Type 0} (num : Numbers V N) where
  -- A score cut off at 0 and at 1.
  abbrev pub cut_off : N → N
  cut_off score =
      if num.at_most score (num.of_count 0)
      then num.of_count 0
      else if num.at_most score (num.of_count 1)
      then score
      else num.of_count 1

  -- The place of a score among the bins: the whole part of its product with their number, and the last place for what
  -- would fall behind it.
  abbrev pub place_of : ℕ → N → ℕ
  place_of count score =
      let at = num.floor (num.times (cut_off score) (num.of_count count)) in
      if ltb at count then at else count - 1

  -- A prediction whose score and label are finite numbers, and one that falls into the bin at a place besides.
  abbrev pub falls : ℕ → ℕ → Option N → Option N → Bool
  falls count k none label = false
  falls count k (some score) none = false
  falls count k (some score) (some label) = eqb k (place_of count score)

  abbrev pub finite : V → Option N
  finite value = if num.is_finite (num.number value) then some (num.number value) else none

  abbrev pub falls_in : ℕ → ℕ → Prediction V → Bool
  falls_in count k p = falls count k (finite p.score) (finite p.label)

  abbrev pub both : Option N → Option N → Bool
  both none label = false
  both (some score) none = false
  both (some score) (some label) = true

  abbrev pub is_scored : Prediction V → Bool
  is_scored p = both (finite p.score) (finite p.label)

  -- What the comparison of numbers has to say of 0 and 1: 1 is not at most 0, and a number that is at most 0 is at most 1.
  pub record IsOrdered : Type 0 where
    pub one_zero : num.at_most (num.of_count 1) (num.of_count 0) ≡ false
    pub up :
        (x : N) → (num.at_most x (num.of_count 0) ≡ false) ⊎ (num.at_most x (num.of_count 1) ≡ true)

  clamped-cut_off : IsOrdered → (score : N) → clamped num score ≡ cut_off score
  clamped-cut_off order score = elim (Bool-cases (num.at_most score (num.of_count 0))) [
    | inl low ↦
        let under : num.at_most score (num.of_count 1) ≡ true = elim (order.up score) [
          | inl e ↦ absurd (cc (low, e))
          | inr e ↦ e
        ] in
        rw (under, low) refl
    | inr above ↦ elim (Bool-cases (num.at_most score (num.of_count 1))) [
      | inl under ↦ rw (under, above) refl
      | inr over ↦ rw (over, above, order.one_zero) refl
    ]
  ]

  -- The same with the index that the code computes.
  abbrev lands : ℕ → ℕ → Option N → Option N → Bool
  lands count k none label = false
  lands count k (some score) none = false
  lands count k (some score) (some label) = eqb k (bin_index num count score)

  abbrev lands_in : ℕ → ℕ → Prediction V → Bool
  lands_in count k p = lands count k (finite p.score) (finite p.label)

  module _ (order : IsOrdered) (count : ℕ) (some_bins : 0 < count) where
    bin_index-place_of : (score : N) → bin_index num count score ≡ place_of count score
    bin_index-place_of score =
        rw (clamped-cut_off order score)
          (least_place (num.floor (num.times (cut_off score) (num.of_count count))))
      where
        least_place : (at : ℕ) → min (count - 1) at ≡ (if ltb at count then at else count - 1)
        least_place at = elim (Bool-cases (ltb at count)) [
          | inl e ↦ rw e (ground (arith, e))
          | inr e ↦ rw e (ground (arith, e))
        ]

    lands-falls :
        (k : ℕ) (score label : Option N) → lands count k score label ≡ falls count k score label
    lands-falls k none label = refl
    lands-falls k (some score) none = refl
    lands-falls k (some score) (some label) = ap (eqb k) (bin_index-place_of score)

    length-lands_in :
        (k : ℕ) (predictions : List (Prediction V))
        → length (filter (lands_in count k) predictions)
          ≡ length (filter (falls_in count k) predictions)
    length-lands_in k [] = refl
    length-lands_in k (p ∷ predictions) = omega (
      arith,
      length-filter-cons (lands_in count k) p predictions,
      length-filter-cons (falls_in count k) p predictions,
      ap count_of (lands-falls k (finite p.score) (finite p.label)),
      length-lands_in k predictions,
    )

module _ {V N : Type 0} (num : Numbers V N) (count : ℕ) (some_bins : 0 < count) where
  -- The bins that come of some others, when the predictions are added of which the tests tell.
  pub record Adds (before after : List (Bin N)) (scored : ℕ) (fallen : ℕ → ℕ) : Type 0 where
    pub as_many : length after ≡ count
    pub at : (k : ℕ) → count_at k after ≡ count_at k before + fallen k
    pub sum : sum_counts after ≡ sum_counts before + scored

  bin_index-bound : (score : N) → bin_index num count score < count
  bin_index-bound score = ground (arith, some_bins)

  add_numbers-Adds :
      (t : Tally N) (score label : Option N)
      → length t.bins ≡ count
      → Adds t.bins
          (add_numbers num count t score label).bins
          (count_of (both num score label))
          (λ k. count_of (lands num count k score label))
  unfolding add_numbers
  add_numbers-Adds t none label h = record { as_many = h; at = λ k. omega arith; sum = omega arith }
  add_numbers-Adds t (some score) none h = record {
    as_many = h;
    at = λ k. omega arith;
    sum = omega arith;
  }
  add_numbers-Adds t (some score) (some label) h =
      let i = bin_index num count score in
      let f = add_to_bin num (clamped num score) label in
      let inside : i < length t.bins = rw h (bin_index-bound score) in
      record {
        as_many = length-update_at f (λ b. refl) i t.bins ∙ h;
        at = λ k. count_at-update_at f (λ b. refl) k i t.bins inside;
        sum = sum_counts-update_at f (λ b. refl) i t.bins inside;
      }

  add_predictions-Adds :
      (t : Tally N) (predictions : List (Prediction V))
      → length t.bins ≡ count
      → Adds t.bins
          (add_predictions num count t predictions).bins
          (length (filter (is_scored num) predictions))
          (λ k. length (filter (lands_in num count k) predictions))
  unfolding add_predictions
  add_predictions-Adds t [] h = record { as_many = h; at = λ k. omega arith; sum = omega arith }
  add_predictions-Adds t (p ∷ predictions) h =
      let one = add_numbers-Adds t (finite_number num p.score) (finite_number num p.label) h in
      let rest =
        add_predictions-Adds
          (add_numbers num count t (finite_number num p.score) (finite_number num p.label))
          predictions one.as_many in
      record {
        as_many = rest.as_many;
        at = λ k.
            omega
              (arith, one.at k, rest.at k, length-filter-cons (lands_in num count k) p predictions);
        sum = omega (arith, one.sum, rest.sum, length-filter-cons (is_scored num) p predictions);
      }

  empty_bins-none :
      (index n : ℕ)
      → (length (empty_bins num count index n) ≡ n)
        × ((k : ℕ) → count_at k (empty_bins num count index n) ≡ 0)
        × (sum_counts (empty_bins num count index n) ≡ 0)
  unfolding empty_bins
  empty_bins-none index zero = (refl, λ k. refl, refl)
  empty_bins-none index (suc n) =
      let rest = empty_bins-none (suc index) n in
      (ap suc rest.0, λ k. at_place k rest.1, omega (arith, rest.2))
    where
      at_place :
          (k : ℕ)
          → ((j : ℕ) → count_at j (empty_bins num count (suc index) n) ≡ 0)
          → count_at k (empty_bin num count index ∷ empty_bins num count (suc index) n) ≡ 0
      at_place zero h = refl
      at_place (suc k) h = h k

count_at-closed :
    {V N : Type 0} (num : Numbers V N) (k : ℕ) (bins : List (Bin N))
    → count_at k (map (closed num) bins) ≡ count_at k bins
count_at-closed num k [] = refl
count_at-closed num zero (b ∷ bins) = elim (Bool-cases (eqb b.count 0)) [
  | inl e ↦ rw e refl
  | inr e ↦ rw e refl
]
count_at-closed num (suc k) (b ∷ bins) = count_at-closed num k bins

more_and :
    (total scored : ℕ) (b : Bool)
    → total ≡ scored
    → ((ltb 0 total && b) ≡ true) ↔ ((0 < scored) × (b ≡ true))
more_and total scored b h =
    (λ e. (ground (arith, e, h), ground (arith, e)), λ e. ground (arith, e.0, e.1, h))

-- Whatever the arithmetic of the numbers, the total is the number of predictions with a finite score and a finite label,
-- and the curve passes exactly when it is not zero and the calibration error is at most the limit of the gates.
pub compute_calibration_curve-passed :
    {V N : Type 0} (num : Numbers V N) (predictions : List (Prediction V)) (bins : Option ℕ)
    → let curve = compute_calibration_curve num predictions bins in
      (curve.total ≡ length (filter (is_scored num) predictions))
      × ((curve.passed ≡ true) ↔ (
          (0 < length (filter (is_scored num) predictions))
          × (num.at_most (error_from num curve.total (num.of_count 0) curve.bins) (error_limit num)
              ≡ true)))
unfolding compute_calibration_curve
compute_calibration_curve-passed {N = N} num predictions bins =
    let count = bin_count num bins in
    let more : 0 < count = ground arith in
    let empty = empty_bins-none num count more 0 count in
    let start : Tally N = record { bins = empty_bins num count 0 count; brier = num.of_count 0 } in
    let added = add_predictions-Adds num count more start predictions empty.0 in
    (omega (arith, added.sum, empty.2), more_and _ _ _ (omega (arith, added.sum, empty.2)))

-- Where 1 is not at most 0 and a number that is at most 0 is at most 1: there are as many bins as were asked for, or ten,
-- but at least two; each of them counts the predictions with a finite score and a finite label whose score, cut off at 0
-- and at 1, gives its place by the whole part of its product with the number of bins, the last bin also those that would
-- fall behind it; the total is the number of predictions with both; and the curve passes exactly when the total is not
-- zero and the calibration error is at most the limit of the gates.
pub compute_calibration_curve-counts :
    {V N : Type 0} (num : Numbers V N) (order : IsOrdered num) (predictions : List (Prediction V))
    (bins : Option ℕ)
    → let curve = compute_calibration_curve num predictions bins in
      (length curve.bins ≡ max 2 (get_or bins 10))
      × ((k : ℕ)
          → count_at k curve.bins
            ≡ length (filter (falls_in num (max 2 (get_or bins 10)) k) predictions))
      × (curve.total ≡ length (filter (is_scored num) predictions))
      × ((curve.passed ≡ true) ↔ (
          (0 < length (filter (is_scored num) predictions))
          × (num.at_most (error_from num curve.total (num.of_count 0) curve.bins) (error_limit num)
              ≡ true)))
unfolding compute_calibration_curve
compute_calibration_curve-counts {N = N} num order predictions bins =
    let count = bin_count num bins in
    let more : 0 < count = ground arith in
    let empty = empty_bins-none num count more 0 count in
    let start : Tally N = record { bins = empty_bins num count 0 count; brier = num.of_count 0 } in
    let added = add_predictions-Adds num count more start predictions empty.0 in
    let passed = compute_calibration_curve-passed num predictions bins in
    (
      length-map _ _ ∙ added.as_many,
      λ k.
          count_at-closed num k _
          ∙ omega
              (arith, added.at k, empty.1 k, length-lands_in num order count more k predictions),
      passed.0,
      passed.1,
    )
