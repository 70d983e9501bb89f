-- ===== src/Gates/Calibration.antt =====
-- packages/predictive/production-readiness.mjs: `computeCalibrationCurve`. The values of the predictions and the
-- floating-point numbers, with the operations that the code applies to them, are parameters; counts and indices are
-- natural numbers.
use network_analytics_predic.Gates.Candidate.{max_calibration_error}
use network_analytics_predic.Prelude.{
  ltb, get_or, none, zero, eqb, map, max, min, some, suc, ◌∷◌, if◌then◌else◌, ℕ, ◌&&◌, ◌+◌, ◌-◌,
  Bool, List, Option, [],
}

-- What JavaScript does with numbers.
pub record Numbers (V N : Type 0) : Type 0 where
  pub number : V → N  -- `Number(value)`
  pub is_finite : N → Bool
  pub of_count : ℕ → N
  pub plus : N → N → N
  pub minus : N → N → N
  pub times : N → N → N
  pub over : N → N → N
  pub square : N → N  -- `x ** 2`
  pub abs : N → N
  pub at_most : N → N → Bool
  pub floor : N → ℕ  -- of a number that is not negative
  pub to_fixed : N → N  -- `Number(x.toFixed(4))`

pub record Prediction (V : Type 0) : Type 0 where
  pub score : V
  pub label : V

pub record Bin (N : Type 0) : Type 0 where
  pub index : ℕ
  pub min_score : N
  pub max_score : N
  pub count : ℕ
  pub mean_score : N
  pub empirical_rate : N
  pub absolute_gap : N

-- The bins and the sum for the Brier score, as the loop over the predictions keeps them.
pub record Tally (N : Type 0) : Type 0 where
  pub bins : List (Bin N)
  pub brier : N

pub record Curve (N : Type 0) : Type 0 where
  pub bins : List (Bin N)
  pub total : ℕ
  pub expected_calibration_error : N
  pub brier_score : Option N
  pub passed : Bool

abbrev pub update_at : {A : Type 0} → ℕ → (A → A) → List A → List A
update_at k f [] = []
update_at zero f (a ∷ rest) = f a ∷ rest
update_at (suc k) f (a ∷ rest) = a ∷ update_at k f rest

abbrev pub sum_counts : {N : Type 0} → List (Bin N) → ℕ
sum_counts [] = 0
sum_counts (b ∷ bins) = b.count + sum_counts bins

module _ {V N : Type 0} (num : Numbers V N) where
  abbrev pub finite_number : V → Option N
  finite_number value = if num.is_finite (num.number value) then some (num.number value) else none

  -- `Math.max(0, Math.min(1, score))`
  abbrev pub least : N → N → N
  least x y = if num.at_most y x then y else x

  abbrev pub greatest : N → N → N
  greatest x y = if num.at_most y x then x else y

  abbrev pub clamped : N → N
  clamped score = greatest (num.of_count 0) (least (num.of_count 1) score)

  abbrev pub bin_count : Option ℕ → ℕ
  bin_count bins = max 2 (get_or bins 10)

  abbrev pub bin_index : ℕ → N → ℕ
  bin_index count score =
      min (count - 1) (num.floor (num.times (clamped score) (num.of_count count)))

  abbrev pub empty_bin : ℕ → ℕ → Bin N
  empty_bin count index = record {
    index = index;
    min_score = num.over (num.of_count index) (num.of_count count);
    max_score = num.over (num.of_count (index + 1)) (num.of_count count);
    count = 0;
    mean_score = num.of_count 0;
    empirical_rate = num.of_count 0;
    absolute_gap = num.of_count 0;
  }

  unfoldable pub empty_bins : ℕ → ℕ → ℕ → List (Bin N)
  empty_bins count index zero = []
  empty_bins count index (suc n) = empty_bin count index ∷ empty_bins count (suc index) n

  abbrev pub add_to_bin : N → N → Bin N → Bin N
  add_to_bin score label b = record b {
    count = b.count + 1;
    mean_score = num.plus b.mean_score score;
    empirical_rate = num.plus b.empirical_rate label;
  }

  -- `if (score === null || label === null) continue`
  unfoldable pub add_numbers : ℕ → Tally N → Option N → Option N → Tally N
  add_numbers count t none label = t
  add_numbers count t (some score) none = t
  add_numbers count t (some score) (some label) = record {
    bins = update_at (bin_index count score) (add_to_bin (clamped score) label) t.bins;
    brier = num.plus t.brier (num.square (num.minus (clamped score) label));
  }

  unfoldable pub add_predictions : ℕ → Tally N → List (Prediction V) → Tally N
  unfolding add_numbers
  add_predictions count t [] = t
  add_predictions count t (p ∷ predictions) =
      add_predictions count (add_numbers count t (finite_number p.score) (finite_number p.label))
        predictions

  abbrev pub means_of : Bin N → Bin N
  means_of b =
      let mean = num.to_fixed (num.over b.mean_score (num.of_count b.count)) in
      let rate = num.to_fixed (num.over b.empirical_rate (num.of_count b.count)) in
      record b {
        mean_score = mean;
        empirical_rate = rate;
        absolute_gap = num.to_fixed (num.abs (num.minus mean rate));
      }

  -- `if (!bin.count) continue`
  abbrev pub closed : Bin N → Bin N
  closed b = if eqb b.count 0 then b else means_of b

  unfoldable pub error_from : ℕ → N → List (Bin N) → N
  error_from total error [] = error
  error_from total error (b ∷ bins) =
      error_from total
        (if eqb b.count 0
          then error
          else num.plus error
              (num.times (num.over (num.of_count b.count) (num.of_count total)) b.absolute_gap))
        bins

  -- `GATES.maxCalibrationError`, which the model gates keep in thousandths.
  abbrev pub error_limit : N
  error_limit = num.over (num.of_count max_calibration_error) (num.of_count 1000)

  unfoldable pub compute_calibration_curve : List (Prediction V) → Option ℕ → Curve N
  unfolding empty_bins add_predictions error_from
  compute_calibration_curve predictions bins =
      let count = bin_count bins in
      let tally =
        add_predictions count (record { bins = empty_bins count 0 count; brier = num.of_count 0 })
          predictions in
      let total = sum_counts tally.bins in
      let done = map closed tally.bins in
      let error = error_from total (num.of_count 0) done in
      record {
        bins = done;
        total = total;
        expected_calibration_error = num.to_fixed error;
        brier_score =
            if eqb total 0
            then none
            else some (num.to_fixed (num.over tally.brier (num.of_count total)));
        passed = ltb 0 total && num.at_most error error_limit;
      }
