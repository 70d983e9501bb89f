-- ===== src/Gates/Double.antt =====
-- The floating-point numbers that the gates add: a decimal with three digits as its nearest double, and the sum of two
-- doubles rounded to the nearest one, ties to even. A number here counts units of 2 ^ -62. Every double that is not
-- zero and not below a thousandth is a whole number of them.
use Prim.Native.Nat.{◌^◌}
use network_analytics_predic.Prelude.{
  ltb→le, arith, inr, ltb→lt, inl, Bool-cases, ◌≤◌, ◌<◌, ◌⊎◌, refl, zero, ◌&&◌, eqb, ◌||◌,
  if◌then◌else◌, true, ◌%◌, suc, ◌/◌, ◌≡◌, ltb, ℕ, ◌*◌, ◌+◌,
}

abbrev unit : ℕ
unit = 2 ^ 62

-- The quotient of two numbers, rounded to the nearest whole number, ties to even.
unfoldable round_half_even : ℕ → ℕ → ℕ
round_half_even n d =
    let q = n / d in
    let twice = 2 * (n % d) in if ltb d twice || (eqb twice d && eqb (q % 2) 1) then q + 1 else q

-- The size of the last of 53 binary digits of a quotient, from a size on.
unfoldable last_digit : ℕ → ℕ → ℕ → ℕ → ℕ
last_digit zero size n d = size
last_digit (suc fuel) size n d =
    let later = last_digit fuel (2 * size) n d in if ltb n (2 ^ 53 * size * d) then size else later

-- A size after so many doublings.
abbrev doubled : ℕ → ℕ → ℕ
doubled zero size = size
doubled (suc fuel) size = doubled fuel (2 * size)

-- Where the quotient has at most 53 digits above the size that the fuel leads to, it has at most 53 above the size found.
last_digit-enough :
    (fuel size n d : ℕ)
    → n < 2 ^ 53 * doubled fuel size * d
    → n < 2 ^ 53 * last_digit fuel size n d * d
unfolding last_digit
last_digit-enough zero size n d h = h
last_digit-enough (suc fuel) size n d h =
    let later = last_digit-enough fuel (2 * size) n d h in
    elim (Bool-cases (ltb n (2 ^ 53 * size * d))) [
      | inl e ↦ rw e (ltb→lt _ _ e)
      | inr e ↦ rw e later
    ]

-- And the size found is the first one, or the quotient has 53 digits above it.
last_digit-first :
    (fuel size n d : ℕ)
    → (last_digit fuel size n d ≡ size) ⊎ (2 ^ 52 * last_digit fuel size n d * d ≤ n)
unfolding last_digit
last_digit-first zero size n d = inl refl
last_digit-first (suc fuel) size n d = elim (Bool-cases (ltb n (2 ^ 53 * size * d))) [
  | inl e ↦ rw e (inl refl)
  | inr e ↦ elim (last_digit-first fuel (2 * size) n d) [
    | inl same ↦ rw (e, same) (inr (omega (arith, ltb→le _ _ e)))
    | inr more ↦ rw e (inr more)
  ]
]

-- The double nearest to a quotient of units.
unfoldable double_of : ℕ → ℕ → ℕ
unfolding round_half_even last_digit
double_of n d = let size = last_digit 64 1 n d in round_half_even n (d * size) * size

-- The double that the source writes as a decimal of so many thousandths, and a sum of two doubles.
unfoldable pub thousandths : ℕ → ℕ
unfolding double_of
thousandths n = double_of (n * unit) 1000

unfoldable pub sum_of : ℕ → ℕ → ℕ
unfolding double_of
sum_of a b = double_of (a + b) 1

-- 0.65 + 0.05 is above 0.7, 0.69 + 0.05 is 0.74, and 0.1 + 0.2 is above 0.3.
double_test :
    (ltb (thousandths 700) (sum_of (thousandths 650) (thousandths 50)) ≡ true)
    × (sum_of (thousandths 690) (thousandths 50) ≡ thousandths 740)
    × (ltb (thousandths 300) (sum_of (thousandths 100) (thousandths 200)) ≡ true)
    × (thousandths 500 ≡ 2 ^ 61)
unfolding thousandths sum_of
double_test = (refl, refl, refl, refl)
