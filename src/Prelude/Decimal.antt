-- ===== src/Prelude/Decimal.antt =====
-- The decimal text of a number, as template literals print it, and that it determines the number.
use Prim.Native.Nat.{ℕ, zero, suc, ◌+◌, ◌-◌, ◌*◌, ◌/◌, ◌%◌, ◌≤◌, ◌<◌}
use Prim.Native.Char.{Char, code}
use Prim.Native.String.{String, [], ◌∷◌}
use mathlib.Core.Path.{◌≡◌, refl, ap, sym, ◌∙◌}
use mathlib.Core.Logic.{inl, inr}
use native.Mathlib.Omega.{arith}
use network_analytics_predic.Prelude.Tests.{ltb, ltb→le, if◌then◌else◌, Bool-cases}

nth_char : String → ℕ → Char
nth_char [] _ = "0"
nth_char (c ∷ s) zero = c
nth_char (c ∷ s) (suc n) = nth_char s n

digit : ℕ → Char
unfolding nth_char
digit d = nth_char "0123456789" d

-- On fuel: each round drops a digit, so `n` rounds are enough for `n`.
digits : ℕ → ℕ → String → String
digits zero n acc = digit n ∷ acc
digits (suc fuel) n acc =
    let rest = digits fuel (n / 10) (digit (n % 10) ∷ acc) in
    if ltb n 10 then digit n ∷ acc else rest

unfoldable pub show : ℕ → String
unfolding digit digits
show n = digits n n ""

-- The number that a text of digits denotes, after a prefix that denotes `v`.
value : String → ℕ → ℕ
value [] v = v
value (c ∷ s) v = value s (v * 10 + (code c - 48))

code-digit : (d : ℕ) → d < 10 → code (digit d) - 48 ≡ d
unfolding digit
code-digit zero h = refl
code-digit (suc zero) h = refl
code-digit (suc (suc zero)) h = refl
code-digit (suc (suc (suc zero))) h = refl
code-digit (suc (suc (suc (suc zero)))) h = refl
code-digit (suc (suc (suc (suc (suc zero))))) h = refl
code-digit (suc (suc (suc (suc (suc (suc zero)))))) h = refl
code-digit (suc (suc (suc (suc (suc (suc (suc zero))))))) h = refl
code-digit (suc (suc (suc (suc (suc (suc (suc (suc zero)))))))) h = refl
code-digit (suc (suc (suc (suc (suc (suc (suc (suc (suc zero))))))))) h = refl
code-digit (suc (suc (suc (suc (suc (suc (suc (suc (suc (suc n)))))))))) h = absurd (omega arith)

value-digits : (fuel n : ℕ) (acc : String) → n ≤ fuel → value (digits fuel n acc) 0 ≡ value acc n
unfolding digits value
value-digits zero n acc h = ap (value acc) (omega (arith, code-digit n (omega arith)))
value-digits (suc fuel) n acc h = elim (Bool-cases (ltb n 10)) [
  | inl e ↦ rw e (ap (value acc) (ground (arith, code-digit n)))
  | inr e ↦ rw e (
      value-digits fuel (n / 10) (digit (n % 10) ∷ acc) (omega (arith, ltb→le n 10 e))
      ∙ ap (value acc) (omega (arith, code-digit (n % 10) (omega arith))))
]

value-show : (n : ℕ) → value (show n) 0 ≡ n
unfolding value
value-show n = unfold show in value-digits n n "" (omega arith)

-- Two numbers with the same decimal text are equal.
pub show_inj : (m n : ℕ) → show m ≡ show n → m ≡ n
show_inj m n h = sym (value-show m) ∙ ap (λ s. value s 0) h ∙ value-show n

show_test : show 12045 ≡ "12045"
unfolding show
show_test = refl
