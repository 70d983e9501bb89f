-- ===== src/Prelude/Checks.antt =====
-- `[condition && message, …].filter(Boolean)`: the lists of failures that the gates of the program collect.
use Prim.Native.Nat.{ℕ}
use mathlib.Core.Path.{◌≡◌, refl}
use mathlib.Core.Bool.{Bool, true, false}
use mathlib.Core.List.{List, [], ◌∷◌}
use Prim.Native.String.{String}
use native.Mathlib.Omega.{arith}
use network_analytics_predic.Prelude.Tests.{if◌then◌else◌}
use network_analytics_predic.Prelude.Lists.{length, All}

-- The message of a condition that holds.
abbrev pub when : Bool → String → List String
when b message = if b then message ∷ [] else []

abbrev pub count_of : Bool → ℕ
count_of b = if b then 1 else 0

pub length-when : (b : Bool) (message : String) → length (when b message) ≡ count_of b
length-when true message = refl
length-when false message = refl

-- A condition that adds nothing does not hold.
pub not_counted : (b : Bool) → count_of b ≡ 0 → b ≡ false
not_counted true h = absurd (omega arith)
not_counted false h = refl

-- `[condition && message, …].filter(Boolean)`, or a series of `if (condition) reasons.push(message)`.
abbrev pub messages : List (Bool × String) → List String
messages [] = []
messages ((b, message) ∷ checks) = let rest = messages checks in if b then message ∷ rest else rest

-- Without a message, each of the conditions fails.
pub messages-none :
    (checks : List (Bool × String)) → length (messages checks) ≡ 0 → All (λ c. c.0 ≡ false) checks
messages-none [] h = tt
messages-none ((true, message) ∷ checks) h = absurd (omega (arith, h))
messages-none ((false, message) ∷ checks) h = (refl, messages-none checks h)

pub messages-none_of :
    (checks : List (Bool × String)) → All (λ c. c.0 ≡ false) checks → length (messages checks) ≡ 0
messages-none_of [] h = refl
messages-none_of ((b, message) ∷ checks) h = rw h.0 (messages-none_of checks h.1)
