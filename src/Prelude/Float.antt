-- ===== src/Prelude/Float.antt =====
-- Go's `float64`. There is no floating point in the logic: the type and its operations are a
-- parameter, and what a theorem needs of IEEE 754 binary64 is a named field of `IsIeee`.
use Prim.Native.Nat.{ℕ, ◌+◌, ◌-◌, ◌≤◌}
use mathlib.Core.Path.{◌≡◌}
use mathlib.Core.Logic.{◌≢◌}
use mathlib.Core.Bool.{Bool, true, false}
use mathlib.Core.List.{List, [], ◌∷◌}
use mercury_relay.Prelude.Int.{ℤ}
use mercury_relay.Prelude.Tests.{ltb}
use mercury_relay.Prelude.Lists.{length}

pub record Float : Type 1 where
  pub F : Type 0
  -- The literal n / 10; every literal of the program has at most one decimal.
  pub tenths : ℕ → F
  pub add : F → F → F
  pub sub : F → F → F
  pub mul : F → F → F
  pub div : F → F → F
  -- `a < b`; `a > b` is `lt b a`.
  pub lt : F → F → Bool
  -- `float64(n)`
  pub of_int : ℤ → F
  -- `int(x)`, `int64(x)`
  pub trunc : F → ℤ

-- One step of a running sum of literals.
pub data Term : Type 0 where
  plus minus : ℕ → Term

-- The running sum from 1.0 in floating point, its last step first, and the same in exact tenths.
abbrev pub float_sum : (R : Float) → List Term → R.F
float_sum R [] = R.tenths 10
float_sum R (plus n ∷ ts) = R.add (float_sum R ts) (R.tenths n)
float_sum R (minus n ∷ ts) = R.sub (float_sum R ts) (R.tenths n)

abbrev pub exact_sum : List Term → ℕ
exact_sum [] = 10
exact_sum (plus n ∷ ts) = exact_sum ts + n
exact_sum (minus n ∷ ts) = exact_sum ts - n

-- Every intermediate value stays between 0.0 and 10.0.
abbrev pub InRange : List Term → Type 0
InRange [] = Unit
InRange (plus n ∷ ts) = (exact_sum ts + n ≤ 100) × InRange ts
InRange (minus n ∷ ts) = (n ≤ exact_sum ts) × InRange ts

pub record IsIeee (R : Float) : Type 0 where
  -- Comparisons of literals from 0.0 to 10.0 are those of the numbers that they stand for.
  pub lt-tenths : (m n : ℕ) → m ≤ 100 → n ≤ 100 → R.lt (R.tenths m) (R.tenths n) ≡ ltb m n
  -- `<` is transitive, on NaN and the infinities too.
  pub lt_trans : (x y z : R.F) → R.lt x y ≡ true → R.lt y z ≡ true → R.lt x z ≡ true
  -- Four roundings near 1.0 lose less than a tenth, so a sum compares with a literal as the exact
  -- sum does, unless the two are equal.
  pub lt-sum :
      (ts : List Term) (k : ℕ)
      → length ts ≤ 4
      → InRange ts
      → k ≤ 100
      → exact_sum ts ≢ k
      → R.lt (float_sum R ts) (R.tenths k) ≡ ltb (exact_sum ts) k
  -- In binary64 1.0 - 0.3 is 0.7 itself.
  pub lt-difference : R.lt (R.sub (R.tenths 10) (R.tenths 3)) (R.tenths 7) ≡ false
