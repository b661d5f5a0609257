-- ===== src/Common/Float.antt =====
-- Go's float64 and the functions of package math that the program calls: a parameter, since
-- neither is code of the repository.
use Prim.Native.Nat.{ℕ, ◌-◌, ◌*◌, ◌^◌, ◌≤◌, ◌<◌}
use mathlib.Core.Path.{◌≡◌}
use mathlib.Core.Bool.{Bool}
use entropy_tdc_gateway.Common.Tests.{ltb, leb, if◌then◌else◌}

pub record Float64 : Type 1 where
  pub F : Type 0
  -- `float64(n)` of a number that is not negative, and the constant n/d as the compiler rounds it
  pub of_int : ℕ → F
  pub literal : ℕ → ℕ → F
  pub add : F → F → F
  pub sub : F → F → F
  pub mul : F → F → F
  pub div : F → F → F
  pub neg : F → F
  pub le : F → F → Bool
  pub lt : F → F → Bool
  pub abs : F → F
  pub log2 : F → F
  pub sqrt : F → F
  pub erfc : F → F
  pub square : F → F

-- |a - b|
abbrev pub dist : ℕ → ℕ → ℕ
dist a b = if leb a b then b - a else a - b

-- What the quick tests rely on. Integers below 2^40 are exact in float64, so are their halves (of
-- even ones) and distances; and the rounded quotient of two such integers compares with a rounded
-- fraction of [0, 1] with denominator at most 100 as the exact values do: unequal ones are at least
-- 1/(100 * 2^40) apart, which is more than the rounding, and rounding keeps the order.
pub record IsIeee (fl : Float64) : Type 0 where
  pub literal_one : fl.literal 1 1 ≡ fl.of_int 1
  pub half_exact : (k : ℕ) → k < 2 ^ 40 → fl.div (fl.of_int (2 * k)) (fl.of_int 2) ≡ fl.of_int k
  pub dist_exact :
      (a b : ℕ)
      → a < 2 ^ 40
      → b < 2 ^ 40
      → fl.abs (fl.sub (fl.of_int a) (fl.of_int b)) ≡ fl.of_int (dist a b)
  pub quotient_ge :
      (a b n d : ℕ)
      → a < 2 ^ 40
      → b < 2 ^ 40
      → 0 < b
      → n ≤ d
      → d ≤ 100
      → 0 < d
      → fl.le (fl.literal n d) (fl.div (fl.of_int a) (fl.of_int b)) ≡ leb (n * b) (a * d)
  pub quotient_le :
      (a b n d : ℕ)
      → a < 2 ^ 40
      → b < 2 ^ 40
      → 0 < b
      → n ≤ d
      → d ≤ 100
      → 0 < d
      → fl.le (fl.div (fl.of_int a) (fl.of_int b)) (fl.literal n d) ≡ leb (a * d) (n * b)
  pub quotient_lt :
      (a b n d : ℕ)
      → a < 2 ^ 40
      → b < 2 ^ 40
      → 0 < b
      → n ≤ d
      → d ≤ 100
      → 0 < d
      → fl.lt (fl.div (fl.of_int a) (fl.of_int b)) (fl.literal n d) ≡ ltb (a * d) (n * b)
