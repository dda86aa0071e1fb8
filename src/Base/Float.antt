-- ===== src/Base/Float.antt =====
-- Go's float64, of which the program uses the operations below. They are a parameter of every
-- definition that computes with floats; `lt` is false where an operand is not a number.
use Prim.Native.Nat.{ℕ}
use mathlib.Core.Path.{◌≡◌}
use mathlib.Core.Bool.{Bool}
use mechmind.Base.Tests.{ltb}
use mechmind.Base.Int.{ℤ}

pub record Floats : Type 1 where
  pub F : Type 0
  -- `dec m k` is the literal of value m / 10^k.
  pub dec : ℕ → ℕ → F
  -- The conversion of an int.
  pub of_int : ℤ → F
  pub neg : F → F
  pub add : F → F → F
  pub sub : F → F → F
  pub mul : F → F → F
  pub div : F → F → F
  pub abs : F → F
  pub max : F → F → F
  pub lt : F → F → Bool
  -- The conversion to int, towards zero.
  pub trunc : F → ℤ
  -- Literals compare as the numbers that they spell, here whole numbers.
  pub lt-dec : (m n : ℕ) → lt (dec m 0) (dec n 0) ≡ ltb m n
