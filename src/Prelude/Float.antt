-- ===== src/Prelude/Float.antt =====
-- Go's `float64` as a type with its operations. The model uses nothing of them but these names, so
-- the theorems hold for IEEE 754 and for any other arithmetic.
use mathlib.Core.Bool.{Bool}

pub record Float64 (F : Type 0) : Type 0 where
  pub zero_float : F
  pub one_float : F
  pub two_float : F
  -- 0.30
  pub default_radius : F
  pub add : F → F → F
  pub sub : F → F → F
  pub mul : F → F → F
  pub div : F → F → F
  -- `math.Atan2`
  pub atan2 : F → F → F
  -- the comparisons `==` and `>`
  pub eqb : F → F → Bool
  pub gtb : F → F → Bool
