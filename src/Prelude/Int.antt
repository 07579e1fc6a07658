-- ===== src/Prelude/Int.antt =====
-- Signed integers, and how two machine widths read their bit patterns.
use Prim.Native.Nat.{ℕ, ◌-◌}
use mathlib.Core.Bool.{Bool, true, false}
use rom_go_app.Prelude.Tests.{ltb, if◌then◌else◌}
use rom_go_app.Prelude.Decimal.{int_mod, int_half}

-- `negsuc n` is -(n + 1).
pub data ℤ : Type 0 where
  pos : ℕ → ℤ
  negsuc : ℕ → ℤ

-- The `int` with a bit pattern of 64 bits.
abbrev pub int_value : ℕ → ℤ
int_value v = if ltb v int_half then pos v else negsuc (int_mod - v - 1)

-- The `int8` with a bit pattern of 8 bits.
abbrev pub int8_value : ℕ → ℤ
int8_value b = if ltb b 128 then pos b else negsuc (255 - b)

-- The comparison `a > b` of two `int`s.
abbrev pub gt_int : ℕ → ℕ → Bool
gt_int a b = elim (int_value a) [
  | pos m ↦ elim (int_value b) [ pos n ↦ ltb n m | negsuc n ↦ true ]
  | negsuc m ↦ elim (int_value b) [ pos n ↦ false | negsuc n ↦ ltb m n ]
]
