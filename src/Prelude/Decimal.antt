-- ===== src/Prelude/Decimal.antt =====
-- Decimal numerals: what `fmt.Sprintf("%d", n)` prints for an `int`.
use Prim.Native.Nat.{ℕ, zero, suc, ◌+◌, ◌-◌, ◌*◌, ◌/◌, ◌%◌, ◌<◌, ◌^◌}
use Prim.Native.Char.{Char, code}
use Prim.Native.String.{String}
use mathlib.Core.Path.{◌≡◌, refl, ap, ◌∙◌, sym}
use mathlib.Core.Logic.{◌≢◌, inl, inr}
use native.Mathlib.Omega.{arith}
use rom_go_app.Prelude.Tests.{ltb, ltb→lt, if◌then◌else◌, ◌+++◌, Bool-cases}

digit : ℕ → Char
digit zero = "0"
digit (suc zero) = "1"
digit (suc (suc zero)) = "2"
digit (suc (suc (suc zero))) = "3"
digit (suc (suc (suc (suc zero)))) = "4"
digit (suc (suc (suc (suc (suc zero))))) = "5"
digit (suc (suc (suc (suc (suc (suc zero)))))) = "6"
digit (suc (suc (suc (suc (suc (suc (suc zero))))))) = "7"
digit (suc (suc (suc (suc (suc (suc (suc (suc zero)))))))) = "8"
digit _ = "9"

-- The digits of `n` in front of `acc`; more fuel than `n` is enough.
digits_onto : ℕ → ℕ → String → String
digits_onto zero n acc = acc
digits_onto (suc f) n acc =
    let shown = String.◌∷◌ (digit (n % 10)) acc in
    let rest = digits_onto f (n / 10) shown in if ltb n 10 then shown else rest

unfoldable pub itoa : ℕ → String
unfolding digits_onto digit
itoa n = digits_onto (suc n) n ""

-- A 64-bit `int` is kept as its bit pattern, a number below 2 ^ 64.
abbrev pub int_mod : ℕ
int_mod = 2 ^ 64

abbrev pub int_half : ℕ
int_half = 2 ^ 63

-- `%d` of the `int` with that bit pattern.
unfoldable pub sprint_int : ℕ → String
unfolding itoa
sprint_int n = if ltb n int_half then itoa n else "-" +++ itoa (int_mod - n)

value : ℕ → String → ℕ
value a String.[] = a
value a (String.◌∷◌ c s) = value (a * 10 + (code c - 48)) s

code-digit : (d : ℕ) → d < 10 → code (digit d) - 48 ≡ d
unfolding digit
code-digit zero h = refl
code-digit (suc zero) h = refl
code-digit (suc (suc zero)) h = refl
code-digit (suc (suc (suc zero))) h = refl
code-digit (suc (suc (suc (suc zero)))) h = refl
code-digit (suc (suc (suc (suc (suc zero))))) h = refl
code-digit (suc (suc (suc (suc (suc (suc zero)))))) h = refl
code-digit (suc (suc (suc (suc (suc (suc (suc zero))))))) h = refl
code-digit (suc (suc (suc (suc (suc (suc (suc (suc zero)))))))) h = refl
code-digit (suc (suc (suc (suc (suc (suc (suc (suc (suc zero))))))))) h = refl
code-digit (suc (suc (suc (suc (suc (suc (suc (suc (suc (suc d)))))))))) h = absurd (omega arith)

value-digits_onto : (f n : ℕ) (acc : String) → n < f → value 0 (digits_onto f n acc) ≡ value n acc
unfolding digits_onto value
value-digits_onto zero n acc h = absurd (omega arith)
value-digits_onto (suc f) n acc h = elim (Bool-cases (ltb n 10)) [
  | inl small ↦
      rw small (
        ap (λ k. value k acc) (omega (arith, ltb→lt n 10 small, code-digit (n % 10) (omega arith))))
  | inr large ↦ rw large (
      value-digits_onto f (n / 10) (String.◌∷◌ (digit (n % 10)) acc) (ground arith)
      ∙ ap (λ k. value k acc) (omega (arith, code-digit (n % 10) (omega arith))))
]

pub itoa_injective : (m n : ℕ) → itoa m ≡ itoa n → m ≡ n
unfolding itoa value
itoa_injective m n h =
    sym (value-digits_onto (suc m) m "" (omega arith))
    ∙ ap (value 0) h
    ∙ value-digits_onto (suc n) n "" (omega arith)

digits_onto-ne-nil : (f n : ℕ) (acc : String) → acc ≢ "" → digits_onto f n acc ≢ ""
unfolding digits_onto
digits_onto-ne-nil zero n acc h = h
digits_onto-ne-nil (suc f) n acc h = elim (Bool-cases (ltb n 10)) [
  | inl small ↦ rw small (λ e. cc e)
  | inr large ↦ rw large (digits_onto-ne-nil f (n / 10) _ (λ e. cc e))
]

pub itoa-ne-nil : (n : ℕ) → itoa n ≢ ""
unfolding itoa digits_onto
itoa-ne-nil n = elim (Bool-cases (ltb n 10)) [
  | inl small ↦ rw small (λ e. cc e)
  | inr large ↦ rw large (digits_onto-ne-nil n (n / 10) _ (λ e. cc e))
]

run42 : sprint_int 9042 ≡ "9042"
unfolding sprint_int
run42 = refl
