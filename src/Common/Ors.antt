-- ===== src/Common/Ors.antt =====
-- Lemmas on `bit_or`, and a bound on `bit_and`.
use Prim.Native.Nat.{
  ℕ, zero, suc, ◌+◌, ◌*◌, ◌/◌, ◌%◌, ◌≤◌, max, bit_or, bit_or-bitwise, bit_and, bit_and-bitwise,
}
use mathlib.Core.Path.{◌≡◌, refl, sym, ap, ◌∙◌}
use native.Mathlib.Omega.{arith}
use gravital_sound.Common.Bits.{lowest_digit, bit_and_digit}

pub bit_or_digit : (x y : ℕ) → bit_or x y ≡ max (x % 2) (y % 2) + 2 * bit_or (x / 2) (y / 2)
bit_or_digit zero y = simp bit_or-bitwise (omega arith)
bit_or_digit (suc x) y = simp bit_or-bitwise (omega (arith, lowest_digit (λ t. t) max x y))

zero-bit_or : (y : ℕ) → bit_or 0 y ≡ y
zero-bit_or y = bit_or-bitwise 0 y

-- A disjunction is zero exactly if both sides are.
or_zero_fuel : (n x y : ℕ) → x ≤ n → bit_or x y ≡ 0 → (x ≡ 0) × (y ≡ 0)
or_zero_fuel zero zero y h e = (refl, sym (zero-bit_or y) ∙ e)
or_zero_fuel zero (suc x) y h e = absurd (omega arith)
or_zero_fuel (suc n) zero y h e = (refl, sym (zero-bit_or y) ∙ e)
or_zero_fuel (suc n) (suc x) y h e =
    let halves =
      or_zero_fuel n (suc x / 2) (y / 2) (omega arith) (omega (arith, bit_or_digit (suc x) y)) in
    omega (arith, bit_or_digit (suc x) y, halves)

pub bit_or-zero : (x y : ℕ) → bit_or x y ≡ 0 → (x ≡ 0) × (y ≡ 0)
bit_or-zero x y e = or_zero_fuel x x y (omega arith) e

zero_right_fuel : (n x : ℕ) → x ≤ n → bit_or x 0 ≡ x
zero_right_fuel zero zero h = refl
zero_right_fuel zero (suc x) h = absurd (omega arith)
zero_right_fuel (suc n) x h =
    omega (arith, bit_or_digit x 0, zero_right_fuel n (x / 2) (omega arith))

-- The lowest bit goes in where it was free.
pub bit_or_one : (x : ℕ) → bit_or (2 * x) 1 ≡ 2 * x + 1
bit_or_one x = omega (
  arith,
  bit_or_digit (2 * x) 1,
  ap (λ t. bit_or t 0) {x = 2 * x / 2} {y = x} (omega arith),
  zero_right_fuel x x (omega arith),
)

and_le_fuel : (n x y : ℕ) → x ≤ n → bit_and x y ≤ x
and_le_fuel zero zero y h = omega (arith, bit_and_digit 0 y, bit_and-bitwise 0 y)
and_le_fuel zero (suc x) y h = absurd (omega arith)
and_le_fuel (suc n) zero y h = omega (arith, bit_and-bitwise 0 y)
and_le_fuel (suc n) (suc x) y h =
    omega (arith, bit_and_digit (suc x) y, and_le_fuel n (suc x / 2) (y / 2) (omega arith))

pub bit_and-le : (x y : ℕ) → bit_and x y ≤ x
bit_and-le x y = and_le_fuel x x y (omega arith)
