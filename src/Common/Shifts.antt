-- ===== src/Common/Shifts.antt =====
-- Shifts and single bits against `^` and `&`, at every width.
use native.Mathlib.Nat.{pow-suc, one-le-pow, div-div-eq-div-mul, div-add-mod', mul-mod_left}
use native.Mathlib.Nat.{mod-eq_of_lt, mul-div_cancel, div-eq_of_lt}
use Prim.Native.Nat.{ℕ, zero, suc, ◌+◌, ◌*◌, ◌/◌, ◌%◌, ◌^◌, ◌<◌, bit_and, bit_xor}
use mathlib.Core.Path.{◌≡◌, sym, ap, ap₂, ◌∙◌}
use native.Mathlib.Omega.{arith}
use gravital_sound.Common.Bits.{bit_xor_step, bit_and_digit, bit_and-zero, mod_split}
use gravital_sound.Common.Bits.{zero-bit_xor, bit_xor-zero}

div-pow-suc : (k a : ℕ) → a / 2 ^ suc k ≡ a / 2 / 2 ^ k
div-pow-suc k a = ap (λ t. a / t) doubled ∙ sym (div-div-eq-div-mul a 2 (2 ^ k))
  where
    doubled : 2 ^ suc k ≡ 2 * 2 ^ k
    doubled = omega (arith, pow-suc 2 k)

mod-pow-suc : (k a : ℕ) → a % 2 ^ suc k ≡ a / 2 % 2 ^ k * 2 + a % 2
mod-pow-suc k a = ap (λ t. a % t) doubled ∙ mod_split (2 ^ k) a (omega (arith, one-le-pow k 2))
  where
    doubled : 2 ^ suc k ≡ 2 * 2 ^ k
    doubled = omega (arith, pow-suc 2 k)

-- A single bit under `&`.
pub bit_and-pow : (k a : ℕ) → bit_and a (2 ^ k) ≡ a / 2 ^ k % 2 * 2 ^ k
bit_and-pow zero a = omega (arith, bit_and_digit a 1, bit_and-zero (a / 2))
bit_and-pow (suc k) a = omega (
  arith,
  bit_and_digit a (2 ^ suc k),
  pow-suc 2 k,
  ap (λ t. bit_and (a / 2) t) half,
  bit_and-pow k (a / 2),
  ap (λ t. t % 2 * 2 ^ suc k) (div-pow-suc k a),
  ap (λ t. a / 2 / 2 ^ k % 2 * t) (pow-suc 2 k),
)
  where
    half : 2 ^ suc k / 2 ≡ 2 ^ k
    half = omega (arith, pow-suc 2 k)

pub bit_xor-div : (k a b : ℕ) → bit_xor a b / 2 ^ k ≡ bit_xor (a / 2 ^ k) (b / 2 ^ k)
bit_xor-div zero a b = omega (arith, ap₂ bit_xor one_a one_b)
  where
    one_a : a / 2 ^ 0 ≡ a
    one_a = omega arith

    one_b : b / 2 ^ 0 ≡ b
    one_b = omega arith
bit_xor-div (suc k) a b =
    div-pow-suc k (bit_xor a b)
    ∙ ap (λ t. t / 2 ^ k) half
    ∙ bit_xor-div k (a / 2) (b / 2)
    ∙ ap₂ bit_xor (sym (div-pow-suc k a)) (sym (div-pow-suc k b))
  where
    half : bit_xor a b / 2 ≡ bit_xor (a / 2) (b / 2)
    half = omega (arith, bit_xor_step a b)

pub bit_xor-mod : (k a b : ℕ) → bit_xor a b % 2 ^ k ≡ bit_xor (a % 2 ^ k) (b % 2 ^ k)
bit_xor-mod zero a b = omega (arith, ap₂ bit_xor zero_a zero_b)
  where
    zero_a : a % 2 ^ 0 ≡ 0
    zero_a = omega arith

    zero_b : b % 2 ^ 0 ≡ 0
    zero_b = omega arith
bit_xor-mod (suc k) a b = omega (
  arith,
  mod-pow-suc k (bit_xor a b),
  ap (λ t. t % 2 ^ k) half,
  bit_xor_step a b,
  bit_xor-mod k (a / 2) (b / 2),
  ap₂ bit_xor (mod-pow-suc k a) (mod-pow-suc k b),
  bit_xor_step (a / 2 % 2 ^ k * 2 + a % 2) (b / 2 % 2 ^ k * 2 + b % 2),
  ap₂ bit_xor back_a back_b,
)
  where
    half : bit_xor a b / 2 ≡ bit_xor (a / 2) (b / 2)
    half = omega (arith, bit_xor_step a b)

    back_a : (a / 2 % 2 ^ k * 2 + a % 2) / 2 ≡ a / 2 % 2 ^ k
    back_a = omega arith

    back_b : (b / 2 % 2 ^ k * 2 + b % 2) / 2 ≡ b / 2 % 2 ^ k
    back_b = omega arith

pub bit_xor-mul : (k a b : ℕ) → bit_xor (a * 2 ^ k) (b * 2 ^ k) ≡ bit_xor a b * 2 ^ k
bit_xor-mul zero a b = omega (arith, ap₂ bit_xor one_a one_b)
  where
    one_a : a * 2 ^ 0 ≡ a
    one_a = omega arith

    one_b : b * 2 ^ 0 ≡ b
    one_b = omega arith
bit_xor-mul (suc k) a b = omega (
  arith,
  bit_xor_step (a * 2 ^ suc k) (b * 2 ^ suc k),
  double a,
  double b,
  double (bit_xor a b),
  ap₂ bit_xor (half a) (half b),
  bit_xor-mul k a b,
)
  where
    double : (x : ℕ) → x * 2 ^ suc k ≡ 2 * (x * 2 ^ k)
    double x = omega (arith, ap (λ (t : ℕ). x * t) (pow-suc 2 k))

    half : (x : ℕ) → x * 2 ^ suc k / 2 ≡ x * 2 ^ k
    half x = omega (arith, double x)

-- `^` of a high field and a low field is their sum.
pub bit_xor-fields : (k q r : ℕ) → r < 2 ^ k → bit_xor (q * 2 ^ k) r ≡ q * 2 ^ k + r
bit_xor-fields k q r h = omega (
  arith,
  div-add-mod' (bit_xor (q * 2 ^ k) r) (2 ^ k),
  ap (λ t. t * 2 ^ k) top,
  bit_xor-mod k (q * 2 ^ k) r,
  ap₂ bit_xor (mul-mod_left q (2 ^ k)) (mod-eq_of_lt h),
  zero-bit_xor r,
)
  where
    top : bit_xor (q * 2 ^ k) r / 2 ^ k ≡ q
    top =
        bit_xor-div k (q * 2 ^ k) r
        ∙ ap₂ bit_xor (mul-div_cancel q {n = 2 ^ k} (one-le-pow k 2 (omega arith))) (div-eq_of_lt h)
        ∙ bit_xor-zero q
