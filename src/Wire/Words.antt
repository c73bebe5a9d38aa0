-- ===== src/Wire/Words.antt =====
-- Big-endian bytes of an unsigned word of `n` bytes, as `to_be_bytes` and `from_be_bytes` of core.
use native.Mathlib.Nat.{mod-lt, mod-eq_of_lt, add-mul-mod_self_left, div-add-mod, one-le-pow}
use native.Mathlib.Nat.{pow-suc, mul-add-div, div-eq_of_lt}
use gravital_sound.Common.{ℕ, zero, suc, ◌+◌, ◌*◌, ◌/◌, ◌%◌, ◌^◌, ◌<◌, ◌≡◌, refl, sym, ap, ap₂, ◌∙◌}
use gravital_sound.Common.{List, [], ◌∷◌, length, All, arith}

abbrev pub IsBytes : List ℕ → Type 0
IsBytes bs = All (λ b. b < 256) bs

unfoldable pub to_be_bytes : ℕ → ℕ → List ℕ
to_be_bytes zero x = []
to_be_bytes (suc n) x = (x / 256 ^ n % 256) ∷ to_be_bytes n x

unfoldable pub from_be_bytes : List ℕ → ℕ
from_be_bytes [] = 0
from_be_bytes (b ∷ bs) = b * 256 ^ length bs + from_be_bytes bs

pub length-to_be_bytes : (n x : ℕ) → length (to_be_bytes n x) ≡ n
unfolding to_be_bytes
length-to_be_bytes zero x = refl
length-to_be_bytes (suc n) x = ap suc (length-to_be_bytes n x)

pub to_be_bytes-IsBytes : (n x : ℕ) → IsBytes (to_be_bytes n x)
unfolding to_be_bytes
to_be_bytes-IsBytes zero x = tt
to_be_bytes-IsBytes (suc n) x = (omega arith, to_be_bytes-IsBytes n x)

pow-pos : (n : ℕ) → 0 < 256 ^ n
pow-pos n = one-le-pow n 256 (omega arith)

-- A remainder by a product, digit by digit.
mod-mul_split : (d m a : ℕ) → 0 < d → 0 < m → a % (d * m) ≡ a / d % m * d + a % d
mod-mul_split d m a hd hm =
    ap (λ t. t % (d * m)) parts
    ∙ add-mul-mod_self_left (a / d % m * d + a % d) (d * m) (a / d / m)
    ∙ mod-eq_of_lt {n = a / d % m * d + a % d} {m = d * m} low
  where
    quotient : d * (m * (a / d / m) + a / d % m) ≡ d * (a / d)
    quotient = ap (λ (t : ℕ). d * t) (div-add-mod (a / d) m)

    parts : a ≡ a / d % m * d + a % d + d * m * (a / d / m)
    parts = omega (arith, div-add-mod a d, quotient)

    low : a / d % m * d + a % d < d * m
    low = grind (arith, mod-lt (a / d) hm, mod-lt a hd)

pub from_be_bytes-to_be_bytes_mod : (n x : ℕ) → from_be_bytes (to_be_bytes n x) ≡ x % 256 ^ n
unfolding from_be_bytes to_be_bytes
from_be_bytes-to_be_bytes_mod zero x = omega arith
from_be_bytes-to_be_bytes_mod (suc n) x = omega (
  arith,
  ap (λ k. x / 256 ^ n % 256 * 256 ^ k) (length-to_be_bytes n x),
  from_be_bytes-to_be_bytes_mod n x,
  ap (λ t. x % t) (pow-suc 256 n),
  mod-mul_split (256 ^ n) 256 x (pow-pos n) (omega arith),
)

-- Decoding the bytes of a word gives the word.
pub from_be_bytes-to_be_bytes : (n x : ℕ) → x < 256 ^ n → from_be_bytes (to_be_bytes n x) ≡ x
from_be_bytes-to_be_bytes n x h = from_be_bytes-to_be_bytes_mod n x ∙ mod-eq_of_lt h

pub from_be_bytes-lt : (bs : List ℕ) → IsBytes bs → from_be_bytes bs < 256 ^ length bs
unfolding from_be_bytes
from_be_bytes-lt [] h = omega arith
from_be_bytes-lt (b ∷ bs) h =
    grind (arith, pow-suc 256 (length bs), from_be_bytes-lt bs h.1, pow-pos (length bs))

-- Digits above the width of the result do not count.
to_be_bytes-mul_add : (n q r : ℕ) → to_be_bytes n (256 ^ n * q + r) ≡ to_be_bytes n r
unfolding to_be_bytes
to_be_bytes-mul_add zero q r = refl
to_be_bytes-mul_add (suc n) q r =
    ap₂ ◌∷◌ head (ap (to_be_bytes n) shifted ∙ to_be_bytes-mul_add n (256 * q) r)
  where
    shifted : 256 ^ suc n * q + r ≡ 256 ^ n * (256 * q) + r
    shifted = omega (arith, ap (λ (t : ℕ). t * q) (pow-suc 256 n))

    head : (256 ^ suc n * q + r) / 256 ^ n % 256 ≡ r / 256 ^ n % 256
    head =
        omega
          (arith, ap (λ t. t / 256 ^ n) shifted, mul-add-div {m = 256 ^ n} (pow-pos n) (256 * q) r)

-- Encoding a decoded word gives its bytes.
pub to_be_bytes-from_be_bytes :
    (bs : List ℕ) → IsBytes bs → to_be_bytes (length bs) (from_be_bytes bs) ≡ bs
unfolding to_be_bytes from_be_bytes
to_be_bytes-from_be_bytes [] h = refl
to_be_bytes-from_be_bytes (b ∷ bs) h = ap₂ ◌∷◌ head (tail ∙ to_be_bytes-from_be_bytes bs h.1)
  where
    swapped : b * 256 ^ length bs + from_be_bytes bs ≡ 256 ^ length bs * b + from_be_bytes bs
    swapped = omega arith

    head : (b * 256 ^ length bs + from_be_bytes bs) / 256 ^ length bs % 256 ≡ b
    head = omega (
      arith,
      h.0,
      ap (λ t. t / 256 ^ length bs) swapped,
      mul-add-div {m = 256 ^ length bs} (pow-pos (length bs)) b (from_be_bytes bs),
      div-eq_of_lt (from_be_bytes-lt bs h.1),
    )

    tail :
        to_be_bytes (length bs) (b * 256 ^ length bs + from_be_bytes bs)
        ≡ to_be_bytes (length bs) (from_be_bytes bs)
    tail =
        ap (to_be_bytes (length bs)) swapped ∙ to_be_bytes-mul_add (length bs) b (from_be_bytes bs)

-- Two words of `n` bytes with the same bytes are equal.
pub to_be_bytes_injective :
    (n x y : ℕ) → x < 256 ^ n → y < 256 ^ n → to_be_bytes n x ≡ to_be_bytes n y → x ≡ y
to_be_bytes_injective n x y hx hy e =
    sym (from_be_bytes-to_be_bytes n x hx) ∙ ap from_be_bytes e ∙ from_be_bytes-to_be_bytes n y hy
