-- ===== src/Checksum/Linear.antt =====
-- The shift register is linear over `^`.
use gravital_sound.Common.{ℕ, zero, suc, ◌+◌, ◌*◌, ◌/◌, ◌%◌, ◌<◌, ◌≡◌, refl, sym, ap, ap₂, ◌∙◌}
use gravital_sound.Common.{arith, bit_and, bit_xor, ◌⊎◌, inl, inr}
use gravital_sound.Common.Bits.{bit_xor_comm, bit_xor_assoc, bit_xor_cancel, bit_xor-lt}
use gravital_sound.Common.Shifts.{bit_and-pow, bit_xor-div, bit_xor-mod, bit_xor-mul}
use gravital_sound.Checksum.{poly, shift_bit, shift_bits}

top_bit : (crc : ℕ) → bit_and crc 0x8000 ≡ crc / 32768 % 2 * 32768
top_bit crc = bit_and-pow 15 crc

shift_bit-low : (crc : ℕ) → crc < 32768 → shift_bit crc ≡ crc * 2 % 65536
unfolding shift_bit
shift_bit-low crc h = ground (arith, top_bit crc)

shift_bit-high :
    (crc : ℕ) → crc < 65536 → 32768 < crc + 1 → shift_bit crc ≡ bit_xor (crc * 2 % 65536) poly
unfolding shift_bit
shift_bit-high crc h k = ground (arith, top_bit crc)

shift_bit-lt : (crc : ℕ) → crc < 65536 → shift_bit crc < 65536
unfolding shift_bit
shift_bit-lt crc h = ground (arith, bit_xor-lt 16 (crc * 2 % 65536) poly)

-- A register with its top bit clear or set.
top_cases : (a : ℕ) → (a < 32768) ⊎ (32768 < a + 1)
top_cases a = ground arith

high : (a b : ℕ) → bit_xor a b / 32768 ≡ bit_xor (a / 32768) (b / 32768)
high a b = bit_xor-div 15 a b

abbrev shifted : ℕ → ℕ
shifted a = a * 2 % 65536

shifted-xor : (a b : ℕ) → shifted (bit_xor a b) ≡ bit_xor (shifted a) (shifted b)
shifted-xor a b = ap (λ t. t % 65536) (sym (bit_xor-mul 1 a b)) ∙ bit_xor-mod 16 (a * 2) (b * 2)

xor-low : (a b : ℕ) → a < 32768 → b < 32768 → bit_xor a b < 32768
xor-low a b p q = bit_xor-lt 15 a b p q

xor-high : (a b : ℕ) → a < 32768 → 32768 < b + 1 → b < 65536 → 32768 < bit_xor a b + 1
xor-high a b p q r = omega (arith, high a b, ap₂ bit_xor zero_a one_b)
  where
    zero_a : a / 32768 ≡ 0
    zero_a = omega arith

    one_b : b / 32768 ≡ 1
    one_b = omega arith

xor-both_high :
    (a b : ℕ) → 32768 < a + 1 → a < 65536 → 32768 < b + 1 → b < 65536 → bit_xor a b < 32768
xor-both_high a b p ha q hb = omega (arith, high a b, ap₂ bit_xor one_a one_b)
  where
    one_a : a / 32768 ≡ 1
    one_a = omega arith

    one_b : b / 32768 ≡ 1
    one_b = omega arith

pub xor_swap : (x y z : ℕ) → bit_xor (bit_xor x z) y ≡ bit_xor (bit_xor x y) z
xor_swap x y z = bit_xor_assoc x z y ∙ ap (bit_xor x) (bit_xor_comm z y) ∙ sym (bit_xor_assoc x y z)

xor_both : (x y z : ℕ) → bit_xor (bit_xor x z) (bit_xor y z) ≡ bit_xor x y
xor_both x y z =
    sym (bit_xor_assoc (bit_xor x z) y z)
    ∙ ap (λ t. bit_xor t z) (xor_swap x y z)
    ∙ bit_xor_cancel (bit_xor x y) z

-- One shift is linear over `^`.
shift_bit-xor :
    (a b : ℕ)
    → a < 65536
    → b < 65536
    → shift_bit (bit_xor a b) ≡ bit_xor (shift_bit a) (shift_bit b)
shift_bit-xor a b ha hb = cases (top_cases a) (top_cases b)
  where
    whole : bit_xor a b < 65536
    whole = bit_xor-lt 16 a b ha hb

    low_high :
        (x y : ℕ)
        → x < 32768
        → 32768 < y + 1
        → y < 65536
        → shift_bit (bit_xor x y) ≡ bit_xor (shift_bit x) (shift_bit y)
    low_high x y p q hy =
        shift_bit-high (bit_xor x y) (bit_xor-lt 16 x y (omega arith) hy) (xor-high x y p q hy)
        ∙ ap (λ t. bit_xor t poly) (shifted-xor x y)
        ∙ bit_xor_assoc (shifted x) (shifted y) poly
        ∙ ap₂ bit_xor (sym (shift_bit-low x p)) (sym (shift_bit-high y hy q))

    cases :
        (a < 32768) ⊎ (32768 < a + 1)
        → (b < 32768) ⊎ (32768 < b + 1)
        → shift_bit (bit_xor a b) ≡ bit_xor (shift_bit a) (shift_bit b)
    cases (inl p) (inl q) =
        shift_bit-low (bit_xor a b) (xor-low a b p q)
        ∙ shifted-xor a b
        ∙ ap₂ bit_xor (sym (shift_bit-low a p)) (sym (shift_bit-low b q))
    cases (inl p) (inr q) = low_high a b p q hb
    cases (inr p) (inl q) =
        ap shift_bit (bit_xor_comm a b)
        ∙ low_high b a q p ha
        ∙ bit_xor_comm (shift_bit b) (shift_bit a)
    cases (inr p) (inr q) =
        shift_bit-low (bit_xor a b) (xor-both_high a b p ha q hb)
        ∙ shifted-xor a b
        ∙ sym (xor_both (shifted a) (shifted b) poly)
        ∙ ap₂ bit_xor (sym (shift_bit-high a ha p)) (sym (shift_bit-high b hb q))

pub shift_bits-xor :
    (n a b : ℕ)
    → a < 65536
    → b < 65536
    → shift_bits n (bit_xor a b) ≡ bit_xor (shift_bits n a) (shift_bits n b)
unfolding shift_bits
shift_bits-xor zero a b ha hb = refl
shift_bits-xor (suc n) a b ha hb =
    ap (shift_bits n) (shift_bit-xor a b ha hb)
    ∙ shift_bits-xor n (shift_bit a) (shift_bit b) (shift_bit-lt a ha) (shift_bit-lt b hb)
