-- ===== src/Checksum/Injective.antt =====
-- The checksum tells apart any two inputs that differ in one byte.
use gravital_sound.Common.{◌≢◌, ℕ, ◌*◌, ◌/◌, ◌%◌, ◌<◌, ◌≡◌, sym, ap, ◌∙◌, List, [], ◌∷◌, ◌++◌}
use gravital_sound.Common.{get_or, arith, bit_xor}
use gravital_sound.Common.Bits.{bit_xor_left_injective, bit_xor_right_injective}
use gravital_sound.Common.Bits.{zero-bit_xor}
use gravital_sound.Common.Shifts.{bit_xor-div, bit_xor-mod}
use gravital_sound.Wire.{IsBytes}
use gravital_sound.Checksum.{init, table, update_byte, update, crc16_ccitt_false}
use gravital_sound.Checksum.Table.{low_byte_injective}
use gravital_sound.Checksum.Reference.{index-lt, update_byte-lt, update-append}

abbrev index : ℕ → ℕ → ℕ
index crc byte = bit_xor (crc / 256 % 256) byte

abbrev entry : ℕ → ℕ → ℕ
entry crc byte = get_or table (index crc byte) 0

-- The low byte of the new register is that of the entry.
update_byte-mod : (crc byte : ℕ) → update_byte crc byte % 256 ≡ entry crc byte % 256
unfolding update_byte
update_byte-mod crc byte =
    bit_xor-mod 8 (crc * 256 % 65536) (entry crc byte)
    ∙ ap (λ t. bit_xor t (entry crc byte % 256)) no_low
    ∙ zero-bit_xor (entry crc byte % 256)
  where
    no_low : crc * 256 % 65536 % 256 ≡ 0
    no_low = omega arith

update_byte-div :
    (crc byte : ℕ) → update_byte crc byte / 256 ≡ bit_xor (crc % 256) (entry crc byte / 256)
unfolding update_byte
update_byte-div crc byte =
    bit_xor-div 8 (crc * 256 % 65536) (entry crc byte)
    ∙ ap (λ t. bit_xor t (entry crc byte / 256)) old_low
  where
    old_low : crc * 256 % 65536 / 256 ≡ crc % 256
    old_low = omega arith

index_injective :
    (c d x y : ℕ) → x < 256 → y < 256 → update_byte c x ≡ update_byte d y → index c x ≡ index d y
index_injective c d x y hx hy e =
    low_byte_injective (index c x) (index d y) (index-lt c x hx) (index-lt d y hy)
      (sym (update_byte-mod c x) ∙ ap (λ t. t % 256) e ∙ update_byte-mod d y)

update_byte_injective :
    (c d x : ℕ) → c < 65536 → d < 65536 → x < 256 → update_byte c x ≡ update_byte d x → c ≡ d
update_byte_injective c d x hc hd hx e = omega (arith, high_eq, low_eq)
  where
    same_index : index c x ≡ index d x
    same_index = index_injective c d x x hx hx e

    high_eq : c / 256 % 256 ≡ d / 256 % 256
    high_eq = bit_xor_left_injective (c / 256 % 256) (d / 256 % 256) x same_index

    low_eq : c % 256 ≡ d % 256
    low_eq = bit_xor_left_injective (c % 256) (d % 256) (entry c x / 256) (
        sym (update_byte-div c x)
        ∙ ap (λ t. t / 256) e
        ∙ update_byte-div d x
        ∙ ap (λ i. bit_xor (d % 256) (get_or table i 0 / 256)) (sym same_index))

-- The rest of the input cannot hide a difference of the register.
pub update_injective :
    (data_ : List ℕ) (c d : ℕ)
    → c < 65536
    → d < 65536
    → IsBytes data_
    → update c data_ ≡ update d data_
    → c ≡ d
unfolding update
update_injective [] c d hc hd b e = e
update_injective (x ∷ data_) c d hc hd b e = update_byte_injective c d x hc hd b.0 (
    update_injective data_ (update_byte c x) (update_byte d x) (update_byte-lt c x b.0)
      (update_byte-lt d x b.0) b.1 e)

pub crc16_injective :
    (pre post : List ℕ) (x y : ℕ)
    → IsBytes pre
    → IsBytes post
    → x < 256
    → y < 256
    → crc16_ccitt_false (pre ++ (x ∷ post)) ≡ crc16_ccitt_false (pre ++ (y ∷ post))
    → x ≡ y
unfolding crc16_ccitt_false
crc16_injective pre post x y hpre hpost hx hy e =
    bit_xor_right_injective x y (register / 256 % 256)
      (index_injective register register x y hx hy same_register)
  where
    register : ℕ
    register = update init pre

    same_register : update_byte register x ≡ update_byte register y
    same_register =
        update_injective post (update_byte register x) (update_byte register y)
          (update_byte-lt register x hx) (update_byte-lt register y hy) hpost
          (unfold update in
            sym (update-append pre (x ∷ post) init) ∙ e ∙ update-append pre (y ∷ post) init)

-- Changing one byte of an input, at any place, changes its checksum.
pub crc16_one_byte :
    (pre post : List ℕ) (x y : ℕ)
    → IsBytes pre
    → IsBytes post
    → x < 256
    → y < 256
    → x ≢ y
    → crc16_ccitt_false (pre ++ (x ∷ post)) ≢ crc16_ccitt_false (pre ++ (y ∷ post))
crc16_one_byte pre post x y hpre hpost hx hy differ e =
    differ (crc16_injective pre post x y hpre hpost hx hy e)
