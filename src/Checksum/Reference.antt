-- ===== src/Checksum/Reference.antt =====
-- The table loop computes the CRC that is defined bit by bit.
use gravital_sound.Common.{ℕ, ◌*◌, ◌/◌, ◌%◌, ◌<◌, ◌≡◌, refl, sym, ap, ap₂, ◌∙◌}
use gravital_sound.Common.{List, [], ◌∷◌, ◌++◌, arith, bit_xor}
use gravital_sound.Common.Bits.{bit_xor_comm, bit_xor-lt}
use gravital_sound.Common.Shifts.{bit_xor-mul, bit_xor-fields}
use gravital_sound.Wire.{IsBytes}
use gravital_sound.Checksum.{init, shift_bits, update_byte, update}
use gravital_sound.Checksum.{crc16_ccitt_false, crc16_two_segments}
use gravital_sound.Checksum.Table.{get_or-table, shift_bits-low, get_or-table_lt}
use gravital_sound.Checksum.Linear.{xor_swap, shift_bits-xor}

-- The CRC of the polynomial x^16 + x^12 + x^5 + 1, most significant bit first, with no table: a
-- byte is added to the top of the register, which is then shifted eight times.
unfoldable pub reference : ℕ → List ℕ → ℕ
reference crc [] = crc
reference crc (byte ∷ data_) = reference (shift_bits 8 (bit_xor crc (byte * 256))) data_

-- The register with a byte added at the top, as its new high byte and its low byte.
register_split :
    (crc byte : ℕ) → bit_xor crc (byte * 256) ≡ bit_xor (bit_xor (crc / 256) byte * 256) (crc % 256)
register_split crc byte =
    ap (λ t. bit_xor t (byte * 256)) parts
    ∙ xor_swap (crc / 256 * 256) (byte * 256) (crc % 256)
    ∙ ap (λ t. bit_xor t (crc % 256)) (bit_xor-mul 8 (crc / 256) byte)
  where
    parts : crc ≡ bit_xor (crc / 256 * 256) (crc % 256)
    parts = omega (arith, bit_xor-fields 8 (crc / 256) (crc % 256) (omega arith))

pub index-lt : (crc byte : ℕ) → byte < 256 → bit_xor (crc / 256 % 256) byte < 256
index-lt crc byte h = bit_xor-lt 8 (crc / 256 % 256) byte (omega arith) h

-- One look-up is eight shifts.
update_byte-shift_bits :
    (crc byte : ℕ)
    → crc < 65536
    → byte < 256
    → update_byte crc byte ≡ shift_bits 8 (bit_xor crc (byte * 256))
unfolding update_byte
update_byte-shift_bits crc byte hc hb =
    ap₂ bit_xor low_part (get_or-table idx idx_lt)
    ∙ bit_xor_comm (shift_bits 8 (crc % 256)) (shift_bits 8 (idx * 256))
    ∙ sym (shift_bits-xor 8 (idx * 256) (crc % 256) (omega (arith, idx_lt)) (omega arith))
    ∙ ap (shift_bits 8) (
        ap (λ t. bit_xor (bit_xor t byte * 256) (crc % 256)) high_byte
        ∙ sym (register_split crc byte))
  where
    idx : ℕ
    idx = bit_xor (crc / 256 % 256) byte

    idx_lt : idx < 256
    idx_lt = index-lt crc byte hb

    high_byte : crc / 256 % 256 ≡ crc / 256
    high_byte = omega arith

    low_part : crc * 256 % 65536 ≡ shift_bits 8 (crc % 256)
    low_part = omega (arith, shift_bits-low (crc % 256) (omega arith))

pub update_byte-lt : (crc byte : ℕ) → byte < 256 → update_byte crc byte < 65536
unfolding update_byte
update_byte-lt crc byte h =
    bit_xor-lt 16 (crc * 256 % 65536) _ (omega arith) (get_or-table_lt _ (index-lt crc byte h))

pub update-lt : (data_ : List ℕ) (crc : ℕ) → crc < 65536 → IsBytes data_ → update crc data_ < 65536
unfolding update
update-lt [] crc h b = h
update-lt (byte ∷ data_) crc h b =
    update-lt data_ (update_byte crc byte) (update_byte-lt crc byte b.0) b.1

update-reference :
    (data_ : List ℕ) (crc : ℕ)
    → crc < 65536
    → IsBytes data_
    → update crc data_ ≡ reference crc data_
unfolding update reference
update-reference [] crc h b = refl
update-reference (byte ∷ data_) crc h b =
    update-reference data_ (update_byte crc byte) (update_byte-lt crc byte b.0) b.1
    ∙ ap (λ t. reference t data_) (update_byte-shift_bits crc byte h b.0)

-- The table-driven checksum of any bytes is the CRC-16/CCITT-FALSE defined bit by bit, without a
-- table, from the initial value 0xFFFF.
pub crc16_ccitt_false-reference :
    (data_ : List ℕ) → IsBytes data_ → crc16_ccitt_false data_ ≡ reference init data_
unfolding crc16_ccitt_false
crc16_ccitt_false-reference data_ b = update-reference data_ init (omega arith) b

pub update-append : (xs ys : List ℕ) (crc : ℕ) → update crc (xs ++ ys) ≡ update (update crc xs) ys
unfolding update
update-append [] ys crc = refl
update-append (x ∷ xs) ys crc = update-append xs ys (update_byte crc x)

-- The checksum of two segments is the checksum of their concatenation.
pub crc16_two_segments-append : (a b : List ℕ) → crc16_two_segments a b ≡ crc16_ccitt_false (a ++ b)
unfolding crc16_two_segments crc16_ccitt_false
crc16_two_segments-append a b = sym (update-append a b init)

pub crc16-lt : (bs : List ℕ) → IsBytes bs → crc16_ccitt_false bs < 65536
unfolding crc16_ccitt_false
crc16-lt bs h = update-lt bs init (omega arith) h
