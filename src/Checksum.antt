-- ===== src/Checksum.antt =====
-- crates/gravital-talk-core/src/checksum.rs: CRC-16/CCITT-FALSE by a table of 256 entries.
-- The feature `simd-crc` calls the same table loop, so both builds compute this function.
mod Examples
pub mod Table
pub mod Linear
pub mod Reference
pub mod Injective
use gravital_sound.Common.{ℕ, zero, suc, ◌+◌, ◌*◌, ◌/◌, ◌%◌, List, [], ◌∷◌, get_or, ◌==◌}
use gravital_sound.Common.{if◌then◌else◌, bit_and, bit_xor}

abbrev pub poly : ℕ
poly = 0x1021

abbrev pub init : ℕ
init = 0xFFFF

-- The body of the inner loop of `build_table`; `<<` on u16 drops the top bit.
unfoldable pub shift_bit : ℕ → ℕ
shift_bit crc = if bit_and crc 0x8000 == 0 then crc * 2 % 65536 else bit_xor (crc * 2 % 65536) poly

-- `while bit < 8`, with the rounds left.
unfoldable pub shift_bits : ℕ → ℕ → ℕ
unfolding shift_bit
shift_bits zero crc = crc
shift_bits (suc left) crc = shift_bits left (shift_bit crc)

-- `while i < 256`: the entries from `i` on.
unfoldable pub entries : ℕ → ℕ → List ℕ
unfolding shift_bits
entries zero i = []
entries (suc left) i = shift_bits 8 (i * 256 % 65536) ∷ entries left (i + 1)

-- `const TABLE: [u16; 256] = build_table()`
unfoldable pub table : List ℕ
unfolding entries
table = entries 256 0

-- One byte: `let idx = ((crc >> 8) as u8 ^ byte) as usize; crc = (crc << 8) ^ TABLE[idx];`
unfoldable pub update_byte : ℕ → ℕ → ℕ
update_byte crc byte =
    let idx = bit_xor (crc / 256 % 256) byte in bit_xor (crc * 256 % 65536) (get_or table idx 0)

-- `for &byte in data`
unfoldable pub update : ℕ → List ℕ → ℕ
unfolding update_byte
update crc [] = crc
update crc (byte ∷ data_) = update (update_byte crc byte) data_

-- `crc16_table`, and so `crc16_ccitt_false`
unfoldable pub crc16_ccitt_false : List ℕ → ℕ
unfolding update
crc16_ccitt_false data_ = update init data_

unfoldable pub crc16_two_segments : List ℕ → List ℕ → ℕ
unfolding update
crc16_two_segments segment_a segment_b = update (update init segment_a) segment_b
