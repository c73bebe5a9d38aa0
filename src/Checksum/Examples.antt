-- ===== src/Checksum/Examples.antt =====
-- The check value of the algorithm, and concrete corruptions.
use gravital_sound.Common.{ℕ, ◌≡◌, List, [], ◌∷◌, arith}
use gravital_sound.Checksum.{crc16_ccitt_false, init}
use gravital_sound.Checksum.Reference.{
  reference, crc16_ccitt_false-reference, crc16_two_segments-append,
}

-- "123456789"
abbrev digits : List ℕ
digits = 0x31 ∷ 0x32 ∷ 0x33 ∷ 0x34 ∷ 0x35 ∷ 0x36 ∷ 0x37 ∷ 0x38 ∷ 0x39 ∷ []

crc16_ccitt_false-reference_example : crc16_ccitt_false digits ≡ reference init digits
crc16_ccitt_false-reference_example = crc16_ccitt_false-reference digits (omega arith)

test_check_value : crc16_ccitt_false digits ≡ 0x29B1
unfolding reference gravital_sound.Checksum.shift_bits
test_check_value = crc16_ccitt_false-reference digits (omega arith)

test_crc16_two_segments-append :
    gravital_sound.Checksum.crc16_two_segments (0x31 ∷ 0x32 ∷ []) (0x33 ∷ [])
    ≡ crc16_ccitt_false (0x31 ∷ 0x32 ∷ 0x33 ∷ [])
test_crc16_two_segments-append = crc16_two_segments-append (0x31 ∷ 0x32 ∷ []) (0x33 ∷ [])
