-- ===== src/Header/Examples.antt =====
-- A concrete header.
use gravital_sound.Common.{ℕ, ◌≡◌, refl, List, [], ◌∷◌, replicate, ok, arith}
use gravital_sound.Header.{PacketHeader, decode, encode}
use gravital_sound.Header.Roundtrip.{IsValid, decode-encode_header}

abbrev header : PacketHeader
header = record {
  version = 1;
  flags = 0x80;
  msg_type = 0x10;
  session_id = 7;
  sequence = 42;
  timestamp = 1000;
}

abbrev bytes : List ℕ
bytes =
    0x47 ∷ 0x53 ∷ 1 ∷ 0x80 ∷ 0x10 ∷ 0 ∷ 0 ∷ 0 ∷ 0 ∷ 0 ∷ 0 ∷ 7 ∷ 0 ∷ 0 ∷ 0 ∷ 42 ∷ 0 ∷ 0 ∷ 0 ∷ 0 ∷ 0
    ∷ 0 ∷ 3 ∷ 0xE8 ∷ []

header-IsValid : IsValid header
header-IsValid = omega arith

test_decode : decode bytes ≡ ok header
unfolding decode gravital_sound.Wire.from_be_bytes gravital_sound.Wire.slice
test_decode = refl

decode-encode_header_example :
    (out : List ℕ) × (encode header (replicate 24 0) ≡ ok out) × (decode out ≡ ok header)
decode-encode_header_example =
    decode-encode_header header (replicate 24 0) header-IsValid (omega arith)
