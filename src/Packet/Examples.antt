-- ===== src/Packet/Examples.antt =====
-- A concrete packet, and the packet with a corrupted byte.
use gravital_sound.Common.{ℕ, ◌≡◌, ap, subst, List, [], ◌∷◌, ◌++◌, take, replicate, ok, err, arith}
use gravital_sound.Wire.{bytes_of, to_be_bytes}
use gravital_sound.Protocol.{Error}
use gravital_sound.Checksum.{crc16_ccitt_false, init}
use gravital_sound.Checksum.Reference.{reference, crc16_ccitt_false-reference}
use gravital_sound.Header.{PacketHeader, fields}
use gravital_sound.Header.Roundtrip.{IsValid}
use gravital_sound.Packet.{PacketView, decode, encode}
use gravital_sound.Packet.Frame.{frame_of}
use gravital_sound.Packet.Roundtrip.{decode-encode_packet, encode-decode_packet, decode_of_frame}
use gravital_sound.Packet.Corruption.{decode_corrupted}

abbrev header : PacketHeader
header = record {
  version = 1;
  flags = 0;
  msg_type = 0x10;
  session_id = 7;
  sequence = 42;
  timestamp = 1000;
}

abbrev view : PacketView
view = record { header = header; payload = 1 ∷ 2 ∷ [] }

abbrev before : List ℕ
before = 0x47 ∷ 0x53 ∷ 1 ∷ 0 ∷ []

abbrev after : List ℕ
after =
    0 ∷ 0 ∷ 0 ∷ 0 ∷ 0 ∷ 0 ∷ 7 ∷ 0 ∷ 0 ∷ 0 ∷ 42 ∷ 0 ∷ 0 ∷ 0 ∷ 0 ∷ 0 ∷ 0 ∷ 3 ∷ 0xE8 ∷ 1 ∷ 2 ∷ 0 ∷ 2
    ∷ []

-- The packet with the message type `x`, and the checksum of the packet with the type 0x10.
abbrev packet : ℕ → List ℕ
packet x = before ++ (x ∷ (after ++ (0x6A ∷ 0xAB ∷ [])))

header-IsValid : IsValid header
header-IsValid = omega arith

test_crc : crc16_ccitt_false (before ++ (0x10 ∷ after)) ≡ 0x6AAB
unfolding reference gravital_sound.Checksum.shift_bits
test_crc = crc16_ccitt_false-reference (before ++ (0x10 ∷ after)) (omega arith)

frame-packet : frame_of (bytes_of (fields header)) (1 ∷ 2 ∷ []) ≡ packet 0x10
unfolding to_be_bytes
frame-packet = ap (λ c. (before ++ (0x10 ∷ after)) ++ to_be_bytes 2 c) test_crc

test_decode : decode (packet 0x10) ≡ ok view
test_decode =
    subst (λ buf. decode buf ≡ ok view) frame-packet
      (decode_of_frame header (1 ∷ 2 ∷ []) header-IsValid (omega arith) (omega arith))

decode-encode_packet_example :
    (buf : List ℕ) × (n : ℕ) × (encode header (1 ∷ 2 ∷ []) (replicate 32 9) ≡ ok (buf, n))
    × (decode (take n buf) ≡ ok view)
decode-encode_packet_example =
    decode-encode_packet header (1 ∷ 2 ∷ []) (replicate 32 9) header-IsValid (omega arith)
      (omega arith) (omega arith)

encode-decode_packet_example :
    encode header (1 ∷ 2 ∷ []) (replicate 32 9) ≡ ok (packet 0x10 ++ (9 ∷ 9 ∷ []), 30)
encode-decode_packet_example =
    encode-decode_packet (packet 0x10) (replicate 32 9) (omega arith) test_decode (omega arith)

decode_corrupted_example : (e : Error) × (decode (packet 0x11) ≡ err e)
decode_corrupted_example =
    decode_corrupted before (after ++ (0x6A ∷ 0xAB ∷ [])) 0x10 0x11 (omega arith) (omega arith)
      (omega arith) (omega arith) test_decode (λ e. omega arith)
