-- ===== src/Packet.antt =====
-- crates/gravital-talk-core/src/packet.rs: whole packets, `header payload payload_len checksum`.
-- packet.rs repeats the table of checksum.rs and its loop (`crc_step`); here both are `update`.
pub mod Frame
mod Examples
pub mod Encoded
pub mod Roundtrip
pub mod Corruption
use gravital_sound.Common.{ℕ, ◌+◌, ◌-◌, not, List, length, take, ltb, ◌==◌}
use gravital_sound.Common.{Result, ok, ◌>>=◌, ◌>>◌, fail_if}
use gravital_sound.Wire.{slice, copy_from_slice, to_be_bytes, from_be_bytes}
use gravital_sound.Protocol.{Error, too_short, length_mismatch, payload_too_large, bad_checksum}
use gravital_sound.Protocol.{buffer_too_small, header_size, max_payload_size}
use gravital_sound.Checksum.{init, update, crc16_two_segments}
use gravital_sound.Header
use gravital_sound.Header.{PacketHeader}

pub record PacketView : Type 0 where
  pub header : PacketHeader
  pub payload : List ℕ

-- `compute_checksum`: the header, the payload and `payload_len`, one after another.
unfoldable pub compute_checksum : List ℕ → List ℕ → ℕ → ℕ
compute_checksum header payload payload_len =
    update (update (update init header) payload) (to_be_bytes 2 payload_len)

-- `PacketView::decode`
unfoldable pub decode : List ℕ → Result Error PacketView
decode buf = do
  let total_len = length buf
  fail_if (ltb total_len (header_size + 4)) too_short
  header ← Header.decode buf
  let payload_len = from_be_bytes (slice buf (total_len - 4) 2)
  let expected_len = header_size + payload_len + 4
  fail_if (not (expected_len == total_len)) length_mismatch
  fail_if (ltb max_payload_size payload_len) payload_too_large
  let payload = slice buf header_size payload_len
  let stored_checksum = from_be_bytes (slice buf (total_len - 2) 2)
  let computed = compute_checksum (take header_size buf) payload payload_len
  fail_if (not (stored_checksum == computed)) bad_checksum
  ok (record { header = header; payload = payload })

-- `PacketBuilder::encode`: the filled buffer and the number of bytes written. The header is
-- encoded into the first 24 bytes of `out`.
unfoldable pub encode : PacketHeader → List ℕ → List ℕ → Result Error (List ℕ × ℕ)
encode header payload out = do
  let payload_len = length payload
  fail_if (ltb max_payload_size payload_len) payload_too_large
  let total = header_size + payload_len + 4
  fail_if (ltb (length out) total) buffer_too_small
  head ← Header.encode header (take header_size out)
  let with_header = copy_from_slice out 0 head
  let with_payload = copy_from_slice with_header header_size payload
  let with_len = copy_from_slice with_payload (total - 4) (to_be_bytes 2 payload_len)
  let segments = crc16_two_segments (take header_size with_len) payload
  let checksum = update segments (to_be_bytes 2 payload_len)
  ok (copy_from_slice with_len (total - 2) (to_be_bytes 2 checksum), total)
