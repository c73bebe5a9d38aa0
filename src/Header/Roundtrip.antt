-- ===== src/Header/Roundtrip.antt =====
-- Encoding and decoding of packet headers are inverse to each other.
use gravital_sound.Common.{ℕ, ◌^◌, ◌≤◌, ◌<◌, ◌≡◌, refl, List, ◌++◌, length, take, drop, arith, ok}
use gravital_sound.Common.{ge→ltb_false}
use gravital_sound.Wire.{IsBytes, IsLayout, Holds, writes, writes-ready, byte_at-slice}
use gravital_sound.Wire.{slice-byte_at, byte_at-lt, slice-word, slice-word_lt, word-slice}
use gravital_sound.Wire.{length-to_be_bytes, writes-Holds_of}
use gravital_sound.Protocol.{header_size, protocol_version}
use gravital_sound.Header.{PacketHeader, fields, decode, encode}

-- The fields are in the range of their types, and the version is the one that `decode` accepts.
pub record IsValid (h : PacketHeader) : Type 0 where
  pub version_is : h.version ≡ protocol_version
  pub flags_lt : h.flags < 256
  pub msg_type_lt : h.msg_type < 256
  pub session_id_lt : h.session_id < 2 ^ 32
  pub sequence_lt : h.sequence < 2 ^ 32
  pub timestamp_lt : h.timestamp < 2 ^ 64

pub fields-IsLayout : (h : PacketHeader) → IsLayout 0 (fields h)
fields-IsLayout h = omega (
  arith,
  length-to_be_bytes 4 h.session_id,
  length-to_be_bytes 4 h.sequence,
  length-to_be_bytes 8 h.timestamp,
)

pub decode-Holds :
    (h : PacketHeader) (buf : List ℕ)
    → IsValid h
    → header_size ≤ length buf
    → Holds buf (fields h)
    → decode buf ≡ ok h
unfolding decode
decode-Holds h buf v len (m0, (m1, (ver, (fl, (mt, (r5, (r6, (r7, (sid, (seq, (ts, _))))))))))) =
    ground (
      arith,
      byte_at-slice buf 0 _ m0,
      byte_at-slice buf 1 _ m1,
      byte_at-slice buf 2 _ ver,
      byte_at-slice buf 3 _ fl,
      byte_at-slice buf 4 _ mt,
      byte_at-slice buf 5 _ r5,
      byte_at-slice buf 6 _ r6,
      byte_at-slice buf 7 _ r7,
      word-slice 4 h.session_id buf 8 v.session_id_lt sid,
      word-slice 4 h.sequence buf 12 v.sequence_lt seq,
      word-slice 8 h.timestamp buf 16 v.timestamp_lt ts,
    )

-- Every header whose fields fit their types and whose version is the one of the protocol is
-- returned by `decode` from the buffer that `encode` fills.
pub decode-encode_header :
    (h : PacketHeader) (buf : List ℕ)
    → IsValid h
    → header_size ≤ length buf
    → (out : List ℕ) × (encode h buf ≡ ok out) × (decode out ≡ ok h)
unfolding encode
decode-encode_header h buf v len =
    let ready = writes-ready (fields h) buf header_size (fields-IsLayout h) (omega arith) len in
    (writes buf (fields h), ground arith, decode-Holds h (writes buf (fields h)) v ready.0 ready.1)

-- What `decode` accepts holds the fields of the header that it returns, and these are valid.
pub decode_sound :
    (buf : List ℕ) {h : PacketHeader}
    → IsBytes buf
    → decode buf ≡ ok h
    → (header_size ≤ length buf) × IsValid h × Holds buf (fields h)
unfolding decode
decode_sound buf {h} bytes e = ground (
  arith,
  byte_at-lt buf 3 bytes,
  byte_at-lt buf 4 bytes,
  slice-byte_at buf 0,
  slice-byte_at buf 1,
  slice-byte_at buf 2,
  slice-byte_at buf 3,
  slice-byte_at buf 4,
  slice-byte_at buf 5,
  slice-byte_at buf 6,
  slice-byte_at buf 7,
  slice-word buf 8 4 bytes,
  slice-word buf 12 4 bytes,
  slice-word buf 16 8 bytes,
  slice-word_lt buf 8 4 bytes,
  slice-word_lt buf 12 4 bytes,
  slice-word_lt buf 16 8 bytes,
)

-- The first 24 bytes of a buffer that `decode` accepts are written again, byte for byte, by
-- `encode` of the header that it returned, so no byte of the header is ignored.
pub encode-decode_header :
    (buf dst : List ℕ) {h : PacketHeader}
    → IsBytes buf
    → decode buf ≡ ok h
    → header_size ≤ length dst
    → encode h dst ≡ ok (take header_size buf ++ drop header_size dst)
unfolding encode
encode-decode_header buf dst {h} bytes e len =
    let sound = decode_sound buf bytes e in
    rw (
      ge→ltb_false (length dst) header_size len,
      writes-Holds_of (fields h) buf dst header_size (fields-IsLayout h) refl sound.2,
    )
