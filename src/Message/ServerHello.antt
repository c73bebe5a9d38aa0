-- ===== src/Message/ServerHello.antt =====
-- crates/gravital-talk-core/src/message.rs: the payload of HandshakeServerHello (0x02).
use gravital_sound.Common.{
  ℕ, ◌^◌, ◌≤◌, ◌<◌, ◌≡◌, refl, List, [], ◌∷◌, ◌++◌, length, take, drop, arith,
}
use gravital_sound.Common.{ltb, ge→ltb_false, Result, ok, ◌>>◌, fail_if}
use gravital_sound.Wire.{Field, field, writes, slice, byte_at, to_be_bytes, from_be_bytes, IsBytes}
use gravital_sound.Wire.{IsLayout, Holds, writes-ready, byte_at-slice, slice-byte_at, byte_at-lt}
use gravital_sound.Wire.{slice-word, slice-word_lt, word-slice, length-to_be_bytes, writes-Holds_of}
use gravital_sound.Wire.{length-slice, slice-IsBytes}
use gravital_sound.Protocol.{Error, malformed_payload, buffer_too_small}

pub record ServerHello : Type 0 where
  pub ephemeral_public_key : List ℕ  -- [u8; 32]
  pub server_nonce : List ℕ  -- [u8; 32]
  pub session_id : ℕ  -- u32
  pub protocol_version : ℕ  -- u8
  pub codec_accepted : ℕ  -- u8
  pub sample_rate : ℕ  -- u32
  pub channels : ℕ  -- u8
  pub frame_duration_ms : ℕ  -- u8
  pub max_bitrate : ℕ  -- u32
  pub capability_flags : ℕ  -- u32

abbrev pub size : ℕ
size = 84

-- `ServerHello::decode`
unfoldable pub decode : List ℕ → Result Error ServerHello
decode buf = do
  fail_if (ltb (length buf) size) malformed_payload
  ok (record {
    ephemeral_public_key = slice buf 0 32;
    server_nonce = slice buf 32 32;
    session_id = from_be_bytes (slice buf 64 4);
    protocol_version = byte_at buf 68;
    codec_accepted = byte_at buf 69;
    sample_rate = from_be_bytes (slice buf 70 4);
    channels = byte_at buf 74;
    frame_duration_ms = byte_at buf 75;
    max_bitrate = from_be_bytes (slice buf 76 4);
    capability_flags = from_be_bytes (slice buf 80 4);
  })

-- The assignments of `ServerHello::encode`, in order.
abbrev pub fields : ServerHello → List Field
fields m =
    field 0 32 m.ephemeral_public_key
    ∷ field 32 32 m.server_nonce
    ∷ field 64 4 (to_be_bytes 4 m.session_id)
    ∷ field 68 1 (m.protocol_version ∷ [])
    ∷ field 69 1 (m.codec_accepted ∷ [])
    ∷ field 70 4 (to_be_bytes 4 m.sample_rate)
    ∷ field 74 1 (m.channels ∷ [])
    ∷ field 75 1 (m.frame_duration_ms ∷ [])
    ∷ field 76 4 (to_be_bytes 4 m.max_bitrate)
    ∷ field 80 4 (to_be_bytes 4 m.capability_flags)
    ∷ []

-- `ServerHello::encode`
unfoldable pub encode : ServerHello → List ℕ → Result Error (List ℕ)
encode m buf = do fail_if (ltb (length buf) size) buffer_too_small; ok (writes buf (fields m))

-- The fields fit their types.
pub record IsValid (m : ServerHello) : Type 0 where
  pub ephemeral_public_key_length : length m.ephemeral_public_key ≡ 32
  pub ephemeral_public_key_bytes : IsBytes m.ephemeral_public_key
  pub server_nonce_length : length m.server_nonce ≡ 32
  pub server_nonce_bytes : IsBytes m.server_nonce
  pub session_id_lt : m.session_id < 2 ^ 32
  pub protocol_version_lt : m.protocol_version < 256
  pub codec_accepted_lt : m.codec_accepted < 256
  pub sample_rate_lt : m.sample_rate < 2 ^ 32
  pub channels_lt : m.channels < 256
  pub frame_duration_ms_lt : m.frame_duration_ms < 256
  pub max_bitrate_lt : m.max_bitrate < 2 ^ 32
  pub capability_flags_lt : m.capability_flags < 2 ^ 32

pub fields-IsLayout : (m : ServerHello) → IsValid m → IsLayout 0 (fields m)
fields-IsLayout m v = omega (
  arith,
  length-to_be_bytes 4 m.session_id,
  length-to_be_bytes 4 m.sample_rate,
  length-to_be_bytes 4 m.max_bitrate,
  length-to_be_bytes 4 m.capability_flags,
)

pub decode-Holds :
    (m : ServerHello) (buf : List ℕ)
    → IsValid m
    → size ≤ length buf
    → Holds buf (fields m)
    → decode buf ≡ ok m
unfolding decode
decode-Holds m buf v len (h0, (h1, (h2, (h3, (h4, (h5, (h6, (h7, (h8, (h9, _)))))))))) = ground (
  arith,
  h0,
  h1,
  word-slice 4 m.session_id buf 64 v.session_id_lt h2,
  byte_at-slice buf 68 m.protocol_version h3,
  byte_at-slice buf 69 m.codec_accepted h4,
  word-slice 4 m.sample_rate buf 70 v.sample_rate_lt h5,
  byte_at-slice buf 74 m.channels h6,
  byte_at-slice buf 75 m.frame_duration_ms h7,
  word-slice 4 m.max_bitrate buf 76 v.max_bitrate_lt h8,
  word-slice 4 m.capability_flags buf 80 v.capability_flags_lt h9,
)

-- Every ServerHello whose fields fit their types is returned by `decode` from the buffer that
-- `encode` fills, if that buffer has at least the size of the payload.
pub decode-encode_server_hello :
    (m : ServerHello) (buf : List ℕ)
    → IsValid m
    → size ≤ length buf
    → (out : List ℕ) × (encode m buf ≡ ok out) × (decode out ≡ ok m)
unfolding encode
decode-encode_server_hello m buf v len =
    let ready = writes-ready (fields m) buf size (fields-IsLayout m v) (omega arith) len in
    (writes buf (fields m), ground arith, decode-Holds m (writes buf (fields m)) v ready.0 ready.1)

-- What `decode` accepts is long enough, holds the fields that it returns, and these are valid.
pub decode_sound :
    (buf : List ℕ) {m : ServerHello}
    → IsBytes buf
    → decode buf ≡ ok m
    → (size ≤ length buf) × IsValid m × Holds buf (fields m)
unfolding decode
decode_sound buf {m} bytes e = ground (
  arith,
  length-slice buf 0 32,
  slice-IsBytes buf 0 32 bytes,
  length-slice buf 32 32,
  slice-IsBytes buf 32 32 bytes,
  slice-word buf 64 4 bytes,
  slice-word_lt buf 64 4 bytes,
  byte_at-lt buf 68 bytes,
  slice-byte_at buf 68,
  byte_at-lt buf 69 bytes,
  slice-byte_at buf 69,
  slice-word buf 70 4 bytes,
  slice-word_lt buf 70 4 bytes,
  byte_at-lt buf 74 bytes,
  slice-byte_at buf 74,
  byte_at-lt buf 75 bytes,
  slice-byte_at buf 75,
  slice-word buf 76 4 bytes,
  slice-word_lt buf 76 4 bytes,
  slice-word buf 80 4 bytes,
  slice-word_lt buf 80 4 bytes,
)

-- A payload that `decode` accepts is encoded again byte for byte.
pub encode-decode_server_hello :
    (buf dst : List ℕ) {m : ServerHello}
    → IsBytes buf
    → decode buf ≡ ok m
    → size ≤ length dst
    → encode m dst ≡ ok (take size buf ++ drop size dst)
unfolding encode
encode-decode_server_hello buf dst {m} bytes e len =
    let sound = decode_sound buf bytes e in
    rw (
      ge→ltb_false (length dst) size len,
      writes-Holds_of (fields m) buf dst size (fields-IsLayout m sound.1) refl sound.2,
    )
