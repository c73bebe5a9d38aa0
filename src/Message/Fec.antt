-- ===== src/Message/Fec.antt =====
-- crates/gravital-talk-core/src/message.rs: the header of an AudioFec payload (0x12). Zero windows are refused.
use gravital_sound.Common.{
  ℕ, ◌^◌, ◌≤◌, ◌<◌, ◌≡◌, refl, List, [], ◌∷◌, ◌++◌, length, take, drop, arith,
}
use gravital_sound.Common.{ltb, ◌==◌, ge→ltb_false, Result, ok, ◌>>◌, fail_if}
use gravital_sound.Wire.{Field, field, writes, slice, byte_at, to_be_bytes, from_be_bytes, IsBytes}
use gravital_sound.Wire.{IsLayout, Holds, writes-ready, byte_at-slice, slice-byte_at, byte_at-lt}
use gravital_sound.Wire.{slice-word, slice-word_lt, word-slice, length-to_be_bytes, writes-Holds_of}
use gravital_sound.Protocol.{Error, malformed_payload, buffer_too_small}

pub record FecHeader : Type 0 where
  pub seq_base : ℕ  -- u32
  pub window : ℕ  -- u8
  pub data_len : ℕ  -- u32

abbrev pub size : ℕ
size = 9

-- `FecHeader::decode`
unfoldable pub decode : List ℕ → Result Error FecHeader
decode buf = do
  fail_if (ltb (length buf) size) malformed_payload
  let window = byte_at buf 4
  fail_if (window == 0) malformed_payload
  ok (record {
    seq_base = from_be_bytes (slice buf 0 4);
    window = byte_at buf 4;
    data_len = from_be_bytes (slice buf 5 4);
  })

-- The assignments of `FecHeader::encode`, in order.
abbrev pub fields : FecHeader → List Field
fields m =
    field 0 4 (to_be_bytes 4 m.seq_base)
    ∷ field 4 1 (m.window ∷ [])
    ∷ field 5 4 (to_be_bytes 4 m.data_len)
    ∷ []

-- `FecHeader::encode`
unfoldable pub encode : FecHeader → List ℕ → Result Error (List ℕ)
encode m buf = do fail_if (ltb (length buf) size) buffer_too_small; ok (writes buf (fields m))

-- The fields fit their types, and the values are those that `decode` accepts.
pub record IsValid (m : FecHeader) : Type 0 where
  pub seq_base_lt : m.seq_base < 2 ^ 32
  pub window_lt : m.window < 256
  pub data_len_lt : m.data_len < 2 ^ 32
  pub window_pos : 0 < m.window

fields-IsLayout : (m : FecHeader) → IsValid m → IsLayout 0 (fields m)
fields-IsLayout m v =
    omega (arith, length-to_be_bytes 4 m.seq_base, length-to_be_bytes 4 m.data_len)

pub decode-Holds :
    (m : FecHeader) (buf : List ℕ)
    → IsValid m
    → size ≤ length buf
    → Holds buf (fields m)
    → decode buf ≡ ok m
unfolding decode
decode-Holds m buf v len (h0, (h1, (h2, _))) = ground (
  arith,
  word-slice 4 m.seq_base buf 0 v.seq_base_lt h0,
  byte_at-slice buf 4 m.window h1,
  word-slice 4 m.data_len buf 5 v.data_len_lt h2,
)

-- `decode` returns from the buffer that `encode` fills the FecHeader that was encoded.
pub decode-encode_fec :
    (m : FecHeader) (buf : List ℕ)
    → IsValid m
    → size ≤ length buf
    → (out : List ℕ) × (encode m buf ≡ ok out) × (decode out ≡ ok m)
unfolding encode
decode-encode_fec m buf v len =
    let ready = writes-ready (fields m) buf size (fields-IsLayout m v) (omega arith) len in
    (writes buf (fields m), ground arith, decode-Holds m (writes buf (fields m)) v ready.0 ready.1)

-- What `decode` accepts is long enough, holds the fields that it returns, and these are valid.
pub decode_sound :
    (buf : List ℕ) {m : FecHeader}
    → IsBytes buf
    → decode buf ≡ ok m
    → (size ≤ length buf) × IsValid m × Holds buf (fields m)
unfolding decode
decode_sound buf {m} bytes e = ground (
  arith,
  slice-word buf 0 4 bytes,
  slice-word_lt buf 0 4 bytes,
  byte_at-lt buf 4 bytes,
  slice-byte_at buf 4,
  slice-word buf 5 4 bytes,
  slice-word_lt buf 5 4 bytes,
)

-- The nine bytes of an FEC header that `decode` accepts are written again, byte for byte, by
-- `encode`.
pub encode-decode_fec :
    (buf dst : List ℕ) {m : FecHeader}
    → IsBytes buf
    → decode buf ≡ ok m
    → size ≤ length dst
    → encode m dst ≡ ok (take size buf ++ drop size dst)
unfolding encode
encode-decode_fec buf dst {m} bytes e len =
    let sound = decode_sound buf bytes e in
    rw (
      ge→ltb_false (length dst) size len,
      writes-Holds_of (fields m) buf dst size (fields-IsLayout m sound.1) refl sound.2,
    )
