-- ===== src/Message/Bitrate.antt =====
-- crates/gravital-talk-core/src/message.rs: the payload of ControlBitrate (0x33).
use gravital_sound.Common.{
  ℕ, ◌^◌, ◌≤◌, ◌<◌, ◌≡◌, refl, List, [], ◌∷◌, ◌++◌, length, take, drop, arith,
}
use gravital_sound.Common.{ltb, ge→ltb_false, Result, ok, ◌>>◌, fail_if}
use gravital_sound.Wire.{Field, field, writes, slice, to_be_bytes, from_be_bytes, IsBytes}
use gravital_sound.Wire.{IsLayout, Holds, writes-ready}
use gravital_sound.Wire.{slice-word, slice-word_lt, word-slice, length-to_be_bytes, writes-Holds_of}
use gravital_sound.Protocol.{Error, malformed_payload, buffer_too_small}

pub record ControlBitrateMsg : Type 0 where
  pub requested_bitrate : ℕ  -- u32

abbrev pub size : ℕ
size = 4

-- `ControlBitrateMsg::decode`
unfoldable pub decode : List ℕ → Result Error ControlBitrateMsg
decode buf = do
  fail_if (ltb (length buf) size) malformed_payload
  ok (record { requested_bitrate = from_be_bytes (slice buf 0 4) })

-- The assignments of `ControlBitrateMsg::encode`, in order.
abbrev pub fields : ControlBitrateMsg → List Field
fields m = field 0 4 (to_be_bytes 4 m.requested_bitrate) ∷ []

-- `ControlBitrateMsg::encode`
unfoldable pub encode : ControlBitrateMsg → List ℕ → Result Error (List ℕ)
encode m buf = do fail_if (ltb (length buf) size) buffer_too_small; ok (writes buf (fields m))

-- The fields fit their types.
pub record IsValid (m : ControlBitrateMsg) : Type 0 where
  pub requested_bitrate_lt : m.requested_bitrate < 2 ^ 32

fields-IsLayout : (m : ControlBitrateMsg) → IsValid m → IsLayout 0 (fields m)
fields-IsLayout m v = omega (arith, length-to_be_bytes 4 m.requested_bitrate)

pub decode-Holds :
    (m : ControlBitrateMsg) (buf : List ℕ)
    → IsValid m
    → size ≤ length buf
    → Holds buf (fields m)
    → decode buf ≡ ok m
unfolding decode
decode-Holds m buf v len (h0, _) =
    ground (arith, word-slice 4 m.requested_bitrate buf 0 v.requested_bitrate_lt h0)

-- `decode` returns from the buffer that `encode` fills the ControlBitrateMsg that was encoded.
pub decode-encode_bitrate :
    (m : ControlBitrateMsg) (buf : List ℕ)
    → IsValid m
    → size ≤ length buf
    → (out : List ℕ) × (encode m buf ≡ ok out) × (decode out ≡ ok m)
unfolding encode
decode-encode_bitrate m buf v len =
    let ready = writes-ready (fields m) buf size (fields-IsLayout m v) (omega arith) len in
    (writes buf (fields m), ground arith, decode-Holds m (writes buf (fields m)) v ready.0 ready.1)

-- What `decode` accepts is long enough, holds the fields that it returns, and these are valid.
pub decode_sound :
    (buf : List ℕ) {m : ControlBitrateMsg}
    → IsBytes buf
    → decode buf ≡ ok m
    → (size ≤ length buf) × IsValid m × Holds buf (fields m)
unfolding decode
decode_sound buf {m} bytes e = ground (arith, slice-word buf 0 4 bytes, slice-word_lt buf 0 4 bytes)

-- A payload that `decode` accepts is encoded again byte for byte.
pub encode-decode_bitrate :
    (buf dst : List ℕ) {m : ControlBitrateMsg}
    → IsBytes buf
    → decode buf ≡ ok m
    → size ≤ length dst
    → encode m dst ≡ ok (take size buf ++ drop size dst)
unfolding encode
encode-decode_bitrate buf dst {m} bytes e len =
    let sound = decode_sound buf bytes e in
    rw (
      ge→ltb_false (length dst) size len,
      writes-Holds_of (fields m) buf dst size (fields-IsLayout m sound.1) refl sound.2,
    )
