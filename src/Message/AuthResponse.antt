-- ===== src/Message/AuthResponse.antt =====
-- crates/gravital-talk-core/src/message.rs: the payload of AuthResponse (0x51).
use gravital_sound.Common.{ℕ, ◌≤◌, ◌≡◌, refl, List, [], ◌∷◌, ◌++◌, length, take, drop, arith}
use gravital_sound.Common.{ltb, ge→ltb_false, Result, ok, ◌>>◌, fail_if}
use gravital_sound.Wire.{Field, field, writes, slice, IsBytes}
use gravital_sound.Wire.{IsLayout, Holds, writes-ready}
use gravital_sound.Wire.{writes-Holds_of}
use gravital_sound.Wire.{length-slice, slice-IsBytes}
use gravital_sound.Protocol.{Error, malformed_payload, buffer_too_small}

pub record AuthResponseMsg : Type 0 where
  pub public_key : List ℕ  -- [u8; 32]
  pub signature : List ℕ  -- [u8; 64]

abbrev pub size : ℕ
size = 96

-- `AuthResponseMsg::decode`
unfoldable pub decode : List ℕ → Result Error AuthResponseMsg
decode buf = do
  fail_if (ltb (length buf) size) malformed_payload
  ok (record { public_key = slice buf 0 32; signature = slice buf 32 64 })

-- The assignments of `AuthResponseMsg::encode`, in order.
abbrev pub fields : AuthResponseMsg → List Field
fields m = field 0 32 m.public_key ∷ field 32 64 m.signature ∷ []

-- `AuthResponseMsg::encode`
unfoldable pub encode : AuthResponseMsg → List ℕ → Result Error (List ℕ)
encode m buf = do fail_if (ltb (length buf) size) buffer_too_small; ok (writes buf (fields m))

-- The fields fit their types.
pub record IsValid (m : AuthResponseMsg) : Type 0 where
  pub public_key_length : length m.public_key ≡ 32
  pub public_key_bytes : IsBytes m.public_key
  pub signature_length : length m.signature ≡ 64
  pub signature_bytes : IsBytes m.signature

fields-IsLayout : (m : AuthResponseMsg) → IsValid m → IsLayout 0 (fields m)
fields-IsLayout m v = omega arith

pub decode-Holds :
    (m : AuthResponseMsg) (buf : List ℕ)
    → IsValid m
    → size ≤ length buf
    → Holds buf (fields m)
    → decode buf ≡ ok m
unfolding decode
decode-Holds m buf v len (h0, (h1, _)) = ground (arith, h0, h1)

-- Every AuthResponse whose fields fit their types is returned by `decode` from the buffer that
-- `encode` fills, if that buffer has at least the size of the payload.
pub decode-encode_response :
    (m : AuthResponseMsg) (buf : List ℕ)
    → IsValid m
    → size ≤ length buf
    → (out : List ℕ) × (encode m buf ≡ ok out) × (decode out ≡ ok m)
unfolding encode
decode-encode_response m buf v len =
    let ready = writes-ready (fields m) buf size (fields-IsLayout m v) (omega arith) len in
    (writes buf (fields m), ground arith, decode-Holds m (writes buf (fields m)) v ready.0 ready.1)

-- What `decode` accepts is long enough, holds the fields that it returns, and these are valid.
pub decode_sound :
    (buf : List ℕ) {m : AuthResponseMsg}
    → IsBytes buf
    → decode buf ≡ ok m
    → (size ≤ length buf) × IsValid m × Holds buf (fields m)
unfolding decode
decode_sound buf {m} bytes e = ground (
  arith,
  length-slice buf 0 32,
  slice-IsBytes buf 0 32 bytes,
  length-slice buf 32 64,
  slice-IsBytes buf 32 64 bytes,
)

-- A payload that `decode` accepts is encoded again byte for byte.
pub encode-decode_response :
    (buf dst : List ℕ) {m : AuthResponseMsg}
    → IsBytes buf
    → decode buf ≡ ok m
    → size ≤ length dst
    → encode m dst ≡ ok (take size buf ++ drop size dst)
unfolding encode
encode-decode_response buf dst {m} bytes e len =
    let sound = decode_sound buf bytes e in
    rw (
      ge→ltb_false (length dst) size len,
      writes-Holds_of (fields m) buf dst size (fields-IsLayout m sound.1) refl sound.2,
    )
