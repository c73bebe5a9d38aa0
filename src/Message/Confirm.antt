-- ===== src/Message/Confirm.antt =====
-- crates/gravital-talk-core/src/message.rs: the payload of HandshakeSessionConfirm (0x03).
use gravital_sound.Common.{
  ℕ, ◌^◌, ◌≤◌, ◌<◌, ◌≡◌, refl, List, [], ◌∷◌, ◌++◌, length, take, drop, arith,
}
use gravital_sound.Common.{ltb, ge→ltb_false, Result, ok, ◌>>◌, fail_if}
use gravital_sound.Wire.{Field, field, writes, slice, to_be_bytes, from_be_bytes, IsBytes}
use gravital_sound.Wire.{IsLayout, Holds, writes-ready}
use gravital_sound.Wire.{slice-word, slice-word_lt, word-slice, length-to_be_bytes, writes-Holds_of}
use gravital_sound.Wire.{length-slice, slice-IsBytes}
use gravital_sound.Protocol.{Error, malformed_payload, buffer_too_small}

pub record SessionConfirm : Type 0 where
  pub session_id : ℕ  -- u32
  pub server_auth_tag : List ℕ  -- [u8; 16]

abbrev pub size : ℕ
size = 20

-- `SessionConfirm::decode`
unfoldable pub decode : List ℕ → Result Error SessionConfirm
decode buf = do
  fail_if (ltb (length buf) size) malformed_payload
  ok (record { session_id = from_be_bytes (slice buf 0 4); server_auth_tag = slice buf 4 16 })

-- The assignments of `SessionConfirm::encode`, in order.
abbrev pub fields : SessionConfirm → List Field
fields m = field 0 4 (to_be_bytes 4 m.session_id) ∷ field 4 16 m.server_auth_tag ∷ []

-- `SessionConfirm::encode`
unfoldable pub encode : SessionConfirm → List ℕ → Result Error (List ℕ)
encode m buf = do fail_if (ltb (length buf) size) buffer_too_small; ok (writes buf (fields m))

-- The fields fit their types.
pub record IsValid (m : SessionConfirm) : Type 0 where
  pub session_id_lt : m.session_id < 2 ^ 32
  pub server_auth_tag_length : length m.server_auth_tag ≡ 16
  pub server_auth_tag_bytes : IsBytes m.server_auth_tag

pub fields-IsLayout : (m : SessionConfirm) → IsValid m → IsLayout 0 (fields m)
fields-IsLayout m v = omega (arith, length-to_be_bytes 4 m.session_id)

pub decode-Holds :
    (m : SessionConfirm) (buf : List ℕ)
    → IsValid m
    → size ≤ length buf
    → Holds buf (fields m)
    → decode buf ≡ ok m
unfolding decode
decode-Holds m buf v len (h0, (h1, _)) =
    ground (arith, word-slice 4 m.session_id buf 0 v.session_id_lt h0, h1)

-- `decode` returns from the buffer that `encode` fills the SessionConfirm that was encoded.
pub decode-encode_confirm :
    (m : SessionConfirm) (buf : List ℕ)
    → IsValid m
    → size ≤ length buf
    → (out : List ℕ) × (encode m buf ≡ ok out) × (decode out ≡ ok m)
unfolding encode
decode-encode_confirm m buf v len =
    let ready = writes-ready (fields m) buf size (fields-IsLayout m v) (omega arith) len in
    (writes buf (fields m), ground arith, decode-Holds m (writes buf (fields m)) v ready.0 ready.1)

-- What `decode` accepts is long enough, holds the fields that it returns, and these are valid.
pub decode_sound :
    (buf : List ℕ) {m : SessionConfirm}
    → IsBytes buf
    → decode buf ≡ ok m
    → (size ≤ length buf) × IsValid m × Holds buf (fields m)
unfolding decode
decode_sound buf {m} bytes e = ground (
  arith,
  slice-word buf 0 4 bytes,
  slice-word_lt buf 0 4 bytes,
  length-slice buf 4 16,
  slice-IsBytes buf 4 16 bytes,
)

-- A payload that `decode` accepts is encoded again byte for byte.
pub encode-decode_confirm :
    (buf dst : List ℕ) {m : SessionConfirm}
    → IsBytes buf
    → decode buf ≡ ok m
    → size ≤ length dst
    → encode m dst ≡ ok (take size buf ++ drop size dst)
unfolding encode
encode-decode_confirm buf dst {m} bytes e len =
    let sound = decode_sound buf bytes e in
    rw (
      ge→ltb_false (length dst) size len,
      writes-Holds_of (fields m) buf dst size (fields-IsLayout m sound.1) refl sound.2,
    )
