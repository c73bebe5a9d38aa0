-- ===== src/Message/AuthChallenge.antt =====
-- crates/gravital-talk-core/src/message.rs: the payload of AuthChallenge (0x50).
use gravital_sound.Common.{ℕ, ◌≤◌, ◌≡◌, refl, List, [], ◌∷◌, ◌++◌, length, take, drop, arith}
use gravital_sound.Common.{ltb, ge→ltb_false, Result, ok, ◌>>◌, fail_if}
use gravital_sound.Wire.{Field, field, writes, slice, IsBytes}
use gravital_sound.Wire.{IsLayout, Holds, writes-ready}
use gravital_sound.Wire.{writes-Holds_of}
use gravital_sound.Wire.{length-slice, slice-IsBytes}
use gravital_sound.Protocol.{Error, malformed_payload, buffer_too_small}

pub record AuthChallengeMsg : Type 0 where
  pub nonce : List ℕ  -- [u8; 32]

abbrev pub size : ℕ
size = 32

-- `AuthChallengeMsg::decode`
unfoldable pub decode : List ℕ → Result Error AuthChallengeMsg
decode buf = do
  fail_if (ltb (length buf) size) malformed_payload
  ok (record { nonce = slice buf 0 32 })

-- The assignments of `AuthChallengeMsg::encode`, in order.
abbrev pub fields : AuthChallengeMsg → List Field
fields m = field 0 32 m.nonce ∷ []

-- `AuthChallengeMsg::encode`
unfoldable pub encode : AuthChallengeMsg → List ℕ → Result Error (List ℕ)
encode m buf = do fail_if (ltb (length buf) size) buffer_too_small; ok (writes buf (fields m))

-- The fields fit their types.
pub record IsValid (m : AuthChallengeMsg) : Type 0 where
  pub nonce_length : length m.nonce ≡ 32
  pub nonce_bytes : IsBytes m.nonce

fields-IsLayout : (m : AuthChallengeMsg) → IsValid m → IsLayout 0 (fields m)
fields-IsLayout m v = omega arith

pub decode-Holds :
    (m : AuthChallengeMsg) (buf : List ℕ)
    → IsValid m
    → size ≤ length buf
    → Holds buf (fields m)
    → decode buf ≡ ok m
unfolding decode
decode-Holds m buf v len (h0, _) = ground (arith, h0)

-- `decode` returns from the buffer that `encode` fills the AuthChallengeMsg that was encoded.
pub decode-encode_challenge :
    (m : AuthChallengeMsg) (buf : List ℕ)
    → IsValid m
    → size ≤ length buf
    → (out : List ℕ) × (encode m buf ≡ ok out) × (decode out ≡ ok m)
unfolding encode
decode-encode_challenge m buf v len =
    let ready = writes-ready (fields m) buf size (fields-IsLayout m v) (omega arith) len in
    (writes buf (fields m), ground arith, decode-Holds m (writes buf (fields m)) v ready.0 ready.1)

-- What `decode` accepts is long enough, holds the fields that it returns, and these are valid.
pub decode_sound :
    (buf : List ℕ) {m : AuthChallengeMsg}
    → IsBytes buf
    → decode buf ≡ ok m
    → (size ≤ length buf) × IsValid m × Holds buf (fields m)
unfolding decode
decode_sound buf {m} bytes e = ground (arith, length-slice buf 0 32, slice-IsBytes buf 0 32 bytes)

-- A payload that `decode` accepts is encoded again byte for byte.
pub encode-decode_challenge :
    (buf dst : List ℕ) {m : AuthChallengeMsg}
    → IsBytes buf
    → decode buf ≡ ok m
    → size ≤ length dst
    → encode m dst ≡ ok (take size buf ++ drop size dst)
unfolding encode
encode-decode_challenge buf dst {m} bytes e len =
    let sound = decode_sound buf bytes e in
    rw (
      ge→ltb_false (length dst) size len,
      writes-Holds_of (fields m) buf dst size (fields-IsLayout m sound.1) refl sound.2,
    )
