-- ===== src/Fragment/Header.antt =====
-- crates/gravital-talk-core/src/fragment.rs: the sub-header of a fragment.
use gravital_sound.Common.{
  ℕ, ◌^◌, ◌≤◌, ◌<◌, ◌≡◌, ◌||◌, refl, List, [], ◌∷◌, ◌++◌, length, take, drop, arith,
}
use gravital_sound.Common.{ltb, leb, ◌==◌, ge→ltb_false, Result, ok, ◌>>◌, fail_if}
use gravital_sound.Wire.{Field, field, writes, slice, to_be_bytes, from_be_bytes, IsBytes}
use gravital_sound.Wire.{IsLayout, Holds, writes-ready}
use gravital_sound.Wire.{slice-word, slice-word_lt, word-slice, length-to_be_bytes, writes-Holds_of}
use gravital_sound.Protocol.{
  Error, malformed_payload, buffer_too_small, too_many_fragments, fragment_out_of_range,
  max_fragments,
}

pub record FragmentHeader : Type 0 where
  pub index : ℕ  -- u16
  pub total : ℕ  -- u16

abbrev pub size : ℕ
size = 4

-- `FragmentHeader::decode`
unfoldable pub decode : List ℕ → Result Error FragmentHeader
decode buf = do
  fail_if (ltb (length buf) size) malformed_payload
  let index = from_be_bytes (slice buf 0 2)
  let total = from_be_bytes (slice buf 2 2)
  fail_if (total == 0 || ltb max_fragments total) too_many_fragments
  fail_if (leb total index) fragment_out_of_range
  ok (record { index = from_be_bytes (slice buf 0 2); total = from_be_bytes (slice buf 2 2) })

-- The assignments of `FragmentHeader::encode`, in order.
abbrev pub fields : FragmentHeader → List Field
fields m = field 0 2 (to_be_bytes 2 m.index) ∷ field 2 2 (to_be_bytes 2 m.total) ∷ []

-- `FragmentHeader::encode`
unfoldable pub encode : FragmentHeader → List ℕ → Result Error (List ℕ)
encode m buf = do fail_if (ltb (length buf) size) buffer_too_small; ok (writes buf (fields m))

-- The fields fit their types, and the values are those that `decode` accepts.
pub record IsValid (m : FragmentHeader) : Type 0 where
  pub index_lt : m.index < 2 ^ 16
  pub total_lt : m.total < 2 ^ 16
  pub total_pos : 0 < m.total
  pub total_le : m.total ≤ max_fragments
  pub index_lt_total : m.index < m.total

fields-IsLayout : (m : FragmentHeader) → IsValid m → IsLayout 0 (fields m)
fields-IsLayout m v = omega (arith, length-to_be_bytes 2 m.index, length-to_be_bytes 2 m.total)

pub decode-Holds :
    (m : FragmentHeader) (buf : List ℕ)
    → IsValid m
    → size ≤ length buf
    → Holds buf (fields m)
    → decode buf ≡ ok m
unfolding decode
decode-Holds m buf v len (h0, (h1, _)) =
    ground
      (arith, word-slice 2 m.index buf 0 v.index_lt h0, word-slice 2 m.total buf 2 v.total_lt h1)

-- Every fragment sub-header whose index is below its total, which is from 1 to 16, is returned by
-- `decode` from the buffer that `encode` fills.
pub decode-encode_fragment :
    (m : FragmentHeader) (buf : List ℕ)
    → IsValid m
    → size ≤ length buf
    → (out : List ℕ) × (encode m buf ≡ ok out) × (decode out ≡ ok m)
unfolding encode
decode-encode_fragment m buf v len =
    let ready = writes-ready (fields m) buf size (fields-IsLayout m v) (omega arith) len in
    (writes buf (fields m), ground arith, decode-Holds m (writes buf (fields m)) v ready.0 ready.1)

-- What `decode` accepts is long enough, holds the fields that it returns, and these are valid.
pub decode_sound :
    (buf : List ℕ) {m : FragmentHeader}
    → IsBytes buf
    → decode buf ≡ ok m
    → (size ≤ length buf) × IsValid m × Holds buf (fields m)
unfolding decode
decode_sound buf {m} bytes e = ground (
  arith,
  slice-word buf 0 2 bytes,
  slice-word_lt buf 0 2 bytes,
  slice-word buf 2 2 bytes,
  slice-word_lt buf 2 2 bytes,
)

-- A payload that `decode` accepts is encoded again byte for byte.
pub encode-decode_fragment :
    (buf dst : List ℕ) {m : FragmentHeader}
    → IsBytes buf
    → decode buf ≡ ok m
    → size ≤ length dst
    → encode m dst ≡ ok (take size buf ++ drop size dst)
unfolding encode
encode-decode_fragment buf dst {m} bytes e len =
    let sound = decode_sound buf bytes e in
    rw (
      ge→ltb_false (length dst) size len,
      writes-Holds_of (fields m) buf dst size (fields-IsLayout m sound.1) refl sound.2,
    )
