-- ===== src/Crypto/Sealing.antt =====
-- What is sealed with a key and a nonce is opened with the same ones, and nonces do not repeat.
use gravital_sound.Common.{
  ℕ, ◌+◌, ◌-◌, ◌^◌, ◌<◌, ◌≡◌, refl, sym, ap, ◌∙◌, arith, List, [], ◌∷◌, ◌++◌, length, take, drop,
  replicate,
}
use gravital_sound.Common.{
  some, ok, length-append, take-append_length, take-length, drop-append_length, append-nil,
  ge→ltb_false,
}
use gravital_sound.Wire.{
  IsBytes, IsBytes-append, slice, copy_from_slice, copy_from_slice-append, to_be_bytes,
  to_be_bytes_injective,
}
use gravital_sound.Crypto.{
  Aead, SessionKey, tag_size, make_nonce, encrypt_in_place, decrypt_in_place,
}

make_nonce_lem :
    (sequence session_id : ℕ)
    → make_nonce sequence session_id
      ≡ (to_be_bytes 4 sequence ++ to_be_bytes 4 session_id) ++ (0 ∷ 0 ∷ 0 ∷ 0 ∷ [])
unfolding make_nonce copy_from_slice to_be_bytes
make_nonce_lem sequence session_id = refl

first_of :
    (sequence session_id : ℕ)
    → take 4 ((to_be_bytes 4 sequence ++ to_be_bytes 4 session_id) ++ (0 ∷ 0 ∷ 0 ∷ 0 ∷ []))
      ≡ to_be_bytes 4 sequence
unfolding to_be_bytes
first_of sequence session_id = refl

second_of :
    (sequence session_id : ℕ)
    → take 4 (drop 4 ((to_be_bytes 4 sequence ++ to_be_bytes 4 session_id) ++ (0 ∷ 0 ∷ 0 ∷ 0 ∷ [])))
      ≡ to_be_bytes 4 session_id
unfolding to_be_bytes
second_of sequence session_id = refl

-- Two nonces of sequences and session numbers of 32 bits are equal only if the sequences are
-- equal and the session numbers are equal.
pub make_nonce_injective :
    (sequence session_id sequence' session_id' : ℕ)
    → sequence < 2 ^ 32
    → session_id < 2 ^ 32
    → sequence' < 2 ^ 32
    → session_id' < 2 ^ 32
    → make_nonce sequence session_id ≡ make_nonce sequence' session_id'
    → (sequence ≡ sequence') × (session_id ≡ session_id')
make_nonce_injective sequence session_id sequence' session_id' h i h' i' e = (
  to_be_bytes_injective 4 sequence sequence' h h' (first_word e),
  to_be_bytes_injective 4 session_id session_id' i i' (second_word e),
)
  where
    words :
        make_nonce sequence session_id ≡ make_nonce sequence' session_id'
        → (to_be_bytes 4 sequence ++ to_be_bytes 4 session_id) ++ (0 ∷ 0 ∷ 0 ∷ 0 ∷ [])
          ≡ (to_be_bytes 4 sequence' ++ to_be_bytes 4 session_id') ++ (0 ∷ 0 ∷ 0 ∷ 0 ∷ [])
    words e = sym (make_nonce_lem sequence session_id) ∙ e ∙ make_nonce_lem sequence' session_id'

    first_word :
        make_nonce sequence session_id ≡ make_nonce sequence' session_id'
        → to_be_bytes 4 sequence ≡ to_be_bytes 4 sequence'
    first_word e =
        sym (first_of sequence session_id) ∙ ap (take 4) (words e) ∙ first_of sequence' session_id'

    second_word :
        make_nonce sequence session_id ≡ make_nonce sequence' session_id'
        → to_be_bytes 4 session_id ≡ to_be_bytes 4 session_id'
    second_word e =
        sym (second_of sequence session_id)
        ∙ ap (λ t. take 4 (drop 4 t)) (words e)
        ∙ second_of sequence' session_id'

-- The tag takes the place of the room that was left for it, and the text that of the plain one.
sealed_buffer :
    (plain text tag : List ℕ)
    → length text ≡ length plain
    → length tag ≡ tag_size
    → copy_from_slice (copy_from_slice (plain ++ replicate tag_size 0) 0 text) (length plain) tag
      ≡ text ++ tag
sealed_buffer plain text tag e t =
    ap (λ b. copy_from_slice b (length plain) tag)
      (copy_from_slice-append [] (plain ++ replicate tag_size 0) text 0 refl
        ∙ ap (λ r. text ++ r) room)
    ∙ copy_from_slice-append text (replicate tag_size 0) tag (length plain) (sym e)
    ∙ ap (λ r. (text ++ tag) ++ r) (ap (λ n. drop n (replicate tag_size 0)) t)
    ∙ append-nil (text ++ tag)
  where
    room : drop (length text) (plain ++ replicate tag_size 0) ≡ replicate tag_size 0
    room =
        ap (λ n. drop n (plain ++ replicate tag_size 0)) e
        ∙ drop-append_length plain (replicate tag_size 0)

pub encrypt_in_place_lem :
    (A : Aead) (key : SessionKey) (nonce aad plain text tag : List ℕ)
    → A.seal key nonce aad plain ≡ some (text, tag)
    → length text ≡ length plain
    → length tag ≡ tag_size
    → encrypt_in_place A key nonce aad (plain ++ replicate tag_size 0) (length plain)
      ≡ ok (text ++ tag, length plain + tag_size)
unfolding encrypt_in_place
encrypt_in_place_lem A key nonce aad plain text tag e l t = rw (
  ge→ltb_false (length (plain ++ replicate tag_size 0)) (length plain + tag_size)
      (omega (arith, length-append plain (replicate tag_size 0))),
  take-append_length plain (replicate tag_size 0),
  e,
  sealed_buffer plain text tag l t,
)

pub decrypt_in_place_lem :
    (A : Aead) (key : SessionKey) (nonce aad plain text tag : List ℕ)
    → A.open_sealed key nonce aad text tag ≡ some plain
    → length text ≡ length plain
    → length tag ≡ tag_size
    → decrypt_in_place A key nonce aad (text ++ tag) (length (text ++ tag))
      ≡ ok (plain ++ tag, length plain)
unfolding decrypt_in_place slice
decrypt_in_place_lem A key nonce aad plain text tag e l t = rw (
  ge→ltb_false (length (text ++ tag)) tag_size (omega (arith, total)),
  ge→ltb_false (length (text ++ tag)) (length (text ++ tag)) (omega arith),
  before,
  take-append_length text tag,
  drop-append_length text tag,
  ap (λ n. take n tag) (sym t) ∙ take-length tag,
  e,
  opened,
  before,
  l,
)
  where
    total : length (text ++ tag) ≡ length text + tag_size
    total = omega (arith, length-append text tag, t)

    before : length (text ++ tag) - tag_size ≡ length text
    before = omega (arith, total)

    opened : copy_from_slice (text ++ tag) 0 plain ≡ plain ++ tag
    opened =
        copy_from_slice-append [] (text ++ tag) plain 0 refl
        ∙ ap (λ n. plain ++ drop n (text ++ tag)) (sym l)
        ∙ ap (λ r. plain ++ r) (drop-append_length text tag)

-- With any AEAD, key, nonce and associated data, `encrypt_in_place` fills a buffer that has
-- exactly the room for the tag behind a plain text of less than 2^16 bytes, and
-- `decrypt_in_place` of the whole of it with the same key, nonce and data succeeds and leaves the
-- plain text and its length.
pub decrypt_in_place-encrypt_in_place :
    (A : Aead) (key : SessionKey) (nonce aad plain : List ℕ)
    → IsBytes plain
    → length plain < 2 ^ 16
    → (sealed : List ℕ) × (buffer : List ℕ) × (length sealed ≡ length plain + tag_size)
      × IsBytes sealed
      × (encrypt_in_place A key nonce aad (plain ++ replicate tag_size 0) (length plain)
          ≡ ok (sealed, length plain + tag_size))
      × (decrypt_in_place A key nonce aad sealed (length sealed) ≡ ok (buffer, length plain))
      × (take (length plain) buffer ≡ plain)
decrypt_in_place-encrypt_in_place A key nonce aad plain bytes len =
    let sealed = A.seal_some key nonce aad plain len in
    let facts = A.seal_lem key nonce aad plain sealed.0.0 sealed.0.1 bytes sealed.1 in
    (
      sealed.0.0 ++ sealed.0.1,
      plain ++ sealed.0.1,
      omega (arith, length-append sealed.0.0 sealed.0.1, facts),
      IsBytes-append sealed.0.0 sealed.0.1 facts.3 facts.4,
      encrypt_in_place_lem A key nonce aad plain sealed.0.0 sealed.0.1 sealed.1 facts.1 facts.2,
      decrypt_in_place_lem A key nonce aad plain sealed.0.0 sealed.0.1 facts.0 facts.1 facts.2,
      take-append_length plain sealed.0.1,
    )
