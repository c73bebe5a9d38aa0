-- ===== src/Crypto.antt =====
-- crates/gravital-talk-core/src/crypto.rs: nonces and authenticated encryption of payloads.
-- ChaCha20-Poly1305 is the parameter `Aead`.
pub mod Sealing
pub mod Plain
mod Examples
use gravital_sound.Common.{
  ℕ, ◌+◌, ◌-◌, ◌^◌, ◌<◌, ◌≡◌, List, [], ◌∷◌, ◌++◌, length, take, drop, replicate, ltb,
}
use gravital_sound.Common.{Option, none, some, Result, ok, err, ◌>>=◌, ◌>>◌, fail_if}
use gravital_sound.Wire.{IsBytes, slice, copy_from_slice, to_be_bytes}
use gravital_sound.Protocol.{Error, buffer_too_small, decryption_failed, too_short}

abbrev pub key_size : ℕ
key_size = 32

abbrev pub tag_size : ℕ
tag_size = 16

abbrev pub nonce_size : ℕ
nonce_size = 12

-- `SessionKey`
abbrev pub SessionKey : Type 0
SessionKey = List ℕ

-- `encrypt_in_place_detached` and `decrypt_in_place_detached` of the crate chacha20poly1305, as
-- functions of key, nonce, associated data and bytes, with what RFC 8439 says of them: a sealed
-- text has the length of the plain one and a tag of 16 bytes, it opens to the plain text, and the
-- limit on lengths is far above that of a datagram.
pub record Aead : Type 0 where
  pub seal : SessionKey → List ℕ → List ℕ → List ℕ → Option (List ℕ × List ℕ)
  pub open_sealed : SessionKey → List ℕ → List ℕ → List ℕ → List ℕ → Option (List ℕ)
  pub seal_some :
      (key : SessionKey) (nonce aad plain : List ℕ)
      → length plain < 2 ^ 16
      → (sealed : List ℕ × List ℕ) × (seal key nonce aad plain ≡ some sealed)
  pub seal_lem :
      (key : SessionKey) (nonce aad plain text tag : List ℕ)
      → IsBytes plain
      → seal key nonce aad plain ≡ some (text, tag)
      → (open_sealed key nonce aad text tag ≡ some plain)
        × (length text ≡ length plain)
        × (length tag ≡ tag_size)
        × IsBytes text
        × IsBytes tag

unfoldable pub make_nonce : ℕ → ℕ → List ℕ
unfolding copy_from_slice
make_nonce sequence session_id =
    copy_from_slice (copy_from_slice (replicate nonce_size 0) 0 (to_be_bytes 4 sequence)) 4
      (to_be_bytes 4 session_id)

-- `encrypt_in_place`: the buffer after the call and the number of bytes written.
unfoldable pub encrypt_in_place :
    Aead → SessionKey → List ℕ → List ℕ → List ℕ → ℕ → Result Error (List ℕ × ℕ)
encrypt_in_place A key nonce aad buffer plaintext_len = do
  fail_if (ltb (length buffer) (plaintext_len + tag_size)) buffer_too_small
  elim (A.seal key nonce aad (take plaintext_len buffer)) [
    | none ↦ err decryption_failed
    | some (text, tag) ↦ ok (
      copy_from_slice (copy_from_slice buffer 0 text) plaintext_len tag,
      plaintext_len + tag_size,
    )
  ]

-- `decrypt_in_place`: the buffer after the call and the length of the plain text.
unfoldable pub decrypt_in_place :
    Aead → SessionKey → List ℕ → List ℕ → List ℕ → ℕ → Result Error (List ℕ × ℕ)
decrypt_in_place A key nonce aad buffer ciphertext_len = do
  fail_if (ltb ciphertext_len tag_size) too_short
  fail_if (ltb (length buffer) ciphertext_len) buffer_too_small
  let plaintext_len = ciphertext_len - tag_size
  let tag = slice buffer plaintext_len tag_size
  elim (A.open_sealed key nonce aad (take plaintext_len buffer) tag) [
    | none ↦ err decryption_failed
    | some plain ↦ ok (copy_from_slice buffer 0 plain, plaintext_len)
  ]
