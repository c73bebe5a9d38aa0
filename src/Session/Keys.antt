-- ===== src/Session/Keys.antt =====
-- crates/gravital-talk-transport/src/session.rs: the keys and tags of a handshake.
-- X25519 and HKDF-SHA256 are the parameter `KeyAgreement`.
use gravital_sound.Common.{
  ℕ, ◌≡◌, List, [], ◌∷◌, ◌++◌, length, bit_or, bit_xor, Bool, ◌==◌, Option, none, some, replicate,
}
use gravital_sound.Wire.{IsBytes, copy_from_slice, to_be_bytes}
use gravital_sound.Crypto.{SessionKey}

-- The crates x25519-dalek and hkdf: public keys are 32 bytes, both sides of an exchange compute
-- the same secret, and an expansion has the length that was asked for.
pub record KeyAgreement : Type 0 where
  pub public_key : List ℕ → List ℕ
  pub diffie_hellman : List ℕ → List ℕ → List ℕ
  pub expand : Option (List ℕ) → List ℕ → List ℕ → ℕ → List ℕ
  pub length-public_key : (secret : List ℕ) → length (public_key secret) ≡ 32
  pub public_key-IsBytes : (secret : List ℕ) → IsBytes (public_key secret)
  pub diffie_hellman_comm :
      (a b : List ℕ) → diffie_hellman a (public_key b) ≡ diffie_hellman b (public_key a)
  pub length-expand :
      (salt : Option (List ℕ)) (ikm info : List ℕ) (size : ℕ)
      → length (expand salt ikm info size) ≡ size
  pub expand-IsBytes :
      (salt : Option (List ℕ)) (ikm info : List ℕ) (size : ℕ) → IsBytes (expand salt ikm info size)

-- `build_transcript`
unfoldable pub build_transcript : List ℕ → List ℕ → ℕ → List ℕ
unfolding copy_from_slice
build_transcript client_nonce server_nonce session_id =
    copy_from_slice
      (copy_from_slice (copy_from_slice (replicate 68 0) 0 client_nonce) 32 server_nonce) 64
      (to_be_bytes 4 session_id)

-- The label `GS-encrypt-v1`
abbrev pub encrypt_label : List ℕ
encrypt_label =
    b'G' ∷ b'S' ∷ b'-' ∷ b'e' ∷ b'n' ∷ b'c' ∷ b'r' ∷ b'y' ∷ b'p' ∷ b't' ∷ b'-' ∷ b'v' ∷ b'1' ∷ []

-- The label `GS-decrypt-v1`
abbrev pub decrypt_label : List ℕ
decrypt_label =
    b'G' ∷ b'S' ∷ b'-' ∷ b'd' ∷ b'e' ∷ b'c' ∷ b'r' ∷ b'y' ∷ b'p' ∷ b't' ∷ b'-' ∷ b'v' ∷ b'1' ∷ []

-- The label `GS-client-fin-v1`
abbrev pub client_label : List ℕ
client_label =
    b'G' ∷ b'S' ∷ b'-' ∷ b'c' ∷ b'l' ∷ b'i' ∷ b'e' ∷ b'n' ∷ b't' ∷ b'-' ∷ b'f' ∷ b'i' ∷ b'n' ∷ b'-'
    ∷ b'v' ∷ b'1' ∷ []

-- The label `GS-server-fin-v1`
abbrev pub server_label : List ℕ
server_label =
    b'G' ∷ b'S' ∷ b'-' ∷ b's' ∷ b'e' ∷ b'r' ∷ b'v' ∷ b'e' ∷ b'r' ∷ b'-' ∷ b'f' ∷ b'i' ∷ b'n' ∷ b'-'
    ∷ b'v' ∷ b'1' ∷ []

module _ (K : KeyAgreement) where
  -- `derive_session_keys`
  unfoldable pub derive_session_keys : List ℕ → List ℕ → SessionKey × SessionKey
  derive_session_keys shared_secret transcript = (
    K.expand (some transcript) shared_secret encrypt_label 32,
    K.expand (some transcript) shared_secret decrypt_label 32,
  )

  -- `derive_auth_tag`
  unfoldable pub derive_auth_tag : SessionKey → List ℕ → List ℕ → List ℕ
  derive_auth_tag key label transcript = K.expand none key (label ++ transcript) 16

-- `diff |= a[i] ^ b[i]`, over the bytes of two arrays.
unfoldable pub differences : ℕ → List ℕ → List ℕ → ℕ
differences diff [] bs = diff
differences diff (a ∷ xs) [] = diff
differences diff (a ∷ xs) (b ∷ bs) = differences (bit_or diff (bit_xor a b)) xs bs

-- `constant_time_eq`
unfoldable pub constant_time_eq : List ℕ → List ℕ → Bool
unfolding differences
constant_time_eq a b = differences 0 a b == 0
