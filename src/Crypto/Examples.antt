-- ===== src/Crypto/Examples.antt =====
-- Tests of the sealing of payloads, and instances of the theorems about it.
use gravital_sound.Common.{
  ℕ, ◌+◌, ◌≡◌, refl, arith, List, [], ◌∷◌, ◌++◌, length, take, replicate, ok, err,
}
use gravital_sound.Wire.{IsBytes, copy_from_slice, to_be_bytes}
use gravital_sound.Protocol.{too_short, buffer_too_small}
use gravital_sound.Crypto.{tag_size, make_nonce, encrypt_in_place, decrypt_in_place}
use gravital_sound.Crypto.Plain.{plain_aead}
use gravital_sound.Crypto.Sealing.{make_nonce_injective, decrypt_in_place-encrypt_in_place}

test_nonce : make_nonce 0x01020304 0x05060708 ≡ 1 ∷ 2 ∷ 3 ∷ 4 ∷ 5 ∷ 6 ∷ 7 ∷ 8 ∷ 0 ∷ 0 ∷ 0 ∷ 0 ∷ []
unfolding make_nonce copy_from_slice to_be_bytes
test_nonce = refl

test_short : decrypt_in_place plain_aead [] [] [] (1 ∷ 2 ∷ []) 2 ≡ err too_short
unfolding decrypt_in_place
test_short = refl

test_no_room : encrypt_in_place plain_aead [] [] [] (1 ∷ 2 ∷ []) 2 ≡ err buffer_too_small
unfolding encrypt_in_place
test_no_room = refl

decrypt_in_place-encrypt_in_place_example :
    (sealed : List ℕ) × (buffer : List ℕ) × (length sealed ≡ 3 + tag_size)
    × IsBytes sealed
    × (encrypt_in_place plain_aead
          (7 ∷ [])
          (make_nonce 1 2)
          (9 ∷ [])
          ((1 ∷ 2 ∷ 3 ∷ []) ++ replicate tag_size 0)
          3
        ≡ ok (sealed, 3 + tag_size))
    × (decrypt_in_place plain_aead (7 ∷ []) (make_nonce 1 2) (9 ∷ []) sealed (length sealed)
        ≡ ok (buffer, 3))
    × (take 3 buffer ≡ 1 ∷ 2 ∷ 3 ∷ [])
decrypt_in_place-encrypt_in_place_example =
    decrypt_in_place-encrypt_in_place plain_aead (7 ∷ []) (make_nonce 1 2) (9 ∷ []) (1 ∷ 2 ∷ 3 ∷ [])
      (omega arith) (omega arith)

make_nonce_injective_example : ◌≡◌ {A = ℕ} 5 5 × ◌≡◌ {A = ℕ} 6 6
make_nonce_injective_example =
    make_nonce_injective 5 6 5 6 (omega arith) (omega arith) (omega arith) (omega arith) refl
