-- ===== src/Crypto/Plain.antt =====
-- A cipher for tests: the text stays as it is, and the tag is sixteen zeros.
use gravital_sound.Common.{ℕ, ◌≡◌, refl, arith, List, length, replicate, Option, some}
use gravital_sound.Wire.{IsBytes}
use gravital_sound.Crypto.{Aead, tag_size}

pub seal_plain_lem :
    (plain text tag : List ℕ)
    → IsBytes plain
    → ◌≡◌ {A = Option (List ℕ × List ℕ)} (some (plain, replicate tag_size 0)) (some (text, tag))
    → (some text ≡ some plain)
      × (length text ≡ length plain)
      × (length tag ≡ tag_size)
      × IsBytes text
      × IsBytes tag
seal_plain_lem plain text tag bytes e = ground arith

abbrev pub plain_aead : Aead
plain_aead = record {
  seal = λ key nonce aad plain. some (plain, replicate tag_size 0);
  open_sealed = λ key nonce aad text tag. some text;
  seal_some = λ key nonce aad plain h. ((plain, replicate tag_size 0), refl);
  seal_lem = λ key nonce aad plain text tag. seal_plain_lem plain text tag;
}
