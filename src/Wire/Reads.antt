-- ===== src/Wire/Reads.antt =====
-- Reading the words of a layout back, and writing again what was read.
use gravital_sound.Common.{ℕ, zero, suc, ◌+◌, ◌^◌, ◌≤◌, ◌<◌, ◌≡◌, sym, ap, ◌∙◌, subst}
use gravital_sound.Common.{List, [], ◌∷◌, ◌++◌, length, take, drop, arith, length-append}
use gravital_sound.Common.{length-drop}
use gravital_sound.Wire.Words.{IsBytes, to_be_bytes, from_be_bytes, from_be_bytes-to_be_bytes}
use gravital_sound.Wire.Words.{to_be_bytes-from_be_bytes, from_be_bytes-lt}
use gravital_sound.Wire.Layout.{Field, IsLayout, Holds, bytes_of, slice, writes, byte_at}
use gravital_sound.Wire.Layout.{length-slice, writes-bytes_of, Holds-bytes_of, size_of}
use gravital_sound.Wire.Layout.{length-bytes_of, writes-Holds}

-- A word field that a buffer holds is read back.
pub word-slice :
    (n x : ℕ) (buf : List ℕ) (at : ℕ)
    → x < 256 ^ n
    → slice buf at n ≡ to_be_bytes n x
    → from_be_bytes (slice buf at n) ≡ x
word-slice n x buf at lt h = ap from_be_bytes h ∙ from_be_bytes-to_be_bytes n x lt

pub IsBytes-take : (n : ℕ) (xs : List ℕ) → IsBytes xs → IsBytes (take n xs)
IsBytes-take zero xs h = tt
IsBytes-take (suc n) [] h = tt
IsBytes-take (suc n) (x ∷ xs) h = (h.0, IsBytes-take n xs h.1)

pub IsBytes-drop : (n : ℕ) (xs : List ℕ) → IsBytes xs → IsBytes (drop n xs)
IsBytes-drop zero xs h = h
IsBytes-drop (suc n) [] h = tt
IsBytes-drop (suc n) (x ∷ xs) h = IsBytes-drop n xs h.1

pub IsBytes-append : (xs ys : List ℕ) → IsBytes xs → IsBytes ys → IsBytes (xs ++ ys)
IsBytes-append [] ys h k = k
IsBytes-append (x ∷ xs) ys h k = (h.0, IsBytes-append xs ys h.1 k)

pub slice-IsBytes : (buf : List ℕ) (at n : ℕ) → IsBytes buf → IsBytes (slice buf at n)
unfolding slice
slice-IsBytes buf at n h = IsBytes-take n (drop at buf) (IsBytes-drop at buf h)

pub byte_at-lt : (buf : List ℕ) (i : ℕ) → IsBytes buf → byte_at buf i < 256
byte_at-lt [] i h = omega arith
byte_at-lt (x ∷ xs) zero h = h.0
byte_at-lt (x ∷ xs) (suc i) h = byte_at-lt xs i h.1

-- The word that is read at a range is in the range of its type, and writing it again gives the
-- same bytes.
pub slice-word :
    (buf : List ℕ) (at n : ℕ)
    → IsBytes buf
    → at + n ≤ length buf
    → slice buf at n ≡ to_be_bytes n (from_be_bytes (slice buf at n))
slice-word buf at n h fits =
    sym (to_be_bytes-from_be_bytes (slice buf at n) (slice-IsBytes buf at n h))
    ∙ ap (λ k. to_be_bytes k (from_be_bytes (slice buf at n))) (length-slice buf at n fits)

pub slice-word_lt :
    (buf : List ℕ) (at n : ℕ)
    → IsBytes buf
    → at + n ≤ length buf
    → from_be_bytes (slice buf at n) < 256 ^ n
slice-word_lt buf at n h fits =
    subst (λ k. from_be_bytes (slice buf at n) < 256 ^ k) (length-slice buf at n fits)
      (from_be_bytes-lt (slice buf at n) (slice-IsBytes buf at n h))

pub length-writes :
    (fs : List Field) (buf : List ℕ)
    → IsLayout 0 fs
    → size_of fs ≤ length buf
    → length (writes buf fs) ≡ length buf
length-writes fs buf l fits = omega (
  arith,
  ap length (writes-bytes_of fs buf l),
  length-append (bytes_of fs) (drop (length (bytes_of fs)) buf),
  length-drop (length (bytes_of fs)) buf,
  length-bytes_of fs 0 l,
)

-- A buffer that an encoder has filled is long enough for the decoder, and holds the fields.
pub writes-ready :
    (fs : List Field) (buf : List ℕ) (size : ℕ)
    → IsLayout 0 fs
    → size_of fs ≤ size
    → size ≤ length buf
    → (size ≤ length (writes buf fs)) × Holds (writes buf fs) fs
writes-ready fs buf size l s len =
    (omega (arith, length-writes fs buf l (omega arith)), writes-Holds fs buf l)

-- Fields that were read from the start of `src` are written as the bytes of `src`.
pub writes-Holds_of :
    (fs : List Field) (src dst : List ℕ) (size : ℕ)
    → IsLayout 0 fs
    → size_of fs ≡ size
    → Holds src fs
    → writes dst fs ≡ take size src ++ drop size dst
unfolding slice
writes-Holds_of fs src dst size l e h =
    writes-bytes_of fs dst l
    ∙ ap (λ b. b ++ drop (length (bytes_of fs)) dst) (Holds-bytes_of fs src 0 l h)
    ∙ ap (λ k. take k src ++ drop k dst) (length-bytes_of fs 0 l ∙ e)
