-- ===== src/Wire/Layout.antt =====
-- Layouts: what an encoder writes, as the ranges that it fills in order, and reading them back.
use gravital_sound.Common.{take-append-drop, drop-nil}
use gravital_sound.Common.{ℕ, zero, suc, ◌+◌, ◌≤◌, ◌<◌, ◌≡◌, refl, sym, ap, ap₂, ◌∙◌, subst, arith}
use gravital_sound.Common.{List, [], ◌∷◌, ◌++◌, append_assoc}
use gravital_sound.Common.{length, take, drop, get_or, length-append, length-take, length-drop}
use gravital_sound.Common.{take-append_length, drop-append_length, drop-drop}

-- `buf[i]`. Every read of the program is behind a test of the length.
abbrev pub byte_at : List ℕ → ℕ → ℕ
byte_at buf i = get_or buf i 0

-- `&buf[at..at + size]`
unfoldable pub slice : List ℕ → ℕ → ℕ → List ℕ
slice buf at size = take size (drop at buf)

-- `buf[at..at + size].copy_from_slice(bytes)`, where `size` is the length of `bytes`.
unfoldable pub copy_from_slice : List ℕ → ℕ → List ℕ → List ℕ
copy_from_slice buf at bytes = take at buf ++ (bytes ++ drop (at + length bytes) buf)

-- One statement of an encoder: the range `at..at + size` and the bytes that go there.
pub record Field : Type 0 where
  pub at : ℕ
  pub size : ℕ
  pub bytes : List ℕ

abbrev pub field : ℕ → ℕ → List ℕ → Field
field at size bytes = record { at = at; size = size; bytes = bytes }

-- The statements of an encoder, in order.
unfoldable pub writes : List ℕ → List Field → List ℕ
writes buf [] = buf
writes buf (f ∷ fs) = writes (copy_from_slice buf f.at f.bytes) fs

-- The fields follow one another from `at`, and each has as many bytes as its range.
abbrev pub IsLayout : ℕ → List Field → Type 0
IsLayout at [] = Unit
IsLayout at (f ∷ fs) = (f.at ≡ at) × (length f.bytes ≡ f.size) × IsLayout (at + f.size) fs

abbrev pub bytes_of : List Field → List ℕ
bytes_of [] = []
bytes_of (f ∷ fs) = f.bytes ++ bytes_of fs

abbrev pub size_of : List Field → ℕ
size_of [] = 0
size_of (f ∷ fs) = f.size + size_of fs

-- Each range of `buf` holds the bytes of its field.
abbrev pub Holds : List ℕ → List Field → Type 0
Holds buf [] = Unit
Holds buf (f ∷ fs) = (slice buf f.at f.size ≡ f.bytes) × Holds buf fs

-- A range of one byte is read by its index.
pub byte_at-slice : (buf : List ℕ) (i b : ℕ) → slice buf i 1 ≡ b ∷ [] → byte_at buf i ≡ b
unfolding slice
byte_at-slice [] zero b h = cc
byte_at-slice [] (suc i) b h = cc
byte_at-slice (x ∷ xs) zero b h = cc
byte_at-slice (x ∷ xs) (suc i) b h = byte_at-slice xs i b h

pub slice-byte_at : (buf : List ℕ) (i : ℕ) → i < length buf → slice buf i 1 ≡ byte_at buf i ∷ []
unfolding slice
slice-byte_at [] i h = absurd (omega arith)
slice-byte_at (x ∷ xs) zero h = refl
slice-byte_at (x ∷ xs) (suc i) h = slice-byte_at xs i (omega arith)

pub length-slice :
    (buf : List ℕ) (at size : ℕ) → at + size ≤ length buf → length (slice buf at size) ≡ size
unfolding slice
length-slice buf at size h = omega (arith, length-take size (drop at buf), length-drop at buf)

pub slice-append :
    (pre bytes rest : List ℕ) (at size : ℕ)
    → at ≡ length pre
    → length bytes ≡ size
    → slice (pre ++ (bytes ++ rest)) at size ≡ bytes
unfolding slice
slice-append pre bytes rest at size e n =
    ap₂ (λ k l. take l (drop k (pre ++ (bytes ++ rest)))) e (sym n)
    ∙ ap (take (length bytes)) (drop-append_length pre (bytes ++ rest))
    ∙ take-append_length bytes rest

pub copy_from_slice-append :
    (pre rest bytes : List ℕ) (at : ℕ)
    → at ≡ length pre
    → copy_from_slice (pre ++ rest) at bytes ≡ (pre ++ bytes) ++ drop (length bytes) rest
unfolding copy_from_slice
copy_from_slice-append pre rest bytes at e =
    ap (λ k. take k (pre ++ rest) ++ (bytes ++ drop (k + length bytes) (pre ++ rest))) e
    ∙ ap₂ (λ l r. l ++ (bytes ++ r)) (take-append_length pre rest) dropped
    ∙ sym (append_assoc pre bytes (drop (length bytes) rest))
  where
    dropped : drop (length pre + length bytes) (pre ++ rest) ≡ drop (length bytes) rest
    dropped =
        sym (drop-drop (length bytes) (length pre) (pre ++ rest))
        ∙ ap (drop (length bytes)) (drop-append_length pre rest)

IsLayout-append :
    (f : Field) (fs : List Field) (pre : List ℕ)
    → IsLayout (length pre) (f ∷ fs)
    → IsLayout (length (pre ++ f.bytes)) fs
IsLayout-append f fs pre h =
    subst (λ k. IsLayout k fs)
      (ap (λ k. length pre + k) (sym h.1) ∙ sym (length-append pre f.bytes)) h.2

take-nil : (n : ℕ) → take {A = ℕ} n [] ≡ []
take-nil zero = refl
take-nil (suc n) = refl

-- A sequence of writes that follow one another leaves their bytes, and then the rest of the buffer.
pub writes-append :
    (fs : List Field) (pre rest : List ℕ)
    → IsLayout (length pre) fs
    → writes (pre ++ rest) fs ≡ pre ++ (bytes_of fs ++ drop (length (bytes_of fs)) rest)
unfolding writes
writes-append [] pre rest h = refl
writes-append (f ∷ fs) pre rest h =
    ap (λ b. writes b fs) (copy_from_slice-append pre rest f.bytes f.at h.0)
    ∙ writes-append fs (pre ++ f.bytes) (drop (length f.bytes) rest) (IsLayout-append f fs pre h)
    ∙ append_assoc pre f.bytes (bytes_of fs ++ later)
    ∙ ap (λ t. pre ++ t) (sym (append_assoc f.bytes (bytes_of fs) later))
    ∙ ap (λ t. pre ++ ((f.bytes ++ bytes_of fs) ++ t)) dropped
  where
    later : List ℕ
    later = drop (length (bytes_of fs)) (drop (length f.bytes) rest)

    dropped : later ≡ drop (length (f.bytes ++ bytes_of fs)) rest
    dropped =
        drop-drop (length (bytes_of fs)) (length f.bytes) rest
        ∙ ap (λ k. drop k rest) (sym (length-append f.bytes (bytes_of fs)))

pub Holds-append :
    (fs : List Field) (pre rest : List ℕ)
    → IsLayout (length pre) fs
    → Holds (pre ++ (bytes_of fs ++ rest)) fs
Holds-append [] pre rest h = tt
Holds-append (f ∷ fs) pre rest h = (
  subst (λ b. slice (pre ++ b) f.at f.size ≡ f.bytes)
      (sym (append_assoc f.bytes (bytes_of fs) rest))
      (slice-append pre f.bytes (bytes_of fs ++ rest) f.at f.size h.0 h.1),
  subst (λ b. Holds b fs)
      (append_assoc pre f.bytes (bytes_of fs ++ rest)
        ∙ ap (λ t. pre ++ t) (sym (append_assoc f.bytes (bytes_of fs) rest)))
      (Holds-append fs (pre ++ f.bytes) rest (IsLayout-append f fs pre h)),
)

-- An encoder that fills its buffer from the start leaves every field where a decoder reads it.
pub writes-Holds : (fs : List Field) (buf : List ℕ) → IsLayout 0 fs → Holds (writes buf fs) fs
writes-Holds fs buf h =
    subst (λ b. Holds b fs) (sym (writes-append fs [] buf h))
      (Holds-append fs [] (drop (length (bytes_of fs)) buf) h)

pub writes-bytes_of :
    (fs : List Field) (buf : List ℕ)
    → IsLayout 0 fs
    → writes buf fs ≡ bytes_of fs ++ drop (length (bytes_of fs)) buf
writes-bytes_of fs buf h = writes-append fs [] buf h

take-add : (m n : ℕ) (xs : List ℕ) → take (m + n) xs ≡ take m xs ++ take n (drop m xs)
take-add zero n xs = ap (λ k. take k xs) (omega arith)
take-add (suc m) n [] = take-nil (suc m + n) ∙ sym (take-nil n)
take-add (suc m) n (x ∷ xs) = ap (λ k. take k (x ∷ xs)) suc_add ∙ ap (λ t. x ∷ t) (take-add m n xs)
  where
    suc_add : suc m + n ≡ suc (m + n)
    suc_add = omega arith

-- Fields that a buffer holds one after another are a range of it.
pub Holds-bytes_of :
    (fs : List Field) (buf : List ℕ) (at : ℕ)
    → IsLayout at fs
    → Holds buf fs
    → bytes_of fs ≡ slice buf at (length (bytes_of fs))
unfolding slice
Holds-bytes_of [] buf at l h = refl
Holds-bytes_of (f ∷ fs) buf at l h =
    ap₂ ◌++◌ first (Holds-bytes_of fs buf (at + f.size) l.2 h.1 ∙ later)
    ∙ sym (take-add (length f.bytes) (length (bytes_of fs)) (drop at buf))
    ∙ ap (λ k. take k (drop at buf)) (sym (length-append f.bytes (bytes_of fs)))
  where
    first : f.bytes ≡ take (length f.bytes) (drop at buf)
    first = sym h.0 ∙ ap₂ (λ a k. take k (drop a buf)) l.0 (sym l.1)

    later :
        take (length (bytes_of fs)) (drop (at + f.size) buf)
        ≡ take (length (bytes_of fs)) (drop (length f.bytes) (drop at buf))
    later =
        ap (take (length (bytes_of fs)))
          (ap (λ k. drop (at + k) buf) (sym l.1) ∙ sym (drop-drop (length f.bytes) at buf))

pub length-bytes_of :
    (fs : List Field) (at : ℕ) → IsLayout at fs → length (bytes_of fs) ≡ size_of fs
length-bytes_of [] at l = refl
length-bytes_of (f ∷ fs) at l =
    omega (arith, length-append f.bytes (bytes_of fs), l.1, length-bytes_of fs (at + f.size) l.2)

pub drop-slice :
    (buf : List ℕ) (at size : ℕ) → drop at buf ≡ slice buf at size ++ drop (at + size) buf
unfolding slice
drop-slice buf at size =
    sym (take-append-drop size (drop at buf))
    ∙ ap (λ t. take size (drop at buf) ++ t) (drop-drop size at buf)

pub drop-all : (xs : List ℕ) (n : ℕ) → length xs ≤ n → drop n xs ≡ []
drop-all [] n h = drop-nil n
drop-all (x ∷ xs) zero h = absurd (omega arith)
drop-all (x ∷ xs) (suc n) h = drop-all xs n (omega arith)

pub slice-start : (buf : List ℕ) (n : ℕ) → slice buf 0 n ≡ take n buf
unfolding slice
slice-start buf n = refl
