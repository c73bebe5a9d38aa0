-- ===== src/Fec/Recovery.antt =====
-- The one frame of a group that is missing is recovered from the parity and the others.
use gravital_sound.Common.{
  ℕ, ◌+◌, ◌-◌, ◌%◌, ◌^◌, ◌≤◌, ◌<◌, max, ◌≡◌, refl, sym, ap, ap₂, ◌∙◌, bit_xor,
}
use gravital_sound.Common.{List, [], ◌∷◌, ◌++◌, length, map, Option, none, some, replicate, arith}
use gravital_sound.Common.{length-append, length-replicate, true}
use gravital_sound.Common.Bits.{zero-bit_xor, bit_xor_comm, bit_xor_assoc, bit_xor_cancel}
use gravital_sound.Wire.{byte_at}
use gravital_sound.Fec.{
  FecDecoder, FecParity, push_parity, missing_from, enter_group, recover_missing, xor_others,
  xor_into,
}
use gravital_sound.Fec.Bytewise.{
  byte_ext, byte_at-pad, length-xor_into, byte_at-xor_into, absorb_all,
}
use gravital_sound.Fec.Bytewise.{column, byte_at-absorb_all, longest, length-absorb_all}

missing_from-all : (fs : List (List ℕ)) (i : ℕ) → missing_from i (map some fs) ≡ []
unfolding missing_from
missing_from-all [] i = refl
missing_from-all (f ∷ fs) i = missing_from-all fs (i + 1)

-- A group without its frame number `length pre`.
abbrev pub with_gap : List (List ℕ) → List (List ℕ) → List (Option (List ℕ))
with_gap [] post = none ∷ map some post
with_gap (f ∷ pre) post = some f ∷ with_gap pre post

missing_from-with_gap :
    (pre post : List (List ℕ)) (i : ℕ) → missing_from i (with_gap pre post) ≡ (i + length pre) ∷ []
unfolding missing_from
missing_from-with_gap [] post i = ap₂ ◌∷◌ {x = i} (omega arith) (missing_from-all post (i + 1))
missing_from-with_gap (f ∷ pre) post i =
    missing_from-with_gap pre post (i + 1) ∙ ap (λ k. k ∷ []) {x = i + 1 + length pre} (omega arith)

abbrev xor_all : List ℕ → List (List ℕ) → List ℕ
xor_all acc [] = acc
xor_all acc (f ∷ fs) = xor_all (xor_into acc f) fs

xor_others-all :
    (fs : List (List ℕ)) (lost i : ℕ) (acc : List ℕ)
    → lost < i
    → xor_others lost i acc (map some fs) ≡ xor_all acc fs
unfolding xor_others
xor_others-all [] lost i acc h = refl
xor_others-all (f ∷ fs) lost i acc h =
    ground (arith, xor_others-all fs lost (i + 1) (xor_into acc f) (omega arith))

xor_others-with_gap :
    (pre post : List (List ℕ)) (lost i : ℕ) (acc : List ℕ)
    → lost ≡ i + length pre
    → xor_others lost i acc (with_gap pre post) ≡ xor_all (xor_all acc pre) post
unfolding xor_others
xor_others-with_gap [] post lost i acc h = xor_others-all post lost (i + 1) acc (omega arith)
xor_others-with_gap (f ∷ pre) post lost i acc h =
    ground (arith, xor_others-with_gap pre post lost (i + 1) (xor_into acc f) (omega arith))

length-xor_all : (fs : List (List ℕ)) (acc : List ℕ) → length (xor_all acc fs) ≡ length acc
length-xor_all [] acc = refl
length-xor_all (f ∷ fs) acc = length-xor_all fs (xor_into acc f) ∙ length-xor_into acc f

byte_at-xor_all :
    (fs : List (List ℕ)) (acc : List ℕ) (i : ℕ)
    → longest fs ≤ length acc
    → byte_at (xor_all acc fs) i ≡ bit_xor (byte_at acc i) (column i fs)
byte_at-xor_all [] acc i h = sym (bit_xor_comm (byte_at acc i) 0 ∙ zero-bit_xor (byte_at acc i))
byte_at-xor_all (f ∷ fs) acc i h =
    byte_at-xor_all fs (xor_into acc f) i (omega (arith, length-xor_into acc f))
    ∙ ap (λ t. bit_xor t (column i fs)) (byte_at-xor_into acc f i (omega arith))
    ∙ bit_xor_assoc (byte_at acc i) (byte_at f i) (column i fs)

column-append :
    (xs ys : List (List ℕ)) (i : ℕ) → column i (xs ++ ys) ≡ bit_xor (column i xs) (column i ys)
column-append [] ys i = sym (zero-bit_xor (column i ys))
column-append (x ∷ xs) ys i =
    ap (λ t. bit_xor (byte_at x i) t) (column-append xs ys i)
    ∙ sym (bit_xor_assoc (byte_at x i) (column i xs) (column i ys))

longest-append : (xs ys : List (List ℕ)) → longest (xs ++ ys) ≡ max (longest xs) (longest ys)
longest-append [] ys = omega arith
longest-append (x ∷ xs) ys = omega (arith, longest-append xs ys)

-- Without the others, one term of a sum remains.
one_left : (p f q : ℕ) → bit_xor (bit_xor (bit_xor p (bit_xor f q)) p) q ≡ f
one_left p f q =
    ap (λ t. bit_xor (bit_xor t p) q) (bit_xor_comm p (bit_xor f q))
    ∙ ap (λ t. bit_xor t q) (bit_xor_cancel (bit_xor f q) p)
    ∙ bit_xor_cancel f q

module _ (pre post : List (List ℕ)) (f : List ℕ) where
  abbrev group : List (List ℕ)
  group = pre ++ (f ∷ post)

  abbrev pub padded : List ℕ
  padded = f ++ replicate (longest group - length f) 0

  recovered_byte :
      (i : ℕ) → byte_at (xor_all (xor_all (absorb_all [] group) pre) post) i ≡ byte_at padded i
  recovered_byte i =
      byte_at-xor_all post (xor_all (absorb_all [] group) pre) i (
        omega (
          arith,
          length-xor_all pre (absorb_all [] group),
          length-absorb_all group [],
          longest-append pre (f ∷ post),
        ))
      ∙ ap (λ t. bit_xor t (column i post))
          (byte_at-xor_all pre (absorb_all [] group) i
            (omega (arith, length-absorb_all group [], longest-append pre (f ∷ post))))
      ∙ ap (λ t. bit_xor (bit_xor t (column i pre)) (column i post))
          (byte_at-absorb_all group [] i
            ∙ zero-bit_xor (column i group)
            ∙ column-append pre (f ∷ post) i)
      ∙ one_left (column i pre) (byte_at f i) (column i post)
      ∙ sym (byte_at-pad f (longest group - length f) i)

  recovered_length : length (xor_all (xor_all (absorb_all [] group) pre) post) ≡ length padded
  recovered_length = omega (
    arith,
    length-xor_all post (xor_all (absorb_all [] group) pre),
    length-xor_all pre (absorb_all [] group),
    length-absorb_all group [],
    longest-append pre (f ∷ post),
    length-append f (replicate (longest group - length f) 0),
    length-replicate (longest group - length f) byte_zero,
  )
    where
      byte_zero : ℕ
      byte_zero = 0

  xor_others-recovers : xor_others (length pre) 0 (absorb_all [] group) (with_gap pre post) ≡ padded
  xor_others-recovers =
      xor_others-with_gap pre post (length pre) 0 (absorb_all [] group) (omega arith)
      ∙ byte_ext (xor_all (xor_all (absorb_all [] group) pre) post) padded recovered_length
          recovered_byte

enter_group-same :
    (d : FecDecoder) (base : ℕ) → d.active ≡ true → d.seq_base ≡ base → enter_group d base ≡ d
unfolding enter_group
enter_group-same d base active same = ground arith

-- If a decoder follows the group of a parity, has received all frames of the group but one, and
-- the parity is the sum of the frames of the group, `push_parity` returns the sequence of the
-- missing frame and the frame itself, with zeros at the end up to the length of the longest frame
-- of the group.
pub push_parity-recovers :
    (d : FecDecoder) (parity : FecParity) (pre post : List (List ℕ)) (f : List ℕ)
    → d.active ≡ true
    → d.seq_base ≡ parity.seq_base
    → d.received ≡ with_gap pre post
    → parity.payload ≡ absorb_all [] (pre ++ (f ∷ post))
    → (push_parity d parity).1 ≡ some ((parity.seq_base + length pre) % 2 ^ 32, padded pre post f)
unfolding push_parity recover_missing
push_parity-recovers d parity pre post f active same received whole =
    ap (λ g. recover_missing (armed g) parity.payload (missing_from 0 g.received))
      (enter_group-same d parity.seq_base active same)
    ∙ ap (λ lost. recover_missing (armed d) parity.payload lost)
        (ap (λ r. missing_from 0 r) received ∙ missing_from-with_gap pre post 0)
    ∙ ap₂ (λ s bytes. some (s % 2 ^ 32, bytes)) {x = d.seq_base + (0 + length pre)} (omega arith)
        (ap (λ k. xor_others k 0 parity.payload d.received) {x = 0 + length pre} (omega arith)
          ∙ ap₂ (λ bytes r. xor_others (length pre) 0 bytes r) whole received
          ∙ xor_others-recovers pre post f)
  where
    armed : FecDecoder → FecDecoder
    armed g = record g { parity = some parity.payload }
