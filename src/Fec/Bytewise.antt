-- ===== src/Fec/Bytewise.antt =====
-- Parity byte by byte.
use gravital_sound.Common.{
  ℕ, zero, suc, ◌+◌, ◌-◌, ◌≤◌, max, ◌≡◌, refl, sym, ap, ap₂, ◌∙◌, bit_xor, arith,
}
use gravital_sound.Common.{List, [], ◌∷◌, ◌++◌, length, replicate, length-append, length-replicate}
use gravital_sound.Common.Bits.{bit_xor-zero, zero-bit_xor, bit_xor_assoc}
use gravital_sound.Wire.{byte_at}
use gravital_sound.Fec.{xor_into, extend}

-- Lists of the same length with the same bytes are equal.
pub byte_ext :
    (xs ys : List ℕ) → length xs ≡ length ys → ((i : ℕ) → byte_at xs i ≡ byte_at ys i) → xs ≡ ys
byte_ext [] [] e h = refl
byte_ext [] (y ∷ ys) e h = absurd (omega arith)
byte_ext (x ∷ xs) [] e h = absurd (omega arith)
byte_ext (x ∷ xs) (y ∷ ys) e h = ap₂ ◌∷◌ (h 0) (byte_ext xs ys (omega arith) (λ i. h (suc i)))

pub byte_at-zeros : (n i : ℕ) → byte_at (replicate n 0) i ≡ 0
byte_at-zeros zero i = refl
byte_at-zeros (suc n) zero = refl
byte_at-zeros (suc n) (suc i) = byte_at-zeros n i

-- Zeros at the end do not change what is read.
pub byte_at-pad : (xs : List ℕ) (n i : ℕ) → byte_at (xs ++ replicate n 0) i ≡ byte_at xs i
byte_at-pad [] n i = byte_at-zeros n i
byte_at-pad (x ∷ xs) n zero = refl
byte_at-pad (x ∷ xs) n (suc i) = byte_at-pad xs n i

pub length-xor_into : (acc d : List ℕ) → length (xor_into acc d) ≡ length acc
unfolding xor_into
length-xor_into [] d = refl
length-xor_into (a ∷ acc) [] = refl
length-xor_into (a ∷ acc) (x ∷ d) = ap suc (length-xor_into acc d)

pub byte_at-xor_into :
    (acc d : List ℕ) (i : ℕ)
    → length d ≤ length acc
    → byte_at (xor_into acc d) i ≡ bit_xor (byte_at acc i) (byte_at d i)
unfolding xor_into
byte_at-xor_into [] [] i h = refl
byte_at-xor_into [] (x ∷ d) i h = absurd (omega arith)
byte_at-xor_into (a ∷ acc) [] i h = sym (bit_xor-zero (byte_at (a ∷ acc) i))
byte_at-xor_into (a ∷ acc) (x ∷ d) zero h = refl
byte_at-xor_into (a ∷ acc) (x ∷ d) (suc i) h = byte_at-xor_into acc d i (omega arith)

pub length-extend : (buf : List ℕ) (n : ℕ) → length (extend buf n) ≡ max (length buf) n
unfolding extend
length-extend buf n = ground (
  arith,
  length-append buf (replicate (n - length buf) 0),
  length-replicate (n - length buf) byte_zero,
)
  where
    byte_zero : ℕ
    byte_zero = 0

pub byte_at-extend : (buf : List ℕ) (n i : ℕ) → byte_at (extend buf n) i ≡ byte_at buf i
unfolding extend
byte_at-extend buf n i = ground (arith, byte_at-pad buf (n - length buf) i)

-- One frame goes into the parity, which grows to its length.
abbrev pub absorb : List ℕ → List ℕ → List ℕ
absorb buf payload = xor_into (extend buf (length payload)) payload

pub length-absorb :
    (buf payload : List ℕ) → length (absorb buf payload) ≡ max (length buf) (length payload)
length-absorb buf payload =
    length-xor_into (extend buf (length payload)) payload ∙ length-extend buf (length payload)

pub byte_at-absorb :
    (buf payload : List ℕ) (i : ℕ)
    → byte_at (absorb buf payload) i ≡ bit_xor (byte_at buf i) (byte_at payload i)
byte_at-absorb buf payload i =
    byte_at-xor_into (extend buf (length payload)) payload i
      (omega (arith, length-extend buf (length payload)))
    ∙ ap (λ t. bit_xor t (byte_at payload i)) (byte_at-extend buf (length payload) i)

-- The frames of a group, one after another.
abbrev pub absorb_all : List ℕ → List (List ℕ) → List ℕ
absorb_all buf [] = buf
absorb_all buf (f ∷ fs) = absorb_all (absorb buf f) fs

-- The sum without carry of the bytes at place `i`.
abbrev pub column : ℕ → List (List ℕ) → ℕ
column i [] = 0
column i (f ∷ fs) = bit_xor (byte_at f i) (column i fs)

pub byte_at-absorb_all :
    (fs : List (List ℕ)) (buf : List ℕ) (i : ℕ)
    → byte_at (absorb_all buf fs) i ≡ bit_xor (byte_at buf i) (column i fs)
byte_at-absorb_all [] buf i = sym (bit_xor-zero (byte_at buf i))
byte_at-absorb_all (f ∷ fs) buf i =
    byte_at-absorb_all fs (absorb buf f) i
    ∙ ap (λ t. bit_xor t (column i fs)) (byte_at-absorb buf f i)
    ∙ bit_xor_assoc (byte_at buf i) (byte_at f i) (column i fs)

-- The length of the longest frame.
abbrev pub longest : List (List ℕ) → ℕ
longest [] = 0
longest (f ∷ fs) = max (length f) (longest fs)

pub length-absorb_all :
    (fs : List (List ℕ)) (buf : List ℕ) → length (absorb_all buf fs) ≡ max (length buf) (longest fs)
length-absorb_all [] buf = omega arith
length-absorb_all (f ∷ fs) buf =
    omega (arith, length-absorb_all fs (absorb buf f), length-absorb buf f)

-- The sum without carry of the frames, each padded with zeros: the bytes at the places from `i` on.
abbrev pub columns : ℕ → ℕ → List (List ℕ) → List ℕ
columns i zero fs = []
columns i (suc n) fs = column i fs ∷ columns (suc i) n fs

columns_ext :
    (xs : List ℕ) (i n : ℕ) (fs : List (List ℕ))
    → length xs ≡ n
    → ((k : ℕ) → byte_at xs k ≡ column (i + k) fs)
    → xs ≡ columns i n fs
columns_ext [] i zero fs e h = refl
columns_ext [] i (suc n) fs e h = absurd (omega arith)
columns_ext (x ∷ xs) i zero fs e h = absurd (omega arith)
columns_ext (x ∷ xs) i (suc n) fs e h = ap₂ ◌∷◌ (h 0 ∙ ap (λ t. column t fs) (omega arith)) (
    columns_ext xs (suc i) n fs (omega arith)
      (λ k. h (suc k) ∙ ap (λ t. column t fs) (omega arith)))

pub absorb_all-columns : (fs : List (List ℕ)) → absorb_all [] fs ≡ columns 0 (longest fs) fs
absorb_all-columns fs =
    columns_ext (absorb_all [] fs) 0 (longest fs) fs (omega (arith, length-absorb_all fs [])) (λ k.
      byte_at-absorb_all fs [] k ∙ zero-bit_xor (column k fs) ∙ ap (λ t. column t fs) (omega arith))
