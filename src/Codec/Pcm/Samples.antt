-- ===== src/Codec/Pcm/Samples.antt =====
-- Samples that are written and read again.
use gravital_sound.Common.{
  ℕ, zero, suc, ◌+◌, ◌*◌, ◌/◌, ◌%◌, ◌^◌, ◌≤◌, ◌<◌, ◌≡◌, refl, sym, ap, ap₂, ◌∙◌, arith,
}
use gravital_sound.Common.{
  List, [], ◌∷◌, ◌++◌, length, take, drop, set, get_or, All, max, ok, ge→ltb_false, ==_iff,
  take-append_length,
}
use gravital_sound.Codec.Pcm.{PcmCodec, total_samples, write_samples, read_samples, encode, decode}

-- The bytes of samples.
abbrev pub bytes_of_samples : List ℕ → List ℕ
bytes_of_samples [] = []
bytes_of_samples (s ∷ rest) = s % 256 ∷ s / 256 % 256 ∷ bytes_of_samples rest

length-bytes_of_samples : (pcm : List ℕ) → length (bytes_of_samples pcm) ≡ length pcm * 2
length-bytes_of_samples [] = refl
length-bytes_of_samples (s ∷ rest) = omega (arith, length-bytes_of_samples rest)

set-append :
    (pre : List ℕ) (x v : ℕ) (rest : List ℕ) (i : ℕ)
    → i ≡ length pre
    → set (pre ++ x ∷ rest) i v ≡ pre ++ v ∷ rest
set-append [] x v rest zero h = refl
set-append [] x v rest (suc i) h = absurd (omega arith)
set-append (p ∷ pre) x v rest zero h = absurd (omega arith)
set-append (p ∷ pre) x v rest (suc i) h = ap (◌∷◌ p) (set-append pre x v rest i (omega arith))

get_or-append :
    (pre : List ℕ) (x : ℕ) (rest : List ℕ) (i : ℕ)
    → i ≡ length pre
    → get_or (pre ++ x ∷ rest) i 0 ≡ x
get_or-append [] x rest zero h = refl
get_or-append [] x rest (suc i) h = absurd (omega arith)
get_or-append (p ∷ pre) x rest zero h = absurd (omega arith)
get_or-append (p ∷ pre) x rest (suc i) h = get_or-append pre x rest i (omega arith)

snoc : (pre : List ℕ) (x : ℕ) (rest : List ℕ) → (pre ++ x ∷ []) ++ rest ≡ pre ++ x ∷ rest
snoc [] x rest = refl
snoc (p ∷ pre) x rest = ap (◌∷◌ p) (snoc pre x rest)

length-snoc : (pre : List ℕ) (x : ℕ) → length (pre ++ x ∷ []) ≡ suc (length pre)
length-snoc [] x = refl
length-snoc (p ∷ pre) x = ap suc (length-snoc pre x)

-- The two writes of a round.
set_two :
    (pre : List ℕ) (x y v w : ℕ) (rest : List ℕ) (i : ℕ)
    → i ≡ length pre
    → set (set (pre ++ x ∷ y ∷ rest) i v) (i + 1) w ≡ (pre ++ v ∷ w ∷ rest)
set_two pre x y v w rest i h =
    ap (λ t. set t (i + 1) w) (set-append pre x v (y ∷ rest) i h ∙ sym (snoc pre v (y ∷ rest)))
    ∙ set-append (pre ++ v ∷ []) y w rest (i + 1) (omega (arith, length-snoc pre v, h))
    ∙ snoc pre v (w ∷ rest)

write_samples-append :
    (pcm : List ℕ) (i : ℕ) (pre rest : List ℕ)
    → length pre ≡ i * 2
    → length pcm * 2 ≤ length rest
    → write_samples pcm i (pre ++ rest)
      ≡ pre ++ (bytes_of_samples pcm ++ drop (length pcm * 2) rest)
unfolding write_samples
write_samples-append [] i pre rest h room = refl
write_samples-append (s ∷ pcm) i pre [] h room = absurd (omega arith)
write_samples-append (s ∷ pcm) i pre (x ∷ []) h room = absurd (omega arith)
write_samples-append (s ∷ pcm) i pre (x ∷ y ∷ rest) h room =
    ap (λ t. write_samples pcm (suc i) t)
      (set_two pre x y (s % 256) (s / 256 % 256) rest (i * 2) (sym h)
        ∙ sym (snoc pre (s % 256) (s / 256 % 256 ∷ rest))
        ∙ sym (snoc (pre ++ s % 256 ∷ []) (s / 256 % 256) rest))
    ∙ write_samples-append pcm (suc i) ((pre ++ s % 256 ∷ []) ++ s / 256 % 256 ∷ []) rest
        (omega
          (arith, length-snoc (pre ++ s % 256 ∷ []) (s / 256 % 256), length-snoc pre (s % 256), h))
        (omega arith)
    ∙ snoc (pre ++ s % 256 ∷ []) (s / 256 % 256)
        (bytes_of_samples pcm ++ drop (length pcm * 2) rest)
    ∙ snoc pre (s % 256) (s / 256 % 256 ∷ (bytes_of_samples pcm ++ drop (length pcm * 2) rest))
    ∙ ap (λ t. pre ++ s % 256 ∷ s / 256 % 256 ∷ (bytes_of_samples pcm ++ drop t (x ∷ y ∷ rest)))
        {x = suc (suc (length pcm * 2))} {y = suc (length pcm) * 2} (omega arith)

word_of : (s : ℕ) → s < 2 ^ 16 → s % 256 + s / 256 % 256 * 256 ≡ s
word_of s h = omega arith

-- The read of a round.
get_two :
    (pre : List ℕ) (v w : ℕ) (rest : List ℕ) (i : ℕ)
    → i ≡ length pre
    → get_or (pre ++ v ∷ w ∷ rest) i 0 + get_or (pre ++ v ∷ w ∷ rest) (i + 1) 0 * 256 ≡ v + w * 256
get_two pre v w rest i h =
    ap₂ (λ a b. a + b * 256) (get_or-append pre v (w ∷ rest) i h)
      (ap (λ t. get_or t (i + 1) 0) (sym (snoc pre v (w ∷ rest)))
        ∙ get_or-append (pre ++ v ∷ []) w rest (i + 1) (omega (arith, length-snoc pre v, h)))

read_samples-append :
    (pcm : List ℕ) (i : ℕ) (bytes pre rest : List ℕ)
    → length bytes ≡ i * 2
    → length pre ≡ i
    → length pcm ≤ length rest
    → All (λ s. s < 2 ^ 16) pcm
    → read_samples (length pcm) i (bytes ++ bytes_of_samples pcm) (pre ++ rest)
      ≡ pre ++ (pcm ++ drop (length pcm) rest)
unfolding read_samples
read_samples-append [] i bytes pre rest hb h room fits = refl
read_samples-append (s ∷ pcm) i bytes pre [] hb h room fits = absurd (omega arith)
read_samples-append (s ∷ pcm) i bytes pre (x ∷ rest) hb h room (s_fits, fits) =
    ap₂ (read_samples (length pcm) (suc i))
      (sym (snoc bytes (s % 256) (s / 256 % 256 ∷ bytes_of_samples pcm))
        ∙ sym (snoc (bytes ++ s % 256 ∷ []) (s / 256 % 256) (bytes_of_samples pcm)))
      (ap (set (pre ++ x ∷ rest) i) (
          get_two bytes (s % 256) (s / 256 % 256) (bytes_of_samples pcm) (i * 2) (sym hb)
          ∙ word_of s s_fits)
        ∙ set-append pre x s rest i (sym h)
        ∙ sym (snoc pre s rest))
    ∙ read_samples-append pcm (suc i) ((bytes ++ s % 256 ∷ []) ++ s / 256 % 256 ∷ [])
        (pre ++ s ∷ []) rest
        (omega (
          arith,
          length-snoc (bytes ++ s % 256 ∷ []) (s / 256 % 256),
          length-snoc bytes (s % 256),
          hb,
        ))
        (omega (arith, length-snoc pre s, h)) (omega arith) fits
    ∙ snoc pre s (pcm ++ drop (length pcm) rest)

encode_lem :
    (c : PcmCodec) (pcm out : List ℕ)
    → length pcm ≡ total_samples c
    → length pcm * 2 ≤ length out
    → encode c pcm out ≡ (bytes_of_samples pcm ++ drop (length pcm * 2) out, ok (length pcm * 2))
unfolding encode
encode_lem c pcm out h room =
    rw
      (
        (==_iff (length pcm) (total_samples c)).1 h,
        ge→ltb_false (length out) (total_samples c * 2) (omega (arith, h)),
      )
      (ap₂ (λ a b. (a, ok b)) (write_samples-append pcm 0 [] out refl room)
        (ap (λ t. t * 2) (sym h)))

half : (n : ℕ) → n * 2 / 2 ≡ n
half n = omega arith

decode_lem :
    (c : PcmCodec) (pcm buf : List ℕ)
    → length pcm ≤ length buf
    → All (λ s. s < 2 ^ 16) pcm
    → decode c (bytes_of_samples pcm) buf
      ≡ (pcm ++ drop (length pcm) buf, ok (length pcm / max c.channels 1))
unfolding decode
decode_lem c pcm buf room fits =
    rw
      (
        length-bytes_of_samples pcm,
        (==_iff (length pcm * 2 % 2) 0).1 (omega arith),
        half (length pcm),
        ge→ltb_false (length buf) (length pcm) room,
      )
      (ap (λ t. (t, ok (length pcm / max c.channels 1)))
        (read_samples-append pcm 0 [] [] buf refl refl room fits))

-- A frame with the number of samples that the codec wants, each of 16 bits, and an output buffer
-- with room for it: `encode` reports twice as many bytes, and `decode` of exactly these bytes, by
-- the same codec and into a buffer with room, gives the samples back, leaves the rest of the
-- buffer, and reports the samples of one channel.
pub decode-encode_pcm :
    (c : PcmCodec) (pcm out buf : List ℕ)
    → length pcm ≡ total_samples c
    → length pcm * 2 ≤ length out
    → length pcm ≤ length buf
    → All (λ s. s < 2 ^ 16) pcm
    → ((encode c pcm out).1 ≡ ok (length pcm * 2))
      × (decode c (take (length pcm * 2) (encode c pcm out).0) buf
          ≡ (pcm ++ drop (length pcm) buf, ok (length pcm / max c.channels 1)))
decode-encode_pcm c pcm out buf h room_out room_buf fits = rw (encode_lem c pcm out h room_out) (
  refl,
  ap (λ n. decode c (take n (bytes_of_samples pcm ++ drop (length pcm * 2) out)) buf)
        (sym (length-bytes_of_samples pcm))
      ∙ ap (λ t. decode c t buf)
          (take-append_length (bytes_of_samples pcm) (drop (length pcm * 2) out))
      ∙ decode_lem c pcm buf room_buf fits,
)
