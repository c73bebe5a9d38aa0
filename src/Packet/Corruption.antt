-- ===== src/Packet/Corruption.antt =====
-- No two accepted packets differ in exactly one byte.
use native.Mathlib.Decide.{dec_le}
use gravital_sound.Common.{ℕ, zero, suc, ◌+◌, ◌-◌, ◌≤◌, ◌<◌, ◌≡◌, refl, sym, ap, ap₂, ◌∙◌, subst}
use gravital_sound.Common.{
  List, [], ◌∷◌, ◌++◌, length, take, drop, arith, ok, err, inl, inr, ◌≢◌, Result-cases,
  length-append,
}
use gravital_sound.Protocol.{Error}
use gravital_sound.Common.{take-append_length, drop-append_length, take-append-drop}
use gravital_sound.Wire.{IsBytes, IsBytes-take, IsBytes-append, to_be_bytes, to_be_bytes_injective}
use gravital_sound.Wire.{length-to_be_bytes}
use gravital_sound.Checksum.{crc16_ccitt_false}
use gravital_sound.Checksum.Reference.{crc16-lt}
use gravital_sound.Checksum.Injective.{crc16_injective}
use gravital_sound.Packet.{PacketView, decode}
use gravital_sound.Packet.Frame.{body_of, IsFrame, decode-IsFrame}

take-within : (n : ℕ) (xs ys : List ℕ) → n ≤ length xs → take n (xs ++ ys) ≡ take n xs
take-within zero xs ys h = refl
take-within (suc n) [] ys h = absurd (omega arith)
take-within (suc n) (x ∷ xs) ys h = ap (λ t. x ∷ t) (take-within n xs ys (omega arith))

take-past :
    (m n : ℕ) (xs : List ℕ) (x : ℕ) (ys : List ℕ)
    → n ≡ length xs + suc m
    → take n (xs ++ (x ∷ ys)) ≡ xs ++ (x ∷ take m ys)
take-past m n [] x ys e = ap (λ k. take k (x ∷ ys)) {y = suc m} (omega arith)
take-past m n (z ∷ xs) x ys e =
    ap (λ k. take k (z ∷ (xs ++ (x ∷ ys)))) {y = suc (length xs + suc m)} (omega arith)
    ∙ ap (λ t. z ∷ t) (take-past m (length xs + suc m) xs x ys refl)

drop-past :
    (m n : ℕ) (xs : List ℕ) (x : ℕ) (ys : List ℕ)
    → n ≡ length xs + suc m
    → drop n (xs ++ (x ∷ ys)) ≡ drop m ys
drop-past m n [] x ys e = ap (λ k. drop k (x ∷ ys)) {y = suc m} (omega arith)
drop-past m n (z ∷ xs) x ys e =
    ap (λ k. drop k (z ∷ (xs ++ (x ∷ ys)))) {y = suc (length xs + suc m)} (omega arith)
    ∙ drop-past m (length xs + suc m) xs x ys refl

append-cons_injective : (xs ys : List ℕ) (x y : ℕ) → xs ++ (x ∷ ys) ≡ xs ++ (y ∷ ys) → x ≡ y
append-cons_injective [] ys x y e = cc
append-cons_injective (z ∷ xs) ys x y e = append-cons_injective xs ys x y (cc)

-- An accepted packet ends with the checksum of all its other bytes.
accepted_checksum :
    (buf : List ℕ) {v : PacketView}
    → IsBytes buf
    → decode buf ≡ ok v
    → (2 ≤ length buf)
      × (drop (length buf - 2) buf ≡ to_be_bytes 2 (crc16_ccitt_false (take (length buf - 2) buf)))
accepted_checksum buf {v} bytes e = (
  omega (arith, frame.long),
  ap₂ drop at_body frame.frame_is
      ∙ drop-append_length body checksum
      ∙ ap (λ b. to_be_bytes 2 (crc16_ccitt_false b))
          (sym (take-append_length body checksum) ∙ ap₂ take (sym at_body) (sym frame.frame_is)),
)
  where
    frame : IsFrame buf v
    frame = decode-IsFrame buf bytes e

    body : List ℕ
    body = body_of (take 24 buf) v.payload

    checksum : List ℕ
    checksum = to_be_bytes 2 (crc16_ccitt_false body)

    at_body : length buf - 2 ≡ length body
    at_body = omega (
      arith,
      ap length frame.frame_is,
      length-append body checksum,
      length-to_be_bytes 2 (crc16_ccitt_false body),
    )

-- Two byte strings that differ in at most one place, and that both end with the checksum of their
-- other bytes, are equal there.
same_byte :
    (pre post : List ℕ) (x y n : ℕ)
    → IsBytes pre
    → IsBytes post
    → x < 256
    → y < 256
    → drop n (pre ++ (x ∷ post)) ≡ to_be_bytes 2 (crc16_ccitt_false (take n (pre ++ (x ∷ post))))
    → drop n (pre ++ (y ∷ post)) ≡ to_be_bytes 2 (crc16_ccitt_false (take n (pre ++ (y ∷ post))))
    → x ≡ y
same_byte pre post x y n hpre hpost hx hy ex ey = cases (dec_le n (length pre))
  where
    -- The places that differ are in the checksum: its input is the same.
    in_checksum : n ≤ length pre → x ≡ y
    in_checksum h = append-cons_injective pre post x y (
        sym (take-append-drop n (pre ++ (x ∷ post)))
        ∙ ap₂ ◌++◌ same_body (ex ∙ ap (λ b. to_be_bytes 2 (crc16_ccitt_false b)) same_body ∙ sym ey)
        ∙ take-append-drop n (pre ++ (y ∷ post)))
      where
        same_body : take n (pre ++ (x ∷ post)) ≡ take n (pre ++ (y ∷ post))
        same_body = take-within n pre (x ∷ post) h ∙ sym (take-within n pre (y ∷ post) h)

    -- They are in its input: the checksums are the same bytes.
    in_body : (m : ℕ) → n ≡ length pre + suc m → x ≡ y
    in_body m h = crc16_injective pre (take m post) x y hpre (IsBytes-take m post hpost) hx hy (
        to_be_bytes_injective 2 (crc16_ccitt_false (pre ++ (x ∷ take m post)))
          (crc16_ccitt_false (pre ++ (y ∷ take m post)))
          (crc16-lt (pre ++ (x ∷ take m post))
            (IsBytes-append pre (x ∷ take m post) hpre (hx, IsBytes-take m post hpost)))
          (crc16-lt (pre ++ (y ∷ take m post))
            (IsBytes-append pre (y ∷ take m post) hpre (hy, IsBytes-take m post hpost)))
          (checksum_of x ex ∙ sym (checksum_of y ey)))
      where
        checksum_of :
            (z : ℕ)
            → drop n (pre ++ (z ∷ post))
              ≡ to_be_bytes 2 (crc16_ccitt_false (take n (pre ++ (z ∷ post))))
            → to_be_bytes 2 (crc16_ccitt_false (pre ++ (z ∷ take m post))) ≡ drop m post
        checksum_of z ez =
            ap (λ b. to_be_bytes 2 (crc16_ccitt_false b)) (sym (take-past m n pre z post h))
            ∙ sym ez
            ∙ drop-past m n pre z post h

    cases : Dec (n ≤ length pre) → x ≡ y
    cases (yes h) = in_checksum h
    cases (no h) = in_body (n - length pre - 1) (omega arith)

-- Two accepted packets do not differ in exactly one byte.
decode_one_byte :
    (pre post : List ℕ) (x y : ℕ) {v w : PacketView}
    → IsBytes pre
    → IsBytes post
    → x < 256
    → y < 256
    → decode (pre ++ (x ∷ post)) ≡ ok v
    → decode (pre ++ (y ∷ post)) ≡ ok w
    → x ≡ y
decode_one_byte pre post x y hpre hpost hx hy dx dy =
    same_byte pre post x y (length (pre ++ (x ∷ post)) - 2) hpre hpost hx hy
      (accepted_checksum (pre ++ (x ∷ post)) (IsBytes-append pre (x ∷ post) hpre (hx, hpost)) dx).1
      (subst
        (λ k.
          drop k (pre ++ (y ∷ post))
          ≡ to_be_bytes 2 (crc16_ccitt_false (take k (pre ++ (y ∷ post)))))
        same_length
        (accepted_checksum (pre ++ (y ∷ post)) (IsBytes-append pre (y ∷ post) hpre (hy, hpost))
          dy).1)
  where
    same_length : length (pre ++ (y ∷ post)) - 2 ≡ length (pre ++ (x ∷ post)) - 2
    same_length = omega (arith, length-append pre (x ∷ post), length-append pre (y ∷ post))

-- If a packet is accepted, every packet that differs from it in exactly one byte, of header,
-- payload, length or checksum, is rejected with an error.
pub decode_corrupted :
    (pre post : List ℕ) (x y : ℕ) {v : PacketView}
    → IsBytes pre
    → IsBytes post
    → x < 256
    → y < 256
    → decode (pre ++ (x ∷ post)) ≡ ok v
    → x ≢ y
    → (e : Error) × (decode (pre ++ (y ∷ post)) ≡ err e)
decode_corrupted pre post x y hpre hpost hx hy accepted differ =
    elim (Result-cases (decode (pre ++ (y ∷ post)))) [
      | inl (w, e) ↦ absurd (differ (decode_one_byte pre post x y hpre hpost hx hy accepted e))
      | inr e ↦ e
    ]
