-- ===== src/Rooms/Codes.antt =====
-- Every code that is generated is valid, and no session number is zero.
use gravital_sound.Common.{
  ℕ, zero, suc, ◌%◌, ◌^◌, ◌<◌, ◌≡◌, refl, arith, List, [], ◌∷◌, length, get_or, Bool, true, ◌&&◌,
  ==_iff,
}
use gravital_sound.Common.Same.{contains}
use gravital_sound.Rooms.{
  letters, digits, step, output, pick, seed_of, generate_code, all_in, is_valid_code,
  generate_session_id,
}

contains-get_or : (xs : List ℕ) (i : ℕ) → i < length xs → contains xs (get_or xs i 0) ≡ true
contains-get_or [] i h = absurd (omega arith)
contains-get_or (x ∷ xs) zero h = rw ((==_iff x x).1 refl)
contains-get_or (x ∷ xs) (suc i) h = ground (arith, contains-get_or xs i (omega arith))

pick-letters : (n : ℕ) → contains letters (pick letters n) ≡ true
pick-letters n = contains-get_or letters (n % 23) (omega arith)

pick-digits : (n : ℕ) → contains digits (pick digits n) ≡ true
pick-digits n = contains-get_or digits (n % 8) (omega arith)

both : (a b : Bool) → a ≡ true → b ≡ true → (a && b) ≡ true
both a b h k = rw (h, k)

four_in :
    (alphabet : List ℕ) (a b c d : ℕ)
    → contains alphabet a ≡ true
    → contains alphabet b ≡ true
    → contains alphabet c ≡ true
    → contains alphabet d ≡ true
    → all_in alphabet (a ∷ b ∷ c ∷ d ∷ []) ≡ true
four_in alphabet a b c d ha hb hc hd = rw (ha, hb, hc, hd)

picked-is_valid_code :
    (a b c d e f g h : ℕ)
    → is_valid_code (
        pick letters a
        ∷ pick letters b
        ∷ pick letters c
        ∷ pick letters d
        ∷ b'-'
        ∷ pick digits e
        ∷ pick digits f
        ∷ pick digits g
        ∷ pick digits h
        ∷ [])
      ≡ true
unfolding is_valid_code
picked-is_valid_code a b c d e f g h =
    both (all_in letters (pick letters a ∷ pick letters b ∷ pick letters c ∷ pick letters d ∷ []))
      (all_in digits (pick digits e ∷ pick digits f ∷ pick digits g ∷ pick digits h ∷ []))
      (four_in letters (pick letters a) (pick letters b) (pick letters c) (pick letters d)
        (pick-letters a) (pick-letters b) (pick-letters c) (pick-letters d))
      (four_in digits (pick digits e) (pick digits f) (pick digits g) (pick digits h)
        (pick-digits e) (pick-digits f) (pick-digits g) (pick-digits h))

-- Whatever the time and the counter, `is_valid_code` accepts the code that `generate_code`
-- returns.
pub generate_code-is_valid_code :
    (nanos counter : ℕ) → is_valid_code (generate_code nanos counter) ≡ true
unfolding generate_code
generate_code-is_valid_code nanos counter =
    let r1 = step (seed_of nanos counter) in
    let r2 = step r1 in
    let r3 = step r2 in
    let r4 = step r3 in
    let r5 = step r4 in
    let r6 = step r5 in
    let r7 = step r6 in
    let r8 = step r7 in
    picked-is_valid_code (output r1) (output r2) (output r3) (output r4) (output r5) (output r6)
      (output r7) (output r8)

pub generate_session_id-bounds :
    (nanos counter : ℕ)
    → (0 < generate_session_id nanos counter) × (generate_session_id nanos counter < 2 ^ 32)
unfolding generate_session_id
generate_session_id-bounds nanos counter = ground arith
