-- ===== src/Session/Tags.antt =====
-- crates/gravital-talk-transport/src/session.rs: the comparison of tags, and what both sides of a
-- handshake derive.
use gravital_sound.Common.{
  ℕ, ◌≡◌, refl, sym, ap, ◌∙◌, arith, List, [], ◌∷◌, length, true, ==_iff, ◌↔◌, bit_or, bit_xor,
}
use gravital_sound.Common.Bits.{bit_xor_self, bit_xor_left_injective}
use gravital_sound.Common.Ors.{bit_or-zero}
use gravital_sound.Session.Keys.{differences, constant_time_eq}

differences-zero :
    (diff : ℕ) (xs bs : List ℕ)
    → length xs ≡ length bs
    → differences diff xs bs ≡ 0
    → (diff ≡ 0) × (xs ≡ bs)
unfolding differences
differences-zero diff [] [] h e = (e, refl)
differences-zero diff [] (b ∷ bs) h e = absurd (omega arith)
differences-zero diff (a ∷ xs) [] h e = absurd (omega arith)
differences-zero diff (a ∷ xs) (b ∷ bs) h e =
    let later = differences-zero (bit_or diff (bit_xor a b)) xs bs (omega arith) e in
    let now = bit_or-zero diff (bit_xor a b) later.0 in
    let same = bit_xor_left_injective a b b (now.1 ∙ sym (bit_xor_self b)) in (now.0, cc)

zero-differences : (xs : List ℕ) → differences 0 xs xs ≡ 0
unfolding differences
zero-differences [] = refl
zero-differences (x ∷ xs) =
    ap (λ d. differences (bit_or 0 d) xs xs) (bit_xor_self x) ∙ zero-differences xs

-- On lists of one length `constant_time_eq` is true exactly if the lists are equal.
pub constant_time_eq_iff :
    (xs bs : List ℕ) → length xs ≡ length bs → (constant_time_eq xs bs ≡ true) ↔ (xs ≡ bs)
unfolding constant_time_eq
constant_time_eq_iff xs bs h = (
  λ e. (differences-zero 0 xs bs h ((==_iff (differences 0 xs bs) 0).0 e)).1,
  λ e.
      (==_iff (differences 0 xs bs) 0).1
        (ap (λ t. differences 0 xs t) (sym e) ∙ zero-differences xs),
)
