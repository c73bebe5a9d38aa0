-- ===== src/Metrics/Loss.antt =====
-- The bitmap of the last 64 sequences.
use native.Mathlib.Nat.{pow-suc, one-le-pow, pow-le-pow_right}
use native.Mathlib.Decide.{dec_le}
use gravital_sound.Common.{
  ℕ, zero, suc, ◌+◌, ◌-◌, ◌*◌, ◌/◌, ◌%◌, ◌^◌, ◌≤◌, ◌<◌, ◌≡◌, min, bit_or, arith, refl, ap, subst,
  ◌∙◌,
}
use gravital_sound.Common.Ors.{bit_or_one}
use gravital_sound.Metrics.{
  LossTracker, new_loss, record_loss, count_ones, lost, shift_left, count_packet,
}

-- A run of ones.
count_ones_lem : (bits k : ℕ) → count_ones bits (2 ^ k - 1) ≡ min k bits
unfolding count_ones
count_ones_lem zero k = omega arith
count_ones_lem (suc bits) zero = omega (arith, count_ones_lem bits zero)
count_ones_lem (suc bits) (suc k) = omega (
  arith,
  pow-suc 2 k,
  one-le-pow k 2,
  ap (λ t. count_ones bits t) {x = (2 ^ suc k - 1) / 2} {y = 2 ^ k - 1}
      (omega (arith, pow-suc 2 k, one-le-pow k 2)),
  count_ones_lem bits k,
)

-- A packet in sequence shifts a one into a run of `ones`, of which 64 stay.
shift_in :
    (ones : ℕ)
    → 1 ≤ ones
    → ones ≤ 64
    → bit_or (shift_left (2 ^ ones - 1) 1) 1 ≡ 2 ^ min (ones + 1) 64 - 1
shift_in ones low high = elim (dec_le 64 ones) [
  | yes full ↦ omega (
    arith,
    ap (λ k. bit_or (shift_left (2 ^ k - 1) 1) 1) {x = ones} {y = 64} (omega arith),
    ap (λ k. 2 ^ min (k + 1) 64 - 1) {x = ones} {y = 64} (omega arith),
  )
  | no free ↦
      let room = pow-le-pow_right {n = 2} (omega arith) {i = suc ones} {j = 64} (omega arith) in
      let power = pow-suc 2 ones in
      let least = one-le-pow ones 2 (omega arith) in
      ap (λ t. bit_or t 1) {x = (2 ^ ones - 1) * 2 % 2 ^ 64} {y = 2 * (2 ^ ones - 1)}
        (omega (arith, room, power, least))
      ∙ bit_or_one (2 ^ ones - 1)
      ∙ omega (
        arith,
        power,
        least,
        ap (λ k. 2 ^ k) {x = min (ones + 1) 64} {y = suc ones} (omega arith),
      )
]

-- The state of a tracker after packets in sequence.
record InSequence (t : LossTracker) (high ones : ℕ) : Type 0 where
  initialised_is : t.initialised ≡ 1
  high_is : t.high_seq ≡ high
  bitmap_is : t.bitmap ≡ 2 ^ ones - 1
  reorder_is : t.reorder_count ≡ 0

next_packet :
    (t : LossTracker) (sequence : ℕ)
    → t.initialised ≡ 1
    → (sequence + 2 ^ 32 - t.high_seq) % 2 ^ 32 ≡ 1
    → record_loss t sequence
      ≡ count_packet (record t { bitmap = bit_or (shift_left t.bitmap 1) 1; high_seq = sequence })
unfolding record_loss
next_packet t sequence i d = simp (i, d)

next-InSequence :
    (t : LossTracker) (high ones : ℕ)
    → InSequence t high ones
    → high < 2 ^ 32
    → 1 ≤ ones
    → ones ≤ 64
    → InSequence (record_loss t ((high + 1) % 2 ^ 32)) ((high + 1) % 2 ^ 32) (min (ones + 1) 64)
next-InSequence t high ones h fits low room =
    let step =
      next_packet t ((high + 1) % 2 ^ 32) h.initialised_is (omega (arith, h.high_is, fits)) in
    record {
      initialised_is = ap (λ u. u.initialised) step ∙ h.initialised_is;
      high_is = ap (λ u. u.high_seq) step;
      bitmap_is =
          ap (λ u. u.bitmap) step
          ∙ ap (λ b. bit_or (shift_left b 1) 1) h.bitmap_is
          ∙ shift_in ones low room;
      reorder_is = ap (λ u. u.reorder_count) step ∙ h.reorder_is;
    }

-- The tracker after `count` packets in sequence from `first` on.
abbrev pub in_sequence : ℕ → ℕ → LossTracker
in_sequence zero first = new_loss
in_sequence (suc count) first = record_loss (in_sequence count first) ((first + count) % 2 ^ 32)

in_sequence-InSequence :
    (count first : ℕ)
    → first < 2 ^ 32
    → InSequence (in_sequence (suc count) first) ((first + count) % 2 ^ 32) (min (suc count) 64)
unfolding record_loss
in_sequence-InSequence zero first h = record {
  initialised_is = refl;
  high_is = refl;
  bitmap_is = refl;
  reorder_is = refl;
}
in_sequence-InSequence (suc count) first h =
    subst
      (λ k. InSequence (record_loss (in_sequence (suc count) first) k) k (min (suc (suc count)) 64))
      {x = ((first + count) % 2 ^ 32 + 1) % 2 ^ 32} {y = (first + suc count) % 2 ^ 32} (omega arith)
      (subst
        (λ k.
          InSequence
            (record_loss (in_sequence (suc count) first) (((first + count) % 2 ^ 32 + 1) % 2 ^ 32))
            (((first + count) % 2 ^ 32 + 1) % 2 ^ 32) k)
        {x = min (min (suc count) 64 + 1) 64} {y = min (suc (suc count)) 64} (omega arith)
        (next-InSequence (in_sequence (suc count) first) ((first + count) % 2 ^ 32)
          (min (suc count) 64) (in_sequence-InSequence count first h) (omega arith) (omega arith)
          (omega arith)))

-- After packets in sequence from any number of 32 bits on, at least one and wrapping included,
-- the tracker counts none as reordered, and as lost exactly the part of its window of 64 that has
-- not been filled yet.
pub in_sequence-lost :
    (count first : ℕ)
    → first < 2 ^ 32
    → (lost (in_sequence (suc count) first) ≡ 64 - min (suc count) 64)
      × ((in_sequence (suc count) first).reorder_count ≡ 0)
unfolding lost
in_sequence-lost count first h =
    let t = in_sequence-InSequence count first h in
    (
      rw (t.initialised_is, t.bitmap_is) (omega (arith, count_ones_lem 64 (min (suc count) 64))),
      t.reorder_is,
    )
