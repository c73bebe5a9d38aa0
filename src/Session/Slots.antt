-- ===== src/Session/Slots.antt =====
-- crates/gravital-talk-transport/src/session.rs: `jitter_slots` and the constructor `Session::new`.
use native.Mathlib.Nat.{pow-suc, mul_assoc, div-le_self, pow-le-pow_right}
use native.Mathlib.Decide.{dec_le}
use gravital_sound.Common.{
  ℕ, zero, suc, ◌*◌, ◌/◌, ◌^◌, ◌≤◌, ◌<◌, ◌≡◌, ◌⊎◌, inl, inr, refl, ap, ◌∙◌, max, arith, leb, leb→le,
  Bool-cases,
}
use gravital_sound.Session.{next_power_of_two, jitter_slots}

-- The power of two that the doublings reach, by its exponent.
pub record IsNextPower (fuel power n result : ℕ) : Type 0 where
  pub exponent : ℕ
  pub within : exponent ≤ fuel
  pub result_is : result ≡ power * 2 ^ exponent
  pub reaches : n ≤ power * 2 ^ fuel → n ≤ result
  pub least : (exponent ≡ 0) ⊎ (result < 2 * n)

shifted : (power k : ℕ) → power * 2 * 2 ^ k ≡ power * 2 ^ suc k
shifted power k = omega (arith, ap (λ t. power * t) (pow-suc 2 k), mul_assoc power 2 (2 ^ k))

doubled-IsNextPower :
    (fuel power n result : ℕ)
    → power < n
    → IsNextPower fuel (power * 2) n result
    → IsNextPower (suc fuel) power n result
doubled-IsNextPower fuel power n result short rest = record {
  exponent = suc rest.exponent;
  within = omega (arith, rest.within);
  result_is = rest.result_is ∙ shifted power rest.exponent;
  reaches = λ h. rest.reaches (omega (arith, h, shifted power fuel));
  least = inr (elim rest.least [
    | inl none_more ↦ omega (arith, rest.result_is, ap (λ k. power * 2 * 2 ^ k) none_more)
    | inr below ↦ below
  ]);
}

next_power_of_two-IsNextPower :
    (fuel power n : ℕ) → IsNextPower fuel power n (next_power_of_two fuel power n)
unfolding next_power_of_two
next_power_of_two-IsNextPower zero power n = record {
  exponent = 0;
  within = omega arith;
  result_is = omega arith;
  reaches = λ h. omega (arith, h);
  least = inl refl;
}
next_power_of_two-IsNextPower (suc fuel) power n = elim (Bool-cases (leb n power)) [
  | inl enough ↦ rw enough (record {
    exponent = 0;
    within = omega arith;
    result_is = omega arith;
    reaches = λ _. leb→le n power enough;
    least = inl refl;
  })
  | inr short ↦ rw short (
      doubled-IsNextPower fuel power n (next_power_of_two fuel (power * 2) n) (ground arith)
        (next_power_of_two-IsNextPower fuel (power * 2) n))
]

exponent_le : (exponent : ℕ) → 2 ^ exponent < 2 ^ 17 → exponent ≤ 16
exponent_le exponent h = elim (dec_le exponent 16) [
  | yes small ↦ small
  | no large ↦
      absurd (
        omega (arith, pow-le-pow_right {n = 2} (omega arith) {i = 17} {j = exponent} (omega arith)))
]

slots_of :
    (frames power : ℕ)
    → frames < 2 ^ 16
    → IsNextPower 31 1 (max frames 1) power
    → (exponent : ℕ) × (max power 16 ≡ 2 ^ exponent)
      × (4 ≤ exponent)
      × (exponent ≤ 16)
      × (frames ≤ max power 16)
      × ((max power 16 ≡ 16) ⊎ (max power 16 < 2 * frames))
slots_of frames power h found = elim (dec_le found.exponent 4) [
  | yes small ↦
      let low = pow-le-pow_right {n = 2} (omega arith) small in
      (
        4,
        ground (arith, low, found.result_is),
        omega arith,
        omega arith,
        ground (arith, low, found.result_is, found.reaches),
        ground (arith, low, found.result_is),
      )
  | no large ↦
      let high =
        pow-le-pow_right {n = 2} (omega arith) {i = 5} {j = found.exponent} (omega arith) in
      (
        found.exponent,
        ground (arith, high, found.result_is),
        omega arith,
        exponent_le found.exponent (ground (arith, high, found.result_is, found.least)),
        ground (arith, high, found.result_is, found.reaches),
        ground (arith, high, found.result_is, found.least),
      )
]

-- For a buffer of less than 2^16 milliseconds the number of slots is a power of two from 16 to
-- 65536, it is enough for the frames that the buffer holds, and unless it is 16 it is less than
-- twice their number.
pub jitter_slots-bounds :
    (buffer_ms frame_ms : ℕ)
    → buffer_ms < 2 ^ 16
    → (exponent : ℕ) × (jitter_slots buffer_ms frame_ms ≡ 2 ^ exponent)
      × (4 ≤ exponent)
      × (exponent ≤ 16)
      × (buffer_ms / max frame_ms 1 ≤ jitter_slots buffer_ms frame_ms)
      × ((jitter_slots buffer_ms frame_ms ≡ 16)
          ⊎ (jitter_slots buffer_ms frame_ms < 2 * (buffer_ms / max frame_ms 1)))
unfolding jitter_slots
jitter_slots-bounds buffer_ms frame_ms h =
    slots_of (buffer_ms / max frame_ms 1)
      (next_power_of_two 31 1 (max (buffer_ms / max frame_ms 1) 1))
      (omega (arith, h, div-le_self buffer_ms (max frame_ms 1)))
      (next_power_of_two-IsNextPower 31 1 (max (buffer_ms / max frame_ms 1) 1))
