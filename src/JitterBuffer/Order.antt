-- ===== src/JitterBuffer/Order.antt =====
-- Frames leave the buffer in the order of their sequences.
use gravital_sound.Common.{ℕ, zero, suc, ◌+◌, ◌%◌, ◌^◌, ◌≡◌, refl, ◌∙◌, arith, bit_and}
use gravital_sound.Common.{
  Bool, true, false, ◌==◌, List, [], ◌∷◌, none, some, get_or, set, ◌⊎◌, inl, inr,
}
use gravital_sound.Common.{replicate, not, ◌||◌, Bool-cases}
use gravital_sound.JitterBuffer.{
  Frame, Slot, empty, JitterBuffer, push, pop, store, skip, clear_slots,
}

-- A slot that is occupied holds the frame of its sequence.
abbrev pub IsConsistent : Slot → Type 0
IsConsistent s =
    (s.occupied ≡ false) ⊎ ((f : Frame) × (s.frame ≡ some f) × (f.sequence ≡ s.sequence))

abbrev pub AllConsistent : List Slot → Type 0
AllConsistent [] = Unit {0}
AllConsistent (s ∷ ss) = IsConsistent s × AllConsistent ss

pub AllConsistent-replicate : (n : ℕ) → AllConsistent (replicate n empty)
AllConsistent-replicate zero = tt
AllConsistent-replicate (suc n) = (inl refl, AllConsistent-replicate n)

AllConsistent-set :
    (ss : List Slot) (i : ℕ) (s : Slot)
    → AllConsistent ss
    → IsConsistent s
    → AllConsistent (set ss i s)
AllConsistent-set [] i s h c = tt
AllConsistent-set (x ∷ ss) zero s h c = (c, h.1)
AllConsistent-set (x ∷ ss) (suc i) s h c = (h.0, AllConsistent-set ss i s h.1 c)

get_or-IsConsistent : (ss : List Slot) (i : ℕ) → AllConsistent ss → IsConsistent (get_or ss i empty)
get_or-IsConsistent [] i h = inl refl
get_or-IsConsistent (x ∷ ss) zero h = h.0
get_or-IsConsistent (x ∷ ss) (suc i) h = get_or-IsConsistent ss i h.1

store-AllConsistent :
    (b : JitterBuffer) (f : Frame) → AllConsistent b.slots → AllConsistent (store b f).0.slots
unfolding store
store-AllConsistent b f h = ground (
  arith,
  AllConsistent-set b.slots (bit_and f.sequence b.mask)
      (record { occupied = true; sequence = f.sequence; frame = some f }) h (inr (f, refl, refl)),
)

pub push-AllConsistent :
    (b : JitterBuffer) (f : Frame) → AllConsistent b.slots → AllConsistent (push b f).0.slots
unfolding push
push-AllConsistent b f h = ground (
  arith,
  store-AllConsistent b f h,
  store-AllConsistent (record b { next_seq = f.sequence; primed = true }) f h,
)

clear_slots-AllConsistent :
    (left : ℕ) (ss : List Slot) (mask next i : ℕ)
    → AllConsistent ss
    → AllConsistent (clear_slots ss mask next i left)
unfolding clear_slots
clear_slots-AllConsistent zero ss mask next i h = h
clear_slots-AllConsistent (suc left) ss mask next i h =
    clear_slots-AllConsistent left _ mask next (i + 1)
      (AllConsistent-set ss (bit_and ((next + i) % 2 ^ 32) mask) _ h (inl refl))

pub skip-AllConsistent :
    (b : JitterBuffer) (count : ℕ) → AllConsistent b.slots → AllConsistent (skip b count).slots
unfolding skip
skip-AllConsistent b count h =
    ground (arith, clear_slots-AllConsistent count b.slots b.mask b.next_seq 0 h)

-- Nothing changes, or the frame of the slot of `next_seq` is taken out.
pop-cases :
    (b : JitterBuffer)
    → AllConsistent b.slots
    → ((pop b).1 ≡ none) × ((pop b).0 ≡ b)
      ⊎ ((pop b).1 ≡ (get_or b.slots (bit_and b.next_seq b.mask) empty).frame)
        × ((get_or b.slots (bit_and b.next_seq b.mask) empty).sequence ≡ b.next_seq)
        × ((pop b).0.next_seq ≡ (b.next_seq + 1) % 2 ^ 32)
        × AllConsistent (pop b).0.slots
unfolding pop
pop-cases b h = elim (Bool-cases waits) [
  | inl waiting ↦ inl (ground arith)
  | inr ready ↦ inr (ground arith, ground arith, ground arith, ground (arith, rest))
]
  where
    slot : Slot
    slot = get_or b.slots (bit_and b.next_seq b.mask) empty

    waits : Bool
    waits = not b.primed || (not slot.occupied || not (slot.sequence == b.next_seq))

    rest :
        AllConsistent
          (set b.slots (bit_and b.next_seq b.mask) (record slot { occupied = false; frame = none }))
    rest = AllConsistent-set b.slots (bit_and b.next_seq b.mask) _ h (inl refl)

-- `pop` gives nothing, or the frame with the sequence that is expected next.
pub pop-next :
    (b : JitterBuffer)
    → AllConsistent b.slots
    → ((pop b).1 ≡ none) × ((pop b).0 ≡ b)
      ⊎ ((f : Frame) × ((pop b).1 ≡ some f)
          × (f.sequence ≡ b.next_seq)
          × ((pop b).0.next_seq ≡ (b.next_seq + 1) % 2 ^ 32)
          × AllConsistent (pop b).0.slots)
pop-next b h = elim (get_or-IsConsistent b.slots (bit_and b.next_seq b.mask) h) [
  | inl idle ↦ inl (unfold pop in ground arith)
  | inr (f, held, same) ↦ elim (pop-cases b h) [
    | inl nothing ↦ inl nothing
    | inr (out, at_next, advanced, cleared) ↦ inr (f, out ∙ held, same ∙ at_next, advanced, cleared)
  ]
]
