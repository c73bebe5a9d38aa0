-- ===== src/JitterBuffer/Playback.antt =====
-- What the consumer of the buffer, `recv_audio` of session.rs, gets over any sequence of arrivals
-- and of its calls of `pop_with_deadline`.
use gravital_sound.Common.{
  ℕ, zero, suc, ◌+◌, ◌-◌, ◌%◌, ◌^◌, ◌<◌, ◌≡◌, refl, sym, ap, ◌∙◌, arith, bit_and, subst,
}
use gravital_sound.Common.{
  Bool, true, false, leb, if◌then◌else◌, List, [], ◌∷◌, length, Option, none, some, get_or, set,
  inl, inr, Bool-cases,
}
use native.Mathlib.Nat.{mod-lt, one-le-pow}
use gravital_sound.Common.Bits.{bit_and_mask}
use gravital_sound.JitterBuffer.{
  Frame, Slot, empty, JitterBuffer, push, pop, pop_with_deadline, skip, store, new,
}
use gravital_sound.JitterBuffer.Order.{
  AllConsistent, AllConsistent-replicate, push-AllConsistent, skip-AllConsistent, pop-next,
}

-- The calls of the producer, and of the consumer with its clock and its deadline.
pub data Call : Type 0 where
  arrive : Frame → Call
  fetch : ℕ → ℕ → Call

-- What the consumer hears: a frame, or that the deadline has passed without one.
pub data Heard : Type 0 where
  sound : Frame → Heard
  gap : Heard

abbrev pub outcome : Option Frame → Bool → List Heard → List Heard
outcome (some f) late later = sound f ∷ later
outcome none true later = gap ∷ later
outcome none false later = later

-- What the consumer hears over the calls, in order.
unfoldable pub heard : JitterBuffer → List Call → List Heard
unfolding push pop_with_deadline
heard b [] = []
heard b (arrive f ∷ calls) = heard (push b f).0 calls
heard b (fetch now_us deadline_us ∷ calls) =
    outcome (pop_with_deadline b now_us deadline_us).1 (leb deadline_us now_us)
      (heard (pop_with_deadline b now_us deadline_us).0 calls)

-- Frames and gaps stand for the sequences `n`, `n + 1` and so on, wrapping around at `2 ^ 32`.
abbrev pub From : ℕ → List Heard → Type 0
From n [] = Unit {0}
From n (sound f ∷ hs) = (f.sequence ≡ n) × From ((n + 1) % 2 ^ 32) hs
From n (gap ∷ hs) = From ((n + 1) % 2 ^ 32) hs

-- From the first frame on.
abbrev pub Consecutive : List Heard → Type 0
Consecutive [] = Unit {0}
Consecutive (sound f ∷ hs) = From ((f.sequence + 1) % 2 ^ 32) hs
Consecutive (gap ∷ hs) = Consecutive hs

push-primed :
    (b : JitterBuffer) (f : Frame)
    → b.primed ≡ true
    → ((push b f).0.primed ≡ true) × ((push b f).0.next_seq ≡ b.next_seq)
unfolding push store
push-primed b f p = ground arith

push_first-primed : (b : JitterBuffer) (f : Frame) → b.primed ≡ false → (push b f).0.primed ≡ true
unfolding push store
push_first-primed b f p = ground arith

pop-primed : (b : JitterBuffer) → (pop b).0.primed ≡ b.primed
unfolding pop
pop-primed b = ground arith

pop-unprimed : (b : JitterBuffer) → b.primed ≡ false → ((pop b).1 ≡ none) × ((pop b).0 ≡ b)
unfolding pop
pop-unprimed b p = ground arith

pop_with_deadline-some :
    (b : JitterBuffer) (now_us deadline_us : ℕ) (f : Frame)
    → (pop b).1 ≡ some f
    → pop_with_deadline b now_us deadline_us ≡ ((pop b).0, some f)
unfolding pop_with_deadline
pop_with_deadline-some b now_us deadline_us f out = rw (pop_with_deadline, out) refl

pop_with_deadline-none :
    (b : JitterBuffer) (now_us deadline_us : ℕ)
    → (pop b).1 ≡ none
    → (pop b).0 ≡ b
    → pop_with_deadline b now_us deadline_us
      ≡ (if leb deadline_us now_us then skip b 1 else b, none)
unfolding pop_with_deadline
pop_with_deadline-none b now_us deadline_us nothing same =
    rw (pop_with_deadline, nothing, same) refl

skip-primed :
    (b : JitterBuffer)
    → b.primed ≡ true
    → ((skip b 1).primed ≡ true) × ((skip b 1).next_seq ≡ (b.next_seq + 1) % 2 ^ 32)
unfolding skip
skip-primed b p = ground arith

skip-unprimed : (b : JitterBuffer) → b.primed ≡ false → skip b 1 ≡ b
unfolding skip
skip-unprimed b p = ground arith

heard-From :
    (calls : List Call) (b : JitterBuffer)
    → b.primed ≡ true
    → AllConsistent b.slots
    → From b.next_seq (heard b calls)
unfolding heard
heard-From [] b p h = tt
heard-From (arrive f ∷ calls) b p h =
    subst (λ n. From n (heard (push b f).0 calls)) (push-primed b f p).1
      (heard-From calls (push b f).0 (push-primed b f p).0 (push-AllConsistent b f h))
heard-From (fetch now_us deadline_us ∷ calls) b p h = elim (pop-next b h) [
  | inr (f, out, at_next, advanced, rest) ↦ rw (pop_with_deadline-some b now_us deadline_us f out) (
    at_next,
    subst (λ n. From n (heard (pop b).0 calls)) advanced
        (heard-From calls (pop b).0 (pop-primed b ∙ p) rest),
  )
  | inl (nothing, same) ↦
      rw (pop_with_deadline-none b now_us deadline_us nothing same)
        (elim (Bool-cases (leb deadline_us now_us)) [
          | inr early ↦ rw early (heard-From calls b p h)
          | inl late ↦ rw late (
              subst (λ n. From n (heard (skip b 1) calls)) (skip-primed b p).1
                (heard-From calls (skip b 1) (skip-primed b p).0 (skip-AllConsistent b 1 h)))
        ])
]

From-Consecutive : (n : ℕ) (hs : List Heard) → From n hs → Consecutive hs
From-Consecutive n [] h = tt
From-Consecutive n (sound f ∷ hs) (e, h) = subst (λ k. From ((k + 1) % 2 ^ 32) hs) (sym e) h
From-Consecutive n (gap ∷ hs) h = From-Consecutive ((n + 1) % 2 ^ 32) hs h

heard-Consecutive :
    (calls : List Call) (b : JitterBuffer) → AllConsistent b.slots → Consecutive (heard b calls)
unfolding heard
heard-Consecutive [] b h = tt
heard-Consecutive (arrive f ∷ calls) b h =
    heard-Consecutive calls (push b f).0 (push-AllConsistent b f h)
heard-Consecutive (fetch now_us deadline_us ∷ calls) b h = elim (Bool-cases b.primed) [
  | inl primed ↦
      From-Consecutive b.next_seq (heard b (fetch now_us deadline_us ∷ calls))
        (heard-From (fetch now_us deadline_us ∷ calls) b primed h)
  | inr unprimed ↦
      rw
        (
          pop_with_deadline-none b now_us deadline_us (pop-unprimed b unprimed).0
              (pop-unprimed b unprimed).1,
          skip-unprimed b unprimed,
        )
        (elim (Bool-cases (leb deadline_us now_us)) [
          | inl late ↦ rw late (heard-Consecutive calls b h)
          | inr early ↦ rw early (heard-Consecutive calls b h)
        ])
]

new-AllConsistent :
    (capacity : ℕ) {b : JitterBuffer} → new capacity ≡ some b → AllConsistent b.slots
unfolding new
new-AllConsistent capacity e = ground (arith, AllConsistent-replicate capacity)

-- Whatever frames arrive at a new buffer, and whenever the consumer calls `pop_with_deadline`,
-- with whatever clock and deadline: from one frame that comes out to the next one the sequence
-- grows, modulo 2^32, by one and by one more for each call between them that found no frame when
-- its deadline had passed. So without such a call the frames are consecutive.
pub played_in_order :
    (capacity : ℕ) (calls : List Call) {b : JitterBuffer}
    → new capacity ≡ some b
    → Consecutive (heard b calls)
played_in_order capacity calls {b} e = heard-Consecutive calls b (new-AllConsistent capacity e)

get_or-set_self :
    (ss : List Slot) (i : ℕ) (s : Slot) → i < length ss → get_or (set ss i s) i empty ≡ s
get_or-set_self [] i s h = absurd (omega arith)
get_or-set_self (x ∷ ss) zero s h = refl
get_or-set_self (x ∷ ss) (suc i) s h = get_or-set_self ss i s (omega arith)

abbrev filled : Frame → Slot
filled f = record { occupied = true; sequence = f.sequence; frame = some f }

push-accepted :
    (b : JitterBuffer) (f : Frame)
    → b.primed ≡ true
    → (push b f).1 ≡ true
    → (push b f).0 ≡ record b { slots = set b.slots (bit_and f.sequence b.mask) (filled f) }
unfolding push store
push-accepted b f primed accepted = ground arith

pop-filled :
    (b : JitterBuffer) (f : Frame)
    → get_or b.slots (bit_and b.next_seq b.mask) empty ≡ filled f
    → b.primed ≡ true
    → f.sequence ≡ b.next_seq
    → (pop b).1 ≡ some f
unfolding pop
pop-filled b f held primed at_next =
    ground (arith, ap (λ s. s.occupied) held, ap (λ s. s.sequence) held, ap (λ s. s.frame) held)

masked-lt : (k a : ℕ) → bit_and a (2 ^ k - 1) < 2 ^ k
masked-lt k a = omega (arith, bit_and_mask k a, mod-lt a positive)
  where
    positive : 0 < 2 ^ k
    positive = omega (arith, one-le-pow k 2)

-- If the buffer is primed, has 2^k slots with the mask 2^k - 1, and accepts a frame with the
-- sequence that is expected next, `pop` returns that frame.
pub pop-push :
    (b : JitterBuffer) (f : Frame) (k : ℕ)
    → length b.slots ≡ 2 ^ k
    → b.mask ≡ 2 ^ k - 1
    → b.primed ≡ true
    → f.sequence ≡ b.next_seq
    → (push b f).1 ≡ true
    → (pop (push b f).0).1 ≡ some f
pop-push b f k slots mask primed at_next accepted =
    ap (λ c. (pop c).1) (push-accepted b f primed accepted)
    ∙ pop-filled (record b { slots = set b.slots (bit_and f.sequence b.mask) (filled f) }) f
        (ap
            (λ n.
              get_or (set b.slots (bit_and f.sequence b.mask) (filled f)) (bit_and n b.mask) empty)
            (sym at_next)
          ∙ get_or-set_self b.slots (bit_and f.sequence b.mask) (filled f) in_range)
        primed at_next
  where
    in_range : bit_and f.sequence b.mask < length b.slots
    in_range = omega (arith, slots, masked-lt k f.sequence, ap (λ m. bit_and f.sequence m) mask)
