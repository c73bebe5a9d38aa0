-- ===== src/JitterBuffer.antt =====
-- crates/gravital-talk-transport/src/jitter_buffer.rs: reordering of frames by sequence.
-- The atomic fields are fields of a record: an operation runs without another one in between.
pub mod Order
pub mod Playback
mod Examples
use gravital_sound.Common.{
  ℕ, zero, suc, ◌+◌, ◌-◌, ◌%◌, ◌^◌, Bool, true, false, not, ltb, leb, ◌==◌, if◌then◌else◌,
}
use gravital_sound.Common.{
  List, [], ◌∷◌, Option, none, some, get_or, set, replicate, bit_and, ◌||◌, ◌&&◌,
}

pub record Frame : Type 0 where
  pub sequence : ℕ  -- u32
  pub timestamp : ℕ  -- u64
  pub payload : List ℕ

pub record Slot : Type 0 where
  pub occupied : Bool
  pub sequence : ℕ  -- u32
  pub frame : Option Frame

-- `Slot::empty`
abbrev pub empty : Slot
empty = record { occupied = false; sequence = 0; frame = none }

pub record JitterBuffer : Type 0 where
  pub slots : List Slot
  pub capacity : ℕ  -- u32
  pub mask : ℕ  -- u32
  pub next_seq : ℕ  -- u32
  pub primed : Bool

-- `capacity.is_power_of_two()`
abbrev pub is_power_of_two : ℕ → Bool
is_power_of_two n = not (n == 0) && (bit_and n (n - 1) == 0)

-- `JitterBuffer::new`; `none` is a failed assertion.
unfoldable pub new : ℕ → Option JitterBuffer
new capacity =
    if not (is_power_of_two capacity)
    then none
    else if ltb 2048 capacity
    then none
    else some (record {
      slots = replicate capacity empty;
      capacity = capacity;
      mask = capacity - 1;
      next_seq = 0;
      primed = false;
    })

-- `a.wrapping_sub(b)` on u32.
abbrev pub wrapping_sub : ℕ → ℕ → ℕ
wrapping_sub a b = (a + 2 ^ 32 - b) % 2 ^ 32

-- The end of `push`: the frame goes to its slot, unless the slot holds another sequence.
unfoldable pub store : JitterBuffer → Frame → JitterBuffer × Bool
store b frame =
    let idx = bit_and frame.sequence b.mask in
    let slot = get_or b.slots idx empty in
    if slot.occupied && not (slot.sequence == frame.sequence) then (b, false) else (
      record b {
        slots =
            set b.slots idx
              (record { occupied = true; sequence = frame.sequence; frame = some frame });
      },
      true,
    )

-- `JitterBuffer::push`
unfoldable pub push : JitterBuffer → Frame → JitterBuffer × Bool
unfolding store
push b frame =
    if not b.primed
    then store (record b { next_seq = frame.sequence; primed = true }) frame
    else if ltb 0x80000000 (wrapping_sub frame.sequence b.next_seq)
    then (b, false)
    else if leb b.capacity (wrapping_sub frame.sequence b.next_seq)
    then (b, false)
    else store b frame

-- `JitterBuffer::pop`
unfoldable pub pop : JitterBuffer → JitterBuffer × Option Frame
pop b =
    let next = b.next_seq in
    let idx = bit_and next b.mask in
    let slot = get_or b.slots idx empty in
    if not b.primed || (not slot.occupied || not (slot.sequence == next)) then (b, none) else (
      record b {
        slots = set b.slots idx (record slot { occupied = false; frame = none });
        next_seq = (next + 1) % 2 ^ 32;
      },
      slot.frame,
    )

-- `for i in 0..count`, from `i` on, with the rounds left.
unfoldable pub clear_slots : List Slot → ℕ → ℕ → ℕ → ℕ → List Slot
clear_slots slots mask next i zero = slots
clear_slots slots mask next i (suc left) =
    let idx = bit_and ((next + i) % 2 ^ 32) mask in
    clear_slots (set slots idx (record (get_or slots idx empty) { occupied = false; frame = none }))
      mask next (i + 1) left

-- `JitterBuffer::skip`
unfoldable pub skip : JitterBuffer → ℕ → JitterBuffer
unfolding clear_slots
skip b count = if not b.primed then b else record b {
  slots = clear_slots b.slots b.mask b.next_seq 0 count;
  next_seq = (b.next_seq + count) % 2 ^ 32;
}

-- `JitterBuffer::pop_with_deadline`
unfoldable pub pop_with_deadline : JitterBuffer → ℕ → ℕ → JitterBuffer × Option Frame
unfolding pop skip
pop_with_deadline b now_us deadline_us =
    let popped = pop b in
    elim popped.1 [
      | some frame ↦ (popped.0, some frame)
      | none ↦ (if leb deadline_us now_us then skip popped.0 1 else popped.0, none)
    ]

-- `JitterBuffer::fill_percent` before the division by `capacity`.
unfoldable pub occupied_count : List Slot → ℕ
occupied_count [] = 0
occupied_count (s ∷ ss) = (if s.occupied then 1 else 0) + occupied_count ss
