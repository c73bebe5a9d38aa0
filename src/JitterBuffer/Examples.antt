-- ===== src/JitterBuffer/Examples.antt =====
-- A buffer of four slots whose frames arrive out of order.
use gravital_sound.Common.{ℕ, ◌≡◌, refl, List, [], ◌∷◌, replicate, some, true, false}
use gravital_sound.JitterBuffer.{Frame, JitterBuffer, empty, new, push, pop}
use gravital_sound.JitterBuffer.Playback.{
  arrive, fetch, Call, sound, gap, heard, Consecutive, played_in_order, pop-push,
}

abbrev frame : ℕ → Frame
frame sequence = record { sequence = sequence; timestamp = 0; payload = sequence ∷ [] }

abbrev fresh : JitterBuffer
fresh = record { slots = replicate 4 empty; capacity = 4; mask = 3; next_seq = 0; primed = false }

-- The last sequence wraps around.
abbrev started : JitterBuffer
started = record fresh { next_seq = 0xFFFFFFFF; primed = true }

-- The fetches at the time 5 are before the deadline 9, the ones at 20 after it; the frame 9 is late.
abbrev calls : List Call
calls =
    fetch 20 9
    ∷ arrive (frame 8)
    ∷ arrive (frame 10)
    ∷ fetch 5 9
    ∷ fetch 5 9
    ∷ fetch 20 9
    ∷ arrive (frame 9)
    ∷ fetch 5 9
    ∷ []

test_new : new 4 ≡ some fresh
unfolding new
test_new = refl

test_heard : heard fresh calls ≡ gap ∷ sound (frame 8) ∷ gap ∷ sound (frame 10) ∷ []
unfolding heard
test_heard = refl

played_in_order_example : Consecutive (heard fresh calls)
played_in_order_example = played_in_order 4 calls test_new

pop-push_example : (pop (push started (frame 0xFFFFFFFF)).0).1 ≡ some (frame 0xFFFFFFFF)
unfolding push
pop-push_example = pop-push started (frame 0xFFFFFFFF) 2 refl refl refl refl refl
