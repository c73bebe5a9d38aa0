-- ===== src/Floor/Steps.antt =====
-- One floor transition.
use gravital_sound.Common.{ℕ, ◌≡◌, refl, ◌⊎◌, inr, true, false, ok, err, arith}
use gravital_sound.Floor.{idle, FloorEvent, grant}
use gravital_sound.Floor.{taken, reset, FloorController, transition}
use gravital_sound.Floor.{is_available, is_holder, new}

-- Nobody is recorded as the holder while the floor is available.
abbrev pub IsValid : FloorController → Type 0
IsValid fc = (is_available fc.state ≡ false) ⊎ (fc.holder_ssrc ≡ 0)

pub new-IsValid : (ms : ℕ) → IsValid (new ms)
unfolding new
new-IsValid ms = inr refl

-- Every event, accepted or refused, keeps the invariant, and never changes the time limit.
pub transition-IsValid :
    (fc : FloorController) (e : FloorEvent) (ssrc : ℕ)
    → IsValid fc
    → IsValid (transition fc e ssrc).0
      × ((transition fc e ssrc).0.max_transmit_ms ≡ fc.max_transmit_ms)
unfolding transition is_available
transition-IsValid fc e ssrc v = ground arith

-- A refused event leaves the floor controller unchanged and is reported with its state; an
-- accepted event reports the new state.
pub transition_floor :
    (fc : FloorController) (e : FloorEvent) (ssrc : ℕ)
    → ((transition fc e ssrc).0 ≡ fc)
        × ((transition fc e ssrc).1 ≡ err (record { from = fc.state; event = e }))
      ⊎ ((transition fc e ssrc).1 ≡ ok (transition fc e ssrc).0.state)
unfolding transition
transition_floor fc e ssrc = ground arith

-- In every valid state `Reset` is accepted and leaves the floor idle without a holder, the time
-- limit unchanged.
pub reset_frees :
    (fc : FloorController) (ssrc : ℕ)
    → IsValid fc
    → (transition fc reset ssrc).1 ≡ ok idle
      × ((transition fc reset ssrc).0 ≡ record fc { state = idle; holder_ssrc = 0 })
unfolding transition is_available
reset_frees fc ssrc v = ground arith

-- Somebody new holds the floor after an event only if the event granted it to them, or told that
-- they have taken it.
pub holder_changes :
    (fc : FloorController) (e : FloorEvent) (ssrc x : ℕ)
    → is_holder (transition fc e ssrc).0 x ≡ true
    → is_holder fc x ≡ false
    → (ssrc ≡ x) × ((e ≡ grant) ⊎ (e ≡ taken))
unfolding transition is_holder
holder_changes fc e ssrc x h n = ground arith
