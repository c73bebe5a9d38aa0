-- ===== src/Floor/Traces.antt =====
-- What holds of the floor over every sequence of events, refused ones included.
use gravital_sound.Common.{ℕ, ◌≡◌, refl, ap, ◌∙◌, subst, ◌⊎◌, Bool, true}
use gravital_sound.Common.{List, ◌∷◌, ◌++◌}
use gravital_sound.Common.Runs.{run, run_inv, Stays, Since, Since-false, Stays-now}
use gravital_sound.Floor.{FloorEvent, grant, taken, FloorController, advance, new}
use gravital_sound.Floor.{is_holder}
use gravital_sound.Floor.Steps.{IsValid, new-IsValid, transition-IsValid, holder_changes}

abbrev pub held_by : ℕ → FloorController → Bool
held_by x fc = is_holder fc x

-- The controller was told that `x` has the floor, by a grant or as taken, and `x` has had it ever
-- since.
pub record Granted (x : ℕ) (fc : FloorController) (es : List (FloorEvent × ℕ)) : Type 0 where
  pub before : List (FloorEvent × ℕ)
  pub event : FloorEvent
  pub after : List (FloorEvent × ℕ)
  pub split : es ≡ before ++ ((event, x) ∷ after)
  pub told : (event ≡ grant) ⊎ (event ≡ taken)
  pub stays : Stays advance (held_by x) (advance (run advance fc before) (event, x)) after

-- Whoever holds the floor after any events was given it by a `Grant` or a `Taken` event that
-- named them, and has held it ever since.
pub holder-Granted :
    (ms : ℕ) (es : List (FloorEvent × ℕ)) (x : ℕ)
    → is_holder (run advance (new ms) es) x ≡ true
    → Granted x (new ms) es
holder-Granted ms es x o = record {
  before = h.before;
  event = h.event.0;
  after = h.after;
  split = h.split ∙ ap (λ k. h.before ++ ((h.event.0, k) ∷ h.after)) found.0;
  told = found.1;
  stays =
      subst
        (λ k.
          Stays advance (held_by x) (advance (run advance (new ms) h.before) (h.event.0, k))
            h.after)
        found.0 h.stays;
}
  where
    h : Since advance (held_by x) (new ms) es
    h = Since-false advance (held_by x) es (new ms) (unfold new is_holder in refl) o

    found : (h.event.1 ≡ x) × ((h.event.0 ≡ grant) ⊎ (h.event.0 ≡ taken))
    found =
        holder_changes (run advance (new ms) h.before) h.event.0 h.event.1 x
          (Stays-now advance (held_by x) h.after (advance (run advance (new ms) h.before) h.event)
            h.stays)
          h.not_before

-- After any events, accepted or refused, the floor has no recorded holder while it is available.
pub run-IsValid : (ms : ℕ) (es : List (FloorEvent × ℕ)) → IsValid (run advance (new ms) es)
run-IsValid ms es =
    run_inv advance IsValid (λ fc e v. (transition-IsValid fc e.0 e.1 v).0) es (new ms)
      (new-IsValid ms)
