-- ===== src/Common/Runs.antt =====
-- Runs of a state machine over a list of events, and when a test of the state became true.
use mathlib.Core.Path.{◌≡◌, refl, ap}
use mathlib.Core.Logic.{◌⊎◌, inl, inr}
use mathlib.Core.Bool.{Bool, true, false}
use mathlib.Core.List.{List, [], ◌∷◌, ◌++◌}
use gravital_sound.Common.Tests.{Bool-cases}

module _ {S E : Type 0} (step : S → E → S) where
  -- The state after the events, in order.
  abbrev pub run : S → List E → S
  run s [] = s
  run s (e ∷ es) = run (step s e) es

  pub run-append : (s : S) (xs ys : List E) → run s (xs ++ ys) ≡ run (run s xs) ys
  run-append s [] ys = refl
  run-append s (x ∷ xs) ys = run-append (step s x) xs ys

  -- An invariant of the steps holds after every run.
  pub run_inv {κ} :
      (P : S → Type κ)
      → ((s : S) (e : E) → P s → P (step s e))
      → (es : List E) (s : S) → P s
      → P (run s es)
  run_inv P keep [] s h = h
  run_inv P keep (e ∷ es) s h = run_inv P keep es (step s e) (keep s e h)

  module _ (test : S → Bool) where
    -- The test holds now and after each of the events.
    abbrev pub Stays : S → List E → Type 0
    Stays s [] = test s ≡ true
    Stays s (e ∷ es) = (test s ≡ true) × Stays (step s e) es

    -- `event` made the test true, and it has held ever since.
    pub record Since (s : S) (es : List E) : Type 0 where
      pub before : List E
      pub event : E
      pub after : List E
      pub split : es ≡ before ++ (event ∷ after)
      pub not_before : test (run s before) ≡ false
      pub stays : Stays (step (run s before) event) after

    Since-cons : (s : S) (e : E) (es : List E) → Since (step s e) es → Since s (e ∷ es)
    Since-cons s e es h = record {
      before = e ∷ h.before;
      event = h.event;
      after = h.after;
      split = ap (λ t. e ∷ t) h.split;
      not_before = h.not_before;
      stays = h.stays;
    }

    pub since : (es : List E) (s : S) → test (run s es) ≡ true → Stays s es ⊎ Since s es
    since [] s o = inl o
    since (e ∷ es) s o = elim (since es (step s e) o) [
      | inr h ↦ inr (Since-cons s e es h)
      | inl h ↦ elim (Bool-cases (test s)) [
        | inl now ↦ inl (now, h)
        | inr not_yet ↦ inr (record {
          before = [];
          event = e;
          after = es;
          split = refl;
          not_before = not_yet;
          stays = h;
        })
      ]
    ]

    pub Stays-now : (es : List E) (s : S) → Stays s es → test s ≡ true
    Stays-now [] s h = h
    Stays-now (e ∷ es) s h = h.0

    -- From a state where the test fails, some event made it true.
    pub Since-false : (es : List E) (s : S) → test s ≡ false → test (run s es) ≡ true → Since s es
    Since-false es s n o = elim (since es s o) [ inl h ↦ cc (Stays-now es s h) | inr h ↦ h ]
