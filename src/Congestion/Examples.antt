-- ===== src/Congestion/Examples.antt =====
-- A controller of 8 to 64 kbit/s.
use gravital_sound.Common.{ℕ, ◌*◌, ◌/◌, ◌≡◌, ◌<◌, refl, ltb, none, some, arith, ◌⊎◌, max}
use gravital_sound.Congestion.{CongestionController, Floats, new, update}
use gravital_sound.Congestion.Bounds.{IsValid, new-IsValid, update-IsValid, repeat, repeat-calm}

abbrev start : CongestionController
start = record { current_bitrate = 60000; min_bitrate = 8000; max_bitrate = 64000 }

-- Rates in thousandths, and the products in whole numbers.
abbrev floats : Floats ℕ
floats = record {
  loss_is_high = λ thousandths. ltb 50 thousandths;
  times_085 = λ b. b * 85 / 100;
  times_095 = λ b. b * 95 / 100;
}

new-IsValid_example :
    (64000 < max 1 8000) × (new 60000 1 64000 ≡ none)
    ⊎ ((made : CongestionController) × (new 60000 1 64000 ≡ some made) × IsValid made)
new-IsValid_example = new-IsValid 60000 1 64000 (omega arith)

-- The upper bound is below the least bitrate of the protocol.
test_panic : new 6000 1 6000 ≡ none
unfolding new
test_panic = refl

update-IsValid_example :
    (after : CongestionController) × (update floats start 100 20000 ≡ some after)
    × IsValid after
    × (after.min_bitrate ≡ 8000)
    × (after.max_bitrate ≡ 64000)
update-IsValid_example = update-IsValid floats start 100 20000 (omega arith)

repeat-calm_example :
    repeat floats 3 start 10 20000
    ≡ some (record { current_bitrate = 64000; min_bitrate = 8000; max_bitrate = 64000 })
repeat-calm_example = repeat-calm floats 3 start 10 20000 (omega arith) refl (omega arith)
