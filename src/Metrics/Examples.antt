-- ===== src/Metrics/Examples.antt =====
-- Tests of the estimators, and instances of the theorems about them.
use gravital_sound.Common.{◌+◌, ◌-◌, ◌/◌, ◌≤◌, ◌≡◌, refl, arith}
use gravital_sound.Metrics.{new_loss, record_loss, record_rtt, lost}
use gravital_sound.Metrics.Averages.{record_rtt-bounds}
use gravital_sound.Metrics.Loss.{in_sequence, in_sequence-lost}

-- `detects_gap` of loss.rs: the second packet is missing.
test_gap : (record_loss (record_loss new_loss 0) 2).bitmap ≡ 0b101
unfolding record_loss
test_gap = refl

-- `reorder_counted` of loss.rs
test_reorder : (record_loss (record_loss (record_loss new_loss 0) 2) 1).reorder_count ≡ 1
unfolding record_loss
test_reorder = refl

-- After a jump of 64 the bitmap still holds what it held before, where a shift by 64 would clear it.
test_jump : (record_loss (record_loss (record_loss new_loss 0) 1) 65).bitmap ≡ 0b11
unfolding record_loss
test_jump = refl

in_sequence-lost_example :
    (lost (in_sequence 3 4294967295) ≡ 61) × ((in_sequence 3 4294967295).reorder_count ≡ 0)
in_sequence-lost_example = in_sequence-lost 2 4294967295 (omega arith)

record_rtt-bounds_example :
    (1000 ≤ (record_rtt (record { rtt_us = 1000 }) 1800).rtt_us)
    × ((record_rtt (record { rtt_us = 1000 }) 1800).rtt_us ≤ 1800)
    × ((record_rtt (record { rtt_us = 1000 }) 1800).rtt_us ≤ 1000 + (1800 - 1000) / 8)
    × (1000 ≤ (record_rtt (record { rtt_us = 1000 }) 1800).rtt_us + (1000 - 1800) / 8)
record_rtt-bounds_example =
    record_rtt-bounds (record { rtt_us = 1000 }) 1800 (omega arith) (omega arith)
