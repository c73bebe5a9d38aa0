-- ===== src/Metrics/Averages.antt =====
-- The averages stay between the old value and the sample.
use gravital_sound.Common.{ℕ, ◌+◌, ◌-◌, ◌/◌, ◌^◌, ◌≤◌, ◌<◌, min, max, arith}
use gravital_sound.Metrics.{RttEstimator, record_rtt, filtered}

-- An estimate that holds a value and a sample of 32 bits: the new estimate lies between the two,
-- and moves by at most an eighth of the distance.
pub record_rtt-bounds :
    (r : RttEstimator) (sample_us : ℕ)
    → r.rtt_us < 2 ^ 32 - 1
    → sample_us < 2 ^ 32
    → (min r.rtt_us sample_us ≤ (record_rtt r sample_us).rtt_us)
      × ((record_rtt r sample_us).rtt_us ≤ max r.rtt_us sample_us)
      × ((record_rtt r sample_us).rtt_us ≤ r.rtt_us + (sample_us - r.rtt_us) / 8)
      × (r.rtt_us ≤ (record_rtt r sample_us).rtt_us + (r.rtt_us - sample_us) / 8)
unfolding record_rtt
record_rtt-bounds r sample_us h k = ground arith

pub filtered-bounds :
    (j d : ℕ)
    → j < 2 ^ 32
    → (filtered j d < 2 ^ 32)
      × (min (min j d) (2 ^ 32 - 1) ≤ filtered j d)
      × (filtered j d ≤ max j d)
unfolding filtered
filtered-bounds j d h = ground arith
