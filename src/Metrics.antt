-- ===== src/Metrics.antt =====
-- crates/gravital-talk-metrics/src: counters, round trip time, jitter and loss of a session.
-- A word that the source reads as signed is its two's complement here; additions wrap as they do
-- in a release build.
pub mod Averages
pub mod Loss
mod Examples
use gravital_sound.Common.{
  ℕ, zero, suc, ◌+◌, ◌-◌, ◌*◌, ◌/◌, ◌%◌, ◌^◌, min, bit_and, bit_or, not, ltb, ◌==◌, if◌then◌else◌,
}
use gravital_sound.Common.{Option, none, some, Bool, true, false, ◌&&◌}
use gravital_sound.Protocol.{loss_window_size}

pub record Counters : Type 0 where
  pub packets_sent : ℕ  -- u64
  pub packets_received : ℕ  -- u64
  pub bytes_sent : ℕ  -- u64
  pub bytes_received : ℕ  -- u64
  pub integrity_errors : ℕ  -- u64

-- `Counters::new`
abbrev pub new_counters : Counters
new_counters = record {
  packets_sent = 0;
  packets_received = 0;
  bytes_sent = 0;
  bytes_received = 0;
  integrity_errors = 0;
}

-- `Counters::record_sent`
unfoldable pub record_sent : Counters → ℕ → Counters
record_sent c bytes = record c {
  packets_sent = (c.packets_sent + 1) % 2 ^ 64;
  bytes_sent = (c.bytes_sent + bytes) % 2 ^ 64;
}

-- `Counters::record_received`
unfoldable pub record_received : Counters → ℕ → Counters
record_received c bytes = record c {
  packets_received = (c.packets_received + 1) % 2 ^ 64;
  bytes_received = (c.bytes_received + bytes) % 2 ^ 64;
}

-- `Counters::record_integrity_error`
unfoldable pub record_integrity_error : Counters → Counters
record_integrity_error c = record c { integrity_errors = (c.integrity_errors + 1) % 2 ^ 64 }

pub record RttEstimator : Type 0 where
  pub rtt_us : ℕ  -- u32

-- `RttEstimator::new`
abbrev pub new_rtt : RttEstimator
new_rtt = record { rtt_us = 2 ^ 32 - 1 }

-- `RttEstimator::record`
unfoldable pub record_rtt : RttEstimator → ℕ → RttEstimator
record_rtt r sample_us =
    let prev = r.rtt_us in
    if prev == 2 ^ 32 - 1
    then record { rtt_us = sample_us }
    else if ltb prev sample_us
    then record { rtt_us = min (prev + (sample_us - prev) * 1 / 8) (2 ^ 32 - 1) }
    else record { rtt_us = min (prev - (prev - sample_us) * 1 / 8) (2 ^ 32 - 1) }

-- `RttEstimator::current_us`
unfoldable pub rtt_current_us : RttEstimator → Option ℕ
rtt_current_us r = if r.rtt_us == 2 ^ 32 - 1 then none else some r.rtt_us

pub record JitterEstimator : Type 0 where
  pub jitter_us_q4 : ℕ  -- u32
  pub prev_diff_us : ℕ  -- i64

-- `JitterEstimator::new`; the second field is `i64::MIN`.
abbrev pub new_jitter : JitterEstimator
new_jitter = record { jitter_us_q4 = 0; prev_diff_us = 2 ^ 63 }

-- `(a - b)` on i64.
abbrev pub sub_i64 : ℕ → ℕ → ℕ
sub_i64 a b = (a + 2 ^ 64 - b) % 2 ^ 64

-- `i64::unsigned_abs`
abbrev pub unsigned_abs : ℕ → ℕ
unsigned_abs d = if ltb d (2 ^ 63) then d else 2 ^ 64 - d

-- The filter of `JitterEstimator::record`: `jitter + (|d| - jitter) / 16`.
unfoldable pub filtered : ℕ → ℕ → ℕ
filtered j d = min (if ltb j d then j + (d - j) / 16 else j - (j - d) / 16) (2 ^ 32 - 1)

-- `JitterEstimator::record`
unfoldable pub record_jitter : JitterEstimator → ℕ → ℕ → JitterEstimator
unfolding filtered
record_jitter e send_ts_us recv_ts_us =
    let current_diff = sub_i64 recv_ts_us send_ts_us in
    if e.prev_diff_us == 2 ^ 63 then record e { prev_diff_us = current_diff } else record {
      jitter_us_q4 = filtered e.jitter_us_q4 (unsigned_abs (sub_i64 current_diff e.prev_diff_us));
      prev_diff_us = current_diff;
    }

pub record LossTracker : Type 0 where
  pub bitmap : ℕ  -- u64
  pub high_seq : ℕ  -- u32
  pub total_packets : ℕ  -- u32
  pub reorder_count : ℕ  -- u32
  pub initialised : ℕ  -- u32

-- `LossTracker::new`
abbrev pub new_loss : LossTracker
new_loss = record {
  bitmap = 0;
  high_seq = 0;
  total_packets = 0;
  reorder_count = 0;
  initialised = 0;
}

-- `bm << shift` on u64, which a release build computes with the shift modulo 64.
abbrev pub shift_left : ℕ → ℕ → ℕ
shift_left bm shift = bm * 2 ^ (shift % 64) % 2 ^ 64

-- The last line of `LossTracker::record`.
abbrev pub count_packet : LossTracker → LossTracker
count_packet t = record t { total_packets = (t.total_packets + 1) % 2 ^ 32 }

-- `LossTracker::record`, where `diff` is `sequence.wrapping_sub(high) as i32`.
unfoldable pub record_loss : LossTracker → ℕ → LossTracker
record_loss t sequence =
    let diff = (sequence + 2 ^ 32 - t.high_seq) % 2 ^ 32 in
    let gap = 2 ^ 32 - diff in
    if t.initialised == 0
    then record t { high_seq = sequence; bitmap = 1; total_packets = 1; initialised = 1 }
    else if ltb 0 diff && ltb diff (2 ^ 31)
    then count_packet (record t {
      bitmap = bit_or (shift_left t.bitmap (min diff loss_window_size)) 1;
      high_seq = sequence;
    })
    else if not (diff == 0)
    then count_packet (record t {
      bitmap = if ltb gap loss_window_size then bit_or t.bitmap (2 ^ gap) else t.bitmap;
      reorder_count = (t.reorder_count + 1) % 2 ^ 32;
    })
    else count_packet t

-- `u64::count_ones`, by its lowest `bits` bits.
unfoldable pub count_ones : ℕ → ℕ → ℕ
count_ones zero bm = 0
count_ones (suc bits) bm = bm % 2 + count_ones bits (bm / 2)

-- `lost` of `LossTracker::loss_percent`, out of `LOSS_WINDOW_SIZE`.
unfoldable pub lost : LossTracker → ℕ
unfolding count_ones
lost t = if t.initialised == 0 then 0 else loss_window_size - count_ones 64 t.bitmap

pub record Metrics : Type 0 where
  pub rtt : RttEstimator
  pub jitter : JitterEstimator
  pub loss : LossTracker
  pub counters : Counters

-- `Metrics::new`
abbrev pub new : Metrics
new = record { rtt = new_rtt; jitter = new_jitter; loss = new_loss; counters = new_counters }
