-- ===== src/Congestion.antt =====
-- crates/gravital-talk-transport/src/congestion.rs: the bitrate of a session.
pub mod Bounds
mod Examples
use gravital_sound.Common.{
  ℕ, ◌+◌, ◌-◌, ◌^◌, max, min, Bool, if◌then◌else◌, ltb, Option, none, some, ◌≤◌, ◌≡◌,
}
use gravital_sound.Common.{List, [], ◌∷◌}
use gravital_sound.Protocol.{congestion_min_bitrate, congestion_aimd_increment}

-- `RTT_THRESHOLD_US`
abbrev pub rtt_threshold_us : ℕ
rtt_threshold_us = 150000

pub record CongestionController : Type 0 where
  pub current_bitrate : ℕ  -- u32
  pub min_bitrate : ℕ  -- u32
  pub max_bitrate : ℕ  -- u32

-- `u32::clamp`, which panics where the bounds are in the wrong order; `none` is the panic.
unfoldable pub clamp : ℕ → ℕ → ℕ → Option ℕ
clamp x low high = if ltb high low then none else some (min (max x low) high)

-- `CongestionController::new`
unfoldable pub new : ℕ → ℕ → ℕ → Option CongestionController
unfolding clamp
new initial_bitrate min_bitrate max_bitrate =
    let low = max min_bitrate congestion_min_bitrate in
    elim (clamp initial_bitrate low max_bitrate) [
      | none ↦ none
      | some clamped ↦
          some (record { current_bitrate = clamped; min_bitrate = low; max_bitrate = max_bitrate })
    ]

-- `current_bitrate.store(new_bitrate.clamp(min, max))`, the body of `set_bitrate` and the end of
-- `update`.
unfoldable pub set_bitrate : CongestionController → ℕ → Option CongestionController
unfolding clamp
set_bitrate cc bitrate = elim (clamp bitrate cc.min_bitrate cc.max_bitrate) [
  | none ↦ none
  | some clamped ↦ some (record cc { current_bitrate = clamped })
]

-- The floating-point operations: `loss_rate > 0.05`, and the truncated products with 0.85 and
-- 0.95.
pub record Floats {ℓ} (F : Type ℓ) : Type ℓ where
  pub loss_is_high : F → Bool
  pub times_085 : ℕ → ℕ
  pub times_095 : ℕ → ℕ

-- The value before the clamp in `update`.
unfoldable pub next_bitrate {ℓ} : {F : Type ℓ} → Floats F → ℕ → F → ℕ → ℕ
next_bitrate fl current loss_rate rtt_us =
    if fl.loss_is_high loss_rate
    then fl.times_085 current
    else if ltb rtt_threshold_us rtt_us
    then fl.times_095 current
    else min (current + congestion_aimd_increment) (2 ^ 32 - 1)

-- `CongestionController::update`
unfoldable pub update {ℓ} :
    {F : Type ℓ} → Floats F → CongestionController → F → ℕ → Option CongestionController
unfolding next_bitrate set_bitrate
update fl cc loss_rate rtt_us = set_bitrate cc (next_bitrate fl cc.current_bitrate loss_rate rtt_us)
