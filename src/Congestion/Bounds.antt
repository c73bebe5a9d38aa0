-- ===== src/Congestion/Bounds.antt =====
-- The bitrate stays between its bounds, and grows to the upper one without congestion.
use gravital_sound.Common.{
  ℕ, zero, suc, ◌+◌, ◌*◌, ◌^◌, ◌≤◌, ◌<◌, min, max, ◌≡◌, refl, ap, ◌∙◌, arith,
}
use gravital_sound.Common.{false, Option, none, some}
use gravital_sound.Common.{◌⊎◌, inl, inr}
use native.Mathlib.Decide.{dec_lt}
use gravital_sound.Protocol.{congestion_min_bitrate}
use gravital_sound.Congestion.{
  CongestionController, new, set_bitrate, update, Floats, next_bitrate, clamp,
}
use gravital_sound.Congestion.{rtt_threshold_us}

pub record IsValid (c : CongestionController) : Type 0 where
  pub above_floor : congestion_min_bitrate ≤ c.min_bitrate
  pub above : c.min_bitrate ≤ c.current_bitrate
  pub below : c.current_bitrate ≤ c.max_bitrate
  pub fits : c.max_bitrate < 2 ^ 32

-- For a maximum that fits 32 bits, `new` either panics, and then the maximum is below the greater
-- of the minimum and 8000, or returns a valid controller.
pub new-IsValid :
    (initial low high : ℕ)
    → high < 2 ^ 32
    → (high < max low congestion_min_bitrate) × (new initial low high ≡ none)
      ⊎ ((made : CongestionController) × (new initial low high ≡ some made) × IsValid made)
unfolding new clamp
new-IsValid initial low high fits = elim (dec_lt high (max low congestion_min_bitrate)) [
  | yes wrong ↦ inl (wrong, ground arith)
  | no right ↦ inr (first, ground arith, omega arith)
]
  where
    first : CongestionController
    first = record {
      current_bitrate = min (max initial (max low congestion_min_bitrate)) high;
      min_bitrate = max low congestion_min_bitrate;
      max_bitrate = high;
    }

pub set_bitrate-IsValid :
    (c : CongestionController) (bitrate : ℕ)
    → IsValid c
    → (set_bitrate c bitrate
        ≡ some (record c { current_bitrate = min (max bitrate c.min_bitrate) c.max_bitrate }))
      × IsValid (record c { current_bitrate = min (max bitrate c.min_bitrate) c.max_bitrate })
unfolding set_bitrate clamp
set_bitrate-IsValid c bitrate v = ground arith

-- On a valid controller `update` does not panic, whatever the measurements and the floating-point
-- results; the bitrate stays between its bounds, and these are unchanged.
pub update-IsValid {ℓ} :
    {F : Type ℓ} (fl : Floats F) (c : CongestionController) (loss_rate : F) (rtt_us : ℕ)
    → IsValid c
    → (after : CongestionController) × (update fl c loss_rate rtt_us ≡ some after)
      × IsValid after
      × (after.min_bitrate ≡ c.min_bitrate)
      × (after.max_bitrate ≡ c.max_bitrate)
unfolding update
update-IsValid fl c loss_rate rtt_us v =
    let set = set_bitrate-IsValid c (next_bitrate fl c.current_bitrate loss_rate rtt_us) v in
    (_, set.0, set.1, refl, refl)

-- `count` updates with the same measurements; `none` if one of them panics.
unfoldable pub repeat {ℓ} :
    {F : Type ℓ} → Floats F → ℕ → CongestionController → F → ℕ → Option CongestionController
unfolding update
repeat fl zero c loss_rate rtt_us = some c
repeat fl (suc count) c loss_rate rtt_us = elim (update fl c loss_rate rtt_us) [
  | none ↦ none
  | some after ↦ repeat fl count after loss_rate rtt_us
]

-- One update without congestion.
update-calm {ℓ} :
    {F : Type ℓ} (fl : Floats F) (c : CongestionController) (loss_rate : F) (rtt_us : ℕ)
    → IsValid c
    → fl.loss_is_high loss_rate ≡ false
    → rtt_us ≤ rtt_threshold_us
    → update fl c loss_rate rtt_us
      ≡ some (record c { current_bitrate = min (c.current_bitrate + 2000) c.max_bitrate })
unfolding update next_bitrate set_bitrate clamp
update-calm fl c loss_rate rtt_us v low fast = ground arith

-- After any number of updates without high loss or a high round-trip time a valid controller has
-- gained 2000 bit/s for each, up to its maximum.
pub repeat-calm {ℓ} :
    {F : Type ℓ} (fl : Floats F) (count : ℕ) (c : CongestionController) (loss_rate : F) (rtt_us : ℕ)
    → IsValid c
    → fl.loss_is_high loss_rate ≡ false
    → rtt_us ≤ rtt_threshold_us
    → repeat fl count c loss_rate rtt_us
      ≡ some (record c { current_bitrate = min (c.current_bitrate + 2000 * count) c.max_bitrate })
unfolding repeat
repeat-calm fl zero c loss_rate rtt_us v low fast =
    ap (λ b. some (record c { current_bitrate = b })) {x = c.current_bitrate} (omega arith)
repeat-calm fl (suc count) c loss_rate rtt_us v low fast =
    ap (λ r. elim r [ none ↦ none | some after ↦ repeat fl count after loss_rate rtt_us ])
      (update-calm fl c loss_rate rtt_us v low fast)
    ∙ repeat-calm fl count
        (record c { current_bitrate = min (c.current_bitrate + 2000) c.max_bitrate }) loss_rate
        rtt_us (omega arith) low fast
    ∙ ap (λ b. some (record c { current_bitrate = b }))
        {x = min (min (c.current_bitrate + 2000) c.max_bitrate + 2000 * count) c.max_bitrate}
        (omega arith)
