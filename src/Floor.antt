-- ===== src/Floor.antt =====
-- crates/gravital-talk-core/src/floor.rs: the floor controller of a push-to-talk session.
mod Examples
pub mod Payload
pub mod Steps
pub mod Traces
use gravital_sound.Common.{
  ℕ, Bool, true, false, ◌&&◌, ◌==◌, Option, none, some, List, [], ◌∷◌, Result, ok, err,
}

abbrev pub floor_timeout_ms : ℕ
floor_timeout_ms = 30000

pub data FloorState : Type 0 where
  idle requested granted released : FloorState

pub data FloorEvent : Type 0 where
  request grant deny release taken timeout reset : FloorEvent

pub record FloorTransitionError : Type 0 where
  pub from : FloorState
  pub event : FloorEvent

pub record FloorController : Type 0 where
  pub state : FloorState
  pub holder_ssrc : ℕ  -- u32, 0 for nobody
  pub max_transmit_ms : ℕ  -- u64

-- `FloorController::new`
unfoldable pub new : ℕ → FloorController
new max_transmit_ms = record { state = idle; holder_ssrc = 0; max_transmit_ms = max_transmit_ms }

unfoldable pub is_available : FloorState → Bool
is_available idle = true
is_available released = true
is_available _ = false

unfoldable pub is_granted : FloorState → Bool
is_granted granted = true
is_granted _ = false

-- `FloorController::is_holder`
unfoldable pub is_holder : FloorController → ℕ → Bool
unfolding is_granted
is_holder fc ssrc = is_granted fc.state && fc.holder_ssrc == ssrc

-- The arms of the `match` in `transition`: the next state and the new `holder_ssrc`. `none` is the
-- last arm.
unfoldable pub arm : FloorState → FloorEvent → ℕ → ℕ → Option (FloorState × ℕ)
arm idle request holder ssrc = some (requested, ssrc)
arm idle reset holder ssrc = some (idle, holder)
arm idle grant holder ssrc = some (granted, ssrc)
arm requested grant holder ssrc = some (granted, ssrc)
arm requested deny holder ssrc = some (idle, 0)
arm requested taken holder ssrc = some (granted, ssrc)
arm requested reset holder ssrc = some (idle, 0)
arm requested timeout holder ssrc = some (idle, 0)
arm granted release holder ssrc = some (released, 0)
arm granted timeout holder ssrc = some (released, 0)
arm granted taken holder ssrc = some (granted, ssrc)
arm granted reset holder ssrc = some (idle, 0)
arm released reset holder ssrc = some (idle, 0)
arm released release holder ssrc = some (idle, 0)
arm released request holder ssrc = some (requested, ssrc)
arm released grant holder ssrc = some (granted, ssrc)
arm _ _ _ _ = none

-- `FloorController::transition`
unfoldable pub transition :
    FloorController → FloorEvent → ℕ → FloorController × Result FloorTransitionError FloorState
unfolding arm
transition fc event ssrc = elim (arm fc.state event fc.holder_ssrc ssrc) [
  | some (next, holder) ↦ (record fc { state = next; holder_ssrc = holder }, ok next)
  | none ↦ (fc, err (record { from = fc.state; event = event }))
]

-- The controller after one call, its result ignored. An event comes with the SSRC that it is about.
abbrev pub advance : FloorController → FloorEvent × ℕ → FloorController
advance fc (event, ssrc) = (transition fc event ssrc).0
