-- ===== src/SessionState.antt =====
-- crates/gravital-talk-core/src/session.rs: the states of a session and their transitions.
mod Examples
pub mod Steps
pub mod Traces
use gravital_sound.Common.{
  ℕ, Bool, true, false, ◌==◌, if◌then◌else◌, Option, none, some, List, [], ◌∷◌,
}
use gravital_sound.Common.{Result, ok, err}
use gravital_sound.Protocol.{Error, malformed_payload}

pub data SessionState : Type 0 where
  idle handshaking active paused closing closed error reconnecting : SessionState

-- `SessionState::code`
unfoldable pub code : SessionState → ℕ
code idle = 0
code handshaking = 1
code active = 2
code paused = 3
code closing = 4
code closed = 5
code error = 6
code reconnecting = 7

-- `SessionState::from_code`
unfoldable pub from_code : ℕ → Result Error SessionState
from_code c =
    if c == 0
    then ok idle
    else if c == 1
    then ok handshaking
    else if c == 2
    then ok active
    else if c == 3
    then ok paused
    else if c == 4
    then ok closing
    else if c == 5
    then ok closed
    else if c == 6
    then ok error
    else if c == 7
    then ok reconnecting
    else err malformed_payload

unfoldable pub is_operational : SessionState → Bool
is_operational active = true
is_operational paused = true
is_operational _ = false

unfoldable pub is_terminal : SessionState → Bool
is_terminal closed = true
is_terminal error = true
is_terminal _ = false

pub data SessionEvent : Type 0 where
  start_connect start_accept handshake_ok handshake_timeout pause resume : SessionEvent
  close peer_closed peer_timeout fatal_error reconnect reconnect_ok : SessionEvent

pub record StateTransitionError : Type 0 where
  pub from : SessionState
  pub event : SessionEvent

pub record SessionStateMachine : Type 0 where
  pub state : SessionState

unfoldable pub new : SessionStateMachine
new = record { state = idle }

-- The `match` of `transition`; `none` is its last arm.
unfoldable pub next_state : SessionState → SessionEvent → Option SessionState
next_state idle start_connect = some handshaking
next_state idle start_accept = some handshaking
next_state handshaking handshake_ok = some active
next_state handshaking handshake_timeout = some closed
next_state handshaking close = some closed
next_state handshaking fatal_error = some error
next_state active pause = some paused
next_state active close = some closing
next_state active peer_closed = some closing
next_state active peer_timeout = some closing
next_state active fatal_error = some error
next_state paused resume = some active
next_state paused close = some closing
next_state paused peer_closed = some closing
next_state paused peer_timeout = some closing
next_state paused fatal_error = some error
next_state closing peer_closed = some closed
next_state closing close = some closed
next_state error reconnect = some reconnecting
next_state closed reconnect = some reconnecting
next_state reconnecting start_connect = some handshaking
next_state reconnecting start_accept = some handshaking
next_state reconnecting reconnect_ok = some handshaking
next_state reconnecting handshake_timeout = some error
next_state reconnecting fatal_error = some error
next_state _ _ = none

-- `SessionStateMachine::transition`: the machine after the call, and what it returns.
unfoldable pub transition :
    SessionStateMachine
    → SessionEvent
    → SessionStateMachine × Result StateTransitionError SessionState
unfolding next_state
transition sm event = elim (next_state sm.state event) [
  | some next ↦ (record sm { state = next }, ok next)
  | none ↦ (sm, err (record { from = sm.state; event = event }))
]

-- The machine after one call, its result ignored.
abbrev pub advance : SessionStateMachine → SessionEvent → SessionStateMachine
advance sm event = (transition sm event).0
