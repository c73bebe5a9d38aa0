-- ===== src/Session/Handshake.antt =====
-- crates/gravital-talk-transport/src/session.rs: the handshake of a role, and its end.
use gravital_sound.Common.{ℕ, List, [], ◌∷◌, Option, none, some, Result, ok, err, if◌then◌else◌}
use gravital_sound.SessionState.{
  SessionState, StateTransitionError, SessionStateMachine, SessionEvent, transition, advance,
}
use gravital_sound.Session.{
  Session, SessionRole, Transport, Failure, failed, SocketAddr, Step, ◌>>◌,
}
use gravital_sound.Session.{modify, invalid_state, peer_closed, client, server}
use gravital_sound.Session.Receiving.{Arrival}
use gravital_sound.Session.Keys.{KeyAgreement}
use gravital_sound.Session.Client.{handshake_client}
use gravital_sound.Session.Server.{Random, handshake_server, handshake_server_any}

-- `.map_err(|_| TransportError::InvalidState(..))?` on the result of a transition.
abbrev pub accept :
    Session
    → SessionStateMachine × Result StateTransitionError SessionState
    → Session × Result Failure (Unit {0})
accept s after = elim after.1 [
  | ok next ↦ (record s { state = after.0 }, ok tt)
  | err e ↦ (record s { state = after.0 }, err (failed invalid_state))
]

-- `transition(event).map_err(|_| TransportError::InvalidState(..))?`
unfoldable pub require : SessionEvent → Step (Unit {0})
require event s = accept s (transition s.state event)

-- The `match` on the result at the end of `handshake`.
unfoldable pub settle : Session × Result Failure (Unit {0}) → Session × Result Failure (Unit {0})
settle r = elim r.1 [
  | ok u ↦ require SessionEvent.handshake_ok r.0
  | err e ↦ (record (r.0) { state = advance (r.0).state SessionEvent.handshake_timeout }, err e)
]

unfoldable pub conclude : Step (Unit {0}) → Step (Unit {0})
unfolding settle
conclude m s = settle (m s)

-- `transition(SessionEvent::Close)` and `return Err(TransportError::PeerClosed(..))`
abbrev pub stopped : Session → Session × Option (Result Failure (Unit {0}))
stopped s =
    (record s { state = advance s.state SessionEvent.close }, some (err (failed peer_closed)))

-- The event that starts the handshake of a role.
abbrev pub start_event : SessionRole → SessionEvent
start_event client = SessionEvent.start_connect
start_event server = SessionEvent.start_accept

module _ (T : Transport) (K : KeyAgreement) (now : ℕ) where
  abbrev pub handshake_of : SessionRole → SocketAddr → Random → List Arrival → Step (Unit {0})
  handshake_of client peer random arrivals =
      handshake_client T K now peer random.secret random.nonce arrivals
  handshake_of server peer random arrivals = handshake_server T K now peer random arrivals

  -- `handshake`; the client draws a secret and a nonce, and no session number.
  unfoldable pub handshake : SessionRole → SocketAddr → Random → List Arrival → Step (Unit {0})
  handshake role peer random arrivals = do
    modify (λ s. record s { peer = some peer })
    require (start_event role)
    conclude (handshake_of role peer random arrivals)

  -- The loop of `handshake_open`, with what is drawn and what arrives for each attempt.
  -- With no attempt left the call still waits, which is `none`.
  unfoldable pub open_loop :
      List (Random × List Arrival) → Session → Session × Option (Result Failure (Unit {0}))
  open_loop [] s = (s, none)
  open_loop ((random, arrivals) ∷ attempts) s =
      let tried = handshake_server_any T K now random arrivals s in
      let again = open_loop attempts (record (tried.0) {
        state =
            advance
              (advance (advance (tried.0).state SessionEvent.handshake_timeout)
                SessionEvent.reconnect)
              SessionEvent.start_accept;
        peer = none;
      }) in
      if s.closed then stopped s else elim tried.1 [
        | ok u ↦ let ended = require SessionEvent.handshake_ok tried.0 in (ended.0, some ended.1)
        | err (failed peer_closed) ↦ stopped tried.0
        | err e ↦ again
      ]

  -- `handshake_open`
  unfoldable pub handshake_open :
      List (Random × List Arrival) → Session → Session × Option (Result Failure (Unit {0}))
  handshake_open attempts s =
      let started = require SessionEvent.start_accept s in
      elim started.1 [ ok u ↦ open_loop attempts started.0 | err e ↦ (started.0, some (err e)) ]
