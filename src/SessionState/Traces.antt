-- ===== src/SessionState/Traces.antt =====
-- What holds of the machine over every sequence of events, refused ones included.
use gravital_sound.Common.{◌≤◌, ◌≡◌, refl, ap, ◌∙◌, ◌≢◌, subst, inl, inr, Bool, true, false}
use gravital_sound.Common.{List, [], ◌∷◌, ◌++◌, length, All, arith}
use gravital_sound.Common.Runs.{run, Stays, Since, Since-false, Stays-now}
use gravital_sound.SessionState.{SessionState, idle, handshaking, active, paused, closing, closed}
use gravital_sound.SessionState.{error, reconnecting, SessionEvent, start_connect, handshake_ok}
use gravital_sound.SessionState.{close, reconnect, SessionStateMachine, transition}
use gravital_sound.SessionState.{advance, new, is_operational, is_terminal}
use gravital_sound.SessionState.Steps.{becomes_operational, terminal-next, transition_session}

abbrev pub operational : SessionStateMachine → Bool
operational sm = is_operational sm.state

-- One step into an operational state from one that is not.
enters :
    (sm : SessionStateMachine) (e : SessionEvent)
    → operational (advance sm e) ≡ true
    → operational sm ≡ false
    → (sm.state ≡ handshaking) × (e ≡ handshake_ok)
enters sm e o n = elim (transition_session sm e) [
  | inl same ↦ cc (ap operational same.0)
  | inr moved ↦
      let found = becomes_operational sm.state (advance sm e).state e moved.1 o n in
      (found.0, found.1)
]

-- The last handshake was completed by an event of `es`, in the state `handshaking`, and the
-- machine has been operational ever since.
pub record Established (sm : SessionStateMachine) (es : List SessionEvent) : Type 0 where
  pub before : List SessionEvent
  pub after : List SessionEvent
  pub split : es ≡ before ++ (handshake_ok ∷ after)
  pub in_handshake : (run advance sm before).state ≡ handshaking
  pub stays : Stays advance operational (advance (run advance sm before) handshake_ok) after

-- Whatever the events, a new machine that ends in a state where audio flows has completed a
-- handshake by `HandshakeOk` in the state `Handshaking`, and has not left these states since.
pub operational-Established :
    (es : List SessionEvent) → operational (run advance new es) ≡ true → Established new es
operational-Established es o = record {
  before = h.before;
  after = h.after;
  split = h.split ∙ ap (λ e. h.before ++ (e ∷ h.after)) entered.1;
  in_handshake = entered.0;
  stays =
      subst (λ e. Stays advance operational (advance (run advance new h.before) e) h.after)
        entered.1 h.stays;
}
  where
    h : Since advance operational new es
    h = Since-false advance operational es new (unfold new is_operational in refl) o

    entered : ((run advance new h.before).state ≡ handshaking) × (h.event ≡ handshake_ok)
    entered =
        enters (run advance new h.before) h.event
          (Stays-now advance operational h.after (advance (run advance new h.before) h.event)
            h.stays)
          h.not_before

-- A machine in a terminal state stays as it is over every sequence of events without `Reconnect`.
pub terminal_absorbs :
    (es : List SessionEvent) (sm : SessionStateMachine)
    → is_terminal sm.state ≡ true
    → All (λ e. e ≢ reconnect) es
    → run advance sm es ≡ sm
terminal_absorbs [] sm t h = refl
terminal_absorbs (e ∷ es) sm t h = elim (transition_session sm e) [
  | inl same ↦ ap (λ m. run advance m es) same.0 ∙ terminal_absorbs es sm t h.1
  | inr moved ↦ cc (terminal-next sm.state e t h.0, moved.1)
]

-- The events that take a session to `closed`, from each state.
pub shutdown : SessionState → List SessionEvent
shutdown idle = start_connect ∷ close ∷ []
shutdown handshaking = close ∷ []
shutdown active = close ∷ close ∷ []
shutdown paused = close ∷ close ∷ []
shutdown closing = close ∷ []
shutdown closed = []
shutdown error = reconnect ∷ start_connect ∷ close ∷ []
shutdown reconnecting = start_connect ∷ close ∷ []

-- From every state some sequence of at most three events leads to `Closed`.
pub shutdown_closes :
    (s : SessionState)
    → ((run advance (record { state = s }) (shutdown s)).state ≡ closed) × (length (shutdown s) ≤ 3)
unfolding shutdown transition
shutdown_closes idle = (refl, omega arith)
shutdown_closes _ = (refl, omega arith)
