-- ===== src/SessionState/Steps.antt =====
-- One transition: codes, refused events, and where reconnection starts.
use gravital_sound.Common.{ℕ, ◌≡◌, refl, ◌↔◌, ◌⊎◌, ◌≢◌, true, false, none, some, ok, err, arith}
use gravital_sound.SessionState.{SessionState, error, reconnecting, code, from_code}
use gravital_sound.SessionState.{SessionEvent, reconnect, SessionStateMachine}
use gravital_sound.SessionState.{next_state, transition, is_terminal, is_operational, handshake_ok}
use gravital_sound.SessionState.{handshaking, active}

-- A byte is decoded to a session state exactly if it is the code of that state.
pub from_code_state : (c : ℕ) (s : SessionState) → (from_code c ≡ ok s) ↔ (code s ≡ c)
unfolding from_code code
from_code_state c s = (λ h. ground arith, λ h. ground arith)

-- A refused event leaves the session machine unchanged and is reported with its state, and then
-- the table of transitions has no entry; an accepted event moves the machine to the state of the
-- table, which is returned.
pub transition_session :
    (sm : SessionStateMachine) (e : SessionEvent)
    → ((transition sm e).0 ≡ sm)
        × ((transition sm e).1 ≡ err (record { from = sm.state; event = e }))
        × (next_state sm.state e ≡ none)
      ⊎ ((transition sm e).1 ≡ ok (transition sm e).0.state)
        × (next_state sm.state e ≡ some (transition sm e).0.state)
unfolding transition
transition_session sm e = ground arith

-- `Reconnect` starts a reconnection in exactly the terminal states.
pub reconnect_iff :
    (s : SessionState) → (is_terminal s ≡ true) ↔ (next_state s reconnect ≡ some reconnecting)
unfolding is_terminal next_state
reconnect_iff error = (λ _. refl, λ _. refl)
reconnect_iff _ = (λ h. ground arith, λ h. ground arith)

-- No other event leaves a terminal state.
pub terminal-next :
    (s : SessionState) (e : SessionEvent)
    → is_terminal s ≡ true
    → e ≢ reconnect
    → next_state s e ≡ none
unfolding is_terminal next_state
terminal-next s e h n = ground arith

-- A session becomes operational only by `HandshakeOk`, in a handshake.
pub becomes_operational :
    (s t : SessionState) (e : SessionEvent)
    → next_state s e ≡ some t
    → is_operational t ≡ true
    → is_operational s ≡ false
    → (s ≡ handshaking) × (e ≡ handshake_ok) × (t ≡ active)
unfolding next_state is_operational
becomes_operational s t e h o n = ground arith
