-- ===== src/SessionState/Examples.antt =====
-- Concrete sessions.
use gravital_sound.Common.{◌≡◌, refl, List, [], ◌∷◌, ok, arith, ◌↔◌}
use gravital_sound.Common.Runs.{run}
use gravital_sound.SessionState.{SessionState, idle, handshaking, active, closed, reconnecting}
use gravital_sound.SessionState.{SessionEvent, start_connect, handshake_ok, pause, close, reconnect}
use gravital_sound.SessionState.{
  SessionStateMachine, new, next_state, transition, advance, is_terminal,
}
use gravital_sound.SessionState.{code, from_code}
use gravital_sound.SessionState.Steps.{from_code_state}
use gravital_sound.SessionState.Traces.{Established, operational-Established}
use gravital_sound.SessionState.Traces.{terminal_absorbs}

abbrev call : List SessionEvent
call = start_connect ∷ handshake_ok ∷ pause ∷ []

abbrev ended : SessionStateMachine
ended = record { state = closed }

test_from_code_state : (from_code 3 ≡ ok active) ↔ (code active ≡ 3)
test_from_code_state = from_code_state 3 active

operational-Established_example : Established new call
unfolding transition gravital_sound.SessionState.is_operational new
operational-Established_example = operational-Established call refl

terminal_absorbs_example : run advance ended (close ∷ start_connect ∷ []) ≡ ended
unfolding is_terminal
terminal_absorbs_example =
    terminal_absorbs (close ∷ start_connect ∷ []) ended refl
      ((λ e. ground arith), ((λ e. ground arith), tt))
