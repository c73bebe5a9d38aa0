-- ===== src/Session/Closing.antt =====
-- crates/gravital-talk-transport/src/session.rs: what `close` leaves of a session.
use gravital_sound.Common.{
  ℕ, ◌+◌, ◌%◌, ◌^◌, false, length, ◌≡◌, refl, true, inl, inr, List, [], replicate, take, Option,
  none, some, ok, err, Result-cases,
}
use gravital_sound.Header
use gravital_sound.Header.{PacketHeader}
use gravital_sound.Packet
use gravital_sound.MessageType
use gravital_sound.MessageType.{MessageType}
use gravital_sound.SessionState.{
  SessionState, idle, handshaking, active, paused, closing, closed, error, reconnecting,
  SessionEvent, advance, transition, next_state,
}
use gravital_sound.Crypto.{Aead}
use gravital_sound.Session.{Session, Transport, SocketAddr, failed, invalid_state}
use gravital_sound.Session.Sending.{
  send_datagram, send_packet, send_control, close, is_active, send_audio,
}

-- What a sender does not touch.
abbrev pub Keeps : Session → Session → Type 0
Keeps s t =
    (t.closed ≡ s.closed)
    × (t.encrypt_key ≡ s.encrypt_key)
    × (t.decrypt_key ≡ s.decrypt_key)
    × (t.state ≡ s.state)

send_datagram-Keeps :
    (T : Transport) (datagram : List ℕ) (peer : SocketAddr) (s : Session)
    → Keeps s (send_datagram T datagram peer s).0
unfolding send_datagram
send_datagram-Keeps T datagram peer s =
    elim (Result-cases (T.send_to (length s.outbox) datagram peer)) [
      | inl (sent, e) ↦ rw (e, send_datagram) (refl, refl, refl, refl)
      | inr (failure, e) ↦ rw (e, send_datagram) (refl, refl, refl, refl)
    ]

send_packet-Keeps :
    (T : Transport) (header : PacketHeader) (payload : List ℕ) (peer : SocketAddr) (s : Session)
    → Keeps s (send_packet T header payload peer s).0
unfolding send_packet
send_packet-Keeps T header payload peer s =
    elim (Result-cases (Packet.encode header payload (replicate (s.config).mtu 0))) [
      | inl (encoded, e) ↦ rw e (send_datagram-Keeps T (take encoded.1 encoded.0) peer s)
      | inr (failure, e) ↦ rw e (refl, refl, refl, refl)
    ]

send_control-Keeps :
    (T : Transport) (now : ℕ) (msg : MessageType) (session_id : ℕ) (payload : List ℕ)
    (peer : SocketAddr) (s : Session)
    → Keeps s (send_control T now msg session_id payload peer s).0
unfolding send_control
send_control-Keeps T now msg session_id payload peer s =
    send_packet-Keeps T (Header.new (MessageType.code msg) session_id s.tx_sequence now) payload
      peer (record s { tx_sequence = (s.tx_sequence + 1) % 2 ^ 32 })

-- Two events `Close` stop the audio in every state.
stopped :
    (st : SessionState)
    → is_active
        (advance (advance (record { state = st }) SessionEvent.close) SessionEvent.close).state
      ≡ false
unfolding transition next_state
stopped idle = refl
stopped handshaking = refl
stopped active = refl
stopped paused = refl
stopped closing = refl
stopped closed = refl
stopped error = refl
stopped reconnecting = refl

-- What is left of a session after `close`.
abbrev pub IsClosed : Session → Type 0
IsClosed s =
    (s.closed ≡ true)
    × (s.encrypt_key ≡ none)
    × (s.decrypt_key ≡ none)
    × (is_active (s.state).state ≡ false)

Keeps-IsClosed :
    (s t : Session)
    → Keeps (record s { closed = true; encrypt_key = none; decrypt_key = none }) t
    → IsClosed
        (record t { state = advance (advance t.state SessionEvent.close) SessionEvent.close })
Keeps-IsClosed s t (flag, seal, open_, same_state) = (flag, seal, open_, stopped (t.state).state)

close-with_peer :
    (T : Transport) (now : ℕ) (s : Session) (peer : Option SocketAddr)
    → ((close T now (record s { peer = peer })).1 ≡ ok tt)
      × IsClosed (close T now (record s { peer = peer })).0
unfolding close
close-with_peer T now s none = (
  refl,
  Keeps-IsClosed s (record s { closed = true; encrypt_key = none; decrypt_key = none })
      (refl, refl, refl, refl),
)
close-with_peer T now s (some p) =
    let before = record s {
      peer = some p;
      closed = true;
      encrypt_key = none;
      decrypt_key = none;
    } in
    (
      refl,
      Keeps-IsClosed before (send_control T now MessageType.close s.session_id [] p before).0
          (send_control-Keeps T now MessageType.close s.session_id [] p before),
    )

-- Over any socket, one that fails too, and in whatever state a session is, `close` succeeds and
-- leaves the session marked as closed, without keys and not active; `send_audio` after it is
-- refused as an invalid state, sends nothing and leaves the session as it is.
pub send_audio-close :
    (T : Transport) (A : Aead) (now later : ℕ) (payload : List ℕ) (s : Session)
    → ((close T now s).1 ≡ ok tt)
      × IsClosed (close T now s).0
      × (send_audio T A later payload (close T now s).0
          ≡ ((close T now s).0, err (failed invalid_state)))
unfolding send_audio
send_audio-close T A now later payload s =
    let shut = close-with_peer T now s s.peer in (shut.0, shut.1, rw shut.1.3 refl)
