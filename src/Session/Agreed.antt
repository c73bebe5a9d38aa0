-- ===== src/Session/Agreed.antt =====
-- crates/gravital-talk-transport/src/session.rs: `handshake` of a client and of a server.
use gravital_sound.Common.{ℕ, ◌≡◌, refl, ap, ◌∙◌, List, [], ◌∷◌, ◌++◌, some, Result, ok}
use gravital_sound.SessionState.{
  SessionStateMachine, SessionState, SessionEvent, idle, handshaking, active, transition,
  next_state,
}
use gravital_sound.Crypto.{SessionKey}
use gravital_sound.Session.{Session, SessionRole, Transport, SocketAddr, client, server, Failure}
use gravital_sound.Session.Receiving.{Arrival, datagram}
use gravital_sound.Session.Keys.{KeyAgreement}
use gravital_sound.Session.Server.{Random}
use gravital_sound.Session.Handshake.{
  accept, require, settle, conclude, start_event, handshake_of, handshake,
}
use gravital_sound.Session.Sent.{Accepts}
use gravital_sound.Session.Agreement.{
  CanAgree, client_run, server_run, client_end, server_end, datagram_1, datagram_2, datagram_3,
  datagram_4, keys,
}

-- The session when its handshake begins.
abbrev started : Session → SocketAddr → Session
started s peer = record s { peer = some peer; state = record { state = handshaking } }

abbrev activated : Session → Session
activated s = record s { state = record { state = active } }

transition_lem :
    (sm : SessionStateMachine) (event : SessionEvent) (next : SessionState)
    → next_state sm.state event ≡ some next
    → transition sm event ≡ (record sm { state = next }, ok next)
unfolding transition
transition_lem sm event next e = rw (e, transition)

require_lem :
    (event : SessionEvent) (from next : SessionState) (s : Session)
    → (s.state).state ≡ from
    → next_state from event ≡ some next
    → require event s ≡ (record s { state = record { state = next } }, ok tt)
unfolding require
require_lem event from next s i e =
    ap (accept s) (transition_lem s.state event next (ap (λ x. next_state x event) i ∙ e))

require-start :
    (role : SessionRole) (s : Session)
    → (s.state).state ≡ idle
    → require (start_event role) s ≡ (record s { state = record { state = handshaking } }, ok tt)
unfolding next_state
require-start client s i = require_lem SessionEvent.start_connect idle handshaking s i refl
require-start server s i = require_lem SessionEvent.start_accept idle handshaking s i refl

conclude_lem :
    (m : Session → Session × Result Failure (Unit {0})) (s t : Session)
    → m s ≡ (t, ok tt)
    → (t.state).state ≡ handshaking
    → conclude m s ≡ (activated t, ok tt)
unfolding conclude settle next_state
conclude_lem m s t e h =
    ap settle e ∙ require_lem SessionEvent.handshake_ok handshaking active t h refl

handshake_lem :
    (T : Transport) (K : KeyAgreement) (now : ℕ) (role : SessionRole) (peer : SocketAddr)
    → (random : Random) (arrivals : List Arrival) (s t : Session) → (s.state).state ≡ idle
    → handshake_of T K now role peer random arrivals (started s peer) ≡ (t, ok tt)
    → (t.state).state ≡ handshaking
    → handshake T K now role peer random arrivals s ≡ (activated t, ok tt)
unfolding handshake
handshake_lem T K now role peer random arrivals s t i e h =
    rw (require-start role (record s { peer = some peer }) i)
      (conclude_lem (handshake_of T K now role peer random arrivals) (started s peer) t e h)

-- The start of a handshake does not touch what it depends on.
started-CanAgree :
    (c s : Session) (ours theirs : Random) (now later codec : ℕ)
    (client_addr server_addr : SocketAddr)
    → CanAgree c s ours theirs now later codec
    → CanAgree (started c server_addr) (started s client_addr) ours theirs now later codec
started-CanAgree c s ours theirs now later codec client_addr server_addr can = record {
  config_fits = can.config_fits;
  client_mtu = can.client_mtu;
  server_mtu = can.server_mtu;
  client_sequence_lt = can.client_sequence_lt;
  server_sequence_lt = can.server_sequence_lt;
  now_lt = can.now_lt;
  later_lt = can.later_lt;
  session_id_lt = can.session_id_lt;
  client_nonce_length = can.client_nonce_length;
  client_nonce_bytes = can.client_nonce_bytes;
  server_nonce_length = can.server_nonce_length;
  server_nonce_bytes = can.server_nonce_bytes;
  server_open = can.server_open;
  codec_chosen = can.codec_chosen;
  codec_lt = can.codec_lt;
  codec_supported = can.codec_supported;
}

-- What a client and a server have agreed on.
pub record IsAgreed (c s : Session) (session_id codec : ℕ) : Type 0 where
  pub sending : SessionKey
  pub receiving : SessionKey
  pub client_active : (c.state).state ≡ active
  pub server_active : (s.state).state ≡ active
  pub client_encrypts : c.encrypt_key ≡ some sending
  pub server_decrypts : s.decrypt_key ≡ some sending
  pub server_encrypts : s.encrypt_key ≡ some receiving
  pub client_decrypts : c.decrypt_key ≡ some receiving
  pub client_session : c.session_id ≡ session_id
  pub server_session : s.session_id ≡ session_id
  pub client_codec : c.negotiated_codec ≡ codec
  pub server_codec : s.negotiated_codec ≡ codec

-- Over sockets that take every datagram as a whole and lose none, an idle client and an idle
-- server finish their handshakes: there are four datagrams, of which each side sends its two and
-- gets the two of the other, with which both calls of `handshake` succeed. Both sessions are then
-- active with the same session number and codec, and each opens with the key that the other seals
-- with. The conditions are that the values fit their types, that the MTUs are at least 112, that
-- the server is not closed and chooses a codec that the client supports, and that X25519
-- commutes.
pub handshake-IsAgreed :
    (T : Transport) (K : KeyAgreement) (now later codec : ℕ) (client_addr server_addr : SocketAddr)
    → (ours theirs : Random) (c s : Session) → Accepts T
    → CanAgree c s ours theirs now later codec
    → (c.state).state ≡ idle
    → (s.state).state ≡ idle
    → (hello answer key_exchange confirm : List ℕ) × (c' s' : Session) × (handshake T K now client
          server_addr ours
          (datagram answer server_addr ∷ datagram confirm server_addr ∷ [])
          c
        ≡ (c', ok tt))
      × (handshake T K later server client_addr theirs
            (datagram hello client_addr ∷ datagram key_exchange client_addr ∷ [])
            s
          ≡ (s', ok tt))
      × (c'.outbox
          ≡ (c.outbox ++ ((server_addr, hello) ∷ [])) ++ ((server_addr, key_exchange) ∷ []))
      × (s'.outbox ≡ (s.outbox ++ ((client_addr, answer) ∷ [])) ++ ((client_addr, confirm) ∷ []))
      × IsAgreed c' s' theirs.session_id codec
handshake-IsAgreed T K now later codec client_addr server_addr ours theirs c s accepts can ci si =
    let c1 = started c server_addr in
    let s1 = started s client_addr in
    let able = started-CanAgree c s ours theirs now later codec client_addr server_addr can in
    (
      datagram_1 K c1 s1 ours theirs now later codec client_addr server_addr,
      datagram_2 K c1 s1 ours theirs now later codec client_addr server_addr,
      datagram_3 K c1 s1 ours theirs now later codec client_addr server_addr,
      datagram_4 K c1 s1 ours theirs now later codec client_addr server_addr,
      activated (client_end K c1 s1 ours theirs now later codec client_addr server_addr),
      activated (server_end K c1 s1 ours theirs now later codec client_addr server_addr),
      handshake_lem T K now client server_addr ours _ c _ ci
          (client_run K c1 s1 ours theirs now later codec client_addr server_addr able T accepts)
          refl,
      handshake_lem T K later server client_addr theirs _ s _ si
          (server_run K c1 s1 ours theirs now later codec client_addr server_addr able T accepts)
          refl,
      refl,
      refl,
      record {
        sending = (keys K c1 s1 ours theirs now later codec client_addr server_addr).0;
        receiving = (keys K c1 s1 ours theirs now later codec client_addr server_addr).1;
        client_active = refl;
        server_active = refl;
        client_encrypts = refl;
        server_decrypts = refl;
        server_encrypts = refl;
        client_decrypts = refl;
        client_session = refl;
        server_session = refl;
        client_codec = refl;
        server_codec = refl;
      },
    )
