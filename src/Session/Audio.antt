-- ===== src/Session/Audio.antt =====
-- crates/gravital-talk-transport/src/session.rs: `send_audio` and the peer's `dispatch_packet`.
use gravital_sound.Common.{
  ℕ, ◌+◌, ◌%◌, ◌^◌, ◌≤◌, ◌<◌, ◌≡◌, refl, sym, ap, ◌∙◌, subst, arith, List, [], ◌∷◌, ◌++◌, length,
  take, replicate,
}
use gravital_sound.Common.{Option, none, some, ok, append_assoc, length-append}
use gravital_sound.Wire.{
  IsBytes, IsBytes-append, to_be_bytes, length-to_be_bytes, to_be_bytes-IsBytes,
}
use gravital_sound.Protocol.{max_payload_size, header_size}
use gravital_sound.Header
use gravital_sound.Header.{PacketHeader, encrypted}
use gravital_sound.Header.Roundtrip.{IsValid}
use gravital_sound.MessageType
use gravital_sound.MessageType.{MessageType}
use gravital_sound.SessionState.{active}
use gravital_sound.Crypto.{Aead, SessionKey, tag_size, make_nonce, encrypt_in_place}
use gravital_sound.Fec
use gravital_sound.Fec.{FecParity}
use gravital_sound.Session.{Session, Transport, SocketAddr, Step, ◌>>=◌, bind_ok, give, lift}
use gravital_sound.Session.Sending.{
  seal_payload, encrypted_header, send_packet, send_keyed, send_sealed, send_fec_parity,
  send_audio_packet, push_fec, send_parity, send_audio_to, send_audio,
}
use gravital_sound.Session.Receiving.{open_payload, take_frame, receive_datagram}
use gravital_sound.Session.Sent.{
  Accepts, IsSent, bind-IsSent, lift-IsSent, datagram_of, after_datagram, after_sequence,
  send_packet_lem, send_packet-IsSent, unchanged-IsSent, header-IsValid,
}
use gravital_sound.Session.Delivery.{
  IsSealed, seal_payload-IsSealed, receive_audio_lem, frame_to_come, after_receive,
}

-- A session that is active with a key.
pub record CanSend (s : Session) (key : SessionKey) (peer : SocketAddr) : Type 0 where
  pub state_is : (s.state).state ≡ active
  pub peer_is : s.peer ≡ some peer
  pub key_is : s.encrypt_key ≡ some key
  pub session_id_lt : s.session_id < 2 ^ 32
  pub tx_sequence_lt : s.tx_sequence < 2 ^ 32
  pub audio_tx_seq_lt : s.audio_tx_seq < 2 ^ 32

seal_payload-IsSent :
    (A : Aead) (key : SessionKey) (header : PacketHeader) (sid : ℕ) (plain : List ℕ) (s : Session)
    → IsSent s (seal_payload A key header sid plain s).0
unfolding seal_payload
seal_payload-IsSent A key header sid plain s =
    bind-IsSent {B = List ℕ} (lift (Header.encode header (replicate header_size 0)))
      (λ hdr_buf. encrypted_with hdr_buf >>= λ sealed. give (take sealed.1 sealed.0)) s
      (lift-IsSent (Header.encode header (replicate header_size 0)) s)
      (λ hdr_buf t.
        bind-IsSent {B = List ℕ} (encrypted_with hdr_buf) (λ sealed. give (take sealed.1 sealed.0))
          t (lift-IsSent _ t) (λ sealed u. unchanged-IsSent u))
  where
    encrypted_with : List ℕ → Step (List ℕ × ℕ)
    encrypted_with hdr_buf = lift (
        encrypt_in_place A key (make_nonce header.sequence sid) hdr_buf
          (plain ++ replicate tag_size 0) (length plain))

send_sealed-IsSent :
    (T : Transport) (A : Aead) (key : Option SessionKey) (header : PacketHeader) (sid : ℕ)
    → (plain : List ℕ) (peer : SocketAddr) (s : Session)
    → IsSent s (send_sealed T A key header sid plain peer s).0
unfolding send_sealed seal_payload
send_sealed-IsSent T A none header sid plain peer s = unchanged-IsSent s
send_sealed-IsSent T A (some key) header sid plain peer s =
    bind-IsSent (seal_payload A key header sid plain) (λ sealed. send_packet T header sealed peer) s
      (seal_payload-IsSent A key header sid plain s)
      (λ sealed t. send_packet-IsSent T header sealed peer t)

send_fec_parity-IsSent :
    (T : Transport) (A : Aead) (now : ℕ) (parity : FecParity) (peer : SocketAddr) (sid : ℕ)
    → (s : Session) → IsSent s (send_fec_parity T A now parity peer sid s).0
unfolding send_fec_parity
send_fec_parity-IsSent T A now parity peer sid s =
    let h =
      send_sealed-IsSent T A s.encrypt_key
        (encrypted_header MessageType.audio_fec sid s.tx_sequence now) sid
        (to_be_bytes 4 parity.seq_base ++ (parity.window ∷ parity.payload)) peer
        (after_sequence s) in
    record {
      more = h.more;
      outbox_is = h.outbox_is;
      config_is = h.config_is;
      session_id_is = h.session_id_is;
      encrypt_key_is = h.encrypt_key_is;
    }

send_parity-IsSent :
    (T : Transport) (A : Aead) (now : ℕ) (peer : SocketAddr) (sid : ℕ) (parity : Option FecParity)
    → (s : Session) → IsSent s (send_parity T A now peer sid parity s).0
unfolding send_parity
send_parity-IsSent T A now peer sid none s = unchanged-IsSent s
send_parity-IsSent T A now peer sid (some parity) s =
    send_fec_parity-IsSent T A now parity peer sid s

send_parity-ok :
    (T : Transport) (A : Aead) (now : ℕ) (peer : SocketAddr) (sid : ℕ) (parity : Option FecParity)
    → (s : Session) → (send_parity T A now peer sid parity s).1 ≡ ok tt
unfolding send_parity
send_parity-ok T A now peer sid none s = refl
send_parity-ok T A now peer sid (some parity) s = refl

-- The session after the packet of the frame is sent.
abbrev after_audio : Session → SocketAddr → List ℕ → Session
after_audio s peer datagram =
    after_datagram (after_sequence (record s { audio_tx_seq = (s.audio_tx_seq + 1) % 2 ^ 32 })) peer
      datagram

abbrev audio_header : Session → ℕ → PacketHeader
audio_header s now = encrypted_header MessageType.audio_frame s.session_id s.tx_sequence now

send_keyed_lem :
    (T : Transport) (A : Aead) (key : SessionKey) (header : PacketHeader) (sid : ℕ)
    → (plain : List ℕ) (peer : SocketAddr) (s : Session) (h : IsSealed A key header sid plain s)
    → send_keyed T A (some key) header sid plain peer s ≡ send_packet T header h.sealed peer s
unfolding send_keyed
send_keyed_lem T A key header sid plain peer s h =
    bind_ok (seal_payload A key header sid plain) (λ sealed. send_packet T header sealed peer) s s
      h.sealed h.sealed_by

send_audio_packet_lem :
    (T : Transport) (A : Aead) (key : SessionKey) (peer : SocketAddr) (now sequence : ℕ)
    → (payload : List ℕ) (s : Session)
      (h : IsSealed A key
        (audio_header s now)
        s.session_id
        (to_be_bytes 4 sequence ++ payload)
        (after_sequence s))
    → Accepts T
    → s.encrypt_key ≡ some key
    → length h.sealed ≤ max_payload_size
    → length h.sealed + 28 ≤ (s.config).mtu
    → send_audio_packet T A now sequence payload peer s.session_id s
      ≡ (after_datagram (after_sequence s) peer (datagram_of (audio_header s now) h.sealed), ok tt)
unfolding send_audio_packet
send_audio_packet_lem T A key peer now sequence payload s h accepts k small room =
    ap
      (λ t.
        send_keyed T A t (audio_header s now) s.session_id (to_be_bytes 4 sequence ++ payload) peer
          (after_sequence s))
      k
    ∙ send_keyed_lem T A key (audio_header s now) s.session_id (to_be_bytes 4 sequence ++ payload)
        peer (after_sequence s) h
    ∙ send_packet_lem T (audio_header s now) h.sealed peer (after_sequence s) accepts small room

-- The sender between the guards and the packet.
abbrev counted : Session → Session
counted s = record s { audio_tx_seq = (s.audio_tx_seq + 1) % 2 ^ 32 }

send_audio_to_parity :
    (T : Transport) (A : Aead) (now : ℕ) (payload : List ℕ) (peer : SocketAddr) (s : Session)
    → (datagram : List ℕ)
    → send_audio_packet T A now s.audio_tx_seq payload peer s.session_id (counted s)
      ≡ (after_datagram (after_sequence (counted s)) peer datagram, ok tt)
    → send_audio_to T A now payload peer s
      ≡ send_parity T A now peer s.session_id
          (Fec.push s.fec_enc s.audio_tx_seq payload).1
          (record (after_datagram (after_sequence (counted s)) peer datagram) {
            fec_enc = (Fec.push s.fec_enc s.audio_tx_seq payload).0;
          })
unfolding send_audio_to
send_audio_to_parity T A now payload peer s datagram e =
    bind_ok (send_audio_packet T A now s.audio_tx_seq payload peer s.session_id)
      (λ _. push_fec T A s.audio_tx_seq payload >>= send_parity T A now peer s.session_id)
      (counted s) (after_datagram (after_sequence (counted s)) peer datagram) tt e

-- After the packet, the parity of a group may follow.
send_audio_to_lem :
    (T : Transport) (A : Aead) (now : ℕ) (payload : List ℕ) (peer : SocketAddr) (s : Session)
    → (datagram : List ℕ)
    → send_audio_packet T A now s.audio_tx_seq payload peer s.session_id (counted s)
      ≡ (after_datagram (after_sequence (counted s)) peer datagram, ok tt)
    → ((send_audio_to T A now payload peer s).1 ≡ ok tt)
      × (more : List (SocketAddr × List ℕ)) × ((send_audio_to T A now payload peer s).0.outbox
          ≡ s.outbox ++ ((peer, datagram) ∷ more))
send_audio_to_lem T A now payload peer s datagram e =
    let pushed = Fec.push s.fec_enc s.audio_tx_seq payload in
    let t = record (after_datagram (after_sequence (counted s)) peer datagram) {
      fec_enc = pushed.0;
    } in
    let h = send_parity-IsSent T A now peer s.session_id pushed.1 t in
    let parity = send_audio_to_parity T A now payload peer s datagram e in
    (
      ap (λ r. r.1) parity ∙ send_parity-ok T A now peer s.session_id pushed.1 t,
      h.more,
      ap (λ r. (r.0).outbox) parity
          ∙ h.outbox_is
          ∙ append_assoc s.outbox ((peer, datagram) ∷ []) h.more,
    )

send_audio_lem :
    (T : Transport) (A : Aead) (now : ℕ) (payload : List ℕ) (peer : SocketAddr) (s : Session)
    → (s.state).state ≡ active
    → s.peer ≡ some peer
    → send_audio T A now payload s ≡ send_audio_to T A now payload peer s
unfolding send_audio
send_audio_lem T A now payload peer s active_now p = simp (active_now, p, send_audio)

audio_header-IsValid :
    (s : Session) (now : ℕ)
    → s.session_id < 2 ^ 32
    → s.tx_sequence < 2 ^ 32
    → now < 2 ^ 64
    → IsValid (audio_header s now)
unfolding MessageType.code
audio_header-IsValid s now i q n =
    header-IsValid MessageType.audio_frame encrypted s.session_id s.tx_sequence now (omega arith)
      (omega arith) i q n

-- If an active session with a key sends a payload of bytes, over a socket that takes every
-- datagram as a whole, `send_audio` succeeds, and the first datagram that it adds to what was
-- sent is taken by the session of the peer for exactly that frame, with the audio sequence and
-- the time of the sender, if that session has the same number and opens with the same key. The
-- payload has at most 1156 bytes and with 48 more fits the MTU, the numbers fit their types, and
-- the AEAD is any.
pub send_audio-receive_datagram :
    (T : Transport) (A : Aead) (key : SessionKey) (peer : SocketAddr) (now later : ℕ)
    → (payload : List ℕ) (s r : Session) → Accepts T
    → CanSend s key peer
    → now < 2 ^ 64
    → IsBytes payload
    → length payload + 20 ≤ max_payload_size
    → length payload + 48 ≤ (s.config).mtu
    → r.decrypt_key ≡ some key
    → r.session_id ≡ s.session_id
    → (datagram : List ℕ) × (more : List (SocketAddr × List ℕ)) × ((send_audio T A now payload s).1
        ≡ ok tt)
      × ((send_audio T A now payload s).0.outbox ≡ s.outbox ++ ((peer, datagram) ∷ more))
      × (receive_datagram T A later datagram r
          ≡ take_frame later (frame_to_come s now payload) (after_receive r later datagram))
unfolding Header.new
send_audio-receive_datagram T A key peer now later payload s r accepts can fits bytes small room k
      sid =
    let prefixed_bytes =
      IsBytes-append (to_be_bytes 4 s.audio_tx_seq) payload (to_be_bytes-IsBytes 4 s.audio_tx_seq)
        bytes in
    let total = length-append (to_be_bytes 4 s.audio_tx_seq) payload in
    let four = length-to_be_bytes 4 s.audio_tx_seq in
    let h =
      seal_payload-IsSealed A key (audio_header (counted s) now) s.session_id
        (to_be_bytes 4 s.audio_tx_seq ++ payload) (after_sequence (counted s)) prefixed_bytes
        (omega (arith, total, four, small)) in
    let datagram = datagram_of (audio_header s now) h.sealed in
    let guarded = send_audio_lem T A now payload peer s can.state_is can.peer_is in
    let sent = send_audio_to_lem T A now payload peer s datagram (
      send_audio_packet_lem T A key peer now s.audio_tx_seq payload (counted s) h accepts can.key_is
        (omega (arith, h.length_is, total, four, small))
        (omega (arith, h.length_is, total, four, room))) in
    (
      datagram,
      sent.1,
      ap (λ t. t.1) guarded ∙ sent.0,
      ap (λ t. (t.0).outbox) guarded ∙ sent.2,
      receive_audio_lem T A key now later s.audio_tx_seq (audio_header s now) payload h.sealed r
          (audio_header-IsValid s now can.session_id_lt can.tx_sequence_lt fits) refl refl k h.bytes
          (omega (arith, h.length_is, total, four, small)) can.audio_tx_seq_lt
          (subst
            (λ i.
              open_payload A key i (record { header = audio_header s now; payload = h.sealed })
                datagram
              ≡ some (to_be_bytes 4 s.audio_tx_seq ++ payload))
            (sym sid) h.opened),
    )
