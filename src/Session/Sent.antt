-- ===== src/Session/Sent.antt =====
-- crates/gravital-talk-transport/src/session.rs: the datagrams that a session sends.
use gravital_sound.Common.{
  ℕ, ◌+◌, ◌%◌, ◌^◌, ◌≤◌, ◌<◌, ◌≡◌, refl, sym, ap, ◌∙◌, inl, inr, arith, List, [], ◌∷◌, ◌++◌, length,
  take, replicate,
}
use gravital_sound.Common.{
  Result, ok, err, Result-cases, append_assoc, append-nil, length-replicate,
}
use gravital_sound.Wire.{bytes_of}
use gravital_sound.Protocol.{max_payload_size}
use gravital_sound.Header
use gravital_sound.Header.{PacketHeader, fields}
use gravital_sound.Header.Roundtrip.{IsValid}
use gravital_sound.Packet
use gravital_sound.Packet.Frame.{frame_of}
use gravital_sound.Packet.Encoded.{encode_frame, length-head}
use gravital_sound.Packet.Roundtrip.{take-frame}
use gravital_sound.MessageType
use gravital_sound.MessageType.{MessageType}
use gravital_sound.Metrics.{Counters, record_sent}
use gravital_sound.Session.{Session, Transport, SocketAddr, Step, ◌>>=◌, continue, lift}
use gravital_sound.Protocol.{Error}
use gravital_sound.Session.Sending.{send_datagram, send_packet, send_control}

-- The socket takes every datagram as a whole.
abbrev pub Accepts : Transport → Type 0
Accepts T =
    (calls : ℕ) (datagram : List ℕ) (peer : SocketAddr)
    → T.send_to calls datagram peer ≡ ok (length datagram)

-- The bytes of a packet.
abbrev pub datagram_of : PacketHeader → List ℕ → List ℕ
datagram_of header payload = frame_of (bytes_of (fields header)) payload

-- The session after a datagram was handed over.
abbrev pub after_datagram : Session → SocketAddr → List ℕ → Session
after_datagram s peer datagram = record s {
  outbox = s.outbox ++ ((peer, datagram) ∷ []);
  metrics = record (s.metrics) { counters = record_sent (s.metrics).counters (length datagram) };
}

send_datagram_lem :
    (T : Transport) (datagram : List ℕ) (peer : SocketAddr) (s : Session)
    → Accepts T
    → send_datagram T datagram peer s ≡ (after_datagram s peer datagram, ok tt)
unfolding send_datagram
send_datagram_lem T datagram peer s accepts =
    rw (accepts (length s.outbox) datagram peer, send_datagram)

pub send_packet_lem :
    (T : Transport) (header : PacketHeader) (payload : List ℕ) (peer : SocketAddr) (s : Session)
    → Accepts T
    → length payload ≤ max_payload_size
    → length payload + 28 ≤ (s.config).mtu
    → send_packet T header payload peer s
      ≡ (after_datagram s peer (datagram_of header payload), ok tt)
unfolding send_packet
send_packet_lem T header payload peer s accepts small room = rw (
  encode_frame header payload (replicate (s.config).mtu 0) small
      (omega (arith, length-replicate {A = ℕ} (s.config).mtu 0)),
  take-frame (bytes_of (fields header)) payload _ (length-head header),
  send_datagram_lem T (datagram_of header payload) peer s accepts,
)

-- A header made by the session fits its fields.
pub header-IsValid :
    (msg : MessageType) (flags session_id sequence now : ℕ)
    → MessageType.code msg < 256
    → flags < 256
    → session_id < 2 ^ 32
    → sequence < 2 ^ 32
    → now < 2 ^ 64
    → IsValid (record (Header.new (MessageType.code msg) session_id sequence now) { flags = flags })
unfolding Header.new
header-IsValid msg flags session_id sequence now m f i q n = record {
  version_is = refl;
  flags_lt = f;
  msg_type_lt = m;
  session_id_lt = i;
  sequence_lt = q;
  timestamp_lt = n;
}

-- The session after it took a sequence number.
abbrev pub after_sequence : Session → Session
after_sequence s = record s { tx_sequence = (s.tx_sequence + 1) % 2 ^ 32 }

abbrev pub control_header : Session → ℕ → MessageType → ℕ → PacketHeader
control_header s now msg session_id = Header.new (MessageType.code msg) session_id s.tx_sequence now

pub send_control_lem :
    (T : Transport) (now : ℕ) (msg : MessageType) (session_id : ℕ) (payload : List ℕ)
    → (peer : SocketAddr) (s : Session) → Accepts T
    → length payload ≤ max_payload_size
    → length payload + 28 ≤ (s.config).mtu
    → send_control T now msg session_id payload peer s ≡ (
      after_datagram
          (after_sequence s)
          peer
          (datagram_of (control_header s now msg session_id) payload),
      ok tt,
    )
unfolding send_control
send_control_lem T now msg session_id payload peer s accepts small room =
    send_packet_lem T (control_header s now msg session_id) payload peer (after_sequence s) accepts
      small room

-- Whatever the transport answers, what was sent before stays, and the identity of the session.
pub record IsSent (s t : Session) : Type 0 where
  pub more : List (SocketAddr × List ℕ)
  pub outbox_is : t.outbox ≡ s.outbox ++ more
  pub config_is : t.config ≡ s.config
  pub session_id_is : t.session_id ≡ s.session_id
  pub encrypt_key_is : t.encrypt_key ≡ s.encrypt_key

handed_over-IsSent :
    (s : Session) (peer : SocketAddr) (datagram : List ℕ) (counters : Counters)
    → IsSent s (record s {
      outbox = s.outbox ++ ((peer, datagram) ∷ []);
      metrics = record (s.metrics) { counters = counters };
    })
handed_over-IsSent s peer datagram counters = record {
  more = (peer, datagram) ∷ [];
  outbox_is = refl;
  config_is = refl;
  session_id_is = refl;
  encrypt_key_is = refl;
}

pub unchanged-IsSent : (s : Session) → IsSent s s
unchanged-IsSent s = record {
  more = [];
  outbox_is = sym (append-nil s.outbox);
  config_is = refl;
  session_id_is = refl;
  encrypt_key_is = refl;
}

send_datagram-IsSent :
    (T : Transport) (datagram : List ℕ) (peer : SocketAddr) (s : Session)
    → IsSent s (send_datagram T datagram peer s).0
unfolding send_datagram
send_datagram-IsSent T datagram peer s =
    elim (Result-cases (T.send_to (length s.outbox) datagram peer)) [
      | inl (n, sent) ↦
          rw (sent, send_datagram)
            (handed_over-IsSent s peer datagram (record_sent (s.metrics).counters n))
      | inr (e, refused) ↦
          rw (refused, send_datagram) (handed_over-IsSent s peer datagram (s.metrics).counters)
    ]

pub send_packet-IsSent :
    (T : Transport) (header : PacketHeader) (payload : List ℕ) (peer : SocketAddr) (s : Session)
    → IsSent s (send_packet T header payload peer s).0
unfolding send_packet
send_packet-IsSent T header payload peer s =
    elim (Result-cases (Packet.encode header payload (replicate (s.config).mtu 0))) [
      | inr (e, h) ↦ rw h (unchanged-IsSent s)
      | inl (encoded, h) ↦ rw h (send_datagram-IsSent T (take encoded.1 encoded.0) peer s)
    ]

IsSent-trans : (s t u : Session) → IsSent s t → IsSent t u → IsSent s u
IsSent-trans s t u h k = record {
  more = h.more ++ k.more;
  outbox_is = k.outbox_is ∙ ap (λ o. o ++ k.more) h.outbox_is ∙ append_assoc s.outbox h.more k.more;
  config_is = k.config_is ∙ h.config_is;
  session_id_is = k.session_id_is ∙ h.session_id_is;
  encrypt_key_is = k.encrypt_key_is ∙ h.encrypt_key_is;
}

-- Steps one after another.
pub bind-IsSent :
    {A B : Type 0} (m : Step A) (f : A → Step B) (s : Session)
    → IsSent s (m s).0
    → ((a : A) (t : Session) → IsSent t (f a t).0)
    → IsSent s ((m >>= f) s).0
bind-IsSent m f s first rest = elim (Result-cases (m s).1) [
  | inr (e, h) ↦ rw (h, continue) first
  | inl (a, h) ↦ rw (h, continue) (IsSent-trans s (m s).0 (f a (m s).0).0 first (rest a (m s).0))
]

pub lift-IsSent : {A : Type 0} (r : Result Error A) (s : Session) → IsSent s (lift r s).0
lift-IsSent (ok a) s = unchanged-IsSent s
lift-IsSent (err e) s = unchanged-IsSent s
