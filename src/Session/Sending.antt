-- ===== src/Session/Sending.antt =====
-- crates/gravital-talk-transport/src/session.rs: what a session sends.
-- An operation takes the time at which it runs as `now`, in microseconds of the session's clock.
use gravital_sound.Common.{
  ℕ, ◌+◌, ◌%◌, ◌^◌, Bool, true, false, not, List, [], ◌∷◌, ◌++◌, length, take, replicate,
}
use gravital_sound.Common.{Option, none, some, ok, err, if◌then◌else◌}
use gravital_sound.Wire.{to_be_bytes}
use gravital_sound.Protocol.{header_size}
use gravital_sound.Header
use gravital_sound.Header.{PacketHeader, encrypted}
use gravital_sound.Packet
use gravital_sound.MessageType
use gravital_sound.MessageType.{MessageType}
use gravital_sound.SessionState.{SessionState, SessionEvent, active, advance}
use gravital_sound.Metrics.{record_sent}
use gravital_sound.Crypto.{Aead, SessionKey, tag_size, make_nonce, encrypt_in_place}
use gravital_sound.Fec.{FecParity}
use gravital_sound.Fec
use gravital_sound.Session.{Transport, failed, SocketAddr, Step, ◌>>=◌, ◌>>◌}
use gravital_sound.Session.{give, fail, done, get, modify, ignore, lift, invalid_state}

abbrev pub is_active : SessionState → Bool
is_active active = true
is_active _ = false

-- `tx_sequence.fetch_add(1)`
abbrev pub next_sequence : Step ℕ
next_sequence s = (record s { tx_sequence = (s.tx_sequence + 1) % 2 ^ 32 }, ok s.tx_sequence)

-- `header.encode(&mut hdr_buf)` and `encrypt_in_place` with the header as associated data.
unfoldable pub seal_payload : Aead → SessionKey → PacketHeader → ℕ → List ℕ → Step (List ℕ)
seal_payload A key header session_id plain = do
  let nonce = make_nonce header.sequence session_id
  hdr_buf ← lift (Header.encode header (replicate header_size 0))
  sealed ←
      lift (encrypt_in_place A key nonce hdr_buf (plain ++ replicate tag_size 0) (length plain))
  give (take sealed.1 sealed.0)

abbrev pub encrypted_header : MessageType → ℕ → ℕ → ℕ → PacketHeader
encrypted_header msg session_id seq now =
    record (Header.new (MessageType.code msg) session_id seq now) { flags = encrypted }

module _ (T : Transport) where
  -- `transport.send_to(datagram, peer).await?` and the count of what was sent.
  unfoldable pub send_datagram : List ℕ → SocketAddr → Step (Unit {0})
  unfolding record_sent
  send_datagram datagram peer s =
      let handed = record s { outbox = s.outbox ++ ((peer, datagram) ∷ []) } in
      elim (T.send_to (length s.outbox) datagram peer) [
        | err e ↦ (handed, err (failed e))
        | ok sent ↦ (
          record handed {
            metrics = record (s.metrics) { counters = record_sent (s.metrics).counters sent };
          },
          ok tt,
        )
      ]

  -- The end of each sender: a packet in a buffer of `mtu` bytes goes to the transport.
  unfoldable pub send_packet : PacketHeader → List ℕ → SocketAddr → Step (Unit {0})
  send_packet header payload peer = do
    s ← get
    encoded ← lift (Packet.encode header payload (replicate (s.config).mtu 0))
    send_datagram (take encoded.1 encoded.0) peer

  -- `send_control`
  unfoldable pub send_control : ℕ → MessageType → ℕ → List ℕ → SocketAddr → Step (Unit {0})
  send_control now msg session_id payload peer = do
    seq ← next_sequence
    send_packet (Header.new (MessageType.code msg) session_id seq now) payload peer

  -- `send_heartbeat`
  unfoldable pub send_heartbeat : ℕ → Step (Unit {0})
  send_heartbeat now = do
    s ← get
    elim s.peer [ none ↦ done | some p ↦ send_control now MessageType.heartbeat s.session_id [] p ]

  -- `ptt_press`
  unfoldable pub ptt_press : ℕ → Step (Unit {0})
  ptt_press now = do
    modify (λ s. record s { ptt_active = true })
    s ← get
    elim s.peer [
      | none ↦ done
      | some p ↦
          send_control now MessageType.floor_request s.session_id (to_be_bytes 4 s.session_id) p
          >> send_control now MessageType.control_resume s.session_id [] p
    ]

  -- `ptt_release`
  unfoldable pub ptt_release : ℕ → Step (Unit {0})
  ptt_release now = do
    modify (λ s. record s { ptt_active = false })
    s ← get
    elim s.peer [
      | none ↦ done
      | some p ↦
          send_control now MessageType.floor_release s.session_id (to_be_bytes 4 s.session_id) p
          >> send_control now MessageType.control_pause s.session_id [] p
    ]

  -- `close`
  unfoldable pub close : ℕ → Step (Unit {0})
  close now = do
    modify (λ s. record s { closed = true; encrypt_key = none; decrypt_key = none })
    s ← get
    elim s.peer [
      | none ↦ done
      | some p ↦ ignore (send_control now MessageType.close s.session_id [] p)
    ]
    modify
        (λ s. record s { state = advance (advance s.state SessionEvent.close) SessionEvent.close })

  module _ (A : Aead) where
    -- The end of `send_fec_parity`: without a key nothing is sent.
    unfoldable pub send_sealed :
        Option SessionKey → PacketHeader → ℕ → List ℕ → SocketAddr → Step (Unit {0})
    send_sealed none header sid fec_payload peer = done
    send_sealed (some key) header sid fec_payload peer = do
      sealed ← seal_payload A key header sid fec_payload
      send_packet header sealed peer

    -- `send_fec_parity`
    unfoldable pub send_fec_parity : ℕ → FecParity → SocketAddr → ℕ → Step (Unit {0})
    send_fec_parity now parity peer sid = do
      let fec_payload = to_be_bytes 4 parity.seq_base ++ (parity.window ∷ parity.payload)
      seq ← next_sequence
      s ← get
      send_sealed s.encrypt_key (encrypted_header MessageType.audio_fec sid seq now) sid fec_payload
          peer

    -- The sealed packet where there is a key, and a plain one without the flag where there is none.
    unfoldable pub send_keyed :
        Option SessionKey → PacketHeader → ℕ → List ℕ → SocketAddr → Step (Unit {0})
    send_keyed none header sid prefixed peer =
        send_packet (record header { flags = 0 }) prefixed peer
    send_keyed (some key) header sid prefixed peer = do
      sealed ← seal_payload A key header sid prefixed
      send_packet header sealed peer

    -- The first part of `send_audio`: `[audio_seq: 4 BE] || payload`.
    unfoldable pub send_audio_packet : ℕ → ℕ → List ℕ → SocketAddr → ℕ → Step (Unit {0})
    send_audio_packet now audio_seq payload peer sid = do
      seq ← next_sequence
      s ← get
      send_keyed s.encrypt_key (encrypted_header MessageType.audio_frame sid seq now) sid
          (to_be_bytes 4 audio_seq ++ payload) peer

    -- `fec_enc.push(audio_seq, payload)`
    abbrev pub push_fec : ℕ → List ℕ → Step (Option FecParity)
    push_fec audio_seq payload s =
        let pushed = Fec.push s.fec_enc audio_seq payload in
        (record s { fec_enc = pushed.0 }, ok pushed.1)

    -- `if let Some(parity) = ... { let _ = self.send_fec_parity(parity, peer, sid).await; }`
    unfoldable pub send_parity : ℕ → SocketAddr → ℕ → Option FecParity → Step (Unit {0})
    send_parity now peer sid none = done
    send_parity now peer sid (some parity) = ignore (send_fec_parity now parity peer sid)

    -- `send_audio` after its two guards.
    unfoldable pub send_audio_to : ℕ → List ℕ → SocketAddr → Step (Unit {0})
    send_audio_to now payload peer = do
      s ← get
      modify (λ t. record t { audio_tx_seq = (s.audio_tx_seq + 1) % 2 ^ 32 })
      send_audio_packet now s.audio_tx_seq payload peer s.session_id
      parity ← push_fec s.audio_tx_seq payload
      send_parity now peer s.session_id parity

    -- `send_audio`
    unfoldable pub send_audio : ℕ → List ℕ → Step (Unit {0})
    send_audio now payload s =
        if not (is_active (s.state).state) then fail invalid_state s else elim s.peer [
          | none ↦ fail invalid_state s
          | some peer ↦ send_audio_to now payload peer s
        ]
