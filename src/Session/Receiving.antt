-- ===== src/Session/Receiving.antt =====
-- crates/gravital-talk-transport/src/session.rs: what a session does with what arrives.
use gravital_sound.Common.{
  ℕ, ◌+◌, ◌-◌, ◌*◌, true, false, not, ◌&&◌, List, [], ◌∷◌, length, take, drop,
}
use gravital_sound.Common.{Option, none, some, ok, err, leb, ltb, ◌==◌, if◌then◌else◌}
use gravital_sound.Wire.{slice, byte_at, to_be_bytes, from_be_bytes}
use gravital_sound.Protocol.{header_size}
use gravital_sound.Header.{encrypted, contains}
use gravital_sound.Packet
use gravital_sound.Packet.{PacketView}
use gravital_sound.Message.Bitrate
use gravital_sound.MessageType
use gravital_sound.MessageType.{MessageType}
use gravital_sound.SessionState.{SessionEvent, is_operational, advance}
use gravital_sound.Metrics.{
  record_received, record_integrity_error, record_loss, record_jitter, lost, rtt_current_us,
}
use gravital_sound.Crypto.{Aead, make_nonce, decrypt_in_place}
use gravital_sound.Fec.{FecParity, push_data, push_parity}
use gravital_sound.JitterBuffer
use gravital_sound.JitterBuffer.{Frame, pop_with_deadline}
use gravital_sound.Congestion
use gravital_sound.Congestion.{Floats}
use gravital_sound.Session.{
  Session, Transport, TransportError, failed, panicked, SocketAddr, Step, ◌>>=◌, ◌>>◌,
}
use gravital_sound.Session.{fail, done, get, modify, ignore, when, peer_closed}
use gravital_sound.Session.Sending.{send_control, send_heartbeat}

-- `metrics.counters.record_integrity_error()`
abbrev pub count_integrity_error : Step (Unit {0})
count_integrity_error = modify (λ s. record s {
  metrics = record (s.metrics) { counters = record_integrity_error (s.metrics).counters };
})

-- `metrics.counters.record_received(n)`
abbrev pub count_received : ℕ → Step (Unit {0})
count_received n = modify (λ s. record s {
  metrics = record (s.metrics) { counters = record_received (s.metrics).counters n };
})

-- `jitter.push(frame)`, whose result is only traced.
abbrev pub push_frame : Frame → Step (Unit {0})
push_frame frame = modify (λ s. record s { jitter = (JitterBuffer.push s.jitter frame).0 })

-- `decrypt_in_place` on a copy of the payload, with the first 24 bytes of the datagram as
-- associated data: the plain text.
unfoldable pub open_payload : Aead → List ℕ → ℕ → PacketView → List ℕ → Option (List ℕ)
open_payload A key session_id view raw_buf =
    let nonce = make_nonce (view.header).sequence session_id in
    elim (decrypt_in_place A key nonce (take header_size raw_buf) view.payload
      (length view.payload)) [ ok (tmp, plain_len) ↦ some (take plain_len tmp) | err e ↦ none ]

-- The text of an audio frame; `none` where it is dropped before its length is looked at.
unfoldable pub audio_plaintext : Aead → Session → PacketView → List ℕ → Option (List ℕ)
audio_plaintext A s view raw_buf =
    if contains (view.header).flags encrypted
    then elim s.decrypt_key [
      | none ↦ none
      | some key ↦ open_payload A key s.session_id view raw_buf
    ]
    else some view.payload

-- The end of the arm of `AudioFrame`: metrics, FEC decoder and jitter buffer.
unfoldable pub take_frame : ℕ → Frame → Step (Unit {0})
unfolding record_loss record_jitter
take_frame now frame = modify (λ s. record s {
  metrics = record (s.metrics) {
    loss = record_loss (s.metrics).loss frame.sequence;
    jitter = record_jitter (s.metrics).jitter frame.timestamp now;
  };
  fec_dec = (push_data s.fec_dec frame.sequence frame.payload).0;
  jitter = (JitterBuffer.push s.jitter frame).0;
})

-- The part of the arm of `AudioFrame` after the decryption.
unfoldable pub take_plaintext : ℕ → ℕ → Option (List ℕ) → Step (Unit {0})
take_plaintext now timestamp none = count_integrity_error
take_plaintext now timestamp (some plaintext) =
    if ltb (length plaintext) 4
    then count_integrity_error
    else take_frame now (record {
      sequence = from_be_bytes (slice plaintext 0 4);
      timestamp = timestamp;
      payload = drop 4 plaintext;
    })

-- The arm of `AudioFrame`
unfoldable pub dispatch_audio : Aead → ℕ → PacketView → List ℕ → Step (Unit {0})
dispatch_audio A now view raw_buf s =
    take_plaintext now (view.header).timestamp (audio_plaintext A s view raw_buf) s

-- `fec_dec.push_parity(...)` and the frame that it recovers.
unfoldable pub take_parity : FecParity → Step (Unit {0})
take_parity parity = do
  s ← get
  let recovered = push_parity s.fec_dec parity
  modify (λ t. record t { fec_dec = recovered.0 })
  elim recovered.1 [
    | none ↦ done
    | some (rec_seq, rec_payload) ↦
        push_frame (record { sequence = rec_seq; timestamp = 0; payload = rec_payload })
  ]

-- The arm of `AudioFec`
unfoldable pub dispatch_fec : Aead → PacketView → List ℕ → Step (Unit {0})
dispatch_fec A view raw_buf = do
  s ← get
  if not (contains (view.header).flags encrypted) then done else elim s.decrypt_key [
    | none ↦ done
    | some key ↦ elim (open_payload A key s.session_id view raw_buf) [
      | none ↦ count_integrity_error
      | some fec_data ↦
          if ltb (length fec_data) 5
          then done
          else take_parity (record {
            seq_base = from_be_bytes (slice fec_data 0 4);
            window = byte_at fec_data 4;
            payload = drop 5 fec_data;
          })
    ]
  ]

-- The arm of `ControlBitrate`
unfoldable pub dispatch_bitrate : PacketView → Step (Unit {0})
dispatch_bitrate view s = elim (Bitrate.decode view.payload) [
  | err e ↦ (s, ok tt)
  | ok msg ↦ elim (Congestion.set_bitrate s.congestion msg.requested_bitrate) [
    | none ↦ (s, err panicked)
    | some after ↦ (record s { congestion = after }, ok tt)
  ]
]

module _ (T : Transport) (A : Aead) where
  -- The arm of `Heartbeat`
  unfoldable pub dispatch_heartbeat : ℕ → Step (Unit {0})
  dispatch_heartbeat now = do
    s ← get
    elim s.peer [
      | none ↦ done
      | some p ↦ send_control T now MessageType.heartbeat_ack s.session_id [] p
    ]

  -- The arm of `FloorRequest`
  unfoldable pub dispatch_floor_request : ℕ → Step (Unit {0})
  dispatch_floor_request now = do
    s ← get
    if s.ptt_active then done else elim s.peer [
      | none ↦ done
      | some p ↦
          ignore
            (send_control T now MessageType.floor_grant s.session_id (to_be_bytes 4 s.session_id) p)
    ]

  -- The arms of the `match` on the message type.
  unfoldable pub dispatch_message : ℕ → PacketView → List ℕ → MessageType → Step (Unit {0})
  dispatch_message now view raw_buf MessageType.audio_frame = dispatch_audio A now view raw_buf
  dispatch_message now view raw_buf MessageType.heartbeat = dispatch_heartbeat now
  dispatch_message now view raw_buf MessageType.heartbeat_ack = done
  dispatch_message now view raw_buf MessageType.audio_fec = dispatch_fec A view raw_buf
  dispatch_message now view raw_buf MessageType.control_pause =
      modify (λ s. record s { peer_ptt_active = false })
  dispatch_message now view raw_buf MessageType.control_resume =
      modify (λ s. record s { peer_ptt_active = true })
  dispatch_message now view raw_buf MessageType.floor_request = dispatch_floor_request now
  dispatch_message now view raw_buf MessageType.floor_grant = done
  dispatch_message now view raw_buf MessageType.floor_deny =
      modify (λ s. record s { ptt_active = false })
  dispatch_message now view raw_buf MessageType.floor_release =
      modify (λ s. record s { peer_ptt_active = false })
  dispatch_message now view raw_buf MessageType.floor_taken = done
  dispatch_message now view raw_buf MessageType.control_bitrate = dispatch_bitrate view
  dispatch_message now view raw_buf MessageType.close =
      modify (λ s. record s { state = advance s.state SessionEvent.peer_closed })
      >> fail peer_closed
  dispatch_message now view raw_buf _ = done

  -- `dispatch_packet`
  unfoldable pub dispatch_packet : ℕ → PacketView → List ℕ → Step (Unit {0})
  dispatch_packet now view raw_buf = elim (MessageType.from_code (view.header).msg_type) [
    | ok msg ↦ dispatch_message now view raw_buf msg
    | err e ↦ count_integrity_error
  ]

  -- What `poll_once` and `recv_audio` do with a datagram. The flag says whether it was a packet.
  unfoldable pub receive_datagram : ℕ → List ℕ → Step (Unit {0})
  receive_datagram now datagram = do
    count_received (length datagram)
    elim (Packet.decode datagram) [
      | err e ↦ count_integrity_error
      | ok view ↦ do modify (λ s. record s { last_rx = now }); dispatch_packet now view datagram
    ]

-- `check_liveness`; the loss rate is the number of lost packets of the window.
unfoldable pub check_liveness : Floats ℕ → ℕ → Step (Unit {0})
check_liveness fl now s =
    if not (s.last_rx == 0) && ltb (10000 * 1000) (now - s.last_rx)
    then (record s { state = advance s.state SessionEvent.peer_timeout }, err (failed peer_closed))
    else elim (Congestion.update fl s.congestion (lost (s.metrics).loss)
        (elim (rtt_current_us (s.metrics).rtt) [ none ↦ 0 | some us ↦ us ])) [
          | none ↦ (s, err panicked)
          | some after ↦ (record s { congestion = after }, ok tt)
        ]

-- What a receive returns: a datagram and its sender, nothing in time, or an error.
pub data Arrival : Type 0 where
  datagram : List ℕ → SocketAddr → Arrival
  timed_out : Arrival
  broken : TransportError → Arrival

module _ (T : Transport) (A : Aead) (fl : Floats ℕ) where
  -- `poll_once`
  unfoldable pub poll_once : ℕ → Arrival → Step (Unit {0})
  poll_once now (datagram bytes from) = receive_datagram T A now bytes
  poll_once now (broken e) = fail e
  poll_once now timed_out = do
    s ← get
    when (is_operational (s.state).state) (send_heartbeat T now >> check_liveness fl now)

module _ (T : Transport) (A : Aead) where
  -- The loop of `recv_audio`: a round reads the clock, and gets the next arrival where it receives,
  -- with the time after it. With no reading or arrival left the call still waits, which is `none`.
  unfoldable pub recv_loop : ℕ → ℕ → List ℕ → List (Arrival × ℕ) → Step (Option Frame)
  recv_loop skip_us deadline_us [] arrivals s = (s, ok none)
  recv_loop skip_us deadline_us (now_us ∷ clock) arrivals s =
      let popped = pop_with_deadline s.jitter now_us deadline_us in
      let waiting = record s { jitter = popped.0 } in
      elim popped.1 [
        | some frame ↦ (waiting, ok (some frame))
        | none ↦
            if leb deadline_us now_us
            then recv_loop skip_us (now_us + skip_us) clock arrivals waiting
            else elim arrivals [
              | [] ↦ (waiting, ok none)
              | (datagram bytes from, later) ∷ rest ↦
                  (receive_datagram T A later bytes >> recv_loop skip_us deadline_us clock rest)
                    waiting
              | (timed_out, later) ∷ rest ↦ recv_loop skip_us deadline_us clock rest waiting
              | (broken e, later) ∷ rest ↦ (waiting, err (failed e))
            ]
      ]

  -- `recv_audio`; the first reading of the clock sets the deadline.
  unfoldable pub recv_audio : ℕ → List ℕ → List (Arrival × ℕ) → Step (Option Frame)
  recv_audio start_us clock arrivals s =
      let skip_us = (s.config).jitter_buffer_ms * 3 * 1000 in
      recv_loop skip_us (start_us + skip_us) clock arrivals s
