-- ===== src/Session/Delivery.antt =====
-- crates/gravital-talk-transport/src/session.rs: what the peer gets of what a session sends.
use gravital_sound.Common.{
  ℕ, ◌+◌, ◌^◌, ◌≤◌, ◌<◌, ◌≡◌, sym, ap, ap₂, ◌∙◌, arith, List, ◌++◌, length, take, replicate,
}
use gravital_sound.Common.{
  some, ok, append-nil, length-append, take-append_length, take-length, ge→ltb_false,
}
use gravital_sound.Wire.{
  IsBytes, bytes_of, writes-bytes_of, slice, to_be_bytes, length-to_be_bytes,
  from_be_bytes-to_be_bytes, drop-all,
}
use gravital_sound.Protocol.{max_payload_size, header_size}
use gravital_sound.Header
use gravital_sound.Header.{PacketHeader, fields, encrypted, contains}
use gravital_sound.Header.Roundtrip.{IsValid, fields-IsLayout}
use gravital_sound.Packet
use gravital_sound.Packet.{PacketView}
use gravital_sound.Packet.Encoded.{length-head}
use gravital_sound.Packet.Roundtrip.{frame_after_header, decode_of_frame}
use gravital_sound.MessageType
use gravital_sound.MessageType.{MessageType}
use gravital_sound.Crypto.{
  Aead, SessionKey, tag_size, make_nonce, encrypt_in_place, decrypt_in_place,
}
use gravital_sound.Crypto.Sealing.{decrypt_in_place-encrypt_in_place}
use gravital_sound.Session.{Session, Transport}
use gravital_sound.Session.Sending.{seal_payload}
use gravital_sound.Session.Receiving.{
  open_payload, audio_plaintext, dispatch_audio, take_plaintext, take_frame, receive_datagram,
  dispatch_packet, dispatch_message,
}
use gravital_sound.JitterBuffer.{Frame}
use gravital_sound.Metrics.{record_received}
use gravital_sound.Session.Sent.{datagram_of}

-- The buffer that the header is encoded into holds its bytes, which the datagram begins with.
header_bytes :
    (h : PacketHeader) → Header.encode h (replicate header_size 0) ≡ ok (bytes_of (fields h))
unfolding Header.encode
header_bytes h = ap ok (
    writes-bytes_of (fields h) (replicate header_size 0) (fields-IsLayout h)
    ∙ ap (λ t. bytes_of (fields h) ++ t)
        (drop-all (replicate header_size 0) (length (bytes_of (fields h)))
          (omega (arith, length-head h)))
    ∙ append-nil (bytes_of (fields h)))

take-datagram :
    (h : PacketHeader) (payload : List ℕ)
    → take header_size (datagram_of h payload) ≡ bytes_of (fields h)
take-datagram h payload =
    ap₂ take (sym (length-head h)) (frame_after_header (bytes_of (fields h)) payload)
    ∙ take-append_length (bytes_of (fields h)) _

-- A sealed payload is opened with the same key by a session of the same number.
pub record IsSealed (A : Aead) (key : SessionKey) (header : PacketHeader) (session_id : ℕ)
    (plain : List ℕ) (s : Session) : Type 0 where
  pub sealed : List ℕ
  pub length_is : length sealed ≡ length plain + tag_size
  pub bytes : IsBytes sealed
  pub sealed_by : seal_payload A key header session_id plain s ≡ (s, ok sealed)
  pub opened :
      open_payload A key session_id
        (record { header = header; payload = sealed })
        (datagram_of header sealed)
      ≡ some plain

seal_payload_lem :
    (A : Aead) (key : SessionKey) (header : PacketHeader) (session_id : ℕ) (plain sealed : List ℕ)
    → (n : ℕ) (s : Session)
    → encrypt_in_place A key
        (make_nonce header.sequence session_id)
        (bytes_of (fields header))
        (plain ++ replicate tag_size 0)
        (length plain)
      ≡ ok (sealed, n)
    → length sealed ≡ n
    → seal_payload A key header session_id plain s ≡ (s, ok sealed)
unfolding seal_payload
seal_payload_lem A key header session_id plain sealed n s e l =
    rw (header_bytes header, e, sym l, take-length sealed)

open_payload_lem :
    (A : Aead) (key : SessionKey) (header : PacketHeader) (session_id : ℕ) (plain sealed : List ℕ)
    → (buffer : List ℕ) (n : ℕ)
    → decrypt_in_place A key
        (make_nonce header.sequence session_id)
        (bytes_of (fields header))
        sealed
        (length sealed)
      ≡ ok (buffer, n)
    → take n buffer ≡ plain
    → open_payload A key session_id
        (record { header = header; payload = sealed })
        (datagram_of header sealed)
      ≡ some plain
unfolding open_payload
open_payload_lem A key header session_id plain sealed buffer n e t =
    rw (take-datagram header sealed, e, open_payload, t)

pub seal_payload-IsSealed :
    (A : Aead) (key : SessionKey) (header : PacketHeader) (session_id : ℕ) (plain : List ℕ)
    → (s : Session) → IsBytes plain
    → length plain < 2 ^ 16
    → IsSealed A key header session_id plain s
seal_payload-IsSealed A key header session_id plain s bytes small =
    let nonce = make_nonce header.sequence session_id in
    let trip =
      decrypt_in_place-encrypt_in_place A key nonce (bytes_of (fields header)) plain bytes small in
    record {
      sealed = trip.0;
      length_is = trip.2;
      bytes = trip.3;
      sealed_by = seal_payload_lem A key header session_id plain trip.0 _ s trip.4 trip.2;
      opened = open_payload_lem A key header session_id plain trip.0 trip.1 _ trip.5 trip.6;
    }

-- The frame that a session makes of its next payload.
abbrev pub frame_to_come : Session → ℕ → List ℕ → Frame
frame_to_come s now payload = record {
  sequence = s.audio_tx_seq;
  timestamp = now;
  payload = payload;
}

-- A receiver after it has read a datagram that was a packet.
abbrev pub after_receive : Session → ℕ → List ℕ → Session
after_receive r now datagram = record r {
  last_rx = now;
  metrics = record (r.metrics) {
    counters = record_received (r.metrics).counters (length datagram);
  };
}

-- The plain text of an audio frame is taken apart again.
take_frame_lem :
    (A : Aead) (now sequence : ℕ) (view : PacketView) (raw_buf payload : List ℕ) (r : Session)
    → sequence < 2 ^ 32
    → audio_plaintext A r view raw_buf ≡ some (to_be_bytes 4 sequence ++ payload)
    → dispatch_audio A now view raw_buf r
      ≡ take_frame now
          (record { sequence = sequence; timestamp = (view.header).timestamp; payload = payload })
          r
unfolding dispatch_audio take_plaintext slice to_be_bytes
take_frame_lem A now sequence view raw_buf payload r fits e = rw (
  e,
  ge→ltb_false (length (to_be_bytes 4 sequence ++ payload)) 4 (
      omega (arith, length-append (to_be_bytes 4 sequence) payload, length-to_be_bytes 4 sequence)),
  from_be_bytes-to_be_bytes 4 sequence fits,
)

-- With the key, an encrypted frame is opened.
audio_plaintext_lem :
    (A : Aead) (key : SessionKey) (view : PacketView) (raw_buf plain : List ℕ) (r : Session)
    → (view.header).flags ≡ encrypted
    → r.decrypt_key ≡ some key
    → open_payload A key r.session_id view raw_buf ≡ some plain
    → audio_plaintext A r view raw_buf ≡ some plain
unfolding audio_plaintext contains
audio_plaintext_lem A key view raw_buf plain r f k opened = rw (f, k, audio_plaintext, opened)

pub receive_datagram_lem :
    (T : Transport) (A : Aead) (now : ℕ) (datagram : List ℕ) (view : PacketView) (r : Session)
    → Packet.decode datagram ≡ ok view
    → receive_datagram T A now datagram r
      ≡ dispatch_packet T A now view datagram (after_receive r now datagram)
unfolding receive_datagram
receive_datagram_lem T A now datagram view r e = rw (e, receive_datagram)

pub dispatch_packet-audio :
    (T : Transport) (A : Aead) (now : ℕ) (view : PacketView) (raw_buf : List ℕ) (r : Session)
    → (view.header).msg_type ≡ MessageType.code MessageType.audio_frame
    → dispatch_packet T A now view raw_buf r ≡ dispatch_audio A now view raw_buf r
unfolding dispatch_packet dispatch_message MessageType.from_code MessageType.code
dispatch_packet-audio T A now view raw_buf r m = rw (ap MessageType.from_code m, dispatch_packet)

-- The receiver of a datagram of the session `s`.
pub receive_audio_lem :
    (T : Transport) (A : Aead) (key : SessionKey) (now later sequence : ℕ) (header : PacketHeader)
    → (payload sealed : List ℕ) (r : Session) → IsValid header
    → header.flags ≡ encrypted
    → header.msg_type ≡ MessageType.code MessageType.audio_frame
    → r.decrypt_key ≡ some key
    → IsBytes sealed
    → length sealed ≤ max_payload_size
    → sequence < 2 ^ 32
    → open_payload A key r.session_id
        (record { header = header; payload = sealed })
        (datagram_of header sealed)
      ≡ some (to_be_bytes 4 sequence ++ payload)
    → receive_datagram T A later (datagram_of header sealed) r
      ≡ take_frame later
          (record { sequence = sequence; timestamp = header.timestamp; payload = payload })
          (after_receive r later (datagram_of header sealed))
receive_audio_lem T A key now later sequence header payload sealed r v f m k bytes small fits
      opened =
    receive_datagram_lem T A later (datagram_of header sealed) _ r
      (decode_of_frame header sealed v bytes small)
    ∙ dispatch_packet-audio T A later _ _ (after_receive r later (datagram_of header sealed)) m
    ∙ take_frame_lem A later sequence (record { header = header; payload = sealed })
        (datagram_of header sealed) payload (after_receive r later (datagram_of header sealed)) fits
        (audio_plaintext_lem A key _ _ _ (after_receive r later (datagram_of header sealed)) f k
          opened)
