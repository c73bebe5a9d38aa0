-- ===== src/Session/Control.antt =====
-- crates/gravital-talk-transport/src/session.rs: control messages, sent and awaited.
use gravital_sound.Common.{
  ℕ, ◌^◌, ◌≤◌, ◌<◌, ◌≡◌, refl, arith, List, length, true, false, ◌==◌, ==_iff, some, none, ok,
}
use gravital_sound.Wire.{IsBytes}
use gravital_sound.Protocol.{max_payload_size}
use gravital_sound.Header
use gravital_sound.Header.{PacketHeader}
use gravital_sound.Packet
use gravital_sound.Packet.{PacketView}
use gravital_sound.Packet.Roundtrip.{decode_of_frame}
use gravital_sound.MessageType
use gravital_sound.MessageType.{MessageType}
use gravital_sound.Session.{Session, SocketAddr}
use gravital_sound.Session.Client.{awaited}
use gravital_sound.Session.Sent.{control_header, datagram_of, header-IsValid}

pub ==_self : (n : ℕ) → (n == n) ≡ true
==_self n = (==_iff n n).1 refl

-- The numbers of a control message fit their types.
pub record CanControl (s : Session) (now : ℕ) (msg : MessageType) (session_id : ℕ) : Type 0 where
  pub code_lt : MessageType.code msg < 256
  pub session_id_lt : session_id < 2 ^ 32
  pub sequence_lt : s.tx_sequence < 2 ^ 32
  pub now_lt : now < 2 ^ 64

decode_control :
    (s : Session) (now : ℕ) (msg : MessageType) (session_id : ℕ) (payload : List ℕ)
    → CanControl s now msg session_id
    → IsBytes payload
    → length payload ≤ max_payload_size
    → Packet.decode (datagram_of (control_header s now msg session_id) payload)
      ≡ ok (record { header = control_header s now msg session_id; payload = payload })
unfolding Header.new
decode_control s now msg session_id payload can bytes small =
    decode_of_frame (control_header s now msg session_id) payload
      (header-IsValid msg 0 session_id s.tx_sequence now can.code_lt (omega arith) can.session_id_lt
        can.sequence_lt can.now_lt)
      bytes small

-- A control message from the peer is what a wait for its type takes.
pub awaited_lem :
    (s : Session) (now : ℕ) (msg : MessageType) (session_id : ℕ) (payload : List ℕ)
    → (from : SocketAddr) → CanControl s now msg session_id
    → IsBytes payload
    → length payload ≤ max_payload_size
    → awaited from msg (datagram_of (control_header s now msg session_id) payload) from
      ≡ some (record { header = control_header s now msg session_id; payload = payload })
unfolding awaited Header.new
awaited_lem s now msg session_id payload from can bytes small = rw (
  ==_self from,
  decode_control s now msg session_id payload can bytes small,
  awaited,
  ==_self (MessageType.code msg),
)

-- A message of another type is not.
pub awaited_other :
    (s : Session) (now : ℕ) (msg other : MessageType) (session_id : ℕ) (payload : List ℕ)
    → (from : SocketAddr) → CanControl s now msg session_id
    → IsBytes payload
    → length payload ≤ max_payload_size
    → (MessageType.code msg == MessageType.code other) ≡ false
    → awaited from other (datagram_of (control_header s now msg session_id) payload) from ≡ none
unfolding awaited Header.new
awaited_other s now msg other session_id payload from can bytes small differ =
    rw (==_self from, decode_control s now msg session_id payload can bytes small, awaited, differ)
