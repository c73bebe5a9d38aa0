-- ===== src/MessageType.antt =====
-- crates/gravital-talk-core/src/message.rs: the byte `msg_type`, and the codes of error payloads.
mod Examples
pub mod Codes
use gravital_sound.Common.{ℕ, Bool, true, false, ◌&&◌, ◌||◌, ltb, leb, ◌==◌, if◌then◌else◌}
use gravital_sound.Common.{Result, ok, err}
use gravital_sound.Protocol.{Error, unknown_message_type, malformed_payload}

pub data MessageType : Type 0 where
  handshake_client_hello handshake_server_hello handshake_session_confirm handshake_key_exchange :
      MessageType
  audio_frame audio_fragment audio_fec heartbeat heartbeat_ack : MessageType
  control_pause control_resume control_metrics control_bitrate : MessageType
  floor_request floor_grant floor_deny floor_release floor_taken : MessageType
  auth_challenge auth_response auth_accepted auth_rejected : MessageType
  extension : ℕ → MessageType
  error close : MessageType

-- `MessageType::code`
unfoldable pub code : MessageType → ℕ
code handshake_client_hello = 0x01
code handshake_server_hello = 0x02
code handshake_session_confirm = 0x03
code handshake_key_exchange = 0x04
code audio_frame = 0x10
code audio_fragment = 0x11
code audio_fec = 0x12
code heartbeat = 0x20
code heartbeat_ack = 0x21
code control_pause = 0x30
code control_resume = 0x31
code control_metrics = 0x32
code control_bitrate = 0x33
code floor_request = 0x40
code floor_grant = 0x41
code floor_deny = 0x42
code floor_release = 0x43
code floor_taken = 0x44
code auth_challenge = 0x50
code auth_response = 0x51
code auth_accepted = 0x52
code auth_rejected = 0x53
code (extension b) = b
code error = 0xFE
code close = 0xFF

-- The codes `0x45..=0x4F | 0x54..=0x7F`.
abbrev pub is_extension_code : ℕ → Bool
is_extension_code c = (leb 0x45 c && leb c 0x4F) || (leb 0x54 c && leb c 0x7F)

-- `MessageType::from_code`
unfoldable pub from_code : ℕ → Result Error MessageType
from_code c =
    if c == 0x01
    then ok handshake_client_hello
    else if c == 0x02
    then ok handshake_server_hello
    else if c == 0x03
    then ok handshake_session_confirm
    else if c == 0x04
    then ok handshake_key_exchange
    else if c == 0x10
    then ok audio_frame
    else if c == 0x11
    then ok audio_fragment
    else if c == 0x12
    then ok audio_fec
    else if c == 0x20
    then ok heartbeat
    else if c == 0x21
    then ok heartbeat_ack
    else if c == 0x30
    then ok control_pause
    else if c == 0x31
    then ok control_resume
    else if c == 0x32
    then ok control_metrics
    else if c == 0x33
    then ok control_bitrate
    else if c == 0x40
    then ok floor_request
    else if c == 0x41
    then ok floor_grant
    else if c == 0x42
    then ok floor_deny
    else if c == 0x43
    then ok floor_release
    else if c == 0x44
    then ok floor_taken
    else if c == 0x50
    then ok auth_challenge
    else if c == 0x51
    then ok auth_response
    else if c == 0x52
    then ok auth_accepted
    else if c == 0x53
    then ok auth_rejected
    else if is_extension_code c
    then ok (extension c)
    else if c == 0xFE
    then ok error
    else if c == 0xFF
    then ok close
    else err (unknown_message_type c)

unfoldable pub is_handshake : MessageType → Bool
is_handshake handshake_client_hello = true
is_handshake handshake_server_hello = true
is_handshake handshake_session_confirm = true
is_handshake handshake_key_exchange = true
is_handshake _ = false

unfoldable pub is_floor_control : MessageType → Bool
is_floor_control floor_request = true
is_floor_control floor_grant = true
is_floor_control floor_deny = true
is_floor_control floor_release = true
is_floor_control floor_taken = true
is_floor_control _ = false

unfoldable pub is_auth : MessageType → Bool
is_auth auth_challenge = true
is_auth auth_response = true
is_auth auth_accepted = true
is_auth auth_rejected = true
is_auth _ = false
