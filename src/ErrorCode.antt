-- ===== src/ErrorCode.antt =====
-- crates/gravital-talk-core/src/message.rs: the codes in the payloads of `MessageType::Error`.
mod Examples
use gravital_sound.Common.{ℕ, ◌==◌, if◌then◌else◌, Result, ok, err, ◌≡◌, refl, ◌↔◌, arith, sym, ◌∙◌}
use gravital_sound.Protocol.{Error, malformed_payload}

pub data ErrorCode : Type 0 where
  unknown_message_type invalid_checksum invalid_state unsupported_codec : ErrorCode
  protocol_mismatch peer_timeout resource_exhausted authentication_failed internal : ErrorCode

-- `ErrorCode::code`
unfoldable pub code : ErrorCode → ℕ
code unknown_message_type = 0x01
code invalid_checksum = 0x02
code invalid_state = 0x03
code unsupported_codec = 0x04
code protocol_mismatch = 0x05
code peer_timeout = 0x06
code resource_exhausted = 0x07
code authentication_failed = 0x08
code internal = 0xFF

-- `ErrorCode::from_code`
unfoldable pub from_code : ℕ → Result Error ErrorCode
from_code c =
    if c == 0x01
    then ok unknown_message_type
    else if c == 0x02
    then ok invalid_checksum
    else if c == 0x03
    then ok invalid_state
    else if c == 0x04
    then ok unsupported_codec
    else if c == 0x05
    then ok protocol_mismatch
    else if c == 0x06
    then ok peer_timeout
    else if c == 0x07
    then ok resource_exhausted
    else if c == 0x08
    then ok authentication_failed
    else if c == 0xFF
    then ok internal
    else err malformed_payload

from_code-code : (e : ErrorCode) → from_code (code e) ≡ ok e
unfolding from_code code
from_code-code unknown_message_type = refl
from_code-code _ = refl

code-from_code : (c : ℕ) {e : ErrorCode} → from_code c ≡ ok e → code e ≡ c
unfolding from_code code
code-from_code c h = ground arith

-- A byte is decoded to an error code exactly if it is the code of that error.
pub from_code_error : (c : ℕ) (e : ErrorCode) → (from_code c ≡ ok e) ↔ (code e ≡ c)
unfolding from_code code
from_code_error c e = (λ h. code-from_code c h, λ h. ground arith)
