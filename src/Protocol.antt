-- ===== src/Protocol.antt =====
-- crates/gravital-talk-core/src/error.rs and constants.rs: the errors of the core crate, with the
-- stable codes of the FFI, and the constants that the other components use.
use gravital_sound.Common.{ℕ, ◌-◌}

pub data Error : Type 0 where
  too_short bad_magic protocol_mismatch length_mismatch bad_checksum : Error
  unknown_message_type : ℕ → Error
  buffer_too_small payload_too_large too_many_fragments fragment_out_of_range : Error
  duplicate_fragment incomplete_reassembly invalid_state_transition malformed_payload : Error
  decryption_failed reserved_field_non_zero version_negotiation_failed : Error

-- `Error::code`
unfoldable pub error_code : Error → ℕ
error_code too_short = 1
error_code bad_magic = 2
error_code protocol_mismatch = 3
error_code length_mismatch = 4
error_code bad_checksum = 5
error_code (unknown_message_type t) = 6
error_code buffer_too_small = 7
error_code payload_too_large = 8
error_code too_many_fragments = 9
error_code fragment_out_of_range = 10
error_code duplicate_fragment = 11
error_code incomplete_reassembly = 12
error_code invalid_state_transition = 13
error_code malformed_payload = 14
error_code decryption_failed = 15
error_code reserved_field_non_zero = 16
error_code version_negotiation_failed = 17

abbrev pub magic_0 : ℕ
magic_0 = b'G'

abbrev pub magic_1 : ℕ
magic_1 = b'S'

abbrev pub protocol_version : ℕ
protocol_version = 1

abbrev pub header_size : ℕ
header_size = 24

abbrev pub default_mtu : ℕ
default_mtu = 1200

abbrev pub max_payload_size : ℕ
max_payload_size = default_mtu - header_size

abbrev pub max_fragments : ℕ
max_fragments = 16

abbrev pub loss_window_size : ℕ
loss_window_size = 64

abbrev pub fec_window : ℕ
fec_window = 4

abbrev pub congestion_min_bitrate : ℕ
congestion_min_bitrate = 8000

abbrev pub congestion_aimd_increment : ℕ
congestion_aimd_increment = 2000
