-- ===== src/Header.antt =====
-- crates/gravital-talk-core/src/header.rs: the 24-byte packet header and its flags.
mod Examples
pub mod Roundtrip
use gravital_sound.Common.{ℕ, ◌-◌, Bool, not, ◌||◌, List, [], ◌∷◌, length, ltb, ◌==◌}
use gravital_sound.Common.{bit_and, bit_or, Result, ok, err, ◌>>=◌, ◌>>◌, fail_if}
use gravital_sound.Wire.{Field, field, writes, slice, byte_at, to_be_bytes, from_be_bytes}
use gravital_sound.Protocol.{Error, too_short, bad_magic, protocol_mismatch, buffer_too_small}
use gravital_sound.Protocol.{reserved_field_non_zero, magic_0, magic_1, protocol_version}
use gravital_sound.Protocol.{header_size}

-- `struct Flags(pub u8)`
abbrev pub Flags : Type 0
Flags = ℕ

abbrev pub fragmented : Flags
fragmented = 0b1000_0000

abbrev pub last_fragment : Flags
last_fragment = 0b0100_0000

abbrev pub encrypted : Flags
encrypted = 0b0010_0000

abbrev pub retransmit : Flags
retransmit = 0b0001_0000

unfoldable pub contains : Flags → Flags → Bool
contains f other = bit_and f other == other

unfoldable pub set_flag : Flags → Flags → Flags
set_flag f other = bit_or f other

-- `self.0 &= !other.0`, where `!` flips the eight bits.
unfoldable pub unset_flag : Flags → Flags → Flags
unset_flag f other = bit_and f (255 - other)

pub record PacketHeader : Type 0 where
  pub version : ℕ  -- u8
  pub flags : Flags
  pub msg_type : ℕ  -- u8
  pub session_id : ℕ  -- u32
  pub sequence : ℕ  -- u32
  pub timestamp : ℕ  -- u64

-- `PacketHeader::new`
unfoldable pub new : ℕ → ℕ → ℕ → ℕ → PacketHeader
new msg_type session_id sequence timestamp = record {
  version = protocol_version;
  flags = 0;
  msg_type = msg_type;
  session_id = session_id;
  sequence = sequence;
  timestamp = timestamp;
}

-- `PacketHeader::decode`
unfoldable pub decode : List ℕ → Result Error PacketHeader
decode buf = do
  fail_if (ltb (length buf) header_size) too_short
  fail_if (not (byte_at buf 0 == magic_0) || not (byte_at buf 1 == magic_1)) bad_magic
  let version = byte_at buf 2
  fail_if (not (version == protocol_version)) protocol_mismatch
  fail_if (not (byte_at buf 5 == 0) || (not (byte_at buf 6 == 0) || not (byte_at buf 7 == 0)))
      reserved_field_non_zero
  ok (record {
    version = version;
    flags = byte_at buf 3;
    msg_type = byte_at buf 4;
    session_id = from_be_bytes (slice buf 8 4);
    sequence = from_be_bytes (slice buf 12 4);
    timestamp = from_be_bytes (slice buf 16 8);
  })

-- The assignments of `PacketHeader::encode`, in order.
abbrev pub fields : PacketHeader → List Field
fields h =
    field 0 1 (magic_0 ∷ [])
    ∷ field 1 1 (magic_1 ∷ [])
    ∷ field 2 1 (h.version ∷ [])
    ∷ field 3 1 (h.flags ∷ [])
    ∷ field 4 1 (h.msg_type ∷ [])
    ∷ field 5 1 (0 ∷ [])
    ∷ field 6 1 (0 ∷ [])
    ∷ field 7 1 (0 ∷ [])
    ∷ field 8 4 (to_be_bytes 4 h.session_id)
    ∷ field 12 4 (to_be_bytes 4 h.sequence)
    ∷ field 16 8 (to_be_bytes 8 h.timestamp)
    ∷ []

-- `PacketHeader::encode`
unfoldable pub encode : PacketHeader → List ℕ → Result Error (List ℕ)
encode h buf = do
  fail_if (ltb (length buf) header_size) buffer_too_small
  ok (writes buf (fields h))
