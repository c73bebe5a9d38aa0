-- ===== src/Codec.antt =====
-- crates/gravital-talk-codec/src: the codes of codecs (negotiation.rs) and uncompressed samples
-- (pcm.rs). A sample, an `i16`, is its two's complement.
pub mod Pcm
pub mod Negotiation
mod Examples
use gravital_sound.Common.{ℕ, ◌==◌, if◌then◌else◌, List}

pub data CodecId : Type 0 where
  pcm opus : CodecId
  other : ℕ → CodecId

-- The texts of the errors are left out.
pub data CodecError : Type 0 where
  buffer_too_small : ℕ → ℕ → CodecError
  frame_size_mismatch : ℕ → ℕ → CodecError
  invalid_params backend : CodecError
  unsupported : CodecId → CodecError

-- `CodecId::code`
unfoldable pub code : CodecId → ℕ
code pcm = 1
code opus = 2
code (other b) = b

-- `CodecId::from_code`
unfoldable pub from_code : ℕ → CodecId
from_code b = if b == 1 then pcm else if b == 2 then opus else other b
