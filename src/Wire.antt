-- ===== src/Wire.antt =====
-- Byte buffers: `to_be_bytes`, `from_be_bytes` and `copy_from_slice` of core, and the layouts that
-- the encoders of crates/gravital-talk-core/src write.
mod Words
mod Layout
mod Reads
unfoldable pub use Words.*
unfoldable pub use Layout.*
pub use Reads.*
