-- ===== src/Codec/Pcm.antt =====
-- crates/gravital-talk-codec/src/pcm.rs: samples as little-endian words of 16 bits.
pub mod Samples
use gravital_sound.Common.{
  ℕ, zero, suc, ◌+◌, ◌*◌, ◌/◌, ◌%◌, Bool, not, ltb, ◌==◌, if◌then◌else◌, max,
}
use gravital_sound.Common.{List, [], ◌∷◌, length, set, get_or, Result, ok, err}
use gravital_sound.Codec.{CodecError, buffer_too_small, frame_size_mismatch, invalid_params}

pub record PcmCodec : Type 0 where
  pub sample_rate : ℕ  -- u32
  pub channels : ℕ  -- u8
  pub frame_duration_ms : ℕ  -- u8

abbrev pub samples_per_channel : PcmCodec → ℕ
samples_per_channel c = c.sample_rate * c.frame_duration_ms / 1000

abbrev pub total_samples : PcmCodec → ℕ
total_samples c = samples_per_channel c * c.channels

abbrev pub wire_bytes : PcmCodec → ℕ
wire_bytes c = total_samples c * 2

-- The loop of `encode` from the sample `i` on.
unfoldable pub write_samples : List ℕ → ℕ → List ℕ → List ℕ
write_samples [] i out = out
write_samples (sample ∷ rest) i out =
    write_samples rest (suc i)
      (set (set out (i * 2) (sample % 256)) (i * 2 + 1) (sample / 256 % 256))

-- `encode`; the buffer is returned with the result.
unfoldable pub encode : PcmCodec → List ℕ → List ℕ → List ℕ × Result CodecError ℕ
encode c pcm out =
    let needed = wire_bytes c in
    if not (length pcm == total_samples c)
    then (out, err (frame_size_mismatch (total_samples c) (length pcm)))
    else if ltb (length out) needed
    then (out, err (buffer_too_small needed (length out)))
    else (write_samples pcm 0 out, ok needed)

-- The loop of `decode` over `n` samples from the sample `i` on.
unfoldable pub read_samples : ℕ → ℕ → List ℕ → List ℕ → List ℕ
read_samples zero i bytes pcm = pcm
read_samples (suc n) i bytes pcm =
    read_samples n (suc i) bytes
      (set pcm i (get_or bytes (i * 2) 0 + get_or bytes (i * 2 + 1) 0 * 256))

-- `decode`; the buffer is returned with the result.
unfoldable pub decode : PcmCodec → List ℕ → List ℕ → List ℕ × Result CodecError ℕ
decode c bytes pcm =
    let samples = length bytes / 2 in
    if not (length bytes % 2 == 0)
    then (pcm, err invalid_params)
    else if ltb (length pcm) samples
    then (pcm, err (buffer_too_small samples (length pcm)))
    else (read_samples samples 0 bytes pcm, ok (samples / max c.channels 1))
