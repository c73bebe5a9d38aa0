-- ===== src/Codec/Examples.antt =====
-- Tests of the codecs, and instances of the theorems about them.
use gravital_sound.Common.{
  ℕ, ◌*◌, ◌/◌, ◌≡◌, refl, arith, true, max, List, [], ◌∷◌, ◌++◌, length, take, drop, replicate, ok,
  err,
}
use gravital_sound.Codec.{pcm, opus, other, code, from_code, invalid_params, frame_size_mismatch}
use gravital_sound.Codec.Negotiation.{negotiate}
use gravital_sound.Codec.Pcm.{PcmCodec, encode, decode}
use gravital_sound.Codec.Pcm.Samples.{decode-encode_pcm}

-- A frame of two channels with two samples each.
abbrev stereo : PcmCodec
stereo = record { sample_rate = 1000; channels = 2; frame_duration_ms = 2 }

-- The samples 1, -1, 256 and -32768.
abbrev samples : List ℕ
samples = 1 ∷ 65535 ∷ 256 ∷ 32768 ∷ []

-- `rejects_wrong_frame_size` of pcm.rs
test_frame_size : (encode stereo (1 ∷ []) (replicate 20 0)).1 ≡ err (frame_size_mismatch 4 1)
unfolding encode
test_frame_size = refl

test_odd : (decode stereo (1 ∷ []) (replicate 20 0)).1 ≡ err invalid_params
unfolding decode
test_odd = refl

-- `code_roundtrip`, `negotiate_prefers_client_if_supported` and
-- `negotiate_falls_back_to_local_preferred` of negotiation.rs
test_code : from_code (code (other 64)) ≡ other 64
unfolding from_code code
test_code = refl

test_negotiate : negotiate true pcm ≡ ok pcm
unfolding negotiate
test_negotiate = refl

test_negotiate_other : negotiate true (other 64) ≡ ok opus
unfolding negotiate
test_negotiate_other = refl

decode-encode_pcm_example :
    ((encode stereo samples (replicate 10 0)).1 ≡ ok (length samples * 2))
    × (decode stereo
          (take (length samples * 2) (encode stereo samples (replicate 10 0)).0)
          (replicate 5 9)
        ≡ (
          samples ++ drop (length samples) (replicate 5 9),
          ok (length samples / max stereo.channels 1),
        ))
decode-encode_pcm_example =
    decode-encode_pcm stereo samples (replicate 10 0) (replicate 5 9) refl (omega arith)
      (omega arith) (omega arith, (omega arith, (omega arith, (omega arith, tt))))
