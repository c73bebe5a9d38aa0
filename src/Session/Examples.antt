-- ===== src/Session/Examples.antt =====
-- Tests of a session, and instances of the theorems about it.
use gravital_sound.Common.{
  ℕ, ◌*◌, ◌^◌, ◌≤◌, ◌<◌, ◌≡◌, ◌⊎◌, refl, arith, List, [], ◌∷◌, true, ◌↔◌, ok,
}
use gravital_sound.Crypto.Plain.{plain_aead}
use gravital_sound.Session.{SocketAddr, jitter_slots, next_power_of_two}
use gravital_sound.Session.Keys.{constant_time_eq}
use gravital_sound.Common.{err}
use gravital_sound.Session.{Transport, io, failed, invalid_state}
use gravital_sound.Session.Closing.{IsClosed, send_audio-close}
use gravital_sound.Session.Sending.{send_audio, close}
use gravital_sound.Session.Receiving.{take_frame, receive_datagram}
use gravital_sound.Session.Slots.{jitter_slots-bounds}
use gravital_sound.Session.Tags.{constant_time_eq_iff}
use gravital_sound.Session.Delivery.{frame_to_come, after_receive}
use gravital_sound.Session.Audio.{send_audio-receive_datagram}
use gravital_sound.Session.Fixtures.{quiet, socket, fresh, toy_keys, random_of, replicate-IsBytes}
use gravital_sound.Session.{Session, client, server}
use gravital_sound.Session.Receiving.{datagram}
use gravital_sound.Session.Client.{contains_codec}
use gravital_sound.Session.Server.{choose_codec}
use gravital_sound.Session.Handshake.{handshake}
use gravital_sound.Session.Agreement.{CanAgree}
use gravital_sound.Session.Agreed.{IsAgreed, handshake-IsAgreed}

-- `jitter_slots_power_of_two` of session.rs
test_jitter_slots :
    (jitter_slots 40 20 ≡ 16) × (jitter_slots 100 20 ≡ 16) × (jitter_slots 1000 20 ≡ 64)
unfolding jitter_slots next_power_of_two
test_jitter_slots = (refl, refl, refl)

jitter_slots-bounds_example :
    (exponent : ℕ) × (jitter_slots 1000 20 ≡ 2 ^ exponent)
    × (4 ≤ exponent)
    × (exponent ≤ 16)
    × (50 ≤ jitter_slots 1000 20)
    × ((jitter_slots 1000 20 ≡ 16) ⊎ (jitter_slots 1000 20 < 2 * 50))
jitter_slots-bounds_example = jitter_slots-bounds 1000 20 (omega arith)

constant_time_eq_iff_example :
    (constant_time_eq (1 ∷ 2 ∷ []) (1 ∷ 3 ∷ []) ≡ true) ↔ ◌≡◌ {A = List ℕ} (1 ∷ 2 ∷ []) (1 ∷ 3 ∷ [])
constant_time_eq_iff_example = constant_time_eq_iff (1 ∷ 2 ∷ []) (1 ∷ 3 ∷ []) refl

send_audio-receive_datagram_example :
    (datagram : List ℕ) × (more : List (SocketAddr × List ℕ)) × ((send_audio socket plain_aead 900
        (10 ∷ 20 ∷ [])
        quiet).1
      ≡ ok tt)
    × ((send_audio socket plain_aead 900 (10 ∷ 20 ∷ []) quiet).0.outbox ≡ (7, datagram) ∷ more)
    × (receive_datagram socket plain_aead 950 datagram quiet
        ≡ take_frame 950
            (frame_to_come quiet 900 (10 ∷ 20 ∷ []))
            (after_receive quiet 950 datagram))
send_audio-receive_datagram_example =
    send_audio-receive_datagram socket plain_aead (1 ∷ 2 ∷ []) 7 900 950 (10 ∷ 20 ∷ []) quiet quiet
      (λ calls datagram peer. refl)
      (record {
        state_is = refl;
        peer_is = refl;
        key_is = refl;
        session_id_lt = omega arith;
        tx_sequence_lt = omega arith;
        audio_tx_seq_lt = omega arith;
      })
      (omega arith) (omega arith) (omega arith) (omega arith) refl refl

can_agree : CanAgree fresh fresh (random_of 3 0) (random_of 5 99) 1000 2000 1
unfolding choose_codec contains_codec
can_agree = record {
  config_fits = record {
    sample_rate_lt = omega arith;
    channels_lt = omega arith;
    frame_duration_ms_lt = omega arith;
    max_bitrate_lt = omega arith;
    codec_preferred_lt = omega arith;
    capability_flags_lt = omega arith;
  };
  client_mtu = omega arith;
  server_mtu = omega arith;
  client_sequence_lt = omega arith;
  server_sequence_lt = omega arith;
  now_lt = omega arith;
  later_lt = omega arith;
  session_id_lt = omega arith;
  client_nonce_length = refl;
  client_nonce_bytes = replicate-IsBytes 32 3 (omega arith);
  server_nonce_length = refl;
  server_nonce_bytes = replicate-IsBytes 32 5 (omega arith);
  server_open = refl;
  codec_chosen = refl;
  codec_lt = omega arith;
  codec_supported = refl;
}

handshake-IsAgreed_example :
    (hello answer key_exchange confirm : List ℕ) × (c' s' : Session) × (handshake socket toy_keys
        1000 client 8
        (random_of 3 0)
        (datagram answer 8 ∷ datagram confirm 8 ∷ [])
        fresh
      ≡ (c', ok tt))
    × (handshake socket toy_keys 2000 server 7
          (random_of 5 99)
          (datagram hello 7 ∷ datagram key_exchange 7 ∷ [])
          fresh
        ≡ (s', ok tt))
    × (c'.outbox ≡ (8, hello) ∷ (8, key_exchange) ∷ [])
    × (s'.outbox ≡ (7, answer) ∷ (7, confirm) ∷ [])
    × IsAgreed c' s' 99 1
handshake-IsAgreed_example =
    handshake-IsAgreed socket toy_keys 1000 2000 1 7 8 (random_of 3 0) (random_of 5 99) fresh fresh
      (λ calls datagram peer. refl) can_agree refl refl

-- A socket that fails.
abbrev broken : Transport
broken = record { send_to = λ calls datagram peer. err io }

send_audio-close_example :
    ((close broken 40 quiet).1 ≡ ok tt)
    × IsClosed (close broken 40 quiet).0
    × (send_audio broken plain_aead 50 (1 ∷ 2 ∷ []) (close broken 40 quiet).0
        ≡ ((close broken 40 quiet).0, err (failed invalid_state)))
send_audio-close_example = send_audio-close broken plain_aead 40 50 (1 ∷ 2 ∷ []) quiet
