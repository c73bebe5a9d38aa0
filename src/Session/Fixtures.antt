-- ===== src/Session/Fixtures.antt =====
-- Sessions, a socket and a key agreement for tests.
use gravital_sound.Common.{
  ℕ, zero, suc, ◌+◌, ◌%◌, ◌<◌, ap, List, [], ◌∷◌, length, replicate, get_or, none, some, ok, false,
  arith, length-replicate,
}
use gravital_sound.SessionState.{idle, active}
use gravital_sound.Wire.{IsBytes}
use gravital_sound.Session.Keys.{KeyAgreement}
use gravital_sound.Session.Server.{Random}
use gravital_sound.Metrics
use gravital_sound.JitterBuffer.{empty}
use gravital_sound.Session.{Session, Transport, default_config}

abbrev pub quiet : Session
quiet = record {
  state = record { state = active };
  metrics = Metrics.new;
  jitter = record {
    slots = replicate 16 empty;
    capacity = 16;
    mask = 15;
    next_seq = 0;
    primed = false;
  };
  config = default_config;
  peer = some 7;
  session_id = 1234;
  tx_sequence = 5;
  audio_tx_seq = 3;
  last_rx = 0;
  negotiated_codec = 1;
  encrypt_key = some (1 ∷ 2 ∷ []);
  decrypt_key = some (1 ∷ 2 ∷ []);
  congestion = record { current_bitrate = 64000; min_bitrate = 8000; max_bitrate = 64000 };
  fec_enc = record { window = 4; parity_buf = []; count = 0; seq_base = 0 };
  fec_dec = record { window = 4; seq_base = 0; received = []; parity = none; active = false };
  ptt_active = false;
  peer_ptt_active = false;
  local_ssrc = 0;
  closed = false;
  outbox = [];
}

abbrev pub socket : Transport
socket = record { send_to = λ calls datagram peer. ok (length datagram) }

abbrev pub fresh : Session
fresh = record quiet {
  state = record { state = idle };
  peer = none;
  session_id = 0;
  tx_sequence = 0;
  encrypt_key = none;
  decrypt_key = none;
}

pub replicate-IsBytes : (n b : ℕ) → b < 256 → IsBytes (replicate n b)
replicate-IsBytes zero b h = tt
replicate-IsBytes (suc n) b h = (h, replicate-IsBytes n b h)

-- Keys that are read off the first byte of a secret.
abbrev pub first_byte : List ℕ → ℕ
first_byte xs = get_or xs 0 0 % 256

abbrev pub toy_keys : KeyAgreement
toy_keys = record {
  public_key = λ secret. replicate 32 (first_byte secret);
  diffie_hellman = λ secret public. ((first_byte secret + get_or public 0 0) ∷ []);
  expand = λ salt ikm info size. replicate size ((get_or ikm 0 0 + length info) % 256);
  length-public_key = λ secret. length-replicate 32 (first_byte secret);
  public_key-IsBytes = λ secret. replicate-IsBytes 32 (first_byte secret) (omega arith);
  diffie_hellman_comm = λ a b. ap (λ t. t ∷ []) (omega arith);
  length-expand =
      λ salt ikm info size. length-replicate size ((get_or ikm 0 0 + length info) % 256);
  expand-IsBytes = λ salt ikm info size.
      replicate-IsBytes size ((get_or ikm 0 0 + length info) % 256) (omega arith);
}

abbrev pub random_of : ℕ → ℕ → Random
random_of byte session_id = record {
  secret = byte ∷ [];
  nonce = replicate 32 byte;
  session_id = session_id;
}
