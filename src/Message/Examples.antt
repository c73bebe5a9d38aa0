-- ===== src/Message/Examples.antt =====
-- Concrete payloads.
use gravital_sound.Common.{ℕ, ◌≡◌, List, [], ◌∷◌, replicate, ok, arith}
use gravital_sound.Message.Fec
use gravital_sound.Message.Fec.{FecHeader, decode-encode_fec, encode-decode_fec}
use gravital_sound.Message.ClientHello
use gravital_sound.Message.ClientHello.{decode-encode_client_hello}
use gravital_sound.Message.ServerHello
use gravital_sound.Message.ServerHello.{decode-encode_server_hello}
use gravital_sound.Message.KeyExchange
use gravital_sound.Message.KeyExchange.{decode-encode_key_exchange}
use gravital_sound.Message.Confirm
use gravital_sound.Message.Confirm.{decode-encode_confirm}
use gravital_sound.Message.AuthResponse
use gravital_sound.Message.AuthResponse.{decode-encode_response}

abbrev fec : FecHeader
fec = record { seq_base = 8; window = 4; data_len = 160 }

abbrev fec_bytes : List ℕ
fec_bytes = 0 ∷ 0 ∷ 0 ∷ 8 ∷ 4 ∷ 0 ∷ 0 ∷ 0 ∷ 160 ∷ []

test_fec_bytes :
    (out : List ℕ) × (Fec.encode fec (replicate 9 0) ≡ ok out) × (Fec.decode out ≡ ok fec)
test_fec_bytes = decode-encode_fec fec (replicate 9 0) (omega arith) (omega arith)

abbrev client_hello : ClientHello.ClientHello
client_hello = record {
  ephemeral_public_key = replicate 32 200;
  client_nonce = replicate 32 7;
  protocol_version = 1;
  codec_preferred = 2;
  sample_rate = 48000;
  channels = 1;
  frame_duration_ms = 20;
  max_bitrate = 64000;
  capability_flags = 3;
}

abbrev server_hello : ServerHello.ServerHello
server_hello = record {
  ephemeral_public_key = replicate 32 200;
  server_nonce = replicate 32 7;
  session_id = 99;
  protocol_version = 1;
  codec_accepted = 2;
  sample_rate = 48000;
  channels = 1;
  frame_duration_ms = 20;
  max_bitrate = 64000;
  capability_flags = 3;
}

decode-encode_server_hello_example :
    (out : List ℕ) × (ServerHello.encode server_hello (replicate 84 0) ≡ ok out)
    × (ServerHello.decode out ≡ ok server_hello)
decode-encode_server_hello_example =
    decode-encode_server_hello server_hello (replicate 84 0) (omega arith) (omega arith)

abbrev key_exchange : KeyExchange.KeyExchangeMsg
key_exchange = record { session_id = 5; auth_tag = replicate 16 200 }

test_key_exchange_bytes :
    (out : List ℕ) × (KeyExchange.encode key_exchange (replicate 20 0) ≡ ok out)
    × (KeyExchange.decode out ≡ ok key_exchange)
test_key_exchange_bytes =
    decode-encode_key_exchange key_exchange (replicate 20 0) (omega arith) (omega arith)

abbrev confirm : Confirm.SessionConfirm
confirm = record { session_id = 5; server_auth_tag = replicate 16 200 }

test_confirm_bytes :
    (out : List ℕ) × (Confirm.encode confirm (replicate 20 0) ≡ ok out)
    × (Confirm.decode out ≡ ok confirm)
test_confirm_bytes = decode-encode_confirm confirm (replicate 20 0) (omega arith) (omega arith)

abbrev response : AuthResponse.AuthResponseMsg
response = record { public_key = replicate 32 200; signature = replicate 64 200 }

test_response_bytes :
    (out : List ℕ) × (AuthResponse.encode response (replicate 96 0) ≡ ok out)
    × (AuthResponse.decode out ≡ ok response)
test_response_bytes = decode-encode_response response (replicate 96 0) (omega arith) (omega arith)
