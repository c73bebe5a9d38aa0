-- ===== src/Session/Client.antt =====
-- crates/gravital-talk-transport/src/session.rs: the client's side of the handshake.
use gravital_sound.Common.{
  ℕ, ◌+◌, ◌-◌, ◌^◌, min, bit_xor, Bool, false, not, ◌||◌, List, [], ◌∷◌, take, replicate,
}
use gravital_sound.Common.{Option, none, some, ok, err, ltb, ◌==◌, if◌then◌else◌}
use gravital_sound.Wire.{from_be_bytes}
use gravital_sound.Packet
use gravital_sound.Packet.{PacketView}
use gravital_sound.Message.ClientHello
use gravital_sound.Message.ClientHello.{ClientHello}
use gravital_sound.Message.ServerHello
use gravital_sound.Message.ServerHello.{ServerHello}
use gravital_sound.Message.KeyExchange
use gravital_sound.Message.KeyExchange.{KeyExchangeMsg}
use gravital_sound.Message.Confirm
use gravital_sound.Message.Confirm.{SessionConfirm}
use gravital_sound.MessageType
use gravital_sound.MessageType.{MessageType}
use gravital_sound.Session.{Config, Transport, SocketAddr, Step, ◌>>=◌, ◌>>◌}
use gravital_sound.Session.{
  give, fail, get, modify, lift, timeout, handshake_failed, authentication_failed,
}
use gravital_sound.Session.Sending.{send_control}
use gravital_sound.Session.Receiving.{Arrival, datagram, timed_out, broken}
use gravital_sound.Session.Keys.{
  KeyAgreement, build_transcript, derive_session_keys, derive_auth_tag,
}
use gravital_sound.Session.Keys.{client_label, server_label, constant_time_eq}

-- `supported_codecs.contains(&codec)`
unfoldable pub contains_codec : List ℕ → ℕ → Bool
contains_codec [] codec = false
contains_codec (c ∷ cs) codec = (c == codec) || contains_codec cs codec

-- What a wait of the handshake does with a datagram: a packet of the awaited type from the peer,
-- or nothing.
unfoldable pub awaited : SocketAddr → MessageType → List ℕ → SocketAddr → Option PacketView
awaited peer msg bytes from = if not (from == peer) then none else elim (Packet.decode bytes) [
  | err e ↦ none
  | ok view ↦ if (view.header).msg_type == MessageType.code msg then some view else none
]

-- What `recv_session_confirm` does with a datagram: it takes a confirmation, and waits on otherwise.
unfoldable pub confirm_reply : ℕ → Step SessionConfirm → Option PacketView → Step SessionConfirm
confirm_reply expected_sid later none = later
confirm_reply expected_sid later (some view) = do
  confirm ← lift (Confirm.decode view.payload)
  if not (confirm.session_id == expected_sid) then fail handshake_failed else give confirm

-- `recv_session_confirm`; nothing more arrives before the deadline of the handshake: `timeout`.
unfoldable pub recv_session_confirm : SocketAddr → ℕ → List Arrival → Step SessionConfirm
unfolding awaited confirm_reply
recv_session_confirm peer expected_sid [] = fail timeout
recv_session_confirm peer expected_sid (timed_out ∷ rest) =
    recv_session_confirm peer expected_sid rest
recv_session_confirm peer expected_sid (broken e ∷ rest) = fail e
recv_session_confirm peer expected_sid (datagram bytes from ∷ rest) =
    confirm_reply expected_sid (recv_session_confirm peer expected_sid rest)
      (awaited peer MessageType.handshake_session_confirm bytes from)

-- The `ClientHello` that `handshake_client` sends.
abbrev pub client_hello_of : Config → List ℕ → List ℕ → ClientHello
client_hello_of config public_key client_nonce = record {
  ephemeral_public_key = public_key;
  client_nonce = client_nonce;
  protocol_version = 1;
  codec_preferred = config.codec_preferred;
  sample_rate = config.sample_rate;
  channels = config.channels;
  frame_duration_ms = config.frame_duration_ms;
  max_bitrate = config.max_bitrate;
  capability_flags = config.capability_flags;
}

module _ (T : Transport) (K : KeyAgreement) (now : ℕ) where
  -- Steps 3 to 7 of `handshake_client`, with the server's hello.
  unfoldable pub client_exchange :
      SocketAddr → List ℕ → List ℕ → ServerHello → List Arrival → Step (Unit {0})
  client_exchange peer secret client_nonce hello rest = do
    let shared = K.diffie_hellman secret hello.ephemeral_public_key
    let transcript = build_transcript client_nonce hello.server_nonce hello.session_id
    let keys = derive_session_keys K shared transcript
    ke_payload ← lift (
        KeyExchange.encode
          (record {
            session_id = hello.session_id;
            auth_tag = derive_auth_tag K keys.0 client_label transcript;
          })
          (replicate KeyExchange.size 0))
    send_control T now MessageType.handshake_key_exchange hello.session_id ke_payload peer
    confirm ← recv_session_confirm peer hello.session_id rest
    if not (
          constant_time_eq confirm.server_auth_tag
            (derive_auth_tag K keys.1 server_label transcript))
        then fail authentication_failed
        else modify (λ s. record s {
          session_id = hello.session_id;
          local_ssrc = bit_xor hello.session_id (from_be_bytes (take 4 keys.0));
          negotiated_codec = hello.codec_accepted;
          encrypt_key = some keys.0;
          decrypt_key = some keys.1;
        })

  -- Step 2 of `handshake_client` and the validation of what the server chose.
  unfoldable pub client_accept :
      SocketAddr → List ℕ → List ℕ → PacketView → List Arrival → Step (Unit {0})
  client_accept peer secret client_nonce view rest = do
    hello ← lift (ServerHello.decode view.payload)
    s ← get
    if ltb hello.protocol_version 1 || ltb 1 hello.protocol_version
        then fail handshake_failed
        else if not (contains_codec (s.config).supported_codecs hello.codec_accepted)
        then fail handshake_failed
        else client_exchange peer secret client_nonce hello rest

  -- A datagram in the loop: the server's hello is taken, and the next round follows otherwise.
  unfoldable pub client_reply :
      SocketAddr
      → List ℕ
      → List ℕ
      → List Arrival
      → Step (Unit {0})
      → Option PacketView
      → Step (Unit {0})
  client_reply peer secret client_nonce rest again none = again
  client_reply peer secret client_nonce rest again (some view) =
      client_accept peer secret client_nonce view rest

  -- The loop of `handshake_client`: the hello goes out before each wait. A wait that ends without
  -- a datagram ends the loop after seven attempts. No arrival before the deadline: `timeout`.
  unfoldable pub client_loop :
      SocketAddr → List ℕ → List ℕ → List ℕ → ℕ → List Arrival → Step (Unit {0})
  client_loop peer secret client_nonce hello_payload attempt [] =
      send_control T now MessageType.handshake_client_hello 0 hello_payload peer >> fail timeout
  client_loop peer secret client_nonce hello_payload attempt (datagram bytes from ∷ rest) =
      let again =
        client_loop peer secret client_nonce hello_payload (min (attempt + 1) (2 ^ 32 - 1)) rest in
      send_control T now MessageType.handshake_client_hello 0 hello_payload peer
      >> client_reply peer secret client_nonce rest again
          (awaited peer MessageType.handshake_server_hello bytes from)
  client_loop peer secret client_nonce hello_payload attempt (timed_out ∷ rest) =
      let again =
        client_loop peer secret client_nonce hello_payload (min (attempt + 1) (2 ^ 32 - 1)) rest in
      send_control T now MessageType.handshake_client_hello 0 hello_payload peer
      >> (if ltb 6 (min (attempt + 1) (2 ^ 32 - 1)) then fail handshake_failed else again)
  client_loop peer secret client_nonce hello_payload attempt (broken e ∷ rest) =
      let again =
        client_loop peer secret client_nonce hello_payload (min (attempt + 1) (2 ^ 32 - 1)) rest in
      send_control T now MessageType.handshake_client_hello 0 hello_payload peer
      >> (if ltb 6 (min (attempt + 1) (2 ^ 32 - 1)) then fail handshake_failed else again)

  -- `handshake_client`, with the random secret and nonce.
  unfoldable pub handshake_client : SocketAddr → List ℕ → List ℕ → List Arrival → Step (Unit {0})
  handshake_client peer secret client_nonce arrivals = do
    s ← get
    hello_payload ← lift (
        ClientHello.encode (client_hello_of s.config (K.public_key secret) client_nonce)
          (replicate ClientHello.size 0))
    client_loop peer secret client_nonce hello_payload 0 arrivals
