-- ===== src/Session/Server.antt =====
-- crates/gravital-talk-transport/src/session.rs: the server's side of the handshake.
-- `closed` does not change while a handshake runs: no other operation of the session runs then.
use gravital_sound.Common.{ℕ, min, bit_and, not, List, [], ◌∷◌, replicate}
use gravital_sound.Common.{Option, none, some, ok, err, ltb, ◌==◌, if◌then◌else◌}
use gravital_sound.Packet.{PacketView}
use gravital_sound.Message.ClientHello
use gravital_sound.Message.ClientHello.{ClientHello}
use gravital_sound.Message.ServerHello
use gravital_sound.Message.ServerHello.{ServerHello}
use gravital_sound.Message.KeyExchange
use gravital_sound.Message.KeyExchange.{KeyExchangeMsg}
use gravital_sound.Message.Confirm
use gravital_sound.Message.Confirm.{SessionConfirm}
use gravital_sound.MessageType.{MessageType}
use gravital_sound.Session.{Config, Transport, SocketAddr, Step, ◌>>=◌, ◌>>◌}
use gravital_sound.Session.{give, fail, get, modify, lift, timeout, handshake_failed}
use gravital_sound.Session.{authentication_failed, peer_closed}
use gravital_sound.Session.Sending.{send_control}
use gravital_sound.Session.Receiving.{Arrival, datagram, timed_out, broken}
use gravital_sound.Session.Keys.{
  KeyAgreement, build_transcript, derive_session_keys, derive_auth_tag,
}
use gravital_sound.Session.Keys.{client_label, server_label, constant_time_eq}
use gravital_sound.Session.Client.{contains_codec, awaited}

-- What the server draws at random for one handshake.
pub record Random : Type 0 where
  pub secret : List ℕ
  pub nonce : List ℕ
  pub session_id : ℕ

-- Step 3: `chosen_codec`
unfoldable pub choose_codec : List ℕ → ℕ → Option ℕ
choose_codec supported preferred =
    if contains_codec supported preferred
    then some preferred
    else elim supported [ [] ↦ none | first ∷ rest ↦ some first ]

-- Step 4: the `ServerHello`
abbrev pub server_hello_of : Config → ClientHello → List ℕ → Random → ℕ → ServerHello
server_hello_of config hello public_key random codec = record {
  ephemeral_public_key = public_key;
  server_nonce = random.nonce;
  session_id = random.session_id;
  protocol_version = min hello.protocol_version 1;
  codec_accepted = codec;
  sample_rate = hello.sample_rate;
  channels = hello.channels;
  frame_duration_ms = hello.frame_duration_ms;
  max_bitrate = min hello.max_bitrate config.max_bitrate;
  capability_flags = bit_and hello.capability_flags config.capability_flags;
}

-- What step 1 of `handshake_server` does with a datagram.
unfoldable pub hello_reply :
    List Arrival
    → Step (ClientHello × List Arrival)
    → Option PacketView
    → Step (ClientHello × List Arrival)
hello_reply rest later none = later
hello_reply rest later (some view) =
    lift (ClientHello.decode view.payload) >>= λ hello. give (hello, rest)

-- Step 1 of `handshake_server`, with the arrivals that it leaves.
unfoldable pub wait_hello : SocketAddr → List Arrival → Step (ClientHello × List Arrival)
unfolding awaited hello_reply
wait_hello peer [] = fail timeout
wait_hello peer (timed_out ∷ rest) = wait_hello peer rest
wait_hello peer (broken e ∷ rest) = fail e
wait_hello peer (datagram bytes from ∷ rest) =
    hello_reply rest (wait_hello peer rest)
      (awaited peer MessageType.handshake_client_hello bytes from)

-- Step 1 of `handshake_server_any`: the first valid hello, and its sender.
unfoldable pub wait_any : List Arrival → Step (ClientHello × SocketAddr × List Arrival)
wait_any [] s = if s.closed then fail peer_closed s else fail timeout s
wait_any (timed_out ∷ rest) s =
    let later = wait_any rest s in if s.closed then fail peer_closed s else later
wait_any (broken e ∷ rest) s = if s.closed then fail peer_closed s else fail e s
wait_any (datagram bytes from ∷ rest) s =
    let later = wait_any rest s in
    if s.closed
    then fail peer_closed s
    else elim (awaited from MessageType.handshake_client_hello bytes from) [
      | none ↦ later
      | some view ↦ elim (ClientHello.decode view.payload) [
        | err e ↦ later
        | ok hello ↦ give (hello, from, rest) s
      ]
    ]

module _ (T : Transport) (K : KeyAgreement) (now : ℕ) where
  -- What step 6 does with a datagram: a hello that comes again is answered again.
  unfoldable pub key_exchange_reply :
      SocketAddr
      → ℕ
      → List ℕ
      → Step KeyExchangeMsg
      → Option PacketView
      → Option PacketView
      → Step KeyExchangeMsg
  key_exchange_reply peer session_id sh_payload later (some view) other =
      send_control T now MessageType.handshake_server_hello session_id sh_payload peer >> later
  key_exchange_reply peer session_id sh_payload later none (some view) =
      lift (KeyExchange.decode view.payload)
  key_exchange_reply peer session_id sh_payload later none none = later

  -- Step 6: the wait for the KeyExchange.
  unfoldable pub wait_key_exchange : SocketAddr → ℕ → List ℕ → List Arrival → Step KeyExchangeMsg
  wait_key_exchange peer session_id sh_payload [] s =
      if s.closed then fail peer_closed s else fail timeout s
  wait_key_exchange peer session_id sh_payload (timed_out ∷ rest) s =
      let later = wait_key_exchange peer session_id sh_payload rest s in
      if s.closed then fail peer_closed s else later
  wait_key_exchange peer session_id sh_payload (broken e ∷ rest) s =
      if s.closed then fail peer_closed s else fail e s
  wait_key_exchange peer session_id sh_payload (datagram bytes from ∷ rest) s =
      let later = wait_key_exchange peer session_id sh_payload rest in
      if s.closed
      then fail peer_closed s
      else key_exchange_reply peer session_id sh_payload later
          (awaited peer MessageType.handshake_client_hello bytes from)
          (awaited peer MessageType.handshake_key_exchange bytes from) s

  -- Steps 6 to 9: the wait, the check of the client's tag, the confirmation, and the keys.
  unfoldable pub server_exchange :
      SocketAddr → ClientHello → Random → List ℕ → List Arrival → Step (Unit {0})
  server_exchange peer hello random sh_payload rest = do
    let shared = K.diffie_hellman random.secret hello.ephemeral_public_key
    let transcript = build_transcript hello.client_nonce random.nonce random.session_id
    let keys = derive_session_keys K shared transcript
    ke_msg ← wait_key_exchange peer random.session_id sh_payload rest
    if not (ke_msg.session_id == random.session_id)
        then fail handshake_failed
        else if not
            (constant_time_eq ke_msg.auth_tag (derive_auth_tag K keys.0 client_label transcript))
        then fail authentication_failed
        else do
          sc_payload ← lift (
              Confirm.encode
                (record {
                  session_id = random.session_id;
                  server_auth_tag = derive_auth_tag K keys.1 server_label transcript;
                })
                (replicate Confirm.size 0))
          send_control T now MessageType.handshake_session_confirm random.session_id sc_payload peer
          modify (λ s. record s { encrypt_key = some keys.1; decrypt_key = some keys.0 })

  -- Steps 4 to 9, with the chosen codec.
  unfoldable pub server_chosen :
      Config → SocketAddr → ClientHello → Random → List Arrival → Option ℕ → Step (Unit {0})
  server_chosen config peer hello random rest none = fail handshake_failed
  server_chosen config peer hello random rest (some codec) = do
    modify (λ t. record t { negotiated_codec = codec })
    sh_payload ← lift (
        ServerHello.encode (server_hello_of config hello (K.public_key random.secret) random codec)
          (replicate ServerHello.size 0))
    send_control T now MessageType.handshake_server_hello random.session_id sh_payload peer
    server_exchange peer hello random sh_payload rest

  -- The part after step 1, which `handshake_server` and `handshake_server_any` share.
  unfoldable pub server_answer : SocketAddr → ClientHello → Random → List Arrival → Step (Unit {0})
  server_answer peer hello random rest = do
    s ← get
    if ltb hello.protocol_version 1 then fail handshake_failed else do
      modify (λ t. record t { session_id = random.session_id })
      server_chosen s.config peer hello random rest
          (choose_codec (s.config).supported_codecs hello.codec_preferred)

  -- `handshake_server`
  unfoldable pub handshake_server : SocketAddr → Random → List Arrival → Step (Unit {0})
  handshake_server peer random arrivals = do
    first ← wait_hello peer arrivals
    server_answer peer first.0 random first.1

  -- `handshake_server_any`
  unfoldable pub handshake_server_any : Random → List Arrival → Step (Unit {0})
  handshake_server_any random arrivals = do
    first ← wait_any arrivals
    modify (λ s. record s { peer = some first.1 })
    server_answer first.1 first.0 random first.2
