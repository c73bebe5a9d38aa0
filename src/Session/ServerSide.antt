-- ===== src/Session/ServerSide.antt =====
-- crates/gravital-talk-transport/src/session.rs: the server's run of a handshake without loss.
use gravital_sound.Common.{
  ℕ, ◌≤◌, ◌≡◌, arith, List, [], ◌∷◌, length, replicate, true, false, ltb, ◌==◌, none, some, ok,
}
use gravital_sound.Packet.{PacketView}
use gravital_sound.Message.ClientHello
use gravital_sound.Message.ClientHello.{ClientHello}
use gravital_sound.Message.ServerHello
use gravital_sound.Message.KeyExchange
use gravital_sound.Message.KeyExchange.{KeyExchangeMsg}
use gravital_sound.Message.Confirm
use gravital_sound.MessageType.{MessageType}
use gravital_sound.Crypto.{SessionKey}
use gravital_sound.Session.{Session, Transport, SocketAddr}
use gravital_sound.Session.Receiving.{Arrival, datagram}
use gravital_sound.Session.Keys.{
  KeyAgreement, build_transcript, derive_session_keys, derive_auth_tag,
}
use gravital_sound.Session.Keys.{client_label, server_label, constant_time_eq}
use gravital_sound.Session.Client.{awaited}
use gravital_sound.Session.Server.{
  Random, choose_codec, server_hello_of, hello_reply, wait_hello, key_exchange_reply,
  wait_key_exchange, server_exchange, server_chosen, server_answer, handshake_server,
}
use gravital_sound.Session.Sent.{Accepts, send_control_lem}
use gravital_sound.Session.ClientSide.{after_control}

abbrev pub server_transcript : ClientHello → Random → List ℕ
server_transcript hello random = build_transcript hello.client_nonce random.nonce random.session_id

abbrev pub server_keys : KeyAgreement → ClientHello → Random → SessionKey × SessionKey
server_keys K hello random =
    derive_session_keys K (K.diffie_hellman random.secret hello.ephemeral_public_key)
      (server_transcript hello random)

-- Step 9 of `handshake_server`
abbrev pub after_server : Session → SessionKey × SessionKey → Session
after_server s keys = record s { encrypt_key = some keys.1; decrypt_key = some keys.0 }

-- The session before the answer.
abbrev pub before_answer : Session → Random → ℕ → Session
before_answer s random codec = record s { session_id = random.session_id; negotiated_codec = codec }

wait_key_exchange_lem :
    (T : Transport) (K : KeyAgreement) (now : ℕ) (peer : SocketAddr) (sid : ℕ)
    (sh_payload bytes : List ℕ)
    → (view : PacketView) (ke : KeyExchangeMsg) (s : Session) → s.closed ≡ false
    → awaited peer MessageType.handshake_client_hello bytes peer ≡ none
    → awaited peer MessageType.handshake_key_exchange bytes peer ≡ some view
    → KeyExchange.decode view.payload ≡ ok ke
    → wait_key_exchange T K now peer sid sh_payload (datagram bytes peer ∷ []) s ≡ (s, ok ke)
unfolding wait_key_exchange key_exchange_reply
wait_key_exchange_lem T K now peer sid sh_payload bytes view ke s closed_not n a d =
    simp (closed_not, n, a, d)

pub server_exchange_lem :
    (T : Transport) (K : KeyAgreement) (now : ℕ) (peer : SocketAddr) (hello : ClientHello)
    → (random : Random) (sh_payload bytes sc_payload : List ℕ) (view : PacketView)
    → (ke : KeyExchangeMsg) (s : Session) → Accepts T
    → s.closed ≡ false
    → awaited peer MessageType.handshake_client_hello bytes peer ≡ none
    → awaited peer MessageType.handshake_key_exchange bytes peer ≡ some view
    → KeyExchange.decode view.payload ≡ ok ke
    → (ke.session_id == random.session_id) ≡ true
    → constant_time_eq ke.auth_tag (
        derive_auth_tag K
          (server_keys K hello random).0
          client_label
          (server_transcript hello random))
      ≡ true
    → Confirm.encode
        (record {
          session_id = random.session_id;
          server_auth_tag =
              derive_auth_tag K
                (server_keys K hello random).1
                server_label
                (server_transcript hello random);
        })
        (replicate Confirm.size 0)
      ≡ ok sc_payload
    → length sc_payload ≡ 20
    → 48 ≤ (s.config).mtu
    → server_exchange T K now peer hello random sh_payload (datagram bytes peer ∷ []) s ≡ (
      after_server
          (after_control s now MessageType.handshake_session_confirm random.session_id sc_payload
            peer)
          (server_keys K hello random),
      ok tt,
    )
unfolding server_exchange
server_exchange_lem T K now peer hello random sh_payload bytes sc_payload view ke s accepts
      closed_not n a d i tag e l room =
    rw (
      wait_key_exchange_lem T K now peer random.session_id sh_payload bytes view ke s closed_not n a
          d,
      i,
      tag,
      e,
      send_control_lem T now MessageType.handshake_session_confirm random.session_id sc_payload peer
          s accepts (omega (arith, l)) (omega (arith, l)),
    )

wait_hello_lem :
    (peer : SocketAddr) (bytes : List ℕ) (view : PacketView) (hello : ClientHello)
    → (rest : List Arrival) (s : Session)
    → awaited peer MessageType.handshake_client_hello bytes peer ≡ some view
    → ClientHello.decode view.payload ≡ ok hello
    → wait_hello peer (datagram bytes peer ∷ rest) s ≡ (s, ok (hello, rest))
unfolding wait_hello hello_reply
wait_hello_lem peer bytes view hello rest s a d = rw (a, d)

-- The server that gets `hello` answers with its own hello and goes on with the exchange.
pub handshake_server_lem :
    (T : Transport) (K : KeyAgreement) (now : ℕ) (peer : SocketAddr) (random : Random)
    → (bytes sh_payload : List ℕ) (view : PacketView) (hello : ClientHello) (codec : ℕ)
    → (rest : List Arrival) (s : Session) → Accepts T
    → awaited peer MessageType.handshake_client_hello bytes peer ≡ some view
    → ClientHello.decode view.payload ≡ ok hello
    → ltb hello.protocol_version 1 ≡ false
    → choose_codec (s.config).supported_codecs hello.codec_preferred ≡ some codec
    → ServerHello.encode
        (server_hello_of s.config hello (K.public_key random.secret) random codec)
        (replicate ServerHello.size 0)
      ≡ ok sh_payload
    → length sh_payload ≡ 84
    → 112 ≤ (s.config).mtu
    → handshake_server T K now peer random (datagram bytes peer ∷ rest) s
      ≡ server_exchange T K now peer hello random sh_payload rest (
          after_control
            (before_answer s random codec)
            now
            MessageType.handshake_server_hello
            random.session_id
            sh_payload
            peer)
unfolding handshake_server server_answer server_chosen
handshake_server_lem T K now peer random bytes sh_payload view hello codec rest s accepts a d v c e
      l room =
    rw (
      wait_hello_lem peer bytes view hello rest s a d,
      v,
      c,
      e,
      send_control_lem T now MessageType.handshake_server_hello random.session_id sh_payload peer
          (before_answer s random codec) accepts (omega (arith, l)) (omega (arith, l)),
    )
