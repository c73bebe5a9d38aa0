-- ===== src/Session/ClientSide.antt =====
-- crates/gravital-talk-transport/src/session.rs: the client's run of a handshake without loss.
use gravital_sound.Common.{
  ℕ, ◌≤◌, ◌≡◌, sym, arith, List, [], ◌∷◌, length, take, replicate, true, some, ok, bit_xor,
}
use gravital_sound.Wire.{from_be_bytes}
use gravital_sound.Packet.{PacketView}
use gravital_sound.Message.ClientHello
use gravital_sound.Message.ServerHello
use gravital_sound.Message.ServerHello.{ServerHello}
use gravital_sound.Message.KeyExchange
use gravital_sound.Message.KeyExchange.{KeyExchangeMsg}
use gravital_sound.Message.Confirm
use gravital_sound.Message.Confirm.{SessionConfirm}
use gravital_sound.MessageType.{MessageType}
use gravital_sound.Crypto.{SessionKey}
use gravital_sound.Session.{Session, Transport, SocketAddr}
use gravital_sound.Session.Receiving.{Arrival, datagram}
use gravital_sound.Session.Keys.{
  KeyAgreement, build_transcript, derive_session_keys, derive_auth_tag,
}
use gravital_sound.Session.Keys.{client_label, server_label, constant_time_eq}
use gravital_sound.Session.Client.{
  contains_codec, awaited, confirm_reply, recv_session_confirm, client_hello_of, client_exchange,
  client_accept, client_reply, client_loop, handshake_client,
}
use gravital_sound.Session.Sent.{
  Accepts, datagram_of, after_datagram, after_sequence, control_header, send_control_lem,
}
use gravital_sound.Session.Control.{==_self}

-- The session after a control message.
abbrev pub after_control : Session → ℕ → MessageType → ℕ → List ℕ → SocketAddr → Session
after_control s now msg session_id payload peer =
    after_datagram (after_sequence s) peer
      (datagram_of (control_header s now msg session_id) payload)

-- What both sides compute of the shared secret and the two nonces.
abbrev pub transcript_of : List ℕ → ServerHello → List ℕ
transcript_of client_nonce hello = build_transcript client_nonce hello.server_nonce hello.session_id

abbrev pub client_keys : KeyAgreement → List ℕ → List ℕ → ServerHello → SessionKey × SessionKey
client_keys K secret client_nonce hello =
    derive_session_keys K (K.diffie_hellman secret hello.ephemeral_public_key)
      (transcript_of client_nonce hello)

-- Step 7 of `handshake_client`
abbrev pub after_client : Session → ServerHello → SessionKey × SessionKey → Session
after_client s hello keys = record s {
  session_id = hello.session_id;
  local_ssrc = bit_xor hello.session_id (from_be_bytes (take 4 keys.0));
  negotiated_codec = hello.codec_accepted;
  encrypt_key = some keys.0;
  decrypt_key = some keys.1;
}

pub recv_session_confirm_lem :
    (peer : SocketAddr) (sid : ℕ) (bytes : List ℕ) (view : PacketView) (confirm : SessionConfirm)
    → (s : Session) → awaited peer MessageType.handshake_session_confirm bytes peer ≡ some view
    → Confirm.decode view.payload ≡ ok confirm
    → confirm.session_id ≡ sid
    → recv_session_confirm peer sid (datagram bytes peer ∷ []) s ≡ (s, ok confirm)
unfolding recv_session_confirm confirm_reply
recv_session_confirm_lem peer sid bytes view confirm s a d i =
    rw (a, d, sym i, ==_self confirm.session_id)

pub client_exchange_lem :
    (T : Transport) (K : KeyAgreement) (now : ℕ) (peer : SocketAddr) (secret client_nonce : List ℕ)
    → (hello : ServerHello) (ke_payload bytes : List ℕ) (confirm : SessionConfirm) (s : Session)
    → Accepts T
    → KeyExchange.encode
        (record {
          session_id = hello.session_id;
          auth_tag =
              derive_auth_tag K
                (client_keys K secret client_nonce hello).0
                client_label
                (transcript_of client_nonce hello);
        })
        (replicate KeyExchange.size 0)
      ≡ ok ke_payload
    → length ke_payload ≡ 20
    → 48 ≤ (s.config).mtu
    → ((t : Session)
        → recv_session_confirm peer hello.session_id (datagram bytes peer ∷ []) t ≡ (t, ok confirm))
    → constant_time_eq confirm.server_auth_tag (
        derive_auth_tag K
          (client_keys K secret client_nonce hello).1
          server_label
          (transcript_of client_nonce hello))
      ≡ true
    → client_exchange T K now peer secret client_nonce hello (datagram bytes peer ∷ []) s ≡ (
      after_client
          (after_control s now MessageType.handshake_key_exchange hello.session_id ke_payload peer)
          hello
          (client_keys K secret client_nonce hello),
      ok tt,
    )
unfolding client_exchange
client_exchange_lem T K now peer secret client_nonce hello ke_payload bytes confirm s accepts e l
      room received tag =
    rw (
      e,
      send_control_lem T now MessageType.handshake_key_exchange hello.session_id ke_payload peer s
          accepts (omega (arith, l)) (omega (arith, l)),
      received
          (after_control s now MessageType.handshake_key_exchange hello.session_id ke_payload peer),
      tag,
    )

client_accept_lem :
    (T : Transport) (K : KeyAgreement) (now : ℕ) (peer : SocketAddr) (secret client_nonce : List ℕ)
    → (view : PacketView) (hello : ServerHello) (rest : List Arrival) (s : Session)
    → ServerHello.decode view.payload ≡ ok hello
    → hello.protocol_version ≡ 1
    → contains_codec (s.config).supported_codecs hello.codec_accepted ≡ true
    → client_accept T K now peer secret client_nonce view rest s
      ≡ client_exchange T K now peer secret client_nonce hello rest s
unfolding client_accept
client_accept_lem T K now peer secret client_nonce view hello rest s d v c = simp (d, v, c)

-- The client whose hello is answered by `hello` and then by a confirmation.
pub handshake_client_lem :
    (T : Transport) (K : KeyAgreement) (now : ℕ) (peer : SocketAddr) (secret client_nonce : List ℕ)
    → (hello_payload first : List ℕ) (view : PacketView) (hello : ServerHello)
    → (rest : List Arrival) (s : Session) → Accepts T
    → ClientHello.encode
        (client_hello_of s.config (K.public_key secret) client_nonce)
        (replicate ClientHello.size 0)
      ≡ ok hello_payload
    → length hello_payload ≡ 80
    → 108 ≤ (s.config).mtu
    → awaited peer MessageType.handshake_server_hello first peer ≡ some view
    → ServerHello.decode view.payload ≡ ok hello
    → hello.protocol_version ≡ 1
    → contains_codec (s.config).supported_codecs hello.codec_accepted ≡ true
    → handshake_client T K now peer secret client_nonce (datagram first peer ∷ rest) s
      ≡ client_exchange T K now peer secret client_nonce hello rest
          (after_control s now MessageType.handshake_client_hello 0 hello_payload peer)
unfolding handshake_client client_loop client_reply
handshake_client_lem T K now peer secret client_nonce hello_payload first view hello rest s accepts
      e l room a d v c =
    rw
      (
        e,
        send_control_lem T now MessageType.handshake_client_hello 0 hello_payload peer s accepts
            (omega (arith, l)) (omega (arith, l)),
        a,
      )
      (client_accept_lem T K now peer secret client_nonce view hello rest
        (after_control s now MessageType.handshake_client_hello 0 hello_payload peer) d v c)
