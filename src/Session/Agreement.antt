-- ===== src/Session/Agreement.antt =====
-- crates/gravital-talk-transport/src/session.rs: a handshake without loss, both sides together.
use gravital_sound.Common.{
  ℕ, ◌^◌, ◌≤◌, ◌<◌, ◌≡◌, refl, sym, ap, subst, ◌∙◌, arith, List, [], ◌∷◌, length, replicate, true,
  false, ◌==◌, none, some, ok,
}
use gravital_sound.Common.Ors.{bit_and-le}
use gravital_sound.Wire.{IsBytes, bytes_of}
use gravital_sound.Message.ClientHello
use gravital_sound.Message.ClientHello.{ClientHello}
use gravital_sound.Message.ServerHello
use gravital_sound.Message.ServerHello.{ServerHello}
use gravital_sound.Message.KeyExchange
use gravital_sound.Message.KeyExchange.{KeyExchangeMsg}
use gravital_sound.Message.Confirm
use gravital_sound.Message.Confirm.{SessionConfirm}
use gravital_sound.MessageType
use gravital_sound.MessageType.{MessageType}
use gravital_sound.Crypto.{SessionKey}
use gravital_sound.Session.{Config, Session, Transport, SocketAddr}
use gravital_sound.Session.Receiving.{datagram}
use gravital_sound.Session.Keys.{
  KeyAgreement, derive_session_keys, derive_auth_tag, client_label, server_label, constant_time_eq,
}
use gravital_sound.Session.Client.{contains_codec, client_hello_of, handshake_client}
use gravital_sound.Session.Server.{Random, choose_codec, server_hello_of, handshake_server}
use gravital_sound.Session.Sent.{Accepts, datagram_of, control_header}
use gravital_sound.Session.Tags.{constant_time_eq_iff}
use gravital_sound.Session.Payloads.{
  client_hello-IsEncoded, server_hello-IsEncoded, key_exchange-IsEncoded, confirm-IsEncoded,
}
use gravital_sound.Session.Control.{CanControl, awaited_lem, awaited_other, ==_self}
use gravital_sound.Session.ClientSide.{
  after_control, after_client, client_keys, transcript_of, recv_session_confirm_lem,
  client_exchange_lem, handshake_client_lem,
}
use gravital_sound.Session.ServerSide.{
  after_server, before_answer, server_keys, server_exchange_lem, handshake_server_lem,
}

-- The values of a configuration fit their types.
pub record Fits (config : Config) : Type 0 where
  pub sample_rate_lt : config.sample_rate < 2 ^ 32
  pub channels_lt : config.channels < 256
  pub frame_duration_ms_lt : config.frame_duration_ms < 256
  pub max_bitrate_lt : config.max_bitrate < 2 ^ 32
  pub codec_preferred_lt : config.codec_preferred < 256
  pub capability_flags_lt : config.capability_flags < 2 ^ 32

-- A client and a server that are able to agree.
pub record CanAgree (c s : Session) (ours theirs : Random) (now later codec : ℕ) : Type 0 where
  pub config_fits : Fits c.config
  pub client_mtu : 112 ≤ (c.config).mtu
  pub server_mtu : 112 ≤ (s.config).mtu
  pub client_sequence_lt : c.tx_sequence < 2 ^ 32
  pub server_sequence_lt : s.tx_sequence < 2 ^ 32
  pub now_lt : now < 2 ^ 64
  pub later_lt : later < 2 ^ 64
  pub session_id_lt : theirs.session_id < 2 ^ 32
  pub client_nonce_length : length ours.nonce ≡ 32
  pub client_nonce_bytes : IsBytes ours.nonce
  pub server_nonce_length : length theirs.nonce ≡ 32
  pub server_nonce_bytes : IsBytes theirs.nonce
  pub server_open : s.closed ≡ false
  pub codec_chosen :
      choose_codec (s.config).supported_codecs (c.config).codec_preferred ≡ some codec
  pub codec_lt : codec < 256
  pub codec_supported : contains_codec (c.config).supported_codecs codec ≡ true

differ :
    (MessageType.code MessageType.handshake_key_exchange
      == MessageType.code MessageType.handshake_client_hello)
    ≡ false
unfolding MessageType.code
differ = refl

module _ (K : KeyAgreement) (c s : Session) (ours theirs : Random) (now later codec : ℕ)
    (client_addr server_addr : SocketAddr) where
  abbrev pub hello : ClientHello
  hello = client_hello_of c.config (K.public_key ours.secret) ours.nonce

  abbrev pub answer : ServerHello
  answer = server_hello_of s.config hello (K.public_key theirs.secret) theirs codec

  abbrev pub keys : SessionKey × SessionKey
  keys = client_keys K ours.secret ours.nonce answer

  abbrev pub key_exchange : KeyExchangeMsg
  key_exchange = record {
    session_id = theirs.session_id;
    auth_tag = derive_auth_tag K keys.0 client_label (transcript_of ours.nonce answer);
  }

  abbrev pub confirm : SessionConfirm
  confirm = record {
    session_id = theirs.session_id;
    server_auth_tag = derive_auth_tag K keys.1 server_label (transcript_of ours.nonce answer);
  }

  -- The client after its hello, the server before and after its answer.
  abbrev pub client_1 : Session
  client_1 =
      after_control c now MessageType.handshake_client_hello 0 (bytes_of (ClientHello.fields hello))
        server_addr

  abbrev pub server_0 : Session
  server_0 = before_answer s theirs codec

  abbrev pub server_1 : Session
  server_1 =
      after_control server_0 later MessageType.handshake_server_hello theirs.session_id
        (bytes_of (ServerHello.fields answer)) client_addr

  abbrev pub datagram_1 : List ℕ
  datagram_1 =
      datagram_of (control_header c now MessageType.handshake_client_hello 0)
        (bytes_of (ClientHello.fields hello))

  abbrev pub datagram_2 : List ℕ
  datagram_2 =
      datagram_of
        (control_header server_0 later MessageType.handshake_server_hello theirs.session_id)
        (bytes_of (ServerHello.fields answer))

  abbrev pub datagram_3 : List ℕ
  datagram_3 =
      datagram_of (control_header client_1 now MessageType.handshake_key_exchange theirs.session_id)
        (bytes_of (KeyExchange.fields key_exchange))

  abbrev pub datagram_4 : List ℕ
  datagram_4 =
      datagram_of
        (control_header server_1 later MessageType.handshake_session_confirm theirs.session_id)
        (bytes_of (Confirm.fields confirm))

  abbrev pub confirmed : Session
  confirmed =
      after_control server_1 later MessageType.handshake_session_confirm theirs.session_id
        (bytes_of (Confirm.fields confirm)) client_addr

  abbrev pub client_end : Session
  client_end =
      after_client
        (after_control client_1 now MessageType.handshake_key_exchange theirs.session_id
          (bytes_of (KeyExchange.fields key_exchange)) server_addr)
        answer keys

  abbrev pub server_end : Session
  server_end = after_server confirmed keys

  module _ (can : CanAgree c s ours theirs now later codec) where
    hello-IsValid : ClientHello.IsValid hello
    hello-IsValid = record {
      ephemeral_public_key_length = K.length-public_key ours.secret;
      ephemeral_public_key_bytes = K.public_key-IsBytes ours.secret;
      client_nonce_length = can.client_nonce_length;
      client_nonce_bytes = can.client_nonce_bytes;
      protocol_version_lt = omega arith;
      codec_preferred_lt = (can.config_fits).codec_preferred_lt;
      sample_rate_lt = (can.config_fits).sample_rate_lt;
      channels_lt = (can.config_fits).channels_lt;
      frame_duration_ms_lt = (can.config_fits).frame_duration_ms_lt;
      max_bitrate_lt = (can.config_fits).max_bitrate_lt;
      capability_flags_lt = (can.config_fits).capability_flags_lt;
    }

    answer-IsValid : ServerHello.IsValid answer
    answer-IsValid = record {
      ephemeral_public_key_length = K.length-public_key theirs.secret;
      ephemeral_public_key_bytes = K.public_key-IsBytes theirs.secret;
      server_nonce_length = can.server_nonce_length;
      server_nonce_bytes = can.server_nonce_bytes;
      session_id_lt = can.session_id_lt;
      protocol_version_lt = omega arith;
      codec_accepted_lt = can.codec_lt;
      sample_rate_lt = (can.config_fits).sample_rate_lt;
      channels_lt = (can.config_fits).channels_lt;
      frame_duration_ms_lt = (can.config_fits).frame_duration_ms_lt;
      max_bitrate_lt = omega (arith, (can.config_fits).max_bitrate_lt);
      capability_flags_lt = omega (
        arith,
        (can.config_fits).capability_flags_lt,
        bit_and-le (c.config).capability_flags (s.config).capability_flags,
      );
    }

    key_exchange-IsValid : KeyExchange.IsValid key_exchange
    unfolding derive_auth_tag
    key_exchange-IsValid = record {
      session_id_lt = can.session_id_lt;
      auth_tag_length = K.length-expand none keys.0 _ 16;
      auth_tag_bytes = K.expand-IsBytes none keys.0 _ 16;
    }

    confirm-IsValid : Confirm.IsValid confirm
    unfolding derive_auth_tag
    confirm-IsValid = record {
      session_id_lt = can.session_id_lt;
      server_auth_tag_length = K.length-expand none keys.1 _ 16;
      server_auth_tag_bytes = K.expand-IsBytes none keys.1 _ 16;
    }

    -- Both sides derive the same keys.
    same_keys : server_keys K hello theirs ≡ keys
    same_keys =
        ap (λ d. derive_session_keys K d (transcript_of ours.nonce answer))
          (K.diffie_hellman_comm theirs.secret ours.secret)

    hello_control : CanControl c now MessageType.handshake_client_hello 0
    unfolding MessageType.code
    hello_control = record {
      code_lt = omega arith;
      session_id_lt = omega arith;
      sequence_lt = can.client_sequence_lt;
      now_lt = can.now_lt;
    }

    answer_control : CanControl server_0 later MessageType.handshake_server_hello theirs.session_id
    unfolding MessageType.code
    answer_control = record {
      code_lt = omega arith;
      session_id_lt = can.session_id_lt;
      sequence_lt = can.server_sequence_lt;
      now_lt = can.later_lt;
    }

    key_exchange_control :
        CanControl client_1 now MessageType.handshake_key_exchange theirs.session_id
    unfolding MessageType.code
    key_exchange_control = record {
      code_lt = omega arith;
      session_id_lt = can.session_id_lt;
      sequence_lt = omega arith;
      now_lt = can.now_lt;
    }

    confirm_control :
        CanControl server_1 later MessageType.handshake_session_confirm theirs.session_id
    unfolding MessageType.code
    confirm_control = record {
      code_lt = omega arith;
      session_id_lt = can.session_id_lt;
      sequence_lt = omega arith;
      now_lt = can.later_lt;
    }

    module _ (T : Transport) (accepts : Accepts T) where
      pub client_run :
          handshake_client T K now server_addr ours.secret ours.nonce
            (datagram datagram_2 server_addr ∷ datagram datagram_4 server_addr ∷ [])
            c
          ≡ (client_end, ok tt)
      client_run =
          let first = client_hello-IsEncoded hello hello-IsValid in
          let second = server_hello-IsEncoded answer answer-IsValid in
          let third = key_exchange-IsEncoded key_exchange key_exchange-IsValid in
          let fourth = confirm-IsEncoded confirm confirm-IsValid in
          handshake_client_lem T K now server_addr ours.secret ours.nonce
            (bytes_of (ClientHello.fields hello)) datagram_2 _ answer
            (datagram datagram_4 server_addr ∷ []) c accepts first.0 first.1.length_is
            (omega (arith, can.client_mtu))
            (awaited_lem server_0 later MessageType.handshake_server_hello theirs.session_id
              (bytes_of (ServerHello.fields answer)) server_addr answer_control second.1.bytes
              (omega (arith, second.1.length_is)))
            second.1.decoded refl can.codec_supported
          ∙ client_exchange_lem T K now server_addr ours.secret ours.nonce answer
              (bytes_of (KeyExchange.fields key_exchange)) datagram_4 confirm client_1 accepts
              third.0 third.1.length_is (omega (arith, can.client_mtu))
              (λ t.
                recv_session_confirm_lem server_addr theirs.session_id datagram_4 _ confirm t
                  (awaited_lem server_1 later MessageType.handshake_session_confirm
                    theirs.session_id (bytes_of (Confirm.fields confirm)) server_addr
                    confirm_control fourth.1.bytes (omega (arith, fourth.1.length_is)))
                  fourth.1.decoded refl)
              ((constant_time_eq_iff confirm.server_auth_tag confirm.server_auth_tag refl).1 refl)

      pub server_run :
          handshake_server T K later client_addr theirs
            (datagram datagram_1 client_addr ∷ datagram datagram_3 client_addr ∷ [])
            s
          ≡ (server_end, ok tt)
      server_run =
          let first = client_hello-IsEncoded hello hello-IsValid in
          let second = server_hello-IsEncoded answer answer-IsValid in
          let third = key_exchange-IsEncoded key_exchange key_exchange-IsValid in
          let fourth = confirm-IsEncoded confirm confirm-IsValid in
          handshake_server_lem T K later client_addr theirs datagram_1
            (bytes_of (ServerHello.fields answer)) _ hello codec
            (datagram datagram_3 client_addr ∷ []) s accepts
            (awaited_lem c now MessageType.handshake_client_hello 0
              (bytes_of (ClientHello.fields hello)) client_addr hello_control first.1.bytes
              (omega (arith, first.1.length_is)))
            first.1.decoded refl can.codec_chosen second.0 second.1.length_is
            (omega (arith, can.server_mtu))
          ∙ server_exchange_lem T K later client_addr hello theirs
              (bytes_of (ServerHello.fields answer)) datagram_3 (bytes_of (Confirm.fields confirm))
              _ key_exchange server_1 accepts can.server_open
              (awaited_other client_1 now MessageType.handshake_key_exchange
                MessageType.handshake_client_hello theirs.session_id
                (bytes_of (KeyExchange.fields key_exchange)) client_addr key_exchange_control
                third.1.bytes (omega (arith, third.1.length_is)) differ)
              (awaited_lem client_1 now MessageType.handshake_key_exchange theirs.session_id
                (bytes_of (KeyExchange.fields key_exchange)) client_addr key_exchange_control
                third.1.bytes (omega (arith, third.1.length_is)))
              third.1.decoded (==_self theirs.session_id)
              (subst
                (λ k.
                  constant_time_eq key_exchange.auth_tag
                    (derive_auth_tag K k.0 client_label (transcript_of ours.nonce answer))
                  ≡ true)
                (sym same_keys)
                ((constant_time_eq_iff key_exchange.auth_tag key_exchange.auth_tag refl).1 refl))
              (subst
                (λ k.
                  Confirm.encode
                    (record {
                      session_id = theirs.session_id;
                      server_auth_tag =
                          derive_auth_tag K k.1 server_label (transcript_of ours.nonce answer);
                    })
                    (replicate Confirm.size 0)
                  ≡ ok (bytes_of (Confirm.fields confirm)))
                (sym same_keys) fourth.0)
              fourth.1.length_is (omega (arith, can.server_mtu))
          ∙ ap (λ k. (after_server confirmed k, ok tt)) same_keys
