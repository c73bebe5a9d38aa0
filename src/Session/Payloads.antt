-- ===== src/Session/Payloads.antt =====
-- crates/gravital-talk-core/src/message.rs: the payloads of a handshake, written into a buffer of
-- exactly their size, as session.rs does.
use gravital_sound.Common.{
  ℕ, ◌≡◌, refl, ap, ◌∙◌, subst, arith, List, [], ◌∷◌, ◌++◌, length, replicate, Result, ok,
  length-replicate, append-nil,
}
use gravital_sound.Wire.{
  IsBytes, IsBytes-append, Field, IsLayout, Holds, Holds-append, bytes_of, size_of, writes,
  writes-bytes_of, length-bytes_of, drop-all, to_be_bytes, to_be_bytes-IsBytes,
}
use gravital_sound.Protocol.{Error}
use gravital_sound.Message.ClientHello
use gravital_sound.Message.ClientHello.{ClientHello}
use gravital_sound.Message.ServerHello
use gravital_sound.Message.ServerHello.{ServerHello}
use gravital_sound.Message.KeyExchange
use gravital_sound.Message.KeyExchange.{KeyExchangeMsg}
use gravital_sound.Message.Confirm
use gravital_sound.Message.Confirm.{SessionConfirm}

-- A buffer of the size of the fields holds them and nothing else.
full_buffer :
    (fs : List Field) (n : ℕ)
    → IsLayout 0 fs
    → size_of fs ≡ n
    → writes (replicate n 0) fs ≡ bytes_of fs
full_buffer fs n layout size =
    writes-bytes_of fs (replicate n 0) layout
    ∙ ap (λ t. bytes_of fs ++ t)
        (drop-all (replicate n 0) (length (bytes_of fs))
          (omega (arith, length-bytes_of fs 0 layout, length-replicate {A = ℕ} n 0)))
    ∙ append-nil (bytes_of fs)

bytes_of-Holds : (fs : List Field) → IsLayout 0 fs → Holds (bytes_of fs) fs
bytes_of-Holds fs layout =
    subst (λ b. Holds b fs) (append-nil (bytes_of fs)) (Holds-append fs [] [] layout)

abbrev FieldBytes : List Field → Type 0
FieldBytes [] = Unit {0}
FieldBytes (f ∷ fs) = IsBytes f.bytes × FieldBytes fs

bytes_of-IsBytes : (fs : List Field) → FieldBytes fs → IsBytes (bytes_of fs)
bytes_of-IsBytes [] h = tt
bytes_of-IsBytes (f ∷ fs) h = IsBytes-append f.bytes (bytes_of fs) h.0 (bytes_of-IsBytes fs h.1)

word : (n x : ℕ) → IsBytes (to_be_bytes n x)
word n x = to_be_bytes-IsBytes n x

-- A payload in the form that travels.
pub record IsEncoded {A : Type 0} (decode : List ℕ → Result Error A) (message : A) (size : ℕ)
    (payload : List ℕ) : Type 0 where
  pub decoded : decode payload ≡ ok message
  pub bytes : IsBytes payload
  pub length_is : length payload ≡ size

pub client_hello-IsEncoded :
    (m : ClientHello)
    → ClientHello.IsValid m
    → (ClientHello.encode m (replicate ClientHello.size 0) ≡ ok (bytes_of (ClientHello.fields m)))
      × IsEncoded ClientHello.decode m ClientHello.size (bytes_of (ClientHello.fields m))
unfolding ClientHello.encode
client_hello-IsEncoded m v =
    let layout = ClientHello.fields-IsLayout m v in
    let total = length-bytes_of (ClientHello.fields m) 0 layout in
    (
      ap ok (full_buffer (ClientHello.fields m) 80 layout refl),
      record {
        decoded =
            ClientHello.decode-Holds m (bytes_of (ClientHello.fields m)) v (omega (arith, total))
              (bytes_of-Holds (ClientHello.fields m) layout);
        bytes = bytes_of-IsBytes (ClientHello.fields m) (
          v.ephemeral_public_key_bytes,
          (
            v.client_nonce_bytes,
            (
              (v.protocol_version_lt, tt),
              (
                (v.codec_preferred_lt, tt),
                (
                  word 4 m.sample_rate,
                  (
                    (v.channels_lt, tt),
                    (
                      (v.frame_duration_ms_lt, tt),
                      (word 4 m.max_bitrate, (word 4 m.capability_flags, tt)),
                    ),
                  ),
                ),
              ),
            ),
          ),
        );
        length_is = total;
      },
    )

pub server_hello-IsEncoded :
    (m : ServerHello)
    → ServerHello.IsValid m
    → (ServerHello.encode m (replicate ServerHello.size 0) ≡ ok (bytes_of (ServerHello.fields m)))
      × IsEncoded ServerHello.decode m ServerHello.size (bytes_of (ServerHello.fields m))
unfolding ServerHello.encode
server_hello-IsEncoded m v =
    let layout = ServerHello.fields-IsLayout m v in
    let total = length-bytes_of (ServerHello.fields m) 0 layout in
    (
      ap ok (full_buffer (ServerHello.fields m) 84 layout refl),
      record {
        decoded =
            ServerHello.decode-Holds m (bytes_of (ServerHello.fields m)) v (omega (arith, total))
              (bytes_of-Holds (ServerHello.fields m) layout);
        bytes = bytes_of-IsBytes (ServerHello.fields m) (
          v.ephemeral_public_key_bytes,
          (
            v.server_nonce_bytes,
            (
              word 4 m.session_id,
              (
                (v.protocol_version_lt, tt),
                (
                  (v.codec_accepted_lt, tt),
                  (
                    word 4 m.sample_rate,
                    (
                      (v.channels_lt, tt),
                      (
                        (v.frame_duration_ms_lt, tt),
                        (word 4 m.max_bitrate, (word 4 m.capability_flags, tt)),
                      ),
                    ),
                  ),
                ),
              ),
            ),
          ),
        );
        length_is = total;
      },
    )

pub key_exchange-IsEncoded :
    (m : KeyExchangeMsg)
    → KeyExchange.IsValid m
    → (KeyExchange.encode m (replicate KeyExchange.size 0) ≡ ok (bytes_of (KeyExchange.fields m)))
      × IsEncoded KeyExchange.decode m KeyExchange.size (bytes_of (KeyExchange.fields m))
unfolding KeyExchange.encode
key_exchange-IsEncoded m v =
    let layout = KeyExchange.fields-IsLayout m v in
    let total = length-bytes_of (KeyExchange.fields m) 0 layout in
    (
      ap ok (full_buffer (KeyExchange.fields m) 20 layout refl),
      record {
        decoded =
            KeyExchange.decode-Holds m (bytes_of (KeyExchange.fields m)) v (omega (arith, total))
              (bytes_of-Holds (KeyExchange.fields m) layout);
        bytes =
            bytes_of-IsBytes (KeyExchange.fields m) (word 4 m.session_id, (v.auth_tag_bytes, tt));
        length_is = total;
      },
    )

pub confirm-IsEncoded :
    (m : SessionConfirm)
    → Confirm.IsValid m
    → (Confirm.encode m (replicate Confirm.size 0) ≡ ok (bytes_of (Confirm.fields m)))
      × IsEncoded Confirm.decode m Confirm.size (bytes_of (Confirm.fields m))
unfolding Confirm.encode
confirm-IsEncoded m v =
    let layout = Confirm.fields-IsLayout m v in
    let total = length-bytes_of (Confirm.fields m) 0 layout in
    (
      ap ok (full_buffer (Confirm.fields m) 20 layout refl),
      record {
        decoded =
            Confirm.decode-Holds m (bytes_of (Confirm.fields m)) v (omega (arith, total))
              (bytes_of-Holds (Confirm.fields m) layout);
        bytes =
            bytes_of-IsBytes (Confirm.fields m)
              (word 4 m.session_id, (v.server_auth_tag_bytes, tt));
        length_is = total;
      },
    )
