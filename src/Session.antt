-- ===== src/Session.antt =====
-- crates/gravital-talk-transport/src/session.rs and error.rs: a session with its peer.
-- An operation is a `Step` on the record `Session`. A datagram handed to the transport is appended
-- to `outbox`, which stands for what other programs see of the session.
pub mod Keys
pub mod Sending
pub mod Receiving
pub mod Client
pub mod Server
pub mod Handshake
pub mod Payloads
pub mod Control
pub mod ClientSide
pub mod ServerSide
pub mod Agreement
pub mod Agreed
pub mod Slots
pub mod Tags
pub mod Sent
pub mod Delivery
pub mod Audio
pub mod Closing
mod Fixtures
mod Examples
use gravital_sound.Common.{
  ℕ, zero, suc, ◌+◌, ◌*◌, ◌/◌, ◌≡◌, ap, max, Bool, true, false, leb, if◌then◌else◌, List, [], ◌∷◌,
}
use gravital_sound.Common.{Option, none, some, Result, ok, err}
use gravital_sound.Protocol.{Error, default_mtu, fec_window, congestion_min_bitrate}
use gravital_sound.SessionState
use gravital_sound.SessionState.{SessionStateMachine}
use gravital_sound.Metrics
use gravital_sound.Metrics.{Metrics}
use gravital_sound.JitterBuffer
use gravital_sound.JitterBuffer.{JitterBuffer}
use gravital_sound.Congestion
use gravital_sound.Congestion.{CongestionController}
use gravital_sound.Fec.{FecEncoder, FecDecoder, new_encoder, new_decoder}
use gravital_sound.Crypto.{SessionKey}

-- The texts that some errors carry, and the sizes of `BufferTooSmall`, are left out.
pub data TransportError : Type 0 where
  io timeout closed buffer_too_small : TransportError
  protocol : Error → TransportError
  handshake_failed invalid_state peer_closed authentication_failed : TransportError

-- `TransportError::code`, negated.
unfoldable pub error_code : TransportError → ℕ
error_code io = 1
error_code timeout = 2
error_code closed = 3
error_code buffer_too_small = 4
error_code (protocol e) = 5
error_code handshake_failed = 6
error_code invalid_state = 7
error_code peer_closed = 8
error_code authentication_failed = 9

-- What ends an operation early: an error that it returns, or a panic.
pub data Failure : Type 0 where
  failed : TransportError → Failure
  panicked : Failure

pub data SessionRole : Type 0 where
  client server : SessionRole

-- An address, of which only equality is used.
abbrev pub SocketAddr : Type 0
SocketAddr = ℕ

pub record Config : Type 0 where
  pub sample_rate : ℕ  -- u32
  pub channels : ℕ  -- u8
  pub frame_duration_ms : ℕ  -- u8
  pub max_bitrate : ℕ  -- u32
  pub codec_preferred : ℕ  -- u8
  pub supported_codecs : List ℕ
  pub capability_flags : ℕ  -- u32
  pub jitter_buffer_ms : ℕ  -- u16
  pub mtu : ℕ

-- `Config::default`
abbrev pub default_config : Config
default_config = record {
  sample_rate = 48000;
  channels = 1;
  frame_duration_ms = 20;
  max_bitrate = 64000;
  codec_preferred = 1;
  supported_codecs = 1 ∷ 2 ∷ [];
  capability_flags = 0;
  jitter_buffer_ms = 40;
  mtu = default_mtu;
}

pub record Session : Type 0 where
  pub state : SessionStateMachine
  pub metrics : Metrics
  pub jitter : JitterBuffer
  pub config : Config
  pub peer : Option SocketAddr
  pub session_id : ℕ  -- u32
  pub tx_sequence : ℕ  -- u32
  pub audio_tx_seq : ℕ  -- u32
  pub last_rx : ℕ  -- u64
  pub negotiated_codec : ℕ  -- u8
  pub encrypt_key : Option SessionKey
  pub decrypt_key : Option SessionKey
  pub congestion : CongestionController
  pub fec_enc : FecEncoder
  pub fec_dec : FecDecoder
  pub ptt_active : Bool
  pub peer_ptt_active : Bool
  pub local_ssrc : ℕ  -- u32
  pub closed : Bool
  pub outbox : List (SocketAddr × List ℕ)

-- `u32::next_power_of_two`: the first of `power`, `2 * power`, ... that is not below `n`.
unfoldable pub next_power_of_two : ℕ → ℕ → ℕ → ℕ
next_power_of_two zero power n = power
next_power_of_two (suc fuel) power n =
    let next = next_power_of_two fuel (power * 2) n in if leb n power then power else next

-- `jitter_slots`; the fuel is the number of doublings that stay in a u32.
unfoldable pub jitter_slots : ℕ → ℕ → ℕ
unfolding next_power_of_two
jitter_slots buffer_ms frame_ms =
    let frames = max (buffer_ms / max frame_ms 1) 1 in max (next_power_of_two 31 1 frames) 16

-- `Session::new`; `none` is a panic in one of the constructors that it calls.
unfoldable pub new : Config → Option Session
new config =
    elim (JitterBuffer.new (jitter_slots config.jitter_buffer_ms config.frame_duration_ms)) [
      | none ↦ none
      | some jitter ↦
          elim (Congestion.new config.max_bitrate congestion_min_bitrate config.max_bitrate) [
            | none ↦ none
            | some congestion ↦ some (record {
              state = SessionState.new;
              metrics = Metrics.new;
              jitter = jitter;
              config = config;
              peer = none;
              session_id = 0;
              tx_sequence = 0;
              audio_tx_seq = 0;
              last_rx = 0;
              negotiated_codec = 0;
              encrypt_key = none;
              decrypt_key = none;
              congestion = congestion;
              fec_enc = new_encoder fec_window;
              fec_dec = new_decoder fec_window;
              ptt_active = false;
              peer_ptt_active = false;
              local_ssrc = 0;
              closed = false;
              outbox = [];
            })
          ]
    ]

-- An operation: the session after it, and what it returns.
abbrev pub Step {ℓ} : Type ℓ → Type ℓ
Step A = Session → Session × Result Failure A

-- `?` on the result of a step.
abbrev pub continue {ℓ κ} :
    {A : Type ℓ} {B : Type κ}
    → Session × Result Failure A
    → (A → Step B)
    → Session × Result Failure B
continue r f = elim r.1 [ ok a ↦ f a r.0 | err e ↦ (r.0, err e) ]

infixl 5 ◌>>=◌ ◌>>◌
abbrev pub ◌>>=◌ {ℓ κ} : {A : Type ℓ} {B : Type κ} → Step A → (A → Step B) → Step B
(m >>= f) s = continue (m s) f

abbrev pub ◌>>◌ {ℓ κ} : {A : Type ℓ} {B : Type κ} → Step A → Step B → Step B
m >> k = m >>= λ _. k

abbrev pub give {ℓ} : {A : Type ℓ} → A → Step A
give a s = (s, ok a)

abbrev pub fail {ℓ} : {A : Type ℓ} → TransportError → Step A
fail e s = (s, err (failed e))

abbrev pub done : Step (Unit {0})
done s = (s, ok tt)

abbrev pub get : Step Session
get s = (s, ok s)

abbrev pub modify : (Session → Session) → Step (Unit {0})
modify f s = (f s, ok tt)

-- `let _ = ...`
abbrev pub ignore {ℓ} : {A : Type ℓ} → Step A → Step (Unit {0})
ignore m s = ((m s).0, ok tt)

-- `.map_err(TransportError::Protocol)?`
abbrev pub lift {ℓ} : {A : Type ℓ} → Result Error A → Step A
lift (ok a) s = (s, ok a)
lift (err e) s = (s, err (failed (protocol e)))

abbrev pub when : Bool → Step (Unit {0}) → Step (Unit {0})
when true m = m
when false m = done

pub bind_ok {ℓ κ} :
    {A : Type ℓ} {B : Type κ} (m : Step A) (f : A → Step B) (s t : Session) (a : A)
    → m s ≡ (t, ok a)
    → (m >>= f) s ≡ f a t
bind_ok m f s t a e = ap (λ r. continue r f) e

-- The socket under a session: what `send_to` returns, where the first argument counts the calls.
pub record Transport : Type 0 where
  pub send_to : ℕ → List ℕ → SocketAddr → Result TransportError ℕ
