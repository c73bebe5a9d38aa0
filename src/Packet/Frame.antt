-- ===== src/Packet/Frame.antt =====
-- The bytes of a packet, as the encoder lays them out and the decoder checks them.
use gravital_sound.Common.{ℕ, ◌+◌, ◌-◌, ◌≤◌, ◌≡◌, sym, ap, ap₂, ◌∙◌}
use gravital_sound.Common.{List, ◌++◌, length, take, drop, arith, append_assoc, append-nil}
use gravital_sound.Common.{length-append, take-append-drop, ok}
use gravital_sound.Wire.{IsBytes, slice, to_be_bytes, from_be_bytes, length-to_be_bytes}
use gravital_sound.Wire.{slice-word, drop-slice, drop-all, length-slice}
use gravital_sound.Protocol.{header_size, max_payload_size}
use gravital_sound.Checksum.{init, update, crc16_ccitt_false}
use gravital_sound.Checksum.Reference.{update-append}
use gravital_sound.Header
use gravital_sound.Packet.{PacketView, compute_checksum, decode}

-- What stands before the checksum, and the whole packet.
abbrev pub body_of : List ℕ → List ℕ → List ℕ
body_of head payload = head ++ (payload ++ to_be_bytes 2 (length payload))

abbrev pub frame_of : List ℕ → List ℕ → List ℕ
frame_of head payload =
    body_of head payload ++ to_be_bytes 2 (crc16_ccitt_false (body_of head payload))

pub length-body :
    (head payload : List ℕ) → length (body_of head payload) ≡ length head + length payload + 2
length-body head payload = omega (
  arith,
  length-append head (payload ++ to_be_bytes 2 (length payload)),
  length-append payload (to_be_bytes 2 (length payload)),
  length-to_be_bytes 2 (length payload),
)

-- The three passes compute the checksum of the body.
pub compute_checksum-body :
    (head payload : List ℕ)
    → compute_checksum head payload (length payload) ≡ crc16_ccitt_false (body_of head payload)
unfolding compute_checksum crc16_ccitt_false
compute_checksum-body head payload =
    sym (update-append payload (to_be_bytes 2 (length payload)) (update init head))
    ∙ sym (update-append head (payload ++ to_be_bytes 2 (length payload)) init)

-- What the tests of `decode` have established when it returns a packet.
record Accepted (buf : List ℕ) (v : PacketView) : Type 0 where
  header_ok : Header.decode buf ≡ ok v.header
  length_is : length buf ≡ from_be_bytes (slice buf (length buf - 4) 2) + 28
  small : from_be_bytes (slice buf (length buf - 4) 2) ≤ max_payload_size
  payload_is : v.payload ≡ slice buf header_size (from_be_bytes (slice buf (length buf - 4) 2))
  checksum_is :
      from_be_bytes (slice buf (length buf - 2) 2)
      ≡ compute_checksum
          (take header_size buf)
          v.payload
          (from_be_bytes (slice buf (length buf - 4) 2))

decode-Accepted : (buf : List ℕ) {v : PacketView} → decode buf ≡ ok v → Accepted buf v
unfolding decode
decode-Accepted buf {v} e = ground arith

-- A buffer that ends two words of two bytes after the range of the payload.
split_frame :
    (buf : List ℕ) (n : ℕ)
    → length buf ≡ n + 28
    → buf ≡ (take 24 buf ++ (slice buf 24 n ++ slice buf (24 + n) 2)) ++ slice buf (26 + n) 2
split_frame buf n len =
    sym (take-append-drop 24 buf)
    ∙ ap (λ t. take 24 buf ++ t)
        (drop-slice buf 24 n
          ∙ ap (λ t. slice buf 24 n ++ t)
              (drop-slice buf (24 + n) 2
                ∙ ap (λ t. slice buf (24 + n) 2 ++ t)
                    (ap (λ k. drop k buf) {x = 24 + n + 2} {y = 26 + n} (omega arith)
                      ∙ drop-slice buf (26 + n) 2
                      ∙ ap (λ t. slice buf (26 + n) 2 ++ t)
                          (drop-all buf (26 + n + 2) (omega arith))
                      ∙ append-nil (slice buf (26 + n) 2)))
          ∙ sym (append_assoc (slice buf 24 n) (slice buf (24 + n) 2) (slice buf (26 + n) 2)))
    ∙ sym
        (append_assoc (take 24 buf) (slice buf 24 n ++ slice buf (24 + n) 2) (slice buf (26 + n) 2))

-- The packet `v` was read from the frame of the first 24 bytes of `buf` and of its payload.
pub record IsFrame (buf : List ℕ) (v : PacketView) : Type 0 where
  pub header_ok : Header.decode buf ≡ ok v.header
  pub small : length v.payload ≤ max_payload_size
  pub long : 28 ≤ length buf
  pub frame_is : buf ≡ frame_of (take header_size buf) v.payload

-- What `decode` accepts is such a frame, and the payload that it returns is that of the frame.
pub decode-IsFrame :
    (buf : List ℕ) {v : PacketView} → IsBytes buf → decode buf ≡ ok v → IsFrame buf v
decode-IsFrame buf {v} bytes e = record {
  header_ok = accepted.header_ok;
  small = omega (arith, payload_length, accepted.small);
  long = omega (arith, accepted.length_is);
  frame_is =
      split_frame buf n accepted.length_is
      ∙ ap₂ (λ b c. (take 24 buf ++ b) ++ c) (ap₂ ◌++◌ (sym accepted.payload_is) len_bytes)
          (checksum_bytes ∙ ap (to_be_bytes 2) checksum_value);
}
  where
    accepted : Accepted buf v
    accepted = decode-Accepted buf e

    n : ℕ
    n = from_be_bytes (slice buf (length buf - 4) 2)

    payload_length : length v.payload ≡ n
    payload_length =
        ap length accepted.payload_is ∙ length-slice buf 24 n (omega (arith, accepted.length_is))

    checksum_value :
        from_be_bytes (slice buf (length buf - 2) 2)
        ≡ crc16_ccitt_false (body_of (take 24 buf) v.payload)
    checksum_value =
        accepted.checksum_is
        ∙ ap (compute_checksum (take 24 buf) v.payload) (sym payload_length)
        ∙ compute_checksum-body (take 24 buf) v.payload

    len_bytes : slice buf (24 + n) 2 ≡ to_be_bytes 2 (length v.payload)
    len_bytes =
        ap (λ k. slice buf k 2) {x = 24 + n} {y = length buf - 4}
          (omega (arith, accepted.length_is))
        ∙ slice-word buf (length buf - 4) 2 bytes (omega (arith, accepted.length_is))
        ∙ ap (to_be_bytes 2) (sym payload_length)

    checksum_bytes :
        slice buf (26 + n) 2 ≡ to_be_bytes 2 (from_be_bytes (slice buf (length buf - 2) 2))
    checksum_bytes =
        ap (λ k. slice buf k 2) {x = 26 + n} {y = length buf - 2}
          (omega (arith, accepted.length_is))
        ∙ slice-word buf (length buf - 2) 2 bytes (omega (arith, accepted.length_is))
