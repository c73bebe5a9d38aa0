-- ===== src/Packet/Encoded.antt =====
-- What `PacketBuilder::encode` leaves in its buffer.
use gravital_sound.Common.{ℕ, ◌+◌, ◌-◌, ◌≤◌, ◌≡◌, refl, sym, ap, ap₂, ◌∙◌}
use gravital_sound.Common.{List, [], ◌++◌, length, take, drop, arith, append_assoc, append-nil}
use gravital_sound.Common.{length-append, take-append_length, ok, ge→ltb_false}
use gravital_sound.Common.{length-take, drop-drop}
use gravital_sound.Wire.{to_be_bytes, length-to_be_bytes, bytes_of, length-bytes_of}
use gravital_sound.Wire.{copy_from_slice, copy_from_slice-append, writes-bytes_of, drop-all}
use gravital_sound.Protocol.{header_size, max_payload_size}
use gravital_sound.Checksum.{init, update, crc16_ccitt_false, crc16_two_segments}
use gravital_sound.Checksum.Reference.{update-append, crc16_two_segments-append}
use gravital_sound.Header
use gravital_sound.Header.{PacketHeader, fields}
use gravital_sound.Header.Roundtrip.{fields-IsLayout}
use gravital_sound.Packet.{encode}
use gravital_sound.Packet.Frame.{length-body, body_of, frame_of}

pub length-head : (h : PacketHeader) → length (bytes_of (fields h)) ≡ 24
length-head h = length-bytes_of (fields h) 0 (fields-IsLayout h)

head_written :
    (h : PacketHeader) (out : List ℕ)
    → 24 ≤ length out
    → Header.encode h (take header_size out) ≡ ok (bytes_of (fields h))
unfolding Header.encode
head_written h out len =
    rw (ge→ltb_false (length (take 24 out)) 24 (omega (arith, length-take 24 out))) (
      ap ok (
        writes-bytes_of (fields h) (take 24 out) (fields-IsLayout h)
        ∙ ap (λ t. bytes_of (fields h) ++ t)
            (drop-all (take 24 out) (length (bytes_of (fields h)))
              (omega (arith, length-take 24 out, length-head h)))
        ∙ append-nil (bytes_of (fields h))))

-- The encoder's checksum, over two segments and then the length, is that of the body.
encoder_checksum :
    (head payload : List ℕ)
    → update (crc16_two_segments head payload) (to_be_bytes 2 (length payload))
      ≡ crc16_ccitt_false (body_of head payload)
unfolding crc16_ccitt_false
encoder_checksum head payload =
    ap (λ c. update c (to_be_bytes 2 (length payload))) (crc16_two_segments-append head payload)
    ∙ sym (update-append (head ++ payload) (to_be_bytes 2 (length payload)) init)
    ∙ ap (update init) (append_assoc head payload (to_be_bytes 2 (length payload)))

-- The buffer after the first three writes.
module _ (head payload out : List ℕ) (head_length : length head ≡ 24) where
  abbrev with_len : List ℕ
  with_len =
      copy_from_slice (copy_from_slice (copy_from_slice out 0 head) header_size payload)
        (header_size + length payload + 4 - 4) (to_be_bytes 2 (length payload))

  with_len-body : with_len ≡ body_of head payload ++ drop (length payload + 26) out
  with_len-body =
      ap (λ b. copy_from_slice (copy_from_slice b 24 payload) (24 + length payload + 4 - 4) size)
        (copy_from_slice-append [] out head 0 refl)
      ∙ ap (λ b. copy_from_slice b (24 + length payload + 4 - 4) size)
          (copy_from_slice-append head (drop (length head) out) payload 24 (sym head_length))
      ∙ copy_from_slice-append (head ++ payload) (drop (length payload) (drop (length head) out))
          size (24 + length payload + 4 - 4)
          (omega (arith, length-append head payload, head_length))
      ∙ ap₂ ◌++◌ (append_assoc head payload size) rest
    where
      size : List ℕ
      size = to_be_bytes 2 (length payload)

      rest :
          drop (length size) (drop (length payload) (drop (length head) out))
          ≡ drop (length payload + 26) out
      rest =
          drop-drop (length size) (length payload) (drop (length head) out)
          ∙ drop-drop (length payload + length size) (length head) out
          ∙ ap (λ k. drop k out) (omega (arith, head_length, length-to_be_bytes 2 (length payload)))

  take-with_len : take header_size with_len ≡ head
  take-with_len =
      ap (take 24) (
        with_len-body
        ∙ append_assoc head (payload ++ to_be_bytes 2 (length payload))
            (drop (length payload + 26) out))
      ∙ ap
          (λ k. take k (
            head
            ++ ((payload ++ to_be_bytes 2 (length payload)) ++ drop (length payload + 26) out)))
          (sym head_length)
      ∙ take-append_length head
          ((payload ++ to_be_bytes 2 (length payload)) ++ drop (length payload + 26) out)

  with_checksum :
      (c : List ℕ)
      → length c ≡ 2
      → copy_from_slice with_len (header_size + length payload + 4 - 2) c
        ≡ (body_of head payload ++ c) ++ drop (length payload + 28) out
  with_checksum c two =
      ap (λ b. copy_from_slice b (24 + length payload + 4 - 2) c) with_len-body
      ∙ copy_from_slice-append (body_of head payload) (drop (length payload + 26) out) c
          (24 + length payload + 4 - 2) (omega (arith, length-body head payload, head_length))
      ∙ ap (λ t. (body_of head payload ++ c) ++ t)
          (drop-drop (length c) (length payload + 26) out
            ∙ ap (λ k. drop k out) (omega (arith, two)))

-- `encode` puts the frame at the start of `out`, keeps the rest, and returns the frame's length.
pub encode_frame :
    (h : PacketHeader) (payload out : List ℕ)
    → length payload ≤ max_payload_size
    → length payload + 28 ≤ length out
    → encode h payload out
      ≡ ok (
        frame_of (bytes_of (fields h)) payload ++ drop (length payload + 28) out,
        length payload + 28,
      )
unfolding encode
encode_frame h payload out small len =
    frame_for (bytes_of (fields h)) (length-head h) (head_written h out (omega arith))
  where
    frame_for :
        (head : List ℕ)
        → length head ≡ 24
        → Header.encode h (take header_size out) ≡ ok head
        → encode h payload out
          ≡ ok (frame_of head payload ++ drop (length payload + 28) out, length payload + 28)
    frame_for head head_length written =
        rw
          (
            ge→ltb_false max_payload_size (length payload) small,
            ge→ltb_false (length out) (24 + length payload + 4) (omega arith),
            written,
            take-with_len head payload out head_length,
            encoder_checksum head payload,
            with_checksum head payload out head_length
                (to_be_bytes 2 (crc16_ccitt_false (body_of head payload)))
                (length-to_be_bytes 2 (crc16_ccitt_false (body_of head payload))),
          )
          (ap (λ n. ok (frame_of head payload ++ drop (length payload + 28) out, n)) (omega arith))
