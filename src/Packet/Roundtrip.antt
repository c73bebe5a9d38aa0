-- ===== src/Packet/Roundtrip.antt =====
-- Encoding and decoding of packets are inverse to each other.
use gravital_sound.Common.{ℕ, ◌+◌, ◌-◌, ◌≤◌, ◌≡◌, refl, sym, ap, ap₂, ◌∙◌, subst}
use gravital_sound.Common.{List, [], ◌∷◌, ◌++◌, length, take, drop, arith, append_assoc, append-nil}
use gravital_sound.Common.{length-append, take-append_length, ok}
use gravital_sound.Wire.{IsBytes, slice, to_be_bytes, from_be_bytes, length-to_be_bytes}
use gravital_sound.Wire.{slice-append, Holds, Holds-append, bytes_of}
use gravital_sound.Wire.{from_be_bytes-to_be_bytes}
use gravital_sound.Wire.{to_be_bytes-IsBytes, IsBytes-append}
use gravital_sound.Wire.{Holds-bytes_of, slice-start}
use gravital_sound.Protocol.{header_size, max_payload_size, magic_0, magic_1}
use gravital_sound.Checksum.{crc16_ccitt_false}
use gravital_sound.Checksum.Reference.{crc16-lt}
use gravital_sound.Header
use gravital_sound.Header.{PacketHeader, fields}
use gravital_sound.Header.Roundtrip.{IsValid, fields-IsLayout, decode-Holds, decode_sound}
use gravital_sound.Packet.{PacketView, decode, encode}
use gravital_sound.Packet.Encoded.{encode_frame, length-head}
use gravital_sound.Packet.Frame.{
  length-body, body_of, frame_of, compute_checksum-body, IsFrame, decode-IsFrame,
}

pub length-frame :
    (head payload : List ℕ) → length (frame_of head payload) ≡ length head + length payload + 4
length-frame head payload = omega (
  arith,
  length-body head payload,
  length-append (body_of head payload) (to_be_bytes 2 (crc16_ccitt_false (body_of head payload))),
  length-to_be_bytes 2 (crc16_ccitt_false (body_of head payload)),
)

-- The frame as the header and what follows it, and as what stands before each of its words.
pub frame_after_header :
    (head payload : List ℕ)
    → frame_of head payload
      ≡ head
        ++ (payload
            ++ (to_be_bytes 2 (length payload)
                ++ to_be_bytes 2 (crc16_ccitt_false (body_of head payload))))
frame_after_header head payload =
    append_assoc head (payload ++ to_be_bytes 2 (length payload)) checksum
    ∙ ap (λ t. head ++ t) (append_assoc payload (to_be_bytes 2 (length payload)) checksum)
  where
    checksum : List ℕ
    checksum = to_be_bytes 2 (crc16_ccitt_false (body_of head payload))

body-IsBytes :
    (head payload : List ℕ) → IsBytes head → IsBytes payload → IsBytes (body_of head payload)
body-IsBytes head payload hb pb =
    IsBytes-append head _ hb (IsBytes-append payload _ pb (to_be_bytes-IsBytes 2 (length payload)))

record Parts (head payload buf : List ℕ) : Type 0 where
  len : length buf ≡ length payload + 28
  header_part : take header_size buf ≡ head
  payload_part : slice buf header_size (length payload) ≡ payload
  len_part : slice buf (length buf - 4) 2 ≡ to_be_bytes 2 (length payload)
  checksum_part :
      slice buf (length buf - 2) 2 ≡ to_be_bytes 2 (crc16_ccitt_false (body_of head payload))

frame-Parts :
    (head payload : List ℕ) → length head ≡ 24 → Parts head payload (frame_of head payload)
frame-Parts head payload h = record {
  len = omega (arith, total);
  header_part =
      ap₂ take (sym h) (frame_after_header head payload)
      ∙ take-append_length head (payload ++ (size ++ checksum));
  payload_part =
      ap (λ b. slice b 24 (length payload)) (frame_after_header head payload)
      ∙ slice-append head payload (size ++ checksum) 24 (length payload) (sym h) refl;
  len_part =
      ap (λ b. slice b (length frame - 4) 2)
        (frame_after_header head payload ∙ sym (append_assoc head payload (size ++ checksum)))
      ∙ slice-append (head ++ payload) size checksum (length frame - 4) 2
          (omega (arith, total, length-append head payload))
          (length-to_be_bytes 2 (length payload));
  checksum_part =
      ap (λ b. slice b (length frame - 2) 2)
        (ap (λ t. body_of head payload ++ t) (sym (append-nil checksum)))
      ∙ slice-append (body_of head payload) checksum [] (length frame - 2) 2
          (omega (arith, total, length-body head payload))
          (length-to_be_bytes 2 (crc16_ccitt_false (body_of head payload)));
}
  where
    frame : List ℕ
    frame = frame_of head payload

    size : List ℕ
    size = to_be_bytes 2 (length payload)

    checksum : List ℕ
    checksum = to_be_bytes 2 (crc16_ccitt_false (body_of head payload))

    total : length frame ≡ length head + length payload + 4
    total = length-frame head payload

-- A buffer with the parts of a frame is decoded to its header and payload.
decode-Parts :
    (buf head payload : List ℕ) (h : PacketHeader)
    → IsBytes head
    → IsBytes payload
    → length payload ≤ max_payload_size
    → Parts head payload buf
    → Header.decode buf ≡ ok h
    → decode buf ≡ ok (record { header = h; payload = payload })
unfolding decode
decode-Parts buf head payload h hb pb small parts header_ok = ground (
  arith,
  parts.len,
  header_ok,
  payload_len,
  stored,
  parts.header_part,
  parts.payload_part,
  compute_checksum-body head payload,
)
  where
    payload_len : from_be_bytes (slice buf (length buf - 4) 2) ≡ length payload
    payload_len =
        ap from_be_bytes parts.len_part ∙ from_be_bytes-to_be_bytes 2 (length payload) (omega arith)

    stored : from_be_bytes (slice buf (length buf - 2) 2) ≡ crc16_ccitt_false (body_of head payload)
    stored =
        ap from_be_bytes parts.checksum_part
        ∙ from_be_bytes-to_be_bytes 2 (crc16_ccitt_false (body_of head payload))
            (crc16-lt (body_of head payload) (body-IsBytes head payload hb pb))

pub take-frame :
    (head payload rest : List ℕ)
    → length head ≡ 24
    → take (length payload + 28) (frame_of head payload ++ rest) ≡ frame_of head payload
take-frame head payload rest h =
    ap (λ k. take k (frame_of head payload ++ rest)) (omega (arith, length-frame head payload))
    ∙ take-append_length (frame_of head payload) rest

pub head-IsBytes : (h : PacketHeader) → IsValid h → IsBytes (bytes_of (fields h))
head-IsBytes h v =
    IsBytes-append (magic_0 ∷ magic_1 ∷ h.version ∷ h.flags ∷ h.msg_type ∷ 0 ∷ 0 ∷ 0 ∷ []) words
      (omega arith)
      (IsBytes-append (to_be_bytes 4 h.session_id) _ (to_be_bytes-IsBytes 4 h.session_id) (
        IsBytes-append (to_be_bytes 4 h.sequence) _ (to_be_bytes-IsBytes 4 h.sequence)
          (IsBytes-append (to_be_bytes 8 h.timestamp) [] (to_be_bytes-IsBytes 8 h.timestamp) tt)))
  where
    words : List ℕ
    words =
        to_be_bytes 4 h.session_id
        ++ (to_be_bytes 4 h.sequence ++ (to_be_bytes 8 h.timestamp ++ []))

-- A frame is decoded to the header and payload that it was made of.
pub decode_of_frame :
    (h : PacketHeader) (payload : List ℕ)
    → IsValid h
    → IsBytes payload
    → length payload ≤ max_payload_size
    → decode (frame_of (bytes_of (fields h)) payload)
      ≡ ok (record { header = h; payload = payload })
decode_of_frame h payload v pb small =
    decode-Parts (frame_of head payload) head payload h (head-IsBytes h v) pb small
      (frame-Parts head payload (length-head h))
      (decode-Holds h (frame_of head payload) v
        (omega (arith, length-frame head payload, length-head h))
        (subst (λ b. Holds b (fields h)) (sym (frame_after_header head payload))
          (Holds-append (fields h) [] _ (fields-IsLayout h))))
  where
    head : List ℕ
    head = bytes_of (fields h)

-- For a valid header and a payload of bytes of at most the maximal size, if the output buffer has
-- room for the packet, `encode` succeeds, and `decode` of exactly the number of bytes that it
-- reports returns the same header and payload.
pub decode-encode_packet :
    (h : PacketHeader) (payload out : List ℕ)
    → IsValid h
    → IsBytes payload
    → length payload ≤ max_payload_size
    → length payload + 28 ≤ length out
    → (buf : List ℕ) × (n : ℕ) × (encode h payload out ≡ ok (buf, n))
      × (decode (take n buf) ≡ ok (record { header = h; payload = payload }))
decode-encode_packet h payload out v pb small len = (
  frame_of (bytes_of (fields h)) payload ++ drop (length payload + 28) out,
  length payload + 28,
  encode_frame h payload out small len,
  ap decode
        (take-frame (bytes_of (fields h)) payload (drop (length payload + 28) out) (length-head h))
      ∙ decode_of_frame h payload v pb small,
)

-- A packet that `decode` accepts is built again, byte for byte, by `encode` from the header and
-- payload that were returned; the rest of the output buffer is kept.
pub encode-decode_packet :
    (buf out : List ℕ) {v : PacketView}
    → IsBytes buf
    → decode buf ≡ ok v
    → length buf ≤ length out
    → encode v.header v.payload out ≡ ok (buf ++ drop (length buf) out, length buf)
encode-decode_packet buf out {v} bytes e len =
    encode_frame v.header v.payload out frame.small (omega (arith, total))
    ∙ ap₂ (λ b n. ok (b ++ drop n out, n)) same total
  where
    frame : IsFrame buf v
    frame = decode-IsFrame buf bytes e

    head_bytes : bytes_of (fields v.header) ≡ take header_size buf
    head_bytes =
        Holds-bytes_of (fields v.header) buf 0 (fields-IsLayout v.header)
          (decode_sound buf bytes frame.header_ok).2
        ∙ ap (slice buf 0) (length-head v.header)
        ∙ slice-start buf 24

    same : frame_of (bytes_of (fields v.header)) v.payload ≡ buf
    same = ap (λ h. frame_of h v.payload) head_bytes ∙ sym frame.frame_is

    total : length v.payload + 28 ≡ length buf
    total = omega (
      arith,
      ap length same,
      length-frame (bytes_of (fields v.header)) v.payload,
      length-head v.header,
    )
