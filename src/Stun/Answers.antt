-- ===== src/Stun/Answers.antt =====
-- An answer of RFC 5389 to a request, and how `parse_binding_response` reads it.
use gravital_sound.Common.{
  ℕ, suc, ◌+◌, ◌^◌, ◌≤◌, ◌<◌, ◌≡◌, leb, refl, sym, ap, ap₂, ◌∙◌, arith, List, ◌∷◌, ◌++◌, length,
  take, drop, Option, none, some, true, take-append_length, ge→ltb_false, bit_xor,
  drop-append_length, drop-drop, length-append,
}
use gravital_sound.Common.Bits.{bit_xor_cancel, bit_xor-lt}
use gravital_sound.Wire.{slice, to_be_bytes, from_be_bytes, from_be_bytes-to_be_bytes}
use gravital_sound.Common.Same.{same_self}
use gravital_sound.Stun.{
  SocketAddr, parse_binding_response, parse_xor_mapped_address, is_answer, attributes, found,
}

-- The header of a success response of RFC 5389, and XOR-MAPPED-ADDRESS as its only attribute.
abbrev pub answer_header : List ℕ → List ℕ
answer_header tx_id =
    (to_be_bytes 2 0x0101 ++ (to_be_bytes 2 12 ++ to_be_bytes 4 0x2112A442)) ++ tx_id

abbrev pub xor_mapped_address : SocketAddr → List ℕ
xor_mapped_address addr =
    to_be_bytes 2 0x0020
    ++ (to_be_bytes 2 8
        ++ (0
            ∷ 1
            ∷ (to_be_bytes 2 (bit_xor addr.port 0x2112)
                ++ to_be_bytes 4 (bit_xor addr.ip 0x2112A442))))

abbrev pub answer_of : List ℕ → SocketAddr → List ℕ
answer_of tx_id addr = answer_header tx_id ++ xor_mapped_address addr

slice-after :
    (pre rest : List ℕ) (k n : ℕ) → slice (pre ++ rest) (length pre + k) n ≡ slice rest k n
unfolding slice
slice-after pre rest k n =
    ap (take n)
      (sym (drop-drop k (length pre) (pre ++ rest)) ∙ ap (drop k) (drop-append_length pre rest))

length-answer :
    (tx_id : List ℕ) (addr : SocketAddr) → length tx_id ≡ 12 → length (answer_of tx_id addr) ≡ 32
unfolding to_be_bytes
length-answer tx_id addr h = omega (arith, length-append tx_id (xor_mapped_address addr), h)

is_answer-answer_of :
    (tx_id : List ℕ) (addr : SocketAddr)
    → length tx_id ≡ 12
    → is_answer (answer_of tx_id addr) tx_id ≡ true
unfolding is_answer slice to_be_bytes from_be_bytes
is_answer-answer_of tx_id addr h = rw (
  ge→ltb_false (length (answer_of tx_id addr)) 20 (omega (arith, length-answer tx_id addr h)),
  ge→ltb_false (length (answer_of tx_id addr)) 32 (omega (arith, length-answer tx_id addr h)),
  ap (λ n. take n (tx_id ++ xor_mapped_address addr)) (sym h)
      ∙ take-append_length tx_id (xor_mapped_address addr),
  same_self tx_id,
)

parse_xor_lem :
    (addr : SocketAddr)
    → addr.ip < 2 ^ 32
    → addr.port < 2 ^ 16
    → parse_xor_mapped_address (drop 4 (xor_mapped_address addr)) ≡ some addr
unfolding parse_xor_mapped_address slice to_be_bytes
parse_xor_lem addr i p =
    ap₂ (λ x y. some (record { ip = x; port = y }))
      (ap (λ t. bit_xor t 0x2112A442)
          (from_be_bytes-to_be_bytes 4 (bit_xor addr.ip 0x2112A442)
            (bit_xor-lt 32 addr.ip 0x2112A442 i (omega arith)))
        ∙ bit_xor_cancel addr.ip 0x2112A442)
      (ap (λ t. bit_xor t 0x2112)
          (from_be_bytes-to_be_bytes 2 (bit_xor addr.port 0x2112)
            (bit_xor-lt 16 addr.port 0x2112 p (omega arith)))
        ∙ bit_xor_cancel addr.port 0x2112)

-- The parts of the attribute, in the buffer.
attribute_slice :
    (tx_id : List ℕ) (addr : SocketAddr) (k n : ℕ)
    → length tx_id ≡ 12
    → slice (answer_of tx_id addr) (20 + k) n ≡ slice (xor_mapped_address addr) k n
unfolding to_be_bytes
attribute_slice tx_id addr k n h =
    ap (λ p. slice (answer_of tx_id addr) (p + k) n) {x = 20} {y = length (answer_header tx_id)}
      (omega (arith, h))
    ∙ slice-after (answer_header tx_id) (xor_mapped_address addr) k n

value_of :
    (addr : SocketAddr) → slice (xor_mapped_address addr) 4 8 ≡ drop 4 (xor_mapped_address addr)
unfolding slice to_be_bytes
value_of addr = refl

le→leb : (a b : ℕ) → a ≤ b → leb a b ≡ true
le→leb a b h = ground arith

attributes-found :
    (fuel : ℕ) (buf : List ℕ) (end pos : ℕ) (fallback : Option SocketAddr) (addr : SocketAddr)
    → from_be_bytes (slice buf pos 2) ≡ 0x0020
    → from_be_bytes (slice buf (pos + 2) 2) ≡ 8
    → parse_xor_mapped_address (slice buf (pos + 4) 8) ≡ some addr
    → pos + 12 ≤ end
    → attributes (suc fuel) buf end pos fallback ≡ some (some addr)
unfolding attributes found
attributes-found fuel buf end pos fallback addr t l parsed room =
    rw (
      t,
      l,
      le→leb (pos + 4) end (omega arith),
      ge→ltb_false end (pos + 4 + 8) (omega arith),
      parsed,
    )

first_words :
    (addr : SocketAddr)
    → (from_be_bytes (slice (xor_mapped_address addr) 0 2) ≡ 0x0020)
      × (from_be_bytes (slice (xor_mapped_address addr) 2 2) ≡ 8)
unfolding to_be_bytes from_be_bytes slice
first_words addr = (refl, refl)

attributes-answer_of :
    (tx_id : List ℕ) (addr : SocketAddr)
    → length tx_id ≡ 12
    → addr.ip < 2 ^ 32
    → addr.port < 2 ^ 16
    → attributes 32 (answer_of tx_id addr) 32 20 none ≡ some (some addr)
attributes-answer_of tx_id addr h i p =
    attributes-found 31 (answer_of tx_id addr) 32 20 none addr
      (ap from_be_bytes (attribute_slice tx_id addr 0 2 h) ∙ (first_words addr).0)
      (ap from_be_bytes (attribute_slice tx_id addr 2 2 h) ∙ (first_words addr).1)
      (ap parse_xor_mapped_address (attribute_slice tx_id addr 4 8 h ∙ value_of addr)
        ∙ parse_xor_lem addr i p)
      (omega arith)

-- The success response of RFC 5389 with an IPv4 address and a port in XOR-MAPPED-ADDRESS, for a
-- transaction of 12 bytes, is parsed to that address and port. The address fits 32 bits and the
-- port 16.
pub parse_binding_response-answer_of :
    (tx_id : List ℕ) (addr : SocketAddr)
    → length tx_id ≡ 12
    → addr.ip < 2 ^ 32
    → addr.port < 2 ^ 16
    → parse_binding_response (answer_of tx_id addr) tx_id ≡ some (some addr)
unfolding parse_binding_response slice to_be_bytes from_be_bytes
parse_binding_response-answer_of tx_id addr h i p = rw (
  is_answer-answer_of tx_id addr h,
  length-answer tx_id addr h,
  attributes-answer_of tx_id addr h i p,
)
