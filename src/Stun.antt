-- ===== src/Stun.antt =====
-- crates/gravital-talk-transport/src/stun.rs: requests and answers of STUN (RFC 5389).
pub mod Answers
pub mod Termination
mod Examples
use gravital_sound.Common.{
  ℕ, zero, suc, ◌+◌, ◌*◌, ◌/◌, Bool, true, false, not, ◌||◌, ◌&&◌, ltb, leb, ◌==◌, if◌then◌else◌,
  bit_xor,
}
use gravital_sound.Common.{
  List, [], ◌∷◌, length, take, replicate, Option, none, some, Result, ok, err,
}
use gravital_sound.Common.Same.{same}
use gravital_sound.Wire.{slice, byte_at, copy_from_slice, to_be_bytes, from_be_bytes}

abbrev pub magic_cookie : ℕ
magic_cookie = 0x2112A442

abbrev pub binding_request : ℕ
binding_request = 0x0001

abbrev pub binding_response : ℕ
binding_response = 0x0101

abbrev pub attr_xor_mapped_address : ℕ
attr_xor_mapped_address = 0x0020

abbrev pub attr_mapped_address : ℕ
attr_mapped_address = 0x0001

abbrev pub family_ipv4 : ℕ
family_ipv4 = 0x01

-- An IPv4 address and a port, as numbers.
pub record SocketAddr : Type 0 where
  pub ip : ℕ  -- u32
  pub port : ℕ  -- u16

pub data StunError : Type 0 where
  io timeout malformed resolve : StunError

-- `build_binding_request`
unfoldable pub build_binding_request : List ℕ → List ℕ
unfolding copy_from_slice to_be_bytes
build_binding_request tx_id =
    copy_from_slice
      (copy_from_slice
        (copy_from_slice (copy_from_slice (replicate 20 0) 0 (to_be_bytes 2 binding_request)) 2
          (to_be_bytes 2 0))
        4 (to_be_bytes 4 magic_cookie))
      8 tx_id

-- `parse_xor_mapped_address`
unfoldable pub parse_xor_mapped_address : List ℕ → Option SocketAddr
parse_xor_mapped_address val =
    if ltb (length val) 8 || not (byte_at val 1 == family_ipv4)
    then none
    else some (record {
      ip = bit_xor (from_be_bytes (slice val 4 4)) magic_cookie;
      port = bit_xor (from_be_bytes (slice val 2 2)) (magic_cookie / 65536);
    })

-- `parse_mapped_address`
unfoldable pub parse_mapped_address : List ℕ → Option SocketAddr
parse_mapped_address val =
    if ltb (length val) 8 || not (byte_at val 1 == family_ipv4)
    then none
    else some (record { ip = from_be_bytes (slice val 4 4); port = from_be_bytes (slice val 2 2) })

-- The arm of the first attribute, which returns.
unfoldable pub found : ℕ → List ℕ → Option SocketAddr
found attr_type attr_val =
    if attr_type == attr_xor_mapped_address then parse_xor_mapped_address attr_val else none

-- The arm of the second one, which only remembers the address.
unfoldable pub remember : ℕ → List ℕ → Option SocketAddr → Option SocketAddr
remember attr_type attr_val fallback =
    if not (attr_type == attr_mapped_address)
    then fallback
    else elim (parse_mapped_address attr_val) [ some addr ↦ some addr | none ↦ fallback ]

-- `(attr_len + 3) & !3`
abbrev pub padded : ℕ → ℕ
padded attr_len = (attr_len + 3) / 4 * 4

-- The loop over the attributes from `pos` on. `none` says that the fuel was not enough.
unfoldable pub attributes : ℕ → List ℕ → ℕ → ℕ → Option SocketAddr → Option (Option SocketAddr)
unfolding found remember
attributes zero buf end pos fallback = if leb (pos + 4) end then none else some fallback
attributes (suc fuel) buf end pos fallback =
    let attr_type = from_be_bytes (slice buf pos 2) in
    let attr_len = from_be_bytes (slice buf (pos + 2) 2) in
    let attr_val = slice buf (pos + 4) attr_len in
    let next =
      attributes fuel buf end (pos + 4 + padded attr_len) (remember attr_type attr_val fallback) in
    if not (leb (pos + 4) end) || ltb end (pos + 4 + attr_len)
    then some fallback
    else elim (found attr_type attr_val) [ some addr ↦ some (some addr) | none ↦ next ]

-- The tests at the start of `parse_binding_response`, on the header.
unfoldable pub is_answer : List ℕ → List ℕ → Bool
is_answer buf expected_tx_id =
    not (ltb (length buf) 20)
    && ((from_be_bytes (slice buf 0 2) == binding_response)
        && (not (ltb (length buf) (20 + from_be_bytes (slice buf 2 2)))
            && ((from_be_bytes (slice buf 4 4) == magic_cookie)
                && same (slice buf 8 12) expected_tx_id)))

-- `parse_binding_response`; every round of the loop takes at least four bytes.
unfoldable pub parse_binding_response : List ℕ → List ℕ → Option (Option SocketAddr)
parse_binding_response buf expected_tx_id =
    if not (is_answer buf expected_tx_id)
    then some none
    else attributes (length buf) buf (20 + from_be_bytes (slice buf 2 2)) 20 none

-- The loop of `do_stun_exchange` on what arrives; with nothing more it is still waiting.
unfoldable pub do_stun_exchange :
    List ℕ → List (Result StunError (List ℕ)) → Option (Result StunError SocketAddr)
do_stun_exchange tx_id [] = none
do_stun_exchange tx_id (err e ∷ rest) = some (err e)
do_stun_exchange tx_id (ok buf ∷ rest) =
    let later = do_stun_exchange tx_id rest in
    elim (parse_binding_response buf tx_id) [
      | some (some addr) ↦ some (ok addr)
      | some none ↦ later
      | none ↦ none
    ]
