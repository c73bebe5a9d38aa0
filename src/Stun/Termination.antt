-- ===== src/Stun/Termination.antt =====
-- The loop over the attributes ends.
use gravital_sound.Common.{
  ℕ, zero, suc, ◌+◌, ◌*◌, ◌≤◌, ◌≡◌, inl, inr, arith, List, length, Option, none, some, true,
  Option-cases, Bool-cases, not, ◌||◌, leb, ltb,
}
use gravital_sound.Wire.{slice, from_be_bytes}
use gravital_sound.Stun.{
  SocketAddr, attributes, found, remember, padded, parse_binding_response, is_answer,
}

-- A round whose two tests pass goes on, or has found the address.
attributes-round :
    (fuel : ℕ) (buf : List ℕ) (end pos : ℕ) (fallback : Option SocketAddr)
    (next : Option SocketAddr)
    → attributes fuel buf end (pos + 4 + padded (from_be_bytes (slice buf (pos + 2) 2))) (
        remember
          (from_be_bytes (slice buf pos 2))
          (slice buf (pos + 4) (from_be_bytes (slice buf (pos + 2) 2)))
          fallback)
      ≡ some next
    → (answer : Option SocketAddr) × (attributes (suc fuel) buf end pos fallback ≡ some answer)
unfolding attributes
attributes-round fuel buf end pos fallback next e =
    elim (Bool-cases
      (not (leb (pos + 4) end) || ltb end (pos + 4 + from_be_bytes (slice buf (pos + 2) 2)))) [
        | inl stop ↦ (fallback, rw stop)
        | inr go ↦
            elim (Option-cases (
              found (from_be_bytes (slice buf pos 2))
                (slice buf (pos + 4) (from_be_bytes (slice buf (pos + 2) 2))))) [
                  | inl missing ↦ (next, rw (go, missing, e))
                  | inr (addr, here) ↦ (some addr, rw (go, here))
                ]
      ]

-- A unit of fuel for each four bytes of the rest of the buffer is enough.
attributes-total :
    (fuel : ℕ) (buf : List ℕ) (end pos : ℕ) (fallback : Option SocketAddr)
    → end ≤ pos + 4 * fuel + 3
    → (answer : Option SocketAddr) × (attributes fuel buf end pos fallback ≡ some answer)
unfolding attributes
attributes-total zero buf end pos fallback h = (fallback, ground arith)
attributes-total (suc fuel) buf end pos fallback h =
    let rest =
      attributes-total fuel buf end (pos + 4 + padded (from_be_bytes (slice buf (pos + 2) 2)))
        (remember (from_be_bytes (slice buf pos 2))
          (slice buf (pos + 4) (from_be_bytes (slice buf (pos + 2) 2))) fallback)
        (omega (arith, h)) in
    attributes-round fuel buf end pos fallback rest.0 rest.1

is_answer-length :
    (buf tx_id : List ℕ)
    → is_answer buf tx_id ≡ true
    → 20 + from_be_bytes (slice buf 2 2) ≤ length buf
unfolding is_answer
is_answer-length buf tx_id h = ground arith

-- For every buffer and transaction the loop over the attributes ends within the fuel that
-- `parse_binding_response` gives it: the result is an address or none, never that the fuel is
-- used up.
pub parse_binding_response-total :
    (buf tx_id : List ℕ)
    → (answer : Option SocketAddr) × (parse_binding_response buf tx_id ≡ some answer)
unfolding parse_binding_response
parse_binding_response-total buf tx_id = elim (Bool-cases (is_answer buf tx_id)) [
  | inr other ↦ (none, rw other)
  | inl answer ↦
      let loop =
        attributes-total (length buf) buf (20 + from_be_bytes (slice buf 2 2)) 20 none
          (omega (arith, is_answer-length buf tx_id answer)) in
      (loop.0, rw (answer, loop.1))
]
