-- ===== src/Stun/Examples.antt =====
-- Tests of STUN, and instances of the theorems about it.
use gravital_sound.Common.{
  ℕ, ◌≡◌, refl, arith, List, [], ◌∷◌, ◌++◌, take, replicate, Option, none, some, ok, err,
}
use gravital_sound.Stun.{
  SocketAddr, io, build_binding_request, parse_binding_response, do_stun_exchange, is_answer,
  attributes, found, remember, parse_xor_mapped_address, parse_mapped_address,
}
use gravital_sound.Wire.{to_be_bytes, from_be_bytes, slice}
use gravital_sound.Stun.Answers.{answer_of, parse_binding_response-answer_of}
use gravital_sound.Stun.Termination.{parse_binding_response-total}

abbrev tx : List ℕ
tx = replicate 12 7

abbrev addr : SocketAddr
addr = record { ip = 0xCB007142; port = 54321 }

-- The request of 20 bytes.
test_request : take 8 (build_binding_request tx) ≡ (0 ∷ 1 ∷ 0 ∷ 0 ∷ 0x21 ∷ 0x12 ∷ 0xA4 ∷ 0x42 ∷ [])
unfolding build_binding_request
test_request = refl

-- An answer of another transaction is passed over.
test_other : parse_binding_response (answer_of (replicate 12 8) addr) tx ≡ some none
unfolding parse_binding_response is_answer to_be_bytes from_be_bytes slice
test_other = refl

test_exchange :
    do_stun_exchange tx
      (ok (answer_of (replicate 12 8) addr) ∷ ok (answer_of tx addr) ∷ err io ∷ [])
    ≡ some (ok addr)
unfolding do_stun_exchange parse_binding_response is_answer to_be_bytes from_be_bytes slice
    attributes parse_xor_mapped_address
test_exchange = refl

-- `MAPPED-ADDRESS` alone is the fallback.
test_mapped :
    parse_binding_response
      (1
        ∷ 1
        ∷ 0
        ∷ 12
        ∷ 0x21
        ∷ 0x12
        ∷ 0xA4
        ∷ 0x42
        ∷ (tx ++ (0 ∷ 1 ∷ 0 ∷ 8 ∷ 0 ∷ 1 ∷ 0xD4 ∷ 0x31 ∷ 0xCB ∷ 0 ∷ 0x71 ∷ 0x42 ∷ [])))
      tx
    ≡ some (some addr)
unfolding parse_binding_response is_answer to_be_bytes from_be_bytes slice attributes found remember
    parse_mapped_address
test_mapped = refl

parse_binding_response-total_example :
    (answer : Option SocketAddr) × (parse_binding_response (answer_of tx addr) tx ≡ some answer)
parse_binding_response-total_example = parse_binding_response-total (answer_of tx addr) tx

parse_binding_response-answer_of_example :
    parse_binding_response (answer_of tx addr) tx ≡ some (some addr)
parse_binding_response-answer_of_example =
    parse_binding_response-answer_of tx addr refl (omega arith) (omega arith)
