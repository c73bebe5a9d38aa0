-- ===== src/Rooms/Examples.antt =====
-- Tests of the rooms, and instances of the theorems about them.
use gravital_sound.Common.{ℕ, ◌≡◌, refl, true, false, List, [], ◌∷◌, none, some}
use gravital_sound.Rooms.{generate_code, is_valid_code}
use gravital_sound.Rooms.Codes.{generate_code-is_valid_code}
use gravital_sound.Rooms.Refinement.{
  RoomCall, register, resolve, remove, done, found, answers, promised_answers,
  answers-promised_answers,
}

abbrev code_of : ℕ → List ℕ
code_of last = b'A' ∷ b'B' ∷ b'C' ∷ b'D' ∷ b'-' ∷ b'2' ∷ b'3' ∷ b'4' ∷ last ∷ []

test_valid : is_valid_code (code_of b'5') ≡ true
unfolding is_valid_code
test_valid = refl

-- The digit 0 is not in the alphabet.
test_invalid : is_valid_code (code_of b'0') ≡ false
unfolding is_valid_code
test_invalid = refl

-- `room_registry_roundtrip` of router.rs
abbrev calls : List RoomCall
calls =
    register (code_of b'5') 42
    ∷ resolve (code_of b'5')
    ∷ register (code_of b'5') 99
    ∷ remove (code_of b'5')
    ∷ resolve (code_of b'5')
    ∷ []

answers-promised_answers_example : answers [] calls ≡ promised_answers (λ code. none) calls
answers-promised_answers_example = answers-promised_answers calls

test_promised :
    promised_answers (λ code. none) calls
    ≡ (done true ∷ found (some 42) ∷ done false ∷ done true ∷ found none ∷ [])
test_promised = refl

generate_code-is_valid_code_example : is_valid_code (generate_code 1700000000 3) ≡ true
generate_code-is_valid_code_example = generate_code-is_valid_code 1700000000 3
