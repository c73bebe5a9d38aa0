-- ===== src/Fragment/Examples.antt =====
-- A frame of three fragments that arrive out of order, one of them twice.
use gravital_sound.Common.{ℕ, ◌≡◌, ◌<◌, refl, List, [], ◌∷◌, ok, err, arith, ◌⊎◌, ◌↔◌, true, none}
use gravital_sound.Common.Runs.{run}
use gravital_sound.Protocol.{incomplete_reassembly}
use gravital_sound.Fragment.{
  FragmentReassembler, new, insert, is_complete, finish, advance, slot_is_some,
}
use gravital_sound.Fragment.Reassembly.{IsValid, Arrives, insert-IsValid, is_complete_iff}
use gravital_sound.Fragment.Reassembly.{finish_sound, finish_complete}
use gravital_sound.Fragment.Slots.{concat, filled}
use gravital_sound.Common.{replicate}
use gravital_sound.Fragment.Header
use gravital_sound.Fragment.Header.{FragmentHeader, decode-encode_fragment, encode-decode_fragment}

abbrev frame : List (List ℕ)
frame = (1 ∷ 2 ∷ []) ∷ (3 ∷ []) ∷ (4 ∷ 5 ∷ []) ∷ []

abbrev arrivals : List (ℕ × List ℕ)
arrivals = (2, (4 ∷ 5 ∷ [])) ∷ (0, (1 ∷ 2 ∷ [])) ∷ (2, (4 ∷ 5 ∷ [])) ∷ (1, (3 ∷ [])) ∷ []

abbrev fresh : FragmentReassembler
fresh = record { expected_total = 3; buffers = none ∷ none ∷ none ∷ []; received = 0 }

fresh-IsValid : IsValid fresh
unfolding filled
fresh-IsValid = omega arith

test_new : new 3 ≡ ok fresh
unfolding new
test_new = refl

all_arrive : (i : ℕ) → i < 3 → Arrives i arrivals
all_arrive i h = ground arith

insert-IsValid_example : IsValid (insert fresh 1 (3 ∷ [])).0
insert-IsValid_example = insert-IsValid fresh 1 (3 ∷ []) fresh-IsValid

test_is_complete_iff :
    (is_complete fresh ≡ true) ↔ ((i : ℕ) → i < 3 → slot_is_some (none ∷ none ∷ none ∷ []) i ≡ true)
test_is_complete_iff = is_complete_iff fresh fresh-IsValid

finish_sound_example :
    (finish (run advance fresh arrivals) ≡ ok (concat frame))
    ⊎ (finish (run advance fresh arrivals) ≡ err incomplete_reassembly)
finish_sound_example = finish_sound frame arrivals test_new (refl, (refl, (refl, (refl, tt))))

finish_complete_example : finish (run advance fresh arrivals) ≡ ok (concat frame)
finish_complete_example =
    finish_complete frame arrivals test_new (refl, (refl, (refl, (refl, tt)))) all_arrive

abbrev sub_header : FragmentHeader
sub_header = record { index = 2; total = 3 }

test_fragment_bytes : Header.encode sub_header (replicate 4 0) ≡ ok (0 ∷ 2 ∷ 0 ∷ 3 ∷ [])
unfolding Header.decode gravital_sound.Wire.from_be_bytes gravital_sound.Wire.slice
test_fragment_bytes =
    encode-decode_fragment (0 ∷ 2 ∷ 0 ∷ 3 ∷ []) (replicate 4 0) (omega arith) refl (omega arith)
