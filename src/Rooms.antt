-- ===== src/Rooms.antt =====
-- crates/gravital-talk-relay/src/rooms.rs: codes of rooms that people can read out.
-- A string is the list of its bytes. The time and the counter that seed a code are arguments.
pub mod Codes
pub mod Table
pub mod Refinement
mod Examples
use gravital_sound.Common.{
  ℕ, ◌+◌, ◌*◌, ◌/◌, ◌%◌, ◌^◌, Bool, true, false, not, ◌&&◌, ◌||◌, ◌==◌, if◌then◌else◌, bit_xor,
}
use gravital_sound.Common.{List, [], ◌∷◌, length, take, drop, get_or}
use gravital_sound.Common.Same.{contains}

-- `LETTERS`
abbrev pub letters : List ℕ
letters =
    b'A' ∷ b'B' ∷ b'C' ∷ b'D' ∷ b'E' ∷ b'F' ∷ b'G' ∷ b'H' ∷ b'J' ∷ b'K' ∷ b'L' ∷ b'M' ∷ b'N' ∷ b'P'
    ∷ b'R' ∷ b'S' ∷ b'T' ∷ b'U' ∷ b'V' ∷ b'W' ∷ b'X' ∷ b'Y' ∷ b'Z' ∷ []

-- `DIGITS`
abbrev pub digits : List ℕ
digits = b'2' ∷ b'3' ∷ b'4' ∷ b'5' ∷ b'6' ∷ b'7' ∷ b'8' ∷ b'9' ∷ []

-- `rng` after a call of `next`.
unfoldable pub step : ℕ → ℕ
step rng = (rng * 6364136223846793005 + 1442695040888963407) % 2 ^ 64

-- What the call returns: `(rng >> 33) as u8`.
abbrev pub output : ℕ → ℕ
output rng = rng / 2 ^ 33 % 256

-- `LETTERS[(next() % l) as usize]` and `DIGITS[(next() % d) as usize]`.
abbrev pub pick : List ℕ → ℕ → ℕ
pick alphabet n = get_or alphabet (n % length alphabet) 0

-- The seed of `generate_code`.
abbrev pub seed_of : ℕ → ℕ → ℕ
seed_of nanos counter = (nanos + counter * 6364136223846793005 % 2 ^ 64) % 2 ^ 64

-- `generate_code`
unfoldable pub generate_code : ℕ → ℕ → List ℕ
generate_code nanos counter =
    let r1 = step (seed_of nanos counter) in
    let r2 = step r1 in
    let r3 = step r2 in
    let r4 = step r3 in
    let r5 = step r4 in
    let r6 = step r5 in
    let r7 = step r6 in
    let r8 = step r7 in
    pick letters (output r1)
    ∷ pick letters (output r2)
    ∷ pick letters (output r3)
    ∷ pick letters (output r4)
    ∷ b'-'
    ∷ pick digits (output r5)
    ∷ pick digits (output r6)
    ∷ pick digits (output r7)
    ∷ pick digits (output r8)
    ∷ []

-- `iter().all(|b| alphabet.contains(b))`
abbrev pub all_in : List ℕ → List ℕ → Bool
all_in alphabet [] = true
all_in alphabet (b ∷ bs) = contains alphabet b && all_in alphabet bs

-- `is_valid_code`
unfoldable pub is_valid_code : List ℕ → Bool
is_valid_code code =
    if not (length code == 9) || not (get_or code 4 0 == b'-')
    then false
    else all_in letters (take 4 code) && all_in digits (drop 5 code)

-- `generate_session_id`
unfoldable pub generate_session_id : ℕ → ℕ → ℕ
generate_session_id nanos counter =
    let h = (nanos + counter * 2654435761 % 2 ^ 64) % 2 ^ 64 in
    let id = bit_xor h (h / 2 ^ 32) % 2 ^ 32 in if id == 0 then 0xDEADBEEF else id
