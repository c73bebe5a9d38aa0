-- ===== src/MessageType/Codes.antt =====
-- Message types and their bytes correspond one to one.
use gravital_sound.Common.{ℕ, ◌≤◌, ◌≡◌, refl, sym, ap, ◌∙◌, ◌↔◌, true, ok, arith}
use gravital_sound.MessageType.{MessageType, extension, code, from_code, is_extension_code}
use gravital_sound.MessageType.{is_handshake, is_floor_control, is_auth}

-- The types that stand for a byte of the wire: an extension only in the reserved ranges.
abbrev pub IsCanonical : MessageType → Type 0
IsCanonical (extension b) = is_extension_code b ≡ true
IsCanonical _ = Unit {0}

code-from_code : (c : ℕ) {m : MessageType} → from_code c ≡ ok m → (code m ≡ c) × IsCanonical m
unfolding from_code code
code-from_code c h = ground arith

from_code-code : (m : MessageType) → IsCanonical m → from_code (code m) ≡ ok m
unfolding from_code code
from_code-code (extension b) h = ground arith
from_code-code _ h = refl

-- A byte is decoded to a message type exactly if it is the code of that type and the type is not
-- an extension outside the reserved ranges.
pub from_code_message :
    (c : ℕ) (m : MessageType) → (from_code c ≡ ok m) ↔ ((code m ≡ c) × IsCanonical m)
from_code_message c m = (code-from_code c, λ h. ap from_code (sym h.0) ∙ from_code-code m h.1)

-- Among the message types of the wire, the groups of handshake, floor control and authentication
-- messages are exactly three ranges of codes.
pub groups_iff :
    (m : MessageType)
    → IsCanonical m
    → ((is_handshake m ≡ true) ↔ (1 ≤ code m) × (code m ≤ 4))
      × ((is_floor_control m ≡ true) ↔ (0x40 ≤ code m) × (code m ≤ 0x44))
      × ((is_auth m ≡ true) ↔ (0x50 ≤ code m) × (code m ≤ 0x53))
unfolding is_handshake is_floor_control is_auth code
groups_iff (extension b) h = ground arith
groups_iff _ h = ground arith
