-- ===== src/Floor/Examples.antt =====
-- Concrete floors.
use gravital_sound.Common.{ℕ, ◌≡◌, refl, List, [], ◌∷◌, ok, arith}
use gravital_sound.Floor.{FloorEvent, request, grant}
use gravital_sound.Floor.{FloorController, new, transition, is_holder}
use gravital_sound.Floor.Traces.{Granted, holder-Granted}
use gravital_sound.Common.{replicate}
use gravital_sound.Floor.Payload
use gravital_sound.Floor.Payload.{decode-encode_floor}

abbrev events : List (FloorEvent × ℕ)
events = (request, 5) ∷ (grant, 5) ∷ (request, 6) ∷ []

abbrev free : FloorController
free = new 30000

holder-Granted_example : Granted 5 (new 30000) events
unfolding new transition is_holder
holder-Granted_example = holder-Granted 30000 events 5 refl

abbrev floor_payload : Payload.FloorPayload
floor_payload = record { ssrc = 77 }

test_floor_bytes :
    (out : List ℕ) × (Payload.encode floor_payload (replicate 4 0) ≡ ok out)
    × (Payload.decode out ≡ ok floor_payload)
test_floor_bytes = decode-encode_floor floor_payload (replicate 4 0) (omega arith) (omega arith)
