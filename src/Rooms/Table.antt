-- ===== src/Rooms/Table.antt =====
-- crates/gravital-talk-relay/src/router.rs: the table of the codes of open rooms.
-- The `DashMap` is an association list.
use gravital_sound.Common.{ℕ, Bool, true, false, if◌then◌else◌, List, [], ◌∷◌, Option, none, some}
use gravital_sound.Common.Same.{same}

abbrev pub Table : Type 0
Table = List (List ℕ × ℕ)

-- `resolve_room`
unfoldable pub resolve_room : Table → List ℕ → Option ℕ
resolve_room [] code = none
resolve_room ((key, session_id) ∷ rest) code =
    let later = resolve_room rest code in if same key code then some session_id else later

-- `is_some`
abbrev pub is_some {ℓ} : {A : Type ℓ} → Option A → Bool
is_some none = false
is_some (some a) = true

-- `register_room`
unfoldable pub register_room : Table → List ℕ → ℕ → Table × Bool
register_room rooms code session_id =
    if is_some (resolve_room rooms code) then (rooms, false) else ((code, session_id) ∷ rooms, true)

-- `self.rooms.remove(code)`
unfoldable pub without : Table → List ℕ → Table
without [] code = []
without ((key, session_id) ∷ rest) code =
    let later = without rest code in if same key code then later else (key, session_id) ∷ later

-- `remove_room`
unfoldable pub remove_room : Table → List ℕ → Table × Bool
remove_room rooms code = (without rooms code, is_some (resolve_room rooms code))
