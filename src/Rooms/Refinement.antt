-- ===== src/Rooms/Refinement.antt =====
-- The table of rooms behaves as a partial map from codes to session numbers.
use gravital_sound.Common.{
  ℕ, ◌≡◌, refl, ap, ap₂, ◌∙◌, Bool, true, false, if◌then◌else◌, List, [], ◌∷◌, Option, none, some,
  inl, inr, Bool-cases,
}
use gravital_sound.Common.Same.{same, same_self, same→≡}
use gravital_sound.Rooms.Table.{Table, resolve_room, register_room, is_some, without, remove_room}

pub data RoomCall : Type 0 where
  register : List ℕ → ℕ → RoomCall
  resolve : List ℕ → RoomCall
  remove : List ℕ → RoomCall

pub data RoomAnswer : Type 0 where
  done : Bool → RoomAnswer
  found : Option ℕ → RoomAnswer

-- A call on the table.
abbrev pub call : Table → RoomCall → Table × RoomAnswer
call rooms (register code id) =
    ((register_room rooms code id).0, done (register_room rooms code id).1)
call rooms (resolve code) = (rooms, found (resolve_room rooms code))
call rooms (remove code) = ((remove_room rooms code).0, done (remove_room rooms code).1)

-- The answers to calls, in order.
abbrev pub answers : Table → List RoomCall → List RoomAnswer
answers rooms [] = []
answers rooms (c ∷ cs) = (call rooms c).1 ∷ answers (call rooms c).0 cs

-- What the relay promises: a map from codes to numbers. A code that is taken stays with the first.
abbrev pub RoomMap : Type 0
RoomMap = List ℕ → Option ℕ

abbrev pub with_value : RoomMap → List ℕ → Option ℕ → RoomMap
with_value rooms code value other = if same code other then value else rooms other

abbrev pub promised : RoomMap → RoomCall → RoomMap × RoomAnswer
promised rooms (register code id) =
    if is_some (rooms code)
    then (rooms, done false)
    else (with_value rooms code (some id), done true)
promised rooms (resolve code) = (rooms, found (rooms code))
promised rooms (remove code) = (with_value rooms code none, done (is_some (rooms code)))

abbrev pub promised_answers : RoomMap → List RoomCall → List RoomAnswer
promised_answers rooms [] = []
promised_answers rooms (c ∷ cs) = (promised rooms c).1 ∷ promised_answers (promised rooms c).0 cs

-- The table holds exactly the map.
abbrev Refines : Table → RoomMap → Type 0
Refines rooms spec = (code : List ℕ) → resolve_room rooms code ≡ spec code

-- An entry of the code that is removed is not seen behind the test for it.
removed :
    (code other : List ℕ) (id : ℕ) (later : Option ℕ)
    → (if same code other then none else later)
      ≡ (if same code other then none else (if same code other then some id else later))
removed code other id later = elim (Bool-cases (same code other)) [ inl e ↦ rw e | inr e ↦ rw e ]

-- An entry of another code stays.
kept :
    (key code other : List ℕ) (id : ℕ) (later : Option ℕ)
    → same key code ≡ false
    → (if same key other then some id else (if same code other then none else later))
      ≡ (if same code other then none else (if same key other then some id else later))
kept key code other id later differ = elim (Bool-cases (same code other)) [
  | inr e ↦ rw e
  | inl e ↦ elim (Bool-cases (same key other)) [
    | inr f ↦ rw (e, f)
    | inl f ↦ cc (ap₂ same (same→≡ key other f) (same→≡ code other e) ∙ same_self other, differ)
  ]
]

resolve_room-without :
    (rooms : Table) (code other : List ℕ)
    → resolve_room (without rooms code) other
      ≡ (if same code other then none else resolve_room rooms other)
unfolding resolve_room without
resolve_room-without [] code other = elim (Bool-cases (same code other)) [
  | inl e ↦ rw e
  | inr e ↦ rw e
]
resolve_room-without ((key, id) ∷ rest) code other = elim (Bool-cases (same key code)) [
  | inl here ↦
      rw (here, same→≡ key code here)
        (resolve_room-without rest code other ∙ removed code other id (resolve_room rest other))
  | inr there ↦ rw there (
      ap (λ t. if same key other then some id else t) (resolve_room-without rest code other)
      ∙ kept key code other id (resolve_room rest other) there)
]

step-Refines :
    (rooms : Table) (spec : RoomMap) (c : RoomCall)
    → Refines rooms spec
    → ((call rooms c).1 ≡ (promised spec c).1) × Refines (call rooms c).0 (promised spec c).0
unfolding register_room remove_room resolve_room
step-Refines rooms spec (register code id) h = elim (Bool-cases (is_some (spec code))) [
  | inl taken ↦ rw (ap is_some (h code) ∙ taken, register_room, taken) (refl, h)
  | inr free ↦
      rw (ap is_some (h code) ∙ free, register_room, free)
        (refl, λ other. ap (λ t. if same code other then some id else t) (h other))
]
step-Refines rooms spec (resolve code) h = (ap found (h code), h)
step-Refines rooms spec (remove code) h = (
  ap (λ t. done (is_some t)) (h code),
  λ other.
      resolve_room-without rooms code other
      ∙ ap (λ t. if same code other then none else t) (h other),
)

answers-Refines :
    (cs : List RoomCall) (rooms : Table) (spec : RoomMap)
    → Refines rooms spec
    → answers rooms cs ≡ promised_answers spec cs
answers-Refines [] rooms spec h = refl
answers-Refines (c ∷ cs) rooms spec h =
    let now = step-Refines rooms spec c h in
    ap₂ ◌∷◌ now.0 (answers-Refines cs (call rooms c).0 (promised spec c).0 now.1)

-- Over every sequence of calls of `register_room`, `resolve_room` and `remove_room` on the empty
-- table, the answers are those of a map from codes to session numbers in which a code that is
-- taken stays with the first number until it is removed.
pub answers-promised_answers :
    (cs : List RoomCall) → answers [] cs ≡ promised_answers (λ code. none) cs
unfolding resolve_room
answers-promised_answers cs = answers-Refines cs [] (λ code. none) (λ code. refl)
