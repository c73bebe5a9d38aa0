-- ===== src/Fragment/Slots.antt =====
-- The slots of a reassembler against the fragments of one frame.
use gravital_sound.Common.{ℕ, zero, suc, ◌≤◌, ◌<◌, ◌≡◌, refl, ap, ◌⊎◌, inl, inr, arith}
use gravital_sound.Common.{List, [], ◌∷◌, ◌++◌, Option, none, some, length, get_elem?, set}
use gravital_sound.Common.{replicate, true, false}
use gravital_sound.Fragment.{flatten, slot_is_some}

abbrev pub Slots : Type 0
Slots = List (Option (List ℕ))

-- How many slots hold a fragment.
unfoldable pub filled : Slots → ℕ
filled [] = 0
filled (none ∷ bs) = filled bs
filled (some b ∷ bs) = suc (filled bs)

-- The frame that the fragments make up.
unfoldable pub concat : List (List ℕ) → List ℕ
concat [] = []
concat (p ∷ ps) = p ++ concat ps

-- Each slot is empty or holds its own fragment.
abbrev pub Agrees : Slots → List (List ℕ) → Type 0
Agrees [] [] = Unit
Agrees [] (p ∷ ps) = ⊥
Agrees (b ∷ bs) [] = ⊥
Agrees (b ∷ bs) (p ∷ ps) = ((b ≡ none) ⊎ (b ≡ some p)) × Agrees bs ps

pub filled-le : (bs : Slots) → filled bs ≤ length bs
unfolding filled
filled-le [] = omega arith
filled-le (none ∷ bs) = omega (arith, filled-le bs)
filled-le (some b ∷ bs) = omega (arith, filled-le bs)

pub filled-replicate : (n : ℕ) → filled (replicate n none) ≡ 0
unfolding filled
filled-replicate zero = refl
filled-replicate (suc n) = filled-replicate n

pub Agrees-length : (bs : Slots) (ps : List (List ℕ)) → Agrees bs ps → length bs ≡ length ps
Agrees-length [] [] h = refl
Agrees-length [] (p ∷ ps) h = absurd h
Agrees-length (b ∷ bs) [] h = absurd h
Agrees-length (b ∷ bs) (p ∷ ps) h = ap suc (Agrees-length bs ps h.1)

pub Agrees-replicate : (ps : List (List ℕ)) → Agrees (replicate (length ps) none) ps
Agrees-replicate [] = tt
Agrees-replicate (p ∷ ps) = (inl refl, Agrees-replicate ps)

-- Filling an empty slot counts one more.
pub filled-set :
    (bs : Slots) (i : ℕ) (p : List ℕ)
    → i < length bs
    → slot_is_some bs i ≡ false
    → filled (set bs i (some p)) ≡ suc (filled bs)
unfolding filled slot_is_some
filled-set [] i p h e = absurd (omega arith)
filled-set (none ∷ bs) zero p h e = refl
filled-set (some b ∷ bs) zero p h e = cc
filled-set (none ∷ bs) (suc i) p h e = filled-set bs i p (omega arith) e
filled-set (some b ∷ bs) (suc i) p h e = ap suc (filled-set bs i p (omega arith) e)

pub Agrees-set :
    (bs : Slots) (ps : List (List ℕ)) (i : ℕ) (p : List ℕ)
    → Agrees bs ps
    → get_elem? ps i ≡ some p
    → Agrees (set bs i (some p)) ps
Agrees-set [] [] i p h e = tt
Agrees-set [] (q ∷ ps) i p h e = absurd h
Agrees-set (b ∷ bs) [] i p h e = absurd h
Agrees-set (b ∷ bs) (q ∷ ps) zero p h e = (inr (cc), h.1)
Agrees-set (b ∷ bs) (q ∷ ps) (suc i) p h e = (h.0, Agrees-set bs ps i p h.1 e)

-- When every slot is filled the slots hold the frame, in the order of the indices.
pub flatten-filled :
    (bs : Slots) (ps : List (List ℕ))
    → Agrees bs ps
    → filled bs ≡ length ps
    → flatten bs ≡ concat ps
unfolding filled flatten concat
flatten-filled [] [] h e = refl
flatten-filled [] (p ∷ ps) h e = absurd h
flatten-filled (b ∷ bs) [] h e = absurd h
flatten-filled (none ∷ bs) (p ∷ ps) h e =
    absurd (omega (arith, filled-le bs, Agrees-length bs ps h.1))
flatten-filled (some b ∷ bs) (p ∷ ps) (inl n, t) e = cc
flatten-filled (some b ∷ bs) (p ∷ ps) (inr s, t) e =
    let ih = flatten-filled bs ps t (omega arith) in cc

-- Every slot that is tested is filled.
pub filled-all :
    (bs : Slots) → ((i : ℕ) → i < length bs → slot_is_some bs i ≡ true) → filled bs ≡ length bs
unfolding filled slot_is_some
filled-all [] h = refl
filled-all (none ∷ bs) h = cc (h 0 (omega arith))
filled-all (some b ∷ bs) h = ap suc (filled-all bs (λ i lt. h (suc i) (omega arith)))

pub slot-set_self :
    (bs : Slots) (i : ℕ) (p : List ℕ) → i < length bs → slot_is_some (set bs i (some p)) i ≡ true
unfolding slot_is_some
slot-set_self [] i p h = absurd (omega arith)
slot-set_self (b ∷ bs) zero p h = refl
slot-set_self (b ∷ bs) (suc i) p h = slot-set_self bs i p (omega arith)

-- A filled slot stays filled.
pub slot-set :
    (bs : Slots) (i j : ℕ) (p : List ℕ)
    → slot_is_some bs j ≡ true
    → slot_is_some (set bs i (some p)) j ≡ true
unfolding slot_is_some
slot-set [] i j p h = h
slot-set (b ∷ bs) zero zero p h = refl
slot-set (b ∷ bs) zero (suc j) p h = h
slot-set (b ∷ bs) (suc i) zero p h = h
slot-set (b ∷ bs) (suc i) (suc j) p h = slot-set bs i j p h

pub all-filled :
    (bs : Slots) (i : ℕ) → filled bs ≡ length bs → i < length bs → slot_is_some bs i ≡ true
unfolding filled slot_is_some
all-filled [] i e h = absurd (omega arith)
all-filled (none ∷ bs) i e h = absurd (omega (arith, filled-le bs))
all-filled (some b ∷ bs) zero e h = refl
all-filled (some b ∷ bs) (suc i) e h = all-filled bs i (omega arith) (omega arith)
