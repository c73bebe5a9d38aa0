-- ===== src/Fragment/Reassembly.antt =====
-- Reassembly gives the frame back, whatever the order and the repetitions of the fragments.
use gravital_sound.Common.{ℕ, ◌≤◌, ◌<◌, ◌≡◌, ap, ◌∙◌, ◌⊎◌, inl, inr, arith, ◌↔◌}
use gravital_sound.Common.{List, [], ◌∷◌, Option, none, some, length, get_elem?, set}
use gravital_sound.Common.{
  true, ok, err, All, Bool-cases, length-set, length-replicate, subst, if◌then◌else◌,
}
use gravital_sound.Common.Runs.{run}
use gravital_sound.Protocol.{max_fragments, incomplete_reassembly}
use gravital_sound.Fragment.{FragmentReassembler, new, insert, is_complete, finish, advance}
use gravital_sound.Fragment.{slot_is_some}
use gravital_sound.Fragment.Slots.{filled, concat, Agrees, filled-le, filled-replicate}
use gravital_sound.Fragment.Slots.{
  Agrees-replicate, filled-set, Agrees-set, flatten-filled, filled-all,
}
use gravital_sound.Fragment.Slots.{slot-set_self, slot-set, all-filled}

abbrev empty_slot : Option (List ℕ)
empty_slot = none

-- There is a slot for each fragment, and `received` counts the filled ones.
pub record IsValid (r : FragmentReassembler) : Type 0 where
  pub slots : length r.buffers ≡ r.expected_total
  pub some_expected : 0 < r.expected_total
  pub few : r.expected_total ≤ max_fragments
  pub counted : r.received ≡ filled r.buffers

-- `new` gives a valid reassembler for 1 to 16 fragments, and an error for any other number.
pub new-IsValid :
    (total : ℕ) {r : FragmentReassembler}
    → new total ≡ ok r
    → IsValid r × (r.expected_total ≡ total) × (filled r.buffers ≡ 0)
unfolding new
new-IsValid total h = ground (arith, length-replicate total empty_slot, filled-replicate total)

-- `insert` keeps the invariant that there is a slot for each of at most 16 fragments and that
-- `received` counts the filled ones, in the error cases too.
pub insert-IsValid :
    (r : FragmentReassembler) (index : ℕ) (payload : List ℕ)
    → IsValid r
    → IsValid (insert r index payload).0
unfolding insert
insert-IsValid r index payload v = ground (
  arith,
  length-set r.buffers index (some payload),
  filled-set r.buffers index payload,
  filled-le r.buffers,
  filled-le (set r.buffers index (some payload)),
)

-- In a valid reassembler `is_complete` holds exactly if every slot is filled.
pub is_complete_iff :
    (r : FragmentReassembler)
    → IsValid r
    → (is_complete r ≡ true) ↔ ((i : ℕ) → i < r.expected_total → slot_is_some r.buffers i ≡ true)
unfolding is_complete
is_complete_iff r v = (
  λ h i lt. all-filled r.buffers i (ground arith) (omega arith),
  λ h. ground (arith, filled-all r.buffers (λ i lt. h i (omega arith))),
)

-- The reassembler holds fragments of the frame `ps` and nothing else.
record Holds (ps : List (List ℕ)) (r : FragmentReassembler) : Type 0 where
  valid : IsValid r
  total : r.expected_total ≡ length ps
  agrees : Agrees r.buffers ps

new-Holds : (ps : List (List ℕ)) {r : FragmentReassembler} → new (length ps) ≡ ok r → Holds ps r
unfolding new
new-Holds ps {r} h = record {
  valid = (new-IsValid (length ps) h).0;
  total = (new-IsValid (length ps) h).1;
  agrees = ground (arith, Agrees-replicate ps);
}

insert-Holds :
    (ps : List (List ℕ)) (r : FragmentReassembler) (i : ℕ) (p : List ℕ)
    → Holds ps r
    → get_elem? ps i ≡ some p
    → Holds ps (insert r i p).0
insert-Holds ps r i p h e = record {
  valid = insert-IsValid r i p h.valid;
  total = unfold insert in ground (arith, h.total);
  agrees = unfold insert in ground (arith, h.agrees, Agrees-set r.buffers ps i p);
}

-- The fragments that arrive are fragments of `ps`, under their own index.
abbrev pub Genuine : List (List ℕ) → List (ℕ × List ℕ) → Type 0
Genuine ps arrivals = All (λ a. get_elem? ps a.0 ≡ some a.1) arrivals

run-Holds :
    (ps : List (List ℕ)) (arrivals : List (ℕ × List ℕ)) (r : FragmentReassembler)
    → Holds ps r
    → Genuine ps arrivals
    → Holds ps (run advance r arrivals)
run-Holds ps [] r h g = h
run-Holds ps (a ∷ rest) r h g =
    run-Holds ps rest (advance r a) (insert-Holds ps r a.0 a.1 h g.0) g.1

-- A slot is filled by the arrival of its fragment, and stays filled.
insert-slot :
    (r : FragmentReassembler) (i j : ℕ) (p : List ℕ)
    → slot_is_some r.buffers j ≡ true
    → slot_is_some (insert r i p).0.buffers j ≡ true
unfolding insert
insert-slot r i j p h = ground (arith, slot-set r.buffers i j p)

insert-slot_self :
    (r : FragmentReassembler) (i : ℕ) (p : List ℕ)
    → IsValid r
    → i < r.expected_total
    → slot_is_some (insert r i p).0.buffers i ≡ true
unfolding insert
insert-slot_self r i p v h = ground (arith, slot-set_self r.buffers i p)

run-slot :
    (arrivals : List (ℕ × List ℕ)) (r : FragmentReassembler) (j : ℕ)
    → slot_is_some r.buffers j ≡ true
    → slot_is_some (run advance r arrivals).buffers j ≡ true
run-slot [] r j h = h
run-slot (a ∷ rest) r j h = run-slot rest (advance r a) j (insert-slot r a.0 j a.1 h)

-- A fragment with the index `i` is among the arrivals.
abbrev pub Arrives : ℕ → List (ℕ × List ℕ) → Type 0
Arrives i [] = ⊥
Arrives i (a ∷ rest) = (a.0 ≡ i) ⊎ Arrives i rest

run-slot_Arrives :
    (ps : List (List ℕ)) (arrivals : List (ℕ × List ℕ)) (r : FragmentReassembler) (i : ℕ)
    → Holds ps r
    → Genuine ps arrivals
    → i < length ps
    → Arrives i arrivals
    → slot_is_some (run advance r arrivals).buffers i ≡ true
run-slot_Arrives ps [] r i h g lt here = absurd here
run-slot_Arrives ps (a ∷ rest) r i h g lt (inl e) = run-slot rest (advance r a) i (
    subst (λ k. slot_is_some (insert r a.0 a.1).0.buffers k ≡ true) e
      (insert-slot_self r a.0 a.1 h.valid (omega (arith, e, h.total))))
run-slot_Arrives ps (a ∷ rest) r i h g lt (inr later) =
    run-slot_Arrives ps rest (advance r a) i (insert-Holds ps r a.0 a.1 h g.0) g.1 lt later

finish-Holds :
    (ps : List (List ℕ)) (r : FragmentReassembler)
    → Holds ps r
    → finish r ≡ (if is_complete r then ok (concat ps) else err incomplete_reassembly)
unfolding finish is_complete
finish-Holds ps r h = ground (arith, h.total, h.valid.counted, flatten-filled r.buffers ps h.agrees)

-- After any arrivals of fragments of one frame, in any order and with any repetitions, `finish`
-- returns either that frame or `IncompleteReassembly`, never another frame.
pub finish_sound :
    (ps : List (List ℕ)) (arrivals : List (ℕ × List ℕ)) {r : FragmentReassembler}
    → new (length ps) ≡ ok r
    → Genuine ps arrivals
    → (finish (run advance r arrivals) ≡ ok (concat ps))
      ⊎ (finish (run advance r arrivals) ≡ err incomplete_reassembly)
finish_sound ps arrivals {r} made g =
    let h =
      finish-Holds ps (run advance r arrivals) (run-Holds ps arrivals r (new-Holds ps made) g) in
    elim (Bool-cases (is_complete (run advance r arrivals))) [
      | inl c ↦ inl (h ∙ ap (λ b. if b then ok (concat ps) else err incomplete_reassembly) c)
      | inr c ↦ inr (h ∙ ap (λ b. if b then ok (concat ps) else err incomplete_reassembly) c)
    ]

-- Once every fragment of a frame has arrived, in any order and with any repetitions, `finish`
-- returns the concatenation of the fragments.
pub finish_complete :
    (ps : List (List ℕ)) (arrivals : List (ℕ × List ℕ)) {r : FragmentReassembler}
    → new (length ps) ≡ ok r
    → Genuine ps arrivals
    → ((i : ℕ) → i < length ps → Arrives i arrivals)
    → finish (run advance r arrivals) ≡ ok (concat ps)
finish_complete ps arrivals {r} made g every =
    finish-Holds ps (run advance r arrivals) h
    ∙ ap (λ b. if b then ok (concat ps) else err incomplete_reassembly) complete
  where
    h : Holds ps (run advance r arrivals)
    h = run-Holds ps arrivals r (new-Holds ps made) g

    complete : is_complete (run advance r arrivals) ≡ true
    complete = (is_complete_iff (run advance r arrivals) h.valid).1 (λ i lt.
        run-slot_Arrives ps arrivals r i (new-Holds ps made) g (omega (arith, h.total))
          (every i (omega (arith, h.total))))
