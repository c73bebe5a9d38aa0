-- ===== src/Fragment.antt =====
-- crates/gravital-talk-core/src/fragment.rs: reassembling a frame from its fragments.
mod Examples
pub mod Header
pub mod Slots
pub mod Reassembly
use gravital_sound.Common.{
  ℕ, ◌+◌, ◌%◌, ◌^◌, Bool, true, false, not, ◌||◌, ltb, leb, ◌==◌, if◌then◌else◌,
}
use gravital_sound.Common.{List, [], ◌∷◌, ◌++◌, Option, none, some, get_elem?, set, replicate}
use gravital_sound.Common.{Result, ok, err, ◌>>=◌, ◌>>◌, fail_if}
use gravital_sound.Protocol.{Error, too_many_fragments, fragment_out_of_range, duplicate_fragment}
use gravital_sound.Protocol.{incomplete_reassembly, max_fragments}

pub record FragmentReassembler : Type 0 where
  pub expected_total : ℕ  -- u16
  pub buffers : List (Option (List ℕ))
  pub received : ℕ  -- u16

-- `FragmentReassembler::new`
unfoldable pub new : ℕ → Result Error FragmentReassembler
new total = do
  fail_if (total == 0 || ltb max_fragments total) too_many_fragments
  ok (record { expected_total = total; buffers = replicate total none; received = 0 })

-- `self.buffers[index].is_some()`
unfoldable pub slot_is_some : List (Option (List ℕ)) → ℕ → Bool
slot_is_some buffers index = elim (get_elem? buffers index) [
  | some (some p) ↦ true
  | some none ↦ false
  | none ↦ false
]

-- `FragmentReassembler::insert`: the reassembler after the call, and what it returns.
unfoldable pub insert :
    FragmentReassembler → ℕ → List ℕ → FragmentReassembler × Result Error (Unit {0})
unfolding slot_is_some
insert r index payload =
    if leb r.expected_total index
    then (r, err fragment_out_of_range)
    else if slot_is_some r.buffers index
    then (r, err duplicate_fragment)
    else (
      record r {
        buffers = set r.buffers index (some payload);
        received = (r.received + 1) % 2 ^ 16;
      },
      ok tt,
    )

unfoldable pub is_complete : FragmentReassembler → Bool
is_complete r = r.received == r.expected_total

-- `for buf in self.buffers.into_iter().flatten() { out.extend_from_slice(&buf); }`
unfoldable pub flatten : List (Option (List ℕ)) → List ℕ
flatten [] = []
flatten (none ∷ bs) = flatten bs
flatten (some b ∷ bs) = b ++ flatten bs

-- `FragmentReassembler::finish`
unfoldable pub finish : FragmentReassembler → Result Error (List ℕ)
unfolding is_complete flatten
finish r = do fail_if (not (is_complete r)) incomplete_reassembly; ok (flatten r.buffers)

-- The reassembler after one call of `insert`, its result ignored.
abbrev pub advance : FragmentReassembler → ℕ × List ℕ → FragmentReassembler
advance r (index, payload) = (insert r index payload).0
