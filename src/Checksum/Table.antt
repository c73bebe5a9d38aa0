-- ===== src/Checksum/Table.antt =====
-- The entries of the table, and that their low bytes tell them apart.
use gravital_sound.Common.{
  ℕ, zero, suc, ◌+◌, ◌*◌, ◌%◌, ◌≤◌, ◌<◌, ◌≡◌, refl, sym, ap, ◌∙◌, Bool, true,
}
use gravital_sound.Common.{
  ◌&&◌, List, [], ◌∷◌, get_or, ◌==◌, ==_iff, if◌then◌else◌, ltb, ltb→lt, arith,
}
use native.Mathlib.Decide.{dec_le}
use gravital_sound.Checksum.{table, shift_bits}

-- `test` holds of the `left` numbers from `start` on.
holds_from : (ℕ → Bool) → ℕ → ℕ → Bool
holds_from test start zero = true
holds_from test start (suc left) = test start && holds_from test (start + 1) left

holds_from-at :
    (test : ℕ → Bool) (left start k : ℕ)
    → holds_from test start left ≡ true
    → start ≤ k
    → k < start + left
    → test k ≡ true
unfolding holds_from
holds_from-at test zero start k checked low high = absurd (omega arith)
holds_from-at test (suc left) start k checked low high =
    let both = and_both (test start) (holds_from test (start + 1) left) checked in
    elim (dec_le k start) [
      | yes first ↦ ap test {x = k} (omega arith) ∙ both.0
      | no later ↦ holds_from-at test left (start + 1) k both.1 (omega arith) (omega arith)
    ]
  where
    and_both : (a b : Bool) → a && b ≡ true → (a ≡ true) × (b ≡ true)
    and_both a b h = ground arith

-- A test that evaluates to true on all bytes holds of every byte.
every_byte : (test : ℕ → Bool) → holds_from test 0 256 ≡ true → (k : ℕ) → k < 256 → test k ≡ true
every_byte test checked k lt = holds_from-at test 256 0 k checked (omega arith) (omega arith)

-- The position of the first entry of `xs` whose low byte is `b`.
position : ℕ → List ℕ → ℕ
position b [] = 0
position b (x ∷ xs) = if x % 256 == b then 0 else position b xs + 1

position_checks : holds_from (λ i. position (get_or table i 0 % 256) table == i) 0 256 ≡ true
unfolding holds_from position table
position_checks = refl

pub low_byte_injective :
    (i j : ℕ) → i < 256 → j < 256 → get_or table i 0 % 256 ≡ get_or table j 0 % 256 → i ≡ j
low_byte_injective i j hi hj e =
    sym (position_of i hi) ∙ ap (λ b. position b table) e ∙ position_of j hj
  where
    position_of : (k : ℕ) → k < 256 → position (get_or table k 0 % 256) table ≡ k
    position_of k hk = (==_iff _ k).0 (every_byte _ position_checks k hk)

entry_checks : holds_from (λ i. get_or table i 0 == shift_bits 8 (i * 256)) 0 256 ≡ true
unfolding holds_from table shift_bits
entry_checks = refl

-- Entry `i` is `i << 8` after eight shifts.
pub get_or-table : (i : ℕ) → i < 256 → get_or table i 0 ≡ shift_bits 8 (i * 256)
get_or-table i h = (==_iff _ _).0 (every_byte _ entry_checks i h)

bound_checks : holds_from (λ i. ltb (get_or table i 0) 65536) 0 256 ≡ true
unfolding holds_from table
bound_checks = refl

pub get_or-table_lt : (i : ℕ) → i < 256 → get_or table i 0 < 65536
get_or-table_lt i h = ltb→lt _ _ (every_byte _ bound_checks i h)

low_checks : holds_from (λ i. shift_bits 8 i == i * 256) 0 256 ≡ true
unfolding holds_from shift_bits
low_checks = refl

-- Eight shifts of a byte meet no top bit.
pub shift_bits-low : (i : ℕ) → i < 256 → shift_bits 8 i ≡ i * 256
shift_bits-low i h = (==_iff _ _).0 (every_byte _ low_checks i h)
