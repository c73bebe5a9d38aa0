-- ===== src/Fec.antt =====
-- crates/gravital-talk-transport/src/fec.rs: XOR parity over groups of frames.
mod Examples
pub mod Bytewise
pub mod Group
pub mod Delivery
pub mod Recovery
pub mod EndToEnd
use gravital_sound.Common.{
  ℕ, zero, suc, ◌+◌, ◌-◌, ◌%◌, ◌^◌, max, bit_xor, Bool, true, false, not, ◌||◌,
}
use gravital_sound.Common.{
  ltb, leb, ◌==◌, if◌then◌else◌, List, [], ◌∷◌, ◌++◌, length, set, replicate,
}
use gravital_sound.Common.{Option, none, some}
use gravital_sound.Protocol.{fec_window}

-- `xor_into`: up to the length of the shorter one.
unfoldable pub xor_into : List ℕ → List ℕ → List ℕ
xor_into [] data_ = []
xor_into (a ∷ accumulator) [] = a ∷ accumulator
xor_into (a ∷ accumulator) (d ∷ data_) = bit_xor a d ∷ xor_into accumulator data_

pub record FecParity : Type 0 where
  pub seq_base : ℕ  -- u32
  pub window : ℕ  -- u8
  pub payload : List ℕ

pub record FecEncoder : Type 0 where
  pub window : ℕ  -- u8
  pub parity_buf : List ℕ
  pub count : ℕ  -- u8
  pub seq_base : ℕ  -- u32

-- `FecEncoder::new`
unfoldable pub new_encoder : ℕ → FecEncoder
new_encoder window = record { window = max window 2; parity_buf = []; count = 0; seq_base = 0 }

-- `self.parity_buf.resize(payload.len(), 0)`, where the payload is longer.
unfoldable pub extend : List ℕ → ℕ → List ℕ
extend buf n = if ltb (length buf) n then buf ++ replicate (n - length buf) 0 else buf

-- `FecEncoder::push`
unfoldable pub push : FecEncoder → ℕ → List ℕ → FecEncoder × Option FecParity
unfolding xor_into extend
push e sequence payload =
    let base = if e.count == 0 then sequence else e.seq_base in
    let start = if e.count == 0 then replicate (length payload) 0 else e.parity_buf in
    let buf = xor_into (extend start (length payload)) payload in
    let count = (e.count + 1) % 2 ^ 8 in
    if leb e.window count
    then (
      record e { count = 0; parity_buf = []; seq_base = base },
      some (record { seq_base = base; window = e.window; payload = buf }),
    )
    else (record e { count = count; parity_buf = buf; seq_base = base }, none)

pub record FecDecoder : Type 0 where
  pub window : ℕ  -- u8
  pub seq_base : ℕ  -- u32
  pub received : List (Option (List ℕ))
  pub parity : Option (List ℕ)
  pub active : Bool

-- `FecDecoder::new`
unfoldable pub new_decoder : ℕ → FecDecoder
new_decoder window = record {
  window = max window 2;
  seq_base = 0;
  received = [];
  parity = none;
  active = false;
}

unfoldable pub start_group : FecDecoder → ℕ → FecDecoder
start_group d seq_base = record d {
  seq_base = seq_base;
  received = replicate d.window none;
  parity = none;
  active = true;
}

-- `if !self.active || self.seq_base != base { self.start_group(base); }`
unfoldable pub enter_group : FecDecoder → ℕ → FecDecoder
unfolding start_group
enter_group d base = if not d.active || not (d.seq_base == base) then start_group d base else d

-- `FecDecoder::push_data`
unfoldable pub push_data : FecDecoder → ℕ → List ℕ → FecDecoder × Bool
unfolding enter_group
push_data d sequence payload =
    let group = enter_group d (sequence - sequence % d.window) in
    let offset = (sequence + 2 ^ 32 - group.seq_base) % 2 ^ 32 in
    if ltb offset group.window
    then (record group { received = set group.received offset (some payload) }, true)
    else (group, false)

-- The indices of the frames that are missing, from index `i` on.
unfoldable pub missing_from : ℕ → List (Option (List ℕ)) → List ℕ
missing_from i [] = []
missing_from i (none ∷ fs) = i ∷ missing_from (i + 1) fs
missing_from i (some f ∷ fs) = missing_from (i + 1) fs

-- `for (i, frame) in self.received.iter().enumerate()`
unfoldable pub xor_others : ℕ → ℕ → List ℕ → List (Option (List ℕ)) → List ℕ
unfolding xor_into
xor_others lost_idx i recovered [] = recovered
xor_others lost_idx i recovered (none ∷ fs) = xor_others lost_idx (i + 1) recovered fs
xor_others lost_idx i recovered (some data_ ∷ fs) =
    xor_others lost_idx (i + 1) (if i == lost_idx then recovered else xor_into recovered data_) fs

-- What `try_recover` does with the list of missing frames.
unfoldable pub recover_missing : FecDecoder → List ℕ → List ℕ → Option (ℕ × List ℕ)
unfolding xor_others
recover_missing d parity [] = none
recover_missing d parity (lost_idx ∷ []) =
    some ((d.seq_base + lost_idx) % 2 ^ 32, xor_others lost_idx 0 parity d.received)
recover_missing d parity (a ∷ b ∷ more) = none

unfoldable pub try_recover : FecDecoder → Option (ℕ × List ℕ)
unfolding recover_missing missing_from
try_recover d = elim d.parity [
  | none ↦ none
  | some parity ↦ recover_missing d parity (missing_from 0 d.received)
]

-- `FecDecoder::push_parity`
unfoldable pub push_parity : FecDecoder → FecParity → FecDecoder × Option (ℕ × List ℕ)
unfolding enter_group try_recover
push_parity d parity =
    let group = record (enter_group d parity.seq_base) { parity = some parity.payload } in
    (group, try_recover group)

-- `FecDecoder::reset`
unfoldable pub reset : FecDecoder → FecDecoder
reset d = record d { active = false; received = []; parity = none }
