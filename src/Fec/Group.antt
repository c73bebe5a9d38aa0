-- ===== src/Fec/Group.antt =====
-- A group of frames gives one parity.
use gravital_sound.Common.{ℕ, ◌+◌, ◌<◌, ◌≡◌, ap, ◌∙◌, arith}
use gravital_sound.Common.{List, [], ◌∷◌, length, length-replicate, Option, none, some, replicate}
use gravital_sound.Fec.{FecEncoder, FecParity, push, extend, xor_into}
use gravital_sound.Fec.Bytewise.{absorb, absorb_all, columns, longest, absorb_all-columns}

-- The parities that come out, before those of `later`.
abbrev pub emit : Option FecParity → List FecParity → List FecParity
emit none later = later
emit (some p) later = p ∷ later

-- The encoder after the frames, each with its sequence, and the parities that it has given.
unfoldable pub push_all : FecEncoder → List (ℕ × List ℕ) → FecEncoder × List FecParity
unfolding push
push_all e [] = (e, [])
push_all e (f ∷ fs) =
    let one = push e f.0 f.1 in let rest = push_all one.0 fs in (rest.0, emit one.1 rest.1)

abbrev pub payloads : List (ℕ × List ℕ) → List (List ℕ)
payloads [] = []
payloads (f ∷ fs) = f.1 ∷ payloads fs

push-inside :
    (e : FecEncoder) (sequence : ℕ) (payload : List ℕ)
    → 0 < e.count
    → e.window < 256
    → e.count + 1 < e.window
    → push e sequence payload
      ≡ (record e { count = e.count + 1; parity_buf = absorb e.parity_buf payload }, none)
unfolding push
push-inside e sequence payload pos small inside = ground arith

-- Inside a group, the frames that complete it.
push_all-rest :
    (f : ℕ × List ℕ) (fs : List (ℕ × List ℕ)) (e : FecEncoder)
    → 0 < e.count
    → e.window < 256
    → e.count + length (f ∷ fs) ≡ e.window
    → push_all e (f ∷ fs) ≡ (
      record e { count = 0; parity_buf = [] },
      (record {
        seq_base = e.seq_base;
        window = e.window;
        payload = absorb_all e.parity_buf (payloads (f ∷ fs));
      })
          ∷ [],
    )
unfolding push_all
push_all-rest f [] e pos small full = ground arith
push_all-rest f (g ∷ fs) e pos small full =
    ap (λ r. ((push_all r.0 (g ∷ fs)).0, emit r.1 (push_all r.0 (g ∷ fs)).1))
      (push-inside e f.0 f.1 pos small (omega arith))
    ∙ push_all-rest g fs (record e { count = e.count + 1; parity_buf = absorb e.parity_buf f.1 })
        (omega arith) small (omega arith)

extend-zeros : (f : List ℕ) → xor_into (extend (replicate (length f) 0) (length f)) f ≡ absorb [] f
unfolding extend
extend-zeros f = ground (arith, length-replicate (length f) byte_zero)
  where
    byte_zero : ℕ
    byte_zero = 0

-- The first frame of a group.
push-first :
    (e : FecEncoder) (sequence : ℕ) (payload : List ℕ)
    → e.count ≡ 0
    → 1 < e.window
    → push e sequence payload
      ≡ (record e { count = 1; parity_buf = absorb [] payload; seq_base = sequence }, none)
unfolding push
push-first e sequence payload zero_count large = ground (arith, extend-zeros payload)

-- A whole group, with the parity as the encoder accumulates it.
pub push_all-absorbed :
    (e : FecEncoder) (f : ℕ × List ℕ) (fs : List (ℕ × List ℕ))
    → e.count ≡ 0
    → 1 < e.window
    → e.window < 256
    → length (f ∷ fs) ≡ e.window
    → push_all e (f ∷ fs) ≡ (
      record e { count = 0; parity_buf = []; seq_base = f.0 },
      (record { seq_base = f.0; window = e.window; payload = absorb_all [] (payloads (f ∷ fs)) })
          ∷ [],
    )
unfolding push_all
push_all-absorbed e f [] zero_count large small full = absurd (omega arith)
push_all-absorbed e f (g ∷ fs) zero_count large small full =
    ap (λ r. ((push_all r.0 (g ∷ fs)).0, emit r.1 (push_all r.0 (g ∷ fs)).1))
      (push-first e f.0 f.1 zero_count large)
    ∙ push_all-rest g fs (record e { count = 1; parity_buf = absorb [] f.1; seq_base = f.0 })
        (omega arith) small (omega arith)

-- From an encoder between groups, with a window of 2 to 255, pushing as many frames as the window
-- gives exactly one parity, with the last frame: under the sequence of the first frame, as long
-- as the longest one, each byte the exclusive or of the bytes of all frames at its place, where a
-- frame that has ended counts as zero. The encoder is then between groups again.
pub push_all-group :
    (e : FecEncoder) (f : ℕ × List ℕ) (fs : List (ℕ × List ℕ))
    → e.count ≡ 0
    → 1 < e.window
    → e.window < 256
    → length (f ∷ fs) ≡ e.window
    → push_all e (f ∷ fs) ≡ (
      record e { count = 0; parity_buf = []; seq_base = f.0 },
      (record {
        seq_base = f.0;
        window = e.window;
        payload = columns 0 (longest (payloads (f ∷ fs))) (payloads (f ∷ fs));
      })
          ∷ [],
    )
push_all-group e f fs zero_count large small full =
    push_all-absorbed e f fs zero_count large small full
    ∙ ap
        (λ bytes. (
          record e { count = 0; parity_buf = []; seq_base = f.0 },
          (record { seq_base = f.0; window = e.window; payload = bytes }) ∷ [],
        ))
        (absorb_all-columns (payloads (f ∷ fs)))
