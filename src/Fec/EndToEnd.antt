-- ===== src/Fec/EndToEnd.antt =====
-- Encoder and decoder together: a group from which one frame is lost on the way.
use gravital_sound.Common.{
  ℕ, suc, ◌+◌, ◌%◌, ◌^◌, ◌≤◌, ◌<◌, max, ◌≡◌, refl, sym, ap, ap₂, ◌∙◌, arith,
}
use gravital_sound.Common.{List, [], ◌∷◌, ◌++◌, length, replicate, none, some}
use gravital_sound.Fec.{
  FecDecoder, FecParity, new_encoder, new_decoder, enter_group, push_parity, try_recover,
}
use gravital_sound.Fec.Bytewise.{absorb_all}
use gravital_sound.Fec.Group.{push_all, push_all-absorbed, payloads}
use gravital_sound.Fec.Recovery.{with_gap, padded, push_parity-recovers}
use gravital_sound.Fec.Delivery.{
  deliver, following, deliver-following, enter_group-new, enter_group-following,
}

-- Frames with the sequences from `s` on.
abbrev pub numbered : ℕ → List (List ℕ) → List (ℕ × List ℕ)
numbered s [] = []
numbered s (f ∷ fs) = (s, f) ∷ numbered (s + 1) fs

payloads-numbered : (fs : List (List ℕ)) (s : ℕ) → payloads (numbered s fs) ≡ fs
payloads-numbered [] s = refl
payloads-numbered (f ∷ fs) s = ap (λ t. f ∷ t) (payloads-numbered fs (s + 1))

length-numbered : (fs : List (List ℕ)) (s : ℕ) → length (numbered s fs) ≡ length fs
length-numbered [] s = refl
length-numbered (f ∷ fs) s = ap suc (length-numbered fs (s + 1))

length-with_gap :
    (pre post : List (List ℕ)) (f : List ℕ)
    → length (with_gap pre post) ≡ length (pre ++ (f ∷ post))
length-with_gap [] [] f = refl
length-with_gap [] (q ∷ post) f = ap suc (length-with_gap [] post q)
length-with_gap (p ∷ pre) post f = ap suc (length-with_gap pre post f)

abbrev pub parity_of : ℕ → ℕ → List (List ℕ) → FecParity
parity_of base w fs = record { seq_base = base; window = w; payload = absorb_all [] fs }

push_all-numbered :
    (base w : ℕ) (fs : List (List ℕ))
    → 1 < w
    → w < 256
    → length fs ≡ w
    → (push_all (new_encoder w) (numbered base fs)).1 ≡ parity_of base w fs ∷ []
unfolding new_encoder
push_all-numbered base w [] large small whole = absurd (omega arith)
push_all-numbered base w (f ∷ fs) large small whole =
    ap (λ r. r.1)
      (push_all-absorbed (new_encoder w) (base, f) (numbered (base + 1) fs) refl (omega arith)
        (omega arith) (omega (arith, length-numbered fs (base + 1))))
    ∙ ap₂ (λ k bytes. (record { seq_base = base; window = k; payload = bytes }) ∷ []) {x = max w 2}
        (omega arith) (ap (λ t. absorb_all [] (f ∷ t)) (payloads-numbered fs (base + 1)))

push_parity-entered :
    (d g : FecDecoder) (parity : FecParity)
    → enter_group d parity.seq_base ≡ g
    → enter_group g parity.seq_base ≡ g
    → (push_parity d parity).1 ≡ (push_parity g parity).1
unfolding push_parity
push_parity-entered d g parity entered again =
    ap (λ k. try_recover (record k { parity = some parity.payload })) (entered ∙ sym again)

-- For a window of 2 to 255 and a group of that many frames whose first sequence is a multiple of
-- the window: a new encoder gives one parity for the group, and a new decoder that receives all
-- the frames but one, in order, and then the parity, returns the sequence of the lost frame and
-- the frame itself, with zeros at the end up to the length of the longest frame of the group. The
-- sequences fit 32 bits.
pub lost_frame_recovered :
    (base w : ℕ) (pre post : List (List ℕ)) (f : List ℕ)
    → base % w ≡ 0
    → 1 < w
    → w < 256
    → base + w ≤ 2 ^ 32
    → length (pre ++ (f ∷ post)) ≡ w
    → (parity : FecParity) × ((push_all (new_encoder w) (numbered base (pre ++ (f ∷ post)))).1
        ≡ parity ∷ [])
      × ((push_parity (deliver (new_decoder w) base (with_gap pre post)) parity).1
          ≡ some ((base + length pre) % 2 ^ 32, padded pre post f))
lost_frame_recovered base w pre post f aligned large small in_range whole = (
  parity_of base w (pre ++ (f ∷ post)),
  push_all-numbered base w (pre ++ (f ∷ post)) large small whole,
  push_parity-entered (deliver (new_decoder w) base (with_gap pre post))
        (following base w aligned large small (with_gap pre post))
        (parity_of base w (pre ++ (f ∷ post))) entered
        (enter_group-following base w aligned large small (with_gap pre post))
      ∙ push_parity-recovers (following base w aligned large small (with_gap pre post))
          (parity_of base w (pre ++ (f ∷ post))) pre post f refl refl refl refl,
)
  where
    gap_length : length (with_gap pre post) ≡ w
    gap_length = length-with_gap pre post f ∙ whole

    entered :
        enter_group (deliver (new_decoder w) base (with_gap pre post)) base
        ≡ following base w aligned large small (with_gap pre post)
    entered =
        deliver-following base w aligned large small (with_gap pre post) [] (new_decoder w) base
          (unfold new_decoder in omega arith) (omega arith)
          (enter_group-new base w aligned large small
            ∙ ap (λ n. following base w aligned large small (replicate n none)) (sym gap_length))
          (omega (arith, gap_length))
