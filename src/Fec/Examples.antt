-- ===== src/Fec/Examples.antt =====
-- A group of three frames, the second of which is lost.
use gravital_sound.Common.{◌≡◌, refl, [], ◌∷◌, none, some, true, arith}
use gravital_sound.Fec.{
  FecEncoder, FecDecoder, FecParity, new_encoder, new_decoder, push_data, push_parity,
}
use gravital_sound.Fec.Group.{push_all, push_all-group}
use gravital_sound.Fec.Delivery.{deliver}
use gravital_sound.Fec.EndToEnd.{numbered, lost_frame_recovered}
use gravital_sound.Fec.Recovery.{push_parity-recovers}

abbrev encoder : FecEncoder
encoder = record { window = 3; parity_buf = []; count = 0; seq_base = 0 }

abbrev parity : FecParity
parity = record { seq_base = 6; window = 3; payload = 1 ∷ 6 ∷ 7 ∷ [] }

abbrev decoder : FecDecoder
decoder = record {
  window = 3;
  seq_base = 6;
  received = some (1 ∷ 2 ∷ []) ∷ none ∷ some (5 ∷ 6 ∷ 7 ∷ []) ∷ [];
  parity = none;
  active = true;
}

push_all-group_example :
    push_all encoder ((6, (1 ∷ 2 ∷ [])) ∷ (7, (5 ∷ 2 ∷ [])) ∷ (8, (5 ∷ 6 ∷ 7 ∷ [])) ∷ [])
    ≡ (record encoder { seq_base = 6 }, parity ∷ [])
unfolding gravital_sound.Fec.xor_into gravital_sound.Fec.extend
push_all-group_example =
    push_all-group encoder (6, (1 ∷ 2 ∷ [])) ((7, (5 ∷ 2 ∷ [])) ∷ (8, (5 ∷ 6 ∷ 7 ∷ [])) ∷ []) refl
      (omega arith) (omega arith) refl

-- The lost frame comes back with a zero at its end.
push_parity-recovers_example : (push_parity decoder parity).1 ≡ some (7, 5 ∷ 2 ∷ 0 ∷ [])
unfolding gravital_sound.Fec.xor_into gravital_sound.Fec.extend
push_parity-recovers_example =
    push_parity-recovers decoder parity ((1 ∷ 2 ∷ []) ∷ []) ((5 ∷ 6 ∷ 7 ∷ []) ∷ []) (5 ∷ 2 ∷ [])
      refl refl refl refl

lost_frame_recovered_example :
    (p : FecParity) × ((push_all
        (new_encoder 3)
        (numbered 6 ((1 ∷ 2 ∷ []) ∷ (5 ∷ 2 ∷ []) ∷ (5 ∷ 6 ∷ 7 ∷ []) ∷ []))).1
      ≡ p ∷ [])
    × ((push_parity
          (deliver (new_decoder 3) 6 (some (1 ∷ 2 ∷ []) ∷ none ∷ some (5 ∷ 6 ∷ 7 ∷ []) ∷ []))
          p).1
        ≡ some (7, 5 ∷ 2 ∷ 0 ∷ []))
lost_frame_recovered_example =
    lost_frame_recovered 6 3 ((1 ∷ 2 ∷ []) ∷ []) ((5 ∷ 6 ∷ 7 ∷ []) ∷ []) (5 ∷ 2 ∷ []) refl
      (omega arith) (omega arith) (omega arith) refl

-- Groups that start at a sequence that is no multiple of the window are not followed.
test_misaligned :
    (push_parity
      (push_data (push_data (new_decoder 3) 7 (1 ∷ [])).0 9 (3 ∷ [])).0
      (record { seq_base = 7; window = 3; payload = 0 ∷ [] })).1
    ≡ none
unfolding new_decoder push_data push_parity
test_misaligned = refl
