-- ===== src/Fec/Delivery.antt =====
-- Frames that arrive in the order of their sequences, some of them lost, and then the parity.
use gravital_sound.Common.{
  ℕ, ◌+◌, ◌-◌, max, ◌*◌, ◌/◌, ◌%◌, ◌^◌, ◌≤◌, ◌<◌, ◌≡◌, refl, sym, ap, ◌∙◌, arith,
}
use gravital_sound.Common.{
  List, [], ◌∷◌, ◌++◌, length, length-append, set, replicate, append_assoc, Option, none, some,
}
use gravital_sound.Common.{true, ltb, lt→ltb, if◌then◌else◌}
use native.Mathlib.Nat.{add-mul-mod_self_left, mod-eq_of_lt, div-add-mod}
use gravital_sound.Fec.{FecDecoder, new_decoder, start_group, enter_group, push_data}

-- The decoder after the frames from sequence `s` on; `none` is a frame that is lost.
unfoldable pub deliver : FecDecoder → ℕ → List (Option (List ℕ)) → FecDecoder
unfolding push_data
deliver d s [] = d
deliver d s (none ∷ os) = deliver d (s + 1) os
deliver d s (some f ∷ os) = deliver (push_data d s f).0 (s + 1) os

set-append :
    (got rest : List (Option (List ℕ))) (x y : Option (List ℕ))
    → set (got ++ (x ∷ rest)) (length got) y ≡ got ++ (y ∷ rest)
set-append [] rest x y = refl
set-append (g ∷ got) rest x y = ap (λ t. g ∷ t) (set-append got rest x y)

aligned_mod : (base w i : ℕ) → base % w ≡ 0 → i < w → (base + i) % w ≡ i
aligned_mod base w i aligned lt =
    ap (λ t. t % w) {y = i + w * (base / w)} (omega (arith, aligned, div-add-mod base w))
    ∙ add-mul-mod_self_left i w (base / w)
    ∙ mod-eq_of_lt {n = i} {m = w} lt

module _ (base w : ℕ) (aligned : base % w ≡ 0) (large : 1 < w) (small : w < 256) where
  -- The decoder that follows the group of `base`.
  abbrev pub following : List (Option (List ℕ)) → FecDecoder
  following got = record {
    window = w;
    seq_base = base;
    received = got;
    parity = none;
    active = true;
  }

  pub enter_group-following :
      (got : List (Option (List ℕ))) → enter_group (following got) base ≡ following got
  unfolding enter_group
  enter_group-following got = ground arith

  pub enter_group-new : enter_group (new_decoder w) base ≡ following (replicate w none)
  unfolding enter_group new_decoder start_group
  enter_group-new =
      ap
        (λ k. record {
          window = k;
          seq_base = base;
          received = replicate k none;
          parity = none;
          active = true;
        })
        {x = max w 2} (omega arith)

  -- `push_data` after it has entered the group.
  abbrev place : FecDecoder → ℕ → List ℕ → FecDecoder
  place group offset payload =
      if ltb offset group.window
      then record group { received = set group.received offset (some payload) }
      else group

  push_data-place :
      (d : FecDecoder) (sequence : ℕ) (payload : List ℕ)
      → (push_data d sequence payload).0
        ≡ place
            (enter_group d (sequence - sequence % d.window))
            ((sequence + 2 ^ 32 - (enter_group d (sequence - sequence % d.window)).seq_base)
              % 2 ^ 32)
            payload
  unfolding push_data
  push_data-place d sequence payload = ground arith

  push_data-next :
      (d : FecDecoder) (got rest : List (Option (List ℕ))) (payload : List ℕ)
      → d.window ≡ w
      → enter_group d base ≡ following (got ++ (none ∷ rest))
      → length got < w
      → (push_data d (base + length got) payload).0 ≡ following (got ++ (some payload ∷ rest))
  push_data-next d got rest payload same entered inside =
      push_data-place d (base + length got) payload
      ∙ ap (λ g. place g ((base + length got + 2 ^ 32 - g.seq_base) % 2 ^ 32) payload)
          (ap (λ k. enter_group d k) to_base ∙ entered)
      ∙ ap (λ o. place (following (got ++ (none ∷ rest))) o payload)
          {x = (base + length got + 2 ^ 32 - base) % 2 ^ 32} {y = length got} (omega arith)
      ∙ ap (λ b. if b then placed (length got) else following (got ++ (none ∷ rest)))
          (lt→ltb (length got) w inside)
      ∙ ap following (set-append got rest none (some payload))
    where
      placed : ℕ → FecDecoder
      placed o = following (set (got ++ (none ∷ rest)) o (some payload))

      to_base : base + length got - (base + length got) % d.window ≡ base
      to_base =
          ap (λ k. base + length got - (base + length got) % k) same
          ∙ omega (arith, aligned_mod base w (length got) aligned inside)

  -- Each frame that arrives is in its place, and each that is lost leaves a gap.
  pub deliver-following :
      (os got : List (Option (List ℕ))) (d : FecDecoder) (s : ℕ)
      → d.window ≡ w
      → s ≡ base + length got
      → enter_group d base ≡ following (got ++ replicate (length os) none)
      → length got + length os ≤ w
      → enter_group (deliver d s os) base ≡ following (got ++ os)
  unfolding deliver
  deliver-following [] got d s same at_s entered fits = entered
  deliver-following (none ∷ os) got d s same at_s entered fits =
      deliver-following os (got ++ (none ∷ [])) d (s + 1) same
        (omega (arith, at_s, length-append got (none ∷ [])))
        (entered ∙ ap following (sym (append_assoc got (none ∷ []) (replicate (length os) none))))
        (omega (arith, fits, length-append got (none ∷ [])))
      ∙ ap following (append_assoc got (none ∷ []) os)
  deliver-following (some f ∷ os) got d s same at_s entered fits =
      deliver-following os (got ++ (some f ∷ [])) (push_data d s f).0 (s + 1)
        (ap (λ g. g.window) placed) (omega (arith, at_s, length-append got (some f ∷ [])))
        (ap (λ g. enter_group g base) placed
          ∙ enter_group-following (got ++ (some f ∷ replicate (length os) none))
          ∙ ap following (sym (append_assoc got (some f ∷ []) (replicate (length os) none))))
        (omega (arith, fits, length-append got (some f ∷ [])))
      ∙ ap following (append_assoc got (some f ∷ []) os)
    where
      placed : (push_data d s f).0 ≡ following (got ++ (some f ∷ replicate (length os) none))
      placed =
          ap (λ k. (push_data d k f).0) at_s
          ∙ push_data-next d got (replicate (length os) none) f same entered (omega (arith, fits))
