-- ===== src/Router/Notice.antt =====
-- crates/gravital-talk-relay/src/router.rs: when the floor is free, and who is told of a grant.
use gravital_sound.Common.{
  ℕ, ◌+◌, ◌<◌, ◌≡◌, refl, sym, subst, arith, true, false, ◌⊎◌, inl, inr, Bool-cases, Option-cases,
}
use gravital_sound.Common.{List, [], ◌∷◌, none, some, All}
use gravital_sound.Router.{Peers, SessionEndpoint, RouteEntry, matches}
use gravital_sound.Router.{is_known, others, floor_is_free, floor_max_hold}
use gravital_sound.Router.Eviction.{Has, here, there, All-map}

module _ (P : Peers) where
  -- Nobody has the floor, or the one who has it got it more than 30 seconds ago.
  abbrev pub IsFree : ℕ → RouteEntry P → Type 0
  IsFree now entry =
      (entry.floor_holder ≡ none)
      ⊎ ((granted : ℕ) × (entry.floor_granted_at ≡ some granted) × (granted + floor_max_hold < now))

  pub IsFree-floor_is_free :
      (now : ℕ) (entry : RouteEntry P) → IsFree now entry → floor_is_free P now entry ≡ true
  unfolding floor_is_free
  IsFree-floor_is_free now entry (inl nobody) = rw nobody refl
  IsFree-floor_is_free now entry (inr (granted, at, past)) =
      elim (Option-cases entry.floor_holder) [
        | inl nobody ↦ rw nobody refl
        | inr (holder, held) ↦ ground (arith, held, at, past)
      ]

  pub Has-is_known :
      (from p : SessionEndpoint P) (ps : List (SessionEndpoint P))
      → Has p ps
      → matches P p from ≡ true
      → is_known P from ps ≡ true
  unfolding is_known
  Has-is_known from p [] has m = elim has [ ]
  Has-is_known from _ (p ∷ ps) here m = rw m refl
  Has-is_known from p (q ∷ ps) (there h) m = ground (arith, Has-is_known from p ps h m)

  -- All but the sender are told, and nobody else.
  abbrev pub TellsOthers :
      SessionEndpoint P → List (SessionEndpoint P) → List (SessionEndpoint P) → Type 0
  TellsOthers from ps told =
      All (λ p. matches P p from ≡ false) told
      × All (λ p. (matches P p from ≡ true) ⊎ Has p told) ps

  others-drops :
      (from p : SessionEndpoint P) (ps : List (SessionEndpoint P))
      → matches P p from ≡ true
      → others P from (p ∷ ps) ≡ others P from ps
  unfolding others
  others-drops from p ps same = rw same refl

  others-takes :
      (from p : SessionEndpoint P) (ps : List (SessionEndpoint P))
      → matches P p from ≡ false
      → others P from (p ∷ ps) ≡ p ∷ others P from ps
  unfolding others
  others-takes from p ps other = rw other refl

  told-later :
      (from q : SessionEndpoint P) (told : List (SessionEndpoint P)) (p : SessionEndpoint P)
      → (matches P p from ≡ true) ⊎ Has p told
      → (matches P p from ≡ true) ⊎ Has p (q ∷ told)
  told-later from q told p (inl same) = inl same
  told-later from q told p (inr has) = inr (there has)

  pub others-TellsOthers :
      (from : SessionEndpoint P) (ps : List (SessionEndpoint P))
      → TellsOthers from ps (others P from ps)
  others-TellsOthers from [] = (unfold others in tt, tt)
  others-TellsOthers from (p ∷ ps) =
      let rest = others-TellsOthers from ps in
      elim (Bool-cases (matches P p from)) [
        | inl same ↦
            subst (TellsOthers from (p ∷ ps)) (sym (others-drops from p ps same))
              (rest.0, (inl same, rest.1))
        | inr other ↦
            subst (TellsOthers from (p ∷ ps)) (sym (others-takes from p ps other)) (
              (other, rest.0),
              (inr here, All-map ps (told-later from p (others P from ps)) rest.1),
            )
      ]
