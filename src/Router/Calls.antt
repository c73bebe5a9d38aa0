-- ===== src/Router/Calls.antt =====
-- crates/gravital-talk-relay/src/router.rs: calls in sequence, and who has the floor of a session.
use gravital_sound.Common.{
  ℕ, ◌+◌, ◌≤◌, ◌≡◌, ◌∙◌, arith, Bool, true, false, ◌==◌, if◌then◌else◌, ◌⊎◌, inl, inr, Bool-cases,
  Option-cases,
}
use gravital_sound.Common.{List, [], ◌∷◌, none, some, All}
use gravital_sound.Router.{
  Peers, SessionEndpoint, RouteEntry, Router, FloorDecision, floor_granted, floor_denied,
  floor_released, floor_unknown,
}
use gravital_sound.Router.{
  lookup, route_entry, route, floor_max_hold, floor_request, floor_release, release_entry,
}
use gravital_sound.Router.Arbitration.{lookup-store, lookup-store_other}

module _ (P : Peers) where
  -- Calls with their time, session and sender.
  pub data RelayCall : Type 0 where
    request : ℕ → ℕ → P.Address → RelayCall
    release : ℕ → ℕ → P.Address → RelayCall
    datagram : ℕ → ℕ → SessionEndpoint P → RelayCall

  abbrev pub after : Router P → RelayCall → Router P
  after r (request now session_id from) = (floor_request P now r session_id from).0
  after r (release now session_id from) = (floor_release P now r session_id from).0
  after r (datagram now session_id from) = (route P now r session_id from).0

  abbrev pub after_all : Router P → List RelayCall → Router P
  after_all r [] = r
  after_all r (c ∷ cs) = after_all (after r c) cs

  -- The answer of the relay, if the call is about the floor of the session.
  abbrev pub answered : ℕ → Router P → RelayCall → List (FloorDecision P)
  answered sid r (request now session_id from) =
      if session_id == sid then (floor_request P now r session_id from).1 ∷ [] else []
  answered sid r (release now session_id from) =
      if session_id == sid then (floor_release P now r session_id from).1 ∷ [] else []
  answered sid r (datagram now session_id from) = []

  abbrev pub is_refused : FloorDecision P → Bool
  is_refused (floor_granted ps) = false
  is_refused (floor_released ps) = false
  is_refused floor_denied = true
  is_refused floor_unknown = true

  -- Every answer about the floor of the session is a refusal.
  abbrev pub AllRefused : ℕ → Router P → List RelayCall → Type 0
  AllRefused sid r [] = Unit {0}
  AllRefused sid r (c ∷ cs) =
      All (λ d. is_refused d ≡ true) (answered sid r c) × AllRefused sid (after r c) cs

  -- A call within 30 seconds of `granted` that is no release of the session by the holder.
  abbrev pub LeavesFloor : ℕ → ℕ → P.Address → RelayCall → Type 0
  LeavesFloor granted sid holder (request now session_id from) = now ≤ granted + floor_max_hold
  LeavesFloor granted sid holder (release now session_id from) =
      (now ≤ granted + floor_max_hold)
      × (((session_id == sid) ≡ false) ⊎ (P.same_address holder from ≡ false))
  LeavesFloor granted sid holder (datagram now session_id from) = Unit {0}

  -- The session has the holder, since `granted`.
  abbrev pub HasFloor : ℕ → ℕ → P.Address → Router P → Type 0
  HasFloor granted sid holder r =
      (entry : RouteEntry P) × (lookup P sid r.routes ≡ some entry)
      × (entry.floor_holder ≡ some holder)
      × (entry.floor_granted_at ≡ some granted)

  route_entry-floor :
      (now max_peers : ℕ) (entry : RouteEntry P) (from : SessionEndpoint P)
      → ((route_entry P now max_peers entry from).0.floor_holder ≡ entry.floor_holder)
        × ((route_entry P now max_peers entry from).0.floor_granted_at ≡ entry.floor_granted_at)
  unfolding route_entry
  route_entry-floor now max_peers entry from = ground arith

  -- A datagram of one session leaves the entries of the others alone.
  pub route-other :
      (now : ℕ) (r : Router P) (session_id other : ℕ) (from : SessionEndpoint P)
      → (session_id == other) ≡ false
      → lookup P other (route P now r session_id from).0.routes ≡ lookup P other r.routes
  unfolding route
  route-other now r session_id other from apart = elim (Bool-cases (session_id == 0)) [
    | inl zero_id ↦ ground arith
    | inr other_id ↦ elim (Option-cases (lookup P session_id r.routes)) [
      | inr (entry, found) ↦ ground (
        arith,
        lookup-store_other P session_id other
            (route_entry P now r.max_peers_per_session entry from).0 r.routes apart,
      )
      | inl absent ↦ ground (
        arith,
        lookup-store_other P session_id other
            (record {
              peers = from ∷ [];
              last_activity = now;
              floor_holder = none;
              floor_granted_at = none;
            })
            r.routes apart,
      )
    ]
  ]

  pub release-other :
      (now : ℕ) (r : Router P) (session_id other : ℕ) (from : P.Address)
      → (session_id == other) ≡ false
      → lookup P other (floor_release P now r session_id from).0.routes ≡ lookup P other r.routes
  unfolding floor_release
  release-other now r session_id other from apart =
      elim (Option-cases (lookup P session_id r.routes)) [
        | inl absent ↦ ground arith
        | inr (entry, found) ↦ ground (
          arith,
          lookup-store_other P session_id other (release_entry P now entry from).0 r.routes apart,
        )
      ]

  pub route-HasFloor_same :
      (granted now : ℕ) (r : Router P) (sid : ℕ) (holder : P.Address) (from : SessionEndpoint P)
      → HasFloor granted sid holder r
      → HasFloor granted sid holder (route P now r sid from).0
  unfolding route
  route-HasFloor_same granted now r sid holder from (entry, found, held, at) =
      elim (Bool-cases (sid == 0)) [
        | inl zero_id ↦ (entry, ground (arith, found), held, at)
        | inr other_id ↦
            let next = (route_entry P now r.max_peers_per_session entry from).0 in
            (
              next,
              ground (arith, found, lookup-store P sid next r.routes),
              (route_entry-floor now r.max_peers_per_session entry from).0 ∙ held,
              (route_entry-floor now r.max_peers_per_session entry from).1 ∙ at,
            )
      ]

  pub HasFloor-moved :
      (granted sid : ℕ) (holder : P.Address) (r r' : Router P)
      → lookup P sid r'.routes ≡ lookup P sid r.routes
      → HasFloor granted sid holder r
      → HasFloor granted sid holder r'
  HasFloor-moved granted sid holder r r' same (entry, found, held, at) =
      (entry, same ∙ found, held, at)
