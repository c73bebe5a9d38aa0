-- ===== src/Router/Arbitration.antt =====
-- The floor of a session: who may speak.
use gravital_sound.Common.{ℕ, ◌+◌, ◌≤◌, ◌≡◌, arith, true, false, ◌==◌}
use gravital_sound.Common.{List, [], ◌∷◌, some, Bool-cases, Option-cases, inl, inr, if◌then◌else◌}
use gravital_sound.Router.{Peers, RouteEntry, Router, floor_granted, floor_denied, floor_unknown}
use gravital_sound.Router.{
  lookup, store, is_known, others, floor_request, floor_release, request_entry, release_entry, udp,
}
use gravital_sound.Router.{floor_is_free, release_expired, floor_max_hold, holds_floor}
use gravital_sound.Router.Routing.{is_known-others}

module _ (P : Peers) where
  pub lookup-store :
      (sid : ℕ) (entry : RouteEntry P) (rs : List (ℕ × RouteEntry P))
      → lookup P sid (store P sid entry rs) ≡ some entry
  unfolding lookup store
  lookup-store sid entry [] = ground arith
  lookup-store sid entry ((k, old) ∷ rs) = elim (Bool-cases (k == sid)) [
    | inl here ↦ ground arith
    | inr later ↦ ground (arith, lookup-store sid entry rs)
  ]

  -- The entries of the other sessions stay.
  pub lookup-store_other :
      (sid other : ℕ) (entry : RouteEntry P) (rs : List (ℕ × RouteEntry P))
      → (sid == other) ≡ false
      → lookup P other (store P sid entry rs) ≡ lookup P other rs
  unfolding lookup store
  lookup-store_other sid other entry [] h = ground arith
  lookup-store_other sid other entry ((k, old) ∷ rs) h = elim (Bool-cases (k == sid)) [
    | inl here ↦ ground arith
    | inr later ↦ ground (arith, lookup-store_other sid other entry rs h)
  ]

  held-floor_is_free :
      (now granted : ℕ) (entry : RouteEntry P) (holder : P.Address)
      → entry.floor_holder ≡ some holder
      → entry.floor_granted_at ≡ some granted
      → now ≤ granted + floor_max_hold
      → floor_is_free P now entry ≡ false
  unfolding floor_is_free
  held-floor_is_free now granted entry holder held at recent = ground arith

  held-release_expired :
      (now granted : ℕ) (entry : RouteEntry P)
      → entry.floor_granted_at ≡ some granted
      → now ≤ granted + floor_max_hold
      → release_expired P now entry ≡ entry
  unfolding release_expired
  held-release_expired now granted entry at recent = ground arith

  request_entry-held :
      (now granted : ℕ) (entry : RouteEntry P) (holder from : P.Address)
      → entry.floor_holder ≡ some holder
      → entry.floor_granted_at ≡ some granted
      → now ≤ granted + floor_max_hold
      → ((request_entry P now entry from).0 ≡ entry)
        × ((request_entry P now entry from).1
            ≡ (if is_known P (udp from) entry.peers then floor_denied else floor_unknown))
  unfolding request_entry
  request_entry-held now granted entry holder from held at recent = ground (
    arith,
    held-floor_is_free now granted entry holder held at recent,
    held-release_expired now granted entry at recent,
  )

  request_entry-free :
      (now : ℕ) (entry : RouteEntry P) (from : P.Address)
      → floor_is_free P now entry ≡ true
      → is_known P (udp from) entry.peers ≡ true
      → request_entry P now entry from ≡ (
        record entry { floor_holder = some from; floor_granted_at = some now },
        floor_granted (others P (udp from) entry.peers),
      )
  unfolding request_entry
  request_entry-free now entry from free known = ground arith

  -- While somebody holds the floor of a session, for at most 30 seconds from the grant, every
  -- request for it is denied to a known peer and answered Unknown to others, and the entry of the
  -- session is unchanged.
  pub floor_request-held :
      (now granted : ℕ) (r : Router P) (session_id : ℕ) (entry : RouteEntry P)
      (holder from : P.Address)
      → lookup P session_id r.routes ≡ some entry
      → entry.floor_holder ≡ some holder
      → entry.floor_granted_at ≡ some granted
      → now ≤ granted + floor_max_hold
      → (lookup P session_id (floor_request P now r session_id from).0.routes ≡ some entry)
        × ((floor_request P now r session_id from).1
            ≡ (if is_known P (udp from) entry.peers then floor_denied else floor_unknown))
  unfolding floor_request
  floor_request-held now granted r session_id entry holder from found held at recent = ground (
    arith,
    request_entry-held now granted entry holder from held at recent,
    lookup-store session_id (request_entry P now entry from).0 r.routes,
  )

  -- If the floor of a session is free, a request by a known peer is granted, the entry then names
  -- that peer and the time, and the peers to notify do not include it.
  pub floor_request-free :
      (now : ℕ) (r : Router P) (session_id : ℕ) (entry : RouteEntry P) (from : P.Address)
      → lookup P session_id r.routes ≡ some entry
      → floor_is_free P now entry ≡ true
      → is_known P (udp from) entry.peers ≡ true
      → ((floor_request P now r session_id from).1
          ≡ floor_granted (others P (udp from) entry.peers))
        × (is_known P (udp from) (others P (udp from) entry.peers) ≡ false)
        × (lookup P session_id (floor_request P now r session_id from).0.routes
            ≡ some (record entry { floor_holder = some from; floor_granted_at = some now }))
  unfolding floor_request
  floor_request-free now r session_id entry from found free known = ground (
    arith,
    request_entry-free now entry from free known,
    is_known-others P (udp from) entry.peers,
    lookup-store session_id (request_entry P now entry from).0 r.routes,
  )

  -- A request for the floor of one session leaves the other sessions alone.
  pub floor_request-other :
      (now : ℕ) (r : Router P) (session_id other : ℕ) (from : P.Address)
      → (session_id == other) ≡ false
      → lookup P other (floor_request P now r session_id from).0.routes ≡ lookup P other r.routes
  unfolding floor_request
  floor_request-other now r session_id other from apart =
      elim (Option-cases (lookup P session_id r.routes)) [
        | inl absent ↦ ground arith
        | inr (entry, found) ↦ ground (
          arith,
          lookup-store_other session_id other (request_entry P now entry from).0 r.routes apart,
        )
      ]

  -- While somebody holds the floor of a session, for at most 30 seconds from the grant, a release
  -- by another address is denied and the entry of the session is unchanged.
  pub floor_release-others :
      (now granted : ℕ) (r : Router P) (session_id : ℕ) (entry : RouteEntry P)
      (holder from : P.Address)
      → lookup P session_id r.routes ≡ some entry
      → entry.floor_holder ≡ some holder
      → entry.floor_granted_at ≡ some granted
      → now ≤ granted + floor_max_hold
      → P.same_address holder from ≡ false
      → (lookup P session_id (floor_release P now r session_id from).0.routes ≡ some entry)
        × ((floor_release P now r session_id from).1 ≡ floor_denied)
  unfolding floor_release release_entry holds_floor
  floor_release-others now granted r session_id entry holder from found held at recent other =
      ground (
        arith,
        held-floor_is_free now granted entry holder held at recent,
        lookup-store session_id (release_entry P now entry from).0 r.routes,
      )
