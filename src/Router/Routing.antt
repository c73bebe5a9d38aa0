-- ===== src/Router/Routing.antt =====
-- Where datagrams are sent, and the limits of the table.
use gravital_sound.Common.{ℕ, ◌+◌, ◌≤◌, ◌<◌, ◌≡◌, refl, arith, false, leb, ◌==◌}
use gravital_sound.Common.{
  List, [], ◌∷◌, length, length-append, none, some, Bool-cases, Option-cases, inl, inr,
}
use gravital_sound.Router.{
  Peers, SessionEndpoint, RouteEntry, Router, RouteDecision, broadcast, registered, dropped,
}
use gravital_sound.Router.{lookup, store, is_known, others, decision, route_entry, route, matches}

module _ (P : Peers) where
  pub is_known-others :
      (from : SessionEndpoint P) (ps : List (SessionEndpoint P))
      → is_known P from (others P from ps) ≡ false
  unfolding is_known others
  is_known-others from [] = refl
  is_known-others from (p ∷ ps) = elim (Bool-cases (matches P p from)) [
    | inl same ↦ ground (arith, is_known-others from ps)
    | inr other ↦ ground (arith, is_known-others from ps)
  ]

  -- The datagram is not sent back to its sender.
  abbrev pub NoEcho : SessionEndpoint P → RouteDecision P → Type 0
  NoEcho from (broadcast ts) = is_known P from ts ≡ false
  NoEcho from registered = Unit {0}
  NoEcho from dropped = Unit {0}

  decision-NoEcho :
      (from : SessionEndpoint P) (ps : List (SessionEndpoint P))
      → is_known P from ps ≡ false
      → NoEcho from (decision P ps)
  unfolding decision
  decision-NoEcho from [] h = tt
  decision-NoEcho from (p ∷ ps) h = h

  route_entry-NoEcho :
      (now max_peers : ℕ) (entry : RouteEntry P) (from : SessionEndpoint P)
      → NoEcho from (route_entry P now max_peers entry from).1
  unfolding route_entry
  route_entry-NoEcho now max_peers entry from = elim (Bool-cases (is_known P from entry.peers)) [
    | inl known ↦
        ground (
          arith,
          decision-NoEcho from (others P from entry.peers) (is_known-others from entry.peers),
        )
    | inr unknown ↦ ground (arith, decision-NoEcho from entry.peers unknown)
  ]

  -- No datagram is routed back to its sender: none of the targets of a broadcast matches it.
  pub route-NoEcho :
      (now : ℕ) (r : Router P) (session_id : ℕ) (from : SessionEndpoint P)
      → NoEcho from (route P now r session_id from).1
  unfolding route
  route-NoEcho now r session_id from = elim (Option-cases (lookup P session_id r.routes)) [
    | inl absent ↦ ground arith
    | inr (entry, found) ↦ ground (arith, route_entry-NoEcho now r.max_peers_per_session entry from)
  ]

  abbrev pub PeersWithin : ℕ → List (ℕ × RouteEntry P) → Type 0
  PeersWithin n [] = Unit {0}
  PeersWithin n (r ∷ rs) = (length r.1.peers ≤ n) × PeersWithin n rs

  -- There are at most as many sessions, and as many peers in each, as configured.
  pub record IsWithinLimits (r : Router P) : Type 0 where
    pub sessions : length r.routes ≤ r.max_sessions
    pub peers : PeersWithin r.max_peers_per_session r.routes

  length-store_found :
      (sid : ℕ) (after : RouteEntry P) (rs : List (ℕ × RouteEntry P)) {entry : RouteEntry P}
      → lookup P sid rs ≡ some entry
      → length (store P sid after rs) ≡ length rs
  unfolding lookup store
  length-store_found sid after [] e = absurd (ground arith)
  length-store_found sid after ((k, old) ∷ rs) {entry} e = elim (Bool-cases (k == sid)) [
    | inl here ↦ ground arith
    | inr later ↦ ground (arith, length-store_found sid after rs {entry = entry})
  ]

  length-store :
      (sid : ℕ) (after : RouteEntry P) (rs : List (ℕ × RouteEntry P))
      → length (store P sid after rs) ≤ length rs + 1
  unfolding store
  length-store sid after [] = omega arith
  length-store sid after ((k, old) ∷ rs) = ground (arith, length-store sid after rs)

  store-PeersWithin :
      (n sid : ℕ) (after : RouteEntry P) (rs : List (ℕ × RouteEntry P))
      → PeersWithin n rs
      → length after.peers ≤ n
      → PeersWithin n (store P sid after rs)
  unfolding store
  store-PeersWithin n sid after [] h few = (few, tt)
  store-PeersWithin n sid after ((k, old) ∷ rs) (h, hs) few = elim (Bool-cases (k == sid)) [
    | inl here ↦ ground arith
    | inr later ↦ ground (arith, store-PeersWithin n sid after rs hs few)
  ]

  lookup-PeersWithin :
      (n sid : ℕ) (rs : List (ℕ × RouteEntry P)) {entry : RouteEntry P}
      → PeersWithin n rs
      → lookup P sid rs ≡ some entry
      → length entry.peers ≤ n
  unfolding lookup
  lookup-PeersWithin n sid [] h e = absurd (ground arith)
  lookup-PeersWithin n sid ((k, old) ∷ rs) {entry} (h, hs) e = elim (Bool-cases (k == sid)) [
    | inl here ↦ ground arith
    | inr later ↦ ground (arith, lookup-PeersWithin n sid rs {entry = entry} hs)
  ]

  route_entry-few :
      (now max_peers : ℕ) (entry : RouteEntry P) (from : SessionEndpoint P)
      → length entry.peers ≤ max_peers
      → length (route_entry P now max_peers entry from).0.peers ≤ max_peers
  unfolding route_entry
  route_entry-few now max_peers entry from few =
      ground (arith, length-append entry.peers (from ∷ []))

  stored-IsWithinLimits :
      (r : Router P) (sid : ℕ) (after : RouteEntry P)
      → IsWithinLimits r
      → length after.peers ≤ r.max_peers_per_session
      → length (store P sid after r.routes) ≤ r.max_sessions
      → IsWithinLimits (record r { routes = store P sid after r.routes })
  stored-IsWithinLimits r sid after v few fits = record {
    sessions = fits;
    peers = store-PeersWithin r.max_peers_per_session sid after r.routes v.peers few;
  }

  -- If at least one peer per session is allowed, routing keeps the number of sessions and the
  -- number of peers in each session within the configured limits.
  pub route-IsWithinLimits :
      (now : ℕ) (r : Router P) (session_id : ℕ) (from : SessionEndpoint P)
      → 0 < r.max_peers_per_session
      → IsWithinLimits r
      → IsWithinLimits (route P now r session_id from).0
  unfolding route
  route-IsWithinLimits now r session_id from room v = elim (Bool-cases (session_id == 0)) [
    | inl zero_id ↦ ground arith
    | inr other_id ↦ elim (Option-cases (lookup P session_id r.routes)) [
      | inr (entry, found) ↦ ground (arith, known_session entry found)
      | inl absent ↦ elim (Bool-cases (leb r.max_sessions (length r.routes))) [
        | inl full ↦ ground arith
        | inr space ↦ ground (arith, new_session space)
      ]
    ]
  ]
    where
      fresh : RouteEntry P
      fresh = record {
        peers = from ∷ [];
        last_activity = now;
        floor_holder = none;
        floor_granted_at = none;
      }

      leb_false : (a b : ℕ) → leb a b ≡ false → b < a
      leb_false a b h = ground arith

      known_session :
          (entry : RouteEntry P)
          → lookup P session_id r.routes ≡ some entry
          → IsWithinLimits (record r {
            routes =
                store P session_id
                  (route_entry P now r.max_peers_per_session entry from).0
                  r.routes;
          })
      known_session entry found =
          stored-IsWithinLimits r session_id
            (route_entry P now r.max_peers_per_session entry from).0 v
            (route_entry-few now r.max_peers_per_session entry from (
              lookup-PeersWithin r.max_peers_per_session session_id r.routes {entry = entry} v.peers
                found))
            (omega (
              arith,
              length-store_found session_id (route_entry P now r.max_peers_per_session entry from).0
                  r.routes {entry = entry} found,
              v.sessions,
            ))

      new_session :
          leb r.max_sessions (length r.routes) ≡ false
          → IsWithinLimits (record r { routes = store P session_id fresh r.routes })
      new_session space = stored-IsWithinLimits r session_id fresh v (omega arith) (
          omega (
            arith,
            length-store session_id fresh r.routes,
            leb_false r.max_sessions (length r.routes) space,
          ))
