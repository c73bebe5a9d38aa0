-- ===== src/Router.antt =====
-- crates/gravital-talk-relay/src/router.rs: sessions of the relay, their peers and their floor.
-- The clock is an argument `now`, in nanoseconds. `DashMap` is an association list with one entry
-- for each key. Addresses and channels are types with the tests that the code uses; metrics and
-- log lines are left out.
pub mod Views
pub mod Routing
pub mod Eviction
pub mod Arbitration
pub mod Calls
pub mod Notice
pub mod Exclusion
mod Examples
use gravital_sound.Common.{
  ℕ, ◌+◌, ◌-◌, ◌*◌, Bool, true, false, not, ◌&&◌, ◌||◌, ltb, leb, ◌==◌, if◌then◌else◌,
}
use gravital_sound.Common.{List, [], ◌∷◌, ◌++◌, length, Option, none, some}

-- `FLOOR_MAX_HOLD_SECS`
abbrev pub floor_max_hold : ℕ
floor_max_hold = 30 * 1000000000

-- Socket addresses and channels of other crates: equality of addresses, `same_channel`, and
-- `is_closed` at the time of the call.
pub record Peers : Type 1 where
  pub Address : Type 0
  pub Channel : Type 0
  pub same_address : Address → Address → Bool
  pub same_channel : Channel → Channel → Bool
  pub is_closed : Channel → Bool

module _ (P : Peers) where
  pub data SessionEndpoint : Type 0 where
    udp : P.Address → SessionEndpoint
    web_socket : P.Channel → SessionEndpoint

  -- `SessionEndpoint::matches`
  unfoldable pub matches : SessionEndpoint → SessionEndpoint → Bool
  matches (udp a) (udp b) = P.same_address a b
  matches (web_socket a) (web_socket b) = P.same_channel a b
  matches _ _ = false

  pub record RouteEntry : Type 0 where
    pub peers : List SessionEndpoint
    pub last_activity : ℕ
    pub floor_holder : Option P.Address
    pub floor_granted_at : Option ℕ

  -- `RouteEntry::floor_is_free`
  unfoldable pub floor_is_free : ℕ → RouteEntry → Bool
  floor_is_free now entry = elim entry.floor_holder [
    | none ↦ true
    | some holder ↦ elim entry.floor_granted_at [
      | some granted ↦ ltb floor_max_hold (now - granted)
      | none ↦ false
    ]
  ]

  pub record Router : Type 0 where
    pub routes : List (ℕ × RouteEntry)
    pub max_sessions : ℕ
    pub max_peers_per_session : ℕ

  pub data RouteDecision : Type 0 where
    broadcast : List SessionEndpoint → RouteDecision
    registered dropped : RouteDecision

  pub data FloorDecision : Type 0 where
    floor_granted floor_released : List SessionEndpoint → FloorDecision
    floor_denied floor_unknown : FloorDecision

  -- `routes.get(&session_id)`
  unfoldable pub lookup : ℕ → List (ℕ × RouteEntry) → Option RouteEntry
  lookup session_id [] = none
  lookup session_id ((k, entry) ∷ rest) =
      if k == session_id then some entry else lookup session_id rest

  -- The entry that `get_mut` lends, written back; `insert` where there is none.
  unfoldable pub store : ℕ → RouteEntry → List (ℕ × RouteEntry) → List (ℕ × RouteEntry)
  store session_id entry [] = (session_id, entry) ∷ []
  store session_id entry ((k, old) ∷ rest) =
      if k == session_id then (k, entry) ∷ rest else (k, old) ∷ store session_id entry rest

  -- `peers.iter().any(|p| p.matches(&from))`
  unfoldable pub is_known : SessionEndpoint → List SessionEndpoint → Bool
  is_known from [] = false
  is_known from (p ∷ ps) = matches p from || is_known from ps

  -- `peers.iter().filter(|p| !p.matches(&from))`
  unfoldable pub others : SessionEndpoint → List SessionEndpoint → List SessionEndpoint
  others from [] = []
  others from (p ∷ ps) = if matches p from then others from ps else p ∷ others from ps

  -- `if targets.is_empty() { Registered } else { Broadcast(targets) }`
  unfoldable pub decision : List SessionEndpoint → RouteDecision
  decision [] = registered
  decision (t ∷ ts) = broadcast (t ∷ ts)

  -- The part of `route` for a session that exists: its entry after the call, and the decision.
  unfoldable pub route_entry : ℕ → ℕ → RouteEntry → SessionEndpoint → RouteEntry × RouteDecision
  unfolding is_known others decision
  route_entry now max_peers entry from =
      let active = record entry { last_activity = now } in
      if is_known from entry.peers
      then (active, decision (others from entry.peers))
      else if leb max_peers (length entry.peers)
      then (active, dropped)
      else (record active { peers = entry.peers ++ (from ∷ []) }, decision entry.peers)

  -- `Router::route`
  unfoldable pub route : ℕ → Router → ℕ → SessionEndpoint → Router × RouteDecision
  unfolding lookup store route_entry
  route now r session_id from =
      if session_id == 0 then (r, dropped) else elim (lookup session_id r.routes) [
        | some entry ↦
            let (after, decided) = route_entry now r.max_peers_per_session entry from in
            (record r { routes = store session_id after r.routes }, decided)
        | none ↦ if leb r.max_sessions (length r.routes) then (r, dropped) else (
          record r {
            routes =
                store session_id
                  (record {
                    peers = from ∷ [];
                    last_activity = now;
                    floor_holder = none;
                    floor_granted_at = none;
                  })
                  r.routes;
          },
          registered,
        )
      ]

  -- `RouteEntry` after the automatic release in `floor_request`.
  unfoldable pub release_expired : ℕ → RouteEntry → RouteEntry
  release_expired now entry = elim entry.floor_granted_at [
    | none ↦ entry
    | some granted ↦
        if ltb floor_max_hold (now - granted)
        then record entry { floor_holder = none; floor_granted_at = none }
        else entry
  ]

  -- `floor_request` for an entry of the table.
  unfoldable pub request_entry : ℕ → RouteEntry → P.Address → RouteEntry × FloorDecision
  unfolding is_known others floor_is_free release_expired
  request_entry now entry from =
      if not (is_known (udp from) entry.peers)
      then (entry, floor_unknown)
      else let current = if floor_is_free now entry then entry else release_expired now entry in
        if not (floor_is_free now current) then (current, floor_denied) else (
          record current { floor_holder = some from; floor_granted_at = some now },
          floor_granted (others (udp from) current.peers),
        )

  -- `entry.floor_holder == Some(from)`
  unfoldable pub holds_floor : RouteEntry → P.Address → Bool
  holds_floor entry from = elim entry.floor_holder [
    | none ↦ false
    | some holder ↦ P.same_address holder from
  ]

  -- `floor_release` for an entry of the table.
  unfoldable pub release_entry : ℕ → RouteEntry → P.Address → RouteEntry × FloorDecision
  unfolding others floor_is_free holds_floor
  release_entry now entry from =
      if not (holds_floor entry from || floor_is_free now entry) then (entry, floor_denied) else (
        record entry { floor_holder = none; floor_granted_at = none },
        floor_released (others (udp from) entry.peers),
      )

  -- `Router::floor_request`
  unfoldable pub floor_request : ℕ → Router → ℕ → P.Address → Router × FloorDecision
  unfolding lookup store request_entry
  floor_request now r session_id from = elim (lookup session_id r.routes) [
    | none ↦ (r, floor_unknown)
    | some entry ↦
        let (after, decided) = request_entry now entry from in
        (record r { routes = store session_id after r.routes }, decided)
  ]

  -- `Router::floor_release`
  unfoldable pub floor_release : ℕ → Router → ℕ → P.Address → Router × FloorDecision
  unfolding lookup store release_entry
  floor_release now r session_id from = elim (lookup session_id r.routes) [
    | none ↦ (r, floor_unknown)
    | some entry ↦
        let (after, decided) = release_entry now entry from in
        (record r { routes = store session_id after r.routes }, decided)
  ]

  -- `peers.retain`, which drops the closed channels.
  unfoldable pub open_peers : List SessionEndpoint → List SessionEndpoint
  open_peers [] = []
  open_peers (udp a ∷ ps) = udp a ∷ open_peers ps
  open_peers (web_socket c ∷ ps) =
      if P.is_closed c then open_peers ps else web_socket c ∷ open_peers ps

  -- `routes.retain` in `evict_idle`: the entries that stay, and the number of the others.
  unfoldable pub retain : ℕ → ℕ → List (ℕ × RouteEntry) → List (ℕ × RouteEntry) × ℕ
  unfolding open_peers
  retain now max_age [] = ([], 0)
  retain now max_age ((k, entry) ∷ rest) =
      let (kept, removed) = retain now max_age rest in
      let peers = open_peers entry.peers in
      if not (length peers == 0) && ltb (now - entry.last_activity) max_age
      then ((k, record entry { peers = peers }) ∷ kept, removed)
      else (kept, removed + 1)

  -- `Router::evict_idle`
  unfoldable pub evict_idle : ℕ → Router → ℕ → Router × ℕ
  unfolding retain
  evict_idle now r max_age_secs =
      let (kept, removed) = retain now (max_age_secs * 1000000000) r.routes in
      (record r { routes = kept }, removed)
