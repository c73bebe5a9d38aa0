-- ===== src/Router/Exclusion.antt =====
-- crates/gravital-talk-relay/src/router.rs: the floor over sequences of calls.
use gravital_sound.Common.{
  ℕ, ◌+◌, ◌≤◌, ◌≡◌, refl, sym, ap, subst, ◌∙◌, Bool, true, false, ◌==◌, ==_iff, if◌then◌else◌, inl,
  inr, Bool-cases,
}
use gravital_sound.Common.{List, [], ◌∷◌, some, All}
use gravital_sound.Router.{
  Peers, SessionEndpoint, RouteEntry, Router, udp, matches, floor_granted, floor_denied,
  floor_unknown,
}
use gravital_sound.Router.{
  lookup, is_known, others, route, floor_max_hold, floor_request, floor_release,
}
use gravital_sound.Router.Eviction.{Has}
use gravital_sound.Router.Arbitration.{
  floor_request-held, floor_request-free, floor_request-other, floor_release-others,
}
use gravital_sound.Router.Calls.{
  RelayCall, HasFloor, after, after_all, AllRefused, LeavesFloor, answered, is_refused,
  release-other, route-other, route-HasFloor_same, HasFloor-moved, request, release, datagram,
}
use gravital_sound.Router.Notice.{
  IsFree, TellsOthers, IsFree-floor_is_free, Has-is_known, others-TellsOthers,
}

module _ (P : Peers) where
  answer-refused :
      (known : Bool) → is_refused P (if known then floor_denied else floor_unknown) ≡ true
  answer-refused true = refl
  answer-refused false = refl

  -- What a call leaves, and what it answers.
  abbrev KeepsFloor : ℕ → ℕ → P.Address → Router P → RelayCall P → Type 0
  KeepsFloor granted sid holder r c =
      HasFloor P granted sid holder (after P r c)
      × All (λ d. is_refused P d ≡ true) (answered P sid r c)

  request-KeepsFloor :
      (granted now : ℕ) (r : Router P) (sid session_id : ℕ) (holder from : P.Address)
      → now ≤ granted + floor_max_hold
      → HasFloor P granted sid holder r
      → KeepsFloor granted sid holder r (request now session_id from)
  request-KeepsFloor granted now r sid session_id holder from recent has =
      elim (Bool-cases (session_id == sid)) [
        | inr apart ↦ rw apart (
          HasFloor-moved P granted sid holder r (floor_request P now r session_id from).0
              (floor_request-other P now r session_id sid from apart) has,
          tt,
        )
        | inl same ↦ rw (same, (==_iff session_id sid).0 same) (on_session has)
      ]
    where
      on_session :
          HasFloor P granted sid holder r
          → HasFloor P granted sid holder (floor_request P now r sid from).0
            × ((is_refused P (floor_request P now r sid from).1 ≡ true) × Unit {0})
      on_session (entry, found, held, at) =
          let kept =
            floor_request-held P now granted r sid entry holder from found held at recent in
          (
            (entry, kept.0, held, at),
            (ap (is_refused P) kept.1 ∙ answer-refused (is_known P (udp from) entry.peers), tt),
          )

  release-KeepsFloor :
      (granted now : ℕ) (r : Router P) (sid session_id : ℕ) (holder from : P.Address)
      → LeavesFloor P granted sid holder (release now session_id from)
      → HasFloor P granted sid holder r
      → KeepsFloor granted sid holder r (release now session_id from)
  release-KeepsFloor granted now r sid session_id holder from (recent, inl apart) has = rw apart (
    HasFloor-moved P granted sid holder r (floor_release P now r session_id from).0
        (release-other P now r session_id sid from apart) has,
    tt,
  )
  release-KeepsFloor granted now r sid session_id holder from (recent, inr other) has =
      elim (Bool-cases (session_id == sid)) [
        | inr apart ↦ rw apart (
          HasFloor-moved P granted sid holder r (floor_release P now r session_id from).0
              (release-other P now r session_id sid from apart) has,
          tt,
        )
        | inl same ↦ rw (same, (==_iff session_id sid).0 same) (on_session has)
      ]
    where
      on_session :
          HasFloor P granted sid holder r
          → HasFloor P granted sid holder (floor_release P now r sid from).0
            × ((is_refused P (floor_release P now r sid from).1 ≡ true) × Unit {0})
      on_session (entry, found, held, at) =
          let kept =
            floor_release-others P now granted r sid entry holder from found held at recent other in
          ((entry, kept.0, held, at), (ap (is_refused P) kept.1, tt))

  datagram-HasFloor :
      (granted now : ℕ) (r : Router P) (sid session_id : ℕ) (holder : P.Address)
      (from : SessionEndpoint P)
      → HasFloor P granted sid holder r
      → HasFloor P granted sid holder (route P now r session_id from).0
  datagram-HasFloor granted now r sid session_id holder from has =
      elim (Bool-cases (session_id == sid)) [
        | inr apart ↦
            HasFloor-moved P granted sid holder r (route P now r session_id from).0
              (route-other P now r session_id sid from apart) has
        | inl same ↦
            subst (λ k. HasFloor P granted sid holder (route P now r k from).0)
              (sym ((==_iff session_id sid).0 same))
              (route-HasFloor_same P granted now r sid holder from has)
      ]

  call-KeepsFloor :
      (granted sid : ℕ) (holder : P.Address) (r : Router P) (c : RelayCall P)
      → LeavesFloor P granted sid holder c
      → HasFloor P granted sid holder r
      → KeepsFloor granted sid holder r c
  call-KeepsFloor granted sid holder r (request now session_id from) leaves has =
      request-KeepsFloor granted now r sid session_id holder from leaves has
  call-KeepsFloor granted sid holder r (release now session_id from) leaves has =
      release-KeepsFloor granted now r sid session_id holder from leaves has
  call-KeepsFloor granted sid holder r (datagram now session_id from) leaves has =
      (datagram-HasFloor granted now r sid session_id holder from has, tt)

  calls-HasFloor :
      (granted sid : ℕ) (holder : P.Address) (cs : List (RelayCall P)) (r : Router P)
      → All (LeavesFloor P granted sid holder) cs
      → HasFloor P granted sid holder r
      → HasFloor P granted sid holder (after_all P r cs) × AllRefused P sid r cs
  calls-HasFloor granted sid holder [] r leave has = (has, tt)
  calls-HasFloor granted sid holder (c ∷ cs) r (leaves, leave) has =
      let now_ = call-KeepsFloor granted sid holder r c leaves has in
      let later = calls-HasFloor granted sid holder cs (after P r c) leave now_.0 in
      (later.0, (now_.1, later.1))

  -- If nobody has the floor of a session, or its holder got it more than 30 seconds ago, a
  -- request by a peer of the session is granted, and the peers to notify are exactly those that
  -- are not the sender. After any further requests, releases and datagrams of any sessions and
  -- senders, each request and release within 30 seconds of the grant and no release of this
  -- session by the holder, the floor is still the sender's, since that time, and every answer
  -- about it was a refusal.
  pub floor_request-exclusive :
      (now : ℕ) (r : Router P) (session_id : ℕ) (entry : RouteEntry P) (from : P.Address)
      (peer : SessionEndpoint P) (cs : List (RelayCall P))
      → lookup P session_id r.routes ≡ some entry
      → IsFree P now entry
      → Has peer entry.peers
      → matches P peer (udp from) ≡ true
      → All (LeavesFloor P now session_id from) cs
      → (told : List (SessionEndpoint P)) × ((floor_request P now r session_id from).1
          ≡ floor_granted told)
        × TellsOthers P (udp from) entry.peers told
        × HasFloor P now session_id from (after_all P (floor_request P now r session_id from).0 cs)
        × AllRefused P session_id (floor_request P now r session_id from).0 cs
  floor_request-exclusive now r session_id entry from peer cs found free has same leave =
      let granted =
        floor_request-free P now r session_id entry from found
          (IsFree-floor_is_free P now entry free)
          (Has-is_known P (udp from) peer entry.peers has same) in
      let later =
        calls-HasFloor now session_id from cs (floor_request P now r session_id from).0 leave (
          record entry { floor_holder = some from; floor_granted_at = some now },
          granted.2,
          refl,
          refl,
        ) in
      (
        others P (udp from) entry.peers,
        granted.0,
        others-TellsOthers P (udp from) entry.peers,
        later.0,
        later.1,
      )
