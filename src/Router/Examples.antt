-- ===== src/Router/Examples.antt =====
-- A relay of two sessions with two peers each; addresses and channels are numbers.
use gravital_sound.Common.{ℕ, ◌+◌, ◌≡◌, refl, [], ◌∷◌, length, none, some, ◌==◌, arith}
use gravital_sound.Router.{
  Peers, SessionEndpoint, RouteEntry, Router, udp, web_socket, lookup, route, evict_idle,
}
use gravital_sound.Router.{
  floor_request, floor_release, floor_denied, floor_granted, floor_max_hold, is_known, others,
  floor_is_free, broadcast, dropped,
}
use gravital_sound.Router.Routing.{NoEcho, route-NoEcho, IsWithinLimits, route-IsWithinLimits}
use gravital_sound.Router.Eviction.{IsLive, LostOrKept, evict_idle-IsWithinLimits}
use gravital_sound.Router.Eviction.{here, there}
use gravital_sound.Router.Calls.{
  RelayCall, request, release, datagram, HasFloor, after_all, AllRefused,
}
use gravital_sound.Router.Notice.{TellsOthers}
use gravital_sound.Router.Exclusion.{floor_request-exclusive}
use gravital_sound.Common.{◌*◌, All, List, inl, inr}
use gravital_sound.Router.Arbitration.{
  floor_request-held, floor_request-other, floor_release-others,
}
use gravital_sound.Router.Views.{list_rooms}

abbrev peers : Peers
peers = record {
  Address = ℕ;
  Channel = ℕ;
  same_address = λ a b. a == b;
  same_channel = λ a b. a == b;
  is_closed = λ c. c == 0;
}

abbrev quiet : RouteEntry peers
quiet = record {
  peers = udp 1 ∷ udp 2 ∷ [];
  last_activity = 5;
  floor_holder = none;
  floor_granted_at = none;
}

abbrev talking : RouteEntry peers
talking = record quiet { floor_holder = some 1; floor_granted_at = some 100 }

abbrev router : Router peers
router = record {
  routes = (7, talking) ∷ (8, quiet) ∷ [];
  max_sessions = 2;
  max_peers_per_session = 2;
}

router-IsWithinLimits : IsWithinLimits peers router
router-IsWithinLimits = omega arith

test_route : (route peers 9 router 7 (udp 2)).1 ≡ broadcast (udp 1 ∷ [])
unfolding route gravital_sound.Router.matches
test_route = refl

route-NoEcho_example : NoEcho peers (udp 2) (route peers 9 router 7 (udp 2)).1
route-NoEcho_example = route-NoEcho peers 9 router 7 (udp 2)

route-IsWithinLimits_example : IsWithinLimits peers (route peers 9 router 9 (udp 3)).0
route-IsWithinLimits_example =
    route-IsWithinLimits peers 9 router 9 (udp 3) (omega arith) router-IsWithinLimits

evict_idle-IsWithinLimits_example :
    IsWithinLimits peers (evict_idle peers 9 router 60).0
    × (length (evict_idle peers 9 router 60).0.routes + (evict_idle peers 9 router 60).1 ≡ 2)
    × All (λ e. IsLive peers 9 (60 * 1000000000) e.1) (evict_idle peers 9 router 60).0.routes
    × All
        (LostOrKept peers 9 (60 * 1000000000) (evict_idle peers 9 router 60).0.routes)
        router.routes
evict_idle-IsWithinLimits_example =
    evict_idle-IsWithinLimits peers 9 router 60 router-IsWithinLimits

-- A session whose only peer is a closed channel goes, one that is too old goes, one is kept.
test_evict_idle :
    (evict_idle peers 61000000000
      (record router {
        routes =
            (7, record talking { last_activity = 60000000000 })
            ∷ (8, record quiet { peers = web_socket 0 ∷ []; last_activity = 60000000000 })
            ∷ (9, quiet)
            ∷ [];
      })
      60).0.routes
    ≡ (7, record talking { last_activity = 60000000000 }) ∷ []
unfolding evict_idle
test_evict_idle = refl

floor_request-held_example :
    (lookup peers 7 (floor_request peers 200 router 7 2).0.routes ≡ some talking)
    × ((floor_request peers 200 router 7 2).1 ≡ floor_denied)
unfolding lookup is_known gravital_sound.Router.matches
floor_request-held_example =
    floor_request-held peers 200 100 router 7 talking 1 2 refl refl refl (omega arith)

-- The peer 2 has the floor of session 8; others try to take or release it, and send datagrams.
abbrev attempts : List (RelayCall peers)
attempts =
    request 300 8 1
    ∷ release 400 8 1
    ∷ datagram 500 8 (udp 1)
    ∷ release 600 7 1
    ∷ request 700 8 2
    ∷ []

floor_request-exclusive_example :
    (told : List (SessionEndpoint peers)) × ((floor_request peers 200 router 8 2).1
      ≡ floor_granted told)
    × TellsOthers peers (udp 2) quiet.peers told
    × HasFloor peers 200 8 2 (after_all peers (floor_request peers 200 router 8 2).0 attempts)
    × AllRefused peers 8 (floor_request peers 200 router 8 2).0 attempts
unfolding lookup gravital_sound.Router.matches
floor_request-exclusive_example =
    floor_request-exclusive peers 200 router 8 quiet 2 (udp 2) attempts refl (inl refl) (there here)
      refl
      (omega arith, ((omega arith, inr refl), (tt, ((omega arith, inr refl), (omega arith, tt)))))

test_floor_request-other :
    lookup peers 7 (floor_request peers 200 router 8 2).0.routes ≡ lookup peers 7 router.routes
test_floor_request-other = floor_request-other peers 200 router 8 7 2 refl

floor_release-others_example :
    (lookup peers 7 (floor_release peers 200 router 7 2).0.routes ≡ some talking)
    × ((floor_release peers 200 router 7 2).1 ≡ floor_denied)
unfolding lookup
floor_release-others_example =
    floor_release-others peers 200 100 router 7 talking 1 2 refl refl refl (omega arith) refl

-- Of two rooms the second has no session.
test_list_rooms :
    list_rooms peers router ((65 ∷ [], 7) ∷ (66 ∷ [], 9) ∷ [])
    ≡ ((65 ∷ [], 7, 2) ∷ (66 ∷ [], 9, 0) ∷ [])
unfolding list_rooms lookup
test_list_rooms = refl
