-- ===== src/Router/Views.antt =====
-- crates/gravital-talk-relay/src/router.rs: what the relay shows of its sessions and rooms.
use gravital_sound.Common.{ℕ, List, [], ◌∷◌, length, Option, none, some}
use gravital_sound.Router.{Peers, Router, lookup}
use gravital_sound.Rooms.Table.{Table}

module _ (P : Peers) where
  -- `active_sessions`
  abbrev pub active_sessions : Router P → ℕ
  active_sessions r = length r.routes

  -- `peer_count`
  unfoldable pub peer_count : Router P → ℕ → ℕ
  peer_count r session_id = elim (lookup P session_id r.routes) [
    | some entry ↦ length entry.peers
    | none ↦ 0
  ]

  -- `floor_holder`
  unfoldable pub floor_holder_of : Router P → ℕ → Option P.Address
  floor_holder_of r session_id = elim (lookup P session_id r.routes) [
    | some entry ↦ entry.floor_holder
    | none ↦ none
  ]

  -- `list_rooms`
  unfoldable pub list_rooms : Router P → Table → List (List ℕ × ℕ × ℕ)
  unfolding peer_count
  list_rooms r [] = []
  list_rooms r ((code, session_id) ∷ rest) =
      (code, session_id, peer_count r session_id) ∷ list_rooms r rest
