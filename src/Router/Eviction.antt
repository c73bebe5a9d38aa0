-- ===== src/Router/Eviction.antt =====
-- crates/gravital-talk-relay/src/router.rs: what `evict_idle` removes from the table.
use gravital_sound.Common.{
  ℕ, ◌+◌, ◌-◌, ◌*◌, ◌≤◌, ◌<◌, ◌≡◌, refl, sym, ap, subst, arith, Bool, true, false, not, ltb, ◌==◌,
  ◌&&◌, if◌then◌else◌, ◌⊎◌, inl, inr, Bool-cases,
}
use gravital_sound.Common.{List, [], ◌∷◌, length, All}
use gravital_sound.Router.{
  Peers, SessionEndpoint, RouteEntry, Router, udp, web_socket, open_peers, retain, evict_idle,
}
use gravital_sound.Router.Routing.{IsWithinLimits, PeersWithin}

pub data Has {ℓ} {A : Type ℓ} (x : A) : List A → Type ℓ where
  here : {xs : List A} → Has x (x ∷ xs)
  there : {y : A} {xs : List A} → Has x xs → Has x (y ∷ xs)

pub All-map {ℓ κ μ} :
    {A : Type ℓ} {P : A → Type κ} {Q : A → Type μ} (xs : List A)
    → ((x : A) → P x → Q x)
    → All P xs
    → All Q xs
All-map [] f h = tt
All-map (x ∷ xs) f (h, hs) = (f x h, All-map xs f hs)

module _ (P : Peers) where
  -- A socket address is always open, a channel until it is closed.
  abbrev pub is_open : SessionEndpoint P → Bool
  is_open (udp a) = true
  is_open (web_socket c) = not (P.is_closed c)

  abbrev pub open_only : List (SessionEndpoint P) → List (SessionEndpoint P)
  open_only [] = []
  open_only (p ∷ ps) = if is_open p then p ∷ open_only ps else open_only ps

  -- A session that is used: within the age, with peers, all of which are open.
  abbrev pub IsLive : ℕ → ℕ → RouteEntry P → Type 0
  IsLive now max_age entry =
      (now - entry.last_activity < max_age)
      × (0 < length entry.peers)
      × All (λ p. is_open p ≡ true) entry.peers

  -- A session that is not: too old, or without an open peer.
  abbrev pub IsLost : ℕ → ℕ → RouteEntry P → Type 0
  IsLost now max_age entry =
      (max_age ≤ now - entry.last_activity) ⊎ All (λ p. is_open p ≡ false) entry.peers

  -- It is lost, or is in the table with its open peers and otherwise as it was.
  abbrev pub LostOrKept : ℕ → ℕ → List (ℕ × RouteEntry P) → ℕ × RouteEntry P → Type 0
  LostOrKept now max_age after r =
      IsLost now max_age r.1 ⊎ Has (r.0, record r.1 { peers = open_only r.1.peers }) after

  length-open_peers : (ps : List (SessionEndpoint P)) → length (open_peers P ps) ≤ length ps
  unfolding open_peers
  length-open_peers [] = omega arith
  length-open_peers (udp a ∷ ps) = omega (arith, length-open_peers ps)
  length-open_peers (web_socket c ∷ ps) = ground (arith, length-open_peers ps)

  retain-within :
      (now max_age n : ℕ) (rs : List (ℕ × RouteEntry P))
      → PeersWithin P n rs
      → PeersWithin P n (retain P now max_age rs).0
        × (length (retain P now max_age rs).0 + (retain P now max_age rs).1 ≡ length rs)
  unfolding retain
  retain-within now max_age n [] h = (tt, omega arith)
  retain-within now max_age n ((k, entry) ∷ rs) (h, hs) =
      ground (arith, retain-within now max_age n rs hs, length-open_peers entry.peers)

  open_peers-open_only : (ps : List (SessionEndpoint P)) → open_peers P ps ≡ open_only ps
  unfolding open_peers
  open_peers-open_only [] = refl
  open_peers-open_only (udp a ∷ ps) = ap (◌∷◌ (udp a)) (open_peers-open_only ps)
  open_peers-open_only (web_socket c ∷ ps) = elim (Bool-cases (P.is_closed c)) [
    | inl closed ↦ rw closed (open_peers-open_only ps)
    | inr open_ ↦ rw open_ (ap (◌∷◌ (web_socket c)) (open_peers-open_only ps))
  ]

  open_only-open : (ps : List (SessionEndpoint P)) → All (λ p. is_open p ≡ true) (open_only ps)
  open_only-open [] = tt
  open_only-open (p ∷ ps) = elim (Bool-cases (is_open p)) [
    | inl holds ↦ rw holds (holds, open_only-open ps)
    | inr fails ↦ rw fails (open_only-open ps)
  ]

  open_only-none :
      (ps : List (SessionEndpoint P)) → length (open_only ps) ≡ 0 → All (λ p. is_open p ≡ false) ps
  open_only-none [] h = tt
  open_only-none (p ∷ ps) h = elim (Bool-cases (is_open p)) [
    | inl holds ↦ absurd (ground (arith, h, holds))
    | inr fails ↦ (fails, open_only-none ps (ground (arith, h, fails)))
  ]

  -- The test of `retain`.
  abbrev stays : ℕ → ℕ → RouteEntry P → Bool
  stays now max_age entry =
      not (length (open_peers P entry.peers) == 0) && ltb (now - entry.last_activity) max_age

  stays-IsLive :
      (now max_age : ℕ) (entry : RouteEntry P)
      → stays now max_age entry ≡ true
      → IsLive now max_age (record entry { peers = open_only entry.peers })
  stays-IsLive now max_age entry h = (
    ground (arith, h),
    ground (arith, h, open_peers-open_only entry.peers),
    open_only-open entry.peers,
  )

  gone-IsLost :
      (now max_age : ℕ) (entry : RouteEntry P)
      → stays now max_age entry ≡ false
      → IsLost now max_age entry
  gone-IsLost now max_age entry h = elim (Bool-cases (ltb (now - entry.last_activity) max_age)) [
    | inr old ↦ inl (ground (arith, old))
    | inl recent ↦
        inr
          (open_only-none entry.peers (ground (arith, h, recent, open_peers-open_only entry.peers)))
  ]

  -- A round of the loop, when the test holds and when it does not.
  retain-stays :
      (now max_age k : ℕ) (entry : RouteEntry P) (rs : List (ℕ × RouteEntry P))
      → stays now max_age entry ≡ true
      → (retain P now max_age ((k, entry) ∷ rs)).0
        ≡ (k, record entry { peers = open_only entry.peers }) ∷ (retain P now max_age rs).0
  unfolding retain
  retain-stays now max_age k entry rs h = rw (h, open_peers-open_only entry.peers) refl

  retain-gone :
      (now max_age k : ℕ) (entry : RouteEntry P) (rs : List (ℕ × RouteEntry P))
      → stays now max_age entry ≡ false
      → (retain P now max_age ((k, entry) ∷ rs)).0 ≡ (retain P now max_age rs).0
  unfolding retain
  retain-gone now max_age k entry rs h = rw h refl

  retain-IsLive :
      (now max_age : ℕ) (rs : List (ℕ × RouteEntry P))
      → All (λ r. IsLive now max_age r.1) (retain P now max_age rs).0
  retain-IsLive now max_age [] = unfold retain in tt
  retain-IsLive now max_age ((k, entry) ∷ rs) = elim (Bool-cases (stays now max_age entry)) [
    | inl here_ ↦
        rw (retain-stays now max_age k entry rs here_)
          (stays-IsLive now max_age entry here_, retain-IsLive now max_age rs)
    | inr gone ↦ rw (retain-gone now max_age k entry rs gone) (retain-IsLive now max_age rs)
  ]

  LostOrKept-later :
      (now max_age : ℕ) (after : List (ℕ × RouteEntry P)) (first r : ℕ × RouteEntry P)
      → LostOrKept now max_age after r
      → LostOrKept now max_age (first ∷ after) r
  LostOrKept-later now max_age after first r (inl lost) = inl lost
  LostOrKept-later now max_age after first r (inr kept) = inr (there kept)

  retain-LostOrKept :
      (now max_age : ℕ) (rs : List (ℕ × RouteEntry P))
      → All (LostOrKept now max_age (retain P now max_age rs).0) rs
  retain-LostOrKept now max_age [] = tt
  retain-LostOrKept now max_age ((k, entry) ∷ rs) = elim (Bool-cases (stays now max_age entry)) [
    | inl here_ ↦
        subst (λ after. All (LostOrKept now max_age after) ((k, entry) ∷ rs))
          (sym (retain-stays now max_age k entry rs here_))
          (
            inr here,
            All-map rs
                (LostOrKept-later now max_age (retain P now max_age rs).0
                  (k, record entry { peers = open_only entry.peers }))
                (retain-LostOrKept now max_age rs),
          )
    | inr gone ↦
        subst (λ after. All (LostOrKept now max_age after) ((k, entry) ∷ rs))
          (sym (retain-gone now max_age k entry rs gone))
          (inl (gone-IsLost now max_age entry gone), retain-LostOrKept now max_age rs)
  ]

  -- Eviction keeps the limits, and the number that it returns is the number of sessions that were
  -- removed. Every session that stays was active within the age, and has peers, none of which is
  -- a closed channel. Every session of before is idle for the age at least, or has no open peer,
  -- or stays with exactly its open peers.
  pub evict_idle-IsWithinLimits :
      (now : ℕ) (r : Router P) (max_age_secs : ℕ)
      → IsWithinLimits P r
      → IsWithinLimits P (evict_idle P now r max_age_secs).0
        × (length (evict_idle P now r max_age_secs).0.routes + (evict_idle P now r max_age_secs).1
            ≡ length r.routes)
        × All
            (λ e. IsLive now (max_age_secs * 1000000000) e.1)
            (evict_idle P now r max_age_secs).0.routes
        × All
            (LostOrKept now (max_age_secs * 1000000000) (evict_idle P now r max_age_secs).0.routes)
            r.routes
  unfolding evict_idle
  evict_idle-IsWithinLimits now r max_age_secs v =
      let age = max_age_secs * 1000000000 in
      let within = retain-within now age r.max_peers_per_session r.routes v.peers in
      (
        record { sessions = omega (arith, within.1, v.sessions); peers = within.0 },
        within.1,
        retain-IsLive now age r.routes,
        retain-LostOrKept now age r.routes,
      )
