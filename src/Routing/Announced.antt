-- ===== src/Routing/Announced.antt =====
-- internal/routing/table.go: after any announcements, the routes are those of the last announcement of
-- each peer that was newer than the ones before.
use nexus_proxy_server.Common.{
  ℕ, ◌≡◌, refl, ap, ◌∙◌, Bool, true, ◌&&◌, ltb, ◌==◌, nat_eq, bytes_eq, if◌then◌else◌, Bytes, List,
  [], ◌∷◌, ◌++◌, Option, none, some, lookup, Distinct, arith, Bool-cases, inl, inr,
}
use nexus_proxy_server.Hostnames.{wildcard_suffix}
use nexus_proxy_server.Routing.Peers.{Peer}
use nexus_proxy_server.Routing.Table.{
  Table, PeerState, has_text, set_of, state_or_new, add_route_at, remove_route_at, add_route,
  remove_route, add_missing, remove_missing, add_routes, remove_routes, update_routes_for_peer,
  clear_routes_for_peer,
}
use nexus_proxy_server.Routing.Routes.{IsOnceTable}
use nexus_proxy_server.Routing.Loops.{served, is_plain, all_plain, plain_cons}

-- What the mesh tells the table.
pub data Event : Type 0 where
  announce : Peer → ℕ → List Bytes → Event
  gone : Peer → Event

-- What a peer's address has announced: an announcement counts if it is newer, and none counts once the
-- peer is gone.
unfoldable pub spec_step : ℕ → Event → PeerState → PeerState
spec_step a (announce p version hostnames) s =
    if p.addr == a && ltb s.version version
    then record { version = version; hostnames = hostnames }
    else s
spec_step a (gone p) s = if p.addr == a then record { version = 0; hostnames = [] } else s

unfoldable pub spec : ℕ → List Event → PeerState → PeerState
unfolding spec_step
spec a [] s = s
spec a (e ∷ es) s = spec a es (spec_step a e s)

abbrev pub state_of : ℕ → Table → PeerState
state_of a t = state_or_new (lookup a t.peer_states)

module _ (to_ascii : Bytes → Option Bytes) where
  unfoldable pub step : Event → Table → Table
  unfolding update_routes_for_peer clear_routes_for_peer
  step (announce p version hostnames) t = update_routes_for_peer to_ascii p version hostnames t
  step (gone p) t = clear_routes_for_peer to_ascii p t

  unfoldable pub run : List Event → Table → Table
  unfolding step
  run [] t = t
  run (e ∷ es) t = run es (step e t)

  abbrev pub plain_events : List Event → Bool
  plain_events [] = true
  plain_events (announce p version hostnames ∷ es) = all_plain to_ascii hostnames && plain_events es
  plain_events (gone p ∷ es) = plain_events es

  -- The table is what the states say.
  pub record IsServed (t : Table) : Type 0 where
    pub once : IsOnceTable t
    pub distinct : Distinct t.peer_states
    pub plain : (a : ℕ) → all_plain to_ascii (state_of a t).hostnames ≡ true
    pub agrees :
        (a : ℕ) (h : Bytes)
        → is_plain to_ascii h ≡ true
        → served to_ascii a h t ≡ (if has_text h (state_of a t).hostnames then 1 else 0)

  -- The states are what was announced.
  pub record Means (t : Table) (f : ℕ → PeerState) : Type 0 where
    pub versions : (a : ℕ) → (state_of a t).version ≡ (f a).version
    pub names :
        (a : ℕ) (h : Bytes) → has_text h (state_of a t).hostnames ≡ has_text h (f a).hostnames

  all_plain-append :
      (hs : List Bytes) (h : Bytes)
      → all_plain to_ascii hs ≡ true
      → is_plain to_ascii h ≡ true
      → all_plain to_ascii (hs ++ (h ∷ [])) ≡ true
  all_plain-append [] h e e' = ap (λ b. b && true) e'
  all_plain-append (g ∷ hs) h e e' =
      let (here, rest) = plain_cons to_ascii g hs e in
      ap (λ b. b && all_plain to_ascii (hs ++ (h ∷ []))) here ∙ all_plain-append hs h rest e'

  pub all_plain-set_of :
      (hs set : List Bytes)
      → all_plain to_ascii hs ≡ true
      → all_plain to_ascii set ≡ true
      → all_plain to_ascii (set_of hs set) ≡ true
  unfolding set_of
  all_plain-set_of [] set e e' = e'
  all_plain-set_of (h ∷ hs) set e e' =
      let (here, rest) = plain_cons to_ascii h hs e in
      all_plain-set_of hs (if has_text h set then set else set ++ (h ∷ [])) rest
        (elim (Bool-cases (has_text h set)) [
          | inl b ↦ ap (λ c. all_plain to_ascii (if c then set else set ++ (h ∷ []))) b ∙ e'
          | inr b ↦
              ap (λ c. all_plain to_ascii (if c then set else set ++ (h ∷ []))) b
              ∙ all_plain-append set h e' here
        ])

  add_route_at-states :
      (u : Option Bytes) (p : Peer) (h : Bytes) (t : Table)
      → (add_route_at u p h t).peer_states ≡ t.peer_states
  unfolding add_route_at
  add_route_at-states none p h t = refl
  add_route_at-states (some s) p h t = refl

  add_missing-states :
      (p : Peer) (old : List Bytes) (h : Bytes) (t : Table)
      → (add_missing to_ascii p old h t).peer_states ≡ t.peer_states
  unfolding add_missing add_route
  add_missing-states p old h t =
      let added = add_route_at-states (wildcard_suffix to_ascii h) p h t in ground (arith, added)

  pub add_routes-states :
      (p : Peer) (old hs : List Bytes) (t : Table)
      → (add_routes to_ascii p old hs t).peer_states ≡ t.peer_states
  unfolding add_routes
  add_routes-states p old [] t = refl
  add_routes-states p old (h ∷ hs) t =
      add_routes-states p old hs (add_missing to_ascii p old h t) ∙ add_missing-states p old h t

  remove_route_at-states :
      (u : Option Bytes) (p : Peer) (h : Bytes) (t : Table)
      → (remove_route_at u p h t).peer_states ≡ t.peer_states
  unfolding remove_route_at
  remove_route_at-states none p h t = refl
  remove_route_at-states (some s) p h t = refl

  remove_missing-states :
      (p : Peer) (new : List Bytes) (h : Bytes) (t : Table)
      → (remove_missing to_ascii p new h t).peer_states ≡ t.peer_states
  unfolding remove_missing remove_route
  remove_missing-states p new h t =
      let removed = remove_route_at-states (wildcard_suffix to_ascii h) p h t in
      ground (arith, removed)

  pub remove_routes-states :
      (p : Peer) (new hs : List Bytes) (t : Table)
      → (remove_routes to_ascii p new hs t).peer_states ≡ t.peer_states
  unfolding remove_routes
  remove_routes-states p new [] t = refl
  remove_routes-states p new (h ∷ hs) t =
      remove_routes-states p new hs (remove_missing to_ascii p new h t)
      ∙ remove_missing-states p new h t
