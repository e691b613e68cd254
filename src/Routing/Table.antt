-- ===== src/Routing/Table.antt =====
-- internal/routing/table.go. The `sync.Map`s are association lists; a peer list that is changed through
-- its pointer is the changed entry. The set of a peer's hostnames is the list without repetitions, in
-- which the loops go through it. `to_ascii` is the parameter of the hostnames.
use nexus_proxy_server.Common.{
  ℕ, Bool, false, ◌||◌, leb, ◌==◌, nat_eq, bytes_eq, if◌then◌else◌, Bytes, List, [], ◌∷◌, ◌++◌,
  Option, none, some, Map, lookup, insert, delete,
}
use nexus_proxy_server.Hostnames.{wildcard_suffix, first_dot_suffix}
use nexus_proxy_server.Routing.Peers.{Peer, PeerList, new_peer_list, add, remove, select}

-- `peerState`.
pub record PeerState : Type 0 where
  pub version : ℕ
  pub hostnames : List Bytes

pub record Table : Type 0 where
  pub routes : Map Bytes PeerList
  pub wildcard_routes : Map Bytes PeerList
  pub peer_states : Map ℕ PeerState

-- `NewTable`.
abbrev pub new_table : Table
new_table = record { routes = []; wildcard_routes = []; peer_states = [] }

-- Membership in a set of hostnames.
unfoldable pub has_text : Bytes → List Bytes → Bool
has_text h [] = false
has_text h (g ∷ gs) = g == h || has_text h gs

-- The loop that fills `newHostnameSet`.
unfoldable pub set_of : List Bytes → List Bytes → List Bytes
unfolding has_text
set_of [] set = set
set_of (h ∷ hs) set = set_of hs (if has_text h set then set else set ++ (h ∷ []))

unfoldable pub list_or_new : Option PeerList → PeerList
list_or_new none = new_peer_list
list_or_new (some pl) = pl

-- `LoadOrStore` with `Add`.
unfoldable pub add_peer : Peer → Bytes → Map Bytes PeerList → Map Bytes PeerList
unfolding list_or_new add
add_peer p key m = insert key (add p (list_or_new (lookup key m))) m

unfoldable pub removed_at : Peer → Bytes → Option PeerList → Map Bytes PeerList → Map Bytes PeerList
unfolding remove
removed_at p key none m = m
removed_at p key (some pl) m = insert key (remove p pl) m

-- `Load` with `Remove`.
unfoldable pub remove_peer : Peer → Bytes → Map Bytes PeerList → Map Bytes PeerList
unfolding removed_at
remove_peer p key m = removed_at p key (lookup key m) m

unfoldable pub add_route_at : Option Bytes → Peer → Bytes → Table → Table
unfolding add_peer
add_route_at none p h t = record t { routes = add_peer p h t.routes }
add_route_at (some suffix) p h t = record t {
  wildcard_routes = add_peer p suffix t.wildcard_routes;
}

unfoldable pub remove_route_at : Option Bytes → Peer → Bytes → Table → Table
unfolding remove_peer
remove_route_at none p h t = record t { routes = remove_peer p h t.routes }
remove_route_at (some suffix) p h t = record t {
  wildcard_routes = remove_peer p suffix t.wildcard_routes;
}

unfoldable pub state_or_new : Option PeerState → PeerState
state_or_new none = record { version = 0; hostnames = [] }
state_or_new (some s) = s

-- What `Select` of a peer list returns, with the map in which its counter went up.
unfoldable pub select_at :
    Bytes → Option PeerList → Map Bytes PeerList → Map Bytes PeerList × Option Peer
unfolding select
select_at key none m = (m, none)
select_at key (some pl) m = let (pl', p) = select pl in (insert key pl' m, p)

module _ (to_ascii : Bytes → Option Bytes) where
  unfoldable pub add_route : Peer → Bytes → Table → Table
  unfolding add_route_at
  add_route p h t = add_route_at (wildcard_suffix to_ascii h) p h t

  unfoldable pub remove_route : Peer → Bytes → Table → Table
  unfolding remove_route_at
  remove_route p h t = remove_route_at (wildcard_suffix to_ascii h) p h t

  -- A hostname that the old set has keeps its route.
  unfoldable pub add_missing : Peer → List Bytes → Bytes → Table → Table
  unfolding add_route has_text
  add_missing p old h t = if has_text h old then t else add_route p h t

  -- The loop over the new hostnames.
  unfoldable pub add_routes : Peer → List Bytes → List Bytes → Table → Table
  unfolding add_missing
  add_routes p old [] t = t
  add_routes p old (h ∷ hs) t = add_routes p old hs (add_missing p old h t)

  unfoldable pub remove_missing : Peer → List Bytes → Bytes → Table → Table
  unfolding remove_route has_text
  remove_missing p new h t = if has_text h new then t else remove_route p h t

  -- The loop over the old hostnames.
  unfoldable pub remove_routes : Peer → List Bytes → List Bytes → Table → Table
  unfolding remove_missing
  remove_routes p new [] t = t
  remove_routes p new (h ∷ hs) t = remove_routes p new hs (remove_missing p new h t)

  unfoldable pub updated : Peer → ℕ → List Bytes → List Bytes → Table → Table
  unfolding add_routes remove_routes
  updated p version old new t =
      let u = remove_routes p new old (add_routes p old new t) in
      record u {
        peer_states = insert p.addr (record { version = version; hostnames = new }) u.peer_states;
      }

  -- `UpdateRoutesForPeer`.
  unfoldable pub update_routes_for_peer : Peer → ℕ → List Bytes → Table → Table
  unfolding updated set_of state_or_new
  update_routes_for_peer p version hostnames t =
      let state = state_or_new (lookup p.addr t.peer_states) in
      let stored = record t { peer_states = insert p.addr state t.peer_states } in
      if leb version state.version
      then stored
      else updated p version state.hostnames (set_of hostnames []) stored

  unfoldable pub cleared : Peer → Option PeerState → Table → Table
  unfolding remove_routes
  cleared p none t = t
  cleared p (some state) t =
      remove_routes p [] state.hostnames (record t { peer_states = delete p.addr t.peer_states })

  -- `ClearRoutesForPeer`.
  unfoldable pub clear_routes_for_peer : Peer → Table → Table
  unfolding cleared
  clear_routes_for_peer p t = cleared p (lookup p.addr t.peer_states) t

  -- The look-up of a wildcard.
  unfoldable pub get_wildcard : Option Bytes → Table → Table × Option Peer
  unfolding select_at
  get_wildcard none t = (t, none)
  get_wildcard (some suffix) t =
      let (m, p) = select_at suffix (lookup suffix t.wildcard_routes) t.wildcard_routes in
      (record t { wildcard_routes = m }, p)

  unfoldable pub or_wildcard : Bytes → Table × Option Peer → Table × Option Peer
  unfolding get_wildcard
  or_wildcard hostname (t, some p) = (t, some p)
  or_wildcard hostname (t, none) = get_wildcard (first_dot_suffix to_ascii hostname) t

  -- `GetPeerForHostname`.
  unfoldable pub get_peer_for_hostname : Bytes → Table → Table × Option Peer
  unfolding or_wildcard select_at
  get_peer_for_hostname hostname t =
      let (m, p) = select_at hostname (lookup hostname t.routes) t.routes in
      or_wildcard hostname (record t { routes = m }, p)
