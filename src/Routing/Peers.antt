-- ===== src/Routing/Peers.antt =====
-- internal/routing/peerlist.go. A peer is its address with the number of the object that holds it;
-- the list compares addresses.
use nexus_proxy_server.Common.{
  ℕ, zero, suc, ◌+◌, ◌%◌, Bool, if◌then◌else◌, List, [], ◌∷◌, ◌++◌, Option, none, length, get_elem?,
  ◌==◌, nat_eq,
}
use nexus_proxy_server.Common.SwapRemove.{has_key, swap_remove}

pub record Peer : Type 0 where
  pub addr : ℕ
  pub object : ℕ

abbrev pub addr_of : Peer → ℕ
addr_of p = p.addr

pub record PeerList : Type 0 where
  pub peers : List Peer
  pub counter : ℕ

unfoldable pub new_peer_list : PeerList
new_peer_list = record { peers = []; counter = 0 }

-- `Add`.
unfoldable pub add : Peer → PeerList → PeerList
add p pl =
    if has_key addr_of p.addr pl.peers then pl else record pl { peers = pl.peers ++ (p ∷ []) }

-- `Remove`.
unfoldable pub remove : Peer → PeerList → PeerList
remove p pl = record pl { peers = swap_remove addr_of p.addr pl.peers }

-- `IsEmpty`.
unfoldable pub is_empty : PeerList → Bool
is_empty pl = length pl.peers == 0

-- 2 ^ 64.
abbrev pub u64_mod : ℕ
u64_mod = 18446744073709551616

-- `Select`; `none` is its error. The counter is a `uint64`.
unfoldable pub select : PeerList → PeerList × Option Peer
select pl =
    let counter = (pl.counter + 1) % u64_mod in
    if length pl.peers == 0
    then (pl, none)
    else (record pl { counter = counter }, get_elem? pl.peers (counter % length pl.peers))

-- What consecutive calls of `Select` return.
unfoldable pub selections : ℕ → PeerList → List (Option Peer)
unfolding select
selections zero pl = []
selections (suc n) pl = let (pl', p) = select pl in p ∷ selections n pl'
