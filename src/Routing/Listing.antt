-- ===== src/Routing/Listing.antt =====
-- internal/routing/table.go: which peers a map of routes lists for a key.
use nexus_proxy_server.Common.{
  ℕ, ◌-◌, ◌≤◌, ◌≡◌, refl, ap, ◌∙◌, ◌&&◌, ltb, ◌==◌, nat_eq, bytes_eq, bytes_beq_iff, if◌then◌else◌,
  Bytes, [], ◌∷◌, Option, none, some, Map, lookup, lookup-insert, arith, Bool-cases, inl, inr,
}
use nexus_proxy_server.Common.SwapRemove.{
  has_key, count_key, count_key-swap_remove, has_key_count, count_key-append,
}
use nexus_proxy_server.Routing.Peers.{Peer, addr_of, PeerList, new_peer_list, add, remove}
use nexus_proxy_server.Routing.Table.{list_or_new, add_peer, removed_at, remove_peer}

-- How often the list of a key holds a peer's address.
abbrev pub times : ℕ → Option PeerList → ℕ
times a none = 0
times a (some pl) = count_key addr_of a pl.peers

add-times :
    (p : Peer) (a : ℕ) (o : Option PeerList)
    → times a (some (add p (list_or_new o)))
      ≡ (if p.addr == a && times a o == 0 then 1 else times a o)
unfolding add list_or_new new_peer_list has_key count_key
add-times p a none = ground arith
add-times p a (some pl) =
    ground
      (arith, has_key_count addr_of p.addr pl.peers, count_key-append addr_of a pl.peers (p ∷ []))

remove-times :
    (p : Peer) (a : ℕ) (pl : PeerList)
    → times a (some (remove p pl)) ≡ (
        if p.addr == a && ltb 0 (times a (some pl))
        then times a (some pl) - 1
        else times a (some pl))
unfolding remove
remove-times p a pl =
    ground (
      arith,
      has_key_count addr_of p.addr pl.peers,
      count_key-swap_remove addr_of p.addr a pl.peers,
    )

-- No list of the map holds an address twice.
abbrev pub IsOnce : Map Bytes PeerList → Type 0
IsOnce m = (k : Bytes) (a : ℕ) → times a (lookup k m) ≤ 1

pub add_peer-times :
    (p : Peer) (key k : Bytes) (a : ℕ) (m : Map Bytes PeerList)
    → times a (lookup k m) ≤ 1
    → times a (lookup k (add_peer p key m))
      ≡ (if key == k && p.addr == a then 1 else times a (lookup k m))
unfolding add_peer
add_peer-times p key k a m h =
    ap (times a) (lookup-insert key k (add p (list_or_new (lookup key m))) m)
    ∙ elim (Bool-cases (key == k)) [
      | inr e ↦ ground (arith, e)
      | inl e ↦
          let same = (bytes_beq_iff key k).0 e in
          let there = ap (λ x. times a (lookup x m)) same in
          ground (arith, e, there, add-times p a (lookup key m), h)
    ]

removed_at-times :
    (p : Peer) (key k : Bytes) (a : ℕ) (o : Option PeerList) (m : Map Bytes PeerList)
    → lookup key m ≡ o
    → times a (lookup k m) ≤ 1
    → times a (lookup k (removed_at p key o m))
      ≡ (if key == k && p.addr == a then 0 else times a (lookup k m))
unfolding removed_at
removed_at-times p key k a none m e h = elim (Bool-cases (key == k)) [
  | inr e' ↦ ground (arith, e')
  | inl e' ↦
      let there = ap (λ x. times a (lookup x m)) ((bytes_beq_iff key k).0 e') in
      ground (arith, e', there, ap (times a) e)
]
removed_at-times p key k a (some pl) m e h =
    ap (times a) (lookup-insert key k (remove p pl) m) ∙ elim (Bool-cases (key == k)) [
      | inr e' ↦ ground (arith, e')
      | inl e' ↦
          let there = ap (λ x. times a (lookup x m)) ((bytes_beq_iff key k).0 e') in
          ground (arith, e', there, ap (times a) e, remove-times p a pl, h)
    ]

pub remove_peer-times :
    (p : Peer) (key k : Bytes) (a : ℕ) (m : Map Bytes PeerList)
    → times a (lookup k m) ≤ 1
    → times a (lookup k (remove_peer p key m))
      ≡ (if key == k && p.addr == a then 0 else times a (lookup k m))
unfolding remove_peer
remove_peer-times p key k a m h = removed_at-times p key k a (lookup key m) m refl h
