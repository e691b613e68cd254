-- ===== src/Routing/Routes.antt =====
-- internal/routing/table.go: what adding and removing routes does to the peers that a hostname has.
use nexus_proxy_server.Common.{
  ℕ, ◌≡◌, ◌≢◌, refl, sym, ap, ◌∙◌, Bool, true, ◌&&◌, ◌==◌, nat_eq, bytes_eq, bytes_beq_iff,
  if◌then◌else◌, Bytes, ◌∷◌, Option, none, some, Map, lookup, arith, Bool-cases, inl, inr,
}
use nexus_proxy_server.Routing.Peers.{Peer, PeerList}
use nexus_proxy_server.Routing.Table.{Table, add_peer, remove_peer, add_route_at, remove_route_at}
use nexus_proxy_server.Routing.Listing.{times, IsOnce, add_peer-times, remove_peer-times}

-- The list of a hostname whose wildcard suffix is given.
unfoldable pub place : Option Bytes → Bytes → Table → Option PeerList
place none h t = lookup h t.routes
place (some suffix) h t = lookup suffix t.wildcard_routes

-- A wildcard whose spelling is "*" before its suffix; every other hostname.
unfoldable pub is_plain_at : Option Bytes → Bytes → Bool
is_plain_at none h = true
is_plain_at (some suffix) h = h == (b'*' ∷ suffix)

abbrev pub IsOnceTable : Table → Type 0
IsOnceTable t = IsOnce t.routes × IsOnce t.wildcard_routes

-- What a change of one entry at `key` and `addr` makes of a number.
abbrev pub changed : Bytes → Bytes → ℕ → ℕ → ℕ → ℕ → ℕ
changed g h addr a val old = if g == h && addr == a then val else old

changed_other : (g h : Bytes) (addr a val old : ℕ) → g ≢ h → changed g h addr a val old ≡ old
changed_other g h addr a val old other = elim (Bool-cases (g == h)) [
  | inl e ↦ absurd (other ((bytes_beq_iff g h).0 e))
  | inr e ↦ rw e refl
]

-- Plain wildcards are the same exactly if their suffixes are.
plain_suffixes :
    (g h s r : Bytes)
    → is_plain_at (some s) g ≡ true
    → is_plain_at (some r) h ≡ true
    → (g == h) ≡ (s == r)
unfolding is_plain_at
plain_suffixes g h s r e e' =
    let g_is = (bytes_beq_iff g (b'*' ∷ s)).0 e in
    let h_is = (bytes_beq_iff h (b'*' ∷ r)).0 e' in rw (g_is, h_is) refl

some_ne_none : (s : Bytes) → some s ≢ none
some_ne_none s e = absurd (ground (arith, e))

pub add_route_at-times :
    (u v : Option Bytes) (p : Peer) (g h : Bytes) (a : ℕ) (t : Table)
    → IsOnceTable t
    → is_plain_at u g ≡ true
    → is_plain_at v h ≡ true
    → (g ≡ h → u ≡ v)
    → times a (place v h (add_route_at u p g t)) ≡ changed g h p.addr a 1 (times a (place v h t))
unfolding place add_route_at
add_route_at-times none none p g h a t once e e' agree =
    add_peer-times p g h a t.routes (once.0 h a)
add_route_at-times none (some r) p g h a t once e e' agree = sym (
    changed_other g h p.addr a 1 (times a (lookup r t.wildcard_routes))
      (λ same. some_ne_none r (sym (agree same))))
add_route_at-times (some s) none p g h a t once e e' agree = sym (
    changed_other g h p.addr a 1 (times a (lookup h t.routes))
      (λ same. some_ne_none s (agree same)))
add_route_at-times (some s) (some r) p g h a t once e e' agree =
    add_peer-times p s r a t.wildcard_routes (once.1 r a)
    ∙ ap (λ b. if b && p.addr == a then 1 else times a (lookup r t.wildcard_routes))
        (sym (plain_suffixes g h s r e e'))

pub remove_route_at-times :
    (u v : Option Bytes) (p : Peer) (g h : Bytes) (a : ℕ) (t : Table)
    → IsOnceTable t
    → is_plain_at u g ≡ true
    → is_plain_at v h ≡ true
    → (g ≡ h → u ≡ v)
    → times a (place v h (remove_route_at u p g t)) ≡ changed g h p.addr a 0 (times a (place v h t))
unfolding place remove_route_at
remove_route_at-times none none p g h a t once e e' agree =
    remove_peer-times p g h a t.routes (once.0 h a)
remove_route_at-times none (some r) p g h a t once e e' agree = sym (
    changed_other g h p.addr a 0 (times a (lookup r t.wildcard_routes))
      (λ same. some_ne_none r (sym (agree same))))
remove_route_at-times (some s) none p g h a t once e e' agree = sym (
    changed_other g h p.addr a 0 (times a (lookup h t.routes))
      (λ same. some_ne_none s (agree same)))
remove_route_at-times (some s) (some r) p g h a t once e e' agree =
    remove_peer-times p s r a t.wildcard_routes (once.1 r a)
    ∙ ap (λ b. if b && p.addr == a then 0 else times a (lookup r t.wildcard_routes))
        (sym (plain_suffixes g h s r e e'))

add_peer-IsOnce :
    (p : Peer) (key : Bytes) (m : Map Bytes PeerList) → IsOnce m → IsOnce (add_peer p key m)
add_peer-IsOnce p key m once k a = ground (arith, add_peer-times p key k a m (once k a), once k a)

remove_peer-IsOnce :
    (p : Peer) (key : Bytes) (m : Map Bytes PeerList) → IsOnce m → IsOnce (remove_peer p key m)
remove_peer-IsOnce p key m once k a =
    ground (arith, remove_peer-times p key k a m (once k a), once k a)

pub add_route_at-IsOnceTable :
    (u : Option Bytes) (p : Peer) (g : Bytes) (t : Table)
    → IsOnceTable t
    → IsOnceTable (add_route_at u p g t)
unfolding add_route_at
add_route_at-IsOnceTable none p g t once = (add_peer-IsOnce p g t.routes once.0, once.1)
add_route_at-IsOnceTable (some s) p g t once =
    (once.0, add_peer-IsOnce p s t.wildcard_routes once.1)

pub remove_route_at-IsOnceTable :
    (u : Option Bytes) (p : Peer) (g : Bytes) (t : Table)
    → IsOnceTable t
    → IsOnceTable (remove_route_at u p g t)
unfolding remove_route_at
remove_route_at-IsOnceTable none p g t once = (remove_peer-IsOnce p g t.routes once.0, once.1)
remove_route_at-IsOnceTable (some s) p g t once =
    (once.0, remove_peer-IsOnce p s t.wildcard_routes once.1)
