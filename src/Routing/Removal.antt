-- ===== src/Routing/Removal.antt =====
-- internal/routing/table.go: the second loop of `UpdateRoutesForPeer`, which `ClearRoutesForPeer` has too.
use nexus_proxy_server.Common.{
  ℕ, ◌≡◌, refl, sym, subst, ap, ◌∙◌, true, not, ◌&&◌, ◌==◌, nat_eq, bytes_eq, bytes_beq_iff,
  if◌then◌else◌, Bytes, List, [], ◌∷◌, Option, arith, Bool-cases, inl, inr,
}
use nexus_proxy_server.Hostnames.{wildcard_suffix}
use nexus_proxy_server.Routing.Peers.{Peer}
use nexus_proxy_server.Routing.Table.{
  Table, add_route, remove_route, remove_routes, has_text, remove_missing,
}
use nexus_proxy_server.Routing.Routes.{
  IsOnceTable, changed, remove_route_at-times, remove_route_at-IsOnceTable,
}
use nexus_proxy_server.Routing.Loops.{served, is_plain, all_plain, plain_cons, merged}

module _ (to_ascii : Bytes → Option Bytes) where
  remove_route-served :
      (p : Peer) (g h : Bytes) (a : ℕ) (t : Table)
      → IsOnceTable t
      → is_plain to_ascii g ≡ true
      → is_plain to_ascii h ≡ true
      → served to_ascii a h (remove_route to_ascii p g t)
        ≡ changed g h p.addr a 0 (served to_ascii a h t)
  unfolding remove_route
  remove_route-served p g h a t once e e' =
      remove_route_at-times (wildcard_suffix to_ascii g) (wildcard_suffix to_ascii h) p g h a t once
        e e' (ap (wildcard_suffix to_ascii))

  remove_missing-IsOnceTable :
      (p : Peer) (new : List Bytes) (h : Bytes) (t : Table)
      → IsOnceTable t
      → IsOnceTable (remove_missing to_ascii p new h t)
  unfolding remove_missing add_route
  remove_missing-IsOnceTable p new h t once = elim (Bool-cases (has_text h new)) [
    | inl e ↦
        subst IsOnceTable (sym (ap (λ b. if b then t else remove_route to_ascii p h t) e)) once
    | inr e ↦
        subst IsOnceTable (sym (ap (λ b. if b then t else remove_route to_ascii p h t) e))
          (remove_route_at-IsOnceTable (wildcard_suffix to_ascii h) p h t once)
  ]

  pub remove_routes-IsOnceTable :
      (p : Peer) (new hs : List Bytes) (t : Table)
      → IsOnceTable t
      → IsOnceTable (remove_routes to_ascii p new hs t)
  unfolding remove_routes
  remove_routes-IsOnceTable p new [] t once = once
  remove_routes-IsOnceTable p new (h ∷ hs) t once =
      remove_routes-IsOnceTable p new hs (remove_missing to_ascii p new h t)
        (remove_missing-IsOnceTable p new h t once)

  remove_missing-served :
      (p : Peer) (new : List Bytes) (g h : Bytes) (a : ℕ) (t : Table)
      → IsOnceTable t
      → is_plain to_ascii g ≡ true
      → is_plain to_ascii h ≡ true
      → served to_ascii a h (remove_missing to_ascii p new g t)
        ≡ (if g == h && p.addr == a && not (has_text h new) then 0 else served to_ascii a h t)
  unfolding remove_missing
  remove_missing-served p new g h a t once e e' =
      let step = remove_route-served p g h a t once e e' in
      let same : g ≡ h → has_text g new ≡ has_text h new = ap (λ x. has_text x new) in
      elim (Bool-cases (has_text g new)) [
        | inl known ↦
            ap (λ b. served to_ascii a h (if b then t else remove_route to_ascii p g t)) known
            ∙ elim (Bool-cases (g == h)) [
              | inl eq ↦ ground (arith, eq, known, same ((bytes_beq_iff g h).0 eq))
              | inr ne ↦ rw ne refl
            ]
        | inr gone ↦
            ap (λ b. served to_ascii a h (if b then t else remove_route to_ascii p g t)) gone
            ∙ step
            ∙ elim (Bool-cases (g == h)) [
              | inl eq ↦ ground (arith, eq, gone, same ((bytes_beq_iff g h).0 eq))
              | inr ne ↦ rw ne refl
            ]
      ]

  -- The second loop removes the peer from the hostnames that are gone.
  pub remove_routes-served :
      (p : Peer) (new hs : List Bytes) (h : Bytes) (a : ℕ) (t : Table)
      → IsOnceTable t
      → all_plain to_ascii hs ≡ true
      → is_plain to_ascii h ≡ true
      → served to_ascii a h (remove_routes to_ascii p new hs t) ≡ (
          if p.addr == a && has_text h hs && not (has_text h new) then 0 else served to_ascii a h t)
  unfolding remove_routes has_text
  remove_routes-served p new [] h a t once e e' = ground arith
  remove_routes-served p new (g ∷ hs) h a t once e e' =
      let (here, rest) = plain_cons to_ascii g hs e in
      remove_routes-served p new hs h a (remove_missing to_ascii p new g t)
        (remove_missing-IsOnceTable p new g t once) rest e'
      ∙ merged p h a new g hs 0 (served to_ascii a h t)
          (served to_ascii a h (remove_missing to_ascii p new g t))
          (remove_missing-served p new g h a t once here e')
