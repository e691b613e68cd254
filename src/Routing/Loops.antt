-- ===== src/Routing/Loops.antt =====
-- internal/routing/table.go: the two loops of `UpdateRoutesForPeer`, and its set of hostnames.
use nexus_proxy_server.Common.{
  ℕ, ◌≡◌, refl, sym, subst, ap, ◌∙◌, Bool, true, false, not, ◌&&◌, ◌||◌, ◌==◌, nat_eq, bytes_eq,
  bytes_beq_iff, if◌then◌else◌, Bytes, List, [], ◌∷◌, ◌++◌, Option, arith, Bool-cases, inl, inr,
}
use nexus_proxy_server.Hostnames.{wildcard_suffix}
use nexus_proxy_server.Routing.Peers.{Peer}
use nexus_proxy_server.Routing.Table.{Table, add_route, add_routes, has_text, set_of, add_missing}
use nexus_proxy_server.Routing.Listing.{times}
use nexus_proxy_server.Routing.Routes.{
  place, is_plain_at, IsOnceTable, changed, add_route_at-times, add_route_at-IsOnceTable,
}

has_text-append :
    (h g : Bytes) (hs : List Bytes) → has_text h (hs ++ (g ∷ [])) ≡ (has_text h hs || g == h)
unfolding has_text
has_text-append h g [] = ground arith
has_text-append h g (x ∷ hs) = ground (arith, has_text-append h g hs)

-- The set holds what the list holds.
pub has_text-set_of :
    (h : Bytes) (hs set : List Bytes)
    → has_text h (set_of hs set) ≡ (has_text h set || has_text h hs)
unfolding has_text set_of
has_text-set_of h [] set = ground arith
has_text-set_of h (g ∷ hs) set = elim (Bool-cases (has_text g set)) [
  | inl there ↦
      let same = bytes_beq_iff g h in
      rw there (
        has_text-set_of h hs set ∙ elim (Bool-cases (g == h)) [
          | inl e ↦ ground (arith, e, there, ap (λ x. has_text x set) (same.0 e))
          | inr e ↦ rw e refl
        ])
  | inr new ↦
      rw new (has_text-set_of h hs (set ++ (g ∷ [])) ∙ ground (arith, has_text-append h g set))
]

pick :
    (same here there fresh : Bool) (val old : ℕ)
    → (if here && there && fresh then val else if same && here && fresh then val else old)
      ≡ (if here && (same || there) && fresh then val else old)
pick true true true fresh val old = ground arith
pick true true false fresh val old = refl
pick true false there fresh val old = refl
pick false true true fresh val old = refl
pick false true false fresh val old = refl
pick false false there fresh val old = refl

-- One round of a loop, and the rest.
pub merged :
    (p : Peer) (h : Bytes) (a : ℕ) (set : List Bytes) (g : Bytes) (hs : List Bytes)
    (val old now : ℕ)
    → now ≡ (if g == h && p.addr == a && not (has_text h set) then val else old)
    → (if p.addr == a && has_text h hs && not (has_text h set) then val else now)
      ≡ (if p.addr == a && (g == h || has_text h hs) && not (has_text h set) then val else old)
merged p h a set g hs val old now e =
    rw e (pick (g == h) (p.addr == a) (has_text h hs) (not (has_text h set)) val old)

module _ (to_ascii : Bytes → Option Bytes) where
  -- How often the peers of a hostname hold an address.
  abbrev pub served : ℕ → Bytes → Table → ℕ
  served a h t = times a (place (wildcard_suffix to_ascii h) h t)

  abbrev pub is_plain : Bytes → Bool
  is_plain h = is_plain_at (wildcard_suffix to_ascii h) h

  abbrev pub all_plain : List Bytes → Bool
  all_plain [] = true
  all_plain (h ∷ hs) = is_plain h && all_plain hs

  pub plain_cons :
      (g : Bytes) (hs : List Bytes)
      → all_plain (g ∷ hs) ≡ true
      → (is_plain g ≡ true) × (all_plain hs ≡ true)
  plain_cons g hs e = elim (Bool-cases (is_plain g)) [
    | inl here ↦ (here, ap (λ b. b && all_plain hs) (sym here) ∙ e)
    | inr not_here ↦ absurd (ground (arith, ap (λ b. b && all_plain hs) (sym not_here) ∙ e))
  ]

  add_route-served :
      (p : Peer) (g h : Bytes) (a : ℕ) (t : Table)
      → IsOnceTable t
      → is_plain g ≡ true
      → is_plain h ≡ true
      → served a h (add_route to_ascii p g t) ≡ changed g h p.addr a 1 (served a h t)
  unfolding add_route
  add_route-served p g h a t once e e' =
      add_route_at-times (wildcard_suffix to_ascii g) (wildcard_suffix to_ascii h) p g h a t once e
        e' (ap (wildcard_suffix to_ascii))

  add_missing-IsOnceTable :
      (p : Peer) (old : List Bytes) (h : Bytes) (t : Table)
      → IsOnceTable t
      → IsOnceTable (add_missing to_ascii p old h t)
  unfolding add_missing add_route
  add_missing-IsOnceTable p old h t once = elim (Bool-cases (has_text h old)) [
    | inl e ↦ subst IsOnceTable (sym (ap (λ b. if b then t else add_route to_ascii p h t) e)) once
    | inr e ↦
        subst IsOnceTable (sym (ap (λ b. if b then t else add_route to_ascii p h t) e))
          (add_route_at-IsOnceTable (wildcard_suffix to_ascii h) p h t once)
  ]

  pub add_routes-IsOnceTable :
      (p : Peer) (old hs : List Bytes) (t : Table)
      → IsOnceTable t
      → IsOnceTable (add_routes to_ascii p old hs t)
  unfolding add_routes
  add_routes-IsOnceTable p old [] t once = once
  add_routes-IsOnceTable p old (h ∷ hs) t once =
      add_routes-IsOnceTable p old hs (add_missing to_ascii p old h t)
        (add_missing-IsOnceTable p old h t once)

  add_missing-served :
      (p : Peer) (old : List Bytes) (g h : Bytes) (a : ℕ) (t : Table)
      → IsOnceTable t
      → is_plain g ≡ true
      → is_plain h ≡ true
      → served a h (add_missing to_ascii p old g t)
        ≡ (if g == h && p.addr == a && not (has_text h old) then 1 else served a h t)
  unfolding add_missing
  add_missing-served p old g h a t once e e' =
      let step = add_route-served p g h a t once e e' in
      let same : g ≡ h → has_text g old ≡ has_text h old = ap (λ x. has_text x old) in
      elim (Bool-cases (has_text g old)) [
        | inl known ↦
            ap (λ b. served a h (if b then t else add_route to_ascii p g t)) known
            ∙ elim (Bool-cases (g == h)) [
              | inl eq ↦ ground (arith, eq, known, same ((bytes_beq_iff g h).0 eq))
              | inr ne ↦ rw ne refl
            ]
        | inr new ↦
            ap (λ b. served a h (if b then t else add_route to_ascii p g t)) new
            ∙ step
            ∙ elim (Bool-cases (g == h)) [
              | inl eq ↦ ground (arith, eq, new, same ((bytes_beq_iff g h).0 eq))
              | inr ne ↦ rw ne refl
            ]
      ]

  -- The first loop adds the peer to the hostnames that are new.
  pub add_routes-served :
      (p : Peer) (old hs : List Bytes) (h : Bytes) (a : ℕ) (t : Table)
      → IsOnceTable t
      → all_plain hs ≡ true
      → is_plain h ≡ true
      → served a h (add_routes to_ascii p old hs t)
        ≡ (if p.addr == a && has_text h hs && not (has_text h old) then 1 else served a h t)
  unfolding add_routes has_text
  add_routes-served p old [] h a t once e e' = ground arith
  add_routes-served p old (g ∷ hs) h a t once e e' =
      let (here, rest) = plain_cons g hs e in
      add_routes-served p old hs h a (add_missing to_ascii p old g t)
        (add_missing-IsOnceTable p old g t once) rest e'
      ∙ merged p h a old g hs 1 (served a h t) (served a h (add_missing to_ascii p old g t))
          (add_missing-served p old g h a t once here e')
