-- ===== src/Ports/Resolved.antt =====
-- client/config.go: `Resolve` after `finalize`, against the hosts as they are configured.
use nexus_proxy_server.Common.{
  ◌≡◌, refl, sym, ap, ◌∙◌, true, ltb, nat_eq, bytes_eq, Bytes, List, [], ◌∷◌, ◌++◌, Option, none,
  some, length, drop, arith, Bool-cases, inl, inr,
}
use nexus_proxy_server.Hostnames.{has_prefix, matches_wildcard, star_dot}
use nexus_proxy_server.Hostnames.Wildcard.{dot_suffix-matches_wildcard}
use nexus_proxy_server.Ports.Defs.{WildcardRoute, place_route, sort_routes, find_route, or_route}

-- The suffixes of wildcards begin with a dot.
abbrev pub AllDotted : List WildcardRoute → Type 0
AllDotted [] = Unit {0}
AllDotted (r ∷ rs) = ((rest : Bytes) × (r.suffix ≡ b'.' ∷ rest)) × AllDotted rs

-- Two suffixes that match one host are the same.
matches_same :
    (host s r : Bytes) (q q' : Bytes)
    → s ≡ b'.' ∷ q
    → r ≡ b'.' ∷ q'
    → matches_wildcard host s ≡ true
    → matches_wildcard host r ≡ true
    → s ≡ r
matches_same host s r q q' e e' h h' =
    let first = (dot_suffix-matches_wildcard host q).1 (ap (matches_wildcard host) (sym e) ∙ h) in
    let second =
      (dot_suffix-matches_wildcard host q').1 (ap (matches_wildcard host) (sym e') ∙ h') in
    let same : b'.' ∷ q ≡ b'.' ∷ q' = ground (arith, first, second) in e ∙ same ∙ sym e'

place_route-AllDotted :
    (r : WildcardRoute) (qs : List WildcardRoute)
    → AllDotted (r ∷ qs)
    → AllDotted (place_route r qs)
unfolding place_route
place_route-AllDotted r [] h = h
place_route-AllDotted r (q ∷ qs) h = elim (Bool-cases (ltb (length r.suffix) (length q.suffix))) [
  | inl e ↦ rw (place_route, e) (h.1.0, place_route-AllDotted r qs (h.0, h.1.1))
  | inr e ↦ rw (place_route, e) h
]

sort_routes-AllDotted : (rs : List WildcardRoute) → AllDotted rs → AllDotted (sort_routes rs)
unfolding sort_routes
sort_routes-AllDotted [] h = h
sort_routes-AllDotted (r ∷ rs) h =
    place_route-AllDotted r (sort_routes rs) (h.0, sort_routes-AllDotted rs h.1)

-- The order of the routes does not count, since those that match have suffixes of one length.
find_route-place_route :
    (host : Bytes) (r : WildcardRoute) (qs : List WildcardRoute)
    → AllDotted (r ∷ qs)
    → find_route host (place_route r qs) ≡ find_route host (r ∷ qs)
unfolding place_route find_route
find_route-place_route host r [] h = refl
find_route-place_route host r (q ∷ qs) h =
    let rest = find_route-place_route host r qs (h.0, h.1.1) in
    elim (Bool-cases (ltb (length r.suffix) (length q.suffix))) [
      | inr e ↦ ground (arith, e)
      | inl e ↦ elim (Bool-cases (matches_wildcard host r.suffix)) [
        | inr other ↦ ground (arith, e, other, rest)
        | inl mine ↦ elim (Bool-cases (matches_wildcard host q.suffix)) [
          | inr other ↦ ground (arith, e, mine, other, rest)
          | inl both ↦
              let same =
                matches_same host r.suffix q.suffix h.0.0 h.1.0.0 h.0.1 h.1.0.1 mine both in
              absurd (ground (arith, e, ap length same))
        ]
      ]
    ]

pub find_route-sort_routes :
    (host : Bytes) (rs : List WildcardRoute)
    → AllDotted rs
    → find_route host (sort_routes rs) ≡ find_route host rs
unfolding sort_routes find_route
find_route-sort_routes host [] h = refl
find_route-sort_routes host (r ∷ rs) h =
    find_route-place_route host r (sort_routes rs) (h.0, sort_routes-AllDotted rs h.1)
    ∙ ground (arith, find_route-sort_routes host rs h.1)

pub find_route-append :
    (host : Bytes) (rs : List WildcardRoute) (r : WildcardRoute)
    → find_route host (rs ++ (r ∷ [])) ≡ or_route host (r ∷ []) (find_route host rs)
unfolding find_route or_route
find_route-append host [] r = refl
find_route-append host (q ∷ rs) r = ground (arith, find_route-append host rs r)

pub append-AllDotted :
    (rs : List WildcardRoute) (r : WildcardRoute)
    → AllDotted rs
    → (rest : Bytes) × (r.suffix ≡ b'.' ∷ rest)
    → AllDotted (rs ++ (r ∷ []))
append-AllDotted [] r h d = (d, tt)
append-AllDotted (q ∷ rs) r h d = (h.0, append-AllDotted rs r h.1 d)

pub dotted : (p : Bytes) → has_prefix p star_dot ≡ true → (rest : Bytes) × (drop 1 p ≡ b'.' ∷ rest)
unfolding has_prefix
dotted [] h = absurd (ground (arith, h))
dotted (x ∷ []) h = absurd (ground (arith, h))
dotted (x ∷ y ∷ p) h = let dot_is : y ≡ b'.' = ground (arith, h) in (p, ap (λ c. c ∷ p) dot_is)

-- The first of two results that is there.
abbrev pub or_else : Option Bytes → Option Bytes → Option Bytes
or_else (some t) o = some t
or_else none o = o
