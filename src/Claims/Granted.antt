-- ===== src/Claims/Granted.antt =====
-- internal/hub/hub.go: the UDP routes by port, and what the claims of a token come to.
use nexus_proxy_server.Common.{
  ℕ, ◌≤◌, ◌<◌, ◌≡◌, refl, subst, ap, ◌∙◌, Bool, true, false, not, ◌&&◌, ◌||◌, if◌then◌else◌, leb,
  ◌==◌, nat_eq, List, [], ◌∷◌, Option, none, some, arith, min, max, Bool-cases, inl, inr, ◌⊎◌, Map,
  lookup, insert, Distinct, lookup-insert, insert-Distinct,
}
use nexus_proxy_server.Claims.Ports.{port_allowed}
use nexus_proxy_server.Claims.Routes.{
  UdpRouteClaim, UdpRoutePolicy, UdpConfig, udp_flow_idle_timeout_default,
  udp_flow_idle_timeout_min, udp_flow_idle_timeout_max, route_timeout, insert_route, sorted_routes,
  see_route, kept_routes,
}

-- The timeout that a list of routes has for a port.
abbrev pub timeout_of : List UdpRoutePolicy → ℕ → Option ℕ
timeout_of [] q = none
timeout_of (r ∷ rs) q = if r.port == q then some r.flow_idle_timeout else timeout_of rs q

-- A claimed timeout, or the default one for none, moved into the limits.
abbrev pub resolved : UdpConfig → ℕ → ℕ
resolved c claimed =
    min
      (max (if claimed == 0 then udp_flow_idle_timeout_default c else claimed)
        (udp_flow_idle_timeout_min c))
      (udp_flow_idle_timeout_max c)

-- What the first claim of a port that is allowed asks for.
abbrev pub granted_timeout : UdpConfig → List UdpRouteClaim → ℕ → Option ℕ
granted_timeout c [] q = none
granted_timeout c (r ∷ rs) q =
    if r.port == q && port_allowed c.allowed_udp_port_claims r.port
    then some (resolved c r.flow_idle_timeout_seconds)
    else granted_timeout c rs q

abbrev is_some_of : ℕ → Option ℕ → Bool
is_some_of t none = false
is_some_of t (some u) = u == t

-- Whether the routes have the timeout of each claim that is allowed.
abbrev pub all_served : UdpConfig → List UdpRoutePolicy → List UdpRouteClaim → Bool
all_served c out [] = true
all_served c out (r ∷ rs) =
    (not (port_allowed c.allowed_udp_port_claims r.port)
      || is_some_of (resolved c r.flow_idle_timeout_seconds) (timeout_of out r.port))
    && all_served c out rs

abbrev AllAbove : ℕ → List UdpRoutePolicy → Type 0
AllAbove p [] = Unit {0}
AllAbove p (r ∷ rs) = (p < r.port) × AllAbove p rs

-- The ports ascend, and none is there twice.
abbrev pub AscendingRoutes : List UdpRoutePolicy → Type 0
AscendingRoutes [] = Unit {0}
AscendingRoutes (r ∷ rs) = AllAbove r.port rs × AscendingRoutes rs

abbrev pub first_of : Option ℕ → Option ℕ → Option ℕ
first_of none o = o
first_of (some t) o = some t

pub route_timeout-resolved :
    (c : UdpConfig) (claimed : ℕ) → route_timeout c claimed ≡ resolved c claimed
unfolding route_timeout
route_timeout-resolved c claimed = ground arith

timeout_of-insert_route :
    (x : UdpRoutePolicy) (rs : List UdpRoutePolicy) (q : ℕ)
    → timeout_of (insert_route x rs) q
      ≡ (if x.port == q then some x.flow_idle_timeout else timeout_of rs q)
unfolding insert_route
timeout_of-insert_route x [] q = refl
timeout_of-insert_route x (r ∷ rs) q = ground (arith, timeout_of-insert_route x rs q)

pub timeout_of-sorted_routes : (m : Map ℕ ℕ) (q : ℕ) → timeout_of (sorted_routes m) q ≡ lookup q m
unfolding sorted_routes lookup
timeout_of-sorted_routes [] q = refl
timeout_of-sorted_routes ((p, t) ∷ m) q =
    let x : UdpRoutePolicy = record { port = p; flow_idle_timeout = t } in
    ground (arith, timeout_of-insert_route x (sorted_routes m) q, timeout_of-sorted_routes m q)

AllAbove-le : (p q : ℕ) (rs : List UdpRoutePolicy) → p ≤ q → AllAbove q rs → AllAbove p rs
AllAbove-le p q [] h a = tt
AllAbove-le p q (r ∷ rs) h a = (omega (arith, a.0), AllAbove-le p q rs h a.1)

insert_route-AllAbove :
    (p : ℕ) (x : UdpRoutePolicy) (rs : List UdpRoutePolicy)
    → p < x.port
    → AllAbove p rs
    → AllAbove p (insert_route x rs)
unfolding insert_route
insert_route-AllAbove p x [] h a = (h, tt)
insert_route-AllAbove p x (r ∷ rs) h a = elim (Bool-cases (leb x.port r.port)) [
  | inl e ↦ rw e (h, a)
  | inr e ↦ rw e (a.0, insert_route-AllAbove p x rs h a.1)
]

insert_route-AscendingRoutes :
    (x : UdpRoutePolicy) (rs : List UdpRoutePolicy)
    → timeout_of rs x.port ≡ none
    → AscendingRoutes rs
    → AscendingRoutes (insert_route x rs)
unfolding insert_route
insert_route-AscendingRoutes x [] n a = (tt, tt)
insert_route-AscendingRoutes x (r ∷ rs) n a = elim (Bool-cases (leb x.port r.port)) [
  | inl e ↦
      let below : x.port < r.port = ground (arith, e, n) in
      rw e ((below, AllAbove-le x.port r.port rs (omega arith) a.0), a)
  | inr e ↦ rw e (
    insert_route-AllAbove r.port x rs (ground (arith, e)) a.0,
    insert_route-AscendingRoutes x rs (ground (arith, n)) a.1,
  )
]

pub sorted_routes-AscendingRoutes : (m : Map ℕ ℕ) → Distinct m → AscendingRoutes (sorted_routes m)
unfolding sorted_routes
sorted_routes-AscendingRoutes [] d = tt
sorted_routes-AscendingRoutes ((p, t) ∷ m) d =
    insert_route-AscendingRoutes (record { port = p; flow_idle_timeout = t }) (sorted_routes m)
      (timeout_of-sorted_routes m p ∙ d.0) (sorted_routes-AscendingRoutes m d.1)

-- What one round does to the routes that were seen.
pub record IsSeen (allowed : Bool) (p t : ℕ) (m m' : Map ℕ ℕ) : Type 0 where
  pub distinct : Distinct m'
  pub there : (lookup p m' ≡ some t) ⊎ (allowed ≡ false)
  pub others :
      (q : ℕ) (o : Option ℕ)
      → first_of (lookup q m') o ≡ first_of (lookup q m) (if p == q && allowed then some t else o)

lookup_same : (p q : ℕ) (m : Map ℕ ℕ) → (p == q) ≡ true → lookup q m ≡ lookup p m
lookup_same p q m h = ap (λ (k : ℕ). lookup k m) (ground (arith, h))

see_route-IsSeen :
    (p t : ℕ) (o : Option ℕ) (m m' : Map ℕ ℕ)
    → Distinct m
    → lookup p m ≡ o
    → see_route p t o m ≡ some m'
    → IsSeen true p t m m'
unfolding see_route
see_route-IsSeen p t none m m' d l e =
    let same : insert p t m ≡ m' = ground (arith, e) in
    subst (IsSeen true p t m) same (record {
      distinct = insert-Distinct p t m d;
      there = inl (ground (arith, lookup-insert p p t m));
      others = λ q o. elim (Bool-cases (p == q)) [
        | inl s ↦ ground (arith, lookup-insert p q t m, lookup_same p q m s, l, s)
        | inr s ↦ ground (arith, lookup-insert p q t m, s)
      ];
    })
see_route-IsSeen p t (some u) m m' d l e =
    let same : m ≡ m' = ground (arith, e) in
    let agree : u ≡ t = ground (arith, e) in
    subst (IsSeen true p t m) same (record {
      distinct = d;
      there = inl (l ∙ ap some agree);
      others = λ q o. elim (Bool-cases (p == q)) [
        | inl s ↦ ground (arith, lookup_same p q m s, l, s, agree)
        | inr s ↦ ground (arith, s)
      ];
    })

pub kept_routes-IsSeen :
    (allowed : Bool) (p t : ℕ) (m m' : Map ℕ ℕ)
    → Distinct m
    → kept_routes allowed p t m ≡ some m'
    → IsSeen allowed p t m m'
unfolding kept_routes
kept_routes-IsSeen false p t m m' d e =
    let same : m ≡ m' = ground (arith, e) in
    subst (IsSeen false p t m) same
      (record { distinct = d; there = inr refl; others = λ q o. ground arith })
kept_routes-IsSeen true p t m m' d e = see_route-IsSeen p t (lookup p m) m m' d refl e
