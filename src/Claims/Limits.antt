-- ===== src/Claims/Limits.antt =====
-- internal/hub/hub.go: every route that is kept is allowed, and its timeout is within the limits.
use nexus_proxy_server.Common.{
  ℕ, ◌≤◌, ◌≡◌, subst, Bool, true, false, leb, ◌==◌, nat_eq, List, [], ◌∷◌, Option, none, some,
  arith, Bool-cases, inl, inr, Map, lookup, insert,
}
use nexus_proxy_server.Claims.Entries.{}
use nexus_proxy_server.Claims.Ports.{port_allowed, is_invalid_port}
use nexus_proxy_server.Claims.Rejected.{}
use nexus_proxy_server.Claims.Granted.{}
use nexus_proxy_server.Claims.Routes.{
  UdpRoutePolicy, UdpConfig, udp_flow_idle_timeout_min, udp_flow_idle_timeout_max, route_timeout,
  insert_route, sorted_routes, see_route, kept_routes,
}

-- A route on the allowlist, with a timeout within the limits.
abbrev pub IsGranted : UdpConfig → ℕ → ℕ → Type 0
IsGranted c port timeout =
    (port_allowed c.allowed_udp_port_claims port ≡ true)
    × (is_invalid_port port ≡ false)
    × (udp_flow_idle_timeout_min c ≤ timeout)
    × (timeout ≤ udp_flow_idle_timeout_max c)

abbrev pub AllGranted : UdpConfig → List UdpRoutePolicy → Type 0
AllGranted c [] = Unit {0}
AllGranted c (r ∷ rs) = IsGranted c r.port r.flow_idle_timeout × AllGranted c rs

abbrev pub SeenGranted : UdpConfig → Map ℕ ℕ → Type 0
SeenGranted c [] = Unit {0}
SeenGranted c ((p, t) ∷ m) = IsGranted c p t × SeenGranted c m

route_timeout_lem :
    (c : UdpConfig) (claimed : ℕ)
    → udp_flow_idle_timeout_min c ≤ udp_flow_idle_timeout_max c
    → (udp_flow_idle_timeout_min c ≤ route_timeout c claimed)
      × (route_timeout c claimed ≤ udp_flow_idle_timeout_max c)
unfolding route_timeout
route_timeout_lem c claimed h = ground arith

insert_route-AllGranted :
    (c : UdpConfig) (r : UdpRoutePolicy) (rs : List UdpRoutePolicy)
    → IsGranted c r.port r.flow_idle_timeout
    → AllGranted c rs
    → AllGranted c (insert_route r rs)
unfolding insert_route
insert_route-AllGranted c r [] g h = (g, tt)
insert_route-AllGranted c r (s ∷ rs) g h = elim (Bool-cases (leb r.port s.port)) [
  | inl e ↦ rw e (g, h)
  | inr e ↦ rw e (h.0, insert_route-AllGranted c r rs g h.1)
]

pub sorted_routes-AllGranted :
    (c : UdpConfig) (m : Map ℕ ℕ) → SeenGranted c m → AllGranted c (sorted_routes m)
unfolding sorted_routes
sorted_routes-AllGranted c [] h = tt
sorted_routes-AllGranted c ((p, t) ∷ m) h =
    insert_route-AllGranted c (record { port = p; flow_idle_timeout = t }) (sorted_routes m) h.0
      (sorted_routes-AllGranted c m h.1)

insert-SeenGranted :
    (c : UdpConfig) (p t : ℕ) (m : Map ℕ ℕ)
    → IsGranted c p t
    → SeenGranted c m
    → SeenGranted c (insert p t m)
unfolding insert
insert-SeenGranted c p t [] g h = (g, tt)
insert-SeenGranted c p t ((q, u) ∷ m) g h = elim (Bool-cases (q == p)) [
  | inl e ↦ rw e (subst (λ k. IsGranted c k t) (ground (arith, e)) g, h.1)
  | inr e ↦ rw e (h.0, insert-SeenGranted c p t m g h.1)
]

see_route-SeenGranted :
    (c : UdpConfig) (p t : ℕ) (o : Option ℕ) (m m' : Map ℕ ℕ)
    → IsGranted c p t
    → SeenGranted c m
    → see_route p t o m ≡ some m'
    → SeenGranted c m'
unfolding see_route
see_route-SeenGranted c p t none m m' g h e =
    subst (SeenGranted c) (ground (arith, e)) (insert-SeenGranted c p t m g h)
see_route-SeenGranted c p t (some u) m m' g h e = subst (SeenGranted c) (ground (arith, e)) h

pub kept_routes-SeenGranted :
    (c : UdpConfig) (allowed : Bool) (p claimed : ℕ) (m m' : Map ℕ ℕ)
    → udp_flow_idle_timeout_min c ≤ udp_flow_idle_timeout_max c
    → port_allowed c.allowed_udp_port_claims p ≡ allowed
    → is_invalid_port p ≡ false
    → SeenGranted c m
    → kept_routes allowed p (route_timeout c claimed) m ≡ some m'
    → SeenGranted c m'
unfolding kept_routes
kept_routes-SeenGranted c false p claimed m m' l a v h e =
    subst (SeenGranted c) (ground (arith, e)) h
kept_routes-SeenGranted c true p claimed m m' l a v h e =
    let (low, high) = route_timeout_lem c claimed l in
    see_route-SeenGranted c p (route_timeout c claimed) (lookup p m) m m' (a, v, low, high) h e
