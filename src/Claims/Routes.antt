-- ===== src/Claims/Routes.antt =====
-- internal/hub/hub.go: `normalizeUDPRouteClaims`. Times are in seconds, and fit a `time.Duration` of
-- the source; a timeout of the claim or of the configuration that is missing or not positive is 0.
use nexus_proxy_server.Common.{
  ℕ, Bool, true, false, not, ◌&&◌, if◌then◌else◌, ltb, leb, ◌==◌, nat_eq, List, [], ◌∷◌, Option,
  none, some, length, Map, lookup, insert,
}
use nexus_proxy_server.Claims.Entries.{
  RejectedClaim, udp_route_kind, udp_route_not_allowed, Normalized, failed, accepted,
  claims_disabled, invalid_port, timeouts_inverted, conflicting_routes,
}
use nexus_proxy_server.Claims.Ports.{port_allowed, is_invalid_port, refuse_port, port_entry}

pub record UdpRouteClaim : Type 0 where
  pub port : ℕ
  pub flow_idle_timeout_seconds : ℕ

pub record UdpRoutePolicy : Type 0 where
  pub port : ℕ
  pub flow_idle_timeout : ℕ

-- The fields of the configuration that the UDP claims read.
pub record UdpConfig : Type 0 where
  pub allowed_udp_port_claims : List ℕ
  pub default_seconds : ℕ
  pub min_seconds : ℕ
  pub max_seconds : ℕ

-- `UDPFlowIdleTimeoutDefault`, `UDPFlowIdleTimeoutMin` and `UDPFlowIdleTimeoutMax`.
unfoldable pub udp_flow_idle_timeout_default : UdpConfig → ℕ
udp_flow_idle_timeout_default c = if c.default_seconds == 0 then 30 else c.default_seconds

unfoldable pub udp_flow_idle_timeout_min : UdpConfig → ℕ
udp_flow_idle_timeout_min c = if c.min_seconds == 0 then 5 else c.min_seconds

unfoldable pub udp_flow_idle_timeout_max : UdpConfig → ℕ
udp_flow_idle_timeout_max c = if c.max_seconds == 0 then 300 else c.max_seconds

-- The timeout of a route, within the limits.
unfoldable pub route_timeout : UdpConfig → ℕ → ℕ
unfolding udp_flow_idle_timeout_default udp_flow_idle_timeout_min udp_flow_idle_timeout_max
route_timeout c claimed =
    let low = udp_flow_idle_timeout_min c in
    let high = udp_flow_idle_timeout_max c in
    let t = (if claimed == 0 then udp_flow_idle_timeout_default c else claimed) in
    let raised = (if ltb t low then low else t) in if ltb high raised then high else raised

unfoldable pub insert_route : UdpRoutePolicy → List UdpRoutePolicy → List UdpRoutePolicy
insert_route x [] = x ∷ []
insert_route x (y ∷ ys) = if leb x.port y.port then x ∷ y ∷ ys else y ∷ insert_route x ys

-- The routes of `seen` by port; the order in which the map is read does not matter, since no port is
-- there twice.
unfoldable pub sorted_routes : Map ℕ ℕ → List UdpRoutePolicy
unfolding insert_route
sorted_routes [] = []
sorted_routes ((p, t) ∷ m) =
    insert_route (record { port = p; flow_idle_timeout = t }) (sorted_routes m)

-- A route that is allowed: it is new, or one that is there with the same timeout; `none` is a conflict.
unfoldable pub see_route : ℕ → ℕ → Option ℕ → Map ℕ ℕ → Option (Map ℕ ℕ)
see_route port timeout none seen = some (insert port timeout seen)
see_route port timeout (some existing) seen = if existing == timeout then some seen else none

unfoldable pub kept_routes : Bool → ℕ → ℕ → Map ℕ ℕ → Option (Map ℕ ℕ)
unfolding see_route
kept_routes false port timeout seen = some seen
kept_routes true port timeout seen = see_route port timeout (lookup port seen) seen

unfoldable pub routes_loop :
    UdpConfig → List UdpRouteClaim → Map ℕ ℕ → List RejectedClaim → Bool → Normalized UdpRoutePolicy
unfolding kept_routes refuse_port port_entry is_invalid_port sorted_routes route_timeout
    port_allowed
routes_loop c [] seen rejected truncated = accepted (sorted_routes seen) rejected truncated
routes_loop c (r ∷ routes) seen rejected truncated =
    let allowed = port_allowed c.allowed_udp_port_claims r.port in
    let (rejected', truncated') =
      refuse_port allowed (port_entry udp_route_kind udp_route_not_allowed r.port) rejected
        truncated in
    if is_invalid_port r.port
    then failed (invalid_port r.port)
    else elim (kept_routes allowed r.port (route_timeout c r.flow_idle_timeout_seconds) seen) [
      | none ↦ failed (conflicting_routes r.port)
      | some seen' ↦ routes_loop c routes seen' rejected' truncated'
    ]

-- `normalizeUDPRouteClaims`, for a configuration that is there.
unfoldable pub normalize_udp_route_claims :
    UdpConfig → List UdpRouteClaim → Normalized UdpRoutePolicy
unfolding routes_loop
normalize_udp_route_claims c routes =
    if length routes == 0
    then accepted [] [] false
    else if length c.allowed_udp_port_claims == 0
    then failed claims_disabled
    else if ltb (udp_flow_idle_timeout_max c) (udp_flow_idle_timeout_min c)
    then failed timeouts_inverted
    else routes_loop c routes [] [] false

-- The comparison of `sameUDPRoutes` after its sorting.
unfoldable pub same_routes : List UdpRoutePolicy → List UdpRoutePolicy → Bool
same_routes [] [] = true
same_routes (x ∷ xs) (y ∷ ys) =
    x.port == y.port && (x.flow_idle_timeout == y.flow_idle_timeout && same_routes xs ys)
same_routes _ _ = false

unfoldable pub sort_routes : List UdpRoutePolicy → List UdpRoutePolicy
unfolding insert_route
sort_routes [] = []
sort_routes (x ∷ xs) = insert_route x (sort_routes xs)

-- `sameUDPRoutes`.
unfoldable pub same_udp_routes : List UdpRoutePolicy → List UdpRoutePolicy → Bool
unfolding sort_routes same_routes
same_udp_routes xs ys =
    if not (length xs == length ys)
    then false
    else if length xs == 0
    then true
    else same_routes (sort_routes xs) (sort_routes ys)
