-- ===== src/Claims/Timeouts.antt =====
-- internal/hub/hub.go: the UDP routes that are accepted, and their idle timeouts.
use mathlib.Core.List.{append_assoc, append-nil}
use nexus_proxy_server.Common.{
  ℕ, ◌≤◌, ◌≡◌, refl, sym, subst, ap, ◌∙◌, Bool, true, false, if◌then◌else◌, ltb, ◌==◌, nat_eq, List,
  [], ◌∷◌, some, length, take, ◌++◌, Distinct, arith, Bool-cases, Option-cases, inl, inr, ◌⊎◌, Map,
  lookup,
}
use nexus_proxy_server.Claims.Entries.{
  RejectedClaim, Normalized, failed, accepted, udp_route_kind, udp_route_not_allowed, itoa,
  rejected_list_bound, claims_disabled, timeouts_inverted,
}
use nexus_proxy_server.Claims.Ports.{port_allowed, is_invalid_port, refuse_port, port_entry}
use nexus_proxy_server.Claims.Rejected.{Holds, refuse_port-Holds, refusal_of, no_refusal}
use nexus_proxy_server.Claims.Granted.{
  timeout_of, resolved, granted_timeout, all_served, AscendingRoutes, first_of,
  route_timeout-resolved, timeout_of-sorted_routes, sorted_routes-AscendingRoutes, IsSeen,
  kept_routes-IsSeen,
}
use nexus_proxy_server.Claims.Routes.{
  UdpRouteClaim, UdpRoutePolicy, UdpConfig, udp_flow_idle_timeout_min, udp_flow_idle_timeout_max,
  route_timeout, kept_routes, routes_loop, normalize_udp_route_claims,
}
use nexus_proxy_server.Claims.Limits.{
  AllGranted, SeenGranted, sorted_routes-AllGranted, kept_routes-SeenGranted,
}

-- The refusals of the routes whose port is not allowed, in their order.
abbrev pub route_refusals : UdpConfig → List UdpRouteClaim → List RejectedClaim
route_refusals c [] = []
route_refusals c (r ∷ rs) =
    (if port_allowed c.allowed_udp_port_claims r.port
      then []
      else record { kind = udp_route_kind; code = udp_route_not_allowed; value = itoa r.port } ∷ [])
    ++ route_refusals c rs

-- What is accepted, from routes that were seen before.
record IsRouted (c : UdpConfig) (routes : List UdpRouteClaim) (seen : Map ℕ ℕ)
    (all : List RejectedClaim) (out : List UdpRoutePolicy) (rejected : List RejectedClaim)
    (truncated : Bool) : Type 0 where
  granted : AllGranted c out
  ascending : AscendingRoutes out
  timeouts : (q : ℕ) → timeout_of out q ≡ first_of (lookup q seen) (granted_timeout c routes q)
  served : all_served c out routes ≡ true
  refusals : Holds all rejected truncated

abbrev RoutesOutcome :
    UdpConfig
    → List UdpRouteClaim
    → Map ℕ ℕ
    → List RejectedClaim
    → Normalized UdpRoutePolicy
    → Type 0
RoutesOutcome c routes seen all (failed e) = Unit {0}
RoutesOutcome c routes seen all (accepted out rejected truncated) =
    IsRouted c routes seen all out rejected truncated

served-cons :
    (c : UdpConfig) (r : UdpRouteClaim) (routes : List UdpRouteClaim) (seen' : Map ℕ ℕ)
    (out : List UdpRoutePolicy)
    → (lookup r.port seen' ≡ some (resolved c r.flow_idle_timeout_seconds))
      ⊎ (port_allowed c.allowed_udp_port_claims r.port ≡ false)
    → timeout_of out r.port ≡ first_of (lookup r.port seen') (granted_timeout c routes r.port)
    → all_served c out routes ≡ true
    → all_served c out (r ∷ routes) ≡ true
served-cons c r routes seen' out (inr left_out) h s = rw (left_out, s) refl
served-cons c r routes seen' out (inl l) h s =
    let there = h ∙ ap (λ o. first_of o (granted_timeout c routes r.port)) l in
    rw (there, s) (ground arith)

RoutesOutcome-cons :
    (c : UdpConfig) (r : UdpRouteClaim) (routes : List UdpRouteClaim) (seen seen' : Map ℕ ℕ)
    (all : List RejectedClaim) (n : Normalized UdpRoutePolicy)
    → IsSeen
        (port_allowed c.allowed_udp_port_claims r.port)
        r.port
        (resolved c r.flow_idle_timeout_seconds)
        seen
        seen'
    → RoutesOutcome c routes seen' all n
    → RoutesOutcome c (r ∷ routes) seen all n
RoutesOutcome-cons c r routes seen seen' all (failed e) i h = tt
RoutesOutcome-cons c r routes seen seen' all (accepted out rejected truncated) i h = record {
  granted = h.granted;
  ascending = h.ascending;
  timeouts = λ q. h.timeouts q ∙ i.others q (granted_timeout c routes q);
  served = served-cons c r routes seen' out i.there (h.timeouts r.port) h.served;
  refusals = h.refusals;
}

routes_loop-RoutesOutcome :
    (c : UdpConfig) (routes : List UdpRouteClaim) (seen : Map ℕ ℕ)
    (all rejected : List RejectedClaim) (truncated : Bool)
    → udp_flow_idle_timeout_min c ≤ udp_flow_idle_timeout_max c
    → Distinct seen
    → SeenGranted c seen
    → Holds all rejected truncated
    → RoutesOutcome c routes seen
        (all ++ route_refusals c routes)
        (routes_loop c routes seen rejected truncated)
unfolding routes_loop port_entry
routes_loop-RoutesOutcome c [] seen all rejected truncated l d g h = record {
  granted = sorted_routes-AllGranted c seen g;
  ascending = sorted_routes-AscendingRoutes seen d;
  timeouts = λ q. timeout_of-sorted_routes seen q ∙ ground arith;
  served = refl;
  refusals = rw append-nil h;
}
routes_loop-RoutesOutcome c (r ∷ routes) seen all rejected truncated l d g h =
    let allowed = port_allowed c.allowed_udp_port_claims r.port in
    let t = route_timeout c r.flow_idle_timeout_seconds in
    let kept = kept_routes allowed r.port t seen in
    let entry = port_entry udp_route_kind udp_route_not_allowed r.port in
    let (rejected', truncated') = refuse_port allowed entry rejected truncated in
    elim (Bool-cases (is_invalid_port r.port)) [
      | inl bad ↦ rw bad tt
      | inr valid ↦ elim (Option-cases kept) [
        | inl conflict ↦ rw (valid, conflict) tt
        | inr (seen', e) ↦
            let i = kept_routes-IsSeen allowed r.port t seen seen' d e in
            let i' =
              subst (λ k. IsSeen allowed r.port k seen seen')
                (route_timeout-resolved c r.flow_idle_timeout_seconds) i in
            rw (valid, e)
              (RoutesOutcome-cons c r routes seen seen' _ _ i' (
                subst
                  (λ k.
                    RoutesOutcome c routes seen' k
                      (routes_loop c routes seen' rejected' truncated'))
                  (append_assoc all (refusal_of allowed entry) (route_refusals c routes))
                  (routes_loop-RoutesOutcome c routes seen' (all ++ refusal_of allowed entry)
                    rejected' truncated' l i.distinct
                    (kept_routes-SeenGranted c allowed r.port r.flow_idle_timeout_seconds seen seen'
                      l refl valid g e)
                    (refuse_port-Holds allowed entry all rejected truncated h))))
      ]
    ]

-- The outcome of claims that are not empty.
udp_claims-cons :
    (c : UdpConfig) (r : UdpRouteClaim) (routes : List UdpRouteClaim)
    → (normalize_udp_route_claims c (r ∷ routes) ≡ failed claims_disabled)
      ⊎ (normalize_udp_route_claims c (r ∷ routes) ≡ failed timeouts_inverted)
      ⊎ ((udp_flow_idle_timeout_min c ≤ udp_flow_idle_timeout_max c)
          × (normalize_udp_route_claims c (r ∷ routes) ≡ routes_loop c (r ∷ routes) [] [] false))
unfolding normalize_udp_route_claims
udp_claims-cons c r routes = elim (Bool-cases (length c.allowed_udp_port_claims == 0)) [
  | inl e ↦ inl (ground (arith, e))
  | inr e ↦ elim (Bool-cases (ltb (udp_flow_idle_timeout_max c) (udp_flow_idle_timeout_min c))) [
    | inl bad ↦ inr (inl (ground (arith, e, bad)))
    | inr good ↦ inr (inr (ground (arith, good), ground (arith, e, good)))
  ]
]

udp_claims-RoutesOutcome :
    (c : UdpConfig) (routes : List UdpRouteClaim)
    → RoutesOutcome c routes [] (route_refusals c routes) (normalize_udp_route_claims c routes)
unfolding normalize_udp_route_claims lookup
udp_claims-RoutesOutcome c [] = record {
  granted = tt;
  ascending = tt;
  timeouts = λ q. refl;
  served = refl;
  refusals = no_refusal;
}
udp_claims-RoutesOutcome c (r ∷ routes) =
    let all = route_refusals c (r ∷ routes) in
    elim (udp_claims-cons c r routes) [
      | inl e ↦ subst (RoutesOutcome c (r ∷ routes) [] all) (sym e) tt
      | inr more ↦ elim more [
        | inl e ↦ subst (RoutesOutcome c (r ∷ routes) [] all) (sym e) tt
        | inr (l, e) ↦
            subst (RoutesOutcome c (r ∷ routes) [] all) (sym e)
              (routes_loop-RoutesOutcome c (r ∷ routes) [] [] [] false l tt tt no_refusal)
      ]
    ]

-- If `normalizeUDPRouteClaims` accepts claims, then every accepted route has a valid port of the
-- allowlist and an idle timeout within the limits of the relay; the ports of the accepted routes
-- ascend, each once; a port is accepted exactly if a claim of it is allowed, with the timeout of the
-- first such claim (the default one for none, moved into the limits), and every other allowed claim of
-- the port comes to that timeout too; the list of refusals is the first 32 of the claims whose port is
-- not allowed, in their order, as UDP route entries with the code for a route that is not allowed and
-- the port in decimal, and `truncated` tells whether there were more than 32.
pub normalize_udp_route_claims_lem :
    (c : UdpConfig) (routes : List UdpRouteClaim) (out : List UdpRoutePolicy)
    (rejected : List RejectedClaim) (truncated : Bool)
    → normalize_udp_route_claims c routes ≡ accepted out rejected truncated
    → AllGranted c out
      × AscendingRoutes out
      × ((q : ℕ) → timeout_of out q ≡ granted_timeout c routes q)
      × (all_served c out routes ≡ true)
      × (rejected ≡ take rejected_list_bound (route_refusals c routes))
      × (truncated ≡ ltb rejected_list_bound (length (route_refusals c routes)))
unfolding lookup
normalize_udp_route_claims_lem c routes out rejected truncated e =
    let h =
      subst (RoutesOutcome c routes [] (route_refusals c routes)) e
        (udp_claims-RoutesOutcome c routes) in
    (h.granted, h.ascending, h.timeouts, h.served, h.refusals.kept, h.refusals.flag)
