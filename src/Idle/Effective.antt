-- ===== src/Idle/Effective.antt =====
-- internal/hub/hub.go: the timeout that is in force for a port is the longest of its sources.
use nexus_proxy_server.Common.{
  ℕ, ◌≤◌, ◌<◌, ◌≡◌, refl, sym, ap, ◌∙◌, Bool, true, false, ◌||◌, if◌then◌else◌, ltb, ◌==◌, nat_eq,
  List, [], ◌∷◌, some, none, length, Map, Distinct, insert, delete, lookup, update, arith,
  Bool-cases, inl, inr, ◌⊎◌,
}
use nexus_proxy_server.Claims.{port_allowed}
use nexus_proxy_server.Claims.Routes.{UdpRoutePolicy}
use nexus_proxy_server.Idle.Defs.{
  IdleTimeouts, new_idle_timeouts, longest, effective_timeout, recompute, recompute_all,
  track_sources, route_ports, track, untrack_sources, untrack, udp_flow_idle_timeout,
}
use nexus_proxy_server.Idle.Tracked.{
  Op, track_op, untrack_op, step, run, tracked, recompute_all-sources, AllDistinct, lookup-run,
  run-AllDistinct,
}

abbrev IsCurrent : IdleTimeouts → Type 0
IsCurrent s = (p : ℕ) → s.by_port p ≡ effective_timeout (s.sources p)

-- The ports that are touched are current afterwards, and the others are as they were.
recompute_all-by_port :
    (ports : List ℕ) (s : IdleTimeouts) (q : ℕ)
    → (recompute_all ports s).by_port q
      ≡ (if port_allowed ports q then effective_timeout (s.sources q) else s.by_port q)
unfolding recompute_all recompute port_allowed update
recompute_all-by_port [] s q = refl
recompute_all-by_port (p ∷ ports) s q = elim (Bool-cases (p == q)) [
  | inl same ↦
      let e : p ≡ q = ground (arith, same) in
      let f = ap (λ (k : ℕ). effective_timeout (s.sources k)) e in
      ground (arith, recompute_all-by_port ports (recompute p s) q, same, f)
  | inr other ↦ ground (arith, recompute_all-by_port ports (recompute p s) q, other)
]

track_sources-by_port :
    (id : ℕ) (routes : List UdpRoutePolicy) (s : IdleTimeouts)
    → (track_sources id routes s).by_port ≡ s.by_port
unfolding track_sources
track_sources-by_port id [] s = refl
track_sources-by_port id (r ∷ routes) s = track_sources-by_port id routes _

track_sources-other :
    (id : ℕ) (routes : List UdpRoutePolicy) (s : IdleTimeouts) (q : ℕ)
    → port_allowed (route_ports routes) q ≡ false
    → (track_sources id routes s).sources q ≡ s.sources q
unfolding track_sources port_allowed update
track_sources-other id [] s q h = refl
track_sources-other id (r ∷ routes) s q h =
    let t = record s {
      sources = update r.port (insert id r.flow_idle_timeout (s.sources r.port)) s.sources;
    } in
    track_sources-other id routes t q (ground arith) ∙ ground arith

-- A step that recomputes all ports whose sources it changed leaves every port current.
recomputed-IsCurrent :
    (ports : List ℕ) (s t : IdleTimeouts)
    → IsCurrent s
    → t.by_port ≡ s.by_port
    → ((q : ℕ) → port_allowed ports q ≡ false → t.sources q ≡ s.sources q)
    → IsCurrent (recompute_all ports t)
recomputed-IsCurrent ports s t c b same q = elim (Bool-cases (port_allowed ports q)) [
  | inl touched ↦
      recompute_all-by_port ports t q
      ∙ rw touched (ap (λ f. effective_timeout (f q)) (sym (recompute_all-sources ports t)))
  | inr left ↦
      recompute_all-by_port ports t q
      ∙ rw left (
          ap (λ f. f q) b
          ∙ c q
          ∙ ap effective_timeout (sym (same q left))
          ∙ ap (λ f. effective_timeout (f q)) (sym (recompute_all-sources ports t)))
]

untrack_sources-by_port :
    (id : ℕ) (routes : List UdpRoutePolicy) (s : IdleTimeouts)
    → (untrack_sources id routes s).0.by_port ≡ s.by_port
unfolding untrack_sources
untrack_sources-by_port id [] s = refl
untrack_sources-by_port id (r ∷ routes) s = elim (Bool-cases (ltb 0 (length (s.sources r.port)))) [
  | inl there ↦ rw there (untrack_sources-by_port id routes _)
  | inr gone ↦ rw gone (untrack_sources-by_port id routes s)
]

untrack_sources-other :
    (id : ℕ) (routes : List UdpRoutePolicy) (s : IdleTimeouts) (q : ℕ)
    → port_allowed (untrack_sources id routes s).1 q ≡ false
    → (untrack_sources id routes s).0.sources q ≡ s.sources q
unfolding untrack_sources port_allowed update
untrack_sources-other id [] s q h = refl
untrack_sources-other id (r ∷ routes) s q h =
    let t = record s { sources = update r.port (delete id (s.sources r.port)) s.sources } in
    elim (Bool-cases (ltb 0 (length (s.sources r.port)))) [
      | inl there ↦ rw there (
          untrack_sources-other id routes t q (ground (arith, rw there at h))
          ∙ ground (arith, rw there at h))
      | inr gone ↦ rw gone (untrack_sources-other id routes s q (rw gone at h))
    ]

step-IsCurrent : (op : Op) (s : IdleTimeouts) → IsCurrent s → IsCurrent (step op s)
unfolding step track untrack
step-IsCurrent (track_op id routes) s c =
    recomputed-IsCurrent (route_ports routes) s (track_sources id routes s) c
      (track_sources-by_port id routes s) (track_sources-other id routes s)
step-IsCurrent (untrack_op id routes) s c =
    recomputed-IsCurrent (untrack_sources id routes s).1 s (untrack_sources id routes s).0 c
      (untrack_sources-by_port id routes s) (untrack_sources-other id routes s)

run-IsCurrent : (ops : List Op) (s : IdleTimeouts) → IsCurrent s → IsCurrent (run ops s)
unfolding run
run-IsCurrent [] s c = c
run-IsCurrent (op ∷ ops) s c = run-IsCurrent ops (step op s) (step-IsCurrent op s c)

longest-ge_start : (m : Map ℕ ℕ) (d : ℕ) → d ≤ longest m d
unfolding longest
longest-ge_start [] d = omega arith
longest-ge_start ((id, t) ∷ m) d = ground (arith, longest-ge_start m (if ltb d t then t else d))

longest-ge : (m : Map ℕ ℕ) (d id t : ℕ) → lookup id m ≡ some t → t ≤ longest m d
unfolding longest lookup
longest-ge [] d id t h = cc
longest-ge ((j, u) ∷ m) d id t h = ground (
  arith,
  longest-ge m (if ltb d u then u else d) id t,
  longest-ge_start m (if ltb d u then u else d),
)

effective-ge :
    (m : Map ℕ ℕ) (id t : ℕ)
    → lookup id m ≡ some t
    → 0 < t
    → (d : ℕ) × (effective_timeout m ≡ some d) × (t ≤ d)
unfolding effective_timeout lookup
effective-ge [] id t h pos = absurd (ground (arith, h))
effective-ge ((j, u) ∷ m) id t h pos =
    let low = longest-ge ((j, u) ∷ m) 0 id t h in (longest ((j, u) ∷ m) 0, ground (arith, low), low)

new-IsCurrent : IsCurrent new_idle_timeouts
unfolding effective_timeout
new-IsCurrent q = refl

new-AllDistinct : AllDistinct new_idle_timeouts.sources
new-AllDistinct q = tt

-- What the map of sources of a new hub holds after the calls.
lookup-run_new :
    (ops : List Op) (port id : ℕ)
    → lookup id ((run ops new_idle_timeouts).sources port) ≡ tracked id port ops none
unfolding lookup
lookup-run_new ops port id = lookup-run id port ops new_idle_timeouts new-AllDistinct

-- After any calls of the two methods on a new hub, a backend whose last route for the port was tracked
-- with a positive timeout, and not untracked since by a route for the port, has a timeout in force for
-- the port that is at least its own.
pub udp_flow_idle_timeout-ge :
    (ops : List Op) (port id t : ℕ)
    → tracked id port ops none ≡ some t
    → 0 < t
    → (d : ℕ) × (udp_flow_idle_timeout port (run ops new_idle_timeouts) ≡ some d) × (t ≤ d)
unfolding udp_flow_idle_timeout
udp_flow_idle_timeout-ge ops port id t h pos =
    let there = lookup-run_new ops port id ∙ h in
    let (d, e, l) = effective-ge ((run ops new_idle_timeouts).sources port) id t there pos in
    (d, run-IsCurrent ops new_idle_timeouts new-IsCurrent port ∙ e, l)

-- Whether some backend has this timeout.
abbrev has_timeout : Map ℕ ℕ → ℕ → Bool
has_timeout [] d = false
has_timeout ((id, t) ∷ m) d = t == d || has_timeout m d

longest-is_there : (m : Map ℕ ℕ) (d : ℕ) → (longest m d ≡ d) ⊎ (has_timeout m (longest m d) ≡ true)
unfolding longest
longest-is_there [] d = inl refl
longest-is_there ((id, t) ∷ m) d = ground (arith, longest-is_there m (if ltb d t then t else d))

effective-is_there :
    (m : Map ℕ ℕ) (d : ℕ) → effective_timeout m ≡ some d → (has_timeout m d ≡ true) × (0 < d)
unfolding effective_timeout
effective-is_there m d h = ground (arith, longest-is_there m 0)

differs : (j id d : ℕ) (m : Map ℕ ℕ) → lookup j m ≡ none → lookup id m ≡ some d → (j == id) ≡ false
differs j id d m n h = elim (Bool-cases (j == id)) [
  | inr e ↦ e
  | inl e ↦
      let same : j ≡ id = ground (arith, e) in
      absurd (ground (arith, ap (λ (k : ℕ). lookup k m) same, n, h))
]

has_timeout-lookup :
    (m : Map ℕ ℕ) (d : ℕ) → Distinct m → has_timeout m d ≡ true → (id : ℕ) × (lookup id m ≡ some d)
unfolding lookup
has_timeout-lookup [] d dist h = absurd (ground (arith, h))
has_timeout-lookup ((j, t) ∷ m) d dist h = elim (Bool-cases (t == d)) [
  | inl e ↦ (j, ground (arith, e))
  | inr e ↦
      let (id, there) = has_timeout-lookup m d dist.1 (ground (arith, e, h)) in
      (id, ground (arith, differs j id d m dist.0 there, there))
]

-- After any calls of the two methods on a new hub, a timeout in force for a port is positive, and it
-- is that of a backend whose last route for the port was tracked with it, and not untracked since by a
-- route for the port.
pub udp_flow_idle_timeout-is_tracked :
    (ops : List Op) (port d : ℕ)
    → udp_flow_idle_timeout port (run ops new_idle_timeouts) ≡ some d
    → (0 < d) × ((id : ℕ) × (tracked id port ops none ≡ some d))
unfolding udp_flow_idle_timeout
udp_flow_idle_timeout-is_tracked ops port d h =
    let m = (run ops new_idle_timeouts).sources port in
    let (there, pos) =
      effective-is_there m d (sym (run-IsCurrent ops new_idle_timeouts new-IsCurrent port) ∙ h) in
    let (id, e) =
      has_timeout-lookup m d (run-AllDistinct ops new_idle_timeouts new-AllDistinct port) there in
    (pos, (id, sym (lookup-run_new ops port id) ∙ e))
