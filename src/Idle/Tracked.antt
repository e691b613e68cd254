-- ===== src/Idle/Tracked.antt =====
-- internal/hub/hub.go: which backends are tracked for a port, told from the calls alone, and that the
-- sources of the port are those.
use nexus_proxy_server.Common.{
  ℕ, ◌≡◌, refl, sym, subst, ap, ◌∙◌, true, false, ◌&&◌, if◌then◌else◌, ltb, ◌==◌, nat_eq, List, [],
  ◌∷◌, Option, none, some, length, Map, insert, delete, lookup, update, arith, Bool-cases, inl, inr,
  Distinct, lookup-insert, lookup-delete, insert-Distinct, delete-Distinct,
}
use nexus_proxy_server.Claims.{port_allowed}
use nexus_proxy_server.Claims.Routes.{UdpRoutePolicy}
use nexus_proxy_server.Idle.Defs.{
  IdleTimeouts, recompute, recompute_all, track_sources, route_ports, track, untrack_sources,
  untrack,
}

pub data Op : Type 0 where
  track_op : ℕ → List UdpRoutePolicy → Op
  untrack_op : ℕ → List UdpRoutePolicy → Op

unfoldable pub step : Op → IdleTimeouts → IdleTimeouts
step (track_op id routes) s = track id routes s
step (untrack_op id routes) s = untrack id routes s

unfoldable pub run : List Op → IdleTimeouts → IdleTimeouts
run [] s = s
run (op ∷ ops) s = run ops (step op s)

-- The timeout of the last route for the port, if there is one.
abbrev pub last_timeout : ℕ → List UdpRoutePolicy → Option ℕ → Option ℕ
last_timeout port [] was = was
last_timeout port (r ∷ routes) was =
    last_timeout port routes (if r.port == port then some r.flow_idle_timeout else was)

-- The timeout that the calls track for a backend and a port: that of the last `track_op` of the
-- backend with a route for the port, unless an `untrack_op` of both came later.
abbrev pub tracked : ℕ → ℕ → List Op → Option ℕ → Option ℕ
tracked id port [] was = was
tracked id port (track_op by routes ∷ ops) was =
    tracked id port ops (if by == id then last_timeout port routes was else was)
tracked id port (untrack_op by routes ∷ ops) was =
    tracked id port ops (if by == id && port_allowed (route_ports routes) port then none else was)

pub recompute_all-sources :
    (ports : List ℕ) (s : IdleTimeouts) → (recompute_all ports s).sources ≡ s.sources
unfolding recompute_all recompute
recompute_all-sources [] s = refl
recompute_all-sources (p ∷ ports) s = recompute_all-sources ports (recompute p s)

abbrev pub AllDistinct : (ℕ → Map ℕ ℕ) → Type 0
AllDistinct sources = (p : ℕ) → Distinct (sources p)

updated-AllDistinct :
    (port : ℕ) (m : Map ℕ ℕ) (sources : ℕ → Map ℕ ℕ)
    → Distinct m
    → AllDistinct sources
    → AllDistinct (update port m sources)
unfolding update
updated-AllDistinct port m sources d h p = elim (Bool-cases (port == p)) [
  | inl e ↦ rw e d
  | inr e ↦ rw e (h p)
]

same_sources :
    (p q id : ℕ) (sources : ℕ → Map ℕ ℕ)
    → (p == q) ≡ true
    → lookup id (sources p) ≡ lookup id (sources q)
same_sources p q id sources h = ap (λ (k : ℕ). lookup id (sources k)) (ground (arith, h))

-- One more route that is tracked.
lookup-tracked :
    (by id port p t : ℕ) (sources : ℕ → Map ℕ ℕ)
    → lookup id (update p (insert by t (sources p)) sources port)
      ≡ (if p == port && by == id then some t else lookup id (sources port))
unfolding update
lookup-tracked by id port p t sources = elim (Bool-cases (p == port)) [
  | inl e ↦
      rw e (ground (arith, lookup-insert by id t (sources p), same_sources p port id sources e))
  | inr e ↦ rw e (ground arith)
]

lookup-untracked :
    (by id port p : ℕ) (sources : ℕ → Map ℕ ℕ)
    → Distinct (sources p)
    → lookup id (update p (delete by (sources p)) sources port)
      ≡ (if p == port && by == id then none else lookup id (sources port))
unfolding update
lookup-untracked by id port p sources d = elim (Bool-cases (p == port)) [
  | inl e ↦
      rw e (ground (arith, lookup-delete by id (sources p) d, same_sources p port id sources e))
  | inr e ↦ rw e (ground arith)
]

track_sources-AllDistinct :
    (by : ℕ) (routes : List UdpRoutePolicy) (s : IdleTimeouts)
    → AllDistinct s.sources
    → AllDistinct (track_sources by routes s).sources
unfolding track_sources
track_sources-AllDistinct by [] s h = h
track_sources-AllDistinct by (r ∷ routes) s h = track_sources-AllDistinct by routes _ (
    updated-AllDistinct r.port _ s.sources
      (insert-Distinct by r.flow_idle_timeout (s.sources r.port) (h r.port)) h)

lookup-track_sources :
    (by id port : ℕ) (routes : List UdpRoutePolicy) (s : IdleTimeouts)
    → lookup id ((track_sources by routes s).sources port) ≡ (
        if by == id
        then last_timeout port routes (lookup id (s.sources port))
        else lookup id (s.sources port))
unfolding track_sources
lookup-track_sources by id port [] s = ground arith
lookup-track_sources by id port (r ∷ routes) s =
    let t = record s {
      sources = update r.port (insert by r.flow_idle_timeout (s.sources r.port)) s.sources;
    } in
    let one = lookup-tracked by id port r.port r.flow_idle_timeout s.sources in
    lookup-track_sources by id port routes t
    ∙ ap (λ o. if by == id then last_timeout port routes o else o) one
    ∙ elim (Bool-cases (by == id)) [
      | inl e ↦ rw e (elim (Bool-cases (r.port == port)) [ inl f ↦ rw f refl | inr f ↦ rw f refl ])
      | inr e ↦ rw e (ground arith)
    ]

nothing_there : (id : ℕ) (m : Map ℕ ℕ) → ltb 0 (length m) ≡ false → lookup id m ≡ none
unfolding lookup
nothing_there id [] h = refl
nothing_there id (x ∷ m) h = absurd (ground (arith, h))

untrack_sources-AllDistinct :
    (by : ℕ) (routes : List UdpRoutePolicy) (s : IdleTimeouts)
    → AllDistinct s.sources
    → AllDistinct (untrack_sources by routes s).0.sources
unfolding untrack_sources
untrack_sources-AllDistinct by [] s h = h
untrack_sources-AllDistinct by (r ∷ routes) s h =
    elim (Bool-cases (ltb 0 (length (s.sources r.port)))) [
      | inl there ↦ rw there (
          untrack_sources-AllDistinct by routes _ (
            updated-AllDistinct r.port _ s.sources
              (delete-Distinct by (s.sources r.port) (h r.port)) h))
      | inr gone ↦ rw gone (untrack_sources-AllDistinct by routes s h)
    ]

-- Naming the port of one route more, from what was there.
untracked-cons :
    (by id port : ℕ) (r : UdpRoutePolicy) (routes : List UdpRoutePolicy) (was now : Option ℕ)
    → now ≡ (if r.port == port && by == id then none else was)
    → (if by == id && port_allowed (route_ports routes) port then none else now)
      ≡ (if by == id && port_allowed (route_ports (r ∷ routes)) port then none else was)
unfolding port_allowed
untracked-cons by id port r routes was now h = ground (arith, h)

lookup-untrack_sources :
    (by id port : ℕ) (routes : List UdpRoutePolicy) (s : IdleTimeouts)
    → AllDistinct s.sources
    → lookup id ((untrack_sources by routes s).0.sources port) ≡ (
        if by == id && port_allowed (route_ports routes) port
        then none
        else lookup id (s.sources port))
unfolding untrack_sources port_allowed
lookup-untrack_sources by id port [] s h = ground arith
lookup-untrack_sources by id port (r ∷ routes) s h =
    let t = record s { sources = update r.port (delete by (s.sources r.port)) s.sources } in
    elim (Bool-cases (ltb 0 (length (s.sources r.port)))) [
      | inl there ↦ rw there (
          lookup-untrack_sources by id port routes t (
            updated-AllDistinct r.port _ s.sources
              (delete-Distinct by (s.sources r.port) (h r.port)) h)
          ∙ untracked-cons by id port r routes (lookup id (s.sources port)) _
              (lookup-untracked by id port r.port s.sources (h r.port)))
      | inr gone ↦ rw gone (
          lookup-untrack_sources by id port routes s h
          ∙ untracked-cons by id port r routes (lookup id (s.sources port)) _
              (elim (Bool-cases (r.port == port)) [
                | inl e ↦ ground (
                  arith,
                  nothing_there id (s.sources r.port) gone,
                  same_sources r.port port id s.sources e,
                  e,
                )
                | inr e ↦ ground (arith, e)
              ]))
    ]

lookup-recompute_all :
    (id port : ℕ) (ports : List ℕ) (s : IdleTimeouts)
    → lookup id ((recompute_all ports s).sources port) ≡ lookup id (s.sources port)
lookup-recompute_all id port ports s = ap (λ f. lookup id (f port)) (recompute_all-sources ports s)

step-AllDistinct :
    (op : Op) (s : IdleTimeouts) → AllDistinct s.sources → AllDistinct (step op s).sources
unfolding step track untrack
step-AllDistinct (track_op by routes) s h =
    subst AllDistinct (sym (recompute_all-sources (route_ports routes) (track_sources by routes s)))
      (track_sources-AllDistinct by routes s h)
step-AllDistinct (untrack_op by routes) s h =
    let (t, touched) = untrack_sources by routes s in
    subst AllDistinct (sym (recompute_all-sources touched t))
      (untrack_sources-AllDistinct by routes s h)

-- The sources of a port are the backends that the calls track for it, with their timeouts.
pub lookup-run :
    (id port : ℕ) (ops : List Op) (s : IdleTimeouts)
    → AllDistinct s.sources
    → lookup id ((run ops s).sources port) ≡ tracked id port ops (lookup id (s.sources port))
unfolding run step track untrack
lookup-run id port [] s h = refl
lookup-run id port (track_op by routes ∷ ops) s h =
    lookup-run id port ops (step (track_op by routes) s) (step-AllDistinct (track_op by routes) s h)
    ∙ ap (tracked id port ops) (
        lookup-recompute_all id port (route_ports routes) (track_sources by routes s)
        ∙ lookup-track_sources by id port routes s)
lookup-run id port (untrack_op by routes ∷ ops) s h =
    let (t, touched) = untrack_sources by routes s in
    lookup-run id port ops (step (untrack_op by routes) s)
      (step-AllDistinct (untrack_op by routes) s h)
    ∙ ap (tracked id port ops)
        (lookup-recompute_all id port touched t ∙ lookup-untrack_sources by id port routes s h)

pub run-AllDistinct :
    (ops : List Op) (s : IdleTimeouts) → AllDistinct s.sources → AllDistinct (run ops s).sources
unfolding run
run-AllDistinct [] s h = h
run-AllDistinct (op ∷ ops) s h = run-AllDistinct ops (step op s) (step-AllDistinct op s h)
