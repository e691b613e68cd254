-- ===== src/Registry/Registered.antt =====
-- internal/hub/hub.go: the pools hold the registered backends.
use nexus_proxy_server.Common.{
  some, map, bytes_eq, none, ℕ, ◌+◌, ◌≤◌, ◌≡◌, refl, sym, subst, ap, ◌∙◌, true, if◌then◌else◌, ◌==◌,
  nat_eq, Bytes, List, [], ◌∷◌, ◌++◌, Option, lookup, arith,
}
use nexus_proxy_server.Registry.Selects.{select_backend-times}
use nexus_proxy_server.Balancer.{Selected}
use nexus_proxy_server.Bandwidth.{Scheduler, register, unregister}
use nexus_proxy_server.Idle.{IdleTimeouts, track, untrack}
use nexus_proxy_server.Registry.Defs.{
  name_slot, has_scheduler, select_backend, HubBackend, Hub, new_hub, Slot, exact, wild, add_slots,
  remove_slots, slots, register_backend, unregister_backend,
}
use nexus_proxy_server.Hostnames.{wildcard_suffix}
use nexus_proxy_server.Claims.Routes.{UdpRoutePolicy}
use nexus_proxy_server.Claims.Hosts.{route_key, tcp, udp}
use nexus_proxy_server.Registry.Slots.{
  same_slot, times, at, occurs, add_slots-times, remove_slots-times,
}

at-scheduler :
    (q : Slot) (h : Hub) (s : Option Scheduler) → at q (record h { scheduler = s }) ≡ at q h
at-scheduler (exact key) h s = refl
at-scheduler (wild suffix) h s = refl

at-idle : (q : Slot) (h : Hub) (i : IdleTimeouts) → at q (record h { idle = i }) ≡ at q h
at-idle (exact key) h i = refl
at-idle (wild suffix) h i = refl

occurs-append : (q : Slot) (ss rs : List Slot) → occurs q (ss ++ rs) ≡ occurs q ss + occurs q rs
occurs-append q [] rs = omega arith
occurs-append q (s ∷ ss) rs = omega (arith, occurs-append q ss rs)

module _ (to_ascii : Bytes → Option Bytes) where
  -- How often the hostnames of a backend, by their kind, its ports and its routes name a pool.
  abbrev pub named : Option Bytes → Bytes → Slot → ℕ
  named none h (exact key) = if h == key then 1 else 0
  named none h (wild suffix) = 0
  named (some s) h (exact key) = 0
  named (some s) h (wild suffix) = if s == suffix then 1 else 0

  abbrev pub names_of : Slot → List Bytes → ℕ
  names_of q [] = 0
  names_of q (h ∷ hs) = named (wildcard_suffix to_ascii h) h q + names_of q hs

  abbrev pub ports_of : Slot → List ℕ → ℕ
  ports_of (wild suffix) ports = 0
  ports_of (exact key) [] = 0
  ports_of (exact key) (port ∷ ports) =
      (if route_key tcp port == key then 1 else 0) + ports_of (exact key) ports

  abbrev pub routes_of : Slot → List UdpRoutePolicy → ℕ
  routes_of (wild suffix) routes = 0
  routes_of (exact key) [] = 0
  routes_of (exact key) (r ∷ routes) =
      (if route_key udp r.port == key then 1 else 0) + routes_of (exact key) routes

  -- How often the backends claim a pool under an identifier.
  abbrev pub claims : ℕ → Slot → List HubBackend → ℕ
  claims a q [] = 0
  claims a q (b ∷ bs) =
      (if b.entry.id == a
        then names_of q b.hostnames + ports_of q b.tcp_ports + routes_of q b.udp_routes
        else 0)
      + claims a q bs

  -- The hubs that a new one comes to, with the backends that are registered.
  pub data Reach : List HubBackend → Hub → Type 0 where
    start : (scheduler : Option Scheduler) → Reach [] (new_hub scheduler)
    joins :
        {bs : List HubBackend} {h : Hub} (now : ℕ) (b : HubBackend)
        → Reach bs h
        → Reach (b ∷ bs) (register_backend to_ascii now b h)
    selects :
        {bs : List HubBackend} {h g : Hub} {r : Option Selected} (fuel : ℕ) (hostname : Bytes)
        → Reach bs h
        → select_backend to_ascii fuel hostname h ≡ some (r, g)
        → Reach bs g
    leaves :
        {h : Hub} (before : List HubBackend) (b : HubBackend) (after : List HubBackend)
        → Reach (before ++ (b ∷ after)) h
        → Reach (before ++ after) (unregister_backend to_ascii b h)

  occurs-name :
      (h : Bytes) (o : Option Bytes) (q : Slot)
      → (if same_slot (name_slot h o) q then 1 else 0) ≡ named o h q
  unfolding name_slot
  occurs-name h none (exact key) = refl
  occurs-name h none (wild suffix) = refl
  occurs-name h (some s) (exact key) = refl
  occurs-name h (some s) (wild suffix) = refl

  occurs-names :
      (q : Slot) (hs : List Bytes)
      → occurs q (map (λ h. name_slot h (wildcard_suffix to_ascii h)) hs) ≡ names_of q hs
  occurs-names q [] = refl
  occurs-names q (h ∷ hs) =
      omega (arith, occurs-name h (wildcard_suffix to_ascii h) q, occurs-names q hs)

  occurs-ports :
      (q : Slot) (ports : List ℕ)
      → occurs q (map (λ port. exact (route_key tcp port)) ports) ≡ ports_of q ports
  occurs-ports (wild suffix) [] = refl
  occurs-ports (wild suffix) (port ∷ ports) = omega (arith, occurs-ports (wild suffix) ports)
  occurs-ports (exact key) [] = refl
  occurs-ports (exact key) (port ∷ ports) = omega (arith, occurs-ports (exact key) ports)

  occurs-routes :
      (q : Slot) (routes : List UdpRoutePolicy)
      → occurs q (map (λ r. exact (route_key udp r.port)) routes) ≡ routes_of q routes
  occurs-routes (wild suffix) [] = refl
  occurs-routes (wild suffix) (r ∷ routes) = omega (arith, occurs-routes (wild suffix) routes)
  occurs-routes (exact key) [] = refl
  occurs-routes (exact key) (r ∷ routes) = omega (arith, occurs-routes (exact key) routes)

  -- The slots of a backend are those that its claims name.
  occurs-slots :
      (q : Slot) (b : HubBackend)
      → occurs q (slots to_ascii b)
        ≡ names_of q b.hostnames + ports_of q b.tcp_ports + routes_of q b.udp_routes
  unfolding slots
  occurs-slots q b =
      let names = map (λ h. name_slot h (wildcard_suffix to_ascii h)) b.hostnames in
      let ports = map (λ (port : ℕ). exact (route_key tcp port)) b.tcp_ports in
      let routes = map (λ (r : UdpRoutePolicy). exact (route_key udp r.port)) b.udp_routes in
      omega (
        arith,
        occurs-append q names (ports ++ routes),
        occurs-append q ports routes,
        occurs-names q b.hostnames,
        occurs-ports q b.tcp_ports,
        occurs-routes q b.udp_routes,
      )

  claims-append :
      (a : ℕ) (q : Slot) (xs ys : List HubBackend)
      → claims a q (xs ++ ys) ≡ claims a q xs + claims a q ys
  claims-append a q [] ys = omega arith
  claims-append a q (x ∷ xs) ys = omega (arith, claims-append a q xs ys)

  register-times :
      (now : ℕ) (b : HubBackend) (q : Slot) (a : ℕ) (h : Hub)
      → times a (at q (register_backend to_ascii now b h))
        ≡ times a (at q h) + (if b.entry.id == a then occurs q (slots to_ascii b) else 0)
  unfolding register_backend
  register-times now b q a h =
      let s = has_scheduler (register b.entry.id now) h.scheduler in
      let first = record h { scheduler = s } in
      let g = add_slots b.entry (slots to_ascii b) first in
      ap (times a) (at-idle q g (track b.entry.id b.udp_routes g.idle))
      ∙ add_slots-times b.entry (slots to_ascii b) q a first
      ∙ ap (λ o. times a o + (if b.entry.id == a then occurs q (slots to_ascii b) else 0))
          (at-scheduler q h s)

  unregister-times :
      (b : HubBackend) (q : Slot) (a : ℕ) (h : Hub)
      → occurs q (slots to_ascii b) ≤ times b.entry.id (at q h)
      → times a (at q (unregister_backend to_ascii b h))
          + (if b.entry.id == a then occurs q (slots to_ascii b) else 0)
        ≡ times a (at q h)
  unfolding unregister_backend
  unregister-times b q a h l =
      let s = has_scheduler (unregister b.entry.id) h.scheduler in
      let first = record h { scheduler = s } in
      let g = remove_slots b.entry (slots to_ascii b) first in
      let enough =
        subst (λ o. occurs q (slots to_ascii b) ≤ times b.entry.id o) (sym (at-scheduler q h s))
          l in
      ap (λ o. times a o + (if b.entry.id == a then occurs q (slots to_ascii b) else 0))
        (at-idle q g (untrack b.entry.id b.udp_routes g.idle))
      ∙ remove_slots-times b.entry (slots to_ascii b) q a first enough
      ∙ ap (times a) (at-scheduler q h s)

  empty-times : (s : Option Scheduler) (a : ℕ) (q : Slot) → times a (at q (new_hub s)) ≡ 0
  unfolding lookup
  empty-times s a (exact key) = refl
  empty-times s a (wild suffix) = refl

-- In a hub that backends join and leave in any order, with any names, ports, routes and identifiers, and
-- that selects backends for any hostnames in between, a
-- pool holds an identifier as often as the registered backends with this identifier claim the pool: by a
-- hostname, by a wildcard with the suffix, or by the route key of a TCP port or of a UDP route. So a backend
-- that has left is in no pool, and none that is registered is missing from one.
pub Reach-times :
    (to_ascii : Bytes → Option Bytes) {bs : List HubBackend} {h : Hub} (a : ℕ) (q : Slot)
    → Reach to_ascii bs h
    → times a (at q h) ≡ claims to_ascii a q bs
Reach-times to_ascii a q (start s) = empty-times to_ascii s a q
Reach-times to_ascii a q (joins {bs = bs} {h = h} now b r) =
    register-times to_ascii now b q a h
    ∙ ground (arith, Reach-times to_ascii a q r, occurs-slots to_ascii q b)
Reach-times to_ascii a q (selects {h = h} {g = g} {r = r} fuel hostname reach e) =
    select_backend-times to_ascii fuel hostname h g r q a e ∙ Reach-times to_ascii a q reach
Reach-times to_ascii a q (leaves {h = h} before b after r) =
    let own =
      Reach-times to_ascii b.entry.id q r
      ∙ claims-append to_ascii b.entry.id q before (b ∷ after) in
    let mine : b.entry.id == b.entry.id ≡ true = ground arith in
    let slots_are = occurs-slots to_ascii q b in
    let enough : occurs q (slots to_ascii b) ≤ times b.entry.id (at q h) =
      ground (arith, own, mine, slots_are) in
    let all = Reach-times to_ascii a q r ∙ claims-append to_ascii a q before (b ∷ after) in
    ground (
      arith,
      unregister-times to_ascii b q a h enough,
      all,
      slots_are,
      claims-append to_ascii a q before after,
    )
