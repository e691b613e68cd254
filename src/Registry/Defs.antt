-- ===== src/Registry/Defs.antt =====
-- internal/hub/hub.go: `register`, `unregister`, `SelectBackend` and `GetLocalRoutes` over the pools, the
-- idle timeouts and the bandwidth scheduler. The end of a backend's connection and the announcement to the
-- peers are not part of this state. A pool that is changed through its pointer is the changed entry of its
-- map. `to_ascii` is the parameter of the hostnames.
use nexus_proxy_server.Common.{
  ℕ, if◌then◌else◌, nat_eq, bytes_eq, Bytes, List, [], ◌∷◌, ◌++◌, map, Option, none, some, ◌>>=◌,
  Map, lookup, insert,
}
use nexus_proxy_server.Hostnames.{wildcard_suffix, first_dot_suffix}
use nexus_proxy_server.Balancer.{
  Backend, LoadBalancerPool, Selected, new_pool, add_backend, remove_backend, has_backends, select,
}
use nexus_proxy_server.Bandwidth.{Scheduler, register, unregister}
use nexus_proxy_server.Claims.Routes.{UdpRoutePolicy}
use nexus_proxy_server.Claims.Hosts.{route_key, tcp, udp}
use nexus_proxy_server.Idle.{IdleTimeouts, new_idle_timeouts, track, untrack}

-- The fields of a `Backend` that the hub reads.
pub record HubBackend : Type 0 where
  pub entry : Backend
  pub hostnames : List Bytes
  pub tcp_ports : List ℕ
  pub udp_routes : List UdpRoutePolicy

pub record Hub : Type 0 where
  pub pools : Map Bytes LoadBalancerPool
  pub wildcard_pools : Map Bytes LoadBalancerPool
  pub idle : IdleTimeouts
  pub scheduler : Option Scheduler

abbrev pub new_hub : Option Scheduler → Hub
new_hub scheduler = record {
  pools = [];
  wildcard_pools = [];
  idle = new_idle_timeouts;
  scheduler = scheduler;
}

-- A pool of the hub: one of `pools`, or one of `wildcardPools`.
pub data Slot : Type 0 where
  exact : Bytes → Slot
  wild : Bytes → Slot

unfoldable pub pool_or_new : Option LoadBalancerPool → LoadBalancerPool
pool_or_new none = new_pool
pool_or_new (some p) = p

-- `LoadOrStore` with `AddBackend`.
unfoldable pub add_to : Backend → Bytes → Map Bytes LoadBalancerPool → Map Bytes LoadBalancerPool
unfolding pool_or_new add_backend
add_to b key m = insert key (add_backend b (pool_or_new (lookup key m))) m

unfoldable pub removed_from :
    Backend
    → Bytes
    → Option LoadBalancerPool
    → Map Bytes LoadBalancerPool
    → Map Bytes LoadBalancerPool
unfolding remove_backend
removed_from b key none m = m
removed_from b key (some p) m = insert key (remove_backend b p) m

-- `Load` with `RemoveBackend`.
unfoldable pub remove_from :
    Backend → Bytes → Map Bytes LoadBalancerPool → Map Bytes LoadBalancerPool
unfolding removed_from
remove_from b key m = removed_from b key (lookup key m) m

unfoldable pub add_slot : Backend → Slot → Hub → Hub
unfolding add_to
add_slot b (exact key) h = record h { pools = add_to b key h.pools }
add_slot b (wild suffix) h = record h { wildcard_pools = add_to b suffix h.wildcard_pools }

unfoldable pub remove_slot : Backend → Slot → Hub → Hub
unfolding remove_from
remove_slot b (exact key) h = record h { pools = remove_from b key h.pools }
remove_slot b (wild suffix) h = record h { wildcard_pools = remove_from b suffix h.wildcard_pools }

-- The three loops of `register`, one after the other.
unfoldable pub add_slots : Backend → List Slot → Hub → Hub
unfolding add_slot
add_slots b [] h = h
add_slots b (s ∷ ss) h = add_slots b ss (add_slot b s h)

unfoldable pub remove_slots : Backend → List Slot → Hub → Hub
unfolding remove_slot
remove_slots b [] h = h
remove_slots b (s ∷ ss) h = remove_slots b ss (remove_slot b s h)

unfoldable pub name_slot : Bytes → Option Bytes → Slot
name_slot h none = exact h
name_slot h (some suffix) = wild suffix

unfoldable pub has_scheduler : (Scheduler → Scheduler) → Option Scheduler → Option Scheduler
has_scheduler change none = none
has_scheduler change (some s) = some (change s)

unfoldable pub put_pool : Slot → LoadBalancerPool → Hub → Hub
put_pool (exact key) p h = record h { pools = insert key p h.pools }
put_pool (wild suffix) p h = record h { wildcard_pools = insert suffix p h.wildcard_pools }

-- `Select` of the pool that was found; the first `none` is out of fuel, the second is no pool.
unfoldable pub select_in :
    ℕ → Hub → Option (Slot × LoadBalancerPool) → Option (Option Selected × Hub)
unfolding select put_pool
select_in fuel h none = some (none, h)
select_in fuel h (some (slot, p)) = do
  (result, q) ← select fuel p
  some (some result, put_pool slot q h)

unfoldable pub found_at : Slot → Option LoadBalancerPool → Option (Slot × LoadBalancerPool)
found_at slot none = none
found_at slot (some p) = some (slot, p)

unfoldable pub wildcard_pool : Option Bytes → Hub → Option (Slot × LoadBalancerPool)
unfolding found_at
wildcard_pool none h = none
wildcard_pool (some suffix) h = found_at (wild suffix) (lookup suffix h.wildcard_pools)

unfoldable pub held_names : (Bytes → Bytes) → Map Bytes LoadBalancerPool → List Bytes
unfolding has_backends
held_names name [] = []
held_names name ((key, p) ∷ rest) =
    if has_backends p then name key ∷ held_names name rest else held_names name rest

-- `GetLocalRoutes`.
unfoldable pub get_local_routes : Hub → List Bytes
unfolding held_names
get_local_routes h =
    held_names (λ key. key) h.pools ++ held_names (λ suffix. b'*' ∷ suffix) h.wildcard_pools

module _ (to_ascii : Bytes → Option Bytes) where
  -- `SelectBackend`.
  unfoldable pub select_backend : ℕ → Bytes → Hub → Option (Option Selected × Hub)
  unfolding select_in found_at wildcard_pool first_dot_suffix
  select_backend fuel hostname h =
      select_in fuel h (elim (found_at (exact hostname) (lookup hostname h.pools)) [
        | some found ↦ some found
        | none ↦ wildcard_pool (first_dot_suffix to_ascii hostname) h
      ])

  -- The pools of a backend's hostnames, TCP ports and UDP routes, in the order of the loops.
  unfoldable pub slots : HubBackend → List Slot
  unfolding name_slot wildcard_suffix route_key
  slots b =
      map (λ h. name_slot h (wildcard_suffix to_ascii h)) b.hostnames
      ++ (map (λ port. exact (route_key tcp port)) b.tcp_ports
          ++ map (λ r. exact (route_key udp r.port)) b.udp_routes)

  -- `register`, at a time.
  unfoldable pub register_backend : ℕ → HubBackend → Hub → Hub
  unfolding slots add_slots track register has_scheduler
  register_backend now b h =
      let g =
        add_slots b.entry (slots b)
          (record h { scheduler = has_scheduler (register b.entry.id now) h.scheduler }) in
      record g { idle = track b.entry.id b.udp_routes g.idle }

  -- `unregister`.
  unfoldable pub unregister_backend : HubBackend → Hub → Hub
  unfolding slots remove_slots untrack unregister has_scheduler
  unregister_backend b h =
      let g =
        remove_slots b.entry (slots b)
          (record h { scheduler = has_scheduler (unregister b.entry.id) h.scheduler }) in
      record g { idle = untrack b.entry.id b.udp_routes g.idle }
