-- ===== src/Witnesses/Pools.antt =====
-- internal/hub/loadbalancer.go and internal/routing/peerlist.go: concrete inputs for the theorems.
use nexus_proxy_server.Common.{ℕ, ◌<◌, ◌≡◌, refl, [], ◌∷◌, none, some, get_elem?, arith}
use nexus_proxy_server.Common.SwapRemove.{has_key, swap_remove}
use nexus_proxy_server.Balancer.{
  LoadBalancerPool, new_pool, add_backend, remove_backend, select, recalculated_gcd, gcd_from, gcd,
  gcd_loop,
}
use nexus_proxy_server.Balancer.Select.{IsSelection, select_total, select_diverges}
use nexus_proxy_server.Routing.{PeerList, selections}
use nexus_proxy_server.Routing.Selection.{selections_fair}

abbrev sample_pool : LoadBalancerPool
unfolding new_pool add_backend recalculated_gcd gcd_from gcd gcd_loop
sample_pool =
    add_backend (record { id = 1; weight = 4 })
      (add_backend (record { id = 2; weight = 6 }) new_pool)

select_total_example : IsSelection sample_pool (select 5 sample_pool)
unfolding sample_pool
select_total_example =
    select_total 5 sample_pool
      (record { weights = (omega arith, (omega arith, tt)); step = omega arith }) (omega arith)
      (omega arith)

-- A pool whose only weighted backend is removed after a selection.
abbrev weightless_pool : LoadBalancerPool
unfolding remove_backend has_key swap_remove new_pool add_backend recalculated_gcd gcd_from gcd
    gcd_loop
weightless_pool =
    remove_backend (record { id = 3; weight = 5 })
      (record (add_backend (record { id = 3; weight = 5 })
        (add_backend (record { id = 2; weight = 0 })
          (add_backend (record { id = 1; weight = 0 }) new_pool))) {
            current_weight = 5;
            next_index = 3;
          })

select_diverges_example : select 100 weightless_pool ≡ none
unfolding weightless_pool
select_diverges_example =
    select_diverges 100 weightless_pool (refl, (refl, tt)) (omega arith) refl (omega arith)

abbrev sample_peers : PeerList
sample_peers = record {
  peers = record { addr = 1; object = 0 } ∷ record { addr = 2; object = 1 } ∷ [];
  counter = 6;
}

selections_fair_example :
    (i : ℕ) × (i < 2)
    × (get_elem? (selections 2 sample_peers) i ≡ some (get_elem? sample_peers.peers 1))
selections_fair_example = selections_fair sample_peers 1 (omega arith) (omega arith)
