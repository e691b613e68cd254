-- ===== src/Flows/Listener.antt =====
-- internal/proxy/udp_listener.go: `udpFlowTable`. Keys and client identifiers are numbers, and times are
-- in nanoseconds. A flow that is evicted has its client removed from the backend; those flows are returned.
use nexus_proxy_server.Common.{
  ℕ, zero, suc, ◌-◌, Bool, ◌&&◌, if◌then◌else◌, ltb, leb, ◌==◌, nat_eq, List, [], ◌∷◌, ◌++◌, Option,
  none, some, length,
}
use nexus_proxy_server.Flows.Lru.{find, drop_flow, unsnoc}

pub record UdpFlow : Type 0 where
  pub key : ℕ
  pub client_id : ℕ
  pub last_seen : ℕ

abbrev pub key_of : UdpFlow → ℕ
key_of f = f.key

pub record UdpFlowTable : Type 0 where
  pub lru : List UdpFlow
  pub idle_timeout : ℕ
  pub max_flows : ℕ

-- `newUDPFlowTable`.
unfoldable pub new_udp_flow_table : ℕ → ℕ → UdpFlowTable
new_udp_flow_table idle_timeout max_flows = record {
  lru = [];
  idle_timeout = idle_timeout;
  max_flows = if max_flows == 0 then 200000 else max_flows;
}

-- `setIdleTimeout`.
unfoldable pub set_idle_timeout : ℕ → UdpFlowTable → UdpFlowTable
set_idle_timeout idle_timeout t = record t { idle_timeout = idle_timeout }

unfoldable pub touched : ℕ → ℕ → Option UdpFlow → UdpFlowTable → UdpFlowTable × Option UdpFlow
unfolding drop_flow
touched now k none t = (t, none)
touched now k (some f) t =
    let g = record f { last_seen = now } in
    (record t { lru = g ∷ drop_flow key_of k t.lru }, some g)

-- `get`.
unfoldable pub get : ℕ → ℕ → UdpFlowTable → UdpFlowTable × Option UdpFlow
unfolding touched find
get now k t = touched now k (find key_of k t.lru) t

-- `remove`.
unfoldable pub remove : ℕ → UdpFlowTable → UdpFlowTable × Option UdpFlow
unfolding find drop_flow
remove k t = (record t { lru = drop_flow key_of k t.lru }, find key_of k t.lru)

-- Whether the oldest flow stays: `t.idleTimeout > 0 && now.Sub(f.lastSeen) <= t.idleTimeout`.
unfoldable pub is_fresh : ℕ → ℕ → UdpFlow → Bool
is_fresh now idle_timeout f = ltb 0 idle_timeout && leb (now - f.last_seen) idle_timeout

-- The loop of `evictLocked` over idle flows, which drops at most as many flows as there are: the flows
-- that stay, and those that go.
unfoldable pub expire : ℕ → ℕ → ℕ → List UdpFlow → List UdpFlow × List UdpFlow
unfolding unsnoc is_fresh
expire zero now idle_timeout fs = (fs, [])
expire (suc n) now idle_timeout fs = elim (unsnoc fs) [
  | none ↦ (fs, [])
  | some (init, back) ↦
      if is_fresh now idle_timeout back
      then (fs, [])
      else let (stay, gone) = expire n now idle_timeout init in (stay, back ∷ gone)
]

-- The loop over the flows above the capacity.
unfoldable pub shrink : ℕ → ℕ → List UdpFlow → List UdpFlow × List UdpFlow
unfolding unsnoc
shrink zero max_flows fs = (fs, [])
shrink (suc n) max_flows fs = elim (unsnoc fs) [
  | none ↦ (fs, [])
  | some (init, back) ↦
      if leb (length fs) max_flows
      then (fs, [])
      else let (stay, gone) = shrink n max_flows init in (stay, back ∷ gone)
]

-- `evictLocked`.
unfoldable pub evict : ℕ → UdpFlowTable → UdpFlowTable × List UdpFlow
unfolding expire shrink
evict now t =
    let (fresh, idle) = expire (length t.lru) now t.idle_timeout t.lru in
    let (stay, over) = shrink (length fresh) t.max_flows fresh in
    (record t { lru = stay }, idle ++ over)

-- `add`; the second reading of the clock, in `evictLocked`, is that of the first one.
unfoldable pub add : ℕ → UdpFlow → UdpFlowTable → UdpFlowTable × List UdpFlow
unfolding drop_flow evict
add now f t =
    evict now (record t { lru = record f { last_seen = now } ∷ drop_flow key_of f.key t.lru })
