-- ===== src/Witnesses/Flows.antt =====
-- internal/hub/hub.go, the idle timeouts of UDP flows: concrete inputs for the theorems.
use nexus_proxy_server.Common.{
  ℕ, ◌≤◌, ◌<◌, ◌≡◌, refl, List, [], ◌∷◌, some, none, lookup, insert, delete, arith,
}
use nexus_proxy_server.Idle.{new_idle_timeouts, udp_flow_idle_timeout, track, untrack}
use nexus_proxy_server.Idle.Tracked.{Op, track_op, untrack_op, step, run, tracked}
use nexus_proxy_server.Idle.Effective.{udp_flow_idle_timeout-ge, udp_flow_idle_timeout-is_tracked}

-- Two backends claim port 53; the one with the longer timeout leaves.
abbrev sample_ops : List Op
sample_ops =
    track_op 1 (record { port = 53; flow_idle_timeout = 30 } ∷ [])
    ∷ track_op 2 (record { port = 53; flow_idle_timeout = 60 } ∷ [])
    ∷ untrack_op 2 (record { port = 53; flow_idle_timeout = 60 } ∷ [])
    ∷ []

udp_flow_idle_timeout-ge_example :
    (d : ℕ) × (udp_flow_idle_timeout 53 (run sample_ops new_idle_timeouts) ≡ some d) × (30 ≤ d)
unfolding run step track untrack lookup insert delete
udp_flow_idle_timeout-ge_example = udp_flow_idle_timeout-ge sample_ops 53 1 30 refl (omega arith)

udp_flow_idle_timeout-is_tracked_example :
    (0 < 30) × ((id : ℕ) × (tracked id 53 sample_ops none ≡ some 30))
unfolding run step track untrack lookup insert delete udp_flow_idle_timeout
udp_flow_idle_timeout-is_tracked_example = udp_flow_idle_timeout-is_tracked sample_ops 53 30 refl
