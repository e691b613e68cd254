-- ===== src/Idle/Defs.antt =====
-- internal/hub/hub.go: the state and the methods. A backend's identifier is a number. The maps by port
-- are functions; a port without sources has the empty map. Timeouts are in seconds.
use nexus_proxy_server.Common.{
  ℕ, if◌then◌else◌, ltb, ◌==◌, nat_eq, List, [], ◌∷◌, Option, none, some, length, Map, insert,
  delete, update,
}
use nexus_proxy_server.Claims.Routes.{UdpRoutePolicy}

-- `udpFlowIdleSources` and `udpFlowIdleByPort`.
pub record IdleTimeouts : Type 0 where
  pub sources : ℕ → Map ℕ ℕ
  pub by_port : ℕ → Option ℕ

abbrev pub new_idle_timeouts : IdleTimeouts
new_idle_timeouts = record { sources = λ p. []; by_port = λ p. none }

unfoldable pub longest : Map ℕ ℕ → ℕ → ℕ
longest [] effective = effective
longest ((id, d) ∷ m) effective = longest m (if ltb effective d then d else effective)

-- What `recomputeUDPFlowIdleTimeoutLocked` stores for a port, `none` for `Delete`.
unfoldable pub effective_timeout : Map ℕ ℕ → Option ℕ
unfolding longest
effective_timeout m =
    if length m == 0 then none else if ltb 0 (longest m 0) then some (longest m 0) else none

-- `recomputeUDPFlowIdleTimeoutLocked`.
unfoldable pub recompute : ℕ → IdleTimeouts → IdleTimeouts
unfolding update effective_timeout
recompute port s = record s { by_port = update port (effective_timeout (s.sources port)) s.by_port }

unfoldable pub recompute_all : List ℕ → IdleTimeouts → IdleTimeouts
unfolding recompute
recompute_all [] s = s
recompute_all (p ∷ ports) s = recompute_all ports (recompute p s)

-- The first loop of `trackUDPFlowIdleTimeout`; the conflict that it looks for is only logged.
unfoldable pub track_sources : ℕ → List UdpRoutePolicy → IdleTimeouts → IdleTimeouts
unfolding update
track_sources id [] s = s
track_sources id (r ∷ routes) s = track_sources id routes (record s {
  sources = update r.port (insert id r.flow_idle_timeout (s.sources r.port)) s.sources;
})

abbrev pub route_ports : List UdpRoutePolicy → List ℕ
route_ports [] = []
route_ports (r ∷ routes) = r.port ∷ route_ports routes

-- `trackUDPFlowIdleTimeout`.
unfoldable pub track : ℕ → List UdpRoutePolicy → IdleTimeouts → IdleTimeouts
unfolding track_sources recompute_all
track id routes s = recompute_all (route_ports routes) (track_sources id routes s)

-- The first loop of `untrackUDPFlowIdleTimeout`, with the ports that it touches.
unfoldable pub untrack_sources : ℕ → List UdpRoutePolicy → IdleTimeouts → IdleTimeouts × List ℕ
unfolding update
untrack_sources id [] s = (s, [])
untrack_sources id (r ∷ routes) s =
    let there = ltb 0 (length (s.sources r.port)) in
    let t =
      (if there
        then record s { sources = update r.port (delete id (s.sources r.port)) s.sources }
        else s) in
    let (u, touched) = untrack_sources id routes t in
    (u, if there then r.port ∷ touched else touched)

-- `untrackUDPFlowIdleTimeout`.
unfoldable pub untrack : ℕ → List UdpRoutePolicy → IdleTimeouts → IdleTimeouts
unfolding untrack_sources recompute_all
untrack id routes s = let (t, touched) = untrack_sources id routes s in recompute_all touched t

-- `UDPFlowIdleTimeout`.
unfoldable pub udp_flow_idle_timeout : ℕ → IdleTimeouts → Option ℕ
udp_flow_idle_timeout port s = s.by_port port
