-- ===== src/Witnesses/Tables.antt =====
-- internal/proxy/udp_listener.go: concrete inputs for the theorems.
use nexus_proxy_server.Common.{◌≤◌, ◌≡◌, some, length, arith}
use nexus_proxy_server.Flows.{UdpFlow, UdpFlowTable, new_udp_flow_table, get, add}
use nexus_proxy_server.Flows.Recency.{Recent, AllFresh}
use nexus_proxy_server.Flows.Prefixes.{Distinct}
use nexus_proxy_server.Flows.Runs.{Reach, start, adds, Reach-AllFresh}
use nexus_proxy_server.Flows.Kept.{get-add}

abbrev old_flow : UdpFlow
old_flow = record { key = 1; client_id = 10; last_seen = 0 }

abbrev new_flow : UdpFlow
new_flow = record { key = 2; client_id = 20; last_seen = 0 }

-- A table for one flow, with a timeout of 30.
abbrev used_table : UdpFlowTable
used_table = (add 5 old_flow (new_udp_flow_table 30 1)).0

used_table_reached : Reach 30 1 5 used_table
used_table_reached = adds 5 old_flow (omega arith) (start 0)

Reach-AllFresh_example :
    AllFresh 40 used_table.idle_timeout (add 40 new_flow used_table).0.lru
    × Recent 40 (add 40 new_flow used_table).0.lru
    × Distinct (add 40 new_flow used_table).0.lru
    × (length (add 40 new_flow used_table).0.lru ≤ (add 40 new_flow used_table).0.max_flows)
Reach-AllFresh_example = Reach-AllFresh 40 new_flow (omega arith) used_table_reached

get-add_example :
    (get 41 2 (add 40 new_flow used_table).0).1 ≡ some (record new_flow { last_seen = 41 })
unfolding add new_udp_flow_table
get-add_example = get-add 40 41 new_flow used_table (omega arith) (omega arith)
