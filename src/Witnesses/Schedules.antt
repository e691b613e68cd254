-- ===== src/Witnesses/Schedules.antt =====
-- internal/bandwidth/scheduler.go: concrete inputs for the theorems.
use nexus_proxy_server.Common.{
  ◌+◌, ◌*◌, ◌/◌, ◌≤◌, ◌≡◌, refl, true, false, List, [], ◌∷◌, lookup, insert, arith, nat_eq,
}
use nexus_proxy_server.Common.Int.{◌+ℤ◌}
use nexus_proxy_server.Bandwidth.{
  BackendBandwidth, Scheduler, second, fair_share, bytes_to_add, new_scheduler, register,
  request_send, request_known, reserve, replenish_deficit, mark_active, ref_count, max_deficit,
}
use nexus_proxy_server.Bandwidth.Count.{
  start, next, Op, register_op, unregister_op, request_op, sent_op, idle_op, step, IsCounted,
  Reach-IsCounted,
}
use nexus_proxy_server.Bandwidth.Budget.{
  bytes_to_add_exact, request_send-granted, request_send-retry,
}
use nexus_proxy_server.Bandwidth.Limit.{total_granted, granted-le-limit}
use nexus_proxy_server.Bandwidth.Refs.{
  Holder, joins, leaves, holders, run_holders, IsShared, run_holders-IsShared,
}

-- A limit of 8 Mbit/s: a million bytes each second.
abbrev sample_scheduler : Scheduler
unfolding register new_scheduler insert
sample_scheduler = register 7 1000 (new_scheduler 8 1000)

abbrev sample_backend : BackendBandwidth
sample_backend = record { deficit = 0; bytes_sent = 0; last_active = 1000; is_active = false }

Reach-IsCounted_example : IsCounted (
    step
      (unregister_op 7)
      (step (request_op 7 20 2000) (step (register_op 7 1000) (new_scheduler 8 1000))))
unfolding new_scheduler lookup
Reach-IsCounted_example = Reach-IsCounted {mbps = 8} (
    next (unregister_op 7) tt
      (next (request_op 7 20 2000) tt (next (register_op 7 1000) refl start)))

bytes_to_add_exact_example : bytes_to_add 3 1500000000 ≡ 3 * 1500000000 / second
bytes_to_add_exact_example = bytes_to_add_exact 3 1500000000

request_send-granted_example : (request_send 7 20 50001000 sample_scheduler).1 ≡ true
unfolding register new_scheduler lookup insert fair_share mark_active sample_scheduler ◌+ℤ◌
request_send-granted_example =
    request_send-granted 7 20 50001000 sample_backend sample_scheduler (omega arith) refl
      (omega arith) (omega arith) (omega arith) (omega arith)

request_send-retry_example :
    let (s', _, wait) = request_send 7 90000 50001000 sample_scheduler in
    (request_send 7 90000 (50001000 + wait + 1) s').1 ≡ true
unfolding register new_scheduler lookup insert request_send request_known mark_active reserve
    replenish_deficit sample_scheduler bytes_to_add fair_share ◌+ℤ◌ max_deficit
request_send-retry_example =
    request_send-retry 7 90000 50001000 sample_backend sample_scheduler (omega arith) refl
      (omega arith) (omega arith) (omega arith) refl

abbrev sample_ops : List Op
sample_ops =
    request_op 7 500 10001000
    ∷ sent_op 7 500 10001000
    ∷ request_op 7 90000 10002000
    ∷ idle_op 10003000
    ∷ []

granted-le-limit_example :
    total_granted 7 sample_ops sample_scheduler * second
      + sample_scheduler.total_bytes_per_second * sample_backend.last_active
    ≤ sample_backend.deficit * second + sample_scheduler.total_bytes_per_second * 10003000
unfolding register new_scheduler lookup insert sample_scheduler
granted-le-limit_example =
    granted-le-limit 7 1000 10003000 sample_ops sample_backend sample_scheduler (omega arith) refl
      (omega arith) (omega arith, (omega arith, (omega arith, (omega arith, omega arith))))

abbrev sample_holders : List Holder
sample_holders = joins 1000 ∷ joins 2000 ∷ leaves ∷ []

run_holders-IsShared_example :
    IsShared 7 (holders 0 sample_holders) (run_holders 7 sample_holders (new_scheduler 8 1000))
unfolding new_scheduler lookup ref_count
run_holders-IsShared_example =
    run_holders-IsShared 7 0 sample_holders (new_scheduler 8 1000)
      (record { refs = refl; present = refl; distinct = tt; distinct_refs = tt })
