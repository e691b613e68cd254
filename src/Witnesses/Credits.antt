-- ===== src/Witnesses/Credits.antt =====
-- client/credit_ledger.go and the drain of client/client.go: concrete inputs for the theorems.
use nexus_proxy_server.Common.{
  ◌+◌, ◌≤◌, ◌≡◌, refl, true, false, List, [], ◌∷◌, none, arith, ◌==◌, ◌&&◌, nat_eq, ◌⊎◌,
}
use nexus_proxy_server.Ledger.{
  Ledger, new_credit_ledger, try_acquire, release, replenish, notify_enqueue, drain_yielded,
  has_credit, signal, arm_stall_probe, clear_stall_cycle, add_clamped, drain_connection_queue,
  drain_loop, fire_probe, probe_body, take_timer,
}
use nexus_proxy_server.Ledger.Ops.{
  Op, acquire_op, release_op, replenish_op, init_op, enqueue_op, yield_op, fire_op, step,
  available-le-cap,
}
use nexus_proxy_server.Ledger.Ops
use nexus_proxy_server.Ledger.Credits.{spent, issued, run, tally, spent-le-issued}
use nexus_proxy_server.Ledger.Probe.{probed, probed-le-one}
use nexus_proxy_server.Ledger.Wakeup.{Outbound, enqueue, drain, fire, queued-is_attended}
use nexus_proxy_server.Ledger.Wakeup
use nexus_proxy_server.Ledger.Pending.{one_of}
use nexus_proxy_server.Ledger.Spend.{drain_connection_queue_lem}

abbrev sample_ledger : Ledger
unfolding new_credit_ledger
sample_ledger = new_credit_ledger 1 4

abbrev filled_ledger : Ledger
unfolding replenish add_clamped clear_stall_cycle signal
filled_ledger = replenish 9 sample_ledger

available-le-cap_example : (filled_ledger.max_cap ≡ 4) × (filled_ledger.available ≤ 4)
unfolding step replenish filled_ledger new_credit_ledger sample_ledger
available-le-cap_example =
    available-le-cap 1 4 filled_ledger (omega arith) (Ops.next (replenish_op 9) Ops.start refl) refl

abbrev sample_calls : List Op
sample_calls = acquire_op ∷ acquire_op ∷ replenish_op 2 ∷ acquire_op ∷ []

spent-le-issued_example :
    1 + tally spent sample_calls sample_ledger
    ≤ sample_ledger.available + tally issued sample_calls sample_ledger
unfolding run step try_acquire replenish add_clamped clear_stall_cycle signal sample_ledger
spent-le-issued_example =
    spent-le-issued sample_calls sample_ledger
      {last = record {
        available = 1;
        signaled = true;
        probe_fired = false;
        probe_gen = 1;
        closed = false;
        initialized = false;
        unlimited = false;
        max_cap = 4;
        probe_timer = none;
        probe_timers = [];
        notified = 1;
      }}
      refl (omega arith) tt refl

abbrev probe_calls : List Op
probe_calls = acquire_op ∷ enqueue_op ∷ fire_op 1 ∷ acquire_op ∷ enqueue_op ∷ fire_op 2 ∷ []

probed-le-one_example : tally probed probe_calls sample_ledger ≤ 1
unfolding sample_ledger
probed-le-one_example =
    probed-le-one 1 4 probe_calls Ops.start (tt, (tt, (tt, (tt, (tt, (tt, tt))))))

-- A frame is queued, the drain spends the one credit on it, and a second frame waits.
abbrev stalled : Outbound
unfolding notify_enqueue has_credit signal arm_stall_probe drain_connection_queue drain_loop
    try_acquire drain_yielded release
stalled =
    let o =
      Wakeup.drain_outbound (λ _. true) false 8
        (record { ledger = notify_enqueue sample_ledger; queued = 1 }) in
    record { ledger = notify_enqueue o.ledger; queued = o.queued + 1 }

-- A third frame is queued, the probe brings a credit for one of the two, and the other one waits.
abbrev probed_ledger : Outbound
unfolding stalled notify_enqueue has_credit fire_probe probe_body signal take_timer
probed_ledger = record {
  ledger =
      (fire_probe 1 (take_timer 1 (notify_enqueue stalled.ledger).probe_timers)
        (notify_enqueue stalled.ledger)).0;
  queued = 2;
}

abbrev starved : Outbound
unfolding probed_ledger drain_connection_queue drain_loop try_acquire drain_yielded release
starved = Wakeup.drain_outbound (λ _. true) false 8 probed_ledger

queued-is_attended_example :
    (starved.ledger.signaled ≡ true)
    ⊎ ((has_credit starved.ledger ≡ false)
        × ((starved.ledger.closed ≡ true)
            ⊎ (one_of starved.ledger.probe_gen starved.ledger.probe_timers ≡ true)
            ⊎ (one_of starved.ledger.probe_gen (1 ∷ []) ≡ true)))
unfolding stalled starved probed_ledger sample_ledger drain_connection_queue drain_loop
    new_credit_ledger fire_probe notify_enqueue has_credit signal arm_stall_probe take_timer
    probe_body drain_yielded try_acquire
queued-is_attended_example =
    queued-is_attended 1 4 starved
      (Wakeup.next
        (Wakeup.next
          (Wakeup.next
            (Wakeup.next
              (Wakeup.next (Wakeup.next Wakeup.start (enqueue _))
                (drain _ (λ _. true) false 8 refl))
              (enqueue _))
            (enqueue stalled))
          (fire _ 1))
        (drain probed_ledger (λ _. true) false 8 refl))
      (omega arith)

drain_connection_queue_lem_example :
    let d = drain_connection_queue (λ _. true) true 8 filled_ledger 3 in
    (d.written ≡ 3)
    × (d.ledger.available + 3 ≡ 4)
    × (d.queued + 3 ≡ 3)
    × (d.drained ≡ (true && d.queued == 0))
unfolding filled_ledger sample_ledger
drain_connection_queue_lem_example =
    drain_connection_queue_lem (λ _. true) true 8 filled_ledger 3 (λ k. refl) refl (omega arith)
