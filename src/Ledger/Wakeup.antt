-- ===== src/Ledger/Wakeup.antt =====
-- client/client.go, client/credit_ledger.go: queued frames are never left without a wakeup.
use nexus_proxy_server.Common.{
  ℕ, zero, suc, ◌+◌, ◌-◌, ◌<◌, ◌≡◌, Bool, true, false, if◌then◌else◌, ◌++◌, List, [], ◌∷◌, Option,
  none, some, arith, ltb, ◌==◌, nat_eq, refl, ◌⊎◌, inl, inr, Bool-cases,
}
use nexus_proxy_server.Ledger.Defs.{
  Ledger, new_credit_ledger, try_acquire, release, replenish, init_credits, has_credit,
  notify_enqueue, drain_yielded, close, kickstart_and_close, fire_probe, take_timer,
}
use nexus_proxy_server.Ledger.Pending.{
  one_of, Pending, drain_loop-Pending, notify_enqueue-Pending, replenish-Pending,
  init_credits-Pending, close-Pending, kickstart-Pending, fire_probe-Pending,
}
use nexus_proxy_server.Ledger.Drain.{drain_loop, drain_connection_queue}

-- The ledger of a connection with the length of its outbound queue.
pub record Outbound : Type 0 where
  pub ledger : Ledger
  pub queued : ℕ

abbrev pub drain_outbound : (ℕ → Bool) → Bool → ℕ → Outbound → Outbound
drain_outbound write_ok closing max_messages o =
    let d = drain_connection_queue write_ok closing max_messages o.ledger o.queued in
    record { ledger = d.ledger; queued = d.queued }

-- What happens to a connection: a frame is queued, the queue is drained, credits arrive, the
-- connection is torn down, a probe timer fires.
pub data Move : Outbound → Outbound → Type 0 where
  enqueue :
      (o : Outbound) → Move o (record { ledger = notify_enqueue o.ledger; queued = o.queued + 1 })
  drain :
      (o : Outbound) (write_ok : ℕ → Bool) (closing : Bool) (max_messages : ℕ)
      → (drain_connection_queue write_ok closing max_messages o.ledger o.queued).failed ≡ false
      → Move o (drain_outbound write_ok closing max_messages o)
  grant : (o : Outbound) (n : ℕ) → Move o (record o { ledger = replenish n o.ledger })
  install :
      (o : Outbound) (n : ℕ) (l : Ledger)
      → init_credits n o.ledger ≡ some l
      → Move o (record o { ledger = l })
  shut : (o : Outbound) → Move o (record o { ledger = close o.ledger })
  kickstart : (o : Outbound) (n : ℕ) → Move o (record o { ledger = kickstart_and_close n o.ledger })
  fire :
      (o : Outbound) (gen : ℕ)
      → Move o
          (record o { ledger = (fire_probe gen (take_timer gen o.ledger.probe_timers) o.ledger).0 })

-- The generation of a timer that fires with this move and leaves more credits than there were.
abbrev probed_by : {o o' : Outbound} → Move o o' → List ℕ
probed_by (fire o gen) =
    let (l, _) = fire_probe gen (take_timer gen o.ledger.probe_timers) o.ledger in
    if ltb o.ledger.available l.available then gen ∷ [] else []
probed_by _ = []

-- The states of a new ledger and an empty queue after some moves, with the generations whose timer
-- has brought a credit.
pub data Reach (initial max_cap : ℕ) : List ℕ → Outbound → Type 0 where
  start :
      Reach initial max_cap [] (record { ledger = new_credit_ledger initial max_cap; queued = 0 })
  next :
      {gens : List ℕ} {o o' : Outbound}
      → Reach initial max_cap gens o
      → (m : Move o o') → Reach initial max_cap (probed_by m ++ gens) o'

-- Frames that wait have the drainer signaled; or they lack credits, and `probe_fired` is set or the
-- ledger is closed.
abbrev pub Attended : Outbound → Type 0
Attended o =
    0 < o.queued
    → (o.ledger.signaled ≡ true)
      ⊎ ((has_credit o.ledger ≡ false) × ((o.ledger.closed ≡ true) ⊎ (o.ledger.probe_fired ≡ true)))

drain_yielded-Attended :
    (l : Ledger) (queued : ℕ)
    → Attended (record { ledger = drain_yielded (ltb 0 queued) l; queued = queued })
unfolding drain_yielded
drain_yielded-Attended l queued q = ground arith

drain_loop-Attended :
    (write_ok : ℕ → Bool) (n : ℕ) (l : Ledger) (queued written : ℕ)
    → let d = drain_loop write_ok n l queued written in
      d.failed ≡ false → Attended (record { ledger = d.ledger; queued = d.queued })
unfolding drain_loop
drain_loop-Attended write_ok zero l queued written = λ f. drain_yielded-Attended l queued
drain_loop-Attended write_ok (suc n) l queued written = elim (Bool-cases (try_acquire l).1) [
  | inr none_left ↦ rw none_left (λ f. drain_yielded-Attended (try_acquire l).0 queued)
  | inl got ↦ elim (Bool-cases (queued == 0)) [
    | inl empty ↦ rw (got, empty) (λ f. drain_yielded-Attended (release (try_acquire l).0) queued)
    | inr some_left ↦ elim (Bool-cases (write_ok written)) [
      | inl ok ↦
          rw (got, some_left, ok)
            (drain_loop-Attended write_ok n (try_acquire l).0 (queued - 1) (written + 1))
      | inr bad ↦ rw (got, some_left, bad) (λ f. cc)
    ]
  ]
]

notify_enqueue-Attended :
    (o : Outbound) → Attended (record { ledger = notify_enqueue o.ledger; queued = o.queued + 1 })
unfolding notify_enqueue
notify_enqueue-Attended o q = ground arith

replenish-Attended :
    (o : Outbound) (n : ℕ) → Attended o → Attended (record o { ledger = replenish n o.ledger })
unfolding replenish has_credit
replenish-Attended o n h q = ground (arith, h q)

install-Attended :
    (o : Outbound) (n : ℕ) (l : Ledger)
    → init_credits n o.ledger ≡ some l
    → Attended o
    → Attended (record o { ledger = l })
unfolding init_credits has_credit
install-Attended o n l e h q = ground (arith, h q)

close-Attended : (o : Outbound) → Attended o → Attended (record o { ledger = close o.ledger })
unfolding close has_credit
close-Attended o h q = ground (arith, h q)

kickstart-Attended :
    (o : Outbound) (n : ℕ)
    → Attended o
    → Attended (record o { ledger = kickstart_and_close n o.ledger })
unfolding kickstart_and_close has_credit
kickstart-Attended o n h q = ground (arith, h q)

fire_probe-Attended :
    (o : Outbound) (gen : ℕ) (t : Option (List ℕ))
    → Attended o
    → Attended (record o { ledger = (fire_probe gen t o.ledger).0 })
unfolding fire_probe has_credit
fire_probe-Attended o gen none h q = h q
fire_probe-Attended o gen (some rest) h q = ground (arith, h q)

Move-Attended : {o o' : Outbound} → Move o o' → Attended o → Attended o'
unfolding drain_connection_queue
Move-Attended (enqueue o) h = notify_enqueue-Attended o
Move-Attended (drain o write_ok closing max_messages f) h =
    drain_loop-Attended write_ok max_messages o.ledger o.queued 0 f
Move-Attended (grant o n) h = replenish-Attended o n h
Move-Attended (install o n l e) h = install-Attended o n l e h
Move-Attended (shut o) h = close-Attended o h
Move-Attended (kickstart o n) h = kickstart-Attended o n h
Move-Attended (fire o gen) h = fire_probe-Attended o gen (take_timer gen o.ledger.probe_timers) h

Reach-Attended :
    (initial max_cap : ℕ) {gens : List ℕ} {o : Outbound} → Reach initial max_cap gens o → Attended o
Reach-Attended initial max_cap start = λ q. absurd (omega arith)
Reach-Attended initial max_cap (next r m) = Move-Attended m (Reach-Attended initial max_cap r)

Move-Pending :
    (gens : List ℕ) {o o' : Outbound} (m : Move o o')
    → Pending gens o.ledger
    → Pending (probed_by m ++ gens) o'.ledger
unfolding drain_connection_queue
Move-Pending gens (enqueue o) h = notify_enqueue-Pending gens o.ledger h
Move-Pending gens (drain o write_ok closing max_messages f) h =
    drain_loop-Pending gens write_ok max_messages o.ledger o.queued 0 h
Move-Pending gens (grant o n) h = replenish-Pending gens n o.ledger h
Move-Pending gens (install o n l e) h = init_credits-Pending gens n o.ledger l e h
Move-Pending gens (shut o) h = close-Pending gens o.ledger h
Move-Pending gens (kickstart o n) h = kickstart-Pending gens n o.ledger h
Move-Pending gens (fire o gen) h =
    fire_probe-Pending gens gen o.ledger (take_timer gen o.ledger.probe_timers) refl h

Reach-Pending :
    (initial max_cap : ℕ) {gens : List ℕ} {o : Outbound}
    → Reach initial max_cap gens o
    → Pending gens o.ledger
unfolding new_credit_ledger
Reach-Pending initial max_cap start = refl
Reach-Pending initial max_cap (next r m) = Move-Pending _ m (Reach-Pending initial max_cap r)

-- In every run in which each drain's writes go through, if frames wait, then the drainer is signaled;
-- or there is no credit, and either the ledger is closed, or the probe's timer of the present
-- generation has not run yet, or that timer has run and left more credits than there were.
pub queued-is_attended :
    (initial max_cap : ℕ) {gens : List ℕ} (o : Outbound)
    → Reach initial max_cap gens o
    → 0 < o.queued
    → (o.ledger.signaled ≡ true)
      ⊎ ((has_credit o.ledger ≡ false)
          × ((o.ledger.closed ≡ true)
              ⊎ (one_of o.ledger.probe_gen o.ledger.probe_timers ≡ true)
              ⊎ (one_of o.ledger.probe_gen gens ≡ true)))
queued-is_attended initial max_cap o r q =
    ground (arith, Reach-Attended initial max_cap r q, Reach-Pending initial max_cap r)
