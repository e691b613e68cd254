-- ===== src/Ledger/Spend.antt =====
-- client/client.go: how many frames a drain writes, and what it leaves.
use nexus_proxy_server.Common.{
  ℕ, zero, suc, ◌+◌, ◌-◌, ◌≤◌, ◌<◌, ◌≡◌, refl, Bool, true, false, arith, ltb, ◌==◌, ◌&&◌, nat_eq,
  min, Bool-cases, inl, inr, ◌∙◌,
}
use nexus_proxy_server.Ledger.Defs.{Ledger, try_acquire, release, drain_yielded}
use nexus_proxy_server.Ledger.Drain.{Drained, leave, drain_loop, drain_connection_queue}

-- A drain that wrote `sent` frames more, out of `queued` and with the credits of `l`.
record Spent (l : Ledger) (queued written sent : ℕ) (d : Drained) : Type 0 where
  wrote : d.written ≡ written + sent
  paid : d.ledger.available + sent ≡ l.available
  left : d.queued + sent ≡ queued
  clean : d.failed ≡ false

available-drain_yielded : (b : Bool) (l : Ledger) → (drain_yielded b l).available ≡ l.available
unfolding drain_yielded
available-drain_yielded b l = ground arith

try_acquire-refused :
    (l : Ledger) → l.unlimited ≡ false → (l.available == 0) ≡ true → try_acquire l ≡ (l, false)
unfolding try_acquire
try_acquire-refused l u z = rw (u, z)

try_acquire-granted :
    (l : Ledger)
    → l.unlimited ≡ false
    → (l.available == 0) ≡ false
    → try_acquire l ≡ (record l { available = l.available - 1 }, true)
unfolding try_acquire
try_acquire-granted l u z = rw (u, z)

available-release :
    (l : Ledger)
    → l.unlimited ≡ false
    → l.available < l.max_cap
    → (release l).available ≡ l.available + 1
unfolding release
available-release l u h = ground arith

stopped-Spent :
    (l l' : Ledger) (queued written sent : ℕ)
    → l'.available ≡ l.available
    → sent ≡ 0
    → Spent l queued written sent (leave (drain_yielded (ltb 0 queued) l') queued written false)
stopped-Spent l l' queued written sent e z = record {
  wrote = omega arith;
  paid = omega (arith, available-drain_yielded (ltb 0 queued) l');
  left = omega arith;
  clean = refl;
}

went_on-Spent :
    (l paid : Ledger) (queued written sent : ℕ) (d : Drained)
    → l.available ≡ paid.available + 1
    → 0 < queued
    → Spent paid (queued - 1) (written + 1) sent d
    → Spent l queued written (sent + 1) d
went_on-Spent l paid queued written sent d e q s = record {
  wrote = omega (arith, s.wrote);
  paid = omega (arith, s.paid);
  left = omega (arith, s.left);
  clean = s.clean;
}

drain_loop_lem :
    (write_ok : ℕ → Bool) (n : ℕ) (l : Ledger) (queued written : ℕ)
    → ((k : ℕ) → write_ok k ≡ true)
    → l.unlimited ≡ false
    → l.available ≤ l.max_cap
    → Spent l queued written
        (min n (min queued l.available))
        (drain_loop write_ok n l queued written)
unfolding drain_loop
drain_loop_lem write_ok zero l queued written ok u c =
    stopped-Spent l l queued written _ refl (omega arith)
drain_loop_lem write_ok (suc n) l queued written ok u c = elim (Bool-cases (l.available == 0)) [
  | inl broke ↦
      rw (try_acquire-refused l u broke) (stopped-Spent l l queued written _ refl (ground arith))
  | inr rich ↦
      let paid = record l { available = l.available - 1 } in
      rw (try_acquire-granted l u rich) (elim (Bool-cases (queued == 0)) [
        | inl empty ↦ rw empty (
            stopped-Spent l (release paid) queued written _
              (available-release paid u (ground arith) ∙ ground arith) (ground arith))
        | inr more ↦
            let e : min (suc n) (min queued l.available)
                ≡ min n (min (queued - 1) (l.available - 1)) + 1 =
              ground arith in
            rw (more, ok written, e)
              (went_on-Spent l paid queued written _ _ (ground arith) (ground arith)
                (drain_loop_lem write_ok n paid (queued - 1) (written + 1) ok u (omega arith)))
      ])
]

-- A drain of a limited ledger whose writes go through writes as many frames as the queue, the
-- credits and its quota allow, pays one credit for each, and leaves the rest; in teardown it reports
-- the queue as drained exactly when it is empty.
pub drain_connection_queue_lem :
    (write_ok : ℕ → Bool) (closing : Bool) (max_messages : ℕ) (l : Ledger) (queued : ℕ)
    → ((k : ℕ) → write_ok k ≡ true)
    → l.unlimited ≡ false
    → l.available ≤ l.max_cap
    → let d = drain_connection_queue write_ok closing max_messages l queued in
      let sent = min max_messages (min queued l.available) in
      (d.written ≡ sent)
      × (d.ledger.available + sent ≡ l.available)
      × (d.queued + sent ≡ queued)
      × (d.drained ≡ (closing && d.queued == 0))
unfolding drain_connection_queue
drain_connection_queue_lem write_ok closing max_messages l queued ok u c =
    let s = drain_loop_lem write_ok max_messages l queued 0 ok u c in
    (omega (arith, s.wrote), s.paid, s.left, refl)
