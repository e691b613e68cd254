-- ===== src/Bandwidth/Budget.antt =====
-- internal/bandwidth/scheduler.go: what a backend may send, against the configured limit.
use nexus_proxy_server.Common.{
  ℕ, ◌+◌, ◌-◌, ◌*◌, ◌/◌, ◌%◌, ◌≤◌, ◌<◌, ◌≡◌, ◌≢◌, true, false, some, lookup, insert, nat_eq, arith,
  ap, lookup-insert,
}
use nexus_proxy_server.Common.Int.{ℤ}
use nexus_proxy_server.Bandwidth.Defs.{
  BackendBandwidth, Scheduler, second, min_deficit_cap, fair_share, max_deficit, bytes_to_add,
  replenish_deficit,
}
use nexus_proxy_server.Bandwidth.Ops.{mark_active, wait_nanos, reserve, request_known, request_send}

-- Dividing first loses nothing: the bytes added are the exact quotient of the product.
pub bytes_to_add_exact : (share elapsed : ℕ) → bytes_to_add share elapsed ≡ share * elapsed / second
unfolding bytes_to_add
bytes_to_add_exact share elapsed =
    let e : elapsed ≡ second * (elapsed / second) + elapsed % second = omega arith in
    let p : share * elapsed ≡ share * (second * (elapsed / second) + elapsed % second) =
      ap (λ (t : ℕ). share * t) e in
    omega (arith, p)

pub min_deficit_cap-le-max_deficit : (share : ℕ) → min_deficit_cap ≤ max_deficit share
unfolding max_deficit
min_deficit_cap-le-max_deficit share = ground arith

fair_share-le : (total : ℕ) (count : ℤ) → total ≢ 0 → fair_share total count ≤ total
unfolding fair_share
fair_share-le total count h = grind arith

fair_share-pos : (total : ℕ) (count : ℤ) → 0 < fair_share total count
unfolding fair_share
fair_share-pos total count = ground arith

quotient_covers : (x d : ℕ) → 0 < d → x ≤ d * (x / d) + d
quotient_covers x d h = omega arith

-- The wait that a refusal reports brings the missing bytes, to within a nanosecond.
wait_nanos-covers :
    (share needed : ℕ) → 0 < share → needed * second ≤ share * (wait_nanos share needed + 1)
unfolding wait_nanos
wait_nanos-covers share needed h = ground (arith, quotient_covers (needed * second) share h)

-- Where the elapsed time brings the bytes that are missing, the replenished deficit has them.
replenish_deficit-enough :
    (total : ℕ) (count : ℤ) (now bytes : ℕ) (bw : BackendBandwidth)
    → bw.last_active ≢ 0
    → bw.last_active < now
    → bytes ≤ min_deficit_cap
    → bytes * second ≤ bw.deficit * second + fair_share total count * (now - bw.last_active)
    → bytes ≤ (replenish_deficit total count now bw).deficit
unfolding replenish_deficit
replenish_deficit-enough total count now bytes bw l n b h =
    let share = fair_share total count in
    ground
      (arith, bytes_to_add_exact share (now - bw.last_active), min_deficit_cap-le-max_deficit share)

-- What a replenishment adds is covered by the limit and the time that it accounts for.
pub replenish_deficit-budget :
    (total : ℕ) (count : ℤ) (now : ℕ) (bw : BackendBandwidth)
    → total ≢ 0
    → bw.last_active ≤ now
    → ((replenish_deficit total count now bw).deficit * second + total * bw.last_active
        ≤ bw.deficit * second + total * now)
      × ((replenish_deficit total count now bw).last_active ≡ now)
unfolding replenish_deficit
replenish_deficit-budget total count now bw t l =
    let share = fair_share total count in
    let e = now - bw.last_active in
    let p : share * e ≤ total * e = grind (arith, fair_share-le total count t) in
    let n : now ≡ bw.last_active + e = omega arith in
    let m : total * now ≡ total * (bw.last_active + e) = ap (λ (x : ℕ). total * x) n in
    let q : total * now ≡ total * bw.last_active + total * e = omega (arith, m) in
    ground (arith, bytes_to_add_exact share e, p, q)

-- What `RequestSend` computes for a backend that it knows, under a limit.
pub request_send-known :
    (id bytes now : ℕ) (bw : BackendBandwidth) (s : Scheduler)
    → s.total_bytes_per_second ≢ 0
    → lookup id s.backends ≡ some bw
    → let t = mark_active id bw s in
      request_send id bytes now s
      ≡ reserve id bytes
          (replenish_deficit t.total_bytes_per_second t.active_count now
            (record bw { is_active = true }))
          t
unfolding request_send request_known
request_send-known id bytes now bw s l e = rw e (ground arith)

pub mark_active_limit :
    (id : ℕ) (bw : BackendBandwidth) (s : Scheduler)
    → (mark_active id bw s).total_bytes_per_second ≡ s.total_bytes_per_second
unfolding mark_active
mark_active_limit id bw s = ground arith

-- Under a limit, a send of at most 128 KiB (`min_deficit_cap`) is let through, if its backend is known,
-- was last active before now and at a time above 0, and the bytes fit its deficit together with what
-- its fair share brings in the time since.
pub request_send-granted :
    (id bytes now : ℕ) (bw : BackendBandwidth) (s : Scheduler)
    → s.total_bytes_per_second ≢ 0
    → lookup id s.backends ≡ some bw
    → bw.last_active ≢ 0
    → bw.last_active < now
    → bytes ≤ min_deficit_cap
    → bytes * second
      ≤ bw.deficit * second
        + fair_share s.total_bytes_per_second (mark_active id bw s).active_count
          * (now - bw.last_active)
    → (request_send id bytes now s).1 ≡ true
unfolding reserve
request_send-granted id bytes now bw s l e n m b h =
    let t = mark_active id bw s in
    let active = record bw { is_active = true } in
    ground (
      arith,
      request_send-known id bytes now bw s l e,
      mark_active_limit id bw s,
      replenish_deficit-enough s.total_bytes_per_second t.active_count now bytes active,
    )

reserve-refused :
    (id bytes : ℕ) (bw : BackendBandwidth) (t : Scheduler)
    → (reserve id bytes bw t).1 ≡ false
    → (bw.deficit < bytes)
      × ((reserve id bytes bw t).0 ≡ record t { backends = insert id bw t.backends })
      × ((reserve id bytes bw t).2
          ≡ wait_nanos (fair_share t.total_bytes_per_second t.active_count) (bytes - bw.deficit))
unfolding reserve
reserve-refused id bytes bw t h = ground arith

mark_active_idle :
    (id : ℕ) (bw : BackendBandwidth) (s : Scheduler) → bw.is_active ≡ true → mark_active id bw s ≡ s
unfolding mark_active
mark_active_idle id bw s h = ground arith

pub replenish_deficit-stays :
    (total : ℕ) (count : ℤ) (now : ℕ) (bw : BackendBandwidth)
    → bw.last_active ≤ now
    → ((replenish_deficit total count now bw).last_active ≡ now)
      × ((replenish_deficit total count now bw).is_active ≡ bw.is_active)
unfolding replenish_deficit
replenish_deficit-stays total count now bw h = ground arith

-- The second request, from the state that the refusal leaves.
retry_granted :
    (id bytes now wait : ℕ) (bw : BackendBandwidth) (t : Scheduler)
    → t.total_bytes_per_second ≢ 0
    → 0 < now
    → bw.last_active ≡ now
    → bw.is_active ≡ true
    → bw.deficit < bytes
    → bytes ≤ min_deficit_cap
    → wait ≡ wait_nanos (fair_share t.total_bytes_per_second t.active_count) (bytes - bw.deficit)
    → (request_send id bytes (now + wait + 1) (record t { backends = insert id bw t.backends })).1
      ≡ true
retry_granted id bytes now wait bw t l n last busy short b w =
    let u = record t { backends = insert id bw t.backends } in
    let share = fair_share t.total_bytes_per_second t.active_count in
    let gap : now + wait + 1 - bw.last_active ≡ wait + 1 = omega arith in
    let covers : (bytes - bw.deficit) * second ≤ share * (wait + 1) = rw w (
      wait_nanos-covers share (bytes - bw.deficit)
        (fair_share-pos t.total_bytes_per_second t.active_count)) in
    let found : lookup id u.backends ≡ some bw =
      ground (arith, lookup-insert id id bw t.backends) in
    request_send-granted id bytes (now + wait + 1) bw u l found (omega arith) (omega arith) b
      (rw (mark_active_idle id bw u busy) (rw gap (omega (arith, covers))))

-- Under a limit, if a send of at most 128 KiB (`min_deficit_cap`) of a known backend is refused, at a
-- time above 0 that is not before its last activity, then the same send is let through one nanosecond
-- after the wait that it was told, with no other call in between.
pub request_send-retry :
    (id bytes now : ℕ) (bw : BackendBandwidth) (s : Scheduler)
    → s.total_bytes_per_second ≢ 0
    → lookup id s.backends ≡ some bw
    → 0 < now
    → bw.last_active ≤ now
    → bytes ≤ min_deficit_cap
    → (request_send id bytes now s).1 ≡ false
    → let (s', _, wait) = request_send id bytes now s in
      (request_send id bytes (now + wait + 1) s').1 ≡ true
request_send-retry id bytes now bw s l e n m b h =
    let t = mark_active id bw s in
    let bw' =
      replenish_deficit t.total_bytes_per_second t.active_count now
        (record bw { is_active = true }) in
    let known = request_send-known id bytes now bw s l e in
    let (short, state, wait) = reserve-refused id bytes bw' t (rw known at h) in
    let (last, busy) =
      replenish_deficit-stays t.total_bytes_per_second t.active_count now
        (record bw { is_active = true }) m in
    rw (known, state)
      (retry_granted id bytes now (reserve id bytes bw' t).2 bw' t
        (rw (mark_active_limit id bw s) l) n last busy short b wait)
