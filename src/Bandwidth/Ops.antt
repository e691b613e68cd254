-- ===== src/Bandwidth/Ops.antt =====
-- internal/bandwidth/scheduler.go: the methods of `Scheduler`, each as one atomic step.
use nexus_proxy_server.Common.{
  ℕ, ◌+◌, ◌-◌, ◌*◌, ◌/◌, Bool, true, false, ltb, leb, ◌==◌, ◌&&◌, if◌then◌else◌, Map, [], ◌∷◌,
  Option, none, some, lookup, insert, delete, nat_eq,
}
use nexus_proxy_server.Common.Int.{ℤ, pos, ◌+ℤ◌, ◌-ℤ◌}
use nexus_proxy_server.Bandwidth.Defs.{
  BackendBandwidth, Scheduler, second, idle_threshold, fair_share, replenish_deficit,
}

-- `NewScheduler`, for a limit in megabits per second (0 is unlimited).
unfoldable pub new_scheduler : ℕ → ℕ → Scheduler
new_scheduler total_mbps now = record {
  total_bytes_per_second = total_mbps * 1000000 / 8;
  backends = [];
  active_count = pos 0;
  ref_counts = [];
  total_bytes_sent = 0;
  last_reset_time = now;
}

unfoldable pub fresh_backend : ℕ → BackendBandwidth
fresh_backend now = record { deficit = 0; bytes_sent = 0; last_active = now; is_active = false }

unfoldable pub register : ℕ → ℕ → Scheduler → Scheduler
unfolding fresh_backend
register id now s = record s { backends = insert id (fresh_backend now) s.backends }

-- The body that `Unregister` and `UnregisterShared` share, for the entry that `Load` found.
unfoldable pub drop_entry : ℕ → Option BackendBandwidth → Scheduler → Scheduler
drop_entry id none s = s
drop_entry id (some bw) s =
    let t = record s { backends = delete id s.backends } in
    if bw.is_active then record t { active_count = s.active_count -ℤ pos 1 } else t

unfoldable pub unregister : ℕ → Scheduler → Scheduler
unfolding drop_entry
unregister id s = drop_entry id (lookup id s.backends) s

unfoldable pub ref_count : Option ℕ → ℕ
ref_count none = 0
ref_count (some n) = n

-- `LoadOrStore` of a fresh entry.
unfoldable pub load_or_store :
    ℕ → Option BackendBandwidth → BackendBandwidth → Scheduler → Scheduler
load_or_store id (some bw) new s = s
load_or_store id none new s = record s { backends = insert id new s.backends }

-- Both branches on `isNew` end in the entry that is there, or in a fresh one.
unfoldable pub register_shared : ℕ → ℕ → Scheduler → Scheduler
unfolding ref_count load_or_store fresh_backend
register_shared id now s =
    let count = ref_count (lookup id s.ref_counts) + 1 in
    let t = record s { ref_counts = insert id count s.ref_counts } in
    load_or_store id (lookup id t.backends) (fresh_backend now) t

unfoldable pub release_ref : ℕ → Option ℕ → Scheduler → Scheduler
unfolding drop_entry
release_ref id none s = s
release_ref id (some count) s =
    if leb count 1
    then drop_entry id (lookup id s.backends) (record s { ref_counts = delete id s.ref_counts })
    else record s { ref_counts = insert id (count - 1) s.ref_counts }

unfoldable pub unregister_shared : ℕ → Scheduler → Scheduler
unfolding release_ref
unregister_shared id s = release_ref id (lookup id s.ref_counts) s

-- The first test of `RequestSend`: an idle backend becomes active, and is counted. The second look-up
-- of the source finds the entry, since no other method runs in between.
unfoldable pub mark_active : ℕ → BackendBandwidth → Scheduler → Scheduler
mark_active id bw s = if bw.is_active then s else record s {
  backends = insert id (record bw { is_active = true }) s.backends;
  active_count = s.active_count +ℤ pos 1;
}

-- `waitNanos`, at least one millisecond where the division gives 0.
unfoldable pub wait_nanos : ℕ → ℕ → ℕ
wait_nanos share bytes_needed =
    let wait = bytes_needed * second / share in if wait == 0 then 1000000 else wait

-- The decision on the deficit, for a backend that is active and replenished.
unfoldable pub reserve : ℕ → ℕ → BackendBandwidth → Scheduler → Scheduler × Bool × ℕ
unfolding wait_nanos
reserve id bytes bw s =
    if leb bytes bw.deficit
    then (
      record s { backends = insert id (record bw { deficit = bw.deficit - bytes }) s.backends },
      true,
      0,
    )
    else (
      record s { backends = insert id bw s.backends },
      false,
      wait_nanos (fair_share s.total_bytes_per_second s.active_count) (bytes - bw.deficit),
    )

unfoldable pub request_known :
    ℕ → ℕ → ℕ → Option BackendBandwidth → Scheduler → Scheduler × Bool × ℕ
unfolding mark_active reserve
request_known id bytes now none s = (s, true, 0)
request_known id bytes now (some bw) s =
    let t = mark_active id bw s in
    let bw' =
      replenish_deficit t.total_bytes_per_second t.active_count now
        (record bw { is_active = true }) in
    reserve id bytes bw' t

-- `RequestSend`: whether the send may go, and how long to wait if not.
unfoldable pub request_send : ℕ → ℕ → ℕ → Scheduler → Scheduler × Bool × ℕ
unfolding request_known
request_send id bytes now s =
    if s.total_bytes_per_second == 0
    then (s, true, 0)
    else request_known id bytes now (lookup id s.backends) s

unfoldable pub refund_known : ℕ → ℕ → Option BackendBandwidth → Scheduler → Scheduler
refund_known id bytes none s = s
refund_known id bytes (some bw) s = record s {
  backends = insert id (record bw { deficit = bw.deficit + bytes }) s.backends;
}

unfoldable pub refund_send : ℕ → ℕ → Scheduler → Scheduler
unfolding refund_known
refund_send id bytes s =
    if s.total_bytes_per_second == 0 then s else refund_known id bytes (lookup id s.backends) s

unfoldable pub record_known : ℕ → ℕ → ℕ → Option BackendBandwidth → Scheduler → Scheduler
record_known id bytes now none s = s
record_known id bytes now (some bw) s = record s {
  backends =
      insert id (record bw { bytes_sent = bw.bytes_sent + bytes; last_active = now }) s.backends;
  total_bytes_sent = s.total_bytes_sent + bytes;
}

unfoldable pub record_sent : ℕ → ℕ → ℕ → Scheduler → Scheduler
unfolding record_known
record_sent id bytes now s =
    if s.total_bytes_per_second == 0 then s else record_known id bytes now (lookup id s.backends) s

-- The test of `checkIdleBackends` on one entry.
unfoldable pub is_idle : ℕ → BackendBandwidth → Bool
is_idle now bw = bw.is_active && ltb (bw.last_active + idle_threshold) now

-- The `Range` loop of `checkIdleBackends`.
unfoldable pub retire_idle : ℕ → ℤ → Map ℕ BackendBandwidth → ℤ × Map ℕ BackendBandwidth
unfolding is_idle
retire_idle now count [] = (count, [])
retire_idle now count ((id, bw) ∷ m) =
    let count' = (if is_idle now bw then count -ℤ pos 1 else count) in
    let bw' = (if is_idle now bw then record bw { is_active = false; deficit = 0 } else bw) in
    let (count'', m') = retire_idle now count' m in (count'', (id, bw') ∷ m')

unfoldable pub check_idle_backends : ℕ → Scheduler → Scheduler
unfolding retire_idle
check_idle_backends now s =
    let (count, m) = retire_idle now s.active_count s.backends in
    record s { active_count = count; backends = m }

unfoldable pub reset_metrics : ℕ → Scheduler → Scheduler
reset_metrics now s = record s { total_bytes_sent = 0; last_reset_time = now }
