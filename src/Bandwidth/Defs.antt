-- ===== src/Bandwidth/Defs.antt =====
-- internal/bandwidth/scheduler.go: the state of the scheduler and the replenishment of a backend.
use nexus_proxy_server.Common.{
  ℕ, ◌+◌, ◌-◌, ◌*◌, ◌/◌, ◌%◌, Bool, ltb, leb, ◌==◌, if◌then◌else◌, Map, min, nat_eq,
}
use nexus_proxy_server.Common.Int.{ℤ, pos_part}

-- `time.Second`, in nanoseconds.
abbrev pub second : ℕ
second = 1000000000

-- `schedulingInterval`, 10 ms.
abbrev pub scheduling_interval : ℕ
scheduling_interval = 10000000

-- `maxDeficitMultiplier`, 2.0 in the source.
abbrev pub max_deficit_multiplier : ℕ
max_deficit_multiplier = 2

-- `idleThreshold`, one second.
abbrev pub idle_threshold : ℕ
idle_threshold = 1000000000

-- `minDeficitCap`, 128 KiB.
abbrev pub min_deficit_cap : ℕ
min_deficit_cap = 131072

pub record BackendBandwidth : Type 0 where
  pub deficit : ℕ
  pub bytes_sent : ℕ
  pub last_active : ℕ
  pub is_active : Bool

-- `activeCount` is a signed counter of the source, so it is an integer here.
pub record Scheduler : Type 0 where
  pub total_bytes_per_second : ℕ
  pub backends : Map ℕ BackendBandwidth
  pub active_count : ℤ
  pub ref_counts : Map ℕ ℕ
  pub total_bytes_sent : ℕ
  pub last_reset_time : ℕ

-- The two guards `if activeCount <= 0 { activeCount = 1 }` and `if bytesPerSecond <= 0`.
unfoldable pub fair_share : ℕ → ℤ → ℕ
fair_share total count =
    let active = (if ltb 0 (pos_part count) then pos_part count else 1) in
    let share = total / active in if share == 0 then 1 else share

-- The cap on the deficit: twice what one scheduling interval brings, and at least 128 KiB. The
-- source computes the product in floating point.
unfoldable pub max_deficit : ℕ → ℕ
max_deficit share =
    let cap = share * max_deficit_multiplier * scheduling_interval / second in
    if ltb cap min_deficit_cap then min_deficit_cap else cap

-- `bytesToAdd` before it is clamped: whole seconds first, then the fraction.
unfoldable pub bytes_to_add : ℕ → ℕ → ℕ
bytes_to_add share elapsed = share * (elapsed / second) + share * (elapsed % second) / second

-- `replenishDeficit`, for the limit and the number of active backends that it reads.
unfoldable pub replenish_deficit : ℕ → ℤ → ℕ → BackendBandwidth → BackendBandwidth
replenish_deficit total count now bw =
    if bw.last_active == 0
    then record bw { last_active = now }
    else if leb now bw.last_active
    then bw
    else let share = fair_share total count in
      let cap = max_deficit share in
      let added = min (bytes_to_add share (now - bw.last_active)) cap in
      record bw { last_active = now; deficit = min (bw.deficit + added) cap }
