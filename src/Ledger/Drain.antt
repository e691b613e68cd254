-- ===== src/Ledger/Drain.antt =====
-- client/client.go: `drainConnectionQueue` on the ledger and the length of the outbound queue, and
-- `clampReverseCredits`. No other goroutine acts during a drain. The returns for a client without a
-- queue or without its connection, which leave the ledger as it is, are left out.
use nexus_proxy_server.Common.{
  ℕ, zero, suc, ◌+◌, ◌-◌, Bool, true, false, ltb, leb, if◌then◌else◌, not, ◌==◌, ◌&&◌, nat_eq,
}
use nexus_proxy_server.Ledger.Defs.{Ledger, try_acquire, release, drain_yielded}

-- `maxReverseCreditCapacity`, 1 << 20.
abbrev pub max_reverse_credit_capacity : ℕ
max_reverse_credit_capacity = 1048576

unfoldable pub clamp_reverse_credits : ℕ → ℕ
clamp_reverse_credits credits =
    if leb credits max_reverse_credit_capacity then credits else max_reverse_credit_capacity

-- What a drain leaves: the ledger, the frames still queued, the frames that were written, whether a
-- write failed, and whether `closeOnDrained` was called.
pub record Drained : Type 0 where
  pub ledger : Ledger
  pub queued : ℕ
  pub written : ℕ
  pub failed : Bool
  pub drained : Bool

abbrev pub leave : Ledger → ℕ → ℕ → Bool → Drained
leave l queued written failed = record {
  ledger = l;
  queued = queued;
  written = written;
  failed = failed;
  drained = false;
}

-- The loop over at most `maxMessages` frames. `write_ok` says whether the write of each frame of
-- this drain goes through, by the number of frames written before it.
unfoldable pub drain_loop : (ℕ → Bool) → ℕ → Ledger → ℕ → ℕ → Drained
drain_loop write_ok zero l queued written =
    leave (drain_yielded (ltb 0 queued) l) queued written false
drain_loop write_ok (suc n) l queued written =
    let (l', got) = try_acquire l in
    let more = drain_loop write_ok n l' (queued - 1) (written + 1) in
    if not got
    then leave (drain_yielded (ltb 0 queued) l') queued written false
    else if queued == 0
    then leave (drain_yielded (ltb 0 queued) (release l')) queued written false
    else if not (write_ok written)
    then leave (release l') (queued - 1) written true
    else more

-- The whole call: in teardown, an empty queue is reported as drained.
unfoldable pub drain_connection_queue : (ℕ → Bool) → Bool → ℕ → Ledger → ℕ → Drained
unfolding drain_loop
drain_connection_queue write_ok closing max_messages l queued =
    let d = drain_loop write_ok max_messages l queued 0 in
    record d { drained = closing && d.queued == 0 }
