-- ===== src/Buffered/Defs.antt =====
-- internal/hub/buffered_conn.go: the state of `bufferedConn` with that of its `drain` goroutine, and each
-- step of `drain` between two waits. What the socket, the gate and `onReplenish` answer is an
-- argument; logs and the observer of gate waits are left out. Times are in nanoseconds.
use nexus_proxy_server.Common.{
  ℕ, ◌+◌, ◌-◌, ◌*◌, ◌≡◌, Bool, true, false, not, ◌&&◌, ◌||◌, if◌then◌else◌, ltb, leb, ◌==◌, nat_eq,
  List, [], ◌∷◌, ◌++◌, Bytes, Option, none, some, length,
}

-- `DefaultCreditCapacity` and `CreditReplenishBatch` of protocol/protocol.go.
abbrev pub default_credit_capacity : ℕ
default_credit_capacity = 64

abbrev pub credit_replenish_batch : ℕ
credit_replenish_batch = 8

-- `clientWriteBufferSize`.
abbrev pub client_write_buffer_size : ℕ
client_write_buffer_size = 2 * default_credit_capacity

-- `minReplenishRetryBackoff`, 25 ms.
abbrev pub min_replenish_retry_backoff : ℕ
min_replenish_retry_backoff = 25000000

-- Where `drain` stands: in its outer select, in the gate's loop with a frame, before the write of a
-- frame that the gate let through, or at its end.
pub data Place : Type 0 where
  selecting : Place
  gated : Bytes → Place
  writing : Bytes → Place
  exited : Place

-- `written` holds what the socket took, `recorded` the bytes told to the gate, `replenished` the credits
-- that `onReplenish` took; `timer` says whether `replenishTimerCh` is a channel.
pub record BufferedConn : Type 0 where
  pub has_gate : Bool
  pub has_replenish : Bool
  pub write_ch : List Bytes
  pub quit : Bool
  pub place : Place
  pub consumed : ℕ
  pub last_attempt : Option ℕ
  pub timer : Bool
  pub conn_closed : Bool
  pub last_write_at : ℕ
  pub written : List Bytes
  pub recorded : ℕ
  pub replenished : ℕ

-- `newBufferedConn`.
unfoldable pub new_buffered_conn : Bool → Bool → BufferedConn
new_buffered_conn has_gate has_replenish = record {
  has_gate = has_gate;
  has_replenish = has_replenish;
  write_ch = [];
  quit = false;
  place = selecting;
  consumed = 0;
  last_attempt = none;
  timer = false;
  conn_closed = false;
  last_write_at = 0;
  written = [];
  recorded = 0;
  replenished = 0;
}

-- What `Write` returns.
pub data WriteResult : Type 0 where
  enqueued : WriteResult
  closed : WriteResult
  buffer_full : WriteResult

-- The second select of `Write`; `saw_quit` says whether it picks `quit` when both are ready.
unfoldable pub try_enqueue : Bytes → Bool → BufferedConn → BufferedConn × WriteResult
try_enqueue frame saw_quit b =
    if b.quit && saw_quit
    then (b, closed)
    else if ltb (length b.write_ch) client_write_buffer_size
    then (record b { write_ch = b.write_ch ++ (frame ∷ []) }, enqueued)
    else if b.quit
    then (b, closed)
    else (b, buffer_full)

-- `Write` with nothing between its two selects.
unfoldable pub write : Bytes → BufferedConn → BufferedConn × WriteResult
unfolding try_enqueue
write frame b = if b.quit then (b, closed) else try_enqueue frame false b

-- Whether the backoff after an attempt is still running.
unfoldable pub in_backoff : ℕ → Option ℕ → Bool
in_backoff now none = false
in_backoff now (some last) = ltb (now - last) min_replenish_retry_backoff

-- `tryReplenish`, where `took` says whether `onReplenish` succeeds.
unfoldable pub try_replenish : ℕ → Bool → BufferedConn → BufferedConn
unfolding in_backoff
try_replenish now took b =
    if not b.has_replenish || b.consumed == 0
    then record b { timer = false }
    else if in_backoff now b.last_attempt
    then record b { timer = true }
    else if took
    then record b {
      replenished = b.replenished + b.consumed;
      consumed = 0;
      last_attempt = none;
      timer = false;
    }
    else record b { last_attempt = some now; timer = true }

-- The outer select takes a frame.
unfoldable pub take_frame : List Bytes → BufferedConn → BufferedConn
take_frame [] b = b
take_frame (f ∷ fs) b = record b {
  write_ch = fs;
  place = if b.has_gate then gated f else writing f;
}

-- A round of the gate's loop.
unfoldable pub ask_gate : Bytes → Bool → BufferedConn → BufferedConn
ask_gate f allowed b = if allowed then record b { place = writing f } else b

unfoldable pub record_bytes : Bytes → BufferedConn → ℕ
record_bytes f b = if b.has_gate then b.recorded + length f else b.recorded

-- A write that goes through: it is recorded, and counted towards the next credits.
unfoldable pub counted_frame : Bytes → ℕ → BufferedConn → BufferedConn
unfolding record_bytes
counted_frame f now b = record b {
  recorded = record_bytes f b;
  written = b.written ++ (f ∷ []);
  last_write_at = now;
  consumed = b.consumed + 1;
  place = selecting;
}

-- A full batch is handed out at once.
unfoldable pub written_frame : Bytes → ℕ → Bool → BufferedConn → BufferedConn
unfolding try_replenish counted_frame
written_frame f now took b =
    let c = counted_frame f now b in
    if leb credit_replenish_batch c.consumed then try_replenish now took c else c

-- The write of a frame and what follows it.
unfoldable pub write_frame : Bytes → ℕ → Bool → Bool → BufferedConn → BufferedConn
unfolding written_frame record_bytes
write_frame f now ok took b =
    if ok
    then written_frame f now took b
    else record b { recorded = record_bytes f b; quit = true; conn_closed = true; place = exited }

-- `flushRemaining`: what the socket takes of the frames, and what stays in the channel. `oks` holds what
-- the writes return; a write for which it holds nothing fails.
unfoldable pub flush_remaining : List Bool → List Bytes → List Bytes → List Bytes × List Bytes
flush_remaining oks [] written = (written, [])
flush_remaining [] (f ∷ fs) written = (written, fs)
flush_remaining (ok ∷ oks) (f ∷ fs) written =
    if ok then flush_remaining oks fs (written ++ (f ∷ [])) else (written, fs)

unfoldable pub flush : List Bool → BufferedConn → BufferedConn
unfolding flush_remaining
flush oks b =
    let (written, left) = flush_remaining oks b.write_ch b.written in
    record b { written = written; write_ch = left; place = exited }

-- `quit` is seen in the gate's loop: a best-effort write of the frame, then the flush.
unfoldable pub quit_gated : Bytes → Bool → List Bool → BufferedConn → BufferedConn
unfolding flush
quit_gated f ok oks b = flush oks (if ok then record b { written = b.written ++ (f ∷ []) } else b)

-- `StopWrites` without its wait.
unfoldable pub stop_writes : BufferedConn → BufferedConn
stop_writes b = record b { quit = true }

-- `Close`, once `drain` has ended.
unfoldable pub close : BufferedConn → BufferedConn
unfolding stop_writes
close b = record (stop_writes b) { conn_closed = true }

-- `HasRecentWrite`.
unfoldable pub has_recent_write : ℕ → BufferedConn → Bool
has_recent_write since b = ltb 0 b.last_write_at && ltb since b.last_write_at

-- `Depth`.
unfoldable pub depth : BufferedConn → ℕ
depth b = length b.write_ch

-- The frame that `Write` takes over.
unfoldable pub accepted : Bytes → WriteResult → List Bytes
accepted frame enqueued = frame ∷ []
accepted frame closed = []
accepted frame buffer_full = []

-- One of the two selects of `drain` that a timer can wake.
abbrev pub is_waiting : Place → Bool
is_waiting selecting = true
is_waiting (gated f) = true
is_waiting _ = false

-- A call from outside, or `drain` going on from a channel that is ready; the list holds the frame that
-- the step accepts. `enqueues` is a `Write` whose first select came before other steps.
pub data Step : BufferedConn → List Bytes → BufferedConn → Type 0 where
  writes :
      (b : BufferedConn) (frame : Bytes)
      → Step b (accepted frame (write frame b).1) (write frame b).0
  enqueues :
      (b : BufferedConn) (frame : Bytes) (saw_quit : Bool)
      → Step b (accepted frame (try_enqueue frame saw_quit b).1) (try_enqueue frame saw_quit b).0
  stops : (b : BufferedConn) → Step b [] (stop_writes b)
  takes : (b : BufferedConn) → b.place ≡ selecting → Step b [] (take_frame b.write_ch b)
  asks :
      (b : BufferedConn) (f : Bytes) (allowed : Bool)
      → b.place ≡ gated f
      → Step b [] (ask_gate f allowed b)
  puts :
      (b : BufferedConn) (f : Bytes) (now : ℕ) (ok took : Bool)
      → b.place ≡ writing f
      → Step b [] (write_frame f now ok took b)
  retries :
      (b : BufferedConn) (now : ℕ) (took : Bool)
      → b.timer ≡ true
      → is_waiting b.place ≡ true
      → Step b [] (try_replenish now took b)
  quits :
      (b : BufferedConn) (oks : List Bool)
      → b.quit ≡ true
      → b.place ≡ selecting
      → Step b [] (flush oks b)
  quits_gated :
      (b : BufferedConn) (f : Bytes) (ok : Bool) (oks : List Bool)
      → b.quit ≡ true
      → b.place ≡ gated f
      → Step b [] (quit_gated f ok oks b)

-- The states that a new connection comes to, with the frames that it has accepted, in order.
pub data Reach (has_gate has_replenish : Bool) : List Bytes → BufferedConn → Type 0 where
  start : Reach has_gate has_replenish [] (new_buffered_conn has_gate has_replenish)
  next :
      {sent out : List Bytes} {b c : BufferedConn}
      → Reach has_gate has_replenish sent b
      → Step b out c
      → Reach has_gate has_replenish (sent ++ out) c
