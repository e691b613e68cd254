-- ===== src/Tunnel/Defs.antt =====
-- internal/peer/tunnel.go: `TunneledConn`. The messages that the queue of the peer took are kept in
-- `sent`; whether it takes one is an argument. One goroutine writes.
use nexus_proxy_server.Common.{
  ℕ, zero, suc, ◌+◌, ◌-◌, ◌≡◌, Bool, true, false, not, ◌||◌, if◌then◌else◌, ltb, ◌==◌, nat_eq,
  Bytes, List, [], ◌∷◌, ◌++◌,
}
use nexus_proxy_server.Buffered.{default_credit_capacity}

-- The messages that a tunnel sends to its peer, each with the client's identifier on the wire.
pub data Message : Type 0 where
  tunnel_data : Bytes → Message
  tunnel_close : Message
  tunnel_pause : Message
  tunnel_resume : Message

-- Where `Write` stands: not called, at the wait for a credit, or before the send.
pub data Writer : Type 0 where
  idle : Writer
  waiting : Bytes → Writer
  ready : Bytes → Writer

pub record TunneledConn : Type 0 where
  pub paused : Bool
  pub closed : Bool
  pub credit_active : Bool
  pub send_credits : ℕ
  pub writer : Writer
  pub sent : List Message

-- `NewTunneledConn`.
abbrev pub new_tunneled_conn : TunneledConn
new_tunneled_conn = record {
  paused = false;
  closed = false;
  credit_active = false;
  send_credits = 0;
  writer = idle;
  sent = [];
}

-- `Write` up to its wait or its send; a closed tunnel refuses.
unfoldable pub begin_write : Bytes → TunneledConn → TunneledConn
begin_write b t =
    if t.closed
    then t
    else if t.credit_active
    then record t { writer = waiting b }
    else record t { writer = ready b }

-- The select of `Write`: a credit is there, or the tunnel was closed.
unfoldable pub take_credit : Bytes → TunneledConn → TunneledConn
take_credit b t =
    if ltb 0 t.send_credits
    then record t { send_credits = t.send_credits - 1; writer = ready b }
    else t

unfoldable pub stop_waiting : TunneledConn → TunneledConn
stop_waiting t = if t.closed then record t { writer = idle } else t

-- The send of `Write`.
unfoldable pub send_data : Bytes → Bool → TunneledConn → TunneledConn
send_data b took t =
    if took
    then record t { writer = idle; sent = t.sent ++ (tunnel_data b ∷ []) }
    else record t { writer = idle }

-- `Close`.
unfoldable pub close : Bool → TunneledConn → TunneledConn
close took t =
    if t.closed
    then t
    else if took
    then record t { closed = true; sent = t.sent ++ (tunnel_close ∷ []) }
    else record t { closed = true }

-- `Pause`.
unfoldable pub pause : Bool → TunneledConn → TunneledConn
pause took t =
    if t.closed || t.paused
    then t
    else if took
    then record t { paused = true; sent = t.sent ++ (tunnel_pause ∷ []) }
    else t

-- `Resume`.
unfoldable pub resume : Bool → TunneledConn → TunneledConn
resume took t =
    if t.closed || not t.paused
    then t
    else if took
    then record t { paused = false; sent = t.sent ++ (tunnel_resume ∷ []) }
    else t

-- The loop of `AddCredits`, which drops what the channel has no room for.
unfoldable pub put_credits : ℕ → TunneledConn → TunneledConn
put_credits zero t = t
put_credits (suc n) t = put_credits n (
    if ltb t.send_credits default_credit_capacity
    then record t { send_credits = t.send_credits + 1 }
    else t)

-- `AddCredits`; 0 stands for every number that is not positive.
unfoldable pub add_credits : ℕ → TunneledConn → TunneledConn
unfolding put_credits
add_credits credits t =
    let capped = if ltb default_credit_capacity credits then default_credit_capacity else credits in
    if capped == 0 then t else put_credits capped (record t { credit_active = true })

-- A call with its arguments, or `Write` going on.
pub data Event : Type 0 where
  begin_event : Bytes → Event
  take_event : Event
  stop_event : Event
  send_event : Bool → Event
  close_event : Bool → Event
  pause_event : Bool → Event
  resume_event : Bool → Event
  credit_event : ℕ → Event

pub data Step : Event → TunneledConn → TunneledConn → Type 0 where
  begins :
      (t : TunneledConn) (b : Bytes) → t.writer ≡ idle → Step (begin_event b) t (begin_write b t)
  takes :
      (t : TunneledConn) (b : Bytes) → t.writer ≡ waiting b → Step take_event t (take_credit b t)
  stops : (t : TunneledConn) (b : Bytes) → t.writer ≡ waiting b → Step stop_event t (stop_waiting t)
  sends :
      (t : TunneledConn) (b : Bytes) (took : Bool)
      → t.writer ≡ ready b
      → Step (send_event took) t (send_data b took t)
  closes : (t : TunneledConn) (took : Bool) → Step (close_event took) t (close took t)
  pauses : (t : TunneledConn) (took : Bool) → Step (pause_event took) t (pause took t)
  resumes : (t : TunneledConn) (took : Bool) → Step (resume_event took) t (resume took t)
  credits : (t : TunneledConn) (n : ℕ) → Step (credit_event n) t (add_credits n t)

-- The runs of a new tunnel, with their events, the last one first.
pub data Reach : List Event → TunneledConn → Type 0 where
  start : Reach [] new_tunneled_conn
  next :
      {es : List Event} {t : TunneledConn} {e : Event} {u : TunneledConn}
      → Reach es t
      → Step e t u
      → Reach (e ∷ es) u
