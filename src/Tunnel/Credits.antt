-- ===== src/Tunnel/Credits.antt =====
-- internal/peer/tunnel.go: what a tunnel has sent, against the credits and the pauses.
use nexus_proxy_server.Common.{
  ℕ, zero, suc, ◌+◌, ◌≤◌, ◌≡◌, refl, sym, subst, ap, Bool, true, false, if◌then◌else◌, ltb, ◌==◌,
  nat_eq, Bytes, List, [], ◌∷◌, ◌||◌, min, arith, Bool-cases, inl, inr,
}
use nexus_proxy_server.Buffered.{default_credit_capacity}
use nexus_proxy_server.Tunnel.Sent.{
  told, data_sent, closes_sent, told-append, data_sent-append, closes_sent-append,
}
use nexus_proxy_server.Tunnel.Defs.{
  tunnel_data, tunnel_close, tunnel_pause, tunnel_resume, Writer, idle, waiting, ready,
  TunneledConn, begin_write, take_credit, stop_waiting, send_data, close, pause, resume,
  put_credits, add_credits, Event, begin_event, take_event, stop_event, send_event, close_event,
  pause_event, resume_event, credit_event, Step, begins, takes, stops, sends, closes, pauses,
  resumes, credits, Reach, start, next,
}

-- A write that has its credit and has not sent.
abbrev pub holding : Writer → ℕ
holding (ready b) = 1
holding _ = 0

-- Whether some call of `AddCredits` brought a credit.
abbrev pub credited : List Event → Bool
credited [] = false
credited (credit_event n ∷ es) = ltb 0 n || credited es
credited (_ ∷ es) = credited es

-- The credits that the calls of `AddCredits` bring, at most 64 each.
abbrev pub credits_called : List Event → ℕ
credits_called [] = 0
credits_called (credit_event n ∷ es) = min n default_credit_capacity + credits_called es
credits_called (_ ∷ es) = credits_called es

-- The calls of `Write` before the first credits.
abbrev pub early_writes : List Event → ℕ
early_writes [] = 0
early_writes (begin_event b ∷ es) = (if credited es then 0 else 1) + early_writes es
early_writes (_ ∷ es) = early_writes es

record IsTunnel (es : List Event) (t : TunneledConn) : Type 0 where
  heard : t.paused ≡ told false t.sent
  once : closes_sent t.sent ≤ (if t.closed then 1 else 0)
  gated : t.credit_active ≡ credited es
  paid :
      data_sent t.sent + (holding t.writer + t.send_credits) ≤ early_writes es + credits_called es
  room : t.send_credits ≤ default_credit_capacity

-- The loop of `AddCredits` only fills the channel, with at most one credit for each round.
put_credits_lem :
    (n : ℕ) (t : TunneledConn)
    → t.send_credits ≤ default_credit_capacity
    → (k : ℕ) × ((put_credits n t ≡ record t { send_credits = k })
        × (k ≤ t.send_credits + n)
        × (k ≤ default_credit_capacity))
unfolding put_credits
put_credits_lem zero t h = (t.send_credits, (refl, omega arith, h))
put_credits_lem (suc n) t h = elim (Bool-cases (ltb t.send_credits default_credit_capacity)) [
  | inr full ↦ rw full (let (k, (e, l, c)) = put_credits_lem n t h in (k, (e, omega (arith, l), c)))
  | inl space ↦ rw space (
      let (k, (e, l, c)) =
        put_credits_lem n (record t { send_credits = t.send_credits + 1 })
          (ground (arith, space)) in
      (k, (e, omega (arith, l), c)))
]

add_credits-IsTunnel :
    (n : ℕ) (es : List Event) (t : TunneledConn)
    → IsTunnel es t
    → IsTunnel (credit_event n ∷ es) (add_credits n t)
unfolding add_credits
add_credits-IsTunnel n es t h =
    let capped = if ltb default_credit_capacity n then default_credit_capacity else n in
    let active = record t { credit_active = true } in
    elim (Bool-cases (capped == 0)) [
      | inl none_there ↦
          subst (λ b. IsTunnel (credit_event n ∷ es) (if b then t else put_credits capped active))
            (sym none_there)
            (record {
              heard = h.heard;
              once = h.once;
              gated = ground (arith, h.gated, none_there);
              paid = omega (arith, h.paid);
              room = h.room;
            })
      | inr some_there ↦
          let (k, (e, l, c)) = put_credits_lem capped active h.room in
          subst (λ b. IsTunnel (credit_event n ∷ es) (if b then t else put_credits capped active))
            (sym some_there)
            (subst (IsTunnel (credit_event n ∷ es)) (sym e) (record {
              heard = h.heard;
              once = h.once;
              gated = ground (arith, some_there);
              paid = ground (arith, h.paid, l);
              room = c;
            }))
    ]

begin_write-IsTunnel :
    (b : Bytes) (es : List Event) (t : TunneledConn)
    → t.writer ≡ idle
    → IsTunnel es t
    → IsTunnel (begin_event b ∷ es) (begin_write b t)
unfolding begin_write
begin_write-IsTunnel b es t i h = record {
  heard = ground (arith, h.heard);
  once = ground (arith, h.once);
  gated = ground (arith, h.gated);
  paid = ground (arith, h.paid, ap holding i);
  room = ground (arith, h.room);
}

take_credit-IsTunnel :
    (b : Bytes) (es : List Event) (t : TunneledConn)
    → t.writer ≡ waiting b
    → IsTunnel es t
    → IsTunnel (take_event ∷ es) (take_credit b t)
unfolding take_credit
take_credit-IsTunnel b es t i h = record {
  heard = ground (arith, h.heard);
  once = ground (arith, h.once);
  gated = ground (arith, h.gated);
  paid = ground (arith, h.paid, ap holding i);
  room = ground (arith, h.room);
}

send_data-IsTunnel :
    (b : Bytes) (took : Bool) (es : List Event) (t : TunneledConn)
    → t.writer ≡ ready b
    → IsTunnel es t
    → IsTunnel (send_event took ∷ es) (send_data b took t)
unfolding send_data
send_data-IsTunnel b took es t i h = record {
  heard = ground (arith, h.heard, told-append false t.sent (tunnel_data b));
  once = ground (arith, h.once, closes_sent-append t.sent (tunnel_data b));
  gated = ground (arith, h.gated);
  paid = ground (arith, h.paid, ap holding i, data_sent-append t.sent (tunnel_data b));
  room = ground (arith, h.room);
}

close-IsTunnel :
    (took : Bool) (es : List Event) (t : TunneledConn)
    → IsTunnel es t
    → IsTunnel (close_event took ∷ es) (close took t)
unfolding close
close-IsTunnel took es t h = record {
  heard = ground (arith, h.heard, told-append false t.sent tunnel_close);
  once = ground (arith, h.once, closes_sent-append t.sent tunnel_close);
  gated = ground (arith, h.gated);
  paid = ground (arith, h.paid, data_sent-append t.sent tunnel_close);
  room = ground (arith, h.room);
}

pause-IsTunnel :
    (took : Bool) (es : List Event) (t : TunneledConn)
    → IsTunnel es t
    → IsTunnel (pause_event took ∷ es) (pause took t)
unfolding pause
pause-IsTunnel took es t h = record {
  heard = ground (arith, h.heard, told-append false t.sent tunnel_pause);
  once = ground (arith, h.once, closes_sent-append t.sent tunnel_pause);
  gated = ground (arith, h.gated);
  paid = ground (arith, h.paid, data_sent-append t.sent tunnel_pause);
  room = ground (arith, h.room);
}

resume-IsTunnel :
    (took : Bool) (es : List Event) (t : TunneledConn)
    → IsTunnel es t
    → IsTunnel (resume_event took ∷ es) (resume took t)
unfolding resume
resume-IsTunnel took es t h = record {
  heard = ground (arith, h.heard, told-append false t.sent tunnel_resume);
  once = ground (arith, h.once, closes_sent-append t.sent tunnel_resume);
  gated = ground (arith, h.gated);
  paid = ground (arith, h.paid, data_sent-append t.sent tunnel_resume);
  room = ground (arith, h.room);
}

stop_waiting-IsTunnel :
    (b : Bytes) (es : List Event) (t : TunneledConn)
    → t.writer ≡ waiting b
    → IsTunnel es t
    → IsTunnel (stop_event ∷ es) (stop_waiting t)
unfolding stop_waiting
stop_waiting-IsTunnel b es t i h = record {
  heard = ground (arith, h.heard);
  once = ground (arith, h.once);
  gated = ground (arith, h.gated);
  paid = ground (arith, h.paid, ap holding i);
  room = ground (arith, h.room);
}

Step-IsTunnel :
    {e : Event} {t u : TunneledConn} (es : List Event)
    → Step e t u
    → IsTunnel es t
    → IsTunnel (e ∷ es) u
Step-IsTunnel es (begins t b i) h = begin_write-IsTunnel b es t i h
Step-IsTunnel es (takes t b i) h = take_credit-IsTunnel b es t i h
Step-IsTunnel es (stops t b i) h = stop_waiting-IsTunnel b es t i h
Step-IsTunnel es (sends t b took i) h = send_data-IsTunnel b took es t i h
Step-IsTunnel es (closes t took) h = close-IsTunnel took es t h
Step-IsTunnel es (pauses t took) h = pause-IsTunnel took es t h
Step-IsTunnel es (resumes t took) h = resume-IsTunnel took es t h
Step-IsTunnel es (credits t n) h = add_credits-IsTunnel n es t h

Reach-IsTunnel : {es : List Event} {t : TunneledConn} → Reach es t → IsTunnel es t
Reach-IsTunnel start = record {
  heard = refl;
  once = omega arith;
  gated = refl;
  paid = omega arith;
  room = omega arith;
}
Reach-IsTunnel (next r s) = Step-IsTunnel _ s (Reach-IsTunnel r)

-- However calls and a writer interleave, and whichever messages the queue of the peer refuses: `paused`
-- is what the peer was last told; at most one close message was sent, and none before `Close`; the frames
-- sent and the credits left are together no more than the calls of `Write` before the first call of
-- `AddCredits` with a positive number, and the numbers of those calls, at most 64 of each; and at most 64
-- credits are left.
pub Reach-told :
    {es : List Event} {t : TunneledConn}
    → Reach es t
    → (t.paused ≡ told false t.sent)
      × (closes_sent t.sent ≤ (if t.closed then 1 else 0))
      × (data_sent t.sent + t.send_credits ≤ early_writes es + credits_called es)
      × (t.send_credits ≤ default_credit_capacity)
Reach-told r = let h = Reach-IsTunnel r in (h.heard, h.once, omega (arith, h.paid), h.room)
