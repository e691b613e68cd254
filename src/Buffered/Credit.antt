-- ===== src/Buffered/Credit.antt =====
-- internal/hub/buffered_conn.go: the credits that `drain` hands out, and the bound of the channel.
use nexus_proxy_server.Common.{
  ℕ, ◌+◌, ◌≤◌, ◌<◌, ◌≡◌, refl, ap, Bool, true, false, leb, nat_eq, List, [], ◌∷◌, Bytes, length,
  length-append, arith, Bool-cases, inl, inr, ◌⊎◌,
}
use nexus_proxy_server.Buffered.Defs.{
  BufferedConn, client_write_buffer_size, credit_replenish_batch, new_buffered_conn, try_enqueue,
  write, try_replenish, take_frame, ask_gate, counted_frame, written_frame, write_frame, flush,
  quit_gated, stop_writes, Step, writes, enqueues, stops, takes, asks, puts, retries, quits,
  quits_gated, Reach, start, next,
}
use nexus_proxy_server.Buffered.Order.{write_cases, is_exited, exited_stays}

-- Every written frame is counted once, as consumed or as a credit handed out; a full batch that is not
-- handed out has the timer armed; the channel keeps its bound.
record IsPaid (b : BufferedConn) : Type 0 where
  replenishing : b.has_replenish ≡ true
  paid : b.consumed + b.replenished ≡ length b.written
  pending : (b.consumed < credit_replenish_batch) ⊎ (b.timer ≡ true)
  room : length b.write_ch ≤ client_write_buffer_size

try_replenish-IsPaid :
    (now : ℕ) (took : Bool) (b : BufferedConn)
    → b.has_replenish ≡ true
    → b.consumed + b.replenished ≡ length b.written
    → length b.write_ch ≤ client_write_buffer_size
    → IsPaid (try_replenish now took b)
unfolding try_replenish
try_replenish-IsPaid now took b h s r = record {
  replenishing = ground arith;
  paid = ground arith;
  pending = ground arith;
  room = ground arith;
}

written_frame-IsPaid :
    (f : Bytes) (now : ℕ) (took : Bool) (b : BufferedConn)
    → IsPaid b
    → IsPaid (written_frame f now took b)
unfolding written_frame counted_frame
written_frame-IsPaid f now took b h =
    let c = counted_frame f now b in
    let paid : c.consumed + c.replenished ≡ length c.written =
      omega (arith, h.paid, length-append b.written (f ∷ [])) in
    elim (Bool-cases (leb credit_replenish_batch c.consumed)) [
      | inl full ↦ rw full (try_replenish-IsPaid now took c h.replenishing paid h.room)
      | inr short ↦ rw short (record {
        replenishing = h.replenishing;
        paid = paid;
        pending = inl (ground (arith, short));
        room = h.room;
      })
    ]

take_frame-IsPaid :
    (fs : List Bytes) (b : BufferedConn) → fs ≡ b.write_ch → IsPaid b → IsPaid (take_frame fs b)
unfolding take_frame
take_frame-IsPaid [] b e h = h
take_frame-IsPaid (f ∷ fs) b e h = record {
  replenishing = h.replenishing;
  paid = h.paid;
  pending = h.pending;
  room = omega (arith, h.room, ap length e);
}

try_enqueue-IsPaid :
    (frame : Bytes) (saw_quit : Bool) (b : BufferedConn)
    → IsPaid b
    → IsPaid (try_enqueue frame saw_quit b).0
unfolding try_enqueue
try_enqueue-IsPaid frame saw_quit b h = record {
  replenishing = ground (arith, h.replenishing);
  paid = ground (arith, h.paid);
  pending = ground (arith, h.pending);
  room = ground (arith, h.room, length-append b.write_ch (frame ∷ []));
}

write-IsPaid : (frame : Bytes) (b : BufferedConn) → IsPaid b → IsPaid (write frame b).0
write-IsPaid frame b h =
    write_cases frame b (λ w. IsPaid w.0) h (try_enqueue-IsPaid frame false b h)

Step-IsPaid :
    {b c : BufferedConn} {out : List Bytes}
    → Step b out c
    → IsPaid b
    → (is_exited c.place ≡ true) ⊎ IsPaid c
unfolding stop_writes ask_gate write_frame flush quit_gated
Step-IsPaid (writes b frame) h = inr (write-IsPaid frame b h)
Step-IsPaid (enqueues b frame saw_quit) h = inr (try_enqueue-IsPaid frame saw_quit b h)
Step-IsPaid (stops b) h =
    inr
      (record { replenishing = h.replenishing; paid = h.paid; pending = h.pending; room = h.room })
Step-IsPaid (takes b p) h = inr (take_frame-IsPaid b.write_ch b refl h)
Step-IsPaid (asks b f true p) h =
    inr
      (record { replenishing = h.replenishing; paid = h.paid; pending = h.pending; room = h.room })
Step-IsPaid (asks b f false p) h = inr h
Step-IsPaid (puts b f now true took p) h = inr (written_frame-IsPaid f now took b h)
Step-IsPaid (puts b f now false took p) h = inl refl
Step-IsPaid (retries b now took t w) h =
    inr (try_replenish-IsPaid now took b h.replenishing h.paid h.room)
Step-IsPaid (quits b oks q p) h = inl refl
Step-IsPaid (quits_gated b f true oks q p) h = inl refl
Step-IsPaid (quits_gated b f false oks q p) h = inl refl

Reach-IsPaid :
    {has_gate : Bool} {sent : List Bytes} {b : BufferedConn}
    → Reach has_gate true sent b
    → is_exited b.place ≡ false
    → IsPaid b
unfolding new_buffered_conn
Reach-IsPaid start h = record {
  replenishing = refl;
  paid = refl;
  pending = inl (omega arith);
  room = omega arith;
}
Reach-IsPaid (next {b = b} r s) h = elim (Bool-cases (is_exited b.place)) [
  | inl gone ↦ absurd (ground (arith, exited_stays s gone, h))
  | inr live ↦ elim (Step-IsPaid s (Reach-IsPaid r live)) [
    | inl gone ↦ absurd (ground (arith, gone, h))
    | inr paid ↦ paid
  ]
]

-- While `drain` of a connection with `onReplenish` has not ended, every frame that it wrote is counted
-- once, as consumed or as a credit handed out; a full batch of consumed frames has the retry timer armed,
-- however often handing it out has failed; and the channel holds at most 128 frames.
pub credits_kept :
    {has_gate : Bool} {sent : List Bytes} {b : BufferedConn}
    → Reach has_gate true sent b
    → is_exited b.place ≡ false
    → (b.consumed + b.replenished ≡ length b.written)
      × ((b.consumed < credit_replenish_batch) ⊎ (b.timer ≡ true))
      × (length b.write_ch ≤ client_write_buffer_size)
credits_kept r h = let p = Reach-IsPaid r h in (p.paid, p.pending, p.room)
