-- ===== src/Buffered/Order.antt =====
-- internal/hub/buffered_conn.go: the frames reach the socket in the order of `Write`, and none is lost
-- or written twice.
use mathlib.Core.List.{append_assoc, append-nil}
use nexus_proxy_server.Common.{
  ℕ, ◌≤◌, ◌≡◌, refl, subst, if◌then◌else◌, sym, ap, ◌∙◌, Bool, true, false, ◌&&◌, ltb, leb, nat_eq,
  List, [], ◌∷◌, ◌++◌, Bytes, length, arith, Bool-cases, inl, inr, ◌⊎◌,
}
use nexus_proxy_server.Buffered.Defs.{
  BufferedConn, WriteResult, closed, Place, selecting, gated, writing, exited,
  client_write_buffer_size, credit_replenish_batch, new_buffered_conn, try_enqueue, write,
  try_replenish, take_frame, ask_gate, written_frame, counted_frame, write_frame, flush_remaining,
  flush, quit_gated, stop_writes, accepted, Step, writes, enqueues, stops, takes, asks, puts,
  retries, quits, quits_gated, Reach, start, next,
}

-- The frame that `drain` holds.
abbrev pub held : Place → List Bytes
held selecting = []
held (gated f) = f ∷ []
held (writing f) = f ∷ []
held exited = []

abbrev pub is_exited : Place → Bool
is_exited exited = true
is_exited _ = false

-- What is written, held and buffered, in this order.
abbrev pub all_frames : BufferedConn → List Bytes
all_frames b = b.written ++ (held b.place ++ b.write_ch)

try_replenish-frames :
    (now : ℕ) (took : Bool) (b : BufferedConn)
    → let c = try_replenish now took b in
      (c.written ≡ b.written) × (c.write_ch ≡ b.write_ch) × (c.place ≡ b.place)
unfolding try_replenish
try_replenish-frames now took b = ground arith

try_enqueue-frames :
    (frame : Bytes) (saw_quit : Bool) (b : BufferedConn)
    → let (c, result) = try_enqueue frame saw_quit b in
      (all_frames c ≡ all_frames b ++ accepted frame result) × (c.place ≡ b.place)
unfolding try_enqueue accepted
try_enqueue-frames frame saw_quit b = elim (Bool-cases (b.quit && saw_quit)) [
  | inl q ↦ rw q (sym (append-nil (all_frames b)), refl)
  | inr q ↦ elim (Bool-cases (ltb (length b.write_ch) client_write_buffer_size)) [
    | inl room ↦
        rw (q, room)
          (
            ap (λ xs. b.written ++ xs) (sym (append_assoc (held b.place) b.write_ch (frame ∷ [])))
                ∙ sym (append_assoc b.written (held b.place ++ b.write_ch) (frame ∷ [])),
            refl,
          )
    | inr full ↦ elim (Bool-cases b.quit) [
      | inl gone ↦ rw (q, full, gone) (sym (append-nil (all_frames b)), refl)
      | inr live ↦ rw (q, full, live) (sym (append-nil (all_frames b)), refl)
    ]
  ]
]

pub write_cases :
    (frame : Bytes) (b : BufferedConn) (P : BufferedConn × WriteResult → Type 0)
    → P (b, closed)
    → P (try_enqueue frame false b)
    → P (write frame b)
unfolding write
write_cases frame b P gone live = elim (Bool-cases b.quit) [
  | inl q ↦ subst (λ k. P (if k then (b, closed) else try_enqueue frame false b)) (sym q) gone
  | inr q ↦ subst (λ k. P (if k then (b, closed) else try_enqueue frame false b)) (sym q) live
]

write-frames :
    (frame : Bytes) (b : BufferedConn)
    → let (c, result) = write frame b in
      (all_frames c ≡ all_frames b ++ accepted frame result) × (c.place ≡ b.place)
unfolding accepted
write-frames frame b =
    write_cases frame b
      (λ w. (all_frames w.0 ≡ all_frames b ++ accepted frame w.1) × (w.0.place ≡ b.place))
      (sym (append-nil (all_frames b)), refl) (try_enqueue-frames frame false b)

take-frames :
    (fs : List Bytes) (b : BufferedConn)
    → fs ≡ b.write_ch
    → b.place ≡ selecting
    → all_frames (take_frame fs b) ≡ all_frames b
unfolding take_frame
take-frames [] b e p = refl
take-frames (f ∷ fs) b e p = elim (Bool-cases b.has_gate) [
  | inl g ↦ rw (g, p) (ap (λ xs. b.written ++ xs) e)
  | inr g ↦ rw (g, p) (ap (λ xs. b.written ++ xs) e)
]

all_frames_cong :
    (b c : BufferedConn)
    → c.written ≡ b.written
    → c.write_ch ≡ b.write_ch
    → c.place ≡ b.place
    → all_frames c ≡ all_frames b
all_frames_cong b c w ch p = cc (w, ch, p)

counted-frames :
    (f : Bytes) (now : ℕ) (b : BufferedConn)
    → b.place ≡ writing f
    → all_frames (counted_frame f now b) ≡ all_frames b
unfolding counted_frame
counted-frames f now b p =
    append_assoc b.written (f ∷ []) b.write_ch
    ∙ ap (λ place. b.written ++ (held place ++ b.write_ch)) (sym p)

written-frames :
    (f : Bytes) (now : ℕ) (took : Bool) (b : BufferedConn)
    → b.place ≡ writing f
    → all_frames (written_frame f now took b) ≡ all_frames b
unfolding written_frame
written-frames f now took b p =
    let c = counted_frame f now b in
    elim (Bool-cases (leb credit_replenish_batch c.consumed)) [
      | inl full ↦
          let (w, ch, place) = try_replenish-frames now took c in
          rw full
            (all_frames_cong c (try_replenish now took c) w ch place ∙ counted-frames f now b p)
      | inr short ↦ rw short (counted-frames f now b p)
    ]

asked-frames :
    (f : Bytes) (allowed : Bool) (b : BufferedConn)
    → b.place ≡ gated f
    → all_frames (ask_gate f allowed b) ≡ all_frames b
unfolding ask_gate
asked-frames f true b p = ap (λ place. b.written ++ (held place ++ b.write_ch)) (sym p)
asked-frames f false b p = refl

-- A step accepts its frame at the end of those that there are, or `drain` ends.
Step-frames :
    {b c : BufferedConn} {out : List Bytes}
    → Step b out c
    → (is_exited c.place ≡ true) ⊎ (all_frames c ≡ all_frames b ++ out)
unfolding write_frame flush quit_gated stop_writes
Step-frames (writes b frame) = inr (write-frames frame b).0
Step-frames (enqueues b frame saw_quit) = inr (try_enqueue-frames frame saw_quit b).0
Step-frames (stops b) = inr (sym (append-nil (all_frames b)))
Step-frames (takes b p) = inr (take-frames b.write_ch b refl p ∙ sym (append-nil (all_frames b)))
Step-frames (asks b f allowed p) =
    inr (asked-frames f allowed b p ∙ sym (append-nil (all_frames b)))
Step-frames (puts b f now true took p) =
    inr (written-frames f now took b p ∙ sym (append-nil (all_frames b)))
Step-frames (puts b f now false took p) = inl refl
Step-frames (retries b now took t w) =
    let (w', ch, place) = try_replenish-frames now took b in
    inr (all_frames_cong b (try_replenish now took b) w' ch place ∙ sym (append-nil (all_frames b)))
Step-frames (quits b oks q p) = inl refl
Step-frames (quits_gated b f true oks q p) = inl refl
Step-frames (quits_gated b f false oks q p) = inl refl

-- `drain` does not go on after its end.
pub exited_stays :
    {b c : BufferedConn} {out : List Bytes}
    → Step b out c
    → is_exited b.place ≡ true
    → is_exited c.place ≡ true
unfolding write_frame flush quit_gated stop_writes
exited_stays (writes b frame) h = ap is_exited (write-frames frame b).1 ∙ h
exited_stays (enqueues b frame saw_quit) h =
    ap is_exited (try_enqueue-frames frame saw_quit b).1 ∙ h
exited_stays (stops b) h = h
exited_stays (takes b p) h = absurd (ground (arith, h, ap is_exited p))
exited_stays (asks b f allowed p) h = absurd (ground (arith, h, ap is_exited p))
exited_stays (puts b f now ok took p) h = absurd (ground (arith, h, ap is_exited p))
exited_stays (retries b now took t w) h = ap is_exited (try_replenish-frames now took b).2 ∙ h
exited_stays (quits b oks q p) h = refl
exited_stays (quits_gated b f true oks q p) h = refl
exited_stays (quits_gated b f false oks q p) h = refl

-- While `drain` has not ended, the frames that were accepted are, in order, those written to the socket,
-- the one that `drain` holds, and those in the channel: none is lost, written twice or reordered.
pub Reach-frames :
    {has_gate has_replenish : Bool} {sent : List Bytes} {b : BufferedConn}
    → Reach has_gate has_replenish sent b
    → is_exited b.place ≡ false
    → sent ≡ b.written ++ (held b.place ++ b.write_ch)
unfolding new_buffered_conn
Reach-frames start h = refl
Reach-frames (next {sent = sent} {out = out} {b = b} {c = c} r s) h =
    elim (Bool-cases (is_exited b.place)) [
      | inl gone ↦ absurd (ground (arith, exited_stays s gone, h))
      | inr live ↦ elim (Step-frames s) [
        | inl gone ↦ absurd (ground (arith, gone, h))
        | inr same ↦ ap (λ xs. xs ++ out) (Reach-frames r live) ∙ sym same
      ]
    ]

-- Every write of a flush goes through.
abbrev pub all_ok : List Bool → Bool
all_ok [] = true
all_ok (ok ∷ oks) = ok && all_ok oks

flush_remaining-all_ok :
    (oks : List Bool) (frames written : List Bytes)
    → all_ok oks ≡ true
    → length frames ≤ length oks
    → (flush_remaining oks frames written).0 ≡ written ++ frames
unfolding flush_remaining
flush_remaining-all_ok oks [] written h l = sym (append-nil written)
flush_remaining-all_ok [] (f ∷ fs) written h l = absurd (omega arith)
flush_remaining-all_ok (true ∷ oks) (f ∷ fs) written h l =
    flush_remaining-all_ok oks fs (written ++ (f ∷ [])) h (omega arith)
    ∙ append_assoc written (f ∷ []) fs
flush_remaining-all_ok (false ∷ oks) (f ∷ fs) written h l = absurd (ground (arith, h))

-- If `drain` sees `quit` in its outer select and every write of the flush goes through, then the socket
-- has been given exactly the frames that were accepted, in order.
pub flush_complete :
    {has_gate has_replenish : Bool} {sent : List Bytes} {b : BufferedConn} (oks : List Bool)
    → Reach has_gate has_replenish sent b
    → b.place ≡ selecting
    → all_ok oks ≡ true
    → length b.write_ch ≤ length oks
    → (flush oks b).written ≡ sent
unfolding flush
flush_complete {b = b} oks r p h l =
    flush_remaining-all_ok oks b.write_ch b.written h l
    ∙ ap (λ place. b.written ++ (held place ++ b.write_ch)) (sym p)
    ∙ sym (Reach-frames r (ap is_exited p))
