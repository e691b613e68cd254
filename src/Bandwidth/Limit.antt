-- ===== src/Bandwidth/Limit.antt =====
-- internal/bandwidth/scheduler.go: what a backend is granted over a run of the scheduler, against
-- the configured limit.
use nexus_proxy_server.Common.{
  ℕ, ◌+◌, ◌-◌, ◌*◌, ◌≤◌, ◌≡◌, ◌≢◌, refl, ◌∙◌, true, false, if◌then◌else◌, Map, [], ◌∷◌, List,
  Option, none, some, lookup, nat_eq, arith, ap, leb, ◌==◌, ◌&&◌, lookup-insert, nat_beq,
}
use native.Mathlib.Nat.{zero-add}
use native.Mathlib.Decide.{ℕ_discrete}
use nexus_proxy_server.Common.Int.{ℤ, pos, ◌-ℤ◌}
use nexus_proxy_server.Bandwidth.Defs.{BackendBandwidth, Scheduler, second, replenish_deficit}
use nexus_proxy_server.Bandwidth.Ops.{
  mark_active, reserve, request_known, request_send, record_known, record_sent, is_idle,
  retire_idle, check_idle_backends, reset_metrics,
}
use nexus_proxy_server.Bandwidth.Count.{Op, request_op, sent_op, idle_op, reset_op, step}
use nexus_proxy_server.Bandwidth.Budget.{
  request_send-known, replenish_deficit-budget, mark_active_limit,
}

-- The calls of a run that only sends: their clocks do not go back, from `lo` up to `hi`.
abbrev pub Paced : ℕ → ℕ → List Op → Type 0
Paced lo hi [] = lo ≤ hi
Paced lo hi (request_op id bytes now ∷ ops) = (lo ≤ now) × Paced now hi ops
Paced lo hi (sent_op id bytes now ∷ ops) = (lo ≤ now) × Paced now hi ops
Paced lo hi (idle_op now ∷ ops) = (lo ≤ now) × Paced now hi ops
Paced lo hi (reset_op now ∷ ops) = (lo ≤ now) × Paced now hi ops
Paced lo hi (_ ∷ ops) = ⊥

-- The bytes that a call grants to the backend `id`.
unfoldable pub granted : ℕ → Op → Scheduler → ℕ
granted id (request_op j bytes now) s =
    if (j == id) && (request_send j bytes now s).1 then bytes else 0
granted id _ s = 0

unfoldable pub run : List Op → Scheduler → Scheduler
run [] s = s
run (op ∷ ops) s = run ops (step op s)

unfoldable pub total_granted : ℕ → List Op → Scheduler → ℕ
total_granted id [] s = 0
total_granted id (op ∷ ops) s = granted id op s + total_granted id ops (step op s)

-- From `s`, where the entry of `id` is `bw`, a call at `now` leads to `t` and grants `bytes`.
record Paid (id limit now bytes : ℕ) (bw : BackendBandwidth) (t : Scheduler) : Type 0 where
  entry : BackendBandwidth
  found : lookup id t.backends ≡ some entry
  same_limit : t.total_bytes_per_second ≡ limit
  forward : bw.last_active ≤ entry.last_active
  in_time : entry.last_active ≤ now
  paid :
      (bytes + entry.deficit) * second + limit * bw.last_active
      ≤ bw.deficit * second + limit * entry.last_active

lookup-retire_idle :
    (id now : ℕ) (count : ℤ) (m : Map ℕ BackendBandwidth) (bw : BackendBandwidth)
    → lookup id m ≡ some bw
    → lookup id (retire_idle now count m).1
      ≡ some (if is_idle now bw then record bw { is_active = false; deficit = 0 } else bw)
unfolding lookup retire_idle
lookup-retire_idle id now count [] bw h = cc
lookup-retire_idle id now count ((j, w) ∷ m) bw h =
    ground (arith, lookup-retire_idle id now (if is_idle now w then count -ℤ pos 1 else count) m bw)

lookup-mark_active_ne :
    (id j : ℕ) (bw : BackendBandwidth) (s : Scheduler)
    → j ≢ id
    → lookup id (mark_active j bw s).backends ≡ lookup id s.backends
unfolding mark_active
lookup-mark_active_ne id j bw s h =
    ground (arith, lookup-insert j id (record bw { is_active = true }) s.backends)

reserve_entry :
    (id j bytes : ℕ) (bw : BackendBandwidth) (t : Scheduler)
    → lookup id (reserve j bytes bw t).0.backends ≡ (
        if j == id
        then some (if leb bytes bw.deficit then record bw { deficit = bw.deficit - bytes } else bw)
        else lookup id t.backends)
unfolding reserve
reserve_entry id j bytes bw t = ground (
  arith,
  lookup-insert j id bw t.backends,
  lookup-insert j id (record bw { deficit = bw.deficit - bytes }) t.backends,
)

reserve_limit :
    (j bytes : ℕ) (bw : BackendBandwidth) (t : Scheduler)
    → (reserve j bytes bw t).0.total_bytes_per_second ≡ t.total_bytes_per_second
unfolding reserve
reserve_limit j bytes bw t = ground arith

nat_beq_refl : (a : ℕ) → nat_beq a a ≡ true
nat_beq_refl a = ground arith

nat_beq_ne : (a b : ℕ) → a ≢ b → nat_beq a b ≡ false
nat_beq_ne a b h = ground arith

unchanged-Paid :
    (id limit now : ℕ) (bw : BackendBandwidth) (t : Scheduler)
    → lookup id t.backends ≡ some bw
    → t.total_bytes_per_second ≡ limit
    → bw.last_active ≤ now
    → Paid id limit now 0 bw t
unchanged-Paid id limit now bw t e l h = record {
  entry = bw;
  found = e;
  same_limit = l;
  forward = omega arith;
  in_time = h;
  paid = omega arith;
}

-- The bytes that `reserve` takes from an entry are those that it grants.
reserve_pays :
    (id bytes : ℕ) (bw : BackendBandwidth) (t : Scheduler)
    → (entry : BackendBandwidth) × (lookup id (reserve id bytes bw t).0.backends ≡ some entry)
      × ((reserve id bytes bw t).0.total_bytes_per_second ≡ t.total_bytes_per_second)
      × (entry.last_active ≡ bw.last_active)
      × ((if (reserve id bytes bw t).1 then bytes else 0) + entry.deficit ≡ bw.deficit)
unfolding reserve
reserve_pays id bytes bw t = (
  (if leb bytes bw.deficit then record bw { deficit = bw.deficit - bytes } else bw),
  ground (arith, reserve_entry id id bytes bw t),
  ground arith,
  ground arith,
  ground arith,
)

request_send-Paid :
    (id bytes now : ℕ) (bw : BackendBandwidth) (s : Scheduler)
    → s.total_bytes_per_second ≢ 0
    → lookup id s.backends ≡ some bw
    → bw.last_active ≤ now
    → Paid id s.total_bytes_per_second now
        (if (request_send id bytes now s).1 then bytes else 0)
        bw
        (request_send id bytes now s).0
request_send-Paid id bytes now bw s l e h =
    let t = mark_active id bw s in
    let active = record bw { is_active = true } in
    let bw' = replenish_deficit t.total_bytes_per_second t.active_count now active in
    let (entry, found, same, last, sum) = reserve_pays id bytes bw' t in
    let lim = mark_active_limit id bw s in
    let (budget, now_last) =
      replenish_deficit-budget t.total_bytes_per_second t.active_count now active (rw lim l) h in
    let at_last = ap (λ (x : ℕ). x * bw.last_active) lim in
    let at_now = ap (λ (x : ℕ). x * now) lim in
    rw (request_send-known id bytes now bw s l e) (record {
      entry = entry;
      found = found;
      same_limit = same ∙ lim;
      forward = omega (arith, last, now_last);
      in_time = omega (arith, last, now_last);
      paid = rw (last ∙ now_last) (omega (arith, budget, at_last, at_now, sum));
    })

request_send_other :
    (id j bytes now : ℕ) (o : Option BackendBandwidth) (bw : BackendBandwidth) (s : Scheduler)
    → j ≢ id
    → lookup id s.backends ≡ some bw
    → (lookup id (request_known j bytes now o s).0.backends ≡ some bw)
      × ((request_known j bytes now o s).0.total_bytes_per_second ≡ s.total_bytes_per_second)
unfolding request_known
request_send_other id j bytes now none bw s ne e = (e, refl)
request_send_other id j bytes now (some w) bw s ne e =
    let t = mark_active j w s in
    let w' =
      replenish_deficit t.total_bytes_per_second t.active_count now
        (record w { is_active = true }) in
    (
      ground (arith, reserve_entry id j bytes w' t, lookup-mark_active_ne id j w s),
      reserve_limit j bytes w' t ∙ mark_active_limit j w s,
    )

request_send_limited :
    (j bytes now : ℕ) (s : Scheduler)
    → s.total_bytes_per_second ≢ 0
    → request_send j bytes now s ≡ request_known j bytes now (lookup j s.backends) s
unfolding request_send
request_send_limited j bytes now s l = ground arith

request_Paid :
    (id j bytes now : ℕ) (bw : BackendBandwidth) (s : Scheduler)
    → s.total_bytes_per_second ≢ 0
    → lookup id s.backends ≡ some bw
    → bw.last_active ≤ now
    → Paid id s.total_bytes_per_second now
        (granted id (request_op j bytes now) s)
        bw
        (request_send j bytes now s).0
unfolding granted
request_Paid id j bytes now bw s l e h = elim (ℕ_discrete j id) [
  | yes same ↦ rw (same, nat_beq_refl id) (request_send-Paid id bytes now bw s l e h)
  | no other ↦
      let (found, limit) = request_send_other id j bytes now (lookup j s.backends) bw s other e in
      rw (nat_beq_ne j id other, request_send_limited j bytes now s l)
        (unchanged-Paid id s.total_bytes_per_second now bw _ found limit h)
]

-- An entry whose clock moves on, with the same deficit.
moved-Paid :
    (id limit now : ℕ) (bw entry : BackendBandwidth) (t : Scheduler)
    → lookup id t.backends ≡ some entry
    → t.total_bytes_per_second ≡ limit
    → entry.deficit ≡ bw.deficit
    → bw.last_active ≤ entry.last_active
    → entry.last_active ≤ now
    → Paid id limit now 0 bw t
moved-Paid id limit now bw entry t e l d f h =
    let grows : limit * bw.last_active ≤ limit * entry.last_active = grind arith in
    record {
      entry = entry;
      found = e;
      same_limit = l;
      forward = f;
      in_time = h;
      paid = omega (arith, grows);
    }

sent_entry :
    (id j bytes now : ℕ) (o : Option BackendBandwidth) (bw : BackendBandwidth) (s : Scheduler)
    → lookup j s.backends ≡ o
    → lookup id s.backends ≡ some bw
    → (lookup id (record_known j bytes now o s).backends
        ≡ some (
            if j == id
            then record bw { bytes_sent = bw.bytes_sent + bytes; last_active = now }
            else bw))
      × ((record_known j bytes now o s).total_bytes_per_second ≡ s.total_bytes_per_second)
unfolding record_known
sent_entry id j bytes now none bw s eo e = elim (ℕ_discrete j id) [
  | yes same ↦ cc (ap (λ (k : ℕ). lookup k s.backends) same)
  | no other ↦ rw (nat_beq_ne j id other) (e, refl)
]
sent_entry id j bytes now (some w) bw s eo e = elim (ℕ_discrete j id) [
  | yes same ↦
      let w' = record w { bytes_sent = w.bytes_sent + bytes; last_active = now } in
      ground (arith, lookup-insert j id w' s.backends, ap (λ (k : ℕ). lookup k s.backends) same)
  | no other ↦
      let w' = record w { bytes_sent = w.bytes_sent + bytes; last_active = now } in
      ground (arith, lookup-insert j id w' s.backends)
]

sent_Paid :
    (id j bytes now : ℕ) (bw : BackendBandwidth) (s : Scheduler)
    → s.total_bytes_per_second ≢ 0
    → lookup id s.backends ≡ some bw
    → bw.last_active ≤ now
    → Paid id s.total_bytes_per_second now 0 bw (record_sent j bytes now s)
unfolding record_sent
sent_Paid id j bytes now bw s l e h =
    let (found, limit) = sent_entry id j bytes now (lookup j s.backends) bw s refl e in
    rw (nat_beq_ne s.total_bytes_per_second 0 l) (
      moved-Paid id s.total_bytes_per_second now bw _ _ found limit (ground arith) (ground arith)
        (ground arith))

idle_Paid :
    (id now : ℕ) (bw : BackendBandwidth) (s : Scheduler)
    → lookup id s.backends ≡ some bw
    → bw.last_active ≤ now
    → Paid id s.total_bytes_per_second now 0 bw (check_idle_backends now s)
unfolding check_idle_backends
idle_Paid id now bw s e h = record {
  entry = if is_idle now bw then record bw { is_active = false; deficit = 0 } else bw;
  found = lookup-retire_idle id now s.active_count s.backends bw e;
  same_limit = refl;
  forward = ground arith;
  in_time = ground arith;
  paid = ground arith;
}

chain :
    (id limit now bytes rest hi : ℕ) (bw : BackendBandwidth) (t : Scheduler)
    → (p : Paid id limit now bytes bw t)
    → rest * second + t.total_bytes_per_second * p.entry.last_active
      ≤ p.entry.deficit * second + t.total_bytes_per_second * hi
    → (bytes + rest) * second + limit * bw.last_active ≤ bw.deficit * second + limit * hi
chain id limit now bytes rest hi bw t p h = omega (
  arith,
  h,
  p.paid,
  ap (λ (x : ℕ). x * p.entry.last_active) p.same_limit,
  ap (λ (x : ℕ). x * hi) p.same_limit,
)

-- Over a run of sends, records, idle checks and resets, the bytes granted to a backend are
-- covered by its deficit at the start and by the limit times the time that has passed.
pub granted-le-limit :
    (id lo hi : ℕ) (ops : List Op) (bw : BackendBandwidth) (s : Scheduler)
    → s.total_bytes_per_second ≢ 0
    → lookup id s.backends ≡ some bw
    → bw.last_active ≤ lo
    → Paced lo hi ops
    → total_granted id ops s * second + s.total_bytes_per_second * bw.last_active
      ≤ bw.deficit * second + s.total_bytes_per_second * hi
unfolding total_granted granted step reset_metrics check_idle_backends
granted-le-limit id lo hi [] bw s l e h p = grind arith
granted-le-limit id lo hi (request_op j bytes now ∷ ops) bw s l e h p =
    let q = request_Paid id j bytes now bw s l e (omega arith) in
    chain id _ now _ _ hi bw _ q (
      granted-le-limit id now hi ops q.entry (request_send j bytes now s).0 (rw q.same_limit l)
        q.found q.in_time p.1)
granted-le-limit id lo hi (sent_op j bytes now ∷ ops) bw s l e h p =
    let q = sent_Paid id j bytes now bw s l e (omega arith) in
    chain id _ now _ _ hi bw _ q (
      granted-le-limit id now hi ops q.entry (record_sent j bytes now s) (rw q.same_limit l) q.found
        q.in_time p.1)
granted-le-limit id lo hi (idle_op now ∷ ops) bw s l e h p =
    let q = idle_Paid id now bw s e (omega arith) in
    chain id _ now _ _ hi bw _ q
      (granted-le-limit id now hi ops q.entry (check_idle_backends now s) l q.found q.in_time p.1)
granted-le-limit id lo hi (reset_op now ∷ ops) bw s l e h p =
    rw zero-add (granted-le-limit id now hi ops bw (reset_metrics now s) l e (omega arith) p.1)
granted-le-limit id lo hi (_ ∷ ops) bw s l e h p = absurd p
