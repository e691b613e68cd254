-- ===== src/Bandwidth/Count.antt =====
-- internal/bandwidth/scheduler.go: `activeCount` against the entries of the map.
use nexus_proxy_server.Common.{
  ℕ, ◌+◌, ◌-◌, ◌≡◌, refl, ◌∙◌, true, if◌then◌else◌, Map, [], ◌∷◌, Option, none, some, lookup,
  insert, delete, nat_eq, arith, total, weight_of, total-insert, total-delete, Bool-cases, inl, inr,
  ap, leb, Distinct, insert-Distinct, delete-Distinct, lookup-insert,
}
use native.Mathlib.Nat.{add-zero}
use nexus_proxy_server.Common.Int.{ℤ, pos, ◌+ℤ◌, ◌-ℤ◌}
use nexus_proxy_server.Bandwidth.Defs.{BackendBandwidth, Scheduler, replenish_deficit}
use nexus_proxy_server.Bandwidth.Ops.{
  new_scheduler, fresh_backend, register, drop_entry, unregister, load_or_store, register_shared,
  release_ref, unregister_shared, mark_active, reserve, request_known, request_send, refund_known,
  refund_send, record_known, record_sent, is_idle, retire_idle, check_idle_backends, reset_metrics,
}

abbrev pub active : BackendBandwidth → ℕ
active bw = if bw.is_active then 1 else 0

-- The counter is the number of active entries, and no identifier has two entries.
pub record IsCounted (s : Scheduler) : Type 0 where
  pub counted : s.active_count ≡ pos (total active s.backends)
  pub distinct : Distinct s.backends

-- A call of one method, with the clock that it reads.
pub data Op : Type 0 where
  register_op : ℕ → ℕ → Op
  unregister_op : ℕ → Op
  share_op : ℕ → ℕ → Op
  unshare_op : ℕ → Op
  request_op : ℕ → ℕ → ℕ → Op
  refund_op : ℕ → ℕ → Op
  sent_op : ℕ → ℕ → ℕ → Op
  idle_op : ℕ → Op
  reset_op : ℕ → Op

unfoldable pub step : Op → Scheduler → Scheduler
step (register_op id now) s = register id now s
step (unregister_op id) s = unregister id s
step (share_op id now) s = register_shared id now s
step (unshare_op id) s = unregister_shared id s
step (request_op id bytes now) s = (request_send id bytes now s).0
step (refund_op id bytes) s = refund_send id bytes s
step (sent_op id bytes now) s = record_sent id bytes now s
step (idle_op now) s = check_idle_backends now s
step (reset_op now) s = reset_metrics now s

-- `Register` replaces an entry: it must not replace one that is active.
abbrev pub Allowed : Op → Scheduler → Type 0
Allowed (register_op id now) s = weight_of active (lookup id s.backends) ≡ 0
Allowed _ s = Unit {0}

pub data Reach (mbps now : ℕ) : Scheduler → Type 0 where
  start : Reach mbps now (new_scheduler mbps now)
  next : {s : Scheduler} → (op : Op) → Allowed op s → Reach mbps now s → Reach mbps now (step op s)

-- Replacing an entry by one that is as active as it was.
insert-IsCounted :
    (id : ℕ) (bw new : BackendBandwidth) (s : Scheduler)
    → lookup id s.backends ≡ some bw
    → active new ≡ active bw
    → IsCounted s
    → IsCounted (record s { backends = insert id new s.backends })
insert-IsCounted id bw new s e a h = record {
  counted =
      h.counted
      ∙ ap pos (omega (arith, total-insert active id new s.backends, ap (weight_of active) e, a));
  distinct = insert-Distinct id new s.backends h.distinct;
}

drop_entry-IsCounted :
    (id : ℕ) (o : Option BackendBandwidth) (s : Scheduler)
    → lookup id s.backends ≡ o
    → IsCounted s
    → IsCounted (drop_entry id o s)
unfolding drop_entry ◌-ℤ◌
drop_entry-IsCounted id none s e h = h
drop_entry-IsCounted id (some bw) s e h =
    ground (arith, total-delete active id s.backends, delete-Distinct id s.backends h.distinct)

-- A fresh entry under an identifier whose entry, if there is one, is idle.
fresh-IsCounted :
    (id now : ℕ) (s : Scheduler)
    → weight_of active (lookup id s.backends) ≡ 0
    → IsCounted s
    → IsCounted (record s { backends = insert id (fresh_backend now) s.backends })
unfolding fresh_backend
fresh-IsCounted id now s e h = ground (
  arith,
  total-insert active id (fresh_backend now) s.backends,
  insert-Distinct id (fresh_backend now) s.backends h.distinct,
)

load_or_store-IsCounted :
    (id now : ℕ) (o : Option BackendBandwidth) (s : Scheduler)
    → lookup id s.backends ≡ o
    → IsCounted s
    → IsCounted (load_or_store id o (fresh_backend now) s)
unfolding load_or_store
load_or_store-IsCounted id now none s e h = fresh-IsCounted id now s (ap (weight_of active) e) h
load_or_store-IsCounted id now (some bw) s e h = h

release_ref-IsCounted :
    (id : ℕ) (o : Option ℕ) (s : Scheduler) → IsCounted s → IsCounted (release_ref id o s)
unfolding release_ref
release_ref-IsCounted id none s h = h
release_ref-IsCounted id (some n) s h = elim (Bool-cases (leb n 1)) [
  | inl last ↦ rw last (
      drop_entry-IsCounted id (lookup id s.backends)
        (record s { ref_counts = delete id s.ref_counts }) refl
        (record { counted = h.counted; distinct = h.distinct }))
  | inr more ↦ rw more (record { counted = h.counted; distinct = h.distinct })
]

mark_active-IsCounted :
    (id : ℕ) (bw : BackendBandwidth) (s : Scheduler)
    → lookup id s.backends ≡ some bw
    → IsCounted s
    → IsCounted (mark_active id bw s)
unfolding mark_active ◌+ℤ◌
mark_active-IsCounted id bw s e h =
    let new = record bw { is_active = true } in
    ground
      (arith, total-insert active id new s.backends, insert-Distinct id new s.backends h.distinct)

pub lookup-mark_active :
    (id : ℕ) (bw : BackendBandwidth) (s : Scheduler)
    → lookup id s.backends ≡ some bw
    → lookup id (mark_active id bw s).backends ≡ some (record bw { is_active = true })
unfolding mark_active
lookup-mark_active id bw s e =
    ground (arith, lookup-insert id id (record bw { is_active = true }) s.backends)

replenish_deficit-active :
    (total : ℕ) (count : ℤ) (now : ℕ) (bw : BackendBandwidth)
    → (replenish_deficit total count now bw).is_active ≡ bw.is_active
unfolding replenish_deficit
replenish_deficit-active total count now bw = ground arith

reserve-IsCounted :
    (id bytes : ℕ) (old bw : BackendBandwidth) (s : Scheduler)
    → lookup id s.backends ≡ some old
    → bw.is_active ≡ old.is_active
    → IsCounted s
    → IsCounted (reserve id bytes bw s).0
unfolding reserve
reserve-IsCounted id bytes old bw s e a h = ground (
  arith,
  insert-IsCounted id old bw s e,
  insert-IsCounted id old (record bw { deficit = bw.deficit - bytes }) s e,
)

request_known-IsCounted :
    (id bytes now : ℕ) (o : Option BackendBandwidth) (s : Scheduler)
    → lookup id s.backends ≡ o
    → IsCounted s
    → IsCounted (request_known id bytes now o s).0
unfolding request_known
request_known-IsCounted id bytes now none s e h = h
request_known-IsCounted id bytes now (some bw) s e h =
    reserve-IsCounted id bytes (record bw { is_active = true }) _ _ (lookup-mark_active id bw s e)
      (replenish_deficit-active _ _ now (record bw { is_active = true }))
      (mark_active-IsCounted id bw s e h)

refund_known-IsCounted :
    (id bytes : ℕ) (o : Option BackendBandwidth) (s : Scheduler)
    → lookup id s.backends ≡ o
    → IsCounted s
    → IsCounted (refund_known id bytes o s)
unfolding refund_known
refund_known-IsCounted id bytes none s e h = h
refund_known-IsCounted id bytes (some bw) s e h = insert-IsCounted id bw _ s e refl h

record_known-IsCounted :
    (id bytes now : ℕ) (o : Option BackendBandwidth) (s : Scheduler)
    → lookup id s.backends ≡ o
    → IsCounted s
    → IsCounted (record_known id bytes now o s)
unfolding record_known
record_known-IsCounted id bytes now none s e h = h
record_known-IsCounted id bytes now (some bw) s e h =
    let new = record bw { bytes_sent = bw.bytes_sent + bytes; last_active = now } in
    let i = insert-IsCounted id bw new s e refl h in
    record { counted = i.counted; distinct = i.distinct }

lookup-retire_idle-none :
    (id now : ℕ) (count : ℤ) (m : Map ℕ BackendBandwidth)
    → lookup id m ≡ none
    → lookup id (retire_idle now count m).1 ≡ none
unfolding retire_idle lookup
lookup-retire_idle-none id now count [] h = refl
lookup-retire_idle-none id now count ((j, bw) ∷ m) h =
    ground
      (arith, lookup-retire_idle-none id now (if is_idle now bw then count -ℤ pos 1 else count) m)

retire_idle-Distinct :
    (now : ℕ) (count : ℤ) (m : Map ℕ BackendBandwidth)
    → Distinct m
    → Distinct (retire_idle now count m).1
unfolding retire_idle
retire_idle-Distinct now count [] d = tt
retire_idle-Distinct now count ((j, bw) ∷ m) d =
    let count' = (if is_idle now bw then count -ℤ pos 1 else count) in
    (lookup-retire_idle-none j now count' m d.0, retire_idle-Distinct now count' m d.1)

retire_idle_counts :
    (now rest : ℕ) (m : Map ℕ BackendBandwidth)
    → (retire_idle now (pos (total active m + rest)) m).0
      ≡ pos (total active (retire_idle now (pos (total active m + rest)) m).1 + rest)
unfolding retire_idle is_idle ◌-ℤ◌
retire_idle_counts now rest [] = refl
retire_idle_counts now rest ((j, bw) ∷ m) =
    ground (arith, retire_idle_counts now rest m, retire_idle_counts now (rest + 1) m)

request_send-IsCounted :
    (id bytes now : ℕ) (s : Scheduler) → IsCounted s → IsCounted (request_send id bytes now s).0
unfolding request_send
request_send-IsCounted id bytes now s h =
    ground (arith, request_known-IsCounted id bytes now (lookup id s.backends) s refl h)

refund_send-IsCounted :
    (id bytes : ℕ) (s : Scheduler) → IsCounted s → IsCounted (refund_send id bytes s)
unfolding refund_send
refund_send-IsCounted id bytes s h =
    ground (arith, refund_known-IsCounted id bytes (lookup id s.backends) s refl h)

record_sent-IsCounted :
    (id bytes now : ℕ) (s : Scheduler) → IsCounted s → IsCounted (record_sent id bytes now s)
unfolding record_sent
record_sent-IsCounted id bytes now s h =
    ground (arith, record_known-IsCounted id bytes now (lookup id s.backends) s refl h)

check_idle_backends-IsCounted :
    (now : ℕ) (s : Scheduler) → IsCounted s → IsCounted (check_idle_backends now s)
unfolding check_idle_backends
check_idle_backends-IsCounted now s h = record {
  counted = rw h.counted (simp add-zero at (retire_idle_counts now 0 s.backends));
  distinct = retire_idle-Distinct now s.active_count s.backends h.distinct;
}

-- Every method keeps a counted scheduler counted, if `Register` replaces no active entry.
pub step-IsCounted : (op : Op) (s : Scheduler) → Allowed op s → IsCounted s → IsCounted (step op s)
unfolding step register unregister register_shared unregister_shared reset_metrics
step-IsCounted (register_op id now) s a h = fresh-IsCounted id now s a h
step-IsCounted (unregister_op id) s a h = drop_entry-IsCounted id (lookup id s.backends) s refl h
step-IsCounted (share_op id now) s a h =
    load_or_store-IsCounted id now (lookup id s.backends) _ refl
      (record { counted = h.counted; distinct = h.distinct })
step-IsCounted (unshare_op id) s a h = release_ref-IsCounted id (lookup id s.ref_counts) s h
step-IsCounted (request_op id bytes now) s a h = request_send-IsCounted id bytes now s h
step-IsCounted (refund_op id bytes) s a h = refund_send-IsCounted id bytes s h
step-IsCounted (sent_op id bytes now) s a h = record_sent-IsCounted id bytes now s h
step-IsCounted (idle_op now) s a h = check_idle_backends-IsCounted now s h
step-IsCounted (reset_op now) s a h = record { counted = h.counted; distinct = h.distinct }

-- In every run of the methods in which `Register` replaces no active entry, `activeCount` is the number
-- of active entries, and no identifier has two entries.
pub Reach-IsCounted : {mbps now : ℕ} {s : Scheduler} → Reach mbps now s → IsCounted s
unfolding new_scheduler
Reach-IsCounted start = record { counted = refl; distinct = tt }
Reach-IsCounted (next op a r) = step-IsCounted op _ a (Reach-IsCounted r)
