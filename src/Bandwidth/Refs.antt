-- ===== src/Bandwidth/Refs.antt =====
-- internal/bandwidth/scheduler.go: the reference counts of shared identifiers.
use nexus_proxy_server.Common.{
  ℕ, ◌+◌, ◌-◌, ◌≡◌, refl, Bool, true, false, [], ◌∷◌, List, Option, none, some, lookup, insert,
  delete, nat_eq, arith, Bool-cases, inl, inr, ltb, leb, ◌∙◌, lookup-insert, lookup-delete,
  Distinct, insert-Distinct, delete-Distinct,
}
use nexus_proxy_server.Bandwidth.Defs.{BackendBandwidth, Scheduler}
use nexus_proxy_server.Bandwidth.Ops.{
  fresh_backend, drop_entry, load_or_store, ref_count, register_shared, release_ref,
  unregister_shared,
}

-- A holder comes (at a time) or goes.
pub data Holder : Type 0 where
  joins : ℕ → Holder
  leaves : Holder

unfoldable pub run_holders : ℕ → List Holder → Scheduler → Scheduler
run_holders id [] s = s
run_holders id (joins now ∷ hs) s = run_holders id hs (register_shared id now s)
run_holders id (leaves ∷ hs) s = run_holders id hs (unregister_shared id s)

-- The holders left, of `n` at first; one that leaves when none is there changes nothing.
abbrev pub holders : ℕ → List Holder → ℕ
holders n [] = n
holders n (joins now ∷ hs) = holders (n + 1) hs
holders n (leaves ∷ hs) = holders (n - 1) hs

abbrev pub is_some : Option BackendBandwidth → Bool
is_some none = false
is_some (some bw) = true

-- The identifier has `n` holders: that is its count, and its entry is there while `n` is not 0.
pub record IsShared (id n : ℕ) (s : Scheduler) : Type 0 where
  pub refs : ref_count (lookup id s.ref_counts) ≡ n
  pub present : is_some (lookup id s.backends) ≡ ltb 0 n
  pub distinct : Distinct s.backends
  pub distinct_refs : Distinct s.ref_counts

load_or_store_present :
    (id now : ℕ) (o : Option BackendBandwidth) (s : Scheduler)
    → lookup id s.backends ≡ o
    → Distinct s.backends
    → let t = load_or_store id o (fresh_backend now) s in
      (is_some (lookup id t.backends) ≡ true) × Distinct t.backends × (t.ref_counts ≡ s.ref_counts)
unfolding load_or_store
load_or_store_present id now none s e d = (
  ground (arith, lookup-insert id id (fresh_backend now) s.backends),
  insert-Distinct id (fresh_backend now) s.backends d,
  refl,
)
load_or_store_present id now (some bw) s e d = (ground arith, d, refl)

drop_entry_absent :
    (id : ℕ) (o : Option BackendBandwidth) (s : Scheduler)
    → lookup id s.backends ≡ o
    → Distinct s.backends
    → let t = drop_entry id o s in
      (is_some (lookup id t.backends) ≡ false) × Distinct t.backends × (t.ref_counts ≡ s.ref_counts)
unfolding drop_entry
drop_entry_absent id none s e d = (ground arith, d, refl)
drop_entry_absent id (some bw) s e d =
    ground (arith, lookup-delete id id s.backends d, delete-Distinct id s.backends d)

ref_count_inserted :
    (id n : ℕ) (s : Scheduler)
    → let count = ref_count (lookup id s.ref_counts) + 1 in
      ref_count (lookup id s.ref_counts) ≡ n
      → ref_count (lookup id (insert id count s.ref_counts)) ≡ n + 1
unfolding ref_count
ref_count_inserted id n s e =
    ground (arith, lookup-insert id id (ref_count (lookup id s.ref_counts) + 1) s.ref_counts)

register_shared-IsShared :
    (id n now : ℕ) (s : Scheduler)
    → IsShared id n s
    → IsShared id (n + 1) (register_shared id now s)
unfolding register_shared
register_shared-IsShared id n now s h =
    let count = ref_count (lookup id s.ref_counts) + 1 in
    let t = record s { ref_counts = insert id count s.ref_counts } in
    let (there, d, same) = load_or_store_present id now (lookup id t.backends) t refl h.distinct in
    record {
      refs = rw same (ref_count_inserted id n s h.refs);
      present = there ∙ ground arith;
      distinct = d;
      distinct_refs = rw same (insert-Distinct id count s.ref_counts h.distinct_refs);
    }

release_ref-IsShared :
    (id n : ℕ) (o : Option ℕ) (s : Scheduler)
    → lookup id s.ref_counts ≡ o
    → IsShared id n s
    → IsShared id (n - 1) (release_ref id o s)
unfolding release_ref ref_count
release_ref-IsShared id n none s e h = ground (arith, h.refs)
release_ref-IsShared id n (some c) s e h = elim (Bool-cases (leb c 1)) [
  | inl last ↦
      let t = record s { ref_counts = delete id s.ref_counts } in
      let (gone, d, same) = drop_entry_absent id (lookup id s.backends) t refl h.distinct in
      rw last (record {
        refs = rw same (ground (arith, h.refs, lookup-delete id id s.ref_counts h.distinct_refs));
        present = gone ∙ ground (arith, h.refs);
        distinct = d;
        distinct_refs = rw same (delete-Distinct id s.ref_counts h.distinct_refs);
      })
  | inr more ↦ rw more (record {
    refs = ground (arith, h.refs, lookup-insert id id (c - 1) s.ref_counts);
    present = ground (arith, h.refs, h.present);
    distinct = h.distinct;
    distinct_refs = insert-Distinct id (c - 1) s.ref_counts h.distinct_refs;
  })
]

-- However holders of a shared identifier come and go, its reference count is the number of holders
-- that are left, and its entry is there exactly while there is one.
pub run_holders-IsShared :
    (id n : ℕ) (hs : List Holder) (s : Scheduler)
    → IsShared id n s
    → IsShared id (holders n hs) (run_holders id hs s)
unfolding run_holders unregister_shared
run_holders-IsShared id n [] s h = h
run_holders-IsShared id n (joins now ∷ hs) s h =
    run_holders-IsShared id (n + 1) hs _ (register_shared-IsShared id n now s h)
run_holders-IsShared id n (leaves ∷ hs) s h =
    run_holders-IsShared id (n - 1) hs _
      (release_ref-IsShared id n (lookup id s.ref_counts) s refl h)
