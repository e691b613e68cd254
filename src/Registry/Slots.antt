-- ===== src/Registry/Slots.antt =====
-- internal/hub/hub.go: how often a pool holds a backend, when backends are added and removed.
use nexus_proxy_server.Common.{
  ℕ, ◌+◌, ◌≤◌, ◌≡◌, refl, ap, ◌∙◌, Bool, false, ◌&&◌, if◌then◌else◌, ltb, ◌==◌, nat_eq, bytes_eq,
  bytes_beq_iff, Bytes, List, [], ◌∷◌, Option, none, some, Map, lookup, lookup-insert, arith,
  Bool-cases, inl, inr,
}
use nexus_proxy_server.Common.SwapRemove.{
  count_key, count_key-swap_remove, has_key_count, count_key-append,
}
use nexus_proxy_server.Balancer.{
  Backend, id_of, LoadBalancerPool, new_pool, add_backend, remove_backend,
}
use nexus_proxy_server.Registry.Defs.{
  Hub, Slot, exact, wild, pool_or_new, add_to, removed_from, remove_from, add_slot, remove_slot,
  add_slots, remove_slots,
}

-- How often the pool of a key holds an identifier.
abbrev pub times : ℕ → Option LoadBalancerPool → ℕ
times a none = 0
times a (some p) = count_key id_of a p.backends

abbrev pub at : Slot → Hub → Option LoadBalancerPool
at (exact key) h = lookup key h.pools
at (wild suffix) h = lookup suffix h.wildcard_pools

abbrev pub same_slot : Slot → Slot → Bool
same_slot (exact a) (exact b) = a == b
same_slot (wild a) (wild b) = a == b
same_slot _ _ = false

abbrev pub occurs : Slot → List Slot → ℕ
occurs q [] = 0
occurs q (s ∷ ss) = (if same_slot s q then 1 else 0) + occurs q ss

add_backend-times :
    (b : Backend) (a : ℕ) (o : Option LoadBalancerPool)
    → times a (some (add_backend b (pool_or_new o))) ≡ times a o + (if b.id == a then 1 else 0)
unfolding add_backend pool_or_new new_pool count_key
add_backend-times b a none = ground arith
add_backend-times b a (some p) = ground (arith, count_key-append id_of a p.backends (b ∷ []))

remove_backend-times :
    (b : Backend) (a : ℕ) (p : LoadBalancerPool)
    → times a (some (remove_backend b p)) + (if b.id == a && ltb 0 (times a (some p)) then 1 else 0)
      ≡ times a (some p)
unfolding remove_backend
remove_backend-times b a p =
    ground
      (arith, has_key_count id_of b.id p.backends, count_key-swap_remove id_of b.id a p.backends)

add_to-times :
    (b : Backend) (key k : Bytes) (a : ℕ) (m : Map Bytes LoadBalancerPool)
    → times a (lookup k (add_to b key m))
      ≡ times a (lookup k m) + (if key == k && b.id == a then 1 else 0)
unfolding add_to
add_to-times b key k a m =
    ap (times a) (lookup-insert key k (add_backend b (pool_or_new (lookup key m))) m)
    ∙ elim (Bool-cases (key == k)) [
      | inr e ↦ ground (arith, e)
      | inl e ↦
          let there = ap (λ x. times a (lookup x m)) ((bytes_beq_iff key k).0 e) in
          ground (arith, e, there, add_backend-times b a (lookup key m))
    ]

removed_from-times :
    (b : Backend) (key k : Bytes) (a : ℕ) (o : Option LoadBalancerPool)
    (m : Map Bytes LoadBalancerPool)
    → lookup key m ≡ o
    → times a (lookup k (removed_from b key o m))
        + (if key == k && b.id == a && ltb 0 (times a (lookup k m)) then 1 else 0)
      ≡ times a (lookup k m)
unfolding removed_from
removed_from-times b key k a none m e = elim (Bool-cases (key == k)) [
  | inr e' ↦ ground (arith, e')
  | inl e' ↦
      let there = ap (λ x. times a (lookup x m)) ((bytes_beq_iff key k).0 e') in
      ground (arith, e', there, ap (times a) e)
]
removed_from-times b key k a (some p) m e =
    let now = ap (times a) (lookup-insert key k (remove_backend b p) m) in
    elim (Bool-cases (key == k)) [
      | inr e' ↦ ground (arith, e', now)
      | inl e' ↦
          let there = ap (λ x. times a (lookup x m)) ((bytes_beq_iff key k).0 e') in
          ground (arith, e', now, there, ap (times a) e, remove_backend-times b a p)
    ]

add_slot-times :
    (b : Backend) (s q : Slot) (a : ℕ) (h : Hub)
    → times a (at q (add_slot b s h))
      ≡ times a (at q h) + (if same_slot s q && b.id == a then 1 else 0)
unfolding add_slot
add_slot-times b (exact key) (exact k) a h = add_to-times b key k a h.pools
add_slot-times b (exact key) (wild k) a h = omega arith
add_slot-times b (wild key) (exact k) a h = omega arith
add_slot-times b (wild key) (wild k) a h = add_to-times b key k a h.wildcard_pools

remove_slot-times :
    (b : Backend) (s q : Slot) (a : ℕ) (h : Hub)
    → times a (at q (remove_slot b s h))
        + (if same_slot s q && b.id == a && ltb 0 (times a (at q h)) then 1 else 0)
      ≡ times a (at q h)
unfolding remove_slot remove_from
remove_slot-times b (exact key) (exact k) a h =
    removed_from-times b key k a (lookup key h.pools) h.pools refl
remove_slot-times b (exact key) (wild k) a h = omega arith
remove_slot-times b (wild key) (exact k) a h = omega arith
remove_slot-times b (wild key) (wild k) a h =
    removed_from-times b key k a (lookup key h.wildcard_pools) h.wildcard_pools refl

-- What a backend puts into a pool, all loops together.
pub add_slots-times :
    (b : Backend) (ss : List Slot) (q : Slot) (a : ℕ) (h : Hub)
    → times a (at q (add_slots b ss h)) ≡ times a (at q h) + (if b.id == a then occurs q ss else 0)
unfolding add_slots
add_slots-times b [] q a h = ground arith
add_slots-times b (s ∷ ss) q a h =
    ground (arith, add_slots-times b ss q a (add_slot b s h), add_slot-times b s q a h)

-- What it takes out, if it is there as often as it is to be taken out.
pub remove_slots-times :
    (b : Backend) (ss : List Slot) (q : Slot) (a : ℕ) (h : Hub)
    → occurs q ss ≤ times b.id (at q h)
    → times a (at q (remove_slots b ss h)) + (if b.id == a then occurs q ss else 0)
      ≡ times a (at q h)
unfolding remove_slots
remove_slots-times b [] q a h l = ground arith
remove_slots-times b (s ∷ ss) q a h l =
    let own = remove_slot-times b s q b.id h in
    let left : occurs q ss ≤ times b.id (at q (remove_slot b s h)) = ground (arith, own, l) in
    let rest = remove_slots-times b ss q a (remove_slot b s h) left in
    let step = remove_slot-times b s q a h in
    elim (Bool-cases (b.id == a)) [
      | inr other ↦ ground (arith, other, rest, step)
      | inl same ↦
          let is : b.id ≡ a = ground (arith, same) in
          let there = ap (λ i. times i (at q h)) is in ground (arith, same, rest, step, there, l)
    ]
