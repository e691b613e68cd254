-- ===== src/Balancer/Pool.antt =====
-- internal/hub/loadbalancer.go: the pool. A backend is its identifier and its weight; a weight is
-- not negative, since the hub takes 1 for a claim that is not positive, so that `math.Abs` changes none.
use nexus_proxy_server.Common.{
  ℕ, zero, suc, ◌+◌, ◌-◌, ◌%◌, Bool, if◌then◌else◌, ltb, leb, List, [], ◌∷◌, ◌++◌, Option, none,
  some, length, get_elem?, ◌==◌, ◌&&◌, nat_eq,
}
use nexus_proxy_server.Common.SwapRemove.{has_key, swap_remove}

pub record Backend : Type 0 where
  pub id : ℕ
  pub weight : ℕ

abbrev pub id_of : Backend → ℕ
id_of b = b.id

-- `next_index` is `currentIndex + 1` of the source, whose index starts at -1.
pub record LoadBalancerPool : Type 0 where
  pub backends : List Backend
  pub current_weight : ℕ
  pub next_index : ℕ
  pub greatest_common_div : ℕ

unfoldable pub new_pool : LoadBalancerPool
new_pool = record { backends = []; current_weight = 0; next_index = 0; greatest_common_div = 1 }

-- The loop of `gcd` on fuel; `b` rounds are enough, since the second number falls in each.
unfoldable pub gcd_loop : ℕ → ℕ → ℕ → ℕ
gcd_loop zero a b = a
gcd_loop (suc f) a b = let rest = gcd_loop f b (a % b) in if b == 0 then a else rest

unfoldable pub gcd : ℕ → ℕ → ℕ
unfolding gcd_loop
gcd a b = gcd_loop (suc b) a b

unfoldable pub max_weight_from : ℕ → List Backend → ℕ
max_weight_from m [] = m
max_weight_from m (b ∷ bs) = max_weight_from (if ltb m b.weight then b.weight else m) bs

-- `maxWeight`.
unfoldable pub max_weight : List Backend → ℕ
unfolding max_weight_from
max_weight bs = max_weight_from 0 bs

unfoldable pub gcd_from : ℕ → List Backend → ℕ
unfolding gcd
gcd_from g [] = g
gcd_from g (b ∷ bs) = gcd_from (gcd g b.weight) bs

-- `recalculateGCD`; with one backend the loop of the source is empty.
unfoldable pub recalculated_gcd : List Backend → ℕ
unfolding gcd_from
recalculated_gcd [] = 1
recalculated_gcd (b ∷ bs) = gcd_from b.weight bs

-- `AddBackend`.
unfoldable pub add_backend : Backend → LoadBalancerPool → LoadBalancerPool
unfolding recalculated_gcd
add_backend b p =
    let bs = p.backends ++ (b ∷ []) in
    record p { backends = bs; greatest_common_div = recalculated_gcd bs }

-- `RemoveBackend`.
unfoldable pub remove_backend : Backend → LoadBalancerPool → LoadBalancerPool
unfolding recalculated_gcd swap_remove has_key
remove_backend b p =
    let bs = swap_remove id_of b.id p.backends in
    if has_key id_of b.id p.backends
    then record p { backends = bs; greatest_common_div = recalculated_gcd bs }
    else p

-- `HasBackends`.
unfoldable pub has_backends : LoadBalancerPool → Bool
has_backends p = ltb 0 (length p.backends)

-- What `Select` returns: a backend, one of its two errors, or an index out of range.
pub data Selected : Type 0 where
  chosen : Backend → Selected
  no_backends : Selected
  zero_weight : Selected
  out_of_range : Selected

-- The weight that the loop uses at an index: at index 0 it falls, or starts again from the top.
unfoldable pub lowered : ℕ → ℕ → List Backend → ℕ → ℕ
unfolding max_weight
lowered i g bs weight =
    if i == 0 then (if leb weight g then max_weight bs else weight - g) else weight

-- One round of the loop, at an index with its backend: it returns, or goes on to the rest.
unfoldable pub round :
    ℕ → ℕ → Option Backend → Option (Selected × ℕ × ℕ) → Option (Selected × ℕ × ℕ)
round i weight none rest =
    if i == 0 && weight == 0
    then some (zero_weight, i + 1, weight)
    else some (out_of_range, i + 1, weight)
round i weight (some b) rest =
    if i == 0 && weight == 0
    then some (zero_weight, i + 1, weight)
    else if leb weight b.weight
    then some (chosen b, i + 1, weight)
    else rest

-- The loop of `Select` on fuel; `none` means that the fuel ran out.
unfoldable pub select_loop : ℕ → ℕ → List Backend → ℕ → ℕ → Option (Selected × ℕ × ℕ)
unfolding lowered round
select_loop zero g bs next weight = none
select_loop (suc f) g bs next weight =
    let i = next % length bs in
    let weight' = lowered i g bs weight in
    let rest = select_loop f g bs (i + 1) weight' in round i weight' (get_elem? bs i) rest

-- `Select`, with the pool that it leaves.
unfoldable pub select : ℕ → LoadBalancerPool → Option (Selected × LoadBalancerPool)
unfolding select_loop
select fuel p = elim p.backends [
  | [] ↦ some (no_backends, p)
  | b ∷ bs ↦ elim bs [
    | [] ↦ some (chosen b, p)
    | c ∷ cs ↦
        elim (select_loop fuel p.greatest_common_div (b ∷ c ∷ cs) p.next_index p.current_weight) [
          | none ↦ none
          | some (r, next, weight) ↦
              some (r, record p { next_index = next; current_weight = weight })
        ]
  ]
]
