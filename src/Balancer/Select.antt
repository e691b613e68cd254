-- ===== src/Balancer/Select.antt =====
-- internal/hub/loadbalancer.go: `Select` of a pool.
use native.Mathlib.Nat.{mod-lt, mod-eq_of_lt}
use nexus_proxy_server.Common.{
  ℕ, zero, suc, ◌+◌, ◌*◌, ◌%◌, ◌<◌, ◌≡◌, refl, ap, ◌∙◌, List, [], ◌∷◌, ◌++◌, Option, none, some,
  length, get_elem?, ◌==◌, nat_eq, arith, Bool-cases, inl, inr,
}
use nexus_proxy_server.Common.SwapRemove.{has_key, swap_remove, last_of, init_of, last_first}
use nexus_proxy_server.Balancer.Pool.{
  Backend, id_of, LoadBalancerPool, new_pool, add_backend, remove_backend, Selected, chosen,
  lowered, round, select_loop, select,
}
use nexus_proxy_server.Balancer.Choice.{AllPositive, IsChoice, select_loop-IsChoice}
use nexus_proxy_server.Balancer.Divisor.{recalculated_gcd_lem}

-- The weights are positive, and the step is that of the backends.
pub record IsPool (p : LoadBalancerPool) : Type 0 where
  pub weights : AllPositive p.backends
  pub step : 0 < p.greatest_common_div

-- The selection of a backend of the pool, which leaves the backends and the step.
pub record IsSelection (p : LoadBalancerPool) (out : Option (Selected × LoadBalancerPool))
    : Type 0 where
  pub backend : Backend
  pub place : ℕ
  pub left : LoadBalancerPool
  pub result : out ≡ some (chosen backend, left)
  pub member : get_elem? p.backends place ≡ some backend
  pub same : left.backends ≡ p.backends
  pub same_step : left.greatest_common_div ≡ p.greatest_common_div

AllPositive-append :
    (bs : List Backend) (b : Backend) → AllPositive bs → 0 < b.weight → AllPositive (bs ++ (b ∷ []))
AllPositive-append [] b h w = (w, tt)
AllPositive-append (c ∷ bs) b h w = (h.0, AllPositive-append bs b h.1 w)

pub new_pool-IsPool : IsPool new_pool
unfolding new_pool
new_pool-IsPool = record { weights = tt; step = omega arith }

-- Adding a backend of positive weight keeps a pool well formed.
pub add_backend-IsPool :
    (b : Backend) (p : LoadBalancerPool) → 0 < b.weight → IsPool p → IsPool (add_backend b p)
unfolding add_backend
add_backend-IsPool b p w h =
    let q = AllPositive-append p.backends b h.weights w in
    record { weights = q; step = (recalculated_gcd_lem (p.backends ++ (b ∷ [])) q).0 }

AllPositive-last_init :
    (c : Backend) (bs : List Backend)
    → AllPositive (c ∷ bs)
    → AllPositive (last_of id_of c bs ∷ init_of id_of c bs)
AllPositive-last_init c [] h = h
AllPositive-last_init c (d ∷ ds) h = let (l, i) = AllPositive-last_init d ds h.1 in (l, (h.0, i))

AllPositive-last_first : (bs : List Backend) → AllPositive bs → AllPositive (last_first id_of bs)
AllPositive-last_first [] h = tt
AllPositive-last_first (c ∷ bs) h = AllPositive-last_init c bs h

AllPositive-swap_remove :
    (k : ℕ) (bs : List Backend) → AllPositive bs → AllPositive (swap_remove id_of k bs)
unfolding swap_remove
AllPositive-swap_remove k [] h = tt
AllPositive-swap_remove k (b ∷ bs) h = elim (Bool-cases (b.id == k)) [
  | inl e ↦ rw e (AllPositive-last_first bs h.1)
  | inr e ↦ rw e (h.0, AllPositive-swap_remove k bs h.1)
]

-- Removing a backend keeps a pool well formed.
pub remove_backend-IsPool :
    (b : Backend) (p : LoadBalancerPool) → IsPool p → IsPool (remove_backend b p)
unfolding remove_backend
remove_backend-IsPool b p h = elim (Bool-cases (has_key id_of b.id p.backends)) [
  | inl e ↦
      let q = AllPositive-swap_remove b.id p.backends h.weights in
      rw e (record {
        weights = q;
        step = (recalculated_gcd_lem (swap_remove id_of b.id p.backends) q).0;
      })
  | inr e ↦ rw e h
]

select_loop-mod :
    (f g : ℕ) (bs : List Backend) (next weight : ℕ)
    → 0 < length bs
    → select_loop f g bs next weight ≡ select_loop f g bs (next % length bs) weight
unfolding select_loop
select_loop-mod zero g bs next weight h = refl
select_loop-mod (suc f) g bs next weight h = rw (mod-eq_of_lt (mod-lt next h)) refl

-- From any index the loop chooses a backend.
loop_ends :
    (f g next weight : ℕ) (b : Backend) (bs : List Backend)
    → AllPositive (b ∷ bs)
    → 0 < g
    → (weight + 2) * length (b ∷ bs) < f
    → IsChoice (b ∷ bs) (select_loop f g (b ∷ bs) next weight)
loop_ends f g next weight b bs p pos fuel =
    let below = mod-lt next {m = length (b ∷ bs)} (omega arith) in
    rw (select_loop-mod f g (b ∷ bs) next weight (omega arith)) (
      select_loop-IsChoice f g (next % length (b ∷ bs)) weight b bs p pos (omega (arith, below))
        (omega (arith, below)))

abbrev pool_of : List Backend → ℕ → ℕ → ℕ → LoadBalancerPool
pool_of bs weight next g = record {
  backends = bs;
  current_weight = weight;
  next_index = next;
  greatest_common_div = g;
}

select_of_choice :
    (f weight next g : ℕ) (b c : Backend) (cs : List Backend)
    → IsChoice (b ∷ c ∷ cs) (select_loop f g (b ∷ c ∷ cs) next weight)
    → IsSelection
        (pool_of (b ∷ c ∷ cs) weight next g)
        (select f (pool_of (b ∷ c ∷ cs) weight next g))
unfolding select
select_of_choice f weight next g b c cs h = record {
  backend = h.backend;
  place = h.place;
  left = pool_of (b ∷ c ∷ cs) h.weight (h.place + 1) g;
  result = rw (select, h.result) refl;
  member = h.member;
  same = refl;
  same_step = refl;
}

select_ends :
    (f weight next g : ℕ) (bs : List Backend)
    → AllPositive bs
    → 0 < g
    → 0 < length bs
    → (weight + 2) * length bs < f
    → IsSelection (pool_of bs weight next g) (select f (pool_of bs weight next g))
unfolding select
select_ends f weight next g [] p h pos fuel = elim pos [ ]
select_ends f weight next g (b ∷ []) p h pos fuel = record {
  backend = b;
  place = 0;
  left = pool_of (b ∷ []) weight next g;
  result = refl;
  member = refl;
  same = refl;
  same_step = refl;
}
select_ends f weight next g (b ∷ c ∷ cs) p h pos fuel =
    select_of_choice f weight next g b c cs (loop_ends f g next weight b (c ∷ cs) p h fuel)

-- `Select` on a well-formed pool that has a backend ends, returns a backend of the pool, and leaves
-- the backends and the step as they were; `(current_weight + 2) * length + 1` rounds are enough.
pub select_total :
    (f : ℕ) (p : LoadBalancerPool)
    → IsPool p
    → 0 < length p.backends
    → (p.current_weight + 2) * length p.backends < f
    → IsSelection p (select f p)
select_total f p h pos fuel =
    select_ends f p.current_weight p.next_index p.greatest_common_div p.backends h.weights h.step
      pos fuel

-- Every backend has weight zero.
abbrev pub AllZero : List Backend → Type 0
AllZero [] = Unit {0}
AllZero (b ∷ bs) = (b.weight ≡ 0) × AllZero bs

get_elem?-AllZero :
    (bs : List Backend) (i : ℕ)
    → AllZero bs
    → i < length bs
    → (b : Backend) × (get_elem? bs i ≡ some b) × (b.weight ≡ 0)
get_elem?-AllZero [] i z h = elim h [ ]
get_elem?-AllZero (b ∷ bs) zero z h = (b, refl, z.0)
get_elem?-AllZero (b ∷ bs) (suc i) z h = get_elem?-AllZero bs i z.1 (omega arith)

lowered-zero :
    (i : ℕ) (bs : List Backend) (weight : ℕ) → 0 < weight → lowered i 0 bs weight ≡ weight
unfolding lowered
lowered-zero i bs weight h = ground arith

round-light :
    (i weight : ℕ) (b : Backend) (rest : Option (Selected × ℕ × ℕ))
    → 0 < weight
    → b.weight ≡ 0
    → round i weight (some b) rest ≡ rest
unfolding round
round-light i weight b rest h z = ground arith

-- With step 0 and a threshold above 0 the loop never ends over backends of weight zero.
select_loop-none :
    (f : ℕ) (bs : List Backend) (next weight : ℕ)
    → AllZero bs
    → 0 < length bs
    → 0 < weight
    → select_loop f 0 bs next weight ≡ none
unfolding select_loop
select_loop-none zero bs next weight z l h = refl
select_loop-none (suc f) bs next weight z l h =
    let (b, e, w) = get_elem?-AllZero bs (next % length bs) z (mod-lt next l) in
    rw (lowered-zero (next % length bs) bs weight h, e)
      (round-light (next % length bs) weight b _ h w
        ∙ select_loop-none f bs (next % length bs + 1) weight z l h)

select_stuck :
    (f weight next : ℕ) (b c : Backend) (cs : List Backend)
    → AllZero (b ∷ c ∷ cs)
    → 0 < weight
    → select f (pool_of (b ∷ c ∷ cs) weight next 0) ≡ none
unfolding select
select_stuck f weight next b c cs z h =
    rw (select, select_loop-none f (b ∷ c ∷ cs) next weight z (omega arith) h) refl

select_diverges_on :
    (f weight next g : ℕ) (bs : List Backend)
    → AllZero bs
    → 1 < length bs
    → g ≡ 0
    → 0 < weight
    → select f (pool_of bs weight next g) ≡ none
select_diverges_on f weight next g [] z l e h = elim l [ ]
select_diverges_on f weight next g (b ∷ []) z l e h = absurd (omega arith)
select_diverges_on f weight next g (b ∷ c ∷ cs) z l e h =
    ap (λ (t : ℕ). select f (pool_of (b ∷ c ∷ cs) weight next t)) e
    ∙ select_stuck f weight next b c cs z h

-- On a pool of at least two backends that all have weight zero, whose step is zero and whose
-- threshold is still positive, `Select` does not return after any number of rounds.
pub select_diverges :
    (f : ℕ) (p : LoadBalancerPool)
    → AllZero p.backends
    → 1 < length p.backends
    → p.greatest_common_div ≡ 0
    → 0 < p.current_weight
    → select f p ≡ none
select_diverges f p z l e h =
    select_diverges_on f p.current_weight p.next_index p.greatest_common_div p.backends z l e h
