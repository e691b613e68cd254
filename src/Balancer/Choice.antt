-- ===== src/Balancer/Choice.antt =====
-- internal/hub/loadbalancer.go: `Select` ends, and what it chooses.
use native.Mathlib.Nat.{mod-eq_of_lt, mod_self, zero-mod}
use nexus_proxy_server.Common.{
  ℕ, zero, suc, ◌+◌, ◌-◌, ◌*◌, ◌%◌, ◌≤◌, ◌<◌, ◌≡◌, refl, sym, ap, ◌∙◌, true, false, if◌then◌else◌,
  ltb, leb, List, [], ◌∷◌, Option, some, length, get_elem?, nat_eq, arith, Bool-cases, inl, inr,
  ◌⊎◌, lt→ltb, leb→le,
}
use native.Mathlib.Decide.{dec_lt}
use nexus_proxy_server.Balancer.Pool.{
  Backend, max_weight_from, max_weight, Selected, chosen, lowered, round, select_loop,
}

-- Every weight is positive.
abbrev pub AllPositive : List Backend → Type 0
AllPositive [] = Unit {0}
AllPositive (b ∷ bs) = (0 < b.weight) × AllPositive bs

-- A backend of the pool whose weight is at least the threshold.
pub record IsChoice (bs : List Backend) (out : Option (Selected × ℕ × ℕ)) : Type 0 where
  pub backend : Backend
  pub place : ℕ
  pub weight : ℕ
  pub result : out ≡ some (chosen backend, place + 1, weight)
  pub in_range : place < length bs
  pub member : get_elem? bs place ≡ some backend
  pub heavy : weight ≤ backend.weight

get_elem?_of_lt :
    (bs : List Backend) (i : ℕ) → i < length bs → (b : Backend) × (get_elem? bs i ≡ some b)
get_elem?_of_lt [] i h = elim h [ ]
get_elem?_of_lt (b ∷ bs) zero h = (b, refl)
get_elem?_of_lt (b ∷ bs) (suc i) h = get_elem?_of_lt bs i (omega arith)

-- The maximum is the start value or the weight of some backend, and is above the start value.
pub max_weight_from_lem :
    (m : ℕ) (bs : List Backend)
    → (m ≤ max_weight_from m bs)
      × ((max_weight_from m bs ≡ m)
          ⊎ ((i : ℕ) × (b : Backend) × (get_elem? bs i ≡ some b)
              × (i < length bs)
              × (b.weight ≡ max_weight_from m bs)))
unfolding max_weight_from
max_weight_from_lem m [] = (omega arith, inl refl)
max_weight_from_lem m (b ∷ bs) =
    let (above, where') = max_weight_from_lem (if ltb m b.weight then b.weight else m) bs in
    (
      ground (arith, above),
      elim (Bool-cases (ltb m b.weight)) [
        | inl more ↦ elim where' [
          | inl e ↦ inr (zero, b, refl, omega arith, sym (e ∙ rw more refl))
          | inr (i, c, g, l, w) ↦ inr (suc i, c, g, omega arith, w)
        ]
        | inr less ↦ elim where' [
          | inl e ↦ inl (e ∙ rw less refl)
          | inr (i, c, g, l, w) ↦ inr (suc i, c, g, omega arith, w)
        ]
      ],
    )

heaviest :
    (b : Backend) (bs : List Backend)
    → 0 < b.weight
    → (i : ℕ) × (c : Backend) × (get_elem? (b ∷ bs) i ≡ some c)
      × (i < length (b ∷ bs))
      × (c.weight ≡ max_weight (b ∷ bs))
      × (0 < max_weight (b ∷ bs))
unfolding max_weight max_weight_from
heaviest b bs h =
    let (above, where') = max_weight_from_lem b.weight bs in
    rw (lt→ltb 0 b.weight h) (elim where' [
      | inl e ↦ (zero, b, refl, omega arith, sym e, omega (arith, e))
      | inr (i, c, g, l, w) ↦ (suc i, c, g, omega arith, w, omega (arith, above))
    ])

round-chosen :
    (i weight : ℕ) (b : Backend) (rest : Option (Selected × ℕ × ℕ))
    → 0 < i + weight
    → leb weight b.weight ≡ true
    → round i weight (some b) rest ≡ some (chosen b, i + 1, weight)
unfolding round
round-chosen i weight b rest pos c = ground arith

round-rest :
    (i weight : ℕ) (b : Backend) (rest : Option (Selected × ℕ × ℕ))
    → 0 < i + weight
    → leb weight b.weight ≡ false
    → round i weight (some b) rest ≡ rest
unfolding round
round-rest i weight b rest pos c = ground arith

-- One round that chooses, and one that goes on.
loop_chooses :
    (f g : ℕ) (bs : List Backend) (next weight i weight' : ℕ) (b : Backend)
    → next % length bs ≡ i
    → lowered i g bs weight ≡ weight'
    → 0 < i + weight'
    → get_elem? bs i ≡ some b
    → i < length bs
    → leb weight' b.weight ≡ true
    → IsChoice bs (select_loop (suc f) g bs next weight)
unfolding select_loop
loop_chooses f g bs next weight i weight' b ei ew pos e l c = record {
  backend = b;
  place = i;
  weight = weight';
  result = rw (ei, ew, e) (round-chosen i weight' b _ pos c);
  in_range = l;
  member = e;
  heavy = leb→le weight' b.weight c;
}

loop_goes_on :
    (f g : ℕ) (bs : List Backend) (next weight i weight' : ℕ) (b : Backend)
    → next % length bs ≡ i
    → lowered i g bs weight ≡ weight'
    → 0 < i + weight'
    → get_elem? bs i ≡ some b
    → leb weight' b.weight ≡ false
    → select_loop (suc f) g bs next weight ≡ select_loop f g bs (i + 1) weight'
unfolding select_loop
loop_goes_on f g bs next weight i weight' b ei ew pos e c =
    rw (ei, ew, e) (round-rest i weight' b _ pos c)

-- Either way, a round with a positive threshold is a choice if what follows it is.
loop_round :
    (f g : ℕ) (bs : List Backend) (next weight i weight' : ℕ) (b : Backend)
    → next % length bs ≡ i
    → lowered i g bs weight ≡ weight'
    → 0 < i + weight'
    → get_elem? bs i ≡ some b
    → i < length bs
    → (leb weight' b.weight ≡ false → IsChoice bs (select_loop f g bs (i + 1) weight'))
    → IsChoice bs (select_loop (suc f) g bs next weight)
loop_round f g bs next weight i weight' b ei ew pos e l later =
    elim (Bool-cases (leb weight' b.weight)) [
      | inl c ↦ loop_chooses f g bs next weight i weight' b ei ew pos e l c
      | inr c ↦ rw (loop_goes_on f g bs next weight i weight' b ei ew pos e c) (later c)
    ]

lowered-suc : (i g : ℕ) (bs : List Backend) (weight : ℕ) → 0 < i → lowered i g bs weight ≡ weight
unfolding lowered
lowered-suc i g bs weight h = ground arith

-- Within a round the scan ends at a backend that is heavy enough, if one is ahead.
scan :
    (f g : ℕ) (bs : List Backend) (next weight m : ℕ) (top : Backend)
    → 0 < next
    → next ≤ m
    → m < length bs
    → get_elem? bs m ≡ some top
    → weight ≤ top.weight
    → 0 < weight
    → m < next + f
    → IsChoice bs (select_loop f g bs next weight)
scan zero g bs next weight m top n le l e h pos fuel = absurd (omega arith)
scan (suc f) g bs next weight m top n le l e h pos fuel =
    let (b, eb) = get_elem?_of_lt bs next (omega arith) in
    loop_round f g bs next weight next weight b (mod-eq_of_lt (omega arith))
      (lowered-suc next g bs weight n) (omega arith) eb (omega arith)
      (λ c. elim (dec_lt next m) [
        | yes q ↦
            scan f g bs (next + 1) weight m top (omega arith) (omega arith) l e h pos (omega arith)
        | no q ↦ absurd (stuck c (omega arith) eb)
      ])
  where
    stuck : {b : Backend} → leb weight b.weight ≡ false → next ≡ m → get_elem? bs next ≡ some b → ⊥
    stuck c q eb = ground (arith, rw q at eb)

lowered-reset :
    (g : ℕ) (bs : List Backend) (weight : ℕ) → weight ≤ g → lowered 0 g bs weight ≡ max_weight bs
unfolding lowered
lowered-reset g bs weight h = ground arith

lowered-falls :
    (g : ℕ) (bs : List Backend) (weight : ℕ) → g < weight → lowered 0 g bs weight ≡ weight - g
unfolding lowered
lowered-falls g bs weight h = ground arith

-- After a reset at index 0 the scan ends within the round.
reset_round :
    (f g next weight : ℕ) (b : Backend) (bs : List Backend)
    → AllPositive (b ∷ bs)
    → next % length (b ∷ bs) ≡ 0
    → weight ≤ g
    → length (b ∷ bs) ≤ f
    → IsChoice (b ∷ bs) (select_loop (suc f) g (b ∷ bs) next weight)
reset_round f g next weight b bs p z w h =
    let (m, top, e, l, heavy, pos) = heaviest b bs p.0 in
    loop_round f g (b ∷ bs) next weight 0 (max_weight (b ∷ bs)) b z
      (lowered-reset g (b ∷ bs) weight w) (omega arith) refl (omega arith)
      (λ c. later m top e l heavy pos c)
  where
    later :
        (m : ℕ) (top : Backend)
        → get_elem? (b ∷ bs) m ≡ some top
        → m < length (b ∷ bs)
        → top.weight ≡ max_weight (b ∷ bs)
        → 0 < max_weight (b ∷ bs)
        → leb (max_weight (b ∷ bs)) b.weight ≡ false
        → IsChoice (b ∷ bs) (select_loop f g (b ∷ bs) 1 (max_weight (b ∷ bs)))
    later zero top e l heavy pos c = absurd (ground (arith, e, heavy))
    later (suc m) top e l heavy pos c =
        scan f g (b ∷ bs) 1 (max_weight (b ∷ bs)) (suc m) top (omega arith) (omega arith) l e
          (omega (arith, heavy)) pos (omega arith)

falls_bound :
    (n g weight f : ℕ)
    → 0 < g
    → g < weight
    → 0 < n
    → weight * n + n < suc f
    → n - 1 + (weight - g) * n + n < f
falls_bound n g weight f pos h big fuel =
    let e : weight ≡ weight - g + 1 + (g - 1) = omega arith in
    let m : weight * n ≡ (weight - g + 1 + (g - 1)) * n = ap (λ (t : ℕ). t * n) e in
    omega (arith, m)

-- With positive weights and this much fuel the loop chooses a backend.
pub select_loop-IsChoice :
    (f g next weight : ℕ) (b : Backend) (bs : List Backend)
    → AllPositive (b ∷ bs)
    → 0 < g
    → next ≤ length (b ∷ bs)
    → length (b ∷ bs) - next + weight * length (b ∷ bs) + length (b ∷ bs) < f
    → IsChoice (b ∷ bs) (select_loop f g (b ∷ bs) next weight)
select_loop-IsChoice zero g next weight b bs p pos n fuel = absurd (omega arith)
select_loop-IsChoice (suc f) g next weight b bs p pos n fuel =
    let len = length (b ∷ bs) in
    let top : next % len ≡ 0 → IsChoice (b ∷ bs) (select_loop (suc f) g (b ∷ bs) next weight) = λ z.
      elim (dec_lt g weight) [
        | yes falls ↦
            loop_round f g (b ∷ bs) next weight 0 (weight - g) b z
              (lowered-falls g (b ∷ bs) weight falls) (omega arith) refl (omega arith)
              (λ c.
                select_loop-IsChoice f g 1 (weight - g) b bs p pos (omega arith)
                  (falls_bound len g weight f pos falls (omega arith) (omega arith)))
        | no resets ↦ reset_round f g next weight b bs p z (omega arith) (omega arith)
      ] in
    elim (dec_lt 0 next) [
      | no first ↦ top (ap (λ (k : ℕ). k % len) (omega arith) ∙ zero-mod len)
      | yes inside ↦ elim (dec_lt next len) [
        | yes before ↦
            let (c, ec) = get_elem?_of_lt (b ∷ bs) next before in
            loop_round f g (b ∷ bs) next weight next weight c (mod-eq_of_lt before)
              (lowered-suc next g (b ∷ bs) weight inside) (omega arith) ec before
              (λ w.
                select_loop-IsChoice f g (next + 1) weight b bs p pos (omega arith) (omega arith))
        | no at_end ↦ top (ap (λ (k : ℕ). k % len) (omega arith) ∙ mod_self len)
      ]
    ]
