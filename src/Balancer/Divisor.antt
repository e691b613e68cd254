-- ===== src/Balancer/Divisor.antt =====
-- internal/hub/loadbalancer.go: `gcd` and `recalculateGCD`.
use native.Mathlib.Nat.{mod-lt}
use nexus_proxy_server.Common.{
  ℕ, zero, suc, ◌+◌, ◌*◌, ◌/◌, ◌%◌, ◌<◌, ◌≡◌, ◌≢◌, ap, ◌∙◌, List, [], ◌∷◌, ◌==◌, nat_eq, arith,
  Bool-cases, inl, inr,
}
use nexus_proxy_server.Balancer.Pool.{Backend, gcd_loop, gcd, gcd_from, recalculated_gcd}
use nexus_proxy_server.Balancer.Choice.{AllPositive}

infix 50 ◌divides◌
abbrev pub ◌divides◌ : ℕ → ℕ → Type 0
d divides n = (k : ℕ) × (n ≡ k * d)

abbrev pub DividesAll : ℕ → List Backend → Type 0
DividesAll d [] = Unit {0}
DividesAll d (b ∷ bs) = (d divides b.weight) × DividesAll d bs

divides_of_mod : (d a b : ℕ) → d divides b → d divides (a % b) → b ≢ 0 → d divides a
divides_of_mod d a b (k, e) (m, f) h =
    let q : a ≡ b * (a / b) + a % b = omega arith in
    let p : b * (a / b) ≡ k * d * (a / b) = ap (λ (t : ℕ). t * (a / b)) e in
    (k * (a / b) + m, omega (arith, q, p, f))

-- With enough fuel the loop ends at a common divisor.
gcd_loop-divides : (f a b : ℕ) → b < f → (gcd_loop f a b divides a) × (gcd_loop f a b divides b)
unfolding gcd_loop
gcd_loop-divides zero a b h = elim h [ ]
gcd_loop-divides (suc f) a b h = elim (Bool-cases (b == 0)) [
  | inl done ↦ rw done ((1, omega arith), (0, ground arith))
  | inr more ↦
      let ne : b ≢ 0 = ground arith in
      let (db, dr) =
        gcd_loop-divides f b (a % b) (omega (arith, mod-lt a {m = b} (ground arith))) in
      rw more (divides_of_mod _ a b db dr ne, db)
]

gcd_loop_pos : (f a b : ℕ) → 0 < a → 0 < gcd_loop f a b
unfolding gcd_loop
gcd_loop_pos zero a b h = h
gcd_loop_pos (suc f) a b h = ground (arith, gcd_loop_pos f b (a % b))

divides_trans : (d e n : ℕ) → d divides e → e divides n → d divides n
divides_trans d e n (k, p) (m, q) = (m * k, q ∙ ap (λ (t : ℕ). m * t) p ∙ omega arith)

gcd_from_lem :
    (g : ℕ) (bs : List Backend)
    → 0 < g
    → (0 < gcd_from g bs) × (gcd_from g bs divides g) × DividesAll (gcd_from g bs) bs
unfolding gcd_from gcd
gcd_from_lem g [] h = (h, (1, omega arith), tt)
gcd_from_lem g (b ∷ bs) h =
    let (dg, db) = gcd_loop-divides (suc b.weight) g b.weight (omega arith) in
    let (pos, below, all) =
      gcd_from_lem (gcd_loop (suc b.weight) g b.weight) bs
        (gcd_loop_pos (suc b.weight) g b.weight h) in
    (pos, divides_trans _ _ g below dg, (divides_trans _ _ b.weight below db, all))

-- With positive weights the step of the thresholds is positive and divides every weight.
pub recalculated_gcd_lem :
    (bs : List Backend)
    → AllPositive bs
    → (0 < recalculated_gcd bs) × DividesAll (recalculated_gcd bs) bs
unfolding recalculated_gcd
recalculated_gcd_lem [] p = (omega arith, tt)
recalculated_gcd_lem (b ∷ bs) p =
    let (pos, below, all) = gcd_from_lem b.weight bs p.0 in (pos, (below, all))
