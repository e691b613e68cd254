-- ===== src/Ledger/Credits.antt =====
-- client/credit_ledger.go: the credits that a run spends, against those that were issued.
use nexus_proxy_server.Common.{
  ℕ, ◌+◌, ◌≤◌, ◌≡◌, ◌≢◌, false, List, [], ◌∷◌, Option, none, some, arith, if◌then◌else◌, nat_eq,
  Option-cases, inl, inr,
}
use nexus_proxy_server.Ledger.Defs.{
  Ledger, max_int64, try_acquire, release, replenish, init_credits, notify_enqueue, drain_yielded,
  close, kickstart_and_close, fire_probe, take_timer,
}
use nexus_proxy_server.Ledger.Ops.{
  Op, acquire_op, release_op, replenish_op, init_op, kickstart_op, fire_op, step,
}

-- The credits that a call spends, and those that it is issued or given back: the grants of the
-- proxy, the one bonus batch of the close, and the grant of a probe to itself.
unfoldable pub spent : Op → Ledger → ℕ
spent acquire_op l = if (try_acquire l).1 then 1 else 0
spent _ l = 0

unfoldable pub issued : Op → Ledger → ℕ
issued release_op l = 1
issued (replenish_op n) l = n
issued (init_op n) l = n
issued (kickstart_op n) l = if l.closed then 0 else n
issued (fire_op gen) l = if (fire_probe gen (take_timer gen l.probe_timers) l).1 then 1 else 0
issued _ l = 0

unfoldable pub run : List Op → Ledger → Option Ledger
run [] l = some l
run (op ∷ ops) l = elim (step op l) [ none ↦ none | some l' ↦ run ops l' ]

-- Over a run, each counted in the state where the call is made.
unfoldable pub tally : (Op → Ledger → ℕ) → List Op → Ledger → ℕ
tally f [] l = 0
tally f (op ∷ ops) l = f op l + elim (step op l) [ none ↦ 0 | some l' ↦ tally f ops l' ]

-- No grant switches the ledger to unlimited.
abbrev pub Finite : List Op → Type 0
Finite [] = Unit {0}
Finite (init_op n ∷ ops) = (n ≢ max_int64) × Finite ops
Finite (_ ∷ ops) = Finite ops

abbrev FiniteOp : Op → Type 0
FiniteOp (init_op n) = n ≢ max_int64
FiniteOp _ = Unit {0}

abbrev Balanced : Op → Ledger → Ledger → Type 0
Balanced op l l' =
    (l'.unlimited ≡ false)
    × (l'.max_cap ≡ l.max_cap)
    × (l'.available + spent op l ≤ l.available + issued op l)

fire_balance :
    (gen : ℕ) (o : Option (List ℕ)) (l : Ledger)
    → ((fire_probe gen o l).0.unlimited ≡ l.unlimited)
      × ((fire_probe gen o l).0.max_cap ≡ l.max_cap)
      × ((fire_probe gen o l).0.available ≡ l.available + (if (fire_probe gen o l).1 then 1 else 0))
unfolding fire_probe
fire_balance gen none l = ground arith
fire_balance gen (some rest) l = ground arith

init_balance :
    (n : ℕ) (l l' : Ledger)
    → l.unlimited ≡ false
    → l.max_cap ≤ max_int64
    → n ≢ max_int64
    → init_credits n l ≡ some l'
    → (l'.unlimited ≡ false) × (l'.max_cap ≡ l.max_cap) × (l'.available ≤ l.available + n)
unfolding init_credits
init_balance n l l' u m f e = ground arith

kickstart_balance :
    (n : ℕ) (l : Ledger)
    → l.unlimited ≡ false
    → l.max_cap ≤ max_int64
    → ((kickstart_and_close n l).unlimited ≡ false)
      × ((kickstart_and_close n l).max_cap ≡ l.max_cap)
      × ((kickstart_and_close n l).available ≤ l.available + (if l.closed then 0 else n))
unfolding kickstart_and_close
kickstart_balance n l u m = ground arith

step_balance :
    (op : Op) (l l' : Ledger)
    → l.unlimited ≡ false
    → l.max_cap ≤ max_int64
    → FiniteOp op
    → step op l ≡ some l'
    → Balanced op l l'
unfolding step spent issued try_acquire release replenish notify_enqueue drain_yielded close
step_balance (init_op n) l l' u m f e = ground (arith, init_balance n l l' u m f e)
step_balance (kickstart_op n) l l' u m f e = ground (arith, kickstart_balance n l u m)
step_balance (fire_op gen) l l' u m f e =
    ground (arith, fire_balance gen (take_timer gen l.probe_timers) l)
step_balance _ l l' u m f e = ground arith

FiniteOp-head : (op : Op) (ops : List Op) → Finite (op ∷ ops) → FiniteOp op × Finite ops
FiniteOp-head (init_op n) ops f = f
FiniteOp-head acquire_op ops f = (tt, f)
FiniteOp-head _ ops f = (tt, f)

-- What a run of a limited ledger spends, with what is left, is at most what it had and what it was
-- issued: the grants, the credits given back, one bonus batch and the grants of the probes. No grant
-- of the run is the unlimited one, and the cap is an `int64`.
pub spent-le-issued :
    (ops : List Op) (l : Ledger) {last : Ledger}
    → l.unlimited ≡ false
    → l.max_cap ≤ max_int64
    → Finite ops
    → run ops l ≡ some last
    → last.available + tally spent ops l ≤ l.available + tally issued ops l
unfolding run tally
spent-le-issued [] l u m f e = ground arith
spent-le-issued (op ∷ ops) l {last} u m f e = elim (Option-cases (step op l)) [
  | inl panic ↦ cc
  | inr (l', ok) ↦
      let (g, fs) = FiniteOp-head op ops f in
      let (u', m', b) = step_balance op l l' u m g ok in
      ground (arith, b, spent-le-issued ops l' {last = last} u' (rw m' m) fs)
]
