-- ===== src/Ledger/Probe.antt =====
-- client/credit_ledger.go: the stall probe grants at most one credit in a stall cycle.
use nexus_proxy_server.Common.{
  ℕ, suc, ◌+◌, ◌≤◌, ◌≡◌, ◌≢◌, refl, Bool, false, List, [], ◌∷◌, Option, none, some, arith,
  if◌then◌else◌, ◌==◌, nat_eq, Option-cases, inl, inr, ◌⊎◌,
}
use nexus_proxy_server.Ledger.Defs.{
  Ledger, new_credit_ledger, try_acquire, release, replenish, init_credits, notify_enqueue,
  drain_yielded, close, kickstart_and_close, fire_probe, take_timer, arm_stall_probe,
  clear_stall_cycle,
}
use nexus_proxy_server.Ledger.Ops.{
  Op, acquire_op, release_op, replenish_op, init_op, enqueue_op, yield_op, close_op, kickstart_op,
  fire_op, step, Reach, start, next,
}
use nexus_proxy_server.Ledger.Credits.{tally}

-- The timers of one generation that have not run.
abbrev pub waiting : ℕ → List ℕ → ℕ
waiting gen [] = 0
waiting gen (g ∷ gs) = (if g == gen then 1 else 0) + waiting gen gs

abbrev pub AllBelow : ℕ → List ℕ → Type 0
AllBelow n [] = Unit {0}
AllBelow n (g ∷ gs) = (g ≤ n) × AllBelow n gs

-- The timers are of generations up to the present one, and of the present one at most one waits,
-- and only while the probe counts as fired.
pub record IsArmed (l : Ledger) : Type 0 where
  pub below : AllBelow l.probe_gen l.probe_timers
  pub single : waiting l.probe_gen l.probe_timers ≤ (if l.probe_fired then 1 else 0)

AllBelow-suc : (n : ℕ) (gs : List ℕ) → AllBelow n gs → AllBelow (n + 1) gs
AllBelow-suc n [] h = tt
AllBelow-suc n (g ∷ gs) h = (omega arith, AllBelow-suc n gs h.1)

waiting-suc : (n : ℕ) (gs : List ℕ) → AllBelow n gs → waiting (n + 1) gs ≡ 0
waiting-suc n [] h = refl
waiting-suc n (g ∷ gs) h = ground (arith, waiting-suc n gs h.1)

take_timer_lem :
    (gen n : ℕ) (gs rest : List ℕ)
    → take_timer gen gs ≡ some rest
    → AllBelow n gs
    → AllBelow n rest × (waiting gen gs ≡ suc (waiting gen rest)) × (waiting n rest ≤ waiting n gs)
unfolding take_timer
take_timer_lem gen n [] rest e h = cc
take_timer_lem gen n (g ∷ gs) rest e h = elim (Option-cases (take_timer gen gs)) [
  | inl gone ↦ ground (arith, gone)
  | inr (r, took) ↦ ground (arith, take_timer_lem gen n gs r took h.1)
]

-- Credits that a probe grants to itself.
unfoldable pub probed : Op → Ledger → ℕ
probed (fire_op gen) l = if (fire_probe gen (take_timer gen l.probe_timers) l).1 then 1 else 0
probed _ l = 0

-- What may still be granted in this cycle: once the probe has fired, what its timer holds.
abbrev left : Ledger → ℕ
left l = if l.probe_fired then waiting l.probe_gen l.probe_timers else 1

fire_probe-IsArmed :
    (gen : ℕ) (o : Option (List ℕ)) (l : Ledger)
    → take_timer gen l.probe_timers ≡ o
    → IsArmed l
    → let (l', grants) = fire_probe gen o l in
      IsArmed l' × ((if grants then 1 else 0) + left l' ≤ left l)
unfolding fire_probe
fire_probe-IsArmed gen none l e h = (h, omega arith)
fire_probe-IsArmed gen (some rest) l e h =
    ground (arith, take_timer_lem gen l.probe_gen l.probe_timers rest e h.below, h.single)

arm_stall_probe-IsArmed :
    (l : Ledger) → IsArmed l → IsArmed (arm_stall_probe l) × (left (arm_stall_probe l) ≤ left l)
unfolding arm_stall_probe
arm_stall_probe-IsArmed l h = ground (
  arith,
  AllBelow-suc l.probe_gen l.probe_timers h.below,
  waiting-suc l.probe_gen l.probe_timers h.below,
)

clear_stall_cycle-IsArmed : (l : Ledger) → IsArmed l → IsArmed (clear_stall_cycle l)
unfolding clear_stall_cycle
clear_stall_cycle-IsArmed l h = ground (
  arith,
  AllBelow-suc l.probe_gen l.probe_timers h.below,
  waiting-suc l.probe_gen l.probe_timers h.below,
)

-- The calls within one stall cycle: all but the four that clear it.
abbrev pub InCycle : Op → Type 0
InCycle (replenish_op n) = ⊥
InCycle (init_op n) = ⊥
InCycle close_op = ⊥
InCycle (kickstart_op n) = ⊥
InCycle _ = Unit {0}

abbrev pub AllInCycle : List Op → Type 0
AllInCycle [] = Unit {0}
AllInCycle (op ∷ ops) = InCycle op × AllInCycle ops

yield-IsArmed :
    (b : Bool) (l : Ledger)
    → IsArmed l
    → IsArmed (drain_yielded b l) × (left (drain_yielded b l) ≤ left l)
unfolding drain_yielded
yield-IsArmed b l h = ground (
  arith,
  arm_stall_probe-IsArmed (record l { signaled = false })
      (record { below = h.below; single = h.single }),
)

enqueue-IsArmed :
    (l : Ledger) → IsArmed l → IsArmed (notify_enqueue l) × (left (notify_enqueue l) ≤ left l)
unfolding notify_enqueue
enqueue-IsArmed l h = ground (arith, arm_stall_probe-IsArmed l h)

InCycle-IsArmed :
    (op : Op) (l l' : Ledger)
    → InCycle op
    → IsArmed l
    → step op l ≡ some l'
    → IsArmed l' × (probed op l + left l' ≤ left l)
unfolding step probed try_acquire release
InCycle-IsArmed acquire_op l l' c h e = ground arith
InCycle-IsArmed release_op l l' c h e = ground arith
InCycle-IsArmed enqueue_op l l' c h e = ground (arith, enqueue-IsArmed l h)
InCycle-IsArmed (yield_op b) l l' c h e = ground (arith, yield-IsArmed b l h)
InCycle-IsArmed (fire_op gen) l l' c h e =
    ground (arith, fire_probe-IsArmed gen (take_timer gen l.probe_timers) l refl h)
InCycle-IsArmed _ l l' c h e = absurd c

clears-IsArmed :
    (l l' : Ledger)
    → l'.probe_gen ≡ l.probe_gen + 1
    → l'.probe_fired ≡ false
    → l'.probe_timers ≡ l.probe_timers
    → IsArmed l
    → IsArmed l'
clears-IsArmed l l' g f t h = record {
  below = rw (g, t) (AllBelow-suc l.probe_gen l.probe_timers h.below);
  single = rw (g, t, f) (omega (arith, waiting-suc l.probe_gen l.probe_timers h.below));
}

-- A call that clears the stall cycle starts a new generation, or leaves the probe alone.
abbrev Renewed : Ledger → Ledger → Type 0
Renewed l l' =
    ((l'.probe_gen ≡ l.probe_gen + 1)
      × (l'.probe_fired ≡ false)
      × (l'.probe_timers ≡ l.probe_timers))
    ⊎ ((l'.probe_gen ≡ l.probe_gen)
        × (l'.probe_fired ≡ l.probe_fired)
        × (l'.probe_timers ≡ l.probe_timers))

Renewed-IsArmed : (l l' : Ledger) → Renewed l l' → IsArmed l → IsArmed l'
Renewed-IsArmed l l' (inl (g, f, t)) h = clears-IsArmed l l' g f t h
Renewed-IsArmed l l' (inr (g, f, t)) h = record {
  below = rw (g, t) h.below;
  single = rw (g, t, f) h.single;
}

step-IsArmed : (op : Op) (l l' : Ledger) → IsArmed l → step op l ≡ some l' → IsArmed l'
unfolding step replenish init_credits close kickstart_and_close
step-IsArmed (replenish_op n) l l' h e = Renewed-IsArmed l l' (ground arith) h
step-IsArmed (init_op n) l l' h e = Renewed-IsArmed l l' (ground arith) h
step-IsArmed close_op l l' h e = Renewed-IsArmed l l' (ground arith) h
step-IsArmed (kickstart_op n) l l' h e = Renewed-IsArmed l l' (ground arith) h
step-IsArmed acquire_op l l' h e = (InCycle-IsArmed acquire_op l l' tt h e).0
step-IsArmed release_op l l' h e = (InCycle-IsArmed release_op l l' tt h e).0
step-IsArmed enqueue_op l l' h e = (InCycle-IsArmed enqueue_op l l' tt h e).0
step-IsArmed (yield_op b) l l' h e = (InCycle-IsArmed (yield_op b) l l' tt h e).0
step-IsArmed (fire_op gen) l l' h e = (InCycle-IsArmed (fire_op gen) l l' tt h e).0

pub Reach-IsArmed : (initial max_cap : ℕ) {l : Ledger} → Reach initial max_cap l → IsArmed l
unfolding new_credit_ledger
Reach-IsArmed initial max_cap start = record { below = tt; single = omega arith }
Reach-IsArmed initial max_cap (next op r e) =
    step-IsArmed op _ _ (Reach-IsArmed initial max_cap r) e

InCycle-ne-none : (op : Op) (l : Ledger) → InCycle op → step op l ≢ none
unfolding step
InCycle-ne-none (init_op n) l c e = absurd c
InCycle-ne-none _ l c e = cc

probed-le-left :
    (ops : List Op) (l : Ledger) → AllInCycle ops → IsArmed l → tally probed ops l ≤ left l
unfolding tally
probed-le-left [] l c h = omega arith
probed-le-left (op ∷ ops) l c h = elim (Option-cases (step op l)) [
  | inl panic ↦ absurd (InCycle-ne-none op l c.0 panic)
  | inr (l', ok) ↦
      let (h', b) = InCycle-IsArmed op l l' c.0 h ok in
      ground (arith, b, probed-le-left ops l' c.1 h')
]

-- From any state that a ledger comes to, and up to the next call that ends the stall cycle, the
-- probe timers grant at most one credit, whichever timers fire and when.
pub probed-le-one :
    (initial max_cap : ℕ) (ops : List Op) {l : Ledger}
    → Reach initial max_cap l
    → AllInCycle ops
    → tally probed ops l ≤ 1
probed-le-one initial max_cap ops {l} r c = ground (
  arith,
  Reach-IsArmed initial max_cap r,
  probed-le-left ops l c (Reach-IsArmed initial max_cap r),
)
