-- ===== src/Ledger/Pending.antt =====
-- client/credit_ledger.go: an armed probe has its timer waiting, until the timer brings a credit.
use nexus_proxy_server.Common.{
  ℕ, zero, suc, ◌+◌, ◌-◌, ◌≡◌, Bool, true, false, not, ◌||◌, if◌then◌else◌, ◌++◌, List, [], ◌∷◌,
  Option, none, some, arith, ltb, ◌==◌, nat_eq, Option-cases, inl, inr, Bool-cases,
}
use nexus_proxy_server.Ledger.Defs.{
  Ledger, try_acquire, release, replenish, init_credits, has_credit, notify_enqueue, drain_yielded,
  close, kickstart_and_close, fire_probe, take_timer, signal, arm_stall_probe, clear_stall_cycle,
  add_clamped, install, probe_body,
}
use nexus_proxy_server.Ledger.Drain.{drain_loop}

abbrev pub one_of : ℕ → List ℕ → Bool
one_of n [] = false
one_of n (g ∷ gs) = g == n || one_of n gs

-- While `probe_fired` is set on an open ledger, the timer of the present generation is waiting, or it
-- has brought its credit.
abbrev pub Pending : List ℕ → Ledger → Type 0
Pending gens l =
    (one_of l.probe_gen l.probe_timers
      || (one_of l.probe_gen gens || (l.closed || not l.probe_fired)))
    ≡ true

drain_yielded-Pending :
    (gens : List ℕ) (has_more : Bool) (l : Ledger)
    → Pending gens l
    → Pending gens (drain_yielded has_more l)
unfolding drain_yielded has_credit signal arm_stall_probe
drain_yielded-Pending gens has_more l h = ground (arith, h)

try_acquire-Pending : (gens : List ℕ) (l : Ledger) → Pending gens l → Pending gens (try_acquire l).0
unfolding try_acquire
try_acquire-Pending gens l h = ground (arith, h)

release-Pending : (gens : List ℕ) (l : Ledger) → Pending gens l → Pending gens (release l)
unfolding release
release-Pending gens l h = ground (arith, h)

pub drain_loop-Pending :
    (gens : List ℕ) (write_ok : ℕ → Bool) (n : ℕ) (l : Ledger) (queued written : ℕ)
    → Pending gens l
    → Pending gens (drain_loop write_ok n l queued written).ledger
unfolding drain_loop
drain_loop-Pending gens write_ok zero l queued written h =
    drain_yielded-Pending gens (ltb 0 queued) l h
drain_loop-Pending gens write_ok (suc n) l queued written h =
    let l' = (try_acquire l).0 in
    let h' = try_acquire-Pending gens l h in
    elim (Bool-cases (try_acquire l).1) [
      | inr none_left ↦ rw none_left (drain_yielded-Pending gens (ltb 0 queued) l' h')
      | inl got ↦ elim (Bool-cases (queued == 0)) [
        | inl empty ↦
            rw (got, empty)
              (drain_yielded-Pending gens (ltb 0 queued) (release l') (release-Pending gens l' h'))
        | inr some_left ↦ elim (Bool-cases (write_ok written)) [
          | inl ok ↦
              rw (got, some_left, ok)
                (drain_loop-Pending gens write_ok n l' (queued - 1) (written + 1) h')
          | inr bad ↦ rw (got, some_left, bad) (release-Pending gens l' h')
        ]
      ]
    ]

pub notify_enqueue-Pending :
    (gens : List ℕ) (l : Ledger) → Pending gens l → Pending gens (notify_enqueue l)
unfolding notify_enqueue has_credit signal arm_stall_probe
notify_enqueue-Pending gens l h = ground (arith, h)

pub replenish-Pending :
    (gens : List ℕ) (n : ℕ) (l : Ledger) → Pending gens l → Pending gens (replenish n l)
unfolding replenish clear_stall_cycle add_clamped signal
replenish-Pending gens n l h = ground (arith, h)

pub init_credits-Pending :
    (gens : List ℕ) (n : ℕ) (l l' : Ledger)
    → init_credits n l ≡ some l'
    → Pending gens l
    → Pending gens l'
unfolding init_credits install clear_stall_cycle add_clamped signal
init_credits-Pending gens n l l' e h = ground (arith, e, h)

pub close-Pending : (gens : List ℕ) (l : Ledger) → Pending gens l → Pending gens (close l)
unfolding close clear_stall_cycle
close-Pending gens l h = ground (arith, h)

pub kickstart-Pending :
    (gens : List ℕ) (n : ℕ) (l : Ledger) → Pending gens l → Pending gens (kickstart_and_close n l)
unfolding kickstart_and_close clear_stall_cycle add_clamped signal
kickstart-Pending gens n l h = ground (arith, h)

one_of-take_timer :
    (gen n : ℕ) (gs rest : List ℕ)
    → take_timer gen gs ≡ some rest
    → one_of n gs ≡ (gen == n || one_of n rest)
unfolding take_timer
one_of-take_timer gen n [] rest e = cc
one_of-take_timer gen n (g ∷ gs) rest e = elim (Option-cases (take_timer gen gs)) [
  | inl gone ↦ ground (arith, gone)
  | inr (r, took) ↦ ground (arith, one_of-take_timer gen n gs r took)
]

pub fire_probe-Pending :
    (gens : List ℕ) (gen : ℕ) (l : Ledger) (t : Option (List ℕ))
    → take_timer gen l.probe_timers ≡ t
    → Pending gens l
    → let l' = (fire_probe gen t l).0 in
      Pending ((if ltb l.available l'.available then gen ∷ [] else []) ++ gens) l'
unfolding fire_probe probe_body signal
fire_probe-Pending gens gen l none e h = ground (arith, h)
fire_probe-Pending gens gen l (some rest) e h =
    ground (arith, one_of-take_timer gen l.probe_gen l.probe_timers rest e, h)
