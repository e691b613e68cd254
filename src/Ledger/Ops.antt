-- ===== src/Ledger/Ops.antt =====
-- client/credit_ledger.go: runs of a ledger, and the bounds that every method keeps.
use nexus_proxy_server.Common.{
  ℕ, ◌≤◌, ◌<◌, ◌≡◌, Bool, false, List, Option, none, some, arith, nat_eq,
}
use nexus_proxy_server.Ledger.Defs.{
  Ledger, new_credit_ledger, try_acquire, release, replenish, init_credits, notify_enqueue,
  drain_yielded, close, kickstart_and_close, fire_probe, take_timer,
}

pub data Op : Type 0 where
  acquire_op : Op
  release_op : Op
  replenish_op : ℕ → Op
  init_op : ℕ → Op
  enqueue_op : Op
  yield_op : Bool → Op
  close_op : Op
  kickstart_op : ℕ → Op
  fire_op : ℕ → Op

-- `none` is a panic.
unfoldable pub step : Op → Ledger → Option Ledger
step acquire_op l = some (try_acquire l).0
step release_op l = some (release l)
step (replenish_op n) l = some (replenish n l)
step (init_op n) l = init_credits n l
step enqueue_op l = some (notify_enqueue l)
step (yield_op has_more) l = some (drain_yielded has_more l)
step close_op l = some (close l)
step (kickstart_op n) l = some (kickstart_and_close n l)
step (fire_op gen) l = some (fire_probe gen (take_timer gen l.probe_timers) l).0

-- The states that the ledger built with `initial` and `max_cap` can come to.
pub data Reach (initial max_cap : ℕ) : Ledger → Type 0 where
  start : Reach initial max_cap (new_credit_ledger initial max_cap)
  next :
      {l l' : Ledger}
      → (op : Op) → Reach initial max_cap l
      → step op l ≡ some l'
      → Reach initial max_cap l'

-- Credits are capped, unless the ledger is unlimited; the cap stays.
pub record IsBounded (max_cap : ℕ) (l : Ledger) : Type 0 where
  pub cap : l.max_cap ≡ max_cap
  pub capped : l.unlimited ≡ false → l.available ≤ max_cap

pub new_credit_ledger-IsBounded :
    (initial max_cap : ℕ) → IsBounded max_cap (new_credit_ledger initial max_cap)
unfolding new_credit_ledger
new_credit_ledger-IsBounded initial max_cap = ground arith

fire_probe-IsBounded :
    (max_cap gen : ℕ) (o : Option (List ℕ)) (l : Ledger)
    → 0 < max_cap
    → IsBounded max_cap l
    → IsBounded max_cap (fire_probe gen o l).0
unfolding fire_probe
fire_probe-IsBounded max_cap gen none l c h = h
fire_probe-IsBounded max_cap gen (some rest) l c h = ground arith

kickstart-IsBounded :
    (max_cap n : ℕ) (l : Ledger) → IsBounded max_cap l → IsBounded max_cap (kickstart_and_close n l)
unfolding kickstart_and_close
kickstart-IsBounded max_cap n l h = ground arith

init-IsBounded :
    (max_cap n : ℕ) (l l' : Ledger)
    → IsBounded max_cap l
    → init_credits n l ≡ some l'
    → IsBounded max_cap l'
unfolding init_credits
init-IsBounded max_cap n l l' h e = ground arith

pub step-IsBounded :
    (max_cap : ℕ) (op : Op) (l l' : Ledger)
    → 0 < max_cap
    → IsBounded max_cap l
    → step op l ≡ some l'
    → IsBounded max_cap l'
unfolding step try_acquire release replenish notify_enqueue drain_yielded close
step-IsBounded max_cap (init_op n) l l' c h e = init-IsBounded max_cap n l l' h e
step-IsBounded max_cap (kickstart_op n) l l' c h e =
    ground (arith, kickstart-IsBounded max_cap n l h)
step-IsBounded max_cap (fire_op gen) l l' c h e =
    ground (arith, fire_probe-IsBounded max_cap gen (take_timer gen l.probe_timers) l c h)
step-IsBounded max_cap _ l l' c h e = ground arith

pub Reach-IsBounded :
    (initial max_cap : ℕ) {l : Ledger} → 0 < max_cap → Reach initial max_cap l → IsBounded max_cap l
Reach-IsBounded initial max_cap c start = new_credit_ledger-IsBounded initial max_cap
Reach-IsBounded initial max_cap c (next op r e) =
    step-IsBounded max_cap op _ _ c (Reach-IsBounded initial max_cap c r) e

-- In every run of the methods and of the probe timers of a ledger whose cap is positive, the cap stays
-- what it was, and the credits stay within it while the ledger is not unlimited.
pub available-le-cap :
    (initial max_cap : ℕ) (l : Ledger)
    → 0 < max_cap
    → Reach initial max_cap l
    → l.unlimited ≡ false
    → (l.max_cap ≡ max_cap) × (l.available ≤ max_cap)
available-le-cap initial max_cap l c r u =
    let h = Reach-IsBounded initial max_cap c r in (h.cap, h.capped u)
