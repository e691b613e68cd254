-- ===== src/Ledger/Defs.antt =====
-- client/credit_ledger.go: the state of a ledger and its methods, each as one atomic step. Amounts
-- are `int64` of the source: an amount is a natural number, and one that is not positive is 0.
use nexus_proxy_server.Common.{
  ℕ, ◌+◌, ◌-◌, Bool, true, false, not, ◌&&◌, ◌||◌, ltb, leb, ◌==◌, if◌then◌else◌, Option, none,
  some, List, [], ◌∷◌, nat_eq,
}

-- `math.MaxInt64`, which stands for an unlimited grant.
abbrev pub max_int64 : ℕ
max_int64 = 9223372036854775807

-- `probe_timers` holds the generations of the probe timers whose body has not run yet. A body may
-- run after its `Stop`, if the timer had fired before; `probe_timer` is the field that `Stop` reads.
-- `notified` counts the calls of `notify`.
pub record Ledger : Type 0 where
  pub available : ℕ
  pub signaled : Bool
  pub probe_fired : Bool
  pub probe_gen : ℕ
  pub closed : Bool
  pub initialized : Bool
  pub unlimited : Bool
  pub max_cap : ℕ
  pub probe_timer : Option ℕ
  pub probe_timers : List ℕ
  pub notified : ℕ

unfoldable pub new_credit_ledger : ℕ → ℕ → Ledger
new_credit_ledger initial max_cap = record {
  available =
      if initial == max_int64 then max_int64 else if ltb max_cap initial then max_cap else initial;
  signaled = false;
  probe_fired = false;
  probe_gen = 0;
  closed = false;
  initialized = false;
  unlimited = initial == max_int64;
  max_cap = max_cap;
  probe_timer = none;
  probe_timers = [];
  notified = 0;
}

unfoldable pub try_acquire : Ledger → Ledger × Bool
try_acquire l =
    if l.unlimited
    then (l, true)
    else if l.available == 0
    then (l, false)
    else (record l { available = l.available - 1 }, true)

unfoldable pub release : Ledger → Ledger
release l =
    if l.unlimited
    then l
    else if leb l.max_cap l.available
    then l
    else record l { available = l.available + 1 }

-- `addClamped`: `next < 0` is the sum that passes 2 ^ 63 - 1.
unfoldable pub add_clamped : ℕ → Ledger → Ledger
add_clamped n l =
    if n == 0
    then l
    else let n' = (if ltb l.max_cap n then l.max_cap else n) in
      let next = l.available + n' in
      record l { available = if ltb l.max_cap next || ltb max_int64 next then l.max_cap else next }

-- `clearStallCycle`.
unfoldable pub clear_stall_cycle : Ledger → Ledger
clear_stall_cycle l = record l {
  probe_fired = false;
  probe_gen = l.probe_gen + 1;
  probe_timer = none;
}

-- `if l.signaled.CompareAndSwap(false, true) { l.notify() }`.
unfoldable pub signal : Ledger → Ledger
signal l = if l.signaled then l else record l { signaled = true; notified = l.notified + 1 }

unfoldable pub replenish : ℕ → Ledger → Ledger
unfolding clear_stall_cycle add_clamped signal
replenish n l =
    if l.unlimited then l else if n == 0 then l else signal (add_clamped n (clear_stall_cycle l))

-- The credits that `InitCredits` installs.
unfoldable pub install : ℕ → Ledger → Ledger
unfolding add_clamped
install n l =
    if n == max_int64 then record l { unlimited = true; available = max_int64 } else add_clamped n l

-- `InitCredits`; `none` is the panic of a second call.
unfoldable pub init_credits : ℕ → Ledger → Option Ledger
unfolding clear_stall_cycle install signal
init_credits n l =
    if l.closed
    then some l
    else if l.initialized
    then none
    else some (signal (install n (clear_stall_cycle (record l { initialized = true }))))

-- `armStallProbe`: the probe is armed at most once in a stall cycle.
unfoldable pub arm_stall_probe : Ledger → Ledger
arm_stall_probe l =
    if l.closed then l else if ltb 0 l.available then l else if l.probe_fired then l else record l {
      probe_fired = true;
      probe_gen = l.probe_gen + 1;
      probe_timer = some (l.probe_gen + 1);
      probe_timers = (l.probe_gen + 1) ∷ l.probe_timers;
    }

-- Whether there is a credit to spend.
unfoldable pub has_credit : Ledger → Bool
has_credit l = l.unlimited || ltb 0 l.available

unfoldable pub notify_enqueue : Ledger → Ledger
unfolding has_credit signal arm_stall_probe
notify_enqueue l = if has_credit l then signal l else if l.closed then l else arm_stall_probe l

-- `DrainYielded`; the argument is what `hasMoreFn` returns after `signaled` is cleared.
unfoldable pub drain_yielded : Bool → Ledger → Ledger
unfolding has_credit signal arm_stall_probe
drain_yielded has_more l =
    let l' = record l { signaled = false } in
    if not has_more then l' else if has_credit l' then signal l' else arm_stall_probe l'

unfoldable pub available_credits : Ledger → ℕ
available_credits l = if l.unlimited then max_int64 else l.available

unfoldable pub close : Ledger → Ledger
unfolding clear_stall_cycle
close l = if l.closed then l else clear_stall_cycle (record l { closed = true })

unfoldable pub kickstart_and_close : ℕ → Ledger → Ledger
unfolding clear_stall_cycle add_clamped signal
kickstart_and_close n l =
    if l.closed
    then l
    else let l' = clear_stall_cycle (record l { closed = true }) in
      signal (if ltb 0 n && not l'.unlimited then add_clamped n l' else l')

-- The timers left when the body of generation `gen` runs, if it has not run yet.
unfoldable pub take_timer : ℕ → List ℕ → Option (List ℕ)
take_timer gen [] = none
take_timer gen (g ∷ gs) =
    let rest = take_timer gen gs in
    if g == gen then some gs else elim rest [ none ↦ none | some r ↦ some (g ∷ r) ]

-- The body that `armStallProbe` gives to `time.AfterFunc`; the flag, which the source
-- does not return, says that it granted a credit.
unfoldable pub probe_body : ℕ → Ledger → Ledger × Bool
unfolding signal
probe_body gen l =
    if l.closed || not (l.probe_gen == gen)
    then (l, false)
    else if ltb 0 l.available
    then (record l { probe_fired = false }, false)
    else (signal (record l { available = l.available + 1 }), true)

-- A timer whose body has not run fires.
unfoldable pub fire_probe : ℕ → Option (List ℕ) → Ledger → Ledger × Bool
unfolding probe_body
fire_probe gen none l = (l, false)
fire_probe gen (some rest) l = probe_body gen (record l { probe_timers = rest })
