-- ===== src/Flows/Prefixes.antt =====
-- internal/proxy/udp_listener.go: what `evictLocked` keeps is the front of the list, and no key is there
-- twice.
use mathlib.Core.List.{append_assoc, append-nil}
use nexus_proxy_server.Common.{
  ℕ, zero, suc, ◌+◌, ◌≤◌, ◌<◌, ◌≡◌, ◌≢◌, refl, sym, subst, ap, ◌∙◌, true, false, leb, ◌==◌, nat_eq,
  List, [], ◌∷◌, ◌++◌, none, some, length, length-append, arith, Bool-cases, Option-cases, inl, inr,
}
use nexus_proxy_server.Flows.Lru.{find, drop_flow, unsnoc}
use nexus_proxy_server.Flows.Listener.{UdpFlow, key_of, is_fresh, expire, shrink}
use nexus_proxy_server.Flows.Recency.{
  AllFresh, unsnoc_lem, unsnoc_empty, expire-none, expire-fresh, expire-idle,
}

-- No flow has the key.
abbrev pub IsAbsent : ℕ → List UdpFlow → Type 0
IsAbsent k [] = Unit {0}
IsAbsent k (f ∷ fs) = (f.key ≢ k) × IsAbsent k fs

-- No two flows have the same key.
abbrev pub Distinct : List UdpFlow → Type 0
Distinct [] = Unit {0}
Distinct (f ∷ fs) = IsAbsent f.key fs × Distinct fs

drop_flow-IsAbsent :
    (j k : ℕ) (fs : List UdpFlow) → IsAbsent j fs → IsAbsent j (drop_flow key_of k fs)
unfolding drop_flow
drop_flow-IsAbsent j k [] h = tt
drop_flow-IsAbsent j k (f ∷ fs) h = elim (Bool-cases (f.key == k)) [
  | inl e ↦ rw e h.1
  | inr e ↦ rw e (h.0, drop_flow-IsAbsent j k fs h.1)
]

pub drop_flow-Distinct :
    (k : ℕ) (fs : List UdpFlow)
    → Distinct fs
    → IsAbsent k (drop_flow key_of k fs) × Distinct (drop_flow key_of k fs)
unfolding drop_flow
drop_flow-Distinct k [] h = (tt, tt)
drop_flow-Distinct k (f ∷ fs) h = elim (Bool-cases (f.key == k)) [
  | inl e ↦
      let same : f.key ≡ k = ground (arith, e) in rw e (subst (λ j. IsAbsent j fs) same h.0, h.1)
  | inr e ↦
      let (absent, distinct) = drop_flow-Distinct k fs h.1 in
      let other : f.key ≢ k = λ same. absurd (ground (arith, e, same)) in
      rw e ((other, absent), (drop_flow-IsAbsent f.key k fs h.0, distinct))
]

pub length-drop_flow : (k : ℕ) (fs : List UdpFlow) → length (drop_flow key_of k fs) ≤ length fs
unfolding drop_flow
length-drop_flow k [] = omega arith
length-drop_flow k (f ∷ fs) = elim (Bool-cases (f.key == k)) [
  | inl e ↦ rw e (omega arith)
  | inr e ↦ rw e (omega (arith, length-drop_flow k fs))
]

-- A flow that was found makes the list shorter when it is dropped.
pub length-found :
    (k : ℕ) (fs : List UdpFlow) (f : UdpFlow)
    → find key_of k fs ≡ some f
    → (length (drop_flow key_of k fs) < length fs) × (f.key ≡ k)
unfolding drop_flow find
length-found k [] f h = absurd (ground (arith, h))
length-found k (g ∷ fs) f h = elim (Bool-cases (g.key == k)) [
  | inl e ↦ (rw e (omega arith), ground (arith, e, h))
  | inr e ↦
      let rest = length-found k fs f (ground (arith, e, h)) in
      (rw e (omega (arith, rest.0)), rest.1)
]

pub Distinct-init : (init rest : List UdpFlow) → Distinct (init ++ rest) → Distinct init
Distinct-init [] rest h = tt
Distinct-init (f ∷ init) rest h = (absent init h.0, Distinct-init init rest h.1)
  where
    absent : (gs : List UdpFlow) → IsAbsent f.key (gs ++ rest) → IsAbsent f.key gs
    absent [] a = tt
    absent (g ∷ gs) a = (a.0, absent gs a.1)

pub AllFresh-init :
    (now idle_timeout : ℕ) (init rest : List UdpFlow)
    → AllFresh now idle_timeout (init ++ rest)
    → AllFresh now idle_timeout init
AllFresh-init now idle_timeout [] rest h = tt
AllFresh-init now idle_timeout (f ∷ init) rest h =
    (h.0, AllFresh-init now idle_timeout init rest h.1)

-- The first list is the front of the second.
abbrev pub IsPrefix : List UdpFlow → List UdpFlow → Type 0
IsPrefix stay fs = (rest : List UdpFlow) × (fs ≡ stay ++ rest)

pub IsPrefix-self : (fs : List UdpFlow) → IsPrefix fs fs
IsPrefix-self fs = ([], sym (append-nil fs))

pub IsPrefix-trans :
    (stay init fs : List UdpFlow) → IsPrefix stay init → IsPrefix init fs → IsPrefix stay fs
IsPrefix-trans stay init fs (rest, e) (last, e') =
    (rest ++ last, e' ∙ ap (λ xs. xs ++ last) e ∙ append_assoc stay rest last)

IsPrefix-unsnoc :
    (fs init : List UdpFlow) (back : UdpFlow)
    → unsnoc fs ≡ some (init, back)
    → IsPrefix init fs × (length fs ≡ length init + 1)
IsPrefix-unsnoc fs init back e =
    let split = unsnoc_lem fs init back e in
    ((back ∷ [], split), ap length split ∙ length-append init (back ∷ []))

pub expire-zero :
    (now idle_timeout : ℕ) (fs : List UdpFlow) → (expire zero now idle_timeout fs).0 ≡ fs
unfolding expire
expire-zero now idle_timeout fs = refl

pub expire-IsPrefix :
    (n now idle_timeout : ℕ) (fs : List UdpFlow) → IsPrefix (expire n now idle_timeout fs).0 fs
expire-IsPrefix zero now idle_timeout fs =
    subst (λ stay. IsPrefix stay fs) (sym (expire-zero now idle_timeout fs)) (IsPrefix-self fs)
expire-IsPrefix (suc n) now idle_timeout fs = elim (Option-cases (unsnoc fs)) [
  | inl e ↦
      subst (λ stay. IsPrefix stay fs) (sym (expire-none n now idle_timeout fs e))
        (IsPrefix-self fs)
  | inr ((init, back), e) ↦ elim (Bool-cases (is_fresh now idle_timeout back)) [
    | inl fresh ↦
        subst (λ stay. IsPrefix stay fs)
          (sym (expire-fresh n now idle_timeout fs init back e fresh)) (IsPrefix-self fs)
    | inr idle ↦
        subst (λ stay. IsPrefix stay fs) (sym (expire-idle n now idle_timeout fs init back e idle))
          (IsPrefix-trans (expire n now idle_timeout init).0 init fs
            (expire-IsPrefix n now idle_timeout init) (IsPrefix-unsnoc fs init back e).0)
  ]
]

pub shrink-zero : (max_flows : ℕ) (fs : List UdpFlow) → (shrink zero max_flows fs).0 ≡ fs
unfolding shrink
shrink-zero max_flows fs = refl

pub shrink-none :
    (n max_flows : ℕ) (fs : List UdpFlow) → unsnoc fs ≡ none → (shrink (suc n) max_flows fs).0 ≡ fs
unfolding shrink
shrink-none n max_flows fs e = ground (arith, e)

pub shrink-fits :
    (n max_flows : ℕ) (fs init : List UdpFlow) (back : UdpFlow)
    → unsnoc fs ≡ some (init, back)
    → leb (length fs) max_flows ≡ true
    → (shrink (suc n) max_flows fs).0 ≡ fs
unfolding shrink
shrink-fits n max_flows fs init back e fits = ground (arith, e, fits)

pub shrink-over :
    (n max_flows : ℕ) (fs init : List UdpFlow) (back : UdpFlow)
    → unsnoc fs ≡ some (init, back)
    → leb (length fs) max_flows ≡ false
    → (shrink (suc n) max_flows fs).0 ≡ (shrink n max_flows init).0
unfolding shrink
shrink-over n max_flows fs init back e over = ground (arith, e, over)

-- What the second loop keeps is the front of the list, of the allowed length.
pub shrink-IsPrefix :
    (n max_flows : ℕ) (fs : List UdpFlow)
    → length fs ≤ n
    → IsPrefix (shrink n max_flows fs).0 fs × (length (shrink n max_flows fs).0 ≤ max_flows)
shrink-IsPrefix zero max_flows fs l =
    subst (λ stay. IsPrefix stay fs × (length stay ≤ max_flows)) (sym (shrink-zero max_flows fs))
      (IsPrefix-self fs, omega (arith, l))
shrink-IsPrefix (suc n) max_flows fs l = elim (Option-cases (unsnoc fs)) [
  | inl e ↦
      subst (λ stay. IsPrefix stay fs × (length stay ≤ max_flows))
        (sym (shrink-none n max_flows fs e)) (IsPrefix-self fs, omega (arith, unsnoc_empty fs e))
  | inr ((init, back), e) ↦ elim (Bool-cases (leb (length fs) max_flows)) [
    | inl fits ↦
        subst (λ stay. IsPrefix stay fs × (length stay ≤ max_flows))
          (sym (shrink-fits n max_flows fs init back e fits))
          (IsPrefix-self fs, ground (arith, fits))
    | inr over ↦
        let (prefix, one) = IsPrefix-unsnoc fs init back e in
        let (front, short) = shrink-IsPrefix n max_flows init (omega (arith, l, one)) in
        subst (λ stay. IsPrefix stay fs × (length stay ≤ max_flows))
          (sym (shrink-over n max_flows fs init back e over))
          (IsPrefix-trans (shrink n max_flows init).0 init fs front prefix, short)
  ]
]
