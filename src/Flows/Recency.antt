-- ===== src/Flows/Recency.antt =====
-- internal/proxy/udp_listener.go: the list of flows is in the order of their last use.
use nexus_proxy_server.Common.{
  ℕ, zero, suc, ◌-◌, ◌≤◌, ◌≡◌, refl, sym, subst, ap, ◌∙◌, true, false, ◌==◌, nat_eq, List, [], ◌∷◌,
  ◌++◌, none, some, length, length-append, arith, Bool-cases, Option-cases, inl, inr,
}
use nexus_proxy_server.Flows.Lru.{drop_flow, unsnoc}
use nexus_proxy_server.Flows.Listener.{UdpFlow, key_of, is_fresh, expire}

-- The flows from the last used one on, none used after `now`.
abbrev pub Recent : ℕ → List UdpFlow → Type 0
Recent now [] = Unit {0}
Recent now (f ∷ fs) = (f.last_seen ≤ now) × Recent f.last_seen fs

-- Every flow was used within the idle timeout.
abbrev pub AllFresh : ℕ → ℕ → List UdpFlow → Type 0
AllFresh now idle_timeout [] = Unit {0}
AllFresh now idle_timeout (f ∷ fs) =
    (now - f.last_seen ≤ idle_timeout) × AllFresh now idle_timeout fs

pub Recent-le : (m n : ℕ) (fs : List UdpFlow) → m ≤ n → Recent m fs → Recent n fs
Recent-le m n [] l h = tt
Recent-le m n (f ∷ fs) l h = (omega (arith, h.0), h.1)

pub drop_flow-Recent :
    (k n : ℕ) (fs : List UdpFlow) → Recent n fs → Recent n (drop_flow key_of k fs)
unfolding drop_flow
drop_flow-Recent k n [] h = tt
drop_flow-Recent k n (f ∷ fs) h = elim (Bool-cases (f.key == k)) [
  | inl e ↦ rw e (Recent-le f.last_seen n fs h.0 h.1)
  | inr e ↦ rw e (h.0, drop_flow-Recent k f.last_seen fs h.1)
]

pub unsnoc_lem :
    (fs init : List UdpFlow) (back : UdpFlow)
    → unsnoc fs ≡ some (init, back)
    → fs ≡ init ++ (back ∷ [])
unfolding unsnoc
unsnoc_lem [] init back h = absurd (ground (arith, h))
unsnoc_lem (f ∷ fs) init back h = elim (Option-cases (unsnoc fs)) [
  | inl e ↦ ground (arith, h, e, unsnoc-none fs e)
  | inr (p, e) ↦ let same = unsnoc_lem fs p.0 p.1 e in ground (arith, h, e, same)
]
  where
    unsnoc-none : (gs : List UdpFlow) → unsnoc gs ≡ none → gs ≡ []
    unsnoc-none [] e = refl
    unsnoc-none (g ∷ gs) e = elim (Option-cases (unsnoc gs)) [
      | inl e' ↦ absurd (ground (arith, e, e'))
      | inr (p, e') ↦ absurd (ground (arith, e, e'))
    ]

pub unsnoc_empty : (fs : List UdpFlow) → unsnoc fs ≡ none → length fs ≡ 0
unfolding unsnoc
unsnoc_empty [] e = refl
unsnoc_empty (f ∷ fs) e = elim (Option-cases (unsnoc fs)) [
  | inl e' ↦ absurd (ground (arith, e, e'))
  | inr (p, e') ↦ absurd (ground (arith, e, e'))
]

pub Recent-init : (n : ℕ) (init rest : List UdpFlow) → Recent n (init ++ rest) → Recent n init
Recent-init n [] rest h = tt
Recent-init n (f ∷ init) rest h = (h.0, Recent-init f.last_seen init rest h.1)

-- If the oldest flow is fresh, all are.
Recent-AllFresh :
    (now idle_timeout n : ℕ) (init : List UdpFlow) (back : UdpFlow)
    → Recent n (init ++ (back ∷ []))
    → now - back.last_seen ≤ idle_timeout
    → AllFresh now idle_timeout (init ++ (back ∷ [])) × (back.last_seen ≤ n)
Recent-AllFresh now idle_timeout n [] back h l = ((l, tt), h.0)
Recent-AllFresh now idle_timeout n (f ∷ init) back h l =
    let (all, older) = Recent-AllFresh now idle_timeout f.last_seen init back h.1 l in
    ((omega (arith, l, older), all), omega (arith, older, h.0))

is_fresh-le :
    (now idle_timeout : ℕ) (f : UdpFlow)
    → is_fresh now idle_timeout f ≡ true
    → now - f.last_seen ≤ idle_timeout
unfolding is_fresh
is_fresh-le now idle_timeout f h = ground arith

pub expire-none :
    (n now idle_timeout : ℕ) (fs : List UdpFlow)
    → unsnoc fs ≡ none
    → (expire (suc n) now idle_timeout fs).0 ≡ fs
unfolding expire
expire-none n now idle_timeout fs e = rw (expire, e) refl

pub expire-fresh :
    (n now idle_timeout : ℕ) (fs init : List UdpFlow) (back : UdpFlow)
    → unsnoc fs ≡ some (init, back)
    → is_fresh now idle_timeout back ≡ true
    → (expire (suc n) now idle_timeout fs).0 ≡ fs
unfolding expire
expire-fresh n now idle_timeout fs init back e fresh = rw (expire, e, fresh) refl

pub expire-idle :
    (n now idle_timeout : ℕ) (fs init : List UdpFlow) (back : UdpFlow)
    → unsnoc fs ≡ some (init, back)
    → is_fresh now idle_timeout back ≡ false
    → (expire (suc n) now idle_timeout fs).0 ≡ (expire n now idle_timeout init).0
unfolding expire
expire-idle n now idle_timeout fs init back e idle = ground (arith, e, idle)

empty-AllFresh :
    (now idle_timeout c : ℕ) (gs : List UdpFlow)
    → length gs ≡ 0
    → AllFresh now idle_timeout gs × Recent c gs
empty-AllFresh now idle_timeout c [] e = (tt, tt)
empty-AllFresh now idle_timeout c (g ∷ gs) e = absurd (omega arith)

by_zero :
    (now idle_timeout c : ℕ) (gs : List UdpFlow)
    → length gs ≡ 0
    → AllFresh now idle_timeout (expire zero now idle_timeout gs).0
      × Recent c (expire zero now idle_timeout gs).0
unfolding expire
by_zero now idle_timeout c gs e = empty-AllFresh now idle_timeout c gs e

-- What stays after the idle flows have gone.
pub expire-AllFresh :
    (n now idle_timeout c : ℕ) (fs : List UdpFlow)
    → length fs ≤ n
    → Recent c fs
    → AllFresh now idle_timeout (expire n now idle_timeout fs).0
      × Recent c (expire n now idle_timeout fs).0
expire-AllFresh zero now idle_timeout c [] l h = by_zero now idle_timeout c [] refl
expire-AllFresh zero now idle_timeout c (f ∷ fs) l h = absurd (omega arith)
expire-AllFresh (suc n) now idle_timeout c fs l h = elim (Option-cases (unsnoc fs)) [
  | inl e ↦
      subst (λ stay. AllFresh now idle_timeout stay × Recent c stay)
        (sym (expire-none n now idle_timeout fs e))
        (empty-AllFresh now idle_timeout c fs (unsnoc_empty fs e))
  | inr ((init, back), e) ↦
      let split = unsnoc_lem fs init back e in
      let recent = subst (Recent c) split h in
      elim (Bool-cases (is_fresh now idle_timeout back)) [
        | inl fresh ↦
            subst (λ stay. AllFresh now idle_timeout stay × Recent c stay)
              (sym (expire-fresh n now idle_timeout fs init back e fresh ∙ split))
              (
                (Recent-AllFresh now idle_timeout c init back recent
                    (is_fresh-le now idle_timeout back fresh)).0,
                recent,
              )
        | inr idle ↦
            subst (λ stay. AllFresh now idle_timeout stay × Recent c stay)
              (sym (expire-idle n now idle_timeout fs init back e idle))
              (expire-AllFresh n now idle_timeout c init
                (omega (arith, l, ap length split, length-append init (back ∷ [])))
                (Recent-init c init (back ∷ []) recent))
      ]
]
