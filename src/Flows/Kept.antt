-- ===== src/Flows/Kept.antt =====
-- internal/proxy/udp_listener.go: the flow that was just added is not evicted.
use nexus_proxy_server.Common.{
  ℕ, zero, suc, ◌<◌, ◌≡◌, refl, sym, subst, ap, ◌∙◌, true, false, leb, nat_eq, List, [], ◌∷◌, ◌++◌,
  some, length, arith, Bool-cases, Option-cases, inl, inr, ◌⊎◌,
}
use nexus_proxy_server.Flows.Lru.{find, drop_flow, unsnoc}
use nexus_proxy_server.Flows.Listener.{
  UdpFlow, key_of, UdpFlowTable, touched, get, is_fresh, expire, shrink, evict, add,
}
use nexus_proxy_server.Flows.Recency.{unsnoc_lem, expire-none, expire-fresh, expire-idle}
use nexus_proxy_server.Flows.Prefixes.{
  shrink-none, shrink-fits, shrink-over, expire-zero, shrink-zero,
}

-- The list begins with the flow.
abbrev Heads : UdpFlow → List UdpFlow → Type 0
Heads f fs = (gs : List UdpFlow) × (fs ≡ f ∷ gs)

abbrev head_of : UdpFlow → List UdpFlow → UdpFlow
head_of f [] = f
head_of f (g ∷ gs) = g

Heads-init :
    (f back : UdpFlow) (fs init : List UdpFlow)
    → Heads f fs
    → fs ≡ init ++ (back ∷ [])
    → (f ≡ back) ⊎ Heads f init
Heads-init f back fs [] (gs, e) e' = inl (ap (head_of f) (sym e ∙ e'))
Heads-init f back fs (g ∷ init) (gs, e) e' =
    let same : f ≡ g = ap (head_of f) (sym e ∙ e') in inr (init, ap (λ h. h ∷ init) (sym same))

fresh_head :
    (now idle_timeout : ℕ) (f : UdpFlow)
    → 0 < idle_timeout
    → f.last_seen ≡ now
    → is_fresh now idle_timeout f ≡ true
unfolding is_fresh
fresh_head now idle_timeout f l e = ground arith

expire-Heads :
    (n now idle_timeout : ℕ) (f : UdpFlow) (fs : List UdpFlow)
    → is_fresh now idle_timeout f ≡ true
    → Heads f fs
    → Heads f (expire n now idle_timeout fs).0
expire-Heads zero now idle_timeout f fs fresh h =
    subst (Heads f) (sym (expire-zero now idle_timeout fs)) h
expire-Heads (suc n) now idle_timeout f fs fresh h = elim (Option-cases (unsnoc fs)) [
  | inl e ↦ subst (Heads f) (sym (expire-none n now idle_timeout fs e)) h
  | inr ((init, back), e) ↦ elim (Bool-cases (is_fresh now idle_timeout back)) [
    | inl stays ↦ subst (Heads f) (sym (expire-fresh n now idle_timeout fs init back e stays)) h
    | inr idle ↦ elim (Heads-init f back fs init h (unsnoc_lem fs init back e)) [
      | inl same ↦ absurd (ground (arith, fresh, idle, ap (is_fresh now idle_timeout) same))
      | inr front ↦
          subst (Heads f) (sym (expire-idle n now idle_timeout fs init back e idle))
            (expire-Heads n now idle_timeout f init fresh front)
    ]
  ]
]

shrink-Heads :
    (n max_flows : ℕ) (f : UdpFlow) (fs : List UdpFlow)
    → 0 < max_flows
    → Heads f fs
    → Heads f (shrink n max_flows fs).0
shrink-Heads zero max_flows f fs l h = subst (Heads f) (sym (shrink-zero max_flows fs)) h
shrink-Heads (suc n) max_flows f fs l h = elim (Option-cases (unsnoc fs)) [
  | inl e ↦ subst (Heads f) (sym (shrink-none n max_flows fs e)) h
  | inr ((init, back), e) ↦ elim (Bool-cases (leb (length fs) max_flows)) [
    | inl fits ↦ subst (Heads f) (sym (shrink-fits n max_flows fs init back e fits)) h
    | inr over ↦
        let split = unsnoc_lem fs init back e in
        elim (Heads-init f back fs init h split) [
          | inl same ↦
              subst (Heads f) (sym (shrink-over n max_flows fs init back e over))
                (shrink-Heads n max_flows f init l (long init back split over))
          | inr front ↦
              subst (Heads f) (sym (shrink-over n max_flows fs init back e over))
                (shrink-Heads n max_flows f init l front)
        ]
  ]
]
  where
    long :
        (init : List UdpFlow) (back : UdpFlow)
        → fs ≡ init ++ (back ∷ [])
        → leb (length fs) max_flows ≡ false
        → Heads f init
    long [] back e over = absurd (ground (arith, ap length e, over, l))
    long (g ∷ init) back e over =
        let same : f ≡ g = ap (head_of f) (sym (h.1) ∙ e) in (init, ap (λ x. x ∷ init) (sym same))

add-Heads :
    (now : ℕ) (f : UdpFlow) (t : UdpFlowTable)
    → 0 < t.idle_timeout
    → 0 < t.max_flows
    → Heads (record f { last_seen = now }) (add now f t).0.lru
unfolding add evict
add-Heads now f t l m =
    let g = record f { last_seen = now } in
    let fs = g ∷ drop_flow key_of f.key t.lru in
    let fresh = fresh_head now t.idle_timeout g l refl in
    shrink-Heads (length (expire (length fs) now t.idle_timeout fs).0) t.max_flows g
      (expire (length fs) now t.idle_timeout fs).0 m
      (expire-Heads (length fs) now t.idle_timeout g fs fresh (drop_flow key_of f.key t.lru, refl))

get-Heads :
    (now : ℕ) (f : UdpFlow) (t : UdpFlowTable)
    → Heads f t.lru
    → (get now f.key t).1 ≡ some (record f { last_seen = now })
unfolding get touched find
get-Heads now f t (gs, e) = rw (get, e) (ground arith)

-- The flow that `add` puts into a table with a positive idle timeout and a positive capacity is there for
-- the next `get` of its key, whatever was evicted.
pub get-add :
    (now later : ℕ) (f : UdpFlow) (t : UdpFlowTable)
    → 0 < t.idle_timeout
    → 0 < t.max_flows
    → (get later f.key (add now f t).0).1 ≡ some (record f { last_seen = later })
get-add now later f t l m =
    get-Heads later (record f { last_seen = now }) (add now f t).0 (add-Heads now f t l m)
