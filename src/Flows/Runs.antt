-- ===== src/Flows/Runs.antt =====
-- internal/proxy/udp_listener.go: `udpFlowTable` over runs of its operations.
use nexus_proxy_server.Common.{
  ℕ, ◌≤◌, ◌≡◌, refl, sym, subst, nat_eq, ◌∷◌, length, arith, Option-cases, inl, inr,
}
use nexus_proxy_server.Flows.Lru.{find, drop_flow}
use nexus_proxy_server.Flows.Listener.{
  UdpFlow, key_of, UdpFlowTable, new_udp_flow_table, set_idle_timeout, touched, get, remove, expire,
  shrink, evict, add,
}
use nexus_proxy_server.Flows.Recency.{
  Recent, AllFresh, Recent-le, drop_flow-Recent, Recent-init, expire-AllFresh,
}
use nexus_proxy_server.Flows.Prefixes.{
  IsAbsent, Distinct, drop_flow-Distinct, length-drop_flow, length-found, Distinct-init,
  AllFresh-init, IsPrefix, IsPrefix-trans, expire-IsPrefix, shrink-IsPrefix,
}

-- The tables that a new one comes to by calls at times that do not decrease, with the time of the last.
pub data Reach (idle_timeout max_flows : ℕ) : ℕ → UdpFlowTable → Type 0 where
  start : (now : ℕ) → Reach idle_timeout max_flows now (new_udp_flow_table idle_timeout max_flows)
  gets :
      {before : ℕ} {t : UdpFlowTable} (now k : ℕ)
      → before ≤ now
      → Reach idle_timeout max_flows before t
      → Reach idle_timeout max_flows now (get now k t).0
  removes :
      {now : ℕ} {t : UdpFlowTable} (k : ℕ)
      → Reach idle_timeout max_flows now t
      → Reach idle_timeout max_flows now (remove k t).0
  sets :
      {now : ℕ} {t : UdpFlowTable} (timeout : ℕ)
      → Reach idle_timeout max_flows now t
      → Reach idle_timeout max_flows now (set_idle_timeout timeout t)
  evicts :
      {before : ℕ} {t : UdpFlowTable} (now : ℕ)
      → before ≤ now
      → Reach idle_timeout max_flows before t
      → Reach idle_timeout max_flows now (evict now t).0
  adds :
      {before : ℕ} {t : UdpFlowTable} (now : ℕ) (f : UdpFlow)
      → before ≤ now
      → Reach idle_timeout max_flows before t
      → Reach idle_timeout max_flows now (add now f t).0

-- The list is by time, has no key twice, and is no longer than allowed.
record IsTable (now : ℕ) (t : UdpFlowTable) : Type 0 where
  recent : Recent now t.lru
  distinct : Distinct t.lru
  bounded : length t.lru ≤ t.max_flows

get-IsTable :
    (before now k : ℕ) (t : UdpFlowTable)
    → before ≤ now
    → IsTable before t
    → IsTable now (get now k t).0
unfolding get touched
get-IsTable before now k t l h = elim (Option-cases (find key_of k t.lru)) [
  | inl e ↦
      rw (get, e)
        (record {
          recent = Recent-le before now t.lru l h.recent;
          distinct = h.distinct;
          bounded = h.bounded;
        })
  | inr (f, e) ↦
      let (shorter, same) = length-found k t.lru f e in
      let (absent, distinct) = drop_flow-Distinct k t.lru h.distinct in
      rw (get, e)
        (record {
          recent = (
            omega arith,
            Recent-le before now (drop_flow key_of k t.lru) l
                (drop_flow-Recent k before t.lru h.recent),
          );
          distinct =
              (subst (λ j. IsAbsent j (drop_flow key_of k t.lru)) (sym same) absent, distinct);
          bounded = omega (arith, shorter, h.bounded);
        })
]

remove-IsTable : (now k : ℕ) (t : UdpFlowTable) → IsTable now t → IsTable now (remove k t).0
unfolding remove
remove-IsTable now k t h = record {
  recent = drop_flow-Recent k now t.lru h.recent;
  distinct = (drop_flow-Distinct k t.lru h.distinct).1;
  bounded = omega (arith, h.bounded, length-drop_flow k t.lru);
}

-- After `evictLocked`, every flow that stays is fresh, and they are the front of the list.
evict-lru :
    (now : ℕ) (t : UdpFlowTable)
    → Recent now t.lru
    → AllFresh now t.idle_timeout (evict now t).0.lru
      × IsPrefix (evict now t).0.lru t.lru
      × (length (evict now t).0.lru ≤ t.max_flows)
unfolding evict
evict-lru now t h =
    let fresh = (expire (length t.lru) now t.idle_timeout t.lru).0 in
    let (all, r) = expire-AllFresh (length t.lru) now t.idle_timeout now t.lru (omega arith) h in
    let (rest, e) = expire-IsPrefix (length t.lru) now t.idle_timeout t.lru in
    let ((last, e'), short) = shrink-IsPrefix (length fresh) t.max_flows fresh (omega arith) in
    let stay = (shrink (length fresh) t.max_flows fresh).0 in
    (
      AllFresh-init now t.idle_timeout stay last (subst (AllFresh now t.idle_timeout) e' all),
      IsPrefix-trans stay fresh t.lru (last, e') (rest, e),
      short,
    )

evict-fields :
    (now : ℕ) (t : UdpFlowTable)
    → ((evict now t).0.max_flows ≡ t.max_flows) × ((evict now t).0.idle_timeout ≡ t.idle_timeout)
unfolding evict
evict-fields now t = (refl, refl)

evict-IsTable :
    (now : ℕ) (t : UdpFlowTable) → Recent now t.lru → Distinct t.lru → IsTable now (evict now t).0
evict-IsTable now t r d =
    let (all, (rest, e), short) = evict-lru now t r in
    record {
      recent = Recent-init now (evict now t).0.lru rest (subst (Recent now) e r);
      distinct = Distinct-init (evict now t).0.lru rest (subst Distinct e d);
      bounded = omega (arith, short, (evict-fields now t).0);
    }

-- The list that `add` evicts from.
with_front : ℕ → UdpFlow → UdpFlowTable → UdpFlowTable
unfolding drop_flow
with_front now f t = record t { lru = record f { last_seen = now } ∷ drop_flow key_of f.key t.lru }

front-IsTable :
    (before now : ℕ) (f : UdpFlow) (t : UdpFlowTable)
    → before ≤ now
    → IsTable before t
    → Recent now (with_front now f t).lru × Distinct (with_front now f t).lru
unfolding with_front
front-IsTable before now f t l h = (
  (
    omega arith,
    Recent-le before now (drop_flow key_of f.key t.lru) l
        (drop_flow-Recent f.key before t.lru h.recent),
  ),
  drop_flow-Distinct f.key t.lru h.distinct,
)

add-evict :
    (now : ℕ) (f : UdpFlow) (t : UdpFlowTable) → add now f t ≡ evict now (with_front now f t)
unfolding add with_front
add-evict now f t = refl

Reach-IsTable :
    {idle_timeout max_flows now : ℕ} {t : UdpFlowTable}
    → Reach idle_timeout max_flows now t
    → IsTable now t
unfolding new_udp_flow_table set_idle_timeout
Reach-IsTable (start now) = record { recent = tt; distinct = tt; bounded = omega arith }
Reach-IsTable (gets {before = b} {t = t} now k l r) = get-IsTable b now k t l (Reach-IsTable r)
Reach-IsTable (removes {now = now} {t = t} k r) = remove-IsTable now k t (Reach-IsTable r)
Reach-IsTable (sets timeout r) =
    let h = Reach-IsTable r in
    record { recent = h.recent; distinct = h.distinct; bounded = h.bounded }
Reach-IsTable (evicts {before = b} {t = t} now l r) =
    let h = Reach-IsTable r in evict-IsTable now t (Recent-le b now t.lru l h.recent) h.distinct
Reach-IsTable (adds {before = b} {t = t} now f l r) =
    let (recent, distinct) = front-IsTable b now f t l (Reach-IsTable r) in
    subst (λ p. IsTable now p.0) (sym (add-evict now f t))
      (evict-IsTable now (with_front now f t) recent distinct)

-- In a table that is used at times that do not decrease, no key is there twice, the flows stand in the
-- order of their last use, and there are at most `max_flows`; and after an `add`, every flow that is left
-- was used within the idle timeout, the ones in the middle of the list too, which the eviction does not
-- look at.
pub Reach-AllFresh :
    {idle_timeout max_flows before : ℕ} {t : UdpFlowTable} (now : ℕ) (f : UdpFlow)
    → before ≤ now
    → Reach idle_timeout max_flows before t
    → let u = (add now f t).0 in
      AllFresh now t.idle_timeout u.lru
      × Recent now u.lru
      × Distinct u.lru
      × (length u.lru ≤ u.max_flows)
unfolding with_front
Reach-AllFresh {before = b} {t = t} now f l r =
    let (recent, distinct) = front-IsTable b now f t l (Reach-IsTable r) in
    let (all, prefix, short) = evict-lru now (with_front now f t) recent in
    let fresh : AllFresh now t.idle_timeout (add now f t).0.lru =
      subst (λ p. AllFresh now t.idle_timeout p.0.lru) (sym (add-evict now f t)) all in
    let h = Reach-IsTable (adds now f l r) in (fresh, h.recent, h.distinct, h.bounded)
