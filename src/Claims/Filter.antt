-- ===== src/Claims/Filter.antt =====
-- internal/hub/hub.go: what the loop over port claims accepts and refuses.
use mathlib.Core.List.{append_assoc, append-nil}
use nexus_proxy_server.Common.{
  ℕ, ◌≡◌, refl, subst, ap, Bool, true, false, if◌then◌else◌, ◌==◌, ◌&&◌, ◌||◌, nat_eq, List, [],
  ◌∷◌, ◌++◌, arith, Bool-cases, inl, inr,
}
use nexus_proxy_server.Claims.Entries.{
  RejectedKind, RejectedCode, RejectedClaim, itoa, Normalized, failed, accepted,
}
use nexus_proxy_server.Claims.Ports.{
  port_allowed, is_invalid_port, keep_port, refuse_port, port_entry, port_loop,
}
use nexus_proxy_server.Claims.Rejected.{Holds, refuse_port-Holds, refusal_of}
use nexus_proxy_server.Claims.Sort.{
  Unique, Ascending, port_allowed-sort, port_allowed-append, sort-Ascending, Unique-append,
}

-- The refusals of the ports that are not allowed, in their order, each time that one is listed.
abbrev pub port_refusals : RejectedKind → RejectedCode → (ℕ → Bool) → List ℕ → List RejectedClaim
port_refusals kind code allow [] = []
port_refusals kind code allow (p ∷ ps) =
    (if allow p then [] else record { kind = kind; code = code; value = itoa p } ∷ [])
    ++ port_refusals kind code allow ps

abbrev pub any_invalid : List ℕ → Bool
any_invalid [] = false
any_invalid (p ∷ ps) = is_invalid_port p || any_invalid ps

-- The accepted ports are the claimed ones that are allowed, in ascending order, each once; `before`
-- are ports accepted already, and `all` are the refusals.
pub record IsFiltered (allow : ℕ → Bool) (ports before : List ℕ) (all : List RejectedClaim)
    (out : List ℕ) (rejected : List RejectedClaim) (truncated : Bool) : Type 0 where
  pub members :
      (q : ℕ) → port_allowed out q ≡ (port_allowed before q || (port_allowed ports q && allow q))
  pub ascending : Ascending out
  pub refusals : Holds all rejected truncated

keep_port-Unique : (b : Bool) (out : List ℕ) (p : ℕ) → Unique out → Unique (keep_port b out p)
unfolding keep_port
keep_port-Unique false out p u = u
keep_port-Unique true out p u = elim (Bool-cases (port_allowed out p)) [
  | inl e ↦ rw e u
  | inr e ↦ rw e (Unique-append out p u e)
]

port_allowed-keep_port :
    (b : Bool) (out : List ℕ) (p q : ℕ)
    → port_allowed (keep_port b out p) q ≡ (port_allowed out q || (p == q && b))
unfolding keep_port port_allowed
port_allowed-keep_port b out p q = ground (arith, port_allowed-append q out (p ∷ []))

abbrev pub Outcome : (ℕ → Bool) → List ℕ → List ℕ → List RejectedClaim → Normalized ℕ → Type 0
Outcome allow ports before all (failed e) = any_invalid ports ≡ true
Outcome allow ports before all (accepted out rejected truncated) =
    (any_invalid ports ≡ false) × IsFiltered allow ports before all out rejected truncated

members-cons :
    (allow : ℕ → Bool) (p q : ℕ) (ports before out : List ℕ)
    → port_allowed out q
      ≡ (port_allowed (keep_port (allow p) before p) q || (port_allowed ports q && allow q))
    → port_allowed out q ≡ (port_allowed before q || (port_allowed (p ∷ ports) q && allow q))
unfolding port_allowed
members-cons allow p q ports before out h = elim (Bool-cases (p == q)) [
  | inl same ↦
      let e : allow p ≡ allow q = ap allow (ground (arith, same)) in
      ground (arith, h, e, same, port_allowed-keep_port (allow p) before p q)
  | inr other ↦ ground (arith, h, other, port_allowed-keep_port (allow p) before p q)
]

Outcome-cons :
    (allow : ℕ → Bool) (p : ℕ) (ports before : List ℕ) (all : List RejectedClaim) (r : Normalized ℕ)
    → is_invalid_port p ≡ false
    → Outcome allow ports (keep_port (allow p) before p) all r
    → Outcome allow (p ∷ ports) before all r
Outcome-cons allow p ports before all (failed e) valid h = rw (valid, h) refl
Outcome-cons allow p ports before all (accepted out rejected truncated) valid h = (
  rw (valid, h.0) refl,
  record {
    members = λ q. members-cons allow p q ports before out (h.1.members q);
    ascending = h.1.ascending;
    refusals = h.1.refusals;
  },
)

any_invalid-first :
    (p : ℕ) (ports : List ℕ) → is_invalid_port p ≡ true → any_invalid (p ∷ ports) ≡ true
any_invalid-first p ports h = ground (arith, h)

pub port_loop_lem :
    (kind : RejectedKind) (code : RejectedCode) (allow : ℕ → Bool) (ports out : List ℕ)
    (all rejected : List RejectedClaim) (truncated : Bool)
    → Unique out
    → Holds all rejected truncated
    → Outcome allow ports out
        (all ++ port_refusals kind code allow ports)
        (port_loop kind code allow ports out rejected truncated)
unfolding port_loop port_entry
port_loop_lem kind code allow [] out all rejected truncated u h = (
  refl,
  record {
    members = λ q. ground (arith, port_allowed-sort q out);
    ascending = sort-Ascending out u;
    refusals = rw append-nil h;
  },
)
port_loop_lem kind code allow (p ∷ ports) out all rejected truncated u h =
    let (rejected', truncated') =
      refuse_port (allow p) (port_entry kind code p) rejected truncated in
    let all' = all ++ refusal_of (allow p) (port_entry kind code p) in
    elim (Bool-cases (is_invalid_port p)) [
      | inl bad ↦ rw bad (any_invalid-first p ports bad)
      | inr valid ↦ rw valid (
          Outcome-cons allow p ports out _ _ valid (
            subst
              (λ l.
                Outcome allow ports (keep_port (allow p) out p) l (
                  port_loop kind code allow ports (keep_port (allow p) out p) rejected' truncated'))
              (append_assoc all (refusal_of (allow p) (port_entry kind code p))
                (port_refusals kind code allow ports))
              (port_loop_lem kind code allow ports (keep_port (allow p) out p) all' rejected'
                truncated' (keep_port-Unique (allow p) out p u)
                (refuse_port-Holds (allow p) (port_entry kind code p) all rejected truncated h))))
    ]
