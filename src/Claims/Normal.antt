-- ===== src/Claims/Normal.antt =====
-- internal/hub/hub.go: the normalized port claims of a token, and of two tokens.
use nexus_proxy_server.Common.{
  ℕ, ◌<◌, ◌≡◌, refl, sym, subst, ◌∙◌, Bool, true, false, ltb, ◌&&◌, nat_eq, List, [], ◌∷◌, length,
  take, arith, ◌↔◌,
}
use nexus_proxy_server.Claims.Entries.{
  RejectedClaim, Normalized, failed, accepted, rejected_list_bound, tcp_port_kind,
  tcp_port_not_allowed, outbound_port_kind, outbound_port_not_allowed,
}
use nexus_proxy_server.Claims.Ports.{
  port_allowed, port_loop, normalize_tcp_port_claims, normalize_outbound_port_claims,
  outbound_port_allowed, same_int_sets,
}
use nexus_proxy_server.Claims.Rejected.{no_refusal}
use nexus_proxy_server.Claims.Sort.{Ascending, same_int_sets_iff}
use nexus_proxy_server.Claims.Filter.{port_refusals, any_invalid, Outcome, port_loop_lem}

nothing_claimed : (allow : ℕ → Bool) → Outcome allow [] [] [] (accepted [] [] false)
unfolding port_allowed
nothing_claimed allow =
    (refl, record { members = λ q. refl; ascending = tt; refusals = no_refusal })

tcp_claims-cons :
    (allowlist ports : List ℕ) (p : ℕ)
    → 0 < length allowlist
    → normalize_tcp_port_claims allowlist (p ∷ ports)
      ≡ port_loop tcp_port_kind tcp_port_not_allowed
          (port_allowed allowlist)
          (p ∷ ports)
          []
          []
          false
unfolding normalize_tcp_port_claims
tcp_claims-cons allowlist ports p h = ground arith

-- What the TCP claims come to, on every branch of a relay that allows some port.
tcp_claims-Outcome :
    (allowlist ports : List ℕ)
    → 0 < length allowlist
    → Outcome
        (port_allowed allowlist)
        ports
        []
        (port_refusals tcp_port_kind tcp_port_not_allowed (port_allowed allowlist) ports)
        (normalize_tcp_port_claims allowlist ports)
unfolding normalize_tcp_port_claims
tcp_claims-Outcome allowlist [] h = nothing_claimed (port_allowed allowlist)
tcp_claims-Outcome allowlist (p ∷ ports) h =
    subst (Outcome (port_allowed allowlist) (p ∷ ports) [] _)
      (sym (tcp_claims-cons allowlist ports p h))
      (port_loop_lem tcp_port_kind tcp_port_not_allowed (port_allowed allowlist) (p ∷ ports) [] []
        [] false tt no_refusal)

outbound_claims-cons :
    (allowlist ports : List ℕ) (p : ℕ)
    → normalize_outbound_port_claims true allowlist true (p ∷ ports)
      ≡ port_loop outbound_port_kind outbound_port_not_allowed
          (outbound_port_allowed allowlist)
          (p ∷ ports)
          []
          []
          false
unfolding normalize_outbound_port_claims
outbound_claims-cons allowlist ports p = ground arith

outbound_claims-Outcome :
    (allowlist ports : List ℕ)
    → Outcome
        (outbound_port_allowed allowlist)
        ports
        []
        (port_refusals outbound_port_kind outbound_port_not_allowed
          (outbound_port_allowed allowlist)
          ports)
        (normalize_outbound_port_claims true allowlist true ports)
unfolding normalize_outbound_port_claims
outbound_claims-Outcome allowlist [] = nothing_claimed (outbound_port_allowed allowlist)
outbound_claims-Outcome allowlist (p ∷ ports) =
    subst (Outcome (outbound_port_allowed allowlist) (p ∷ ports) [] _)
      (sym (outbound_claims-cons allowlist ports p))
      (port_loop_lem outbound_port_kind outbound_port_not_allowed (outbound_port_allowed allowlist)
        (p ∷ ports) [] [] [] false tt no_refusal)

accepted-Outcome :
    (allow : ℕ → Bool) (ports out : List ℕ) (all rejected : List RejectedClaim) (truncated : Bool)
    (r : Normalized ℕ)
    → r ≡ accepted out rejected truncated
    → Outcome allow ports [] all r
    → (any_invalid ports ≡ false)
      × ((q : ℕ) → port_allowed out q ≡ (port_allowed ports q && allow q))
      × Ascending out
      × (rejected ≡ take rejected_list_bound all)
      × (truncated ≡ ltb rejected_list_bound (length all))
unfolding port_allowed
accepted-Outcome allow ports out all rejected truncated r e o =
    let (valid, f) = subst (Outcome allow ports [] all) e o in
    (valid, f.members, f.ascending, f.refusals.kept, f.refusals.flag)

-- If `normalizeTCPPortClaims` accepts claims on a relay that allows some TCP port, then no claimed port
-- is invalid, and the accepted ports are the claimed ones of the allowlist, ascending and each once;
-- the list of refusals is the first 32 of the claimed ports that are not on the allowlist, in their
-- order and each time that one is claimed, as TCP port entries with the code for a TCP port that is
-- not allowed and the port in decimal, and `truncated` tells whether there were more than 32.
pub normalize_tcp_port_claims_lem :
    (allowlist ports out : List ℕ) (rejected : List RejectedClaim) (truncated : Bool)
    → 0 < length allowlist
    → normalize_tcp_port_claims allowlist ports ≡ accepted out rejected truncated
    → (any_invalid ports ≡ false)
      × ((q : ℕ) → port_allowed out q ≡ (port_allowed ports q && port_allowed allowlist q))
      × Ascending out
      × (rejected
          ≡ take rejected_list_bound
              (port_refusals tcp_port_kind tcp_port_not_allowed (port_allowed allowlist) ports))
      × (truncated
          ≡ ltb rejected_list_bound (
              length
                (port_refusals tcp_port_kind tcp_port_not_allowed (port_allowed allowlist) ports)))
normalize_tcp_port_claims_lem allowlist ports out rejected truncated h e =
    accepted-Outcome (port_allowed allowlist) ports out _ rejected truncated _ e
      (tcp_claims-Outcome allowlist ports h)

-- If `normalizeOutboundPortClaims` accepts claims with outbound claimed and enabled, then no claimed
-- port is invalid, and the accepted ports are the claimed ones that the relay allows, ascending and
-- each once; the list of refusals is the first 32 of the claimed ports that are not allowed, in their
-- order and each time that one is claimed, as outbound port entries with the code for an outbound
-- port that is not allowed and the port in decimal, and `truncated` tells whether there were more.
pub normalize_outbound_port_claims_lem :
    (allowlist ports out : List ℕ) (rejected : List RejectedClaim) (truncated : Bool)
    → normalize_outbound_port_claims true allowlist true ports ≡ accepted out rejected truncated
    → (any_invalid ports ≡ false)
      × ((q : ℕ) → port_allowed out q ≡ (port_allowed ports q && outbound_port_allowed allowlist q))
      × Ascending out
      × (rejected
          ≡ take rejected_list_bound (
              port_refusals outbound_port_kind outbound_port_not_allowed
                (outbound_port_allowed allowlist)
                ports))
      × (truncated
          ≡ ltb rejected_list_bound (
              length (
                port_refusals outbound_port_kind outbound_port_not_allowed
                  (outbound_port_allowed allowlist)
                  ports)))
normalize_outbound_port_claims_lem allowlist ports out rejected truncated e =
    accepted-Outcome (outbound_port_allowed allowlist) ports out _ rejected truncated _ e
      (outbound_claims-Outcome allowlist ports)

valid-Outcome :
    (allow : ℕ → Bool) (ports : List ℕ) (all : List RejectedClaim) (r : Normalized ℕ)
    → any_invalid ports ≡ false
    → Outcome allow ports [] all r
    → (out : List ℕ) × (rejected : List RejectedClaim) × (truncated : Bool) × (r
        ≡ accepted out rejected truncated)
valid-Outcome allow ports all (failed e) v o = absurd (ground (arith, v, o))
valid-Outcome allow ports all (accepted out rejected truncated) v o =
    (out, rejected, truncated, refl)

-- TCP claims without an invalid port are accepted by a relay that allows some TCP port: a port that is
-- not on the allowlist is refused alone, and does not end the session.
pub normalize_tcp_port_claims-accepted :
    (allowlist ports : List ℕ)
    → 0 < length allowlist
    → any_invalid ports ≡ false
    → (out : List ℕ) × (rejected : List RejectedClaim) × (truncated : Bool)
      × (normalize_tcp_port_claims allowlist ports ≡ accepted out rejected truncated)
normalize_tcp_port_claims-accepted allowlist ports h v =
    valid-Outcome (port_allowed allowlist) ports _ _ v (tcp_claims-Outcome allowlist ports h)

-- The port claims of two tokens that a relay accepts pass the comparison of the handshake token with
-- the attested one exactly if they claim the same ports of the allowlist.
pub same_int_sets-normalize :
    (allowlist ports ports' out out' : List ℕ) (rejected rejected' : List RejectedClaim)
    (truncated truncated' : Bool)
    → 0 < length allowlist
    → normalize_tcp_port_claims allowlist ports ≡ accepted out rejected truncated
    → normalize_tcp_port_claims allowlist ports' ≡ accepted out' rejected' truncated'
    → (same_int_sets out' out ≡ true) ↔ (
        (q : ℕ)
        → (port_allowed ports' q && port_allowed allowlist q)
          ≡ (port_allowed ports q && port_allowed allowlist q))
same_int_sets-normalize allowlist ports ports' out out' rejected rejected' truncated truncated' h e
      e' =
    let (_, m, a, _, _) =
      normalize_tcp_port_claims_lem allowlist ports out rejected truncated h e in
    let (_, m', a', _, _) =
      normalize_tcp_port_claims_lem allowlist ports' out' rejected' truncated' h e' in
    let (to, from) = same_int_sets_iff out' out a' a in
    (λ s q. sym (m' q) ∙ to s q ∙ m q, λ s. from (λ q. m' q ∙ s q ∙ sym (m q)))
