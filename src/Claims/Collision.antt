-- ===== src/Claims/Collision.antt =====
-- internal/hub/hub.go: which hostnames are accepted, and that none is the key of a port claim.
use mathlib.Core.List.{append_assoc, append-nil}
use nexus_proxy_server.Common.{
  ℕ, ◌≡◌, ◌≢◌, refl, subst, ap, Bool, true, false, not, ◌&&◌, ◌||◌, if◌then◌else◌, ltb, ◌==◌,
  nat_eq, bytes_eq, bytes_beq_iff, List, [], ◌∷◌, ◌++◌, Bytes, Option, length, take, arith,
  Bool-cases, inl, inr,
}
use nexus_proxy_server.Hostnames.{has_prefix, normalize_or_wildcard}
use nexus_proxy_server.Claims.Entries.{
  RejectedClaim, hostname_kind, hostname_reserved_route_key, Normalized, failed, accepted,
  rejected_list_bound,
}
use nexus_proxy_server.Claims.Ports.{refuse_port}
use nexus_proxy_server.Claims.Rejected.{Holds, refuse_port-Holds, refusal_of, no_refusal}
use nexus_proxy_server.Claims.Hosts.{
  Transport, tcp, udp, route_key, has_text, is_reserved, is_plain, keep_host, host_entry,
  hosts_result, hosts_loop, normalize_hostnames, normal_forms,
}

has_text-append :
    (q : Bytes) (xs ys : List Bytes) → has_text (xs ++ ys) q ≡ (has_text xs q || has_text ys q)
unfolding has_text
has_text-append q [] ys = refl
has_text-append q (x ∷ xs) ys = ground (arith, has_text-append q xs ys)

-- The names that are kept.
has_text-keep_host :
    (q n : Bytes) (out : List Bytes)
    → has_text (keep_host out n) q ≡ (has_text out q || (n == q && is_plain q))
unfolding keep_host has_text
has_text-keep_host q n out = elim (Bool-cases (n == q)) [
  | inl same ↦
      let e : n ≡ q = (bytes_beq_iff n q).0 same in
      subst (λ r. has_text (keep_host out n) r ≡ (has_text out r || (n == r && is_plain r))) e
        (ground (arith, has_text-append n out (n ∷ []), bytes_beq_iff n n))
  | inr other ↦ ground (arith, other, has_text-append q out (n ∷ []))
]

-- The refusals of the reserved names, in their order, each time that one is listed.
abbrev pub name_refusals : List Bytes → List RejectedClaim
name_refusals [] = []
name_refusals (n ∷ ns) =
    (if not (is_reserved n)
      then []
      else record { kind = hostname_kind; code = hostname_reserved_route_key; value = n } ∷ [])
    ++ name_refusals ns

abbrev HostsOutcome : List Bytes → List Bytes → List RejectedClaim → Normalized Bytes → Type 0
HostsOutcome names before all (failed e) = Unit {0}
HostsOutcome names before all (accepted out rejected truncated) =
    ((q : Bytes) → has_text out q ≡ (has_text before q || (has_text names q && is_plain q)))
    × Holds all rejected truncated

hosts_result-HostsOutcome :
    (claimed : ℕ) (out : List Bytes) (all rejected : List RejectedClaim) (truncated : Bool)
    → Holds all rejected truncated
    → HostsOutcome [] out all (hosts_result claimed out rejected truncated)
unfolding hosts_result has_text
hosts_result-HostsOutcome claimed out all rejected truncated h =
    elim (Bool-cases (length out == 0 && (ltb 0 claimed && length rejected == 0))) [
      | inl e ↦ rw e tt
      | inr e ↦ rw e (λ q. ground arith, h)
    ]

HostsOutcome-cons :
    (m : Bytes) (names before : List Bytes) (all : List RejectedClaim) (r : Normalized Bytes)
    → HostsOutcome names (keep_host before m) all r
    → HostsOutcome (m ∷ names) before all r
unfolding has_text
HostsOutcome-cons m names before all (failed e) h = tt
HostsOutcome-cons m names before all (accepted out rejected truncated) (members, holds) =
    (λ q. ground (arith, members q, has_text-keep_host q m before), holds)

module _ (to_ascii : Bytes → Option Bytes) where
  hosts_loop_lem :
      (claimed : ℕ) (hosts out : List Bytes) (all rejected : List RejectedClaim) (truncated : Bool)
      → Holds all rejected truncated
      → HostsOutcome
          (normal_forms to_ascii hosts)
          out
          (all ++ name_refusals (normal_forms to_ascii hosts))
          (hosts_loop to_ascii claimed hosts out rejected truncated)
  unfolding hosts_loop host_entry
  hosts_loop_lem claimed [] out all rejected truncated h =
      hosts_result-HostsOutcome claimed out (all ++ []) rejected truncated (rw append-nil h)
  hosts_loop_lem claimed (g ∷ hosts) out all rejected truncated h =
      let m = normalize_or_wildcard to_ascii g in
      let (rejected', truncated') =
        refuse_port (not (is_reserved m)) (host_entry m) rejected truncated in
      let all' = all ++ refusal_of (not (is_reserved m)) (host_entry m) in
      HostsOutcome-cons m (normal_forms to_ascii hosts) out _ _ (
        subst
          (λ l.
            HostsOutcome (normal_forms to_ascii hosts) (keep_host out m) l
              (hosts_loop to_ascii claimed hosts (keep_host out m) rejected' truncated'))
          (append_assoc all (refusal_of (not (is_reserved m)) (host_entry m))
            (name_refusals (normal_forms to_ascii hosts)))
          (hosts_loop_lem claimed hosts (keep_host out m) all' rejected' truncated'
            (refuse_port-Holds (not (is_reserved m)) (host_entry m) all rejected truncated h)))

  -- If `normalizeHostnames` accepts claims, then the accepted names are the normal forms of the claimed
  -- ones that are not empty and not reserved; the list of refusals is the first 32 of the reserved
  -- normal forms, in the order of the claims, as hostname entries with the code for a reserved route
  -- key and the normal form, and `truncated` tells whether there were more than 32.
  pub normalize_hostnames_lem :
      (hosts out : List Bytes) (rejected : List RejectedClaim) (truncated : Bool)
      → normalize_hostnames to_ascii hosts ≡ accepted out rejected truncated
      → ((q : Bytes) → has_text out q ≡ (has_text (normal_forms to_ascii hosts) q && is_plain q))
        × (rejected ≡ take rejected_list_bound (name_refusals (normal_forms to_ascii hosts)))
        × (truncated
            ≡ ltb rejected_list_bound (length (name_refusals (normal_forms to_ascii hosts))))
  unfolding normalize_hostnames has_text
  normalize_hostnames_lem hosts out rejected truncated e =
      let names = normal_forms to_ascii hosts in
      let (members, holds) =
        subst (HostsOutcome names [] (name_refusals names)) e
          (hosts_loop_lem (length hosts) hosts [] [] [] false no_refusal) in
      (members, holds.kept, holds.flag)

  route_key-is_reserved : (t : Transport) (port : ℕ) → is_reserved (route_key t port) ≡ true
  unfolding is_reserved route_key has_prefix
  route_key-is_reserved tcp port = refl
  route_key-is_reserved udp port = refl

  -- No accepted hostname is the route key of a port, so that hostname claims and port claims never
  -- share a pool.
  pub normalize_hostnames-ne-route_key :
      (hosts out : List Bytes) (rejected : List RejectedClaim) (truncated : Bool) (h : Bytes)
      (t : Transport) (port : ℕ)
      → normalize_hostnames to_ascii hosts ≡ accepted out rejected truncated
      → has_text out h ≡ true
      → h ≢ route_key t port
  unfolding is_plain
  normalize_hostnames-ne-route_key hosts out rejected truncated h t port e m same =
      let (members, _, _) = normalize_hostnames_lem hosts out rejected truncated e in
      absurd (ground (arith, members h, m, ap is_reserved same, route_key-is_reserved t port))
