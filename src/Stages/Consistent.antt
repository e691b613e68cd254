-- ===== src/Stages/Consistent.antt =====
-- internal/hub/hub.go: what the attested token may claim, against the handshake token.
use nexus_proxy_server.Common.{
  ℕ, ◌*◌, ◌-◌, ◌<◌, ◌≡◌, refl, sym, ◌∙◌, ap, Bool, true, false, not, ◌&&◌, ltb, ◌==◌, nat_eq,
  bytes_eq, bytes_beq_iff, List, Bytes, Option, none, some, length, arith,
}
use nexus_proxy_server.Claims.{
  RejectedClaim, Normalized, failed, accepted, normalize_tcp_port_claims, same_int_sets,
  port_allowed,
}
use nexus_proxy_server.Claims.Normal.{same_int_sets-normalize}
use nexus_proxy_server.Claims.Routes.{UdpRoutePolicy, normalize_udp_route_claims, same_udp_routes}
use nexus_proxy_server.Stages.Defs.{
  Config, Claims, Stage0Info, AttestationMetadata, Terminal, missing_iat, too_old,
  outbound_ports_differ, outbound_explicit_differs, weight_differs, tcp_ports_differ,
  hostnames_differ, udp_routes_differ, outbound_allowed_differs, nonce_mismatch, info_of, Stage,
  refused, passed, and_then, unless, normal, Filtered, same_string_sets, claimed_hostnames,
  filtered_claims, outbound_claims, check_age, validate_stage0_claims, same_bool, Kept, all_kinds,
  then_udp, then_tcp, stage0_info, then_outbound, metadata, maintenance_cap_of, compare_outbound,
  compare_claims, with_expected, build_metadata_from_claims,
}

and_then-passed :
    {A B : Type 0}
    → (s : Stage A) (f : A → Stage B) (b : B) → and_then s f ≡ passed b
    → (a : A) × (s ≡ passed a) × (f a ≡ passed b)
unfolding and_then
and_then-passed (refused t) f b h = absurd (ground (arith, h))
and_then-passed (passed a) f b h = (a, refl, h)

unless-passed :
    {A : Type 0}
    → (c : Bool) (t : Terminal) (s : Stage A) (a : A) → unless c t s ≡ passed a
    → (c ≡ false) × (s ≡ passed a)
unfolding unless
unless-passed true t s a h = absurd (ground (arith, h))
unless-passed false t s a h = (refl, h)

normal-passed :
    {A : Type 0}
    → (r : Normalized A) (p : List A × List RejectedClaim × Bool) → normal r ≡ passed p
    → r ≡ accepted p.0 p.1 p.2
unfolding normal
normal-passed (failed e) p h = absurd (ground (arith, h))
normal-passed (accepted out rejected truncated) p h = ground (arith, h)

same_bool_sound : (a b : Bool) → same_bool a b ≡ true → a ≡ b
unfolding same_bool
same_bool_sound true b h = sym h
same_bool_sound false true h = h
same_bool_sound false false h = refl

check_age-passed :
    (now max_age : ℕ) (issued : Option ℕ) (s : Stage Stage0Info) (a : Stage0Info)
    → check_age now max_age issued s ≡ passed a
    → s ≡ passed a
unfolding check_age
check_age-passed now max_age none s a h = (unless-passed (ltb 0 max_age) missing_iat s a h).1
check_age-passed now max_age (some issued) s a h =
    (unless-passed (ltb 0 max_age && ltb (max_age * 1000000000) (now - issued)) too_old s a h).1

stage0_info-passed :
    (now : ℕ) (claims : Claims) (f : Filtered) (outbound : Kept ℕ) (info : Stage0Info)
    → stage0_info now claims f outbound ≡ passed info
    → (f.tcp_ports ≡ info.tcp_ports)
      × (claims.outbound_allowed ≡ info.outbound_allowed)
      × (ltb 0 (length claims.allowed_outbound_ports) ≡ info.outbound_ports_explicit)
      × (0 < info.weight)
unfolding stage0_info info_of
stage0_info-passed now claims f outbound info h =
    let p =
      check_age-passed now claims.handshake_max_age_seconds claims.issued_at
        (passed (info_of claims f outbound)) info h in
    ground (arith, p)

metadata-passed :
    (uri_ok : Bytes → Bool) (claims : Claims) (f : Filtered) (outbound : Kept ℕ)
    (expected : Stage0Info) (cap : Option ℕ) (meta : AttestationMetadata)
    → metadata uri_ok claims f outbound expected cap ≡ passed meta
    → meta.granted ≡ expected
unfolding metadata unless
metadata-passed uri_ok claims f outbound expected cap meta h = ground (arith, h)

compare_outbound-passed :
    (uri_ok : Bytes → Bool) (claims : Claims) (f : Filtered) (expected : Stage0Info)
    (outbound : Kept ℕ) (meta : AttestationMetadata)
    → compare_outbound uri_ok claims f expected outbound ≡ passed meta
    → (ltb 0 (length claims.allowed_outbound_ports) ≡ expected.outbound_ports_explicit)
      × (meta.granted ≡ expected)
unfolding compare_outbound
compare_outbound-passed uri_ok claims f expected outbound meta h =
    let cap =
      and_then (maintenance_cap_of claims.maintenance_grace_cap_seconds)
        (metadata uri_ok claims f outbound expected) in
    let weight =
      unless (ltb 0 claims.weight && not (claims.weight == expected.weight)) weight_differs cap in
    let same =
      same_bool (ltb 0 (length claims.allowed_outbound_ports)) expected.outbound_ports_explicit in
    let explicit = unless (not same) outbound_explicit_differs weight in
    let (_, h1) =
      unless-passed (not (same_int_sets outbound.0 expected.allowed_outbound_ports))
        outbound_ports_differ explicit meta h in
    let (e, h2) = unless-passed (not same) outbound_explicit_differs weight meta h1 in
    let (_, h3) =
      unless-passed (ltb 0 claims.weight && not (claims.weight == expected.weight)) weight_differs
        cap meta h2 in
    let (c, _, h4) =
      and_then-passed (maintenance_cap_of claims.maintenance_grace_cap_seconds)
        (metadata uri_ok claims f outbound expected) meta h3 in
    (
      same_bool_sound (ltb 0 (length claims.allowed_outbound_ports))
          expected.outbound_ports_explicit (ground (arith, e)),
      metadata-passed uri_ok claims f outbound expected c meta h4,
    )

compare_claims-passed :
    (uri_ok : Bytes → Bool) (c : Config) (claims : Claims) (f : Filtered) (expected : Stage0Info)
    (meta : AttestationMetadata)
    → compare_claims uri_ok c claims expected f ≡ passed meta
    → (same_int_sets f.tcp_ports expected.tcp_ports ≡ true)
      × (claims.outbound_allowed ≡ expected.outbound_allowed)
      × (ltb 0 (length claims.allowed_outbound_ports) ≡ expected.outbound_ports_explicit)
      × (meta.granted ≡ expected)
unfolding compare_claims
compare_claims-passed uri_ok c claims f expected meta h =
    let ports = same_int_sets f.tcp_ports expected.tcp_ports in
    let routes = same_udp_routes f.udp_routes expected.udp_routes in
    let allowed = same_bool claims.outbound_allowed expected.outbound_allowed in
    let s1 = and_then (outbound_claims c claims) (compare_outbound uri_ok claims f expected) in
    let s2 = unless (not allowed) outbound_allowed_differs s1 in
    let s3 = unless (not routes) udp_routes_differ s2 in
    let s4 = unless (not ports) tcp_ports_differ s3 in
    let (_, h4) =
      unless-passed (not (same_string_sets f.hostnames expected.hostnames)) hostnames_differ s4 meta
        h in
    let (p, h3) = unless-passed (not ports) tcp_ports_differ s3 meta h4 in
    let (_, h2) = unless-passed (not routes) udp_routes_differ s2 meta h3 in
    let (a, h1) = unless-passed (not allowed) outbound_allowed_differs s1 meta h2 in
    let (outbound, _, h0) =
      and_then-passed (outbound_claims c claims) (compare_outbound uri_ok claims f expected) meta
        h1 in
    let (explicit, granted) = compare_outbound-passed uri_ok claims f expected outbound meta h0 in
    (
      ground (arith, p),
      same_bool_sound claims.outbound_allowed expected.outbound_allowed (ground (arith, a)),
      explicit,
      granted,
    )

all_kinds-tcp_ports :
    (hosts : Kept Bytes) (tcp : Kept ℕ) (udp : Kept UdpRoutePolicy) (f : Filtered)
    → all_kinds hosts tcp udp ≡ passed f
    → tcp.0 ≡ f.tcp_ports
unfolding all_kinds unless
all_kinds-tcp_ports hosts tcp udp f h = ground (arith, h)

module _ (to_ascii : Bytes → Option Bytes) where
  -- The TCP ports of filtered claims are the normalized ones.
  filtered_claims-tcp_ports :
      (c : Config) (claims : Claims) (f : Filtered)
      → filtered_claims to_ascii c claims ≡ passed f
      → (rejected : List RejectedClaim) × (truncated : Bool) × (normalize_tcp_port_claims
            c.allowed_tcp_port_claims claims.tcp_ports
          ≡ accepted f.tcp_ports rejected truncated)
  unfolding filtered_claims then_tcp then_udp
  filtered_claims-tcp_ports c claims f h =
      let ports = normalize_tcp_port_claims c.allowed_tcp_port_claims claims.tcp_ports in
      let (hosts, _, h1) =
        and_then-passed (claimed_hostnames to_ascii claims) (then_tcp c claims) f h in
      let (tcp, e, h2) = and_then-passed (normal ports) (then_udp c claims hosts) f h1 in
      let (udp, _, h3) =
        and_then-passed (normal (normalize_udp_route_claims c.udp claims.udp_routes))
          (all_kinds hosts tcp) f h2 in
      let same = all_kinds-tcp_ports hosts tcp udp f h3 in
      (tcp.1, tcp.2, normal-passed ports tcp e ∙ ap (λ (xs : List ℕ). accepted xs tcp.1 tcp.2) same)

  validate_stage0_claims-passed :
      (c : Config) (now : ℕ) (claims : Claims) (info : Stage0Info)
      → validate_stage0_claims to_ascii c now claims ≡ passed info
      → (f : Filtered) × (filtered_claims to_ascii c claims ≡ passed f)
        × (f.tcp_ports ≡ info.tcp_ports)
        × (claims.outbound_allowed ≡ info.outbound_allowed)
        × (ltb 0 (length claims.allowed_outbound_ports) ≡ info.outbound_ports_explicit)
        × (0 < info.weight)
  unfolding validate_stage0_claims then_outbound
  validate_stage0_claims-passed c now claims info h =
      let (f, e, h1) =
        and_then-passed (filtered_claims to_ascii c claims) (then_outbound c now claims) info h in
      let (outbound, _, h2) =
        and_then-passed (outbound_claims c claims) (stage0_info now claims f) info h1 in
      let (ports, allowed, explicit, heavy) = stage0_info-passed now claims f outbound info h2 in
      (f, e, ports, allowed, explicit, heavy)

  module _ (uri_ok : Bytes → Bool) where
    build_metadata-passed :
        (c : Config) (claims : Claims) (expected : Stage0Info) (nonce : Bytes)
        (meta : AttestationMetadata)
        → build_metadata_from_claims to_ascii uri_ok c claims (some expected) nonce ≡ passed meta
        → (f : Filtered) × (claims.session_nonce ≡ nonce)
          × (filtered_claims to_ascii c claims ≡ passed f)
          × (compare_claims uri_ok c claims expected f ≡ passed meta)
    unfolding build_metadata_from_claims with_expected
    build_metadata-passed c claims expected nonce meta h =
        let same = claims.session_nonce == nonce in
        let rest =
          and_then (filtered_claims to_ascii c claims)
            (with_expected uri_ok c claims (some expected)) in
        let (n, h1) = unless-passed (not same) nonce_mismatch rest meta h in
        let (f, e, h2) =
          and_then-passed (filtered_claims to_ascii c claims)
            (with_expected uri_ok c claims (some expected)) meta h1 in
        (f, (bytes_beq_iff claims.session_nonce nonce).0 (ground (arith, n)), e, h2)

    -- If a handshake token passes `validateStage0Claims`, and an attested token passes
    -- `buildMetadataFromClaims` with what that gave, on a relay that allows some TCP port, then the attested
    -- token carries the nonce, claims the same ports of the TCP allowlist and the same outbound permission,
    -- restricts its outbound ports exactly if the handshake token did, and is granted what that was granted,
    -- with a positive weight.
    pub build_metadata-validate_stage0 :
        (c : Config) (now : ℕ) (claims0 claims1 : Claims) (info : Stage0Info) (nonce : Bytes)
        (meta : AttestationMetadata)
        → 0 < length c.allowed_tcp_port_claims
        → validate_stage0_claims to_ascii c now claims0 ≡ passed info
        → build_metadata_from_claims to_ascii uri_ok c claims1 (some info) nonce ≡ passed meta
        → (claims1.session_nonce ≡ nonce)
          × ((q : ℕ)
              → (port_allowed claims1.tcp_ports q && port_allowed c.allowed_tcp_port_claims q)
                ≡ (port_allowed claims0.tcp_ports q && port_allowed c.allowed_tcp_port_claims q))
          × (claims1.outbound_allowed ≡ claims0.outbound_allowed)
          × (ltb 0 (length claims1.allowed_outbound_ports)
              ≡ ltb 0 (length claims0.allowed_outbound_ports))
          × (meta.granted ≡ info)
          × (0 < meta.granted.weight)
    build_metadata-validate_stage0 c now claims0 claims1 info nonce meta some_port h0 h1 =
        let (f0, e0, ports0, out0, expl0, heavy) =
          validate_stage0_claims-passed c now claims0 info h0 in
        let (f1, n, e1, cmp) = build_metadata-passed c claims1 info nonce meta h1 in
        let (ports, out, expl, granted) = compare_claims-passed uri_ok c claims1 f1 info meta cmp in
        let (r0, t0, a0) = filtered_claims-tcp_ports c claims0 f0 e0 in
        let (r1, t1, a1) = filtered_claims-tcp_ports c claims1 f1 e1 in
        let same =
          same_int_sets-normalize c.allowed_tcp_port_claims claims0.tcp_ports claims1.tcp_ports
            f0.tcp_ports f1.tcp_ports r0 r1 t0 t1 some_port a0 a1 in
        (
          n,
          same.0 (ap (same_int_sets f1.tcp_ports) ports0 ∙ ports),
          out ∙ sym out0,
          expl ∙ sym expl0,
          granted,
          rw granted heavy,
        )
