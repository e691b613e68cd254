-- ===== src/Stages/Defs.antt =====
-- internal/hub/hub.go: the stages. `idna.Lookup.ToASCII` is the parameter `to_ascii`, and `uri_ok` is
-- `validateAuthorizerStatusURI`, whose parser is that of `net/url`. A number of the token that is
-- missing or not positive is 0; the hub has a configuration. Times are in nanoseconds.
use nexus_proxy_server.Common.{
  ℕ, ◌+◌, ◌-◌, ◌*◌, Bool, true, false, not, ◌&&◌, ◌||◌, if◌then◌else◌, ltb, leb, ◌==◌, nat_eq,
  bytes_eq, List, [], ◌∷◌, ◌++◌, Bytes, Option, none, some, length, Map, lookup, insert, delete,
}
use nexus_proxy_server.Common.Int.{ℤ, pos, negsuc}
use nexus_proxy_server.Claims.{
  RejectedClaim, ClaimError, Normalized, failed, accepted, normalize_tcp_port_claims,
  normalize_outbound_port_claims, same_int_sets,
}
use nexus_proxy_server.Claims.Hosts.{normalize_hostnames}
use nexus_proxy_server.Claims.Routes.{
  UdpRouteClaim, UdpRoutePolicy, UdpConfig, normalize_udp_route_claims, same_udp_routes,
}

pub record Config : Type 0 where
  pub allowed_tcp_port_claims : List ℕ
  pub udp : UdpConfig
  pub allow_outbound : Bool
  pub allowed_outbound_ports : List ℕ

pub record Claims : Type 0 where
  pub hostnames : List Bytes
  pub tcp_ports : List ℕ
  pub udp_routes : List UdpRouteClaim
  pub outbound_allowed : Bool
  pub allowed_outbound_ports : List ℕ
  pub weight : ℕ
  pub session_nonce : Bytes
  pub handshake_max_age_seconds : ℕ
  pub issued_at : Option ℕ
  pub reauth_interval_seconds : ℕ
  pub reauth_grace_seconds : ℕ
  pub maintenance_grace_cap_seconds : Option ℤ
  pub authorizer_status_uri : Bytes

-- `stage0Info`.
pub record Stage0Info : Type 0 where
  pub hostnames : List Bytes
  pub tcp_ports : List ℕ
  pub udp_routes : List UdpRoutePolicy
  pub weight : ℕ
  pub outbound_allowed : Bool
  pub allowed_outbound_ports : List ℕ
  pub outbound_ports_explicit : Bool

-- `AttestationMetadata`, less the texts that it only passes on; its times are in seconds, and `granted`
-- holds what it copies from the handshake.
pub record AttestationMetadata : Type 0 where
  pub granted : Stage0Info
  pub reauth_interval : ℕ
  pub reauth_grace : ℕ
  pub maintenance_cap : Option ℕ
  pub rejected : List RejectedClaim
  pub truncated : Bool

-- Why a handshake ends.
pub data Terminal : Type 0 where
  malformed : ClaimError → Terminal
  nothing_left : List RejectedClaim → Bool → Terminal
  missing_iat : Terminal
  too_old : Terminal
  nonce_mismatch : Terminal
  missing_expectations : Terminal
  hostnames_differ : Terminal
  tcp_ports_differ : Terminal
  udp_routes_differ : Terminal
  outbound_allowed_differs : Terminal
  outbound_ports_differ : Terminal
  outbound_explicit_differs : Terminal
  weight_differs : Terminal
  negative_maintenance_cap : Terminal
  invalid_uri : Terminal

pub data Stage (A : Type 0) : Type 0 where
  refused : Terminal → Stage A
  passed : A → Stage A

unfoldable pub and_then : {A B : Type 0} → Stage A → (A → Stage B) → Stage B
and_then (refused t) f = refused t
and_then (passed a) f = f a

-- `if c { return nil, err }`.
unfoldable pub unless : {A : Type 0} → Bool → Terminal → Stage A → Stage A
unless true t s = refused t
unless false t s = s

unfoldable pub normal : {A : Type 0} → Normalized A → Stage (List A × List RejectedClaim × Bool)
normal (failed e) = refused (malformed e)
normal (accepted out rejected truncated) = passed (out, rejected, truncated)

-- What the two stages accept of the claims, before the outbound ports.
pub record Filtered : Type 0 where
  pub hostnames : List Bytes
  pub tcp_ports : List ℕ
  pub udp_routes : List UdpRoutePolicy
  pub rejected : List RejectedClaim
  pub truncated : Bool

unfoldable pub count_of : Option ℕ → ℕ
count_of none = 0
count_of (some n) = n

-- The two loops of `sameStringSets` over its map of counts.
unfoldable pub count_up : Map Bytes ℕ → List Bytes → Map Bytes ℕ
unfolding count_of
count_up counts [] = counts
count_up counts (v ∷ vs) = count_up (insert v (count_of (lookup v counts) + 1) counts) vs

unfoldable pub count_down : Map Bytes ℕ → List Bytes → Option (Map Bytes ℕ)
unfolding count_of
count_down counts [] = some counts
count_down counts (v ∷ vs) =
    let n = count_of (lookup v counts) in
    let counts' = (if leb n 1 then delete v counts else insert v (n - 1) counts) in
    let rest = count_down counts' vs in if n == 0 then none else rest

unfoldable pub is_empty_map : Option (Map Bytes ℕ) → Bool
is_empty_map none = false
is_empty_map (some counts) = length counts == 0

-- `sameStringSets`.
unfoldable pub same_string_sets : List Bytes → List Bytes → Bool
unfolding count_up count_down is_empty_map
same_string_sets xs ys =
    if not (length xs == length ys) then false else is_empty_map (count_down (count_up [] xs) ys)

-- The test of `handshake_max_age_seconds` at the time `now`.
unfoldable pub check_age : {A : Type 0} → ℕ → ℕ → Option ℕ → Stage A → Stage A
unfolding unless
check_age now max_age none s = unless (ltb 0 max_age) missing_iat s
check_age now max_age (some issued) s =
    unless (ltb 0 max_age && ltb (max_age * 1000000000) (now - issued)) too_old s

unfoldable pub same_bool : Bool → Bool → Bool
same_bool true b = b
same_bool false b = not b

-- `defaultReauthGrace`, 10 s.
abbrev pub default_reauth_grace : ℕ
default_reauth_grace = 10

-- The grace that goes with an interval.
unfoldable pub reauth_grace_of : ℕ → ℕ → ℕ
reauth_grace_of interval grace =
    if interval == 0 then 0 else if grace == 0 then default_reauth_grace else grace

unfoldable pub maintenance_cap_of : Option ℤ → Stage (Option ℕ)
maintenance_cap_of none = passed none
maintenance_cap_of (some (pos n)) = passed (some n)
maintenance_cap_of (some (negsuc n)) = refused negative_maintenance_cap

-- The accepted claims of one kind, the refusals, and whether some were left out.
abbrev pub Kept : Type 0 → Type 0
Kept A = List A × List RejectedClaim × Bool

-- The end of the part that the stages share: the test for claims that are all gone.
unfoldable pub all_kinds : Kept Bytes → Kept ℕ → Kept UdpRoutePolicy → Stage Filtered
unfolding unless
all_kinds hosts tcp udp =
    let rejected = hosts.1 ++ (tcp.1 ++ udp.1) in
    let truncated = hosts.2 || (tcp.2 || udp.2) in
    unless (length hosts.0 == 0 && (length tcp.0 == 0 && length udp.0 == 0))
      (nothing_left rejected truncated)
      (passed (record {
        hostnames = hosts.0;
        tcp_ports = tcp.0;
        udp_routes = udp.0;
        rejected = rejected;
        truncated = truncated;
      }))

unfoldable pub then_udp : Config → Claims → Kept Bytes → Kept ℕ → Stage Filtered
unfolding and_then normal all_kinds
then_udp c claims hosts tcp =
    and_then (normal (normalize_udp_route_claims c.udp claims.udp_routes)) (all_kinds hosts tcp)

unfoldable pub then_tcp : Config → Claims → Kept Bytes → Stage Filtered
unfolding and_then normal then_udp
then_tcp c claims hosts =
    and_then (normal (normalize_tcp_port_claims c.allowed_tcp_port_claims claims.tcp_ports))
      (then_udp c claims hosts)

unfoldable pub outbound_claims : Config → Claims → Stage (Kept ℕ)
unfolding normal
outbound_claims c claims = normal (
    normalize_outbound_port_claims c.allow_outbound c.allowed_outbound_ports claims.outbound_allowed
      claims.allowed_outbound_ports)

-- What the handshake token is granted; a weight that is not positive is 1.
unfoldable pub info_of : Claims → Filtered → Kept ℕ → Stage0Info
info_of claims f outbound = record {
  hostnames = f.hostnames;
  tcp_ports = f.tcp_ports;
  udp_routes = f.udp_routes;
  weight = if claims.weight == 0 then 1 else claims.weight;
  outbound_allowed = claims.outbound_allowed;
  allowed_outbound_ports = outbound.0;
  outbound_ports_explicit = ltb 0 (length claims.allowed_outbound_ports);
}

-- The end of `validateStage0Claims`.
unfoldable pub stage0_info : ℕ → Claims → Filtered → Kept ℕ → Stage Stage0Info
unfolding check_age info_of
stage0_info now claims f outbound =
    check_age now claims.handshake_max_age_seconds claims.issued_at
      (passed (info_of claims f outbound))

unfoldable pub then_outbound : Config → ℕ → Claims → Filtered → Stage Stage0Info
unfolding and_then outbound_claims stage0_info
then_outbound c now claims f = and_then (outbound_claims c claims) (stage0_info now claims f)

module _ (to_ascii : Bytes → Option Bytes) where
  unfoldable pub claimed_hostnames : Claims → Stage (Kept Bytes)
  unfolding normalize_hostnames normal
  claimed_hostnames claims =
      if ltb 0 (length claims.hostnames)
      then normal (normalize_hostnames to_ascii claims.hostnames)
      else passed ([], [], false)

  -- The part that the stages share.
  unfoldable pub filtered_claims : Config → Claims → Stage Filtered
  unfolding claimed_hostnames and_then then_tcp
  filtered_claims c claims = and_then (claimed_hostnames claims) (then_tcp c claims)

  -- `validateStage0Claims`.
  unfoldable pub validate_stage0_claims : Config → ℕ → Claims → Stage Stage0Info
  unfolding filtered_claims and_then then_outbound
  validate_stage0_claims c now claims =
      and_then (filtered_claims c claims) (then_outbound c now claims)

module _ (uri_ok : Bytes → Bool) where
  -- The end of `buildMetadataFromClaims`.
  unfoldable pub metadata :
      Claims → Filtered → Kept ℕ → Stage0Info → Option ℕ → Stage AttestationMetadata
  unfolding unless reauth_grace_of
  metadata claims f outbound expected cap =
      unless (not (claims.authorizer_status_uri == []) && not (uri_ok claims.authorizer_status_uri))
        invalid_uri
        (passed (record {
          granted = expected;
          reauth_interval = claims.reauth_interval_seconds;
          reauth_grace = reauth_grace_of claims.reauth_interval_seconds claims.reauth_grace_seconds;
          maintenance_cap = cap;
          rejected = f.rejected ++ outbound.1;
          truncated = f.truncated || outbound.2;
        }))

  -- The comparisons that follow the outbound ports.
  unfoldable pub compare_outbound :
      Claims → Filtered → Stage0Info → Kept ℕ → Stage AttestationMetadata
  unfolding unless and_then same_bool maintenance_cap_of metadata
  compare_outbound claims f expected outbound =
      unless (not (same_int_sets outbound.0 expected.allowed_outbound_ports)) outbound_ports_differ
        (unless
          (not (
            same_bool (ltb 0 (length claims.allowed_outbound_ports))
              expected.outbound_ports_explicit))
          outbound_explicit_differs
          (unless (ltb 0 claims.weight && not (claims.weight == expected.weight)) weight_differs (
            and_then (maintenance_cap_of claims.maintenance_grace_cap_seconds)
              (metadata claims f outbound expected))))

  -- The comparisons with what the handshake token was granted.
  unfoldable pub compare_claims :
      Config → Claims → Stage0Info → Filtered → Stage AttestationMetadata
  unfolding unless and_then outbound_claims same_bool same_string_sets compare_outbound
  compare_claims c claims expected f =
      unless (not (same_string_sets f.hostnames expected.hostnames)) hostnames_differ (
        unless (not (same_int_sets f.tcp_ports expected.tcp_ports)) tcp_ports_differ (
          unless (not (same_udp_routes f.udp_routes expected.udp_routes)) udp_routes_differ (
            unless (not (same_bool claims.outbound_allowed expected.outbound_allowed))
              outbound_allowed_differs
              (and_then (outbound_claims c claims) (compare_outbound claims f expected)))))

  unfoldable pub with_expected :
      Config → Claims → Option Stage0Info → Filtered → Stage AttestationMetadata
  unfolding compare_claims
  with_expected c claims none f = refused missing_expectations
  with_expected c claims (some expected) f = compare_claims c claims expected f

-- `buildMetadataFromClaims`.
unfoldable pub build_metadata_from_claims :
    (Bytes → Option Bytes)
    → (Bytes → Bool)
    → Config
    → Claims
    → Option Stage0Info
    → Bytes
    → Stage AttestationMetadata
unfolding filtered_claims and_then with_expected unless
build_metadata_from_claims to_ascii uri_ok c claims expected nonce =
    unless (not (claims.session_nonce == nonce)) nonce_mismatch
      (and_then (filtered_claims to_ascii c claims) (with_expected uri_ok c claims expected))
