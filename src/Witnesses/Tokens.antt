-- ===== src/Witnesses/Tokens.antt =====
-- internal/hub/hub.go, the claims of tokens: concrete inputs for the theorems.
use nexus_proxy_server.Common.{
  ℕ, ◌<◌, ◌⊎◌, ◌++◌, map, ◌≤◌, ◌≡◌, refl, Bool, true, false, ltb, ◌&&◌, List, [], ◌∷◌, length, take,
  arith, ◌↔◌, ◌≢◌, Bytes, some, lookup, insert,
}
use nexus_proxy_server.Claims.{
  RejectedClaim, accepted, rejected_list_bound, tcp_port_kind, udp_route_kind,
  udp_route_not_allowed, outbound_port_kind, outbound_port_not_allowed, hostname_kind,
  hostname_reserved_route_key, tcp_port_not_allowed, port_allowed, normalize_tcp_port_claims,
  normalize_outbound_port_claims, outbound_port_allowed, same_int_sets, is_invalid_port,
}
use nexus_proxy_server.Claims.Sort.{Ascending}
use nexus_proxy_server.Claims.Filter.{port_refusals, any_invalid}
use nexus_proxy_server.Claims.Normal.{
  normalize_tcp_port_claims_lem, normalize_outbound_port_claims_lem,
  normalize_tcp_port_claims-accepted, same_int_sets-normalize,
}
use nexus_proxy_server.Claims.Reason.{
  policy_shaped, encode_rejected_reason, close_reason_byte_budget,
}
use nexus_proxy_server.Claims.Budget.{length-encode_rejected_reason}
use nexus_proxy_server.Claims.Reason.{bytes_of, close_policy_reason_prefix, reason_entry}
use nexus_proxy_server.Claims.Parse.{parse_policy_close_reason}
use nexus_proxy_server.Claims.Split.{tails}
use nexus_proxy_server.Claims.RoundTrip.{is_cons, parse_policy_close_reason-encode}
use nexus_proxy_server.Claims.Shown.{shown}
use nexus_proxy_server.Claims.Hosts.{
  tcp, route_key, has_text, is_plain, normalize_hostnames, normal_forms,
}
use nexus_proxy_server.Claims.Collision.{
  name_refusals, normalize_hostnames_lem, normalize_hostnames-ne-route_key,
}
use nexus_proxy_server.Claims.Routes.{
  UdpConfig, UdpRouteClaim, UdpRoutePolicy, normalize_udp_route_claims,
}
use nexus_proxy_server.Claims.Granted.{timeout_of, granted_timeout, all_served, AscendingRoutes}
use nexus_proxy_server.Claims.Limits.{AllGranted}
use nexus_proxy_server.Claims.Timeouts.{route_refusals, normalize_udp_route_claims_lem}

abbrev sample_allowlist : List ℕ
sample_allowlist = 22 ∷ 8443 ∷ 443 ∷ []

abbrev sample_ports : List ℕ
sample_ports = 8443 ∷ 9 ∷ 443 ∷ 8443 ∷ []

-- Port 9 is refused.
abbrev sample_refusal : RejectedClaim
sample_refusal = record { kind = tcp_port_kind; code = tcp_port_not_allowed; value = b'9' ∷ [] }

normalize_tcp_port_claims_lem_example :
    (any_invalid sample_ports ≡ false)
    × ((q : ℕ)
        → port_allowed (443 ∷ 8443 ∷ []) q
          ≡ (port_allowed sample_ports q && port_allowed sample_allowlist q))
    × Ascending (443 ∷ 8443 ∷ [])
    × (sample_refusal ∷ []
        ≡ take rejected_list_bound (
            port_refusals tcp_port_kind tcp_port_not_allowed
              (port_allowed sample_allowlist)
              sample_ports))
    × (false
        ≡ ltb rejected_list_bound (
            length (
              port_refusals tcp_port_kind tcp_port_not_allowed
                (port_allowed sample_allowlist)
                sample_ports)))
unfolding normalize_tcp_port_claims
normalize_tcp_port_claims_lem_example =
    normalize_tcp_port_claims_lem sample_allowlist sample_ports (443 ∷ 8443 ∷ [])
      (sample_refusal ∷ []) false (omega arith) refl

abbrev outbound_refusal : RejectedClaim
outbound_refusal = record {
  kind = outbound_port_kind;
  code = outbound_port_not_allowed;
  value = b'9' ∷ [];
}

normalize_outbound_port_claims_lem_example :
    (any_invalid sample_ports ≡ false)
    × ((q : ℕ)
        → port_allowed (443 ∷ 8443 ∷ []) q
          ≡ (port_allowed sample_ports q && outbound_port_allowed sample_allowlist q))
    × Ascending (443 ∷ 8443 ∷ [])
    × (outbound_refusal ∷ []
        ≡ take rejected_list_bound (
            port_refusals outbound_port_kind outbound_port_not_allowed
              (outbound_port_allowed sample_allowlist)
              sample_ports))
    × (false
        ≡ ltb rejected_list_bound (
            length (
              port_refusals outbound_port_kind outbound_port_not_allowed
                (outbound_port_allowed sample_allowlist)
                sample_ports)))
unfolding normalize_outbound_port_claims
normalize_outbound_port_claims_lem_example =
    normalize_outbound_port_claims_lem sample_allowlist sample_ports (443 ∷ 8443 ∷ [])
      (outbound_refusal ∷ []) false refl

normalize_tcp_port_claims-accepted_example :
    (out : List ℕ) × (rejected : List RejectedClaim) × (truncated : Bool)
    × (normalize_tcp_port_claims sample_allowlist sample_ports ≡ accepted out rejected truncated)
unfolding is_invalid_port
normalize_tcp_port_claims-accepted_example =
    normalize_tcp_port_claims-accepted sample_allowlist sample_ports (omega arith) refl

same_int_sets-normalize_example : (same_int_sets (443 ∷ 8443 ∷ []) (443 ∷ 8443 ∷ []) ≡ true) ↔ (
    (q : ℕ)
    → (port_allowed (443 ∷ 8443 ∷ []) q && port_allowed sample_allowlist q)
      ≡ (port_allowed sample_ports q && port_allowed sample_allowlist q))
unfolding normalize_tcp_port_claims
same_int_sets-normalize_example =
    same_int_sets-normalize sample_allowlist sample_ports (443 ∷ 8443 ∷ []) (443 ∷ 8443 ∷ [])
      (443 ∷ 8443 ∷ []) (sample_refusal ∷ []) [] false false (omega arith) refl refl

length-encode_rejected_reason_example :
    length (encode_rejected_reason policy_shaped (sample_refusal ∷ []) [])
    ≤ close_reason_byte_budget
length-encode_rejected_reason_example =
    length-encode_rejected_reason policy_shaped (sample_refusal ∷ []) []

parse_policy_close_reason-encode_example :
    (front back : List RejectedClaim) × (sample_refusal ∷ sample_refusal ∷ [] ≡ front ++ back)
    × (parse_policy_close_reason
          (encode_rejected_reason policy_shaped (sample_refusal ∷ sample_refusal ∷ []) [])
        ≡ record { rejected = map shown front; truncated = is_cons back; raw_fallback = [] })
    × ((is_cons back ≡ false)
        ⊎ (close_reason_byte_budget
            < length (
                close_policy_reason_prefix
                ++ (reason_entry sample_refusal
                    ++ tails (map reason_entry (sample_refusal ∷ []))))))
parse_policy_close_reason-encode_example =
    parse_policy_close_reason-encode sample_refusal (sample_refusal ∷ []) []

-- " EX.org ", "tcp:1" and "" come to "ex.org" and one refusal.
abbrev sample_names : List Bytes
sample_names = bytes_of " EX.org " ∷ bytes_of "tcp:1" ∷ [] ∷ []

abbrev name_refusal : RejectedClaim
name_refusal = record {
  kind = hostname_kind;
  code = hostname_reserved_route_key;
  value = bytes_of "tcp:1";
}

normalize_hostnames_lem_example :
    ((q : Bytes)
      → has_text (bytes_of "ex.org" ∷ []) q
        ≡ (has_text (normal_forms some sample_names) q && is_plain q))
    × (name_refusal ∷ []
        ≡ take rejected_list_bound (name_refusals (normal_forms some sample_names)))
    × (false ≡ ltb rejected_list_bound (length (name_refusals (normal_forms some sample_names))))
unfolding normalize_hostnames
normalize_hostnames_lem_example =
    normalize_hostnames_lem some sample_names (bytes_of "ex.org" ∷ []) (name_refusal ∷ []) false
      refl

normalize_hostnames-ne-route_key_example : bytes_of "ex.org" ≢ route_key tcp 443
unfolding normalize_hostnames has_text
normalize_hostnames-ne-route_key_example =
    normalize_hostnames-ne-route_key some sample_names (bytes_of "ex.org" ∷ []) (name_refusal ∷ [])
      false (bytes_of "ex.org") tcp 443 refl refl

abbrev sample_config : UdpConfig
sample_config = record {
  allowed_udp_port_claims = 53 ∷ [];
  default_seconds = 0;
  min_seconds = 10;
  max_seconds = 60;
}

abbrev sample_routes : List UdpRouteClaim
sample_routes =
    record { port = 53; flow_idle_timeout_seconds = 90 }
    ∷ record { port = 7; flow_idle_timeout_seconds = 20 }
    ∷ record { port = 53; flow_idle_timeout_seconds = 60 }
    ∷ []

abbrev route_refusal : RejectedClaim
route_refusal = record { kind = udp_route_kind; code = udp_route_not_allowed; value = b'7' ∷ [] }

abbrev sample_policies : List UdpRoutePolicy
sample_policies = record { port = 53; flow_idle_timeout = 60 } ∷ []

normalize_udp_route_claims_lem_example :
    AllGranted sample_config sample_policies
    × AscendingRoutes sample_policies
    × ((q : ℕ) → timeout_of sample_policies q ≡ granted_timeout sample_config sample_routes q)
    × (all_served sample_config sample_policies sample_routes ≡ true)
    × (route_refusal ∷ [] ≡ take rejected_list_bound (route_refusals sample_config sample_routes))
    × (false ≡ ltb rejected_list_bound (length (route_refusals sample_config sample_routes)))
unfolding normalize_udp_route_claims lookup insert
normalize_udp_route_claims_lem_example =
    normalize_udp_route_claims_lem sample_config sample_routes sample_policies (route_refusal ∷ [])
      false refl
