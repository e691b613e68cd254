-- ===== src/Claims/Hosts.antt =====
-- internal/hub/hub.go: `normalizeHostnames`, and the route keys of protocol/protocol.go. The set
-- `uniq` of the source holds the names of `out`.
use nexus_proxy_server.Common.{
  ℕ, Bool, false, not, ◌&&◌, ◌||◌, if◌then◌else◌, ltb, ◌==◌, nat_eq, bytes_eq, List, [], ◌∷◌, ◌++◌,
  Bytes, Option, length,
}
use nexus_proxy_server.Hostnames.{has_prefix, normalize_or_wildcard}
use nexus_proxy_server.Claims.Entries.{
  RejectedClaim, hostname_kind, hostname_reserved_route_key, itoa, Normalized, failed, accepted,
  no_valid_hostnames,
}
use nexus_proxy_server.Claims.Ports.{refuse_port}
use nexus_proxy_server.Claims.Reason.{bytes_of}

pub data Transport : Type 0 where
  tcp : Transport
  udp : Transport

-- `RouteKeyPrefixTCP` and `RouteKeyPrefixUDP`.
abbrev pub route_key_prefix : Transport → Bytes
route_key_prefix tcp = bytes_of "tcp:"
route_key_prefix udp = bytes_of "udp:"

-- `RouteKey`.
unfoldable pub route_key : Transport → ℕ → Bytes
unfolding itoa
route_key transport port = route_key_prefix transport ++ itoa port

unfoldable pub has_text : List Bytes → Bytes → Bool
has_text [] q = false
has_text (x ∷ xs) q = x == q || has_text xs q

-- A name that would collide with the keys of port claims.
unfoldable pub is_reserved : Bytes → Bool
unfolding has_prefix
is_reserved n = has_prefix n (route_key_prefix tcp) || has_prefix n (route_key_prefix udp)

unfoldable pub is_plain : Bytes → Bool
unfolding is_reserved
is_plain n = not (n == []) && not (is_reserved n)

unfoldable pub keep_host : List Bytes → Bytes → List Bytes
unfolding is_plain has_text
keep_host out n = if is_plain n && not (has_text out n) then out ++ (n ∷ []) else out

unfoldable pub host_entry : Bytes → RejectedClaim
host_entry n = record { kind = hostname_kind; code = hostname_reserved_route_key; value = n }

-- The end of the function, for the number of claimed names.
unfoldable pub hosts_result : ℕ → List Bytes → List RejectedClaim → Bool → Normalized Bytes
hosts_result claimed out rejected truncated =
    if length out == 0 && (ltb 0 claimed && length rejected == 0)
    then failed no_valid_hostnames
    else accepted out rejected truncated

module _ (to_ascii : Bytes → Option Bytes) where
  unfoldable pub hosts_loop :
      ℕ → List Bytes → List Bytes → List RejectedClaim → Bool → Normalized Bytes
  unfolding keep_host refuse_port host_entry hosts_result is_reserved normalize_or_wildcard
  hosts_loop claimed [] out rejected truncated = hosts_result claimed out rejected truncated
  hosts_loop claimed (h ∷ hosts) out rejected truncated =
      let n = normalize_or_wildcard to_ascii h in
      let (rejected', truncated') =
        refuse_port (not (is_reserved n)) (host_entry n) rejected truncated in
      hosts_loop claimed hosts (keep_host out n) rejected' truncated'

  -- `normalizeHostnames`.
  unfoldable pub normalize_hostnames : List Bytes → Normalized Bytes
  unfolding hosts_loop
  normalize_hostnames hosts = hosts_loop (length hosts) hosts [] [] false

  -- The normal forms of the claimed names.
  abbrev pub normal_forms : List Bytes → List Bytes
  normal_forms [] = []
  normal_forms (h ∷ hosts) = normalize_or_wildcard to_ascii h ∷ normal_forms hosts
