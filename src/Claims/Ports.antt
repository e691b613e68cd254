-- ===== src/Claims/Ports.antt =====
-- internal/hub/hub.go: the port claims. A port that is negative is 0 here; both are refused alike. The
-- set `uniq` of the source holds the ports of `out`.
use nexus_proxy_server.Common.{
  ℕ, Bool, true, false, not, ◌&&◌, ◌||◌, if◌then◌else◌, ltb, leb, ◌==◌, List, [], ◌∷◌, ◌++◌, nat_eq,
  length,
}
use nexus_proxy_server.Claims.Entries.{
  RejectedKind, RejectedCode, RejectedClaim, tcp_port_kind, outbound_port_kind,
  tcp_port_not_allowed, outbound_port_not_allowed, append_rejected, itoa, Normalized, failed,
  accepted, claims_disabled, invalid_port, outbound_not_claimed, outbound_disabled,
}

-- `portAllowed`.
unfoldable pub port_allowed : List ℕ → ℕ → Bool
port_allowed [] port = false
port_allowed (a ∷ allowlist) port = a == port || port_allowed allowlist port

-- `port <= 0 || port > 65535`.
unfoldable pub is_invalid_port : ℕ → Bool
is_invalid_port port = port == 0 || ltb 65535 port

-- `sort.Ints`.
unfoldable pub insert_sorted : ℕ → List ℕ → List ℕ
insert_sorted x [] = x ∷ []
insert_sorted x (y ∷ ys) = if leb x y then x ∷ y ∷ ys else y ∷ insert_sorted x ys

unfoldable pub sort : List ℕ → List ℕ
unfolding insert_sorted
sort [] = []
sort (x ∷ xs) = insert_sorted x (sort xs)

-- One round of the loop over the ports: the lists and the flag that it leaves, if the port is valid.
unfoldable pub keep_port : Bool → List ℕ → ℕ → List ℕ
unfolding port_allowed
keep_port allowed out port =
    if allowed && not (port_allowed out port) then out ++ (port ∷ []) else out

unfoldable pub refuse_port :
    Bool → RejectedClaim → List RejectedClaim → Bool → List RejectedClaim × Bool
unfolding append_rejected
refuse_port allowed entry rejected truncated =
    if allowed then (rejected, truncated) else append_rejected rejected truncated entry

-- The entry of a port that is not allowed.
unfoldable pub port_entry : RejectedKind → RejectedCode → ℕ → RejectedClaim
unfolding itoa
port_entry kind code port = record { kind = kind; code = code; value = itoa port }

unfoldable pub port_loop :
    RejectedKind
    → RejectedCode
    → (ℕ → Bool)
    → List ℕ
    → List ℕ
    → List RejectedClaim
    → Bool
    → Normalized ℕ
unfolding keep_port refuse_port port_entry is_invalid_port sort
port_loop kind code allow [] out rejected truncated = accepted (sort out) rejected truncated
port_loop kind code allow (port ∷ ports) out rejected truncated =
    let (rejected', truncated') =
      refuse_port (allow port) (port_entry kind code port) rejected truncated in
    let rest =
      port_loop kind code allow ports (keep_port (allow port) out port) rejected' truncated' in
    if is_invalid_port port then failed (invalid_port port) else rest

-- `normalizeTCPPortClaims`, for `AllowedTCPPortClaims` of a configuration that is there.
unfoldable pub normalize_tcp_port_claims : List ℕ → List ℕ → Normalized ℕ
unfolding port_loop
normalize_tcp_port_claims allowlist ports =
    if length ports == 0
    then accepted [] [] false
    else if length allowlist == 0
    then failed claims_disabled
    else port_loop tcp_port_kind tcp_port_not_allowed (port_allowed allowlist) ports [] [] false

-- An empty `AllowedOutboundPorts` allows every port.
unfoldable pub outbound_port_allowed : List ℕ → ℕ → Bool
unfolding port_allowed
outbound_port_allowed allowlist port =
    not (ltb 0 (length allowlist) && not (port_allowed allowlist port))

-- `normalizeOutboundPortClaims`, for `AllowOutbound` and `AllowedOutboundPorts`.
unfoldable pub normalize_outbound_port_claims : Bool → List ℕ → Bool → List ℕ → Normalized ℕ
unfolding port_loop outbound_port_allowed
normalize_outbound_port_claims allow_outbound allowlist outbound_allowed ports =
    if not outbound_allowed
    then (if ltb 0 (length ports) then failed outbound_not_claimed else accepted [] [] false)
    else if not allow_outbound
    then failed outbound_disabled
    else if length ports == 0
    then accepted [] [] false
    else port_loop outbound_port_kind outbound_port_not_allowed (outbound_port_allowed allowlist)
        ports [] [] false

-- The comparison of `sameIntSets` after its sorting.
unfoldable pub same_ints : List ℕ → List ℕ → Bool
same_ints [] [] = true
same_ints (x ∷ xs) (y ∷ ys) = x == y && same_ints xs ys
same_ints _ _ = false

-- `sameIntSets`.
unfoldable pub same_int_sets : List ℕ → List ℕ → Bool
unfolding sort same_ints
same_int_sets xs ys =
    if not (length xs == length ys)
    then false
    else if length xs == 0
    then true
    else same_ints (sort xs) (sort ys)
