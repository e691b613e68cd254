-- ===== src/Claims/Entries.antt =====
-- protocol/protocol.go and internal/hub/hub.go: refused claims and their bounded list. The prose of
-- an entry (`Reason`) is left out.
use nexus_proxy_server.Common.{
  ℕ, zero, suc, ◌+◌, ◌/◌, ◌%◌, Bool, true, if◌then◌else◌, ltb, leb, List, [], ◌∷◌, ◌++◌, Bytes,
  length,
}

pub data RejectedKind : Type 0 where
  hostname_kind : RejectedKind
  tcp_port_kind : RejectedKind
  udp_route_kind : RejectedKind
  outbound_port_kind : RejectedKind

pub data RejectedCode : Type 0 where
  hostname_reserved_route_key : RejectedCode
  tcp_port_not_allowed : RejectedCode
  udp_route_not_allowed : RejectedCode
  outbound_port_not_allowed : RejectedCode

pub record RejectedClaim : Type 0 where
  pub kind : RejectedKind
  pub code : RejectedCode
  pub value : Bytes

-- `RejectedListBound`.
abbrev pub rejected_list_bound : ℕ
rejected_list_bound = 32

-- `appendRejected`: the list and the flag that it leaves.
unfoldable pub append_rejected :
    List RejectedClaim → Bool → RejectedClaim → List RejectedClaim × Bool
append_rejected rejected truncated entry =
    if leb rejected_list_bound (length rejected)
    then (rejected, true)
    else (rejected ++ (entry ∷ []), truncated)

-- `strconv.Itoa` of a number with at most `fuel` digits.
unfoldable pub digits : ℕ → ℕ → Bytes → Bytes
digits zero n rest = rest
digits (suc fuel) n rest =
    let more = digits fuel (n / 10) ((48 + n % 10) ∷ rest) in
    if ltb n 10 then (48 + n) ∷ rest else more

-- The ports that are printed have at most five digits.
unfoldable pub itoa : ℕ → Bytes
unfolding digits
itoa n = digits 20 n []

-- What a normalizer returns: an error, or the accepted claims with the refused ones.
pub data ClaimError : Type 0 where
  claims_disabled : ClaimError
  invalid_port : ℕ → ClaimError
  timeouts_inverted : ClaimError
  conflicting_routes : ℕ → ClaimError
  outbound_not_claimed : ClaimError
  outbound_disabled : ClaimError
  no_valid_hostnames : ClaimError

pub data Normalized (A : Type 0) : Type 0 where
  failed : ClaimError → Normalized A
  accepted : List A → List RejectedClaim → Bool → Normalized A
