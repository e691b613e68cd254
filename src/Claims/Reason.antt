-- ===== src/Claims/Reason.antt =====
-- internal/hub/hub.go: `encodeRejectedReason`, the reason text of a close frame.
use Prim.Native.Char.{code as char_code}
use Prim.Native.String.{String}
use nexus_proxy_server.Common.{
  ℕ, ◌+◌, Bool, true, false, if◌then◌else◌, ltb, leb, ◌==◌, ◌&&◌, ◌||◌, nat_eq, List, [], ◌∷◌, ◌++◌,
  Bytes, length, take,
}
use nexus_proxy_server.Claims.Entries.{
  RejectedClaim, RejectedCode, hostname_reserved_route_key, tcp_port_not_allowed,
  udp_route_not_allowed, outbound_port_not_allowed,
}

-- A Go string literal as its bytes.
abbrev pub bytes_of : String → Bytes
bytes_of String.[] = []
bytes_of (String.◌∷◌ c s) = char_code c ∷ bytes_of s

-- `closeReasonByteBudget`.
abbrev pub close_reason_byte_budget : ℕ
close_reason_byte_budget = 123

-- `closeReasonElided`, `ClosePolicyReasonPrefix` and `ClosePolicyReasonTruncTail`.
abbrev pub close_reason_elided : Bytes
close_reason_elided = bytes_of "<elided>"

abbrev pub close_policy_reason_prefix : Bytes
close_policy_reason_prefix = bytes_of "policy:"

abbrev pub close_policy_reason_trunc_tail : Bytes
close_policy_reason_trunc_tail = bytes_of ",..."

-- `terminalKind`.
pub data TerminalKind : Type 0 where
  policy_shaped : TerminalKind
  input_malformed : TerminalKind

unfoldable pub code_text : RejectedCode → Bytes
code_text hostname_reserved_route_key = bytes_of "hostname_reserved_route_key"
code_text tcp_port_not_allowed = bytes_of "tcp_port_not_allowed"
code_text udp_route_not_allowed = bytes_of "udp_route_not_allowed"
code_text outbound_port_not_allowed = bytes_of "outbound_port_not_allowed"

unfoldable pub is_reason_byte : ℕ → Bool
is_reason_byte c =
    (leb b'a' c && leb c b'z') || (leb b'0' c && leb c b'9') || c == b'.' || c == b'_' || c == b'-'

unfoldable pub all_reason_bytes : Bytes → Bool
unfolding is_reason_byte
all_reason_bytes [] = true
all_reason_bytes (c ∷ cs) = is_reason_byte c && all_reason_bytes cs

-- The value of an entry, elided unless `closeReasonValueCharsetRE` matches it.
unfoldable pub shown_value : Bytes → Bytes
unfolding all_reason_bytes
shown_value value =
    if ltb 0 (length value) && all_reason_bytes value then value else close_reason_elided

unfoldable pub reason_entry : RejectedClaim → Bytes
unfolding code_text shown_value
reason_entry r = code_text r.code ++ (b':' ∷ shown_value r.value)

-- `truncateBytes`.
unfoldable pub truncate_bytes : Bytes → ℕ → Bytes
truncate_bytes s n = if leb (length s) n then s else take n s

abbrev pub separator : Bool → Bytes
separator true = []
separator false = b',' ∷ []

abbrev pub reserve_for : List RejectedClaim → ℕ
reserve_for [] = 0
reserve_for (r ∷ rs) = length close_policy_reason_trunc_tail

-- The loop over the entries: what is written, and whether entries were dropped.
unfoldable pub encode_loop : Bool → Bytes → List RejectedClaim → Bytes × Bool
unfolding reason_entry
encode_loop first buf [] = (buf, false)
encode_loop first buf (r ∷ rs) =
    let entry = reason_entry r in
    let sep = separator first in
    let rest = encode_loop false (buf ++ (sep ++ entry)) rs in
    if ltb close_reason_byte_budget (length buf + (length sep + length entry) + reserve_for rs)
    then (buf, true)
    else rest

unfoldable pub encode_rejected_reason : TerminalKind → List RejectedClaim → Bytes → Bytes
unfolding truncate_bytes encode_loop
encode_rejected_reason input_malformed rejected fallback =
    truncate_bytes fallback close_reason_byte_budget
encode_rejected_reason policy_shaped [] fallback = truncate_bytes fallback close_reason_byte_budget
encode_rejected_reason policy_shaped (r ∷ rs) fallback =
    let (buf, dropped) = encode_loop true close_policy_reason_prefix (r ∷ rs) in
    if dropped then buf ++ close_policy_reason_trunc_tail else buf
