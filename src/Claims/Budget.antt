-- ===== src/Claims/Budget.antt =====
-- internal/hub/hub.go: the reason text of a close frame stays within its byte budget.
use nexus_proxy_server.Common.{
  ℕ, ◌+◌, ◌≤◌, Bool, true, false, if◌then◌else◌, ltb, List, [], ◌∷◌, ◌++◌, Bytes, length,
  length-take, length-append, arith, Bool-cases, inl, inr,
}
use nexus_proxy_server.Claims.Entries.{RejectedClaim}
use nexus_proxy_server.Claims.Reason.{
  TerminalKind, policy_shaped, input_malformed, truncate_bytes, encode_loop, encode_rejected_reason,
  reason_entry, close_reason_byte_budget, close_policy_reason_prefix,
  close_policy_reason_trunc_tail, separator, reserve_for,
}

length-truncate_bytes : (s : Bytes) (n : ℕ) → length (truncate_bytes s n) ≤ n
unfolding truncate_bytes
length-truncate_bytes s n = ground (arith, length-take n s)

-- While entries are left, there is room for the tail; at the end, the text fits.
encode_loop-fits :
    (first : Bool) (buf : Bytes) (rs : List RejectedClaim)
    → length buf + reserve_for rs ≤ close_reason_byte_budget
    → let (text, dropped) = encode_loop first buf rs in
      length text + (if dropped then 4 else 0) ≤ close_reason_byte_budget
unfolding encode_loop
encode_loop-fits first buf [] h = omega arith
encode_loop-fits first buf (r ∷ rs) h =
    let entry = reason_entry r in
    let sep = separator first in
    let used = length buf + (length sep + length entry) + reserve_for rs in
    elim (Bool-cases (ltb close_reason_byte_budget used)) [
      | inl full ↦ rw full h
      | inr room ↦ rw room (
          encode_loop-fits false (buf ++ (sep ++ entry)) rs
            (ground (arith, length-append buf (sep ++ entry), length-append sep entry, room)))
    ]

-- The reason text of `encodeRejectedReason` has at most 123 bytes, for every kind, every list of
-- refused claims and every fallback.
pub length-encode_rejected_reason :
    (kind : TerminalKind) (rejected : List RejectedClaim) (fallback : Bytes)
    → length (encode_rejected_reason kind rejected fallback) ≤ close_reason_byte_budget
unfolding encode_rejected_reason
length-encode_rejected_reason input_malformed rejected fallback =
    length-truncate_bytes fallback close_reason_byte_budget
length-encode_rejected_reason policy_shaped [] fallback =
    length-truncate_bytes fallback close_reason_byte_budget
length-encode_rejected_reason policy_shaped (r ∷ rs) fallback =
    let out = encode_loop true close_policy_reason_prefix (r ∷ rs) in
    let fits = encode_loop-fits true close_policy_reason_prefix (r ∷ rs) (omega arith) in
    elim (Bool-cases out.1) [
      | inl cut ↦
          rw cut (omega (arith, rw cut at fits, length-append out.0 close_policy_reason_trunc_tail))
      | inr whole ↦ rw whole (omega (arith, rw whole at fits))
    ]
