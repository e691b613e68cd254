-- ===== src/Claims/Shown.antt =====
-- client/client.go, `parsePolicyCloseReason`: an entry of the relay is cut where it was joined.
use nexus_proxy_server.Common.{
  ℕ, ◌+◌, ◌≤◌, ◌<◌, ◌≡◌, refl, ap, ◌∙◌, true, false, ◌&&◌, nat_eq, bytes_eq, ltb, Bytes, List, [],
  ◌∷◌, ◌++◌, map, some, length, take, drop, length-append, arith, Bool-cases, inl, inr,
}
use nexus_proxy_server.Hostnames.{contains}
use nexus_proxy_server.Hostnames.Wildcard.{take-append, index-append}
use nexus_proxy_server.Claims.{
  RejectedClaim, RejectedCode, hostname_reserved_route_key, tcp_port_not_allowed,
  udp_route_not_allowed, outbound_port_not_allowed,
}
use nexus_proxy_server.Claims.Reason.{
  reason_entry, code_text, shown_value, is_reason_byte, all_reason_bytes,
}
use nexus_proxy_server.Claims.Parse.{ParsedClaim, cut_entry, parse_entry, parse_entries}
use nexus_proxy_server.Claims.Split.{Plain, drop-front}

-- An entry as the client is to read it.
abbrev pub shown : RejectedClaim → ParsedClaim
shown r = record { code = code_text r.code; value = shown_value r.value }

all_reason_bytes-contains : (xs : Bytes) → all_reason_bytes xs ≡ true → contains b',' xs ≡ false
unfolding all_reason_bytes contains is_reason_byte
all_reason_bytes-contains [] h = refl
all_reason_bytes-contains (x ∷ xs) h = ground (arith, h, all_reason_bytes-contains xs)

shown_value_lem :
    (value : Bytes) → (contains b',' (shown_value value) ≡ false) × (0 < length (shown_value value))
unfolding shown_value contains
shown_value_lem value = elim (Bool-cases (ltb 0 (length value) && all_reason_bytes value)) [
  | inl ok ↦ (
    rw (shown_value, ok) (all_reason_bytes-contains value (ground (arith, ok))),
    rw (shown_value, ok) (ground (arith, ok)),
  )
  | inr bad ↦ (rw (shown_value, bad) refl, rw (shown_value, bad) (omega arith))
]

-- A code is a word with neither colon nor comma.
code_text_lem :
    (code : RejectedCode)
    → (contains b':' (code_text code) ≡ false)
      × (contains b',' (code_text code) ≡ false)
      × (20 ≤ length (code_text code))
unfolding code_text contains
code_text_lem hostname_reserved_route_key = (refl, refl, omega arith)
code_text_lem tcp_port_not_allowed = (refl, refl, omega arith)
code_text_lem udp_route_not_allowed = (refl, refl, omega arith)
code_text_lem outbound_port_not_allowed = (refl, refl, omega arith)

contains-append :
    (c : ℕ) (xs ys : Bytes)
    → contains c xs ≡ false
    → contains c ys ≡ false
    → contains c (xs ++ ys) ≡ false
unfolding contains
contains-append c [] ys h h' = h'
contains-append c (x ∷ xs) ys h h' = ground (arith, h, contains-append c xs ys)

-- An entry is not taken apart by the split, and is cut where it was joined.
pub entry_plain :
    (r : RejectedClaim) → (contains b',' (reason_entry r) ≡ false) × (4 ≤ length (reason_entry r))
unfolding reason_entry contains
entry_plain r =
    let (colon, comma, long) = code_text_lem r.code in
    let (plain, full) = shown_value_lem r.value in
    (
      contains-append b',' (code_text r.code) (b':' ∷ shown_value r.value) comma
          (ground (arith, plain)),
      omega (arith, long, length-append (code_text r.code) (b':' ∷ shown_value r.value)),
    )

parse_entry-append :
    (code value : Bytes)
    → contains b':' code ≡ false
    → 0 < length code
    → 0 < length value
    → parse_entry (code ++ (b':' ∷ value)) ≡ some (record { code = code; value = value })
unfolding parse_entry cut_entry
parse_entry-append code value plain full full' =
    let first : take (length code) (code ++ (b':' ∷ value)) ≡ code =
      take-append code (b':' ∷ value) in
    let second : drop (length code + 1) (code ++ (b':' ∷ value)) ≡ value =
      drop-front code (b':' ∷ value) 1 in
    ap (cut_entry (code ++ (b':' ∷ value))) (index-append b':' code value plain)
    ∙ ground (arith, full, full', length-append code (b':' ∷ value), first, second)

pub parse_entries-map :
    (rs : List RejectedClaim) → parse_entries (map reason_entry rs) ≡ some (map shown rs)
unfolding parse_entries reason_entry
parse_entries-map [] = refl
parse_entries-map (r ∷ rs) =
    let (colon, comma, long) = code_text_lem r.code in
    let entry =
      parse_entry-append (code_text r.code) (shown_value r.value) colon (omega (arith, long))
        (shown_value_lem r.value).1 in
    ground (arith, entry, parse_entries-map rs)

pub map-Plain : (rs : List RejectedClaim) → Plain (map reason_entry rs)
map-Plain [] = tt
map-Plain (r ∷ rs) = let h = entry_plain r in (h.0, h.1, map-Plain rs)
