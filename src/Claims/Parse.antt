-- ===== src/Claims/Parse.antt =====
-- client/client.go: `parsePolicyCloseReason`. A parsed entry keeps the code and the value as texts.
use nexus_proxy_server.Common.{
  ℕ, ◌+◌, Bool, false, ◌||◌, ◌==◌, nat_eq, bytes_eq, if◌then◌else◌, Bytes, List, [], ◌∷◌, Option,
  none, some, ◌>>=◌, length, take, drop,
}
use nexus_proxy_server.Hostnames.{index, has_prefix, has_suffix, trim_suffix}
use nexus_proxy_server.Claims.Reason.{close_policy_reason_prefix, close_policy_reason_trunc_tail}

pub record ParsedClaim : Type 0 where
  pub code : Bytes
  pub value : Bytes

-- The three results.
pub record ParsedReason : Type 0 where
  pub rejected : List ParsedClaim
  pub truncated : Bool
  pub raw_fallback : Bytes

unfoldable pub onto : ℕ → List Bytes → List Bytes
onto x [] = (x ∷ []) ∷ []
onto x (p ∷ ps) = (x ∷ p) ∷ ps

-- `strings.Split` at a byte.
unfoldable pub split : ℕ → Bytes → List Bytes
unfolding onto
split c [] = [] ∷ []
split c (x ∷ xs) = let rest = split c xs in if x == c then [] ∷ rest else onto x rest

unfoldable pub cut_entry : Bytes → Option ℕ → Option ParsedClaim
cut_entry entry none = none
cut_entry entry (some i) =
    if i == 0 || i + 1 == length entry
    then none
    else some (record { code = take i entry; value = drop (i + 1) entry })

-- An entry, cut at its first colon.
unfoldable pub parse_entry : Bytes → Option ParsedClaim
unfolding cut_entry index
parse_entry entry = cut_entry entry (index b':' entry)

-- The loop over the entries, `none` at the first malformed one.
unfoldable pub parse_entries : List Bytes → Option (List ParsedClaim)
unfolding parse_entry
parse_entries [] = some []
parse_entries (entry ∷ entries) = do
  claim ← parse_entry entry
  claims ← parse_entries entries
  some (claim ∷ claims)

unfoldable pub parsed : Bytes → Bool → Option (List ParsedClaim) → ParsedReason
parsed text truncated none = record { rejected = []; truncated = false; raw_fallback = text }
parsed text truncated (some claims) = record {
  rejected = claims;
  truncated = truncated;
  raw_fallback = [];
}

unfoldable pub parse_body : Bytes → Bool → Bytes → ParsedReason
unfolding parsed parse_entries split
parse_body text truncated body =
    if body == []
    then record { rejected = []; truncated = truncated; raw_fallback = [] }
    else parsed text truncated (parse_entries (split b',' body))

-- `parsePolicyCloseReason`.
unfoldable pub parse_policy_close_reason : Bytes → ParsedReason
unfolding parse_body has_prefix trim_suffix
parse_policy_close_reason text =
    let body = drop (length close_policy_reason_prefix) text in
    if has_prefix text close_policy_reason_prefix
    then parse_body text (has_suffix body close_policy_reason_trunc_tail)
        (trim_suffix body close_policy_reason_trunc_tail)
    else record { rejected = []; truncated = false; raw_fallback = text }
