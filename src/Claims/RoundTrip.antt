-- ===== src/Claims/RoundTrip.antt =====
-- internal/hub/hub.go and client/client.go: the client reads from a close frame what the relay wrote.
use mathlib.Core.List.{append_assoc, append-nil}
use nexus_proxy_server.Common.{
  ◌+◌, ◌≤◌, ◌<◌, ◌≡◌, refl, sym, ap, ap₂, ◌∙◌, Bool, true, false, ◌==◌, nat_eq, bytes_eq, ltb,
  if◌then◌else◌, Bytes, List, [], ◌∷◌, ◌++◌, map, length, length-append, arith, Bool-cases, inl,
  inr, ◌⊎◌,
}
use nexus_proxy_server.Hostnames.{contains, has_prefix, has_suffix, trim_suffix}
use nexus_proxy_server.Claims.{RejectedClaim}
use nexus_proxy_server.Claims.Reason.{
  policy_shaped, encode_rejected_reason, encode_loop, reason_entry, close_policy_reason_prefix,
  close_policy_reason_trunc_tail, separator, reserve_for, close_reason_byte_budget,
}
use nexus_proxy_server.Claims.Parse.{
  ParsedReason, parse_entries, parsed, parse_body, parse_policy_close_reason,
}
use nexus_proxy_server.Claims.Split.{
  tails, split-tails, has_suffix-tails, has_suffix-append, trim_suffix-append, trim_suffix-none,
}
use nexus_proxy_server.Claims.Shown.{shown, parse_entries-map, map-Plain, entry_plain}

-- The loop writes a front of the entries, and says whether there are more.
abbrev pub is_cons : List RejectedClaim → Bool
is_cons [] = false
is_cons (r ∷ rs) = true

-- The reserve is no more than the entries that it is for.
reserve_for-le : (rs : List RejectedClaim) → reserve_for rs ≤ length (tails (map reason_entry rs))
unfolding tails
reserve_for-le [] = omega arith
reserve_for-le (r ∷ rs) =
    omega (arith, (entry_plain r).1, length-append (reason_entry r) (tails (map reason_entry rs)))

encode_loop-front :
    (buf : Bytes) (rs : List RejectedClaim)
    → (front back : List RejectedClaim) × (rs ≡ front ++ back)
      × (encode_loop false buf rs ≡ (buf ++ tails (map reason_entry front), is_cons back))
      × ((is_cons back ≡ false)
          ⊎ (close_reason_byte_budget < length buf + length (tails (map reason_entry rs))))
unfolding encode_loop tails
encode_loop-front buf [] = ([], [], refl, ap (λ t. (t, false)) (sym (append-nil buf)), inl refl)
encode_loop-front buf (r ∷ rs) =
    let entry = reason_entry r in
    let sep = separator false in
    let used = length buf + (length sep + length entry) + reserve_for rs in
    let size = length-append entry (tails (map reason_entry rs)) in
    elim (Bool-cases (ltb close_reason_byte_budget used)) [
      | inl full ↦ (
        [],
        r ∷ rs,
        refl,
        rw full (ap (λ t. (t, true)) (sym (append-nil buf))),
        inr (ground (arith, full, size, reserve_for-le rs)),
      )
      | inr room ↦
          let (front, back, same, out, why) = encode_loop-front (buf ++ (sep ++ entry)) rs in
          (
            r ∷ front,
            back,
            ap (λ xs. r ∷ xs) same,
            rw room (
                out
                ∙ ap (λ t. (t, is_cons back))
                    (append_assoc buf (sep ++ entry) (tails (map reason_entry front)))),
            elim why [
              | inl all ↦ inl all
              | inr large ↦ inr (omega (arith, large, size, length-append buf (sep ++ entry)))
            ],
          )
    ]

parsed_as : List RejectedClaim → List RejectedClaim → ParsedReason
parsed_as front back = record {
  rejected = map shown front;
  truncated = is_cons back;
  raw_fallback = [];
}

nonempty : (xs : Bytes) → 4 ≤ length xs → (xs == []) ≡ false
nonempty [] h = absurd (omega arith)
nonempty (x ∷ xs) h = refl

parse_body-tails :
    (text : Bytes) (truncated : Bool) (r : RejectedClaim) (rs : List RejectedClaim)
    → parse_body text truncated (reason_entry r ++ tails (map reason_entry rs))
      ≡ record { rejected = map shown (r ∷ rs); truncated = truncated; raw_fallback = [] }
unfolding parse_body parsed
parse_body-tails text truncated r rs =
    let body = reason_entry r ++ tails (map reason_entry rs) in
    let full = nonempty body (
      omega
        (arith, (entry_plain r).1, length-append (reason_entry r) (tails (map reason_entry rs)))) in
    rw (parse_body, full)
      (ap (λ es. parsed text truncated (parse_entries es))
          (split-tails (reason_entry r) (map reason_entry rs) (map-Plain (r ∷ rs)))
        ∙ ap (parsed text truncated) (parse_entries-map (r ∷ rs)))

parse_whole :
    (r : RejectedClaim) (rs : List RejectedClaim)
    → parse_policy_close_reason
        (close_policy_reason_prefix ++ (reason_entry r ++ tails (map reason_entry rs)))
      ≡ parsed_as (r ∷ rs) []
unfolding parse_policy_close_reason has_prefix parsed_as contains
parse_whole r rs =
    let body = reason_entry r ++ tails (map reason_entry rs) in
    let none_there =
      has_suffix-tails (reason_entry r) close_policy_reason_trunc_tail (map reason_entry rs)
        (map-Plain (r ∷ rs)) refl refl in
    ap₂ (parse_body (close_policy_reason_prefix ++ body)) none_there
      (trim_suffix-none body close_policy_reason_trunc_tail none_there)
    ∙ parse_body-tails (close_policy_reason_prefix ++ body) false r rs

parse_cut :
    (r : RejectedClaim) (front : List RejectedClaim) (b : RejectedClaim) (back : List RejectedClaim)
    → parse_policy_close_reason (
        (close_policy_reason_prefix ++ (reason_entry r ++ tails (map reason_entry front)))
        ++ close_policy_reason_trunc_tail)
      ≡ parsed_as (r ∷ front) (b ∷ back)
unfolding parse_policy_close_reason has_prefix parsed_as
parse_cut r front b back =
    let body = reason_entry r ++ tails (map reason_entry front) in
    let text = close_policy_reason_prefix ++ (body ++ close_policy_reason_trunc_tail) in
    ap₂ (parse_body text) (has_suffix-append body close_policy_reason_trunc_tail)
      (trim_suffix-append body close_policy_reason_trunc_tail)
    ∙ parse_body-tails text true r front

nothing :
    (b : RejectedClaim) (back : List RejectedClaim)
    → parse_policy_close_reason (close_policy_reason_prefix ++ close_policy_reason_trunc_tail)
      ≡ parsed_as [] (b ∷ back)
unfolding parse_policy_close_reason has_prefix has_suffix trim_suffix parse_body parsed_as
nothing b back = refl

-- The text of the entries, joined by commas.
joined : List RejectedClaim → Bytes
joined [] = []
joined (r ∷ rs) = reason_entry r ++ tails (map reason_entry rs)

encode_loop-joined :
    (r : RejectedClaim) (rs : List RejectedClaim)
    → (front back : List RejectedClaim) × (r ∷ rs ≡ front ++ back)
      × (encode_loop true close_policy_reason_prefix (r ∷ rs)
          ≡ (close_policy_reason_prefix ++ joined front, is_cons back))
      × ((is_cons back ≡ false)
          ⊎ (close_reason_byte_budget < length (close_policy_reason_prefix ++ joined (r ∷ rs))))
unfolding encode_loop joined
encode_loop-joined r rs =
    let buf = close_policy_reason_prefix in
    let entry = reason_entry r in
    let used = length buf + (0 + length entry) + reserve_for rs in
    let size = length-append entry (tails (map reason_entry rs)) in
    let whole = length-append buf (entry ++ tails (map reason_entry rs)) in
    elim (Bool-cases (ltb close_reason_byte_budget used)) [
      | inl full ↦ (
        [],
        r ∷ rs,
        refl,
        rw full refl,
        inr (ground (arith, full, size, whole, reserve_for-le rs)),
      )
      | inr room ↦
          let (front, back, same, out, why) = encode_loop-front (buf ++ entry) rs in
          (
            r ∷ front,
            back,
            ap (λ xs. r ∷ xs) same,
            rw room (
                out
                ∙ ap (λ t. (t, is_cons back))
                    (append_assoc buf entry (tails (map reason_entry front)))),
            elim why [
              | inl all ↦ inl all
              | inr large ↦ inr (omega (arith, large, size, whole, length-append buf entry))
            ],
          )
    ]

finished : Bytes × Bool → Bytes
finished out = if out.1 then out.0 ++ close_policy_reason_trunc_tail else out.0

encode_rejected_reason-finished :
    (r : RejectedClaim) (rs : List RejectedClaim) (fallback : Bytes)
    → encode_rejected_reason policy_shaped (r ∷ rs) fallback
      ≡ finished (encode_loop true close_policy_reason_prefix (r ∷ rs))
unfolding encode_rejected_reason finished
encode_rejected_reason-finished r rs fallback = refl

parse_finished :
    (r : RejectedClaim) (rs front back : List RejectedClaim)
    → r ∷ rs ≡ front ++ back
    → parse_policy_close_reason
        (finished (close_policy_reason_prefix ++ joined front, is_cons back))
      ≡ parsed_as front back
unfolding finished joined
parse_finished r rs [] [] e = absurd (ground (arith, e))
parse_finished r rs [] (b ∷ back) e = nothing b back
parse_finished r rs (q ∷ front) [] e = parse_whole q front
parse_finished r rs (q ∷ front) (b ∷ back) e = parse_cut q front b back

-- What the client reads from a close reason that the relay wrote for refused claims: a front of the
-- entries in their order, each with its code and its value as it was shown, no fallback text, and the
-- truncated flag exactly if entries are missing; and entries are missing only if all of them, joined by
-- commas after the prefix, are over the budget of 123 bytes.
pub parse_policy_close_reason-encode :
    (r : RejectedClaim) (rs : List RejectedClaim) (fallback : Bytes)
    → (front back : List RejectedClaim) × (r ∷ rs ≡ front ++ back)
      × (parse_policy_close_reason (encode_rejected_reason policy_shaped (r ∷ rs) fallback)
          ≡ record { rejected = map shown front; truncated = is_cons back; raw_fallback = [] })
      × ((is_cons back ≡ false)
          ⊎ (close_reason_byte_budget
              < length
                  (close_policy_reason_prefix ++ (reason_entry r ++ tails (map reason_entry rs)))))
unfolding joined parsed_as
parse_policy_close_reason-encode r rs fallback =
    let (front, back, same, out, why) = encode_loop-joined r rs in
    (
      front,
      back,
      same,
      ap parse_policy_close_reason (encode_rejected_reason-finished r rs fallback ∙ ap finished out)
          ∙ parse_finished r rs front back same,
      why,
    )
