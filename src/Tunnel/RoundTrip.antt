-- ===== src/Tunnel/RoundTrip.antt =====
-- internal/peer/tunnel.go and internal/peer/peer.go: a credit message is read as it was written.
use mathlib.Core.List.{append-nil}
use nexus_proxy_server.Common.{
  ℕ, zero, suc, ◌+◌, ◌*◌, ◌/◌, ◌%◌, ◌<◌, ◌≡◌, refl, sym, ap, ◌∙◌, false, ◌&&◌, if◌then◌else◌, ltb,
  leb, nat_eq, Bytes, [], ◌∷◌, ◌++◌, some, length, take, drop, length-append, arith,
}
use nexus_proxy_server.Hostnames.Wildcard.{take-append, drop-append}
use nexus_proxy_server.Tunnel.Wire.{
  client_id_length, put_uint, get_uint, make_tunnel_credit_message, capped_credits,
  read_tunnel_credits,
}

length-put_uint : (k n : ℕ) → length (put_uint k n) ≡ k
unfolding put_uint
length-put_uint zero n = refl
length-put_uint (suc k) n =
    omega
      (arith, length-put_uint k (n / 256), length-append (put_uint k (n / 256)) ((n % 256) ∷ []))

get_uint-append : (n b : ℕ) (xs : Bytes) → get_uint n (xs ++ (b ∷ [])) ≡ get_uint n xs * 256 + b
unfolding get_uint
get_uint-append n b [] = refl
get_uint-append n b (x ∷ xs) = get_uint-append (n * 256 + x) b xs

-- What is left of a number after its lowest bytes.
left : ℕ → ℕ → ℕ
left zero n = n
left (suc k) n = left k (n / 256)

get_uint-put_uint : (k n : ℕ) → left k n ≡ 0 → get_uint 0 (put_uint k n) ≡ n
unfolding get_uint put_uint left
get_uint-put_uint zero n h = sym h
get_uint-put_uint (suc k) n h =
    let high = get_uint-put_uint k (n / 256) h in
    let whole : n / 256 * 256 + n % 256 ≡ n = omega arith in
    get_uint-append 0 (n % 256) (put_uint k (n / 256)) ∙ ap (λ m. m * 256 + n % 256) high ∙ whole

left-uint64 : (n : ℕ) → n < 18446744073709551616 → left 8 n ≡ 0
unfolding left
left-uint64 n h = omega (arith, h)

take-prefix : (n : ℕ) (xs ys : Bytes) → length xs ≡ n → take n (xs ++ ys) ≡ xs
take-prefix n xs ys e = ap (λ k. take k (xs ++ ys)) (sym e) ∙ take-append xs ys

drop-prefix : (n : ℕ) (xs ys : Bytes) → length xs ≡ n → drop n (xs ++ ys) ≡ ys
drop-prefix n xs ys e = ap (λ k. drop k (xs ++ ys)) (sym e) ∙ drop-append xs ys

capped_credits_lem : (n : ℕ) → capped_credits n ≡ (if ltb 0 n && leb n 64 then n else 64)
unfolding capped_credits
capped_credits_lem n = ground arith

-- The credit message for a client is read as that client's, with the number of credits that was sent if it
-- is from 1 to 64, and else with 64.
pub read_tunnel_credits-make :
    (client_id : Bytes) (credits : ℕ)
    → length client_id ≡ client_id_length
    → credits < 18446744073709551616
    → read_tunnel_credits (make_tunnel_credit_message client_id credits)
      ≡ some (client_id, (if ltb 0 credits && leb credits 64 then credits else 64))
unfolding read_tunnel_credits make_tunnel_credit_message capped_credits
read_tunnel_credits-make client_id credits h small =
    let number = put_uint 8 credits in
    let size : length (client_id ++ number) ≡ 24 =
      omega (arith, h, length-put_uint 8 credits, length-append client_id number) in
    let id_is = take-prefix client_id_length client_id number h in
    let rest_is = drop-prefix client_id_length client_id number h in
    let number_is : take 8 number ≡ number =
      ap (take 8) (sym (append-nil number)) ∙ take-prefix 8 number [] (length-put_uint 8 credits) in
    let value : get_uint 0 (take 8 (drop client_id_length (client_id ++ number))) ≡ credits =
      ap (λ xs. get_uint 0 (take 8 xs)) rest_is
      ∙ ap (get_uint 0) number_is
      ∙ get_uint-put_uint 8 credits (left-uint64 credits small) in
    let long : ltb (length (make_tunnel_credit_message client_id credits))
          (1 + client_id_length + 8)
        ≡ false =
      ground (arith, size) in
    rw (read_tunnel_credits, long, id_is, value)
      (ap (λ n. some (client_id, n)) (capped_credits_lem credits))
