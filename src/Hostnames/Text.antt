-- ===== src/Hostnames/Text.antt =====
-- The functions of Go's `strings` that the proxy calls, on texts of bytes. Spaces and case are those
-- of ASCII.
use nexus_proxy_server.Common.{
  ℕ, suc, ◌+◌, ◌-◌, Bool, true, false, ◌&&◌, ◌||◌, leb, ◌==◌, if◌then◌else◌, Bytes, [], ◌∷◌, Option,
  none, some, length, take, drop, nat_eq, bytes_eq, map,
}

-- `strings.Contains` of one byte, and of two in a row.
unfoldable pub contains : ℕ → Bytes → Bool
contains c [] = false
contains c (x ∷ xs) = x == c || contains c xs

unfoldable pub contains_pair : ℕ → Bytes → Bool
contains_pair c [] = false
contains_pair c (x ∷ []) = false
contains_pair c (x ∷ y ∷ xs) = (x == c && y == c) || contains_pair c (y ∷ xs)

-- `strings.Index` of one byte.
unfoldable pub index : ℕ → Bytes → Option ℕ
index c [] = none
index c (x ∷ xs) =
    let rest = index c xs in
    if x == c then some 0 else elim rest [ none ↦ none | some i ↦ some (suc i) ]

unfoldable pub has_prefix : Bytes → Bytes → Bool
has_prefix xs [] = true
has_prefix [] (p ∷ ps) = false
has_prefix (x ∷ xs) (p ∷ ps) = x == p && has_prefix xs ps

unfoldable pub has_suffix : Bytes → Bytes → Bool
has_suffix xs ps = leb (length ps) (length xs) && drop (length xs - length ps) xs == ps

unfoldable pub trim_suffix : Bytes → Bytes → Bytes
unfolding has_suffix
trim_suffix xs ps = if has_suffix xs ps then take (length xs - length ps) xs else xs

unfoldable pub is_space : ℕ → Bool
is_space c = c == b' ' || (leb 9 c && leb c 13)

unfoldable pub trim_left : Bytes → Bytes
unfolding is_space
trim_left [] = []
trim_left (x ∷ xs) = let rest = trim_left xs in if is_space x then rest else x ∷ xs

unfoldable pub trim_right : Bytes → Bytes
unfolding is_space
trim_right [] = []
trim_right (x ∷ xs) = let rest = trim_right xs in if is_space x && rest == [] then [] else x ∷ rest

-- `strings.TrimSpace`.
unfoldable pub trim_space : Bytes → Bytes
unfolding trim_left trim_right
trim_space xs = trim_right (trim_left xs)

unfoldable pub lower_byte : ℕ → ℕ
lower_byte c = if leb b'A' c && leb c b'Z' then c + 32 else c

-- `strings.ToLower`.
unfoldable pub to_lower : Bytes → Bytes
unfolding lower_byte
to_lower xs = map lower_byte xs
