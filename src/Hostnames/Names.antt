-- ===== src/Hostnames/Names.antt =====
-- hostnames/hostnames.go. `idna.Lookup.ToASCII` is the parameter `to_ascii`, `none` its error.
use nexus_proxy_server.Common.{
  ◌-◌, Bool, true, false, not, ◌||◌, ltb, ◌==◌, if◌then◌else◌, Bytes, [], ◌∷◌, ◌++◌, Option, none,
  some, length, take, drop, nat_eq, bytes_eq,
}
use nexus_proxy_server.Hostnames.Text.{
  contains, contains_pair, index, has_prefix, has_suffix, trim_suffix, trim_space, to_lower,
}

-- "*." and ".".
abbrev pub star_dot : Bytes
star_dot = b'*' ∷ b'.' ∷ []

abbrev pub dot : Bytes
dot = b'.' ∷ []

-- `IsWildcard`.
unfoldable pub is_wildcard : Bytes → Bool
unfolding has_prefix
is_wildcard pattern' = has_prefix pattern' star_dot

-- `IsValidWildcard`.
unfoldable pub is_valid_wildcard : Bytes → Bool
unfolding is_wildcard contains contains_pair has_prefix has_suffix
is_valid_wildcard pattern' =
    let rest = drop 2 pattern' in
    if not (is_wildcard pattern')
    then false
    else if not (contains b'.' rest)
    then false
    else if contains b'*' rest
    then false
    else if has_prefix rest dot || has_suffix rest dot || contains_pair b'.' rest
    then false
    else true

-- The part of `FirstDotSuffix` after the host is normalized.
unfoldable pub dot_suffix : Bytes → Option Bytes
unfolding index
dot_suffix h = elim (index b'.' h) [
  | none ↦ none
  | some i ↦ if ltb 0 i then some (drop i h) else none
]

-- `matchesWildcard` of client/config.go.
unfoldable pub matches_wildcard : Bytes → Bytes → Bool
unfolding has_suffix contains
matches_wildcard host suffix =
    let label = take (length host - length suffix) host in
    if not (has_suffix host suffix)
    then false
    else if label == []
    then false
    else not (contains b'.' label)

module _ (to_ascii : Bytes → Option Bytes) where
  -- The fallback of `Normalize` where the mapping fails or gives nothing.
  unfoldable pub ascii_or : Bytes → Option Bytes → Bytes
  ascii_or host none = host
  ascii_or host (some ascii) = if ascii == [] then host else ascii

  -- `Normalize`.
  unfoldable pub normalize : Bytes → Bytes
  unfolding ascii_or trim_space trim_suffix to_lower
  normalize raw =
      let trimmed = trim_space raw in
      let host = trim_suffix trimmed dot in
      if trimmed == [] then [] else to_lower (ascii_or host (to_ascii host))

  -- `NormalizeOrWildcard`.
  unfoldable pub normalize_or_wildcard : Bytes → Bytes
  unfolding normalize has_prefix trim_space
  normalize_or_wildcard raw =
      let host = trim_space raw in
      let base = normalize (drop 2 host) in
      if host == []
      then []
      else if has_prefix host star_dot
      then (if base == [] then [] else star_dot ++ base)
      else normalize host

  -- `WildcardSuffix`.
  unfoldable pub wildcard_suffix : Bytes → Option Bytes
  unfolding normalize_or_wildcard is_valid_wildcard
  wildcard_suffix raw =
      let p = normalize_or_wildcard raw in
      if not (is_valid_wildcard p) then none else some (drop 1 p)

  -- `FirstDotSuffix`.
  unfoldable pub first_dot_suffix : Bytes → Option Bytes
  unfolding normalize dot_suffix
  first_dot_suffix host = dot_suffix (normalize host)
