-- ===== src/Ports/Defs.antt =====
-- client/config.go: `PortMapping`, its `finalize` and `Resolve`. The map of hosts is the list of its
-- entries in the order in which the loop meets them. `to_ascii` is the parameter of the hostnames.
use nexus_proxy_server.Common.{
  not, if◌then◌else◌, ltb, ◌==◌, nat_eq, bytes_eq, Bytes, List, [], ◌∷◌, ◌++◌, Option, none, some,
  Map, lookup, insert, length, drop,
}
use nexus_proxy_server.Hostnames.{
  normalize, normalize_or_wildcard, trim_space, has_prefix, matches_wildcard, star_dot,
}

-- `wildcardRoute`.
pub record WildcardRoute : Type 0 where
  pub pattern' : Bytes
  pub suffix : Bytes
  pub target : Bytes

pub record PortMapping : Type 0 where
  pub default_target : Bytes
  pub hosts : Option (Map Bytes Bytes)
  pub wild : List WildcardRoute

pub data FinalizeError : Type 0 where
  empty_target : Bytes → FinalizeError
  invalid_pattern : Bytes → FinalizeError

pub data Finalized : Type 0 where
  refused : FinalizeError → Finalized
  finalized : PortMapping → Finalized

-- What the loop makes of an entry.
pub data Entry : Type 0 where
  bad : FinalizeError → Entry
  wildcard : WildcardRoute → Entry
  exact : Bytes → Bytes → Entry

-- What the loop comes to.
pub data Collected : Type 0 where
  stopped : FinalizeError → Collected
  collected : Map Bytes Bytes → List WildcardRoute → Collected

unfoldable pub take_entry :
    Entry
    → (Map Bytes Bytes → List WildcardRoute → Collected)
    → Map Bytes Bytes
    → List WildcardRoute
    → Collected
take_entry (bad e) rest exacts wildcards = stopped e
take_entry (wildcard r) rest exacts wildcards = rest exacts (wildcards ++ (r ∷ []))
take_entry (exact host target) rest exacts wildcards = rest (insert host target exacts) wildcards

-- `sort.SliceStable`, longer suffixes first.
unfoldable pub place_route : WildcardRoute → List WildcardRoute → List WildcardRoute
place_route r [] = r ∷ []
place_route r (q ∷ qs) =
    let rest = place_route r qs in
    if ltb (length r.suffix) (length q.suffix) then q ∷ rest else r ∷ q ∷ qs

unfoldable pub sort_routes : List WildcardRoute → List WildcardRoute
unfolding place_route
sort_routes [] = []
sort_routes (r ∷ rs) = place_route r (sort_routes rs)

unfoldable pub sorted_mapping : Bytes → Collected → Finalized
unfolding sort_routes
sorted_mapping default_target (stopped e) = refused e
sorted_mapping default_target (collected exacts wildcards) =
    finalized (record {
      default_target = default_target;
      hosts = some exacts;
      wild = sort_routes wildcards;
    })

-- The loop of `Resolve` over the wildcards.
unfoldable pub find_route : Bytes → List WildcardRoute → Option Bytes
unfolding matches_wildcard
find_route host [] = none
find_route host (r ∷ rs) =
    if matches_wildcard host r.suffix then some r.target else find_route host rs

unfoldable pub or_default : Bytes → Option Bytes → Option Bytes
or_default default_target (some target) = some target
or_default default_target none = if not (default_target == []) then some default_target else none

unfoldable pub or_route : Bytes → List WildcardRoute → Option Bytes → Option Bytes
unfolding find_route
or_route host wild (some target) = some target
or_route host wild none = find_route host wild

-- The look-ups of `Resolve` for a host that is not empty.
unfoldable pub resolve_host : Bytes → Option (Map Bytes Bytes) → List WildcardRoute → Option Bytes
unfolding or_route lookup
resolve_host host none wild = none
resolve_host host (some exacts) wild = or_route host wild (lookup host exacts)

module _ (to_ascii : Bytes → Option Bytes) where
  unfoldable pub classify : Bytes → Bytes → Entry
  unfolding trim_space normalize_or_wildcard has_prefix
  classify raw_pattern raw_target =
      let target = trim_space raw_target in
      let normalized_pattern = normalize_or_wildcard to_ascii raw_pattern in
      if target == []
      then bad (empty_target raw_pattern)
      else if normalized_pattern == []
      then bad (invalid_pattern raw_pattern)
      else if has_prefix normalized_pattern star_dot
      then wildcard (record {
        pattern' = normalized_pattern;
        suffix = drop 1 normalized_pattern;
        target = target;
      })
      else exact normalized_pattern target

  -- The loop of `finalize`.
  unfoldable pub collect : Map Bytes Bytes → Map Bytes Bytes → List WildcardRoute → Collected
  unfolding take_entry classify
  collect [] exacts wildcards = collected exacts wildcards
  collect ((raw_pattern, target) ∷ entries) exacts wildcards =
      take_entry (classify raw_pattern target) (collect entries) exacts wildcards

  -- `finalize` of a mapping with a default and hosts.
  unfoldable pub finalize : Bytes → Map Bytes Bytes → Finalized
  unfolding collect sorted_mapping trim_space
  finalize default_target hosts =
      if length hosts == 0
      then finalized
          (record { default_target = trim_space default_target; hosts = none; wild = [] })
      else sorted_mapping (trim_space default_target) (collect hosts [] [])

  -- `Resolve`; `none` stands for false.
  unfoldable pub resolve : Bytes → PortMapping → Option Bytes
  unfolding normalize resolve_host or_default
  resolve hostname pm =
      let host = normalize to_ascii hostname in
      if hostname == []
      then or_default pm.default_target none
      else if host == []
      then or_default pm.default_target none
      else or_default pm.default_target (resolve_host host pm.hosts pm.wild)
