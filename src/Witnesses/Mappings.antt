-- ===== src/Witnesses/Mappings.antt =====
-- client/config.go: concrete inputs for the theorems.
use nexus_proxy_server.Common.{◌≡◌, refl, Bytes, [], ◌∷◌, Option, some, Map, insert}
use nexus_proxy_server.Claims.Reason.{bytes_of}
use nexus_proxy_server.Hostnames.{
  normalize, normalize_or_wildcard, trim_space, trim_left, trim_right, is_space, trim_suffix,
  has_prefix, has_suffix, ascii_or, to_lower, lower_byte,
}
use nexus_proxy_server.Ports.{
  PortMapping, finalize, resolve, collect, take_entry, classify, sorted_mapping, sort_routes,
  place_route,
}
use nexus_proxy_server.Ports.Correct.{reference, resolve-finalize}

abbrev plain_ascii : Bytes → Option Bytes
plain_ascii h = some h

-- A wildcard and an exact host under it.
abbrev sample_hosts : Map Bytes Bytes
sample_hosts = (bytes_of "*.X", bytes_of "w:1") ∷ (bytes_of "a.x", bytes_of " e:2") ∷ []

abbrev sample_mapping : PortMapping
sample_mapping = record {
  default_target = bytes_of "d:3";
  hosts = some ((bytes_of "a.x", bytes_of "e:2") ∷ []);
  wild = record { pattern' = bytes_of "*.x"; suffix = bytes_of ".x"; target = bytes_of "w:1" } ∷ [];
}

resolve-finalize_example :
    resolve plain_ascii (bytes_of "b.x") sample_mapping
    ≡ reference plain_ascii (bytes_of "d:3") sample_hosts (bytes_of "b.x")
unfolding finalize collect take_entry classify sorted_mapping sort_routes place_route insert
    normalize normalize_or_wildcard trim_space trim_left trim_right is_space trim_suffix has_prefix
    has_suffix ascii_or to_lower lower_byte
resolve-finalize_example =
    resolve-finalize plain_ascii (bytes_of "d:3") (bytes_of "b.x") sample_hosts sample_mapping refl
