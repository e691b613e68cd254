-- ===== src/Witnesses/Meshes.antt =====
-- internal/routing/table.go: concrete inputs for the theorems.
use nexus_proxy_server.Common.{◌≡◌, refl, if◌then◌else◌, Bytes, List, [], ◌∷◌, Option, some}
use nexus_proxy_server.Claims.Reason.{bytes_of}
use nexus_proxy_server.Hostnames.{
  wildcard_suffix, normalize_or_wildcard, is_valid_wildcard, is_wildcard, normalize, contains,
  contains_pair, has_prefix, has_suffix, trim_suffix, trim_space, trim_left, trim_right, is_space,
  to_lower, lower_byte, ascii_or,
}
use nexus_proxy_server.Routing.{Peer, new_table, has_text}
use nexus_proxy_server.Routing.Routes.{is_plain_at}
use nexus_proxy_server.Routing.Loops.{served}
use nexus_proxy_server.Routing.Announced.{Event, announce, gone, spec, run}
use nexus_proxy_server.Routing.Refines.{run-served}

-- Names that are ASCII already.
abbrev same_ascii : Bytes → Option Bytes
same_ascii h = some h

abbrev near_peer : Peer
near_peer = record { addr = 1; object = 1 }

abbrev far_peer : Peer
far_peer = record { addr = 2; object = 2 }

-- A stale announcement comes late, a wildcard is dropped by a newer one, and a peer goes.
abbrev sample_events : List Event
sample_events =
    announce near_peer 2 (bytes_of "a.b" ∷ bytes_of "*.b.c" ∷ [])
    ∷ announce near_peer 1 (bytes_of "c.b" ∷ [])
    ∷ announce far_peer 1 (bytes_of "*.b.c" ∷ [])
    ∷ announce near_peer 3 (bytes_of "a.b" ∷ [])
    ∷ gone far_peer
    ∷ []

run-served_example :
    served same_ascii 1 (bytes_of "*.b.c") (run same_ascii sample_events new_table) ≡ (
      if has_text
        (bytes_of "*.b.c")
        (spec 1 sample_events (record { version = 0; hostnames = [] })).hostnames
      then 1
      else 0)
unfolding is_plain_at wildcard_suffix normalize_or_wildcard is_valid_wildcard is_wildcard normalize
    contains contains_pair has_prefix has_suffix trim_suffix trim_space trim_left trim_right
    is_space to_lower lower_byte ascii_or
run-served_example = run-served same_ascii sample_events 1 (bytes_of "*.b.c") refl refl
