-- ===== src/Ports/Correct.antt =====
-- client/config.go: `finalize` and `Resolve` against the configured hosts.
use nexus_proxy_server.Common.{
  ◌≡◌, refl, sym, subst, ap, ap₂, ◌∙◌, false, if◌then◌else◌, ◌==◌, nat_eq, bytes_eq, Bytes, List,
  [], ◌∷◌, Option, none, some, Map, lookup, length, arith, Bool-cases, inl, inr,
}
use nexus_proxy_server.Hostnames.{normalize, trim_space}
use nexus_proxy_server.Ports.Defs.{
  WildcardRoute, PortMapping, Finalized, refused, finalized, Collected, stopped, collected,
  sort_routes, sorted_mapping, find_route, or_default, or_route, resolve_host, collect, finalize,
  resolve,
}
use nexus_proxy_server.Ports.Resolved.{or_else, find_route-sort_routes}
use nexus_proxy_server.Ports.Reference.{
  exact_target, wildcard_target, or_else-none, collect-Collects,
}

or_route-or_else :
    (host : Bytes) (wild : List WildcardRoute) (o : Option Bytes)
    → or_route host wild o ≡ or_else o (find_route host wild)
unfolding or_route
or_route-or_else host wild none = refl
or_route-or_else host wild (some t) = refl

abbrev mapping_of : Finalized → PortMapping → PortMapping
mapping_of (refused e) pm = pm
mapping_of (finalized q) pm = q

module _ (to_ascii : Bytes → Option Bytes) where
  -- The targets of a host: an exact one before a wildcard's before the default.
  unfoldable pub reference : Bytes → Map Bytes Bytes → Bytes → Option Bytes
  unfolding exact_target wildcard_target or_default normalize trim_space
  reference default_target hosts hostname =
      let host = normalize to_ascii hostname in
      or_default (trim_space default_target) (
        if host == []
        then none
        else or_else (exact_target to_ascii host hosts) (wildcard_target to_ascii host hosts))

  normalize-empty : normalize to_ascii [] ≡ []
  unfolding normalize trim_space
  normalize-empty = refl

  resolve-lookups :
      (hostname : Bytes) (pm : PortMapping)
      → resolve to_ascii hostname pm
        ≡ or_default pm.default_target (
            if normalize to_ascii hostname == []
            then none
            else resolve_host (normalize to_ascii hostname) pm.hosts pm.wild)
  unfolding resolve
  resolve-lookups [] pm =
      ap
        (λ host.
          or_default pm.default_target
            (if host == [] then none else resolve_host host pm.hosts pm.wild))
        (sym normalize-empty)
  resolve-lookups (c ∷ cs) pm = elim (Bool-cases (normalize to_ascii (c ∷ cs) == [])) [
    | inl e ↦ rw (resolve, e) refl
    | inr e ↦ rw (resolve, e) refl
  ]

  sorted-lookups :
      (default_target host : Bytes) (hosts : Map Bytes Bytes) (pm : PortMapping) (c : Collected)
      → collect to_ascii hosts [] [] ≡ c
      → sorted_mapping default_target c ≡ finalized pm
      → (pm.default_target ≡ default_target)
        × (resolve_host host pm.hosts pm.wild
            ≡ or_else (exact_target to_ascii host hosts) (wildcard_target to_ascii host hosts))
  unfolding sorted_mapping resolve_host lookup find_route
  sorted-lookups default_target host hosts pm (stopped e) is h = absurd (ground (arith, h))
  sorted-lookups default_target host hosts pm (collected exacts wildcards) is h =
      let same = ap (λ r. mapping_of r pm) h in
      let all = collect-Collects to_ascii hosts [] exacts [] wildcards tt is in
      let found = or_route-or_else host (sort_routes wildcards) (lookup host exacts) in
      let sorted = find_route-sort_routes host wildcards all.all_dotted ∙ all.wildly host in
      let exactly = all.exactly host ∙ or_else-none (exact_target to_ascii host hosts) in
      subst
        (λ q.
          (q.default_target ≡ default_target)
          × (resolve_host host q.hosts q.wild
              ≡ or_else (exact_target to_ascii host hosts) (wildcard_target to_ascii host hosts)))
        same (refl, found ∙ ap₂ or_else exactly sorted)

  finalize-sorted :
      (default_target : Bytes) (entry : Bytes × Bytes) (hosts : Map Bytes Bytes)
      → finalize to_ascii default_target (entry ∷ hosts)
        ≡ sorted_mapping (trim_space default_target) (collect to_ascii (entry ∷ hosts) [] [])
  unfolding finalize
  finalize-sorted default_target entry hosts =
      let some_hosts : (length (entry ∷ hosts) == 0) ≡ false = ground arith in
      rw (finalize, some_hosts) refl

  finalize-lookups :
      (default_target host : Bytes) (hosts : Map Bytes Bytes) (pm : PortMapping)
      → finalize to_ascii default_target hosts ≡ finalized pm
      → (pm.default_target ≡ trim_space default_target)
        × (resolve_host host pm.hosts pm.wild
            ≡ or_else (exact_target to_ascii host hosts) (wildcard_target to_ascii host hosts))
  unfolding finalize resolve_host exact_target wildcard_target
  finalize-lookups default_target host [] pm h =
      let same = ap (λ r. mapping_of r pm) h in
      subst
        (λ q.
          (q.default_target ≡ trim_space default_target)
          × (resolve_host host q.hosts q.wild ≡ none))
        same (refl, refl)
  finalize-lookups default_target host (entry ∷ hosts) pm h =
      sorted-lookups (trim_space default_target) host (entry ∷ hosts) pm
        (collect to_ascii (entry ∷ hosts) [] []) refl
        (sym (finalize-sorted default_target entry hosts) ∙ h)

  -- After `finalize` has accepted the hosts, `Resolve` finds for every hostname the target of the entry
  -- whose normalized pattern is the host, the last one that the loop met; else the target of a wildcard
  -- that matches the host, whichever order the sort gives them; else the default; and nothing if that is
  -- empty. A hostname that is empty after normalization has the default.
  pub resolve-finalize :
      (default_target hostname : Bytes) (hosts : Map Bytes Bytes) (pm : PortMapping)
      → finalize to_ascii default_target hosts ≡ finalized pm
      → resolve to_ascii hostname pm ≡ reference default_target hosts hostname
  unfolding reference
  resolve-finalize default_target hostname hosts pm h =
      let host = normalize to_ascii hostname in
      let (default_is, found) = finalize-lookups default_target host hosts pm h in
      resolve-lookups hostname pm
      ∙ ap₂ (λ d o. or_default d (if host == [] then none else o)) default_is found
