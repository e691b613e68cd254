-- ===== src/Ports/Reference.antt =====
-- client/config.go: what `Resolve` is to find, said of the configured hosts without their loop and sort.
use nexus_proxy_server.Common.{
  ◌≡◌, refl, sym, subst, ap, ◌∙◌, true, false, not, ◌&&◌, if◌then◌else◌, ◌==◌, nat_eq, bytes_eq,
  Bytes, List, [], ◌∷◌, ◌++◌, Option, none, some, Map, lookup, insert, lookup-insert, drop, arith,
  Bool-cases, inl, inr, ◌⊎◌,
}
use nexus_proxy_server.Hostnames.{
  normalize_or_wildcard, trim_space, has_prefix, matches_wildcard, star_dot,
}
use nexus_proxy_server.Ports.Defs.{
  WildcardRoute, FinalizeError, empty_target, invalid_pattern, Entry, bad, wildcard, exact,
  collected, take_entry, find_route, or_route, classify, collect,
}
use nexus_proxy_server.Ports.Resolved.{
  AllDotted, or_else, find_route-append, append-AllDotted, dotted,
}

pub or_else-none : (a : Option Bytes) → or_else a none ≡ a
or_else-none none = refl
or_else-none (some x) = refl

module _ (to_ascii : Bytes → Option Bytes) where
  abbrev pub pattern_of : Bytes → Bytes
  pattern_of raw = normalize_or_wildcard to_ascii raw

  -- The target of the last entry whose pattern is the host and no wildcard.
  unfoldable pub exact_target : Bytes → Map Bytes Bytes → Option Bytes
  unfolding has_prefix trim_space
  exact_target host [] = none
  exact_target host ((raw, target) ∷ entries) = or_else (exact_target host entries) (
      if pattern_of raw == host && not (has_prefix (pattern_of raw) star_dot)
      then some (trim_space target)
      else none)

  -- The target of the first entry whose pattern is a wildcard that matches.
  unfoldable pub wildcard_target : Bytes → Map Bytes Bytes → Option Bytes
  unfolding has_prefix trim_space matches_wildcard
  wildcard_target host [] = none
  wildcard_target host ((raw, target) ∷ entries) =
      if has_prefix (pattern_of raw) star_dot && matches_wildcard host (drop 1 (pattern_of raw))
      then some (trim_space target)
      else wildcard_target host entries

  abbrev pub route_of : Bytes → Bytes → WildcardRoute
  route_of raw target = record {
    pattern' = pattern_of raw;
    suffix = drop 1 (pattern_of raw);
    target = trim_space target;
  }

  -- The three kinds of entries.
  classify-cases :
      (raw target : Bytes)
      → ((e : FinalizeError) × (classify to_ascii raw target ≡ bad e))
        ⊎ (((has_prefix (pattern_of raw) star_dot ≡ true)
              × (classify to_ascii raw target ≡ wildcard (route_of raw target)))
            ⊎ ((has_prefix (pattern_of raw) star_dot ≡ false)
                × (classify to_ascii raw target ≡ exact (pattern_of raw) (trim_space target))))
  unfolding classify
  classify-cases raw target = elim (Bool-cases (trim_space target == [])) [
    | inl e ↦ inl (empty_target raw, rw (classify, e) refl)
    | inr e ↦ elim (Bool-cases (pattern_of raw == [])) [
      | inl e' ↦ inl (invalid_pattern raw, rw (classify, e, e') refl)
      | inr e' ↦ elim (Bool-cases (has_prefix (pattern_of raw) star_dot)) [
        | inl w ↦ inr (inl (w, rw (classify, e, e', w) refl))
        | inr w ↦ inr (inr (w, rw (classify, e, e', w) refl))
      ]
    ]
  ]

  -- What the loop leaves, for every host.
  pub record Collects (entries exacts exacts' : Map Bytes Bytes) (wild wild' : List WildcardRoute)
      : Type 0 where
    pub all_dotted : AllDotted wild'
    pub exactly :
        (host : Bytes)
        → lookup host exacts' ≡ or_else (exact_target host entries) (lookup host exacts)
    pub wildly :
        (host : Bytes)
        → find_route host wild' ≡ or_else (find_route host wild) (wildcard_target host entries)

  pub collect-Collects :
      (entries exacts exacts' : Map Bytes Bytes) (wild wild' : List WildcardRoute)
      → AllDotted wild
      → collect to_ascii entries exacts wild ≡ collected exacts' wild'
      → Collects entries exacts exacts' wild wild'
  unfolding collect take_entry exact_target wildcard_target find_route or_route
  collect-Collects [] exacts exacts' wild wild' d e =
      let ex : exacts ≡ exacts' = ground (arith, e) in
      let ws : wild ≡ wild' = ground (arith, e) in
      record {
        all_dotted = subst AllDotted ws d;
        exactly = λ host. ap (lookup host) (sym ex);
        wildly = λ host. ap (find_route host) (sym ws) ∙ sym (or_else-none (find_route host wild));
      }
  collect-Collects ((raw, target) ∷ entries) exacts exacts' wild wild' d e =
      let at = λ (x : Entry). take_entry x (collect to_ascii entries) exacts wild in
      elim (classify-cases raw target) [
        | inl (err, is) ↦ absurd (ground (arith, sym (ap at is) ∙ e))
        | inr (inl (w, is)) ↦
            let r = route_of raw target in
            let rest =
              collect-Collects entries exacts exacts' (wild ++ (r ∷ [])) wild'
                (append-AllDotted wild r d (dotted (pattern_of raw) w)) (sym (ap at is) ∙ e) in
            record {
              all_dotted = rest.all_dotted;
              exactly = λ host. rest.exactly host ∙ ground (arith, w);
              wildly = λ host. rest.wildly host ∙ ground (arith, w, find_route-append host wild r);
            }
        | inr (inr (w, is)) ↦
            let rest =
              collect-Collects entries (insert (pattern_of raw) (trim_space target) exacts) exacts'
                wild wild' d (sym (ap at is) ∙ e) in
            record {
              all_dotted = rest.all_dotted;
              exactly = λ host.
                  rest.exactly host
                  ∙ ground
                      (arith, w, lookup-insert (pattern_of raw) host (trim_space target) exacts);
              wildly = λ host. rest.wildly host ∙ ground (arith, w);
            }
      ]
