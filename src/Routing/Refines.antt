-- ===== src/Routing/Refines.antt =====
-- internal/routing/table.go: the table refines the announcements of its peers.
use nexus_proxy_server.Common.{
  ℕ, ◌≡◌, refl, sym, ap, ◌∙◌, true, ◌&&◌, ltb, ◌==◌, nat_eq, bytes_eq, if◌then◌else◌, Bytes, List,
  [], ◌∷◌, Option, none, some, lookup, Distinct, arith, Bool-cases, inl, inr,
}
use nexus_proxy_server.Hostnames.{wildcard_suffix}
use nexus_proxy_server.Routing.Peers.{Peer}
use nexus_proxy_server.Routing.Table.{
  Table, PeerState, new_table, has_text, set_of, state_or_new, clear_routes_for_peer,
}
use nexus_proxy_server.Routing.Listing.{times}
use nexus_proxy_server.Routing.Routes.{place}
use nexus_proxy_server.Routing.Loops.{served, is_plain, all_plain, has_text-set_of}
use nexus_proxy_server.Routing.Announced.{
  Event, announce, gone, spec_step, spec, state_of, step, run, plain_events, IsServed, Means,
}
use nexus_proxy_server.Routing.Newest.{at_version}
use nexus_proxy_server.Routing.Updates.{
  update-state, update-IsServed, cleared-state, cleared-IsServed,
}

module _ (to_ascii : Bytes → Option Bytes) where
  step-IsServed :
      (e : Event) (es : List Event) (t : Table)
      → plain_events to_ascii (e ∷ es) ≡ true
      → IsServed to_ascii t
      → IsServed to_ascii (step to_ascii e t) × (plain_events to_ascii es ≡ true)
  unfolding step clear_routes_for_peer
  step-IsServed (announce p version hs) es t e h = elim (Bool-cases (all_plain to_ascii hs)) [
    | inl plain ↦ (
      update-IsServed to_ascii p version hs t plain h,
      ap (λ b. b && plain_events to_ascii es) (sym plain) ∙ e,
    )
    | inr bad ↦ absurd (ground (arith, ap (λ b. b && plain_events to_ascii es) (sym bad) ∙ e))
  ]
  step-IsServed (gone p) es t e h =
      (cleared-IsServed to_ascii p (lookup p.addr t.peer_states) t refl h, e)

  -- The two sides take an announcement for newer together.
  same_test :
      (p : Peer) (version a : ℕ) (t : Table) (f : ℕ → PeerState)
      → Means to_ascii t f
      → (p.addr == a && ltb (state_of p.addr t).version version)
        ≡ (p.addr == a && ltb (f a).version version)
  same_test p version a t f m = elim (Bool-cases (p.addr == a)) [
    | inr other ↦ rw other refl
    | inl same ↦
        let at : p.addr ≡ a = ground (arith, same) in
        let there = ap (λ b. (state_of b t).version) at ∙ m.versions a in
        ap (λ n. p.addr == a && ltb n version) there
  ]

  step-Means :
      (e : Event) (t : Table) (f : ℕ → PeerState)
      → Distinct t.peer_states
      → Means to_ascii t f
      → Means to_ascii (step to_ascii e t) (λ a. spec_step a e (f a))
  unfolding step clear_routes_for_peer spec_step has_text
  step-Means (announce p version hs) t f d m = record {
    versions = λ a.
        ap (λ s. s.version) (update-state to_ascii p version hs a t)
        ∙ ap (λ b. (if b then at_version version (set_of hs []) else state_of a t).version)
            (same_test p version a t f m)
        ∙ ground (arith, m.versions a);
    names = λ a h.
        ap (λ s. has_text h s.hostnames) (update-state to_ascii p version hs a t)
        ∙ ap
            (λ b.
              has_text h (if b then at_version version (set_of hs []) else state_of a t).hostnames)
            (same_test p version a t f m)
        ∙ ground (arith, m.names a h, has_text-set_of h hs []);
  }
  step-Means (gone p) t f d m = record {
    versions = λ a.
        ap (λ s. s.version) (cleared-state to_ascii p a (lookup p.addr t.peer_states) t refl d)
        ∙ ground (arith, m.versions a);
    names = λ a h.
        ap (λ s. has_text h s.hostnames)
          (cleared-state to_ascii p a (lookup p.addr t.peer_states) t refl d)
        ∙ ground (arith, m.names a h);
  }

  run-served_from :
      (es : List Event) (t : Table) (f : ℕ → PeerState) (a : ℕ) (h : Bytes)
      → plain_events to_ascii es ≡ true
      → IsServed to_ascii t
      → Means to_ascii t f
      → is_plain to_ascii h ≡ true
      → served to_ascii a h (run to_ascii es t)
        ≡ (if has_text h (spec a es (f a)).hostnames then 1 else 0)
  unfolding run spec
  run-served_from [] t f a h e i m plain =
      i.agrees a h plain ∙ ap (λ b. if b then 1 else 0) (m.names a h)
  run-served_from (x ∷ es) t f a h e i m plain =
      let (i', e') = step-IsServed x es t e i in
      run-served_from es (step to_ascii x t) (λ b. spec_step b x (f b)) a h e' i'
        (step-Means x t f i.distinct m) plain

empty_place : (u : Option Bytes) (a : ℕ) (h : Bytes) → times a (place u h new_table) ≡ 0
unfolding place lookup
empty_place none a h = refl
empty_place (some s) a h = refl

empty-IsServed : (to_ascii : Bytes → Option Bytes) → IsServed to_ascii new_table
unfolding state_or_new has_text lookup
empty-IsServed to_ascii = record {
  once = (λ k a. omega arith, λ k a. omega arith);
  distinct = tt;
  plain = λ a. refl;
  agrees = λ a h plain. empty_place (wildcard_suffix to_ascii h) a h;
}

-- Whatever the peers announce, in any order: an address stands in the list of peers of a hostname once
-- if the hostname is in the newest announcement of that address since it was last gone, and else not at
-- all. Wildcards are taken to be announced in their normal form.
pub run-served :
    (to_ascii : Bytes → Option Bytes) (es : List Event) (a : ℕ) (h : Bytes)
    → plain_events to_ascii es ≡ true
    → is_plain to_ascii h ≡ true
    → served to_ascii a h (run to_ascii es new_table)
      ≡ (if has_text h (spec a es (record { version = 0; hostnames = [] })).hostnames then 1 else 0)
unfolding state_or_new has_text lookup
run-served to_ascii es a h e plain =
    run-served_from to_ascii es new_table (λ b. record { version = 0; hostnames = [] }) a h e
      (empty-IsServed to_ascii) (record { versions = λ b. refl; names = λ b g. refl }) plain
