-- ===== src/Routing/Updates.antt =====
-- internal/routing/table.go: what an update and a departure make of the states and the routes.
use nexus_proxy_server.Common.{
  ℕ, ◌≡◌, refl, sym, subst, ap, ◌∙◌, true, false, not, ◌&&◌, ltb, leb, ◌==◌, nat_eq, bytes_eq,
  if◌then◌else◌, Bytes, List, [], Option, none, some, lookup, insert, delete, Distinct,
  lookup-delete, delete-Distinct, arith, Bool-cases, inl, inr,
}
use nexus_proxy_server.Hostnames.{wildcard_suffix}
use nexus_proxy_server.Routing.Peers.{Peer}
use nexus_proxy_server.Routing.Table.{
  Table, PeerState, has_text, set_of, state_or_new, updated, update_routes_for_peer, cleared,
}
use nexus_proxy_server.Routing.Listing.{times}
use nexus_proxy_server.Routing.Loops.{all_plain}
use nexus_proxy_server.Routing.Removal.{remove_routes-IsOnceTable, remove_routes-served}
use nexus_proxy_server.Routing.Announced.{
  state_of, IsServed, all_plain-set_of, remove_routes-states,
}
use nexus_proxy_server.Routing.Newest.{
  place-states, at_version, updated-state, updated-IsServed, stored-state, stored-IsServed,
}

module _ (to_ascii : Bytes → Option Bytes) where
  -- A stale announcement leaves everything; a newer one takes the place of the peer's state.
  update-stale :
      (p : Peer) (version : ℕ) (hs : List Bytes) (t : Table)
      → leb version (state_of p.addr t).version ≡ true
      → update_routes_for_peer to_ascii p version hs t
        ≡ record t { peer_states = insert p.addr (state_of p.addr t) t.peer_states }
  unfolding update_routes_for_peer
  update-stale p version hs t e = rw (update_routes_for_peer, e) refl

  update-newer :
      (p : Peer) (version : ℕ) (hs : List Bytes) (t : Table)
      → leb version (state_of p.addr t).version ≡ false
      → update_routes_for_peer to_ascii p version hs t
        ≡ updated to_ascii p version
            (state_of p.addr t).hostnames
            (set_of hs [])
            (record t { peer_states = insert p.addr (state_of p.addr t) t.peer_states })
  unfolding update_routes_for_peer
  update-newer p version hs t e = rw (update_routes_for_peer, e) refl

  -- The state of an address after an update.
  pub update-state :
      (p : Peer) (version : ℕ) (hs : List Bytes) (a : ℕ) (t : Table)
      → state_of a (update_routes_for_peer to_ascii p version hs t) ≡ (
          if p.addr == a && ltb (state_of p.addr t).version version
          then at_version version (set_of hs [])
          else state_of a t)
  update-state p version hs a t =
      let old = state_of p.addr t in
      let stored = record t { peer_states = insert p.addr old t.peer_states } in
      elim (Bool-cases (leb version old.version)) [
        | inl stale ↦
            ap (state_of a) (update-stale p version hs t stale)
            ∙ stored-state to_ascii p a t
            ∙ ground (arith, stale)
        | inr newer ↦
            ap (state_of a) (update-newer p version hs t newer)
            ∙ updated-state to_ascii p version old.hostnames (set_of hs []) a stored
            ∙ ground (arith, newer, stored-state to_ascii p a t)
      ]

  pub update-IsServed :
      (p : Peer) (version : ℕ) (hs : List Bytes) (t : Table)
      → all_plain to_ascii hs ≡ true
      → IsServed to_ascii t
      → IsServed to_ascii (update_routes_for_peer to_ascii p version hs t)
  update-IsServed p version hs t e h =
      let old = state_of p.addr t in
      let stored = record t { peer_states = insert p.addr old t.peer_states } in
      elim (Bool-cases (leb version old.version)) [
        | inl stale ↦
            subst (IsServed to_ascii) (sym (update-stale p version hs t stale))
              (stored-IsServed to_ascii p t h)
        | inr newer ↦ subst (IsServed to_ascii) (sym (update-newer p version hs t newer)) (
            subst
              (λ s.
                IsServed to_ascii (updated to_ascii p version s.hostnames (set_of hs []) stored))
              (stored-state to_ascii p p.addr t)
              (updated-IsServed to_ascii p version (set_of hs []) stored
                (all_plain-set_of to_ascii hs [] e refl) (stored-IsServed to_ascii p t h)))
      ]

  pub cleared-state :
      (p : Peer) (a : ℕ) (o : Option PeerState) (t : Table)
      → lookup p.addr t.peer_states ≡ o
      → Distinct t.peer_states
      → state_of a (cleared to_ascii p o t)
        ≡ (if p.addr == a then record { version = 0; hostnames = [] } else state_of a t)
  unfolding cleared state_or_new
  cleared-state p a none t e d = elim (Bool-cases (p.addr == a)) [
    | inl same ↦
        let at : p.addr ≡ a = ground (arith, same) in
        rw same (ap state_or_new (ap (λ b. lookup b t.peer_states) (sym at) ∙ e))
    | inr other ↦ rw other refl
  ]
  cleared-state p a (some s) t e d =
      let u = record t { peer_states = delete p.addr t.peer_states } in
      ap (λ m. state_or_new (lookup a m)) (remove_routes-states to_ascii p [] s.hostnames u)
      ∙ ap state_or_new (lookup-delete p.addr a t.peer_states d)
      ∙ elim (Bool-cases (p.addr == a)) [ inl same ↦ rw same refl | inr other ↦ rw other refl ]

  -- A peer that is gone is listed for nothing, the others for what they were.
  none_left :
      (p : Peer) (a : ℕ) (g : Bytes) (s : PeerState) (t : Table) {n : ℕ}
      → state_of p.addr t ≡ s
      → n ≡ (if has_text g (state_of a t).hostnames then 1 else 0)
      → (if p.addr == a && has_text g s.hostnames && not (has_text g []) then 0 else n) ≡ (
          if has_text g
            (if p.addr == a then record { version = 0; hostnames = [] } else state_of a t).hostnames
          then 1
          else 0)
  unfolding has_text
  none_left p a g s t was n = elim (Bool-cases (p.addr == a)) [
    | inr other ↦ ground (arith, other, n)
    | inl same ↦
        let at : p.addr ≡ a = ground (arith, same) in
        let there : has_text g (state_of a t).hostnames ≡ has_text g s.hostnames =
          ap (λ b. has_text g (state_of b t).hostnames) (sym at)
          ∙ ap (λ q. has_text g q.hostnames) was in
        ground (arith, same, n, there)
  ]

  pub cleared-IsServed :
      (p : Peer) (o : Option PeerState) (t : Table)
      → lookup p.addr t.peer_states ≡ o
      → IsServed to_ascii t
      → IsServed to_ascii (cleared to_ascii p o t)
  unfolding cleared state_or_new has_text
  cleared-IsServed p none t e h = h
  cleared-IsServed p (some s) t e h =
      let m = delete p.addr t.peer_states in
      let u = record t { peer_states = m } in
      let was : state_of p.addr t ≡ s = ap state_or_new e in
      let spec_at = λ (a : ℕ). cleared-state p a (some s) t e h.distinct in
      let old_plain = ap (λ q. all_plain to_ascii q.hostnames) (sym was) ∙ h.plain p.addr in
      record {
        once = remove_routes-IsOnceTable to_ascii p [] s.hostnames u h.once;
        distinct =
            subst Distinct (sym (remove_routes-states to_ascii p [] s.hostnames u))
              (delete-Distinct p.addr t.peer_states h.distinct);
        plain =
            λ a. ap (λ q. all_plain to_ascii q.hostnames) (spec_at a) ∙ ground (arith, h.plain a);
        agrees = λ a g plain.
            remove_routes-served to_ascii p [] s.hostnames g a u h.once old_plain plain
            ∙ none_left p a g s t was (
                ap (times a) (place-states (wildcard_suffix to_ascii g) g m t) ∙ h.agrees a g plain)
            ∙ sym (ap (λ q. if has_text g q.hostnames then 1 else 0) (spec_at a));
      }
