-- ===== src/Routing/Newest.antt =====
-- internal/routing/table.go: each call keeps the table in agreement with what was announced.
use nexus_proxy_server.Common.{
  ℕ, ◌≡◌, refl, sym, subst, ap, ◌∙◌, true, ◌==◌, nat_eq, bytes_eq, if◌then◌else◌, Bytes, List,
  Option, none, some, Map, lookup, insert, Distinct, lookup-insert, insert-Distinct, arith,
  Bool-cases, inl, inr,
}
use nexus_proxy_server.Hostnames.{wildcard_suffix}
use nexus_proxy_server.Routing.Peers.{Peer}
use nexus_proxy_server.Routing.Table.{
  Table, PeerState, has_text, state_or_new, add_routes, remove_routes, updated,
}
use nexus_proxy_server.Routing.Listing.{times}
use nexus_proxy_server.Routing.Routes.{place, IsOnceTable}
use nexus_proxy_server.Routing.Loops.{
  served, is_plain, all_plain, add_routes-IsOnceTable, add_routes-served,
}
use nexus_proxy_server.Routing.Removal.{remove_routes-IsOnceTable, remove_routes-served}
use nexus_proxy_server.Routing.Announced.{
  state_of, IsServed, add_routes-states, remove_routes-states,
}

pub place-states :
    (u : Option Bytes) (h : Bytes) (m : Map ℕ PeerState) (t : Table)
    → place u h (record t { peer_states = m }) ≡ place u h t
unfolding place
place-states none h m t = refl
place-states (some s) h m t = refl

-- The state that an update stores.
abbrev pub at_version : ℕ → List Bytes → PeerState
at_version version new = record { version = version; hostnames = new }

module _ (to_ascii : Bytes → Option Bytes) where
  pub updated-state :
      (p : Peer) (version : ℕ) (old new : List Bytes) (a : ℕ) (t : Table)
      → state_of a (updated to_ascii p version old new t)
        ≡ (if p.addr == a then at_version version new else state_of a t)
  unfolding updated state_or_new
  updated-state p version old new a t =
      let u = remove_routes to_ascii p new old (add_routes to_ascii p old new t) in
      let new_state = at_version version new in
      let kept : lookup a u.peer_states ≡ lookup a t.peer_states = ap (lookup a) (
        remove_routes-states to_ascii p new old (add_routes to_ascii p old new t)
        ∙ add_routes-states to_ascii p old new t) in
      ap state_or_new (lookup-insert p.addr a new_state u.peer_states)
      ∙ elim (Bool-cases (p.addr == a)) [ inl e ↦ rw e refl | inr e ↦ rw (e, kept) refl ]

  updated-served :
      (p : Peer) (version : ℕ) (old new : List Bytes) (a : ℕ) (h : Bytes) (t : Table)
      → IsOnceTable t
      → all_plain to_ascii old ≡ true
      → all_plain to_ascii new ≡ true
      → is_plain to_ascii h ≡ true
      → served to_ascii a h t ≡ (if has_text h (state_of a t).hostnames then 1 else 0)
      → (state_of p.addr t).hostnames ≡ old
      → served to_ascii a h (updated to_ascii p version old new t)
        ≡ (if has_text h (if p.addr == a then new else (state_of a t).hostnames) then 1 else 0)
  unfolding updated
  updated-served p version old new a h t once e e' plain agrees was =
      let u = add_routes to_ascii p old new t in
      let first = add_routes-served to_ascii p old new h a t once e' plain in
      let second =
        remove_routes-served to_ascii p new old h a u
          (add_routes-IsOnceTable to_ascii p old new t once) e plain in
      let stored =
        insert p.addr (at_version version new) (remove_routes to_ascii p new old u).peer_states in
      ap (times a)
        (place-states (wildcard_suffix to_ascii h) h stored (remove_routes to_ascii p new old u))
      ∙ second
      ∙ elim (Bool-cases (p.addr == a)) [
        | inr other ↦ ground (arith, other, first, agrees)
        | inl same ↦
            let at : p.addr ≡ a = ground (arith, same) in
            let old_at : has_text h (state_of a t).hostnames ≡ has_text h old =
              ap (λ b. has_text h (state_of b t).hostnames) (sym at) ∙ ap (has_text h) was in
            ground (arith, same, first, agrees, old_at)
      ]

  updated-Distinct :
      (p : Peer) (version : ℕ) (old new : List Bytes) (t : Table)
      → Distinct t.peer_states
      → Distinct (updated to_ascii p version old new t).peer_states
  unfolding updated
  updated-Distinct p version old new t d =
      insert-Distinct p.addr (at_version version new)
        (remove_routes to_ascii p new old (add_routes to_ascii p old new t)).peer_states
        (subst Distinct
          (sym (
            remove_routes-states to_ascii p new old (add_routes to_ascii p old new t)
            ∙ add_routes-states to_ascii p old new t))
          d)

  updated-IsOnceTable :
      (p : Peer) (version : ℕ) (old new : List Bytes) (t : Table)
      → IsOnceTable t
      → IsOnceTable (updated to_ascii p version old new t)
  unfolding updated
  updated-IsOnceTable p version old new t once =
      remove_routes-IsOnceTable to_ascii p new old (add_routes to_ascii p old new t)
        (add_routes-IsOnceTable to_ascii p old new t once)

  pub updated-IsServed :
      (p : Peer) (version : ℕ) (new : List Bytes) (t : Table)
      → all_plain to_ascii new ≡ true
      → IsServed to_ascii t
      → IsServed to_ascii (updated to_ascii p version (state_of p.addr t).hostnames new t)
  updated-IsServed p version new t e h =
      let old = (state_of p.addr t).hostnames in
      record {
        once = updated-IsOnceTable p version old new t h.once;
        distinct = updated-Distinct p version old new t h.distinct;
        plain = λ a.
            ap (λ s. all_plain to_ascii s.hostnames) (updated-state p version old new a t)
            ∙ ground (arith, e, h.plain a);
        agrees = λ a g plain.
            updated-served p version old new a g t h.once (h.plain p.addr) e plain
              (h.agrees a g plain) refl
            ∙ sym (
                ap (λ s. if has_text g s.hostnames then 1 else 0)
                  (updated-state p version old new a t)
                ∙ ground arith);
      }

  pub stored-state :
      (p : Peer) (a : ℕ) (t : Table)
      → state_of a (record t { peer_states = insert p.addr (state_of p.addr t) t.peer_states })
        ≡ state_of a t
  unfolding state_or_new
  stored-state p a t =
      ap state_or_new (lookup-insert p.addr a (state_of p.addr t) t.peer_states)
      ∙ elim (Bool-cases (p.addr == a)) [
        | inl e ↦ let at : p.addr ≡ a = ground (arith, e) in rw e (ap (λ b. state_of b t) at)
        | inr e ↦ rw e refl
      ]

  pub stored-IsServed :
      (p : Peer) (t : Table)
      → IsServed to_ascii t
      → IsServed to_ascii
          (record t { peer_states = insert p.addr (state_of p.addr t) t.peer_states })
  stored-IsServed p t h =
      let m = insert p.addr (state_of p.addr t) t.peer_states in
      record {
        once = h.once;
        distinct = insert-Distinct p.addr (state_of p.addr t) t.peer_states h.distinct;
        plain = λ a. ap (λ s. all_plain to_ascii s.hostnames) (stored-state p a t) ∙ h.plain a;
        agrees = λ a g plain.
            ap (times a) (place-states (wildcard_suffix to_ascii g) g m t)
            ∙ h.agrees a g plain
            ∙ ap (λ s. if has_text g s.hostnames then 1 else 0) (sym (stored-state p a t));
      }
