-- ===== src/Registry/Selects.antt =====
-- internal/hub/hub.go: `SelectBackend` leaves the backends of every pool.
use nexus_proxy_server.Common.{
  ℕ, ◌≡◌, refl, sym, subst, ap, ◌∙◌, ◌==◌, bytes_eq, bytes_beq_iff, Bytes, List, [], ◌∷◌, Option,
  none, some, ◌>>=◌, lookup, lookup-insert, arith, Bool-cases, Option-cases, inl, inr,
}
use nexus_proxy_server.Common.SwapRemove.{count_key}
use nexus_proxy_server.Hostnames.{first_dot_suffix}
use nexus_proxy_server.Balancer.{Backend, id_of, LoadBalancerPool, Selected, select, select_loop}
use nexus_proxy_server.Registry.Defs.{
  Hub, Slot, exact, wild, put_pool, select_in, found_at, wildcard_pool, select_backend,
}
use nexus_proxy_server.Registry.Slots.{times, at}

select-backends :
    (fuel : ℕ) (p q : LoadBalancerPool) (r : Selected) (bs : List Backend)
    → p.backends ≡ bs
    → select fuel p ≡ some (r, q)
    → q.backends ≡ p.backends
unfolding select
select-backends fuel p q r [] e h = ground (arith, e, h)
select-backends fuel p q r (b ∷ []) e h = ground (arith, e, h)
select-backends fuel p q r (b ∷ c ∷ cs) e h =
    elim (Option-cases
      (select_loop fuel p.greatest_common_div (b ∷ c ∷ cs) p.next_index p.current_weight)) [
        | inl none_there ↦ absurd (ground (arith, e, h, none_there))
        | inr (out, found) ↦ ground (arith, e, h, found)
      ]

put_pool-times :
    (s q : Slot) (a : ℕ) (p : LoadBalancerPool) (h : Hub)
    → times a (some p) ≡ times a (at s h)
    → times a (at q (put_pool s p h)) ≡ times a (at q h)
unfolding put_pool
put_pool-times (exact key) (wild k) a p h e = refl
put_pool-times (wild key) (exact k) a p h e = refl
put_pool-times (exact key) (exact k) a p h e =
    ap (times a) (lookup-insert key k p h.pools) ∙ elim (Bool-cases (key == k)) [
      | inr other ↦ rw other refl
      | inl same ↦ rw same (e ∙ ap (λ x. times a (lookup x h.pools)) ((bytes_beq_iff key k).0 same))
    ]
put_pool-times (wild key) (wild k) a p h e =
    ap (times a) (lookup-insert key k p h.wildcard_pools) ∙ elim (Bool-cases (key == k)) [
      | inr other ↦ rw other refl
      | inl same ↦
          rw same (e ∙ ap (λ x. times a (lookup x h.wildcard_pools)) ((bytes_beq_iff key k).0 same))
    ]

-- A pool that was found is the one of its slot.
abbrev IsFound : Hub → Option (Slot × LoadBalancerPool) → Type 0
IsFound h none = Unit {0}
IsFound h (some (s, p)) = at s h ≡ some p

found_at-IsFound :
    (s : Slot) (o : Option LoadBalancerPool) (h : Hub) → at s h ≡ o → IsFound h (found_at s o)
unfolding found_at
found_at-IsFound s none h e = tt
found_at-IsFound s (some p) h e = e

wildcard_pool-IsFound : (o : Option Bytes) (h : Hub) → IsFound h (wildcard_pool o h)
unfolding wildcard_pool
wildcard_pool-IsFound none h = tt
wildcard_pool-IsFound (some s) h = found_at-IsFound (wild s) (lookup s h.wildcard_pools) h refl

abbrev hub_of : Hub → Option (Option Selected × Hub) → Hub
hub_of h none = h
hub_of h (some (r, g)) = g

select_in-times :
    (fuel : ℕ) (h : Hub) (found : Option (Slot × LoadBalancerPool)) (q : Slot) (a : ℕ)
    → IsFound h found
    → times a (at q (hub_of h (select_in fuel h found))) ≡ times a (at q h)
unfolding select_in
select_in-times fuel h none q a e = refl
select_in-times fuel h (some (s, p)) q a e =
    let goes_on : Selected × LoadBalancerPool → Option (Option Selected × Hub) =
      λ x. some (some x.0, put_pool s x.1 h) in
    let counted : Option (Selected × LoadBalancerPool) → ℕ =
      λ o. times a (at q (hub_of h (o >>= goes_on))) in
    elim (Option-cases (select fuel p)) [
      | inl none_there ↦ ap counted none_there
      | inr ((r, g), out) ↦
          let same = select-backends fuel p g r p.backends refl out in
          let held = ap (count_key id_of a) same ∙ ap (times a) (sym e) in
          ap counted out ∙ put_pool-times s q a g h held
    ]

-- No pool holds another backend after a selection.
pub select_backend-times :
    (to_ascii : Bytes → Option Bytes) (fuel : ℕ) (hostname : Bytes) (h g : Hub)
    (r : Option Selected) (q : Slot) (a : ℕ)
    → select_backend to_ascii fuel hostname h ≡ some (r, g)
    → times a (at q g) ≡ times a (at q h)
unfolding select_backend
select_backend-times to_ascii fuel hostname h g r q a e =
    let exactly = found_at (exact hostname) (lookup hostname h.pools) in
    let wildly = wildcard_pool (first_dot_suffix to_ascii hostname) h in
    elim (Option-cases exactly) [
      | inl none_there ↦
          ap (λ o. times a (at q (hub_of h o)))
            (sym (
              ap (λ o. select_in fuel h (elim o [ some found ↦ some found | none ↦ wildly ]))
                (sym none_there)
              ∙ e))
          ∙ select_in-times fuel h wildly q a
              (wildcard_pool-IsFound (first_dot_suffix to_ascii hostname) h)
      | inr (found, there) ↦
          ap (λ o. times a (at q (hub_of h o)))
            (sym (
              ap (λ o. select_in fuel h (elim o [ some x ↦ some x | none ↦ wildly ])) (sym there)
              ∙ e))
          ∙ select_in-times fuel h (some found) q a (
              subst (IsFound h) there
                (found_at-IsFound (exact hostname) (lookup hostname h.pools) h refl))
    ]
