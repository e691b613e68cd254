-- ===== src/Routing/Selection.antt =====
-- internal/routing/peerlist.go: round robin.
use native.Mathlib.Nat.{mod-eq_of_lt, mod-lt, mod-add-mod, add-mod_right, add-zero}
use nexus_proxy_server.Common.{
  ℕ, zero, suc, ◌+◌, ◌-◌, ◌%◌, ◌<◌, ◌≡◌, sym, ap, ◌∙◌, true, false, if◌then◌else◌, some, length,
  get_elem?, nat_eq, arith, Bool-cases, inl, inr, ltb,
}
use nexus_proxy_server.Routing.Peers.{PeerList, select, selections, u64_mod}

select_lem :
    (pl : PeerList)
    → 0 < length pl.peers
    → pl.counter + 1 < u64_mod
    → select pl ≡ (
      record pl { counter = pl.counter + 1 },
      get_elem? pl.peers ((pl.counter + 1) % length pl.peers),
    )
unfolding select
select_lem pl h c = rw (mod-eq_of_lt c) (ground arith)

selections_lem :
    (n i : ℕ) (pl : PeerList)
    → 0 < length pl.peers
    → pl.counter + n < u64_mod
    → i < n
    → get_elem? (selections n pl) i
      ≡ some (get_elem? pl.peers ((pl.counter + 1 + i) % length pl.peers))
unfolding selections
selections_lem zero i pl h c l = elim l [ ]
selections_lem (suc n) zero pl h c l = rw (add-zero, select_lem pl h (omega arith))
selections_lem (suc n) (suc i) pl h c l =
    let e : pl.counter + 1 + suc i ≡ pl.counter + 1 + 1 + i = omega arith in
    rw (e, select_lem pl h (omega arith))
      (selections_lem n i (record pl { counter = pl.counter + 1 }) h (omega arith) (omega arith))

-- Where the peer at `p` stands in a round that begins at `r`.
abbrev turn : ℕ → ℕ → ℕ → ℕ
turn n r p = if ltb p r then p + n - r else p - r

turn_lem : (n c p : ℕ) → p < n → (turn n (c % n) p < n) × ((c + turn n (c % n) p) % n ≡ p)
turn_lem n c p h =
    let r : c % n < n = mod-lt c (omega arith) in
    elim (Bool-cases (ltb p (c % n))) [
      | inl before ↦ rw before (
        ground arith,
        sym (mod-add-mod c n (p + n - c % n))
            ∙ ap (λ (t : ℕ). t % n) (wrapped before)
            ∙ add-mod_right p n
            ∙ mod-eq_of_lt h,
      )
      | inr after ↦ rw after (
        omega arith,
        sym (mod-add-mod c n (p - c % n)) ∙ ap (λ (t : ℕ). t % n) (straight after) ∙ mod-eq_of_lt h,
      )
    ]
  where
    wrapped : ltb p (c % n) ≡ true → c % n + (p + n - c % n) ≡ p + n
    wrapped before = omega (arith, mod-lt c {m = n} (omega arith))

    straight : ltb p (c % n) ≡ false → c % n + (p - c % n) ≡ p
    straight after = ground arith

-- Every peer of a list is returned once in each round of as many selections as there are peers, as
-- long as the counter does not wrap.
pub selections_fair :
    (pl : PeerList) (p : ℕ)
    → p < length pl.peers
    → pl.counter + length pl.peers < u64_mod
    → (i : ℕ) × (i < length pl.peers)
      × (get_elem? (selections (length pl.peers) pl) i ≡ some (get_elem? pl.peers p))
selections_fair pl p h c =
    let n = length pl.peers in
    let i = turn n ((pl.counter + 1) % n) p in
    let (small, there) = turn_lem n (pl.counter + 1) p h in
    (i, small, rw (selections_lem n i pl (omega arith) c small, there))
