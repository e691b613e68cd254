-- ===== src/Claims/Sort.antt =====
-- internal/hub/hub.go: sorted lists of ports, and the comparison of two of them as sets.
use nexus_proxy_server.Common.{
  ℕ, ◌≤◌, ◌<◌, ◌≡◌, refl, sym, ◌∙◌, ap, true, false, ltb, leb, ◌==◌, ◌||◌, nat_eq, List, [], ◌∷◌,
  ◌++◌, length, arith, Bool-cases, inl, inr, ◌↔◌,
}
use nexus_proxy_server.Claims.Ports.{port_allowed, insert_sorted, sort, same_ints, same_int_sets}

-- No port twice.
abbrev pub Unique : List ℕ → Type 0
Unique [] = Unit {0}
Unique (p ∷ ps) = (port_allowed ps p ≡ false) × Unique ps

-- Every port of the list is above the bound.
abbrev pub Above : ℕ → List ℕ → Type 0
Above n [] = Unit {0}
Above n (p ∷ ps) = (n < p) × Above n ps

abbrev pub Ascending : List ℕ → Type 0
Ascending [] = Unit {0}
Ascending (p ∷ ps) = Above p ps × Ascending ps

pub port_allowed-insert_sorted :
    (q p : ℕ) (ps : List ℕ) → port_allowed (insert_sorted p ps) q ≡ (p == q || port_allowed ps q)
unfolding port_allowed insert_sorted
port_allowed-insert_sorted q p [] = refl
port_allowed-insert_sorted q p (r ∷ ps) = ground (arith, port_allowed-insert_sorted q p ps)

pub port_allowed-sort : (q : ℕ) (ps : List ℕ) → port_allowed (sort ps) q ≡ port_allowed ps q
unfolding sort port_allowed
port_allowed-sort q [] = refl
port_allowed-sort q (p ∷ ps) =
    ground (arith, port_allowed-insert_sorted q p (sort ps), port_allowed-sort q ps)

Above-le : (m n : ℕ) (ps : List ℕ) → m ≤ n → Above n ps → Above m ps
Above-le m n [] l h = tt
Above-le m n (p ∷ ps) l h = (omega (arith, h.0), Above-le m n ps l h.1)

Above-insert_sorted : (n p : ℕ) (ps : List ℕ) → n < p → Above n ps → Above n (insert_sorted p ps)
unfolding insert_sorted
Above-insert_sorted n p [] l h = (l, tt)
Above-insert_sorted n p (q ∷ ps) l h = elim (Bool-cases (leb p q)) [
  | inl e ↦ rw e (l, h)
  | inr e ↦ rw e (h.0, Above-insert_sorted n p ps l h.1)
]

insert_sorted-Ascending :
    (p : ℕ) (ps : List ℕ)
    → port_allowed ps p ≡ false
    → Ascending ps
    → Ascending (insert_sorted p ps)
unfolding insert_sorted port_allowed
insert_sorted-Ascending p [] f h = (tt, tt)
insert_sorted-Ascending p (q ∷ ps) f h = elim (Bool-cases (leb p q)) [
  | inl e ↦ let l : p < q = ground arith in rw e ((l, Above-le p q ps (omega arith) h.0), h)
  | inr e ↦ rw e (
    Above-insert_sorted q p ps (ground arith) h.0,
    insert_sorted-Ascending p ps (ground arith) h.1,
  )
]

pub sort-Ascending : (ps : List ℕ) → Unique ps → Ascending (sort ps)
unfolding sort
sort-Ascending [] u = tt
sort-Ascending (p ∷ ps) u =
    insert_sorted-Ascending p (sort ps) (port_allowed-sort p ps ∙ u.0) (sort-Ascending ps u.1)

pub port_allowed-append :
    (q : ℕ) (ps qs : List ℕ) → port_allowed (ps ++ qs) q ≡ (port_allowed ps q || port_allowed qs q)
unfolding port_allowed
port_allowed-append q [] qs = refl
port_allowed-append q (p ∷ ps) qs = ground (arith, port_allowed-append q ps qs)

pub Unique-append :
    (ps : List ℕ) (q : ℕ) → Unique ps → port_allowed ps q ≡ false → Unique (ps ++ (q ∷ []))
unfolding port_allowed
Unique-append [] q u f = (refl, tt)
Unique-append (p ∷ ps) q u f =
    (ground (arith, port_allowed-append p ps (q ∷ []), u.0), Unique-append ps q u.1 (ground arith))

Above-not_in : (n : ℕ) (ps : List ℕ) → Above n ps → port_allowed ps n ≡ false
unfolding port_allowed
Above-not_in n [] h = refl
Above-not_in n (p ∷ ps) h = ground (arith, h.0, Above-not_in n ps h.1)

Above-trans : (m n : ℕ) (ps : List ℕ) → m < n → Above n ps → port_allowed ps m ≡ false
Above-trans m n ps l h = Above-not_in m ps (Above-le m n ps (omega arith) h)

insert_sorted-first : (p : ℕ) (ps : List ℕ) → Above p ps → insert_sorted p ps ≡ p ∷ ps
unfolding insert_sorted
insert_sorted-first p [] h = refl
insert_sorted-first p (q ∷ ps) h = ground (arith, h.0)

-- A list that ascends is sorted already.
sort-of_Ascending : (ps : List ℕ) → Ascending ps → sort ps ≡ ps
unfolding sort
sort-of_Ascending [] h = refl
sort-of_Ascending (p ∷ ps) h =
    ap (insert_sorted p) (sort-of_Ascending ps h.1) ∙ insert_sorted-first p ps h.0

same_ints_refl : (ps : List ℕ) → same_ints ps ps ≡ true
unfolding same_ints
same_ints_refl [] = refl
same_ints_refl (p ∷ ps) = ground (arith, same_ints_refl ps)

same_ints_sound : (ps qs : List ℕ) → same_ints ps qs ≡ true → ps ≡ qs
unfolding same_ints
same_ints_sound [] [] h = refl
same_ints_sound (p ∷ ps) [] h = cc
same_ints_sound [] (q ∷ qs) h = cc
same_ints_sound (p ∷ ps) (q ∷ qs) h = ground (arith, same_ints_sound ps qs)

first_port :
    (p q : ℕ) (ps qs : List ℕ)
    → Above p ps
    → Above q qs
    → ((r : ℕ) → port_allowed (p ∷ ps) r ≡ port_allowed (q ∷ qs) r)
    → p ≡ q
unfolding port_allowed
first_port p q ps qs a b h = elim (Bool-cases (ltb p q)) [
  | inl below ↦ absurd (ground (arith, h p, below, Above-trans p q qs (ground arith) b))
  | inr other ↦ elim (Bool-cases (ltb q p)) [
    | inl above ↦ absurd (ground (arith, h q, above, Above-trans q p ps (ground arith) a))
    | inr same ↦ ground (arith, other, same)
  ]
]

rest_ports :
    (p r : ℕ) (ps qs : List ℕ)
    → Above p ps
    → Above p qs
    → port_allowed (p ∷ ps) r ≡ port_allowed (p ∷ qs) r
    → port_allowed ps r ≡ port_allowed qs r
unfolding port_allowed
rest_ports p r ps qs a b h = elim (Bool-cases (p == r)) [
  | inl same ↦
      let e : p ≡ r = ground (arith, same) in
      rw (← e) (Above-not_in p ps a ∙ sym (Above-not_in p qs b))
  | inr other ↦ ground (arith, h, other)
]

-- Two lists that ascend are equal if they hold the same ports.
pub Ascending-unique :
    (ps qs : List ℕ)
    → Ascending ps
    → Ascending qs
    → ((r : ℕ) → port_allowed ps r ≡ port_allowed qs r)
    → ps ≡ qs
unfolding port_allowed
Ascending-unique [] [] a b h = refl
Ascending-unique (p ∷ ps) [] a b h = absurd (ground (arith, h p))
Ascending-unique [] (q ∷ qs) a b h = absurd (ground (arith, h q))
Ascending-unique (p ∷ ps) (q ∷ qs) a b h =
    let e = first_port p q ps qs a.0 b.0 h in
    let c : Above p qs = rw e b.0 in
    ap (λ (x : ℕ). x ∷ ps) e
    ∙ ap (λ xs. q ∷ xs)
        (Ascending-unique ps qs a.1 b.1
          (λ r. rest_ports p r ps qs a.0 c (h r ∙ ap (λ (x : ℕ). port_allowed (x ∷ qs) r) (sym e))))

same_empty : (ps qs : List ℕ) → length ps ≡ 0 → length qs ≡ 0 → ps ≡ qs
same_empty [] [] h k = refl
same_empty (p ∷ ps) qs h k = absurd (omega arith)
same_empty [] (q ∷ qs) h k = absurd (omega arith)

-- On lists that ascend, `sameIntSets` holds exactly if they hold the same ports.
pub same_int_sets_iff :
    (ps qs : List ℕ)
    → Ascending ps
    → Ascending qs
    → (same_int_sets ps qs ≡ true) ↔ ((r : ℕ) → port_allowed ps r ≡ port_allowed qs r)
unfolding same_int_sets
same_int_sets_iff ps qs a b = (
  λ h. same_members h,
  λ h. rw (Ascending-unique ps qs a b h) (ground (arith, same_ints_refl (sort qs))),
)
  where
    same_list : same_int_sets ps qs ≡ true → ps ≡ qs
    same_list h = ground (
      arith,
      sort-of_Ascending ps a,
      sort-of_Ascending qs b,
      same_ints_sound ps qs,
      same_empty ps qs,
    )

    same_members : same_int_sets ps qs ≡ true → (r : ℕ) → port_allowed ps r ≡ port_allowed qs r
    same_members h r = ap (λ (xs : List ℕ). port_allowed xs r) (same_list h)
