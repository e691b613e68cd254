-- ===== src/Common/Maps.antt =====
-- Go maps and `sync.Map`s as association lists, for keys that can be compared.
use Prim.Native.Nat.{ℕ, ◌+◌}
use mathlib.Core.Path.{◌≡◌, refl}
use mathlib.Core.Option.{Option, none, some}
use mathlib.Core.List.{List, [], ◌∷◌}
use native.Mathlib.Omega.{arith}
use nexus_proxy_server.Common.Tests.{if◌then◌else◌}
use nexus_proxy_server.Common.Equality.{Comparable, ◌==◌, nat_eq}

abbrev pub Map : Type 0 → Type 0 → Type 0
Map K V = List (K × V)

module _ {K V : Type 0} ⦃cmp : Comparable K⦄ where
  unfoldable pub lookup : K → Map K V → Option V
  lookup key [] = none
  lookup key ((at, val) ∷ rest) = if at == key then some val else lookup key rest

  unfoldable pub insert : K → V → Map K V → Map K V
  insert key val [] = (key, val) ∷ []
  insert key val ((at, old) ∷ rest) =
      if at == key then (at, val) ∷ rest else (at, old) ∷ insert key val rest

  unfoldable pub delete : K → Map K V → Map K V
  delete key [] = []
  delete key ((at, old) ∷ rest) = if at == key then rest else (at, old) ∷ delete key rest

  -- No key twice.
  abbrev pub Distinct : Map K V → Type 0
  Distinct [] = Unit {0}
  Distinct ((key, val) ∷ rest) = (lookup key rest ≡ none) × Distinct rest

  pub lookup-insert :
      (key at : K) (val : V) (rest : Map K V)
      → lookup at (insert key val rest) ≡ (if key == at then some val else lookup at rest)
  unfolding lookup insert
  lookup-insert key at val [] = refl
  lookup-insert key at val ((other, old) ∷ rest) = ground (
    arith,
    cmp.equals_iff key at,
    cmp.equals_iff other key,
    cmp.equals_iff other at,
    lookup-insert key at val rest,
  )

  pub lookup-delete :
      (key at : K) (rest : Map K V)
      → Distinct rest
      → lookup at (delete key rest) ≡ (if key == at then none else lookup at rest)
  unfolding lookup delete
  lookup-delete key at [] dist = ground arith
  lookup-delete key at ((other, old) ∷ rest) dist = ground (
    arith,
    cmp.equals_iff key at,
    cmp.equals_iff other key,
    cmp.equals_iff other at,
    lookup-delete key at rest dist.1,
    dist.0,
  )

  pub insert-Distinct :
      (key : K) (val : V) (rest : Map K V) → Distinct rest → Distinct (insert key val rest)
  unfolding lookup insert
  insert-Distinct key val [] dist = (refl, tt)
  insert-Distinct key val ((other, old) ∷ rest) dist = ground (
    arith,
    cmp.equals_iff key other,
    cmp.equals_iff other key,
    lookup-insert key other val rest,
    insert-Distinct key val rest dist.1,
  )

  pub delete-Distinct : (key : K) (rest : Map K V) → Distinct rest → Distinct (delete key rest)
  unfolding lookup delete
  delete-Distinct key [] dist = tt
  delete-Distinct key ((other, old) ∷ rest) dist = ground (
    arith,
    cmp.equals_iff key other,
    lookup-delete key other rest dist.1,
    delete-Distinct key rest dist.1,
  )

-- A sum over the values of a map.
module _ {V : Type 0} (f : V → ℕ) where
  abbrev pub weight_of : Option V → ℕ
  weight_of none = 0
  weight_of (some val) = f val

module _ {K V : Type 0} (f : V → ℕ) where
  abbrev pub total : Map K V → ℕ
  total [] = 0
  total ((key, val) ∷ rest) = f val + total rest

module _ {K V : Type 0} ⦃cmp : Comparable K⦄ (f : V → ℕ) where
  pub total-insert :
      (key : K) (val : V) (rest : Map K V)
      → total f (insert key val rest) + weight_of f (lookup key rest) ≡ total f rest + f val
  unfolding lookup insert
  total-insert key val [] = omega arith
  total-insert key val ((at, old) ∷ rest) = ground (arith, total-insert key val rest)

  pub total-delete :
      (key : K) (rest : Map K V)
      → total f (delete key rest) + weight_of f (lookup key rest) ≡ total f rest
  unfolding lookup delete
  total-delete key [] = omega arith
  total-delete key ((at, old) ∷ rest) = ground (arith, total-delete key rest)

-- A map that is a function, with another value at one key.
unfoldable pub update : {A : Type 0} → ℕ → A → (ℕ → A) → ℕ → A
update key val f at = if key == at then val else f at
