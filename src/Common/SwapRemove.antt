-- ===== src/Common/SwapRemove.antt =====
-- Removal from a slice without keeping its order: the last element takes the place of the removed
-- one. The elements are compared by a key.
use Prim.Native.Nat.{ℕ, ◌+◌}
use mathlib.Core.Path.{◌≡◌, refl}
use mathlib.Core.Bool.{Bool, false, ◌||◌, ◌&&◌}
use mathlib.Core.List.{List, [], ◌∷◌, ◌++◌}
use native.Mathlib.Omega.{arith}
use nexus_proxy_server.Common.Tests.{if◌then◌else◌, ltb}
use nexus_proxy_server.Common.Equality.{◌==◌, nat_eq}

module _ {A : Type 0} (key : A → ℕ) where
  unfoldable pub has_key : ℕ → List A → Bool
  has_key k [] = false
  has_key k (x ∷ xs) = key x == k || has_key k xs

  -- The elements with a key.
  unfoldable pub count_key : ℕ → List A → ℕ
  count_key k [] = 0
  count_key k (x ∷ xs) = (if key x == k then 1 else 0) + count_key k xs

  abbrev pub last_of : A → List A → A
  last_of x [] = x
  last_of x (y ∷ ys) = last_of y ys

  abbrev pub init_of : A → List A → List A
  init_of x [] = []
  init_of x (y ∷ ys) = x ∷ init_of y ys

  -- `s[0] = s[len(s)-1]; s = s[:len(s)-1]`, for a slice whose first element is removed.
  abbrev pub last_first : List A → List A
  last_first [] = []
  last_first (y ∷ ys) = last_of y ys ∷ init_of y ys

  unfoldable pub swap_remove : ℕ → List A → List A
  swap_remove k [] = []
  swap_remove k (x ∷ xs) = if key x == k then last_first xs else x ∷ swap_remove k xs

  count_key-last_init :
      (k : ℕ) (y : A) (ys : List A)
      → count_key k (last_of y ys ∷ init_of y ys) ≡ count_key k (y ∷ ys)
  unfolding count_key
  count_key-last_init k y [] = refl
  count_key-last_init k y (z ∷ zs) = omega (arith, count_key-last_init k z zs)

  count_key-last_first : (k : ℕ) (xs : List A) → count_key k (last_first xs) ≡ count_key k xs
  unfolding count_key
  count_key-last_first k [] = refl
  count_key-last_first k (y ∷ ys) = count_key-last_init k y ys

  -- One element with the key is gone, if there was one; all else is there as often as before.
  pub count_key-swap_remove :
      (k j : ℕ) (xs : List A)
      → count_key j (swap_remove k xs) + (if k == j && has_key k xs then 1 else 0) ≡ count_key j xs
  unfolding count_key swap_remove has_key
  count_key-swap_remove k j [] = ground arith
  count_key-swap_remove k j (x ∷ xs) =
      ground (arith, count_key-last_first j xs, count_key-swap_remove k j xs)

  pub has_key_count : (k : ℕ) (xs : List A) → has_key k xs ≡ ltb 0 (count_key k xs)
  unfolding count_key has_key
  has_key_count k [] = refl
  has_key_count k (x ∷ xs) = ground (arith, has_key_count k xs)

  pub count_key-append :
      (k : ℕ) (xs ys : List A) → count_key k (xs ++ ys) ≡ count_key k xs + count_key k ys
  unfolding count_key
  count_key-append k [] ys = omega arith
  count_key-append k (x ∷ xs) ys = omega (arith, count_key-append k xs ys)
