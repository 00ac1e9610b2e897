-- ===== src/Base/Sets.antt =====
-- Go's `map[K]struct{}`: the keys in a list, each once. Nothing depends on their order.
use Prim.Native.Nat.{ℕ, ◌+◌, ◌<◌}
use mathlib.Core.Path.{◌≡◌, refl}
use mathlib.Core.Logic.{inl, inr}
use mathlib.Core.Bool.{Bool, true, false, not, ◌&&◌, ◌||◌}
use mathlib.Core.List.{List, [], ◌∷◌, ◌++◌}
use native.Mathlib.Omega.{arith}
use guhfrtui.Base.Tests.{if◌then◌else◌, Comparable, ◌==◌, Bool-cases}
use guhfrtui.Base.Lists.{length}

module _ {ℓ} {A : Type ℓ} ⦃c : Comparable A⦄ where
  -- `_, ok := m[x]`
  unfoldable pub has : A → List A → Bool
  has x [] = false
  has x (y ∷ ys) = y == x || has x ys

  -- `m[x] = struct{}{}`
  unfoldable pub insert : A → List A → List A
  insert x xs = if has x xs then xs else x ∷ xs

  -- `delete(m, x)`
  unfoldable pub delete : A → List A → List A
  delete x [] = []
  delete x (y ∷ ys) = let rest = delete x ys in if y == x then rest else y ∷ rest

  abbrev pub IsUnique : List A → Type 0
  IsUnique [] = Unit
  IsUnique (x ∷ xs) = (has x xs ≡ false) × IsUnique xs

  pub has-insert : (x y : A) (xs : List A) → has y (insert x xs) ≡ (x == y || has y xs)
  unfolding has insert
  has-insert x y xs = elim (Bool-cases (has x xs)) [
    | inl old ↦ ground (arith, c.equal_iff x y)
    | inr new ↦ ground arith
  ]

  pub has-delete : (x y : A) (xs : List A) → has y (delete x xs) ≡ (not (x == y) && has y xs)
  unfolding has delete
  has-delete x y [] = ground arith
  has-delete x y (z ∷ zs) =
      ground (arith, has-delete x y zs, c.equal_iff x y, c.equal_iff z x, c.equal_iff z y)

  pub has-append : (x : A) (xs ys : List A) → has x (xs ++ ys) ≡ (has x xs || has x ys)
  unfolding has
  has-append x [] ys = refl
  has-append x (z ∷ zs) ys = ground (arith, has-append x zs ys)

  pub insert-IsUnique : (x : A) (xs : List A) → IsUnique xs → IsUnique (insert x xs)
  unfolding insert
  insert-IsUnique x xs u = elim (Bool-cases (has x xs)) [
    | inl old ↦ rw old u
    | inr new ↦ rw new (new, u)
  ]

  pub delete-IsUnique : (x : A) (xs : List A) → IsUnique xs → IsUnique (delete x xs)
  unfolding delete
  delete-IsUnique x [] u = tt
  delete-IsUnique x (z ∷ zs) u = ground (arith, delete-IsUnique x zs u.1, has-delete x z zs)

  pub length-insert :
      (x : A) (xs : List A) → length (insert x xs) ≡ (if has x xs then 0 else 1) + length xs
  unfolding insert
  length-insert x xs = ground arith

  delete_missing : (x : A) (xs : List A) → has x xs ≡ false → delete x xs ≡ xs
  unfolding has delete
  delete_missing x [] h = refl
  delete_missing x (z ∷ zs) h = ground (arith, delete_missing x zs)

  pub length-delete :
      (x : A) (xs : List A)
      → IsUnique xs
      → (if has x xs then 1 else 0) + length (delete x xs) ≡ length xs
  unfolding has delete
  length-delete x [] u = omega arith
  length-delete x (z ∷ zs) u =
      ground (arith, length-delete x zs u.1, c.equal_iff z x, delete_missing x zs)

  -- How often `x` occurs.
  unfoldable pub count : A → List A → ℕ
  count x [] = 0
  count x (y ∷ ys) = (if y == x then 1 else 0) + count x ys

  pub count-append : (x : A) (xs ys : List A) → count x (xs ++ ys) ≡ count x xs + count x ys
  unfolding count
  count-append x [] ys = omega arith
  count-append x (z ∷ zs) ys = omega (arith, count-append x zs ys)

  pub count_pos : (x : A) (xs : List A) → has x xs ≡ true → 0 < count x xs
  unfolding has count
  count_pos x [] h = cc
  count_pos x (z ∷ zs) h = ground (arith, count_pos x zs)

  pub count_zero : (x : A) (xs : List A) → has x xs ≡ false → count x xs ≡ 0
  unfolding has count
  count_zero x [] h = refl
  count_zero x (z ∷ zs) h = ground (arith, count_zero x zs)
