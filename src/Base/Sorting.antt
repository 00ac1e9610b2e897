-- ===== src/Base/Sorting.antt =====
-- Sorting by a test of order, by insertion, and that the order of arrival does not matter.
use mathlib.Core.Path.{◌≡◌, refl, sym, ap, ◌∙◌}
use mathlib.Core.Logic.{inl, inr}
use mathlib.Core.Bool.{Bool, true, false, ◌||◌, ◌&&◌}
use mathlib.Core.List.{List, [], ◌∷◌, ◌++◌, map}
use native.Mathlib.Omega.{arith}
use guhfrtui.Base.Tests.{if◌then◌else◌, Comparable, ◌==◌, Bool-cases, if_intro}
use guhfrtui.Base.Lists.{All}
use guhfrtui.Base.Sets.{has, IsUnique}

pub record IsOrder {ℓ} {A : Type ℓ} (le : A → A → Bool) : Type ℓ where
  pub total : (x y : A) → le x y ≡ false → le y x ≡ true
  pub trans : (x y z : A) → le x y ≡ true → le y z ≡ true → le x z ≡ true

module _ {ℓ} {A : Type ℓ} (le : A → A → Bool) where
  unfoldable pub insert_by : A → List A → List A
  insert_by x [] = x ∷ []
  insert_by x (y ∷ ys) = let later = insert_by x ys in if le x y then x ∷ (y ∷ ys) else y ∷ later

  unfoldable pub sort_by : List A → List A
  unfolding insert_by
  sort_by [] = []
  sort_by (x ∷ xs) = insert_by x (sort_by xs)

  -- Each element is at most the next one.
  abbrev pub IsSortedBy : List A → Type 0
  IsSortedBy [] = Unit
  IsSortedBy (x ∷ []) = Unit
  IsSortedBy (x ∷ (y ∷ ys)) = (le x y ≡ true) × IsSortedBy (y ∷ ys)

  module _ (order : IsOrder le) where
    insert_by-IsSortedBy : (x : A) (ys : List A) → IsSortedBy ys → IsSortedBy (insert_by x ys)
    unfolding insert_by
    insert_by-IsSortedBy x [] h = tt
    insert_by-IsSortedBy x (y ∷ []) h = ground (arith, order.total x y)
    insert_by-IsSortedBy x (y ∷ (z ∷ zs)) h =
        ground (arith, order.total x y, insert_by-IsSortedBy x (z ∷ zs) h.1)

    pub sort_by-IsSortedBy : (xs : List A) → IsSortedBy (sort_by xs)
    unfolding sort_by
    sort_by-IsSortedBy [] = tt
    sort_by-IsSortedBy (x ∷ xs) = insert_by-IsSortedBy x (sort_by xs) (sort_by-IsSortedBy xs)

    -- Two elements, one strictly before the other, are inserted in either order.
    pub insert_by_swap :
        (x y : A) (zs : List A)
        → (le x y && le y x) ≡ false
        → insert_by x (insert_by y zs) ≡ insert_by y (insert_by x zs)
    unfolding insert_by
    insert_by_swap x y [] h = ground (arith, order.total x y)
    insert_by_swap x y (z ∷ zs) h = ground (
      arith,
      order.total x y,
      order.total x z,
      order.total y z,
      order.trans x y z,
      order.trans y x z,
      insert_by_swap x y zs h,
    )

-- The same elements, in another order.
pub data Reordered {ℓ} {A : Type ℓ} : List A → List A → Type ℓ where
  same : (xs : List A) → Reordered xs xs
  keep : (x : A) {xs ys : List A} → Reordered xs ys → Reordered (x ∷ xs) (x ∷ ys)
  swap : (x y : A) (xs : List A) → Reordered (x ∷ (y ∷ xs)) (y ∷ (x ∷ xs))
  then_by : {xs ys zs : List A} → Reordered xs ys → Reordered ys zs → Reordered xs zs

module _ {ℓ κ} {A : Type ℓ} {K : Type κ} ⦃c : Comparable K⦄ (key : A → K) where
  pub has-map-Reordered :
      {xs ys : List A} (k : K) → Reordered xs ys → has k (map key xs) ≡ has k (map key ys)
  unfolding has
  has-map-Reordered k (same xs) = refl
  has-map-Reordered k (keep x r) = ap (λ b. key x == k || b) (has-map-Reordered k r)
  has-map-Reordered k (swap x y xs) = ground arith
  has-map-Reordered k (then_by r s) = has-map-Reordered k r ∙ has-map-Reordered k s

  pub IsUnique-Reordered :
      {xs ys : List A} → Reordered xs ys → IsUnique (map key xs) → IsUnique (map key ys)
  unfolding has
  IsUnique-Reordered (same xs) u = u
  IsUnique-Reordered (keep x r) u =
      (sym (has-map-Reordered (key x) r) ∙ u.0, IsUnique-Reordered r u.1)
  IsUnique-Reordered (swap x y xs) u =
      ground (arith, u.0, u.1, c.equal_iff (key x) (key y), c.equal_iff (key y) (key x))
  IsUnique-Reordered (then_by r s) u = IsUnique-Reordered s (IsUnique-Reordered r u)

module _ {ℓ κ} {A : Type ℓ} (P : A → Type κ) where
  pub All-Reordered : {xs ys : List A} → Reordered xs ys → All P xs → All P ys
  All-Reordered (same xs) h = h
  All-Reordered (keep x r) h = (h.0, All-Reordered r h.1)
  All-Reordered (swap x y xs) h = (h.1.0, (h.0, h.1.1))
  All-Reordered (then_by r s) h = All-Reordered s (All-Reordered r h)

  pub All-append_left : (xs ys : List A) → All P (xs ++ ys) → All P xs
  All-append_left [] ys h = tt
  All-append_left (x ∷ xs) ys h = (h.0, All-append_left xs ys h.1)

  insert_by-All :
      (le : A → A → Bool) (x : A) (ys : List A) → P x → All P ys → All P (insert_by le x ys)
  unfolding insert_by
  insert_by-All le x [] p h = (p, tt)
  insert_by-All le x (y ∷ ys) p h =
      if_intro (All P) (le x y) (λ _. (p, h)) (λ _. (h.0, insert_by-All le x ys p h.1))

  pub sort_by-All : (le : A → A → Bool) (xs : List A) → All P xs → All P (sort_by le xs)
  unfolding sort_by
  sort_by-All le [] h = tt
  sort_by-All le (x ∷ xs) h = insert_by-All le x (sort_by le xs) h.0 (sort_by-All le xs h.1)

-- Where elements that are at most each other have one key, and no key occurs twice, the sorted list
-- does not depend on the order of arrival.
module _ {ℓ κ} {A : Type ℓ} {K : Type κ} ⦃c : Comparable K⦄ (key : A → K) (le : A → A → Bool) where
  abbrev IsAntisym : Type (ℓ ⊔ κ)
  IsAntisym = (x y : A) → (le x y && le y x) ≡ true → key x ≡ key y

  strict : IsAntisym → (x y : A) → (key x == key y) ≡ false → (le x y && le y x) ≡ false
  strict antisym x y h = elim (Bool-cases (le x y && le y x)) [
    | inl both ↦ absurd (ground (arith, h, c.equal_iff (key x) (key y), antisym x y both))
    | inr one ↦ one
  ]

  pub sort_by-Reordered :
      IsOrder le
      → ((x y : A) → (le x y && le y x) ≡ true → key x ≡ key y)
      → {xs ys : List A} → Reordered xs ys
      → IsUnique (map key xs)
      → sort_by le xs ≡ sort_by le ys
  unfolding sort_by has
  sort_by-Reordered order antisym (same xs) u = refl
  sort_by-Reordered order antisym (keep x r) u =
      ap (insert_by le x) (sort_by-Reordered order antisym r u.1)
  sort_by-Reordered order antisym (swap x y xs) u = insert_by_swap le order x y (sort_by le xs) (
      strict antisym x y
        (ground (arith, u.0, c.equal_iff (key x) (key y), c.equal_iff (key y) (key x))))
  sort_by-Reordered order antisym (then_by r s) u =
      sort_by-Reordered order antisym r u
      ∙ sort_by-Reordered order antisym s (IsUnique-Reordered key r u)
