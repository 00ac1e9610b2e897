-- ===== src/Base/Maps.antt =====
-- Go's `map[string]V`: an association list with each key once.
use mathlib.Core.Path.{◌≡◌, refl}
use mathlib.Core.Bool.{Bool, true, false, ◌||◌}
use mathlib.Core.Option.{Option, none, some}
use mathlib.Core.List.{List, [], ◌∷◌}
use native.Mathlib.Omega.{arith}
use guhfrtui.Base.Tests.{if◌then◌else◌, Bytes, bytes_eq, bytes_beq_iff, ◌==◌}
use guhfrtui.Base.Sets.{has, IsUnique}

abbrev pub Map {ℓ} : Type ℓ → Type ℓ
Map V = List (Bytes × V)

module _ {ℓ} {V : Type ℓ} where
  unfoldable pub lookup : Bytes → Map V → Option V
  lookup k [] = none
  lookup k ((j, v) ∷ m) = if j == k then some v else lookup k m

  -- `m[k] = v`
  unfoldable pub put : Bytes → V → Map V → Map V
  put k v [] = (k, v) ∷ []
  put k v ((j, w) ∷ m) = if j == k then (k, v) ∷ m else (j, w) ∷ put k v m

  -- A range over the map that deletes every entry whose value fails the test.
  unfoldable pub retain : (V → Bool) → Map V → Map V
  retain p [] = []
  retain p ((j, w) ∷ m) = let rest = retain p m in if p w then (j, w) ∷ rest else rest

  unfoldable pub keys : Map V → List Bytes
  keys [] = []
  keys ((j, w) ∷ m) = j ∷ keys m

  pub lookup-put :
      (k j : Bytes) (v : V) (m : Map V)
      → lookup j (put k v m) ≡ (if k == j then some v else lookup j m)
  unfolding lookup put
  lookup-put k j v [] = refl
  lookup-put k j v ((i, w) ∷ m) =
      ground (arith, bytes_beq_iff k j, bytes_beq_iff i k, bytes_beq_iff i j, lookup-put k j v m)

  pub has-keys-put :
      (k j : Bytes) (v : V) (m : Map V) → has j (keys (put k v m)) ≡ (k == j || has j (keys m))
  unfolding has keys put
  has-keys-put k j v [] = refl
  has-keys-put k j v ((i, w) ∷ m) =
      ground (arith, bytes_beq_iff k j, bytes_beq_iff i k, bytes_beq_iff i j, has-keys-put k j v m)

  pub put-IsUnique :
      (k : Bytes) (v : V) (m : Map V) → IsUnique (keys m) → IsUnique (keys (put k v m))
  unfolding keys put has
  put-IsUnique k v [] u = (refl, tt)
  put-IsUnique k v ((i, w) ∷ m) u =
      ground
        (arith, bytes_beq_iff i k, bytes_beq_iff k i, put-IsUnique k v m u.1, has-keys-put k i v m)

  pub keys-lookup-none : (k : Bytes) (m : Map V) → has k (keys m) ≡ false → lookup k m ≡ none
  unfolding has keys lookup
  keys-lookup-none k [] h = refl
  keys-lookup-none k ((i, w) ∷ m) h = ground (arith, keys-lookup-none k m)

  -- What a retained value says of the key: `none` if the test fails.
  abbrev pub keep_if : (V → Bool) → Option V → Option V
  keep_if p none = none
  keep_if p (some v) = if p v then some v else none

  pub has-keys-retain :
      (p : V → Bool) (k : Bytes) (m : Map V)
      → has k (keys m) ≡ false
      → has k (keys (retain p m)) ≡ false
  unfolding has keys retain
  has-keys-retain p k [] h = refl
  has-keys-retain p k ((i, w) ∷ m) h = ground (arith, has-keys-retain p k m)

  pub retain-IsUnique :
      (p : V → Bool) (m : Map V) → IsUnique (keys m) → IsUnique (keys (retain p m))
  unfolding keys retain
  retain-IsUnique p [] u = tt
  retain-IsUnique p ((i, w) ∷ m) u =
      ground (arith, retain-IsUnique p m u.1, has-keys-retain p i m u.0)

  pub lookup-retain :
      (p : V → Bool) (k : Bytes) (m : Map V)
      → IsUnique (keys m)
      → lookup k (retain p m) ≡ keep_if p (lookup k m)
  unfolding lookup retain keys
  lookup-retain p k [] u = refl
  lookup-retain p k ((i, w) ∷ m) u = ground (
    arith,
    bytes_beq_iff i k,
    lookup-retain p k m u.1,
    keys-lookup-none k m,
    keys-lookup-none i m u.0,
  )

  pub has-keys : (k : Bytes) (m : Map V) (v : V) → lookup k m ≡ some v → has k (keys m) ≡ true
  unfolding has keys lookup
  has-keys k [] v h = cc
  has-keys k ((i, w) ∷ m) v h = ground (arith, has-keys k m v)
