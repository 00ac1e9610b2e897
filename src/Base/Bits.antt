-- ===== src/Base/Bits.antt =====
-- Go's `^` on words, at variables: the law for the lowest digit, and what follows from it.
use Prim.Native.Nat.{digits, differ, bit_xor-bitwise, bit_and-bitwise}
use Prim.Native.Nat.{ℕ, zero, suc, ◌+◌, ◌*◌, ◌/◌, ◌%◌, ◌^◌, ◌≤◌, ◌<◌, min, bit_and, bit_xor}
use native.Mathlib.Nat.{pow-suc, le_refl}
use mathlib.Core.Path.{◌≡◌, refl, sym, ap, ◌∙◌}
use mathlib.Core.Bool.{Bool, true, ◌&&◌}
use mathlib.Core.Logic.{inl, inr}
use native.Mathlib.Omega.{arith}
use guhfrtui.Base.Tests.{nat_beq, Bool-cases}

-- The native operations stand for a recursion on a count of digits, `last` where the first number
-- has run out and `pair` on two digits.
module _ (last : ℕ → ℕ) (pair : ℕ → ℕ → ℕ) where
  digits-zero : (i v : ℕ) → digits last pair i 0 v ≡ last v
  digits-zero zero v = refl
  digits-zero (suc i) v = refl

  -- Any count that the first number does not exceed gives the same.
  any_count : (i j u v : ℕ) → u ≤ i → u ≤ j → digits last pair i u v ≡ digits last pair j u v
  any_count i j zero v h k = digits-zero i v ∙ sym (digits-zero j v)
  any_count (suc i) (suc j) (suc u) v h k =
      ap (λ (t : ℕ). t * 2 + pair (suc u % 2) (v % 2))
        (any_count i j (suc u / 2) (v / 2) (omega arith) (omega arith))
  any_count zero j (suc u) v h k = absurd (omega arith)
  any_count (suc i) zero (suc u) v h k = absurd (omega arith)

  digits_halved :
      (u v : ℕ)
      → digits last pair (suc u) (suc u) v
        ≡ digits last pair (suc u / 2) (suc u / 2) (v / 2) * 2 + pair (suc u % 2) (v % 2)
  digits_halved u v =
      ap (λ (t : ℕ). t * 2 + pair (suc u % 2) (v % 2))
        (any_count u (suc u / 2) (suc u / 2) (v / 2) (omega arith) (omega arith))

differ_bits : (x y : ℕ) → x < 2 → y < 2 → differ x y ≡ (x + y) % 2
differ_bits zero y p q = omega arith
differ_bits (suc zero) zero p q = omega arith
differ_bits (suc zero) (suc zero) p q = omega arith
differ_bits (suc zero) (suc (suc y)) p q = absurd (omega arith)
differ_bits (suc (suc x)) y p q = absurd (omega arith)

zero-bit_xor : (b : ℕ) → bit_xor 0 b ≡ b
zero-bit_xor b = bit_xor-bitwise 0 b

pub bit_xor_step : (a b : ℕ) → bit_xor a b ≡ bit_xor (a / 2) (b / 2) * 2 + (a % 2 + b % 2) % 2
bit_xor_step zero b = omega (arith, zero-bit_xor b, zero-bit_xor (b / 2))
bit_xor_step (suc a) b = omega (
  arith,
  bit_xor-bitwise (suc a) b,
  digits_halved (λ v. v) differ a b,
  bit_xor-bitwise (suc a / 2) (b / 2),
  differ_bits (suc a % 2) (b % 2) (omega arith) (omega arith),
)

xor_cancel_fuel : (n a b : ℕ) → a ≤ n → bit_xor a (bit_xor a b) ≡ b
xor_cancel_fuel n zero b h = zero-bit_xor _ ∙ zero-bit_xor b
xor_cancel_fuel zero (suc a) b h = absurd (omega arith)
xor_cancel_fuel (suc n) (suc a) b h =
    let half : bit_xor (suc a) b / 2 ≡ bit_xor (suc a / 2) (b / 2) =
      omega (arith, bit_xor_step (suc a) b) in
    omega (
      arith,
      bit_xor_step (suc a) b,
      bit_xor_step (suc a) (bit_xor (suc a) b),
      ap (bit_xor (suc a / 2)) half,
      xor_cancel_fuel n (suc a / 2) (b / 2) (omega arith),
    )

-- `^` with a fixed word is its own inverse.
pub xor_cancel : (a b : ℕ) → bit_xor a (bit_xor a b) ≡ b
xor_cancel a b = xor_cancel_fuel a a b (le_refl a)

xor-comm_fuel : (n a b : ℕ) → a ≤ n → bit_xor a b ≡ bit_xor b a
xor-comm_fuel zero zero b h = xor-zero b b (le_refl b)
  where
    xor-zero : (n b : ℕ) → b ≤ n → bit_xor 0 b ≡ bit_xor b 0
    xor-zero n zero h = refl
    xor-zero zero (suc b) h = absurd (omega arith)
    xor-zero (suc n) (suc b) h = omega (
      arith,
      bit_xor_step 0 (suc b),
      bit_xor_step (suc b) 0,
      xor-zero n (suc b / 2) (omega arith),
    )
xor-comm_fuel zero (suc a) b h = absurd (omega arith)
xor-comm_fuel (suc n) zero b h = xor-comm_fuel n zero b (omega arith)
xor-comm_fuel (suc n) (suc a) b h = omega (
  arith,
  bit_xor_step (suc a) b,
  bit_xor_step b (suc a),
  xor-comm_fuel n (suc a / 2) (b / 2) (omega arith),
)

pub bit_xor_comm : (a b : ℕ) → bit_xor a b ≡ bit_xor b a
bit_xor_comm a b = xor-comm_fuel a a b (le_refl a)

pub bit_xor_injective : (a b c : ℕ) → bit_xor a b ≡ bit_xor a c → b ≡ c
bit_xor_injective a b c h = sym (xor_cancel a b) ∙ ap (bit_xor a) h ∙ xor_cancel a c

pub bit_xor_self : (a : ℕ) → bit_xor a a ≡ 0
bit_xor_self a = ap (bit_xor a) (sym xor-zero) ∙ xor_cancel a 0
  where
    xor-zero : bit_xor a 0 ≡ a
    xor-zero = bit_xor_comm a 0 ∙ zero-bit_xor a

-- Words of `k` bits are closed under `^`.
pub bit_xor-lt : (k a b : ℕ) → a < 2 ^ k → b < 2 ^ k → bit_xor a b < 2 ^ k
bit_xor-lt zero a b p q =
    let a0 : a ≡ 0 = omega arith in let b0 : b ≡ 0 = omega arith in rw (a0, b0) (omega arith)
bit_xor-lt (suc k) a b p q = omega (
  arith,
  pow-suc 2 k,
  bit_xor_step a b,
  bit_xor-lt k (a / 2) (b / 2) (omega (arith, pow-suc 2 k)) (omega (arith, pow-suc 2 k)),
)

-- A field moved up one place.
shifted_field : (high k : ℕ) → high * 2 ^ suc k ≡ high * 2 ^ k + high * 2 ^ k
shifted_field high k = ap (λ (t : ℕ). high * t) (pow-suc 2 k) ∙ omega arith

-- `^` with a word of `k` bits leaves the higher bits alone.
pub bit_xor_fields :
    (k q r s : ℕ) → r < 2 ^ k → s < 2 ^ k → bit_xor (q * 2 ^ k + r) s ≡ q * 2 ^ k + bit_xor r s
bit_xor_fields zero q r s p h =
    let r0 : r ≡ 0 = omega arith in
    let s0 : s ≡ 0 = omega arith in rw (r0, s0) (bit_xor_comm _ 0 ∙ zero-bit_xor _ ∙ omega arith)
bit_xor_fields (suc k) q r s p h = omega (
  arith,
  pow-suc 2 k,
  shifted_field q k,
  bit_xor_step (q * 2 ^ suc k + r) s,
  bit_xor_step r s,
  ap (λ (t : ℕ). bit_xor t (s / 2)) half,
  bit_xor_fields k q (r / 2) (s / 2) (omega (arith, pow-suc 2 k)) (omega (arith, pow-suc 2 k)),
)
  where
    half : (q * 2 ^ suc k + r) / 2 ≡ q * 2 ^ k + r / 2
    half = omega (arith, shifted_field q k)

-- `x & 1` is the parity: above the lowest digit there is nothing on the right.
nothing_right : (i u : ℕ) → digits (λ v. 0) min i u 0 ≡ 0
nothing_right zero u = refl
nothing_right (suc i) zero = refl
nothing_right (suc i) (suc u) = omega (arith, nothing_right i (suc u / 2))

pub bit_and-one : (word : ℕ) → bit_and word 1 ≡ word % 2
bit_and-one zero = refl
bit_and-one (suc w) = omega (
  arith,
  bit_and-bitwise (suc w) 1,
  digits_halved (λ v. 0) min w 1,
  nothing_right (suc w / 2) (suc w / 2),
)

-- Over a small range a law is checked by evaluating its test at every number below a limit.
unfoldable pub holds_below : (ℕ → Bool) → ℕ → Bool
holds_below test zero = true
holds_below test (suc limit) = holds_below test limit && test limit

pub holds_below_at :
    (test : ℕ → Bool) (limit at : ℕ) → holds_below test limit ≡ true → at < limit → test at ≡ true
unfolding holds_below
holds_below_at test zero at checked h = absurd (omega arith)
holds_below_at test (suc limit) at checked h = elim (Bool-cases (nat_beq limit at)) [
  | inl this ↦ ground (arith, checked, this, ap test {x = limit} {y = at})
  | inr other ↦ holds_below_at test limit at (ground (arith, checked)) (ground (arith, other, h))
]
