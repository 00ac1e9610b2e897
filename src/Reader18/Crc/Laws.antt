-- ===== src/Reader18/Crc/Laws.antt =====
-- Laws of `crc16MCRF4XX`: the size of its register, its update, and messages with a checksum behind
-- them.
use guhfrtui.Base.{
  ℕ, zero, suc, ◌+◌, ◌*◌, ◌/◌, ◌%◌, ◌^◌, ◌≤◌, ◌<◌, ◌≡◌, refl, sym, ap, ◌∙◌, true, ◌&&◌, [], ◌∷◌,
  ◌++◌, arith, bit_xor, ltb, leb, nat_beq, All, Bytes, IsByte, if◌then◌else◌,
}
use native.Mathlib.Nat.{pow-suc}
use guhfrtui.Base.Bits.{
  bit_and-one, bit_xor-lt, bit_xor_injective, bit_xor_fields, bit_xor_self, holds_below,
  holds_below_at, bit_xor_comm,
}
use guhfrtui.Reader18.Crc.{shift, rounds, crc_byte, crc_from, crc16}

shift_by_parity : (c : ℕ) → shift c ≡ (if nat_beq (c % 2) 1 then bit_xor 0x8408 (c / 2) else c / 2)
unfolding shift
shift_by_parity c = ground (arith, bit_and-one c, bit_xor_comm (c / 2) 0x8408)

-- The polynomial's top bit shows whether a bit was shifted out.
poly_table :
    holds_below (λ x. leb 32768 (bit_xor 0x8408 x) && ltb (bit_xor 0x8408 x) 65536) 32768 ≡ true
unfolding holds_below
poly_table = refl

poly_bounds : (x : ℕ) → x < 32768 → (32768 ≤ bit_xor 0x8408 x) × (bit_xor 0x8408 x < 65536)
poly_bounds x h = ground (arith, holds_below_at _ 32768 x poly_table h)

shift-lt : (c : ℕ) → c < 65536 → shift c < 65536
shift-lt c h = rw shift_by_parity (ground (arith, poly_bounds (c / 2)))

shift_injective : (c d : ℕ) → c < 65536 → d < 65536 → shift c ≡ shift d → c ≡ d
shift_injective c d p q h = ground (
  arith,
  sym (shift_by_parity c) ∙ h ∙ shift_by_parity d,
  poly_bounds (c / 2),
  poly_bounds (d / 2),
  bit_xor_injective 0x8408 (c / 2) (d / 2),
)

rounds-lt : (n c : ℕ) → c < 65536 → rounds n c < 65536
unfolding rounds
rounds-lt zero c h = h
rounds-lt (suc n) c h = rounds-lt n (shift c) (shift-lt c h)

rounds_injective : (n c d : ℕ) → c < 65536 → d < 65536 → rounds n c ≡ rounds n d → c ≡ d
unfolding rounds
rounds_injective zero c d p q h = h
rounds_injective (suc n) c d p q h =
    shift_injective c d p q (rounds_injective n (shift c) (shift d) (shift-lt c p) (shift-lt d q) h)

xor_byte-lt : (c b : ℕ) → c < 65536 → IsByte b → bit_xor c b < 65536
xor_byte-lt c b p q = bit_xor-lt 16 c b p (omega arith)

crc_byte-lt : (c b : ℕ) → c < 65536 → IsByte b → crc_byte c b < 65536
unfolding crc_byte
crc_byte-lt c b p q = rounds-lt 8 (bit_xor c b) (xor_byte-lt c b p q)

pub crc_from-lt : (bs : Bytes) (c : ℕ) → c < 65536 → All IsByte bs → crc_from c bs < 65536
unfolding crc_from
crc_from-lt [] c h a = h
crc_from-lt (b ∷ bs) c h a = crc_from-lt bs (crc_byte c b) (crc_byte-lt c b h a.0) a.1

pub crc_from-append : (xs ys : Bytes) (c : ℕ) → crc_from c (xs ++ ys) ≡ crc_from (crc_from c xs) ys
unfolding crc_from
crc_from-append [] ys c = refl
crc_from-append (x ∷ xs) ys c = crc_from-append xs ys (crc_byte c x)

-- For a fixed byte the update is injective in the register, and the other way round.
crc_byte_register :
    (c d b : ℕ) → c < 65536 → d < 65536 → IsByte b → crc_byte c b ≡ crc_byte d b → c ≡ d
unfolding crc_byte
crc_byte_register c d b p q r h = bit_xor_injective b c d (
    bit_xor_comm b c
    ∙ rounds_injective 8 (bit_xor c b) (bit_xor d b) (xor_byte-lt c b p r) (xor_byte-lt d b q r) h
    ∙ bit_xor_comm d b)

crc_byte_injective :
    (c x y : ℕ) → c < 65536 → IsByte x → IsByte y → crc_byte c x ≡ crc_byte c y → x ≡ y
unfolding crc_byte
crc_byte_injective c x y p q r h =
    bit_xor_injective c x y
      (rounds_injective 8 (bit_xor c x) (bit_xor c y) (xor_byte-lt c x p q) (xor_byte-lt c y p r) h)

crc_from_register :
    (bs : Bytes) (c d : ℕ)
    → c < 65536
    → d < 65536
    → All IsByte bs
    → crc_from c bs ≡ crc_from d bs
    → c ≡ d
unfolding crc_from
crc_from_register [] c d p q a h = h
crc_from_register (b ∷ bs) c d p q a h = crc_byte_register c d b p q a.0 (
    crc_from_register bs (crc_byte c b) (crc_byte d b) (crc_byte-lt c b p a.0)
      (crc_byte-lt d b q a.0) a.1 h)

-- Messages that differ in one byte have different checksums.
pub crc16_one_byte :
    (pre post : Bytes) (x y : ℕ)
    → All IsByte pre
    → All IsByte post
    → IsByte x
    → IsByte y
    → crc16 (pre ++ x ∷ post) ≡ crc16 (pre ++ y ∷ post)
    → x ≡ y
unfolding crc16
crc16_one_byte pre post x y hp hs hx hy h =
    let c = crc_from 0xFFFF pre in
    let below = crc_from-lt pre 0xFFFF (omega arith) hp in
    crc_byte_injective c x y below hx hy (
      crc_from_register post (crc_byte c x) (crc_byte c y) (crc_byte-lt c x below hx)
        (crc_byte-lt c y below hy) hs
        (sym (crc_from-append pre (x ∷ post) 0xFFFF) ∙ h ∙ crc_from-append pre (y ∷ post) 0xFFFF))

shift_even : (c : ℕ) → shift (2 * c) ≡ c
shift_even c = shift_by_parity (2 * c) ∙ ground arith

rounds_zero : (n : ℕ) → rounds n 0 ≡ 0
unfolding rounds
rounds_zero zero = refl
rounds_zero (suc n) = ap (rounds n) (shift_even 0) ∙ rounds_zero n

rounds_high : (n q : ℕ) → rounds n (q * 2 ^ n) ≡ q
unfolding rounds
rounds_high zero q = omega arith
rounds_high (suc n) q = ap (rounds n) (ap shift double ∙ shift_even (q * 2 ^ n)) ∙ rounds_high n q
  where
    double : q * 2 ^ suc n ≡ 2 * (q * 2 ^ n)
    double = omega (arith, ap (λ (t : ℕ). q * t) (pow-suc 2 n))

-- The two checksum bytes, low byte first, clear the register.
pub crc_from-residue : (c : ℕ) → c < 65536 → crc_from c (c % 256 ∷ c / 256 % 256 ∷ []) ≡ 0
unfolding crc_from crc_byte
crc_from-residue c h =
    ap (λ (t : ℕ). rounds 8 (bit_xor t (c / 256 % 256))) first
    ∙ ap (λ (t : ℕ). rounds 8 (bit_xor (c / 256) t)) high
    ∙ ap (rounds 8) (bit_xor_self (c / 256))
    ∙ rounds_zero 8
  where
    high : c / 256 % 256 ≡ c / 256
    high = omega arith

    split : c ≡ c / 256 * 2 ^ 8 + c % 256
    split = omega arith

    low_cleared : bit_xor c (c % 256) ≡ c / 256 * 2 ^ 8
    low_cleared =
        ap (λ (t : ℕ). bit_xor t (c % 256)) split
        ∙ bit_xor_fields 8 (c / 256) (c % 256) (c % 256) (omega arith) (omega arith)
        ∙ omega (arith, bit_xor_self (c % 256))

    first : rounds 8 (bit_xor c (c % 256)) ≡ c / 256
    first = ap (rounds 8) low_cleared ∙ rounds_high 8 (c / 256)

-- The checksum is a 16-bit word.
pub crc16-lt : (bs : Bytes) → All IsByte bs → crc16 bs < 65536
unfolding crc16
crc16-lt bs a = crc_from-lt bs 0xFFFF (omega arith) a
