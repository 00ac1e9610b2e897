-- ===== src/Discovery/Address.antt =====
-- IPv4 addresses as 32-bit numbers: `ipv4ToUint32`, `uint32ToIPv4`, and what scanner.go uses of
-- net/netip, their texts.
use guhfrtui.Base.{
  ℕ, suc, ◌+◌, ◌*◌, ◌/◌, ◌%◌, ◌^◌, ◌<◌, ◌≡◌, refl, ap, Bool, true, false, not, ◌&&◌, [], ◌∷◌, ◌++◌,
  Option, none, some, ltb, nat_beq, if◌then◌else◌, Bytes, arith, All, Option-cases, inl, inr,
}
use guhfrtui.Base.Bits.{holds_below, holds_below_at}
use guhfrtui.Text.Parts.{cut}
use guhfrtui.Text.Numbers.{decimal, is_digit, digits_value, parse_digits, decimal_digits}

-- An address is the big-endian number of its four bytes.
unfoldable pub quad : ℕ → ℕ → ℕ → ℕ → ℕ
quad a b c d = ((a * 256 + b) * 256 + c) * 256 + d

abbrev pub octet_text : ℕ → Bytes
octet_text n = decimal (suc n) n

-- netip.Addr.String
unfoldable pub host_text : ℕ → Bytes
unfolding decimal
host_text v =
    octet_text (v / 256 ^ 3 % 256)
    ++ (b'.'
        ∷ (octet_text (v / 256 ^ 2 % 256)
            ++ (b'.' ∷ (octet_text (v / 256 % 256) ++ (b'.' ∷ octet_text (v % 256))))))

-- One part of an address: no leading zero, and at most 255.
abbrev pub in_octet : Bool → Option ℕ → Option ℕ
in_octet plain none = none
in_octet plain (some v) = if plain && ltb v 256 then some v else none

abbrev pub no_leading_zero : Bytes → Bool
no_leading_zero [] = true
no_leading_zero (c ∷ []) = true
no_leading_zero (c ∷ (d ∷ s)) = not (nat_beq c b'0')

unfoldable pub octet : Bytes → Option ℕ
unfolding parse_digits
octet s = in_octet (no_leading_zero s) (parse_digits s)

abbrev pub quad_of : Option ℕ → Option ℕ → Option ℕ → Option ℕ → Option ℕ
quad_of (some a) (some b) (some c) (some d) = some (quad a b c d)
quad_of _ _ _ _ = none

abbrev pub third_part : Bytes → Bytes → Option (Bytes × Bytes) → Option ℕ
third_part a b none = none
third_part a b (some (c, d)) = quad_of (octet a) (octet b) (octet c) (octet d)

abbrev pub second_part : Bytes → Option (Bytes × Bytes) → Option ℕ
second_part a none = none
second_part a (some (b, rest)) = third_part a b (cut b'.' rest)

abbrev pub first_part : Option (Bytes × Bytes) → Option ℕ
first_part none = none
first_part (some (a, rest)) = second_part a (cut b'.' rest)

-- netip.ParseAddr where the result is an IPv4 address; none also where it is another one.
unfoldable pub parse_ipv4 : Bytes → Option ℕ
unfolding cut octet quad
parse_ipv4 s = first_part (cut b'.' s)

cut_digits :
    (digits rest : Bytes)
    → All (λ c. is_digit c ≡ true) digits
    → cut b'.' (digits ++ (b'.' ∷ rest)) ≡ some (digits, rest)
unfolding cut
cut_digits [] rest h = refl
cut_digits (c ∷ digits) rest h = ground (arith, h.0, cut_digits digits rest h.1)

reads_back : ℕ → Bool
reads_back n = elim (octet (octet_text n)) [ none ↦ false | some v ↦ nat_beq v n ]

octets_read_back : holds_below reads_back 256 ≡ true
unfolding holds_below reads_back octet decimal digits_value parse_digits
octets_read_back = refl

octet-octet_text : (n : ℕ) → n < 256 → octet (octet_text n) ≡ some n
octet-octet_text n h = elim (Option-cases (octet (octet_text n))) [
  | inl e ↦ absurd (unfold reads_back in ground (arith, checked, e))
  | inr (v, e) ↦ unfold reads_back in ground (arith, checked, e)
]
  where
    checked : reads_back n ≡ true
    checked = holds_below_at reads_back 256 n octets_read_back h

digits_of : (n : ℕ) → All (λ c. is_digit c ≡ true) (octet_text n)
digits_of n = decimal_digits (suc n) n

quad_bytes :
    (v : ℕ)
    → v < 256 ^ 4
    → quad (v / 256 ^ 3 % 256) (v / 256 ^ 2 % 256) (v / 256 % 256) (v % 256) ≡ v
unfolding quad
quad_bytes v h = omega arith

-- ParseAddr reads back the text of every IPv4 address.
pub parse_ipv4-host_text : (v : ℕ) → v < 256 ^ 4 → parse_ipv4 (host_text v) ≡ some v
unfolding parse_ipv4 host_text
parse_ipv4-host_text v h =
    rw
      (
        cut_digits (octet_text a) (octet_text b ++ (b'.' ∷ (octet_text c ++ (b'.' ∷ octet_text d))))
            (digits_of a),
        cut_digits (octet_text b) (octet_text c ++ (b'.' ∷ octet_text d)) (digits_of b),
        cut_digits (octet_text c) (octet_text d) (digits_of c),
        octet-octet_text a (omega arith),
        octet-octet_text b (omega arith),
        octet-octet_text c (omega arith),
        octet-octet_text d (omega arith),
      )
      (ap some (quad_bytes v h))
  where
    a : ℕ
    a = v / 256 ^ 3 % 256

    b : ℕ
    b = v / 256 ^ 2 % 256

    c : ℕ
    c = v / 256 % 256

    d : ℕ
    d = v % 256
