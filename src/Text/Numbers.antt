-- ===== src/Text/Numbers.antt =====
-- strconv.Itoa and strconv.Atoi on 64-bit integers, as the Go code uses them.
use guhfrtui.Base.{
  ℕ, zero, suc, ◌+◌, ◌-◌, ◌*◌, ◌/◌, ◌%◌, ◌^◌, ◌<◌, ◌≡◌, ◌≢◌, refl, ap, ◌∙◌, Bool, true, ◌&&◌, [],
  ◌∷◌, ◌++◌, Option, none, some, ltb, leb, nat_beq, if◌then◌else◌, Bytes, arith, All, All-append,
  inl, inr, lt→ltb, Bool-cases, List-cases, if_intro,
}
use guhfrtui.Base.Int.{ℤ, pos, negsuc}
use guhfrtui.Text.Printable.{IsPrintable}

-- The number has at most as many digits as it counts.
unfoldable pub decimal : ℕ → ℕ → Bytes
decimal zero n = []
decimal (suc fuel) n =
    let higher = decimal fuel (n / 10) in
    if ltb n 10 then (b'0' + n) ∷ [] else higher ++ ((b'0' + n % 10) ∷ [])

unfoldable pub itoa : ℤ → Bytes
unfolding decimal
itoa (pos n) = decimal (suc n) n
itoa (negsuc n) = b'-' ∷ decimal (suc (suc n)) (suc n)

abbrev pub is_digit : ℕ → Bool
is_digit c = leb b'0' c && leb c b'9'

unfoldable pub digits_value : Bytes → ℕ → Option ℕ
digits_value [] acc = some acc
digits_value (c ∷ cs) acc = if is_digit c then digits_value cs (acc * 10 + (c - b'0')) else none

unfoldable pub parse_digits : Bytes → Option ℕ
unfolding digits_value
parse_digits [] = none
parse_digits (c ∷ cs) = digits_value (c ∷ cs) 0

-- A value out of the range of an int64 is an error.
abbrev pub nonneg : Option ℕ → Option ℤ
nonneg none = none
nonneg (some n) = if ltb n (2 ^ 63) then some (pos n) else none

abbrev pub negated : Option ℕ → Option ℤ
negated none = none
negated (some zero) = some (pos 0)
negated (some (suc n)) = if ltb n (2 ^ 63) then some (negsuc n) else none

-- `none` stands for the error.
unfoldable pub atoi : Bytes → Option ℤ
unfolding parse_digits
atoi [] = none
atoi (c ∷ cs) =
    if nat_beq c b'-'
    then negated (parse_digits cs)
    else if nat_beq c b'+'
    then nonneg (parse_digits cs)
    else nonneg (parse_digits (c ∷ cs))

-- The range of an int64.
abbrev pub IsInt64 : ℤ → Type 0
IsInt64 (pos n) = n < 2 ^ 63
IsInt64 (negsuc n) = n < 2 ^ 63

digits_value-append_one :
    (xs : Bytes) (d acc v : ℕ)
    → digits_value xs acc ≡ some v
    → d < 10
    → digits_value (xs ++ (b'0' + d) ∷ []) acc ≡ some (v * 10 + d)
unfolding digits_value
digits_value-append_one [] d acc v h k = ground (arith, h)
digits_value-append_one (x ∷ xs) d acc v h k =
    ground (arith, digits_value-append_one xs d (acc * 10 + (x - b'0')) v)

digits_value-decimal : (fuel n : ℕ) → n < fuel → digits_value (decimal fuel n) 0 ≡ some n
unfolding decimal digits_value
digits_value-decimal zero n h = absurd (omega arith)
digits_value-decimal (suc fuel) n h = elim (Bool-cases (ltb n 10)) [
  | inl e ↦ rw e (ground arith)
  | inr e ↦ rw e (
      digits_value-append_one (decimal fuel (n / 10)) (n % 10) 0 (n / 10)
        (digits_value-decimal fuel (n / 10) (ground arith)) (omega arith)
      ∙ ap some (omega arith))
]

pub decimal_digits : (fuel n : ℕ) → All (λ c. is_digit c ≡ true) (decimal fuel n)
unfolding decimal
decimal_digits zero n = tt
decimal_digits (suc fuel) n = elim (Bool-cases (ltb n 10)) [
  | inl e ↦ rw e (ground arith, tt)
  | inr e ↦ rw e (
      All-append (λ c. is_digit c ≡ true) (decimal fuel (n / 10)) ((b'0' + n % 10) ∷ [])
        (decimal_digits fuel (n / 10)) (ground arith, tt))
]

-- A text of digits is read by its value, unless it is empty.
parse_digits-some :
    (s : Bytes) (n : ℕ) → digits_value s 0 ≡ some n → s ≢ [] → parse_digits s ≡ some n
unfolding parse_digits
parse_digits-some [] n h ne = absurd (ne refl)
parse_digits-some (c ∷ s) n h ne = h

decimal-ne-nil : (fuel n : ℕ) → decimal (suc fuel) n ≢ []
unfolding decimal
decimal-ne-nil fuel n h = elim (List-cases (decimal fuel (n / 10))) [
  | inl e ↦ ground (arith, h, e)
  | inr (x, xs, e) ↦ ground (arith, h, e)
]

parse_digits-decimal : (n : ℕ) → parse_digits (decimal (suc n) n) ≡ some n
parse_digits-decimal n =
    parse_digits-some (decimal (suc n) n) n (digits_value-decimal (suc n) n (omega arith))
      (decimal-ne-nil n n)

-- A text that begins with a digit has no sign.
atoi_unsigned : (s : Bytes) → All (λ c. is_digit c ≡ true) s → atoi s ≡ nonneg (parse_digits s)
unfolding atoi parse_digits
atoi_unsigned [] h = refl
atoi_unsigned (c ∷ s) h = ground (arith, h.0)

digits-IsPrintable : (s : Bytes) → All (λ c. is_digit c ≡ true) s → All IsPrintable s
digits-IsPrintable [] h = tt
digits-IsPrintable (x ∷ s) h =
    ((ground (arith, h.0), ground (arith, h.0)), digits-IsPrintable s h.1)

-- What `Itoa` prints has no blanks, and is not empty.
pub itoa-IsPrintable : (n : ℤ) → All IsPrintable (itoa n)
unfolding itoa
itoa-IsPrintable (pos n) = digits-IsPrintable (decimal (suc n) n) (decimal_digits (suc n) n)
itoa-IsPrintable (negsuc n) = (
  (omega arith, omega arith),
  digits-IsPrintable (decimal (suc (suc n)) (suc n)) (decimal_digits (suc (suc n)) (suc n)),
)

pub itoa-ne-nil : (n : ℤ) → itoa n ≢ []
unfolding itoa
itoa-ne-nil (pos n) h = decimal-ne-nil n n h
itoa-ne-nil (negsuc n) h = cc

nonneg_in_range : (n : ℕ) → n < 2 ^ 63 → nonneg (some n) ≡ some (pos n)
nonneg_in_range n h = rw (lt→ltb n (2 ^ 63) h) refl

negated_in_range : (n : ℕ) → n < 2 ^ 63 → negated (some (suc n)) ≡ some (negsuc n)
negated_in_range n h = rw (lt→ltb n (2 ^ 63) h) refl

-- `Atoi` reads back what `Itoa` prints, for every int64.
pub atoi-itoa : (n : ℤ) → IsInt64 n → atoi (itoa n) ≡ some n
unfolding itoa
atoi-itoa (pos n) h =
    rw (atoi_unsigned (decimal (suc n) n) (decimal_digits (suc n) n), parse_digits-decimal n)
      (nonneg_in_range n h)
atoi-itoa (negsuc n) h = unfold atoi in rw (parse_digits-decimal (suc n)) (negated_in_range n h)

nonneg-IsInt64 : (o : Option ℕ) (n : ℤ) → nonneg o ≡ some n → IsInt64 n
nonneg-IsInt64 none n h = absurd (ground (arith, h))
nonneg-IsInt64 (some v) (pos m) h = ground (arith, h)
nonneg-IsInt64 (some v) (negsuc m) h = absurd (ground (arith, h))

negated-IsInt64 : (o : Option ℕ) (n : ℤ) → negated o ≡ some n → IsInt64 n
negated-IsInt64 none n h = absurd (ground (arith, h))
negated-IsInt64 (some zero) (pos m) h = ground (arith, h)
negated-IsInt64 (some zero) (negsuc m) h = absurd (ground (arith, h))
negated-IsInt64 (some (suc v)) (pos m) h = absurd (ground (arith, h))
negated-IsInt64 (some (suc v)) (negsuc m) h = ground (arith, h)

-- What `Atoi` returns is an int64.
pub atoi-IsInt64 : (s : Bytes) (n : ℤ) → atoi s ≡ some n → IsInt64 n
unfolding atoi
atoi-IsInt64 [] n h = absurd (ground (arith, h))
atoi-IsInt64 (c ∷ s) n h =
    if_intro P (nat_beq c b'-') (λ h. negated-IsInt64 (parse_digits s) n)
      (λ h.
        if_intro P (nat_beq c b'+') (λ k. nonneg-IsInt64 (parse_digits s) n)
          (λ k. nonneg-IsInt64 (parse_digits (c ∷ s)) n))
      h
  where
    P : Option ℤ → Type 0
    P o = o ≡ some n → IsInt64 n
