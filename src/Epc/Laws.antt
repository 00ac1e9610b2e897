-- ===== src/Epc/Laws.antt =====
-- `NormalizeEPC` against a filter of the hexadecimal digits.
use guhfrtui.Base.{ℕ, ◌≡◌, refl, ap, ◌∙◌, Bool, true, [], ◌∷◌, arith, All, Bytes, if◌then◌else◌}
use guhfrtui.Text.{is_empty, trim_space, to_upper, upper_byte}
use guhfrtui.Text.Trim.{filter_bytes, filter_bytes-trim_space}
use guhfrtui.Epc.{is_hex, normalize_epc}

-- The digits of a text, in order, in upper case; letters above `F` and all else is left out.
abbrev pub is_digit_of : ℕ → Bool
is_digit_of c = is_hex (upper_byte c)

to_upper-filter_bytes :
    (s : Bytes) → filter_bytes is_hex (to_upper s) ≡ to_upper (filter_bytes is_digit_of s)
unfolding filter_bytes to_upper
to_upper-filter_bytes [] = refl
to_upper-filter_bytes (c ∷ s) = ground (arith, to_upper-filter_bytes s)

skip_empty :
    (s : Bytes) → (if is_empty s then [] else filter_bytes is_hex s) ≡ filter_bytes is_hex s
unfolding filter_bytes
skip_empty [] = refl
skip_empty (c ∷ s) = refl

-- The trimming makes no difference: `NormalizeEPC` returns the hexadecimal digits of its
-- argument, in order and in upper case.
pub normalize_epc_lem : (raw : Bytes) → normalize_epc raw ≡ to_upper (filter_bytes is_digit_of raw)
unfolding normalize_epc
normalize_epc_lem raw =
    skip_empty (to_upper (trim_space raw))
    ∙ to_upper-filter_bytes (trim_space raw)
    ∙ ap to_upper
        (filter_bytes-trim_space is_digit_of ((λ c h. ground arith), (λ c h. ground arith)) raw)

abbrev pub IsHex : Bytes → Type 0
IsHex = All (λ c. is_hex c ≡ true)

digits-IsHex : (s : Bytes) → IsHex (to_upper (filter_bytes is_digit_of s))
unfolding to_upper filter_bytes
digits-IsHex [] = tt
digits-IsHex (c ∷ s) = ground (arith, digits-IsHex s)

pub normalize_epc-IsHex : (raw : Bytes) → IsHex (normalize_epc raw)
normalize_epc-IsHex raw = rw (normalize_epc_lem raw) (digits-IsHex raw)

digits_of_IsHex : (s : Bytes) → IsHex s → to_upper (filter_bytes is_digit_of s) ≡ s
unfolding to_upper filter_bytes
digits_of_IsHex [] h = refl
digits_of_IsHex (c ∷ s) h = ground (arith, digits_of_IsHex s h.1)

-- What is normal already stays as it is.
pub normalize_epc_of_IsHex : (s : Bytes) → IsHex s → normalize_epc s ≡ s
normalize_epc_of_IsHex s h = normalize_epc_lem s ∙ digits_of_IsHex s h

pub normalize_epc_twice : (raw : Bytes) → normalize_epc (normalize_epc raw) ≡ normalize_epc raw
normalize_epc_twice raw = normalize_epc_of_IsHex (normalize_epc raw) (normalize_epc-IsHex raw)
