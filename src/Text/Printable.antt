-- ===== src/Text/Printable.antt =====
-- Texts of printable ASCII characters without blanks, which `TrimSpace` leaves alone.
use mathlib.Core.List.{reverse, reverse-cons, reverse-reverse}
use guhfrtui.Base.{ℕ, zero, suc, ◌≤◌, ◌≡◌, refl, [], ◌∷◌, All, All-append, length, Bytes, arith}
use guhfrtui.Text.{space_width, space_width_back, drop_spaces, trim_space}

abbrev pub IsPrintable : ℕ → Type 0
IsPrintable c = (33 ≤ c) × (c ≤ 126)

All-reverse : (s : Bytes) → All IsPrintable s → All IsPrintable (reverse s)
All-reverse [] h = tt
All-reverse (x ∷ s) h =
    rw (reverse-cons x s)
      (All-append IsPrintable (reverse s) (x ∷ []) (All-reverse s h.1) (h.0, tt))

space_width_printable : (s : Bytes) → All IsPrintable s → space_width s ≡ 0
unfolding space_width
space_width_printable [] h = refl
space_width_printable (a ∷ s) h = ground (arith, h.0)

space_width_back_printable : (s : Bytes) → All IsPrintable s → space_width_back s ≡ 0
unfolding space_width_back
space_width_back_printable [] h = refl
space_width_back_printable (a ∷ []) h = ground (arith, h.0)
space_width_back_printable (a ∷ b ∷ []) h = ground (arith, h.0, h.1)
space_width_back_printable (a ∷ b ∷ c ∷ s) h = ground (arith, h.0)

drop_spaces_none :
    (width : Bytes → ℕ) (fuel : ℕ) (s : Bytes) → width s ≡ 0 → drop_spaces width fuel s ≡ s
unfolding drop_spaces
drop_spaces_none width zero s h = refl
drop_spaces_none width (suc fuel) s h = rw (h, drop_spaces) refl

pub trim_space_printable : (s : Bytes) → All IsPrintable s → trim_space s ≡ s
unfolding trim_space
trim_space_printable s h =
    rw
      (
        drop_spaces_none space_width (length s) s (space_width_printable s h),
        drop_spaces_none space_width_back (length s) (reverse s)
            (space_width_back_printable (reverse s) (All-reverse s h)),
      )
      (reverse-reverse s)
