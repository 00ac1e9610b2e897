-- ===== src/Text/Trim.antt =====
-- `TrimSpace` under a filter that drops every byte of a space.
use guhfrtui.Base.{
  ℕ, zero, suc, ◌≤◌, ◌≡◌, refl, sym, ap, ◌∙◌, Bool, true, false, [], ◌∷◌, ◌++◌, arith, length, drop,
  append-nil, if◌then◌else◌, Bytes,
}
use mathlib.Core.List.{reverse, reverse-cons, reverse-reverse}
use guhfrtui.Text.{is_ascii_space, space_width, space_width_back, drop_spaces, trim_space}

module _ (keep : ℕ → Bool) where
  unfoldable pub filter_bytes : Bytes → Bytes
  filter_bytes [] = []
  filter_bytes (c ∷ cs) = if keep c then c ∷ filter_bytes cs else filter_bytes cs

  pub filter_bytes-append :
      (xs ys : Bytes) → filter_bytes (xs ++ ys) ≡ filter_bytes xs ++ filter_bytes ys
  unfolding filter_bytes
  filter_bytes-append [] ys = refl
  filter_bytes-append (x ∷ xs) ys = ground (arith, filter_bytes-append xs ys)

  pub filter_bytes-reverse : (xs : Bytes) → filter_bytes (reverse xs) ≡ reverse (filter_bytes xs)
  unfolding filter_bytes
  filter_bytes-reverse [] = refl
  filter_bytes-reverse (x ∷ xs) =
      rw (reverse-cons x xs, filter_bytes-append (reverse xs), filter_bytes-reverse xs)
        (ground (arith, reverse-cons x (filter_bytes xs), append-nil (reverse (filter_bytes xs))))

  -- The bytes that make up spaces: the ASCII ones, and all from 128 on.
  abbrev pub IgnoresSpaces : Type 0
  IgnoresSpaces =
      ((c : ℕ) → is_ascii_space c ≡ true → keep c ≡ false) × ((c : ℕ) → 128 ≤ c → keep c ≡ false)

  module _ (ignores : IgnoresSpaces) where
    space_width_drops : (s : Bytes) → filter_bytes (drop (space_width s) s) ≡ filter_bytes s
    unfolding space_width filter_bytes
    space_width_drops [] = refl
    space_width_drops (a ∷ []) = ground (arith, ignores.0 a, ignores.1 a)
    space_width_drops (a ∷ b ∷ []) = ground (arith, ignores.0 a, ignores.1 a, ignores.1 b)
    space_width_drops (a ∷ b ∷ c ∷ s) =
        ground (arith, ignores.0 a, ignores.1 a, ignores.1 b, ignores.1 c)

    space_width_back_drops :
        (s : Bytes) → filter_bytes (drop (space_width_back s) s) ≡ filter_bytes s
    unfolding space_width_back filter_bytes
    space_width_back_drops [] = refl
    space_width_back_drops (a ∷ []) = ground (arith, ignores.0 a, ignores.1 a)
    space_width_back_drops (a ∷ b ∷ []) = ground (arith, ignores.0 a, ignores.1 a, ignores.1 b)
    space_width_back_drops (a ∷ b ∷ c ∷ s) =
        ground (arith, ignores.0 a, ignores.1 a, ignores.1 b, ignores.1 c)

    drop_spaces_drops :
        (width : Bytes → ℕ)
        → ((s : Bytes) → filter_bytes (drop (width s) s) ≡ filter_bytes s)
        → (fuel : ℕ) (s : Bytes) → filter_bytes (drop_spaces width fuel s) ≡ filter_bytes s
    unfolding drop_spaces
    drop_spaces_drops width h zero s = refl
    drop_spaces_drops width h (suc fuel) s =
        go (width s) (h s) (λ t. drop_spaces_drops width h fuel t)
      where
        go :
            (w : ℕ)
            → filter_bytes (drop w s) ≡ filter_bytes s
            → ((t : Bytes) → filter_bytes (drop_spaces width fuel t) ≡ filter_bytes t)
            → filter_bytes (elim w [ zero ↦ s | suc k ↦ drop_spaces width fuel (drop (suc k) s) ])
              ≡ filter_bytes s
        go zero e ih = refl
        go (suc w) e ih = ih (drop (suc w) s) ∙ e

    pub filter_bytes-trim_space : (s : Bytes) → filter_bytes (trim_space s) ≡ filter_bytes s
    unfolding trim_space
    filter_bytes-trim_space s =
        let left = drop_spaces space_width (length s) s in
        let right = drop_spaces space_width_back (length left) (reverse left) in
        filter_bytes-reverse right
        ∙ ap reverse
            (drop_spaces_drops space_width_back space_width_back_drops (length left) (reverse left))
        ∙ sym (filter_bytes-reverse (reverse left))
        ∙ ap filter_bytes (reverse-reverse left)
        ∙ drop_spaces_drops space_width space_width_drops (length s) s
