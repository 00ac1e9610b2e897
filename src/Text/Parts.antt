-- ===== src/Text/Parts.antt =====
-- What else the Go code uses of the package strings: Cut, HasSuffix, TrimRight, ToLower, Contains
-- and Fields, over the ASCII letters and spaces, and `codes`, the bytes of a literal.
use Prim.Native.Char.{code}
use Prim.Native.String.{String}
use mathlib.Core.List.{reverse}
use guhfrtui.Base.{
  ℕ, ◌+◌, Bool, ◌&&◌, ◌||◌, List, [], ◌∷◌, ◌++◌, Option, none, some, leb, nat_beq, if◌then◌else◌,
  Bytes,
}
use guhfrtui.Text.{is_empty, has_prefix, is_ascii_space}

-- The bytes of an ASCII literal.
abbrev pub codes : String → Bytes
codes String.[] = []
codes (String.◌∷◌ c s) = code c ∷ codes s

-- strings.Cut at one byte: what stands before the first one, and what stands behind it.
unfoldable pub cut : ℕ → Bytes → Option (Bytes × Bytes)
cut sep [] = none
cut sep (c ∷ cs) =
    if nat_beq c sep
    then some ([], cs)
    else elim (cut sep cs) [ none ↦ none | some (a, b) ↦ some (c ∷ a, b) ]

-- strings.HasSuffix, read from the end.
unfoldable pub has_suffix : Bytes → Bytes → Bool
unfolding has_prefix
has_suffix s p = has_prefix (reverse s) (reverse p)

-- strings.TrimLeft with a cut set of one byte.
unfoldable pub trim_left_byte : ℕ → Bytes → Bytes
trim_left_byte b [] = []
trim_left_byte b (c ∷ cs) = if nat_beq c b then trim_left_byte b cs else c ∷ cs

-- strings.TrimRight with a cut set of one byte.
unfoldable pub trim_right_byte : ℕ → Bytes → Bytes
unfolding trim_left_byte
trim_right_byte b s = reverse (trim_left_byte b (reverse s))

abbrev pub lower_byte : ℕ → ℕ
lower_byte c = if leb b'A' c && leb c b'Z' then c + 32 else c

-- strings.ToLower, on the ASCII letters.
unfoldable pub to_lower : Bytes → Bytes
to_lower [] = []
to_lower (c ∷ cs) = lower_byte c ∷ to_lower cs

-- strings.Contains
unfoldable pub contains : Bytes → Bytes → Bool
unfolding has_prefix
contains [] p = is_empty p
contains (c ∷ s) p = has_prefix (c ∷ s) p || contains s p

-- strings.Fields, `word` being the current word so far.
unfoldable pub fields_from : Bytes → Bytes → List Bytes
fields_from word [] = if is_empty word then [] else word ∷ []
fields_from word (c ∷ s) =
    let next = fields_from [] s in
    let same = fields_from (word ++ c ∷ []) s in
    if is_ascii_space c then if is_empty word then next else word ∷ next else same

unfoldable pub fields : Bytes → List Bytes
unfolding fields_from
fields s = fields_from [] s
