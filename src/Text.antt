-- ===== src/Text.antt =====
-- What the Go code uses of the packages strings, bufio and sort, over texts as lists of bytes.
pub mod Trim
pub mod Sort
pub mod Parts
pub mod Numbers
pub mod Printable
use guhfrtui.Base.{
  ℕ, zero, suc, ◌+◌, ◌-◌, Bool, true, false, not, ◌&&◌, ◌||◌, List, [], ◌∷◌, ◌++◌, length, take,
  drop, get_or, ltb, leb, nat_beq, if◌then◌else◌, Bytes,
}
use mathlib.Core.List.{reverse}

abbrev pub is_empty : Bytes → Bool
is_empty [] = true
is_empty (x ∷ xs) = false

-- The ASCII spaces of unicode.IsSpace.
abbrev pub is_ascii_space : ℕ → Bool
is_ascii_space c = nat_beq c 32 || leb 9 c && leb c 13

-- U+0085 and U+00A0 in UTF-8.
abbrev pub is_space2 : ℕ → ℕ → Bool
is_space2 a b = nat_beq a 0xC2 && (nat_beq b 0x85 || nat_beq b 0xA0)

-- U+1680, U+2000 to U+200A, U+2028, U+2029, U+202F, U+205F and U+3000 in UTF-8.
abbrev pub is_space3 : ℕ → ℕ → ℕ → Bool
is_space3 a b c =
    nat_beq a 0xE1 && nat_beq b 0x9A && nat_beq c 0x80
    || nat_beq a 0xE2
      && (nat_beq b 0x80
            && (leb 0x80 c && leb c 0x8A || nat_beq c 0xA8 || nat_beq c 0xA9 || nat_beq c 0xAF)
          || nat_beq b 0x81 && nat_beq c 0x9F)
    || nat_beq a 0xE3 && nat_beq b 0x80 && nat_beq c 0x80

-- The bytes of the space that the text starts with; 0 if it starts with none. The second and
-- third bytes of a longer space are out of range as 0.
unfoldable pub space_width : Bytes → ℕ
space_width s =
    if is_ascii_space (get_or s 0 0)
    then 1
    else if is_space2 (get_or s 0 0) (get_or s 1 0)
    then 2
    else if is_space3 (get_or s 0 0) (get_or s 1 0) (get_or s 2 0)
    then 3
    else 0

-- The same of a text that is read from its end.
unfoldable pub space_width_back : Bytes → ℕ
space_width_back s =
    if is_ascii_space (get_or s 0 0)
    then 1
    else if is_space2 (get_or s 1 0) (get_or s 0 0)
    then 2
    else if is_space3 (get_or s 2 0) (get_or s 1 0) (get_or s 0 0)
    then 3
    else 0

-- Drops spaces of the given width while there are any; each round drops a byte at least.
unfoldable pub drop_spaces : (Bytes → ℕ) → ℕ → Bytes → Bytes
drop_spaces width zero s = s
drop_spaces width (suc fuel) s = elim (width s) [
  | zero ↦ s
  | suc w ↦ drop_spaces width fuel (drop (suc w) s)
]

-- strings.TrimSpace
unfoldable pub trim_space : Bytes → Bytes
unfolding drop_spaces space_width space_width_back
trim_space s =
    let left = drop_spaces space_width (length s) s in
    reverse (drop_spaces space_width_back (length left) (reverse left))

abbrev pub upper_byte : ℕ → ℕ
upper_byte c = if leb b'a' c && leb c b'z' then c - 32 else c

-- strings.ToUpper, on the ASCII letters. Other bytes are kept; where Go maps a letter that is not
-- ASCII, the result holds no hexadecimal digit either.
unfoldable pub to_upper : Bytes → Bytes
to_upper [] = []
to_upper (c ∷ cs) = upper_byte c ∷ to_upper cs

-- strings.HasPrefix
unfoldable pub has_prefix : Bytes → Bytes → Bool
has_prefix s [] = true
has_prefix [] (p ∷ ps) = false
has_prefix (c ∷ s) (p ∷ ps) = nat_beq c p && has_prefix s ps

-- strings.TrimPrefix
abbrev pub trim_prefix : Bytes → Bytes → Bytes
trim_prefix s p = if has_prefix s p then drop (length p) s else s

-- A trailing carriage return is not part of a line.
unfoldable pub drop_cr : Bytes → Bytes
drop_cr [] = []
drop_cr (c ∷ []) = if nat_beq c 13 then [] else c ∷ []
drop_cr (c ∷ d ∷ s) = c ∷ drop_cr (d ∷ s)

-- bufio.MaxScanTokenSize
abbrev pub max_token : ℕ
max_token = 65536

-- bufio.Scanner by lines, `line` being the current line so far and `n` its length. A line that
-- fills the buffer ends the scan with an error, and the lines before it have been delivered.
unfoldable pub scan_from : Bytes → ℕ → Bytes → List Bytes
scan_from line n [] = if nat_beq n 0 || leb max_token n then [] else drop_cr line ∷ []
scan_from line n (c ∷ cs) =
    let next_line = scan_from [] 0 cs in
    let same_line = scan_from (line ++ c ∷ []) (n + 1) cs in
    if leb max_token n then [] else if nat_beq c 10 then drop_cr line ∷ next_line else same_line

unfoldable pub scan_lines : Bytes → List Bytes
unfolding scan_from drop_cr
scan_lines content = scan_from [] 0 content

-- Whether that scan ends with the error of a line that fills the buffer, `n` being the length of
-- the current line so far.
unfoldable pub scan_fails : ℕ → Bytes → Bool
scan_fails n [] = leb max_token n
scan_fails n (c ∷ cs) = leb max_token n || scan_fails (if nat_beq c 10 then 0 else n + 1) cs
