-- ===== src/Text/Sort.antt =====
-- sort.Strings: bytewise order, here by insertion. Go sorts by another algorithm; as the order is
-- total and antisymmetric, the sorted list is the same.
use guhfrtui.Base.{
  suc, ◌≡◌, refl, ap, ◌∙◌, Bool, true, false, ◌||◌, ◌&&◌, List, [], ◌∷◌, arith, length, ltb,
  nat_beq, ◌==◌, bytes_eq, if◌then◌else◌, Bytes,
}
use guhfrtui.Base.Sets.{has}

-- Go's `<=` on strings
unfoldable pub le_strings : Bytes → Bytes → Bool
le_strings [] b = true
le_strings (x ∷ a) [] = false
le_strings (x ∷ a) (y ∷ b) = let rest = le_strings a b in if nat_beq x y then rest else ltb x y

pub insert_sorted : Bytes → List Bytes → List Bytes
insert_sorted s [] = s ∷ []
insert_sorted s (t ∷ ts) =
    let later = insert_sorted s ts in if le_strings s t then s ∷ t ∷ ts else t ∷ later

unfoldable pub sort_strings : List Bytes → List Bytes
unfolding insert_sorted le_strings
sort_strings [] = []
sort_strings (s ∷ ss) = insert_sorted s (sort_strings ss)

-- Each string is at most the next one.
abbrev pub IsSorted : List Bytes → Type 0
IsSorted [] = Unit
IsSorted (s ∷ []) = Unit
IsSorted (s ∷ t ∷ ts) = (le_strings s t ≡ true) × IsSorted (t ∷ ts)

pub le_strings_total : (a b : Bytes) → le_strings a b ≡ false → le_strings b a ≡ true
unfolding le_strings
le_strings_total [] b h = cc
le_strings_total (x ∷ a) [] h = refl
le_strings_total (x ∷ a) (y ∷ b) h = ground (arith, le_strings_total a b)

pub le_strings_antisym : (a b : Bytes) → (le_strings a b && le_strings b a) ≡ true → a ≡ b
unfolding le_strings
le_strings_antisym [] [] h = refl
le_strings_antisym [] (y ∷ b) h = absurd (ground (arith, h))
le_strings_antisym (x ∷ a) [] h = absurd (ground (arith, h))
le_strings_antisym (x ∷ a) (y ∷ b) h = ground (arith, h, le_strings_antisym a b)

pub le_strings_trans :
    (a b c : Bytes) → le_strings a b ≡ true → le_strings b c ≡ true → le_strings a c ≡ true
unfolding le_strings
le_strings_trans [] b c h k = refl
le_strings_trans (x ∷ a) [] c h k = absurd (ground (arith, h))
le_strings_trans (x ∷ a) (y ∷ b) [] h k = absurd (ground (arith, k))
le_strings_trans (x ∷ a) (y ∷ b) (z ∷ c) h k = ground (arith, h, k, le_strings_trans a b c)

insert_sorted-IsSorted : (s : Bytes) (ts : List Bytes) → IsSorted ts → IsSorted (insert_sorted s ts)
unfolding insert_sorted
insert_sorted-IsSorted s [] h = tt
insert_sorted-IsSorted s (t ∷ []) h = ground (arith, le_strings_total s t)
insert_sorted-IsSorted s (t ∷ u ∷ us) h =
    ground (arith, le_strings_total s t, insert_sorted-IsSorted s (u ∷ us) h.1)

pub sort_strings-IsSorted : (ss : List Bytes) → IsSorted (sort_strings ss)
unfolding sort_strings
sort_strings-IsSorted [] = tt
sort_strings-IsSorted (s ∷ ss) =
    insert_sorted-IsSorted s (sort_strings ss) (sort_strings-IsSorted ss)

has-insert_sorted :
    (x s : Bytes) (ts : List Bytes) → has x (insert_sorted s ts) ≡ (s == x || has x ts)
unfolding has insert_sorted
has-insert_sorted x s [] = refl
has-insert_sorted x s (t ∷ ts) = ground (arith, has-insert_sorted x s ts)

pub has-sort_strings : (x : Bytes) (ss : List Bytes) → has x (sort_strings ss) ≡ has x ss
unfolding has sort_strings
has-sort_strings x [] = refl
has-sort_strings x (s ∷ ss) =
    has-insert_sorted x s (sort_strings ss) ∙ ap (λ b. s == x || b) (has-sort_strings x ss)

length-insert_sorted : (s : Bytes) (ts : List Bytes) → length (insert_sorted s ts) ≡ suc (length ts)
unfolding insert_sorted
length-insert_sorted s [] = refl
length-insert_sorted s (t ∷ ts) = ground (arith, length-insert_sorted s ts)

pub length-sort_strings : (ss : List Bytes) → length (sort_strings ss) ≡ length ss
unfolding sort_strings
length-sort_strings [] = refl
length-sort_strings (s ∷ ss) =
    length-insert_sorted s (sort_strings ss) ∙ ap suc (length-sort_strings ss)
