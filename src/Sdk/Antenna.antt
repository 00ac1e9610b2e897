-- ===== src/Sdk/Antenna.antt =====
-- sdk/client_inventory_runtime.go `nextInventoryAntenna`: the next enabled antenna in turn.
use guhfrtui.Base.{
  ℕ, zero, suc, ◌+◌, ◌-◌, ◌%◌, ◌^◌, ◌≤◌, ◌<◌, ◌≡◌, refl, sym, ap, subst, ◌∙◌, inl, inr, Bool, true,
  false, not, List, [], ◌∷◌, nat_beq, nat_eq, ==_refl, ltb, if◌then◌else◌, bit_and, bit_or, arith,
  Bool-cases,
}
use guhfrtui.Base.Sets.{has}
use guhfrtui.Base.Int.{ℤ, pos, negsuc}

-- `((start % 8) + 8) % 8`, where Go's `%` has the sign of the dividend.
unfoldable pub wrap8 : ℤ → ℕ
wrap8 (pos n) = (n % 8 + 8) % 8
wrap8 (negsuc n) = (8 - (n + 1) % 8) % 8

-- `mask&(byte(1)<<idx) != 0`
abbrev pub is_enabled : ℕ → ℕ → Bool
is_enabled mask idx = not (nat_beq (bit_and mask (2 ^ idx)) 0)

-- The loop: `left` rounds are left, `i` is the next.
unfoldable pub find_antenna : ℕ → ℕ → ℕ → ℕ → ℕ × ℕ
find_antenna zero mask start i = (0x80, start)
find_antenna (suc left) mask start i =
    let idx = (start + i) % 8 in
    let rest = find_antenna left mask start (i + 1) in
    if is_enabled mask idx then (bit_or 0x80 idx, (idx + 1) % 8) else rest

unfoldable pub next_inventory_antenna : ℕ → ℤ → ℕ × ℕ
unfolding find_antenna wrap8
next_inventory_antenna mask start =
    find_antenna 8 (if nat_beq mask 0 then 0x01 else mask) (wrap8 start) 0

-- The first enabled antenna of those from `start + i` on, `left` of them.
abbrev pub First : ℕ → ℕ → ℕ → ℕ → ℕ × ℕ → Type 0
First left mask start i r =
    (k : ℕ) × (i ≤ k)
    × (k < i + left)
    × (is_enabled mask ((start + k) % 8) ≡ true)
    × ((j : ℕ) → i ≤ j → j < k → is_enabled mask ((start + j) % 8) ≡ false)
    × (r ≡ (bit_or 0x80 ((start + k) % 8), ((start + k) % 8 + 1) % 8))

First-cons :
    (left mask start i : ℕ) (r : ℕ × ℕ)
    → is_enabled mask ((start + i) % 8) ≡ false
    → First left mask start (i + 1) r
    → First (suc left) mask start i r
First-cons left mask start i r off (k, from, to, on, skipped, is) = (
  k,
  omega arith,
  omega arith,
  on,
  (λ j above below. elim (Bool-cases (nat_beq i j)) [
    | inl same ↦
        ground (arith, same, off, ap (λ n. is_enabled mask ((start + n) % 8)) {x = i} {y = j})
    | inr differs ↦ skipped j (ground (arith, differs)) below
  ]),
  is,
)

find_antenna-First :
    (left mask start i : ℕ) (d : ℕ)
    → i ≤ d
    → d < i + left
    → is_enabled mask ((start + d) % 8) ≡ true
    → First left mask start i (find_antenna left mask start i)
unfolding find_antenna
find_antenna-First zero mask start i d from to on = absurd (omega arith)
find_antenna-First (suc left) mask start i d from to on =
    elim (Bool-cases (is_enabled mask ((start + i) % 8))) [
      | inl here ↦
          rw here (i, omega arith, omega arith, here, (λ j above below. absurd (omega arith)), refl)
      | inr gone ↦ rw gone (
          First-cons left mask start i _ gone (
            find_antenna-First left mask start (i + 1) d
              (ground
                (arith, on, gone, ap (λ k. is_enabled mask ((start + k) % 8)) {x = i} {y = d}))
              (omega arith) on))
    ]

-- The mask that counts: antenna 1 where the mask is 0.
abbrev pub effective : ℕ → ℕ
effective mask = if nat_beq mask 0 then 0x01 else mask

wrap8_lem : (start : ℤ) → wrap8 start < 8
unfolding wrap8
wrap8_lem (pos n) = omega arith
wrap8_lem (negsuc n) = omega arith

-- `nextInventoryAntenna` picks, in cyclic order from the start, the first enabled antenna, and the
-- turn goes on behind it; an antenna is enabled if its bit is set in the mask, 1 instead of 0.
pub next_inventory_antenna-First :
    (mask idx : ℕ) (start : ℤ)
    → idx < 8
    → is_enabled (effective mask) idx ≡ true
    → First 8 (effective mask) (wrap8 start) 0 (next_inventory_antenna mask start)
unfolding next_inventory_antenna
next_inventory_antenna-First mask idx start h on =
    let w = wrap8 start in
    find_antenna-First 8 (effective mask) w 0 ((idx + 8 - w) % 8) (omega arith) (omega arith)
      (subst (λ n. is_enabled (effective mask) n ≡ true) (omega (arith, wrap8_lem start)) on)

-- The antennas of the next `n` commands.
unfoldable pub antennas : ℕ → ℕ → ℕ → List ℕ
antennas zero mask start = []
antennas (suc n) mask start =
    let (antenna, next) = next_inventory_antenna mask (pos start) in antenna ∷ antennas n mask next

wrap8-pos : (n : ℕ) → wrap8 (pos n) ≡ n % 8
unfolding wrap8
wrap8-pos n = omega arith

pub antennas-suc :
    (n mask start a next : ℕ)
    → next_inventory_antenna mask (pos start) ≡ (a, next)
    → antennas (suc n) mask start ≡ a ∷ antennas n mask next
unfolding antennas
antennas-suc n mask start a next h = ground (arith, h)

-- How far the antenna with index `idx` is ahead of the start.
abbrev ahead : ℕ → ℕ → ℕ
ahead idx start = (idx + 8 - start % 8) % 8

ahead_reached : (idx w k : ℕ) → idx < 8 → k ≡ ahead idx w → (w % 8 + k) % 8 ≡ idx
ahead_reached idx w k h e = omega arith

ahead_next :
    (idx w k : ℕ) → idx < 8 → k < ahead idx w → ahead idx (((w % 8 + k) % 8 + 1) % 8) < ahead idx w
ahead_next idx w k h e = omega arith

-- The first enabled antenna is not beyond an enabled one.
not_beyond :
    (mask idx start k : ℕ)
    → idx < 8
    → is_enabled mask idx ≡ true
    → ((j : ℕ) → 0 ≤ j → j < k → is_enabled mask ((start % 8 + j) % 8) ≡ false)
    → k ≤ ahead idx start
not_beyond mask idx start k h on skipped = elim (Bool-cases (ltb (ahead idx start) k)) [
  | inl beyond ↦
      let off = skipped (ahead idx start) (omega arith) (ground (arith, beyond)) in
      let same = ap (is_enabled mask) (ahead_reached idx start (ahead idx start) h refl) in
      ground (arith, on, sym same ∙ off)
  | inr fine ↦ ground (arith, fine)
]

visits :
    (n mask idx start : ℕ)
    → idx < 8
    → is_enabled (effective mask) idx ≡ true
    → ahead idx start < n
    → has (bit_or 0x80 idx) (antennas n mask start) ≡ true
unfolding has
visits zero mask idx start h on near = absurd (omega arith)
visits (suc n) mask idx start h on near =
    let (k, from, to, here, skipped, is) = next_inventory_antenna-First mask idx (pos start) h on in
    let x = (wrap8 (pos start) + k) % 8 in
    let runs = antennas-suc n mask start (bit_or 0x80 x) ((x + 1) % 8) is in
    elim (Bool-cases (nat_beq k (ahead idx start))) [
      | inl there ↦ ground (
        arith,
        there,
        runs,
        wrap8-pos start,
        ahead_reached idx start k h,
        ==_refl (bit_or 0x80 idx),
      )
      | inr not_yet ↦
          let w = wrap8-pos start in
          let up_to = not_beyond (effective mask) idx start k h on (
            subst (λ v. (j : ℕ) → 0 ≤ j → j < k → is_enabled (effective mask) ((v + j) % 8) ≡ false)
              w skipped) in
          let nearer = ahead_next idx start k h (ground (arith, up_to, not_yet)) in
          let later =
            visits n mask idx (((start % 8 + k) % 8 + 1) % 8) h on (omega (arith, nearer, near)) in
          ground (arith, runs, w, later)
    ]

-- Eight antennas in turn reach each enabled one.
pub visited_in_turn :
    (mask idx start : ℕ)
    → idx < 8
    → is_enabled (effective mask) idx ≡ true
    → has (bit_or 0x80 idx) (antennas 8 mask start) ≡ true
visited_in_turn mask idx start h on = visits 8 mask idx start h on (omega arith)
