-- ===== src/Discovery/Scan/Order.antt =====
-- The order of the candidates.
use guhfrtui.Base.{◌≡◌, refl, true, false, ◌&&◌, bytes_eq, bytes_beq_iff, arith}
use guhfrtui.Base.Int.{ℤ, pos, negsuc, int_lt}
use guhfrtui.Base.Sorting.{IsOrder}
use guhfrtui.Text.Sort.{le_strings_total, le_strings_antisym, le_strings_trans}
use guhfrtui.Discovery.{Candidate}
use guhfrtui.Discovery.Scan.{less, le_candidate}

int_lt_asym : (a b : ℤ) → int_lt a b ≡ true → int_lt b a ≡ false
int_lt_asym (pos a) (pos b) h = ground (arith, h)
int_lt_asym (pos a) (negsuc b) h = absurd (cc)
int_lt_asym (negsuc a) (pos b) h = refl
int_lt_asym (negsuc a) (negsuc b) h = ground (arith, h)

int_ge_trans : (a b c : ℤ) → int_lt b a ≡ false → int_lt c b ≡ false → int_lt c a ≡ false
int_ge_trans (pos a) (pos b) (pos c) h k = ground (arith, h, k)
int_ge_trans (pos a) (pos b) (negsuc c) h k = absurd (cc)
int_ge_trans (pos a) (negsuc b) c h k = absurd (cc)
int_ge_trans (negsuc a) (pos b) (pos c) h k = refl
int_ge_trans (negsuc a) (pos b) (negsuc c) h k = absurd (cc)
int_ge_trans (negsuc a) (negsuc b) (pos c) h k = refl
int_ge_trans (negsuc a) (negsuc b) (negsuc c) h k = ground (arith, h, k)

int_ge_antisym : (a b : ℤ) → int_lt a b ≡ false → int_lt b a ≡ false → a ≡ b
int_ge_antisym (pos a) (pos b) h k = ground (arith, h, k)
int_ge_antisym (pos a) (negsuc b) h k = absurd (cc)
int_ge_antisym (negsuc a) (pos b) h k = absurd (cc)
int_ge_antisym (negsuc a) (negsuc b) h k = ground (arith, h, k)

le_candidate_total : (a b : Candidate) → le_candidate a b ≡ false → le_candidate b a ≡ true
unfolding le_candidate less
le_candidate_total a b h = ground (
  arith,
  h,
  bytes_beq_iff a.host b.host,
  bytes_beq_iff b.host a.host,
  le_strings_total a.host b.host,
  le_strings_total b.host a.host,
  le_strings_antisym a.host b.host,
  int_lt_asym a.port b.port,
  int_lt_asym b.port a.port,
)

le_candidate_trans :
    (a b c : Candidate)
    → le_candidate a b ≡ true
    → le_candidate b c ≡ true
    → le_candidate a c ≡ true
unfolding le_candidate less
le_candidate_trans a b c h k = ground (
  arith,
  h,
  k,
  bytes_beq_iff b.host a.host,
  bytes_beq_iff c.host b.host,
  bytes_beq_iff c.host a.host,
  le_strings_total a.host b.host,
  le_strings_antisym a.host b.host,
  le_strings_trans a.host b.host c.host,
  int_ge_trans a.port b.port c.port,
)

pub candidate-IsOrder : IsOrder le_candidate
candidate-IsOrder = record { total = le_candidate_total; trans = le_candidate_trans }

-- Two candidates, neither before the other, have the same host and port.
pub le_candidate_antisym :
    (a b : Candidate)
    → (le_candidate a b && le_candidate b a) ≡ true
    → (a.host ≡ b.host) × (a.port ≡ b.port)
unfolding le_candidate less
le_candidate_antisym a b h = ground (
  arith,
  h,
  bytes_beq_iff a.host b.host,
  bytes_beq_iff b.host a.host,
  le_strings_antisym a.host b.host,
  int_ge_antisym a.port b.port,
)
