-- ===== src/Sdk/Config.antt =====
-- sdk/types.go: `InventoryConfig`, its defaults, `normalizeConfig` and `EffectiveInterval`.
use guhfrtui.Base.{
  ℕ, ◌*◌, ◌≤◌, ◌≡◌, refl, Bool, true, false, [], ◌∷◌, All, ltb, leb, nat_beq, if◌then◌else◌, Bytes,
  arith, max,
}
use guhfrtui.Base.Int.{ℤ, pos, negsuc, int_lt}

-- Durations are nanoseconds.
abbrev pub millisecond : ℕ
millisecond = 1000000

pub record InventoryConfig : Type 0 where
  pub reader_address : ℕ
  pub auto_address : Bool
  pub q_value : ℕ
  pub session : ℕ
  pub target : ℕ
  pub antenna_mask : ℕ
  pub scan_time : ℕ
  pub poll_interval : ℤ
  pub output_power : ℕ
  pub region_set : Bool
  pub region_high : ℕ
  pub region_low : ℕ
  pub per_antenna_power : Bytes
  pub no_tag_ab_switch : ℤ
  pub single_fallback_each : ℤ

abbrev pub default_inventory_config : InventoryConfig
default_inventory_config = record {
  reader_address = 0;
  auto_address = true;
  q_value = 0x04;
  session = 0x01;
  target = 0x00;
  antenna_mask = 0x01;
  scan_time = 0x01;
  poll_interval = pos (40 * millisecond);
  output_power = 0x1E;
  region_set = false;
  region_high = 0;
  region_low = 0;
  per_antenna_power = [];
  no_tag_ab_switch = pos 4;
  single_fallback_each = pos 6;
}

unfoldable pub effective_interval : InventoryConfig → ℕ
effective_interval c =
    let shortest = c.scan_time * 100 * millisecond in
    let least = if ltb shortest (40 * millisecond) then 40 * millisecond else shortest in
    elim c.poll_interval [
      | pos interval ↦ if ltb least interval then interval else least
      | negsuc _ ↦ least
    ]

unfoldable pub cap_powers : Bytes → Bytes
cap_powers [] = []
cap_powers (p ∷ ps) = (if ltb 0x1E p then 0x1E else p) ∷ cap_powers ps

abbrev pub not_negative : ℤ → ℤ
not_negative (pos n) = pos n
not_negative (negsuc n) = pos 0

abbrev or_default_interval : ℤ → ℤ
or_default_interval (pos n) = if leb n 0 then pos (40 * millisecond) else pos n
or_default_interval (negsuc n) = pos (40 * millisecond)

-- The copy that `cloneInventoryConfig` makes of the powers is not told apart from the original.
unfoldable pub normalize_config : InventoryConfig → InventoryConfig
unfolding cap_powers
normalize_config cfg = record cfg {
  antenna_mask = if nat_beq cfg.antenna_mask 0 then 0x01 else cfg.antenna_mask;
  scan_time = if nat_beq cfg.scan_time 0 then 0x01 else cfg.scan_time;
  output_power = if ltb 0x1E cfg.output_power then 0x1E else cfg.output_power;
  poll_interval = or_default_interval cfg.poll_interval;
  single_fallback_each = not_negative cfg.single_fallback_each;
  no_tag_ab_switch = not_negative cfg.no_tag_ab_switch;
  per_antenna_power = cap_powers cfg.per_antenna_power;
}

-- What the reader's firmware accepts, and what the inventory loop relies on.
pub record IsNormal (c : InventoryConfig) : Type 0 where
  pub some_antenna : 1 ≤ c.antenna_mask
  pub some_time : 1 ≤ c.scan_time
  pub power : c.output_power ≤ 30
  pub powers : All (λ p. p ≤ 30) c.per_antenna_power
  pub interval : int_lt (pos 0) c.poll_interval ≡ true
  pub fallback : int_lt c.single_fallback_each (pos 0) ≡ false
  pub switch : int_lt c.no_tag_ab_switch (pos 0) ≡ false

cap_powers-All : (ps : Bytes) → All (λ p. p ≤ 30) (cap_powers ps)
unfolding cap_powers
cap_powers-All [] = tt
cap_powers-All (p ∷ ps) = (ground arith, cap_powers-All ps)

or_default-pos : (i : ℤ) → int_lt (pos 0) (or_default_interval i) ≡ true
or_default-pos (pos n) = ground arith
or_default-pos (negsuc n) = ground arith

not_negative-pos : (i : ℤ) → int_lt (not_negative i) (pos 0) ≡ false
not_negative-pos (pos n) = ground arith
not_negative-pos (negsuc n) = ground arith

normalize_config-IsNormal : (c : InventoryConfig) → IsNormal (normalize_config c)
unfolding normalize_config
normalize_config-IsNormal c = record {
  some_antenna = ground arith;
  some_time = ground arith;
  power = ground arith;
  powers = cap_powers-All c.per_antenna_power;
  interval = or_default-pos c.poll_interval;
  fallback = not_negative-pos c.single_fallback_each;
  switch = not_negative-pos c.no_tag_ab_switch;
}

cap_powers_same : (ps : Bytes) → All (λ p. p ≤ 30) ps → cap_powers ps ≡ ps
unfolding cap_powers
cap_powers_same [] h = refl
cap_powers_same (p ∷ ps) h = ground (arith, h.0, cap_powers_same ps h.1)

or_default_same : (i : ℤ) → int_lt (pos 0) i ≡ true → or_default_interval i ≡ i
or_default_same (pos n) h = ground (arith, h)
or_default_same (negsuc n) h = ground (arith, h)

not_negative_same : (i : ℤ) → int_lt i (pos 0) ≡ false → not_negative i ≡ i
not_negative_same (pos n) h = ground (arith, h)
not_negative_same (negsuc n) h = ground (arith, h)

normalize_config_same : (c : InventoryConfig) → IsNormal c → normalize_config c ≡ c
unfolding normalize_config
normalize_config_same c n = ground (
  arith,
  n.some_antenna,
  n.some_time,
  n.power,
  cap_powers_same c.per_antenna_power n.powers,
  or_default_same c.poll_interval n.interval,
  not_negative_same c.single_fallback_each n.fallback,
  not_negative_same c.no_tag_ab_switch n.switch,
)

-- `normalizeConfig` leaves a configuration within the limits: an antenna, a scan time, a positive
-- interval, powers of at most 30 and no negative count. Normalizing it again changes nothing.
pub normalize_config_lem :
    (c : InventoryConfig)
    → IsNormal (normalize_config c) × (normalize_config (normalize_config c) ≡ normalize_config c)
normalize_config_lem c = (
  normalize_config-IsNormal c,
  normalize_config_same (normalize_config c) (normalize_config-IsNormal c),
)

-- The interval of the loop is the longest of 40 ms, a tenth of a second per unit of scan time, and
-- the poll interval.
pub effective_interval_lem :
    (c : InventoryConfig) (n : ℕ)
    → c.poll_interval ≡ pos n
    → effective_interval c ≡ max (max (40 * millisecond) (c.scan_time * 100 * millisecond)) n
unfolding effective_interval
effective_interval_lem c n h = ground (arith, h)
