-- ===== src/BotReader/Region.antt =====
-- `encodeRegion`: the two bytes of a region hold its band and its frequencies.
use guhfrtui.Base.{
  ℕ, ◌+◌, ◌*◌, ◌/◌, ◌%◌, ◌<◌, ◌≡◌, refl, Bool, true, ◌&&◌, arith, nat_beq, bit_and, bit_or,
}
use guhfrtui.Base.Bits.{holds_below, holds_below_at}
use guhfrtui.BotReader.{encode_region}

-- The fields of the two bytes.
abbrev pub band_of : ℕ × ℕ → ℕ
band_of (high, low) = high / 64 * 4 + low / 64

abbrev pub max_of : ℕ × ℕ → ℕ
max_of (high, low) = high % 64

abbrev pub min_of : ℕ × ℕ → ℕ
min_of (high, low) = low % 64

-- Both bytes, for the band and one frequency in one number.
high_ok : ℕ → Bool
high_ok n =
    let high = bit_or (bit_and (n / 64) 0x0C * 16) (bit_and (n % 64) 0x3F) % 256 in
    nat_beq (high / 64) (n / 64 / 4) && nat_beq (high % 64) (n % 64)

low_ok : ℕ → Bool
low_ok n =
    let low = bit_or (bit_and (n / 64) 0x03 * 64) (bit_and (n % 64) 0x3F) % 256 in
    nat_beq (low / 64) (n / 64 % 4) && nat_beq (low % 64) (n % 64)

all_high : holds_below high_ok 1024 ≡ true
unfolding holds_below high_ok
all_high = refl

all_low : holds_below low_ok 1024 ≡ true
unfolding holds_below low_ok
all_low = refl

split_band : (a b : ℕ) → b < 64 → ((a * 64 + b) / 64 ≡ a) × ((a * 64 + b) % 64 ≡ b)
split_band a b h = omega arith

encode_high :
    (band max_fre : ℕ)
    → band < 16
    → max_fre < 64
    → let high = bit_or (bit_and band 0x0C * 16) (bit_and max_fre 0x3F) % 256 in
      (high / 64 ≡ band / 4) × (high % 64 ≡ max_fre)
unfolding high_ok
encode_high band max_fre hb hm =
    let checked = holds_below_at high_ok 1024 (band * 64 + max_fre) all_high (omega arith) in
    let parts = split_band band max_fre hm in
    let here = rw (parts.0, parts.1) at checked in ground (arith, here)

encode_low :
    (band min_fre : ℕ)
    → band < 16
    → min_fre < 64
    → let low = bit_or (bit_and band 0x03 * 64) (bit_and min_fre 0x3F) % 256 in
      (low / 64 ≡ band % 4) × (low % 64 ≡ min_fre)
unfolding low_ok
encode_low band min_fre hb hm =
    let checked = holds_below_at low_ok 1024 (band * 64 + min_fre) all_low (omega arith) in
    let parts = split_band band min_fre hm in
    let here = rw (parts.0, parts.1) at checked in ground (arith, here)

-- The band and both frequencies can be read back from the two bytes that encodeRegion returns, where the
-- band has four bits and the frequencies have six.
pub encode_region_lem :
    (band max_fre min_fre : ℕ)
    → band < 16
    → max_fre < 64
    → min_fre < 64
    → let bytes = encode_region band max_fre min_fre in
      (band_of bytes ≡ band) × (max_of bytes ≡ max_fre) × (min_of bytes ≡ min_fre)
unfolding encode_region
encode_region_lem band max_fre min_fre hb hm hn =
    let high = encode_high band max_fre hb hm in
    let low = encode_low band min_fre hb hn in (omega (arith, high.0, low.0), high.1, low.1)
