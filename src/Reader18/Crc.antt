-- ===== src/Reader18/Crc.antt =====
-- protocol.go `crc16MCRF4XX`: CRC-16, polynomial 0x8408 reflected, initial value 0xFFFF.
pub mod Laws
use guhfrtui.Base.{
  ℕ, zero, suc, ◌/◌, List, [], ◌∷◌, Bytes, bit_and, bit_xor, nat_beq, not, if◌then◌else◌,
}

-- The body of the inner loop on `crc`.
pub shift : ℕ → ℕ
shift crc = if not (nat_beq (bit_and crc 1) 0) then bit_xor (crc / 2) 0x8408 else crc / 2

-- The inner loop, `n` rounds of it.
pub rounds : ℕ → ℕ → ℕ
rounds zero crc = crc
rounds (suc n) crc = rounds n (shift crc)

-- One byte of the outer loop.
pub crc_byte : ℕ → ℕ → ℕ
crc_byte crc b = rounds 8 (bit_xor crc b)

-- The outer loop from the register `crc`.
pub crc_from : ℕ → Bytes → ℕ
crc_from crc [] = crc
crc_from crc (b ∷ bs) = crc_from (crc_byte crc b) bs

unfoldable pub crc16 : Bytes → ℕ
unfolding shift rounds crc_byte crc_from
crc16 data_bytes = crc_from 0xFFFF data_bytes
