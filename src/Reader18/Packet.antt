-- ===== src/Reader18/Packet.antt =====
-- protocol.go `Frame`, `BuildCommand`, `VerifyPacket`: one packet on the wire,
-- Len(1) Adr(1) Cmd(1) Data(n) CRC_L(1) CRC_H(1), where a response's first data byte is its status.
pub mod Verify
pub mod Detect
use guhfrtui.Base.{
  ℕ, ◌+◌, ◌-◌, ◌/◌, ◌%◌, Bool, true, false, not, ◌&&◌, List, [], ◌∷◌, ◌++◌, length, take, drop,
  get_or, ltb, nat_beq, if◌then◌else◌, Bytes,
}
use guhfrtui.Reader18.Crc.{crc16}

pub record Frame : Type 0 where
  pub length_byte : ℕ
  pub address : ℕ
  pub command : ℕ
  pub status : ℕ
  pub payload : Bytes
  pub raw : Bytes
  pub crc_valid : Bool

-- `byte(crc & 0xFF)` and `byte(crc >> 8)`.
abbrev pub crc_low : ℕ → ℕ
crc_low crc = crc % 256

abbrev pub crc_high : ℕ → ℕ
crc_high crc = crc / 256 % 256

-- The packet before its checksum. `byte(len(payload) + 4)` wraps.
abbrev pub packet_body : ℕ → ℕ → Bytes → Bytes
packet_body address command payload = (length payload + 4) % 256 ∷ address ∷ command ∷ payload

unfoldable pub build_command : ℕ → ℕ → Bytes → Bytes
build_command address command payload =
    let body = packet_body address command payload in
    let crc = crc16 body in body ++ (crc_low crc ∷ crc_high crc ∷ [])

unfoldable pub verify_packet : Bytes → Bool
verify_packet packet =
    let n = length packet in
    if ltb n 6
    then false
    else if not (nat_beq (get_or packet 0 0 + 1) n)
    then false
    else let crc = crc16 (take (n - 2) packet) in
      nat_beq (crc_low crc) (get_or packet (n - 2) 0)
      && nat_beq (crc_high crc) (get_or packet (n - 1) 0)
