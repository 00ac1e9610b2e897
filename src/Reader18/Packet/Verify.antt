-- ===== src/Reader18/Packet/Verify.antt =====
-- `VerifyPacket` characterised: which packets it accepts, also of those that `BuildCommand` makes.
use guhfrtui.Base.{
  ℕ, ◌+◌, ◌-◌, ◌/◌, ◌%◌, ◌≤◌, ◌≡◌, refl, ap, ap₂, ◌∙◌, not, true, ◌&&◌, [], ◌∷◌, ◌++◌, arith,
  length, take, get_or, get_or-append_last, length-append, take-append_length, ltb, nat_beq, All,
  All-take, IsByte, Bytes,
}
use guhfrtui.Reader18.Crc.{crc16}
use guhfrtui.Reader18.Crc.Laws.{crc_from-append, crc_from-residue, crc16-lt}
use guhfrtui.Reader18.Packet.{crc_low, crc_high, build_command, verify_packet}

-- A packet is its body and its last two bytes.
pub split_tail :
    (p : Bytes)
    → 2 ≤ length p
    → p ≡ take (length p - 2) p ++ (get_or p (length p - 2) 0 ∷ get_or p (length p - 1) 0 ∷ [])
split_tail [] h = absurd (omega arith)
split_tail (x ∷ []) h = absurd (omega arith)
split_tail (x ∷ y ∷ []) h = refl
split_tail (x ∷ y ∷ z ∷ p) h = let ih = split_tail (y ∷ z ∷ p) (omega arith) in ground (arith, ih)

module _ (h : ℕ) (t : Bytes) (lo hi : ℕ) where
  abbrev sealed : Bytes
  sealed = h ∷ t ++ (lo ∷ hi ∷ [])

  length-sealed : length sealed ≡ length t + 3
  length-sealed = omega (arith, length-append (h ∷ t) (lo ∷ hi ∷ []))

  take-sealed : take (length sealed - 2) sealed ≡ h ∷ t
  take-sealed =
      take-append_length (length sealed - 2) (h ∷ t) (lo ∷ hi ∷ []) (omega (arith, length-sealed))

  low_sealed : get_or sealed (length sealed - 2) 0 ≡ lo
  low_sealed =
      ap (λ (i : ℕ). get_or sealed i 0) (omega (arith, length-sealed))
      ∙ get_or-append_last (h ∷ t) (lo ∷ hi ∷ []) 0 0

  high_sealed : get_or sealed (length sealed - 1) 0 ≡ hi
  high_sealed =
      ap (λ (i : ℕ). get_or sealed i 0) (omega (arith, length-sealed))
      ∙ get_or-append_last (h ∷ t) (lo ∷ hi ∷ []) 0 1

  -- `VerifyPacket` on a body of at least one byte and two checksum bytes.
  pub verify_packet_sealed : verify_packet (h ∷ t ++ (lo ∷ hi ∷ [])) ≡ (
      not (ltb (length t) 3)
      && nat_beq (h + 1) (length t + 3)
      && nat_beq (crc_low (crc16 (h ∷ t))) lo
      && nat_beq (crc_high (crc16 (h ∷ t))) hi)
  unfolding verify_packet
  verify_packet_sealed =
      ground (arith, length-sealed, ap crc16 take-sealed, low_sealed, high_sealed)

-- A built packet is accepted exactly when it has a payload: without one it is a five-byte
-- command, and shorter than any response.
pub verify-build_command :
    (address command : ℕ) (payload : Bytes)
    → length payload ≤ 251
    → verify_packet (build_command address command payload) ≡ ltb 0 (length payload)
unfolding build_command
verify-build_command address command payload h =
    verify_packet_sealed ((length payload + 4) % 256) (address ∷ command ∷ payload) _ _
    ∙ ground arith

module _ (p : Bytes) (bytes : All IsByte p) (accepted : verify_packet p ≡ true) where
  pub accepted_length : 6 ≤ length p
  unfolding verify_packet
  accepted_length = ground arith

  pub accepted_header : get_or p 0 0 + 1 ≡ length p
  unfolding verify_packet
  accepted_header = ground arith

  accepted_tail :
      (get_or p (length p - 2) 0 ≡ crc16 (take (length p - 2) p) % 256)
      × (get_or p (length p - 1) 0 ≡ crc16 (take (length p - 2) p) / 256 % 256)
  unfolding verify_packet
  accepted_tail = ground arith

  -- The checksum over a whole accepted packet, checksum bytes included, is zero.
  pub accepted_residue : crc16 p ≡ 0
  unfolding crc16
  accepted_residue =
      ap crc16 (split_tail p (omega (arith, accepted_length)))
      ∙ ap₂ (λ (a b : ℕ). crc16 (take (length p - 2) p ++ (a ∷ b ∷ []))) accepted_tail.0
          accepted_tail.1
      ∙ crc_from-append (take (length p - 2) p) _ 0xFFFF
      ∙ crc_from-residue (crc16 (take (length p - 2) p))
          (crc16-lt (take (length p - 2) p) (All-take IsByte (length p - 2) p bytes))
