-- ===== src/Reader18/Packet/Detect.antt =====
-- What `VerifyPacket` rules out.
use guhfrtui.Base.{
  ℕ, ◌≡◌, ◌≢◌, sym, ◌∙◌, true, false, inl, inr, ◌∷◌, ◌++◌, All, All-append, Bool-cases, IsByte,
  Bytes,
}
use guhfrtui.Reader18.Crc.Laws.{crc16_one_byte}
use guhfrtui.Reader18.Packet.{verify_packet}
use guhfrtui.Reader18.Packet.Verify.{accepted_residue}

-- If a packet passes `VerifyPacket`, the same packet with any one of its bytes changed, the
-- length and checksum bytes included, does not.
pub verify_detects :
    (pre post : Bytes) (x y : ℕ)
    → All IsByte pre
    → All IsByte post
    → IsByte x
    → IsByte y
    → verify_packet (pre ++ x ∷ post) ≡ true
    → y ≢ x
    → verify_packet (pre ++ y ∷ post) ≡ false
verify_detects pre post x y hp hs hx hy ok ne =
    elim (Bool-cases (verify_packet (pre ++ y ∷ post))) [
      | inl bad ↦ absurd (
          ne (
            crc16_one_byte pre post y x hp hs hy hx (
              accepted_residue (pre ++ y ∷ post) (All-append IsByte pre (y ∷ post) hp (hy, hs)) bad
              ∙ sym (
                  accepted_residue (pre ++ x ∷ post) (All-append IsByte pre (x ∷ post) hp (hx, hs))
                    ok))))
      | inr refused ↦ refused
    ]
