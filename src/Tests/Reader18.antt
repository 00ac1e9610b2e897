-- ===== src/Tests/Reader18.antt =====
-- Packets of a reader at address 0.
use guhfrtui.Base.{◌≡◌, refl, true, false, [], ◌∷◌, ◌++◌, map, Bytes, arith, ◌↔◌}
use guhfrtui.Reader18.Crc.{crc16}
use guhfrtui.Reader18.Packet.{Frame, build_command, verify_packet}
use guhfrtui.Reader18.Packet.Detect.{verify_detects}
use guhfrtui.Reader18.Frames.{parse_frames}
use guhfrtui.Reader18.Frames.Stream.{
  IsIncomplete, resume, parse_frames-append, parse_frames-IsIncomplete,
}
use guhfrtui.Reader18.Frames.Scan.{Scans, parse_frames-Scans}
use guhfrtui.Reader18.Frames.Wire.{Response, wire, wires, received, parse_frames-wires}
use guhfrtui.Reader18.Inventory.{ok, antenna_id_from_mask, parse_inventory_g2_tags}
use guhfrtui.Reader18.Inventory.Tags.{Spells, parse_inventory_g2_tags_iff}

-- An inventory response: antenna 2, one tag E210 at -60 or so.
abbrev answer : Response
answer = record {
  address = 0;
  command = 1;
  status = 0;
  payload = 2 ∷ 1 ∷ 2 ∷ 0xE2 ∷ 0x10 ∷ 60 ∷ [];
}

-- Noise ahead of it.
abbrev noise : Bytes
noise = 9 ∷ 3 ∷ []

abbrev frame : Frame
frame = received answer

abbrev empty_frame : Frame
empty_frame = received (record { address = 0; command = 1; status = 0; payload = 4 ∷ 0 ∷ [] })

abbrev single_frame : Frame
single_frame =
    received
      (record { address = 0; command = 0x0F; status = 1; payload = 1 ∷ 1 ∷ 2 ∷ 0xE2 ∷ 0x10 ∷ [] })

parses : parse_frames (noise ++ wire answer ++ noise) ≡ (frame ∷ [], noise)
unfolding parse_frames build_command verify_packet crc16
parses = refl

parse_frames-append_example :
    parse_frames (noise ++ wire answer) ≡ resume (parse_frames noise) (wire answer)
parse_frames-append_example = parse_frames-append noise (wire answer)

parse_frames-wires_example :
    parse_frames (wires (answer ∷ answer ∷ []) ++ noise)
    ≡ (map received (answer ∷ answer ∷ []), noise)
parse_frames-wires_example =
    parse_frames-wires (answer ∷ answer ∷ []) noise (omega arith, (omega arith, tt)) (omega arith)

parse_frames-Scans_example :
    Scans
      (noise ++ wire answer)
      (parse_frames (noise ++ wire answer)).0
      (parse_frames (noise ++ wire answer)).1
parse_frames-Scans_example = parse_frames-Scans (noise ++ wire answer)

parse_frames-IsIncomplete_example : IsIncomplete (parse_frames (noise ++ wire answer)).1
parse_frames-IsIncomplete_example = parse_frames-IsIncomplete (noise ++ wire answer)

-- The payload byte is changed.
verify_detects_example : verify_packet ((5 ∷ 0 ∷ 0x21 ∷ []) ++ 8 ∷ 34 ∷ 35 ∷ []) ≡ false
verify_detects_example =
    verify_detects (5 ∷ 0 ∷ 0x21 ∷ []) (34 ∷ 35 ∷ []) 7 8
      (omega arith, (omega arith, (omega arith, tt))) (omega arith, (omega arith, tt)) (omega arith)
      (omega arith) passes (λ e. absurd (omega (arith, e)))
  where
    passes : verify_packet ((5 ∷ 0 ∷ 0x21 ∷ []) ++ 7 ∷ 34 ∷ 35 ∷ []) ≡ true
    passes = unfold verify_packet crc16 in refl

parse_inventory_g2_tags_iff_example :
    (parse_inventory_g2_tags frame
      ≡ ok (record { antenna = 2; epc = 0xE2 ∷ 0x10 ∷ []; rssi = 60 } ∷ []))
    ↔ Spells
        (antenna_id_from_mask 2)
        1
        (2 ∷ 0xE2 ∷ 0x10 ∷ 60 ∷ [])
        (record { antenna = 2; epc = 0xE2 ∷ 0x10 ∷ []; rssi = 60 } ∷ [])
parse_inventory_g2_tags_iff_example =
    parse_inventory_g2_tags_iff frame 2 1 (2 ∷ 0xE2 ∷ 0x10 ∷ 60 ∷ []) refl refl
      (record { antenna = 2; epc = 0xE2 ∷ 0x10 ∷ []; rssi = 60 } ∷ [])
