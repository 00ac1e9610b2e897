-- ===== src/Reader18/Frames/Wire.antt =====
-- `ParseFrames` on responses that a reader sends in the packet format.
use guhfrtui.Base.{
  ℕ, ◌+◌, ◌-◌, ◌≤◌, ◌<◌, ◌≡◌, refl, ap, ap₂, ◌∙◌, true, List, [], ◌∷◌, ◌++◌, map, arith, length,
  take, drop, get_or, length-append, take-append_length, drop-append_length, append_assoc, All,
  Bytes,
}
use guhfrtui.Reader18.Packet.{Frame, build_command}
use guhfrtui.Reader18.Packet.Verify.{verify-build_command}
use guhfrtui.Reader18.Frames.{wait, emit, total, action, frame_of, prepend, parse_frames}
use guhfrtui.Reader18.Frames.Stream.{parse_frames-wait, parse_frames-emit}

-- What a reader answers: the packet format with a status byte ahead of the data.
pub record Response : Type 0 where
  pub address : ℕ
  pub command : ℕ
  pub status : ℕ
  pub payload : Bytes

-- The length byte holds it.
abbrev pub Fits : Response → Type 0
Fits r = length r.payload ≤ 250

abbrev pub wire : Response → Bytes
wire r = build_command r.address r.command (r.status ∷ r.payload)

abbrev pub wires : List Response → Bytes
wires [] = []
wires (r ∷ rs) = wire r ++ wires rs

abbrev pub received : Response → Frame
received r = record {
  length_byte = length r.payload + 5;
  address = r.address;
  command = r.command;
  status = r.status;
  payload = r.payload;
  raw = wire r;
  crc_valid = true;
}

module _ (r : Response) (fits : Fits r) where
  length-wire : length (wire r) ≡ length r.payload + 6
  unfolding build_command
  length-wire = omega (arith, length-append r.payload _)

  head_wire : (rest : Bytes) → total (wire r ++ rest) ≡ length r.payload + 6
  unfolding build_command
  head_wire rest = omega arith

  action_wire : (rest : Bytes) → action (wire r ++ rest) ≡ emit
  unfolding action
  action_wire rest = ground (
    arith,
    length-append (wire r) rest,
    length-wire,
    head_wire rest,
    take-append_length (total (wire r ++ rest)) (wire r) rest,
    verify-build_command r.address r.command (r.status ∷ r.payload),
  )

  payload_wire : take (length (wire r) - 6) (drop 4 (wire r)) ≡ r.payload
  unfolding build_command
  payload_wire = take-append_length (length (wire r) - 6) r.payload _ (omega (arith, length-wire))

  header_wire : get_or (wire r) 0 0 ≡ length r.payload + 5
  unfolding build_command
  header_wire = omega arith

  fields_wire :
      (get_or (wire r) 1 0 ≡ r.address)
      × (get_or (wire r) 2 0 ≡ r.command)
      × (get_or (wire r) 3 0 ≡ r.status)
  unfolding build_command
  fields_wire = (refl, refl, refl)

  frame_of-wire : frame_of (wire r) ≡ received r
  frame_of-wire = λ i. record {
    length_byte = header_wire i;
    address = fields_wire.0 i;
    command = fields_wire.1 i;
    status = fields_wire.2 i;
    payload = payload_wire i;
    raw = wire r;
    crc_valid = true;
  }

  parse_frames-wire :
      (rest : Bytes) → parse_frames (wire r ++ rest) ≡ prepend (received r) (parse_frames rest)
  parse_frames-wire rest =
      parse_frames-emit (wire r ++ rest) (action_wire rest)
      ∙ ap₂ (λ (x y : Bytes). prepend (frame_of x) (parse_frames y))
          (take-append_length (total (wire r ++ rest)) (wire r) rest
            (omega (arith, length-wire, head_wire rest)))
          (drop-append_length (total (wire r ++ rest)) (wire r) rest
            (omega (arith, length-wire, head_wire rest)))
      ∙ ap (λ f. prepend f (parse_frames rest)) frame_of-wire

-- Any row of responses that fit their length byte is read back frame by frame, with every field,
-- and a tail too short to be a packet is kept for the next call.
pub parse_frames-wires :
    (rs : List Response) (tail : Bytes)
    → All Fits rs
    → length tail < 6
    → parse_frames (wires rs ++ tail) ≡ (map received rs, tail)
parse_frames-wires [] tail fits short = parse_frames-wait tail (too_short tail short)
  where
    too_short : (t : Bytes) → length t < 6 → action t ≡ wait
    too_short t h = unfold action in ground arith
parse_frames-wires (r ∷ rs) tail fits short =
    ap parse_frames (append_assoc (wire r) (wires rs) tail)
    ∙ parse_frames-wire r fits.0 (wires rs ++ tail)
    ∙ ap (prepend (received r)) (parse_frames-wires rs tail fits.1 short)
