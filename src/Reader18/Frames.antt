-- ===== src/Reader18/Frames.antt =====
-- protocol.go `ParseFrames`: the loop that cuts a byte stream into frames.
pub mod Stream
pub mod Scan
pub mod Wire
use guhfrtui.Base.{
  ℕ, zero, suc, ◌+◌, ◌-◌, Bool, true, false, List, [], ◌∷◌, length, take, drop, get_or, ltb,
  if◌then◌else◌, Bytes,
}
use guhfrtui.Reader18.Packet.{Frame, verify_packet}

-- What one round of the loop does with the buffer: break off, drop a byte, or take a frame.
pub data Action : Type 0 where
  wait skip emit : Action

-- `int(buf[0]) + 1`
abbrev pub total : Bytes → ℕ
total buf = get_or buf 0 0 + 1

unfoldable pub action : Bytes → Action
action buf =
    if ltb (length buf) 6
    then wait
    else if ltb (total buf) 6
    then skip
    else if ltb (length buf) (total buf)
    then wait
    else if verify_packet (take (total buf) buf)
    then emit
    else skip

-- The frame that is read off `raw`.
abbrev pub frame_of : Bytes → Frame
frame_of raw = record {
  length_byte = get_or raw 0 0;
  address = get_or raw 1 0;
  command = get_or raw 2 0;
  status = get_or raw 3 0;
  payload = take (length raw - 6) (drop 4 raw);
  raw = raw;
  crc_valid = true;
}

abbrev pub Parsed : Type 0
Parsed = List Frame × Bytes

abbrev pub prepend : Frame → Parsed → Parsed
prepend f (fs, rest) = (f ∷ fs, rest)

-- The loop; each round that goes on shortens the buffer.
unfoldable pub parse_loop : ℕ → Bytes → Parsed
parse_loop zero buf = ([], buf)
parse_loop (suc fuel) buf = elim (action buf) [
  | wait ↦ ([], buf)
  | skip ↦ parse_loop fuel (drop 1 buf)
  | emit ↦ prepend (frame_of (take (total buf) buf)) (parse_loop fuel (drop (total buf) buf))
]

unfoldable pub parse_frames : Bytes → Parsed
unfolding parse_loop action
parse_frames stream = parse_loop (length stream) stream
