-- ===== src/Tests/Tui.antt =====
-- Two candidates, the second preferred, and keys on the page of parameters.
use guhfrtui.Base.{List, refl, true, false, [], ◌∷◌, nat_eq, bytes_eq}
use guhfrtui.Base.Int.{pos, int_eq, int_beq}
use guhfrtui.Base.Sets.{has}
use guhfrtui.Text.{trim_space}
use guhfrtui.Transport.{address}
use guhfrtui.Discovery.{Candidate, open_port}
use guhfrtui.Text.Parts.{codes}
use guhfrtui.Tui.Tune.{new_model}
use guhfrtui.Tui.Tune.Ranges.{Event, key, connection, run, InRange, tune_history-InRange}
use guhfrtui.Reader18.Packet.{Frame}
use guhfrtui.Tui.Frames
use guhfrtui.Tui.Frames.{handle_frames}
use guhfrtui.Tui.Frames.Reads.{Noted, frames_epcs, frames_history-Noted}
use guhfrtui.Tui.ConnectPlan.{candidate_at, build_connect_plan}
use guhfrtui.Tui.ConnectPlan.Plan.{Covers, build_connect_plan-Covers}

abbrev first : Candidate
first = record {
  host = b'a' ∷ [];
  port = pos 2022;
  score = 55;
  banner = [];
  reason = open_port;
  verified = false;
  reader_address = 0;
  protocol = [];
}

abbrev second : Candidate
second = record {
  host = b'b' ∷ [];
  port = pos 80;
  score = 55;
  banner = [];
  reason = open_port;
  verified = true;
  reader_address = 0;
  protocol = [];
}

build_connect_plan-Covers_example :
    Covers
      (address (record { host = b'b' ∷ []; port = pos 5000 }))
      (build_connect_plan (first ∷ second ∷ []) (pos 1) [])
build_connect_plan-Covers_example =
    build_connect_plan-Covers (first ∷ second ∷ []) (pos 1) [] 1 second (pos 5000)
      (unfold candidate_at in refl) (unfold trim_space in refl) (unfold has int_beq in refl)

abbrev keys : List Event
keys =
    key (codes "down")
    ∷ (key (codes "right") ∷ (connection true ∷ (key (codes "9") ∷ (key (codes "enter") ∷ []))))

tune_history-InRange_example : InRange (run keys new_model)
tune_history-InRange_example = tune_history-InRange keys

-- One tag, read twice, and an answer without a tag.
abbrev tag_frame : Frame
tag_frame = record {
  length_byte = 11;
  address = 0;
  command = 0x01;
  status = 0;
  payload = 2 ∷ 1 ∷ 2 ∷ 0xE2 ∷ 0x10 ∷ 60 ∷ [];
  raw = [];
  crc_valid = true;
}

abbrev no_tag_frame : Frame
no_tag_frame = record {
  length_byte = 5;
  address = 0;
  command = 0x01;
  status = 0xFB;
  payload = [];
  raw = [];
  crc_valid = true;
}

abbrev frames : List Frame
frames = tag_frame ∷ (tag_frame ∷ (no_tag_frame ∷ []))

frames_history-Noted_example : Noted (frames_epcs frames) [] (handle_frames frames Frames.new_model)
frames_history-Noted_example = frames_history-Noted frames
