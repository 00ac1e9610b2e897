-- ===== src/Tui/Frames.antt =====
-- internal/tui/update_frames.go: what the terminal interface does with a frame. The status line and the
-- log are not modelled.
pub mod Reads
use guhfrtui.Base.{
  ℕ, ◌+◌, bit_xor, Bool, true, false, not, ◌&&◌, ◌||◌, List, [], ◌∷◌, ◌++◌, Option, none, some,
  length, take, nat_beq, ltb, leb, if◌then◌else◌, bytes_eq, Bytes,
}
use guhfrtui.Base.Sets.{has, insert}
use guhfrtui.Text.{is_empty}
use guhfrtui.Text.Parts.{codes}
use guhfrtui.Reader18.Packet.{Frame}
use guhfrtui.Reader18.Commands.{
  cmd_inventory, cmd_inventory_single, cmd_get_reader_info, status_success, status_no_tag,
  status_no_tag_or_timeout,
}
use guhfrtui.Reader18.Inventory.{
  Tag, SingleInventoryResult, Result, ok, err, parse_inventory_g2_tags,
  parse_single_inventory_result,
}
use guhfrtui.Sdk.Client.{is_no_tag_status, epc_text}

-- The fields that frames change, and those that decide. `handed` has the EPCs given to the bot's
-- client by onNewEPC, the last one first.
pub record Model : Type 0 where
  pub inventory_running : Bool
  pub auto_addr : Bool
  pub address : ℕ
  pub session : ℕ
  pub target : ℕ
  pub no_tag_ab : ℕ
  pub no_tag_hit : ℕ
  pub last_epc : Bytes
  pub last_antenna : ℕ
  pub last_rssi : ℕ
  pub tag_total : ℕ
  pub seen : List Bytes
  pub awaiting_probe : Bool
  pub handed : List Bytes

unfoldable pub new_model : Model
new_model = record {
  inventory_running = false;
  auto_addr = true;
  address = 0x00;
  session = 0x01;
  target = 0x00;
  no_tag_ab = 4;
  no_tag_hit = 0;
  last_epc = [];
  last_antenna = 0;
  last_rssi = 0;
  tag_total = 0;
  seen = [];
  awaiting_probe = false;
  handed = [];
}

-- formatHex with at most 96 bytes, without its blanks.
unfoldable pub tag_text : Bytes → Bytes
unfolding epc_text
tag_text epc = if ltb 96 (length epc) then epc_text (take 96 epc) ++ codes "..." else epc_text epc

unfoldable pub on_no_tag_observed : Model → Model
on_no_tag_observed m =
    let hit = m.no_tag_hit + 1 in
    if not m.inventory_running
    then m
    else if leb m.session 1 || nat_beq m.no_tag_ab 0
    then record m { no_tag_hit = hit }
    else if leb m.no_tag_ab hit
    then record m { target = bit_xor m.target 0x01; no_tag_hit = 0 }
    else record m { no_tag_hit = hit }

-- The first time that an EPC is read.
unfoldable pub note_epc : Bytes → Model → Model
note_epc text m = if has text m.seen then m else record m {
  seen = insert text m.seen;
  tag_total = m.tag_total + 1;
  handed = text ∷ m.handed;
}

unfoldable pub take_tag : Tag → Model → Model
unfolding tag_text note_epc
take_tag t m =
    let text = tag_text t.epc in
    if is_empty text
    then m
    else note_epc text (record m { last_epc = text; last_antenna = t.antenna; last_rssi = t.rssi })

unfoldable pub take_tags : List Tag → Model → Model
unfolding take_tag
take_tags [] m = m
take_tags (t ∷ ts) m = take_tags ts (take_tag t m)

-- A single inventory's EPC may be empty.
unfoldable pub take_single : SingleInventoryResult → Model → Model
unfolding tag_text note_epc on_no_tag_observed
take_single r m =
    let text = tag_text r.epc in
    if ltb 0 r.tag_count
    then note_epc text
        (record m { last_epc = text; last_antenna = r.antenna; last_rssi = 0; no_tag_hit = 0 })
    else on_no_tag_observed m

-- What both kinds of inventory frame do first.
unfoldable pub detect_address : Frame → Model → Model
detect_address frame m = record m {
  awaiting_probe = false;
  address = if m.auto_addr then frame.address else m.address;
  auto_addr = false;
}

unfoldable pub take_g2 : Frame → Result (List Tag) → Model → Model
unfolding take_tags on_no_tag_observed
take_g2 frame (err e) m = m
take_g2 frame (ok []) m =
    if nat_beq frame.status status_success
    then m
    else if is_no_tag_status frame.status
    then on_no_tag_observed m
    else m
take_g2 frame (ok (t ∷ ts)) m = take_tags (t ∷ ts) (record m { no_tag_hit = 0 })

unfoldable pub take_single_result : Result SingleInventoryResult → Model → Model
unfolding take_single
take_single_result (err e) m = m
take_single_result (ok r) m = take_single r m

unfoldable pub handle_protocol_frame : Frame → Model → Model
unfolding detect_address take_g2 take_single_result on_no_tag_observed parse_inventory_g2_tags
    parse_single_inventory_result
handle_protocol_frame frame m =
    let detected = detect_address frame m in
    if nat_beq frame.command cmd_inventory
    then take_g2 frame (parse_inventory_g2_tags frame) detected
    else if nat_beq frame.command cmd_inventory_single
    then if nat_beq frame.status status_no_tag
      then take_single_result (parse_single_inventory_result frame) detected
      else if nat_beq frame.status status_no_tag_or_timeout
      then on_no_tag_observed detected
      else detected
    else if nat_beq frame.command cmd_get_reader_info
    then record m { awaiting_probe = false }
    else m

unfoldable pub handle_frames : List Frame → Model → Model
unfolding handle_protocol_frame
handle_frames [] m = m
handle_frames (f ∷ fs) m = handle_frames fs (handle_protocol_frame f m)
