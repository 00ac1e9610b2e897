-- ===== src/Sdk/Frames.antt =====
-- sdk/client_inventory_runtime.go `consumePacket` and the handlers of frames.
use guhfrtui.Base.{
  ℕ, Bool, true, false, ◌&&◌, List, [], ◌∷◌, ◌++◌, length, ltb, nat_beq, if◌then◌else◌, bytes_eq,
  Bytes, drop, ◌-◌,
}
use guhfrtui.Reader18.Packet.{Frame}
use guhfrtui.Reader18.Frames.{parse_frames}
use guhfrtui.Reader18.Commands.{
  cmd_inventory, cmd_inventory_single, cmd_get_reader_info, status_success,
}
use guhfrtui.Reader18.Inventory
use guhfrtui.Reader18.Inventory.{
  Tag, inventory_tag_count, parse_inventory_g2_tags, SingleInventoryResult,
  parse_single_inventory_result,
}
use guhfrtui.Sdk.Client.{
  inventory_g2, inventory_single, reader_info, count_only, Client, emit_status, emit_err,
  record_tag, observe_no_tag,
}

-- The loop over the tags of an inventory response.
unfoldable pub record_tags : List Tag → Client → Client
unfolding record_tag
record_tags [] c = c
record_tags (t ∷ ts) c = record_tags ts (record_tag inventory_g2 t.antenna t.rssi t.epc c)

-- The texts of these errors contain "truncated" or "invalid".
abbrev pub is_reported : Inventory.Error → Bool
is_reported (Inventory.truncated i) = true
is_reported (Inventory.invalid_epc_len i) = true
is_reported _ = false

unfoldable pub after_count : Inventory.Result ℕ → Client → Client
unfolding emit_status
after_count (Inventory.err e) c = c
after_count (Inventory.ok count) c = if ltb 0 count then emit_status (count_only count) c else c

-- A response with a status of success and no tag.
unfoldable pub note_count : Frame → Client → Client
unfolding after_count
note_count frame c = after_count (inventory_tag_count frame) c

unfoldable pub after_inventory : Frame → Inventory.Result (List Tag) → Client → Client
unfolding record_tags note_count observe_no_tag emit_err
after_inventory frame (Inventory.err e) c = if is_reported e then emit_err e c else c
after_inventory frame (Inventory.ok (t ∷ ts)) c = record_tags (t ∷ ts) c
after_inventory frame (Inventory.ok []) c =
    if nat_beq frame.status status_success
    then note_count frame c
    else observe_no_tag frame.status c

unfoldable pub handle_inventory_frame : Frame → Client → Client
unfolding after_inventory
handle_inventory_frame frame c = after_inventory frame (parse_inventory_g2_tags frame) c

unfoldable pub after_single : Frame → Inventory.Result SingleInventoryResult → Client → Client
unfolding record_tag observe_no_tag
after_single frame (Inventory.err e) c = c
after_single frame (Inventory.ok result) c =
    if ltb 0 result.tag_count && ltb 0 (length result.epc)
    then record_tag inventory_single result.antenna 0 result.epc c
    else observe_no_tag frame.status c

unfoldable pub handle_inventory_single_frame : Frame → Client → Client
unfolding after_single
handle_inventory_single_frame frame c = after_single frame (parse_single_inventory_result frame) c

unfoldable pub consume_frame : Frame → Client → Client
unfolding handle_inventory_frame handle_inventory_single_frame emit_status
consume_frame frame c =
    let known = if c.cfg.auto_address then record c { reader_addr = frame.address } else c in
    if nat_beq frame.command cmd_inventory
    then handle_inventory_frame frame known
    else if nat_beq frame.command cmd_inventory_single
    then handle_inventory_single_frame frame known
    else if nat_beq frame.command cmd_get_reader_info
    then emit_status reader_info known
    else known

unfoldable pub consume_frames : List Frame → Client → Client
unfolding consume_frame
consume_frames [] c = c
consume_frames (f ∷ fs) c = consume_frames fs (consume_frame f c)

-- The buffer with a packet behind it; one that grows past 8192 bytes is cut to its last 4096.
unfoldable pub fill_buffer : Bytes → Bytes → Bytes
fill_buffer buffer packet =
    let all = buffer ++ packet in
    if ltb 8192 (length all) then drop (length all - 4096) all else all

unfoldable pub consume_packet : Bytes → Client → Client
unfolding fill_buffer consume_frames
consume_packet packet c =
    let (frames, remaining) = parse_frames (fill_buffer c.parser_buffer packet) in
    consume_frames frames (record c { parser_buffer = remaining })
