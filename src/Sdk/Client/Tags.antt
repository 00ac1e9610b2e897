-- ===== src/Sdk/Client/Tags.antt =====
-- The tags that a client has seen, and the bounds of its channels.
use guhfrtui.Base.{
  ℕ, ◌≤◌, ◌≡◌, refl, sym, ap, subst, ◌∙◌, Bool, false, not, ◌&&◌, List, [], ◌∷◌, Option, arith,
  length, length-append, ltb, if◌then◌else◌, Bytes, bytes_eq, if_intro, bit_xor, nat_beq,
}
use guhfrtui.Base.Sets.{IsUnique, insert-IsUnique, length-insert}
use guhfrtui.Text.{is_empty}
use guhfrtui.Reader18.Packet.{Frame}
use guhfrtui.Reader18.Commands.{
  cmd_inventory, cmd_inventory_single, cmd_get_reader_info, status_success,
}
use guhfrtui.Reader18.Frames.{parse_frames}
use guhfrtui.Reader18.Inventory
use guhfrtui.Reader18.Inventory.{
  Tag, SingleInventoryResult, inventory_tag_count, parse_inventory_g2_tags,
  parse_single_inventory_result,
}
use guhfrtui.Sdk.Client.{
  is_no_tag_status, is_switch_due, target_switched, Source, inventory_g2, inventory_single,
  TagEvent, Status, Client, emit_tag, emit_status, emit_err, epc_text, record_tag, observe_no_tag,
  count_only, reader_info, inventory_stopped, inventory_started,
}
use guhfrtui.Sdk.Frames.{
  record_tags, after_count, note_count, after_inventory, handle_inventory_frame, after_single,
  handle_inventory_single_frame, consume_frame, consume_frames, fill_buffer, consume_packet,
  is_reported,
}
use guhfrtui.Sdk.Control.{
  reset, next_inventory_command, start_inventory, stop_inventory, all_sent, apply_commands,
  StartError,
}

-- The count is the number of different EPCs, and no channel holds more than its capacity.
pub record Inv (c : Client) : Type 0 where
  pub counted : c.unique_tags ≡ length c.seen
  pub unique : IsUnique c.seen
  pub tags : length c.tags ≤ 256
  pub statuses : length c.statuses ≤ 256
  pub errs : length c.errs ≤ 64

pub emit_status-Inv : (m : Status) (c : Client) → Inv c → Inv (emit_status m c)
unfolding emit_status
emit_status-Inv m c v = record {
  counted = ground (arith, v.counted);
  unique =
      if_intro (λ (d : Client). IsUnique d.seen) (ltb (length c.statuses) 256) (λ room. v.unique)
        (λ full. v.unique);
  tags = ground (arith, v.tags);
  statuses = ground (arith, v.statuses, length-append c.statuses (m ∷ []));
  errs = ground (arith, v.errs);
}

emit_err-Inv : (e : Inventory.Error) (c : Client) → Inv c → Inv (emit_err e c)
unfolding emit_err
emit_err-Inv e c v = record {
  counted = ground (arith, v.counted);
  unique =
      if_intro (λ (d : Client). IsUnique d.seen) (ltb (length c.errs) 64) (λ room. v.unique)
        (λ full. v.unique);
  tags = ground (arith, v.tags);
  statuses = ground (arith, v.statuses);
  errs = ground (arith, v.errs, length-append c.errs (e ∷ []));
}

emit_tag-Inv : (t : TagEvent) (c : Client) → Inv c → Inv (emit_tag t c)
unfolding emit_tag
emit_tag-Inv t c v = record {
  counted = ground (arith, v.counted);
  unique =
      if_intro (λ (d : Client). IsUnique d.seen) (ltb (length c.tags) 256) (λ room. v.unique)
        (λ full. v.unique);
  tags = ground (arith, v.tags, length-append c.tags (t ∷ []));
  statuses = ground (arith, v.statuses);
  errs = ground (arith, v.errs);
}

-- Another client with the same count, set and channels.
pub same-Inv :
    {c : Client} (d : Client)
    → d.unique_tags ≡ c.unique_tags
    → d.seen ≡ c.seen
    → d.tags ≡ c.tags
    → d.statuses ≡ c.statuses
    → d.errs ≡ c.errs
    → Inv c
    → Inv d
same-Inv d u s t st e v = record {
  counted = u ∙ v.counted ∙ sym (ap length s);
  unique = subst IsUnique (sym s) v.unique;
  tags = ground (arith, v.tags, ap length t);
  statuses = ground (arith, v.statuses, ap length st);
  errs = ground (arith, v.errs, ap length e);
}

record_tag-Inv :
    (source : Source) (antenna rssi : ℕ) (epc : Bytes) (c : Client)
    → Inv c
    → Inv (record_tag source antenna rssi epc c)
unfolding record_tag
record_tag-Inv source antenna rssi epc c v =
    let text = epc_text epc in
    if_intro Inv (is_empty text) (λ empty. v)
      (λ full. emit_tag-Inv _ _ (record {
        counted = ground (arith, v.counted, length-insert text c.seen);
        unique = insert-IsUnique text c.seen v.unique;
        tags = v.tags;
        statuses = v.statuses;
        errs = v.errs;
      }))

record_tags-Inv : (ts : List Tag) (c : Client) → Inv c → Inv (record_tags ts c)
unfolding record_tags
record_tags-Inv [] c v = v
record_tags-Inv (t ∷ ts) c v =
    record_tags-Inv ts (record_tag inventory_g2 t.antenna t.rssi t.epc c)
      (record_tag-Inv inventory_g2 t.antenna t.rssi t.epc c v)

observe_no_tag-Inv : (status : ℕ) (c : Client) → Inv c → Inv (observe_no_tag status c)
unfolding observe_no_tag
observe_no_tag-Inv status c v =
    let target = bit_xor c.target_value 0x01 in
    if_intro Inv (not (is_no_tag_status status)) (λ other. v)
      (λ counts.
        if_intro Inv (is_switch_due c)
          (λ switches.
            emit_status-Inv (target_switched target)
              (record c { target_value = target; no_tag_hit = 0 })
              (same-Inv _ refl refl refl refl refl v))
          (λ stays. same-Inv _ refl refl refl refl refl v))

after_count-Inv : (r : Inventory.Result ℕ) (c : Client) → Inv c → Inv (after_count r c)
unfolding after_count
after_count-Inv (Inventory.err e) c v = v
after_count-Inv (Inventory.ok n) c v =
    if_intro Inv (ltb 0 n) (λ some. emit_status-Inv (count_only n) c v) (λ none. v)

after_inventory-Inv :
    (frame : Frame) (r : Inventory.Result (List Tag)) (c : Client)
    → Inv c
    → Inv (after_inventory frame r c)
unfolding after_inventory note_count
after_inventory-Inv frame (Inventory.err e) c v =
    if_intro Inv (is_reported e) (λ told. emit_err-Inv e c v) (λ quiet. v)
after_inventory-Inv frame (Inventory.ok (t ∷ ts)) c v = record_tags-Inv (t ∷ ts) c v
after_inventory-Inv frame (Inventory.ok []) c v =
    if_intro Inv (nat_beq frame.status status_success)
      (λ good. after_count-Inv (inventory_tag_count frame) c v)
      (λ bad. observe_no_tag-Inv frame.status c v)

after_single-Inv :
    (frame : Frame) (r : Inventory.Result SingleInventoryResult) (c : Client)
    → Inv c
    → Inv (after_single frame r c)
unfolding after_single
after_single-Inv frame (Inventory.err e) c v = v
after_single-Inv frame (Inventory.ok r) c v =
    if_intro Inv (ltb 0 r.tag_count && ltb 0 (length r.epc))
      (λ tagged. record_tag-Inv inventory_single r.antenna 0 r.epc c v)
      (λ none. observe_no_tag-Inv frame.status c v)

consume_frame-Inv : (frame : Frame) (c : Client) → Inv c → Inv (consume_frame frame c)
unfolding consume_frame handle_inventory_frame handle_inventory_single_frame
consume_frame-Inv frame c v =
    let known = if c.cfg.auto_address then record c { reader_addr = frame.address } else c in
    let k =
      if_intro Inv c.cfg.auto_address
        (λ on. same-Inv (record c { reader_addr = frame.address }) refl refl refl refl refl v)
        (λ off. v) in
    if_intro Inv (nat_beq frame.command cmd_inventory)
      (λ many. after_inventory-Inv frame (parse_inventory_g2_tags frame) known k)
      (λ others.
        if_intro Inv (nat_beq frame.command cmd_inventory_single)
          (λ one. after_single-Inv frame (parse_single_inventory_result frame) known k)
          (λ rest.
            if_intro Inv (nat_beq frame.command cmd_get_reader_info)
              (λ info. emit_status-Inv reader_info known k) (λ unknown. k)))

consume_frames-Inv : (fs : List Frame) (c : Client) → Inv c → Inv (consume_frames fs c)
unfolding consume_frames
consume_frames-Inv [] c v = v
consume_frames-Inv (f ∷ fs) c v =
    consume_frames-Inv fs (consume_frame f c) (consume_frame-Inv f c v)

pub consume_packet-Inv : (p : Bytes) (c : Client) → Inv c → Inv (consume_packet p c)
unfolding consume_packet
consume_packet-Inv p c v =
    let (frames, last) = parse_frames (fill_buffer c.parser_buffer p) in
    consume_frames-Inv frames (record c { parser_buffer = last })
      (same-Inv _ refl refl refl refl refl v)

pub next_inventory_command-Inv : (c : Client) → Inv c → Inv (next_inventory_command c).1
unfolding next_inventory_command
next_inventory_command-Inv c v =
    same-Inv _ (ground arith) (ground arith) (ground arith) (ground arith) (ground arith) v

reset-Inv : (c : Client) → Inv c → Inv (reset c)
reset-Inv c v = record {
  counted = refl;
  unique = tt;
  tags = v.tags;
  statuses = v.statuses;
  errs = v.errs;
}

abbrev AfterStart : Option StartError × Client → Type 0
AfterStart r = Inv r.1

pub start_inventory-Inv :
    (connected : Bool) (sends : Bytes → Bool) (c : Client)
    → Inv c
    → Inv (start_inventory connected sends c).1
unfolding start_inventory
start_inventory-Inv connected sends c v =
    let r = reset-Inv c v in
    if_intro AfterStart (not connected) (λ off. v)
      (λ on.
        if_intro AfterStart c.inventory_on (λ runs. v)
          (λ idle.
            if_intro AfterStart (not (all_sent sends (apply_commands c.cfg (reset c).reader_addr)))
              (λ refused.
                same-Inv (record (reset c) { inventory_on = false }) refl refl refl refl refl r)
              (λ fine. emit_status-Inv inventory_started (reset c) r)))

pub stop_inventory-Inv : (c : Client) → Inv c → Inv (stop_inventory c)
unfolding stop_inventory
stop_inventory-Inv c v =
    if_intro Inv c.inventory_on
      (λ on.
        emit_status-Inv inventory_stopped _
          (same-Inv (record c { inventory_on = false }) refl refl refl refl refl v))
      (λ off. v)
