-- ===== src/Tui/Frames/Reads.antt =====
-- The EPCs of the frames against those that the terminal interface counts and gives to the bot.
use guhfrtui.Base.{
  ◌≤◌, ◌≡◌, refl, ap, Bool, true, false, ◌||◌, List, [], ◌∷◌, ◌++◌, length, nat_beq, ltb,
  if◌then◌else◌, Bool-cases, inl, inr, bytes_eq, bytes_beq_iff, Bytes, arith,
}
use guhfrtui.Base.Sets.{has, insert, IsUnique, has-append}
use guhfrtui.Text.{is_empty}
use guhfrtui.Reader18.Packet.{Frame}
use guhfrtui.Reader18.Commands.{
  cmd_inventory, cmd_inventory_single, cmd_get_reader_info, status_success, status_no_tag,
  status_no_tag_or_timeout,
}
use guhfrtui.Reader18.Inventory.{
  Tag, SingleInventoryResult, Result, ok, err, parse_inventory_g2_tags,
  parse_single_inventory_result,
}
use guhfrtui.Sdk.Client.{is_no_tag_status}
use guhfrtui.Tui.Tune.Ranges.{flipped}
use guhfrtui.Tui.Frames.{
  Model, new_model, tag_text, on_no_tag_observed, note_epc, take_tag, take_tags, take_single,
  detect_address, take_g2, take_single_result, handle_protocol_frame, handle_frames,
}

-- The EPCs that a frame reports.
abbrev pub tag_epcs : Tag → List Bytes
tag_epcs t = if is_empty (tag_text t.epc) then [] else tag_text t.epc ∷ []

unfoldable pub tags_epcs : List Tag → List Bytes
unfolding tag_text
tags_epcs [] = []
tags_epcs (t ∷ ts) = tag_epcs t ++ tags_epcs ts

abbrev pub g2_epcs : Result (List Tag) → List Bytes
g2_epcs (err e) = []
g2_epcs (ok ts) = tags_epcs ts

abbrev pub single_epcs : Result SingleInventoryResult → List Bytes
single_epcs (err e) = []
single_epcs (ok r) = if ltb 0 r.tag_count then tag_text r.epc ∷ [] else []

unfoldable pub frame_epcs : Frame → List Bytes
unfolding tags_epcs tag_text parse_inventory_g2_tags parse_single_inventory_result
frame_epcs frame =
    if nat_beq frame.command cmd_inventory
    then g2_epcs (parse_inventory_g2_tags frame)
    else if nat_beq frame.command cmd_inventory_single
    then if nat_beq frame.status status_no_tag
      then single_epcs (parse_single_inventory_result frame)
      else []
    else []

unfoldable pub frames_epcs : List Frame → List Bytes
unfolding frame_epcs
frames_epcs [] = []
frames_epcs (f ∷ fs) = frame_epcs f ++ frames_epcs fs

-- Each EPC that was seen has been counted and handed over once.
pub record Once (m : Model) : Type 0 where
  pub handed : m.handed ≡ m.seen
  pub unique : IsUnique m.seen
  pub total : m.tag_total ≡ length m.seen
  pub target : m.target ≤ 1

-- The state after reads of `es`, from a state that had seen `before`.
pub record Noted (es before : List Bytes) (m : Model) : Type 0 where
  pub once : Once m
  pub reads : (y : Bytes) → has y m.seen ≡ (has y before || has y es)

no_reads : (m : Model) → Once m → Noted [] m.seen m
unfolding has
no_reads m v = record { once = v; reads = λ y. ground arith }

noted_then :
    (es es' before : List Bytes) (m m' : Model)
    → Noted es before m
    → Noted es' m.seen m'
    → Noted (es ++ es') before m'
noted_then es es' before m m' p q = record {
  once = q.once;
  reads = λ y. ground (arith, p.reads y, q.reads y, has-append y es es');
}

on_no_tag_observed-Once : (m : Model) → Once m → Once (on_no_tag_observed m)
unfolding on_no_tag_observed
on_no_tag_observed-Once m v = ground (arith, v, flipped m.target v.target)

on_no_tag_observed-seen : (m : Model) → (on_no_tag_observed m).seen ≡ m.seen
unfolding on_no_tag_observed
on_no_tag_observed-seen m = ground arith

on_no_tag_observed-Noted : (m : Model) → Once m → Noted [] m.seen (on_no_tag_observed m)
unfolding has
on_no_tag_observed-Noted m v = record {
  once = on_no_tag_observed-Once m v;
  reads = λ y. ground (arith, on_no_tag_observed-seen m);
}

note_epc-Noted : (text : Bytes) (m : Model) → Once m → Noted (text ∷ []) m.seen (note_epc text m)
unfolding note_epc has insert
note_epc-Noted text m v = elim (Bool-cases (has text m.seen)) [
  | inl old ↦ rw old (record { once = v; reads = λ y. ground (arith, old, bytes_beq_iff text y) })
  | inr fresh ↦ rw fresh (record {
    once = record {
      handed = ap (λ xs. text ∷ xs) v.handed;
      unique = (fresh, v.unique);
      total = ground (arith, v.total);
      target = v.target;
    };
    reads = λ y. ground arith;
  })
]

take_tag-Noted : (t : Tag) (m : Model) → Once m → Noted (tag_epcs t) m.seen (take_tag t m)
unfolding take_tag
take_tag-Noted t m v = elim (Bool-cases (is_empty (tag_text t.epc))) [
  | inl empty ↦ rw empty (no_reads m v)
  | inr full ↦ rw full (
      note_epc-Noted (tag_text t.epc)
        (record m { last_epc = tag_text t.epc; last_antenna = t.antenna; last_rssi = t.rssi })
        (record { handed = v.handed; unique = v.unique; total = v.total; target = v.target }))
]

take_tags-Noted :
    (ts : List Tag) (m : Model) → Once m → Noted (tags_epcs ts) m.seen (take_tags ts m)
unfolding take_tags tags_epcs
take_tags-Noted [] m v = no_reads m v
take_tags-Noted (t ∷ ts) m v =
    let first = take_tag-Noted t m v in
    noted_then (tag_epcs t) (tags_epcs ts) m.seen (take_tag t m) (take_tags ts (take_tag t m)) first
      (take_tags-Noted ts (take_tag t m) first.once)

choose :
    {es es' before : List Bytes} {m m' : Model} (c : Bool)
    → Noted es before m
    → Noted es' before m'
    → Noted (if c then es else es') before (if c then m else m')
choose true p q = p
choose false p q = q

-- Both ways make no read.
silent :
    {before : List Bytes} {m m' : Model} (c : Bool)
    → Noted [] before m
    → Noted [] before m'
    → Noted [] before (if c then m else m')
silent true p q = p
silent false p q = q

take_g2-Noted :
    (frame : Frame) (r : Result (List Tag)) (m : Model)
    → Once m
    → Noted (g2_epcs r) m.seen (take_g2 frame r m)
unfolding take_g2 tags_epcs
take_g2-Noted frame (err e) m v = no_reads m v
take_g2-Noted frame (ok []) m v =
    silent (nat_beq frame.status status_success) (no_reads m v)
      (silent (is_no_tag_status frame.status) (on_no_tag_observed-Noted m v) (no_reads m v))
take_g2-Noted frame (ok (t ∷ ts)) m v =
    take_tags-Noted (t ∷ ts) (record m { no_tag_hit = 0 })
      (record { handed = v.handed; unique = v.unique; total = v.total; target = v.target })

take_single_result-Noted :
    (r : Result SingleInventoryResult) (m : Model)
    → Once m
    → Noted (single_epcs r) m.seen (take_single_result r m)
unfolding take_single_result take_single
take_single_result-Noted (err e) m v = no_reads m v
take_single_result-Noted (ok r) m v =
    choose (ltb 0 r.tag_count)
      (note_epc-Noted (tag_text r.epc)
        (record m {
          last_epc = tag_text r.epc;
          last_antenna = r.antenna;
          last_rssi = 0;
          no_tag_hit = 0;
        })
        (record { handed = v.handed; unique = v.unique; total = v.total; target = v.target }))
      (on_no_tag_observed-Noted m v)

probed-Once : (m : Model) → Once m → Once (record m { awaiting_probe = false })
probed-Once m v = record {
  handed = v.handed;
  unique = v.unique;
  total = v.total;
  target = v.target;
}

handle_protocol_frame-Noted :
    (frame : Frame) (m : Model)
    → Once m
    → Noted (frame_epcs frame) m.seen (handle_protocol_frame frame m)
unfolding handle_protocol_frame frame_epcs detect_address
handle_protocol_frame-Noted frame m v =
    let detected = detect_address frame m in
    let w : Once detected = record {
      handed = v.handed;
      unique = v.unique;
      total = v.total;
      target = v.target;
    } in
    choose (nat_beq frame.command cmd_inventory)
      (take_g2-Noted frame (parse_inventory_g2_tags frame) detected w)
      (choose (nat_beq frame.command cmd_inventory_single)
        (choose (nat_beq frame.status status_no_tag)
          (take_single_result-Noted (parse_single_inventory_result frame) detected w)
          (silent (nat_beq frame.status status_no_tag_or_timeout)
            (on_no_tag_observed-Noted detected w) (no_reads detected w)))
        (silent (nat_beq frame.command cmd_get_reader_info)
          (no_reads (record m { awaiting_probe = false }) (probed-Once m v)) (no_reads m v)))

handle_frames-Noted :
    (fs : List Frame) (m : Model) → Once m → Noted (frames_epcs fs) m.seen (handle_frames fs m)
unfolding handle_frames frames_epcs
handle_frames-Noted [] m v = no_reads m v
handle_frames-Noted (f ∷ fs) m v =
    let first = handle_protocol_frame-Noted f m v in
    noted_then (frame_epcs f) (frames_epcs fs) m.seen (handle_protocol_frame f m)
      (handle_frames fs (handle_protocol_frame f m)) first
      (handle_frames-Noted fs (handle_protocol_frame f m) first.once)

-- From the start, any sequence of frames leads to a state in which the EPCs that were given to the
-- bot's client are those that the frames report, no more and no fewer, each given once; they are those
-- remembered as seen, the total is their number, and the target is 0 or 1.
pub frames_history-Noted :
    (fs : List Frame) → Noted (frames_epcs fs) [] (handle_frames fs new_model)
unfolding new_model
frames_history-Noted fs =
    handle_frames-Noted fs new_model
      (record { handed = refl; unique = tt; total = refl; target = omega arith })
