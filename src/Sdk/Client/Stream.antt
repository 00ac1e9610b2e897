-- ===== src/Sdk/Client/Stream.antt =====
-- `consumePacket` on a stream in packets, against the parse of the whole stream.
use guhfrtui.Base.{
  ℕ, ◌≤◌, ◌<◌, ◌≡◌, refl, sym, ap, ◌∙◌, inl, List, [], ◌∷◌, ◌++◌, arith, length, length-append,
  if◌then◌else◌, Bytes, IsByte, All, All-append, All-drop, append_assoc, append-nil, get_or,
  bytes_eq,
}
use guhfrtui.Reader18.Packet.{Frame}
use guhfrtui.Reader18.Frames.{parse_frames, action, wait, total}
use guhfrtui.Reader18.Frames.Stream.{
  IsIncomplete, parse_frames-IsIncomplete, resume, parse_frames-append, parse_induction,
  parse_frames-wait, parse_frames-skip, parse_frames-emit,
}
use guhfrtui.Reader18.Inventory
use guhfrtui.Reader18.Inventory.{
  Tag, SingleInventoryResult, inventory_tag_count, parse_inventory_g2_tags,
  parse_single_inventory_result,
}
use guhfrtui.Sdk.Client.{
  Source, inventory_g2, inventory_single, Client, emit_tag, emit_status, emit_err, record_tag,
  observe_no_tag,
}
use guhfrtui.Sdk.Frames.{
  record_tags, after_count, note_count, after_inventory, handle_inventory_frame, after_single,
  handle_inventory_single_frame, consume_frame, consume_frames, fill_buffer, consume_packet,
}

-- The buffer of the client, replaced: no handler of a frame reads or writes it.
abbrev with_buffer : Bytes → Client → Client
with_buffer b c = record c { parser_buffer = b }

module _ (b : Bytes) where
  record_tag-buffer :
      (source : Source) (antenna rssi : ℕ) (epc : Bytes) (c : Client)
      → record_tag source antenna rssi epc (with_buffer b c)
        ≡ with_buffer b (record_tag source antenna rssi epc c)
  unfolding record_tag emit_tag
  record_tag-buffer source antenna rssi epc c = ground arith

  record_tags-buffer :
      (ts : List Tag) (c : Client)
      → record_tags ts (with_buffer b c) ≡ with_buffer b (record_tags ts c)
  unfolding record_tags
  record_tags-buffer [] c = refl
  record_tags-buffer (t ∷ ts) c =
      ap (record_tags ts) (record_tag-buffer inventory_g2 t.antenna t.rssi t.epc c)
      ∙ record_tags-buffer ts (record_tag inventory_g2 t.antenna t.rssi t.epc c)

  observe_no_tag-buffer :
      (status : ℕ) (c : Client)
      → observe_no_tag status (with_buffer b c) ≡ with_buffer b (observe_no_tag status c)
  unfolding observe_no_tag emit_status
  observe_no_tag-buffer status c = ground arith

  after_count-buffer :
      (r : Inventory.Result ℕ) (c : Client)
      → after_count r (with_buffer b c) ≡ with_buffer b (after_count r c)
  unfolding after_count emit_status
  after_count-buffer (Inventory.err e) c = refl
  after_count-buffer (Inventory.ok n) c = ground arith

  after_inventory-buffer :
      (frame : Frame) (r : Inventory.Result (List Tag)) (c : Client)
      → after_inventory frame r (with_buffer b c) ≡ with_buffer b (after_inventory frame r c)
  unfolding after_inventory note_count emit_err
  after_inventory-buffer frame (Inventory.err e) c = ground arith
  after_inventory-buffer frame (Inventory.ok (t ∷ ts)) c = record_tags-buffer (t ∷ ts) c
  after_inventory-buffer frame (Inventory.ok []) c = ground (
    arith,
    observe_no_tag-buffer frame.status c,
    after_count-buffer (inventory_tag_count frame) c,
  )

  after_single-buffer :
      (frame : Frame) (r : Inventory.Result SingleInventoryResult) (c : Client)
      → after_single frame r (with_buffer b c) ≡ with_buffer b (after_single frame r c)
  unfolding after_single
  after_single-buffer frame (Inventory.err e) c = refl
  after_single-buffer frame (Inventory.ok r) c = ground (
    arith,
    record_tag-buffer inventory_single r.antenna 0 r.epc c,
    observe_no_tag-buffer frame.status c,
  )

  consume_frame-buffer :
      (frame : Frame) (c : Client)
      → consume_frame frame (with_buffer b c) ≡ with_buffer b (consume_frame frame c)
  unfolding consume_frame handle_inventory_frame handle_inventory_single_frame emit_status
  consume_frame-buffer frame c =
      let known = if c.cfg.auto_address then record c { reader_addr = frame.address } else c in
      ground (
        arith,
        after_inventory-buffer frame (parse_inventory_g2_tags frame) known,
        after_single-buffer frame (parse_single_inventory_result frame) known,
      )

  consume_frames-buffer :
      (frames : List Frame) (c : Client)
      → consume_frames frames (with_buffer b c) ≡ with_buffer b (consume_frames frames c)
  unfolding consume_frames
  consume_frames-buffer [] c = refl
  consume_frames-buffer (f ∷ fs) c =
      ap (consume_frames fs) (consume_frame-buffer f c)
      ∙ consume_frames-buffer fs (consume_frame f c)

consume_frames-append :
    (fs gs : List Frame) (c : Client)
    → consume_frames (fs ++ gs) c ≡ consume_frames gs (consume_frames fs c)
unfolding consume_frames
consume_frames-append [] gs c = refl
consume_frames-append (f ∷ fs) gs c = consume_frames-append fs gs (consume_frame f c)

IsIncomplete-wait : (buf : Bytes) → IsIncomplete buf → action buf ≡ wait
unfolding action
IsIncomplete-wait buf h = ground arith

-- What the parser keeps back are bytes of the stream.
parse_frames-IsByte : (s : Bytes) → All IsByte s → All IsByte (parse_frames s).1
parse_frames-IsByte s =
    parse_induction (λ buf. All IsByte buf → All IsByte (parse_frames buf).1)
      (λ buf w h. rw (parse_frames-wait buf w) h)
      (λ buf k ih h. rw (parse_frames-skip buf k) (ih (All-drop IsByte 1 buf h)))
      (λ buf e ih h. rw (parse_frames-emit buf e) (ih (All-drop IsByte (total buf) buf h)))
      (length s) s (omega arith)

head-IsByte : (buf : Bytes) → All IsByte buf → get_or buf 0 0 < 256
head-IsByte [] h = omega arith
head-IsByte (x ∷ xs) h = h.0

IsIncomplete-length : (buf : Bytes) → All IsByte buf → IsIncomplete buf → length buf ≤ 255
IsIncomplete-length buf bytes h = ground (arith, h, head-IsByte buf bytes)

-- The packets that the transport delivers: bytes, at most as many as its read buffer holds.
abbrev pub IsPacket : Bytes → Type 0
IsPacket p = All IsByte p × (length p ≤ 4096)

fill_buffer_small : (b p : Bytes) → length b ≤ 255 → length p ≤ 4096 → fill_buffer b p ≡ b ++ p
unfolding fill_buffer
fill_buffer_small b p h k = ground (arith, length-append b p)

unfoldable pub consume_packets : List Bytes → Client → Client
consume_packets [] c = c
consume_packets (p ∷ ps) c = consume_packets ps (consume_packet p c)

unfoldable pub joined : List Bytes → Bytes
joined [] = []
joined (p ∷ ps) = p ++ joined ps

joined-IsByte : (ps : List Bytes) → All IsPacket ps → All IsByte (joined ps)
unfolding joined
joined-IsByte [] h = tt
joined-IsByte (p ∷ ps) h = All-append IsByte p (joined ps) h.0.0 (joined-IsByte ps h.1)

-- The client after the frames of a parse.
abbrev pub after : List Frame × Bytes → Client → Client
after (frames, last) c = record (consume_frames frames c) { parser_buffer = last }

consume_packet-after :
    (r p : Bytes) (c : Client)
    → length r ≤ 255
    → length p ≤ 4096
    → consume_packet p (with_buffer r c) ≡ after (parse_frames (r ++ p)) c
unfolding consume_packet
consume_packet-after r p c h k =
    ap (λ b. consume_frames (parse_frames b).0 (with_buffer (parse_frames b).1 c))
      (fill_buffer_small r p h k)
    ∙ consume_frames-buffer (parse_frames (r ++ p)).1 (parse_frames (r ++ p)).0 c

after-resume :
    (fs : List Frame) (r more : Bytes) (c : Client)
    → after (parse_frames (r ++ more)) (consume_frames fs c) ≡ after (resume (fs, r) more) c
after-resume fs r more c =
    ap (with_buffer (parse_frames (r ++ more)).1)
      (sym (consume_frames-append fs (parse_frames (r ++ more)).0 c))

from :
    (ps : List Bytes) (r : Bytes) (c : Client)
    → All IsPacket ps
    → All IsByte r
    → IsIncomplete r
    → consume_packets ps (with_buffer r c) ≡ after (parse_frames (r ++ joined ps)) c
unfolding consume_packets joined
from [] r c h bytes i = sym (
    ap (λ t. after t c)
      (ap parse_frames (append-nil r) ∙ parse_frames-wait r (IsIncomplete-wait r i))
    ∙ unfold consume_frames in refl)
from (p ∷ ps) r c h bytes i =
    let s = r ++ p in
    let all = All-append IsByte r p bytes h.0.0 in
    let d = consume_frames (parse_frames s).0 c in
    ap (consume_packets ps) (consume_packet-after r p c (IsIncomplete-length r bytes i) h.0.1)
    ∙ from ps (parse_frames s).1 d h.1 (parse_frames-IsByte s all) (parse_frames-IsIncomplete s)
    ∙ after-resume (parse_frames s).0 (parse_frames s).1 (joined ps) c
    ∙ ap (λ t. after t c)
        (sym (parse_frames-append s (joined ps)) ∙ ap parse_frames (append_assoc r p (joined ps)))

-- From an empty buffer on, however a stream of bytes is cut into packets of at most 4096 bytes,
-- the client ends up as if it had handled, in order, the frames of the whole stream, the buffer
-- keeps what the whole parse leaves, and this is at most 255 bytes: the buffer is never cut.
pub consume_packets_lem :
    (packets : List Bytes) (c : Client)
    → c.parser_buffer ≡ []
    → All IsPacket packets
    → let (frames, last) = parse_frames (joined packets) in
      (consume_packets packets c ≡ record (consume_frames frames c) { parser_buffer = last })
      × (length last ≤ 255)
consume_packets_lem packets c empty h =
    let last = (parse_frames (joined packets)).1 in
    (
      ap (λ b. consume_packets packets (with_buffer b c)) empty
          ∙ from packets [] c h tt (inl (omega arith)),
      IsIncomplete-length last (parse_frames-IsByte (joined packets) (joined-IsByte packets h))
          (parse_frames-IsIncomplete (joined packets)),
    )
