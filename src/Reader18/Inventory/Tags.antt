-- ===== src/Reader18/Inventory/Tags.antt =====
-- `ParseInventoryG2Tags` against its documented format,
-- AntMask(1) TagNum(1) [EpcLen(1) EPC(n) RSSI(1)]*.
use guhfrtui.Base.{
  ℕ, zero, suc, ◌+◌, ◌≤◌, ◌<◌, ◌≡◌, refl, sym, ap, subst, length-take, ap₂, ◌∙◌, ◌↔◌, List, [], ◌∷◌,
  ◌++◌, arith, length, take, drop, get_or, get_or-append_last, drop-eq-cons, drop-drop,
  length-append, length-drop, take-append-drop, take-append_length, drop-append_length,
  append_assoc, leb, All, Bytes, if◌then◌else◌,
}
use guhfrtui.Reader18.Packet.{Frame}
use guhfrtui.Reader18.Commands.{cmd_inventory, status_success}
use guhfrtui.Reader18.Inventory.{
  Result, ok, err, ◌>>=◌, Tag, TagRead, read_tag, read_tags, antenna_id_from_mask,
  parse_inventory_g2_tags, inventory_tag_count,
}

abbrev pub tag_bytes : Tag → Bytes
tag_bytes t = length t.epc ∷ (t.epc ++ (t.rssi ∷ []))

abbrev pub tags_bytes : List Tag → Bytes
tags_bytes [] = []
tags_bytes (t ∷ ts) = tag_bytes t ++ tags_bytes ts

-- The tags of one response share its antenna, and no EPC is empty.
abbrev pub IsRead : ℕ → Tag → Type 0
IsRead antenna t = (t.antenna ≡ antenna) × (0 < length t.epc)

-- Reading a tag that stands at the cursor.
module _ (pre rest : Bytes) (t : Tag) (i : ℕ) (some_epc : 0 < length t.epc) where
  abbrev around : Bytes
  around = pre ++ (tag_bytes t ++ rest)

  length-around : length around ≡ length pre + length t.epc + 2 + length rest
  length-around = omega (
    arith,
    length-append pre (tag_bytes t ++ rest),
    length-append (t.epc ++ (t.rssi ∷ [])) rest,
    length-append t.epc (t.rssi ∷ []),
  )

  len_around : get_or around (length pre) 0 ≡ length t.epc
  len_around = ap (λ (k : ℕ). get_or around k 0) (omega arith) ∙ get_or-append_last pre _ 0 0

  behind_len : drop (length pre + 1) around ≡ t.epc ++ (t.rssi ∷ rest)
  behind_len =
      sym (drop-drop 1 (length pre) around)
      ∙ ap (drop 1) (drop-append_length (length pre) pre _ refl)
      ∙ append_assoc t.epc (t.rssi ∷ []) rest

  rssi_around : get_or around (length pre + 1 + length t.epc) 0 ≡ t.rssi
  rssi_around =
      ap (λ (k : ℕ). get_or around k 0) (omega arith)
      ∙ get_or-append_last pre (tag_bytes t ++ rest) 0 (suc (length t.epc))
      ∙ ap (λ (b : Bytes). get_or b (length t.epc) 0) (append_assoc t.epc (t.rssi ∷ []) rest)
      ∙ ap (λ (k : ℕ). get_or (t.epc ++ (t.rssi ∷ rest)) k 0) (omega arith)
      ∙ get_or-append_last t.epc (t.rssi ∷ rest) 0 0

  read_tag_here :
      read_tag t.antenna around i (length pre)
      ≡ ok (record { tag = t; cursor = length pre + 1 + length t.epc + 1 })
  unfolding read_tag
  read_tag_here = ground (
    arith,
    length-around,
    len_around,
    rssi_around,
    ap (take (length t.epc)) behind_len
        ∙ take-append_length (length t.epc) t.epc (t.rssi ∷ rest) refl,
  )

-- With a variable antenna and cursor.
read_tag_at :
    (pre rest : Bytes) (t : Tag) (antenna i cursor : ℕ)
    → IsRead antenna t
    → cursor ≡ length pre
    → read_tag antenna (pre ++ (tag_bytes t ++ rest)) i cursor
      ≡ ok (record { tag = t; cursor = length (pre ++ tag_bytes t) })
read_tag_at pre rest t antenna i cursor h e =
    ap₂ (λ (a c : ℕ). read_tag a (pre ++ (tag_bytes t ++ rest)) i c) (sym h.0) e
    ∙ read_tag_here pre rest t i h.1
    ∙ ap (λ (c : ℕ). ok (record { tag = t; cursor = c }))
        (omega (arith, length-append pre (tag_bytes t), length-append t.epc (t.rssi ∷ [])))

read_tags-tags_bytes :
    (ts : List Tag) (pre rest : Bytes) (antenna i cursor : ℕ)
    → All (IsRead antenna) ts
    → cursor ≡ length pre
    → read_tags (length ts) antenna (pre ++ (tags_bytes ts ++ rest)) i cursor ≡ ok ts
unfolding read_tags
read_tags-tags_bytes [] pre rest antenna i cursor h e = refl
read_tags-tags_bytes (t ∷ ts) pre rest antenna i cursor h e =
    ap (λ (p : Bytes). read_tags (suc (length ts)) antenna (pre ++ p) i cursor)
      (append_assoc (tag_bytes t) (tags_bytes ts) rest)
    ∙ ap
        (λ (r : Result TagRead). r >>= λ n.
          read_tags (length ts) antenna (pre ++ (tag_bytes t ++ (tags_bytes ts ++ rest))) (i + 1)
            n.cursor
          >>= λ us. ok (n.tag ∷ us))
        (read_tag_at pre (tags_bytes ts ++ rest) t antenna i cursor h.0 e)
    ∙ ap
        (λ (p : Bytes).
          read_tags (length ts) antenna p (i + 1) (length (pre ++ tag_bytes t)) >>= λ us.
          ok (t ∷ us))
        (sym (append_assoc pre (tag_bytes t) (tags_bytes ts ++ rest)))
    ∙ ap (λ (r : Result (List Tag)). r >>= λ us. ok (t ∷ us))
        (read_tags-tags_bytes ts (pre ++ tag_bytes t) rest antenna (i + 1) _ h.1 refl)

-- The other way: a tag that was read stands at the cursor.
record ReadsTag (antenna cursor : ℕ) (payload : Bytes) (n : TagRead) : Type 0 where
  stands : drop cursor payload ≡ tag_bytes n.tag ++ drop n.cursor payload
  tag_read : IsRead antenna n.tag
  within : n.cursor ≤ length payload

abbrev read_at : ℕ → ℕ → Bytes → TagRead
read_at antenna cursor payload =
    let epc_len = get_or payload cursor 0 in
    record {
      tag = record {
        antenna = antenna;
        epc = take epc_len (drop (cursor + 1) payload);
        rssi = get_or payload (cursor + 1 + epc_len) 0;
      };
      cursor = cursor + 1 + epc_len + 1;
    }

module _ (antenna i cursor : ℕ) (payload : Bytes) (n : TagRead)
    (e : read_tag antenna payload i cursor ≡ ok n) where
  read_tag_inv :
      (0 < get_or payload cursor 0)
      × (cursor + 1 + get_or payload cursor 0 < length payload)
      × (n ≡ read_at antenna cursor payload)
  unfolding read_tag
  read_tag_inv = ground arith

module _ (antenna cursor : ℕ) (payload : Bytes) (some_epc : 0 < get_or payload cursor 0)
    (fits : cursor + 1 + get_or payload cursor 0 < length payload) where
  length_epc :
      length (take (get_or payload cursor 0) (drop (cursor + 1) payload)) ≡ get_or payload cursor 0
  length_epc = omega (
    arith,
    length-take (get_or payload cursor 0) (drop (cursor + 1) payload),
    length-drop (cursor + 1) payload,
  )

  read_at_stands :
      drop cursor payload
      ≡ tag_bytes (read_at antenna cursor payload).tag
        ++ drop (read_at antenna cursor payload).cursor payload
  read_at_stands =
      drop-eq-cons cursor payload 0 (omega arith)
      ∙ ap₂ (λ (l : ℕ) (b : Bytes). l ∷ b) (sym length_epc)
          (ap (λ (k : ℕ). drop k payload) {x = suc cursor} (omega arith)
            ∙ sym (take-append-drop (get_or payload cursor 0) (drop (cursor + 1) payload))
            ∙ ap (◌++◌ (take (get_or payload cursor 0) (drop (cursor + 1) payload))) (
                drop-drop (get_or payload cursor 0) (cursor + 1) payload
                ∙ drop-eq-cons (cursor + 1 + get_or payload cursor 0) payload 0 fits
                ∙ ap
                    (λ (k : ℕ).
                      get_or payload (cursor + 1 + get_or payload cursor 0) 0 ∷ drop k payload)
                    {x = suc (cursor + 1 + get_or payload cursor 0)} (omega arith))
            ∙ sym (append_assoc (take (get_or payload cursor 0) (drop (cursor + 1) payload)) _ _))

  read_at-ReadsTag : ReadsTag antenna cursor payload (read_at antenna cursor payload)
  read_at-ReadsTag = record {
    stands = read_at_stands;
    tag_read = (refl, omega (arith, length_epc));
    within = omega arith;
  }

read_tag_sound :
    (antenna i cursor : ℕ) (payload : Bytes) (n : TagRead)
    → read_tag antenna payload i cursor ≡ ok n
    → ReadsTag antenna cursor payload n
read_tag_sound antenna i cursor payload n e =
    let (pos, fits, is) = read_tag_inv antenna i cursor payload n e in
    subst (ReadsTag antenna cursor payload) (sym is)
      (read_at-ReadsTag antenna cursor payload pos fits)

-- `body` holds the tags `ts`, `n` of them, all read at one antenna, and then anything.
pub record Spells (antenna n : ℕ) (body : Bytes) (ts : List Tag) : Type 0 where
  pub last : Bytes
  pub spells : body ≡ tags_bytes ts ++ last
  pub count : length ts ≡ n
  pub each : All (IsRead antenna) ts

Spells-cons :
    (antenna n cursor : ℕ) (payload : Bytes) (t : TagRead) (ts : List Tag)
    → ReadsTag antenna cursor payload t
    → Spells antenna n (drop t.cursor payload) ts
    → Spells antenna (suc n) (drop cursor payload) (t.tag ∷ ts)
Spells-cons antenna n cursor payload t ts one later = record {
  last = later.last;
  spells =
      one.stands
      ∙ ap (◌++◌ (tag_bytes t.tag)) later.spells
      ∙ sym (append_assoc (tag_bytes t.tag) (tags_bytes ts) later.last);
  count = ap suc later.count;
  each = (one.tag_read, later.each);
}

bind_ok_cons :
    (t : Tag) (r : Result (List Tag)) (ts : List Tag)
    → (r >>= λ us. ok (t ∷ us)) ≡ ok ts
    → (us : List Tag) × (r ≡ ok us) × (ts ≡ t ∷ us)
bind_ok_cons t (ok us) ts h = (us, refl, ground arith)
bind_ok_cons t (err e) ts h = cc

read_tags_sound :
    (n antenna i cursor : ℕ) (payload : Bytes) (ts : List Tag)
    → read_tags n antenna payload i cursor ≡ ok ts
    → Spells antenna n (drop cursor payload) ts
unfolding read_tags
read_tags_sound zero antenna i cursor payload ts h =
    let none_left : ts ≡ [] = ground arith in
    rw none_left (record { last = drop cursor payload; spells = refl; count = refl; each = tt })
read_tags_sound (suc n) antenna i cursor payload ts h =
    go (read_tag antenna payload i cursor) refl h (read_tags_sound n antenna (i + 1))
  where
    go :
        (r : Result TagRead)
        → read_tag antenna payload i cursor ≡ r
        → (r >>= λ t. read_tags n antenna payload (i + 1) t.cursor >>= λ us. ok (t.tag ∷ us))
          ≡ ok ts
        → ((c : ℕ) (p : Bytes) (us : List Tag)
            → read_tags n antenna p (i + 1) c ≡ ok us
            → Spells antenna n (drop c p) us)
        → Spells antenna (suc n) (drop cursor payload) ts
    go (err x) e h' ih = cc
    go (ok t) e h' ih =
        let (us, later, is) =
          bind_ok_cons t.tag (read_tags n antenna payload (i + 1) t.cursor) ts h' in
        rw is (
          Spells-cons antenna n cursor payload t us (read_tag_sound antenna i cursor payload t e)
            (ih t.cursor payload us later))

-- `tagNum <= 0` returns what the loop would.
no_tags :
    (n antenna : ℕ) (payload : Bytes)
    → (if leb n 0 then ok [] else read_tags n antenna payload 0 2) ≡ read_tags n antenna payload 0 2
unfolding read_tags
no_tags zero antenna payload = refl
no_tags (suc n) antenna payload = ground arith

module _ (f : Frame) (mask num : ℕ) (body : Bytes) (inventory : f.command ≡ cmd_inventory)
    (has_payload : f.payload ≡ mask ∷ num ∷ body) where
  parse_inventory_g2_tags-read_tags :
      parse_inventory_g2_tags f ≡ read_tags num (antenna_id_from_mask mask) (mask ∷ num ∷ body) 0 2
  unfolding parse_inventory_g2_tags
  parse_inventory_g2_tags-read_tags =
      ground (arith, no_tags num (antenna_id_from_mask mask) (mask ∷ num ∷ body))

  -- An inventory response is read as the tags `ts` exactly if its payload spells those tags: as
  -- many as its second byte says, each with a non-empty EPC and the antenna of the mask in the
  -- first byte. Bytes behind the last tag are ignored.
  pub parse_inventory_g2_tags_iff :
      (ts : List Tag)
      → (parse_inventory_g2_tags f ≡ ok ts) ↔ Spells (antenna_id_from_mask mask) num body ts
  parse_inventory_g2_tags_iff ts = (
    λ h.
        read_tags_sound num (antenna_id_from_mask mask) 0 2 (mask ∷ num ∷ body) ts
          (sym parse_inventory_g2_tags-read_tags ∙ h),
    λ s.
        parse_inventory_g2_tags-read_tags
        ∙ ap₂ (λ (b : Bytes) (n : ℕ). read_tags n (antenna_id_from_mask mask) (mask ∷ num ∷ b) 0 2)
            s.spells (sym s.count)
        ∙ read_tags-tags_bytes ts (mask ∷ num ∷ []) s.last (antenna_id_from_mask mask) 0 2 s.each
            refl,
  )

-- `InventoryTagCount` takes the first byte for the number of tags, where `ParseInventoryG2Tags`
-- reads the antenna mask: of a successful inventory response that reports no tag at all it
-- returns the mask.
pub inventory_tag_count_is_mask :
    (f : Frame) (mask : ℕ) (body : Bytes)
    → f.command ≡ cmd_inventory
    → f.status ≡ status_success
    → f.payload ≡ mask ∷ 0 ∷ body
    → (parse_inventory_g2_tags f ≡ ok []) × (inventory_tag_count f ≡ ok mask)
unfolding parse_inventory_g2_tags inventory_tag_count
inventory_tag_count_is_mask f mask body inventory success has_payload = ground arith
