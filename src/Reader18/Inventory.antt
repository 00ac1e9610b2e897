-- ===== src/Reader18/Inventory.antt =====
-- protocol.go `InventoryTagCount`, `ParseInventoryG2Tags`, `ParseSingleInventoryResult`,
-- `antennaIDFromMask`: the payloads of inventory responses.
pub mod Tags
pub mod Single
use guhfrtui.Base.{
  ℕ, zero, suc, ◌+◌, ◌-◌, Bool, not, ◌&&◌, ◌||◌, List, [], ◌∷◌, ◌++◌, length, take, drop, get_or,
  ltb, leb, nat_beq, if◌then◌else◌, Bytes,
}
use guhfrtui.Reader18.Packet.{Frame}
use guhfrtui.Reader18.Commands.{cmd_inventory, cmd_inventory_single, status_success, status_no_tag}

-- The errors of the three parsers; the number is the tag's index.
pub data Error : Type 0 where
  not_inventory : Error
  truncated invalid_epc_len missing_rssi : ℕ → Error
  not_single bad_status too_short single_invalid_epc_len : Error

pub data Result {ℓ} (A : Type ℓ) : Type ℓ where
  ok : A → Result A
  err : Error → Result A

infixl 5 ◌>>=◌
abbrev pub ◌>>=◌ {ℓ κ} : {A : Type ℓ} {B : Type κ} → Result A → (A → Result B) → Result B
ok a >>= f = f a
err e >>= f = err e

unfoldable pub inventory_tag_count : Frame → Result ℕ
inventory_tag_count frame =
    if not (nat_beq frame.command cmd_inventory)
    then err not_inventory
    else if not (nat_beq frame.status status_success)
    then ok 0
    else if nat_beq (length frame.payload) 0
    then ok 0
    else ok (get_or frame.payload 0 0)

unfoldable pub antenna_id_from_mask : ℕ → ℕ
antenna_id_from_mask mask =
    if nat_beq mask 1
    then 1
    else if nat_beq mask 2
    then 2
    else if nat_beq mask 4
    then 3
    else if nat_beq mask 8
    then 4
    else if nat_beq mask 16
    then 5
    else if nat_beq mask 32
    then 6
    else if nat_beq mask 64
    then 7
    else if nat_beq mask 128
    then 8
    else mask + 1

pub record Tag : Type 0 where
  pub antenna : ℕ
  pub epc : Bytes
  pub rssi : ℕ

pub record TagRead : Type 0 where
  pub tag : Tag
  pub cursor : ℕ

-- One round of the loop: the tag at `cursor`, and the cursor behind it.
unfoldable pub read_tag : ℕ → Bytes → ℕ → ℕ → Result TagRead
read_tag antenna payload i cursor =
    if leb (length payload) cursor
    then err (truncated i)
    else let epc_len = get_or payload cursor 0 in
      let start = cursor + 1 in
      if leb epc_len 0 || ltb (length payload) (start + epc_len)
      then err (invalid_epc_len i)
      else let end_cursor = start + epc_len in
        if leb (length payload) end_cursor
        then err (missing_rssi i)
        else ok (record {
          tag = record {
            antenna = antenna;
            epc = take epc_len (drop start payload);
            rssi = get_or payload end_cursor 0;
          };
          cursor = end_cursor + 1;
        })

-- The loop: `n` rounds left, the next tag has index `i`.
unfoldable pub read_tags : ℕ → ℕ → Bytes → ℕ → ℕ → Result (List Tag)
read_tags zero antenna payload i cursor = ok []
read_tags (suc n) antenna payload i cursor = do
  t ← read_tag antenna payload i cursor
  ts ← read_tags n antenna payload (i + 1) t.cursor
  ok (t.tag ∷ ts)

-- An empty list stands for Go's nil and for an empty slice: the callers only take its length.
unfoldable pub parse_inventory_g2_tags : Frame → Result (List Tag)
unfolding read_tags read_tag
parse_inventory_g2_tags frame =
    let payload = frame.payload in
    if not (nat_beq frame.command cmd_inventory)
    then err not_inventory
    else if ltb (length payload) 2
    then ok []
    else let tag_num = get_or payload 1 0 in
      if leb tag_num 0
      then ok []
      else read_tags tag_num (antenna_id_from_mask (get_or payload 0 0)) payload 0 2

pub record SingleInventoryResult : Type 0 where
  pub antenna : ℕ
  pub tag_count : ℕ
  pub epc : Bytes

-- `epcLen < 0` never holds of a byte.
unfoldable pub parse_single_inventory_result : Frame → Result SingleInventoryResult
parse_single_inventory_result frame =
    let payload = frame.payload in
    if not (nat_beq frame.command cmd_inventory_single)
    then err not_single
    else if not (nat_beq frame.status status_no_tag) && not (nat_beq frame.status status_success)
    then err bad_status
    else if ltb (length payload) 3
    then err too_short
    else let epc_len = get_or payload 2 0 in
      if ltb (length payload) (3 + epc_len)
      then err single_invalid_epc_len
      else ok (record {
        antenna = get_or payload 0 0;
        tag_count = get_or payload 1 0;
        epc = take epc_len (drop 3 payload);
      })
