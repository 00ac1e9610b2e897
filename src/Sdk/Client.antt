-- ===== src/Sdk/Client.antt =====
-- sdk/client_core.go, client_events.go, and client_inventory_runtime.go `recordTag` and
-- `observeNoTag`: the client's state, its events, and what a tag or a missing tag does to it. The
-- channels' readers are outside.
pub mod Stream
pub mod Tags
pub mod Target
pub mod Commands
pub mod Turns
pub mod History
use guhfrtui.Base.{
  ℕ, ◌+◌, ◌%◌, ◌≤◌, ◌≡◌, Bool, true, false, not, ◌&&◌, ◌||◌, List, [], ◌∷◌, ◌++◌, Option, none,
  some, length, ltb, leb, nat_beq, if◌then◌else◌, bit_xor, bit_and, bytes_eq, ◌==◌, Bytes, get_or,
  drop, ◌-◌, ◌/◌,
}
use guhfrtui.Base.Int.{ℤ, pos, negsuc, int_lt}
use guhfrtui.Base.Sets.{has, insert}
use guhfrtui.Text.{is_empty, to_upper}
use guhfrtui.Reader18.Packet.{Frame}
use guhfrtui.Reader18.Frames.{parse_frames}
use guhfrtui.Reader18.Commands.{
  cmd_inventory, cmd_inventory_single, cmd_get_reader_info, status_success, status_no_tag,
  status_no_tag_or_timeout, inventory_g2_command, inventory_single_tag_command,
  set_work_mode_command, set_frequency_range_command, set_scan_time_command,
  set_antenna_mux_command, set_output_power_by_ant_command, set_output_power_command,
}
use guhfrtui.Reader18.Inventory
use guhfrtui.Reader18.Inventory.{
  Tag, inventory_tag_count, parse_inventory_g2_tags, SingleInventoryResult,
  parse_single_inventory_result,
}
use guhfrtui.Transport.{Endpoint}
use guhfrtui.Sdk.Config.{
  InventoryConfig, default_inventory_config, normalize_config, effective_interval,
}
use guhfrtui.Sdk.Antenna.{next_inventory_antenna}

pub data Source : Type 0 where
  inventory_g2 inventory_single : Source

-- A tag event without its time.
pub record TagEvent : Type 0 where
  pub source : Source
  pub epc : Bytes
  pub antenna : ℕ
  pub rssi : ℕ
  pub is_new : Bool
  pub rounds : ℕ
  pub unique_tags : ℕ

-- What the texts of the status events say.
pub data Status : Type 0 where
  config_updated inventory_started inventory_stopped reader_info disconnected : Status
  connected connected_to : Endpoint → Status
  count_only : ℕ → Status
  target_switched : ℕ → Status

-- `tags`, `statuses` and `errs` are the channels, oldest first. `running` is `inventoryOn`; the
-- done channel and the cancel function are those of the goroutines.
pub record Client : Type 0 where
  pub cfg : InventoryConfig
  pub inventory_on : Bool
  pub seen : List Bytes
  pub parser_buffer : Bytes
  pub rounds : ℕ
  pub unique_tags : ℕ
  pub no_tag_hit : ℕ
  pub ant_idx : ℕ
  pub reader_addr : ℕ
  pub target_value : ℕ
  pub last_tag_epc : Bytes
  pub tags : List TagEvent
  pub statuses : List Status
  pub errs : List Inventory.Error

unfoldable pub new_client : Client
new_client =
    let cfg = normalize_config default_inventory_config in
    record {
      cfg = cfg;
      inventory_on = false;
      seen = [];
      parser_buffer = [];
      rounds = 0;
      unique_tags = 0;
      no_tag_hit = 0;
      ant_idx = 0;
      reader_addr = cfg.reader_address;
      target_value = cfg.target;
      last_tag_epc = [];
      tags = [];
      statuses = [];
      errs = [];
    }

-- The sends to the channels, which drop the event where the channel is full.
unfoldable pub emit_tag : TagEvent → Client → Client
emit_tag event c = if ltb (length c.tags) 256 then record c { tags = c.tags ++ (event ∷ []) } else c

unfoldable pub emit_status : Status → Client → Client
emit_status message c =
    if ltb (length c.statuses) 256 then record c { statuses = c.statuses ++ (message ∷ []) } else c

unfoldable pub emit_err : Inventory.Error → Client → Client
emit_err e c = if ltb (length c.errs) 64 then record c { errs = c.errs ++ (e ∷ []) } else c

-- SetInventoryConfig
unfoldable pub set_inventory_config : InventoryConfig → Client → Client
unfolding emit_status
set_inventory_config config c =
    let cfg = normalize_config config in
    emit_status config_updated (record c {
      cfg = cfg;
      reader_addr = if nat_beq c.reader_addr 0 then cfg.reader_address else c.reader_addr;
    })

-- `strings.ToUpper(hex.EncodeToString(epc))`
abbrev pub hex_digit : ℕ → ℕ
hex_digit d = if ltb d 10 then b'0' + d else b'a' + (d - 10)

unfoldable pub hex_encode : Bytes → Bytes
hex_encode [] = []
hex_encode (b ∷ bs) = hex_digit (b / 16) ∷ hex_digit (b % 16) ∷ hex_encode bs

unfoldable pub epc_text : Bytes → Bytes
unfolding hex_encode
epc_text epc = to_upper (hex_encode epc)

unfoldable pub record_tag : Source → ℕ → ℕ → Bytes → Client → Client
unfolding emit_tag epc_text
record_tag source antenna rssi epc c =
    let text = epc_text epc in
    let exists = has text c.seen in
    let unique = if exists then c.unique_tags else c.unique_tags + 1 in
    let noted = record c {
      no_tag_hit = 0;
      seen = insert text c.seen;
      unique_tags = unique;
      last_tag_epc = text;
    } in
    if is_empty text
    then c
    else emit_tag
        (record {
          source = source;
          epc = text;
          antenna = antenna;
          rssi = rssi;
          is_new = not exists;
          rounds = c.rounds;
          unique_tags = unique;
        })
        noted

-- The statuses of the switch, in its order.
abbrev pub is_no_tag_status : ℕ → Bool
is_no_tag_status status =
    nat_beq status status_no_tag
    || nat_beq status status_no_tag_or_timeout
    || nat_beq status 0x02
    || nat_beq status 0x03
    || nat_beq status 0x04

-- With one more hit, the target is switched.
abbrev pub is_switch_due : Client → Bool
is_switch_due c =
    ltb 1 c.cfg.session
    && int_lt (pos 0) c.cfg.no_tag_ab_switch
    && not (int_lt (pos (c.no_tag_hit + 1)) c.cfg.no_tag_ab_switch)

unfoldable pub observe_no_tag : ℕ → Client → Client
unfolding emit_status
observe_no_tag status c =
    let target = bit_xor c.target_value 0x01 in
    if not (is_no_tag_status status)
    then c
    else if is_switch_due c
    then emit_status (target_switched target) (record c { target_value = target; no_tag_hit = 0 })
    else record c { no_tag_hit = c.no_tag_hit + 1 }
