-- ===== src/Tui/Tune.antt =====
-- internal/tui/update_inventory_tune.go: the page of inventory parameters. The status line and the log
-- are not modelled; a key is its text, and the commands to send are the second part of a result.
pub mod Ranges
use guhfrtui.Base.{
  ℕ, zero, suc, ◌+◌, ◌-◌, ◌*◌, ◌/◌, ◌%◌, bit_xor, Bool, true, false, not, ◌&&◌, ◌||◌, List, [], ◌∷◌,
  Option, none, some, nat_beq, ltb, leb, if◌then◌else◌, bytes_eq, ◌==◌, Bytes,
}
use guhfrtui.Base.Int.{ℤ, pos, negsuc}
use guhfrtui.Text.Parts.{codes}
use guhfrtui.Sdk.Config.{millisecond}
use guhfrtui.Reader18.Commands.{set_scan_time_command, set_antenna_mux_command}
use guhfrtui.Tui.ConnectPlan.{clamp_int}

-- The fields of the model that the page reads and writes.
pub record Model : Type 0 where
  pub inventory_index : ℕ
  pub q_value : ℕ
  pub session : ℕ
  pub target : ℕ
  pub scan_time : ℕ
  pub no_tag_ab : ℕ
  pub show_phase_freq : Bool
  pub ant_mask : ℕ
  pub ant_idx : ℕ
  pub interval : ℕ
  pub address : ℕ
  pub is_connected : Bool

unfoldable pub new_model : Model
new_model = record {
  inventory_index = 0;
  q_value = 0x04;
  session = 0x01;
  target = 0x00;
  scan_time = 0x01;
  no_tag_ab = 4;
  show_phase_freq = false;
  ant_mask = 0x01;
  ant_idx = 0;
  interval = 60 * millisecond;
  address = 0x00;
  is_connected = false;
}

abbrev pub inv_tune_count : ℕ
inv_tune_count = 13

-- The two values of `delta`, -1 and 1.
pub data Delta : Type 0 where
  down up : Delta

-- `value + delta * size` as an int.
unfoldable pub shift : ℕ → Delta → ℕ → ℤ
shift value down size = if leb size value then pos (value - size) else negsuc (size - value - 1)
shift value up size = pos (value + size)

abbrev pub to_nat : ℤ → ℕ
to_nat (pos n) = n
to_nat (negsuc n) = 0

-- The parameter after a step, between its bounds.
unfoldable pub adjusted : ℕ → Delta → ℕ → ℕ → ℕ → ℕ
unfolding shift clamp_int
adjusted value delta size least most =
    to_nat (clamp_int (shift value delta size) (pos least) (pos most))

unfoldable pub adjust_inventory_setting : Delta → Model → Model
unfolding adjusted
adjust_inventory_setting d m =
    let i = m.inventory_index in
    if nat_beq i 0
    then record m { q_value = adjusted m.q_value d 1 0 15 % 256 }
    else if nat_beq i 1
    then record m { session = adjusted m.session d 1 0 3 % 256 }
    else if nat_beq i 2
    then record m { target = bit_xor m.target 0x01 }
    else if nat_beq i 3
    then record m { scan_time = adjusted m.scan_time d 1 1 255 % 256 }
    else if nat_beq i 4
    then record m { no_tag_ab = adjusted m.no_tag_ab d 1 0 255 }
    else if nat_beq i 5
    then record m { show_phase_freq = not m.show_phase_freq }
    else if nat_beq i 6
    then record m { ant_mask = adjusted m.ant_mask d 1 1 255 % 256 }
    else if nat_beq i 7
    then record m { interval = adjusted (m.interval / millisecond) d 10 20 1000 * millisecond }
    else m

pub data Preset : Type 0 where
  fast balanced long_range : Preset

unfoldable pub apply_inventory_preset : Preset → Model → Model
apply_inventory_preset fast m = record m {
  q_value = 4;
  session = 1;
  target = 0;
  scan_time = 1;
  no_tag_ab = 4;
  interval = 40 * millisecond;
  ant_mask = 0x01;
}
apply_inventory_preset balanced m = record m {
  q_value = 4;
  session = 1;
  target = 0;
  scan_time = 2;
  no_tag_ab = 4;
  interval = 70 * millisecond;
  ant_mask = 0x01;
}
apply_inventory_preset long_range m = record m {
  q_value = 4;
  session = 2;
  target = 0;
  scan_time = 8;
  no_tag_ab = 5;
  interval = 120 * millisecond;
  ant_mask = 0x01;
}

-- Row 9, with a mask that is never empty.
unfoldable pub set_scan_mask : Model → Model × List Bytes
unfolding set_antenna_mux_command
set_scan_mask m =
    let masked = record m {
      ant_mask = if nat_beq m.ant_mask 0 then 0x01 else m.ant_mask;
      ant_idx = 0;
    } in
    (
      masked,
      if masked.is_connected
          then set_antenna_mux_command masked.address masked.ant_mask ∷ []
          else [],
    )

unfoldable pub run_inventory_action : Model → Model × List Bytes
unfolding adjust_inventory_setting apply_inventory_preset set_scan_mask set_scan_time_command
    set_antenna_mux_command
run_inventory_action m =
    let i = m.inventory_index in
    if nat_beq i 2 || nat_beq i 5
    then (adjust_inventory_setting up m, [])
    else if nat_beq i 8
    then (
      m,
      if not m.is_connected
          then []
          else set_scan_time_command m.address m.scan_time
            ∷ (set_antenna_mux_command m.address m.ant_mask ∷ []),
    )
    else if nat_beq i 9
    then set_scan_mask m
    else if nat_beq i 10
    then (apply_inventory_preset fast m, [])
    else if nat_beq i 11
    then (apply_inventory_preset balanced m, [])
    else if nat_beq i 12
    then (apply_inventory_preset long_range m, [])
    else (adjust_inventory_setting up m, [])

-- parseDigit of commands.go: the digits 1 to 9 count from 0.
unfoldable pub parse_digit : Bytes → Option ℕ
parse_digit [] = none
parse_digit (c ∷ []) = if ltb c b'1' || ltb b'9' c then none else some (c - b'0' - 1)
parse_digit (c ∷ (d ∷ cs)) = none

unfoldable pub pick_row : Option ℕ → Model → Model × List Bytes
unfolding run_inventory_action
pick_row none m = (m, [])
pick_row (some i) m =
    let picked = record m { inventory_index = i } in
    if ltb i inv_tune_count
    then if leb 8 i then run_inventory_action picked else (picked, [])
    else (m, [])

unfoldable pub update_inventory_keys : Bytes → Model → Model × List Bytes
unfolding adjust_inventory_setting run_inventory_action parse_digit pick_row
update_inventory_keys key m =
    if key == codes "up" || key == codes "k"
    then (
      record m { inventory_index = (m.inventory_index + inv_tune_count - 1) % inv_tune_count },
      [],
    )
    else if key == codes "down" || key == codes "j"
    then (record m { inventory_index = (m.inventory_index + 1) % inv_tune_count }, [])
    else if key == codes "left" || key == codes "h"
    then (adjust_inventory_setting down m, [])
    else if key == codes "right" || key == codes "l"
    then (adjust_inventory_setting up m, [])
    else if key == codes "enter"
    then run_inventory_action m
    else pick_row (parse_digit key) m
