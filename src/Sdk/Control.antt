-- ===== src/Sdk/Control.antt =====
-- sdk/client_inventory_runtime.go `nextInventoryCommand`, client_inventory_control.go: the commands
-- to the reader, the start and the stop of a run. The transport and the goroutines are outside.
use guhfrtui.Base.{
  ℕ, ◌+◌, ◌%◌, Bool, true, false, not, ◌&&◌, List, [], ◌∷◌, ◌++◌, Option, none, some, length, ltb,
  nat_beq, if◌then◌else◌, bytes_eq, Bytes,
}
use guhfrtui.Base.Int.{ℤ, pos, negsuc}
use guhfrtui.Reader18.Commands.{
  inventory_g2_command, inventory_single_tag_command, set_work_mode_command,
  set_frequency_range_command, set_scan_time_command, set_antenna_mux_command,
  set_output_power_by_ant_command, set_output_power_command,
}
use guhfrtui.Sdk.Config.{InventoryConfig, normalize_config, effective_interval}
use guhfrtui.Sdk.Antenna.{next_inventory_antenna}
use guhfrtui.Sdk.Client.{inventory_started, inventory_stopped, Client, emit_status}

-- What nextInventoryCommand returns.
pub record NextCommand : Type 0 where
  pub inventory : Bytes
  pub single : Option Bytes
  pub interval : ℕ

abbrev pub wants_single : ℤ → ℕ → Bool
wants_single (pos n) rounds = ltb 0 n && nat_beq (rounds % n) 0
wants_single (negsuc n) rounds = false

unfoldable pub next_inventory_command : Client → Option NextCommand × Client
next_inventory_command c =
    let cfg = normalize_config c.cfg in
    let rounds = c.rounds + 1 in
    let (antenna, next_idx) = next_inventory_antenna cfg.antenna_mask (pos c.ant_idx) in
    if not c.inventory_on then (none, c) else (
      some (record {
        inventory =
            inventory_g2_command c.reader_addr cfg.q_value cfg.session 0x00 0x00 c.target_value
              antenna cfg.scan_time;
        single =
            if wants_single cfg.single_fallback_each rounds
            then some (inventory_single_tag_command c.reader_addr)
            else none;
        interval = effective_interval cfg;
      }),
      record c { cfg = cfg; rounds = rounds; ant_idx = next_idx },
    )

-- The optional commands of ApplyInventoryConfig.
abbrev pub region_commands : InventoryConfig → ℕ → List Bytes
region_commands cfg addr =
    if cfg.region_set
    then set_frequency_range_command addr cfg.region_high cfg.region_low ∷ []
    else []

abbrev pub power_commands : InventoryConfig → ℕ → List Bytes
power_commands cfg addr =
    if ltb 0 (length cfg.per_antenna_power)
    then set_output_power_by_ant_command addr cfg.per_antenna_power ∷ []
    else []

-- The commands of ApplyInventoryConfig, in the order in which they are sent.
unfoldable pub apply_commands : InventoryConfig → ℕ → List Bytes
apply_commands cfg addr =
    set_work_mode_command addr (0x00 ∷ [])
    ∷ (region_commands cfg addr
        ++ (set_scan_time_command addr cfg.scan_time
            ∷ set_antenna_mux_command addr cfg.antenna_mask
            ∷ (power_commands cfg addr ++ (set_output_power_command addr cfg.output_power ∷ []))))

pub data StartError : Type 0 where
  not_connected already_running send_failed : StartError

-- ApplyInventoryConfig on a connected transport: `sends` is whether it takes a command. The
-- first one that it refuses ends the loop.
unfoldable pub all_sent : (Bytes → Bool) → List Bytes → Bool
all_sent sends [] = true
all_sent sends (command ∷ rest) =
    let later = all_sent sends rest in if sends command then later else false

-- The client for a new run.
abbrev pub reset : Client → Client
reset c = record c {
  inventory_on = true;
  seen = [];
  parser_buffer = [];
  rounds = 0;
  unique_tags = 0;
  no_tag_hit = 0;
  ant_idx = 0;
  last_tag_epc = [];
  target_value = c.cfg.target;
  reader_addr = if nat_beq c.reader_addr 0 then c.cfg.reader_address else c.reader_addr;
}

-- StartInventory, up to the start of the goroutines.
unfoldable pub start_inventory : Bool → (Bytes → Bool) → Client → Option StartError × Client
unfolding all_sent apply_commands emit_status
start_inventory connected sends c =
    if not connected
    then (some not_connected, c)
    else if c.inventory_on
    then (some already_running, c)
    else if not (all_sent sends (apply_commands c.cfg (reset c).reader_addr))
    then (some send_failed, record (reset c) { inventory_on = false })
    else (none, emit_status inventory_started (reset c))

-- StopInventory, where the goroutines end.
unfoldable pub stop_inventory : Client → Client
unfolding emit_status
stop_inventory c =
    if c.inventory_on then emit_status inventory_stopped (record c { inventory_on = false }) else c
