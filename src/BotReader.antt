-- ===== src/BotReader.antt =====
-- internal/gobot/reader/manager.go: the manager of the bot's reader. Each round of the scan loop has a
-- fresh sdk client; what the network, the reader and other goroutines do in a round is an `Attempt`.
pub mod Loop
pub mod Modes
pub mod Target
pub mod Rounds
pub mod Idle
pub mod Machine
pub mod History
pub mod Region
pub mod Running
pub mod Reads
use guhfrtui.Base.{
  ℕ, ◌+◌, ◌*◌, ◌^◌, ◌%◌, Bool, true, false, not, ◌&&◌, List, [], ◌∷◌, ◌++◌, Option, none, some,
  length, if◌then◌else◌, Bytes, bit_and, bit_or,
}
use guhfrtui.Base.Int.{ℤ, pos, int_lt}
use guhfrtui.Text.{is_empty, trim_space}
use guhfrtui.Text.Parts.{codes}
use guhfrtui.Transport
use guhfrtui.Transport.{Endpoint, address}
use guhfrtui.Discovery.{Candidate}
use guhfrtui.Discovery.Scan
use guhfrtui.BotConfig
use guhfrtui.Sdk.Config.{InventoryConfig, default_inventory_config, effective_interval, millisecond}
use guhfrtui.Sdk.Control.{StartError}

pub data Profile : Type 0 where
  balanced long_range : Profile

-- What the text of the last error says.
pub data Error : Type 0 where
  direct_connect connect_failed : Endpoint → Transport.Error → Error
  discover_failed : Scan.Error → Error
  no_endpoint tag_channel_closed error_channel_closed : Error
  start_failed : StartError → Error
  reader_failed : Bytes → Error

-- `last_error` is none for the empty text. Times and durations are nanoseconds, 0 the zero time.
pub record Status : Type 0 where
  pub running : Bool
  pub connected : Bool
  pub endpoint : Bytes
  pub last_error : Option Error
  pub unique_seen : ℕ
  pub last_tag_at : ℕ
  pub last_tag_epc : Bytes
  pub last_start_at : ℕ
  pub restart_count : ℕ
  pub scan_profile : Profile
  pub output_power : ℕ
  pub scan_time : ℕ
  pub poll_cycle : ℕ
  pub antenna_mask : ℕ
  pub region_code : Bytes
  pub region_high : ℕ
  pub region_low : ℕ
  pub per_antenna : ℕ

-- What the texts sent to the notifier say.
pub data Notice : Type 0 where
  scan_started : Bytes → Notice

-- `has_cancel` and `has_done` are whether the two fields are set. `handed` is what the EPC handler has
-- been called with, `notices` what the notifier has.
pub record Manager : Type 0 where
  pub cfg : BotConfig.Config
  pub has_handler : Bool
  pub has_notifier : Bool
  pub running : Bool
  pub has_cancel : Bool
  pub has_done : Bool
  pub status : Status
  pub inv_cfg : InventoryConfig
  pub is_long_range : Bool
  pub handed : List Bytes
  pub notices : List Notice

unfoldable pub new : BotConfig.Config → Bool → Bool → Manager
unfolding effective_interval
new cfg has_handler has_notifier = record {
  cfg = cfg;
  has_handler = has_handler;
  has_notifier = has_notifier;
  running = false;
  has_cancel = false;
  has_done = false;
  status = record {
    running = false;
    connected = false;
    endpoint = [];
    last_error = none;
    unique_seen = 0;
    last_tag_at = 0;
    last_tag_epc = [];
    last_start_at = 0;
    restart_count = 0;
    scan_profile = balanced;
    output_power = default_inventory_config.output_power;
    scan_time = default_inventory_config.scan_time;
    poll_cycle = effective_interval default_inventory_config;
    antenna_mask = default_inventory_config.antenna_mask;
    region_code = codes "-";
    region_high = 0;
    region_low = 0;
    per_antenna = 0;
  };
  inv_cfg = default_inventory_config;
  is_long_range = false;
  handed = [];
  notices = [];
}

unfoldable pub set_notifier : Bool → Manager → Manager
set_notifier has_notifier m = record m { has_notifier = has_notifier }

-- Start, up to the start of the goroutine: whether it starts one.
unfoldable pub start : ℕ → Manager → Bool × Manager
start now m = if m.running then (false, m) else (
  true,
  record m {
    running = true;
    has_cancel = true;
    has_done = true;
    status = record m.status { running = true; last_error = none; last_start_at = now };
  },
)

-- Stop, up to the wait for the loop: whether it cancels the loop's context, and whether it waits.
unfoldable pub stop : Manager → (Bool × Bool) × Manager
stop m = ((m.has_cancel, m.has_done), record m { has_cancel = false })

unfoldable pub encode_region : ℕ → ℕ → ℕ → ℕ × ℕ
encode_region band max_fre min_fre = (
  bit_or (bit_and band 0x0C * 16) (bit_and max_fre 0x3F) % 256,
  bit_or (bit_and band 0x03 * 64) (bit_and min_fre 0x3F) % 256,
)

unfoldable pub default_range20_region : Bytes × (ℕ × ℕ)
unfolding encode_region
default_range20_region = (codes "US", encode_region 2 49 0)

unfoldable pub long_range_inventory_config : InventoryConfig × Bytes
unfolding default_range20_region
long_range_inventory_config =
    let (code, (high, low)) = default_range20_region in
    (
      record default_inventory_config {
        output_power = 30;
        scan_time = 10;
        q_value = 4;
        session = 0;
        no_tag_ab_switch = pos 0;
        single_fallback_each = pos 4;
        poll_interval = pos (200 * millisecond);
        antenna_mask = 0x0F;
        region_set = true;
        region_high = high;
        region_low = low;
        per_antenna_power = 30 ∷ (30 ∷ (30 ∷ (30 ∷ (0 ∷ (0 ∷ (0 ∷ (0 ∷ [])))))));
      },
      code,
    )

-- The fields of the status that a configuration determines.
unfoldable pub show_config : InventoryConfig → Status → Status
unfolding effective_interval
show_config cfg st = record st {
  output_power = cfg.output_power;
  scan_time = cfg.scan_time;
  poll_cycle = effective_interval cfg;
  antenna_mask = cfg.antenna_mask;
  region_high = if cfg.region_set then cfg.region_high else 0;
  region_low = if cfg.region_set then cfg.region_low else 0;
  per_antenna = length cfg.per_antenna_power;
}

-- SetLongRangeMode, without its answer.
unfoldable pub set_long_range_mode : Bool → Manager → Manager
unfolding long_range_inventory_config show_config
set_long_range_mode enabled m =
    let (cfg, code) =
      if enabled then long_range_inventory_config else (default_inventory_config, codes "-") in
    record m {
      is_long_range = enabled;
      inv_cfg = cfg;
      status = record (show_config cfg m.status) {
        scan_profile = if enabled then long_range else balanced;
        region_code = code;
      };
    }

unfoldable pub set_error : Error → Manager → Manager
set_error e m = record m { status = record m.status { last_error = some e } }

unfoldable pub finish_stopped : Manager → Manager
finish_stopped m = record m {
  running = false;
  has_cancel = false;
  has_done = false;
  status = record m.status { running = false; connected = false };
}

-- The text that is sent has more than blanks.
unfoldable pub notify : Notice → Manager → Manager
notify n m = if m.has_notifier then record m { notices = m.notices ++ (n ∷ []) } else m
