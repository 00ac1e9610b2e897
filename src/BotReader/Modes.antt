-- ===== src/BotReader/Modes.antt =====
-- The status against the configuration and the mode.
use guhfrtui.Base.{
  ℕ, ◌≡◌, ◌⊎◌, inl, inr, refl, Bool, true, false, ◌||◌, length, if◌then◌else◌, Bytes, arith,
}
use guhfrtui.Text.{is_empty}
use guhfrtui.Text.Parts.{codes}
use guhfrtui.BotConfig
use guhfrtui.Sdk.Config.{InventoryConfig, default_inventory_config, effective_interval}
use guhfrtui.BotReader.{
  Status, Manager, balanced, long_range, new, start, stop, set_long_range_mode, show_config,
  long_range_inventory_config,
}

-- The configuration and the region's name of each mode.
abbrev pub mode_config : Bool → InventoryConfig
mode_config enabled = if enabled then long_range_inventory_config.0 else default_inventory_config

abbrev pub mode_region : Bool → Bytes
mode_region enabled = if enabled then long_range_inventory_config.1 else codes "-"

-- What the status shows of a configuration.
pub record Settings : Type 0 where
  pub power : ℕ
  pub time : ℕ
  pub cycle : ℕ
  pub mask : ℕ
  pub high : ℕ
  pub low : ℕ
  pub antennas : ℕ

abbrev pub settings_of : InventoryConfig → Settings
settings_of cfg = record {
  power = cfg.output_power;
  time = cfg.scan_time;
  cycle = effective_interval cfg;
  mask = cfg.antenna_mask;
  high = if cfg.region_set then cfg.region_high else 0;
  low = if cfg.region_set then cfg.region_low else 0;
  antennas = length cfg.per_antenna_power;
}

abbrev pub shown_in : Status → Settings
shown_in st = record {
  power = st.output_power;
  time = st.scan_time;
  cycle = st.poll_cycle;
  mask = st.antenna_mask;
  high = st.region_high;
  low = st.region_low;
  antennas = st.per_antenna;
}

abbrev pub OfMode : Settings → Type 0
OfMode x = (x ≡ settings_of (mode_config true)) ⊎ (x ≡ settings_of (mode_config false))

-- Between two operations the configuration, the profile and the region's name are those of the mode, the
-- settings shown are those of one of the modes; an endpoint is shown only of a reader that is connected,
-- and both records of the running loop agree.
pub record Inv (m : Manager) : Type 0 where
  pub mode : m.inv_cfg ≡ mode_config m.is_long_range
  pub region : m.status.region_code ≡ mode_region m.is_long_range
  pub profile : m.status.scan_profile ≡ (if m.is_long_range then long_range else balanced)
  pub shown : OfMode (shown_in m.status)
  pub endpoint : (m.status.connected || is_empty m.status.endpoint) ≡ true
  pub running : m.status.running ≡ m.running
  pub done : m.has_done ≡ m.running

mode_settings : (enabled : Bool) → OfMode (settings_of (mode_config enabled))
mode_settings true = inl refl
mode_settings false = inr refl

-- The settings of the configuration of any manager in its invariant.
pub config_settings : (m : Manager) → Inv m → OfMode (settings_of m.inv_cfg)
config_settings m v = rw v.mode (mode_settings m.is_long_range)

pub new-Inv : (cfg : BotConfig.Config) (h n : Bool) → Inv (new cfg h n)
unfolding new
new-Inv cfg h n = record {
  mode = refl;
  region = refl;
  profile = refl;
  shown = inr refl;
  endpoint = refl;
  running = refl;
  done = refl;
}

pub set_long_range_mode-Inv :
    (enabled : Bool) (m : Manager) → Inv m → Inv (set_long_range_mode enabled m)
unfolding set_long_range_mode show_config
set_long_range_mode-Inv true m v = record {
  mode = refl;
  region = refl;
  profile = refl;
  shown = inl refl;
  endpoint = v.endpoint;
  running = v.running;
  done = v.done;
}
set_long_range_mode-Inv false m v = record {
  mode = refl;
  region = refl;
  profile = refl;
  shown = inr refl;
  endpoint = v.endpoint;
  running = v.running;
  done = v.done;
}

pub start-Inv : (now : ℕ) (m : Manager) → Inv m → Inv (start now m).1
unfolding start
start-Inv now m v = ground (arith, v)

pub stop-Inv : (m : Manager) → Inv m → Inv (stop m).1
unfolding stop
stop-Inv m v = ground (arith, v)
