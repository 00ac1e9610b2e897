-- ===== src/Tests/BotReader.antt =====
-- A reader on a fixed address that reads two tags and then fails.
use guhfrtui.Base.{◌≡◌, refl, Bool, true, false, List, [], ◌∷◌, none, arith, Bytes}
use guhfrtui.Base.Int.{pos}
use guhfrtui.Text.Parts.{codes}
use guhfrtui.BotConfig
use guhfrtui.Sdk.Client.{TagEvent, inventory_g2}
use guhfrtui.BotReader.{Manager, new, encode_region}
use guhfrtui.BotReader.Loop.{Event, tag, error, mode_set, Attempt, consume_tags, connect_and_start}
use guhfrtui.BotReader.Region.{band_of, max_of, min_of, encode_region_lem}
use guhfrtui.BotReader.Reads.{new_epcs, ending, Handed, consume_tags_lem}
use guhfrtui.BotReader.Modes.{new-Inv}
use guhfrtui.BotReader.Rounds.{Begun, connect_and_start-Begun}
use guhfrtui.BotReader.History.{Call, starts, sets_mode, runs}

abbrev cfg : BotConfig.Config
cfg = record {
  http_enabled = false;
  bot_token = codes "t";
  erp_url = codes "u";
  erp_api_key = codes "k";
  erp_api_secret = codes "s";
  http_addr = [];
  ipc_enabled = false;
  ipc_socket = [];
  webhook_secret = [];
  request_timeout = pos 12000000000;
  refresh_interval = pos 5000000000;
  submit_retry = pos 2;
  submit_retry_delay = pos 300000000;
  worker_count = pos 4;
  queue_size = pos 2048;
  recent_seen_ttl = pos 600000000000;
  poll_timeout = pos 25000000000;
  scan_backend = codes "sdk";
  scan_default_active = true;
  auto_scan = true;
  reader_connect_timeout = pos 25000000000;
  reader_retry_delay = pos 2000000000;
  reader_host = codes "10.0.0.20";
  reader_port = pos 27011;
}

abbrev manager : Manager
manager = new cfg true true

abbrev read_of : Bytes → Bool → TagEvent
read_of epc is_new = record {
  source = inventory_g2;
  epc = epc;
  antenna = 1;
  rssi = 60;
  is_new = is_new;
  rounds = 1;
  unique_tags = 1;
}

abbrev events : List Event
events =
    tag (read_of (codes "E200") true) 5
    ∷ (mode_set true ∷ (tag (read_of (codes "E200") false) 6 ∷ (error (codes "EOF") ∷ [])))

abbrev attempt : Attempt
attempt = record {
  is_cancelled = false;
  world = record { dial = λ e. true; meanwhile = λ c. c; closes = true; ends = true };
  discovered = ([], none);
  dial_modes = [];
  start_modes = true ∷ [];
  is_connected = true;
  sends = λ command. true;
  events = events;
  waits = true;
}

consume_tags_lem_example :
    let (reconnect, m') = consume_tags events manager in
    (reconnect ≡ ending events) × Handed (new_epcs events) manager m'
consume_tags_lem_example =
    consume_tags_lem events manager (unfold new in refl) (unfold new in omega arith)

connect_and_start-Begun_example : Begun attempt manager (connect_and_start attempt manager)
connect_and_start-Begun_example = connect_and_start-Begun attempt manager (new-Inv cfg true true)

abbrev calls : List Call
calls = starts 1 ∷ (runs (attempt ∷ []) ∷ (sets_mode false ∷ (runs (attempt ∷ []) ∷ [])))

encode_region_lem_example :
    let bytes = encode_region 2 49 0 in
    (band_of bytes ≡ 2) × (max_of bytes ≡ 49) × (min_of bytes ≡ 0)
encode_region_lem_example = encode_region_lem 2 49 0 (omega arith) (omega arith) (omega arith)
