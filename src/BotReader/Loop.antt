-- ===== src/BotReader/Loop.antt =====
-- manager.go: `connectAndStart`, `consumeTags` and `scanLoop`.
use guhfrtui.Base.{
  ℕ, Bool, true, false, not, ◌&&◌, ◌||◌, List, [], ◌∷◌, ◌++◌, Option, none, some, if◌then◌else◌,
  Bytes,
}
use guhfrtui.Base.Int.{pos, int_lt}
use guhfrtui.Text.{is_empty, trim_space}
use guhfrtui.Transport
use guhfrtui.Transport.{Endpoint, address}
use guhfrtui.Discovery.{Candidate}
use guhfrtui.Discovery.Scan
use guhfrtui.Service.{bump}
use guhfrtui.Sdk.Config.{InventoryConfig}
use guhfrtui.Sdk.Client.{TagEvent, set_inventory_config}
use guhfrtui.Sdk.Control.{StartError, start_inventory}
use guhfrtui.Sdk.Client
use guhfrtui.Sdk.Connection.{Linked, World, reconnect, choose, endpoint_of}
use guhfrtui.BotReader.{
  Error, direct_connect, connect_failed, discover_failed, no_endpoint, tag_channel_closed,
  error_channel_closed, start_failed, reader_failed, Manager, set_long_range_mode, show_config,
  set_error, notify, scan_started,
}

-- What the select of consumeTags meets; `mode_set` is a call of SetLongRangeMode in between. A tag
-- comes with the time.
pub data Event : Type 0 where
  context_done tags_closed errors_closed nil_error : Event
  tag : TagEvent → ℕ → Event
  error : Bytes → Event
  mode_set : Bool → Event

-- A round: whether the context is done at its head, the network, what Discover returns, whether the
-- transport is connected and takes a command when the inventory is started, the events, and whether
-- the waiting for the next round runs to its end. `dial_modes` are the calls of SetLongRangeMode until
-- connectAndStart reads the configuration, `start_modes` those between this and its write of the status.
pub record Attempt : Type 0 where
  pub is_cancelled : Bool
  pub world : World
  pub discovered : List Candidate × Option Scan.Error
  pub dial_modes : List Bool
  pub start_modes : List Bool
  pub is_connected : Bool
  pub sends : Bytes → Bool
  pub events : List Event
  pub waits : Bool

-- A client that has just been made.
unfoldable pub fresh : Linked
unfolding Client.new_client
fresh = record { client = Client.new_client; transport = Transport.new_client }

abbrev pub direct_target : Manager → Endpoint
direct_target m = record { host = m.cfg.reader_host; port = m.cfg.reader_port }

unfoldable pub is_direct : Manager → Bool
is_direct m = not (is_empty m.cfg.reader_host) && int_lt (pos 0) m.cfg.reader_port

-- The endpoint to connect to, and the error of a failure.
pub data Target : Type 0 where
  refused : Error → Target
  target : (Transport.Error → Error) → Endpoint → Target

abbrev pub no_candidate : Option Scan.Error → Error
no_candidate none = no_endpoint
no_candidate (some e) = discover_failed e

abbrev pub chosen_target : Option Scan.Error → Option Candidate → Target
chosen_target e none = refused (no_candidate e)
chosen_target e (some c) = target (connect_failed (endpoint_of c)) (endpoint_of c)

unfoldable pub pick_target : Attempt → Manager → Target
unfolding choose is_direct
pick_target a m =
    if is_direct m
    then target (direct_connect (direct_target m)) (direct_target m)
    else chosen_target a.discovered.1 (choose a.discovered.0)

unfoldable pub set_modes : List Bool → Manager → Manager
unfolding set_long_range_mode
set_modes [] m = m
set_modes (enabled ∷ rest) m = set_modes rest (set_long_range_mode enabled m)

-- `cfg` is the configuration that was read, `m` the manager when the inventory has started or not.
abbrev pub after_inventory :
    Endpoint → InventoryConfig → Manager → Option StartError → Option Error × Manager
after_inventory e cfg m (some x) = (some (start_failed x), m)
after_inventory e cfg m none = (
  none,
  record m {
    status = record (show_config cfg m.status) {
      connected = true;
      endpoint = address e;
      last_error = none;
    };
  },
)

-- With the connection: the configuration is read, and the inventory started with it.
unfoldable pub start_with : Attempt → Endpoint → Linked → Manager → Option Error × Manager
unfolding start_inventory set_inventory_config show_config address set_modes
start_with a e l m =
    after_inventory e m.inv_cfg (set_modes a.start_modes m)
      (start_inventory a.is_connected a.sends (set_inventory_config m.inv_cfg l.client)).0

abbrev pub after_reconnect :
    Attempt
    → (Transport.Error → Error)
    → Endpoint
    → Manager
    → Option Transport.Error × Linked
    → Option Error × Manager
after_reconnect a failure e m (some x, l) = (some (failure x), m)
after_reconnect a failure e m (none, l) = start_with a e l m

abbrev pub connect_to : Attempt → Manager → Target → Option Error × Manager
connect_to a m (refused e) = (some e, m)
connect_to a m (target failure e) = after_reconnect a failure e m (reconnect a.world e fresh)

unfoldable pub connect_and_start : Attempt → Manager → Option Error × Manager
unfolding pick_target start_with reconnect fresh set_modes
connect_and_start a m = connect_to a (set_modes a.dial_modes m) (pick_target a m)

-- A tag: only a new one with a text counts.
unfoldable pub take_tag : TagEvent → ℕ → Manager → Manager
unfolding trim_space
take_tag t now m =
    let epc = trim_space t.epc in
    let counted = record m {
      status = record m.status {
        unique_seen = bump m.status.unique_seen;
        last_tag_at = now;
        last_tag_epc = epc;
      };
    } in
    if not t.is_new || is_empty epc
    then m
    else if m.has_handler
    then record counted { handed = m.handed ++ (epc ∷ []) }
    else counted

-- Whether to reconnect, or none while the loop is receiving.
unfoldable pub consume_tags : List Event → Manager → Option Bool × Manager
unfolding take_tag set_error set_long_range_mode
consume_tags [] m = (none, m)
consume_tags (context_done ∷ events) m = (some false, m)
consume_tags (tags_closed ∷ events) m = (some true, set_error tag_channel_closed m)
consume_tags (tag t now ∷ events) m = consume_tags events (take_tag t now m)
consume_tags (errors_closed ∷ events) m = (some true, set_error error_channel_closed m)
consume_tags (nil_error ∷ events) m = consume_tags events m
consume_tags (error text ∷ events) m = (some true, set_error (reader_failed text) m)
consume_tags (mode_set enabled ∷ events) m = consume_tags events (set_long_range_mode enabled m)

unfoldable pub disconnected : Manager → Manager
disconnected m = record m { status = record m.status { connected = false; endpoint = [] } }

unfoldable pub count_restart : Manager → Manager
count_restart m = record m {
  status = record m.status { restart_count = bump m.status.restart_count };
}

-- Where a round leads: the loop goes on, it is still receiving, or it returns.
pub data Step : Type 0 where
  again receiving returned : Step

abbrev pub retry : Attempt → Manager → Step × Manager
retry a m = (if a.waits then again else returned, m)

abbrev pub after_tags : Attempt → Option Bool × Manager → Step × Manager
after_tags a (none, m) = (receiving, m)
after_tags a (some false, m) = (returned, disconnected m)
after_tags a (some true, m) =
    if a.waits then (again, count_restart (disconnected m)) else (returned, disconnected m)

abbrev pub after_start : Attempt → Option Error × Manager → Step × Manager
after_start a (some e, m) = retry a (set_error e m)
after_start a (none, m) =
    after_tags a (consume_tags a.events (notify (scan_started m.status.endpoint) m))

-- One round of the loop.
unfoldable pub round : Attempt → Manager → Step × Manager
unfolding connect_and_start consume_tags set_error disconnected count_restart notify
round a m = if a.is_cancelled then (returned, m) else after_start a (connect_and_start a m)
