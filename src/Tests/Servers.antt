-- ===== src/Tests/Servers.antt =====
-- Requests to a bot whose cache holds two EPCs.
use guhfrtui.Base.{true, List, [], ◌∷◌, some, bytes_eq}
use guhfrtui.Text.Parts.{codes}
use guhfrtui.Cache.{Store}
use guhfrtui.Base.Int.{pos}
use guhfrtui.BotConfig
use guhfrtui.Erp
use guhfrtui.Erp.{FetchResult}
use guhfrtui.Service.{Config}
use guhfrtui.Service.Invariant.History.{recents}
use guhfrtui.Servers.{Bot, Moment, Request}
use guhfrtui.Servers.Http
use guhfrtui.Servers.Http.{
  Payload, Route, scan_start, webhook_draft, turbo, scan_start, handle, is_allowed,
}
use guhfrtui.Servers.Histories.{Call, over_http, over_socket, of_service, of_reader, new_bot}
use guhfrtui.BotReader
use guhfrtui.BotReader.History.{sets_mode, stops}
use guhfrtui.Servers.Refusals.{Answers, expected_code, demands, handle_lem}

abbrev reader_config : BotConfig.Config
reader_config = record {
  http_enabled = true;
  bot_token = codes "t";
  erp_url = codes "u";
  erp_api_key = codes "k";
  erp_api_secret = codes "s";
  http_addr = [];
  ipc_enabled = true;
  ipc_socket = [];
  webhook_secret = [];
  request_timeout = pos 12000000000;
  refresh_interval = pos 5000000000;
  submit_retry = pos 2;
  submit_retry_delay = pos 300000000;
  worker_count = pos 4;
  queue_size = pos 2048;
  recent_seen_ttl = pos 600000000000;
  poll_timeout = pos 25000000000;
  scan_backend = codes "sdk";
  scan_default_active = true;
  auto_scan = true;
  reader_connect_timeout = pos 25000000000;
  reader_retry_delay = pos 2000000000;
  reader_host = codes "10.0.0.20";
  reader_port = pos 27011;
}

abbrev service_config : Config
service_config = record {
  scan_default_active = true;
  queue_size = 4;
  submit_retry = 1;
  recent_seen_ttl = 100;
}

abbrev store : Store
store = record { epcs = codes "E2" ∷ (codes "3A" ∷ []) }

abbrev bot : Bot
bot = new_bot reader_config true service_config store 5

abbrev fetched : FetchResult
fetched = record { draft_count = pos 1; epcs = codes "E2" ∷ [] }

abbrev moment : Moment
moment = record { clock = λ i. 20; order = λ epcs. epcs; fetched = Erp.ok fetched; rest = [] }

abbrev payload : Payload
payload = record { epc = codes "3B"; epcs = codes "E2" ∷ [] }

-- A request whose secret is "key" between spaces.
abbrev posted : Http.Request
posted = record { method = codes "POST"; secret = codes " key "; body = some payload }

abbrev start_request : Request
start_request = record { kind = codes " Scan_Start"; epc = []; epcs = [] }

abbrev calls : List Call
calls =
    over_http (codes "key") moment webhook_draft posted
    ∷ (of_reader (sets_mode true)
        ∷ (of_service (recents 30)
            ∷ (over_socket moment start_request ∷ (of_reader (stops []) ∷ []))))

handle_lem_example :
    Answers bot
      (expected_code (codes "lock") moment (demands webhook_draft) posted)
      (handle (codes "lock") moment webhook_draft posted bot)
handle_lem_example = handle_lem (codes "lock") moment webhook_draft posted bot
