-- ===== src/Servers/Http.antt =====
-- internal/gobot/httpapi/server.go: the handlers of the routes. A body that cannot be decoded is none;
-- net/http finds the route and sends the answer.
use guhfrtui.Base.{
  ℕ, Bool, true, not, ◌||◌, List, [], ◌∷◌, ◌++◌, Option, none, some, if◌then◌else◌, bytes_eq, ◌==◌,
  Bytes,
}
use guhfrtui.Text.{is_empty, trim_space}
use guhfrtui.Text.Parts.{codes}
use guhfrtui.Erp
use guhfrtui.Service.{Stats}
use guhfrtui.Service.Handlers.{IngestResult, set_scan_active, add_draft_epcs, status}
use guhfrtui.BotReader.Loop.{Attempt}
use guhfrtui.BotReader.Machine.{Machine, start_briefly}
use guhfrtui.Servers.{Bot, Moment, handle_epcs, refresh, end_scan}

pub data Route : Type 0 where
  health stats ingest webhook_draft legacy_erp_webhook turbo scan_start scan_stop : Route

-- The payload of EPCs; that of the legacy webhook only has to be decodable.
pub record Payload : Type 0 where
  pub epc : Bytes
  pub epcs : List Bytes

pub record Request : Type 0 where
  pub method : Bytes
  pub secret : Bytes
  pub body : Option Payload

pub data Answer : Type 0 where
  method_not_allowed invalid_json invalid_secret healthy : Answer
  bad_gateway : Erp.Error → Answer
  done : Stats → Answer
  ingested : List IngestResult → Stats → Answer
  added : ℕ → ℕ → Stats → Answer
  scanning : ℕ → Stats → Answer

abbrev pub status_code : Answer → ℕ
status_code method_not_allowed = 405
status_code invalid_json = 400
status_code invalid_secret = 401
status_code (bad_gateway e) = 502
status_code healthy = 200
status_code (done st) = 200
status_code (ingested results st) = 200
status_code (added n replay st) = 200
status_code (scanning replay st) = 200

-- The answer with the statistics of the service.
unfoldable pub with_stats : (Stats → Answer) → Bot → Answer × Bot
unfolding status
with_stats answer b = let (st, s) = status b.service in (answer st, record b { service = s })

abbrev pub all_epcs : Payload → List Bytes
all_epcs p = if is_empty p.epc then p.epcs else p.epcs ++ (p.epc ∷ [])

unfoldable pub ingest_payload : Moment → Option Payload → Bot → Answer × Bot
unfolding handle_epcs with_stats
ingest_payload w none b = (invalid_json, b)
ingest_payload w (some p) b =
    let (results, s) = handle_epcs w.clock 0 (all_epcs p) b.service in
    with_stats (ingested results) (record b { service = s })

unfoldable pub draft_payload : Moment → Option Payload → Bot → Answer × Bot
unfolding add_draft_epcs with_stats
draft_payload w none b = (invalid_json, b)
draft_payload w (some p) b =
    let ((n, replay), s) = add_draft_epcs w.order (w.clock 0) (all_epcs p) b.service in
    with_stats (added n replay) (record b { service = s })

abbrev pub after_refresh : Option Erp.Error × Bot → Answer × Bot
after_refresh (some e, b) = (bad_gateway e, b)
after_refresh (none, b) = with_stats done b

unfoldable pub legacy_payload : Moment → Option Payload → Bot → Answer × Bot
unfolding refresh with_stats
legacy_payload w none b = (invalid_json, b)
legacy_payload w (some p) b = after_refresh (refresh w b)

abbrev pub start_scanner : ℕ → List Attempt → Option Machine → Option Machine
start_scanner now rest none = none
start_scanner now rest (some m) = some (start_briefly now rest m)

-- Scanning is switched on, and then the reader. Its context is that of the request, which net/http
-- cancels when the handler has returned: the state is that after this has been seen.
unfoldable pub begin_scan : Moment → Bot → ℕ × Bot
unfolding set_scan_active start_briefly
begin_scan w b =
    let (replay, s) = set_scan_active w.order (w.clock 1) true b.service in
    (replay, record { service = s; scanner = start_scanner (w.clock 2) w.rest b.scanner })

abbrev pub after_scan_refresh : Moment → Option Erp.Error × Bot → Answer × Bot
after_scan_refresh w (some e, b) = (bad_gateway e, b)
after_scan_refresh w (none, b) =
    let (replay, b') = begin_scan w b in with_stats (scanning replay) b'

-- `secret` is the server's, trimmed; an empty one is not asked for.
abbrev pub is_allowed : Bytes → Request → Bool
is_allowed secret req = is_empty secret || trim_space req.secret == secret

unfoldable pub handle : Bytes → Moment → Route → Request → Bot → Answer × Bot
unfolding with_stats ingest_payload draft_payload legacy_payload refresh begin_scan end_scan
    trim_space
handle secret w health req b = (healthy, b)
handle secret w stats req b = with_stats done b
handle secret w ingest req b =
    if not (req.method == codes "POST")
    then (method_not_allowed, b)
    else ingest_payload w req.body b
handle secret w webhook_draft req b =
    if not (req.method == codes "POST")
    then (method_not_allowed, b)
    else if not (is_allowed secret req)
    then (invalid_secret, b)
    else draft_payload w req.body b
handle secret w legacy_erp_webhook req b =
    if not (req.method == codes "POST")
    then (method_not_allowed, b)
    else legacy_payload w req.body b
handle secret w turbo req b =
    if not (req.method == codes "POST")
    then (method_not_allowed, b)
    else after_refresh (refresh w b)
handle secret w scan_start req b =
    if not (req.method == codes "POST")
    then (method_not_allowed, b)
    else after_scan_refresh w (refresh w b)
handle secret w scan_stop req b =
    if not (req.method == codes "POST")
    then (method_not_allowed, b)
    else with_stats done (end_scan w b)
