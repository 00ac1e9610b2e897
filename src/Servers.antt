-- ===== src/Servers.antt =====
-- internal/gobot/ipc/server.go: the requests of the socket. The service and the reader's manager, if
-- the server has one, are the state; JSON, the socket and its connections are outside.
pub mod Http
pub mod Keeps
pub mod Histories
pub mod ScanStart
pub mod Refusals
use guhfrtui.Base.{
  ℕ, suc, Bool, true, false, not, List, [], ◌∷◌, Option, none, some, if◌then◌else◌, bytes_eq, ◌==◌,
  Bytes,
}
use guhfrtui.Text.{is_empty, trim_space}
use guhfrtui.Text.Parts.{codes, to_lower}
use guhfrtui.Erp
use guhfrtui.Erp.{FetchResult}
use guhfrtui.Service.{Service, Stats}
use guhfrtui.Service.Handlers.{
  IngestResult, handle_epc, set_scan_active, add_draft_epcs, refresh_cache, Reason, other, status,
}
use guhfrtui.BotReader.Loop.{Attempt}
use guhfrtui.BotReader.Machine.{Machine, start_loop, stop_loop}

-- `scanner` is none where the server was made without one.
pub record Bot : Type 0 where
  pub service : Service
  pub scanner : Option Machine

-- What a request meets: the times, the order in which Go ranges over the map of seen EPCs, the answer
-- of the ERP server, and what the reader's loop still does before it sees that its context is done.
pub record Moment : Type 0 where
  pub clock : ℕ → ℕ
  pub order : List Bytes → List Bytes
  pub fetched : Erp.Result FetchResult
  pub rest : List Attempt

pub record Request : Type 0 where
  pub kind : Bytes
  pub epc : Bytes
  pub epcs : List Bytes

pub data Failure : Type 0 where
  refresh_failed : Erp.Error → Failure
  unsupported : Bytes → Failure

-- Start of the manager returns no error, so that no response has a warning.
pub record Response : Type 0 where
  pub is_ok : Bool
  pub action : Bytes
  pub error : Option Failure
  pub replay : ℕ
  pub added : ℕ
  pub results : List IngestResult
  pub stats : Stats

-- The loop over the EPCs, each at its time.
unfoldable pub handle_epcs : (ℕ → ℕ) → ℕ → List Bytes → Service → List IngestResult × Service
unfolding handle_epc
handle_epcs clock i [] s = ([], s)
handle_epcs clock i (epc ∷ epcs) s =
    let (result, s') = handle_epc (clock i) epc s in
    let (results, s'') = handle_epcs clock (suc i) epcs s' in (result ∷ results, s'')

-- Every response ends with a call of Status.
unfoldable pub respond :
    Bool → Bytes → Option Failure → ℕ → ℕ → List IngestResult → Bot → Response × Bot
unfolding status
respond is_ok action error replay added results b =
    let (stats, s) = status b.service in
    (
      record {
        is_ok = is_ok;
        action = action;
        error = error;
        replay = replay;
        added = added;
        results = results;
        stats = stats;
      },
      record b { service = s },
    )

abbrev pub start_scanner : ℕ → Option Machine → Option Machine
start_scanner now none = none
start_scanner now (some m) = some (start_loop now m)

abbrev pub stop_scanner : List Attempt → Option Machine → Option Machine
stop_scanner rest none = none
stop_scanner rest (some m) = some (stop_loop rest m)

-- The refresh of a request, without a notice.
unfoldable pub refresh : Moment → Bot → Option Erp.Error × Bot
unfolding refresh_cache
refresh w b =
    let (e, s) = refresh_cache w.order (w.clock 0) other false w.fetched b.service in
    (e, record b { service = s })

-- Scanning is switched on, and then the reader, whose context is that of the server.
unfoldable pub begin_scan : Moment → Bot → ℕ × Bot
unfolding set_scan_active start_loop
begin_scan w b =
    let (replay, s) = set_scan_active w.order (w.clock 1) true b.service in
    (replay, record { service = s; scanner = start_scanner (w.clock 2) b.scanner })

-- The reader is stopped, which waits for its loop, and then scanning.
unfoldable pub end_scan : Moment → Bot → Bot
unfolding set_scan_active stop_loop
end_scan w b = record {
  scanner = stop_scanner w.rest b.scanner;
  service = (set_scan_active w.order (w.clock 0) false b.service).1;
}

abbrev pub after_start : Moment → Bytes → Option Erp.Error × Bot → Response × Bot
after_start w action (some e, b) = respond false action (some (refresh_failed e)) 0 0 [] b
after_start w action (none, b) =
    let (replay, b') = begin_scan w b in respond true action none replay 0 [] b'

abbrev pub after_turbo : Bytes → Option Erp.Error × Bot → Response × Bot
after_turbo action (some e, b) = respond false action (some (refresh_failed e)) 0 0 [] b
after_turbo action (none, b) = respond true action none 0 0 [] b

unfoldable pub ingest : Moment → Bytes → List Bytes → Bot → Response × Bot
unfolding handle_epcs respond
ingest w action epcs b =
    let (results, s) = handle_epcs w.clock 0 epcs b.service in
    respond true action none 0 0 results (record b { service = s })

unfoldable pub add_drafts : Moment → Bytes → List Bytes → Bot → Response × Bot
unfolding add_draft_epcs respond
add_drafts w action epcs b =
    let ((added, replay), s) = add_draft_epcs w.order (w.clock 0) epcs b.service in
    respond true action none replay added [] (record b { service = s })

unfoldable pub handle_request : Moment → Request → Bot → Response × Bot
unfolding trim_space to_lower respond refresh begin_scan end_scan ingest add_drafts
handle_request w req b =
    let kind = to_lower (trim_space req.kind) in
    if kind == codes "status"
    then respond true (codes "status") none 0 0 [] b
    else if kind == codes "scan_start"
    then after_start w (codes "scan_start") (refresh w b)
    else if kind == codes "scan_stop"
    then respond true (codes "scan_stop") none 0 0 [] (end_scan w b)
    else if kind == codes "turbo"
    then after_turbo (codes "turbo") (refresh w b)
    else if kind == codes "epc"
    then ingest w (codes "epc") (req.epc ∷ []) b
    else if kind == codes "epcs"
    then ingest w (codes "epcs") req.epcs b
    else if kind == codes "draft_epc"
    then add_drafts w (codes "draft_epc") (req.epc ∷ []) b
    else if kind == codes "draft_epcs"
    then add_drafts w (codes "draft_epcs") req.epcs b
    else respond false [] (some (unsupported req.kind)) 0 0 [] b
