-- ===== src/Servers/Keeps.antt =====
-- The requests keep the invariants of the service and of the reader's manager.
use guhfrtui.Base.{
  ℕ, suc, Bool, true, false, not, List, [], ◌∷◌, Option, none, some, if◌then◌else◌, bytes_eq, ◌==◌,
  Bytes,
}
use guhfrtui.Text.{trim_space}
use guhfrtui.Text.Parts.{codes, to_lower}
use guhfrtui.Erp
use guhfrtui.Service.{Service, Stats}
use guhfrtui.Service.Handlers.{IngestResult, handle_epc, add_draft_epcs, other}
use guhfrtui.Service.Invariant
use guhfrtui.Service.Invariant.{new-Inv}
use guhfrtui.Service.Invariant.Handlers.{
  handle_epc-Inv, set_scan_active-Inv, add_draft_epcs-Inv, refresh_cache-Inv, status-Inv,
}
use guhfrtui.BotReader.Loop.{Attempt}
use guhfrtui.BotReader.Machine.{Machine}
use guhfrtui.BotReader.History.{IsTrue, start_loop-IsTrue, stop_loop-IsGone, start_briefly-IsTrue}
use guhfrtui.Servers.{
  Bot, Moment, Request, Failure, unsupported, handle_epcs, respond, start_scanner, stop_scanner,
  refresh, begin_scan, end_scan, after_start, after_turbo, ingest, add_drafts, handle_request,
}
use guhfrtui.Servers.Http
use guhfrtui.Servers.Http.{
  Payload, Answer, with_stats, ingest_payload, draft_payload, after_refresh, legacy_payload,
  after_scan_refresh, handle, Route, health, stats, webhook_draft, legacy_erp_webhook, turbo,
  scan_start, scan_stop, is_allowed,
}

abbrev pub ScannerInv : Option Machine → Type 0
ScannerInv none = Unit
ScannerInv (some m) = IsTrue m

pub record Inv (b : Bot) : Type 0 where
  pub service : Invariant.Inv b.service
  pub scanner : ScannerInv b.scanner

abbrev After {ℓ} : {A : Type ℓ} → A × Bot → Type 0
After r = Inv r.1

handle_epcs-Inv :
    (clock : ℕ → ℕ) (i : ℕ) (epcs : List Bytes) (s : Service)
    → Invariant.Inv s
    → Invariant.Inv (handle_epcs clock i epcs s).1
unfolding handle_epcs
handle_epcs-Inv clock i [] s v = v
handle_epcs-Inv clock i (epc ∷ epcs) s v =
    handle_epcs-Inv clock (suc i) epcs (handle_epc (clock i) epc s).1
      (handle_epc-Inv (clock i) epc s v)

respond-Inv :
    (ok : Bool) (action : Bytes) (e : Option Failure) (replay added : ℕ)
    (results : List IngestResult) (b : Bot)
    → Inv b
    → After (respond ok action e replay added results b)
unfolding respond
respond-Inv ok action e replay added results b v = record {
  service = status-Inv b.service v.service;
  scanner = v.scanner;
}

start_scanner-Inv : (now : ℕ) (o : Option Machine) → ScannerInv o → ScannerInv (start_scanner now o)
start_scanner-Inv now none v = tt
start_scanner-Inv now (some m) v = start_loop-IsTrue now m v

stop_scanner-Inv :
    (rest : List Attempt) (o : Option Machine) → ScannerInv o → ScannerInv (stop_scanner rest o)
stop_scanner-Inv rest none v = tt
stop_scanner-Inv rest (some m) v = (stop_loop-IsGone rest m v).is_true

start_briefly-Inv :
    (now : ℕ) (rest : List Attempt) (o : Option Machine)
    → ScannerInv o
    → ScannerInv (Http.start_scanner now rest o)
start_briefly-Inv now rest none v = tt
start_briefly-Inv now rest (some m) v = start_briefly-IsTrue now rest m v

refresh-Inv : (w : Moment) (b : Bot) → Inv b → After (refresh w b)
unfolding refresh
refresh-Inv w b v = record {
  service = refresh_cache-Inv w.order (w.clock 0) other false w.fetched b.service v.service;
  scanner = v.scanner;
}

begin_scan-Inv : (w : Moment) (b : Bot) → Inv b → After (begin_scan w b)
unfolding begin_scan
begin_scan-Inv w b v = record {
  service = set_scan_active-Inv w.order (w.clock 1) true b.service v.service;
  scanner = start_scanner-Inv (w.clock 2) b.scanner v.scanner;
}

end_scan-Inv : (w : Moment) (b : Bot) → Inv b → Inv (end_scan w b)
unfolding end_scan
end_scan-Inv w b v = record {
  service = set_scan_active-Inv w.order (w.clock 0) false b.service v.service;
  scanner = stop_scanner-Inv w.rest b.scanner v.scanner;
}

after_start-Inv :
    (w : Moment) (action : Bytes) (r : Option Erp.Error × Bot)
    → After r
    → After (after_start w action r)
after_start-Inv w action (some e, b) v = respond-Inv _ _ _ _ _ _ b v
after_start-Inv w action (none, b) v =
    respond-Inv _ _ _ _ _ _ (begin_scan w b).1 (begin_scan-Inv w b v)

after_turbo-Inv :
    (action : Bytes) (r : Option Erp.Error × Bot) → After r → After (after_turbo action r)
after_turbo-Inv action (some e, b) v = respond-Inv _ _ _ _ _ _ b v
after_turbo-Inv action (none, b) v = respond-Inv _ _ _ _ _ _ b v

ingest-Inv :
    (w : Moment) (action : Bytes) (epcs : List Bytes) (b : Bot)
    → Inv b
    → After (ingest w action epcs b)
unfolding ingest
ingest-Inv w action epcs b v =
    let (results, s) = handle_epcs w.clock 0 epcs b.service in
    respond-Inv true action none 0 0 results (record b { service = s })
      (record { service = handle_epcs-Inv w.clock 0 epcs b.service v.service; scanner = v.scanner })

add_drafts-Inv :
    (w : Moment) (action : Bytes) (epcs : List Bytes) (b : Bot)
    → Inv b
    → After (add_drafts w action epcs b)
unfolding add_drafts
add_drafts-Inv w action epcs b v =
    let ((added, replay), s) = add_draft_epcs w.order (w.clock 0) epcs b.service in
    respond-Inv true action none replay added [] (record b { service = s })
      (record {
        service = add_draft_epcs-Inv w.order (w.clock 0) epcs b.service v.service;
        scanner = v.scanner;
      })

-- That an answer leaves the invariant, as a record, so that a choice between answers is found.
record Safe {A : Type 0} (r : A × Bot) : Type 0 where
  kept : After r

safe : {A : Type 0} (r : A × Bot) → After r → Safe r
safe r v = record { kept = v }

choose : {A : Type 0} {x y : A × Bot} (c : Bool) → Safe x → Safe y → Safe (if c then x else y)
choose true p q = p
choose false p q = q

handle_request-Safe : (w : Moment) (req : Request) (b : Bot) → Inv b → Safe (handle_request w req b)
unfolding handle_request
handle_request-Safe w req b v =
    let kind = to_lower (trim_space req.kind) in
    let reports =
      safe (respond true (codes "status") none 0 0 [] b)
        (respond-Inv true (codes "status") none 0 0 [] b v) in
    let starts =
      safe (after_start w (codes "scan_start") (refresh w b))
        (after_start-Inv w (codes "scan_start") (refresh w b) (refresh-Inv w b v)) in
    let stops =
      safe (respond true (codes "scan_stop") none 0 0 [] (end_scan w b))
        (respond-Inv true (codes "scan_stop") none 0 0 [] (end_scan w b) (end_scan-Inv w b v)) in
    let turbos =
      safe (after_turbo (codes "turbo") (refresh w b))
        (after_turbo-Inv (codes "turbo") (refresh w b) (refresh-Inv w b v)) in
    let one =
      safe (ingest w (codes "epc") (req.epc ∷ []) b)
        (ingest-Inv w (codes "epc") (req.epc ∷ []) b v) in
    let many =
      safe (ingest w (codes "epcs") req.epcs b) (ingest-Inv w (codes "epcs") req.epcs b v) in
    let draft =
      safe (add_drafts w (codes "draft_epc") (req.epc ∷ []) b)
        (add_drafts-Inv w (codes "draft_epc") (req.epc ∷ []) b v) in
    let drafts =
      safe (add_drafts w (codes "draft_epcs") req.epcs b)
        (add_drafts-Inv w (codes "draft_epcs") req.epcs b v) in
    let fails =
      safe (respond false [] (some (unsupported req.kind)) 0 0 [] b)
        (respond-Inv false [] (some (unsupported req.kind)) 0 0 [] b v) in
    choose (kind == codes "status") reports (
      choose (kind == codes "scan_start") starts (
        choose (kind == codes "scan_stop") stops (
          choose (kind == codes "turbo") turbos (
            choose (kind == codes "epc") one (
              choose (kind == codes "epcs") many (
                choose (kind == codes "draft_epc") draft
                  (choose (kind == codes "draft_epcs") drafts fails)))))))

pub handle_request-Inv :
    (w : Moment) (req : Request) (b : Bot) → Inv b → After (handle_request w req b)
handle_request-Inv w req b v = (handle_request-Safe w req b v).kept

-- The handlers over HTTP.
with_stats-Inv : (answer : Stats → Answer) (b : Bot) → Inv b → After (with_stats answer b)
unfolding with_stats
with_stats-Inv answer b v = record { service = status-Inv b.service v.service; scanner = v.scanner }

ingest_payload-Inv :
    (w : Moment) (o : Option Payload) (b : Bot) → Inv b → After (ingest_payload w o b)
unfolding ingest_payload
ingest_payload-Inv w none b v = v
ingest_payload-Inv w (some p) b v =
    let (results, s) = handle_epcs w.clock 0 (Http.all_epcs p) b.service in
    with_stats-Inv (Http.ingested results) (record b { service = s })
      (record {
        service = handle_epcs-Inv w.clock 0 (Http.all_epcs p) b.service v.service;
        scanner = v.scanner;
      })

draft_payload-Inv :
    (w : Moment) (o : Option Payload) (b : Bot) → Inv b → After (draft_payload w o b)
unfolding draft_payload
draft_payload-Inv w none b v = v
draft_payload-Inv w (some p) b v =
    let ((n, replay), s) = add_draft_epcs w.order (w.clock 0) (Http.all_epcs p) b.service in
    with_stats-Inv (Http.added n replay) (record b { service = s })
      (record {
        service = add_draft_epcs-Inv w.order (w.clock 0) (Http.all_epcs p) b.service v.service;
        scanner = v.scanner;
      })

after_refresh-Inv : (r : Option Erp.Error × Bot) → After r → After (after_refresh r)
after_refresh-Inv (some e, b) v = v
after_refresh-Inv (none, b) v = with_stats-Inv Http.done b v

legacy_payload-Inv :
    (w : Moment) (o : Option Payload) (b : Bot) → Inv b → After (legacy_payload w o b)
unfolding legacy_payload
legacy_payload-Inv w none b v = v
legacy_payload-Inv w (some p) b v = after_refresh-Inv (refresh w b) (refresh-Inv w b v)

brief_scan-Inv : (w : Moment) (b : Bot) → Inv b → After (Http.begin_scan w b)
unfolding Http.begin_scan
brief_scan-Inv w b v = record {
  service = set_scan_active-Inv w.order (w.clock 1) true b.service v.service;
  scanner = start_briefly-Inv (w.clock 2) w.rest b.scanner v.scanner;
}

after_scan_refresh-Inv :
    (w : Moment) (r : Option Erp.Error × Bot) → After r → After (after_scan_refresh w r)
after_scan_refresh-Inv w (some e, b) v = v
after_scan_refresh-Inv w (none, b) v =
    with_stats-Inv (Http.scanning (Http.begin_scan w b).0) (Http.begin_scan w b).1
      (brief_scan-Inv w b v)

-- Behind a guard that may refuse.
guarded :
    (c : Bool) (a : Answer) (r : Answer × Bot) (b : Bot)
    → Inv b
    → After r
    → Safe (if c then (a, b) else r)
guarded true a r b v p = safe (a, b) v
guarded false a r b v p = safe r p

pub handle-Inv :
    (secret : Bytes) (w : Moment) (r : Route) (req : Http.Request) (b : Bot)
    → Inv b
    → After (handle secret w r req b)
unfolding handle
handle-Inv secret w health req b v = v
handle-Inv secret w stats req b v = with_stats-Inv Http.done b v
handle-Inv secret w Http.ingest req b v =
    (guarded (not (req.method == codes "POST")) Http.method_not_allowed
      (ingest_payload w req.body b) b v (ingest_payload-Inv w req.body b v)).kept
handle-Inv secret w webhook_draft req b v =
    let inner =
      guarded (not (is_allowed secret req)) Http.invalid_secret (draft_payload w req.body b) b v
        (draft_payload-Inv w req.body b v) in
    (choose (not (req.method == codes "POST")) (safe (Http.method_not_allowed, b) v) inner).kept
handle-Inv secret w legacy_erp_webhook req b v =
    (guarded (not (req.method == codes "POST")) Http.method_not_allowed
      (legacy_payload w req.body b) b v (legacy_payload-Inv w req.body b v)).kept
handle-Inv secret w turbo req b v =
    (guarded (not (req.method == codes "POST")) Http.method_not_allowed
      (after_refresh (refresh w b)) b v (after_refresh-Inv (refresh w b) (refresh-Inv w b v))).kept
handle-Inv secret w scan_start req b v =
    (guarded (not (req.method == codes "POST")) Http.method_not_allowed
      (after_scan_refresh w (refresh w b)) b v
      (after_scan_refresh-Inv w (refresh w b) (refresh-Inv w b v))).kept
handle-Inv secret w scan_stop req b v =
    (guarded (not (req.method == codes "POST")) Http.method_not_allowed
      (with_stats Http.done (end_scan w b)) b v
      (with_stats-Inv Http.done (end_scan w b) (end_scan-Inv w b v))).kept
