-- ===== src/Tests/Service.antt =====
-- A service whose cache holds two EPCs: reads, the start of scanning, a refresh, a submission.
use guhfrtui.Base.{
  ℕ, ◌+◌, ◌≤◌, ◌≡◌, refl, Bool, true, false, if◌then◌else◌, ◌==◌, bytes_eq, List, [], ◌∷◌, ◌++◌,
  none, some, length, nat_beq, Bytes, bytes_beq, arith,
}
use guhfrtui.Base.Int.{pos}
use guhfrtui.Base.Sets.{has, count, insert}
use guhfrtui.Base.Maps.{lookup, keep_if, keys}
use guhfrtui.Text.{is_empty}
use guhfrtui.Epc.{normalize_epc}
use guhfrtui.Cache
use guhfrtui.Cache.{Store}
use guhfrtui.Cache.Laws.{IsValid}
use guhfrtui.Erp
use guhfrtui.Erp.{FetchResult, SubmitStatus, submitted}
use guhfrtui.Service.{Config, zero_stats, Service, new, mark_queued, is_recent}
use guhfrtui.Service.Handlers.{startup, other, handle_epc, set_scan_active, refresh_cache}
use guhfrtui.Service.Invariant.{Inv}
use guhfrtui.Service.Invariant.History.{run, handles, switches, service_history-Inv}
use guhfrtui.Service.Ingest.{fate, is_queued, handle_epc_lem}
use guhfrtui.Service.Replay.{IsOrder, set_scan_active_replays}
use guhfrtui.Service.Refresh.{
  expected_error, expected_cached, expected_count, refresh_cache_lem, refresh_cache_replays,
}
use guhfrtui.Service.Submit.{Outcome, is_submittable, process_submit_lem}
use guhfrtui.Service.Pipeline.{World, Reach, here, next, marks, initial, one_if, pipeline_safe}

abbrev e2_epc : Bytes
e2_epc = b'E' ∷ b'2' ∷ []

abbrev upper_epc : Bytes
upper_epc = b'3' ∷ b'A' ∷ []

abbrev lower_epc : Bytes
lower_epc = b'3' ∷ b'a' ∷ []

abbrev config : Config
config = record {
  scan_default_active = false;
  queue_size = 4;
  submit_retry = 1;
  recent_seen_ttl = 100;
}

abbrev cache : Store
cache = record { epcs = e2_epc ∷ upper_epc ∷ [] }

cache-IsValid : IsValid cache
unfolding has bytes_beq
cache-IsValid = record { unique = (refl, (refl, tt)); no_empty = refl }

-- The EPC "3A" has been read at time 10, while scanning was off.
abbrev service : Bool → Service
service active = record {
  cfg = config;
  cache = cache;
  queue = [];
  inflight = [];
  queued = [];
  recent_seen = (upper_epc, 10) ∷ [];
  draft_count = pos 0;
  last_refresh = 0;
  last_err = none;
  scan_active = active;
  scan_since = 0;
  stats = record (zero_stats active 0) { seen_total = 1; scan_inactive = 1 };
  has_notifier = false;
  notices = [];
}

service-Inv : (active : Bool) → Inv (service active)
unfolding has count keys
service-Inv active = record {
  accounted = refl;
  at_rest = record { marked = λ x. refl; bounded = omega arith; idle = refl };
  cache_valid = cache-IsValid;
  seen_once = (refl, tt);
}

seen_upper : (active : Bool) → lookup upper_epc (service active).recent_seen ≡ some 10
unfolding lookup bytes_beq
seen_upper active = refl

-- Go may range over the map in the order of this list.
abbrev in_order : List Bytes → List Bytes
in_order xs = xs

in_order-IsOrder : IsOrder in_order
in_order-IsOrder = record { same_keys = λ x xs. refl; same_length = λ xs. refl }

service_history-Inv_example :
    Inv (run (handles 10 lower_epc ∷ switches in_order 11 true ∷ []) (new config cache 1))
service_history-Inv_example =
    service_history-Inv config cache 1 (handles 10 lower_epc ∷ switches in_order 11 true ∷ [])
      cache-IsValid

set_scan_active_replays_example :
    count upper_epc (set_scan_active in_order 20 true (service false)).1.queue ≡ 1
set_scan_active_replays_example =
    set_scan_active_replays in_order 20 (service false) upper_epc 10 in_order-IsOrder
      (service-Inv false) refl (seen_upper false) (omega arith)
      (unfold Cache.cached has bytes_beq in refl) refl (omega arith)

-- The ERP server now lists "3A" only.
abbrev listed : FetchResult
listed = record { epcs = upper_epc ∷ []; draft_count = pos 1 }

refresh_cache_replays_example :
    count upper_epc (refresh_cache in_order 20 other false (Erp.ok listed) (service true)).1.queue
    ≡ 1
refresh_cache_replays_example =
    refresh_cache_replays in_order 20 listed (service true) other false upper_epc 10
      in_order-IsOrder (service-Inv true) refl (seen_upper true) (omega arith)
      (unfold has bytes_beq in refl) refl (omega arith)

refresh_cache_lem_example :
    let (e, after) = refresh_cache in_order 20 startup true (Erp.ok listed) (service true) in
    (e ≡ expected_error (Erp.ok listed))
    × (after.last_err ≡ expected_error (Erp.ok listed))
    × ((x : Bytes) → Cache.cached after.cache x ≡ expected_cached (service true) (Erp.ok listed) x)
    × (after.draft_count ≡ expected_count (service true) (Erp.ok listed))
refresh_cache_lem_example =
    refresh_cache_lem in_order 20 startup true (Erp.ok listed) (service true)

handle_epc_lem_example :
    let (answer, after) = handle_epc 30 lower_epc (service true) in
    (answer.epc ≡ normalize_epc lower_epc)
    × (answer.action ≡ fate (service true) (normalize_epc lower_epc))
    × (after.queue ≡ (
        if is_queued (fate (service true) (normalize_epc lower_epc))
        then (service true).queue ++ (normalize_epc lower_epc ∷ [])
        else (service true).queue))
    × (after.cache ≡ (service true).cache)
    × (after.inflight ≡ (service true).inflight)
    × ((y : Bytes)
        → lookup y after.recent_seen ≡ (
            if is_empty (normalize_epc lower_epc)
            then lookup y (service true).recent_seen
            else if normalize_epc lower_epc == y
            then some 30
            else keep_if (is_recent 100 30) (lookup y (service true).recent_seen)))
handle_epc_lem_example = handle_epc_lem 30 lower_epc (service true) (service-Inv true).seen_once

-- The first attempt fails, the second is taken.
abbrev client : ℕ → Erp.Result SubmitStatus
client n = if nat_beq n 0 then Erp.err Erp.decode else Erp.ok submitted

process_submit_lem_example :
    Outcome client e2_epc (service true) (is_submittable (service true) e2_epc)
process_submit_lem_example = process_submit_lem client e2_epc (service true)

-- One EPC is marked, sent and received.
abbrev marked : World
marked = record (initial config cache 1) {
  svc = record (new config cache 1) { queued = insert e2_epc [] };
  sending = e2_epc ∷ [];
}

reached : Reach (initial config cache 1) marked
reached = next here (
    marks e2_epc (record (new config cache 1) { queued = insert e2_epc [] })
      (unfold new mark_queued has insert bytes_beq in refl))

pipeline_safe_example :
    ((x : Bytes) → count x marked.submitting ≤ 1)
    × ((x : Bytes) → count x marked.svc.queue ≤ 1)
    × (length marked.svc.queue ≤ marked.svc.cfg.queue_size)
    × ((x : Bytes)
        → count x marked.sending + count x marked.svc.queue + count x marked.received
          ≡ one_if (has x marked.svc.queued))
pipeline_safe_example = pipeline_safe config cache 1 reached
