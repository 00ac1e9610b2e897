-- ===== src/Service/Handlers.antt =====
-- service.go: the handlers, each run as a whole. How they interleave is in Pipeline.
use guhfrtui.Base.{
  ℕ, zero, suc, ◌+◌, Bool, true, false, not, List, [], ◌∷◌, Option, none, some, length, ltb,
  if◌then◌else◌, bytes_eq, Bytes,
}
use guhfrtui.Base.Int.{ℤ, int_lt}
use guhfrtui.Base.Sets.{delete}
use guhfrtui.Base.Maps.{put, keys}
use guhfrtui.Text.{is_empty}
use guhfrtui.Text.Sort.{sort_strings}
use guhfrtui.Epc.{normalize_epc}
use guhfrtui.Cache
use guhfrtui.Erp
use guhfrtui.Erp.{FetchResult, SubmitStatus, submitted, not_found}
use guhfrtui.Service.{
  Stats, bump, draft_epcs, draft_grew, cache_ready, webhook_epcs, submit_ok, submit_error, Service,
  notify, enqueue, enqueue_all, lock_inflight, unlock_inflight, gc_recent_seen,
  collect_replay_candidates, normalize_epc_list, diff_new_epcs, trim_epc, summarize_epcs,
}

-- HandleEPC
pub data Action : Type 0 where
  invalid scan_inactive miss queued_or_dropped queued : Action

pub record IngestResult : Type 0 where
  pub epc : Bytes
  pub action : Action

-- The first locked part: the EPC is remembered, old ones are forgotten, and it is counted.
unfoldable pub observe : ℕ → Bytes → Service → Service
observe now epc s =
    let seen = gc_recent_seen now (record s { recent_seen = put epc now s.recent_seen }) in
    let st = record seen.stats { seen_total = bump seen.stats.seen_total } in
    record seen {
      stats = if seen.scan_active then st else record st { scan_inactive = bump st.scan_inactive };
    }

unfoldable pub count_miss : Service → Service
count_miss s = record s { stats = record s.stats { cache_misses = bump s.stats.cache_misses } }

unfoldable pub count_hit : Service → Service
count_hit s = record s { stats = record s.stats { cache_hits = bump s.stats.cache_hits } }

unfoldable pub handle_epc : ℕ → Bytes → Service → IngestResult × Service
unfolding observe count_miss count_hit
handle_epc now raw s =
    let epc = normalize_epc raw in
    let seen = observe now epc s in
    let (sent, after) = enqueue epc (count_hit seen) in
    if is_empty epc
    then (record { epc = []; action = invalid }, s)
    else if not seen.scan_active
    then (record { epc = epc; action = scan_inactive }, seen)
    else if not (Cache.cached seen.cache epc)
    then (record { epc = epc; action = miss }, count_miss seen)
    else if not sent
    then (record { epc = epc; action = queued_or_dropped }, after)
    else (record { epc = epc; action = queued }, after)

-- SetScanActive; it returns the length of the replay.
unfoldable pub set_scan_active : (List Bytes → List Bytes) → ℕ → Bool → Service → ℕ × Service
set_scan_active order now active s =
    let switched = record s {
      scan_active = active;
      scan_since = if active then now else 0;
      stats = record s.stats { scan_active = active; scan_since = if active then now else 0 };
    } in
    let (replay, collected) = collect_replay_candidates order now [] switched in
    let unchanged = if s.scan_active then active else not active in
    if unchanged
    then (0, s)
    else if active
    then (length replay, enqueue_all replay collected)
    else (0, switched)

-- AddDraftEPCs; it returns the number added and the length of the replay.
unfoldable pub add_draft_epcs :
    (List Bytes → List Bytes) → ℕ → List Bytes → Service → (ℕ × ℕ) × Service
add_draft_epcs order now epcs s =
    let clean = normalize_epc_list epcs in
    let new_epcs = diff_new_epcs s clean in
    let (cache, added) = Cache.add s.cache clean in
    let (replay, collected) =
      collect_replay_candidates order now clean (record s { cache = cache }) in
    let replayed = if collected.scan_active then enqueue_all replay collected else collected in
    let told =
      notify (webhook_epcs added (Cache.size replayed.cache) (summarize_epcs new_epcs 3))
        replayed in
    ((added, length replay), if ltb 0 added then told else replayed)

-- RefreshCache; only "startup" matters of the reasons.
pub data Reason : Type 0 where
  startup other : Reason

abbrev pub is_startup : Reason → Bool
is_startup startup = true
is_startup other = false

unfoldable pub refresh_failed : ℕ → Erp.Error → Service → Service
refresh_failed now e s = record s {
  last_err = some e;
  last_refresh = now;
  stats = record s.stats { last_refresh_at = now; last_refresh_ok = false; last_error = some e };
}

unfoldable pub note_refresh : ℕ → ℤ → Service → Service
note_refresh now draft_count s = record s {
  draft_count = draft_count;
  last_refresh = now;
  last_err = none;
  stats = record s.stats {
    cache_size = Cache.size s.cache;
    draft_count = draft_count;
    last_refresh_at = now;
    last_refresh_ok = true;
    last_error = none;
  };
}

-- The notices at the end.
unfoldable pub announce : Reason → Bool → List Bytes → ℤ → FetchResult → Service → Service
announce reason wants_notice new_epcs prev_draft_count res s =
    let cache_size = Cache.size s.cache in
    let news =
      if ltb 0 (length new_epcs)
      then notify (draft_epcs (length new_epcs) cache_size (summarize_epcs new_epcs 3)) s
      else if int_lt prev_draft_count res.draft_count
      then notify (draft_grew prev_draft_count res.draft_count cache_size) s
      else s in
    let told = if is_startup reason then s else news in
    if wants_notice then notify (cache_ready res.draft_count (length res.epcs)) told else told

-- `fetched` is what the ERP client returns.
unfoldable pub refresh_cache :
    (List Bytes → List Bytes)
    → ℕ
    → Reason
    → Bool
    → Erp.Result FetchResult
    → Service
    → Option Erp.Error × Service
unfolding refresh_failed note_refresh announce
refresh_cache order now reason wants_notice (Erp.err e) s = (some e, refresh_failed now e s)
refresh_cache order now reason wants_notice (Erp.ok res) s =
    let new_epcs = diff_new_epcs s res.epcs in
    let replaced = record s { cache = Cache.replace s.cache res.epcs } in
    let (replay, collected) = collect_replay_candidates order now res.epcs replaced in
    let noted = note_refresh now res.draft_count collected in
    let replayed = if noted.scan_active then enqueue_all replay noted else noted in
    (none, announce reason wants_notice new_epcs s.draft_count res replayed)

-- processSubmit: how the loop over the attempts ends, `err` after the last failure. An answer of
-- the client is one of its two statuses, so the default of the switch is never taken.
pub data Verdict : Type 0 where
  done : SubmitStatus → Verdict
  gave_up : Erp.Error → Verdict

pub record Attempts : Type 0 where
  pub verdict : Verdict
  pub made : ℕ

-- `left` retries are left, `attempt` is the number of the attempt; `client` answers each.
unfoldable pub submit_loop : (ℕ → Erp.Result SubmitStatus) → ℕ → ℕ → Attempts
submit_loop client zero attempt = elim (client attempt) [
  | Erp.ok status ↦ record { verdict = done status; made = attempt + 1 }
  | Erp.err e ↦ record { verdict = gave_up e; made = attempt + 1 }
]
submit_loop client (suc left) attempt = elim (client attempt) [
  | Erp.ok status ↦ record { verdict = done status; made = attempt + 1 }
  | Erp.err e ↦ submit_loop client left (attempt + 1)
]

-- What follows from the verdict.
unfoldable pub settle : Bytes → Verdict → Service → Option Erp.Error × Service
settle epc (done submitted) s =
    let removed = record s { cache = Cache.remove s.cache epc } in
    let counted = record removed {
      stats = record removed.stats {
        submitted_ok = bump removed.stats.submitted_ok;
        cache_size = Cache.size removed.cache;
      };
    } in
    (none, notify (submit_ok (trim_epc epc)) counted)
settle epc (done not_found) s =
    let removed = record s { cache = Cache.remove s.cache epc } in
    (
      none,
      record removed {
        stats = record removed.stats {
          submit_not_found = bump removed.stats.submit_not_found;
          cache_size = Cache.size removed.cache;
        };
      },
    )
settle epc (gave_up e) s =
    let counted = record s {
      stats = record s.stats { submit_errors = bump s.stats.submit_errors };
    } in
    (some e, notify (submit_error (trim_epc epc)) counted)

unfoldable pub process_submit :
    (ℕ → Erp.Result SubmitStatus) → Bytes → Service → Option Erp.Error × Service
unfolding settle submit_loop
process_submit client epc s =
    let (locked, s') = lock_inflight epc s in
    let (e, settled) = settle epc (submit_loop client s.cfg.submit_retry 0).verdict s' in
    if is_empty epc
    then (none, s)
    else if not (Cache.cached s.cache epc)
    then (none, s)
    else if not locked
    then (none, s')
    else (e, unlock_inflight epc settled)

-- One round of a worker, where the channel is not empty.
unfoldable pub work :
    (Bytes → ℕ → Erp.Result SubmitStatus) → Service → Option (Option Erp.Error × Service)
work clients s = elim s.queue [
  | [] ↦ none
  | epc ∷ rest ↦
      some
        (process_submit (clients epc) epc (record s { queue = rest; queued = delete epc s.queued }))
]

-- service_snapshot.go
unfoldable pub recent_seen_epcs : ℕ → Service → List Bytes × Service
recent_seen_epcs now s = let s' = gc_recent_seen now s in (sort_strings (keys s'.recent_seen), s')

unfoldable pub draft_epc_list : Service → List Bytes
draft_epc_list s = Cache.snapshot_sorted s.cache

-- Status, which also brings the statistics up to date.
unfoldable pub status : Service → Stats × Service
status s =
    let st = record s.stats {
      cache_size = Cache.size s.cache;
      draft_count = s.draft_count;
      scan_active = s.scan_active;
      scan_since = s.scan_since;
    } in
    (st, record s { stats = st })
