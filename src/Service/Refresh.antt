-- ===== src/Service/Refresh.antt =====
-- `RefreshCache`: the cache after an answer of the ERP server, and what it puts in the channel.
use guhfrtui.Base.{
  ℕ, ◌+◌, ◌-◌, ◌≤◌, ◌≡◌, refl, ap, ◌∙◌, Bool, true, false, List, Option, none, some, arith, length,
  ltb, if◌then◌else◌, bytes_eq, Bytes, if_intro,
}
use guhfrtui.Base.Int.{ℤ, int_lt}
use guhfrtui.Base.Sets.{has, count}
use guhfrtui.Base.Maps.{lookup}
use guhfrtui.Text.{is_empty}
use guhfrtui.Cache
use guhfrtui.Cache.Laws.{mentions, cached-replace}
use guhfrtui.Erp
use guhfrtui.Erp.{FetchResult}
use guhfrtui.Service.{
  Service, Notice, notify, enqueue_all, gc_recent_seen, collect_replay_candidates,
}
use guhfrtui.Service.Handlers.{
  Reason, is_startup, announce, note_refresh, refresh_failed, refresh_cache,
}
use guhfrtui.Service.Queue.{AtRest, enqueue_all-Keeps}
use guhfrtui.Service.Invariant.{Inv}
use guhfrtui.Service.Replay.{
  IsOrder, has-focus_set, collect_has, collect-AtRest, collect-room, enqueue_all_sends,
}

-- What the notices leave alone, as far as the theorems below speak of it.
record Quiet (s t : Service) : Type 0 where
  cache : t.cache ≡ s.cache
  queue : t.queue ≡ s.queue
  draft_count : t.draft_count ≡ s.draft_count
  last_err : t.last_err ≡ s.last_err

notify-Quiet : (n : Notice) (s : Service) → Quiet s (notify n s)
unfolding notify
notify-Quiet n s = ground arith

Quiet-trans : {s t u : Service} → Quiet s t → Quiet t u → Quiet s u
Quiet-trans h k = ground arith

announce-Quiet :
    (reason : Reason) (wants : Bool) (new_epcs : List Bytes) (prev : ℤ) (res : FetchResult)
    (s : Service)
    → Quiet s (announce reason wants new_epcs prev res s)
unfolding announce
announce-Quiet reason wants new_epcs prev res s =
    let same : Quiet s s = ground arith in
    let news =
      if_intro (Quiet s) (ltb 0 (length new_epcs)) (λ some. notify-Quiet _ s)
        (λ none.
          if_intro (Quiet s) (int_lt prev res.draft_count) (λ grew. notify-Quiet _ s)
            (λ flat. same)) in
    let told = if_intro (Quiet s) (is_startup reason) (λ first. same) (λ later. news) in
    if_intro (Quiet s) wants (λ yes. Quiet-trans told (notify-Quiet _ _)) (λ no. told)

module _ (order : List Bytes → List Bytes) (now : ℕ) (res : FetchResult) (s : Service) where
  -- The service before the replay.
  abbrev fresh : Service
  fresh = record s { cache = Cache.replace s.cache res.epcs }

  abbrev replay : List Bytes
  replay = (collect_replay_candidates order now res.epcs fresh).0

  abbrev noted : Service
  noted = note_refresh now res.draft_count (collect_replay_candidates order now res.epcs fresh).1

  abbrev replayed : Service
  replayed = if noted.scan_active then enqueue_all replay noted else noted

  refresh_cache-Quiet :
      (reason : Reason) (wants : Bool)
      → Quiet replayed (refresh_cache order now reason wants (Erp.ok res) s).1
  unfolding refresh_cache
  refresh_cache-Quiet reason wants = announce-Quiet reason wants _ _ res replayed

  replayed-cache : replayed.cache ≡ Cache.replace s.cache res.epcs
  unfolding note_refresh collect_replay_candidates gc_recent_seen
  replayed-cache = ground (arith, (enqueue_all-Keeps replay noted).cache)

  replayed-notes : (replayed.draft_count ≡ res.draft_count) × (replayed.last_err ≡ none)
  unfolding note_refresh collect_replay_candidates gc_recent_seen
  replayed-notes = ground (
    arith,
    (enqueue_all-Keeps replay noted).draft_count,
    (enqueue_all-Keeps replay noted).last_err,
  )

  noted-AtRest : AtRest s → AtRest noted
  unfolding note_refresh
  noted-AtRest r =
      let c =
        collect-AtRest order now res.epcs fresh
          (record { marked = r.marked; bounded = r.bounded; idle = r.idle }) in
      record { marked = c.marked; bounded = c.bounded; idle = c.idle }

  replayed_on : s.scan_active ≡ true → replayed ≡ enqueue_all replay noted
  unfolding note_refresh collect_replay_candidates gc_recent_seen
  replayed_on on = ground (arith, on)

  refresh_cache_ok :
      (reason : Reason) (wants : Bool)
      → let after = (refresh_cache order now reason wants (Erp.ok res) s).1 in
        ((x : Bytes) → Cache.cached after.cache x ≡ mentions res.epcs x)
        × (after.draft_count ≡ res.draft_count)
        × (after.last_err ≡ none)
  refresh_cache_ok reason wants =
      let q = refresh_cache-Quiet reason wants in
      (
        λ x.
            ap (λ c. Cache.cached c x) (q.cache ∙ replayed-cache)
            ∙ cached-replace s.cache x res.epcs,
        q.draft_count ∙ replayed-notes.0,
        q.last_err ∙ replayed-notes.1,
      )

  -- While scanning is on, in a state that meets the service's invariant, with room in the channel
  -- for every recently seen EPC: each EPC that was seen within the time limit and that the ERP
  -- server now lists is in the channel after the refresh, exactly once.
  pub refresh_cache_replays :
      (reason : Reason) (wants : Bool) (x : Bytes) (ts : ℕ)
      → IsOrder order
      → Inv s
      → s.scan_active ≡ true
      → lookup x s.recent_seen ≡ some ts
      → now - ts ≤ s.cfg.recent_seen_ttl
      → has x res.epcs ≡ true
      → is_empty x ≡ false
      → length s.queue + length s.recent_seen ≤ s.cfg.queue_size
      → count x (refresh_cache order now reason wants (Erp.ok res) s).1.queue ≡ 1
  refresh_cache_replays reason wants x ts o v on seen young listed full room =
      let there =
        collect_has order now res.epcs fresh o v.seen_once x ts seen (ground (arith, young))
          (ground (arith, has-focus_set x res.epcs, listed, full))
          (cached-replace s.cache x res.epcs ∙ ground (arith, listed, full)) in
      let sent =
        enqueue_all_sends replay x noted (noted-AtRest v.at_rest)
          (unfold note_refresh in collect-room order now res.epcs fresh o room) there full in
      ap (count x) (refresh_cache-Quiet reason wants).queue
      ∙ ap (λ t. count x t.queue) (replayed_on on)
      ∙ sent

-- What the service should know after the answer of the ERP server.
abbrev pub expected_error : Erp.Result FetchResult → Option Erp.Error
expected_error (Erp.ok res) = none
expected_error (Erp.err e) = some e

abbrev pub expected_cached : Service → Erp.Result FetchResult → Bytes → Bool
expected_cached s (Erp.ok res) x = mentions res.epcs x
expected_cached s (Erp.err e) x = Cache.cached s.cache x

abbrev pub expected_count : Service → Erp.Result FetchResult → ℤ
expected_count s (Erp.ok res) = res.draft_count
expected_count s (Erp.err e) = s.draft_count

-- After a refresh that the ERP server answers, the cache holds exactly the fetched EPCs, except
-- the empty string, and the draft count is the server's. After a failed one the cache and the
-- draft count are as before. The failure, or that there is none, is reported and recorded.
pub refresh_cache_lem :
    (order : List Bytes → List Bytes) (now : ℕ) (reason : Reason) (wants : Bool)
    (fetched : Erp.Result FetchResult) (s : Service)
    → let (e, after) = refresh_cache order now reason wants fetched s in
      (e ≡ expected_error fetched)
      × (after.last_err ≡ expected_error fetched)
      × ((x : Bytes) → Cache.cached after.cache x ≡ expected_cached s fetched x)
      × (after.draft_count ≡ expected_count s fetched)
refresh_cache_lem order now reason wants (Erp.ok res) s =
    let (caches, counts, clears) = refresh_cache_ok order now res s reason wants in
    (unfold refresh_cache in refl, clears, caches, counts)
refresh_cache_lem order now reason wants (Erp.err e) s =
    unfold refresh_cache refresh_failed in (refl, refl, λ x. refl, refl)
