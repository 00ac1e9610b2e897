-- ===== src/Service.antt =====
-- internal/gobot/service/service.go and service_snapshot.go: the state, and the pieces that hold
-- the lock. The handlers are in the modules below.
pub mod Handlers
pub mod Queue
pub mod Invariant
pub mod Ingest
pub mod Replay
pub mod Refresh
pub mod Submit
pub mod Pipeline
use guhfrtui.Base.{
  ℕ, ◌+◌, ◌-◌, ◌%◌, ◌^◌, Bool, true, false, not, ◌&&◌, ◌||◌, List, [], ◌∷◌, ◌++◌, Option, none,
  some, length, take, ltb, leb, nat_beq, if◌then◌else◌, bytes_eq, ◌==◌, Bytes,
}
use guhfrtui.Base.Int.{ℤ, pos}
use guhfrtui.Base.Sets.{has, insert, delete}
use guhfrtui.Base.Maps.{Map, lookup, put, retain, keys}
use guhfrtui.Text.{is_empty}
use guhfrtui.Text.Sort.{sort_strings}
use guhfrtui.Cache
use guhfrtui.Cache.{Store}
use guhfrtui.Erp
use guhfrtui.Erp.{normalize_unique}

-- The fields of config.Config that the service reads. Durations and times are nanoseconds; 0 is
-- the zero time.
pub record Config : Type 0 where
  pub scan_default_active : Bool
  pub queue_size : ℕ
  pub submit_retry : ℕ
  pub recent_seen_ttl : ℕ

pub record Stats : Type 0 where
  pub cache_size : ℕ
  pub draft_count : ℤ
  pub last_refresh_at : ℕ
  pub last_refresh_ok : Bool
  pub last_error : Option Erp.Error
  pub scan_active : Bool
  pub scan_since : ℕ
  pub seen_total : ℕ
  pub cache_hits : ℕ
  pub cache_misses : ℕ
  pub submitted_ok : ℕ
  pub submit_not_found : ℕ
  pub submit_errors : ℕ
  pub queue_dropped : ℕ
  pub scan_inactive : ℕ

abbrev pub zero_stats : Bool → ℕ → Stats
zero_stats scan_active scan_since = record {
  cache_size = 0;
  draft_count = pos 0;
  last_refresh_at = 0;
  last_refresh_ok = false;
  last_error = none;
  scan_active = scan_active;
  scan_since = scan_since;
  seen_total = 0;
  cache_hits = 0;
  cache_misses = 0;
  submitted_ok = 0;
  submit_not_found = 0;
  submit_errors = 0;
  queue_dropped = 0;
  scan_inactive = 0;
}

-- `++` on a uint64.
abbrev pub bump : ℕ → ℕ
bump n = (n + 1) % 2 ^ 64

-- What the texts sent to the notifier say; the sample lists shortened EPCs and how many more.
pub record Sample : Type 0 where
  pub parts : List Bytes
  pub more : ℕ

pub data Notice : Type 0 where
  draft_epcs : ℕ → ℕ → Sample → Notice
  draft_grew : ℤ → ℤ → ℕ → Notice
  cache_ready : ℤ → ℕ → Notice
  webhook_epcs : ℕ → ℕ → Sample → Notice
  submit_ok submit_error : Bytes → Notice

-- `queue` is the channel, oldest first. `notices` is what the notifier has been sent.
pub record Service : Type 0 where
  pub cfg : Config
  pub cache : Store
  pub queue : List Bytes
  pub inflight : List Bytes
  pub queued : List Bytes
  pub recent_seen : Map ℕ
  pub draft_count : ℤ
  pub last_refresh : ℕ
  pub last_err : Option Erp.Error
  pub scan_active : Bool
  pub scan_since : ℕ
  pub stats : Stats
  pub has_notifier : Bool
  pub notices : List Notice

unfoldable pub new : Config → Store → ℕ → Service
new cfg cache now =
    let scan_since = if cfg.scan_default_active then now else 0 in
    record {
      cfg = cfg;
      cache = cache;
      queue = [];
      inflight = [];
      queued = [];
      recent_seen = [];
      draft_count = pos 0;
      last_refresh = 0;
      last_err = none;
      scan_active = cfg.scan_default_active;
      scan_since = scan_since;
      stats = zero_stats cfg.scan_default_active scan_since;
      has_notifier = false;
      notices = [];
    }

unfoldable pub set_notifier : Bool → Service → Service
set_notifier present s = record s { has_notifier = present }

-- No text of the service is blank, so only a missing notifier drops one.
unfoldable pub notify : Notice → Service → Service
notify text s = if s.has_notifier then record s { notices = s.notices ++ (text ∷ []) } else s

-- The first part of `enqueue`, up to the first unlock: `none` where it returns false.
unfoldable pub mark_queued : Bytes → Service → Option Service
mark_queued epc s =
    if is_empty epc
    then none
    else if has epc s.queued
    then none
    else if has epc s.inflight
    then none
    else some (record s { queued = insert epc s.queued })

-- The second part of `enqueue`: the send, or the undoing where the channel is full.
unfoldable pub send_queue : Bytes → Service → Bool × Service
send_queue epc s =
    if ltb (length s.queue) s.cfg.queue_size
    then (true, record s { queue = s.queue ++ (epc ∷ []) })
    else (
      false,
      record s {
        queued = delete epc s.queued;
        stats = record s.stats { queue_dropped = bump s.stats.queue_dropped };
      },
    )

unfoldable pub enqueue : Bytes → Service → Bool × Service
unfolding mark_queued send_queue
enqueue epc s = elim (mark_queued epc s) [ none ↦ (false, s) | some marked ↦ send_queue epc marked ]

-- The loops over the replay.
unfoldable pub enqueue_all : List Bytes → Service → Service
unfolding enqueue
enqueue_all [] s = s
enqueue_all (epc ∷ rest) s = enqueue_all rest (enqueue epc s).1

unfoldable pub lock_inflight : Bytes → Service → Bool × Service
lock_inflight epc s =
    if has epc s.inflight then (false, s) else (true, record s { inflight = insert epc s.inflight })

unfoldable pub unlock_inflight : Bytes → Service → Service
unlock_inflight epc s = record s { inflight = delete epc s.inflight }

-- `now.Sub(ts) > TTL`; a time stamp ahead of `now` is young.
abbrev pub is_recent : ℕ → ℕ → ℕ → Bool
is_recent ttl now ts = not (ltb ttl (now - ts))

unfoldable pub gc_recent_seen : ℕ → Service → Service
gc_recent_seen now s = record s {
  recent_seen = retain (is_recent s.cfg.recent_seen_ttl now) s.recent_seen;
}

-- The set of a list without the empty string.
unfoldable pub focus_set : List Bytes → List Bytes
focus_set [] = []
focus_set (epc ∷ rest) = let set = focus_set rest in if is_empty epc then set else insert epc set

-- The loop over the recent EPCs.
unfoldable pub select_replay : List Bytes → Store → List Bytes → List Bytes
select_replay focus cache [] = []
select_replay focus cache (epc ∷ rest) =
    let later = select_replay focus cache rest in
    if ltb 0 (length focus) && not (has epc focus)
    then later
    else if Cache.cached cache epc
    then epc ∷ later
    else later

-- `order` is the order in which Go ranges over the map. The result comes with the state, from
-- which the old entries have been deleted.
unfoldable pub collect_replay_candidates :
    (List Bytes → List Bytes) → ℕ → List Bytes → Service → List Bytes × Service
unfolding gc_recent_seen select_replay focus_set
collect_replay_candidates order now focus s =
    let s' = gc_recent_seen now s in
    (select_replay (focus_set focus) s'.cache (order (keys s'.recent_seen)), s')

unfoldable pub normalize_epc_list : List Bytes → List Bytes
normalize_epc_list values = normalize_unique values []

unfoldable pub diff_new_epcs : Service → List Bytes → List Bytes
diff_new_epcs s [] = []
diff_new_epcs s (epc ∷ rest) =
    let later = diff_new_epcs s rest in
    if is_empty epc then later else if Cache.cached s.cache epc then later else epc ∷ later

-- The first sixteen bytes; the marker "..." shows that there are more.
unfoldable pub trim_epc : Bytes → Bytes
trim_epc epc = if leb (length epc) 16 then epc else take 16 epc ++ (b'.' ∷ b'.' ∷ b'.' ∷ [])

trim_all : List Bytes → List Bytes
unfolding trim_epc
trim_all [] = []
trim_all (epc ∷ rest) = trim_epc epc ∷ trim_all rest

-- `max` is 3 at every call.
unfoldable pub summarize_epcs : List Bytes → ℕ → Sample
unfolding trim_all
summarize_epcs epcs max =
    let wanted = if leb max 0 then 1 else max in
    let shown = if ltb (length epcs) wanted then length epcs else wanted in
    record { parts = trim_all (take shown epcs); more = length epcs - shown }
