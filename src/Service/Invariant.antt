-- ===== src/Service/Invariant.antt =====
-- What holds of the service between any two handlers, and of the pieces of the handlers.
pub mod Handlers
pub mod History
use guhfrtui.Base.{
  ℕ, ◌+◌, ◌%◌, ◌^◌, ◌≤◌, ◌≡◌, refl, sym, ap, subst, ◌∙◌, Bool, true, false, not, ◌&&◌, ◌||◌, inl,
  inr, List, [], ◌∷◌, ◌++◌, Option, none, some, arith, length, if◌then◌else◌, bytes_eq,
  bytes_beq_iff, ◌==◌, Bool-cases, if_intro, List-cases, Bytes,
}
use guhfrtui.Base.Sets.{has, insert, delete, IsUnique, count, has-delete, has-insert}
use guhfrtui.Base.Maps.{put, retain, keys, put-IsUnique, retain-IsUnique}
use guhfrtui.Text.{is_empty}
use guhfrtui.Epc.{normalize_epc}
use guhfrtui.Cache
use guhfrtui.Cache.{Store}
use guhfrtui.Cache.Laws.{IsValid, add-IsValid, replace-IsValid, remove-IsValid}
use guhfrtui.Erp
use guhfrtui.Erp.{FetchResult, SubmitStatus, submitted, not_found}
use guhfrtui.Service.{
  Config, Service, new, bump, Notice, notify, enqueue, enqueue_all, lock_inflight, unlock_inflight,
  gc_recent_seen, is_recent, collect_replay_candidates,
}
use guhfrtui.Service.Handlers.{
  observe, count_miss, count_hit, handle_epc, set_scan_active, add_draft_epcs, Reason, announce,
  note_refresh, refresh_failed, refresh_cache, Verdict, done, gave_up, settle, submit_loop,
  process_submit, work, recent_seen_epcs, status,
}
use guhfrtui.Service.Queue.{
  Keeps, AtRest, enqueue-Keeps, enqueue-AtRest, enqueue_all-Keeps, enqueue_all-AtRest,
}

-- Every EPC seen is counted once more: as a hit, as a miss or as seen while scanning was off.
abbrev pub Accounted : Service → Type 0
Accounted s =
    s.stats.seen_total
    ≡ (s.stats.cache_hits + s.stats.cache_misses + s.stats.scan_inactive) % 2 ^ 64

pub record Inv (s : Service) : Type 0 where
  pub accounted : Accounted s
  pub at_rest : AtRest s
  pub cache_valid : IsValid s.cache
  pub seen_once : IsUnique (keys s.recent_seen)

pub new-Inv : (cfg : Config) (cache : Store) (now : ℕ) → IsValid cache → Inv (new cfg cache now)
unfolding new has count keys
new-Inv cfg cache now v = record {
  accounted = refl;
  at_rest = record { marked = λ x. refl; bounded = omega arith; idle = refl };
  cache_valid = v;
  seen_once = tt;
}

-- The queue may change if it stays at rest.
Keeps-Inv : {s s' : Service} → Keeps s s' → AtRest s' → Inv s → Inv s'
Keeps-Inv {s} {s'} k r v = record {
  accounted =
      ground (arith, k.seen_total, k.cache_hits, k.cache_misses, k.scan_inactive, v.accounted);
  at_rest = r;
  cache_valid = subst IsValid (sym k.cache) v.cache_valid;
  seen_once = subst (λ m. IsUnique (keys m)) (sym k.recent_seen) v.seen_once;
}

pub enqueue-Inv : (x : Bytes) (s : Service) → Inv s → Inv (enqueue x s).1
enqueue-Inv x s v = Keeps-Inv (enqueue-Keeps x s) (enqueue-AtRest x s v.at_rest) v

pub enqueue_all-Inv : (xs : List Bytes) (s : Service) → Inv s → Inv (enqueue_all xs s)
enqueue_all-Inv xs s v = Keeps-Inv (enqueue_all-Keeps xs s) (enqueue_all-AtRest xs s v.at_rest) v

-- Queue, marks, in-flight set and counters of EPCs are the same: the rest may change.
pub record SameCore (s s' : Service) : Type 0 where
  cfg : s'.cfg ≡ s.cfg
  queue : s'.queue ≡ s.queue
  queued : s'.queued ≡ s.queued
  inflight : s'.inflight ≡ s.inflight
  seen_total : s'.stats.seen_total ≡ s.stats.seen_total
  cache_hits : s'.stats.cache_hits ≡ s.stats.cache_hits
  cache_misses : s'.stats.cache_misses ≡ s.stats.cache_misses
  scan_inactive : s'.stats.scan_inactive ≡ s.stats.scan_inactive

pub SameCore-AtRest : {s s' : Service} → SameCore s s' → AtRest s → AtRest s'
SameCore-AtRest {s} {s'} k r = record {
  marked = λ x. ground (arith, r.marked x, ap (count x) k.queue, ap (has x) k.queued);
  bounded = ground (arith, r.bounded, ap length k.queue, ap (λ c. c.queue_size) k.cfg);
  idle = k.inflight ∙ r.idle;
}

SameCore-Inv :
    {s s' : Service}
    → SameCore s s'
    → IsValid s'.cache
    → IsUnique (keys s'.recent_seen)
    → Inv s
    → Inv s'
SameCore-Inv {s} {s'} k c u v = record {
  accounted =
      ground (arith, k.seen_total, k.cache_hits, k.cache_misses, k.scan_inactive, v.accounted);
  at_rest = SameCore-AtRest k v.at_rest;
  cache_valid = c;
  seen_once = u;
}

same : (s : Service) → SameCore s s
same s = ground arith

gc-IsUnique :
    (now : ℕ) (s : Service)
    → IsUnique (keys s.recent_seen)
    → IsUnique (keys (gc_recent_seen now s).recent_seen)
unfolding gc_recent_seen
gc-IsUnique now s u = retain-IsUnique (is_recent s.cfg.recent_seen_ttl now) s.recent_seen u

gc-SameCore : (now : ℕ) (s : Service) → SameCore s (gc_recent_seen now s)
unfolding gc_recent_seen
gc-SameCore now s = ground arith

pub gc-Inv : (now : ℕ) (s : Service) → Inv s → Inv (gc_recent_seen now s)
unfolding gc_recent_seen
gc-Inv now s v = SameCore-Inv (gc-SameCore now s) v.cache_valid (gc-IsUnique now s v.seen_once) v

pub collect-Inv :
    (order : List Bytes → List Bytes) (now : ℕ) (focus : List Bytes) (s : Service)
    → Inv s
    → Inv (collect_replay_candidates order now focus s).1
unfolding collect_replay_candidates
collect-Inv order now focus s v = gc-Inv now s v

-- A step whose core fields are those of `s` by computation, with `s'` and its parts given.
pub same-Inv :
    {s : Service} (s' : Service)
    → SameCore s s'
    → IsValid s'.cache
    → Inv s
    → s'.recent_seen ≡ s.recent_seen
    → Inv s'
same-Inv s' k c v r = SameCore-Inv k c (subst (λ m. IsUnique (keys m)) (sym r) v.seen_once) v

pub notify-Inv : (n : Notice) (s : Service) → Inv s → Inv (notify n s)
unfolding notify
notify-Inv n s v =
    if_intro Inv s.has_notifier
      (λ on.
        same-Inv (record s { notices = s.notices ++ (n ∷ []) }) (ground arith) v.cache_valid v refl)
      (λ off. v)

-- After the first part of `HandleEPC` the EPC is in the total, and, unless scanning is off, still
-- to be counted as a hit or a miss.
pub record Owes (s : Service) : Type 0 where
  owes :
      s.stats.seen_total
      ≡ (s.stats.cache_hits
          + s.stats.cache_misses
          + s.stats.scan_inactive
          + (if s.scan_active then 1 else 0))
        % 2 ^ 64
  at_rest : AtRest s
  cache_valid : IsValid s.cache
  seen_once : IsUnique (keys s.recent_seen)

pub observe-Owes : (now : ℕ) (x : Bytes) (s : Service) → Inv s → Owes (observe now x s)
unfolding observe gc_recent_seen
observe-Owes now x s v = record {
  owes = ground (arith, v.accounted);
  at_rest = record {
    marked = λ y. ground (arith, v.at_rest.marked y);
    bounded = ground (arith, v.at_rest.bounded);
    idle = ground (arith, v.at_rest.idle);
  };
  cache_valid = v.cache_valid;
  seen_once =
      retain-IsUnique (is_recent s.cfg.recent_seen_ttl now) (put x now s.recent_seen)
        (put-IsUnique x now s.recent_seen v.seen_once);
}

pub count_hit-Inv : (s : Service) → s.scan_active ≡ true → Owes s → Inv (count_hit s)
unfolding count_hit
count_hit-Inv s on o = record {
  accounted = ground (arith, o.owes);
  at_rest = record {
    marked = o.at_rest.marked;
    bounded = o.at_rest.bounded;
    idle = o.at_rest.idle;
  };
  cache_valid = o.cache_valid;
  seen_once = o.seen_once;
}

pub count_miss-Inv : (s : Service) → s.scan_active ≡ true → Owes s → Inv (count_miss s)
unfolding count_miss
count_miss-Inv s on o = record {
  accounted = ground (arith, o.owes);
  at_rest = record {
    marked = o.at_rest.marked;
    bounded = o.at_rest.bounded;
    idle = o.at_rest.idle;
  };
  cache_valid = o.cache_valid;
  seen_once = o.seen_once;
}

pub inactive-Inv : (s : Service) → s.scan_active ≡ false → Owes s → Inv s
inactive-Inv s off o = record {
  accounted = ground (arith, o.owes);
  at_rest = o.at_rest;
  cache_valid = o.cache_valid;
  seen_once = o.seen_once;
}
