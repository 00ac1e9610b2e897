-- ===== src/Service/Ingest.antt =====
-- `HandleEPC` on every branch.
use guhfrtui.Base.{
  ℕ, ◌≡◌, ap, Bool, true, false, not, ◌&&◌, [], ◌∷◌, ◌++◌, some, arith, length, ltb, if◌then◌else◌,
  bytes_eq, ◌==◌, Bytes,
}
use guhfrtui.Base.Sets.{has, IsUnique}
use guhfrtui.Base.Maps.{lookup, put, retain, keys, keep_if, lookup-put, lookup-retain, put-IsUnique}
use guhfrtui.Text.{is_empty}
use guhfrtui.Epc.{normalize_epc}
use guhfrtui.Cache
use guhfrtui.Service.{Service, is_recent, gc_recent_seen}
use guhfrtui.Service.Handlers.{
  Action, invalid, scan_inactive, miss, queued_or_dropped, queued, observe, count_miss, count_hit,
  handle_epc,
}
use guhfrtui.Service.Queue.{enqueue_lem, enqueue-Keeps}

-- There is room for the EPC and it is on no way to a worker yet.
abbrev pub is_free : Service → Bytes → Bool
is_free s x =
    not (has x s.queued) && not (has x s.inflight) && ltb (length s.queue) s.cfg.queue_size

-- What becomes of a normalized EPC.
abbrev pub fate : Service → Bytes → Action
fate s x =
    if is_empty x
    then invalid
    else if not s.scan_active
    then scan_inactive
    else if not (Cache.cached s.cache x)
    then miss
    else if is_free s x
    then queued
    else queued_or_dropped

abbrev pub is_queued : Action → Bool
is_queued queued = true
is_queued _ = false

module _ (now : ℕ) (raw : Bytes) (s : Service) where
  abbrev x : Bytes
  x = normalize_epc raw

  abbrev hit : Service
  hit = count_hit (observe now x s)

  handle_epc-action :
      ((handle_epc now raw s).0.epc ≡ x) × ((handle_epc now raw s).0.action ≡ fate s x)
  unfolding handle_epc count_hit observe gc_recent_seen
  handle_epc-action = ground (arith, (enqueue_lem x hit).0)

  handle_epc-queue :
      (handle_epc now raw s).1.queue
      ≡ (if is_queued (fate s x) then s.queue ++ (x ∷ []) else s.queue)
  unfolding handle_epc count_hit count_miss observe gc_recent_seen
  handle_epc-queue = ground (arith, (enqueue_lem x hit).1)

  handle_epc-recent_seen : (handle_epc now raw s).1.recent_seen ≡ (
      if is_empty x
      then s.recent_seen
      else retain (is_recent s.cfg.recent_seen_ttl now) (put x now s.recent_seen))
  unfolding handle_epc count_hit count_miss observe gc_recent_seen
  handle_epc-recent_seen = ground (arith, (enqueue-Keeps x hit).recent_seen)

  handle_epc-rest :
      ((handle_epc now raw s).1.cache ≡ s.cache) × ((handle_epc now raw s).1.inflight ≡ s.inflight)
  unfolding handle_epc count_hit count_miss observe gc_recent_seen
  handle_epc-rest = ground (arith, (enqueue-Keeps x hit).cache, (enqueue-Keeps x hit).inflight)

  -- `HandleEPC` reports the normalized EPC and its fate: invalid without hex digits, then inactive
  -- scanning, then a miss of the cache, then queued if it is neither marked nor in flight and the
  -- channel has room, and dropped otherwise. Only a queued one is appended to the channel, the
  -- cache and the in-flight set are unchanged, and where each recently seen EPC is recorded once,
  -- every valid EPC is remembered with its time and the entries older than the limit are forgotten.
  pub handle_epc_lem :
      IsUnique (keys s.recent_seen)
      → let (answer, after) = handle_epc now raw s in
        (answer.epc ≡ x)
        × (answer.action ≡ fate s x)
        × (after.queue ≡ (if is_queued (fate s x) then s.queue ++ (x ∷ []) else s.queue))
        × (after.cache ≡ s.cache)
        × (after.inflight ≡ s.inflight)
        × ((y : Bytes)
            → lookup y after.recent_seen ≡ (
                if is_empty x
                then lookup y s.recent_seen
                else if x == y
                then some now
                else keep_if (is_recent s.cfg.recent_seen_ttl now) (lookup y s.recent_seen)))
  handle_epc_lem u = (
    handle_epc-action.0,
    handle_epc-action.1,
    handle_epc-queue,
    handle_epc-rest.0,
    handle_epc-rest.1,
    λ y. ground (
      arith,
      ap (lookup y) handle_epc-recent_seen,
      lookup-retain (is_recent s.cfg.recent_seen_ttl now) y (put x now s.recent_seen)
          (put-IsUnique x now s.recent_seen u),
      lookup-put x y now s.recent_seen,
    ),
  )
