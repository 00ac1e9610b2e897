-- ===== src/Service/Replay.antt =====
-- The replay of recently seen EPCs, after scanning starts or the cache changes.
use guhfrtui.Base.{
  ℕ, ◌+◌, ◌-◌, ◌≤◌, ◌≡◌, refl, ap, ◌∙◌, Bool, true, false, not, ◌&&◌, ◌||◌, inl, inr, List, [], ◌∷◌,
  some, arith, length, ltb, bytes_eq, bytes_beq_iff, Bytes,
}
use guhfrtui.Base.Sets.{has, has-insert, IsUnique, count}
use guhfrtui.Base.Maps.{Map, lookup, retain, keys, lookup-retain, has-keys}
use guhfrtui.Text.{is_empty}
use guhfrtui.Cache
use guhfrtui.Cache.{Store}
use guhfrtui.Service.{
  Service, enqueue_all, is_recent, gc_recent_seen, focus_set, select_replay,
  collect_replay_candidates,
}
use guhfrtui.Service.Handlers.{set_scan_active}
use guhfrtui.Service.Queue.{AtRest, enqueue_all-AtRest, enqueue_all_covers}
use guhfrtui.Service.Invariant.{Inv}

-- Go ranges over every key of a map once, in an order that it does not promise.
pub record IsOrder (order : List Bytes → List Bytes) : Type 0 where
  pub same_keys : (x : Bytes) (xs : List Bytes) → has x (order xs) ≡ has x xs
  pub same_length : (xs : List Bytes) → length (order xs) ≡ length xs

pub has-focus_set :
    (x : Bytes) (xs : List Bytes) → has x (focus_set xs) ≡ (not (is_empty x) && has x xs)
unfolding focus_set has
has-focus_set x [] = ground arith
has-focus_set x (y ∷ ys) = ground (
  arith,
  has-focus_set x ys,
  has-insert y x (focus_set ys),
  bytes_beq_iff y x,
  ap is_empty {x = y} {y = x},
)

-- What the focus lets through.
abbrev pub in_focus : List Bytes → Bytes → Bool
in_focus focus x = not (ltb 0 (length focus)) || has x focus

has-select_replay :
    (x : Bytes) (focus : List Bytes) (cache : Store) (xs : List Bytes)
    → has x (select_replay focus cache xs) ≡ (has x xs && in_focus focus x && Cache.cached cache x)
unfolding select_replay has
has-select_replay x focus cache [] = ground arith
has-select_replay x focus cache (y ∷ ys) = ground (
  arith,
  has-select_replay x focus cache ys,
  bytes_beq_iff y x,
  ap (in_focus focus) {x = y} {y = x},
  ap (Cache.cached cache) {x = y} {y = x},
)

length-select_replay :
    (focus : List Bytes) (cache : Store) (xs : List Bytes)
    → length (select_replay focus cache xs) ≤ length xs
unfolding select_replay
length-select_replay focus cache [] = omega arith
length-select_replay focus cache (y ∷ ys) = ground (arith, length-select_replay focus cache ys)

pub length-keys : {V : Type 0} (m : Map V) → length (keys m) ≡ length m
unfolding keys
length-keys [] = refl
length-keys ((j, w) ∷ m) = ground (arith, length-keys m)

length-retain : {V : Type 0} (p : V → Bool) (m : Map V) → length (retain p m) ≤ length m
unfolding retain
length-retain p [] = omega arith
length-retain p ((j, w) ∷ m) = ground (arith, length-retain p m)

module _ (order : List Bytes → List Bytes) (now : ℕ) (focus : List Bytes) (s : Service) where
  pub collect_has :
      IsOrder order
      → IsUnique (keys s.recent_seen)
      → (x : Bytes) (ts : ℕ) → lookup x s.recent_seen ≡ some ts
      → is_recent s.cfg.recent_seen_ttl now ts ≡ true
      → in_focus (focus_set focus) x ≡ true
      → Cache.cached s.cache x ≡ true
      → has x (collect_replay_candidates order now focus s).0 ≡ true
  unfolding collect_replay_candidates gc_recent_seen
  collect_has o u x ts seen young wanted known =
      let m = retain (is_recent s.cfg.recent_seen_ttl now) s.recent_seen in
      let kept = lookup-retain (is_recent s.cfg.recent_seen_ttl now) x s.recent_seen u in
      let there = has-keys x m ts (kept ∙ ground (arith, seen, young)) in
      ground (
        arith,
        has-select_replay x (focus_set focus) s.cache (order (keys m)),
        o.same_keys x (keys m),
        there,
      )

  pub collect_length :
      IsOrder order → length (collect_replay_candidates order now focus s).0 ≤ length s.recent_seen
  unfolding collect_replay_candidates gc_recent_seen
  collect_length o =
      let m = retain (is_recent s.cfg.recent_seen_ttl now) s.recent_seen in
      omega (
        arith,
        length-select_replay (focus_set focus) s.cache (order (keys m)),
        o.same_length (keys m),
        length-keys m,
        length-retain (is_recent s.cfg.recent_seen_ttl now) s.recent_seen,
      )

-- In a state at rest with room, each EPC of the list ends up in the channel, once.
pub enqueue_all_sends :
    (xs : List Bytes) (x : Bytes) (s : Service)
    → AtRest s
    → length s.queue + length xs ≤ s.cfg.queue_size
    → has x xs ≡ true
    → is_empty x ≡ false
    → count x (enqueue_all xs s).queue ≡ 1
enqueue_all_sends xs x s r room there full = elim (enqueue_all_covers xs x s room there full) [
  | inl flying ↦ unfold has in ground (arith, flying, ap (has x) r.idle)
  | inr marked ↦ ground (arith, (enqueue_all-AtRest xs s r).marked x)
]

abbrev switched : ℕ → Service → Service
switched now s = record s {
  scan_active = true;
  scan_since = now;
  stats = record s.stats { scan_active = true; scan_since = now };
}

set_scan_active-on :
    (order : List Bytes → List Bytes) (now : ℕ) (s : Service)
    → s.scan_active ≡ false
    → let (replay, collected) = collect_replay_candidates order now [] (switched now s) in
      (set_scan_active order now true s).1 ≡ enqueue_all replay collected
unfolding set_scan_active
set_scan_active-on order now s off = ground (arith, off)

pub collect-AtRest :
    (order : List Bytes → List Bytes) (now : ℕ) (focus : List Bytes) (s : Service)
    → AtRest s
    → AtRest (collect_replay_candidates order now focus s).1
unfolding collect_replay_candidates gc_recent_seen
collect-AtRest order now focus s r = record {
  marked = r.marked;
  bounded = r.bounded;
  idle = r.idle;
}

pub collect-room :
    (order : List Bytes → List Bytes) (now : ℕ) (focus : List Bytes) (s : Service)
    → IsOrder order
    → length s.queue + length s.recent_seen ≤ s.cfg.queue_size
    → let (replay, collected) = collect_replay_candidates order now focus s in
      length collected.queue + length replay ≤ collected.cfg.queue_size
collect-room order now focus s o room =
    unfold collect_replay_candidates gc_recent_seen in
    omega (arith, room, collect_length order now focus s o)

-- Scanning is switched on, in a state that meets the service's invariant, with room in the channel
-- for every recently seen EPC. Then each one that was seen within the time limit, also while
-- scanning was off, and that is in the cache is in the channel, exactly once.
pub set_scan_active_replays :
    (order : List Bytes → List Bytes) (now : ℕ) (s : Service) (x : Bytes) (ts : ℕ)
    → IsOrder order
    → Inv s
    → s.scan_active ≡ false
    → lookup x s.recent_seen ≡ some ts
    → now - ts ≤ s.cfg.recent_seen_ttl
    → Cache.cached s.cache x ≡ true
    → is_empty x ≡ false
    → length s.queue + length s.recent_seen ≤ s.cfg.queue_size
    → count x (set_scan_active order now true s).1.queue ≡ 1
set_scan_active_replays order now s x ts o v off seen young known full room =
    let (replay, collected) = collect_replay_candidates order now [] (switched now s) in
    let r =
      collect-AtRest order now [] (switched now s) (record {
        marked = v.at_rest.marked;
        bounded = v.at_rest.bounded;
        idle = v.at_rest.idle;
      }) in
    let there =
      collect_has order now [] (switched now s) o v.seen_once x ts seen (ground (arith, young))
        (unfold focus_set in refl) known in
    ap (λ t. count x t.queue) (set_scan_active-on order now s off)
    ∙ enqueue_all_sends replay x collected r (collect-room order now [] (switched now s) o room)
        there full
