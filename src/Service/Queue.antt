-- ===== src/Service/Queue.antt =====
-- `enqueue` as a whole: what it leaves alone, and what its answer means.
use guhfrtui.Base.{
  ◌+◌, ◌≤◌, ◌<◌, ◌≡◌, ap, ◌⊎◌, true, false, not, ◌&&◌, ◌||◌, inl, inr, List, [], ◌∷◌, ◌++◌, arith,
  length, length-append, ltb, if◌then◌else◌, bytes_eq, bytes_beq_iff, ◌==◌, Bool-cases, Bytes,
}
use guhfrtui.Base.Sets.{has, insert, count, count-append, has-insert, has-delete}
use guhfrtui.Text.{is_empty}
use guhfrtui.Service.{Service, enqueue, enqueue_all}

-- All but the queue, its marks and the count of dropped EPCs is the same.
pub record Keeps (s s' : Service) : Type 0 where
  pub cfg : s'.cfg ≡ s.cfg
  pub cache : s'.cache ≡ s.cache
  pub inflight : s'.inflight ≡ s.inflight
  pub recent_seen : s'.recent_seen ≡ s.recent_seen
  pub scan_active : s'.scan_active ≡ s.scan_active
  pub draft_count : s'.draft_count ≡ s.draft_count
  pub last_err : s'.last_err ≡ s.last_err
  pub seen_total : s'.stats.seen_total ≡ s.stats.seen_total
  pub cache_hits : s'.stats.cache_hits ≡ s.stats.cache_hits
  pub cache_misses : s'.stats.cache_misses ≡ s.stats.cache_misses
  pub scan_inactive : s'.stats.scan_inactive ≡ s.stats.scan_inactive

pub Keeps-refl : (s : Service) → Keeps s s
Keeps-refl s = ground arith

pub Keeps-trans : {s t u : Service} → Keeps s t → Keeps t u → Keeps s u
Keeps-trans h k = ground arith

pub enqueue-Keeps : (x : Bytes) (s : Service) → Keeps s (enqueue x s).1
unfolding enqueue
enqueue-Keeps x s = ground arith

pub enqueue_all-Keeps : (xs : List Bytes) (s : Service) → Keeps s (enqueue_all xs s)
unfolding enqueue_all
enqueue_all-Keeps [] s = Keeps-refl s
enqueue_all-Keeps (x ∷ xs) s =
    Keeps-trans (enqueue-Keeps x s) (enqueue_all-Keeps xs (enqueue x s).1)

-- Between two handlers nothing is half way: the channel holds the marked EPCs, each once, and
-- nothing is in flight.
pub record AtRest (s : Service) : Type 0 where
  pub marked : (x : Bytes) → count x s.queue ≡ (if has x s.queued then 1 else 0)
  pub bounded : length s.queue ≤ s.cfg.queue_size
  pub idle : s.inflight ≡ []

pub enqueue-AtRest : (x : Bytes) (s : Service) → AtRest s → AtRest (enqueue x s).1
unfolding enqueue
enqueue-AtRest x s r = record {
  marked = λ y.
      unfold count in
      ground (
        arith,
        r.marked y,
        count-append y s.queue (x ∷ []),
        has-insert x y s.queued,
        has-delete x y (insert x s.queued),
        bytes_beq_iff x y,
        ap (λ z. has z s.queued) {x = x} {y = y},
      );
  bounded = ground (arith, r.bounded, length-append s.queue (x ∷ []));
  idle = ground (arith, r.idle);
}

pub enqueue_all-AtRest : (xs : List Bytes) (s : Service) → AtRest s → AtRest (enqueue_all xs s)
unfolding enqueue_all
enqueue_all-AtRest [] s r = r
enqueue_all-AtRest (x ∷ xs) s r = enqueue_all-AtRest xs (enqueue x s).1 (enqueue-AtRest x s r)

-- `enqueue` takes an EPC exactly if it is not empty, is neither marked nor in flight, and the
-- channel has room; it is then last in the channel and marked.
pub enqueue_lem :
    (x : Bytes) (s : Service)
    → let accepted =
        not (is_empty x)
        && not (has x s.queued)
        && not (has x s.inflight)
        && ltb (length s.queue) s.cfg.queue_size in
      ((enqueue x s).0 ≡ accepted)
      × ((enqueue x s).1.queue ≡ (if accepted then s.queue ++ (x ∷ []) else s.queue))
      × ((y : Bytes) → has y (enqueue x s).1.queued ≡ (has y s.queued || accepted && x == y))
unfolding enqueue
enqueue_lem x s = (
  ground arith,
  ground arith,
  λ y. ground (
    arith,
    has-insert x y s.queued,
    has-delete x y (insert x s.queued),
    bytes_beq_iff x y,
    ap (λ z. has z s.queued) {x = x} {y = y},
  ),
)

-- Marks are only added, and the channel grows by what is added.
pub enqueue_grows :
    (x y : Bytes) (s : Service) → has y s.queued ≡ true → has y (enqueue x s).1.queued ≡ true
enqueue_grows x y s h = ground (arith, (enqueue_lem x s).2 y)

enqueue_all_grows :
    (xs : List Bytes) (y : Bytes) (s : Service)
    → has y s.queued ≡ true
    → has y (enqueue_all xs s).queued ≡ true
unfolding enqueue_all
enqueue_all_grows [] y s h = h
enqueue_all_grows (x ∷ xs) y s h = enqueue_all_grows xs y (enqueue x s).1 (enqueue_grows x y s h)

enqueue_covers :
    (x : Bytes) (s : Service)
    → length s.queue < s.cfg.queue_size
    → is_empty x ≡ false
    → (has x s.inflight ≡ true) ⊎ (has x (enqueue x s).1.queued ≡ true)
enqueue_covers x s room ne = ground (arith, (enqueue_lem x s).2 x, bytes_beq_iff x x)

enqueue-length : (x : Bytes) (s : Service) → length (enqueue x s).1.queue ≤ length s.queue + 1
unfolding enqueue
enqueue-length x s = ground (arith, length-append s.queue (x ∷ []))

-- With room for all of them, each EPC of the list is marked or in flight in the end.
pub enqueue_all_covers :
    (xs : List Bytes) (x : Bytes) (s : Service)
    → length s.queue + length xs ≤ s.cfg.queue_size
    → has x xs ≡ true
    → is_empty x ≡ false
    → (has x s.inflight ≡ true) ⊎ (has x (enqueue_all xs s).queued ≡ true)
unfolding enqueue_all has
enqueue_all_covers [] x s room h ne = cc
enqueue_all_covers (y ∷ ys) x s room h ne = elim (Bool-cases (y == x)) [
  | inl same ↦ ground (
    arith,
    bytes_beq_iff y x,
    ap is_empty {x = y} {y = x},
    enqueue_covers x s (omega arith) ne,
    enqueue_all_grows ys x (enqueue x s).1,
    ap (λ z. has x (enqueue_all ys (enqueue z s).1).queued) {x = x} {y = y},
  )
  | inr differs ↦ ground (
    arith,
    enqueue_all_covers ys x (enqueue y s).1
        (omega (arith, enqueue-length y s, ap (λ c. c.queue_size) (enqueue-Keeps y s).cfg))
        (ground (arith, h, differs)) ne,
    ap (has x) (enqueue-Keeps y s).inflight,
  )
]
