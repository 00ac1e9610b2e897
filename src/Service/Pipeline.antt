-- ===== src/Service/Pipeline.antt =====
-- The queue between the goroutines: every interleaving of the pieces of `enqueue`, of the channel
-- and of the workers. A goroutine between two of its pieces is in one of the lists below.
use guhfrtui.Base.{
  ℕ, ◌+◌, ◌≤◌, ◌≡◌, refl, sym, ap, subst, Bool, true, false, List, [], ◌∷◌, ◌++◌, some, arith,
  length, length-append, if◌then◌else◌, bytes_eq, bytes_beq_iff, ◌==◌, Bytes,
}
use guhfrtui.Base.Sets.{has, insert, delete, count, count-append, has-insert, has-delete}
use guhfrtui.Cache.{Store}
use guhfrtui.Service.{Config, Service, new, mark_queued, send_queue, lock_inflight, unlock_inflight}

pub record World : Type 0 where
  pub svc : Service
  -- in `enqueue`, between the mark and the send
  pub sending : List Bytes
  -- workers that have received an EPC and not yet unmarked it
  pub received : List Bytes
  -- workers in `processSubmit` before the in-flight lock
  pub checking : List Bytes
  -- workers that hold the in-flight lock of their EPC
  pub submitting : List Bytes

pub data Step (w : World) : World → Type 0 where
  marks :
      (x : Bytes) (s : Service)
      → mark_queued x w.svc ≡ some s
      → Step w (record w { svc = s; sending = x ∷ w.sending })
  sends :
      (x : Bytes) (pre post : List Bytes)
      → w.sending ≡ pre ++ (x ∷ post)
      → Step w (record w { svc = (send_queue x w.svc).1; sending = pre ++ post })
  receives :
      (x : Bytes) (rest : List Bytes)
      → w.svc.queue ≡ x ∷ rest
      → Step w (record w { svc = record w.svc { queue = rest }; received = x ∷ w.received })
  unmarks :
      (x : Bytes) (pre post : List Bytes)
      → w.received ≡ pre ++ (x ∷ post)
      → Step w (record w {
        svc = record w.svc { queued = delete x w.svc.queued };
        received = pre ++ post;
        checking = x ∷ w.checking;
      })
  leaves :
      (x : Bytes) (pre post : List Bytes)
      → w.checking ≡ pre ++ (x ∷ post)
      → Step w (record w { checking = pre ++ post })
  locks :
      (x : Bytes) (pre post : List Bytes) (s : Service)
      → w.checking ≡ pre ++ (x ∷ post)
      → lock_inflight x w.svc ≡ (true, s)
      → Step w (record w { svc = s; checking = pre ++ post; submitting = x ∷ w.submitting })
  unlocks :
      (x : Bytes) (pre post : List Bytes)
      → w.submitting ≡ pre ++ (x ∷ post)
      → Step w (record w { svc = unlock_inflight x w.svc; submitting = pre ++ post })
  -- any piece of a handler that leaves the queue and its marks alone
  elsewhere :
      (s : Service)
      → s.cfg ≡ w.svc.cfg
      → s.queue ≡ w.svc.queue
      → s.queued ≡ w.svc.queued
      → s.inflight ≡ w.svc.inflight
      → Step w (record w { svc = s })

pub data Reach (w : World) : World → Type 0 where
  here : Reach w w
  next : {v u : World} → Reach w v → Step v u → Reach w u

abbrev pub initial : Config → Store → ℕ → World
initial cfg cache now = record {
  svc = new cfg cache now;
  sending = [];
  received = [];
  checking = [];
  submitting = [];
}

abbrev pub one_if : Bool → ℕ
one_if b = if b then 1 else 0

-- A mark stands for one EPC on its way to a worker, an in-flight entry for one worker.
pub record Inv (w : World) : Type 0 where
  pub marked :
      (x : Bytes)
      → count x w.sending + count x w.svc.queue + count x w.received ≡ one_if (has x w.svc.queued)
  pub locked : (x : Bytes) → count x w.submitting ≡ one_if (has x w.svc.inflight)
  pub bounded : length w.svc.queue ≤ w.svc.cfg.queue_size

initial-Inv : (cfg : Config) (cache : Store) (now : ℕ) → Inv (initial cfg cache now)
unfolding new has count
initial-Inv cfg cache now = record { marked = λ x. refl; locked = λ x. refl; bounded = omega arith }

count-middle :
    (x y : Bytes) (pre post : List Bytes)
    → count y (pre ++ (x ∷ post)) ≡ one_if (x == y) + count y (pre ++ post)
count-middle x y pre post =
    omega (arith, count-append y pre (x ∷ post), count-append y pre post, step)
  where
    step : count y (x ∷ post) ≡ one_if (x == y) + count y post
    step = unfold count in refl

mark_queued_inv :
    (x : Bytes) (s s' : Service)
    → mark_queued x s ≡ some s'
    → (has x s.queued ≡ false) × (s' ≡ record s { queued = insert x s.queued })
unfolding mark_queued
mark_queued_inv x s s' h = ground arith

lock_inflight_inv :
    (x : Bytes) (s s' : Service)
    → lock_inflight x s ≡ (true, s')
    → (has x s.inflight ≡ false) × (s' ≡ record s { inflight = insert x s.inflight })
unfolding lock_inflight
lock_inflight_inv x s s' h = ground arith

marks-Inv :
    (w : World) (x : Bytes)
    → has x w.svc.queued ≡ false
    → Inv w
    → Inv (record w {
      svc = record w.svc { queued = insert x w.svc.queued };
      sending = x ∷ w.sending;
    })
unfolding count
marks-Inv w x new i = record {
  marked = λ y. ground (
    arith,
    i.marked y,
    has-insert x y w.svc.queued,
    bytes_beq_iff x y,
    ap (λ z. has z w.svc.queued) {x = x} {y = y},
  );
  locked = i.locked;
  bounded = i.bounded;
}

locks-Inv :
    (w : World) (x : Bytes) (checking : List Bytes)
    → has x w.svc.inflight ≡ false
    → Inv w
    → Inv (record w {
      svc = record w.svc { inflight = insert x w.svc.inflight };
      checking = checking;
      submitting = x ∷ w.submitting;
    })
unfolding count
locks-Inv w x checking new i = record {
  marked = i.marked;
  locked = λ y. ground (
    arith,
    i.locked y,
    has-insert x y w.svc.inflight,
    bytes_beq_iff x y,
    ap (λ z. has z w.svc.inflight) {x = x} {y = y},
  );
  bounded = i.bounded;
}

-- The EPC leaves the sender: it is in the channel, or its mark is gone.
sends-Inv :
    (w : World) (x : Bytes) (pre post : List Bytes)
    → w.sending ≡ pre ++ (x ∷ post)
    → Inv w
    → Inv (record w { svc = (send_queue x w.svc).1; sending = pre ++ post })
unfolding send_queue count
sends-Inv w x pre post h i = record {
  marked = λ y. ground (
    arith,
    i.marked y,
    ap (count y) h,
    count-middle x y pre post,
    count-append y w.svc.queue (x ∷ []),
    has-delete x y w.svc.queued,
    bytes_beq_iff x y,
    ap (λ z. has z w.svc.queued) {x = x} {y = y},
  );
  locked = λ y. ground (arith, i.locked y);
  bounded = ground (arith, i.bounded, length-append w.svc.queue (x ∷ []));
}

Step-Inv : {v u : World} → Step v u → Inv v → Inv u
unfolding unlock_inflight count
Step-Inv {v} (marks x s h) i =
    let (new, is) = mark_queued_inv x v.svc s h in
    subst (λ t. Inv (record v { svc = t; sending = x ∷ v.sending })) (sym is) (marks-Inv v x new i)
Step-Inv {v} (sends x pre post h) i = sends-Inv v x pre post h i
Step-Inv {v} (receives x rest h) i = record {
  marked = λ y. ground (arith, i.marked y, ap (count y) h);
  locked = i.locked;
  bounded = ground (arith, i.bounded, ap length h);
}
Step-Inv {v} (unmarks x pre post h) i = record {
  marked = λ y. ground (
    arith,
    i.marked y,
    ap (count y) h,
    count-middle x y pre post,
    has-delete x y v.svc.queued,
    bytes_beq_iff x y,
  );
  locked = i.locked;
  bounded = i.bounded;
}
Step-Inv {v} (leaves x pre post h) i = record {
  marked = i.marked;
  locked = i.locked;
  bounded = i.bounded;
}
Step-Inv {v} (locks x pre post s h e) i =
    let (new, is) = lock_inflight_inv x v.svc s e in
    subst (λ t. Inv (record v { svc = t; checking = pre ++ post; submitting = x ∷ v.submitting }))
      (sym is) (locks-Inv v x (pre ++ post) new i)
Step-Inv {v} (unlocks x pre post h) i = record {
  marked = i.marked;
  locked = λ y. ground (
    arith,
    i.locked y,
    ap (count y) h,
    count-middle x y pre post,
    has-delete x y v.svc.inflight,
    bytes_beq_iff x y,
  );
  bounded = i.bounded;
}
Step-Inv {v} (elsewhere s c q m f) i = record {
  marked = λ y. ground (arith, i.marked y, ap (count y) q, ap (has y) m);
  locked = λ y. ground (arith, i.locked y, ap (has y) f);
  bounded = ground (arith, i.bounded, ap length q, ap (λ k. k.queue_size) c);
}

Reach-Inv : {v u : World} → Inv v → Reach v u → Inv u
Reach-Inv i here = i
Reach-Inv i (next r s) = Step-Inv s (Reach-Inv i r)

-- Under every interleaving of enqueuing goroutines and workers: no two workers submit the same
-- EPC at once, the channel never holds an EPC twice nor more EPCs than its capacity, and a marked
-- EPC is on its way, with one sender, in the channel or with one worker, and nowhere else.
pub pipeline_safe :
    (cfg : Config) (cache : Store) (now : ℕ) {w : World}
    → Reach (initial cfg cache now) w
    → ((x : Bytes) → count x w.submitting ≤ 1)
      × ((x : Bytes) → count x w.svc.queue ≤ 1)
      × (length w.svc.queue ≤ w.svc.cfg.queue_size)
      × ((x : Bytes)
          → count x w.sending + count x w.svc.queue + count x w.received
            ≡ one_if (has x w.svc.queued))
pipeline_safe cfg cache now r =
    let i = Reach-Inv (initial-Inv cfg cache now) r in
    ((λ x. ground (arith, i.locked x)), (λ x. ground (arith, i.marked x)), i.bounded, i.marked)
