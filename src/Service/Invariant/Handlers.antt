-- ===== src/Service/Invariant/Handlers.antt =====
-- The handlers of the service against its invariant.
use guhfrtui.Base.{
  ℕ, ◌≡◌, refl, sym, ap, subst, ◌∙◌, ◌⊎◌, Bool, true, not, inl, inr, List, [], ◌∷◌, Option, none,
  some, arith, length, ltb, if◌then◌else◌, bytes_eq, bytes_beq_iff, if_intro, List-cases, Bytes,
}
use guhfrtui.Base.Sets.{has, insert, delete, IsUnique, count, has-delete}
use guhfrtui.Base.Maps.{keys}
use guhfrtui.Text.{is_empty}
use guhfrtui.Epc.{normalize_epc}
use guhfrtui.Cache
use guhfrtui.Cache.{Store}
use guhfrtui.Cache.Laws.{IsValid, add-IsValid, replace-IsValid, remove-IsValid}
use guhfrtui.Erp
use guhfrtui.Erp.{FetchResult, SubmitStatus, submitted, not_found}
use guhfrtui.Service.{
  Service, notify, enqueue, enqueue_all, normalize_epc_list, lock_inflight, unlock_inflight,
  collect_replay_candidates,
}
use guhfrtui.Service.Handlers.{
  observe, count_hit, handle_epc, set_scan_active, add_draft_epcs, Reason, announce, is_startup,
  note_refresh, refresh_failed, refresh_cache, Verdict, done, gave_up, settle, submit_loop,
  process_submit, work, recent_seen_epcs, status,
}
use guhfrtui.Base.Int.{ℤ, int_lt}
use guhfrtui.Service.Invariant.{
  Inv, enqueue-Inv, enqueue_all-Inv, SameCore, SameCore-Inv, same-Inv, collect-Inv, notify-Inv,
  gc-Inv, observe-Owes, count_hit-Inv, count_miss-Inv, inactive-Inv,
}

-- That an answer leaves the service in its invariant.
abbrev pub After : {A : Type 0} → A × Service → Type 0
After r = Inv r.1

pub handle_epc-Inv : (now : ℕ) (raw : Bytes) (s : Service) → Inv s → After (handle_epc now raw s)
unfolding handle_epc
handle_epc-Inv now raw s v =
    let x = normalize_epc raw in
    let seen = observe now x s in
    let o = observe-Owes now x s v in
    if_intro After (is_empty x) (λ empty. v)
      (λ full.
        if_intro After (not seen.scan_active) (λ off. inactive-Inv seen (ground arith) o)
          (λ on.
            let hit = enqueue-Inv x (count_hit seen) (count_hit-Inv seen (ground arith) o) in
            if_intro After (not (Cache.cached seen.cache x))
              (λ missed. count_miss-Inv seen (ground arith) o)
              (λ known.
                if_intro After (not (enqueue x (count_hit seen)).0) (λ no. hit) (λ yes. hit))))

pub set_scan_active-Inv :
    (order : List Bytes → List Bytes) (now : ℕ) (active : Bool) (s : Service)
    → Inv s
    → After (set_scan_active order now active s)
unfolding set_scan_active
set_scan_active-Inv order now active s v =
    let switched = record s {
      scan_active = active;
      scan_since = if active then now else 0;
      stats = record s.stats { scan_active = active; scan_since = if active then now else 0 };
    } in
    let w = same-Inv switched (ground arith) v.cache_valid v refl in
    let (replay, collected) = collect_replay_candidates order now [] switched in
    if_intro After (if s.scan_active then active else not active) (λ same. v)
      (λ changed.
        if_intro After active
          (λ on. enqueue_all-Inv replay collected (collect-Inv order now [] switched w)) (λ off. w))

pub add_draft_epcs-Inv :
    (order : List Bytes → List Bytes) (now : ℕ) (epcs : List Bytes) (s : Service)
    → Inv s
    → After (add_draft_epcs order now epcs s)
unfolding add_draft_epcs
add_draft_epcs-Inv order now epcs s v =
    let clean = normalize_epc_list epcs in
    let grown = record s { cache = (Cache.add s.cache clean).0 } in
    let g = same-Inv grown (ground arith) (add-IsValid s.cache clean v.cache_valid) v refl in
    let (replay, collected) = collect_replay_candidates order now clean grown in
    let c = collect-Inv order now clean grown g in
    let replayed = if collected.scan_active then enqueue_all replay collected else collected in
    let r =
      if_intro Inv collected.scan_active (λ on. enqueue_all-Inv replay collected c) (λ off. c) in
    if_intro Inv (ltb 0 (Cache.add s.cache clean).1) (λ some. notify-Inv _ replayed r) (λ none. r)

note_refresh-Inv : (now : ℕ) (n : ℤ) (s : Service) → Inv s → Inv (note_refresh now n s)
unfolding note_refresh
note_refresh-Inv now n s v = same-Inv (note_refresh now n s) (ground arith) v.cache_valid v refl

announce-Inv :
    (reason : Reason) (wants : Bool) (new_epcs : List Bytes) (prev : ℤ) (res : FetchResult)
    (s : Service)
    → Inv s
    → Inv (announce reason wants new_epcs prev res s)
unfolding announce
announce-Inv reason wants new_epcs prev res s v =
    let news =
      if_intro Inv (ltb 0 (length new_epcs)) (λ some. notify-Inv _ s v)
        (λ none.
          if_intro Inv (int_lt prev res.draft_count) (λ grew. notify-Inv _ s v) (λ flat. v)) in
    let told = if_intro Inv (is_startup reason) (λ first. v) (λ later. news) in
    if_intro Inv wants (λ yes. notify-Inv _ _ told) (λ no. told)

pub refresh_cache-Inv :
    (order : List Bytes → List Bytes) (now : ℕ) (reason : Reason) (wants : Bool)
    (fetched : Erp.Result FetchResult) (s : Service)
    → Inv s
    → After (refresh_cache order now reason wants fetched s)
unfolding refresh_cache
refresh_cache-Inv order now reason wants (Erp.err e) s v =
    unfold refresh_failed in same-Inv (refresh_failed now e s) (ground arith) v.cache_valid v refl
refresh_cache-Inv order now reason wants (Erp.ok res) s v =
    let replaced = record s { cache = Cache.replace s.cache res.epcs } in
    let p = same-Inv replaced (ground arith) (replace-IsValid s.cache res.epcs) v refl in
    let (replay, collected) = collect_replay_candidates order now res.epcs replaced in
    let noted = note_refresh now res.draft_count collected in
    let n =
      note_refresh-Inv now res.draft_count collected (collect-Inv order now res.epcs replaced p) in
    announce-Inv reason wants _ _ res _
      (if_intro Inv noted.scan_active (λ on. enqueue_all-Inv replay noted n) (λ off. n))

pub recent_seen_epcs-Inv : (now : ℕ) (s : Service) → Inv s → After (recent_seen_epcs now s)
unfolding recent_seen_epcs
recent_seen_epcs-Inv now s v = gc-Inv now s v

pub status-Inv : (s : Service) → Inv s → After (status s)
unfolding status
status-Inv s v = same-Inv (status s).1 (ground arith) v.cache_valid v refl

-- A worker has taken the first EPC off the channel and unmarked it.
unfoldable pub taken : Bytes → List Bytes → Service → Service
taken x rest s = record s { queue = rest; queued = delete x s.queued }

pub taken-Inv :
    (x : Bytes) (rest : List Bytes) (s : Service)
    → s.queue ≡ x ∷ rest
    → Inv s
    → Inv (taken x rest s)
unfolding taken count
taken-Inv x rest s h v = record {
  accounted = v.accounted;
  at_rest = record {
    marked = λ y.
        ground
          (arith, v.at_rest.marked y, ap (count y) h, has-delete x y s.queued, bytes_beq_iff x y);
    bounded = ground (arith, v.at_rest.bounded, ap length h);
    idle = v.at_rest.idle;
  };
  cache_valid = v.cache_valid;
  seen_once = v.seen_once;
}

settle-SameCore : (x : Bytes) (d : Verdict) (s : Service) → SameCore s (settle x d s).1
unfolding settle notify
settle-SameCore x (done submitted) s = ground arith
settle-SameCore x (done not_found) s = ground arith
settle-SameCore x (gave_up e) s = ground arith

settle-recent_seen :
    (x : Bytes) (d : Verdict) (s : Service) → (settle x d s).1.recent_seen ≡ s.recent_seen
unfolding settle notify
settle-recent_seen x (done submitted) s = ground arith
settle-recent_seen x (done not_found) s = ground arith
settle-recent_seen x (gave_up e) s = ground arith

settle-cache :
    (x : Bytes) (d : Verdict) (s : Service)
    → ((settle x d s).1.cache ≡ s.cache) ⊎ ((settle x d s).1.cache ≡ Cache.remove s.cache x)
unfolding settle notify
settle-cache x (done submitted) s = ground arith
settle-cache x (done not_found) s = ground arith
settle-cache x (gave_up e) s = ground arith

settle-IsValid :
    (x : Bytes) (d : Verdict) (s : Service) → IsValid s.cache → IsValid (settle x d s).1.cache
settle-IsValid x d s c = elim (settle-cache x d s) [
  | inl same ↦ subst IsValid (sym same) c
  | inr removed ↦ subst IsValid (sym removed) (remove-IsValid s.cache x c)
]

-- With nothing in flight the lock is had.
pub lock_idle :
    (x : Bytes) (s : Service)
    → s.inflight ≡ []
    → lock_inflight x s ≡ (true, record s { inflight = x ∷ [] })
unfolding lock_inflight insert has
lock_idle x s idle = ground (arith, idle, ap (has x) idle, ap (insert x) idle)

-- The lock that is taken is given back.
settled-Inv :
    (x : Bytes) (d : Verdict) (s : Service)
    → Inv s
    → Inv (unlock_inflight x (settle x d (record s { inflight = x ∷ [] })).1)
unfolding unlock_inflight delete
settled-Inv x d s v =
    let locked = record s { inflight = x ∷ [] } in
    let k = settle-SameCore x d locked in
    SameCore-Inv {s = s}
      (record {
        cfg = k.cfg;
        queue = k.queue;
        queued = k.queued;
        inflight = ap (delete x) k.inflight ∙ ground (arith, bytes_beq_iff x x, v.at_rest.idle);
        seen_total = k.seen_total;
        cache_hits = k.cache_hits;
        cache_misses = k.cache_misses;
        scan_inactive = k.scan_inactive;
      })
      (settle-IsValid x d locked v.cache_valid)
      (subst (λ m. IsUnique (keys m)) (sym (settle-recent_seen x d locked)) v.seen_once) v

pub process_submit-Inv :
    (client : ℕ → Erp.Result SubmitStatus) (x : Bytes) (s : Service)
    → Inv s
    → After (process_submit client x s)
unfolding process_submit
process_submit-Inv client x s v =
    let had = lock_idle x s v.at_rest.idle in
    let d = (submit_loop client s.cfg.submit_retry 0).verdict in
    if_intro After (is_empty x) (λ empty. v)
      (λ full.
        if_intro After (not (Cache.cached s.cache x)) (λ gone. v)
          (λ known.
            if_intro After (not (lock_inflight x s).0)
              (λ no. subst (λ l. Inv l.1) (sym had) (ground (arith, had)))
              (λ yes.
                subst (λ l. Inv (unlock_inflight x (settle x d l.1).1)) (sym had)
                  (settled-Inv x d s v))))

pub work_empty :
    (clients : Bytes → ℕ → Erp.Result SubmitStatus) (s : Service)
    → s.queue ≡ []
    → work clients s ≡ none
unfolding work
work_empty clients s h = rw h refl

pub work_first :
    (clients : Bytes → ℕ → Erp.Result SubmitStatus) (x : Bytes) (rest : List Bytes) (s : Service)
    → s.queue ≡ x ∷ rest
    → work clients s ≡ some (process_submit (clients x) x (taken x rest s))
unfolding work taken
work_first clients x rest s h = rw h refl

pub work-Inv :
    (clients : Bytes → ℕ → Erp.Result SubmitStatus) (s : Service) (out : Option Erp.Error × Service)
    → work clients s ≡ some out
    → Inv s
    → After out
work-Inv clients s out h v = elim (List-cases s.queue) [
  | inl empty ↦ ground (arith, work_empty clients s empty)
  | inr (x, rest, is) ↦
      subst After {x = process_submit (clients x) x (taken x rest s)} {y = out}
        (ground (arith, work_first clients x rest s is))
        (process_submit-Inv (clients x) x (taken x rest s) (taken-Inv x rest s is v))
]
