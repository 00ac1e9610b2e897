-- ===== src/Service/Submit.antt =====
-- `processSubmit`: the attempts, and what they do to the cache.
use guhfrtui.Base.{
  ℕ, zero, suc, ◌+◌, ◌≤◌, ◌<◌, ◌≡◌, refl, sym, ap, subst, ◌∙◌, ◌⊎◌, Bool, true, false, not, ◌&&◌,
  inl, inr, Option, none, some, arith, nat_beq, bytes_eq, bytes_beq_iff, ◌==◌, Bytes, Bool-cases,
}
use guhfrtui.Base.Sets.{has, insert, delete, has-insert, has-delete}
use guhfrtui.Text.{is_empty}
use guhfrtui.Cache
use guhfrtui.Cache.Laws.{cached-remove}
use guhfrtui.Erp
use guhfrtui.Erp.{SubmitStatus, submitted, not_found}
use guhfrtui.Service.{Service, bump, notify, lock_inflight, unlock_inflight}
use guhfrtui.Service.Handlers.{
  Verdict, done, gave_up, Attempts, submit_loop, settle, process_submit,
}

-- The attempts from the `i`-th to before the `n`-th fail.
abbrev pub Fails : (ℕ → Erp.Result SubmitStatus) → ℕ → ℕ → Type 0
Fails client i n = (j : ℕ) → i ≤ j → j < n → (e : Erp.Error) × (client j ≡ Erp.err e)

-- How the attempts `i` to `last` end, independently of the loop.
abbrev pub Ends : (ℕ → Erp.Result SubmitStatus) → ℕ → ℕ → Verdict → ℕ → Type 0
Ends client i last (done status) made =
    (k : ℕ) × (i ≤ k) × (k ≤ last) × Fails client i k × (client k ≡ Erp.ok status) × (made ≡ k + 1)
Ends client i last (gave_up e) made =
    Fails client i last × (client last ≡ Erp.err e) × (made ≡ last + 1)

Fails-cons :
    (client : ℕ → Erp.Result SubmitStatus) (i n : ℕ) (e : Erp.Error)
    → client i ≡ Erp.err e
    → Fails client (i + 1) n
    → Fails client i n
Fails-cons client i n e h f j from to = elim (Bool-cases (nat_beq i j)) [
  | inl first ↦ (e, subst (λ k. client k ≡ Erp.err e) (ground (arith, first)) h)
  | inr later ↦ f j (ground (arith, later)) to
]

Result-cases :
    (r : Erp.Result SubmitStatus)
    → ((st : SubmitStatus) × (r ≡ Erp.ok st)) ⊎ ((e : Erp.Error) × (r ≡ Erp.err e))
Result-cases (Erp.ok st) = inl (st, refl)
Result-cases (Erp.err e) = inr (e, refl)

Ends-cons :
    (client : ℕ → Erp.Result SubmitStatus) (i last made : ℕ) (v : Verdict) (e : Erp.Error)
    → client i ≡ Erp.err e
    → Ends client (i + 1) last v made
    → Ends client i last v made
Ends-cons client i last made (done status) e h (k, from, to, f, is, n) =
    (k, omega arith, to, Fails-cons client i k e h f, is, n)
Ends-cons client i last made (gave_up e') e h (f, is, n) = (Fails-cons client i last e h f, is, n)

module _ (client : ℕ → Erp.Result SubmitStatus) where
  loop_ok :
      (left i : ℕ) (st : SubmitStatus)
      → client i ≡ Erp.ok st
      → submit_loop client left i ≡ record { verdict = done st; made = i + 1 }
  unfolding submit_loop
  loop_ok zero i st h = rw (h, submit_loop) refl
  loop_ok (suc left) i st h = rw (h, submit_loop) refl

  loop_last :
      (i : ℕ) (e : Erp.Error)
      → client i ≡ Erp.err e
      → submit_loop client 0 i ≡ record { verdict = gave_up e; made = i + 1 }
  unfolding submit_loop
  loop_last i e h = rw (h, submit_loop) refl

  loop_next :
      (left i : ℕ) (e : Erp.Error)
      → client i ≡ Erp.err e
      → submit_loop client (suc left) i ≡ submit_loop client left (i + 1)
  unfolding submit_loop
  loop_next left i e h = rw (h, submit_loop) refl

  Ends-ok :
      (i last : ℕ) (st : SubmitStatus)
      → i ≤ last
      → client i ≡ Erp.ok st
      → Ends client i last (done st) (i + 1)
  Ends-ok i last st to h = (i, omega arith, to, (λ j from below. ground arith), h, refl)

  Ends-last : (i : ℕ) (e : Erp.Error) → client i ≡ Erp.err e → Ends client i i (gave_up e) (i + 1)
  Ends-last i e h = ((λ j from below. ground arith), h, refl)

  -- The loop's verdict is the first answer that is not an error, or else the last error.
  pub submit_loop-Ends :
      (left i : ℕ)
      → let out = submit_loop client left i in Ends client i (i + left) out.verdict out.made
  submit_loop-Ends zero i = elim (Result-cases (client i)) [
    | inl (st, is) ↦
        subst (λ out. Ends client i (i + 0) out.verdict out.made) (sym (loop_ok 0 i st is))
          (Ends-ok i (i + 0) st (omega arith) is)
    | inr (e, is) ↦
        subst (λ out. Ends client i (i + 0) out.verdict out.made) (sym (loop_last i e is))
          (subst (λ n. Ends client i n (gave_up e) (i + 1)) {x = i} (omega arith)
            (Ends-last i e is))
  ]
  submit_loop-Ends (suc left) i = elim (Result-cases (client i)) [
    | inl (st, is) ↦
        subst (λ out. Ends client i (i + suc left) out.verdict out.made)
          (sym (loop_ok (suc left) i st is)) (Ends-ok i (i + suc left) st (omega arith) is)
    | inr (e, is) ↦
        let rest = submit_loop client left (i + 1) in
        subst (λ out. Ends client i (i + suc left) out.verdict out.made)
          (sym (loop_next left i e is))
          (subst (λ n. Ends client i n rest.verdict rest.made) {x = i + 1 + left} (omega arith)
            (Ends-cons client i (i + 1 + left) rest.made rest.verdict e is
              (submit_loop-Ends left (i + 1))))
  ]

-- `processSubmit` goes on to the loop.
abbrev pub is_submittable : Service → Bytes → Bool
is_submittable s x = not (is_empty x) && Cache.cached s.cache x && not (has x s.inflight)

abbrev pub error_of : Verdict → Option Erp.Error
error_of (done status) = none
error_of (gave_up e) = some e

-- What is cached after the verdict on `x`.
abbrev pub cached_after : Service → Bytes → Verdict → Bytes → Bool
cached_after s x (done status) y = not (x == y) && Cache.cached s.cache y
cached_after s x (gave_up e) y = Cache.cached s.cache y

-- The counter that the verdict adds to.
abbrev pub Counted : Service → Service → Verdict → Type 0
Counted s t (done submitted) =
    (t.stats.submitted_ok ≡ bump s.stats.submitted_ok)
    × (t.stats.submit_not_found ≡ s.stats.submit_not_found)
    × (t.stats.submit_errors ≡ s.stats.submit_errors)
Counted s t (done not_found) =
    (t.stats.submitted_ok ≡ s.stats.submitted_ok)
    × (t.stats.submit_not_found ≡ bump s.stats.submit_not_found)
    × (t.stats.submit_errors ≡ s.stats.submit_errors)
Counted s t (gave_up e) =
    (t.stats.submitted_ok ≡ s.stats.submitted_ok)
    × (t.stats.submit_not_found ≡ s.stats.submit_not_found)
    × (t.stats.submit_errors ≡ bump s.stats.submit_errors)

module _ (x : Bytes) (s : Service) where
  settle-error : (v : Verdict) → (settle x v s).0 ≡ error_of v
  unfolding settle
  settle-error (done submitted) = refl
  settle-error (done not_found) = refl
  settle-error (gave_up e) = refl

  settle-cached :
      (v : Verdict) (y : Bytes) → Cache.cached (settle x v s).1.cache y ≡ cached_after s x v y
  unfolding settle notify
  settle-cached (done submitted) y = ground (arith, cached-remove s.cache y x)
  settle-cached (done not_found) y = ground (arith, cached-remove s.cache y x)
  settle-cached (gave_up e) y = ground arith

  settle-Counted : (v : Verdict) → Counted s (settle x v s).1 v
  unfolding settle notify
  settle-Counted (done submitted) = ground arith
  settle-Counted (done not_found) = ground arith
  settle-Counted (gave_up e) = ground arith

  settle-inflight : (v : Verdict) → (settle x v s).1.inflight ≡ s.inflight
  unfolding settle notify
  settle-inflight (done submitted) = ground arith
  settle-inflight (done not_found) = ground arith
  settle-inflight (gave_up e) = ground arith

module _ (client : ℕ → Erp.Result SubmitStatus) (x : Bytes) (s : Service) where
  abbrev verdict_of : Attempts
  verdict_of = submit_loop client s.cfg.submit_retry 0

  abbrev locked : Service
  locked = record s { inflight = insert x s.inflight }

  process_submit-runs :
      is_submittable s x ≡ true
      → process_submit client x s ≡ (
        (settle x verdict_of.verdict locked).0,
        unlock_inflight x (settle x verdict_of.verdict locked).1,
      )
  unfolding process_submit lock_inflight
  process_submit-runs h = ground (arith, h)

  -- An EPC that is empty, not cached or in flight already is left alone.
  process_submit-skips : is_submittable s x ≡ false → process_submit client x s ≡ (none, s)
  unfolding process_submit lock_inflight
  process_submit-skips h = ground (arith, h)

  given_back :
      has x s.inflight ≡ false
      → (y : Bytes) → has y (delete x (insert x s.inflight)) ≡ has y s.inflight
  given_back h y = ground (
    arith,
    h,
    has-delete x y (insert x s.inflight),
    has-insert x y s.inflight,
    bytes_beq_iff x y,
    ap (λ z. has z s.inflight) {x = x} {y = y},
  )

  -- What `processSubmit` has done, for the verdict `v`.
  abbrev pub Settled : Verdict → Option Erp.Error × Service → Type 0
  Settled v (e, after) =
      (e ≡ error_of v)
      × ((y : Bytes) → Cache.cached after.cache y ≡ cached_after s x v y)
      × Counted s after v
      × ((y : Bytes) → has y after.inflight ≡ has y s.inflight)

  Settled-Counted :
      (v : Verdict) (t : Service) → Counted locked t v → Counted s (unlock_inflight x t) v
  unfolding unlock_inflight
  Settled-Counted (done submitted) t c = c
  Settled-Counted (done not_found) t c = c
  Settled-Counted (gave_up e) t c = c

  unlock-inflight : (t : Service) → (unlock_inflight x t).inflight ≡ delete x t.inflight
  unfolding unlock_inflight
  unlock-inflight t = refl

  unlock-cache : (t : Service) → (unlock_inflight x t).cache ≡ t.cache
  unfolding unlock_inflight
  unlock-cache t = refl

  locked-after : (v : Verdict) (y : Bytes) → cached_after locked x v y ≡ cached_after s x v y
  locked-after (done status) y = refl
  locked-after (gave_up e) y = refl

  Settled-settle :
      (v : Verdict)
      → has x s.inflight ≡ false
      → Settled v ((settle x v locked).0, unlock_inflight x (settle x v locked).1)
  Settled-settle v free =
      let t = (settle x v locked).1 in
      (
        settle-error x locked v,
        λ y.
            ap (λ c. Cache.cached c y) (unlock-cache t)
            ∙ settle-cached x locked v y
            ∙ locked-after v y,
        Settled-Counted v t (settle-Counted x locked v),
        λ y.
            ap (has y) (unlock-inflight t ∙ ap (delete x) (settle-inflight x locked v))
            ∙ given_back free y,
      )

  abbrev pub Outcome : Bool → Type 0
  Outcome true =
      (v : Verdict) × (made : ℕ) × Ends client 0 s.cfg.submit_retry v made
      × Settled v (process_submit client x s)
  Outcome false = process_submit client x s ≡ (none, s)

  -- An EPC that is empty, not cached or in flight already is left alone, without an error.
  -- Otherwise there is a verdict: the first of the `SubmitRetry` + 1 answers that is not an error,
  -- or else the last error. With an answer, of either kind, `processSubmit` removes the EPC from the
  -- cache and nothing else; when it gives up, it reports the error and the cache stays. It counts
  -- the verdict in its counter alone, and the in-flight set is as before.
  pub process_submit_lem : Outcome (is_submittable s x)
  process_submit_lem = elim (Bool-cases (is_submittable s x)) [
    | inl goes ↦
        let v = verdict_of.verdict in
        subst Outcome (sym goes) (
          v,
          verdict_of.made,
          subst (λ n. Ends client 0 n v verdict_of.made) {x = 0 + s.cfg.submit_retry} (omega arith)
              (submit_loop-Ends client s.cfg.submit_retry 0),
          subst (Settled v) (sym (process_submit-runs goes))
              (Settled-settle v (ground (arith, goes))),
        )
    | inr stops ↦ subst Outcome (sym stops) (process_submit-skips stops)
  ]
