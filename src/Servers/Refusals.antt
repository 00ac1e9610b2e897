-- ===== src/Servers/Refusals.antt =====
-- The status codes of the HTTP handlers, and what a refused request leaves alone.
use guhfrtui.Base.{
  ◌≡◌, refl, ℕ, Bool, true, false, not, ◌&&◌, Option, none, some, nat_beq, if◌then◌else◌, bytes_eq,
  ◌==◌, Bytes,
}
use guhfrtui.Text.Parts.{codes}
use guhfrtui.Erp
use guhfrtui.Erp.{FetchResult}
use guhfrtui.Service.Handlers.{refresh_cache}
use guhfrtui.Servers.{Bot, Moment, refresh, end_scan}
use guhfrtui.Servers.Http
use guhfrtui.Servers.Http.{
  Payload, Answer, Route, Request, health, stats, webhook_draft, legacy_erp_webhook, turbo,
  scan_start, scan_stop, status_code, with_stats, is_allowed, handle, after_refresh,
  after_scan_refresh, ingest_payload, draft_payload, legacy_payload,
}

-- What each route asks of a request.
pub record Demands : Type 0 where
  pub post : Bool
  pub secret : Bool
  pub body : Bool
  pub refresh : Bool

abbrev pub demands : Route → Demands
demands health = record { post = false; secret = false; body = false; refresh = false }
demands stats = record { post = false; secret = false; body = false; refresh = false }
demands Http.ingest = record { post = true; secret = false; body = true; refresh = false }
demands webhook_draft = record { post = true; secret = true; body = true; refresh = false }
demands legacy_erp_webhook = record { post = true; secret = false; body = true; refresh = true }
demands turbo = record { post = true; secret = false; body = false; refresh = true }
demands scan_start = record { post = true; secret = false; body = false; refresh = true }
demands scan_stop = record { post = true; secret = false; body = false; refresh = false }

abbrev pub is_missing : Option Payload → Bool
is_missing none = true
is_missing (some p) = false

abbrev pub is_error : Erp.Result FetchResult → Bool
is_error (Erp.err e) = true
is_error (Erp.ok res) = false

abbrev pub expected_code : Bytes → Moment → Demands → Request → ℕ
expected_code secret w d req =
    if d.post && not (req.method == codes "POST")
    then 405
    else if d.secret && not (is_allowed secret req)
    then 401
    else if d.body && is_missing req.body
    then 400
    else if d.refresh && is_error w.fetched
    then 502
    else 200

-- All but the record of the last refresh and its error.
pub record Untouched (b b' : Bot) : Type 0 where
  pub scanner : b'.scanner ≡ b.scanner
  pub cache : b'.service.cache ≡ b.service.cache
  pub queue : b'.service.queue ≡ b.service.queue
  pub queued : b'.service.queued ≡ b.service.queued
  pub seen : b'.service.recent_seen ≡ b.service.recent_seen
  pub active : b'.service.scan_active ≡ b.service.scan_active
  pub drafts : b'.service.draft_count ≡ b.service.draft_count

-- Nothing is said of a success.
abbrev pub LeftAlone : Bool → Bot → Bot → Type 0
LeftAlone true b b' = Unit
LeftAlone false b b' = Untouched b b'

left_alone : (c : Bool) {b b' : Bot} → Untouched b b' → LeftAlone c b b'
left_alone true u = tt
left_alone false u = u

pub record Answers (b : Bot) (code : ℕ) (r : Answer × Bot) : Type 0 where
  pub code_is : status_code r.0 ≡ code
  pub refused : LeftAlone (nat_beq code 200) b r.1

untouched : (b : Bot) → Untouched b b
untouched b = record {
  scanner = refl;
  cache = refl;
  queue = refl;
  queued = refl;
  seen = refl;
  active = refl;
  drafts = refl;
}

refusal : (b : Bot) (a : Answer) → Answers b (status_code a) (a, b)
refusal b a = record {
  code_is = refl;
  refused = left_alone (nat_beq (status_code a) 200) (untouched b);
}

success : (b : Bot) (r : Answer × Bot) → status_code r.0 ≡ 200 → Answers b 200 r
success b r e = record { code_is = e; refused = tt }

choose :
    {b : Bot} {n m : ℕ} {x y : Answer × Bot} (c : Bool)
    → Answers b n x
    → Answers b m y
    → Answers b (if c then n else m) (if c then x else y)
choose true p q = p
choose false p q = q

ingested :
    (w : Moment) (b : Bot) (o : Option Payload)
    → Answers b (if is_missing o then 400 else 200) (ingest_payload w o b)
unfolding ingest_payload with_stats
ingested w b none = refusal b Http.invalid_json
ingested w b (some p) = success b _ refl

drafted :
    (w : Moment) (b : Bot) (o : Option Payload)
    → Answers b (if is_missing o then 400 else 200) (draft_payload w o b)
unfolding draft_payload with_stats
drafted w b none = refusal b Http.invalid_json
drafted w b (some p) = success b _ refl

abbrev answered : Moment → Erp.Result FetchResult → Moment
answered w f = record w { fetched = f }

failed :
    (w : Moment) (b : Bot) (e : Erp.Error)
    → Answers b 502 (Http.bad_gateway e, (refresh (answered w (Erp.err e)) b).1)
unfolding refresh refresh_cache
failed w b e = record {
  code_is = refl;
  refused = record {
    scanner = refl;
    cache = refl;
    queue = refl;
    queued = refl;
    seen = refl;
    active = refl;
    drafts = refl;
  };
}

refreshed :
    (w : Moment) (b : Bot) (f : Erp.Result FetchResult)
    → Answers b (if is_error f then 502 else 200) (after_refresh (refresh (answered w f) b))
unfolding refresh refresh_cache with_stats
refreshed w b (Erp.err e) = failed w b e
refreshed w b (Erp.ok res) = success b _ refl

started :
    (w : Moment) (b : Bot) (f : Erp.Result FetchResult)
    → Answers b
        (if is_error f then 502 else 200)
        (after_scan_refresh (answered w f) (refresh (answered w f) b))
unfolding refresh refresh_cache with_stats
started w b (Erp.err e) = failed w b e
started w b (Erp.ok res) = success b _ refl

legacy :
    (w : Moment) (b : Bot) (o : Option Payload)
    → Answers b
        (if is_missing o then 400 else if is_error w.fetched then 502 else 200)
        (legacy_payload w o b)
unfolding legacy_payload
legacy w b none = refusal b Http.invalid_json
legacy w b (some p) = refreshed w b w.fetched

-- Each route but the health check and the statistics answers 405 to a request that is no POST; then
-- the draft webhook 401 to a wrong secret where the server has one; then the routes with a body 400 to
-- one that cannot be decoded; then the routes that refresh the cache 502 when the ERP server fails; and
-- 200 in all other cases. A request that is not answered by 200 leaves the reader, the cache, the queue
-- and its marks, the EPCs seen, the number of drafts and the state of scanning as they were.
pub handle_lem :
    (secret : Bytes) (w : Moment) (r : Route) (req : Request) (b : Bot)
    → Answers b (expected_code secret w (demands r) req) (handle secret w r req b)
unfolding handle with_stats
handle_lem secret w health req b = success b _ refl
handle_lem secret w stats req b = success b _ refl
handle_lem secret w Http.ingest req b =
    choose (not (req.method == codes "POST")) (refusal b Http.method_not_allowed)
      (ingested w b req.body)
handle_lem secret w webhook_draft req b =
    choose (not (req.method == codes "POST")) (refusal b Http.method_not_allowed)
      (choose (not (is_allowed secret req)) (refusal b Http.invalid_secret) (drafted w b req.body))
handle_lem secret w legacy_erp_webhook req b =
    choose (not (req.method == codes "POST")) (refusal b Http.method_not_allowed)
      (legacy w b req.body)
handle_lem secret w turbo req b =
    choose (not (req.method == codes "POST")) (refusal b Http.method_not_allowed)
      (refreshed w b w.fetched)
handle_lem secret w scan_start req b =
    choose (not (req.method == codes "POST")) (refusal b Http.method_not_allowed)
      (started w b w.fetched)
handle_lem secret w scan_stop req b =
    choose (not (req.method == codes "POST")) (refusal b Http.method_not_allowed)
      (success b (with_stats Http.done (end_scan w b)) refl)
