-- ===== src/BotConfig/Load.antt =====
-- What `Load` answers: which settings it insists on, and the ranges of the others.
use guhfrtui.Base.{
  ℕ, ◌*◌, ◌≤◌, ◌≡◌, ◌≢◌, ◌⊎◌, refl, inl, inr, Bool, true, false, not, ◌||◌, [], ◌∷◌, if◌then◌else◌,
  if_intro, Bytes, arith, bytes_beq,
}
use guhfrtui.Base.Int.{ℤ, pos, negsuc, int_lt}
use guhfrtui.Text.{is_empty}
use guhfrtui.Text.Parts.{codes, trim_right_byte}
use guhfrtui.BotConfig.{
  Config, token_required, erp_required, Result, ok, err, Env, setting, millisecond, second,
  read_config, adjust, at_least, at_most, is_backend, limit, load,
}

-- The ranges that the bot relies on; an address of a server that is off is empty.
pub record InRange (c : Config) : Type 0 where
  pub submit_retry : int_lt c.submit_retry (pos 0) ≡ false
  pub worker_count : int_lt c.worker_count (pos 1) ≡ false
  pub queue_size : int_lt c.queue_size (pos 64) ≡ false
  pub request_timeout : int_lt c.request_timeout (pos second) ≡ false
  pub refresh_interval : int_lt c.refresh_interval (pos (5 * second)) ≡ false
  pub poll_low : int_lt c.poll_timeout (pos (5 * second)) ≡ false
  pub poll_high : int_lt (pos (55 * second)) c.poll_timeout ≡ false
  pub recent_seen_ttl : int_lt c.recent_seen_ttl (pos (30 * second)) ≡ false
  pub scan_backend : is_backend c.scan_backend ≡ true
  pub reader_connect_timeout : int_lt c.reader_connect_timeout (pos (5 * second)) ≡ false
  pub reader_retry_delay : int_lt c.reader_retry_delay (pos (500 * millisecond)) ≡ false

at_least-low : (low : ℕ) (i : ℤ) → int_lt (at_least (pos low) i) (pos low) ≡ false
at_least-low low (pos i) = ground arith
at_least-low low (negsuc i) = ground arith

at_most-high : (high : ℕ) (i : ℤ) → int_lt (pos high) (at_most (pos high) i) ≡ false
at_most-high high (pos i) = ground arith
at_most-high high (negsuc i) = ground arith

at_most-low :
    (low high : ℕ) (i : ℤ)
    → low ≤ high
    → int_lt i (pos low) ≡ false
    → int_lt (at_most (pos high) i) (pos low) ≡ false
at_most-low low high (pos i) h k = ground (arith, k)
at_most-low low high (negsuc i) h k = ground (arith, k)

backend-Is : (b : Bytes) → is_backend (if is_backend b then b else codes "ingest") ≡ true
backend-Is b =
    if_intro (λ x. is_backend x ≡ true) (is_backend b) (λ h. h)
      (λ h. unfold is_backend bytes_beq in refl)

retry-low :
    (i : ℤ)
    → int_lt
        (if int_lt i (pos (500 * millisecond)) then pos (2 * second) else i)
        (pos (500 * millisecond))
      ≡ false
retry-low i =
    if_intro (λ x. int_lt x (pos (500 * millisecond)) ≡ false) (int_lt i (pos (500 * millisecond)))
      (λ h. refl) (λ h. h)

pub limit-InRange : (c : Config) → InRange (limit c)
unfolding limit
limit-InRange c = record {
  submit_retry = at_least-low 0 c.submit_retry;
  worker_count = at_least-low 1 c.worker_count;
  queue_size = at_least-low 64 c.queue_size;
  request_timeout = at_least-low second c.request_timeout;
  refresh_interval = at_least-low (5 * second) c.refresh_interval;
  poll_low =
      at_most-low (5 * second) (55 * second) (at_least (pos (5 * second)) c.poll_timeout)
        (omega arith) (at_least-low (5 * second) c.poll_timeout);
  poll_high = at_most-high (55 * second) (at_least (pos (5 * second)) c.poll_timeout);
  recent_seen_ttl = at_least-low (30 * second) c.recent_seen_ttl;
  scan_backend = backend-Is c.scan_backend;
  reader_connect_timeout = at_least-low (5 * second) c.reader_connect_timeout;
  reader_retry_delay = retry-low c.reader_retry_delay;
}

same {ℓ} : {A : Type ℓ} (b : Bool) (x y : A) → b ≡ false → (if b then x else y) ≡ y
same b x y h = rw h refl

-- A configuration within the ranges is left as it is.
pub limit_same : (c : Config) → InRange c → limit c ≡ c
unfolding limit
limit_same c r = ground (
  arith, r.submit_retry, r.worker_count, r.queue_size, r.request_timeout, r.refresh_interval,
  r.poll_low, r.poll_high, r.recent_seen_ttl, r.scan_backend, r.reader_connect_timeout,
  r.reader_retry_delay,
)

-- What is missing of the ERP server's settings; slashes at the end of the address do not count.
abbrev pub LacksErp : Env → Type 0
LacksErp env =
    (trim_right_byte b'/' (setting (codes "ERP_URL") env) ≡ [])
    ⊎ (setting (codes "ERP_API_KEY") env ≡ [])
    ⊎ (setting (codes "ERP_API_SECRET") env ≡ [])

-- What an answer says of the environment.
abbrev pub Answers : Env → Result → Type 0
Answers env (err token_required) = setting (codes "BOT_TOKEN") env ≡ []
Answers env (err erp_required) = (setting (codes "BOT_TOKEN") env ≢ []) × LacksErp env
Answers env (ok c) =
    InRange c
    × (setting (codes "BOT_TOKEN") env ≢ [])
    × ¬ LacksErp env
    × (c.bot_token ≡ setting (codes "BOT_TOKEN") env)
    × (c.erp_url ≡ trim_right_byte b'/' (setting (codes "ERP_URL") env))
    × (c.http_addr ≡ (if c.http_enabled then c.http_addr else []))
    × (c.ipc_socket ≡ (if c.ipc_enabled then c.ipc_socket else []))
    × (limit c ≡ c)

empty-nil : (s : Bytes) → is_empty s ≡ true → s ≡ []
empty-nil [] h = refl
empty-nil (x ∷ s) h = absurd (cc)

full-ne-nil : (s : Bytes) → is_empty s ≡ false → s ≢ []
full-ne-nil [] h = absurd (cc)
full-ne-nil (x ∷ s) h = cc

or3 :
    (a b c : Bytes)
    → (is_empty a || is_empty b || is_empty c) ≡ true
    → (a ≡ []) ⊎ (b ≡ []) ⊎ (c ≡ [])
or3 [] b c h = inl refl
or3 (x ∷ a) [] c h = inr (inl refl)
or3 (x ∷ a) (y ∷ b) [] h = inr (inr refl)
or3 (x ∷ a) (y ∷ b) (z ∷ c) h = absurd (cc)

nor3 :
    (a b c : Bytes)
    → (is_empty a || is_empty b || is_empty c) ≡ false
    → ¬ ((a ≡ []) ⊎ (b ≡ []) ⊎ (c ≡ []))
nor3 [] b c h k = absurd (cc)
nor3 (x ∷ a) [] c h k = absurd (cc)
nor3 (x ∷ a) (y ∷ b) [] h k = absurd (cc)
nor3 (x ∷ a) (y ∷ b) (z ∷ c) h (inl e) = cc
nor3 (x ∷ a) (y ∷ b) (z ∷ c) h (inr (inl e)) = cc
nor3 (x ∷ a) (y ∷ b) (z ∷ c) h (inr (inr e)) = cc

address_of_off :
    (b : Bool) (x : Bytes) → (if not b then [] else x) ≡ (if b then if not b then [] else x else [])
address_of_off true x = refl
address_of_off false x = refl

-- `Load` fails with the message about the token exactly when that setting is blank, and with the one
-- about the ERP server exactly when there is a token, and the key, the secret or the address without
-- the slashes at its end is blank. Otherwise it returns a configuration with the token and the address,
-- in which the retries, workers, queue, timeouts, intervals and back end are within their limits and
-- the addresses of servers that are off are empty; another application of the limits changes nothing.
pub load_lem : (env : Env) → Answers env (load env)
unfolding load
load_lem env =
    if_intro (Answers env) (is_empty token) (λ h. empty-nil token h)
      (λ h.
        if_intro (Answers env) (is_empty url || is_empty key || is_empty secret)
          (λ k. (full-ne-nil token h, or3 url key secret k))
          (λ k. (
            limit-InRange (adjust (read_config env)),
            full-ne-nil token h,
            nor3 url key secret k,
            refl,
            refl,
            address_of_off (read_config env).http_enabled (read_config env).http_addr,
            address_of_off (read_config env).ipc_enabled (read_config env).ipc_socket,
            limit_same (limit (adjust (read_config env)))
                (limit-InRange (adjust (read_config env))),
          )))
  where
    token : Bytes
    token = setting (codes "BOT_TOKEN") env

    url : Bytes
    url = trim_right_byte b'/' (setting (codes "ERP_URL") env)

    key : Bytes
    key = setting (codes "ERP_API_KEY") env

    secret : Bytes
    secret = setting (codes "ERP_API_SECRET") env
