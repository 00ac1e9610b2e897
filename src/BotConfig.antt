-- ===== src/BotConfig.antt =====
-- internal/gobot/config/config.go: `Load` over an environment, and the values it reads.
pub mod Load
pub mod DotEnv
pub mod RoundTrip
use guhfrtui.Base.{
  ℕ, zero, suc, ◌+◌, ◌-◌, ◌*◌, ◌%◌, ◌^◌, ◌≤◌, ◌<◌, ◌≡◌, ◌⊎◌, Bool, true, false, not, ◌&&◌, ◌||◌,
  List, [], ◌∷◌, Option, none, some, ltb, if◌then◌else◌, bytes_eq, ◌==◌, Bytes,
}
use guhfrtui.Base.Int.{ℤ, pos, negsuc, int_lt, scale, wrap64}
use guhfrtui.Base.Maps.{Map, lookup}
use guhfrtui.Text.{is_empty, trim_space}
use guhfrtui.Text.Parts.{codes, to_lower, trim_right_byte}
use guhfrtui.Text.Numbers.{atoi}

-- Durations are nanoseconds.
pub record Config : Type 0 where
  pub http_enabled : Bool
  pub bot_token : Bytes
  pub erp_url : Bytes
  pub erp_api_key : Bytes
  pub erp_api_secret : Bytes
  pub http_addr : Bytes
  pub ipc_enabled : Bool
  pub ipc_socket : Bytes
  pub webhook_secret : Bytes
  pub request_timeout : ℤ
  pub refresh_interval : ℤ
  pub submit_retry : ℤ
  pub submit_retry_delay : ℤ
  pub worker_count : ℤ
  pub queue_size : ℤ
  pub recent_seen_ttl : ℤ
  pub poll_timeout : ℤ
  pub scan_backend : Bytes
  pub scan_default_active : Bool
  pub auto_scan : Bool
  pub reader_connect_timeout : ℤ
  pub reader_retry_delay : ℤ
  pub reader_host : Bytes
  pub reader_port : ℤ

pub data Error : Type 0 where
  token_required erp_required : Error

pub data Result : Type 0 where
  ok : Config → Result
  err : Error → Result

-- The process environment. A variable that is not set reads as the empty text.
abbrev pub Env : Type 0
Env = Map Bytes

abbrev pub or_empty : Option Bytes → Bytes
or_empty none = []
or_empty (some v) = v

-- os.Getenv
unfoldable pub getenv : Bytes → Env → Bytes
unfolding lookup
getenv key env = or_empty (lookup key env)

abbrev pub millisecond : ℕ
millisecond = 1000000

abbrev pub second : ℕ
second = 1000000000

-- What a setting's text is once trimmed.
unfoldable pub setting : Bytes → Env → Bytes
unfolding getenv trim_space
setting key env = trim_space (getenv key env)

unfoldable pub env_or : Bytes → Bytes → Env → Bytes
unfolding setting
env_or key fallback env = let val = setting key env in if is_empty val then fallback else val

abbrev pub or_fallback : ℤ → Option ℤ → ℤ
or_fallback fallback none = fallback
or_fallback fallback (some n) = n

unfoldable pub env_int : Bytes → ℤ → Env → ℤ
unfolding setting atoi
env_int key fallback env =
    let raw = setting key env in if is_empty raw then fallback else or_fallback fallback (atoi raw)

unfoldable pub is_true_word : Bytes → Bool
is_true_word raw =
    raw == codes "1" || raw == codes "true" || raw == codes "yes" || raw == codes "on"

unfoldable pub is_false_word : Bytes → Bool
is_false_word raw =
    raw == codes "0" || raw == codes "false" || raw == codes "no" || raw == codes "off"

unfoldable pub env_bool : Bytes → Bool → Env → Bool
unfolding setting to_lower is_true_word is_false_word
env_bool key fallback env =
    let raw = to_lower (setting key env) in
    if is_true_word raw then true else if is_false_word raw then false else fallback

-- The product is that of int64, and wraps.
unfoldable pub env_duration_sec : Bytes → ℤ → Env → ℤ
unfolding env_int scale wrap64
env_duration_sec key fallback env = wrap64 (scale second (env_int key fallback env))

unfoldable pub env_duration_ms : Bytes → ℤ → Env → ℤ
unfolding env_int scale wrap64
env_duration_ms key fallback env = wrap64 (scale millisecond (env_int key fallback env))

-- The literal at the head of `Load`.
unfoldable pub read_config : Env → Config
unfolding env_bool env_or env_int env_duration_sec env_duration_ms setting to_lower
read_config env = record {
  http_enabled = env_bool (codes "BOT_HTTP_ENABLED") true env;
  bot_token = setting (codes "BOT_TOKEN") env;
  erp_url = setting (codes "ERP_URL") env;
  erp_api_key = setting (codes "ERP_API_KEY") env;
  erp_api_secret = setting (codes "ERP_API_SECRET") env;
  http_addr = env_or (codes "BOT_HTTP_ADDR") (codes ":8098") env;
  ipc_enabled = env_bool (codes "BOT_IPC_ENABLED") true env;
  ipc_socket = env_or (codes "BOT_IPC_SOCKET") (codes "/tmp/rfid-go-bot.sock") env;
  webhook_secret = setting (codes "BOT_WEBHOOK_SECRET") env;
  request_timeout = env_duration_ms (codes "BOT_HTTP_TIMEOUT_MS") (pos 12000) env;
  refresh_interval = env_duration_sec (codes "BOT_CACHE_REFRESH_SEC") (pos 5) env;
  submit_retry = env_int (codes "BOT_SUBMIT_RETRY") (pos 2) env;
  submit_retry_delay = env_duration_ms (codes "BOT_SUBMIT_RETRY_MS") (pos 300) env;
  worker_count = env_int (codes "BOT_WORKER_COUNT") (pos 4) env;
  queue_size = env_int (codes "BOT_QUEUE_SIZE") (pos 2048) env;
  recent_seen_ttl = env_duration_sec (codes "BOT_RECENT_SEEN_TTL_SEC") (pos 600) env;
  poll_timeout = env_duration_sec (codes "BOT_POLL_TIMEOUT_SEC") (pos 25) env;
  scan_backend = to_lower (env_or (codes "BOT_SCAN_BACKEND") (codes "hybrid") env);
  scan_default_active = env_bool (codes "BOT_SCAN_DEFAULT_ACTIVE") true env;
  auto_scan = env_bool (codes "BOT_AUTO_SCAN") false env;
  reader_connect_timeout = env_duration_sec (codes "BOT_READER_CONNECT_TIMEOUT_SEC") (pos 25) env;
  reader_retry_delay = env_duration_sec (codes "BOT_READER_RETRY_SEC") (pos 2) env;
  reader_host = setting (codes "BOT_READER_HOST") env;
  reader_port = env_int (codes "BOT_READER_PORT") (pos 0) env;
}

-- The slashes at the end of the address, and the addresses of the servers that are off.
unfoldable pub adjust : Config → Config
unfolding trim_right_byte
adjust cfg = record cfg {
  erp_url = trim_right_byte b'/' cfg.erp_url;
  http_addr = if not cfg.http_enabled then [] else cfg.http_addr;
  ipc_socket = if not cfg.ipc_enabled then [] else cfg.ipc_socket;
}

abbrev pub at_least : ℤ → ℤ → ℤ
at_least low n = if int_lt n low then low else n

abbrev pub at_most : ℤ → ℤ → ℤ
at_most high n = if int_lt high n then high else n

unfoldable pub is_backend : Bytes → Bool
is_backend b = b == codes "ingest" || b == codes "sdk" || b == codes "hybrid"

-- The limits, in the source's order.
unfoldable pub limit : Config → Config
unfolding is_backend
limit cfg = record cfg {
  submit_retry = at_least (pos 0) cfg.submit_retry;
  worker_count = at_least (pos 1) cfg.worker_count;
  queue_size = at_least (pos 64) cfg.queue_size;
  request_timeout = at_least (pos second) cfg.request_timeout;
  refresh_interval = at_least (pos (5 * second)) cfg.refresh_interval;
  poll_timeout = at_most (pos (55 * second)) (at_least (pos (5 * second)) cfg.poll_timeout);
  recent_seen_ttl = at_least (pos (30 * second)) cfg.recent_seen_ttl;
  scan_backend = if is_backend cfg.scan_backend then cfg.scan_backend else codes "ingest";
  reader_connect_timeout = at_least (pos (5 * second)) cfg.reader_connect_timeout;
  reader_retry_delay =
      if int_lt cfg.reader_retry_delay (pos (500 * millisecond))
      then pos (2 * second)
      else cfg.reader_retry_delay;
}

unfoldable pub load : Env → Result
unfolding read_config adjust limit
load env =
    let cfg = adjust (read_config env) in
    if is_empty cfg.bot_token
    then err token_required
    else if is_empty cfg.erp_url || is_empty cfg.erp_api_key || is_empty cfg.erp_api_secret
    then err erp_required
    else ok (limit cfg)
