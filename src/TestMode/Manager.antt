-- ===== src/TestMode/Manager.antt =====
-- testmode/manager.go: the session. Every method holds the lock for its whole body (`LoadFile`
-- parses before it takes the lock), so each is one step. Times are nanoseconds, 0 the zero time.
pub mod Laws
pub mod Session
use guhfrtui.Base.{
  ℕ, ◌+◌, ◌-◌, ◌%◌, ◌^◌, Bool, true, false, not, ◌&&◌, ◌||◌, Option, none, some, List, [], ◌∷◌,
  length, nat_beq, if◌then◌else◌, ◌==◌, bytes_eq, Bytes,
}
use guhfrtui.Base.Int.{ℤ, pos, int_eq}
use guhfrtui.Base.Sets.{has, insert}
use guhfrtui.Text.{is_empty}
use guhfrtui.Epc.{normalize_epc}
use guhfrtui.TestMode.Parser.{LoadStats, parse_epc_file}

pub record MatchResult : Type 0 where
  pub matched : Bool
  pub newly_read : Bool
  pub epc : Bytes
  pub chat_id : ℤ
  pub read_count : ℕ
  pub total : ℕ
  pub session_id : ℕ

abbrev pub no_match : MatchResult
no_match = record {
  matched = false;
  newly_read = false;
  epc = [];
  chat_id = pos 0;
  read_count = 0;
  total = 0;
  session_id = 0;
}

-- `unread` is an `int`: the difference is written on the integers' non-negative part, which is
-- the whole of it where no more is read than expected.
pub record StopResult : Type 0 where
  pub session_id : ℕ
  pub file_name : Bytes
  pub total : ℕ
  pub read : ℕ
  pub unread : ℕ
  pub chat_id : ℤ

pub data Error : Type 0 where
  no_valid_epc no_active_test not_owner : Error

pub record Manager : Type 0 where
  pub awaiting_file : Bool
  pub owner_chat_id : ℤ
  pub active : Bool
  pub session_id : ℕ
  pub file_name : Bytes
  pub started_at : ℕ
  pub expected : List Bytes
  pub read : List Bytes

abbrev pub new : Manager
new = record {
  awaiting_file = false;
  owner_chat_id = pos 0;
  active = false;
  session_id = 0;
  file_name = [];
  started_at = 0;
  expected = [];
  read = [];
}

unfoldable pub request_file : Manager → ℤ → Manager
request_file m chat_id = record m {
  awaiting_file = true;
  owner_chat_id = chat_id;
  active = false;
  file_name = [];
  started_at = 0;
  expected = [];
  read = [];
}

unfoldable pub is_awaiting_file : Manager → ℤ → Bool
is_awaiting_file m chat_id =
    if not m.awaiting_file then false else m.owner_chat_id == pos 0 || m.owner_chat_id == chat_id

-- The loop that builds the new set.
pub expect_all : List Bytes → List Bytes → List Bytes
expect_all [] expected = expected
expect_all (epc ∷ rest) expected =
    let normalized = normalize_epc epc in
    expect_all rest (if is_empty normalized then expected else insert normalized expected)

-- The error is `none` where Go returns nil; the statistics come back on every path.
pub record Loaded : Type 0 where
  pub manager : Manager
  pub stats : LoadStats
  pub error : Option Error

unfoldable pub load_file : Manager → ℕ → ℤ → Bytes → Bytes → Loaded
unfolding expect_all
load_file m now chat_id file_name content =
    let (epcs, parsed) = parse_epc_file content in
    let stats = record parsed { file_name = file_name } in
    let expected = expect_all epcs [] in
    let session = (m.session_id + 1) % 2 ^ 64 in
    let refused : Loaded = record { manager = m; stats = stats; error = some no_valid_epc } in
    if nat_beq stats.unique_epcs 0
    then refused
    else if nat_beq (length expected) 0
    then refused
    else record {
      manager = record {
        awaiting_file = false;
        owner_chat_id = chat_id;
        active = true;
        session_id = session;
        file_name = file_name;
        started_at = now;
        expected = expected;
        read = [];
      };
      stats = record stats { session_id = session };
      error = none;
    }

unfoldable pub record_read : Manager → Bytes → MatchResult × Manager
record_read m epc =
    let normalized = normalize_epc epc in
    let result : MatchResult = record {
      matched = true;
      newly_read = false;
      epc = normalized;
      chat_id = m.owner_chat_id;
      read_count = length m.read;
      total = length m.expected;
      session_id = m.session_id;
    } in
    let read = insert normalized m.read in
    if is_empty normalized
    then (no_match, m)
    else if not m.active || nat_beq (length m.expected) 0
    then (no_match, m)
    else if not (has normalized m.expected)
    then (no_match, m)
    else if has normalized m.read
    then (result, m)
    else (record result { newly_read = true; read_count = length read }, record m { read = read })

pub data Stopped : Type 0 where
  stopped : StopResult → Manager → Stopped
  refused : Error → Stopped

unfoldable pub stop : Manager → ℤ → Stopped
stop m chat_id =
    if not m.active
    then refused no_active_test
    else if not (m.owner_chat_id == pos 0) && not (chat_id == m.owner_chat_id)
    then refused not_owner
    else stopped
        (record {
          session_id = m.session_id;
          file_name = m.file_name;
          total = length m.expected;
          read = length m.read;
          unread = length m.expected - length m.read;
          chat_id = m.owner_chat_id;
        })
        (record m {
          active = false;
          awaiting_file = false;
          file_name = [];
          started_at = 0;
          expected = [];
          read = [];
        })

unfoldable pub is_session_active : Manager → ℕ → Bool
is_session_active m session_id = m.active && nat_beq m.session_id session_id
