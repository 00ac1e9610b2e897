-- ===== src/TestMode/Manager/Session.antt =====
-- What one session reports: the file that starts it, the reads that tick it off, its stop.
use guhfrtui.Base.{
  ℕ, List-cases, ◌+◌, ◌%◌, ◌^◌, ◌≡◌, ◌≢◌, refl, sym, ap, subst, ◌∙◌, ◌⊎◌, Bool, true, false, not,
  ◌&&◌, ◌||◌, inl, inr, none, some, List, [], ◌∷◌, arith, length, All, bytes_eq, bytes_beq_iff,
  ◌==◌, if◌then◌else◌, nat_beq, Bytes,
}
use guhfrtui.Base.Int.{ℤ, pos, int_beq_iff}
use guhfrtui.Base.Sets.{has, insert, has-insert, length-insert}
use guhfrtui.Text.{is_empty}
use guhfrtui.Epc.{normalize_epc}
use guhfrtui.Epc.Laws.{normalize_epc_of_IsHex}
use guhfrtui.TestMode.Parser.{parse_epc_file}
use guhfrtui.TestMode.Parser.Laws.{IsEpc, IsParsed, parse_epc_file-IsParsed}
use guhfrtui.TestMode.Manager.{
  Manager, no_valid_epc, MatchResult, StopResult, expect_all, load_file, record_read, stopped, stop,
}
use guhfrtui.TestMode.Manager.Laws.{Inv, length-le_of_has, record_read-Inv}

-- An EPC that the session waits for.
abbrev pub awaited : Manager → Bytes → Bool
awaited m e = not (is_empty e) && has e m.expected

-- What a read does, for the normal form `e` of the text read.
pub record Ticks (m : Manager) (e : Bytes) (r : MatchResult) (after : Manager) : Type 0 where
  pub matched : r.matched ≡ awaited m e
  pub newly_read : r.newly_read ≡ (awaited m e && not (has e m.read))
  pub read_set : (x : Bytes) → has x after.read ≡ (has x m.read || r.newly_read && e == x)
  pub read_length : length after.read ≡ length m.read + (if r.newly_read then 1 else 0)
  pub same_list : after.expected ≡ m.expected
  pub same_session : after.session_id ≡ m.session_id
  pub read_count : r.read_count ≡ (if awaited m e then length after.read else 0)
  pub total : r.total ≡ (if awaited m e then length m.expected else 0)

known_list : (e : Bytes) (xs : List Bytes) → has e xs ≡ true → nat_beq (length xs) 0 ≡ false
unfolding has
known_list e [] h = cc
known_list e (x ∷ xs) h = ground arith

-- A read matches if its normal form is expected, and is new if it was not read before; it then
-- enters the set of read EPCs and is counted, and nothing else changes.
pub record_read_lem :
    (m : Manager) (epc : Bytes)
    → Inv m
    → Ticks m (normalize_epc epc) (record_read m epc).0 (record_read m epc).1
unfolding record_read
record_read_lem m epc v = record {
  matched = ground (arith, v.listed, known);
  newly_read = ground (arith, v.listed, known);
  read_set = λ x. ground (arith, v.listed, known, has-insert e x m.read);
  read_length = ground (arith, v.listed, known, length-insert e m.read);
  same_list = ground arith;
  same_session = ground arith;
  read_count = ground (arith, v.listed, known);
  total = ground (arith, v.listed, known);
}
  where
    e : Bytes
    e = normalize_epc epc

    known : has e m.expected ≡ true → nat_beq (length m.expected) 0 ≡ false
    known = known_list e m.expected

-- A second read of the same tag still matches, but is never new again and counts nothing.
pub record_read_twice :
    (m : Manager) (first second : Bytes)
    → Inv m
    → normalize_epc second ≡ normalize_epc first
    → let (r, m') = record_read m first in
      let (r', m'') = record_read m' second in
      (r'.newly_read ≡ false) × (r'.matched ≡ r.matched) × (length m''.read ≡ length m'.read)
record_read_twice m first second v same = ground (
  arith,
  t1.matched,
  t1.newly_read,
  t1.read_set e,
  ap (has e) t1.same_list,
  t2.matched,
  t2.newly_read,
  t2.read_length,
  bytes_beq_iff e e,
)
  where
    e : Bytes
    e = normalize_epc first

    t1 : Ticks m (normalize_epc first) (record_read m first).0 (record_read m first).1
    t1 = record_read_lem m first v

    t2 :
        Ticks
          (record_read m first).1
          (normalize_epc first)
          (record_read (record_read m first).1 second).0
          (record_read (record_read m first).1 second).1
    t2 =
        subst
          (λ n.
            Ticks (record_read m first).1 n (record_read (record_read m first).1 second).0
              (record_read (record_read m first).1 second).1)
          same (record_read_lem (record_read m first).1 second (record_read-Inv m first v))

-- If `Stop` succeeds, a test was active, and the chat is its owner or no owner is recorded. The
-- report then covers every expected EPC, as read or as unread, and the manager is idle again.
pub stop_lem :
    (m : Manager) (chat : ℤ) (r : StopResult) (m' : Manager)
    → Inv m
    → stop m chat ≡ stopped r m'
    → (r.read + r.unread ≡ r.total)
      × (r.total ≡ length m.expected)
      × (r.read ≡ length m.read)
      × (m'.active ≡ false)
      × (m'.expected ≡ [])
      × (m.active ≡ true)
      × ((m.owner_chat_id ≡ pos 0) ⊎ (chat ≡ m.owner_chat_id))
unfolding stop
stop_lem m chat r m' v h = ground (
  arith,
  length-le_of_has m.read m.expected v.read_once v.expected_once v.read_within,
  int_beq_iff m.owner_chat_id (pos 0),
  int_beq_iff chat m.owner_chat_id,
)

has-expect_all :
    (es acc : List Bytes) (x : Bytes)
    → All IsEpc es
    → has x (expect_all es acc) ≡ (has x acc || has x es)
unfolding expect_all
has-expect_all [] acc x h = unfold has in ground arith
has-expect_all (e ∷ es) acc x h =
    rw (normalize_epc_of_IsHex e h.0.0, h.0.1)
      (has-expect_all es (insert e acc) x h.1 ∙ unfold has in ground (arith, has-insert e x acc))

-- What a file that was accepted leaves: a new session of this chat, waiting for exactly the EPCs
-- of the file, none of them read.
pub record Opened (before : Manager) (chat : ℤ) (name : Bytes) (epcs : List Bytes) (m : Manager)
    : Type 0 where
  pub is_active : m.active ≡ true
  pub waits_no_more : m.awaiting_file ≡ false
  pub owner : m.owner_chat_id ≡ chat
  pub next_session : m.session_id ≡ (before.session_id + 1) % 2 ^ 64
  pub file : m.file_name ≡ name
  pub expects : (x : Bytes) → has x m.expected ≡ has x epcs
  pub unread : m.read ≡ []

-- `LoadFile` succeeds exactly if the file names an EPC, and then opens a session on its EPCs; a
-- file that names none is refused and leaves the manager as it was.
pub load_file_lem :
    (m : Manager) (now : ℕ) (chat : ℤ) (name content : Bytes)
    → let l = load_file m now chat name content in
      ((l.error ≡ none)
        × ((parse_epc_file content).0 ≢ [])
        × Opened m chat name (parse_epc_file content).0 l.manager)
      ⊎ ((l.error ≡ some no_valid_epc) × ((parse_epc_file content).0 ≡ []) × (l.manager ≡ m))
unfolding load_file
load_file_lem m now chat name content = elim (List-cases epcs) [
  | inl nothing ↦ inr (
    ground (arith, nothing, parsed.unique_count),
    nothing,
    ground (arith, nothing, parsed.unique_count),
  )
  | inr (e, es, is) ↦
      let some_epc : nat_beq (parse_epc_file content).1.unique_epcs 0 ≡ false =
        ground (arith, is, parsed.unique_count) in
      let some_expected : nat_beq (length (expect_all epcs [])) 0 ≡ false =
        known_list e (expect_all epcs []) (
          has-expect_all epcs [] e parsed.normal
          ∙ rw is (unfold has in ground (arith, bytes_beq_iff e e))) in
      inl (
        rw (some_epc, some_expected)
          (
            refl,
            (λ none_found. cc (sym is ∙ none_found)),
            record {
              is_active = refl;
              waits_no_more = refl;
              owner = refl;
              next_session = refl;
              file = refl;
              expects = λ x. has-expect_all epcs [] x parsed.normal ∙ unfold has in refl;
              unread = refl;
            },
          ))
]
  where
    epcs : List Bytes
    epcs = (parse_epc_file content).0

    parsed : IsParsed (parse_epc_file content).0 (parse_epc_file content).1
    parsed = parse_epc_file-IsParsed content
