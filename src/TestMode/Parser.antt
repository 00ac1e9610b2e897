-- ===== src/TestMode/Parser.antt =====
-- testmode/parser.go `parseEPCFile`.
pub mod Laws
pub mod Lines
use guhfrtui.Base.{
  ℕ, ◌+◌, Bool, ◌||◌, List, [], ◌∷◌, ◌++◌, length, nat_beq, if◌then◌else◌, bytes_eq, Bytes,
}
use guhfrtui.Base.Sets.{has, insert}
use guhfrtui.Text.{is_empty, trim_space, trim_prefix, has_prefix, scan_lines}
use guhfrtui.Epc.{normalize_epc}

pub record LoadStats : Type 0 where
  pub file_name : Bytes
  pub total_lines : ℕ
  pub valid_lines : ℕ
  pub unique_epcs : ℕ
  pub duplicate_lines : ℕ
  pub invalid_lines : ℕ
  pub session_id : ℕ

abbrev pub no_stats : LoadStats
no_stats = record {
  file_name = [];
  total_lines = 0;
  valid_lines = 0;
  unique_epcs = 0;
  duplicate_lines = 0;
  invalid_lines = 0;
  session_id = 0;
}

-- The variables of the loop.
pub record Loop : Type 0 where
  pub line_no : ℕ
  pub unique : List Bytes
  pub out : List Bytes
  pub stats : LoadStats

-- U+FEFF in UTF-8.
abbrev pub byte_order_mark : Bytes
byte_order_mark = 0xEF ∷ 0xBB ∷ 0xBF ∷ []

-- What a line says: its trimmed text, with the first line's byte order mark cut off.
abbrev pub line_text : ℕ → Bytes → Bytes
line_text line_no line =
    let raw = trim_space line in if nat_beq line_no 0 then trim_prefix raw byte_order_mark else raw

-- Blank lines and comments.
abbrev pub is_skipped : Bytes → Bool
is_skipped raw = is_empty raw || has_prefix raw (b'#' ∷ [])

-- The body of the loop behind the two tests of the line.
pub take_epc : Bytes → Loop → Loop
take_epc epc l =
    let counted = record l.stats { total_lines = l.stats.total_lines + 1 } in
    let valid = record counted { valid_lines = l.stats.valid_lines + 1 } in
    if is_empty epc
    then record l { stats = record counted { invalid_lines = l.stats.invalid_lines + 1 } }
    else if has epc l.unique
    then record l { stats = record valid { duplicate_lines = l.stats.duplicate_lines + 1 } }
    else record l { unique = insert epc l.unique; out = l.out ++ (epc ∷ []); stats = valid }

pub read_line : Bytes → Loop → Loop
unfolding take_epc
read_line line l =
    let raw = line_text l.line_no line in
    let next = record l { line_no = l.line_no + 1 } in
    if is_skipped raw then next else take_epc (normalize_epc raw) next

pub read_lines : List Bytes → Loop → Loop
read_lines [] l = l
read_lines (line ∷ rest) l = read_lines rest (read_line line l)

abbrev pub start : Loop
start = record { line_no = 0; unique = []; out = []; stats = no_stats }

-- The error of the scanner is not looked at.
unfoldable pub parse_epc_file : Bytes → List Bytes × LoadStats
unfolding read_lines read_line
parse_epc_file content =
    let l = read_lines (scan_lines content) start in
    if is_empty content
    then ([], no_stats)
    else (l.out, record l.stats { unique_epcs = length l.out })
