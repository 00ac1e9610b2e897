-- ===== src/TestMode/Parser/Lines.antt =====
-- The lines of a file against the counters and the EPCs of `parseEPCFile`.
use guhfrtui.Base.{
  ℕ, suc, ◌+◌, ◌≡◌, refl, ap, subst, ◌∙◌, Bool, not, ◌||◌, List, [], ◌∷◌, ◌++◌, arith, length,
  length-append, bytes_eq, bytes_beq_iff, if◌then◌else◌, Bytes,
}
use guhfrtui.Base.Sets.{has, has-append}
use guhfrtui.Text.{is_empty, trim_space, trim_prefix, has_prefix, scan_lines}
use guhfrtui.Epc.{normalize_epc}
use guhfrtui.TestMode.Parser.{
  LoadStats, Loop, line_text, byte_order_mark, take_epc, read_line, read_lines, start,
  parse_epc_file,
}
use guhfrtui.TestMode.Parser.Laws.{
  IsParsed, parse_epc_file-IsParsed, LoopInv, start-LoopInv, read_line-LoopInv,
}

-- The trimmed lines, a byte order mark cut off the first.
unfoldable pub trimmed : List Bytes → List Bytes
trimmed [] = []
trimmed (line ∷ lines) = trim_space line ∷ trimmed lines

abbrev pub texts : List Bytes → List Bytes
texts [] = []
texts (line ∷ lines) = trim_prefix (trim_space line) byte_order_mark ∷ trimmed lines

-- A text that is neither blank nor a comment.
abbrev pub is_entry : Bytes → Bool
is_entry t = not (is_empty t || has_prefix t (b'#' ∷ []))

unfoldable pub entries : List Bytes → ℕ
entries [] = 0
entries (t ∷ ts) = (if is_entry t then 1 else 0) + entries ts

-- The EPC of an entry, in normal form, where it has hex digits.
abbrev pub epc_in : Bytes → List Bytes
epc_in t = if is_empty (normalize_epc t) then [] else normalize_epc t ∷ []

unfoldable pub entry_epcs : List Bytes → List Bytes
entry_epcs [] = []
entry_epcs (t ∷ ts) = (if is_entry t then epc_in t else []) ++ entry_epcs ts

-- What reading the texts does.
record Reads (ts : List Bytes) (l l' : Loop) : Type 0 where
  total : l'.stats.total_lines ≡ l.stats.total_lines + entries ts
  valid : l'.stats.valid_lines ≡ l.stats.valid_lines + length (entry_epcs ts)
  set : (x : Bytes) → has x l'.out ≡ (has x l.out || has x (entry_epcs ts))
  line_no : l'.line_no ≡ l.line_no + length ts
  inv : LoopInv l'

Reads-cons :
    (t : Bytes) (ts : List Bytes) (l l' l'' : Loop)
    → Reads (t ∷ []) l l'
    → Reads ts l' l''
    → Reads (t ∷ ts) l l''
unfolding entries entry_epcs has
Reads-cons t ts l l' l'' p q =
    let one = if is_entry t then epc_in t else [] in
    record {
      total = ground (arith, p.total, q.total);
      valid =
          omega (arith, p.valid, q.valid, length-append one [], length-append one (entry_epcs ts));
      set = λ x.
          ground (arith, p.set x, q.set x, has-append x one [], has-append x one (entry_epcs ts));
      line_no = omega (arith, p.line_no, q.line_no);
      inv = q.inv;
    }

read_line-Reads :
    (line : Bytes) (l : Loop)
    → LoopInv l
    → Reads (line_text l.line_no line ∷ []) l (read_line line l)
read_line-Reads line l v = record {
  total = (counted (line_text l.line_no line)).0;
  valid = (counted (line_text l.line_no line)).1;
  set = sets;
  line_no = counter;
  inv = read_line-LoopInv line l v;
}
  where
    t : Bytes
    t = line_text l.line_no line

    counted :
        (u : Bytes)
        → ((read_line line l).stats.total_lines ≡ l.stats.total_lines + entries (t ∷ []))
          × ((read_line line l).stats.valid_lines
              ≡ l.stats.valid_lines + length (entry_epcs (t ∷ [])))
    counted u = unfold read_line take_epc entries entry_epcs in ground arith

    counter : (read_line line l).line_no ≡ l.line_no + 1
    counter = unfold read_line take_epc in ground arith

    sets : (x : Bytes) → has x (read_line line l).out ≡ (has x l.out || has x (entry_epcs (t ∷ [])))
    sets x =
        unfold read_line take_epc entry_epcs has in
        ground (
          arith,
          v.same_set x,
          has-append x l.out (normalize_epc t ∷ []),
          bytes_beq_iff (normalize_epc t) x,
          ap (λ y. has y l.unique) {x = normalize_epc t} {y = x},
        )

later_text : (n : ℕ) (line : Bytes) → line_text (suc n) line ≡ trim_space line
later_text n line = ground arith

later_lines :
    (lines : List Bytes) (l : Loop) (n : ℕ)
    → l.line_no ≡ suc n
    → LoopInv l
    → Reads (trimmed lines) l (read_lines lines l)
unfolding read_lines trimmed
later_lines [] l n e v =
    unfold entries entry_epcs has in
    record {
      total = unfold entries in omega arith;
      valid = unfold entry_epcs in omega arith;
      set = λ x. unfold entry_epcs has in ground arith;
      line_no = omega arith;
      inv = v;
    }
later_lines (line ∷ lines) l n e v =
    let p : Reads (trim_space line ∷ []) l (read_line line l) = first in
    Reads-cons (trim_space line) (trimmed lines) l (read_line line l)
      (read_lines lines (read_line line l)) p
      (later_lines lines (read_line line l) (suc n) (p.line_no ∙ ground (arith, e)) p.inv)
  where
    first : Reads (trim_space line ∷ []) l (read_line line l)
    first =
        subst (λ t. Reads (t ∷ []) l (read_line line l))
          (ap (λ k. line_text k line) e ∙ later_text n line) (read_line-Reads line l v)

-- What `parseEPCFile` says of the lines that it has read.
pub record Describes (lines epcs : List Bytes) (st : LoadStats) : Type 0 where
  pub parsed : IsParsed epcs st
  pub total : st.total_lines ≡ entries (texts lines)
  pub valid : st.valid_lines ≡ length (entry_epcs (texts lines))
  pub set : (x : Bytes) → has x epcs ≡ has x (entry_epcs (texts lines))

read_all : (lines : List Bytes) → Reads (texts lines) start (read_lines lines start)
unfolding read_lines
read_all [] = record {
  total = unfold entries in refl;
  valid = unfold entry_epcs in refl;
  set = λ x. unfold entry_epcs has in refl;
  line_no = refl;
  inv = start-LoopInv;
}
read_all (line ∷ lines) =
    let p = read_line-Reads line start start-LoopInv in
    Reads-cons (trim_prefix (trim_space line) byte_order_mark) (trimmed lines) start
      (read_line line start) (read_lines lines (read_line line start)) p
      (later_lines lines (read_line line start) 0 p.line_no p.inv)

-- Of the lines that the scanner gives, which ends at a line of 64 KiB: those that are neither blank nor
-- begin with `#` when trimmed (and, on the first line, without a byte order mark) are counted; those of
-- them with a hex digit are counted as valid, and the others as invalid. The EPCs returned are exactly
-- those of the valid lines, in normal form, each once, and the valid lines are these EPCs and the
-- duplicates.
pub parse_epc_file_lem :
    (content : Bytes)
    → Describes (scan_lines content) (parse_epc_file content).0 (parse_epc_file content).1
parse_epc_file_lem [] = record {
  parsed = parse_epc_file-IsParsed [];
  total = unfold parse_epc_file entries scan_lines in refl;
  valid = unfold parse_epc_file entry_epcs scan_lines in refl;
  set = λ x. unfold parse_epc_file entry_epcs scan_lines has in refl;
}
parse_epc_file_lem (c ∷ content) =
    let r = read_all (scan_lines (c ∷ content)) in
    record {
      parsed = parse_epc_file-IsParsed (c ∷ content);
      total = unfold parse_epc_file in r.total ∙ omega arith;
      valid = unfold parse_epc_file in r.valid ∙ omega arith;
      set = λ x. unfold parse_epc_file has in r.set x;
    }
