-- ===== src/TestMode/Parser/Laws.antt =====
-- What `parseEPCFile` returns: its EPCs and its counters.
use guhfrtui.Base.{
  ◌+◌, ◌≡◌, refl, sym, ◌∙◌, false, inl, inr, List, [], ◌∷◌, ◌++◌, arith, length, length-append, All,
  All-append, Bool-cases, bytes_eq, bytes_beq_iff, Bytes,
}
use guhfrtui.Base.Sets.{has, insert, IsUnique, has-append, has-insert}
use guhfrtui.Text.{is_empty, scan_lines}
use guhfrtui.Epc.{normalize_epc}
use guhfrtui.Epc.Laws.{IsHex, normalize_epc-IsHex}
use guhfrtui.TestMode.Parser.{
  LoadStats, Loop, line_text, is_skipped, take_epc, read_line, read_lines, start, parse_epc_file,
}

abbrev pub IsEpc : Bytes → Type 0
IsEpc e = IsHex e × (is_empty e ≡ false)

-- Every line is counted once: as invalid, as a duplicate or as a new EPC.
pub record Adds (out : List Bytes) (st : LoadStats) : Type 0 where
  pub total_sum : st.total_lines ≡ st.valid_lines + st.invalid_lines
  pub valid_sum : st.valid_lines ≡ length out + st.duplicate_lines

pub record LoopInv (l : Loop) : Type 0 where
  pub sums : Adds l.out l.stats
  pub same_set : (x : Bytes) → has x l.unique ≡ has x l.out
  pub once : IsUnique l.out
  pub normal : All IsEpc l.out

pub start-LoopInv : LoopInv start
unfolding has
start-LoopInv = record {
  sums = record { total_sum = omega arith; valid_sum = omega arith };
  same_set = λ x. refl;
  once = tt;
  normal = tt;
}

snoc-IsUnique :
    (e : Bytes) (xs : List Bytes) → has e xs ≡ false → IsUnique xs → IsUnique (xs ++ (e ∷ []))
unfolding has
snoc-IsUnique e [] new u = (refl, tt)
snoc-IsUnique e (x ∷ xs) new u = (
  ground (arith, has-append x xs (e ∷ []), bytes_beq_iff x e, bytes_beq_iff e x),
  snoc-IsUnique e xs (ground arith) u.1,
)

counted :
    (l : Loop) (st : LoadStats) → LoopInv l → Adds l.out st → LoopInv (record l { stats = st })
counted l st v sums = record {
  sums = sums;
  same_set = v.same_set;
  once = v.once;
  normal = v.normal;
}

appended :
    (e : Bytes) (l : Loop) (st : LoadStats)
    → LoopInv l
    → IsEpc e
    → has e l.unique ≡ false
    → Adds (l.out ++ (e ∷ [])) st
    → LoopInv (record l { unique = insert e l.unique; out = l.out ++ (e ∷ []); stats = st })
appended e l st v is new sums = record {
  sums = sums;
  same_set = added;
  once = snoc-IsUnique e l.out (sym (v.same_set e) ∙ new) v.once;
  normal = All-append IsEpc l.out (e ∷ []) v.normal (is, tt);
}
  where
    added : (x : Bytes) → has x (insert e l.unique) ≡ has x (l.out ++ (e ∷ []))
    added x =
        unfold has in
        ground (arith, has-insert e x l.unique, has-append x l.out (e ∷ []), v.same_set x)

take_epc-LoopInv : (e : Bytes) (l : Loop) → IsHex e → LoopInv l → LoopInv (take_epc e l)
unfolding take_epc
take_epc-LoopInv e l hex v = elim (Bool-cases (is_empty e)) [
  | inl blank ↦ rw blank (counted l _ v (omega (arith, v.sums)))
  | inr some_digit ↦ elim (Bool-cases (has e l.unique)) [
    | inl old ↦ rw (some_digit, old) (counted l _ v (omega (arith, v.sums)))
    | inr new ↦
        rw (some_digit, new)
          (appended e l _ v (hex, some_digit) new
            (omega (arith, v.sums, length-append l.out (e ∷ []))))
  ]
]

pub read_line-LoopInv : (line : Bytes) (l : Loop) → LoopInv l → LoopInv (read_line line l)
unfolding read_line
read_line-LoopInv line l v =
    let raw = line_text l.line_no line in
    let next = record l { line_no = l.line_no + 1 } in
    let v' : LoopInv next = record {
      sums = v.sums;
      same_set = v.same_set;
      once = v.once;
      normal = v.normal;
    } in
    elim (Bool-cases (is_skipped raw)) [
      | inl skipped ↦ rw skipped v'
      | inr read ↦ rw read (take_epc-LoopInv (normalize_epc raw) next (normalize_epc-IsHex raw) v')
    ]

read_lines-LoopInv : (lines : List Bytes) (l : Loop) → LoopInv l → LoopInv (read_lines lines l)
unfolding read_lines
read_lines-LoopInv [] l v = v
read_lines-LoopInv (line ∷ rest) l v =
    read_lines-LoopInv rest (read_line line l) (read_line-LoopInv line l v)

-- The guarantees of `parseEPCFile`.
pub record IsParsed (epcs : List Bytes) (st : LoadStats) : Type 0 where
  pub once : IsUnique epcs
  pub normal : All IsEpc epcs
  pub unique_count : st.unique_epcs ≡ length epcs
  pub total_sum : st.total_lines ≡ st.valid_lines + st.invalid_lines
  pub valid_sum : st.valid_lines ≡ st.unique_epcs + st.duplicate_lines

-- Whatever the file holds: the EPCs come each once, non-empty and in normal form; every line that
-- is neither blank nor a comment is counted as valid or as invalid, and every valid one as a new
-- EPC or as a duplicate.
pub parse_epc_file-IsParsed :
    (content : Bytes) → IsParsed (parse_epc_file content).0 (parse_epc_file content).1
unfolding parse_epc_file
parse_epc_file-IsParsed [] = record {
  once = tt;
  normal = tt;
  unique_count = refl;
  total_sum = omega arith;
  valid_sum = omega arith;
}
parse_epc_file-IsParsed (c ∷ content) =
    let v = read_lines-LoopInv (scan_lines (c ∷ content)) start start-LoopInv in
    record {
      once = v.once;
      normal = v.normal;
      unique_count = refl;
      total_sum = v.sums.total_sum;
      valid_sum = v.sums.valid_sum;
    }
