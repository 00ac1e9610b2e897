-- ===== src/TestMode/Manager/Laws.antt =====
-- The invariant of the session, and the methods against it.
use guhfrtui.Base.{
  ℕ, suc, ◌≤◌, ◌≡◌, refl, ap, ◌∙◌, true, false, not, inl, inr, List, [], ◌∷◌, arith, length,
  Bool-cases, bytes_eq, bytes_beq_iff, nat_beq, Bytes,
}
use guhfrtui.Base.Int.{ℤ}
use guhfrtui.Base.Sets.{
  has, insert, delete, IsUnique, has-insert, has-delete, insert-IsUnique, delete-IsUnique,
  length-delete,
}
use guhfrtui.Text.{is_empty}
use guhfrtui.Epc.{normalize_epc}
use guhfrtui.TestMode.Parser.{parse_epc_file}
use guhfrtui.TestMode.Manager.{
  Manager, new, request_file, expect_all, load_file, record_read, Stopped, stopped, refused, stop,
}

-- Of two lists without repetitions, one within the other, the inner one is no longer.
pub length-le_of_has :
    (xs ys : List Bytes)
    → IsUnique xs
    → IsUnique ys
    → ((x : Bytes) → has x xs ≡ true → has x ys ≡ true)
    → length xs ≤ length ys
length-le_of_has [] ys u v within = omega arith
length-le_of_has (x ∷ xs) ys u v within =
    omega (arith, one_less, length-le_of_has xs (delete x ys) u.1 (delete-IsUnique x ys v) inner)
  where
    here : has x ys ≡ true
    here = within x (unfold has in ground (arith, bytes_beq_iff x x))

    one_less : length ys ≡ suc (length (delete x ys))
    one_less = ground (arith, here, length-delete x ys v)

    inner : (y : Bytes) → has y xs ≡ true → has y (delete x ys) ≡ true
    inner y h =
        has-delete x y ys
        ∙ ground (arith, bytes_beq_iff x y, u.0, ap (λ z. has z xs) {x = x} {y = y}, outer)
      where
        outer : has y ys ≡ true
        outer = within y (unfold has in ground (arith, h))

-- Only expected EPCs are read, nothing is listed twice, and there is a list exactly while a test
-- is active.
pub record Inv (m : Manager) : Type 0 where
  pub expected_once : IsUnique m.expected
  pub read_once : IsUnique m.read
  pub read_within : (x : Bytes) → has x m.read ≡ true → has x m.expected ≡ true
  pub listed : m.active ≡ not (nat_beq (length m.expected) 0)

new-Inv : Inv new
unfolding has
new-Inv = record { expected_once = tt; read_once = tt; read_within = λ x h. cc; listed = refl }

request_file-Inv : (m : Manager) (chat : ℤ) → Inv (request_file m chat)
unfolding request_file has
request_file-Inv m chat = record {
  expected_once = tt;
  read_once = tt;
  read_within = λ x h. cc;
  listed = refl;
}

expect_all-IsUnique : (es acc : List Bytes) → IsUnique acc → IsUnique (expect_all es acc)
unfolding expect_all
expect_all-IsUnique [] acc u = u
expect_all-IsUnique (e ∷ es) acc u = elim (Bool-cases (is_empty (normalize_epc e))) [
  | inl blank ↦ rw blank (expect_all-IsUnique es acc u)
  | inr digits ↦ rw digits (
      expect_all-IsUnique es (insert (normalize_epc e) acc)
        (insert-IsUnique (normalize_epc e) acc u))
]

load_file-Inv :
    (m : Manager) (now : ℕ) (chat : ℤ) (name content : Bytes)
    → Inv m
    → Inv (load_file m now chat name content).manager
unfolding load_file
load_file-Inv m now chat name content v =
    elim (Bool-cases (nat_beq (parse_epc_file content).1.unique_epcs 0)) [
      | inl none_found ↦ rw none_found v
      | inr found ↦
          elim (Bool-cases (nat_beq (length (expect_all (parse_epc_file content).0 [])) 0)) [
            | inl nothing ↦ rw (found, nothing) v
            | inr some_expected ↦
                rw (found, some_expected)
                  (record {
                    expected_once = expect_all-IsUnique (parse_epc_file content).0 [] tt;
                    read_once = tt;
                    read_within = λ x h. unfold has in cc;
                    listed = ground (arith, some_expected);
                  })
          ]
    ]

pub record_read-Inv : (m : Manager) (epc : Bytes) → Inv m → Inv (record_read m epc).1
unfolding record_read
record_read-Inv m epc v = ground (arith, ticked)
  where
    ticked :
        has (normalize_epc epc) m.expected ≡ true
        → Inv (record m { read = insert (normalize_epc epc) m.read })
    ticked known = record {
      expected_once = v.expected_once;
      read_once = insert-IsUnique (normalize_epc epc) m.read v.read_once;
      read_within = λ x h. ground (
        arith,
        v.read_within x,
        has-insert (normalize_epc epc) x m.read,
        bytes_beq_iff (normalize_epc epc) x,
        ap (λ z. has z m.expected) {x = normalize_epc epc} {y = x},
      );
      listed = v.listed;
    }

-- Where Go returns an error the manager stays as it is.
abbrev pub after_stop : Manager → Stopped → Manager
after_stop m (stopped r m') = m'
after_stop m (refused e) = m

stop-Inv : (m : Manager) (chat : ℤ) → Inv m → Inv (after_stop m (stop m chat))
unfolding stop
stop-Inv m chat v = ground (arith, cleared)
  where
    cleared : Inv (record m {
      active = false;
      awaiting_file = false;
      file_name = [];
      started_at = 0;
      expected = [];
      read = [];
    })
    cleared = record {
      expected_once = tt;
      read_once = tt;
      read_within = λ x h. unfold has in cc;
      listed = refl;
    }

pub data Op : Type 0 where
  requests stops : ℤ → Op
  loads : ℕ → ℤ → Bytes → Bytes → Op
  reads : Bytes → Op

abbrev pub step : Manager → Op → Manager
step m (requests chat) = request_file m chat
step m (stops chat) = after_stop m (stop m chat)
step m (loads now chat name content) = (load_file m now chat name content).manager
step m (reads epc) = (record_read m epc).1

abbrev pub run : Manager → List Op → Manager
run m [] = m
run m (o ∷ os) = run (step m o) os

step-Inv : (m : Manager) (o : Op) → Inv m → Inv (step m o)
step-Inv m (requests chat) v = request_file-Inv m chat
step-Inv m (stops chat) v = stop-Inv m chat v
step-Inv m (loads now chat name content) v = load_file-Inv m now chat name content v
step-Inv m (reads epc) v = record_read-Inv m epc v

run_from-Inv : (os : List Op) (m : Manager) → Inv m → Inv (run m os)
run_from-Inv [] m v = v
run_from-Inv (o ∷ os) m v = run_from-Inv os (step m o) (step-Inv m o v)

-- After any history of the four methods, from a new manager: no EPC is listed or read twice,
-- only expected EPCs are read, so no more than there are, and the test is active exactly while
-- something is expected.
pub run-Inv :
    (os : List Op) → Inv (run new os) × (length (run new os).read ≤ length (run new os).expected)
run-Inv os =
    let v = run_from-Inv os new new-Inv in
    (
      v,
      length-le_of_has (run new os).read (run new os).expected v.read_once v.expected_once
          v.read_within,
    )
