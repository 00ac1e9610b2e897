-- ===== src/Tests/TestMode.antt =====
-- A test session: a file is awaited, loaded and read.
use guhfrtui.Base.{◌≡◌, ◌≢◌, ◌⊎◌, List, [], ◌∷◌, ◌++◌, none, some, length, Bytes, ◌≤◌}
use guhfrtui.Base.Int.{pos}
use guhfrtui.TestMode.Parser.{parse_epc_file}
use guhfrtui.Text.{scan_lines}
use guhfrtui.TestMode.Parser.Lines.{Describes, parse_epc_file_lem}
use guhfrtui.TestMode.Manager.{Manager, new, StopResult, no_valid_epc, load_file}
use guhfrtui.TestMode.Manager.Laws.{Inv, Op, run, run-Inv, requests, loads, reads}
use guhfrtui.TestMode.Manager.Session.{Opened, load_file_lem}

-- "E2", "3a", and a file of both with a comment.
abbrev e2_text : Bytes
e2_text = b'E' ∷ b'2' ∷ []

abbrev lower_text : Bytes
lower_text = b'3' ∷ b'a' ∷ []

abbrev file : Bytes
file = e2_text ++ (10 ∷ b'#' ∷ b'x' ∷ 10 ∷ []) ++ lower_text ++ (10 ∷ []) ++ e2_text

parse_epc_file_lem_example :
    Describes (scan_lines file) (parse_epc_file file).0 (parse_epc_file file).1
parse_epc_file_lem_example = parse_epc_file_lem file

abbrev session : List Op
session = requests (pos 7) ∷ loads 1 (pos 7) [] file ∷ reads lower_text ∷ []

run-Inv_example :
    Inv (run new session) × (length (run new session).read ≤ length (run new session).expected)
run-Inv_example = run-Inv session

abbrev opened : List Op
opened = requests (pos 7) ∷ loads 1 (pos 7) [] file ∷ []

abbrev manager : Manager
manager = run new opened

load_file_lem_example :
    let l = load_file new 1 (pos 7) [] file in
    ((l.error ≡ none)
      × ((parse_epc_file file).0 ≢ [])
      × Opened new (pos 7) [] (parse_epc_file file).0 l.manager)
    ⊎ ((l.error ≡ some no_valid_epc) × ((parse_epc_file file).0 ≡ []) × (l.manager ≡ new))
load_file_lem_example = load_file_lem new 1 (pos 7) [] file

abbrev report : StopResult
report = record { session_id = 1; file_name = []; total = 2; read = 0; unread = 2; chat_id = pos 7 }

abbrev idle : Manager
idle = record new { owner_chat_id = pos 7; session_id = 1 }
