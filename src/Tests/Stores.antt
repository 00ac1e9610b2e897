-- ===== src/Tests/Stores.antt =====
-- The cache of EPCs, the EPC texts and the ERP replies.
use guhfrtui.Base.{◌≡◌, true, false, List, [], ◌∷◌, Bytes, bytes_eq}
use guhfrtui.Base.Int.{pos}
use guhfrtui.Cache
use guhfrtui.Cache.{Store, size, add, remove, cached, snapshot_sorted}
use guhfrtui.Cache.Laws
use guhfrtui.Cache.Laws.{
  IsValid, size_lem, snapshot_sorted_lem, run_refines, replaces, adds, removes, meanings,
}
use guhfrtui.Erp.{
  Reply, answered, decoded, DraftMessage, SubmitMessage, FetchResult, submitted_text,
}

-- "E2" and "3a".
abbrev e2 : Bytes
e2 = b'E' ∷ b'2' ∷ []

abbrev lower_3a : Bytes
lower_3a = b'3' ∷ b'a' ∷ []

abbrev upper_3a : Bytes
upper_3a = b'3' ∷ b'A' ∷ []

abbrev history : List Laws.Op
history = adds (e2 ∷ [] ∷ upper_3a ∷ []) ∷ removes e2 ∷ []

run_refines_example :
    IsValid (Laws.run Cache.new history)
    × (cached (Laws.run Cache.new history) ≡ meanings (λ x. false) history)
run_refines_example = run_refines history

abbrev store : Store
store = Laws.run Cache.new history

-- A message that lists "3a" twice.
abbrev drafts : DraftMessage
drafts = record {
  is_ok = true;
  error = [];
  epc_only = true;
  epcs = lower_3a ∷ upper_3a ∷ [];
  count_drafts = pos 2;
  draft_count_alt = pos 0;
}

abbrev fetched : FetchResult
fetched = record { epcs = upper_3a ∷ []; draft_count = pos 2 }

-- A server that takes every EPC.
abbrev server : Bytes → Reply SubmitMessage
server epc = answered 200 (decoded (record { is_ok = true; status = submitted_text; error = [] }))
