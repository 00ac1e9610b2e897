-- ===== src/Cache.antt =====
-- internal/gobot/cache/store.go: the set of draft EPCs. Each method holds the lock for its whole
-- body, so it is one step; `Replace` builds the new map first.
pub mod Laws
use guhfrtui.Base.{ℕ, ◌+◌, Bool, false, List, [], ◌∷◌, length, if◌then◌else◌, bytes_eq, Bytes}
use guhfrtui.Base.Sets.{has, insert, delete}
use guhfrtui.Text.{is_empty}
use guhfrtui.Text.Sort.{sort_strings}

pub record Store : Type 0 where
  pub epcs : List Bytes

pub new : Store
new = record { epcs = [] }

-- The loop of `Replace`.
pub insert_all : List Bytes → List Bytes → List Bytes
insert_all [] next = next
insert_all (epc ∷ rest) next = insert_all rest (if is_empty epc then next else insert epc next)

unfoldable pub replace : Store → List Bytes → Store
unfolding insert_all
replace s epcs = record { epcs = insert_all epcs [] }

-- The loop of `Add`, with the count so far.
pub add_all : List Bytes → List Bytes → ℕ → List Bytes × ℕ
add_all [] epcs added = (epcs, added)
add_all (epc ∷ rest) epcs added =
    let again = add_all rest epcs added in
    let more = add_all rest (insert epc epcs) (added + 1) in
    if is_empty epc then again else if has epc epcs then again else more

unfoldable pub add : Store → List Bytes → Store × ℕ
unfolding add_all
add s epcs = let (next, added) = add_all epcs s.epcs 0 in (record { epcs = next }, added)

unfoldable pub remove : Store → Bytes → Store
remove s epc = if is_empty epc then s else record { epcs = delete epc s.epcs }

unfoldable pub cached : Store → Bytes → Bool
cached s epc = if is_empty epc then false else has epc s.epcs

unfoldable pub size : Store → ℕ
size s = length s.epcs

unfoldable pub snapshot_sorted : Store → List Bytes
snapshot_sorted s = sort_strings s.epcs
