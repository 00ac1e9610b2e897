-- ===== src/Cache/Laws.antt =====
-- The store against a set of EPCs: what `Has` and `Size` report after each operation, and after a
-- history of them.
use guhfrtui.Base.{
  ℕ, ◌+◌, ◌≡◌, refl, fun_ext, ap, ◌∙◌, Bool, false, not, ◌&&◌, ◌||◌, List, [], ◌∷◌, arith, length,
  if◌then◌else◌, ◌==◌, bytes_eq, bytes_beq_iff, Bytes,
}
use guhfrtui.Base.Sets.{
  has, insert, IsUnique, has-insert, has-delete, insert-IsUnique, delete-IsUnique, length-insert,
  length-delete,
}
use guhfrtui.Text.{is_empty}
use guhfrtui.Text.Sort.{IsSorted, sort_strings-IsSorted, has-sort_strings, length-sort_strings}
use guhfrtui.Cache.{
  Store, new, insert_all, replace, add_all, add, remove, cached, size, snapshot_sorted,
}

pub record IsValid (s : Store) : Type 0 where
  pub unique : IsUnique s.epcs
  pub no_empty : has [] s.epcs ≡ false

new-IsValid : IsValid new
unfolding new has
new-IsValid = record { unique = tt; no_empty = refl }

-- An EPC that `epcs` mentions and that is not the empty string.
abbrev pub mentions : List Bytes → Bytes → Bool
mentions epcs x = not (is_empty x) && has x epcs

-- What both loops do to the set.
abbrev Grows : List Bytes → List Bytes → List Bytes → Type 0
Grows epcs before after = (x : Bytes) → has x after ≡ (has x before || mentions epcs x)

has-insert_all : (es acc : List Bytes) → Grows es acc (insert_all es acc)
unfolding insert_all has
has-insert_all [] acc x = ground arith
has-insert_all ([] ∷ es) acc [] = has-insert_all es acc [] ∙ ground arith
has-insert_all ([] ∷ es) acc (c ∷ x) =
    has-insert_all es acc (c ∷ x) ∙ ground (arith, bytes_beq_iff [] (c ∷ x))
has-insert_all ((d ∷ e) ∷ es) acc [] =
    has-insert_all es (insert (d ∷ e) acc) []
    ∙ ground (arith, has-insert (d ∷ e) [] acc, bytes_beq_iff (d ∷ e) [])
has-insert_all ((d ∷ e) ∷ es) acc (c ∷ x) =
    has-insert_all es (insert (d ∷ e) acc) (c ∷ x) ∙ ground (arith, has-insert (d ∷ e) (c ∷ x) acc)

insert_all-IsUnique : (es acc : List Bytes) → IsUnique acc → IsUnique (insert_all es acc)
unfolding insert_all
insert_all-IsUnique [] acc u = u
insert_all-IsUnique ([] ∷ es) acc u = insert_all-IsUnique es acc u
insert_all-IsUnique ((c ∷ e) ∷ es) acc u =
    insert_all-IsUnique es (insert (c ∷ e) acc) (insert-IsUnique (c ∷ e) acc u)

-- `Add` inserts the same way, and counts the new ones.
add_all-insert_all : (es acc : List Bytes) (n : ℕ) → (add_all es acc n).0 ≡ insert_all es acc
unfolding add_all insert_all insert
add_all-insert_all [] acc n = refl
add_all-insert_all (e ∷ es) acc n =
    ground (arith, add_all-insert_all es acc n, add_all-insert_all es (e ∷ acc) (n + 1))

add_all_count :
    (es acc : List Bytes) (n : ℕ)
    → length (add_all es acc n).0 + n ≡ length acc + (add_all es acc n).1
unfolding add_all
add_all_count [] acc n = refl
add_all_count (e ∷ es) acc n =
    ground
      (arith, add_all_count es acc n, add_all_count es (insert e acc) (n + 1), length-insert e acc)

module _ (s : Store) (x : Bytes) where
  pub cached-replace : (es : List Bytes) → cached (replace s es) x ≡ mentions es x
  unfolding cached replace has
  cached-replace es = ground (arith, has-insert_all es [] x)

  pub cached-remove : (e : Bytes) → cached (remove s e) x ≡ (not (e == x) && cached s x)
  unfolding cached remove
  cached-remove e = ground (arith, has-delete e x s.epcs, bytes_beq_iff e x)

  pub cached-add : (es : List Bytes) → cached (add s es).0 x ≡ (cached s x || mentions es x)
  unfolding cached add
  cached-add es =
      ground (arith, ap (has x) (add_all-insert_all es s.epcs 0), has-insert_all es s.epcs x)

cached-new : (x : Bytes) → cached new x ≡ false
unfolding cached new has
cached-new x = ground arith

pub replace-IsValid : (s : Store) (es : List Bytes) → IsValid (replace s es)
unfolding replace has
replace-IsValid s es = record {
  unique = insert_all-IsUnique es [] tt;
  no_empty = ground (arith, has-insert_all es [] []);
}

pub add-IsValid : (s : Store) (es : List Bytes) → IsValid s → IsValid (add s es).0
unfolding add
add-IsValid s es v = record {
  unique = rw (add_all-insert_all es s.epcs 0) (insert_all-IsUnique es s.epcs v.unique);
  no_empty =
      rw (add_all-insert_all es s.epcs 0) (ground (arith, v.no_empty, has-insert_all es s.epcs []));
}

pub remove-IsValid : (s : Store) (e : Bytes) → IsValid s → IsValid (remove s e)
unfolding remove
remove-IsValid s e v =
    ground (arith, delete-IsUnique e s.epcs v.unique, has-delete e [] s.epcs, v.no_empty)

-- The operations that change the store.
pub data Op : Type 0 where
  replaces adds : List Bytes → Op
  removes : Bytes → Op

abbrev pub step : Store → Op → Store
step s (replaces es) = replace s es
step s (adds es) = (add s es).0
step s (removes e) = remove s e

abbrev pub run : Store → List Op → Store
run s [] = s
run s (o ∷ os) = run (step s o) os

-- A set of EPCs, and what each operation means for it.
abbrev pub EpcSet : Type 0
EpcSet = Bytes → Bool

abbrev pub meaning : EpcSet → Op → EpcSet
meaning m (replaces es) x = mentions es x
meaning m (adds es) x = m x || mentions es x
meaning m (removes e) x = not (e == x) && m x

abbrev pub meanings : EpcSet → List Op → EpcSet
meanings m [] = m
meanings m (o ∷ os) = meanings (meaning m o) os

cached-step : (s : Store) (o : Op) → cached (step s o) ≡ meaning (cached s) o
cached-step s (replaces es) = fun_ext (λ x. cached-replace s x es)
cached-step s (adds es) = fun_ext (λ x. cached-add s x es)
cached-step s (removes e) = fun_ext (λ x. cached-remove s x e)

step-IsValid : (s : Store) (o : Op) → IsValid s → IsValid (step s o)
step-IsValid s (replaces es) v = replace-IsValid s es
step-IsValid s (adds es) v = add-IsValid s es v
step-IsValid s (removes e) v = remove-IsValid s e v

run_from :
    (os : List Op) (s : Store)
    → IsValid s
    → IsValid (run s os) × (cached (run s os) ≡ meanings (cached s) os)
run_from [] s v = (v, refl)
run_from (o ∷ os) s v =
    let later = run_from os (step s o) (step-IsValid s o v) in
    (later.0, later.1 ∙ ap (λ (m : EpcSet). meanings m os) (cached-step s o))

-- The store refines a set: from a new store, any history of `Replace`, `Add` and `Remove` keeps
-- every key once and never the empty string, and `Has` answers as the set that those operations
-- mean does.
pub run_refines :
    (os : List Op) → IsValid (run new os) × (cached (run new os) ≡ meanings (λ x. false) os)
run_refines os =
    let h = run_from os new new-IsValid in
    (h.0, h.1 ∙ ap (λ (m : EpcSet). meanings m os) (fun_ext cached-new))

-- `Add` returns by how much it made the store grow, and `Remove` takes away one key if it was
-- cached, and none otherwise.
pub size_lem :
    (s : Store) (es : List Bytes) (e : Bytes)
    → IsValid s
    → (size (add s es).0 ≡ size s + (add s es).1)
      × (size (remove s e) + (if cached s e then 1 else 0) ≡ size s)
unfolding size add remove cached
size_lem s es e v =
    (omega (arith, add_all_count es s.epcs 0), ground (arith, length-delete e s.epcs v.unique))

-- The snapshot lists the cached EPCs in ascending order, each once.
pub snapshot_sorted_lem :
    (s : Store)
    → IsValid s
    → IsSorted (snapshot_sorted s)
      × (length (snapshot_sorted s) ≡ size s)
      × ((x : Bytes) → has x (snapshot_sorted s) ≡ cached s x)
unfolding snapshot_sorted size cached
snapshot_sorted_lem s v = (
  sort_strings-IsSorted s.epcs,
  length-sort_strings s.epcs,
  λ x. has-sort_strings x s.epcs ∙ no_empty_has x,
)
  where
    no_empty_has : (x : Bytes) → has x s.epcs ≡ (if is_empty x then false else has x s.epcs)
    no_empty_has [] = v.no_empty
    no_empty_has (c ∷ x) = refl
