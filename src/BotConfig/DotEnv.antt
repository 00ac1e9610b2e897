-- ===== src/BotConfig/DotEnv.antt =====
-- internal/gobot/config/dotenv.go: `LoadDotEnv` over the content of the file.
use guhfrtui.Base.{
  ◌-◌, ◌≡◌, refl, Bool, not, ◌&&◌, ◌||◌, List, [], ◌∷◌, Option, none, some, length, take, drop, leb,
  nat_eq, if◌then◌else◌, bytes_eq, ◌==◌, Bytes, arith, bytes_beq_iff, ap, Bool-cases, inl, inr,
}
use guhfrtui.Base.Sets.{has}
use guhfrtui.Base.Maps.{put, lookup-put}
use guhfrtui.Text.{is_empty, has_prefix, trim_space, scan_lines, scan_fails}
use guhfrtui.Text.Parts.{codes, cut, has_suffix}
use guhfrtui.BotConfig.{Env, getenv}

-- What os.Open finds at the path.
pub data File : Type 0 where
  missing unreadable : File
  opened : Bytes → File

pub data Error : Type 0 where
  open_failed scan_failed : Error

unfoldable pub trim_env_quotes : Bytes → Bytes
unfolding has_prefix has_suffix
trim_env_quotes v =
    if leb 2 (length v)
      && (has_prefix v (codes "\"") && has_suffix v (codes "\"")
          || has_prefix v (codes "'") && has_suffix v (codes "'"))
    then take (length v - 2) (drop 1 v)
    else v

-- os.Setenv, whose error is ignored: the name is empty, or it or the value has a byte that the
-- environment cannot hold.
unfoldable pub setenv : Bytes → Bytes → Env → Env
setenv key val env =
    if is_empty key || has b'=' key || has 0 key || has 0 val then env else put key val env

-- What the body of the loop makes of a line: a name and a value, or none.
abbrev pub trimmed_pair : Option (Bytes × Bytes) → Option (Bytes × Bytes)
trimmed_pair none = none
trimmed_pair (some (key, val)) =
    if is_empty (trim_space key)
    then none
    else some (trim_space key, trim_env_quotes (trim_space val))

unfoldable pub assignment : Bytes → Option (Bytes × Bytes)
unfolding trim_space has_prefix cut trim_env_quotes
assignment line =
    let raw = trim_space line in
    if is_empty raw || has_prefix raw (codes "#") then none else trimmed_pair (cut b'=' raw)

abbrev pub assign : Option (Bytes × Bytes) → Env → Env
assign none env = env
assign (some (key, val)) env = if is_empty (getenv key env) then setenv key val env else env

unfoldable pub load_lines : List Bytes → Env → Env
unfolding assignment getenv setenv
load_lines [] env = env
load_lines (line ∷ lines) env = load_lines lines (assign (assignment line) env)

-- The error, or none, and the environment.
unfoldable pub load_dot_env : Bytes → File → Env → Option Error × Env
unfolding load_lines scan_lines scan_fails trim_space
load_dot_env path file env = if is_empty (trim_space path) then (none, env) else elim file [
  | missing ↦ (none, env)
  | unreadable ↦ (some open_failed, env)
  | opened content ↦
      (if scan_fails 0 content then some scan_failed else none, load_lines (scan_lines content) env)
]

abbrev pub is_settable : Bytes → Bytes → Bool
is_settable key val = not (is_empty key || has b'=' key || has 0 key || has 0 val)

-- The value that a line has for the variable, or the empty text.
abbrev pub value_of : Bytes → Option (Bytes × Bytes) → Bytes
value_of key none = []
value_of key (some (k, v)) = if k == key && is_settable k v then v else []

-- The first value, not empty, that one of the lines has for the variable.
unfoldable pub first_value : Bytes → List Bytes → Bytes
first_value key [] = []
first_value key (line ∷ lines) =
    let value = value_of key (assignment line) in
    if is_empty value then first_value key lines else value

or_same : (s : Bytes) → s ≡ (if is_empty s then [] else s)
or_same [] = refl
or_same (x ∷ s) = refl

pub getenv-setenv :
    (key k v : Bytes) (env : Env)
    → getenv key (setenv k v env) ≡ (if k == key && is_settable k v then v else getenv key env)
unfolding getenv setenv
getenv-setenv key k v env = ground (arith, lookup-put k key v env)

getenv-assign :
    (key : Bytes) (a : Option (Bytes × Bytes)) (env : Env)
    → getenv key (assign a env)
      ≡ (if is_empty (getenv key env) then value_of key a else getenv key env)
getenv-assign key none env = or_same (getenv key env)
getenv-assign key (some (k, v)) env = ground (
  arith,
  getenv-setenv key k v env,
  bytes_beq_iff k key,
  ap (λ x. getenv x env) {x = k} {y = key},
  or_same (getenv key env),
)

getenv-load_lines :
    (key : Bytes) (lines : List Bytes) (env : Env)
    → getenv key (load_lines lines env)
      ≡ (if is_empty (getenv key env) then first_value key lines else getenv key env)
unfolding load_lines first_value
getenv-load_lines key [] env = or_same (getenv key env)
getenv-load_lines key (line ∷ lines) env = ground (
  arith,
  getenv-load_lines key lines (assign (assignment line) env),
  getenv-assign key (assignment line) env,
)

-- The lines that are delivered of the file.
abbrev pub lines_of : Bytes → File → List Bytes
lines_of path file =
    if is_empty (trim_space path)
    then []
    else elim file [ missing ↦ [] | unreadable ↦ [] | opened content ↦ scan_lines content ]

-- Whatever the file and however the call ends, a variable that had a value keeps it, and one that was
-- unset or empty has the first value, not empty, that a line of the file has for it, if there is one;
-- of a file with a line of 64 KiB these are the lines before that one.
pub load_dot_env_lem :
    (path : Bytes) (file : File) (env : Env) (key : Bytes)
    → getenv key (load_dot_env path file env).1
      ≡ (if is_empty (getenv key env) then first_value key (lines_of path file) else getenv key env)
unfolding load_dot_env
load_dot_env_lem path file env key = elim (Bool-cases (is_empty (trim_space path))) [
  | inl blank ↦ rw blank (unfold load_lines in getenv-load_lines key [] env)
  | inr e ↦ rw e (read_file file)
]
  where
    read_file :
        (f : File)
        → getenv key
            (elim f as (λ x. Option Error × Env) [
              | missing ↦ (none, env)
              | unreadable ↦ (some open_failed, env)
              | opened content ↦ (
                if scan_fails 0 content then some scan_failed else none,
                load_lines (scan_lines content) env,
              )
            ]).1
          ≡ (if is_empty (getenv key env)
              then first_value key
                  (elim f [ missing ↦ [] | unreadable ↦ [] | opened content ↦ scan_lines content ])
              else getenv key env)
    read_file missing = unfold load_lines in getenv-load_lines key [] env
    read_file unreadable = unfold load_lines in getenv-load_lines key [] env
    read_file (opened content) = getenv-load_lines key (scan_lines content) env
