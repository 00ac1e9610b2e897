-- ===== src/Tui/ConnectPlan.antt =====
-- internal/tui/update/helpers.go: in which order the endpoints of the candidates are tried.
pub mod Order
pub mod Plan
use guhfrtui.Base.{
  ℕ, zero, suc, ◌+◌, ◌/◌, ◌%◌, Bool, true, false, not, ◌||◌, List, [], ◌∷◌, ◌++◌, length, ltb, leb,
  if◌then◌else◌, nat_beq, nat_eq, bytes_eq, Bytes, ◌==◌, Comparable, Option, none, some,
}
use guhfrtui.Base.Int.{ℤ, pos, negsuc, int_lt, int_eq}
use guhfrtui.Base.Sets.{has}
use guhfrtui.Text.{is_empty, trim_space}
use guhfrtui.Transport.{Endpoint, address}
use guhfrtui.Discovery.{Candidate}

unfoldable pub clamp_int : ℤ → ℤ → ℤ → ℤ
clamp_int value min_value max_value =
    if int_lt value min_value
    then min_value
    else if int_lt max_value value
    then max_value
    else value

-- `appendIndex` and `appendPort`: an element behind those before it, unless it is there. Go keeps
-- a map of the elements of the list.
unfoldable pub append_new {ℓ} : {A : Type ℓ} ⦃c : Comparable A⦄ → (A → Bool) → A → List A → List A
append_new valid x out = if not (valid x) then out else if has x out then out else out ++ (x ∷ [])

-- The loop.
unfoldable pub append_each {ℓ} :
    {A : Type ℓ} ⦃c : Comparable A⦄ → (A → Bool) → List A → List A → List A
unfolding append_new
append_each valid [] out = out
append_each valid (x ∷ xs) out = append_each valid xs (append_new valid x out)

-- 0 to `n` - 1.
unfoldable pub indices : ℕ → List ℕ
indices zero = []
indices (suc n) = indices n ++ (n ∷ [])

-- An index that is negative is out of range.
abbrev pub index_list : ℤ → List ℕ
index_list (pos i) = i ∷ []
index_list (negsuc i) = []

unfoldable pub candidate_connect_order : ℕ → ℤ → List ℕ
unfolding append_each indices
candidate_connect_order total preferred =
    append_each (λ i. ltb i total) (index_list preferred ++ indices total) []

abbrev pub is_port : ℤ → Bool
is_port port = int_lt (pos 0) port

unfoldable pub merge_port_order : List ℤ → List ℤ → List ℤ
unfolding append_each
merge_port_order primary fallback = append_each is_port (primary ++ fallback) []

unfoldable pub addresses : List Endpoint → List Bytes
unfolding address
addresses [] = []
addresses (e ∷ es) = address e ∷ addresses es

-- `addEndpoint`; `seen` has the addresses of the plan.
unfoldable pub add_endpoint : Bytes → ℤ → List Endpoint → List Endpoint
unfolding addresses address
add_endpoint host port plan =
    let e : Endpoint = record { host = host; port = port } in
    if is_empty (trim_space host) || not (is_port port)
    then plan
    else if has (address e) (addresses plan)
    then plan
    else plan ++ (e ∷ [])

unfoldable pub add_ports : Bytes → List ℤ → List Endpoint → List Endpoint
unfolding add_endpoint
add_ports host [] plan = plan
add_ports host (port ∷ ports) plan = add_ports host ports (add_endpoint host port plan)

abbrev pub port_fallback : List ℤ
port_fallback = pos 2022 ∷ pos 5000 ∷ pos 27011 ∷ pos 6000 ∷ pos 4001 ∷ pos 10001 ∷ []

-- `candidates[idx]`; the order has no index out of range.
unfoldable pub candidate_at : ℕ → List Candidate → Option Candidate
candidate_at i [] = none
candidate_at zero (c ∷ cs) = some c
candidate_at (suc i) (c ∷ cs) = candidate_at i cs

unfoldable pub add_candidate : List ℤ → Option Candidate → List Endpoint → List Endpoint
unfolding add_ports merge_port_order
add_candidate scan_ports none plan = plan
add_candidate scan_ports (some c) plan =
    add_ports c.host (merge_port_order (c.port ∷ scan_ports) port_fallback) plan

unfoldable pub add_candidates : List Candidate → List ℤ → List ℕ → List Endpoint → List Endpoint
unfolding add_candidate candidate_at
add_candidates candidates scan_ports [] plan = plan
add_candidates candidates scan_ports (i ∷ order) plan =
    add_candidates candidates scan_ports order
      (add_candidate scan_ports (candidate_at i candidates) plan)

unfoldable pub build_connect_plan : List Candidate → ℤ → List ℤ → List Endpoint
unfolding add_candidates candidate_connect_order
build_connect_plan candidates preferred_index scan_ports =
    add_candidates candidates scan_ports
      (candidate_connect_order (length candidates) preferred_index) []

-- The loop, from index `i` on; -1 where Go returns it.
unfoldable pub first_verified : ℕ → List Candidate → ℤ
first_verified i [] = negsuc 0
first_verified i (c ∷ cs) =
    let later = first_verified (i + 1) cs in if c.verified then pos i else later

unfoldable pub preferred_candidate_index : List Candidate → ℤ
unfolding first_verified
preferred_candidate_index [] = negsuc 0
preferred_candidate_index (c ∷ cs) =
    let idx = first_verified 0 (c ∷ cs) in if int_lt idx (pos 0) then pos 0 else idx

unfoldable pub count_verified_candidates : List Candidate → ℕ
count_verified_candidates [] = 0
count_verified_candidates (c ∷ cs) =
    let rest = count_verified_candidates cs in if c.verified then rest + 1 else rest
