-- ===== src/Tui/ConnectPlan/Plan.antt =====
-- `BuildConnectPlan`: which addresses the plan has, and how often.
use guhfrtui.Base.{
  ℕ, zero, suc, ◌<◌, ◌≡◌, refl, sym, ap, subst, ◌∙◌, Bool, true, not, ◌&&◌, ◌||◌, inl, inr, List,
  [], ◌∷◌, ◌++◌, All, All-append, arith, length, bytes_eq, bytes_beq_iff, Bytes, ◌==◌, Option, none,
  some, if_intro, Bool-cases, nat_eq, nat_beq_iff,
}
use guhfrtui.Base.Int.{ℤ, int_eq, int_beq_iff}
use guhfrtui.Base.Sets.{has, has-append, IsUnique}
use guhfrtui.Text.{is_empty, trim_space}
use guhfrtui.Transport.{Endpoint, address}
use guhfrtui.Discovery.{Candidate}
use guhfrtui.Tui.ConnectPlan.{
  addresses, is_port, add_endpoint, add_ports, port_fallback, candidate_at, merge_port_order,
  candidate_connect_order, add_candidate, add_candidates, build_connect_plan,
}
use guhfrtui.Tui.ConnectPlan.Order.{
  candidate_connect_order_lem, merge_port_order_lem, append-IsUnique,
}

-- An endpoint that can be dialled.
abbrev pub is_usable : Bytes → ℤ → Bool
is_usable host port = not (is_empty (trim_space host)) && is_port port

pub record IsPlan (plan : List Endpoint) : Type 0 where
  pub once : IsUnique (addresses plan)
  pub usable : All (λ (e : Endpoint). is_usable e.host e.port ≡ true) plan

addresses-append :
    (es : List Endpoint) (e : Endpoint)
    → addresses (es ++ (e ∷ [])) ≡ addresses es ++ (address e ∷ [])
unfolding addresses
addresses-append [] e = refl
addresses-append (d ∷ es) e = ap (◌∷◌ (address d)) (addresses-append es e)

add_endpoint-IsPlan :
    (host : Bytes) (port : ℤ) (plan : List Endpoint)
    → IsPlan plan
    → IsPlan (add_endpoint host port plan)
unfolding add_endpoint
add_endpoint-IsPlan host port plan v =
    let e : Endpoint = record { host = host; port = port } in
    if_intro IsPlan (is_empty (trim_space host) || not (is_port port)) (λ bad. v)
      (λ good.
        if_intro IsPlan (has (address e) (addresses plan)) (λ old. v)
          (λ new. record {
            once =
                subst IsUnique (sym (addresses-append plan e))
                  (append-IsUnique (λ a. true) (address e) (addresses plan) new v.once);
            usable = All-append _ plan (e ∷ []) v.usable (ground (arith, good), tt);
          }))

add_ports-IsPlan :
    (host : Bytes) (ports : List ℤ) (plan : List Endpoint)
    → IsPlan plan
    → IsPlan (add_ports host ports plan)
unfolding add_ports
add_ports-IsPlan host [] plan v = v
add_ports-IsPlan host (p ∷ ps) plan v =
    add_ports-IsPlan host ps (add_endpoint host p plan) (add_endpoint-IsPlan host p plan v)

add_candidate-IsPlan :
    (ports : List ℤ) (c : Option Candidate) (plan : List Endpoint)
    → IsPlan plan
    → IsPlan (add_candidate ports c plan)
unfolding add_candidate
add_candidate-IsPlan ports none plan v = v
add_candidate-IsPlan ports (some c) plan v =
    add_ports-IsPlan c.host (merge_port_order (c.port ∷ ports) port_fallback) plan v

add_candidates-IsPlan :
    (cs : List Candidate) (ports : List ℤ) (order : List ℕ) (plan : List Endpoint)
    → IsPlan plan
    → IsPlan (add_candidates cs ports order plan)
unfolding add_candidates
add_candidates-IsPlan cs ports [] plan v = v
add_candidates-IsPlan cs ports (i ∷ order) plan v =
    add_candidates-IsPlan cs ports order (add_candidate ports (candidate_at i cs) plan)
      (add_candidate-IsPlan ports (candidate_at i cs) plan v)

-- What the plan holds stays.
abbrev pub Covers : Bytes → List Endpoint → Type 0
Covers a plan = has a (addresses plan) ≡ true

module _ (a : Bytes) where
  add_endpoint-Covers_kept :
      (host : Bytes) (port : ℤ) (plan : List Endpoint)
      → Covers a plan
      → Covers a (add_endpoint host port plan)
  unfolding add_endpoint
  add_endpoint-Covers_kept host port plan h =
      let e : Endpoint = record { host = host; port = port } in
      ground (arith, h, addresses-append plan e, has-append a (addresses plan) (address e ∷ []))

  add_ports-Covers_kept :
      (host : Bytes) (ports : List ℤ) (plan : List Endpoint)
      → Covers a plan
      → Covers a (add_ports host ports plan)
  unfolding add_ports
  add_ports-Covers_kept host [] plan h = h
  add_ports-Covers_kept host (p ∷ ps) plan h =
      add_ports-Covers_kept host ps (add_endpoint host p plan)
        (add_endpoint-Covers_kept host p plan h)

  add_candidate-Covers_kept :
      (ports : List ℤ) (c : Option Candidate) (plan : List Endpoint)
      → Covers a plan
      → Covers a (add_candidate ports c plan)
  unfolding add_candidate
  add_candidate-Covers_kept ports none plan h = h
  add_candidate-Covers_kept ports (some c) plan h =
      add_ports-Covers_kept c.host (merge_port_order (c.port ∷ ports) port_fallback) plan h

  add_candidates-Covers_kept :
      (cs : List Candidate) (ports : List ℤ) (order : List ℕ) (plan : List Endpoint)
      → Covers a plan
      → Covers a (add_candidates cs ports order plan)
  unfolding add_candidates
  add_candidates-Covers_kept cs ports [] plan h = h
  add_candidates-Covers_kept cs ports (i ∷ order) plan h =
      add_candidates-Covers_kept cs ports order (add_candidate ports (candidate_at i cs) plan)
        (add_candidate-Covers_kept ports (candidate_at i cs) plan h)

-- What is asked for is there.
add_endpoint-Covers :
    (host : Bytes) (port : ℤ) (plan : List Endpoint)
    → is_usable host port ≡ true
    → Covers (address (record { host = host; port = port })) (add_endpoint host port plan)
unfolding add_endpoint has
add_endpoint-Covers host port plan h =
    let e : Endpoint = record { host = host; port = port } in
    ground (
      arith,
      h,
      addresses-append plan e,
      has-append (address e) (addresses plan) (address e ∷ []),
      bytes_beq_iff (address e) (address e),
    )

add_ports-Covers :
    (host : Bytes) (port : ℤ) (ports : List ℤ) (plan : List Endpoint)
    → is_usable host port ≡ true
    → has port ports ≡ true
    → Covers (address (record { host = host; port = port })) (add_ports host ports plan)
unfolding add_ports has
add_ports-Covers host port [] plan h there = ground (arith, there)
add_ports-Covers host port (p ∷ ps) plan h there = elim (Bool-cases (p == port)) [
  | inl same ↦
      let is = (int_beq_iff p port).0 same in
      subst
        (λ q.
          Covers (address (record { host = host; port = port }))
            (add_ports host ps (add_endpoint host q plan)))
        (sym is)
        (add_ports-Covers_kept _ host ps (add_endpoint host port plan)
          (add_endpoint-Covers host port plan h))
  | inr later ↦
      add_ports-Covers host port ps (add_endpoint host p plan) h (ground (arith, there, later))
]

add_candidates-Covers :
    (cs : List Candidate) (ports : List ℤ) (order : List ℕ) (plan : List Endpoint) (i : ℕ)
    (c : Candidate) (port : ℤ)
    → has i order ≡ true
    → candidate_at i cs ≡ some c
    → is_usable c.host port ≡ true
    → has port (merge_port_order (c.port ∷ ports) port_fallback) ≡ true
    → Covers (address (record { host = c.host; port = port })) (add_candidates cs ports order plan)
unfolding add_candidates has
add_candidates-Covers cs ports [] plan i c port listed at usable there = ground (arith, listed)
add_candidates-Covers cs ports (j ∷ order) plan i c port listed at usable there =
    elim (Bool-cases (j == i)) [
      | inl same ↦
          let is = ap (λ k. candidate_at k cs) ((nat_beq_iff j i).0 same) ∙ at in
          add_candidates-Covers_kept _ cs ports order (add_candidate ports (candidate_at j cs) plan)
            (subst
              (λ o.
                Covers (address (record { host = c.host; port = port }))
                  (add_candidate ports o plan))
              (sym is) (unfold add_candidate in add_ports-Covers c.host port _ plan usable there))
      | inr later ↦
          add_candidates-Covers cs ports order (add_candidate ports (candidate_at j cs) plan) i c
            port (ground (arith, listed, later)) at usable there
    ]

candidate_at-length :
    (i : ℕ) (cs : List Candidate) (c : Candidate) → candidate_at i cs ≡ some c → i < length cs
unfolding candidate_at
candidate_at-length i [] c h = ground (arith, h)
candidate_at-length zero (d ∷ cs) c h = omega arith
candidate_at-length (suc i) (d ∷ cs) c h = omega (arith, candidate_at-length i cs c h)

-- The plan dials no address twice, and only addresses with a host that is not blank and a
-- positive port.
pub build_connect_plan-IsPlan :
    (cs : List Candidate) (preferred : ℤ) (scan_ports : List ℤ)
    → IsPlan (build_connect_plan cs preferred scan_ports)
unfolding build_connect_plan
build_connect_plan-IsPlan cs preferred scan_ports =
    add_candidates-IsPlan cs scan_ports (candidate_connect_order (length cs) preferred) []
      (unfold addresses in record { once = tt; usable = tt })

-- For every candidate with a host that is not blank, the plan has the address at its own port, at
-- each of the scanned ports and at each of the fallback ports, where the port is positive.
pub build_connect_plan-Covers :
    (cs : List Candidate) (preferred : ℤ) (scan_ports : List ℤ) (i : ℕ) (c : Candidate) (port : ℤ)
    → candidate_at i cs ≡ some c
    → is_usable c.host port ≡ true
    → (has port (c.port ∷ scan_ports) || has port port_fallback) ≡ true
    → Covers
        (address (record { host = c.host; port = port }))
        (build_connect_plan cs preferred scan_ports)
unfolding build_connect_plan
build_connect_plan-Covers cs preferred scan_ports i c port at usable wanted =
    add_candidates-Covers cs scan_ports (candidate_connect_order (length cs) preferred) [] i c port
      ((candidate_connect_order_lem (length cs) preferred).1 i
        ∙ ground (arith, candidate_at-length i cs c at))
      at usable
      ((merge_port_order_lem (c.port ∷ scan_ports) port_fallback).1 port
        ∙ ground (arith, wanted, usable))
