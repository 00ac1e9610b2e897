-- ===== src/Tui/ConnectPlan/Order.antt =====
-- The orders of candidates and ports: which there are, and how often.
use guhfrtui.Base.{
  ℕ, zero, suc, ◌<◌, ◌≡◌, refl, ap, ◌∙◌, Bool, true, false, not, ◌&&◌, ◌||◌, List, [], ◌∷◌, ◌++◌,
  arith, ltb, if◌then◌else◌, nat_eq, ◌==◌, Comparable, if_intro,
}
use guhfrtui.Base.Int.{ℤ, pos, int_eq}
use guhfrtui.Base.Sets.{has, has-append, IsUnique}
use guhfrtui.Tui.ConnectPlan.{
  append_new, append_each, indices, index_list, candidate_connect_order, is_port, merge_port_order,
}

module _ {ℓ} {A : Type ℓ} ⦃c : Comparable A⦄ (valid : A → Bool) where
  pub append-IsUnique :
      (x : A) (out : List A) → has x out ≡ false → IsUnique out → IsUnique (out ++ (x ∷ []))
  unfolding has
  append-IsUnique x [] new u = (refl, tt)
  append-IsUnique x (y ∷ ys) new u = (
    has-append y ys (x ∷ [])
        ∙ unfold has in ground (arith, u.0, new, c.equal_iff x y, c.equal_iff y x),
    append-IsUnique x ys (ground (arith, new)) u.1,
  )

  append_new-IsUnique : (x : A) (out : List A) → IsUnique out → IsUnique (append_new valid x out)
  unfolding append_new
  append_new-IsUnique x out u =
      if_intro IsUnique (not (valid x)) (λ bad. u)
        (λ good. if_intro IsUnique (has x out) (λ old. u) (λ new. append-IsUnique x out new u))

  append_each-IsUnique : (xs out : List A) → IsUnique out → IsUnique (append_each valid xs out)
  unfolding append_each
  append_each-IsUnique [] out u = u
  append_each-IsUnique (x ∷ xs) out u =
      append_each-IsUnique xs (append_new valid x out) (append_new-IsUnique x out u)

  has-append_new :
      (x y : A) (out : List A) → has y (append_new valid x out) ≡ (has y out || valid y && x == y)
  unfolding append_new has
  has-append_new x y out = ground (
    arith,
    has-append y out (x ∷ []),
    c.equal_iff x y,
    ap valid {x = x} {y = y},
    ap (λ z. has z out) {x = x} {y = y},
  )

  has-append_each :
      (xs out : List A) (y : A)
      → has y (append_each valid xs out) ≡ (has y out || valid y && has y xs)
  unfolding append_each has
  has-append_each [] out y = ground arith
  has-append_each (x ∷ xs) out y =
      ground (arith, has-append_each xs (append_new valid x out) y, has-append_new x y out)

has-indices : (n i : ℕ) → has i (indices n) ≡ ltb i n
unfolding indices has
has-indices zero i = ground arith
has-indices (suc n) i =
    has-append i (indices n) (n ∷ []) ∙ (unfold has in ground (arith, has-indices n i))

-- Every index of a candidate is tried, each once, whichever is preferred, and no other one.
pub candidate_connect_order_lem :
    (total : ℕ) (preferred : ℤ)
    → IsUnique (candidate_connect_order total preferred)
      × ((i : ℕ) → has i (candidate_connect_order total preferred) ≡ ltb i total)
unfolding candidate_connect_order
candidate_connect_order_lem total preferred =
    let valid : ℕ → Bool = λ i. ltb i total in
    let all = index_list preferred ++ indices total in
    (
      append_each-IsUnique valid all [] tt,
      λ i.
          has-append_each valid all [] i
          ∙ (unfold has in
              ground
                (arith, has-append i (index_list preferred) (indices total), has-indices total i)),
    )

append_new-head :
    (valid : ℕ → Bool) (y x : ℕ) (out : List ℕ)
    → (rest : List ℕ) × (append_new valid y (x ∷ out) ≡ x ∷ rest)
unfolding append_new
append_new-head valid y x out = (
  (if not (valid y) then out else if has y (x ∷ out) then out else out ++ (y ∷ [])),
  ground arith,
)

append_each-head :
    (valid : ℕ → Bool) (xs : List ℕ) (x : ℕ) (out : List ℕ)
    → (rest : List ℕ) × (append_each valid xs (x ∷ out) ≡ x ∷ rest)
unfolding append_each
append_each-head valid [] x out = (out, refl)
append_each-head valid (y ∷ ys) x out =
    let (out', is) = append_new-head valid y x out in
    let (rest, later) = append_each-head valid ys x out' in
    (rest, ap (append_each valid ys) is ∙ later)

append_new-first : (valid : ℕ → Bool) (x : ℕ) → valid x ≡ true → append_new valid x [] ≡ x ∷ []
unfolding append_new has
append_new-first valid x h = ground (arith, h)

-- A preferred candidate is tried first.
pub candidate_connect_order_first :
    (total preferred : ℕ)
    → preferred < total
    → (rest : List ℕ) × (candidate_connect_order total (pos preferred) ≡ preferred ∷ rest)
unfolding candidate_connect_order append_each
candidate_connect_order_first total preferred h =
    let valid : ℕ → Bool = λ i. ltb i total in
    let (rest, is) = append_each-head valid (indices total) preferred [] in
    (
      rest,
      ap (append_each valid (indices total)) (append_new-first valid preferred (ground (arith, h)))
          ∙ is,
    )

-- The ports of both lists are tried, each once, the first list first, without those that are not
-- positive.
pub merge_port_order_lem :
    (primary fallback : List ℤ)
    → IsUnique (merge_port_order primary fallback)
      × ((p : ℤ)
          → has p (merge_port_order primary fallback)
            ≡ (is_port p && (has p primary || has p fallback)))
unfolding merge_port_order
merge_port_order_lem primary fallback = (
  append_each-IsUnique is_port (primary ++ fallback) [] tt,
  λ p.
      has-append_each is_port (primary ++ fallback) [] p
      ∙ (unfold has in ground (arith, has-append p primary fallback)),
)
