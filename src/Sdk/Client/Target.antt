-- ===== src/Sdk/Client/Target.antt =====
-- `observeNoTag`: the switch of the target between A and B.
use guhfrtui.Base.{
  ℕ, zero, suc, ◌+◌, ◌*◌, ◌≤◌, ◌<◌, ◌≡◌, refl, sym, ap, subst, true, List, [], ◌∷◌, All, arith,
  length, nat_beq, if◌then◌else◌, bit_xor, Bool-cases, inl, inr,
}
use guhfrtui.Base.Int.{pos, int_lt}
use guhfrtui.Sdk.Config.{InventoryConfig}
use guhfrtui.Sdk.Client.{Client, emit_status, is_no_tag_status, observe_no_tag}

unfoldable pub observe_all : List ℕ → Client → Client
observe_all [] c = c
observe_all (status ∷ rest) c = observe_all rest (observe_no_tag status c)

-- The target after `n` switches.
unfoldable pub flips : ℕ → ℕ → ℕ
flips zero target = target
flips (suc n) target = bit_xor (flips n target) 1

-- The switch is on: the session has two targets, and every `w` responses without a tag switch.
abbrev pub IsSwitching : InventoryConfig → ℕ → Type 0
IsSwitching cfg w = (1 < cfg.session) × (cfg.no_tag_ab_switch ≡ pos w) × (1 ≤ w)

module _ (w : ℕ) (status : ℕ) (c : Client) where
  observe-cfg : (observe_no_tag status c).cfg ≡ c.cfg
  unfolding observe_no_tag emit_status
  observe-cfg = ground arith

  observe_step :
      IsSwitching c.cfg w
      → is_no_tag_status status ≡ true
      → c.no_tag_hit < w
      → let due = nat_beq (c.no_tag_hit + 1) w in
        ((observe_no_tag status c).no_tag_hit ≡ (if due then 0 else c.no_tag_hit + 1))
        × ((observe_no_tag status c).target_value
            ≡ (if due then bit_xor c.target_value 1 else c.target_value))
  unfolding observe_no_tag emit_status
  observe_step on known below =
      ground (
        arith,
        on,
        known,
        below,
        ap (int_lt (pos 0)) on.1,
        ap (int_lt (pos (c.no_tag_hit + 1))) on.1,
      )

-- Where the count stands after `n` responses: `q` switches so far.
abbrev pub Switched : ℕ → ℕ → ℕ → Client → Type 0
Switched w target n c =
    (q : ℕ) × (q * w + c.no_tag_hit ≡ n) × (c.no_tag_hit < w) × (c.target_value ≡ flips q target)

suc_times : (q w : ℕ) → suc q * w ≡ q * w + w
suc_times q w = omega arith

step-Switched :
    (w target n status : ℕ) (c : Client)
    → IsSwitching c.cfg w
    → is_no_tag_status status ≡ true
    → Switched w target n c
    → Switched w target (n + 1) (observe_no_tag status c)
unfolding flips
step-Switched w target n status c on known (q, sum, below, is) =
    let (hits, turn) = observe_step w status c on known below in
    elim (Bool-cases (nat_beq (c.no_tag_hit + 1) w)) [
      | inl due ↦ (
        suc q,
        ground (arith, hits, due, sum, suc_times q w),
        ground (arith, hits, due, on.2),
        ground (arith, turn, due, is),
      )
      | inr early ↦ (
        q,
        ground (arith, hits, early, sum),
        ground (arith, hits, early, below),
        ground (arith, turn, early, is),
      )
    ]

after_statuses :
    (w target n : ℕ) (statuses : List ℕ) (c : Client)
    → IsSwitching c.cfg w
    → All (λ s. is_no_tag_status s ≡ true) statuses
    → Switched w target n c
    → Switched w target (n + length statuses) (observe_all statuses c)
unfolding observe_all
after_statuses w target n [] c on known h = subst (λ k. Switched w target k c) (omega arith) h
after_statuses w target n (s ∷ rest) c on known h =
    subst (λ k. Switched w target k (observe_all rest (observe_no_tag s c))) (omega arith)
      (after_statuses w target (n + 1) rest (observe_no_tag s c)
        (subst (λ cfg. IsSwitching cfg w) (sym (observe-cfg w s c)) on) known.1
        (step-Switched w target n s c on known.0 h))

-- Where the session has two targets and the switch is on, `n` responses without a tag in a row,
-- from a count of 0, flip the target between A and B once in every `NoTagABSwitch`: `q` times with
-- `n = q * NoTagABSwitch + r`, and the count stands at the remainder `r`.
pub observe_no_tag_lem :
    (w : ℕ) (statuses : List ℕ) (c : Client)
    → IsSwitching c.cfg w
    → All (λ s. is_no_tag_status s ≡ true) statuses
    → c.no_tag_hit ≡ 0
    → Switched w c.target_value (length statuses) (observe_all statuses c)
observe_no_tag_lem w statuses c on known zeroed =
    subst (λ k. Switched w c.target_value k (observe_all statuses c)) (omega arith)
      (after_statuses w c.target_value 0 statuses c on known
        (0, omega (arith, zeroed), omega (arith, zeroed, on.2), unfold flips in refl))
