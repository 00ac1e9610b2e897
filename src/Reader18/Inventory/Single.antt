-- ===== src/Reader18/Inventory/Single.antt =====
-- `ParseSingleInventoryResult` against its documented layout, Ant(1) Count(1) EPCLen(1) EPC(n).
use guhfrtui.Base.{
  ℕ, ◌+◌, ◌≤◌, ◌≡◌, refl, sym, ap, ap₂, ◌∙◌, ◌↔◌, ◌⊎◌, [], ◌∷◌, ◌++◌, arith, length, take, drop,
  get_or, length-take, length-append, take-append-drop, take-append_length, Bytes,
}
use guhfrtui.Reader18.Packet.{Frame}
use guhfrtui.Reader18.Commands.{cmd_inventory_single, status_success, status_no_tag}
use guhfrtui.Reader18.Inventory.{ok, SingleInventoryResult, parse_single_inventory_result}

abbrev pub HasStatus : Frame → Type 0
HasStatus f = (f.status ≡ status_no_tag) ⊎ (f.status ≡ status_success)

-- A response of command 0x0F whose payload holds the result `r`, and then anything.
pub record SpellsSingle (f : Frame) (r : SingleInventoryResult) : Type 0 where
  pub is_single : f.command ≡ cmd_inventory_single
  pub has_status : HasStatus f
  pub last : Bytes
  pub spells : f.payload ≡ r.antenna ∷ r.tag_count ∷ length r.epc ∷ (r.epc ++ last)

abbrev read_single : Bytes → SingleInventoryResult
read_single payload = record {
  antenna = get_or payload 0 0;
  tag_count = get_or payload 1 0;
  epc = take (get_or payload 2 0) (drop 3 payload);
}

module _ (f : Frame) (r : SingleInventoryResult) where
  single_inv :
      parse_single_inventory_result f ≡ ok r
      → (f.command ≡ cmd_inventory_single)
        × HasStatus f
        × (3 + get_or f.payload 2 0 ≤ length f.payload)
        × (r ≡ read_single f.payload)
  unfolding parse_single_inventory_result
  single_inv h = ground arith

  single_ok :
      f.command ≡ cmd_inventory_single
      → HasStatus f
      → 3 + get_or f.payload 2 0 ≤ length f.payload
      → parse_single_inventory_result f ≡ ok (read_single f.payload)
  unfolding parse_single_inventory_result
  single_ok c s b = ground arith

-- Three header bytes, then as many as the third says.
split_single :
    (p : Bytes)
    → 3 + get_or p 2 0 ≤ length p
    → p
      ≡ get_or p 0 0
        ∷ get_or p 1 0
        ∷ length (take (get_or p 2 0) (drop 3 p))
        ∷ (take (get_or p 2 0) (drop 3 p) ++ drop (get_or p 2 0) (drop 3 p))
split_single [] h = absurd (omega arith)
split_single (a ∷ []) h = absurd (omega arith)
split_single (a ∷ b ∷ []) h = absurd (omega arith)
split_single (a ∷ b ∷ n ∷ p) h =
    ap₂ (λ (k : ℕ) (q : Bytes). a ∷ b ∷ k ∷ q) (omega (arith, length-take n p))
      (sym (take-append-drop n p))

module _ (f : Frame) (r : SingleInventoryResult) where
  single_to_spells : parse_single_inventory_result f ≡ ok r → SpellsSingle f r
  single_to_spells h =
      let (c, s, b, is) = single_inv f r h in
      rw is (record {
        is_single = c;
        has_status = s;
        last = drop (get_or f.payload 2 0) (drop 3 f.payload);
        spells = split_single f.payload b;
      })

  single_from_spells : SpellsSingle f r → parse_single_inventory_result f ≡ ok r
  single_from_spells s =
      single_ok f r s.is_single s.has_status
        (rw s.spells (omega (arith, length-append r.epc s.last)))
      ∙ ap (λ (p : Bytes). ok (read_single p)) s.spells
      ∙ ap (λ (e : Bytes). ok (record { antenna = r.antenna; tag_count = r.tag_count; epc = e }))
          (take-append_length (length r.epc) r.epc s.last refl)

  -- A single-inventory response is read as `r` exactly if its command is 0x0F, its status is
  -- success or no-tag, and its payload spells `r`: antenna, count, EPC length and the EPC.
  -- Bytes behind the EPC are ignored.
  pub parse_single_inventory_result_iff :
      (parse_single_inventory_result f ≡ ok r) ↔ SpellsSingle f r
  parse_single_inventory_result_iff = (single_to_spells, single_from_spells)
