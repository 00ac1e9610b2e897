-- ===== src/Sdk/Client/Turns.antt =====
-- The antennas that the inventory commands carry.
use guhfrtui.Base.{
  ℕ, zero, suc, ◌<◌, ◌≡◌, refl, sym, ap, subst, ◌∙◌, true, List, [], ◌∷◌, ◌++◌, Option, none, some,
  get_or, nat_eq, bit_or, arith,
}
use guhfrtui.Base.Sets.{has}
use guhfrtui.Base.Int.{pos}
use guhfrtui.Reader18.Packet.{build_command}
use guhfrtui.Reader18.Commands.{inventory_g2_command}
use guhfrtui.Sdk.Config.{InventoryConfig, normalize_config, normalize_config_lem}
use guhfrtui.Sdk.Antenna.{
  next_inventory_antenna, antennas, antennas-suc, is_enabled, effective, visited_in_turn,
}
use guhfrtui.Sdk.Client.{Client}
use guhfrtui.Sdk.Control.{NextCommand, next_inventory_command}
use guhfrtui.Sdk.Client.Commands.{next_of, polled_client, polled}

-- The seventh byte of an inventory command.
abbrev pub antenna_in : Option NextCommand → List ℕ
antenna_in none = []
antenna_in (some cmd) = get_or cmd.inventory 6 0 ∷ []

-- The antennas in the commands of `n` rounds.
unfoldable pub sent_antennas : ℕ → Client → List ℕ
unfolding next_inventory_command
sent_antennas zero c = []
sent_antennas (suc n) c =
    let (cmd, c') = next_inventory_command c in antenna_in cmd ++ sent_antennas n c'

abbrev sent_after : ℕ → Option NextCommand × Client → List ℕ
sent_after n r = antenna_in r.0 ++ sent_antennas n r.1

carried :
    (c : Client)
    → antenna_in (some (next_of c))
      ≡ (next_inventory_antenna (normalize_config c.cfg).antenna_mask (pos c.ant_idx)).0 ∷ []
unfolding inventory_g2_command build_command
carried c = refl

sent_antennas-suc :
    (n : ℕ) (c : Client)
    → c.inventory_on ≡ true
    → sent_antennas (suc n) c
      ≡ (next_inventory_antenna (normalize_config c.cfg).antenna_mask (pos c.ant_idx)).0
        ∷ sent_antennas n (polled_client c)
unfolding sent_antennas
sent_antennas-suc n c on =
    ap (sent_after n) (polled c on) ∙ ap (λ xs. xs ++ sent_antennas n (polled_client c)) (carried c)

sent_antennas-antennas :
    (n : ℕ) (c : Client)
    → c.inventory_on ≡ true
    → sent_antennas n c ≡ antennas n (normalize_config c.cfg).antenna_mask c.ant_idx
sent_antennas-antennas zero c on = unfold sent_antennas antennas in refl
sent_antennas-antennas (suc n) c on =
    let mask = (normalize_config c.cfg).antenna_mask in
    let (antenna, next) = next_inventory_antenna mask (pos c.ant_idx) in
    let later = sent_antennas-antennas n (polled_client c) on in
    let same =
      ap (λ (cfg : InventoryConfig). antennas n cfg.antenna_mask next)
        (normalize_config_lem c.cfg).1 in
    sent_antennas-suc n c on
    ∙ ap (λ xs. antenna ∷ xs) (later ∙ same)
    ∙ sym (antennas-suc n mask c.ant_idx antenna next refl)

-- Wherever the turn stands, the inventory commands of eight rounds in a row carry every antenna that the
-- configuration enables, antenna 1 where its mask is 0.
pub every_antenna_visited :
    (c : Client) (idx : ℕ)
    → c.inventory_on ≡ true
    → idx < 8
    → is_enabled (effective c.cfg.antenna_mask) idx ≡ true
    → has (bit_or 0x80 idx) (sent_antennas 8 c) ≡ true
unfolding normalize_config
every_antenna_visited c idx on h enabled =
    subst (λ xs. has (bit_or 0x80 idx) xs ≡ true) (sym (sent_antennas-antennas 8 c on))
      (visited_in_turn (effective c.cfg.antenna_mask) idx c.ant_idx h
        (ap (λ m. is_enabled m idx) (twice c.cfg.antenna_mask) ∙ enabled))
  where
    twice : (mask : ℕ) → effective (effective mask) ≡ effective mask
    twice mask = ground arith
