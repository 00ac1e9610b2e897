-- ===== src/Sdk/Client/Commands.antt =====
-- `nextInventoryCommand` and the start of a run.
use guhfrtui.Base.{
  ℕ, ◌+◌, ◌*◌, ◌%◌, ◌≤◌, ◌≡◌, refl, ◌∙◌, true, ◌&&◌, [], ◌∷◌, Option, none, some, All, All-append,
  if_intro, arith, length, ltb, nat_beq, take, if◌then◌else◌, Bytes,
}
use guhfrtui.Base.Int.{ℤ, pos, negsuc, int_lt}
use guhfrtui.Reader18.Packet.{build_command, verify_packet}
use guhfrtui.Reader18.Packet.Verify.{verify-build_command}
use guhfrtui.Reader18.Commands.{
  inventory_g2_command, inventory_single_tag_command, set_work_mode_command,
  set_frequency_range_command, set_scan_time_command, set_antenna_mux_command,
  set_output_power_by_ant_command, set_output_power_command,
}
use guhfrtui.Sdk.Config.{
  InventoryConfig, normalize_config, IsNormal, not_negative, normalize_config_lem, millisecond,
  effective_interval, effective_interval_lem,
}
use guhfrtui.Sdk.Antenna.{next_inventory_antenna}
use guhfrtui.Sdk.Client.{Client}
use guhfrtui.Sdk.Control.{
  NextCommand, wants_single, next_inventory_command, region_commands, power_commands,
  apply_commands,
}

abbrev pub IsAccepted : Bytes → Type 0
IsAccepted p = verify_packet p ≡ true

IsAccepted-one :
    (address command value : ℕ) → IsAccepted (build_command address command (value ∷ []))
IsAccepted-one address command value =
    verify-build_command address command (value ∷ []) (omega arith) ∙ ground arith

module _ (cfg : InventoryConfig) (addr : ℕ) where
  region-IsAccepted : All IsAccepted (region_commands cfg addr)
  unfolding set_frequency_range_command
  region-IsAccepted =
      if_intro (All IsAccepted) cfg.region_set
        (λ on. (
          verify-build_command addr _ (cfg.region_high ∷ cfg.region_low ∷ []) (omega arith)
              ∙ ground arith,
          tt,
        ))
        (λ off. tt)

  power-IsAccepted : length cfg.per_antenna_power ≤ 251 → All IsAccepted (power_commands cfg addr)
  unfolding set_output_power_by_ant_command
  power-IsAccepted h =
      if_intro (All IsAccepted) (ltb 0 (length cfg.per_antenna_power))
        (λ some. (verify-build_command addr _ cfg.per_antenna_power h ∙ some, tt)) (λ none. tt)

  -- Every command that `ApplyInventoryConfig` sends passes the packet check, if at most 251
  -- antennas have a power of their own.
  pub apply_commands-IsAccepted :
      length cfg.per_antenna_power ≤ 251 → All IsAccepted (apply_commands cfg addr)
  unfolding apply_commands set_work_mode_command set_scan_time_command set_antenna_mux_command
      set_output_power_command
  apply_commands-IsAccepted h = (
    IsAccepted-one addr _ _,
    All-append IsAccepted (region_commands cfg addr) _ region-IsAccepted (
      IsAccepted-one addr _ _,
      (
        IsAccepted-one addr _ _,
        All-append IsAccepted (power_commands cfg addr)
            (set_output_power_command addr cfg.output_power ∷ []) (power-IsAccepted h)
            (IsAccepted-one addr _ _, tt),
      ),
    ),
  )

-- The single-tag command goes along with every `n`-th round.
abbrev pub expected_single : ℤ → ℕ → ℕ → Option Bytes
expected_single (pos n) rounds addr =
    if ltb 0 n && nat_beq (rounds % n) 0 then some (inventory_single_tag_command addr) else none
expected_single (negsuc n) rounds addr = none

-- The next command and the client behind it, where the inventory is on.
abbrev pub next_of : Client → NextCommand
next_of c =
    let cfg = normalize_config c.cfg in
    record {
      inventory =
          inventory_g2_command c.reader_addr cfg.q_value cfg.session 0 0 c.target_value
            (next_inventory_antenna cfg.antenna_mask (pos c.ant_idx)).0 cfg.scan_time;
      single = expected_single cfg.single_fallback_each (c.rounds + 1) c.reader_addr;
      interval = effective_interval cfg;
    }

abbrev pub polled_client : Client → Client
polled_client c =
    let cfg = normalize_config c.cfg in
    record c {
      cfg = cfg;
      rounds = c.rounds + 1;
      ant_idx = (next_inventory_antenna cfg.antenna_mask (pos c.ant_idx)).1;
    }

wants_single-expected :
    (each : ℤ) (rounds addr : ℕ)
    → (if wants_single each rounds then some (inventory_single_tag_command addr) else none)
      ≡ expected_single each rounds addr
wants_single-expected (pos n) rounds addr = refl
wants_single-expected (negsuc n) rounds addr = refl

pub polled :
    (c : Client)
    → c.inventory_on ≡ true
    → next_inventory_command c ≡ (some (next_of c), polled_client c)
unfolding next_inventory_command
polled c on = ground (
  arith,
  on,
  wants_single-expected (normalize_config c.cfg).single_fallback_each (c.rounds + 1) c.reader_addr,
)

g2-IsAccepted : (c : Client) → IsAccepted (next_of c).inventory
unfolding inventory_g2_command
g2-IsAccepted c =
    verify-build_command c.reader_addr _ (_ ∷ _ ∷ _ ∷ _ ∷ _ ∷ []) (omega arith) ∙ ground arith

single_next :
    (c : Client)
    → (next_of c).single ≡ expected_single c.cfg.single_fallback_each (c.rounds + 1) c.reader_addr
unfolding normalize_config
single_next c = go c.cfg.single_fallback_each
  where
    go :
        (each : ℤ)
        → expected_single (not_negative each) (c.rounds + 1) c.reader_addr
          ≡ expected_single each (c.rounds + 1) c.reader_addr
    go (pos n) = refl
    go (negsuc n) = ground arith

positive : (i : ℤ) → int_lt (pos 0) i ≡ true → (n : ℕ) × (i ≡ pos n)
positive (pos n) h = (n, refl)
positive (negsuc n) h = ground arith

interval_next : (cfg : InventoryConfig) → IsNormal cfg → 100 * millisecond ≤ effective_interval cfg
interval_next cfg n =
    let (poll, is) = positive cfg.poll_interval n.interval in
    omega (arith, effective_interval_lem cfg poll is, n.some_time)

-- What a round says: the bytes of the command with the fields that they carry, and the client after it.
pub record Polls (c : Client) (cmd : NextCommand) (after : Client) : Type 0 where
  pub bytes :
      let antenna = (next_inventory_antenna after.cfg.antenna_mask (pos c.ant_idx)).0 in
      take 8 cmd.inventory
      ≡ 9 ∷ c.reader_addr ∷ 0x01 ∷ c.cfg.q_value ∷ c.cfg.session ∷ c.target_value ∷ antenna
        ∷ after.cfg.scan_time ∷ []
  pub accepted : IsAccepted cmd.inventory
  pub single : cmd.single ≡ expected_single c.cfg.single_fallback_each after.rounds c.reader_addr
  pub interval : 100 * millisecond ≤ cmd.interval
  pub normal : IsNormal after.cfg
  pub rounds : after.rounds ≡ c.rounds + 1
  pub turn : after.ant_idx ≡ (next_inventory_antenna after.cfg.antenna_mask (pos c.ant_idx)).1

bytes_next :
    (c : Client)
    → take 8 (next_of c).inventory
      ≡ 9
        ∷ c.reader_addr
        ∷ 0x01
        ∷ c.cfg.q_value
        ∷ c.cfg.session
        ∷ c.target_value
        ∷ (next_inventory_antenna (normalize_config c.cfg).antenna_mask (pos c.ant_idx)).0
        ∷ (normalize_config c.cfg).scan_time
        ∷ []
unfolding inventory_g2_command build_command normalize_config
bytes_next c = refl

-- While the inventory is on, there is a next command. Its bytes, up to the checksum, are the length, the
-- reader's address, the code 1, Q and session of the configuration, the client's target, the next antenna
-- in turn and the scan time, and it passes the packet check. It comes with a single-tag command in every
-- `SingleFallbackEach`-th round, the loop then waits at least 100 ms, the configuration is a normal one,
-- the round is counted, and the turn goes on behind that antenna.
pub next_inventory_command_lem :
    (c : Client)
    → c.inventory_on ≡ true
    → (cmd : NextCommand) × (after : Client) × (next_inventory_command c ≡ (some cmd, after))
      × Polls c cmd after
next_inventory_command_lem c on =
    let n = normalize_config_lem c.cfg in
    (
      next_of c,
      polled_client c,
      polled c on,
      record {
        bytes = bytes_next c;
        accepted = g2-IsAccepted c;
        single = single_next c;
        interval = interval_next (normalize_config c.cfg) n.0;
        normal = n.0;
        rounds = refl;
        turn = refl;
      },
    )
