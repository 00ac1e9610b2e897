-- ===== src/Tests/Sdk.antt =====
-- The client of a reader: packets, commands, antennas and targets.
use guhfrtui.Base.{
  ◌≤◌, ◌≡◌, refl, true, List, [], ◌∷◌, some, length, Bytes, All, arith, bit_or, nat_eq,
}
use guhfrtui.Base.Int.{pos}
use guhfrtui.Base.Sets.{has}
use guhfrtui.Reader18.Frames.{parse_frames}
use guhfrtui.Sdk.Config.{InventoryConfig, default_inventory_config}
use guhfrtui.Sdk.Client.Turns.{sent_antennas, every_antenna_visited}
use guhfrtui.Sdk.Client.{Client, new_client}
use guhfrtui.Sdk.Frames.{consume_frames}
use guhfrtui.Sdk.Control.{next_inventory_command, NextCommand}
use guhfrtui.Sdk.Client.Stream.{IsPacket, consume_packets, joined, consume_packets_lem}
use guhfrtui.Sdk.Client.Tags.{Inv}
use guhfrtui.Sdk.Client.History.{
  run, configures, starts, receives, polls, stops, client_history-Inv,
}
use guhfrtui.Sdk.Client.Commands.{Polls, next_inventory_command_lem}

-- Session 2, two antennas, a switch of the target after two responses without a tag.
abbrev config : InventoryConfig
config = record default_inventory_config {
  session = 2;
  antenna_mask = 5;
  no_tag_ab_switch = pos 2;
  per_antenna_power = 10 ∷ 40 ∷ [];
}

abbrev client : Client
client = record {
  cfg = config;
  inventory_on = true;
  seen = [];
  parser_buffer = [];
  rounds = 5;
  unique_tags = 0;
  no_tag_hit = 0;
  ant_idx = 1;
  reader_addr = 0;
  target_value = 0;
  last_tag_epc = [];
  tags = [];
  statuses = [];
  errs = [];
}

-- An inventory response in two packets.
abbrev packets : List Bytes
packets = (7 ∷ 0 ∷ 1 ∷ []) ∷ (0 ∷ 1 ∷ 0 ∷ 194 ∷ 17 ∷ []) ∷ []

consume_packets_lem_example :
    let (frames, last) = parse_frames (joined packets) in
    (consume_packets packets client
      ≡ record (consume_frames frames client) { parser_buffer = last })
    × (length last ≤ 255)
consume_packets_lem_example = consume_packets_lem packets client refl (are_packets)
  where
    are_packets : All IsPacket packets
    are_packets = (
      ((omega arith, (omega arith, (omega arith, tt))), omega arith),
      (
        (
          (omega arith, (omega arith, (omega arith, (omega arith, (omega arith, tt))))),
          omega arith,
        ),
        tt,
      ),
    )

client_history-Inv_example : Inv (
    run
      (configures config ∷ starts true (λ c. true) ∷ polls ∷ receives (joined packets) ∷ stops ∷ [])
      new_client)
client_history-Inv_example =
    client_history-Inv
      (configures config ∷ starts true (λ c. true) ∷ polls ∷ receives (joined packets) ∷ stops ∷ [])

-- Antenna 3 has index 2.
every_antenna_visited_example : has (bit_or 0x80 2) (sent_antennas 8 client) ≡ true
every_antenna_visited_example = every_antenna_visited client 2 refl (omega arith) refl

next_inventory_command_lem_example :
    (cmd : NextCommand) × (after : Client) × (next_inventory_command client ≡ (some cmd, after))
    × Polls client cmd after
next_inventory_command_lem_example = next_inventory_command_lem client refl
