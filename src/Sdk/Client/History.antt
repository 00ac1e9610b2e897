-- ===== src/Sdk/Client/History.antt =====
-- The client after any history of its operations.
use guhfrtui.Base.{refl, Bool, List, [], ◌∷◌, Bytes, arith}
use guhfrtui.Sdk.Config.{InventoryConfig}
use guhfrtui.Sdk.Client.{Client, new_client, set_inventory_config, config_updated}
use guhfrtui.Sdk.Frames.{consume_packet}
use guhfrtui.Sdk.Control.{next_inventory_command, start_inventory, stop_inventory}
use guhfrtui.Sdk.Client.Tags.{
  Inv, emit_status-Inv, same-Inv, consume_packet-Inv, next_inventory_command-Inv,
  start_inventory-Inv, stop_inventory-Inv,
}

pub data Op : Type 0 where
  configures : InventoryConfig → Op
  starts : Bool → (Bytes → Bool) → Op
  receives : Bytes → Op
  polls stops : Op
  -- readers of the three channels take what is there
  reads : Op

unfoldable pub step : Op → Client → Client
step (configures cfg) c = set_inventory_config cfg c
step (starts connected sends) c = (start_inventory connected sends c).1
step (receives packet) c = consume_packet packet c
step polls c = (next_inventory_command c).1
step stops c = stop_inventory c
step reads c = record c { tags = []; statuses = []; errs = [] }

unfoldable pub run : List Op → Client → Client
unfolding step
run [] c = c
run (o ∷ os) c = run os (step o c)

step-Inv : (o : Op) (c : Client) → Inv c → Inv (step o c)
unfolding step set_inventory_config
step-Inv (configures cfg) c v =
    emit_status-Inv config_updated _ (same-Inv _ refl refl refl refl refl v)
step-Inv (starts connected sends) c v = start_inventory-Inv connected sends c v
step-Inv (receives packet) c v = consume_packet-Inv packet c v
step-Inv polls c v = next_inventory_command-Inv c v
step-Inv stops c v = stop_inventory-Inv c v
step-Inv reads c v = record {
  counted = v.counted;
  unique = v.unique;
  tags = omega arith;
  statuses = omega arith;
  errs = omega arith;
}

kept : (os : List Op) (c : Client) → Inv c → Inv (run os c)
unfolding run
kept [] c v = v
kept (o ∷ os) c v = kept os (step o c) (step-Inv o c v)

new_client-Inv : Inv new_client
unfolding new_client
new_client-Inv = record {
  counted = refl;
  unique = tt;
  tags = omega arith;
  statuses = omega arith;
  errs = omega arith;
}

-- After any sequence of configurations, starts, packets, whatever their bytes, inventory commands,
-- stops and reads of the channels, from a new client: the count of unique tags is the number of
-- EPCs seen in the run, each once in the set, and no channel holds more than its capacity.
pub client_history-Inv : (history : List Op) → Inv (run history new_client)
client_history-Inv history = kept history new_client new_client-Inv
