-- ===== src/BotReader/Rounds.antt =====
-- The start of a round of the scan loop.
use guhfrtui.Base.{
  ℕ, ◌≡◌, ◌⊎◌, inl, inr, ap, refl, ◌∙◌, Bool, true, false, not, ◌||◌, List, [], ◌∷◌, Option, none,
  some, if_intro, arith,
}
use guhfrtui.Text.{is_empty, trim_space}
use guhfrtui.Transport
use guhfrtui.Transport.{Endpoint, address}
use guhfrtui.Sdk.Client.{TagEvent, set_inventory_config}
use guhfrtui.Sdk.Control.{StartError, start_inventory}
use guhfrtui.Sdk.Connection.{Linked, reconnect}
use guhfrtui.BotReader.{
  Error, start_failed, Manager, set_notifier, set_long_range_mode, show_config, set_error, notify,
  Notice,
}
use guhfrtui.BotReader.Modes.{
  Inv, OfMode, shown_in, settings_of, config_settings, set_long_range_mode-Inv,
}
use guhfrtui.BotReader.Target.{Aims, pick_target-Aims}
use guhfrtui.Sdk.Config.{InventoryConfig}
use guhfrtui.BotReader.Loop.{
  Event, context_done, tags_closed, errors_closed, nil_error, tag, error, mode_set, Attempt, fresh,
  Target, refused, target, pick_target, set_modes, after_inventory, start_with, after_reconnect,
  connect_to, connect_and_start, take_tag, consume_tags, disconnected, count_restart,
}

pub set_error-Inv : (e : Error) (m : Manager) → Inv m → Inv (set_error e m)
unfolding set_error
set_error-Inv e m v = ground (arith, v)

take_tag-Inv : (t : TagEvent) (now : ℕ) (m : Manager) → Inv m → Inv (take_tag t now m)
unfolding take_tag
take_tag-Inv t now m v =
    if_intro Inv (not t.is_new || is_empty (trim_space t.epc)) (λ _. v)
      (λ _. if_intro Inv m.has_handler (λ _. ground (arith, v)) (λ _. ground (arith, v)))

pub consume_tags-Inv : (events : List Event) (m : Manager) → Inv m → Inv (consume_tags events m).1
unfolding consume_tags
consume_tags-Inv [] m v = v
consume_tags-Inv (context_done ∷ events) m v = v
consume_tags-Inv (tags_closed ∷ events) m v = set_error-Inv _ m v
consume_tags-Inv (tag t now ∷ events) m v =
    consume_tags-Inv events (take_tag t now m) (take_tag-Inv t now m v)
consume_tags-Inv (errors_closed ∷ events) m v = set_error-Inv _ m v
consume_tags-Inv (nil_error ∷ events) m v = consume_tags-Inv events m v
consume_tags-Inv (error text ∷ events) m v = set_error-Inv _ m v
consume_tags-Inv (mode_set enabled ∷ events) m v =
    consume_tags-Inv events (set_long_range_mode enabled m) (set_long_range_mode-Inv enabled m v)

pub disconnected-Inv : (m : Manager) → Inv m → Inv (disconnected m)
unfolding disconnected
disconnected-Inv m v = ground (arith, v)

pub count_restart-Inv : (m : Manager) → Inv m → Inv (count_restart m)
unfolding count_restart
count_restart-Inv m v = ground (arith, v)

pub notify-Inv : (n : Notice) (m : Manager) → Inv m → Inv (notify n m)
unfolding notify
notify-Inv n m v = if_intro Inv m.has_notifier (λ _. ground (arith, v)) (λ _. v)

pub set_notifier-Inv : (b : Bool) (m : Manager) → Inv m → Inv (set_notifier b m)
unfolding set_notifier
set_notifier-Inv b m v = ground (arith, v)

pub mode_connected :
    (enabled : Bool) (m : Manager)
    → (set_long_range_mode enabled m).status.connected ≡ m.status.connected
unfolding set_long_range_mode show_config
mode_connected true m = refl
mode_connected false m = refl

mode_endpoint :
    (enabled : Bool) (m : Manager)
    → (set_long_range_mode enabled m).status.endpoint ≡ m.status.endpoint
unfolding set_long_range_mode show_config
mode_endpoint true m = refl
mode_endpoint false m = refl

pub set_modes-Inv : (bs : List Bool) (m : Manager) → Inv m → Inv (set_modes bs m)
unfolding set_modes
set_modes-Inv [] m v = v
set_modes-Inv (b ∷ bs) m v =
    set_modes-Inv bs (set_long_range_mode b m) (set_long_range_mode-Inv b m v)

pub set_modes_idle :
    (bs : List Bool) (m : Manager)
    → ((set_modes bs m).status.endpoint ≡ m.status.endpoint)
      × ((set_modes bs m).status.connected ≡ m.status.connected)
unfolding set_modes
set_modes_idle [] m = (refl, refl)
set_modes_idle (b ∷ bs) m =
    let (e, c) = set_modes_idle bs (set_long_range_mode b m) in
    (e ∙ mode_endpoint b m, c ∙ mode_connected b m)

-- What the status shows of a connection that was started with `cfg`.
pub record IsBegun (e : Endpoint) (cfg : InventoryConfig) (m m' : Manager) : Type 0 where
  pub connected : m'.status.connected ≡ true
  pub endpoint : m'.status.endpoint ≡ address e
  pub settings : shown_in m'.status ≡ settings_of cfg
  pub no_error : m'.status.last_error ≡ none
  pub handed : m'.handed ≡ m.handed
  pub kept : Inv m'

-- The manager when the configuration is read, and when the inventory has been started.
abbrev pub at_read : Attempt → Manager → Manager
at_read a m = set_modes a.dial_modes m

abbrev pub at_write : Attempt → Manager → Manager
at_write a m = set_modes a.start_modes (at_read a m)

abbrev pub start_result : Attempt → Manager → Linked → Option StartError
start_result a m l =
    (start_inventory a.is_connected a.sends (set_inventory_config (at_read a m).inv_cfg l.client)).0

-- The three ways to fail, each with its error and with the manager as only SetLongRangeMode left it.
abbrev pub Fails : Attempt → Manager → Error → Manager → Type 0
Fails a m x m' =
    (Aims a m (refused x) × (m' ≡ at_read a m))
    ⊎ ((e : Endpoint) × (failure : Transport.Error → Error) × Aims a m (target failure e)
        × (t : Transport.Error) × ((reconnect a.world e fresh).0 ≡ some t)
        × (x ≡ failure t)
        × (m' ≡ at_read a m))
    ⊎ ((e : Endpoint) × (failure : Transport.Error → Error) × Aims a m (target failure e)
        × (l : Linked) × (reconnect a.world e fresh ≡ (none, l))
        × (s : StartError) × (start_result a m l ≡ some s)
        × (x ≡ start_failed s)
        × (m' ≡ at_write a m))

-- How connectAndStart ends.
abbrev pub Begun : Attempt → Manager → Option Error × Manager → Type 0
Begun a m (some x, m') = Fails a m x m'
Begun a m (none, m') =
    (e : Endpoint) × (failure : Transport.Error → Error) × Aims a m (target failure e)
    × (l : Linked) × (reconnect a.world e fresh ≡ (none, l))
    × (start_result a m l ≡ none)
    × IsBegun e (at_read a m).inv_cfg (at_write a m) m'

after_inventory-IsBegun :
    (e : Endpoint) (cfg : InventoryConfig) (m : Manager)
    → OfMode (settings_of cfg)
    → Inv m
    → IsBegun e cfg m (after_inventory e cfg m none).1
unfolding show_config
after_inventory-IsBegun e cfg m o v = record {
  connected = refl;
  endpoint = refl;
  settings = refl;
  no_error = refl;
  handed = refl;
  kept = record {
    mode = v.mode;
    region = v.region;
    profile = v.profile;
    shown = o;
    endpoint = refl;
    running = v.running;
    done = v.done;
  };
}

-- connectAndStart takes the reader that the configuration names, by a host and a positive port, and else
-- the first verified candidate of those discovered, or the first where none is verified. It fails when
-- there is none, when the connection of a fresh client to this endpoint fails, or when the inventory
-- does not start on it with the configuration that was read; the error tells which, and the manager is
-- as the calls of SetLongRangeMode during it left it. Otherwise the status says connected, shows this
-- endpoint and the settings of the configuration that was read, and no error.
pub connect_and_start-Begun :
    (a : Attempt) (m : Manager) → Inv m → Begun a m (connect_and_start a m)
unfolding connect_and_start start_with
connect_and_start-Begun a m v = from_target (pick_target a m) (pick_target-Aims a m)
  where
    w : Inv (at_read a m)
    w = set_modes-Inv a.dial_modes m v

    started :
        (e : Endpoint) (l : Linked) (failure : Transport.Error → Error)
        → Aims a m (target failure e)
        → reconnect a.world e fresh ≡ (none, l)
        → (s : Option StartError) → start_result a m l ≡ s
        → Begun a m (after_inventory e (at_read a m).inv_cfg (at_write a m) s)
    started e l failure aim r (some x) q = inr (inr (e, failure, aim, l, r, x, q, refl, refl))
    started e l failure aim r none q = (
      e,
      failure,
      aim,
      l,
      r,
      q,
      after_inventory-IsBegun e (at_read a m).inv_cfg (at_write a m)
          (config_settings (at_read a m) w) (set_modes-Inv a.start_modes (at_read a m) w),
    )

    linked :
        (failure : Transport.Error → Error) (e : Endpoint)
        → Aims a m (target failure e)
        → (r : Option Transport.Error × Linked) → reconnect a.world e fresh ≡ r
        → Begun a m (after_reconnect a failure e (at_read a m) r)
    linked failure e aim (some x, l) q = inr (inl (e, failure, aim, x, ap (λ r. r.0) q, refl, refl))
    linked failure e aim (none, l) q = started e l failure aim q (start_result a m l) refl

    from_target : (t : Target) → Aims a m t → Begun a m (connect_to a (at_read a m) t)
    from_target (refused x) aim = inl (aim, refl)
    from_target (target failure e) aim = linked failure e aim (reconnect a.world e fresh) refl
