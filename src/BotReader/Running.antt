-- ===== src/BotReader/Running.antt =====
-- A round leaves alone whether the loop runs.
use guhfrtui.Base.{
  ℕ, ◌≡◌, refl, ◌∙◌, Bool, true, false, not, ◌||◌, [], ◌∷◌, List, Option, none, some, if_intro,
}
use guhfrtui.Text.{is_empty, trim_space}
use guhfrtui.Transport
use guhfrtui.Transport.{Endpoint}
use guhfrtui.Sdk.Client.{TagEvent, set_inventory_config}
use guhfrtui.Sdk.Control.{StartError, start_inventory}
use guhfrtui.Sdk.Connection.{Linked, reconnect}
use guhfrtui.BotReader.{
  Error, Manager, set_long_range_mode, set_error, notify, Notice, scan_started,
}
use guhfrtui.BotReader.Loop.{
  Event, context_done, tags_closed, errors_closed, nil_error, tag, error, mode_set, Attempt, fresh,
  Target, refused, target, pick_target, set_modes, after_inventory, start_with, after_reconnect,
  connect_to, connect_and_start, take_tag, consume_tags, disconnected, count_restart, Step,
  after_tags, after_start, round,
}

take_tag_running : (t : TagEvent) (now : ℕ) (m : Manager) → (take_tag t now m).running ≡ m.running
unfolding take_tag
take_tag_running t now m =
    if_intro P (not t.is_new || is_empty (trim_space t.epc)) (λ _. refl)
      (λ _. if_intro P m.has_handler (λ _. refl) (λ _. refl))
  where
    P : Manager → Type 0
    P m' = m'.running ≡ m.running

pub mode_running :
    (enabled : Bool) (m : Manager) → (set_long_range_mode enabled m).running ≡ m.running
unfolding set_long_range_mode
mode_running true m = refl
mode_running false m = refl

pub consume_tags_running :
    (events : List Event) (m : Manager) → (consume_tags events m).1.running ≡ m.running
unfolding consume_tags set_error
consume_tags_running [] m = refl
consume_tags_running (context_done ∷ events) m = refl
consume_tags_running (tags_closed ∷ events) m = refl
consume_tags_running (tag t now ∷ events) m =
    consume_tags_running events (take_tag t now m) ∙ take_tag_running t now m
consume_tags_running (errors_closed ∷ events) m = refl
consume_tags_running (nil_error ∷ events) m = consume_tags_running events m
consume_tags_running (error text ∷ events) m = refl
consume_tags_running (mode_set enabled ∷ events) m =
    consume_tags_running events (set_long_range_mode enabled m) ∙ mode_running enabled m

set_modes_running : (bs : List Bool) (m : Manager) → (set_modes bs m).running ≡ m.running
unfolding set_modes
set_modes_running [] m = refl
set_modes_running (b ∷ bs) m = set_modes_running bs (set_long_range_mode b m) ∙ mode_running b m

connect_and_start_running :
    (a : Attempt) (m : Manager) → (connect_and_start a m).1.running ≡ m.running
unfolding connect_and_start start_with
connect_and_start_running a m = targeted (pick_target a m) ∙ set_modes_running a.dial_modes m
  where
    read : Manager
    read = set_modes a.dial_modes m

    started :
        (e : Endpoint) (s : Option StartError)
        → (after_inventory e read.inv_cfg (set_modes a.start_modes read) s).1.running ≡ read.running
    started e (some x) = set_modes_running a.start_modes read
    started e none = set_modes_running a.start_modes read

    linked :
        (failure : Transport.Error → Error) (e : Endpoint) (r : Option Transport.Error × Linked)
        → (after_reconnect a failure e read r).1.running ≡ read.running
    linked failure e (some x, l) = refl
    linked failure e (none, l) =
        started e
          (start_inventory a.is_connected a.sends (set_inventory_config read.inv_cfg l.client)).0

    targeted : (t : Target) → (connect_to a read t).1.running ≡ read.running
    targeted (refused x) = refl
    targeted (target failure e) = linked failure e (reconnect a.world e fresh)

notify_running : (n : Notice) (m : Manager) → (notify n m).running ≡ m.running
unfolding notify
notify_running n m =
    if_intro (λ (m' : Manager). m'.running ≡ m.running) m.has_notifier (λ _. refl) (λ _. refl)

pub after_tags_running :
    (a : Attempt) (r : Option Bool × Manager) → (after_tags a r).1.running ≡ r.1.running
unfolding disconnected count_restart
after_tags_running a (none, m) = refl
after_tags_running a (some false, m) = refl
after_tags_running a (some true, m) =
    if_intro (λ (s : Step × Manager). s.1.running ≡ m.running) a.waits (λ _. refl) (λ _. refl)

after_start_running :
    (a : Attempt) (r : Option Error × Manager) → (after_start a r).1.running ≡ r.1.running
after_start_running a (some x, m) = unfold set_error in refl
after_start_running a (none, m) =
    after_tags_running a (consume_tags a.events (notify (scan_started m.status.endpoint) m))
    ∙ consume_tags_running a.events (notify (scan_started m.status.endpoint) m)
    ∙ notify_running (scan_started m.status.endpoint) m

pub round_running : (a : Attempt) (m : Manager) → (round a m).1.running ≡ m.running
unfolding round
round_running a m =
    if_intro (λ (s : Step × Manager). s.1.running ≡ m.running) a.is_cancelled (λ _. refl)
      (λ _. after_start_running a (connect_and_start a m) ∙ connect_and_start_running a m)
