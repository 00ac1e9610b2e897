-- ===== src/BotReader/Idle.antt =====
-- The rounds of the scan loop: nothing is connected between two of them.
use guhfrtui.Base.{
  ℕ, ◌≡◌, inl, inr, refl, sym, ◌∙◌, Bool, true, false, not, ◌||◌, List, [], ◌∷◌, Option, none, some,
  if_intro, subst,
}
use guhfrtui.Text.{is_empty, trim_space}
use guhfrtui.Sdk.Client.{TagEvent}
use guhfrtui.BotReader.{
  Error, Manager, set_long_range_mode, set_error, notify, Notice, scan_started,
}
use guhfrtui.BotReader.Modes.{Inv}
use guhfrtui.BotReader.Loop.{
  Event, context_done, tags_closed, errors_closed, nil_error, tag, error, mode_set, Attempt,
  set_modes, connect_and_start, take_tag, consume_tags, disconnected, count_restart, Step, again,
  receiving, returned, retry, after_tags, after_start, round,
}
use guhfrtui.BotReader.Rounds.{
  set_error-Inv, consume_tags-Inv, disconnected-Inv, count_restart-Inv, notify-Inv, mode_connected,
  set_modes-Inv, set_modes_idle, at_read, Fails, Begun, connect_and_start-Begun,
}

-- Between two rounds nothing is connected.
pub record IsIdle (m : Manager) : Type 0 where
  pub kept : Inv m
  pub endpoint : m.status.endpoint ≡ []
  pub connected : m.status.connected ≡ false

-- Where a round leads, and in which state.
abbrev pub After : Step × Manager → Type 0
After (receiving, m) = Inv m × (m.status.connected ≡ true)
After (again, m) = IsIdle m
After (returned, m) = IsIdle m

pub disconnected-IsIdle : (m : Manager) → Inv m → IsIdle (disconnected m)
unfolding disconnected
disconnected-IsIdle m v = record {
  kept = unfold disconnected in disconnected-Inv m v;
  endpoint = refl;
  connected = refl;
}

count_restart-IsIdle : (m : Manager) → IsIdle m → IsIdle (count_restart m)
unfolding count_restart
count_restart-IsIdle m h = record {
  kept = count_restart-Inv m h.kept;
  endpoint = h.endpoint;
  connected = h.connected;
}

set_error-IsIdle : (e : Error) (m : Manager) → IsIdle m → IsIdle (set_error e m)
unfolding set_error
set_error-IsIdle e m h = record {
  kept = set_error-Inv e m h.kept;
  endpoint = h.endpoint;
  connected = h.connected;
}

-- Receiving does not touch the connection.
take_tag_connected :
    (t : TagEvent) (now : ℕ) (m : Manager)
    → (take_tag t now m).status.connected ≡ m.status.connected
unfolding take_tag
take_tag_connected t now m =
    if_intro P (not t.is_new || is_empty (trim_space t.epc)) (λ _. refl)
      (λ _. if_intro P m.has_handler (λ _. refl) (λ _. refl))
  where
    P : Manager → Type 0
    P m' = m'.status.connected ≡ m.status.connected

pub consume_tags_connected :
    (events : List Event) (m : Manager)
    → (consume_tags events m).1.status.connected ≡ m.status.connected
unfolding consume_tags set_error
consume_tags_connected [] m = refl
consume_tags_connected (context_done ∷ events) m = refl
consume_tags_connected (tags_closed ∷ events) m = refl
consume_tags_connected (tag t now ∷ events) m =
    consume_tags_connected events (take_tag t now m) ∙ take_tag_connected t now m
consume_tags_connected (errors_closed ∷ events) m = refl
consume_tags_connected (nil_error ∷ events) m = consume_tags_connected events m
consume_tags_connected (error text ∷ events) m = refl
consume_tags_connected (mode_set enabled ∷ events) m =
    consume_tags_connected events (set_long_range_mode enabled m) ∙ mode_connected enabled m

notify_connected : (n : Notice) (m : Manager) → (notify n m).status.connected ≡ m.status.connected
unfolding notify
notify_connected n m =
    if_intro (λ (m' : Manager). m'.status.connected ≡ m.status.connected) m.has_notifier (λ _. refl)
      (λ _. refl)

pub after_tags-After :
    (a : Attempt) (r : Option Bool × Manager)
    → Inv r.1
    → r.1.status.connected ≡ true
    → After (after_tags a r)
after_tags-After a (none, m) v c = (v, c)
after_tags-After a (some false, m) v c = disconnected-IsIdle m v
after_tags-After a (some true, m) v c =
    if_intro After a.waits (λ _. count_restart-IsIdle (disconnected m) (disconnected-IsIdle m v))
      (λ _. disconnected-IsIdle m v)

retry-After : (a : Attempt) (m : Manager) → IsIdle m → After (retry a m)
retry-After a m h = if_intro (λ s. After (s, m)) a.waits (λ _. h) (λ _. h)

set_modes-IsIdle : (bs : List Bool) (m : Manager) → IsIdle m → IsIdle (set_modes bs m)
set_modes-IsIdle bs m h =
    let (e, c) = set_modes_idle bs m in
    record {
      kept = set_modes-Inv bs m h.kept;
      endpoint = e ∙ h.endpoint;
      connected = c ∙ h.connected;
    }

failed-IsIdle : (a : Attempt) (m m' : Manager) (x : Error) → IsIdle m → Fails a m x m' → IsIdle m'
failed-IsIdle a m m' x h f =
    let read = set_modes-IsIdle a.dial_modes m h in
    let write = set_modes-IsIdle a.start_modes (at_read a m) read in
    elim f [
      | inl (aim, is) ↦ subst IsIdle (sym is) read
      | inr (inl (e, failure, aim, t, r, same, is)) ↦ subst IsIdle (sym is) read
      | inr (inr (e, failure, aim, l, r, s, q, same, is)) ↦ subst IsIdle (sym is) write
    ]

after_start-After :
    (a : Attempt) (m : Manager) (r : Option Error × Manager)
    → IsIdle m
    → Begun a m r
    → After (after_start a r)
after_start-After a m (some x, m') h b =
    retry-After a (set_error x m') (set_error-IsIdle x m' (failed-IsIdle a m m' x h b))
after_start-After a m (none, m') h (e, failure, aim, l, r, q, b) =
    after_tags-After a (consume_tags a.events told)
      (consume_tags-Inv a.events told (notify-Inv (scan_started m'.status.endpoint) m' b.kept))
      (consume_tags_connected a.events told
        ∙ notify_connected (scan_started m'.status.endpoint) m'
        ∙ b.connected)
  where
    told : Manager
    told = notify (scan_started m'.status.endpoint) m'

-- A round of the loop, between two rounds before it.
pub round-After : (a : Attempt) (m : Manager) → IsIdle m → After (round a m)
unfolding round
round-After a m h =
    if_intro After a.is_cancelled (λ _. h)
      (λ _. after_start-After a m (connect_and_start a m) h (connect_and_start-Begun a m h.kept))
