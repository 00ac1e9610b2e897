-- ===== src/BotReader/History.antt =====
-- Any history of the manager's calls and of its loop's rounds.
use guhfrtui.Base.{
  ℕ, ◌≡◌, refl, sym, ◌∙◌, Bool, true, false, List, [], ◌∷◌, if◌then◌else◌, if_intro, arith,
}
use guhfrtui.BotConfig
use guhfrtui.Text.{is_empty}
use guhfrtui.BotReader.{
  Manager, new, start, stop, set_notifier, set_long_range_mode, finish_stopped,
}
use guhfrtui.BotReader.Modes.{Inv, new-Inv, stop-Inv, set_long_range_mode-Inv}
use guhfrtui.BotReader.Loop.{
  Attempt, Step, again, receiving, returned, round, consume_tags, after_tags, disconnected,
}
use guhfrtui.BotReader.Machine.{
  Machine, settled, next_round, scan_loop, cancelled, end_loop, start_loop, stop_loop,
  start_briefly,
}
use guhfrtui.BotReader.Running.{
  round_running, mode_running, consume_tags_running, after_tags_running,
}
use guhfrtui.BotReader.Rounds.{set_notifier-Inv, mode_connected, consume_tags-Inv}
use guhfrtui.BotReader.Idle.{
  IsIdle, After, round-After, consume_tags_connected, after_tags-After, disconnected-IsIdle,
}

-- The argument of `stops` is what the loop still does before it sees that it is cancelled.
pub data Call : Type 0 where
  starts : ℕ → Call
  stops : List Attempt → Call
  sets_mode sets_notifier : Bool → Call
  runs : List Attempt → Call

unfoldable pub call : Call → Machine → Machine
unfolding start_loop stop_loop set_long_range_mode set_notifier scan_loop
call (starts now) s = start_loop now s
call (stops rest) s = stop_loop rest s
call (sets_mode enabled) s = record s { manager = set_long_range_mode enabled s.manager }
call (sets_notifier b) s = record s { manager = set_notifier b s.manager }
call (runs attempts) s = scan_loop attempts s

unfoldable pub run : List Call → Machine → Machine
unfolding call
run [] s = s
run (c ∷ cs) s = run cs (call c s)

abbrev pub is_looping : Step → Bool
is_looping again = true
is_looping receiving = true
is_looping returned = false

abbrev pub is_receiving : Step → Bool
is_receiving again = false
is_receiving receiving = true
is_receiving returned = false

-- The manager's account of the loop is the truth.
pub record IsTrue (s : Machine) : Type 0 where
  pub kept : Inv s.manager
  pub running : s.manager.running ≡ is_looping s.phase
  pub connected : s.manager.status.connected ≡ is_receiving s.phase

connected_cases : (m : Manager) → Inv m → m.status.connected ≡ false → IsIdle m
connected_cases m v c = record {
  kept = v;
  endpoint = empty m.status.endpoint (ground (arith, v.endpoint, c));
  connected = c;
}
  where
    empty : (b : _) → is_empty b ≡ true → b ≡ []
    empty [] h = refl
    empty (x ∷ b) h = absurd (cc)

finish_stopped-IsTrue :
    (m : Manager) → IsIdle m → IsTrue (record { manager = finish_stopped m; phase = returned })
unfolding finish_stopped
finish_stopped-IsTrue m h = record {
  kept = ground (arith, h.kept, h.endpoint);
  running = refl;
  connected = refl;
}

settled-IsTrue : (s : Step × Manager) → After s → s.1.running ≡ true → IsTrue (settled s)
settled-IsTrue (again, m) h r = record { kept = h.kept; running = r; connected = h.connected }
settled-IsTrue (receiving, m) h r = record { kept = h.0; running = r; connected = h.1 }
settled-IsTrue (returned, m) h r = finish_stopped-IsTrue m h

next_round-IsTrue :
    (a : Attempt) (p : Step) (m : Manager)
    → IsTrue (record { manager = m; phase = p })
    → IsTrue (next_round a p m)
unfolding next_round
next_round-IsTrue a again m h =
    settled-IsTrue (round a m) (round-After a m (connected_cases m h.kept h.connected))
      (round_running a m ∙ h.running)
next_round-IsTrue a receiving m h =
    let r = consume_tags a.events m in
    settled-IsTrue (after_tags a r)
      (after_tags-After a r (consume_tags-Inv a.events m h.kept)
        (consume_tags_connected a.events m ∙ h.connected))
      (after_tags_running a r ∙ consume_tags_running a.events m ∙ h.running)
next_round-IsTrue a returned m h = h

pub scan_loop-IsTrue :
    (attempts : List Attempt) (s : Machine) → IsTrue s → IsTrue (scan_loop attempts s)
unfolding scan_loop
scan_loop-IsTrue [] s h = h
scan_loop-IsTrue (a ∷ rest) s h =
    scan_loop-IsTrue rest (next_round a s.phase s.manager) (next_round-IsTrue a s.phase s.manager h)

-- A loop that is cancelled is gone.
pub record IsGone (s : Machine) : Type 0 where
  pub is_true : IsTrue s
  pub gone : s.phase ≡ returned

cancelled-IsGone :
    (p : Step) (m : Manager) → IsTrue (record { manager = m; phase = p }) → IsGone (cancelled p m)
unfolding cancelled
cancelled-IsGone again m h = record {
  is_true = finish_stopped-IsTrue m (connected_cases m h.kept h.connected);
  gone = refl;
}
cancelled-IsGone receiving m h = record {
  is_true = finish_stopped-IsTrue (disconnected m) (disconnected-IsIdle m h.kept);
  gone = refl;
}
cancelled-IsGone returned m h = record { is_true = h; gone = refl }

pub end_loop-IsGone : (rest : List Attempt) (s : Machine) → IsTrue s → IsGone (end_loop rest s)
unfolding end_loop
end_loop-IsGone rest s h =
    cancelled-IsGone (scan_loop rest s).phase (scan_loop rest s).manager (scan_loop-IsTrue rest s h)

not_looping : (p : Step) → is_looping p ≡ false → (p ≡ returned) × (is_receiving p ≡ false)
not_looping again h = absurd (cc)
not_looping receiving h = absurd (cc)
not_looping returned h = (refl, refl)

pub start_loop-IsTrue : (now : ℕ) (s : Machine) → IsTrue s → IsTrue (start_loop now s)
unfolding start_loop start
start_loop-IsTrue now s h =
    if_intro P s.manager.running (λ on. h)
      (λ off. record {
        kept = ground (arith, h.kept);
        running = refl;
        connected = h.connected ∙ (not_looping s.phase (sym h.running ∙ off)).1;
      })
  where
    P : Bool × Manager → Type 0
    P r = IsTrue (record { manager = r.1; phase = if r.0 then again else s.phase })

stopped-IsTrue :
    (s : Machine) → IsTrue s → IsTrue (record { manager = (stop s.manager).1; phase = s.phase })
unfolding stop
stopped-IsTrue s h = record {
  kept = unfold stop in stop-Inv s.manager h.kept;
  running = h.running;
  connected = h.connected;
}

pub stop_loop-IsGone : (rest : List Attempt) (s : Machine) → IsTrue s → IsGone (stop_loop rest s)
unfolding stop_loop stop
stop_loop-IsGone rest s h =
    let s' = record s { manager = (stop s.manager).1 } in
    let h' = stopped-IsTrue s h in
    if_intro IsGone s.manager.has_done (λ waits. end_loop-IsGone rest s' h')
      (λ idle. record {
        is_true = h';
        gone = (not_looping s.phase (sym h.running ∙ sym h.kept.done ∙ idle)).0;
      })

begins : (now : ℕ) (m : Manager) → m.running ≡ false → (start now m).0 ≡ true
unfolding start
begins now m off = ground (arith, off)

pub start_briefly-IsGone :
    (now : ℕ) (rest : List Attempt) (s : Machine)
    → IsTrue s
    → s.manager.running ≡ false
    → IsGone (start_briefly now rest s)
unfolding start_briefly
start_briefly-IsGone now rest s h off =
    rw (begins now s.manager off)
      (end_loop-IsGone rest (start_loop now s) (start_loop-IsTrue now s h))

pub start_briefly-IsTrue :
    (now : ℕ) (rest : List Attempt) (s : Machine) → IsTrue s → IsTrue (start_briefly now rest s)
unfolding start_briefly
start_briefly-IsTrue now rest s h =
    let begun = start_loop-IsTrue now s h in
    if_intro IsTrue (start now s.manager).0
      (λ fresh. (end_loop-IsGone rest (start_loop now s) begun).is_true) (λ old. begun)

pub sets_mode-IsTrue :
    (enabled : Bool) (s : Machine)
    → IsTrue s
    → IsTrue (record s { manager = set_long_range_mode enabled s.manager })
sets_mode-IsTrue enabled s h = record {
  kept = set_long_range_mode-Inv enabled s.manager h.kept;
  running = mode_running enabled s.manager ∙ h.running;
  connected = mode_connected enabled s.manager ∙ h.connected;
}

pub call-IsTrue : (c : Call) (s : Machine) → IsTrue s → IsTrue (call c s)
unfolding call
call-IsTrue (starts now) s h = start_loop-IsTrue now s h
call-IsTrue (stops rest) s h = (stop_loop-IsGone rest s h).is_true
call-IsTrue (sets_mode enabled) s h = sets_mode-IsTrue enabled s h
call-IsTrue (sets_notifier b) s h =
    unfold set_notifier in
    record {
      kept = unfold set_notifier in set_notifier-Inv b s.manager h.kept;
      running = h.running;
      connected = h.connected;
    }
call-IsTrue (runs attempts) s h = scan_loop-IsTrue attempts s h

abbrev pub new_machine : BotConfig.Config → Bool → Bool → Machine
new_machine cfg has_handler has_notifier = record {
  manager = new cfg has_handler has_notifier;
  phase = returned;
}

pub new_machine-IsTrue :
    (cfg : BotConfig.Config) (has_handler has_notifier : Bool)
    → IsTrue (new_machine cfg has_handler has_notifier)
new_machine-IsTrue cfg has_handler has_notifier = record {
  kept = new-Inv cfg has_handler has_notifier;
  running = unfold new in refl;
  connected = unfold new in refl;
}
