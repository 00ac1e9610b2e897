-- ===== src/BotReader/Machine.antt =====
-- manager.go: the manager with the goroutine of its loop, and Start and Stop with what they do to it.
use guhfrtui.Base.{ℕ, List, [], ◌∷◌, if◌then◌else◌}
use guhfrtui.BotReader.{Manager, start, stop, finish_stopped}
use guhfrtui.BotReader.Loop.{
  Attempt, Step, again, receiving, returned, round, after_tags, consume_tags, disconnected,
}

-- `phase` is where the goroutine is: at the head of the loop, receiving in consumeTags, or gone.
pub record Machine : Type 0 where
  pub manager : Manager
  pub phase : Step

abbrev pub machine_of : Step × Manager → Machine
machine_of (step, m) = record { manager = m; phase = step }

-- The end of the loop runs finishStopped.
abbrev pub settled : Step × Manager → Machine
settled (again, m) = record { manager = m; phase = again }
settled (receiving, m) = record { manager = m; phase = receiving }
settled (returned, m) = record { manager = finish_stopped m; phase = returned }

-- A round from the head, or more events of the round that receives.
unfoldable pub next_round : Attempt → Step → Manager → Machine
unfolding round consume_tags disconnected finish_stopped
next_round a again m = settled (round a m)
next_round a receiving m = settled (after_tags a (consume_tags a.events m))
next_round a returned m = record { manager = m; phase = returned }

unfoldable pub scan_loop : List Attempt → Machine → Machine
unfolding next_round
scan_loop [] s = s
scan_loop (a ∷ rest) s = scan_loop rest (next_round a s.phase s.manager)

-- The loop sees that its context is done.
unfoldable pub cancelled : Step → Manager → Machine
unfolding disconnected finish_stopped
cancelled again m = settled (returned, m)
cancelled receiving m = settled (returned, disconnected m)
cancelled returned m = record { manager = m; phase = returned }

-- The end of a loop whose context is done: `rest` is what it still does before it sees that.
unfoldable pub end_loop : List Attempt → Machine → Machine
unfolding scan_loop cancelled
end_loop rest s = let s' = scan_loop rest s in cancelled s'.phase s'.manager

unfoldable pub start_loop : ℕ → Machine → Machine
unfolding start
start_loop now s =
    let (begun, m) = start now s.manager in
    record { manager = m; phase = if begun then again else s.phase }

-- Stop returns when the loop has.
unfoldable pub stop_loop : List Attempt → Machine → Machine
unfolding stop end_loop
stop_loop rest s =
    let ((cancels, waits), m) = stop s.manager in
    let s' = record s { manager = m } in if waits then end_loop rest s' else s'

-- Start with a context that is done soon: a loop that it begins ends again, one that runs goes on.
unfoldable pub start_briefly : ℕ → List Attempt → Machine → Machine
start_briefly now rest s =
    let s' = start_loop now s in if (start now s.manager).0 then end_loop rest s' else s'
