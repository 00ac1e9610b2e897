-- ===== src/Servers/Histories.antt =====
-- The bot after any sequence of requests over HTTP and the socket and of calls of its parts.
use guhfrtui.Base.{ℕ, Bool, true, List, [], ◌∷◌, Option, none, some, if◌then◌else◌, Bytes}
use guhfrtui.Cache.{Store}
use guhfrtui.Service
use guhfrtui.Service.Invariant.History.{Op, step}
use guhfrtui.BotConfig
use guhfrtui.BotReader.Machine.{Machine}
use guhfrtui.BotReader.History
use guhfrtui.BotReader.History.{new_machine}
use guhfrtui.Servers.{Bot, Moment, Request, handle_request}
use guhfrtui.Servers.Http
use guhfrtui.Servers.Http.{Route, handle}

-- A request with what it meets, a call of the service, or of the reader's manager, rounds of its loop
-- included. The EPCs that the loop reads reach the service by calls of its own.
pub data Call : Type 0 where
  over_http : Bytes → Moment → Route → Http.Request → Call
  over_socket : Moment → Request → Call
  of_service : Op → Call
  of_reader : History.Call → Call

abbrev pub with_reader : History.Call → Option Machine → Option Machine
with_reader c none = none
with_reader c (some m) = some (History.call c m)

unfoldable pub call : Call → Bot → Bot
unfolding handle handle_request step History.call
call (over_http secret w r req) b = (handle secret w r req b).1
call (over_socket w req) b = (handle_request w req b).1
call (of_service o) b = record b { service = step o b.service }
call (of_reader c) b = record b { scanner = with_reader c b.scanner }

unfoldable pub run : List Call → Bot → Bot
unfolding call
run [] b = b
run (c ∷ cs) b = run cs (call c b)

-- A server that has a reader or not, over a new service.
abbrev pub new_bot : BotConfig.Config → Bool → Service.Config → Store → ℕ → Bot
new_bot config has_reader cfg cache now = record {
  service = Service.new cfg cache now;
  scanner = if has_reader then some (new_machine config true true) else none;
}
