-- ===== src/Socket/Run.antt =====
-- `ChatSocket` under a sequence of events: the calls of its methods, and what the browser does.
use mini_discord.Prelude.{ℕ, String, Bool, List, [], ◌∷◌, Option, if◌then◌else◌, includes}
use mini_discord.Json.{Json}
use mini_discord.Socket.{
  ChatSocket, connect, close, send_command, send_frame, on_open, on_error, on_close,
  command_timeout, reconnect_now,
}
use mini_discord.Socket.Dispatch.{WsServerEvent, on_message}

pub data Event : Type 0 where
  command frame : String → Json → Event
  connects : Bool → Event
  closes : Event
  opened errored shut : ℕ → Event
  received : String → Option WsServerEvent → Event
  -- the Boolean says whether there is a valid token at that moment
  timer_fired : ℕ → Bool → Event

-- Only an armed timer fires.
unfoldable pub fire : ℕ → Bool → ChatSocket → ChatSocket
unfolding command_timeout reconnect_now
fire t token s =
    if includes t s.command_timers
    then command_timeout t s
    else if includes t s.reconnect_timers
    then reconnect_now token t s
    else s

unfoldable pub step : (String → Bool) → Event → ChatSocket → ChatSocket
unfolding fire
step blank (command action payload) s = (send_command action payload s).0
step blank (frame action payload) s = send_frame action payload s
step blank (connects token) s = (connect token s).0
step blank closes s = close s
step blank (opened w) s = on_open w s
step blank (errored w) s = on_error w s
step blank (shut w) s = on_close w s
step blank (received now m) s = on_message blank now m s
step blank (timer_fired t token) s = fire t token s

unfoldable pub run : (String → Bool) → List Event → ChatSocket → ChatSocket
unfolding step
run blank [] s = s
run blank (e ∷ es) s = run blank es (step blank e s)
