-- ===== src/Tests/Socket.antt =====
-- The command socket on short sequences of events.
use mini_discord.Prelude.{
  ◌-◌, ◌<◌, ◌≤◌, String, str_eq, ◌≡◌, refl, Bool, true, false, List, [], ◌∷◌, ◌++◌, some,
  range_from, inl, arith,
}
use mini_discord.Wire.Decode.{to_dm_channel}
use mini_discord.Json.{Json, lookup, undefined, null, num, str, obj, end, field}
use mini_discord.Text.{lower_contains}
use mini_discord.Socket.{
  ChatSocket, PendingCommand, resolved, rejected, response_timeout, server_error, new, connect,
  send_command, close, on_open, on_close, reconnect_delay, failed,
}
use mini_discord.Socket.Dispatch.{WsServerEvent, EchoedId, missing, own, on_message}
use mini_discord.Socket.Dispatch.Replies.{on_message-stale, Untouched}
use mini_discord.Socket.Run.{Event, step, run}
use mini_discord.Socket.Order.{promises-run, settled_promises, waiting}
use mini_discord.Socket.Timers.{timer_fired-settled, run-TimersMatch, TimersMatch}
use mini_discord.Socket.Requests.{request_ids-run, request_ids, IsLast}
use mini_discord.Socket.Progress.{run-Busy, expire_all-waiting, expire_all}
use mini_discord.Socket.Broken.{connect_broken}
use mini_discord.Socket.Reconnect.{
  reconnect_delay_bounds, on_close-losses, losses, Idle, Planned, close-run, Quiet,
}

-- all white space
abbrev blank : String → Bool
blank s = str_eq s ""

abbrev reply : String → EchoedId → Json → WsServerEvent
reply event id content = record {
  event = str event;
  request_id = id;
  error = undefined;
  content = content;
}

abbrev peer : Json
peer = obj (field "channel_id" (num 5) (field "peer_user_id" (num 9) end))

-- A connection opens, and two commands are given.
abbrev opening : List Event
opening =
    Event.connects true
    ∷ Event.opened 0
    ∷ Event.command "open_dm" (obj (field "peer_user_id" (num 9) end))
    ∷ Event.command "get_servers" (obj end)
    ∷ []

abbrev after_opening : ChatSocket
after_opening = run blank opening new

abbrev first_command : PendingCommand
first_command = record {
  action = "open_dm";
  request_id = 1;
  promise = 0;
  timeout_id = 0;
  open_dm_peer_user_id = some 9;
}

-- what a run computes with
socket : Unit {0}
unfolding run new connect send_command on_open on_close close on_message to_dm_channel lookup
socket = tt

answered :
    (run blank
      (opening ++ Event.received "" (some (reply "dm_opened" missing peer)) ∷ [])
      new).settled
    ≡ (0, resolved peer) ∷ []
unfolding socket
answered = refl

refused :
    (step blank
      (Event.received "" (some (record (reply "error" (own 1) undefined) { error = str "no" })))
      after_opening).settled
    ≡ (0, rejected (server_error (str "no"))) ∷ []
unfolding socket
refused = refl

unknown_user_info : lower_contains "unknown action" "Error: Unknown ACTION x" ≡ true
unfolding lower_contains
unknown_user_info = refl

opened-pending : after_opening.pending ≡ some first_command
unfolding socket
opened-pending = refl

promises-run_example :
    settled_promises after_opening ++ waiting after_opening
    ≡ range_from 0 after_opening.next_promise
promises-run_example = promises-run blank opening

run-TimersMatch_example : TimersMatch after_opening
run-TimersMatch_example = run-TimersMatch blank opening

timer_fired-settled_example :
    (p : PendingCommand) × (after_opening.pending ≡ some p)
    × (p.timeout_id ≡ 0)
    × ((step blank (Event.timer_fired 0 true) after_opening).settled
        ≡ after_opening.settled ++ (p.promise, rejected response_timeout) ∷ [])
unfolding socket
timer_fired-settled_example = timer_fired-settled blank opening 0 true refl

request_ids-run_example :
    (request_ids after_opening.sent ≡ range_from 1 (after_opening.next_request_id - 1))
    × IsLast after_opening.pending after_opening.next_request_id
request_ids-run_example = request_ids-run blank opening

on_message-stale_example :
    Untouched after_opening (on_message blank "" (some (reply "ack" (own 7) null)) after_opening)
unfolding socket
on_message-stale_example =
    on_message-stale blank "" (reply "ack" (own 7) null) first_command after_opening (inl refl) refl
      refl

run-Busy_example :
    (run blank (opening ++ Event.timer_fired 0 true ∷ Event.timer_fired 1 true ∷ []) new).queue ≡ []
unfolding socket
run-Busy_example =
    run-Busy blank (opening ++ Event.timer_fired 0 true ∷ Event.timer_fired 1 true ∷ []) refl refl

expire_all-waiting_example : waiting (expire_all true 2 after_opening) ≡ []
unfolding socket
expire_all-waiting_example = expire_all-waiting blank opening true 2 refl (omega arith)

reconnect_delay_bounds_example : (500 ≤ reconnect_delay 3 20) × (reconnect_delay 3 20 < 15500)
reconnect_delay_bounds_example = reconnect_delay_bounds 3 20 (omega arith)

on_close-losses_example :
    ((on_close 0 after_opening).settled
      ≡ after_opening.settled ++ losses after_opening.pending after_opening.queue)
    × Idle (on_close 0 after_opening)
    × (after_opening.closed_by_user ≡ false → Planned (on_close 0 after_opening))
on_close-losses_example = on_close-losses 0 after_opening

close-run_example :
    Quiet after_opening.next_socket (run blank (Event.shut 0 ∷ []) (close after_opening))
close-run_example = close-run blank opening (Event.shut 0 ∷ []) (tt, tt)

-- The user tries again, with a token, and a reconnection that was planned runs.
abbrev tries : List Event
tries = Event.connects true ∷ Event.timer_fired 0 true ∷ Event.command "typing" null ∷ []

connect_broken_example :
    let t = run blank tries (connect false new).0 in
    (t.next_socket ≡ 0) × (connect true t ≡ (t, failed))
unfolding socket
connect_broken_example = connect_broken blank tries true new refl refl (tt, (tt, (tt, tt)))
