-- ===== src/Socket.antt =====
-- The class `ChatSocket` of frontend/src/services/chatSocket.ts: its state and the operations on
-- the command queue, the timers and the connection. The child Dispatch is `ws.onmessage`.
--
-- The record holds the fields of the class and what the code drives in the browser: the state of
-- each WebSocket, the armed timers, the frames sent, the outcome of each command's promise and the
-- calls of listeners, each in order. WebSockets, timers and promises are numbered in the order of
-- their creation. A listener's own calls of the socket are later events.
pub mod Dispatch
pub mod Run
pub mod Order
pub mod Timers
pub mod Requests
pub mod Reconnect
pub mod Broken
pub mod Progress
use mini_discord.Prelude.{
  ℕ, suc, ◌+◌, ◌-◌, ◌*◌, ◌^◌, min, String, str_eq, ◌==◌, Bool, true, false, not, ◌&&◌, ◌||◌, List,
  [], ◌∷◌, ◌++◌, Option, none, some, if◌then◌else◌, keep, is_some,
}
use mini_discord.Json.{Json, get, as_number}
use mini_discord.Wire.{Message, MessageEmbedsEvent, MessageEditedEvent, DmChannel}

pub data ReadyState : Type 0 where
  connecting open_ closing closed : ReadyState

-- The error texts that the class itself makes, and what the server sends in `error`.
pub data Reason : Type 0 where
  response_timeout connection_closed : Reason
  server_error : Json → Reason

pub data Outcome : Type 0 where
  resolved : Json → Outcome
  rejected : Reason → Outcome

-- `promise` stands for the pair of `resolve` and `reject`.
pub record QueuedCommand : Type 0 where
  pub action : String
  pub payload : Json
  pub promise : ℕ

pub record PendingCommand : Type 0 where
  pub action : String
  pub request_id : ℕ
  pub promise : ℕ
  pub timeout_id : ℕ
  pub open_dm_peer_user_id : Option ℕ

-- `JSON.stringify` of an object with these fields; fire-and-forget frames have no request id. The
-- text `r${n}` of a request id is represented by its number.
pub record Frame : Type 0 where
  pub action : String
  pub payload : Json
  pub request_id : Option ℕ

pub data Phase : Type 0 where
  lost restored : Phase

-- A call of each listener of one set.
pub data Emission : Type 0 where
  message : Message → Emission
  message_embeds : MessageEmbedsEvent → Emission
  message_edited : MessageEditedEvent → Emission
  voice_participants : Json → Emission
  voice_user_joined voice_user_left voice_status_changed : Json → Emission
  voice_user_detached voice_user_resumed : Json → Emission
  typing : Json → Bool → Emission
  dm_opened : DmChannel → Emission
  sfu_offer sfu_answer sfu_candidate : Json → Emission
  sfu_track_published sfu_track_unpublished sfu_active_speakers : Json → Emission
  sfu_error sfu_session_closed : Json → Emission
  error : Reason → Emission
  reconnect : Phase → Emission

-- `connectionPromise`: the promise of a WebSocket's opening, or one that was rejected at once
-- because `resolveWsUrl` threw.
pub data Connection : Type 0 where
  opening : ℕ → Connection
  broken : Connection

pub record ChatSocket : Type 0 where
  pub socket : Option ℕ
  pub pending : Option PendingCommand
  pub queue : List QueuedCommand
  pub next_request_id : ℕ
  pub connection_promise : Option Connection
  pub reconnect_attempt : ℕ
  pub reconnect_timer : Option ℕ
  pub closed_by_user : Bool
  pub ready : ℕ → ReadyState
  pub next_socket : ℕ
  -- how many continuations of `scheduleReconnect` wait for a WebSocket's promise
  pub followers : ℕ → ℕ
  -- armed timers, by the function that armed them
  pub command_timers : List ℕ
  pub reconnect_timers : List ℕ
  pub next_timer : ℕ
  pub next_promise : ℕ
  pub sent : List Frame
  pub settled : List (ℕ × Outcome)
  pub emitted : List Emission

unfoldable pub new : ChatSocket
new = record {
  socket = none;
  pending = none;
  queue = [];
  next_request_id = 1;
  connection_promise = none;
  reconnect_attempt = 0;
  reconnect_timer = none;
  closed_by_user = false;
  ready = λ _. closed;
  next_socket = 0;
  followers = λ _. 0;
  command_timers = [];
  reconnect_timers = [];
  next_timer = 0;
  next_promise = 0;
  sent = [];
  settled = [];
  emitted = [];
}

abbrev pub update {ℓ} : {A : Type ℓ} → (ℕ → A) → ℕ → A → ℕ → A
update f k v n = if n == k then v else f n

abbrev pub is_open_state : ReadyState → Bool
is_open_state open_ = true
is_open_state _ = false

-- `this.socket && this.socket.readyState === WebSocket.OPEN`
abbrev pub socket_open : Option ℕ → (ℕ → ReadyState) → Bool
socket_open none ready = false
socket_open (some w) ready = is_open_state (ready w)

unfoldable pub is_open : ChatSocket → Bool
is_open s = socket_open s.socket s.ready

abbrev pub emit : Emission → ChatSocket → ChatSocket
emit e s = record s { emitted = s.emitted ++ e ∷ [] }

abbrev pub remove : ℕ → List ℕ → List ℕ
remove t = keep (λ x. not (x == t))

unfoldable pub clear_timeout : ℕ → ChatSocket → ChatSocket
clear_timeout t s = record s {
  command_timers = remove t s.command_timers;
  reconnect_timers = remove t s.reconnect_timers;
}

-- `pending.resolve` and `pending.reject`: the closures that `flushQueue` made.
unfoldable pub settle : PendingCommand → Outcome → ChatSocket → ChatSocket
unfolding clear_timeout
settle p outcome s =
    let cleared = clear_timeout p.timeout_id s in
    record cleared { settled = cleared.settled ++ (p.promise, outcome) ∷ [] }

abbrev peer_of : QueuedCommand → Option ℕ
peer_of next =
    if str_eq next.action "open_dm" then as_number (get "peer_user_id" next.payload) else none

abbrev pending_of : QueuedCommand → ChatSocket → PendingCommand
pending_of next s = record {
  action = next.action;
  request_id = s.next_request_id;
  promise = next.promise;
  timeout_id = s.next_timer;
  open_dm_peer_user_id = peer_of next;
}

abbrev frame_of : QueuedCommand → ℕ → Frame
frame_of next request_id = record {
  action = next.action;
  payload = next.payload;
  request_id = some request_id;
}

-- the part of `flushQueue` behind its guard
unfoldable pub send_next : List QueuedCommand → ChatSocket → ChatSocket
send_next [] s = s
send_next (next ∷ rest) s = record s {
  queue = rest;
  next_request_id = suc s.next_request_id;
  command_timers = s.command_timers ++ s.next_timer ∷ [];
  next_timer = suc s.next_timer;
  pending = some (pending_of next s);
  sent = s.sent ++ frame_of next s.next_request_id ∷ [];
}

unfoldable pub flush_queue : ChatSocket → ChatSocket
unfolding is_open send_next
flush_queue s = if not (is_open s) || is_some s.pending then s else send_next s.queue s

-- `this.pending.resolve(…)` or `.reject(…)`, `this.pending = null`, `this.flushQueue()`
unfoldable pub finish : PendingCommand → Outcome → ChatSocket → ChatSocket
unfolding settle flush_queue
finish p outcome s = flush_queue (record (settle p outcome s) { pending = none })

abbrev timed_out : PendingCommand → ChatSocket → ChatSocket
timed_out p s =
    emit (error response_timeout)
      (settle p (rejected response_timeout) (record s { pending = none }))

-- The callback of the timer that `flushQueue` arms. The timer has fired, so it is armed no more.
expire : Option PendingCommand → ChatSocket → ChatSocket
unfolding settle flush_queue
expire none s = s
expire (some p) s = flush_queue (timed_out p s)

abbrev fired : ℕ → ChatSocket → ChatSocket
fired t s = record s { command_timers = remove t s.command_timers }

unfoldable pub command_timeout : ℕ → ChatSocket → ChatSocket
unfolding expire
command_timeout t s = expire s.pending (fired t s)

reject_pending : Option PendingCommand → Reason → ChatSocket → ChatSocket
unfolding settle clear_timeout
reject_pending none reason s = s
reject_pending (some p) reason s =
    record (settle p (rejected reason) (clear_timeout p.timeout_id s)) { pending = none }

abbrev pub reject_each : Reason → List QueuedCommand → List (ℕ × Outcome)
reject_each reason [] = []
reject_each reason (c ∷ cs) = (c.promise, rejected reason) ∷ reject_each reason cs

unfoldable pub reject_all_pending : Reason → ChatSocket → ChatSocket
unfolding reject_pending
reject_all_pending reason s =
    let t = reject_pending s.pending reason s in
    record t { queue = []; settled = t.settled ++ reject_each reason t.queue }

abbrev pub delay_base : ℕ → ℕ
delay_base attempt = min 15000 (500 * 2 ^ (attempt - 1))

-- The delay that `scheduleReconnect` asks for; `jitter` is `Math.floor(Math.random() * 500)`.
unfoldable pub reconnect_delay : ℕ → ℕ → ℕ
reconnect_delay attempt jitter = delay_base attempt + jitter

unfoldable pub schedule_reconnect : ChatSocket → ChatSocket
schedule_reconnect s = if s.closed_by_user || is_some s.reconnect_timer then s else record s {
  reconnect_attempt = suc s.reconnect_attempt;
  reconnect_timer = some s.next_timer;
  reconnect_timers = s.reconnect_timers ++ s.next_timer ∷ [];
  next_timer = suc s.next_timer;
}

-- What a call of `connect` returns: a resolved promise, that of a WebSocket, or a rejected one.
pub data Promised : Type 0 where
  done failed : Promised
  wait : ℕ → Promised

abbrev promised : Connection → Promised
promised (opening w) = wait w
promised broken = failed

-- the executor of the promise; without a valid token `resolveWsUrl` throws
open_socket : Bool → ChatSocket → ChatSocket × Promised
open_socket false s = (record s { connection_promise = some broken }, failed)
open_socket true s = (
  record s {
    socket = some s.next_socket;
    ready = update s.ready s.next_socket connecting;
    followers = update s.followers s.next_socket 0;
    next_socket = suc s.next_socket;
    connection_promise = some (opening s.next_socket);
  },
  wait s.next_socket,
)

connect_again : Option Connection → Bool → ChatSocket → ChatSocket × Promised
unfolding open_socket
connect_again (some c) token s = (s, promised c)
connect_again none token s = open_socket token (record s { closed_by_user = false })

-- `token` says whether `getValidAccessToken()` returns one at this moment.
unfoldable pub connect : Bool → ChatSocket → ChatSocket × Promised
unfolding is_open connect_again
connect token s = if is_open s then (s, done) else connect_again s.connection_promise token s

-- the `.then` of `scheduleReconnect`
abbrev pub reconnected : ChatSocket → ChatSocket
reconnected s = emit (reconnect restored) (record s { reconnect_attempt = 0 })

-- `.then(…).catch(…)` on what `connect` returned
follow : ChatSocket × Promised → ChatSocket
unfolding schedule_reconnect
follow (s, done) = reconnected s
follow (s, failed) = schedule_reconnect s
follow (s, wait w) = record s { followers = update s.followers w (suc (s.followers w)) }

abbrev retried : ℕ → ChatSocket → ChatSocket
retried t s = record s { reconnect_timers = remove t s.reconnect_timers; reconnect_timer = none }

-- The callback of the timer that `scheduleReconnect` arms.
unfoldable pub reconnect_now : Bool → ℕ → ChatSocket → ChatSocket
unfolding connect follow
reconnect_now token t s = follow (connect token (retried t s))

-- `n` continuations run, one after the other.
unfoldable pub repeat : (ChatSocket → ChatSocket) → ℕ → ChatSocket → ChatSocket
repeat f ℕ.zero s = s
repeat f (suc n) s = repeat f n (f s)

abbrev opened : ℕ → ChatSocket → ChatSocket
opened w s = record s { ready = update s.ready w open_; connection_promise = none }

abbrev failed_to_open : ℕ → ChatSocket → ChatSocket
failed_to_open w s = record s { ready = update s.ready w closed; connection_promise = none }

-- `ws.onopen`, then the continuations of the promise that it resolves.
unfoldable pub on_open : ℕ → ChatSocket → ChatSocket
unfolding flush_queue repeat
on_open w s = record (repeat reconnected (s.followers w) (flush_queue (opened w s))) {
  followers = update s.followers w 0;
}

-- `ws.onerror`, then the continuations of the promise that it rejects.
unfoldable pub on_error : ℕ → ChatSocket → ChatSocket
unfolding schedule_reconnect repeat
on_error w s = record (repeat schedule_reconnect (s.followers w) (failed_to_open w s)) {
  followers = update s.followers w 0;
}

-- `ws.onclose`
unfoldable pub on_close : ℕ → ChatSocket → ChatSocket
unfolding reject_all_pending schedule_reconnect
on_close w s =
    let t = reject_all_pending connection_closed (failed_to_open w s) in
    if t.closed_by_user then t else schedule_reconnect (emit (reconnect lost) t)

clear_reconnect : Option ℕ → ChatSocket → ChatSocket
unfolding clear_timeout
clear_reconnect none s = s
clear_reconnect (some t) s = record (clear_timeout t s) { reconnect_timer = none }

-- `WebSocket.close` does nothing where the WebSocket is closed.
abbrev closing_of : ReadyState → ReadyState
closing_of closed = closed
closing_of _ = closing

-- `this.socket?.close()`
abbrev close_ready : Option ℕ → (ℕ → ReadyState) → ℕ → ReadyState
close_ready none ready = ready
close_ready (some w) ready = update ready w (closing_of (ready w))

abbrev before_close : ChatSocket → ChatSocket
unfolding clear_reconnect
before_close s = record (clear_reconnect s.reconnect_timer (record s { closed_by_user = true })) {
  connection_promise = none;
}

unfoldable pub close : ChatSocket → ChatSocket
unfolding clear_reconnect reject_all_pending
close s =
    let t = reject_all_pending connection_closed (before_close s) in
    record t { ready = close_ready t.socket t.ready; socket = none }

abbrev enqueued : String → Json → ChatSocket → ChatSocket
enqueued action payload s = record s {
  queue = s.queue ++ record { action = action; payload = payload; promise = s.next_promise } ∷ [];
  next_promise = suc s.next_promise;
}

submit : Bool → String → Json → ChatSocket → ChatSocket × Option ℕ
unfolding flush_queue
submit false action payload s = (s, none)
submit true action payload s = (flush_queue (enqueued action payload s), some s.next_promise)

-- `sendCommand`: the number of the new promise, or `none` for one that is rejected at once.
unfoldable pub send_command : String → Json → ChatSocket → ChatSocket × Option ℕ
unfolding is_open submit
send_command action payload s = submit (is_open s) action payload s

-- `sendTyping`, `sendMarkRead` and `sendSfuCandidate`: past the queue, with no reply.
unfoldable pub send_frame : String → Json → ChatSocket → ChatSocket
unfolding is_open
send_frame action payload s =
    if is_open s
    then record s {
      sent = s.sent ++ record { action = action; payload = payload; request_id = none } ∷ [];
    }
    else s
