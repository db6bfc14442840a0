-- ===== src/Socket/Progress.antt =====
-- No command waits for ever: the queue moves on whenever the socket is open, and time limits settle
-- what the server leaves unanswered.
use mini_discord.Prelude.{
  ℕ, zero, suc, ◌≤◌, String, ◌≡◌, refl, sym, Bool, true, false, List, [], ◌∷◌, Option, none, some,
  includes, length, subst, arith, Bool-cases, inl, inr,
}
use mini_discord.Socket.{
  ChatSocket, QueuedCommand, PendingCommand, Outcome, Reason, Emission, emit, new, settle,
  flush_queue, finish, expire, command_timeout, reject_pending, reject_all_pending,
  schedule_reconnect, connect, reconnected, reconnect_now, repeat, on_open, on_error, on_close,
  clear_reconnect, close, submit, send_command, send_frame, is_open,
}
use mini_discord.Socket
use mini_discord.Socket.Order.{waiting}
use mini_discord.Socket.Timers.{TimersMatch, run-TimersMatch, fire-TimersMatch}
use mini_discord.Socket.Dispatch.Induction.{on_message_ind}
use mini_discord.Socket.Run.{Event, step, run, fire}

-- Over an open socket a command waits in the queue only behind one that is in flight.
abbrev pub Busy : ChatSocket → Type 0
Busy s = is_open s ≡ true → s.pending ≡ none → s.queue ≡ []

flush_queue-Busy : (s : ChatSocket) → Busy (flush_queue s)
unfolding flush_queue
flush_queue-Busy s = ground arith

reject_all_pending-empty : (r : Reason) (s : ChatSocket) → (reject_all_pending r s).queue ≡ []
unfolding reject_all_pending
reject_all_pending-empty r s = refl

schedule_reconnect-Busy : (s : ChatSocket) → Busy s → Busy (schedule_reconnect s)
unfolding schedule_reconnect is_open
schedule_reconnect-Busy s h = ground arith

connect-Busy : (token : Bool) (s : ChatSocket) → Busy s → Busy (connect token s).0
unfolding connect is_open
connect-Busy token s h = ground arith

reconnect_now-Busy :
    (token : Bool) (t : ℕ) (s : ChatSocket) → Busy s → Busy (reconnect_now token t s)
unfolding reconnect_now is_open
reconnect_now-Busy token t s h = ground arith

follow_up-Busy :
    (f : ChatSocket → ChatSocket)
    → ((s : ChatSocket) → Busy s → Busy (f s))
    → (n : ℕ) (s : ChatSocket) → Busy s
    → Busy (repeat f n s)
unfolding repeat
follow_up-Busy f keeps ℕ.zero s h = h
follow_up-Busy f keeps (suc n) s h = follow_up-Busy f keeps n (f s) (keeps s h)

on_open-Busy : (w : ℕ) (s : ChatSocket) → Busy (on_open w s)
unfolding on_open is_open
on_open-Busy w s =
    follow_up-Busy reconnected (λ t h. h) (s.followers w) (flush_queue (Socket.opened w s))
      (flush_queue-Busy (Socket.opened w s))

failed_to_open-Busy : (w : ℕ) (s : ChatSocket) → Busy s → Busy (Socket.failed_to_open w s)
unfolding is_open
failed_to_open-Busy w s h = ground arith

on_error-Busy : (w : ℕ) (s : ChatSocket) → Busy s → Busy (on_error w s)
unfolding on_error is_open
on_error-Busy w s h =
    follow_up-Busy schedule_reconnect schedule_reconnect-Busy (s.followers w)
      (Socket.failed_to_open w s) (failed_to_open-Busy w s h)

on_close-Busy : (w : ℕ) (s : ChatSocket) → Busy (on_close w s)
unfolding on_close schedule_reconnect
on_close-Busy w s =
    ground (arith, reject_all_pending-empty Reason.connection_closed (Socket.failed_to_open w s))

close-Busy : (s : ChatSocket) → Busy (close s)
unfolding close
close-Busy s _ _ = reject_all_pending-empty Reason.connection_closed (Socket.before_close s)

submit-Busy :
    (open_ : Bool) (action : String) (payload : Socket.Json) (s : ChatSocket)
    → Busy s
    → Busy (submit open_ action payload s).0
unfolding submit
submit-Busy false action payload s h = h
submit-Busy true action payload s h = flush_queue-Busy (Socket.enqueued action payload s)

expire-Busy : (p : Option PendingCommand) (s : ChatSocket) → Busy s → Busy (expire p s)
unfolding expire
expire-Busy none s h = h
expire-Busy (some p) s h = flush_queue-Busy (Socket.timed_out p s)

fire-Busy : (t : ℕ) (token : Bool) (s : ChatSocket) → Busy s → Busy (fire t token s)
unfolding fire command_timeout is_open
fire-Busy t token s h = elim (Bool-cases (includes t s.command_timers)) [
  | inl e ↦ rw e (expire-Busy s.pending (Socket.fired t s) h)
  | inr e ↦ rw e (elim (Bool-cases (includes t s.reconnect_timers)) [
    | inl r ↦ rw r (reconnect_now-Busy token t s h)
    | inr r ↦ rw r h
  ])
]

step-Busy : (blank : String → Bool) (e : Event) (s : ChatSocket) → Busy s → Busy (step blank e s)
unfolding step send_command send_frame is_open finish
step-Busy blank (Event.command action payload) s h = submit-Busy (is_open s) action payload s h
step-Busy blank (Event.frame action payload) s h = ground arith
step-Busy blank (Event.connects token) s h = connect-Busy token s h
step-Busy blank Event.closes s h = close-Busy s
step-Busy blank (Event.opened w) s h = on_open-Busy w s
step-Busy blank (Event.errored w) s h = on_error-Busy w s h
step-Busy blank (Event.shut w) s h = on_close-Busy w s
step-Busy blank (Event.received now m) s h =
    on_message_ind Busy (λ e t k. k)
      (λ p o t e k. flush_queue-Busy (record (settle p o t) { pending = none })) blank now m s h
step-Busy blank (Event.timer_fired t token) s h = fire-Busy t token s h

run_from-Busy :
    (blank : String → Bool) (es : List Event) (s : ChatSocket) → Busy s → Busy (run blank es s)
unfolding run
run_from-Busy blank [] s h = h
run_from-Busy blank (e ∷ es) s h = run_from-Busy blank es (step blank e s) (step-Busy blank e s h)

-- After any events, over an open socket, a command is queued only while another is in flight.
pub run-Busy :
    (blank : String → Bool) (es : List Event)
    → is_open (run blank es new) ≡ true
    → (run blank es new).pending ≡ none
    → (run blank es new).queue ≡ []
unfolding new
run-Busy blank es = run_from-Busy blank es new (λ _ _. refl)

-- The time limit of the pending command fires.
fire_for : Option PendingCommand → Bool → ChatSocket → ChatSocket
unfolding fire
fire_for none token s = s
fire_for (some p) token s = fire p.timeout_id token s

expire_pending : Bool → ChatSocket → ChatSocket
unfolding fire_for
expire_pending token s = fire_for s.pending token s

-- As often as told.
pub expire_all : Bool → ℕ → ChatSocket → ChatSocket
unfolding expire_pending
expire_all token zero s = s
expire_all token (suc n) s = expire_all token n (expire_pending token s)

tail : List ℕ → List ℕ
tail [] = []
tail (x ∷ xs) = xs

length-tail : (n : ℕ) (xs : List ℕ) → length xs ≤ suc n → length (tail xs) ≤ n
unfolding tail
length-tail n [] h = omega arith
length-tail n (x ∷ xs) h = omega arith

empty_of_length : (xs : List ℕ) → length xs ≤ 0 → xs ≡ []
empty_of_length [] h = refl
empty_of_length (x ∷ xs) h = absurd (omega arith)

expire_pending-waiting :
    (token : Bool) (s : ChatSocket)
    → TimersMatch s
    → Busy s
    → is_open s ≡ true
    → (waiting (expire_pending token s) ≡ tail (waiting s))
      × Busy (expire_pending token s)
      × (is_open (expire_pending token s) ≡ true)
unfolding expire_pending command_timeout expire is_open tail
expire_pending-waiting token s k h o = ground arith

fire_for-TimersMatch :
    (p : Option PendingCommand) (token : Bool) (s : ChatSocket)
    → TimersMatch s
    → TimersMatch (fire_for p token s)
unfolding fire_for
fire_for-TimersMatch none token s k = k
fire_for-TimersMatch (some p) token s k = fire-TimersMatch p.timeout_id token s k

expire_pending-TimersMatch :
    (token : Bool) (s : ChatSocket) → TimersMatch s → TimersMatch (expire_pending token s)
unfolding expire_pending
expire_pending-TimersMatch token s k = fire_for-TimersMatch s.pending token s k

drain :
    (token : Bool) (n : ℕ) (s : ChatSocket)
    → TimersMatch s
    → Busy s
    → is_open s ≡ true
    → length (waiting s) ≤ n
    → waiting (expire_all token n s) ≡ []
unfolding expire_all
drain token zero s k h o l = empty_of_length (waiting s) l
drain token (suc n) s k h o l =
    let (w, b, p) = expire_pending-waiting token s k h o in
    drain token n (expire_pending token s) (expire_pending-TimersMatch token s k) b p
      (subst (λ xs. length xs ≤ n) (sym w) (length-tail n (waiting s) l))

-- From any state that events lead to, with the socket open, as many time limits as there are
-- commands waiting, fired one after the other, settle them all: nothing waits for ever.
pub expire_all-waiting :
    (blank : String → Bool) (es : List Event) (token : Bool) (n : ℕ)
    → is_open (run blank es new) ≡ true
    → length (waiting (run blank es new)) ≤ n
    → waiting (expire_all token n (run blank es new)) ≡ []
expire_all-waiting blank es token n =
    drain token n (run blank es new) (run-TimersMatch blank es) (run-Busy blank es)
