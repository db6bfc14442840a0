-- ===== src/Socket/Timers.antt =====
-- The timers of `ChatSocket`: which are armed, and for what.
use mini_discord.Prelude.{
  ℕ, suc, ◌<◌, String, ◌≡◌, ◌≢◌, refl, subst, Bool, true, false, List, [], ◌∷◌, ◌++◌, Option, none,
  some, includes, arith, Bool-cases, inl, inr,
}
use mini_discord.Socket.{
  ChatSocket, PendingCommand, Outcome, Reason, Emission, emit, new, settle, flush_queue, finish,
  expire, command_timeout, reject_pending, reject_all_pending, schedule_reconnect, connect,
  reconnected, reconnect_now, repeat, on_open, on_error, on_close, clear_reconnect, close, submit,
  send_command, send_frame, is_open,
}
use mini_discord.Socket
use mini_discord.Socket.Dispatch.Induction.{on_message_ind}
use mini_discord.Socket.Run.{Event, step, run, fire}

abbrev pub timeout_of : Option PendingCommand → List ℕ
timeout_of none = []
timeout_of (some p) = p.timeout_id ∷ []

abbrev pub listed : Option ℕ → List ℕ
listed none = []
listed (some t) = t ∷ []

abbrev Below : ℕ → List ℕ → Type 0
Below n [] = Unit {0}
Below n (t ∷ ts) = (t < n) × Below n ts

abbrev Apart : Option PendingCommand → Option ℕ → Type 0
Apart (some p) (some t) = p.timeout_id ≢ t
Apart _ _ = Unit {0}

-- The armed timers are the time limit of the pending command and the planned reconnection.
pub record TimersMatch (s : ChatSocket) : Type 0 where
  pub limits : s.command_timers ≡ timeout_of s.pending
  pub retries : s.reconnect_timers ≡ listed s.reconnect_timer
  pub old_limits : Below s.next_timer (timeout_of s.pending)
  pub old_retries : Below s.next_timer (listed s.reconnect_timer)
  pub apart : Apart s.pending s.reconnect_timer

emit-TimersMatch : (e : Emission) (s : ChatSocket) → TimersMatch s → TimersMatch (emit e s)
emit-TimersMatch e s h = record {
  limits = h.limits;
  retries = h.retries;
  old_limits = h.old_limits;
  old_retries = h.old_retries;
  apart = h.apart;
}

flush_queue-settled : (s : ChatSocket) → (flush_queue s).settled ≡ s.settled
unfolding flush_queue
flush_queue-settled s = ground arith

flush_queue-TimersMatch : (s : ChatSocket) → TimersMatch s → TimersMatch (flush_queue s)
unfolding flush_queue
flush_queue-TimersMatch s h = ground arith

settle-TimersMatch :
    (p : PendingCommand) (o : Outcome) (s : ChatSocket)
    → s.pending ≡ some p
    → TimersMatch s
    → TimersMatch (record (settle p o s) { pending = none })
unfolding settle
settle-TimersMatch p o s e h = ground arith

reject_pending-TimersMatch :
    (p : Option PendingCommand) (r : Reason) (s : ChatSocket)
    → s.pending ≡ p
    → TimersMatch s
    → TimersMatch (reject_pending p r s)
unfolding reject_pending
reject_pending-TimersMatch none r s e h = h
reject_pending-TimersMatch (some p) r s e h = ground arith

schedule_reconnect-TimersMatch :
    (s : ChatSocket) → TimersMatch s → TimersMatch (schedule_reconnect s)
unfolding schedule_reconnect
schedule_reconnect-TimersMatch s h = ground arith

connect-TimersMatch :
    (token : Bool) (s : ChatSocket) → TimersMatch s → TimersMatch (connect token s).0
unfolding connect
connect-TimersMatch token s h = ground arith

finish-TimersMatch :
    (p : PendingCommand) (o : Outcome) (s : ChatSocket)
    → s.pending ≡ some p
    → TimersMatch s
    → TimersMatch (finish p o s)
unfolding finish
finish-TimersMatch p o s e h =
    flush_queue-TimersMatch (record (settle p o s) { pending = none })
      (settle-TimersMatch p o s e h)

late-TimersMatch :
    (t : ℕ) (p : PendingCommand) (s : ChatSocket)
    → s.pending ≡ some p
    → TimersMatch s
    → TimersMatch (Socket.timed_out p (Socket.fired t s))
unfolding settle
late-TimersMatch t p s e h = ground arith

expire-TimersMatch :
    (t : ℕ) (p : Option PendingCommand) (s : ChatSocket)
    → s.pending ≡ p
    → TimersMatch s
    → TimersMatch (expire p (Socket.fired t s))
unfolding expire
expire-TimersMatch t none s e h = ground arith
expire-TimersMatch t (some p) s e h =
    flush_queue-TimersMatch (Socket.timed_out p (Socket.fired t s)) (late-TimersMatch t p s e h)

reject_all_pending-TimersMatch :
    (r : Reason) (s : ChatSocket) → TimersMatch s → TimersMatch (reject_all_pending r s)
unfolding reject_all_pending
reject_all_pending-TimersMatch r s h =
    let k = reject_pending-TimersMatch s.pending r s refl h in
    record {
      limits = k.limits;
      retries = k.retries;
      old_limits = k.old_limits;
      old_retries = k.old_retries;
      apart = k.apart;
    }

repeat-TimersMatch :
    (f : ChatSocket → ChatSocket)
    → ((s : ChatSocket) → TimersMatch s → TimersMatch (f s))
    → (n : ℕ) (s : ChatSocket) → TimersMatch s
    → TimersMatch (repeat f n s)
unfolding repeat
repeat-TimersMatch f keeps ℕ.zero s h = h
repeat-TimersMatch f keeps (suc n) s h = repeat-TimersMatch f keeps n (f s) (keeps s h)

follow-TimersMatch :
    (r : ChatSocket × Socket.Promised) → TimersMatch r.0 → TimersMatch (Socket.follow r)
unfolding Socket.follow
follow-TimersMatch (s, Socket.done) h = ground arith
follow-TimersMatch (s, Socket.failed) h = schedule_reconnect-TimersMatch s h
follow-TimersMatch (s, Socket.wait w) h = ground arith

reconnect_now-TimersMatch :
    (token : Bool) (t : ℕ) (s : ChatSocket)
    → includes t s.reconnect_timers ≡ true
    → TimersMatch s
    → TimersMatch (reconnect_now token t s)
unfolding reconnect_now
reconnect_now-TimersMatch token t s e h =
    follow-TimersMatch (connect token (Socket.retried t s))
      (connect-TimersMatch token (Socket.retried t s) (ground arith))

reconnected-TimersMatch : (s : ChatSocket) → TimersMatch s → TimersMatch (reconnected s)
reconnected-TimersMatch s h =
    emit-TimersMatch (Emission.reconnect Socket.restored) (record s { reconnect_attempt = 0 })
      (ground arith)

on_open-TimersMatch : (w : ℕ) (s : ChatSocket) → TimersMatch s → TimersMatch (on_open w s)
unfolding on_open
on_open-TimersMatch w s h = ground (
  arith,
  repeat-TimersMatch reconnected reconnected-TimersMatch (s.followers w)
      (flush_queue (Socket.opened w s)),
  flush_queue-TimersMatch (Socket.opened w s),
)

on_error-TimersMatch : (w : ℕ) (s : ChatSocket) → TimersMatch s → TimersMatch (on_error w s)
unfolding on_error
on_error-TimersMatch w s h = ground (
  arith,
  repeat-TimersMatch schedule_reconnect schedule_reconnect-TimersMatch (s.followers w)
      (Socket.failed_to_open w s),
)

on_close-TimersMatch : (w : ℕ) (s : ChatSocket) → TimersMatch s → TimersMatch (on_close w s)
unfolding on_close schedule_reconnect
on_close-TimersMatch w s h =
    ground
      (arith, reject_all_pending-TimersMatch Reason.connection_closed (Socket.failed_to_open w s))

before_close-TimersMatch : (s : ChatSocket) → TimersMatch s → TimersMatch (Socket.before_close s)
unfolding clear_reconnect
before_close-TimersMatch s h = ground arith

close-TimersMatch : (s : ChatSocket) → TimersMatch s → TimersMatch (close s)
unfolding close
close-TimersMatch s h = ground (
  arith,
  reject_all_pending-TimersMatch Reason.connection_closed (Socket.before_close s),
  before_close-TimersMatch s,
)

submit-TimersMatch :
    (open_ : Bool) (action : String) (payload : Socket.Json) (s : ChatSocket)
    → TimersMatch s
    → TimersMatch (submit open_ action payload s).0
unfolding submit
submit-TimersMatch false action payload s h = h
submit-TimersMatch true action payload s h =
    flush_queue-TimersMatch (Socket.enqueued action payload s) (ground arith)

pub fire-TimersMatch :
    (t : ℕ) (token : Bool) (s : ChatSocket) → TimersMatch s → TimersMatch (fire t token s)
unfolding fire command_timeout
fire-TimersMatch t token s h = elim (Bool-cases (includes t s.command_timers)) [
  | inl e ↦ rw e (expire-TimersMatch t s.pending s refl h)
  | inr e ↦ rw e (elim (Bool-cases (includes t s.reconnect_timers)) [
    | inl r ↦ rw r (reconnect_now-TimersMatch token t s r h)
    | inr r ↦ rw r h
  ])
]

step-TimersMatch :
    (blank : String → Bool) (e : Event) (s : ChatSocket)
    → TimersMatch s
    → TimersMatch (step blank e s)
unfolding step send_command send_frame
step-TimersMatch blank (Event.command action payload) s h =
    submit-TimersMatch (is_open s) action payload s h
step-TimersMatch blank (Event.frame action payload) s h = ground arith
step-TimersMatch blank (Event.connects token) s h = connect-TimersMatch token s h
step-TimersMatch blank Event.closes s h = close-TimersMatch s h
step-TimersMatch blank (Event.opened w) s h = on_open-TimersMatch w s h
step-TimersMatch blank (Event.errored w) s h = on_error-TimersMatch w s h
step-TimersMatch blank (Event.shut w) s h = on_close-TimersMatch w s h
step-TimersMatch blank (Event.received now m) s h =
    on_message_ind TimersMatch emit-TimersMatch finish-TimersMatch blank now m s h
step-TimersMatch blank (Event.timer_fired t token) s h = fire-TimersMatch t token s h

run_from-TimersMatch :
    (blank : String → Bool) (es : List Event) (s : ChatSocket)
    → TimersMatch s
    → TimersMatch (run blank es s)
unfolding run
run_from-TimersMatch blank [] s h = h
run_from-TimersMatch blank (e ∷ es) s h =
    run_from-TimersMatch blank es (step blank e s) (step-TimersMatch blank e s h)

-- After any events the armed timers are the time limit of the pending command, if one is pending,
-- and the planned reconnection, if one is planned: no other is armed, and none is armed twice.
pub run-TimersMatch : (blank : String → Bool) (es : List Event) → TimersMatch (run blank es new)
unfolding new
run-TimersMatch blank es = run_from-TimersMatch blank es new (ground arith)

-- The pending command that a time limit was armed for.
limited :
    (t : ℕ) (o : Option PendingCommand)
    → includes t (timeout_of o) ≡ true
    → (p : PendingCommand) × (o ≡ some p) × (p.timeout_id ≡ t)
limited t none h = cc
limited t (some p) h = (p, refl, ground arith)

expire-settled :
    (t : ℕ) (p : PendingCommand) (s : ChatSocket)
    → s.pending ≡ some p
    → (expire s.pending (Socket.fired t s)).settled
      ≡ s.settled ++ (p.promise, Outcome.rejected Reason.response_timeout) ∷ []
unfolding expire
expire-settled t p s e = rw e (flush_queue-settled (Socket.timed_out p (Socket.fired t s)))

-- A time limit that fires after any events rejects the command that is pending, which is the one
-- that it was armed for, with the timeout error, and no other.
pub timer_fired-settled :
    (blank : String → Bool) (es : List Event) (t : ℕ) (token : Bool)
    → includes t (run blank es new).command_timers ≡ true
    → (p : PendingCommand) × ((run blank es new).pending ≡ some p)
      × (p.timeout_id ≡ t)
      × ((step blank (Event.timer_fired t token) (run blank es new)).settled
          ≡ (run blank es new).settled
            ++ (p.promise, Outcome.rejected Reason.response_timeout) ∷ [])
unfolding step fire command_timeout
timer_fired-settled blank es t token h =
    let s = run blank es new in
    let k = run-TimersMatch blank es in
    let (p, e, i) = limited t s.pending (subst (λ l. includes t l ≡ true) k.limits h) in
    (p, e, i, rw h (expire-settled t p s e))
