-- ===== src/Socket/Reconnect.antt =====
-- Reconnection: its delays, and what becomes of commands and of the plan when a connection ends.
use native.Mathlib.Nat.{pow-suc}
use mini_discord.Prelude.{
  ℕ, zero, suc, ◌-◌, ◌^◌, ◌≤◌, ◌<◌, String, ◌≡◌, refl, Bool, true, false, List, [], ◌∷◌, ◌++◌,
  Option, none, some, includes, is_some, append_assoc, All, arith, Bool-cases, inl, inr,
}
use mini_discord.Socket.{
  ChatSocket, QueuedCommand, PendingCommand, Outcome, rejected, Reason, connection_closed, Emission,
  emit, new, settle, flush_queue, finish, expire, command_timeout, reject_pending,
  reject_all_pending, reject_each, schedule_reconnect, reconnect_delay, connect, reconnected,
  reconnect_now, repeat, on_open, on_error, on_close, clear_reconnect, close, submit, send_command,
  send_frame, is_open,
}
use mini_discord.Socket
use mini_discord.Socket.Timers.{TimersMatch, run-TimersMatch}
use mini_discord.Socket.Dispatch.Induction.{on_message_ind}
use mini_discord.Socket.Run.{Event, step, run, fire}

-- 2 ^ n doubles with each attempt.
pow-pos : (n : ℕ) → 1 ≤ 2 ^ n
pow-pos zero = omega arith
pow-pos (suc n) = omega (arith, pow-suc 2 n, pow-pos n)

-- The delay of every attempt lies between half a second and the cap plus the jitter.
pub reconnect_delay_bounds :
    (attempt jitter : ℕ)
    → jitter < 500
    → (500 ≤ reconnect_delay attempt jitter) × (reconnect_delay attempt jitter < 15500)
unfolding reconnect_delay
reconnect_delay_bounds attempt jitter h = omega (arith, pow-pos (attempt - 1))

-- What the loss of a connection does to the commands that wait.
abbrev pub losses : Option PendingCommand → List QueuedCommand → List (ℕ × Outcome)
losses none queue = reject_each connection_closed queue
losses (some p) queue =
    (p.promise, rejected connection_closed) ∷ reject_each connection_closed queue

reject_pending-settled :
    (p : Option PendingCommand) (s : ChatSocket)
    → (reject_pending p connection_closed s).settled ++ reject_each connection_closed s.queue
      ≡ s.settled ++ losses p s.queue
unfolding reject_pending settle
reject_pending-settled none s = refl
reject_pending-settled (some p) s =
    append_assoc s.settled ((p.promise, rejected connection_closed) ∷ []) _

reject_pending-queue :
    (p : Option PendingCommand) (s : ChatSocket)
    → (reject_pending p connection_closed s).queue ≡ s.queue
unfolding reject_pending settle
reject_pending-queue none s = refl
reject_pending-queue (some p) s = refl

reject_all_pending-settled :
    (s : ChatSocket)
    → (reject_all_pending connection_closed s).settled ≡ s.settled ++ losses s.pending s.queue
unfolding reject_all_pending
reject_all_pending-settled s =
    rw (reject_pending-queue s.pending s) (reject_pending-settled s.pending s)

-- No command waits.
abbrev pub Idle : ChatSocket → Type 0
Idle s = (s.pending ≡ none) × (s.queue ≡ [])

reject_all_pending-Idle : (r : Reason) (s : ChatSocket) → Idle (reject_all_pending r s)
unfolding reject_all_pending reject_pending settle
reject_all_pending-Idle r s = ground arith

-- A reconnection is planned.
abbrev pub Planned : ChatSocket → Type 0
Planned s = is_some s.reconnect_timer ≡ true

reject_all_pending-user :
    (r : Reason) (s : ChatSocket) → (reject_all_pending r s).closed_by_user ≡ s.closed_by_user
unfolding reject_all_pending reject_pending settle
reject_all_pending-user r s = ground arith

-- The close event of any WebSocket, be it the current one or one that the client has replaced,
-- rejects every waiting command in order, the one in flight first, leaves none waiting, and plans a
-- reconnection unless the user closed the socket last.
pub on_close-losses :
    (w : ℕ) (s : ChatSocket)
    → ((on_close w s).settled ≡ s.settled ++ losses s.pending s.queue)
      × Idle (on_close w s)
      × (s.closed_by_user ≡ false → Planned (on_close w s))
unfolding on_close schedule_reconnect
on_close-losses w s =
    let t = Socket.failed_to_open w s in
    ground (
      arith,
      reject_all_pending-settled t,
      reject_all_pending-Idle connection_closed t,
      reject_all_pending-user connection_closed t,
    )

-- The user has closed the socket, no reconnection is planned, and `n` WebSockets were ever made.
pub record Quiet (n : ℕ) (s : ChatSocket) : Type 0 where
  pub by_user : s.closed_by_user ≡ true
  pub unplanned : s.reconnect_timer ≡ none
  pub unarmed : s.reconnect_timers ≡ []
  pub made : s.next_socket ≡ n

module _ {n : ℕ} where
  emit-Quiet : (e : Emission) (s : ChatSocket) → Quiet n s → Quiet n (emit e s)
  emit-Quiet e s h = ground arith

  unpend : (s : ChatSocket) → Quiet n s → Quiet n (record s { pending = none })
  unpend s h = ground arith

  attempt : (s : ChatSocket) → Quiet n s → Quiet n (record s { reconnect_attempt = 0 })
  attempt s h = ground arith

  settle-Quiet :
      (p : PendingCommand) (o : Outcome) (s : ChatSocket) → Quiet n s → Quiet n (settle p o s)
  unfolding settle
  settle-Quiet p o s h = ground arith

  flush_queue-Quiet : (s : ChatSocket) → Quiet n s → Quiet n (flush_queue s)
  unfolding flush_queue
  flush_queue-Quiet s h = ground arith

  finish-Quiet :
      (p : PendingCommand) (o : Outcome) (s : ChatSocket) → Quiet n s → Quiet n (finish p o s)
  unfolding finish
  finish-Quiet p o s h =
      flush_queue-Quiet (record (settle p o s) { pending = none }) (again (settle-Quiet p o s h))
    where
      again : Quiet n (settle p o s) → Quiet n (record (settle p o s) { pending = none })
      again k = record {
        by_user = k.by_user;
        unplanned = k.unplanned;
        unarmed = k.unarmed;
        made = k.made;
      }

  expire-Quiet : (p : Option PendingCommand) (s : ChatSocket) → Quiet n s → Quiet n (expire p s)
  unfolding expire
  expire-Quiet none s h = h
  expire-Quiet (some p) s h =
      flush_queue-Quiet (Socket.timed_out p s)
        (emit-Quiet _ _ (settle-Quiet p _ (record s { pending = none }) (unpend s h)))

  reject_pending-Quiet :
      (p : Option PendingCommand) (r : Reason) (s : ChatSocket)
      → Quiet n s
      → Quiet n (reject_pending p r s)
  unfolding reject_pending settle
  reject_pending-Quiet none r s h = h
  reject_pending-Quiet (some p) r s h = ground arith

  reject_all_pending-Quiet :
      (r : Reason) (s : ChatSocket) → Quiet n s → Quiet n (reject_all_pending r s)
  unfolding reject_all_pending
  reject_all_pending-Quiet r s h =
      let k = reject_pending-Quiet s.pending r s h in
      record { by_user = k.by_user; unplanned = k.unplanned; unarmed = k.unarmed; made = k.made }

  schedule_reconnect-Quiet : (s : ChatSocket) → Quiet n s → Quiet n (schedule_reconnect s)
  unfolding schedule_reconnect
  schedule_reconnect-Quiet s h = ground arith

  repeat-Quiet :
      (f : ChatSocket → ChatSocket)
      → ((s : ChatSocket) → Quiet n s → Quiet n (f s))
      → (k : ℕ) (s : ChatSocket) → Quiet n s
      → Quiet n (repeat f k s)
  unfolding repeat
  repeat-Quiet f keeps zero s h = h
  repeat-Quiet f keeps (suc k) s h = repeat-Quiet f keeps k (f s) (keeps s h)

  on_open-Quiet : (w : ℕ) (s : ChatSocket) → Quiet n s → Quiet n (on_open w s)
  unfolding on_open
  on_open-Quiet w s h = ground (
    arith,
    repeat-Quiet reconnected
        (λ (t : ChatSocket) (k : Quiet n t).
          emit-Quiet (Emission.reconnect Socket.restored) (record t { reconnect_attempt = 0 })
            (attempt t k))
        (s.followers w) (flush_queue (Socket.opened w s)),
    flush_queue-Quiet (Socket.opened w s),
  )

  on_error-Quiet : (w : ℕ) (s : ChatSocket) → Quiet n s → Quiet n (on_error w s)
  unfolding on_error
  on_error-Quiet w s h = ground (
    arith,
    repeat-Quiet schedule_reconnect schedule_reconnect-Quiet (s.followers w)
        (Socket.failed_to_open w s),
  )

  on_close-Quiet : (w : ℕ) (s : ChatSocket) → Quiet n s → Quiet n (on_close w s)
  unfolding on_close schedule_reconnect
  on_close-Quiet w s h =
      ground (arith, reject_all_pending-Quiet connection_closed (Socket.failed_to_open w s))

  before_close-Quiet : (s : ChatSocket) → Quiet n s → Quiet n (Socket.before_close s)
  unfolding clear_reconnect
  before_close-Quiet s h = ground arith

  close-Quiet : (s : ChatSocket) → Quiet n s → Quiet n (close s)
  unfolding close
  close-Quiet s h =
      let k =
        reject_all_pending-Quiet connection_closed (Socket.before_close s)
          (before_close-Quiet s h) in
      record { by_user = k.by_user; unplanned = k.unplanned; unarmed = k.unarmed; made = k.made }

  submit-Quiet :
      (open_ : Bool) (action : String) (payload : Socket.Json) (s : ChatSocket)
      → Quiet n s
      → Quiet n (submit open_ action payload s).0
  unfolding submit
  submit-Quiet false action payload s h = h
  submit-Quiet true action payload s h =
      flush_queue-Quiet (Socket.enqueued action payload s) (ground arith)

  fire-Quiet : (t : ℕ) (token : Bool) (s : ChatSocket) → Quiet n s → Quiet n (fire t token s)
  unfolding fire command_timeout
  fire-Quiet t token s h = elim (Bool-cases (includes t s.command_timers)) [
    | inl e ↦ rw e (expire-Quiet s.pending (Socket.fired t s) (ground arith))
    | inr e ↦ rw e (ground arith)
  ]

-- The events other than a call of `connect`.
abbrev pub NoConnect : Event → Type 0
NoConnect (Event.connects token) = ⊥
NoConnect _ = Unit {0}

step-Quiet :
    (n : ℕ) (blank : String → Bool) (e : Event) (s : ChatSocket)
    → NoConnect e
    → Quiet n s
    → Quiet n (step blank e s)
unfolding step send_command send_frame
step-Quiet n blank (Event.command action payload) s q h =
    submit-Quiet (is_open s) action payload s h
step-Quiet n blank (Event.frame action payload) s q h = ground arith
step-Quiet n blank (Event.connects token) s q h = absurd q
step-Quiet n blank Event.closes s q h = close-Quiet s h
step-Quiet n blank (Event.opened w) s q h = on_open-Quiet w s h
step-Quiet n blank (Event.errored w) s q h = on_error-Quiet w s h
step-Quiet n blank (Event.shut w) s q h = on_close-Quiet w s h
step-Quiet n blank (Event.received now m) s q h =
    on_message_ind (Quiet n) emit-Quiet (λ p o t e k. finish-Quiet p o t k) blank now m s h
step-Quiet n blank (Event.timer_fired t token) s q h = fire-Quiet t token s h

run-Quiet :
    (n : ℕ) (blank : String → Bool) (es : List Event) (s : ChatSocket)
    → All NoConnect es
    → Quiet n s
    → Quiet n (run blank es s)
unfolding run
run-Quiet n blank [] s q h = h
run-Quiet n blank (e ∷ es) s q h =
    run-Quiet n blank es (step blank e s) q.1 (step-Quiet n blank e s q.0 h)

quiet_before : (s : ChatSocket) → TimersMatch s → Quiet s.next_socket (Socket.before_close s)
unfolding clear_reconnect
quiet_before s h = ground arith

closed-Quiet : (s : ChatSocket) → TimersMatch s → Quiet s.next_socket (close s)
unfolding close
closed-Quiet s h =
    let k = reject_all_pending-Quiet connection_closed (Socket.before_close s) (quiet_before s h) in
    record { by_user = k.by_user; unplanned = k.unplanned; unarmed = k.unarmed; made = k.made }

-- A closed socket stays closed: whatever happens after a call of `close`, other than a call of
-- `connect`, no reconnection is planned, no timer for one is armed, and no WebSocket is made.
pub close-run :
    (blank : String → Bool) (before after : List Event)
    → All NoConnect after
    → Quiet (run blank before new).next_socket (run blank after (close (run blank before new)))
close-run blank before after q =
    let s = run blank before new in
    run-Quiet s.next_socket blank after (close s) q (closed-Quiet s (run-TimersMatch blank before))
