-- ===== src/Socket/Broken.antt =====
-- A call of `connect` without a valid token (frontend/src/services/chatSocket.ts): the rejected promise
-- that it leaves behind.
use mini_discord.Prelude.{
  ℕ, String, ◌≡◌, refl, Bool, true, false, List, [], ◌∷◌, Option, none, some, includes, All, arith,
  Bool-cases, inl, inr, subst, sym,
}
use mini_discord.Socket.{
  ChatSocket, PendingCommand, Outcome, Emission, Connection, broken, Promised, emit, settle,
  flush_queue, finish, expire, command_timeout, schedule_reconnect, connect, reconnect_now, submit,
  is_open, socket_open,
}
use mini_discord.Socket
use mini_discord.Socket.Dispatch.Induction.{on_message_ind}
use mini_discord.Socket.Run.{Event, step, run, fire}

-- The connection's promise is a rejected one, no WebSocket is open, and `n` were ever made.
pub record Stuck (n : ℕ) (s : ChatSocket) : Type 0 where
  pub rejects : s.connection_promise ≡ some broken
  pub unopened : socket_open s.socket s.ready ≡ false
  pub made : s.next_socket ≡ n

module _ {n : ℕ} where
  emit-Stuck : (e : Emission) (s : ChatSocket) → Stuck n s → Stuck n (emit e s)
  emit-Stuck e s h = ground arith

  unpend : (s : ChatSocket) → Stuck n s → Stuck n (record s { pending = none })
  unpend s h = ground arith

  settle-Stuck :
      (p : PendingCommand) (o : Outcome) (s : ChatSocket) → Stuck n s → Stuck n (settle p o s)
  unfolding settle
  settle-Stuck p o s h = ground arith

  flush_queue-Stuck : (s : ChatSocket) → Stuck n s → Stuck n (flush_queue s)
  unfolding flush_queue is_open
  flush_queue-Stuck s h = rw h.unopened h

  finish-Stuck :
      (p : PendingCommand) (o : Outcome) (s : ChatSocket) → Stuck n s → Stuck n (finish p o s)
  unfolding finish
  finish-Stuck p o s h =
      flush_queue-Stuck (record (settle p o s) { pending = none })
        (unpend (settle p o s) (settle-Stuck p o s h))

  expire-Stuck : (p : Option PendingCommand) (s : ChatSocket) → Stuck n s → Stuck n (expire p s)
  unfolding expire
  expire-Stuck none s h = h
  expire-Stuck (some p) s h =
      flush_queue-Stuck (Socket.timed_out p s)
        (emit-Stuck _ _ (settle-Stuck p _ (record s { pending = none }) (unpend s h)))

  schedule_reconnect-Stuck : (s : ChatSocket) → Stuck n s → Stuck n (schedule_reconnect s)
  unfolding schedule_reconnect
  schedule_reconnect-Stuck s h = ground arith

  connect_lem : (token : Bool) (s : ChatSocket) → Stuck n s → connect token s ≡ (s, Promised.failed)
  unfolding connect is_open
  connect_lem token s h = rw (h.unopened, h.rejects) refl

  reconnect_now-Stuck :
      (token : Bool) (t : ℕ) (s : ChatSocket) → Stuck n s → Stuck n (reconnect_now token t s)
  unfolding reconnect_now
  reconnect_now-Stuck token t s h =
      let k : Stuck n (Socket.retried t s) = ground arith in
      rw (connect_lem token (Socket.retried t s) k)
        (schedule_reconnect-Stuck (Socket.retried t s) k)

  submit-Stuck :
      (open_ : Bool) (action : String) (payload : Socket.Json) (s : ChatSocket)
      → Stuck n s
      → Stuck n (submit open_ action payload s).0
  unfolding submit
  submit-Stuck false action payload s h = h
  submit-Stuck true action payload s h =
      flush_queue-Stuck (Socket.enqueued action payload s) (ground arith)

  fire-Stuck : (t : ℕ) (token : Bool) (s : ChatSocket) → Stuck n s → Stuck n (fire t token s)
  unfolding fire command_timeout
  fire-Stuck t token s h = elim (Bool-cases (includes t s.command_timers)) [
    | inl e ↦ rw e (expire-Stuck s.pending (Socket.fired t s) (ground arith))
    | inr e ↦ elim (Bool-cases (includes t s.reconnect_timers)) [
      | inl r ↦ rw (e, r) (reconnect_now-Stuck token t s h)
      | inr r ↦ rw (e, r) h
    ]
  ]

-- The events other than a call of `close` and those of a WebSocket itself, that it opens, fails, or is
-- closed.
abbrev pub LeavesSocket : Event → Type 0
LeavesSocket Event.closes = ⊥
LeavesSocket (Event.opened w) = ⊥
LeavesSocket (Event.errored w) = ⊥
LeavesSocket (Event.shut w) = ⊥
LeavesSocket _ = Unit {0}

step-Stuck :
    (n : ℕ) (blank : String → Bool) (e : Event) (s : ChatSocket)
    → LeavesSocket e
    → Stuck n s
    → Stuck n (step blank e s)
unfolding step Socket.send_command Socket.send_frame
step-Stuck n blank (Event.command action payload) s q h =
    submit-Stuck (is_open s) action payload s h
step-Stuck n blank (Event.frame action payload) s q h = ground arith
step-Stuck n blank (Event.connects token) s q h =
    subst (λ r. Stuck n r.0) (sym (connect_lem token s h)) h
step-Stuck n blank Event.closes s q h = absurd q
step-Stuck n blank (Event.opened w) s q h = absurd q
step-Stuck n blank (Event.errored w) s q h = absurd q
step-Stuck n blank (Event.shut w) s q h = absurd q
step-Stuck n blank (Event.received now m) s q h =
    on_message_ind (Stuck n) emit-Stuck (λ p o t e k. finish-Stuck p o t k) blank now m s h
step-Stuck n blank (Event.timer_fired t token) s q h = fire-Stuck t token s h

run-Stuck :
    (n : ℕ) (blank : String → Bool) (es : List Event) (s : ChatSocket)
    → All LeavesSocket es
    → Stuck n s
    → Stuck n (run blank es s)
unfolding run
run-Stuck n blank [] s q h = h
run-Stuck n blank (e ∷ es) s q h =
    run-Stuck n blank es (step blank e s) q.1 (step-Stuck n blank e s q.0 h)

-- After a call of `connect` without a valid token, over no open WebSocket and with no promise of an
-- earlier call, the client stays without a connection: over any commands, messages, timers, so planned
-- reconnections too, and further calls of `connect`, with or without a token, until `close` is called
-- or a WebSocket from before opens, fails or is closed, no WebSocket is made and a call of `connect`
-- fails and changes nothing.
pub connect_broken :
    (blank : String → Bool) (es : List Event) (token : Bool) (s : ChatSocket)
    → is_open s ≡ false
    → s.connection_promise ≡ none
    → All LeavesSocket es
    → let t = run blank es (connect false s).0 in
      (t.next_socket ≡ s.next_socket) × (connect token t ≡ (t, Promised.failed))
unfolding connect is_open
connect_broken blank es token s o c q =
    let h : Stuck s.next_socket (connect false s).0 = ground arith in
    let k = run-Stuck s.next_socket blank es (connect false s).0 q h in
    (k.made, connect_lem token (run blank es (connect false s).0) k)
