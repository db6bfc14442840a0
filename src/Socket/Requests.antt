-- ===== src/Socket/Requests.antt =====
-- Request ids, and the replies that are recognised by them.
use mini_discord.Prelude.{
  ℕ, suc, ◌-◌, String, ◌≡◌, refl, sym, ap, ◌∙◌, Bool, true, false, List, [], ◌∷◌, ◌++◌, Option,
  none, some, ◌⊎◌, inl, inr, range_from, includes, append-nil, append_assoc, not, ◌||◌, is_some,
  arith, Bool-cases,
}
use mini_discord.Json.{Json}
use mini_discord.Socket.{
  ChatSocket, QueuedCommand, PendingCommand, Outcome, Frame, Reason, Emission, emit, new, settle,
  flush_queue, send_next, finish, expire, command_timeout, reject_pending, reject_all_pending,
  schedule_reconnect, connect, reconnected, reconnect_now, repeat, on_open, on_error, on_close,
  clear_reconnect, close, submit, send_command, send_frame, is_open,
}
use mini_discord.Socket
use mini_discord.Socket.Order.{range_from-suc}
use mini_discord.Socket.Dispatch.Induction.{on_message_ind}
use mini_discord.Socket.Run.{Event, step, run, fire}

-- The request ids of the frames sent, in order; fire-and-forget frames have none.
abbrev id_list : Option ℕ → List ℕ
id_list none = []
id_list (some n) = n ∷ []

abbrev pub request_ids : List Frame → List ℕ
request_ids [] = []
request_ids (f ∷ fs) = id_list f.request_id ++ request_ids fs

abbrev pub IsLast : Option PendingCommand → ℕ → Type 0
IsLast none n = Unit {0}
IsLast (some p) n = suc p.request_id ≡ n

-- `count` ids have been given out, from 1, each to one frame; a pending command has the last.
pub record Numbered (s : ChatSocket) : Type 0 where
  pub count : ℕ
  pub next : s.next_request_id ≡ suc count
  pub given : request_ids s.sent ≡ range_from 1 count
  pub last : IsLast s.pending s.next_request_id

request_ids-append :
    (fs : List Frame) (f : Frame)
    → request_ids (fs ++ f ∷ []) ≡ request_ids fs ++ id_list f.request_id
request_ids-append [] f = append-nil (id_list f.request_id)
request_ids-append (g ∷ fs) f =
    ap (λ l. id_list g.request_id ++ l) (request_ids-append fs f)
    ∙ sym (append_assoc (id_list g.request_id) (request_ids fs) (id_list f.request_id))

send_next-Numbered :
    (q : List QueuedCommand) (s : ChatSocket) → Numbered s → Numbered (send_next q s)
unfolding send_next
send_next-Numbered [] s h = h
send_next-Numbered (c ∷ cs) s h = record {
  count = suc h.count;
  next = ap suc h.next;
  given =
      request_ids-append s.sent _
      ∙ (λ i. h.given i ++ h.next i ∷ [])
      ∙ sym (range_from-suc 1 h.count (suc h.count) (omega arith));
  last = refl;
}

-- What leaves the frames and the pending command alone, or drops the latter, keeps the numbering.
record Calm (s t : ChatSocket) : Type 0 where
  same_next : t.next_request_id ≡ s.next_request_id
  same_sent : t.sent ≡ s.sent
  same_pending : (t.pending ≡ s.pending) ⊎ (t.pending ≡ none)

Calm-Numbered : (s t : ChatSocket) → Calm s t → Numbered s → Numbered t
Calm-Numbered s t c h = record {
  count = h.count;
  next = c.same_next ∙ h.next;
  given = ap request_ids c.same_sent ∙ h.given;
  last = ground (arith, c.same_pending, h.last, c.same_next);
}

flush_queue-Numbered : (s : ChatSocket) → Numbered s → Numbered (flush_queue s)
unfolding flush_queue
flush_queue-Numbered s h = elim (Bool-cases (not (is_open s) || is_some s.pending)) [
  | inl e ↦ rw e h
  | inr e ↦ rw e (send_next-Numbered s.queue s h)
]

settle-Calm :
    (p : PendingCommand) (o : Outcome) (s : ChatSocket)
    → Calm s (record (settle p o s) { pending = none })
unfolding settle
settle-Calm p o s = ground arith

reject_all_pending-Calm : (r : Reason) (s : ChatSocket) → Calm s (reject_all_pending r s)
unfolding reject_all_pending reject_pending settle
reject_all_pending-Calm r s = ground arith

schedule_reconnect-Calm : (s : ChatSocket) → Calm s (schedule_reconnect s)
unfolding schedule_reconnect
schedule_reconnect-Calm s = ground arith

connect-Calm : (token : Bool) (s : ChatSocket) → Calm s (connect token s).0
unfolding connect
connect-Calm token s = ground arith

reconnect_now-Calm : (token : Bool) (t : ℕ) (s : ChatSocket) → Calm s (reconnect_now token t s)
unfolding reconnect_now
reconnect_now-Calm token t s = ground arith

repeat-Calm :
    (f : ChatSocket → ChatSocket)
    → ((s : ChatSocket) → Calm s (f s))
    → (n : ℕ) (s : ChatSocket) → Calm s (repeat f n s)
unfolding repeat
repeat-Calm f calm ℕ.zero s = ground arith
repeat-Calm f calm (suc n) s = ground (arith, calm s, repeat-Calm f calm n (f s))

on_error-Calm : (w : ℕ) (s : ChatSocket) → Calm s (on_error w s)
unfolding on_error
on_error-Calm w s = ground (
  arith,
  repeat-Calm schedule_reconnect schedule_reconnect-Calm (s.followers w)
      (Socket.failed_to_open w s),
)

on_close-Calm : (w : ℕ) (s : ChatSocket) → Calm s (on_close w s)
unfolding on_close schedule_reconnect
on_close-Calm w s =
    ground (arith, reject_all_pending-Calm Reason.connection_closed (Socket.failed_to_open w s))

before_close-Calm : (s : ChatSocket) → Calm s (Socket.before_close s)
unfolding clear_reconnect
before_close-Calm s = ground arith

close-Calm : (s : ChatSocket) → Calm s (close s)
unfolding close
close-Calm s = ground (
  arith,
  before_close-Calm s,
  reject_all_pending-Calm Reason.connection_closed (Socket.before_close s),
)

timed_out-Calm : (p : PendingCommand) (s : ChatSocket) → Calm s (Socket.timed_out p s)
unfolding settle
timed_out-Calm p s = ground arith

opened-Calm : (w : ℕ) (s : ChatSocket) → Calm s (Socket.opened w s)
opened-Calm w s = ground arith

reconnected-Calm : (s : ChatSocket) → Calm s (reconnected s)
reconnected-Calm s = ground arith

fired-Calm : (t : ℕ) (s : ChatSocket) → Calm s (Socket.fired t s)
fired-Calm t s = ground arith

emit-Calm : (e : Emission) (s : ChatSocket) → Calm s (emit e s)
emit-Calm e s = ground arith

enqueued-Calm :
    (action : String) (payload : Json) (s : ChatSocket) → Calm s (Socket.enqueued action payload s)
enqueued-Calm action payload s = ground arith

finish-Numbered :
    (p : PendingCommand) (o : Outcome) (s : ChatSocket) → Numbered s → Numbered (finish p o s)
unfolding finish
finish-Numbered p o s h =
    let t = record (settle p o s) { pending = none } in
    flush_queue-Numbered t (Calm-Numbered s t (settle-Calm p o s) h)

expire-Numbered : (p : Option PendingCommand) (s : ChatSocket) → Numbered s → Numbered (expire p s)
unfolding expire
expire-Numbered none s h = h
expire-Numbered (some p) s h =
    flush_queue-Numbered (Socket.timed_out p s)
      (Calm-Numbered s (Socket.timed_out p s) (timed_out-Calm p s) h)

on_open-Numbered : (w : ℕ) (s : ChatSocket) → Numbered s → Numbered (on_open w s)
unfolding on_open
on_open-Numbered w s h =
    let t = flush_queue (Socket.opened w s) in
    let k =
      flush_queue-Numbered (Socket.opened w s)
        (Calm-Numbered s (Socket.opened w s) (opened-Calm w s) h) in
    let r = repeat reconnected (s.followers w) t in
    let d = Calm-Numbered t r (repeat-Calm reconnected reconnected-Calm (s.followers w) t) k in
    record { count = d.count; next = d.next; given = d.given; last = d.last }

submit-Numbered :
    (open_ : Bool) (action : String) (payload : Json) (s : ChatSocket)
    → Numbered s
    → Numbered (submit open_ action payload s).0
unfolding submit
submit-Numbered false action payload s h = h
submit-Numbered true action payload s h =
    let t = Socket.enqueued action payload s in
    flush_queue-Numbered t (Calm-Numbered s t (enqueued-Calm action payload s) h)

send_frame-Numbered :
    (action : String) (payload : Json) (s : ChatSocket)
    → Numbered s
    → Numbered (send_frame action payload s)
unfolding send_frame
send_frame-Numbered action payload s h = elim (Bool-cases (is_open s)) [
  | inl e ↦ rw e (record {
    count = h.count;
    next = h.next;
    given = request_ids-append s.sent _ ∙ append-nil _ ∙ h.given;
    last = h.last;
  })
  | inr e ↦ rw e h
]

fire-Numbered : (t : ℕ) (token : Bool) (s : ChatSocket) → Numbered s → Numbered (fire t token s)
unfolding fire command_timeout
fire-Numbered t token s h = elim (Bool-cases (includes t s.command_timers)) [
  | inl e ↦ rw e (
      expire-Numbered s.pending (Socket.fired t s)
        (Calm-Numbered s (Socket.fired t s) (fired-Calm t s) h))
  | inr e ↦ rw e (elim (Bool-cases (includes t s.reconnect_timers)) [
    | inl r ↦ rw r (Calm-Numbered s (reconnect_now token t s) (reconnect_now-Calm token t s) h)
    | inr r ↦ rw r h
  ])
]

step-Numbered :
    (blank : String → Bool) (e : Event) (s : ChatSocket) → Numbered s → Numbered (step blank e s)
unfolding step send_command
step-Numbered blank (Event.command action payload) s h =
    submit-Numbered (is_open s) action payload s h
step-Numbered blank (Event.frame action payload) s h = send_frame-Numbered action payload s h
step-Numbered blank (Event.connects token) s h =
    Calm-Numbered s (connect token s).0 (connect-Calm token s) h
step-Numbered blank Event.closes s h = Calm-Numbered s (close s) (close-Calm s) h
step-Numbered blank (Event.opened w) s h = on_open-Numbered w s h
step-Numbered blank (Event.errored w) s h = Calm-Numbered s (on_error w s) (on_error-Calm w s) h
step-Numbered blank (Event.shut w) s h = Calm-Numbered s (on_close w s) (on_close-Calm w s) h
step-Numbered blank (Event.received now m) s h =
    on_message_ind Numbered (λ e t k. Calm-Numbered t (emit e t) (emit-Calm e t) k)
      (λ p o t e k. finish-Numbered p o t k) blank now m s h
step-Numbered blank (Event.timer_fired t token) s h = fire-Numbered t token s h

run_from-Numbered :
    (blank : String → Bool) (es : List Event) (s : ChatSocket)
    → Numbered s
    → Numbered (run blank es s)
unfolding run
run_from-Numbered blank [] s h = h
run_from-Numbered blank (e ∷ es) s h =
    run_from-Numbered blank es (step blank e s) (step-Numbered blank e s h)

-- After any events the commands sent carry the request ids 1, 2, 3, … in the order of sending, so
-- that no id is used twice, and a pending command carries the last one given out.
pub request_ids-run :
    (blank : String → Bool) (es : List Event)
    → (request_ids (run blank es new).sent ≡ range_from 1 ((run blank es new).next_request_id - 1))
      × IsLast (run blank es new).pending (run blank es new).next_request_id
unfolding new
request_ids-run blank es =
    let h =
      run_from-Numbered blank es new (record { count = 0; next = refl; given = refl; last = tt }) in
    (h.given ∙ ap (range_from 1) (omega (arith, h.next)), h.last)
