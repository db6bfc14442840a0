-- ===== src/Socket/Order.antt =====
-- The order in which the promises of commands are settled.
use mini_discord.Prelude.{
  ℕ, suc, ◌+◌, String, ◌≡◌, refl, sym, ap, ◌∙◌, Bool, true, false, List, [], ◌∷◌, ◌++◌, map, Option,
  none, some, range_from, append_assoc, map-append, append-nil, includes, arith, Bool-cases, inl,
  inr,
}
use mini_discord.Json.{Json}
use mini_discord.Socket
use mini_discord.Socket.{
  ChatSocket, QueuedCommand, PendingCommand, Outcome, Reason, Emission, emit, new, is_open, settle,
  send_next, flush_queue, finish, expire, command_timeout, reject_pending, reject_each,
  reject_all_pending, schedule_reconnect, open_socket, connect_again, connect, reconnected, follow,
  reconnect_now, repeat, on_open, on_error, on_close, clear_reconnect, close, submit, send_command,
  send_frame,
}
use mini_discord.Socket.Dispatch.Induction.{on_message_ind}
use mini_discord.Socket.Run.{Event, step, run, fire}

abbrev pub in_flight : Option PendingCommand → List ℕ
in_flight none = []
in_flight (some p) = p.promise ∷ []

abbrev pub waiting : ChatSocket → List ℕ
waiting s = in_flight s.pending ++ map (λ c. c.promise) s.queue

abbrev pub settled_promises : ChatSocket → List ℕ
settled_promises s = map (λ e. e.0) s.settled

-- The promises of the accepted commands: those settled, in the order in which they were, then the
-- one in flight, then those queued.
abbrev pub promises : ChatSocket → List ℕ
promises s = settled_promises s ++ waiting s

-- An operation moves promises along and neither makes nor loses one.
abbrev pub Same : ChatSocket → ChatSocket → Type 0
Same s t = (promises t ≡ promises s) × (t.next_promise ≡ s.next_promise)

flush_queue-Same : (s : ChatSocket) → Same s (flush_queue s)
unfolding flush_queue
flush_queue-Same s = ground arith

flush_with : (s t : ChatSocket) → Same s t → Same s (flush_queue t)
flush_with s t (p, n) = let (q, m) = flush_queue-Same t in (q ∙ p, m ∙ n)

-- The pending command is settled and leaves its place.
settle-Same :
    (p : PendingCommand) (o : Outcome) (s : ChatSocket)
    → s.pending ≡ some p
    → Same s (record (settle p o s) { pending = none })
unfolding settle
settle-Same p o s e =
    (rw (e, map-append) (append_assoc (settled_promises s) (p.promise ∷ []) _), refl)

finish-Same :
    (p : PendingCommand) (o : Outcome) (s : ChatSocket) → s.pending ≡ some p → Same s (finish p o s)
unfolding finish
finish-Same p o s e = flush_with s (record (settle p o s) { pending = none }) (settle-Same p o s e)

expire-Same : (p : Option PendingCommand) (s : ChatSocket) → s.pending ≡ p → Same s (expire p s)
unfolding expire
expire-Same none s e = (refl, refl)
expire-Same (some p) s e =
    flush_with s (Socket.timed_out p s)
      (settle-Same p (Outcome.rejected Reason.response_timeout) s e)

reject_pending-Same :
    (p : Option PendingCommand) (r : Reason) (s : ChatSocket)
    → s.pending ≡ p
    → Same s (reject_pending p r s) × ((reject_pending p r s).pending ≡ none)
unfolding reject_pending
reject_pending-Same none r s e = ((refl, refl), e)
reject_pending-Same (some p) r s e = (settle-Same p (Outcome.rejected r) s e, refl)

map-reject_each :
    (r : Reason) (cs : List QueuedCommand)
    → map (λ e. e.0) (reject_each r cs) ≡ map (λ c. c.promise) cs
map-reject_each r [] = refl
map-reject_each r (c ∷ cs) = ap (λ l. c.promise ∷ l) (map-reject_each r cs)

reject_queue-Same :
    (r : Reason) (s : ChatSocket)
    → s.pending ≡ none
    → Same s (record s { queue = []; settled = s.settled ++ reject_each r s.queue })
reject_queue-Same r s e = (rw (e, map-append, map-reject_each r s.queue) (append-nil _), refl)

reject_all_pending-Same : (r : Reason) (s : ChatSocket) → Same s (reject_all_pending r s)
unfolding reject_all_pending
reject_all_pending-Same r s =
    let t = reject_pending s.pending r s in
    let ((p, n), idle) = reject_pending-Same s.pending r s refl in
    let (q, m) = reject_queue-Same r t idle in (q ∙ p, m ∙ n)

schedule_reconnect-Same : (s : ChatSocket) → Same s (schedule_reconnect s)
unfolding schedule_reconnect
schedule_reconnect-Same s = ground arith

connect-Same : (token : Bool) (s : ChatSocket) → Same s (connect token s).0
unfolding connect
connect-Same token s = ground arith

repeat-Same :
    (f : ChatSocket → ChatSocket)
    → ((s : ChatSocket) → Same s (f s))
    → (n : ℕ) (s : ChatSocket) → Same s (repeat f n s)
unfolding repeat
repeat-Same f same ℕ.zero s = (refl, refl)
repeat-Same f same (suc n) s =
    let (p, a) = same s in let (q, b) = repeat-Same f same n (f s) in (q ∙ p, b ∙ a)

Same-trans : (s t u : ChatSocket) → Same s t → Same t u → Same s u
Same-trans s t u (p, a) (q, b) = (q ∙ p, b ∙ a)

reconnect_now-Same : (token : Bool) (t : ℕ) (s : ChatSocket) → Same s (reconnect_now token t s)
unfolding reconnect_now
reconnect_now-Same token t s = ground arith

on_open-Same : (w : ℕ) (s : ChatSocket) → Same s (on_open w s)
unfolding on_open
on_open-Same w s =
    let (p, a) = flush_queue-Same (Socket.opened w s) in
    let (q, b) =
      repeat-Same reconnected (λ t. (refl, refl)) (s.followers w)
        (flush_queue (Socket.opened w s)) in
    (q ∙ p, b ∙ a)

on_error-Same : (w : ℕ) (s : ChatSocket) → Same s (on_error w s)
unfolding on_error
on_error-Same w s =
    repeat-Same schedule_reconnect schedule_reconnect-Same (s.followers w)
      (Socket.failed_to_open w s)

on_close-Same : (w : ℕ) (s : ChatSocket) → Same s (on_close w s)
unfolding on_close schedule_reconnect
on_close-Same w s =
    ground (arith, reject_all_pending-Same Reason.connection_closed (Socket.failed_to_open w s))

before_close-Same : (s : ChatSocket) → Same s (Socket.before_close s)
unfolding clear_reconnect
before_close-Same s = ground arith

close-Same : (s : ChatSocket) → Same s (close s)
unfolding close
close-Same s =
    Same-trans s (Socket.before_close s) (close s) (before_close-Same s)
      (reject_all_pending-Same Reason.connection_closed (Socket.before_close s))

-- Every promise of an accepted command is in exactly one place.
abbrev pub Accounted : ChatSocket → Type 0
Accounted s = promises s ≡ range_from 0 s.next_promise

Same-Accounted : (s t : ChatSocket) → Same s t → Accounted s → Accounted t
Same-Accounted s t (p, n) h = p ∙ h ∙ ap (range_from 0) (sym n)

pub range_from-suc : (k n m : ℕ) → k + n ≡ m → range_from k (suc n) ≡ range_from k n ++ m ∷ []
range_from-suc k ℕ.zero m e = ap (λ i. i ∷ []) (omega arith)
range_from-suc k (suc n) m e = ap (λ l. k ∷ l) (range_from-suc (suc k) n m (omega arith))

regroup : (a b c d : List ℕ) → a ++ (b ++ (c ++ d)) ≡ (a ++ (b ++ c)) ++ d
regroup a b c d = simp append_assoc

enqueued-Accounted :
    (action : String) (payload : Json) (s : ChatSocket)
    → Accounted s
    → Accounted (Socket.enqueued action payload s)
enqueued-Accounted action payload s h = simp map-append (
    regroup (settled_promises s) (in_flight s.pending) _ _
    ∙ ap (λ l. l ++ s.next_promise ∷ []) h
    ∙ sym (range_from-suc 0 s.next_promise s.next_promise (omega arith)))

submit-Accounted :
    (open_ : Bool) (action : String) (payload : Json) (s : ChatSocket)
    → Accounted s
    → Accounted (submit open_ action payload s).0
unfolding submit
submit-Accounted false action payload s h = h
submit-Accounted true action payload s h =
    let t = Socket.enqueued action payload s in
    Same-Accounted t (flush_queue t) (flush_queue-Same t) (enqueued-Accounted action payload s h)

fire-Same : (t : ℕ) (token : Bool) (s : ChatSocket) → Same s (fire t token s)
unfolding fire command_timeout
fire-Same t token s = elim (Bool-cases (includes t s.command_timers)) [
  | inl e ↦ rw e (expire-Same s.pending (Socket.fired t s) refl)
  | inr e ↦ rw e (elim (Bool-cases (includes t s.reconnect_timers)) [
    | inl r ↦ rw r (reconnect_now-Same token t s)
    | inr r ↦ rw r (refl, refl)
  ])
]

step-Accounted :
    (blank : String → Bool) (e : Event) (s : ChatSocket) → Accounted s → Accounted (step blank e s)
unfolding step send_command send_frame
step-Accounted blank (Event.command action payload) s h =
    submit-Accounted (is_open s) action payload s h
step-Accounted blank (Event.frame action payload) s h = ground arith
step-Accounted blank (Event.connects token) s h =
    Same-Accounted s (connect token s).0 (connect-Same token s) h
step-Accounted blank Event.closes s h = Same-Accounted s (close s) (close-Same s) h
step-Accounted blank (Event.opened w) s h = Same-Accounted s (on_open w s) (on_open-Same w s) h
step-Accounted blank (Event.errored w) s h = Same-Accounted s (on_error w s) (on_error-Same w s) h
step-Accounted blank (Event.shut w) s h = Same-Accounted s (on_close w s) (on_close-Same w s) h
step-Accounted blank (Event.received now m) s h =
    on_message_ind Accounted (λ e t k. k)
      (λ p o t e k. Same-Accounted t (finish p o t) (finish-Same p o t e) k) blank now m s h
step-Accounted blank (Event.timer_fired t token) s h =
    Same-Accounted s (fire t token s) (fire-Same t token s) h

run-Accounted :
    (blank : String → Bool) (es : List Event) (s : ChatSocket)
    → Accounted s
    → Accounted (run blank es s)
unfolding run
run-Accounted blank [] s h = h
run-Accounted blank (e ∷ es) s h = run-Accounted blank es _ (step-Accounted blank e s h)

-- Whatever the callers, the server and the browser do, commands are settled in the order in which
-- they were accepted, each exactly once: those settled so far, the one in flight and those queued,
-- in this order, are the accepted commands, numbered from 0.
pub promises-run :
    (blank : String → Bool) (es : List Event)
    → settled_promises (run blank es new) ++ waiting (run blank es new)
      ≡ range_from 0 (run blank es new).next_promise
unfolding new
promises-run blank es = run-Accounted blank es new refl
