-- ===== src/Call/Signals/Order.antt =====
-- The candidates that `enqueueSignal`'s handlers give to the peer connection.
use mini_discord.Prelude.{
  ℕ, ◌==◌, ◌≡◌, refl, sym, ap, ◌∙◌, Bool, true, false, List, [], ◌∷◌, ◌++◌, Option, none, some,
  if◌then◌else◌, arith, inl, append_assoc, append-nil, is_some, ◌⊎◌, subst,
}
use mini_discord.Call.State.{Peer, CallClient}
use mini_discord.Call.Signals.{
  Signal, offered, answered, candidate, Handling, describing, adding, adding_one, answering,
  replying, SignalQueue, SignalStep, hear, settled, begin, settle_handler, pump, enqueue_signal,
  settle_signal, run_signals, is_described, flush, flush_pending_candidates, describe,
  settle_current,
}

-- the candidates that the peer connection was given
abbrev pub given : Option Peer → List ℕ
given none = []
given (some p) = p.ice

-- the candidates that the handler has taken and not given yet
abbrev pub taken : Option Handling → List ℕ
taken (some (adding is_offer cs)) = cs
taken h = []

-- the candidates that a signal and a list of signals hold for the session
abbrev pub carried : ℕ → Signal → List ℕ
carried session (candidate k c) = if k == session then c ∷ [] else []
carried session x = []

abbrev pub carried_all : ℕ → List Signal → List ℕ
carried_all session [] = []
carried_all session (x ∷ xs) = carried session x ++ carried_all session xs

abbrev pub heard : ℕ → List SignalStep → List ℕ
heard session [] = []
heard session (hear x ∷ steps) = carried session x ++ heard session steps
heard session (settled ok ∷ steps) = heard session steps

-- The candidates in the order in which the peer connection gets them.
abbrev pub line : ℕ → List Signal → Option Handling → CallClient → List ℕ
line session waiting h s =
    given s.pc ++ (taken h ++ (s.pending_candidates ++ carried_all session waiting))

abbrev is_adding : Option Handling → Bool
is_adding (some (adding is_offer cs)) = true
is_adding h = false

-- A peer connection of the session, which is not described while candidates are held back.
abbrev pub Ready : ℕ → Option Handling → CallClient → Type 0
Ready session h s =
    (s.session_id ≡ session)
    × (is_some s.pc ≡ true)
    × ((s.pending_candidates ≡ []) ⊎ ((is_described s.pc ≡ false) × (is_adding h ≡ false)))

-- What a step of a handler keeps.
abbrev Kept : ℕ → List Signal → CallClient × Option Handling → List ℕ → Type 0
Kept session waiting r before = Ready session r.1 r.0 × (line session waiting r.1 r.0 ≡ before)

begin-line :
    (session : ℕ) (x : Signal) (xs : List Signal) (s : CallClient)
    → Ready session none s
    → Kept session xs (begin x s) (line session (x ∷ xs) none s)
unfolding begin
begin-line session (offered k) xs s r = ground (arith, r)
begin-line session (answered k) xs s r = ground (arith, r)
begin-line session (candidate k c) xs s r = ground (
  arith,
  r,
  append_assoc (given s.pc) (c ∷ []) (carried_all session xs),
  append_assoc s.pending_candidates (c ∷ []) (carried_all session xs),
)

flush-line :
    (session : ℕ) (is_offer : Bool) (xs : List Signal) (s : CallClient) (o : Option Peer)
    (cs : List ℕ)
    → s.session_id ≡ session
    → is_some o ≡ true
    → s.pc ≡ o
    → s.pending_candidates ≡ cs
    → Kept session xs (flush is_offer o cs s) (line session xs none s)
flush-line session is_offer xs s none cs e p at held = ground (arith, p)
flush-line session true xs s (some p) [] e _ at held = ground (arith, e, at, held)
flush-line session false xs s (some p) [] e _ at held = ground (arith, e, at, held)
flush-line session is_offer xs s (some p) (c ∷ cs) e _ at held =
    ground (arith, e, at, held, append_assoc p.ice (c ∷ []) (cs ++ carried_all session xs))

flush_pending_candidates-line :
    (session : ℕ) (is_offer : Bool) (xs : List Signal) (s : CallClient)
    → s.session_id ≡ session
    → is_some s.pc ≡ true
    → Kept session xs (flush_pending_candidates is_offer s) (line session xs none s)
unfolding flush_pending_candidates
flush_pending_candidates-line session is_offer xs s e p =
    flush-line session is_offer xs s s.pc s.pending_candidates e p refl refl

given-describe : (id : ℕ) (o : Option Peer) → given (describe id o) ≡ given o
given-describe id o = ground arith

is_some-describe : (id : ℕ) (o : Option Peer) → is_some o ≡ true → is_some (describe id o) ≡ true
is_some-describe id o e = ground (arith, e)

settle_handler-line :
    (session : ℕ) (ok : Bool) (h : Handling) (xs : List Signal) (s : CallClient)
    → Ready session (some h) s
    → Kept session xs (settle_handler ok h s) (line session xs (some h) s)
unfolding settle_handler
settle_handler-line session false (describing is_offer id) xs s r = ground (arith, r)
settle_handler-line session true (describing is_offer id) xs s r =
    subst
      (λ l.
        Kept session xs (settle_handler true (describing is_offer id) s)
          (l ++ (s.pending_candidates ++ carried_all session xs)))
      (given-describe id s.pc)
      (flush_pending_candidates-line session is_offer xs (record s { pc = describe id s.pc }) r.0
        (is_some-describe id s.pc r.1))
settle_handler-line session ok (adding is_offer []) xs s r = ground (arith, r)
settle_handler-line session ok (adding is_offer (c ∷ cs)) xs s r = ground (
  arith,
  r,
  append_assoc (given s.pc) (c ∷ []) (cs ++ (s.pending_candidates ++ carried_all session xs)),
)
settle_handler-line session ok adding_one xs s r = ground (arith, r)
settle_handler-line session false answering xs s r = ground (arith, r)
settle_handler-line session true answering xs s r = ground (arith, r)
settle_handler-line session ok replying xs s r = ground (arith, r)

pump-line :
    (session : ℕ) (xs : List Signal) (s : CallClient) (h : Option Handling)
    → Ready session h s
    → let q = pump xs s h in
      Ready session q.current q.client
      × (line session q.waiting q.current q.client ≡ line session xs h s)
unfolding pump
pump-line session xs s (some h) r = (r, refl)
pump-line session [] s none r = (r, refl)
pump-line session (x ∷ xs) s none r =
    let (ready, same) = begin-line session x xs s r in
    let rest = pump-line session xs (begin x s).0 (begin x s).1 ready in (rest.0, rest.1 ∙ same)

carried_all-append :
    (session : ℕ) (xs : List Signal) (x : Signal)
    → carried_all session (xs ++ x ∷ []) ≡ carried_all session xs ++ carried session x
carried_all-append session [] x = append-nil (carried session x)
carried_all-append session (y ∷ xs) x =
    rw (carried_all-append session xs x)
      (sym (append_assoc (carried session y) (carried_all session xs) (carried session x)))

append_inner : (a b c d x : List ℕ) → a ++ (b ++ (c ++ (d ++ x))) ≡ (a ++ (b ++ (c ++ d))) ++ x
append_inner a b c d x =
    rw (append_assoc a (b ++ (c ++ d)) x, append_assoc b (c ++ d) x, append_assoc c d x) refl

enqueue_signal-line :
    (session : ℕ) (x : Signal) (q : SignalQueue)
    → Ready session q.current q.client
    → let q' = enqueue_signal x q in
      Ready session q'.current q'.client
      × (line session q'.waiting q'.current q'.client
          ≡ line session q.waiting q.current q.client ++ carried session x)
unfolding enqueue_signal
enqueue_signal-line session x q r =
    let (ready, same) = pump-line session (q.waiting ++ x ∷ []) q.client q.current r in
    (
      ready,
      same
          ∙ ap (λ l. given q.client.pc ++ (taken q.current ++ (q.client.pending_candidates ++ l)))
              (carried_all-append session q.waiting x)
          ∙ append_inner (given q.client.pc) (taken q.current) q.client.pending_candidates
              (carried_all session q.waiting) (carried session x),
    )

settle_current-line :
    (session : ℕ) (ok : Bool) (h : Option Handling) (q : SignalQueue)
    → q.current ≡ h
    → Ready session h q.client
    → let q' = settle_current ok h q in
      Ready session q'.current q'.client
      × (line session q'.waiting q'.current q'.client ≡ line session q.waiting h q.client)
unfolding settle_current
settle_current-line session ok none q e r =
    (subst (λ h. Ready session h q.client) (sym e) r, ap (λ h. line session q.waiting h q.client) e)
settle_current-line session ok (some h) q e r =
    let (ready, same) = settle_handler-line session ok h q.waiting q.client r in
    let next = settle_handler ok h q.client in
    let rest = pump-line session q.waiting next.0 next.1 ready in (rest.0, rest.1 ∙ same)

-- Whatever steps run, the candidates in line are those of before followed by those heard.
run_signals-line :
    (session : ℕ) (steps : List SignalStep) (q : SignalQueue)
    → Ready session q.current q.client
    → let q' = run_signals steps q in
      Ready session q'.current q'.client
      × (line session q'.waiting q'.current q'.client
          ≡ line session q.waiting q.current q.client ++ heard session steps)
unfolding run_signals settle_signal
run_signals-line session [] q r = (r, sym (append-nil (line session q.waiting q.current q.client)))
run_signals-line session (hear x ∷ steps) q r =
    let (ready, same) = enqueue_signal-line session x q r in
    let rest = run_signals-line session steps (enqueue_signal x q) ready in
    let before = line session q.waiting q.current q.client in
    (
      rest.0,
      rest.1
          ∙ ap (λ l. l ++ heard session steps) same
          ∙ append_assoc before (carried session x) (heard session steps),
    )
run_signals-line session (settled ok ∷ steps) q r =
    let (ready, same) = settle_current-line session ok q.current q refl r in
    let rest = run_signals-line session steps (settle_signal ok q) ready in
    (rest.0, rest.1 ∙ ap (λ l. l ++ heard session steps) same)

abbrev Busy : SignalQueue → Type 0
Busy q = (q.current ≡ none) → q.waiting ≡ []

pump-Busy : (xs : List Signal) (s : CallClient) (h : Option Handling) → Busy (pump xs s h)
unfolding pump
pump-Busy xs s (some h) e = ground (arith, e)
pump-Busy [] s none e = refl
pump-Busy (x ∷ xs) s none e = pump-Busy xs (begin x s).0 (begin x s).1 e

settle_current-Busy :
    (ok : Bool) (h : Option Handling) (q : SignalQueue) → Busy q → Busy (settle_current ok h q)
unfolding settle_current
settle_current-Busy ok none q b = b
settle_current-Busy ok (some h) q b =
    let next = settle_handler ok h q.client in pump-Busy q.waiting next.0 next.1

run_signals-Busy : (steps : List SignalStep) (q : SignalQueue) → Busy q → Busy (run_signals steps q)
unfolding run_signals enqueue_signal settle_signal
run_signals-Busy [] q b = b
run_signals-Busy (hear x ∷ steps) q b =
    run_signals-Busy steps (enqueue_signal x q) (pump-Busy (q.waiting ++ x ∷ []) q.client q.current)
run_signals-Busy (settled ok ∷ steps) q b =
    run_signals-Busy steps (settle_signal ok q) (settle_current-Busy ok q.current q b)

-- the queue of a client that handles no signal
abbrev pub idle : CallClient → SignalQueue
idle s = record { waiting = []; current = none; client = s }

-- For a session with a peer connection that was given no candidate, and none held back: after any
-- signals and settled promises that leave no handler waiting and the connection described, it was
-- given every candidate heard for the session, once each and in the order of arrival.
pub run_signals_in_order :
    (session : ℕ) (steps : List SignalStep) (s : CallClient)
    → s.session_id ≡ session
    → is_some s.pc ≡ true
    → given s.pc ≡ []
    → s.pending_candidates ≡ []
    → (run_signals steps (idle s)).current ≡ none
    → is_described (run_signals steps (idle s)).client.pc ≡ true
    → given (run_signals steps (idle s)).client.pc ≡ heard session steps
run_signals_in_order session steps s e p fresh none_held at_rest described =
    let q = run_signals steps (idle s) in
    let (ready, same) = run_signals-line session steps (idle s) (e, p, inl none_held) in
    let nothing_waits = run_signals-Busy steps (idle s) (λ e. refl) at_rest in
    ground (
      arith,
      ready,
      same,
      at_rest,
      described,
      nothing_waits,
      fresh,
      none_held,
      append-nil (given q.client.pc),
    )
