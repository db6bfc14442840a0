-- ===== src/Call/Signals.antt =====
-- The SDP and ICE signals of the server, handled one at a time by `enqueueSignal`
-- (frontend/src/services/sfuCallClient.ts). A handler runs up to an `await` and goes on when the
-- promise settles; what it waits for is a `Handling`. A candidate is a number.
pub mod Order
pub mod Closed
use mini_discord.Prelude.{
  ℕ, ◌==◌, Bool, true, false, not, ◌||◌, List, [], ◌∷◌, ◌++◌, Option, none, some, if◌then◌else◌,
}
use mini_discord.Call.State.{Peer, CallClient, Command, answer, send}

pub data Signal : Type 0 where
  offered : ℕ → Signal
  answered : ℕ → Signal
  candidate : ℕ → ℕ → Signal

-- `describing` waits for the remote description of an offer (`true`) or an answer on the peer
-- connection of that id; `adding` for a candidate, with those still to add; `adding_one` for the
-- candidate of `handleServerCandidate`; `answering` for the answer; `replying` for its sending.
pub data Handling : Type 0 where
  describing : Bool → ℕ → Handling
  adding : Bool → List ℕ → Handling
  adding_one : Handling
  answering : Handling
  replying : Handling

pub record SignalQueue : Type 0 where
  pub waiting : List Signal
  pub current : Option Handling
  pub client : CallClient

abbrev give_to : ℕ → Option Peer → Option Peer
give_to c none = none
give_to c (some p) = some (record p { ice = p.ice ++ c ∷ [] })

-- `this.pc.addIceCandidate(candidate)`, whose error is caught
abbrev give : ℕ → CallClient → CallClient
give c s = record s { pc = give_to c s.pc }

abbrev describe : ℕ → Option Peer → Option Peer
describe id none = none
describe id (some p) = if p.id == id then some (record p { described = true }) else some p

abbrev is_described : Option Peer → Bool
is_described none = false
is_described (some p) = p.described

-- what follows `flushPendingCandidates`
abbrev flushed : Bool → Option Peer → CallClient → CallClient × Option Handling
flushed is_offer none s = (s, none)
flushed false (some p) s = (s, none)
flushed true (some p) s = (s, some answering)

abbrev flush : Bool → Option Peer → List ℕ → CallClient → CallClient × Option Handling
flush is_offer none cs s = flushed is_offer none s
flush is_offer (some p) [] s = flushed is_offer (some p) s
flush is_offer (some p) (c ∷ cs) s =
    (give c (record s { pending_candidates = [] }), some (adding is_offer cs))

-- `flushPendingCandidates`
unfoldable pub flush_pending_candidates : Bool → CallClient → CallClient × Option Handling
flush_pending_candidates is_offer s = flush is_offer s.pc s.pending_candidates s

abbrev begin_description : Bool → Option Peer → CallClient → CallClient × Option Handling
begin_description is_offer none s = (s, none)
begin_description is_offer (some p) s = (s, some (describing is_offer p.id))

-- `handleServerOffer`, `handleServerAnswer` and `handleServerCandidate` up to their first `await`
unfoldable pub begin : Signal → CallClient → CallClient × Option Handling
begin (offered session) s =
    if session == s.session_id then begin_description true s.pc s else (s, none)
begin (answered session) s =
    if session == s.session_id then begin_description false s.pc s else (s, none)
begin (candidate session c) s =
    if not (session == s.session_id)
    then (s, none)
    else if is_described s.pc
    then (give c s, some adding_one)
    else (record s { pending_candidates = s.pending_candidates ++ c ∷ [] }, none)

-- The handler goes on: its promise was fulfilled (`true`) or rejected.
unfoldable pub settle_handler : Bool → Handling → CallClient → CallClient × Option Handling
unfolding flush_pending_candidates
settle_handler false (describing is_offer id) s = (s, none)
settle_handler true (describing is_offer id) s =
    flush_pending_candidates is_offer (record s { pc = describe id s.pc })
settle_handler ok (adding is_offer []) s = flushed is_offer s.pc s
settle_handler ok (adding is_offer (c ∷ cs)) s = (give c s, some (adding is_offer cs))
settle_handler ok adding_one s = (s, none)
settle_handler false answering s = (s, none)
settle_handler true answering s = (send (answer s.session_id) s, some replying)
settle_handler ok replying s = (s, none)

-- The tasks of the queue from the next on, until one waits.
unfoldable pub pump : List Signal → CallClient → Option Handling → SignalQueue
unfolding begin
pump waiting s (some h) = record { waiting = waiting; current = some h; client = s }
pump [] s none = record { waiting = []; current = none; client = s }
pump (x ∷ xs) s none = let (s', h) = begin x s in pump xs s' h

-- `enqueueSignal`
unfoldable pub enqueue_signal : Signal → SignalQueue → SignalQueue
unfolding pump
enqueue_signal x q = pump (q.waiting ++ x ∷ []) q.client q.current

abbrev settle_current : Bool → Option Handling → SignalQueue → SignalQueue
unfolding settle_handler pump
settle_current ok none q = q
settle_current ok (some h) q = let (s, next) = settle_handler ok h q.client in pump q.waiting s next

unfoldable pub settle_signal : Bool → SignalQueue → SignalQueue
unfolding settle_current
settle_signal ok q = settle_current ok q.current q

pub data SignalStep : Type 0 where
  hear : Signal → SignalStep
  settled : Bool → SignalStep

unfoldable pub run_signals : List SignalStep → SignalQueue → SignalQueue
unfolding enqueue_signal settle_signal
run_signals [] q = q
run_signals (hear x ∷ steps) q = run_signals steps (enqueue_signal x q)
run_signals (settled ok ∷ steps) q = run_signals steps (settle_signal ok q)
