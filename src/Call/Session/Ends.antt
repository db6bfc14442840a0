-- ===== src/Call/Session/Ends.antt =====
-- How long joining, leaving and recovering take.
use mini_discord.Prelude.{
  ℕ, ◌+◌, ◌*◌, ◌<◌, ◌≤◌, zero, suc, ◌≡◌, refl, Bool, true, false, Option, none, some, arith,
}
use mini_discord.Call.State.{CallClient, emit, local_stream}
use mini_discord.Call.Session.{
  Joined, Caller, owner, recovery, Task, sleeping, resuming, rejoining, creating, opening, offering,
  leaving, acquiring, joining, Next, waits, returned, rejected, Outcome, left, leave, fail, rejoin,
  go_on, open_session, begin_leave, join, session_lost,
}

-- The most promises that a caller waits for after `rejoin` has thrown.
abbrev pub caller_bound : Caller → ℕ
caller_bound owner = 0
caller_bound (recovery channel generation left) = 6 * left + 1

-- The most promises that a function waits for from here on.
abbrev pub bound : Task → ℕ
bound (sleeping channel generation left) = 6 * left + 7
bound (resuming channel caller) = caller_bound caller + 5
bound (rejoining channel caller) = caller_bound caller + 4
bound (creating n caller) = caller_bound caller + 3
bound (opening n caller) = caller_bound caller + 2
bound (offering caller) = caller_bound caller + 1
bound (leaving none) = 1
bound (leaving (some channel)) = 6
bound (acquiring channel) = 5
bound (joining channel has_stream) = 4

abbrev pub next_bound : Next → ℕ
next_bound (waits t) = bound t
next_bound n = 0

fail-bound : (c : Caller) (s : CallClient) → next_bound (fail c s).1 ≤ caller_bound c
unfolding fail leave
fail-bound owner s = ground arith
fail-bound (recovery channel generation zero) s = ground arith
fail-bound (recovery channel generation (suc n)) s = ground arith

open_session-bound :
    (c : Caller) (r : Joined) (s : CallClient)
    → next_bound (open_session c r s).1 ≤ caller_bound c + 3
unfolding open_session
open_session-bound c r s = ground (arith, fail-bound c s)

rejoin-bound :
    (channel : ℕ) (c : Caller) (s : CallClient)
    → next_bound (rejoin channel c s).1 ≤ caller_bound c + 5
unfolding rejoin
rejoin-bound channel c s = ground arith

go_on-bound : (t : Task) (o : Outcome t) (s : CallClient) → next_bound (go_on t o s).1 < bound t
unfolding go_on
go_on-bound (sleeping channel generation n) o s =
    ground (arith, rejoin-bound channel (recovery channel generation n) s)
go_on-bound (resuming channel c) none s = ground arith
go_on-bound (resuming channel c) (some users) s = ground arith
go_on-bound (rejoining channel c) none s = ground (arith, fail-bound c s)
go_on-bound (rejoining channel c) (some r) s = ground (arith, open_session-bound c r s)
go_on-bound (creating n c) true s = ground arith
go_on-bound (creating n c) false s = ground (arith, fail-bound c s)
go_on-bound (opening n c) true s = ground arith
go_on-bound (opening n c) false s = ground (arith, fail-bound c s)
go_on-bound (offering c) true s = ground arith
go_on-bound (offering c) false s = ground (arith, fail-bound c s)
go_on-bound (leaving none) o s = ground arith
go_on-bound (leaving (some channel)) o s = ground arith
go_on-bound (acquiring channel) none s = ground arith
go_on-bound (acquiring channel) (some message) s = ground arith
go_on-bound (joining channel b) none s = ground arith
go_on-bound (joining channel b) (some r) s = ground (
  arith,
  open_session-bound owner r (
      emit (local_stream b)
        (record s { camera_enabled = false; has_stream = b; camera_track = none })),
)

abbrev pub is_waiting : Next → Bool
is_waiting (waits t) = true
is_waiting n = false

-- What is left after so many promises. The `n`th settles to `outcomes n`, after the rest of the
-- program has changed the client by `others n`.
abbrev pub after :
    ((n : ℕ) (t : Task) → Outcome t) → (ℕ → CallClient → CallClient) → ℕ → CallClient × Next → Next
unfolding go_on
after outcomes others zero (s, next) = next
after outcomes others (suc n) (s, waits t) =
    after outcomes others n (go_on t (outcomes n t) (others n s))
after outcomes others (suc n) (s, returned) = returned
after outcomes others (suc n) (s, rejected) = rejected

bound_positive : (t : Task) → 1 ≤ bound t
bound_positive (leaving none) = ground arith
bound_positive (leaving (some channel)) = ground arith
bound_positive t = ground arith

after-done :
    (outcomes : (n : ℕ) (t : Task) → Outcome t) (others : ℕ → CallClient → CallClient) (n : ℕ)
    (r : CallClient × Next)
    → next_bound r.1 ≤ n
    → is_waiting (after outcomes others n r) ≡ false
unfolding after
after-done outcomes others zero (s, waits t) h = ground (arith, h, bound_positive t)
after-done outcomes others zero (s, returned) h = refl
after-done outcomes others zero (s, rejected) h = refl
after-done outcomes others (suc n) (s, waits t) h =
    after-done outcomes others n (go_on t (outcomes n t) (others n s))
      (ground (arith, h, go_on-bound t (outcomes n t) (others n s)))
after-done outcomes others (suc n) (s, returned) h = refl
after-done outcomes others (suc n) (s, rejected) h = refl

begin_leave-bound :
    (then_join : Option ℕ) (s : CallClient) → next_bound (begin_leave then_join s).1 ≤ 6
unfolding begin_leave
begin_leave-bound then_join s = ground arith

-- Whatever the promises settle to and whatever the rest of the program does to the client between
-- them, `join` is done after at most 6 promises, `leave` after 1, a `rejoin` of the client's owner
-- after 5, and the recovery of a lost session after 19.
pub calls_end :
    (outcomes : (n : ℕ) (t : Task) → Outcome t) (others : ℕ → CallClient → CallClient) (channel : ℕ)
    (is_open : Bool) (s : CallClient)
    → (is_waiting (after outcomes others 6 (join channel s)) ≡ false)
      × (is_waiting (after outcomes others 1 (leave s)) ≡ false)
      × (is_waiting (after outcomes others 5 (rejoin channel owner s)) ≡ false)
      × (is_waiting (after outcomes others 19 (session_lost is_open s)) ≡ false)
unfolding join leave session_lost
calls_end outcomes others channel is_open s = (
  after-done outcomes others 6 (join channel s)
      (ground (arith, begin_leave-bound (some channel) s)),
  after-done outcomes others 1 (leave s) (ground arith),
  after-done outcomes others 5 (rejoin channel owner s) (rejoin-bound channel owner s),
  after-done outcomes others 19 (session_lost is_open s) (ground arith),
)
