-- ===== src/Call/Run/Recovery.antt =====
-- The recovery of a lost session.
use mini_discord.Prelude.{
  ℕ, zero, suc, ◌==◌, ◌+◌, ◌≤◌, ◌≡◌, refl, sym, ap, ◌∙◌, Bool, true, false, not, ◌&&◌, List, [],
  ◌∷◌, ◌++◌, none, some, if◌then◌else◌, arith, is_some,
}
use mini_discord.Call.State.{
  Tile, CallClient, connected, reconnecting, Notice, status, remote_left, quality_cleared, new,
  emit,
}
use mini_discord.Call.Video.Closed.{is_remote}
use mini_discord.Call.Signals.Closed.{SignalLaws}
use mini_discord.Call.Session.{
  Joined, Caller, recovery, sleeping, rejoining, waits, returned, teardown, tell_gone,
  apply_session, open_peer, finish_leave, leave, go_on, fail, resuming, leaving,
}
use mini_discord.Call.Session.Closed.{SessionLaws, is_call_status}
use mini_discord.Call.Run.{Running, Happening, run, start, with_client}
use mini_discord.Call.Run.Closed.{VideoLaws, Any, plain_video, run_any-P}

-- There is a peer connection exactly while there is a session.
abbrev pub Matched : CallClient → Type 0
Matched s = is_some s.pc ≡ not (s.session_id == 0)

Matched-video : (live : ℕ → Bool) → VideoLaws live Any Matched
Matched-video live =
    plain_video live Matched
      (record {
        tells_remote = λ e s r p. p;
        redraws = λ users tiles slots hidden pending debouncing s p. p;
      })
      (record {
        subscribes = λ session k t s p. p;
        resubscribes = λ subscribed speakers s p. p;
        clears = λ s p. p;
      })

Matched-session : SessionLaws Matched
unfolding teardown apply_session open_peer
Matched-session = record {
  asks = λ c s e p. p;
  tells = λ e s n p. p;
  keeps_media = λ users has_stream track enabled screen sampling s p. p;
  torn_down = λ s p. refl;
  session_opened = λ r s e p. sym (ap not e);
  session_resumed = λ s p. p;
  loss_ignored = λ s h c p. p;
  loss_told = λ s h c p. p;
}

Matched-signals : SignalLaws Matched
Matched-signals = record { answers = λ session s p. p; peer_changes = λ o cs s e p. e ∙ p }

-- After any happenings, in any order: the client has a peer connection exactly while it has a
-- session.
pub run-Matched :
    (live : ℕ → Bool) (self : ℕ) (xs : List Happening) → Matched (run live xs (start self)).client
unfolding start new
run-Matched live self xs =
    run_any-P live Matched (Matched-video live) Matched-signals Matched-session xs (start self) refl

-- The generation has reached `g`.
abbrev pub Reached : ℕ → CallClient → Type 0
Reached g s = g ≤ s.recovery_generation

Reached-session : (g : ℕ) → SessionLaws (Reached g)
unfolding teardown apply_session open_peer
Reached-session g = record {
  asks = λ c s e p. p;
  tells = λ e s n p. p;
  keeps_media = λ users has_stream track enabled screen sampling s p. p;
  torn_down = λ s p. ground (arith, p);
  session_opened = λ r s e p. p;
  session_resumed = λ s p. p;
  loss_ignored = λ s h c p. p;
  loss_told = λ s h c p. p;
}

run-Reached :
    (live : ℕ → Bool) (g : ℕ) (xs : List Happening) (q : Running)
    → Reached g q.client
    → Reached g (run live xs q).client
run-Reached live g xs q =
    run_any-P live (Reached g)
      (plain_video live (Reached g)
        (record {
          tells_remote = λ e s r p. p;
          redraws = λ users tiles slots hidden pending debouncing s p. p;
        })
        (record {
          subscribes = λ session k t s p. p;
          resubscribes = λ subscribed speakers s p. p;
          clears = λ s p. p;
        }))
      (record { answers = λ session s p. p; peer_changes = λ o cs s e p. p }) (Reached-session g) xs
      q

teardown-Reached :
    (g : ℕ) (s : CallClient) → g ≤ s.recovery_generation → Reached (g + 1) (teardown s)
unfolding teardown
teardown-Reached g s h = ground (arith, h)

-- A recovery that sleeps wakes for nothing in a later generation.
wake_stale :
    (channel g n : ℕ) (is_open : Bool) (s : CallClient)
    → Reached (g + 1) s
    → go_on (sleeping channel g n) is_open s ≡ (s, returned)
unfolding go_on
wake_stale channel g n is_open s h =
    let stale : (g == s.recovery_generation) ≡ false = ground (arith, h) in rw stale refl

-- When `leave` has gone on after telling the server, a recovery that sleeps and had started before
-- changes nothing when it wakes, whatever has happened since, and is over.
pub leave_stops_recovery :
    (live : ℕ → Bool) (channel g n : ℕ) (told is_open : Bool) (q : Running) (xs : List Happening)
    → g ≤ q.client.recovery_generation
    → let s = (run live xs (with_client (go_on (leaving none) told q.client).0 q)).client in
      go_on (sleeping channel g n) is_open s ≡ (s, returned)
unfolding go_on finish_leave teardown
leave_stops_recovery live channel g n told is_open q xs h =
    let q₁ = with_client (go_on (leaving none) told q.client).0 q in
    wake_stale channel g n is_open (run live xs q₁).client
      (run-Reached live (g + 1) xs q₁ (ground (arith, h)))

-- When the session of a recovery cannot be resumed and joining the channel anew fails too, the
-- recovery ends: with a delay left, it sleeps and then changes nothing, whatever has happened since;
-- without one, it ends there. It neither tries again nor tells that the call is lost.
pub recovery_tries_once :
    (live : ℕ → Bool) (channel g n : ℕ) (is_open : Bool) (q : Running) (xs ys : List Happening)
    → g ≤ q.client.recovery_generation
    → let started =
        with_client (go_on (resuming channel (recovery channel g n)) none q.client).0 q in
      let q₁ = run live xs started in
      let s = (run live ys q₁).client in
      (go_on (rejoining channel (recovery channel g (suc n))) none q₁.client
        ≡ (q₁.client, waits (sleeping channel g n)))
      × (go_on (sleeping channel g n) is_open s ≡ (s, returned))
      × (go_on (rejoining channel (recovery channel g zero)) none q₁.client ≡ (q₁.client, returned))
unfolding go_on fail teardown
recovery_tries_once live channel g n is_open q xs ys h =
    let started = with_client (go_on (resuming channel (recovery channel g n)) none q.client).0 q in
    let q₁ = run live xs started in
    let at_once = run-Reached live (g + 1) xs started (ground (arith, h)) in
    let stale : (g == q₁.client.recovery_generation) ≡ false = ground (arith, at_once) in
    (
      refl,
      wake_stale channel g n is_open (run live ys q₁).client
          (run-Reached live (g + 1) ys q₁ at_once),
      rw stale refl,
    )

-- While a recovery joins the channel anew, `leave` sends the server nothing, and when the channel is
-- joined afterwards the client is in the call again.
pub leave_undone :
    (channel : ℕ) (c : Caller) (r : Joined) (s : CallClient)
    → (r.session == 0) ≡ false
    → let joining_anew = (go_on (resuming channel c) none s).0 in
      let gone = (leave joining_anew).0 in
      ((leave joining_anew).1 ≡ returned)
      × (gone.sent ≡ joining_anew.sent)
      × ((go_on (rejoining channel c) (some r) gone).0.channel_id ≡ r.channel)
      × ((go_on (rejoining channel c) (some r) gone).0.session_id ≡ r.session)
unfolding go_on leave teardown finish_leave apply_session open_peer
leave_undone channel c r s e = ground (arith, e)

abbrev is_reconnecting : Notice → Bool
is_reconnecting (status reconnecting) = true
is_reconnecting e = false

abbrev is_connected : Notice → Bool
is_connected (status connected) = true
is_connected e = false

abbrev pub told : (Notice → Bool) → List Notice → ℕ
told p [] = 0
told p (e ∷ es) = if p e then 1 + told p es else told p es

told-append :
    (p : Notice → Bool) (es : List Notice) (e : Notice)
    → told p (es ++ e ∷ []) ≡ told p es + (if p e then 1 else 0)
told-append p [] e = ground arith
told-append p (x ∷ es) e = ground (arith, told-append p es e)

-- A loss can be handled.
abbrev pub can_lose : CallClient → Bool
can_lose s = not s.session_lost_handled && not (s.channel_id == 0)

-- `reconnecting` was told at most as often as `connected`, less often while a loss can be handled.
abbrev pub Counted : CallClient → Type 0
Counted s =
    told is_reconnecting s.emitted + (if can_lose s then 1 else 0) ≤ told is_connected s.emitted

emit-Counted :
    (e : Notice) (s : CallClient) → is_call_status e ≡ false → Counted s → Counted (emit e s)
emit-Counted e s n p =
    rw (told-append is_reconnecting s.emitted e, told-append is_connected s.emitted e)
      (ground (arith, p, n))

remote-Counted : (e : Notice) (s : CallClient) → is_remote e ≡ true → Counted s → Counted (emit e s)
remote-Counted e s r p =
    let quiet : is_call_status e ≡ false = ground (arith, r) in emit-Counted e s quiet p

tell_gone-Counted :
    (tiles : List (ℕ × Tile)) (s : CallClient) → Counted s → Counted (tell_gone tiles s)
tell_gone-Counted [] s p = p
tell_gone-Counted ((user, tile) ∷ tiles) s p =
    tell_gone-Counted tiles (emit (remote_left user) s) (emit-Counted (remote_left user) s refl p)

teardown-Counted : (s : CallClient) → Counted s → Counted (teardown s)
unfolding teardown
teardown-Counted s p =
    let s₁ = tell_gone s.tiles s in
    let p₁ = tell_gone-Counted s.tiles s p in
    emit-Counted quality_cleared (record s₁ { channel_id = 0 }) refl (ground (arith, p₁))

connect-Counted :
    (s s' : CallClient) → s'.emitted ≡ s.emitted → Counted s → Counted (emit (status connected) s')
connect-Counted s s' e p =
    rw
      (
        told-append is_reconnecting s'.emitted (status connected),
        told-append is_connected s'.emitted (status connected),
        e,
      )
      (ground (arith, p))

reconnect-Counted :
    (s : CallClient)
    → s.session_lost_handled ≡ false
    → (s.channel_id == 0) ≡ false
    → Counted s
    → Counted (emit (status reconnecting) (record s { session_lost_handled = true }))
reconnect-Counted s h c p =
    rw
      (
        told-append is_reconnecting s.emitted (status reconnecting),
        told-append is_connected s.emitted (status reconnecting),
      )
      (ground (arith, h, c, p))

Counted-session : SessionLaws Counted
unfolding apply_session open_peer
Counted-session = record {
  asks = λ c s e p. p;
  tells = emit-Counted;
  keeps_media = λ users has_stream track enabled screen sampling s p. p;
  torn_down = teardown-Counted;
  session_opened = λ r s e p.
      connect-Counted s
        (record s {
          session_lost_handled = false;
          session_id = r.session;
          publish_slots = r.slots;
          channel_id = r.channel;
        })
        refl p;
  session_resumed = λ s p. connect-Counted s (record s { session_lost_handled = false }) refl p;
  loss_ignored = λ s h c p. ground (arith, p);
  loss_told = reconnect-Counted;
}

-- After any happenings, in any order: the client has told that it is reconnecting at most as often as
-- that it is connected, and less often while it is in a channel and has not handled a loss; so one
-- loss, told by the server and by the peer connection, starts one recovery.
pub run-Counted :
    (live : ℕ → Bool) (self : ℕ) (xs : List Happening) → Counted (run live xs (start self)).client
unfolding start new
run-Counted live self xs =
    run_any-P live Counted
      (plain_video live Counted
        (record {
          tells_remote = remote-Counted;
          redraws = λ users tiles slots hidden pending debouncing s p. p;
        })
        (record {
          subscribes = λ session k t s p. p;
          resubscribes = λ subscribed speakers s p. p;
          clears = λ s p. p;
        }))
      (record { answers = λ session s p. p; peer_changes = λ o cs s e p. p }) Counted-session xs
      (start self) (ground arith)
