-- ===== src/Unread/Pending.antt =====
-- A read mark that waits has a timer, and hiding the page sends all that wait.
use mini_discord.Prelude.{
  ℕ, ◌==◌, ◌≡◌, refl, ◌⊎◌, Bool, true, false, ◌||◌, List, [], ◌∷◌, ◌++◌, Option, none, some,
  if◌then◌else◌, includes, put, max, arith, inl,
}
use mini_discord.Wire.{Message}
use mini_discord.Unread.{
  Unread, Page, initial, clear_count, clear_mention, note_known, drop_timer, send_pending, send_now,
  flush_channel, flush_channels, flush_all, timer_fired, schedule_send, mark_channel_read, incoming,
  refresh_unread, view_selected, last_id,
}
use mini_discord.Unread.Marks.{Action, step, run}

includes-drop_timer :
    (k c : ℕ) (ts : List ℕ) → (k == c) ≡ false → includes k (drop_timer c ts) ≡ includes k ts
includes-drop_timer k c [] e = refl
includes-drop_timer k c (t ∷ ts) e = let ih = includes-drop_timer k c ts e in ground arith

includes-append : (k c : ℕ) (ts : List ℕ) → includes k (ts ++ c ∷ []) ≡ (includes k ts || c == k)
includes-append k c [] = ground arith
includes-append k c (t ∷ ts) = let ih = includes-append k c ts in ground arith

-- A channel with a waiting mark has a timer, for the channel `k`.
abbrev CoveredAt : ℕ → Unread → Type 0
CoveredAt k s = (s.pending k ≡ none) ⊎ (includes k s.timers ≡ true)

-- `send_now` leaves no mark of its channel, and nothing else that waits changes.
send_pending-pending :
    (k : ℕ) (is_open : Bool) (now c : ℕ) (o : Option ℕ) (s : Unread)
    → s.pending c ≡ o
    → (send_pending is_open now c o s).pending k ≡ (if k == c then none else s.pending k)
send_pending-pending k is_open now c none s e = ground arith
send_pending-pending k is_open now c (some m) s e = ground arith

send_pending-timers :
    (is_open : Bool) (now c : ℕ) (o : Option ℕ) (s : Unread)
    → (send_pending is_open now c o s).timers ≡ s.timers
send_pending-timers is_open now c none s = refl
send_pending-timers is_open now c (some m) s = ground arith

send_now-CoveredAt :
    (k : ℕ) (is_open : Bool) (now c : ℕ) (s : Unread)
    → ((k == c) ≡ false → CoveredAt k s)
    → CoveredAt k (send_now is_open now c s)
unfolding send_now
send_now-CoveredAt k is_open now c s h =
    rw
      (
        send_pending-pending k is_open now c (s.pending c) s refl,
        send_pending-timers is_open now c (s.pending c) s,
      )
      (ground (arith, h))

flush_channel-CoveredAt :
    (k : ℕ) (is_open : Bool) (now c : ℕ) (s : Unread)
    → ((k == c) ≡ false → CoveredAt k s)
    → CoveredAt k (flush_channel is_open now c s)
unfolding flush_channel
flush_channel-CoveredAt k is_open now c s h =
    send_now-CoveredAt k is_open now c (record s { timers = drop_timer c s.timers })
      (λ e. rw (includes-drop_timer k c s.timers e) (h e))

flush_channels-CoveredAt :
    (k : ℕ) (is_open : Bool) (now : ℕ) (cs : List ℕ) (s : Unread)
    → CoveredAt k s
    → CoveredAt k (flush_channels is_open now cs s)
unfolding flush_channels
flush_channels-CoveredAt k is_open now [] s h = h
flush_channels-CoveredAt k is_open now (c ∷ cs) s h =
    flush_channels-CoveredAt k is_open now cs (flush_channel is_open now c s)
      (flush_channel-CoveredAt k is_open now c s (λ _. h))

timer_fired-CoveredAt :
    (k : ℕ) (is_open : Bool) (now c : ℕ) (s : Unread)
    → CoveredAt k s
    → CoveredAt k (timer_fired is_open now c s)
unfolding timer_fired
timer_fired-CoveredAt k is_open now c s h = ground (
  send_now-CoveredAt k is_open now c (record s { timers = drop_timer c s.timers })
      (λ e. rw (includes-drop_timer k c s.timers e) h),
  arith,
)

schedule_send-CoveredAt :
    (k : ℕ) (is_open : Bool) (now c m : ℕ) (force : Bool) (s : Unread)
    → CoveredAt k s
    → CoveredAt k (schedule_send is_open now c m force s)
unfolding schedule_send
schedule_send-CoveredAt k is_open now c m force s h =
    let s₁ : Unread = record s { pending = put c (some m) s.pending } in
    let others : (k == c) ≡ false → CoveredAt k s₁ = λ e. rw e h in
    ground (
      flush_channel-CoveredAt k is_open now c s₁ others,
      send_now-CoveredAt k is_open now c s₁ others,
      includes-append k c s.timers,
      h,
      arith,
    )

mark_channel_read-CoveredAt :
    (k : ℕ) (is_open : Bool) (now c m : ℕ) (force : Bool) (s : Unread)
    → CoveredAt k s
    → CoveredAt k (mark_channel_read is_open now c m force s)
unfolding mark_channel_read
mark_channel_read-CoveredAt k is_open now c m force s h = ground (
  schedule_send-CoveredAt k is_open now c m force
      (record s {
        unread_by_channel = clear_count c s.unread_by_channel;
        unread_mention_by_channel = clear_mention c s.unread_mention_by_channel;
      })
      h,
  arith,
)

incoming-CoveredAt :
    (k : ℕ) (page : Page) (is_open : Bool) (now : ℕ) (message : Message) (s : Unread)
    → CoveredAt k s
    → CoveredAt k (incoming page is_open now message s)
unfolding incoming
incoming-CoveredAt k page is_open now message s h =
    let known : CoveredAt k (note_known message s) = ground (h, arith) in
    ground (
      known,
      mark_channel_read-CoveredAt k is_open now message.channel_id message.id false
          (note_known message s) known,
      arith,
    )

view_selected-CoveredAt :
    (k : ℕ) (page : Page) (is_open : Bool) (now : ℕ) (loaded : List Message) (s : Unread)
    → CoveredAt k s
    → CoveredAt k (view_selected page is_open now loaded s)
unfolding view_selected
view_selected-CoveredAt k page is_open now loaded s h =
    let c = page.selected_channel_id in
    let m = max (s.last_message_id c) (last_id loaded) in
    ground (
      mark_channel_read-CoveredAt k is_open now c m false
          (record s { last_message_id = put c m s.last_message_id }) h,
      h,
      arith,
    )

step-CoveredAt : (k : ℕ) (a : Action) (s : Unread) → CoveredAt k s → CoveredAt k (step a s)
unfolding step flush_all refresh_unread
step-CoveredAt k (Action.reads is_open now c m force) s h =
    mark_channel_read-CoveredAt k is_open now c m force s h
step-CoveredAt k (Action.fires is_open now c) s h = timer_fired-CoveredAt k is_open now c s h
step-CoveredAt k (Action.leaves is_open now c) s h =
    flush_channel-CoveredAt k is_open now c s (λ _. h)
step-CoveredAt k (Action.hides is_open now) s h =
    flush_channels-CoveredAt k is_open now s.timers s h
step-CoveredAt k (Action.receives page is_open now message) s h =
    incoming-CoveredAt k page is_open now message s h
step-CoveredAt k (Action.refreshes channels) s h = h
step-CoveredAt k (Action.views page is_open now loaded) s h =
    view_selected-CoveredAt k page is_open now loaded s h

run-CoveredAt :
    (k : ℕ) (actions : List Action) (s : Unread) → CoveredAt k s → CoveredAt k (run actions s)
unfolding run
run-CoveredAt k [] s h = h
run-CoveredAt k (a ∷ actions) s h = run-CoveredAt k actions (step a s) (step-CoveredAt k a s h)

flush_channel-pending :
    (k : ℕ) (is_open : Bool) (now c : ℕ) (s : Unread)
    → (flush_channel is_open now c s).pending k ≡ (if k == c then none else s.pending k)
unfolding flush_channel send_now
flush_channel-pending k is_open now c s =
    send_pending-pending k is_open now c (s.pending c) (record s { timers = drop_timer c s.timers })
      refl

flush_channels-pending :
    (k : ℕ) (is_open : Bool) (now : ℕ) (cs : List ℕ) (s : Unread)
    → (flush_channels is_open now cs s).pending k ≡ (if includes k cs then none else s.pending k)
unfolding flush_channels
flush_channels-pending k is_open now [] s = refl
flush_channels-pending k is_open now (c ∷ cs) s =
    let rest = flush_channels-pending k is_open now cs (flush_channel is_open now c s) in
    let first = flush_channel-pending k is_open now c s in ground (arith, rest, first)

-- After any sequence of actions, hiding the page leaves no read mark waiting in any channel.
pub flush_all-none :
    (actions : List Action) (is_open : Bool) (now k : ℕ)
    → (flush_all is_open now (run actions initial)).pending k ≡ none
unfolding flush_all initial
flush_all-none actions is_open now k =
    let s = run actions initial in
    let covered = run-CoveredAt k actions initial (inl refl) in
    let rest = flush_channels-pending k is_open now s.timers s in ground (arith, rest, covered)
