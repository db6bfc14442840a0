-- ===== src/Unread/Marks.antt =====
-- The read marks that any sequence of the hook's actions sends.
use mini_discord.Prelude.{
  ℕ, ◌≤◌, ◌<◌, ◌==◌, ◌≡◌, refl, ap, Bool, true, false, List, [], ◌∷◌, ◌++◌, Option, none, some,
  if◌then◌else◌, put, max, arith, Bool-cases, inl, inr, append-nil,
}
use mini_discord.Wire.{Message, ChannelUnread}
use mini_discord.Unread.{
  Unread, Mark, Page, initial, clear_count, clear_mention, note_known, drop_timer, send_pending,
  flush_channel, flush_channels, flush_all, timer_fired, schedule_send, mark_channel_read, incoming,
  refresh_unread, view_selected, last_id,
}

-- What can happen to the hook.
pub data Action : Type 0 where
  reads : Bool → ℕ → ℕ → ℕ → Bool → Action
  fires : Bool → ℕ → ℕ → Action
  leaves : Bool → ℕ → ℕ → Action
  hides : Bool → ℕ → Action
  receives : Page → Bool → ℕ → Message → Action
  refreshes : List ChannelUnread → Action
  views : Page → Bool → ℕ → List Message → Action

unfoldable pub step : Action → Unread → Unread
unfolding mark_channel_read timer_fired flush_channel flush_all incoming refresh_unread
    view_selected
step (Action.reads is_open now c m force) s = mark_channel_read is_open now c m force s
step (Action.fires is_open now c) s = timer_fired is_open now c s
step (Action.leaves is_open now c) s = flush_channel is_open now c s
step (Action.hides is_open now) s = flush_all is_open now s
step (Action.receives page is_open now message) s = incoming page is_open now message s
step (Action.refreshes channels) s = refresh_unread channels s
step (Action.views page is_open now loaded) s = view_selected page is_open now loaded s

unfoldable pub run : List Action → Unread → Unread
unfolding step
run [] s = s
run (a ∷ rest) s = run rest (step a s)

-- The message ids of one channel's marks, in the order of sending.
abbrev pub ids : ℕ → List Mark → List ℕ
ids k [] = []
ids k (m ∷ ms) = let rest = ids k ms in if k == m.channel_id then m.message_id ∷ rest else rest

-- Each id is greater than the one before, the first greater than `low`.
abbrev pub Rising : ℕ → List ℕ → Type 0
Rising low [] = Unit {0}
Rising low (x ∷ xs) = (low < x) × Rising x xs

abbrev top : ℕ → List ℕ → ℕ
top low [] = low
top low (x ∷ xs) = top x xs

Rising-append :
    (low : ℕ) (xs : List ℕ) (x : ℕ)
    → Rising low xs
    → top low xs < x
    → Rising low (xs ++ x ∷ []) × (top low (xs ++ x ∷ []) ≡ x)
Rising-append low [] x h lt = ((lt, tt), refl)
Rising-append low (y ∷ xs) x h lt = let (r, t) = Rising-append y xs x h.1 lt in ((h.0, r), t)

pub ids-append :
    (k : ℕ) (ms : List Mark) (m : Mark)
    → ids k (ms ++ m ∷ []) ≡ ids k ms ++ (if k == m.channel_id then m.message_id ∷ [] else [])
ids-append k [] m = refl
ids-append k (x ∷ ms) m =
    let ih = ids-append k ms m in
    elim (Bool-cases (k == x.channel_id)) [
      | inl e ↦ rw e (ap (λ l. x.message_id ∷ l) ih)
      | inr e ↦ rw e ih
    ]

-- The marks of the channel rise, up to what was sent last.
abbrev Ordered : ℕ → List Mark → (ℕ → ℕ) → Type 0
Ordered k marks last = Rising 0 (ids k marks) × (top 0 (ids k marks) ≤ last k)

-- A mark above the last one.
append-Ordered :
    (k c m : ℕ) (marks : List Mark) (last : ℕ → ℕ)
    → last c < m
    → Ordered k marks last
    → Ordered k (marks ++ record { channel_id = c; message_id = m } ∷ []) (put c m last)
append-Ordered k c m marks last lt h =
    rw (ids-append k marks (record { channel_id = c; message_id = m })) (
      ground (
        arith,
        append-nil (ids k marks),
        λ (t : top 0 (ids k marks) < m). Rising-append 0 (ids k marks) m h.0 t,
      ))

-- A mark that the socket drops.
skip-Ordered :
    (k c m : ℕ) (marks : List Mark) (last : ℕ → ℕ)
    → last c < m
    → Ordered k marks last
    → Ordered k marks (put c m last)
skip-Ordered k c m marks last lt h = (h.0, ground arith)

-- A predicate of the marks and of what was sent last, which is kept where a mark above the last one of
-- its channel is sent, or dropped by the socket.
module _ (P : List Mark → (ℕ → ℕ) → Type 0)
    (sent : (c m : ℕ) (marks : List Mark) (last : ℕ → ℕ)
      → last c < m
      → P marks last
      → P (marks ++ record { channel_id = c; message_id = m } ∷ []) (put c m last))
    (skipped : (c m : ℕ) (marks : List Mark) (last : ℕ → ℕ)
      → last c < m
      → P marks last
      → P marks (put c m last)) where
  abbrev Keeps : Unread → Type 0
  Keeps s = P s.marks s.last_sent

  send_pending-Keeps :
      (is_open : Bool) (now c : ℕ) (o : Option ℕ) (s : Unread)
      → P s.marks s.last_sent
      → let t = send_pending is_open now c o s in P t.marks t.last_sent
  send_pending-Keeps is_open now c none s h = h
  send_pending-Keeps true now c (some m) s h =
      ground (arith, λ (lt : s.last_sent c < m). sent c m s.marks s.last_sent lt h)
  send_pending-Keeps false now c (some m) s h =
      ground (arith, λ (lt : s.last_sent c < m). skipped c m s.marks s.last_sent lt h)

  flush_channel-Keeps :
      (is_open : Bool) (now c : ℕ) (s : Unread) → Keeps s → Keeps (flush_channel is_open now c s)
  unfolding flush_channel
  flush_channel-Keeps is_open now c s h =
      send_pending-Keeps is_open now c (s.pending c) (record s { timers = drop_timer c s.timers }) h

  flush_channels-Keeps :
      (is_open : Bool) (now : ℕ) (cs : List ℕ) (s : Unread)
      → Keeps s
      → Keeps (flush_channels is_open now cs s)
  unfolding flush_channels
  flush_channels-Keeps is_open now [] s h = h
  flush_channels-Keeps is_open now (c ∷ cs) s h =
      flush_channels-Keeps is_open now cs (flush_channel is_open now c s)
        (flush_channel-Keeps is_open now c s h)

  timer_fired-Keeps :
      (is_open : Bool) (now c : ℕ) (s : Unread) → Keeps s → Keeps (timer_fired is_open now c s)
  unfolding timer_fired
  timer_fired-Keeps is_open now c s h = ground (
    send_pending-Keeps is_open now c (s.pending c) (record s { timers = drop_timer c s.timers }) h,
    arith,
  )

  schedule_send-Keeps :
      (is_open : Bool) (now c m : ℕ) (force : Bool) (s : Unread)
      → Keeps s
      → Keeps (schedule_send is_open now c m force s)
  unfolding schedule_send
  schedule_send-Keeps is_open now c m force s h =
      let s₁ : Unread = record s { pending = put c (some m) s.pending } in
      ground (
        flush_channel-Keeps is_open now c s₁ h,
        send_pending-Keeps is_open now c (s₁.pending c) s₁ h,
        arith,
      )

  mark_channel_read-Keeps :
      (is_open : Bool) (now c m : ℕ) (force : Bool) (s : Unread)
      → Keeps s
      → Keeps (mark_channel_read is_open now c m force s)
  unfolding mark_channel_read
  mark_channel_read-Keeps is_open now c m force s h = ground (
    schedule_send-Keeps is_open now c m force
        (record s {
          unread_by_channel = clear_count c s.unread_by_channel;
          unread_mention_by_channel = clear_mention c s.unread_mention_by_channel;
        })
        h,
    arith,
  )

  note_known-Keeps : (message : Message) (s : Unread) → Keeps s → Keeps (note_known message s)
  note_known-Keeps message s h = ground arith

  incoming-Keeps :
      (page : Page) (is_open : Bool) (now : ℕ) (message : Message) (s : Unread)
      → Keeps s
      → Keeps (incoming page is_open now message s)
  unfolding incoming
  incoming-Keeps page is_open now message s h =
      let known = note_known-Keeps message s h in
      ground (
        known,
        mark_channel_read-Keeps is_open now message.channel_id message.id false
            (note_known message s) known,
        arith,
      )

  view_selected-Keeps :
      (page : Page) (is_open : Bool) (now : ℕ) (loaded : List Message) (s : Unread)
      → Keeps s
      → Keeps (view_selected page is_open now loaded s)
  unfolding view_selected
  view_selected-Keeps page is_open now loaded s h =
      let c = page.selected_channel_id in
      let m = max (s.last_message_id c) (last_id loaded) in
      ground (
        mark_channel_read-Keeps is_open now c m false
            (record s { last_message_id = put c m s.last_message_id }) h,
        arith,
      )

  step-Keeps : (a : Action) (s : Unread) → Keeps s → Keeps (step a s)
  unfolding step flush_all refresh_unread
  step-Keeps (Action.reads is_open now c m force) s h =
      mark_channel_read-Keeps is_open now c m force s h
  step-Keeps (Action.fires is_open now c) s h = timer_fired-Keeps is_open now c s h
  step-Keeps (Action.leaves is_open now c) s h = flush_channel-Keeps is_open now c s h
  step-Keeps (Action.hides is_open now) s h = flush_channels-Keeps is_open now s.timers s h
  step-Keeps (Action.receives page is_open now message) s h =
      incoming-Keeps page is_open now message s h
  step-Keeps (Action.refreshes channels) s h = h
  step-Keeps (Action.views page is_open now loaded) s h =
      view_selected-Keeps page is_open now loaded s h

  pub run-Keeps : (actions : List Action) (s : Unread) → Keeps s → Keeps (run actions s)
  unfolding run
  run-Keeps [] s h = h
  run-Keeps (a ∷ actions) s h = run-Keeps actions (step a s) (step-Keeps a s h)

-- Whatever happens, the read marks sent for a channel name ever greater message ids: a channel's
-- mark never moves back and no mark is sent twice.
pub marks-Rising : (k : ℕ) (actions : List Action) → Rising 0 (ids k (run actions initial).marks)
unfolding initial
marks-Rising k actions =
    (run-Keeps (Ordered k) (append-Ordered k) (skip-Ordered k) actions initial (tt, omega arith)).0
