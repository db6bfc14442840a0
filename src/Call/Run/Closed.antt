-- ===== src/Call/Run/Closed.antt =====
-- A predicate of the client that each part of it keeps holds after any happenings.
use mini_discord.Prelude.{
  All, ℕ, Bool, true, List, [], ◌∷◌, Option, none, some, inl, inr, Bool-cases,
}
use mini_discord.Wire.{VoiceParticipant}
use mini_discord.Call.State.{Source, Kind, Key, delete_user, CallClient}
use mini_discord.Call.Video.{
  handle_track, video_ended, other_ended, track_published, track_unpublished, flush_subscriptions,
  subscribe_failed, active_speakers, user_left, user_joined,
}
use mini_discord.Call.Video.Closed.{
  TileLaws, SubscriptionLaws, handle_track-P, video_ended-P, other_ended-P, track_published-P,
  track_unpublished-P, user_joined-P, user_left-P, flush_subscriptions-P, subscribe_failed-P,
  active_speakers-P,
}
use mini_discord.Call.Signals.Closed.{SignalLaws, enqueue_signal-P, settle_signal-P}
use mini_discord.Call.Session.{
  Task, Next, waits, returned, rejected, Outcome, owner, go_on, join, leave, rejoin, session_closed,
  connection_failed,
}
use mini_discord.Call.Session.Closed.{
  SessionLaws, leave-P, join-P, rejoin-P, go_on-P, session_closed-P, connection_failed-P,
  sfu_error-P, sync_participants-P,
}
use mini_discord.Call.Run.{
  Running, Happening, owner_joins, owner_rejoins, owner_leaves, owner_syncs, promise_settles,
  signal_arrives, signal_settles, track_arrives, track_ends, other_ends, track_is_published,
  track_is_unpublished, debounce_ends, subscription_fails, speakers_change, user_joins, user_leaves,
  session_closes, peer_fails, error_arrives, happen, run, task_at, remove_task, add_task,
  settle_task, signals_of,
}

-- What the events of tracks and users keep, where tracks arrive and end as `Fits` says.
pub record VideoLaws (live : ℕ → Bool) (Fits : Happening → Type 0) (P : CallClient → Type 0)
    : Type 0 where
  pub arrives :
      (user : ℕ) (source : Source) (kind : Kind) (t : ℕ) (s : CallClient)
      → Fits (track_arrives user source kind t)
      → P s
      → P (handle_track live user source kind t s)
  pub video_ends :
      (user : ℕ) (source : Source) (t : ℕ) (s : CallClient)
      → P s
      → P (video_ended live true user source t s)
  pub other_stops :
      (user : ℕ) (kind : Kind) (t : ℕ) (s : CallClient)
      → Fits (other_ends user kind t)
      → P s
      → P (other_ended user kind t s)
  pub published :
      (channel : ℕ) (k : Key) (kind : Kind) (s : CallClient)
      → P s
      → P (track_published live channel k kind s)
  pub unpublished :
      (channel : ℕ) (k : Key) (s : CallClient) → P s → P (track_unpublished live channel k s)
  pub flushes : (s : CallClient) → P s → P (flush_subscriptions s)
  pub fails : (k : Key) (s : CallClient) → P s → P (subscribe_failed k s)
  pub speak :
      (channel : ℕ) (ids : List ℕ) (s : CallClient) → P s → P (active_speakers channel ids s)
  pub joins :
      (channel : ℕ) (u : VoiceParticipant) (s : CallClient) → P s → P (user_joined channel u s)
  pub leaves : (channel user : ℕ) (s : CallClient) → P s → P (user_left channel user s)

module _ (live : ℕ → Bool) (Fits : Happening → Type 0) (P : CallClient → Type 0)
    (video : VideoLaws live Fits P) (signal : SignalLaws P) (session : SessionLaws P) where
  add_task-P : (r : CallClient × Next) (q : Running) → P r.0 → P (add_task r q).client
  add_task-P (s, waits t) q p = p
  add_task-P (s, returned) q p = p
  add_task-P (s, rejected) q p = p

  settle_task-P :
      (n : ℕ) (outcome : (t : Task) → Outcome t) (o : Option Task) (q : Running)
      → P q.client
      → P (settle_task n outcome o q).client
  unfolding settle_task
  settle_task-P n outcome none q p = p
  settle_task-P n outcome (some t) q p =
      add_task-P (go_on t (outcome t) q.client) (record q { tasks = remove_task n q.tasks })
        (go_on-P P session t (outcome t) q.client p)

  happen-P : (x : Happening) (q : Running) → Fits x → P q.client → P (happen live x q).client
  unfolding happen
  happen-P (owner_joins channel) q f p =
      add_task-P (join channel q.client) q (join-P P session channel q.client p)
  happen-P (owner_rejoins channel) q f p =
      add_task-P (rejoin channel owner q.client) q (rejoin-P P session channel owner q.client p)
  happen-P owner_leaves q f p = add_task-P (leave q.client) q (leave-P P session q.client p)
  happen-P (owner_syncs channel users) q f p =
      sync_participants-P P session channel users q.client p
  happen-P (promise_settles n outcome) q f p = settle_task-P n outcome (task_at n q.tasks) q p
  happen-P (signal_arrives x) q f p = enqueue_signal-P P signal x (signals_of q) p
  happen-P (signal_settles ok) q f p = settle_signal-P P signal ok (signals_of q) p
  happen-P (track_arrives user source kind t) q f p = video.arrives user source kind t q.client f p
  happen-P (track_ends user source t) q f p = video.video_ends user source t q.client p
  happen-P (other_ends user kind t) q f p = video.other_stops user kind t q.client f p
  happen-P (track_is_published channel k kind) q f p = video.published channel k kind q.client p
  happen-P (track_is_unpublished channel k) q f p = video.unpublished channel k q.client p
  happen-P debounce_ends q f p = elim (Bool-cases q.client.debouncing) [
    | inl e ↦ simp e (video.flushes q.client p)
    | inr e ↦ simp e p
  ]
  happen-P (subscription_fails k) q f p = video.fails k q.client p
  happen-P (speakers_change channel ids) q f p = video.speak channel ids q.client p
  happen-P (user_joins channel u) q f p = video.joins channel u q.client p
  happen-P (user_leaves channel user) q f p = video.leaves channel user q.client p
  happen-P (session_closes k is_open) q f p =
      add_task-P (session_closed k is_open q.client) q
        (session_closed-P P session k is_open q.client p)
  happen-P (peer_fails id is_open) q f p =
      add_task-P (connection_failed id is_open q.client) q
        (connection_failed-P P session id is_open q.client p)
  happen-P (error_arrives k message) q f p = sfu_error-P P session k message q.client p

  pub run-P :
      (xs : List Happening) (q : Running) → All Fits xs → P q.client → P (run live xs q).client
  unfolding run
  run-P [] q f p = p
  run-P (x ∷ xs) q f p = run-P xs (happen live x q) f.1 (happen-P x q f.0 p)

abbrev pub Any : Happening → Type 0
Any x = Unit {0}

All-Any : (xs : List Happening) → All Any xs
All-Any [] = tt
All-Any (x ∷ xs) = (tt, All-Any xs)

-- for a predicate that holds after any happenings
pub run_any-P :
    (live : ℕ → Bool) (P : CallClient → Type 0)
    → VideoLaws live Any P
    → SignalLaws P
    → SessionLaws P
    → (xs : List Happening) (q : Running) → P q.client
    → P (run live xs q).client
run_any-P live P video signal session xs q p =
    run-P live Any P video signal session xs q (All-Any xs) p

-- The laws of a predicate that reads nothing of the tiles and subscriptions.
pub plain_video :
    (live : ℕ → Bool) (P : CallClient → Type 0)
    → TileLaws P
    → SubscriptionLaws P
    → VideoLaws live Any P
plain_video live P tiled laws = record {
  arrives = λ user source kind t s f p. handle_track-P P tiled live user source kind t s p;
  video_ends = video_ended-P P tiled live;
  other_stops = λ user kind t s f p. other_ended-P P tiled user kind t s p;
  published = track_published-P P tiled live;
  unpublished = track_unpublished-P P tiled live;
  flushes = flush_subscriptions-P P laws;
  fails = subscribe_failed-P P laws;
  speak = active_speakers-P P laws;
  joins = user_joined-P P tiled;
  leaves =
      user_left-P P tiled
        (λ user s p. laws.resubscribes (delete_user user s.subscribed) s.speakers s p);
}
