-- ===== src/Call/Run.antt =====
-- The whole `SfuCallClient` (frontend/src/services/sfuCallClient.ts): what its owner calls, what the
-- server and the browser tell it, and the promises that settle, one at a time and in any order.
pub mod Closed
pub mod Invariants
pub mod Recovery
use mini_discord.Prelude.{
  String, ℕ, zero, suc, Bool, true, false, List, [], ◌∷◌, ◌++◌, Option, none, some, if◌then◌else◌,
}
use mini_discord.Wire.{VoiceParticipant}
use mini_discord.Call.State.{Source, Kind, Key, CallClient, new}
use mini_discord.Call.Video.{
  handle_track, video_ended, other_ended, track_published, track_unpublished, flush_subscriptions,
  subscribe_failed, active_speakers, user_left, user_joined,
}
use mini_discord.Call.Signals.{Signal, Handling, SignalQueue, enqueue_signal, settle_signal}
use mini_discord.Call.Session.{
  Caller, owner, Task, Next, waits, returned, rejected, Outcome, join, leave, rejoin, go_on,
  session_closed, connection_failed, sfu_error, sync_participants,
}

-- The client, the functions that wait, and the queue of signals.
pub record Running : Type 0 where
  pub client : CallClient
  pub tasks : List Task
  pub waiting : List Signal
  pub current : Option Handling

-- `track_ends` and `other_ends` are told of the participant's present stream. `promise_settles` names a task by its
-- place and holds the outcome for each task.
pub data Happening : Type 0 where
  owner_joins owner_rejoins : ℕ → Happening
  owner_leaves : Happening
  owner_syncs : ℕ → List VoiceParticipant → Happening
  promise_settles : ℕ → ((t : Task) → Outcome t) → Happening
  signal_arrives : Signal → Happening
  signal_settles : Bool → Happening
  track_arrives : ℕ → Source → Kind → ℕ → Happening
  track_ends : ℕ → Source → ℕ → Happening
  other_ends : ℕ → Kind → ℕ → Happening
  track_is_published : ℕ → Key → Kind → Happening
  track_is_unpublished : ℕ → Key → Happening
  debounce_ends : Happening
  subscription_fails : Key → Happening
  speakers_change : ℕ → List ℕ → Happening
  user_joins : ℕ → VoiceParticipant → Happening
  user_leaves : ℕ → ℕ → Happening
  session_closes : ℕ → Bool → Happening
  peer_fails : ℕ → Bool → Happening
  error_arrives : ℕ → String → Happening

abbrev pub add_task : CallClient × Next → Running → Running
add_task (s, waits t) q = record q { client = s; tasks = q.tasks ++ t ∷ [] }
add_task (s, returned) q = record q { client = s }
add_task (s, rejected) q = record q { client = s }

-- the task at a place
abbrev pub task_at : ℕ → List Task → Option Task
task_at n [] = none
task_at zero (t ∷ ts) = some t
task_at (suc n) (t ∷ ts) = task_at n ts

abbrev pub remove_task : ℕ → List Task → List Task
remove_task n [] = []
remove_task zero (t ∷ ts) = ts
remove_task (suc n) (t ∷ ts) = t ∷ remove_task n ts

abbrev pub settle_task : ℕ → ((t : Task) → Outcome t) → Option Task → Running → Running
unfolding go_on
settle_task n outcome none q = q
settle_task n outcome (some t) q =
    add_task (go_on t (outcome t) q.client) (record q { tasks = remove_task n q.tasks })

abbrev pub signals_of : Running → SignalQueue
signals_of q = record { waiting = q.waiting; current = q.current; client = q.client }

abbrev pub with_signals : SignalQueue → Running → Running
with_signals r q = record q { client = r.client; waiting = r.waiting; current = r.current }

abbrev pub with_client : CallClient → Running → Running
with_client s q = record q { client = s }

unfoldable pub happen : (ℕ → Bool) → Happening → Running → Running
unfolding settle_task
happen live (owner_joins channel) q = add_task (join channel q.client) q
happen live (owner_rejoins channel) q = add_task (rejoin channel owner q.client) q
happen live owner_leaves q = add_task (leave q.client) q
happen live (owner_syncs channel users) q = with_client (sync_participants channel users q.client) q
happen live (promise_settles n outcome) q = settle_task n outcome (task_at n q.tasks) q
happen live (signal_arrives x) q = with_signals (enqueue_signal x (signals_of q)) q
happen live (signal_settles ok) q = with_signals (settle_signal ok (signals_of q)) q
happen live (track_arrives user source kind t) q =
    with_client (handle_track live user source kind t q.client) q
happen live (track_ends user source t) q =
    with_client (video_ended live true user source t q.client) q
happen live (other_ends user kind t) q = with_client (other_ended user kind t q.client) q
happen live (track_is_published channel k kind) q =
    with_client (track_published live channel k kind q.client) q
happen live (track_is_unpublished channel k) q =
    with_client (track_unpublished live channel k q.client) q
happen live debounce_ends q =
    if q.client.debouncing then with_client (flush_subscriptions q.client) q else q
happen live (subscription_fails k) q = with_client (subscribe_failed k q.client) q
happen live (speakers_change channel ids) q = with_client (active_speakers channel ids q.client) q
happen live (user_joins channel p) q = with_client (user_joined channel p q.client) q
happen live (user_leaves channel user) q = with_client (user_left channel user q.client) q
happen live (session_closes session is_open) q =
    add_task (session_closed session is_open q.client) q
happen live (peer_fails id is_open) q = add_task (connection_failed id is_open q.client) q
happen live (error_arrives session message) q = with_client (sfu_error session message q.client) q

unfoldable pub run : (ℕ → Bool) → List Happening → Running → Running
unfolding happen
run live [] q = q
run live (x ∷ xs) q = run live xs (happen live x q)

-- a client that was just made
unfoldable pub start : ℕ → Running
unfolding new
start self = record { client = new self; tasks = []; waiting = []; current = none }
