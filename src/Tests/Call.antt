-- ===== src/Tests/Call.antt =====
-- A voice call on short series of events.
use mini_discord.Prelude.{
  ℕ, ◌≡◌, ◌≤◌, refl, Bool, true, false, List, [], ◌∷◌, ◌++◌, Option, none, some, arith, get_entry,
  subst, sym, All,
}
use mini_discord.Call.State.{camera, screen, audio, video, mic, Slot, CallClient, Tile, new}
use mini_discord.Call.Video.{
  active_speakers, track_published, track_unpublished, handle_track, flush_subscriptions,
}
use mini_discord.Call.Signals.{offered, candidate, SignalStep, hear, settled, run_signals}
use mini_discord.Call.Signals.Order.{given, idle, run_signals_in_order}
use mini_discord.Call.Session.{
  Joined, owner, recovery, Task, sleeping, resuming, rejoining, creating, opening, offering,
  leaving, acquiring, joining, waits, returned, Outcome, go_on, leave, join, rejoin, session_lost,
  session_closed,
}
use mini_discord.Call.Session.Ends.{calls_end, after, is_waiting}
use mini_discord.Call.Run.{
  Running, Happening, owner_joins, promise_settles, track_arrives, track_is_published,
  track_is_unpublished, debounce_ends, speakers_change, session_closes, run, start, with_client,
}
use mini_discord.Call.Run.Invariants.{HasTile, run-AllShown, run-Tiered}
use mini_discord.Call.Run.Recovery.{
  run-Counted, Counted, leave_stops_recovery, recovery_tries_once, leave_undone,
}
use mini_discord.Call.Video.Tiles.{ShownAt}
use mini_discord.Call.Video.Tiers.{Tiered}

abbrev slots : List Slot
slots = record { kind = audio; source = mic } ∷ record { kind = video; source = camera } ∷ []

abbrev welcome : Joined
welcome = record { channel = 4; session = 9; slots = slots; users = [] }

-- every promise is fulfilled
abbrev fulfilled : (t : Task) → Outcome t
fulfilled (sleeping channel g n) = true
fulfilled (resuming channel c) = some []
fulfilled (rejoining channel c) = some welcome
fulfilled (creating n c) = true
fulfilled (opening n c) = true
fulfilled (offering c) = true
fulfilled (leaving then_join) = true
fulfilled (acquiring channel) = none
fulfilled (joining channel b) = some welcome

abbrev step : Happening
step = promise_settles 0 fulfilled

-- User 1 joins channel 4, sees the camera and the screen of user 2, who stops sharing the screen and
-- speaks; the session is lost.
abbrev joins : List Happening
joins = owner_joins 4 ∷ step ∷ step ∷ step ∷ step ∷ step ∷ []

abbrev watches : List Happening
watches =
    track_is_published 4 (2, camera) video
    ∷ track_is_published 4 (2, screen) video
    ∷ debounce_ends
    ∷ track_arrives 2 camera video 21
    ∷ track_arrives 2 screen video 22
    ∷ track_is_unpublished 4 (2, screen)
    ∷ speakers_change 4 (2 ∷ [])
    ∷ session_closes 9 true
    ∷ []

abbrev all_live : ℕ → Bool
all_live t = true

abbrev in_call : Running
in_call = run all_live (joins ++ watches) (start 1)

in_session : in_call.client.session_id ≡ 9
unfolding run start new join session_closed active_speakers track_published track_unpublished
    handle_track flush_subscriptions
in_session = refl

in_generation : in_call.client.recovery_generation ≡ 1
unfolding run start new join session_closed active_speakers track_published track_unpublished
    handle_track flush_subscriptions
in_generation = refl

begun : 1 ≤ in_call.client.recovery_generation
begun = subst (λ g. 1 ≤ g) (sym in_generation) (ground arith)

abbrev tracks : Option Tile → List ℕ
tracks none = []
tracks (some tile) = tile.video_tracks

shows_camera : tracks (get_entry 2 in_call.client.tiles) ≡ 21 ∷ []
unfolding run start new join session_closed active_speakers track_published track_unpublished
    handle_track flush_subscriptions
shows_camera = refl

tiled : All HasTile (joins ++ watches)
tiled = (tt, (tt, (tt, (tt, (tt, (tt, (tt, (tt, (tt, (refl, (refl, (tt, (tt, (tt, tt))))))))))))))

run-AllShown_example : ShownAt all_live 2 in_call.client
run-AllShown_example = run-AllShown all_live 1 (joins ++ watches) tiled 2

run-Tiered_example : Tiered (2, camera) in_call.client
run-Tiered_example = run-Tiered all_live (2, camera) 1 (joins ++ watches)

run-Counted_example : Counted in_call.client
run-Counted_example = run-Counted all_live 1 (joins ++ watches)

-- every promise fails
abbrev refused : (n : ℕ) (t : Task) → Outcome t
refused k (sleeping channel g n) = true
refused k (resuming channel c) = none
refused k (rejoining channel c) = none
refused k (creating n c) = false
refused k (opening n c) = false
refused k (offering c) = false
refused k (leaving then_join) = false
refused k (acquiring channel) = some "no microphone"
refused k (joining channel b) = none

abbrev unchanged : ℕ → CallClient → CallClient
unchanged n s = s

calls_end_example :
    (is_waiting (after refused unchanged 6 (join 7 in_call.client)) ≡ false)
    × (is_waiting (after refused unchanged 1 (leave in_call.client)) ≡ false)
    × (is_waiting (after refused unchanged 5 (rejoin 7 owner in_call.client)) ≡ false)
    × (is_waiting (after refused unchanged 19 (session_lost true in_call.client)) ≡ false)
calls_end_example = calls_end refused unchanged 7 true in_call.client

leave_stops_recovery_example :
    go_on
      (sleeping 4 1 2)
      true
      (with_client (go_on (leaving none) true in_call.client).0 in_call).client
    ≡ ((with_client (go_on (leaving none) true in_call.client).0 in_call).client, returned)
unfolding run
leave_stops_recovery_example = leave_stops_recovery all_live 4 1 2 true true in_call [] begun

recovery_tries_once_example :
    let q₁ = with_client (go_on (resuming 4 (recovery 4 1 1)) none in_call.client).0 in_call in
    (go_on (rejoining 4 (recovery 4 1 2)) none q₁.client ≡ (q₁.client, waits (sleeping 4 1 1)))
    × (go_on (sleeping 4 1 1) true q₁.client ≡ (q₁.client, returned))
    × (go_on (rejoining 4 (recovery 4 1 0)) none q₁.client ≡ (q₁.client, returned))
unfolding run
recovery_tries_once_example = recovery_tries_once all_live 4 1 1 true in_call [] [] begun

leave_undone_example :
    let joining_anew = (go_on (resuming 4 owner) none in_call.client).0 in
    let gone = (leave joining_anew).0 in
    ((leave joining_anew).1 ≡ returned)
    × (gone.sent ≡ joining_anew.sent)
    × ((go_on (rejoining 4 owner) (some welcome) gone).0.channel_id ≡ 4)
    × ((go_on (rejoining 4 owner) (some welcome) gone).0.session_id ≡ 9)
leave_undone_example = leave_undone 4 owner welcome in_call.client refl

-- Two candidates arrive before the offer is described, one after it.
abbrev signals : List SignalStep
signals =
    hear (candidate 9 31)
    ∷ hear (offered 9)
    ∷ hear (candidate 9 32)
    ∷ settled true
    ∷ hear (candidate 9 33)
    ∷ settled true
    ∷ settled true
    ∷ settled true
    ∷ settled true
    ∷ settled true
    ∷ []

abbrev alone : CallClient
unfolding new
alone = record (new 1) {
  channel_id = 4;
  session_id = 9;
  pc = some (record { id = 0; described = false; ice = []; senders = [] });
}

run_signals_in_order_example :
    given (run_signals signals (idle alone)).client.pc ≡ 31 ∷ 32 ∷ 33 ∷ []
unfolding new run_signals
run_signals_in_order_example = run_signals_in_order 9 signals alone refl refl refl refl refl refl
