-- ===== src/Call/Run/Invariants.antt =====
-- What holds of the client after any happenings.
use mini_discord.Prelude.{ℕ, ◌==◌, ◌≡◌, refl, Bool, false, not, ◌&&◌, List, arith, inl, All}
use mini_discord.Call.State.{is_video, is_tile_source, Key, CallClient, Command, answer, new, send}
use mini_discord.Call.Video.Closed.{
  TileLaws, SubscriptionLaws, handle_track-P, video_ended-P, other_ended-P, track_published-P,
  track_unpublished-P, user_joined-P, user_left-P, flush_subscriptions-P, subscribe_failed-P,
  active_speakers-P,
}
use mini_discord.Call.Video.Tiers.{
  Tiered, last_tier-append, flush_subscriptions-Tiered, subscribe_failed-Tiered, delete_user-Tiered,
  active_speakers-Tiered,
}
use mini_discord.Call.Video.Tiles.{AllShown, track_published-AllShown, track_unpublished-AllShown}
use mini_discord.Call.Video.Tiles.Tracks.{
  handle_track-AllShown, video_ended-AllShown, other_ended-AllShown,
}
use mini_discord.Call.Video.Tiles.Users.{user_left-AllShown, user_joined-AllShown}
use mini_discord.Call.Signals.Closed.{SignalLaws}
use mini_discord.Call.Session.{Joined, teardown, apply_session, open_peer}
use mini_discord.Call.Session.Closed.{SessionLaws, is_subscribe}
use mini_discord.Call.Run.{Happening, track_arrives, other_ends, run, start}
use mini_discord.Call.Run.Closed.{VideoLaws, run-P, Any, run_any-P}

Tiered-tiles : (k : Key) → TileLaws (Tiered k)
Tiered-tiles k = record {
  tells_remote = λ e s r p. p;
  redraws = λ users tiles slots hidden pending debouncing s p. p;
}

Tiered-video : (live : ℕ → Bool) (k : Key) → VideoLaws live Any (Tiered k)
Tiered-video live k =
    let laws = Tiered-tiles k in
    record {
      arrives =
          λ user source kind t s f p. handle_track-P (Tiered k) laws live user source kind t s p;
      video_ends = video_ended-P (Tiered k) laws live;
      other_stops = λ user kind t s f p. other_ended-P (Tiered k) laws user kind t s p;
      published = track_published-P (Tiered k) laws live;
      unpublished = track_unpublished-P (Tiered k) laws live;
      flushes = flush_subscriptions-Tiered k;
      fails = λ a s. subscribe_failed-Tiered k a s;
      speak = λ channel ids s. active_speakers-Tiered k channel ids s;
      joins = user_joined-P (Tiered k) laws;
      leaves = user_left-P (Tiered k) laws (delete_user-Tiered k);
    }

send-Tiered :
    (k : Key) (c : Command) (s : CallClient)
    → is_subscribe c ≡ false
    → Tiered k s
    → Tiered k (send c s)
send-Tiered k c s e p = rw (last_tier-append k s.sent c) (ground (arith, p, e))

teardown-Tiered : (k : Key) (s : CallClient) → Tiered k (teardown s)
unfolding teardown
teardown-Tiered k s = inl refl

open_peer-Tiered :
    (k : Key) (r : Joined) (s : CallClient)
    → (r.session == 0) ≡ false
    → Tiered k s
    → Tiered k (open_peer (apply_session r s))
unfolding open_peer apply_session
open_peer-Tiered k r s e p = ground (arith, e, p)

Tiered-session : (k : Key) → SessionLaws (Tiered k)
Tiered-session k = record {
  asks = send-Tiered k;
  tells = λ e s n p. p;
  keeps_media = λ users has_stream track enabled screen sampling s p. p;
  torn_down = λ s p. teardown-Tiered k s;
  session_opened = open_peer-Tiered k;
  session_resumed = λ s p. p;
  loss_ignored = λ s h c p. p;
  loss_told = λ s h c p. p;
}

Tiered-signals : (k : Key) → SignalLaws (Tiered k)
Tiered-signals k = record {
  answers = λ session s p. send-Tiered k (answer session) s refl p;
  peer_changes = λ o cs s e p. p;
}

-- After any happenings, in any order: a video that the client holds a subscription for was last asked
-- for at the quality of the present speakers (high for a screen or a speaker's camera, else low), and
-- there is a session.
pub run-Tiered :
    (live : ℕ → Bool) (k : Key) (self : ℕ) (xs : List Happening)
    → Tiered k (run live xs (start self)).client
unfolding start new
run-Tiered live k self xs =
    run_any-P live (Tiered k) (Tiered-video live k) (Tiered-signals k) (Tiered-session k) xs
      (start self) (inl refl)

AllShown-subscriptions : (live : ℕ → Bool) → SubscriptionLaws (AllShown live)
AllShown-subscriptions live = record {
  subscribes = λ session k t s p. p;
  resubscribes = λ subscribed speakers s p. p;
  clears = λ s p. p;
}

-- Of the tracks that arrive and end, each video track is in one of the two sources of a tile.
abbrev pub HasTile : Happening → Type 0
HasTile (track_arrives user source kind t) = (is_video kind && not (is_tile_source source)) ≡ false
HasTile (other_ends user kind t) = is_video kind ≡ false
HasTile x = Unit {0}

AllShown-video : (live : ℕ → Bool) → VideoLaws live HasTile (AllShown live)
AllShown-video live =
    let laws = AllShown-subscriptions live in
    record {
      arrives = handle_track-AllShown live;
      video_ends = video_ended-AllShown live;
      other_stops = other_ended-AllShown live;
      published = track_published-AllShown live;
      unpublished = track_unpublished-AllShown live;
      flushes = flush_subscriptions-P (AllShown live) laws;
      fails = subscribe_failed-P (AllShown live) laws;
      speak = active_speakers-P (AllShown live) laws;
      joins = user_joined-AllShown live;
      leaves = user_left-AllShown live;
    }

teardown-AllShown : (live : ℕ → Bool) (s : CallClient) → AllShown live (teardown s)
unfolding teardown
teardown-AllShown live s u = refl

AllShown-session : (live : ℕ → Bool) → SessionLaws (AllShown live)
unfolding open_peer apply_session
AllShown-session live = record {
  asks = λ c s e p. p;
  tells = λ e s n p. p;
  keeps_media = λ users has_stream track enabled screen sampling s p. p;
  torn_down = λ s p. teardown-AllShown live s;
  session_opened = λ r s e p. p;
  session_resumed = λ s p. p;
  loss_ignored = λ s h c p. p;
  loss_told = λ s h c p. p;
}

AllShown-signals : (live : ℕ → Bool) → SignalLaws (AllShown live)
AllShown-signals live = record { answers = λ session s p. p; peer_changes = λ o cs s e p. p }

-- After any happenings, in any order, in which each video track that arrives is of a camera or a
-- screen, and while the same tracks are live: each participant's tile shows one video track, the
-- screen's when it is live and not paused, else the camera's when it is, else none; and who has no
-- tile has no video tracks.
pub run-AllShown :
    (live : ℕ → Bool) (self : ℕ) (xs : List Happening)
    → All HasTile xs
    → AllShown live (run live xs (start self)).client
unfolding start new
run-AllShown live self xs h =
    run-P live HasTile (AllShown live) (AllShown-video live) (AllShown-signals live)
      (AllShown-session live) xs (start self) h (λ u. refl)
