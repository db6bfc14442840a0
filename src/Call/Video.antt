-- ===== src/Call/Video.antt =====
-- Remote tiles and video subscriptions: `handleTrack`, `reconcileRemoteVideo`, `handleTrackPublished`,
-- `handleActiveSpeakers` and what they call (frontend/src/services/sfuCallClient.ts). A track's
-- `readyState === "live"` is the argument `live`.
pub mod Tiers
pub mod Tiles
pub mod Closed
use mini_discord.Prelude.{
  ℕ, ◌==◌, Bool, true, false, not, ◌&&◌, ◌||◌, List, [], ◌∷◌, ◌++◌, Option, none, some,
  if◌then◌else◌, keep, includes, set_entry, get_entry, delete_entry, is_some,
}
use mini_discord.Wire.{VoiceParticipant}
use mini_discord.Call.State.{
  Source, screen, camera, source_eq, Kind, is_video, is_camera, is_tile_source, Tier, low, high,
  Key, key_eq, has_key, add_key, delete_key, delete_user, Tile, VideoSlots, CallClient, Command,
  subscribe, Notice, remote_stream, remote_left, send, emit,
}

abbrev no_slots : VideoSlots
no_slots = record { camera_track = none; screen_track = none }

abbrev slots_or_none : Option VideoSlots → VideoSlots
slots_or_none none = no_slots
slots_or_none (some v) = v

-- `available(source, track)`
abbrev available : (ℕ → Bool) → List Key → ℕ → Source → Option ℕ → Bool
available live hidden user source none = false
available live hidden user source (some t) = live t && not (has_key (user, source) hidden)

unfoldable pub desired : (ℕ → Bool) → List Key → ℕ → VideoSlots → Option ℕ
desired live hidden user v =
    if available live hidden user screen v.screen_track
    then v.screen_track
    else if available live hidden user camera v.camera_track
    then v.camera_track
    else none

abbrev is_desired : Option ℕ → ℕ → Bool
is_desired none t = false
is_desired (some d) t = t == d

abbrev add_desired : Option ℕ → List ℕ → List ℕ
add_desired none tracks = tracks
add_desired (some d) tracks = if includes d tracks then tracks else tracks ++ d ∷ []

unfoldable pub reconcile : Option ℕ → Tile → Tile
reconcile d tile = record tile {
  video_tracks = add_desired d (keep (is_desired d) tile.video_tracks);
}

-- `reconcileRemoteVideo` on the participant's stream
unfoldable pub reconcile_remote_video : (ℕ → Bool) → ℕ → Tile → CallClient → CallClient
unfolding desired reconcile
reconcile_remote_video live user tile s = record s {
  tiles =
      set_entry user
        (reconcile (desired live s.hidden user (slots_or_none (get_entry user s.video_slots))) tile)
        s.tiles;
}

abbrev refresh_tile : (ℕ → Bool) → ℕ → Option Tile → CallClient → CallClient
unfolding reconcile_remote_video
refresh_tile live user none s = s
refresh_tile live user (some tile) s =
    emit (remote_stream user) (reconcile_remote_video live user tile s)

unfoldable pub refresh_remote_video : (ℕ → Bool) → ℕ → CallClient → CallClient
unfolding refresh_tile
refresh_remote_video live user s = refresh_tile live user (get_entry user s.tiles) s

abbrev known : ℕ → Option VoiceParticipant → VoiceParticipant
known user (some p) = p
known user none = record {
  user_id = user;
  first_name = none;
  last_name = none;
  nickname = none;
  avatar_url = none;
  mic_enabled = none;
  deafened = none;
}

abbrev empty_tile : Tile
empty_tile = record { audio_tracks = []; video_tracks = [] }

abbrev tile_or_new : Option Tile → Tile
tile_or_new none = empty_tile
tile_or_new (some tile) = tile

abbrev fill_slot : Source → ℕ → VideoSlots → VideoSlots
fill_slot screen t v = record v { screen_track = some t }
fill_slot camera t v = record v { camera_track = some t }
fill_slot source t v = v

-- `addTrack`, for a track that the stream does not have
abbrev add_track : Kind → ℕ → Tile → Tile
add_track kind t tile =
    if includes t tile.audio_tracks || includes t tile.video_tracks
    then tile
    else if is_video kind
    then record tile { video_tracks = tile.video_tracks ++ t ∷ [] }
    else record tile { audio_tracks = tile.audio_tracks ++ t ∷ [] }

-- `handleTrack`, for a stream whose id names the user and the source
unfoldable pub handle_track : (ℕ → Bool) → ℕ → Source → Kind → ℕ → CallClient → CallClient
unfolding reconcile_remote_video
handle_track live user source kind t s =
    if user == s.self_user_id
    then s
    else let tile = tile_or_new (get_entry user s.tiles) in
      let s₁ : CallClient = record s {
        participants = set_entry user (known user (get_entry user s.participants)) s.participants;
      } in
      if is_video kind && is_tile_source source
      then emit (remote_stream user) (
          reconcile_remote_video live user tile (record s₁ {
            video_slots =
                set_entry user (fill_slot source t (slots_or_none (get_entry user s.video_slots)))
                  s.video_slots;
          }))
      else emit (remote_stream user)
          (record s₁ { tiles = set_entry user (add_track kind t tile) s.tiles })

abbrev empty_slot : Source → ℕ → VideoSlots → VideoSlots
empty_slot screen t v = if is_desired v.screen_track t then record v { screen_track = none } else v
empty_slot camera t v = if is_desired v.camera_track t then record v { camera_track = none } else v
empty_slot source t v = v

abbrev end_slot : ℕ → Source → ℕ → Option VideoSlots → List (ℕ × VideoSlots) → List (ℕ × VideoSlots)
end_slot user source t none slots = slots
end_slot user source t (some v) slots = set_entry user (empty_slot source t v) slots

-- `event.track.onended` of a video track in a tile's source; `is_current` says whether the stream that the handler has
-- kept is still the participant's.
unfoldable pub video_ended : (ℕ → Bool) → Bool → ℕ → Source → ℕ → CallClient → CallClient
unfolding refresh_remote_video
video_ended live is_current user source t s =
    let s₁ : CallClient = record s {
      video_slots = end_slot user source t (get_entry user s.video_slots) s.video_slots;
    } in
    if is_current then refresh_remote_video live user s₁ else emit (remote_stream user) s₁

-- `removeTrack`
abbrev remove_track : Kind → ℕ → Tile → Tile
remove_track kind t tile =
    if is_video kind
    then record tile { video_tracks = keep (λ x. not (x == t)) tile.video_tracks }
    else record tile { audio_tracks = keep (λ x. not (x == t)) tile.audio_tracks }

abbrev remove_from : ℕ → Kind → ℕ → Option Tile → List (ℕ × Tile) → List (ℕ × Tile)
remove_from user kind t none tiles = tiles
remove_from user kind t (some tile) tiles = set_entry user (remove_track kind t tile) tiles

-- `event.track.onended` of any other track, for the participant's present stream
unfoldable pub other_ended : ℕ → Kind → ℕ → CallClient → CallClient
other_ended user kind t s =
    emit (remote_stream user)
      (record s { tiles = remove_from user kind t (get_entry user s.tiles) s.tiles })

unfoldable pub quality_for : List ℕ → Key → Tier
quality_for speakers k =
    if not (is_camera k.1) then high else if includes k.0 speakers then high else low

abbrev pub show_again : (ℕ → Bool) → Key → CallClient → CallClient
unfolding refresh_remote_video
show_again live k s =
    if is_tile_source k.1
    then refresh_remote_video live k.0 (record s { hidden = delete_key k s.hidden })
    else s

-- `scheduleSubscribeFlush` arms the timer unless it is armed.
unfoldable pub request_video : Kind → Key → CallClient → CallClient
request_video kind k s =
    if not (is_video kind)
    then s
    else if has_key k s.subscribed
    then s
    else record s { pending_subscriptions = add_key k s.pending_subscriptions; debouncing = true }

unfoldable pub track_published : (ℕ → Bool) → ℕ → Key → Kind → CallClient → CallClient
unfolding show_again request_video
track_published live channel k kind s =
    if not (channel == s.channel_id) || k.0 == s.self_user_id
    then s
    else request_video kind k (show_again live k s)

unfoldable pub track_unpublished : (ℕ → Bool) → ℕ → Key → CallClient → CallClient
unfolding refresh_remote_video
track_unpublished live channel k s =
    if not (channel == s.channel_id) || k.0 == s.self_user_id
    then s
    else if is_tile_source k.1
    then refresh_remote_video live k.0 (record s { hidden = add_key k s.hidden })
    else s

unfoldable pub subscribe_all : List Key → CallClient → CallClient
unfolding quality_for
subscribe_all [] s = s
subscribe_all (k ∷ ks) s = subscribe_all ks (
    send (subscribe s.session_id k (quality_for s.speakers k))
      (record s { subscribed = add_key k s.subscribed }))

-- `flushPendingSubscriptions`, when the timer runs out
unfoldable pub flush_subscriptions : CallClient → CallClient
unfolding subscribe_all
flush_subscriptions s =
    let cleared : CallClient = record s { debouncing = false; pending_subscriptions = [] } in
    if s.session_id == 0 then cleared else subscribe_all s.pending_subscriptions cleared

-- the `catch` of `sendSfuSubscribeVideo` in `flushPendingSubscriptions`
unfoldable pub subscribe_failed : Key → CallClient → CallClient
subscribe_failed k s = record s { subscribed = delete_key k s.subscribed }

-- the users of one list that are not in the other
abbrev pub missing_from : List ℕ → List ℕ → List ℕ
missing_from xs ys = keep (λ u. not (includes u ys)) xs

unfoldable pub retarget : List ℕ → CallClient → CallClient
unfolding quality_for
retarget [] s = s
retarget (u ∷ us) s =
    let k : Key = (u, camera) in
    retarget us (
      if has_key k s.subscribed
      then send (subscribe s.session_id k (quality_for s.speakers k)) s
      else s)

abbrev is_nil : List ℕ → Bool
is_nil [] = true
is_nil (x ∷ xs) = false

-- `new Set(ids)`
abbrev pub unique : List ℕ → List ℕ
unique [] = []
unique (x ∷ xs) = x ∷ keep (λ y. not (y == x)) (unique xs)

unfoldable pub active_speakers : ℕ → List ℕ → CallClient → CallClient
unfolding retarget
active_speakers channel user_ids s =
    let next = unique user_ids in
    let affected = missing_from next s.speakers ++ missing_from s.speakers next in
    if not (channel == s.channel_id)
    then s
    else if is_nil affected
    then s
    else let s₁ : CallClient = record s { speakers = next } in
      if s.session_id == 0 then s₁ else retarget affected s₁

abbrev tell_left : ℕ → Bool → CallClient → CallClient
tell_left user true s = emit (remote_left user) s
tell_left user false s = s

-- `handleVoiceUserLeft`
unfoldable pub user_left : ℕ → ℕ → CallClient → CallClient
user_left channel user s =
    if not (channel == s.channel_id)
    then s
    else tell_left user (is_some (get_entry user s.tiles)) (record s {
      participants = delete_entry user s.participants;
      video_slots = delete_entry user s.video_slots;
      tiles = delete_entry user s.tiles;
      subscribed = delete_user user s.subscribed;
      pending_subscriptions = delete_user user s.pending_subscriptions;
      hidden = delete_user user s.hidden;
    })

-- `handleVoiceUserJoined`
unfoldable pub user_joined : ℕ → VoiceParticipant → CallClient → CallClient
user_joined channel p s =
    if not (channel == s.channel_id) || p.user_id == s.self_user_id
    then s
    else record s { participants = set_entry p.user_id p s.participants }
