-- ===== src/Call/Media.antt =====
-- The camera and the screen share of `SfuCallClient` (frontend/src/services/sfuCallClient.ts). What a
-- function waits for is a `MediaTask`; it keeps the senders that it has read before. A capture and a
-- local stream are there together, while `has_stream` is set.
pub mod Camera
pub mod Late
use mini_discord.Prelude.{
  String, ℕ, ◌==◌, Bool, true, false, not, ◌&&◌, ◌||◌, List, [], ◌∷◌, ◌++◌, Option, none, some,
  if◌then◌else◌, is_some,
}
use mini_discord.Call.State.{
  Source, camera, screen, source_eq, Peer, CallClient, Notice, local_stream, local_screen, emit,
}
use mini_discord.Call.Session.{announce_publish_state}

-- `starting` waits for the camera, `replacing` for the sender of a peer connection to take the camera's
-- track, `picking` for the user to pick a screen, `sharing` for the sender to take its track, and
-- `unsharing` for the sender to drop it.
pub data MediaTask : Type 0 where
  starting : MediaTask
  replacing : ℕ → MediaTask
  picking : MediaTask
  sharing : MediaTask
  unsharing : MediaTask

pub data MediaNext : Type 0 where
  awaits : MediaTask → MediaNext
  done : MediaNext
  throws : String → MediaNext

abbrev has_source : Source → List Source → Bool
has_source source [] = false
has_source source (s ∷ rest) = source_eq s source || has_source source rest

abbrev peer_sends : Source → Option Peer → Bool
peer_sends source none = false
peer_sends source (some p) = has_source source p.senders

-- `this.senderBySource.get(source)` is there
abbrev pub has_sender : Source → CallClient → Bool
has_sender source s = peer_sends source s.pc

-- `startCamera` up to its first `await`
unfoldable pub start_camera : CallClient → CallClient × MediaNext
start_camera s =
    if not s.has_stream
    then (s, throws "Join voice channel before enabling camera")
    else if not (has_sender camera s)
    then (s, throws "Camera slot is not available in this session")
    else (s, awaits starting)

-- `releaseCameraTrack`
unfoldable pub release_camera_track : CallClient → CallClient
release_camera_track s =
    if s.has_stream then emit (local_stream true) (record s { camera_track = none }) else s

-- `setCameraEnabled`, when no start is in progress
unfoldable pub set_camera_enabled : Bool → CallClient → CallClient × MediaNext
unfolding start_camera release_camera_track announce_publish_state
set_camera_enabled true s = if s.camera_enabled then (s, done) else start_camera s
set_camera_enabled false s =
    if s.camera_enabled
    then (
      announce_publish_state camera false
          (release_camera_track (record s { camera_enabled = false })),
      done,
    )
    else (s, done)

-- `isScreenShareActive`, with whether the screen's track has ended
abbrev pub is_sharing : Bool → CallClient → Bool
is_sharing ended s = is_some s.screen_stream && not ended

-- `startScreenShare` up to its first `await`
unfoldable pub start_screen_share : Bool → CallClient → CallClient × MediaNext
start_screen_share ended s =
    if is_sharing ended s
    then (s, done)
    else if not (has_sender screen s)
    then (s, throws "Screen sharing is not available for this call")
    else (s, awaits picking)

-- what `stopScreenShare` does after its `await`
abbrev unshared : CallClient → CallClient × MediaNext
unfolding announce_publish_state
unshared s = (announce_publish_state screen false (emit (local_screen none) s), done)

unfoldable pub stop_screen_share : CallClient → CallClient × MediaNext
unfolding unshared
stop_screen_share s =
    let s₁ : CallClient = record s { screen_stream = none } in
    if not (is_some s.screen_stream)
    then (s, done)
    else if has_sender screen s
    then (s₁, awaits unsharing)
    else unshared s₁

-- `toggleScreenShare`, when no toggle is in progress
unfoldable pub toggle_screen_share : Bool → CallClient → CallClient × MediaNext
unfolding start_screen_share stop_screen_share
toggle_screen_share ended s =
    if not s.has_stream
    then (s, throws "Join voice channel before sharing screen")
    else if is_sharing ended s
    then stop_screen_share s
    else start_screen_share ended s

-- What a promise settles to: a track or a stream, or an error's message. The promise of a sender
-- holds 0.
pub data Settled : Type 0 where
  fulfilled : ℕ → Settled
  failed : String → Settled

-- `startCamera`, once the camera was asked for
unfoldable pub camera_acquired : Settled → CallClient → CallClient × MediaNext
camera_acquired (failed message) s = (s, throws message)
camera_acquired (fulfilled track) s =
    if s.has_stream && has_sender camera s then (s, awaits (replacing track)) else (s, done)

-- `startCamera`, once the sender took the camera's track
unfoldable pub camera_replaced : ℕ → Settled → CallClient → CallClient × MediaNext
unfolding announce_publish_state
camera_replaced track (failed message) s = (s, throws message)
camera_replaced track (fulfilled n) s =
    if s.has_stream
    then (
      announce_publish_state camera true
          (record (emit (local_stream true) (record s { camera_track = some track })) {
            camera_enabled = true;
          }),
      done,
    )
    else (s, throws "Cannot read properties of null")

-- `startScreenShare`, once the user picked a screen
unfoldable pub screen_picked : Settled → CallClient → CallClient × MediaNext
screen_picked (failed message) s = (s, throws message)
screen_picked (fulfilled stream) s =
    (emit (local_screen (some stream)) (record s { screen_stream = some stream }), awaits sharing)

-- `startScreenShare`, once the sender took the screen's track
unfoldable pub screen_replaced : Settled → CallClient → CallClient × MediaNext
unfolding announce_publish_state
screen_replaced (failed message) s = (s, throws message)
screen_replaced (fulfilled n) s = (announce_publish_state screen true s, done)

-- `stopScreenShare`, once the sender dropped the track
unfoldable pub screen_dropped : Settled → CallClient → CallClient × MediaNext
unfolding unshared
screen_dropped (failed message) s = (s, throws message)
screen_dropped (fulfilled n) s = unshared s

-- The function that waits goes on with what its promise settled to.
unfoldable pub media_settled : MediaTask → Settled → CallClient → CallClient × MediaNext
unfolding camera_acquired camera_replaced screen_picked screen_replaced screen_dropped
media_settled starting r s = camera_acquired r s
media_settled (replacing track) r s = camera_replaced track r s
media_settled picking r s = screen_picked r s
media_settled sharing r s = screen_replaced r s
media_settled unsharing r s = screen_dropped r s
