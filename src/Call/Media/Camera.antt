-- ===== src/Call/Media/Camera.antt =====
-- The camera's flag and track over any calls, events and settled promises.
use mini_discord.Prelude.{
  ℕ, zero, suc, ◌++◌, ◌≡◌, refl, Bool, true, false, not, ◌&&◌, List, [], ◌∷◌, Option, none, some,
  is_some, arith,
}
use mini_discord.Call.State.{Source, CallClient}
use mini_discord.Call.Session.{announce_publish_state, finish_leave}
use mini_discord.Call.Media.{
  MediaTask, MediaNext, awaits, done, throws, Settled, fulfilled, failed, replacing, starting,
  picking, sharing, unsharing, start_camera, release_camera_track, set_camera_enabled,
  start_screen_share, stop_screen_share, toggle_screen_share, media_settled,
}

-- The client takes the camera for on only with a track of it.
abbrev pub CameraOn : CallClient → Type 0
CameraOn s = (s.camera_enabled && not (is_some s.camera_track)) ≡ false

announce-CameraOn :
    (source : Source) (b : Bool) (s : CallClient)
    → CameraOn s
    → CameraOn (announce_publish_state source b s)
unfolding announce_publish_state
announce-CameraOn source b s h = ground (arith, h)

pub set_camera_enabled-CameraOn :
    (b : Bool) (s : CallClient) → CameraOn s → CameraOn (set_camera_enabled b s).0
unfolding set_camera_enabled start_camera release_camera_track announce_publish_state
set_camera_enabled-CameraOn true s h = ground (arith, h)
set_camera_enabled-CameraOn false s h = ground (arith, h)

pub stop_screen_share-CameraOn : (s : CallClient) → CameraOn s → CameraOn (stop_screen_share s).0
unfolding stop_screen_share announce_publish_state
stop_screen_share-CameraOn s h = ground (arith, h)

pub toggle_screen_share-CameraOn :
    (ended : Bool) (s : CallClient) → CameraOn s → CameraOn (toggle_screen_share ended s).0
unfolding toggle_screen_share start_screen_share stop_screen_share announce_publish_state
toggle_screen_share-CameraOn ended s h = ground (arith, h)

pub media_settled-CameraOn :
    (t : MediaTask) (r : Settled) (s : CallClient) → CameraOn s → CameraOn (media_settled t r s).0
unfolding media_settled announce_publish_state
media_settled-CameraOn starting (failed message) s h = h
media_settled-CameraOn starting (fulfilled n) s h = ground (arith, h)
media_settled-CameraOn (replacing track) (failed message) s h = h
media_settled-CameraOn (replacing track) (fulfilled n) s h = ground (arith, h)
media_settled-CameraOn picking (failed message) s h = h
media_settled-CameraOn picking (fulfilled n) s h = h
media_settled-CameraOn sharing (failed message) s h = h
media_settled-CameraOn sharing (fulfilled n) s h = ground (arith, h)
media_settled-CameraOn unsharing (failed message) s h = h
media_settled-CameraOn unsharing (fulfilled n) s h = ground (arith, h)

-- The user's buttons, the browser's "stop sharing", the end of a call, and the promise that a task at a
-- place waits for.
pub data MediaAct : Type 0 where
  switches_camera toggles_screen : Bool → MediaAct
  screen_ends call_ends : MediaAct
  media_promise : ℕ → Settled → MediaAct

pub record MediaRun : Type 0 where
  pub client : CallClient
  pub tasks : List MediaTask

abbrev pub add_media : CallClient × MediaNext → List MediaTask → MediaRun
add_media (s, awaits t) ts = record { client = s; tasks = ts ++ t ∷ [] }
add_media (s, done) ts = record { client = s; tasks = ts }
add_media (s, throws message) ts = record { client = s; tasks = ts }

abbrev pub media_at : ℕ → List MediaTask → Option MediaTask
media_at n [] = none
media_at zero (t ∷ ts) = some t
media_at (suc n) (t ∷ ts) = media_at n ts

abbrev pub remove_media : ℕ → List MediaTask → List MediaTask
remove_media n [] = []
remove_media zero (t ∷ ts) = ts
remove_media (suc n) (t ∷ ts) = t ∷ remove_media n ts

unfoldable pub settle_media : ℕ → Settled → Option MediaTask → MediaRun → MediaRun
unfolding media_settled
settle_media n r none q = q
settle_media n r (some t) q = add_media (media_settled t r q.client) (remove_media n q.tasks)

unfoldable pub media_act : MediaAct → MediaRun → MediaRun
unfolding settle_media
media_act (switches_camera b) q = add_media (set_camera_enabled b q.client) q.tasks
media_act (toggles_screen ended) q = add_media (toggle_screen_share ended q.client) q.tasks
media_act screen_ends q = add_media (stop_screen_share q.client) q.tasks
media_act call_ends q = record q { client = finish_leave q.client }
media_act (media_promise n r) q = settle_media n r (media_at n q.tasks) q

unfoldable pub media_run : List MediaAct → MediaRun → MediaRun
unfolding media_act
media_run [] q = q
media_run (a ∷ acts) q = media_run acts (media_act a q)

add_media-client :
    (r : CallClient × MediaNext) (ts : List MediaTask)
    → CameraOn r.0
    → CameraOn (add_media r ts).client
add_media-client (s, awaits t) ts h = h
add_media-client (s, done) ts h = h
add_media-client (s, throws message) ts h = h

settle_media-CameraOn :
    (n : ℕ) (r : Settled) (o : Option MediaTask) (q : MediaRun)
    → CameraOn q.client
    → CameraOn (settle_media n r o q).client
unfolding settle_media
settle_media-CameraOn n r none q h = h
settle_media-CameraOn n r (some t) q h =
    add_media-client (media_settled t r q.client) (remove_media n q.tasks)
      (media_settled-CameraOn t r q.client h)

media_act-CameraOn :
    (a : MediaAct) (q : MediaRun) → CameraOn q.client → CameraOn (media_act a q).client
unfolding media_act finish_leave
media_act-CameraOn (switches_camera b) q h =
    add_media-client (set_camera_enabled b q.client) q.tasks
      (set_camera_enabled-CameraOn b q.client h)
media_act-CameraOn (toggles_screen ended) q h =
    add_media-client (toggle_screen_share ended q.client) q.tasks
      (toggle_screen_share-CameraOn ended q.client h)
media_act-CameraOn screen_ends q h =
    add_media-client (stop_screen_share q.client) q.tasks (stop_screen_share-CameraOn q.client h)
media_act-CameraOn call_ends q h = refl
media_act-CameraOn (media_promise n r) q h = settle_media-CameraOn n r (media_at n q.tasks) q h

-- From a state in which it is so: however the camera and the screen are switched, their promises are
-- fulfilled or rejected, and calls end meanwhile, the client takes the camera for on only while its
-- stream has a track of the camera.
pub media_run-CameraOn :
    (acts : List MediaAct) (q : MediaRun) → CameraOn q.client → CameraOn (media_run acts q).client
unfolding media_run
media_run-CameraOn [] q h = h
media_run-CameraOn (a ∷ acts) q h =
    media_run-CameraOn acts (media_act a q) (media_act-CameraOn a q h)
