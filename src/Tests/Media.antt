-- ===== src/Tests/Media.antt =====
-- The camera and the screen share on a short series of acts.
use mini_discord.Prelude.{refl, true, false, List, [], ◌∷◌, some}
use mini_discord.Call.State.{camera, screen, CallClient, new}
use mini_discord.Call.Media.{picking, fulfilled, failed}
use mini_discord.Call.Media.Camera.{
  MediaAct, switches_camera, toggles_screen, call_ends, media_promise, MediaRun, media_run,
  CameraOn, media_run-CameraOn,
}
use mini_discord.Call.Media.Late.{Held, share_after_leave}

abbrev in_call : CallClient
unfolding new
in_call = record (new 1) {
  channel_id = 4;
  session_id = 9;
  has_stream = true;
  pc = some (record { id = 0; described = false; ice = []; senders = camera ∷ screen ∷ [] });
}

-- The camera is switched on, and the user leaves while choosing a screen.
abbrev acts : List MediaAct
acts =
    switches_camera true
    ∷ media_promise 0 (fulfilled 21)
    ∷ media_promise 0 (fulfilled 0)
    ∷ toggles_screen false
    ∷ call_ends
    ∷ media_promise 0 (fulfilled 40)
    ∷ []

abbrev quiet : MediaRun
quiet = record { client = in_call; tasks = [] }

media_run-CameraOn_example : CameraOn (media_run acts quiet).client
unfolding in_call
media_run-CameraOn_example = media_run-CameraOn acts quiet refl

-- The user picks a screen when the call is over, its sender refuses it, and the toggle is pressed.
abbrev picking_screen : MediaRun
picking_screen = record { client = in_call; tasks = picking ∷ [] }

abbrev later : List MediaAct
later = media_promise 0 (failed "InvalidStateError") ∷ toggles_screen false ∷ []

share_after_leave_example :
    Held 40 (media_run (call_ends ∷ media_promise 0 (fulfilled 40) ∷ later) picking_screen).client
share_after_leave_example = share_after_leave 40 later picking_screen refl (tt, (tt, tt))
