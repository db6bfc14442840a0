-- ===== src/Call/Media/Late.antt =====
-- A screen that the user picks when the call is over (`startScreenShare` and `leave`,
-- frontend/src/services/sfuCallClient.ts).
use mini_discord.Prelude.{
  ℕ, zero, suc, ◌≡◌, refl, Bool, true, false, List, [], ◌∷◌, ◌++◌, Option, none, some, All, arith,
  inl, inr, Bool-cases, subst, sym,
}
use mini_discord.Call.State.{Source, screen, CallClient, Notice, local_screen, emit}
use mini_discord.Call.Session.{announce_publish_state, finish_leave, teardown}
use mini_discord.Call.Media.{
  MediaTask, MediaNext, awaits, done, throws, Settled, fulfilled, failed, picking, sharing,
  start_camera, release_camera_track, set_camera_enabled, toggle_screen_share, media_settled,
  screen_picked, screen_replaced,
}
use mini_discord.Call.Media.Camera.{
  MediaAct, switches_camera, toggles_screen, screen_ends, call_ends, media_promise, MediaRun,
  media_act, media_run, media_at, add_media, settle_media, remove_media,
}

-- the local screen that the owner of the client was told of last
abbrev pub shown_screen : List Notice → Option ℕ → Option ℕ
shown_screen [] last = last
shown_screen (local_screen o ∷ es) last = shown_screen es o
shown_screen (e ∷ es) last = shown_screen es last

-- Neither does the browser end the share, nor does a call end.
abbrev pub GoesOn : MediaAct → Type 0
GoesOn screen_ends = ⊥
GoesOn call_ends = ⊥
GoesOn a = Unit {0}

abbrev pub IsSharing : MediaTask → Type 0
IsSharing sharing = Unit {0}
IsSharing t = ⊥

-- The stream is kept and shown, although there is no call.
abbrev pub Held : ℕ → CallClient → Type 0
Held stream s =
    (s.screen_stream ≡ some stream)
    × (shown_screen s.emitted none ≡ some stream)
    × (s.session_id ≡ 0)
    × (s.has_stream ≡ false)

abbrev HeldRun : ℕ → MediaRun → Type 0
HeldRun stream q = Held stream q.client × All IsSharing q.tasks

-- a call that is over with its first step
abbrev Ends : ℕ → CallClient × MediaNext → Type 0
Ends stream (s, awaits t) = ⊥
Ends stream (s, done) = Held stream s
Ends stream (s, throws message) = Held stream s

shown-append : (o l : Option ℕ) (es : List Notice) → shown_screen (es ++ local_screen o ∷ []) l ≡ o
shown-append o l [] = refl
shown-append o l (local_screen p ∷ es) = shown-append o p es
shown-append o l (e ∷ es) = shown-append o l es

announce-late :
    (source : Source) (b : Bool) (s : CallClient)
    → s.session_id ≡ 0
    → announce_publish_state source b s ≡ s
unfolding announce_publish_state
announce-late source b s h = ground (arith, h)

switch-Ends :
    (stream : ℕ) (b : Bool) (s : CallClient) → Held stream s → Ends stream (set_camera_enabled b s)
unfolding set_camera_enabled start_camera release_camera_track announce_publish_state
switch-Ends stream true s (k, h, z, n) = elim (Bool-cases s.camera_enabled) [
  | inl e ↦ rw e (k, h, z, n)
  | inr e ↦ rw (e, n) (k, h, z, refl)
]
switch-Ends stream false s (k, h, z, n) = elim (Bool-cases s.camera_enabled) [
  | inl e ↦ rw (e, n, z) (k, h, refl, refl)
  | inr e ↦ rw e (k, h, z, n)
]

toggle-Ends :
    (stream : ℕ) (b : Bool) (s : CallClient) → Held stream s → Ends stream (toggle_screen_share b s)
unfolding toggle_screen_share
toggle-Ends stream b s (k, h, z, n) = rw n (k, h, z, refl)

Ends-HeldRun :
    (stream : ℕ) (r : CallClient × MediaNext) (ts : List MediaTask)
    → Ends stream r
    → All IsSharing ts
    → HeldRun stream (add_media r ts)
Ends-HeldRun stream (s, awaits t) ts h k = absurd h
Ends-HeldRun stream (s, done) ts h k = (h, k)
Ends-HeldRun stream (s, throws message) ts h k = (h, k)

remove_media-IsSharing :
    (n : ℕ) (ts : List MediaTask) → All IsSharing ts → All IsSharing (remove_media n ts)
remove_media-IsSharing n [] k = k
remove_media-IsSharing zero (t ∷ ts) k = k.1
remove_media-IsSharing (suc n) (t ∷ ts) k = (k.0, remove_media-IsSharing n ts k.1)

abbrev OptSharing : Option MediaTask → Type 0
OptSharing none = Unit {0}
OptSharing (some t) = IsSharing t

media_at-OptSharing : (n : ℕ) (ts : List MediaTask) → All IsSharing ts → OptSharing (media_at n ts)
media_at-OptSharing n [] k = tt
media_at-OptSharing zero (t ∷ ts) k = k.0
media_at-OptSharing (suc n) (t ∷ ts) k = media_at-OptSharing n ts k.1

settled-Ends :
    (stream : ℕ) (r : Settled) (s : CallClient)
    → Held stream s
    → Ends stream (media_settled sharing r s)
unfolding media_settled screen_replaced
settled-Ends stream (failed message) s h = h
settled-Ends stream (fulfilled n) s (k, h, z, e) = rw (announce-late screen true s z) (k, h, z, e)

settle_media-HeldRun :
    (stream n : ℕ) (r : Settled) (o : Option MediaTask) (q : MediaRun)
    → OptSharing o
    → HeldRun stream q
    → HeldRun stream (settle_media n r o q)
unfolding settle_media
settle_media-HeldRun stream n r none q k h = h
settle_media-HeldRun stream n r (some sharing) q k h =
    Ends-HeldRun stream (media_settled sharing r q.client) (remove_media n q.tasks)
      (settled-Ends stream r q.client h.0) (remove_media-IsSharing n q.tasks h.1)
settle_media-HeldRun stream n r (some t) q k h = absurd k

media_act-HeldRun :
    (stream : ℕ) (a : MediaAct) (q : MediaRun)
    → GoesOn a
    → HeldRun stream q
    → HeldRun stream (media_act a q)
unfolding media_act
media_act-HeldRun stream (switches_camera b) q g h =
    Ends-HeldRun stream (set_camera_enabled b q.client) q.tasks (switch-Ends stream b q.client h.0)
      h.1
media_act-HeldRun stream (toggles_screen b) q g h =
    Ends-HeldRun stream (toggle_screen_share b q.client) q.tasks (toggle-Ends stream b q.client h.0)
      h.1
media_act-HeldRun stream screen_ends q g h = absurd g
media_act-HeldRun stream call_ends q g h = absurd g
media_act-HeldRun stream (media_promise n r) q g h =
    settle_media-HeldRun stream n r (media_at n q.tasks) q (media_at-OptSharing n q.tasks h.1) h

media_run-HeldRun :
    (stream : ℕ) (acts : List MediaAct) (q : MediaRun)
    → All GoesOn acts
    → HeldRun stream q
    → HeldRun stream (media_run acts q)
unfolding media_run
media_run-HeldRun stream [] q g h = h
media_run-HeldRun stream (a ∷ acts) q g h =
    media_run-HeldRun stream acts (media_act a q) g.1 (media_act-HeldRun stream a q g.0 h)

-- When the call ends while the user picks a screen and nothing else is waited for, the stream that is
-- picked then is kept, and is what the owner was told last to show as the local screen, although there
-- is no session and no local stream. It stays so over any acts, so also when the sender refuses the
-- stream and when the user toggles the screen share, until the browser ends the share or a call ends.
pub share_after_leave :
    (stream : ℕ) (acts : List MediaAct) (q : MediaRun)
    → q.tasks ≡ picking ∷ []
    → All GoesOn acts
    → Held stream (media_run (call_ends ∷ media_promise 0 (fulfilled stream) ∷ acts) q).client
unfolding media_run media_act media_settled screen_picked finish_leave teardown
share_after_leave stream acts q t g =
    let s : CallClient = finish_leave q.client in
    let s₁ : CallClient =
      emit (local_screen (some stream)) (record s { screen_stream = some stream }) in
    subst
      (λ ts.
        Held stream
          (media_run acts (
            media_act (media_promise 0 (fulfilled stream))
              (record { client = s; tasks = ts }))).client)
      (sym t)
      (media_run-HeldRun stream acts (record { client = s₁; tasks = sharing ∷ [] }) g
        ((refl, shown-append (some stream) none s.emitted, refl, refl), (tt, tt))).0
