-- ===== src/Call/Session.antt =====
-- Joining, leaving, resuming and recovering a session (`SfuCallClient`,
-- frontend/src/services/sfuCallClient.ts). An `async` function runs up to an `await` and goes on when
-- its promise settles: what it waits for is a `Task`, what it does next a `Next`.
pub mod Ends
pub mod Closed
use mini_discord.Prelude.{
  String, ℕ, ◌==◌, ◌+◌, zero, suc, Bool, true, false, not, ◌&&◌, ◌||◌, List, [], ◌∷◌, ◌++◌, Option,
  none, some, if◌then◌else◌, map, keep, set_entry, get_entry, is_some,
}
use mini_discord.Wire.{VoiceParticipant}
use mini_discord.Call.State.{
  Source, camera, Slot, audio, mic, Peer, CallClient, CallStatus, connected, reconnecting, lost,
  Command, resume_session, join_channel, leave_channel, offer, publish_state, Notice, status,
  remote_left, local_stream, local_screen, quality_cleared, listen_only, voice_error, send, emit,
  Tile,
}

-- `JoinVoiceResponse`; session 0 stands for a missing id
pub record Joined : Type 0 where
  pub channel : ℕ
  pub session : ℕ
  pub slots : List Slot
  pub users : List VoiceParticipant

-- Who awaits `rejoin`: its owner, or the recovery of a channel, which started in a generation and
-- has delays left.
pub data Caller : Type 0 where
  owner : Caller
  recovery : ℕ → ℕ → ℕ → Caller

-- `sleeping` waits for a delay of `runSessionRecovery`, with the delays left after it; `resuming`
-- and `rejoining` for the answers to `rejoin`; `creating` for the offer of a peer connection, with the number of its transceivers;
-- `opening` for its setting;
-- `offering` for its sending; `leaving` for `leaveVoiceChannel`, then to join a channel; `acquiring`
-- for the microphone; `joining` for `join`'s answer, with the capture's stream.
pub data Task : Type 0 where
  sleeping : ℕ → ℕ → ℕ → Task
  resuming : ℕ → Caller → Task
  rejoining : ℕ → Caller → Task
  creating : ℕ → Caller → Task
  opening : ℕ → Caller → Task
  offering : Caller → Task
  leaving : Option ℕ → Task
  acquiring : ℕ → Task
  joining : ℕ → Bool → Task

pub data Next : Type 0 where
  waits : Task → Next
  returned : Next
  rejected : Next

-- what a promise settles to
abbrev pub Outcome : Task → Type 0
Outcome (sleeping channel generation left) = Bool
Outcome (resuming channel caller) = Option (List VoiceParticipant)
Outcome (rejoining channel caller) = Option Joined
Outcome (creating id caller) = Bool
Outcome (opening id caller) = Bool
Outcome (offering caller) = Bool
Outcome (leaving channel) = Bool
Outcome (acquiring channel) = Option String
Outcome (joining channel has_stream) = Option Joined

abbrev pub tell_gone : List (ℕ × Tile) → CallClient → CallClient
tell_gone [] s = s
tell_gone ((user, tile) ∷ tiles) s = tell_gone tiles (emit (remote_left user) s)

-- `stopQualityMonitor`
abbrev stop_quality_monitor : CallClient → CallClient
stop_quality_monitor s = emit quality_cleared (record s { sampling = false })

unfoldable pub teardown : CallClient → CallClient
teardown s =
    let s₁ = tell_gone s.tiles s in
    stop_quality_monitor (record s₁ {
      recovery_generation = s.recovery_generation + 1;
      pc = none;
      session_id = 0;
      pending_candidates = [];
      debouncing = false;
      subscribed = [];
      pending_subscriptions = [];
      speakers = [];
      tiles = [];
      video_slots = [];
      hidden = [];
      channel_id = 0;
    })

-- `leave`, after the server was told
unfoldable pub finish_leave : CallClient → CallClient
unfolding teardown
finish_leave s =
    let s₁ = teardown s in
    emit (local_stream false) (
      emit (local_screen none) (record s₁ {
        participants = [];
        screen_stream = none;
        camera_enabled = false;
        has_stream = false;
        camera_track = none;
      }))

unfoldable pub left : Option ℕ → CallClient → CallClient × Next
unfolding finish_leave
left none s = (finish_leave s, returned)
left (some channel) s = (finish_leave s, waits (acquiring channel))

abbrev begin_leave : Option ℕ → CallClient → CallClient × Next
unfolding left
begin_leave then_join s =
    if s.channel_id == 0
    then left then_join s
    else (send leave_channel s, waits (leaving then_join))

unfoldable pub leave : CallClient → CallClient × Next
unfolding begin_leave
leave s = begin_leave none s

unfoldable pub join : ℕ → CallClient → CallClient × Next
unfolding begin_leave
join channel s = if s.channel_id == channel then (s, returned) else begin_leave (some channel) s

abbrev pub set_all :
    List VoiceParticipant → List (ℕ × VoiceParticipant) → List (ℕ × VoiceParticipant)
set_all [] ps = ps
set_all (u ∷ us) ps = set_all us (set_entry u.user_id u ps)

unfoldable pub announce_publish_state : Source → Bool → CallClient → CallClient
announce_publish_state source active s =
    if s.session_id == 0 then s else send (publish_state s.session_id source active) s

unfoldable pub restore_camera_state : CallClient → CallClient
unfolding announce_publish_state
restore_camera_state s =
    announce_publish_state camera (s.camera_enabled && is_some s.camera_track) s

-- `applySession`, once it has seen the session's id
unfoldable pub apply_session : Joined → CallClient → CallClient
apply_session r s = emit (status connected) (record s {
  session_lost_handled = false;
  session_id = r.session;
  publish_slots = r.slots;
  channel_id = r.channel;
  participants = set_all r.users [];
})

abbrev count : List Slot → ℕ
count [] = 0
count (x ∷ xs) = 1 + count xs

abbrev slot_source : Slot → Source
slot_source slot = slot.source

-- `openPeerConnection` up to its first `await`
unfoldable pub open_peer : CallClient → CallClient
open_peer s = record s {
  pc = some (record {
    id = s.next_pc;
    described = false;
    ice = [];
    senders = map slot_source s.publish_slots;
  });
  next_pc = s.next_pc + 1;
}

abbrev no_slot : Slot
no_slot = record { kind = audio; source = mic }

-- the slots of a peer connection with so many transceivers
abbrev pub slot_decls : ℕ → List Slot → List Slot
slot_decls zero slots = []
slot_decls (suc n) [] = no_slot ∷ slot_decls n []
slot_decls (suc n) (x ∷ xs) = x ∷ slot_decls n xs

abbrev give_up : ℕ → CallClient → CallClient × Next
unfolding leave
give_up generation s =
    if generation == s.recovery_generation then leave (emit (status lost) s) else (s, returned)

-- `rejoin` or `join` threw: the owner sees it, a recovery goes on with its loop.
unfoldable pub fail : Caller → CallClient → CallClient × Next
unfolding give_up
fail owner s = (s, rejected)
fail (recovery channel generation zero) s = give_up generation s
fail (recovery channel generation (suc n)) s = (s, waits (sleeping channel generation n))

abbrev open_session : Caller → Joined → CallClient → CallClient × Next
unfolding fail apply_session open_peer
open_session caller r s =
    if r.session == 0
    then fail caller s
    else (open_peer (apply_session r s), waits (creating (count r.slots) caller))

-- `join`, once the microphone was asked for: `some` is the error's message
abbrev acquired : ℕ → Option String → CallClient → CallClient × Next
acquired channel none s = (send (join_channel channel) s, waits (joining channel true))
acquired channel (some message) s =
    (send (join_channel channel) (emit (listen_only message) s), waits (joining channel false))

abbrev joined : Bool → Option Joined → CallClient → CallClient × Next
unfolding open_session
joined has_stream none s = (s, rejected)
joined has_stream (some r) s =
    if s.channel_id == r.channel
    then (s, returned)
    else open_session owner r (
        emit (local_stream has_stream)
          (record s { camera_enabled = false; has_stream = has_stream; camera_track = none }))

-- `rejoin` without a session to resume
abbrev pub start_over : ℕ → Caller → CallClient → CallClient × Next
unfolding teardown
start_over channel caller s =
    (send (join_channel channel) (teardown s), waits (rejoining channel caller))

unfoldable pub rejoin : ℕ → Caller → CallClient → CallClient × Next
unfolding start_over
rejoin channel caller s =
    if channel == 0
    then (s, returned)
    else if is_some s.pc && (not (s.session_id == 0) && s.channel_id == channel)
    then (send (resume_session s.session_id) s, waits (resuming channel caller))
    else start_over channel caller s

abbrev resumed : ℕ → Caller → Option (List VoiceParticipant) → CallClient → CallClient × Next
unfolding start_over restore_camera_state
resumed channel caller none s = start_over channel caller s
resumed channel caller (some users) s = (
  restore_camera_state (
      emit (status connected)
        (record s { session_lost_handled = false; participants = set_all users [] })),
  returned,
)

abbrev rejoined : Caller → Option Joined → CallClient → CallClient × Next
unfolding fail open_session
rejoined caller none s = fail caller s
rejoined caller (some r) s = open_session caller r s

-- the offer was made, or not
abbrev offer_created : ℕ → Caller → Bool → CallClient → CallClient × Next
unfolding fail
offer_created n caller false s = fail caller s
offer_created n caller true s = (s, waits (opening n caller))

-- the offer was set, or not
abbrev offer_made : ℕ → Caller → Bool → CallClient → CallClient × Next
unfolding fail
offer_made n caller false s = fail caller s
offer_made n caller true s =
    (send (offer s.session_id (slot_decls n s.publish_slots)) s, waits (offering caller))

-- the offer was sent, or not; `startQualityMonitor` keeps a running timer
abbrev offered_slots : Caller → Bool → CallClient → CallClient × Next
unfolding fail restore_camera_state
offered_slots caller false s = fail caller s
offered_slots caller true s = (restore_camera_state (record s { sampling = true }), returned)

-- `runSessionRecovery` after a delay, with the socket open or not
abbrev pub wake : ℕ → ℕ → ℕ → Bool → CallClient → CallClient × Next
unfolding rejoin
wake channel generation n is_open s =
    if not (generation == s.recovery_generation)
    then (s, returned)
    else if not is_open
    then (s, returned)
    else rejoin channel (recovery channel generation n) s

-- The function that waits goes on with what its promise settled to.
unfoldable pub go_on : (t : Task) → Outcome t → CallClient → CallClient × Next
unfolding wake resumed rejoined offered_slots left joined
go_on (sleeping channel generation n) is_open s = wake channel generation n is_open s
go_on (resuming channel caller) users s = resumed channel caller users s
go_on (rejoining channel caller) r s = rejoined caller r s
go_on (creating n caller) ok s = offer_created n caller ok s
go_on (opening n caller) ok s = offer_made n caller ok s
go_on (offering caller) ok s = offered_slots caller ok s
go_on (leaving then_join) ok s = left then_join s
go_on (acquiring channel) message s = acquired channel message s
go_on (joining channel has_stream) r s = joined has_stream r s

-- `handleSessionLost` and the start of `runSessionRecovery`, with the socket open or not
unfoldable pub session_lost : Bool → CallClient → CallClient × Next
session_lost is_open s =
    if s.session_lost_handled || s.channel_id == 0
    then (s, returned)
    else if is_open
    then (
      emit (status reconnecting) (record s { session_lost_handled = true }),
      waits (sleeping s.channel_id s.recovery_generation 2),
    )
    else (record s { session_lost_handled = true }, returned)

-- `handleSfuSessionClosed`
unfoldable pub session_closed : ℕ → Bool → CallClient → CallClient × Next
unfolding session_lost
session_closed session is_open s =
    if session == s.session_id then session_lost is_open s else (s, returned)

abbrev is_peer : ℕ → Option Peer → Bool
is_peer id none = false
is_peer id (some p) = p.id == id

-- `onconnectionstatechange` of a peer connection that has failed or closed
unfoldable pub connection_failed : ℕ → Bool → CallClient → CallClient × Next
unfolding session_lost
connection_failed id is_open s = if is_peer id s.pc then session_lost is_open s else (s, returned)

-- `handleSfuError`; session 0 is an event without one
unfoldable pub sfu_error : ℕ → String → CallClient → CallClient
sfu_error session message s =
    if not (session == 0) && not (session == s.session_id) then s else emit (voice_error message) s

abbrev or_else {ℓ} : {A : Type ℓ} → Option A → Option A → Option A
or_else (some a) o = some a
or_else none o = o

-- `{ ...known, ...participant }`
abbrev merge : Option VoiceParticipant → VoiceParticipant → VoiceParticipant
merge none p = p
merge (some k) p = record {
  user_id = p.user_id;
  first_name = or_else p.first_name k.first_name;
  last_name = or_else p.last_name k.last_name;
  nickname = or_else p.nickname k.nickname;
  avatar_url = or_else p.avatar_url k.avatar_url;
  mic_enabled = or_else p.mic_enabled k.mic_enabled;
  deafened = or_else p.deafened k.deafened;
}

abbrev merge_all :
    ℕ → List VoiceParticipant → List (ℕ × VoiceParticipant) → List (ℕ × VoiceParticipant)
merge_all self [] ps = ps
merge_all self (p ∷ rest) ps =
    if p.user_id == self
    then merge_all self rest ps
    else merge_all self rest (set_entry p.user_id (merge (get_entry p.user_id ps) p) ps)

unfoldable pub sync_participants : ℕ → List VoiceParticipant → CallClient → CallClient
sync_participants channel users s =
    if not (channel == s.channel_id) || s.channel_id == 0
    then s
    else record s { participants = merge_all s.self_user_id users s.participants }
