-- ===== src/Voice.antt =====
-- The hook useVoice (frontend/src/hooks/useVoice.ts): who is in which voice channel, and the user's
-- own microphone. A user id of 0 stands for `null`.
pub mod Lists
pub mod Presence
pub mod Microphone
use mini_discord.Prelude.{
  String, ℕ, ◌==◌, Bool, true, false, not, ◌&&◌, ◌||◌, List, [], ◌∷◌, ◌++◌, Option, none, some,
  if◌then◌else◌, any, keep, includes, set_entry, get_entry, delete_entry, entry,
}
use mini_discord.Wire.{VoiceParticipant}
use mini_discord.Call.State.{CallStatus, connected, Tile}

-- What the hook asks of the socket and of the call client.
pub data VoiceCommand : Type 0 where
  change_voice_status : ℕ → Bool → Bool → VoiceCommand
  set_microphone : Bool → VoiceCommand

pub record VoiceState : Type 0 where
  pub user_id : ℕ
  pub profile : VoiceParticipant
  pub has_client : Bool
  pub has_socket : Bool
  pub voice_channel : ℕ
  pub streams : List ℕ
  pub participants : List (ℕ × List VoiceParticipant)
  pub detached : List ℕ
  pub speakers : List ℕ
  pub call_status : CallStatus
  pub is_deafened : Bool
  pub is_mic_enabled : Bool
  pub is_camera_enabled : Bool
  pub is_camera_starting : Bool
  pub is_screen_sharing : Bool
  pub is_switching_camera : Bool
  pub is_toggling_screen : Bool
  pub mic_before_deafen : Bool
  pub error : String
  pub asked : List VoiceCommand

abbrev pub has_user : ℕ → List VoiceParticipant → Bool
has_user u = any (λ p. p.user_id == u)

abbrev pub without : ℕ → List VoiceParticipant → List VoiceParticipant
without u = keep (λ p. not (p.user_id == u))

-- `onVoiceUserJoined`
unfoldable pub voice_user_joined : ℕ → VoiceParticipant → VoiceState → VoiceState
voice_user_joined c p s =
    let current = entry [] c s.participants in
    if has_user p.user_id current
    then s
    else record s { participants = set_entry c (current ++ p ∷ []) s.participants }

-- a list that is kept when somebody is in it
abbrev pub put_or_drop :
    ℕ → List VoiceParticipant → List (ℕ × List VoiceParticipant) → List (ℕ × List VoiceParticipant)
put_or_drop c [] lists = delete_entry c lists
put_or_drop c (p ∷ ps) lists = set_entry c (p ∷ ps) lists

-- `onVoiceUserLeft`
unfoldable pub voice_user_left : ℕ → ℕ → VoiceState → VoiceState
voice_user_left c u s =
    let current = entry [] c s.participants in
    record s {
      participants =
          if has_user u current
          then put_or_drop c (without u current) s.participants
          else s.participants;
      detached = keep (λ x. not (x == u)) s.detached;
      speakers = keep (λ x. not (x == u)) s.speakers;
    }

abbrev or_else {ℓ} : {A : Type ℓ} → Option A → Option A → Option A
or_else (some a) o = some a
or_else none o = o

-- `{ ...known, ...participant }`
abbrev merge_participant : VoiceParticipant → VoiceParticipant → VoiceParticipant
merge_participant p k = record {
  user_id = p.user_id;
  first_name = or_else p.first_name k.first_name;
  last_name = or_else p.last_name k.last_name;
  nickname = or_else p.nickname k.nickname;
  avatar_url = or_else p.avatar_url k.avatar_url;
  mic_enabled = or_else p.mic_enabled k.mic_enabled;
  deafened = or_else p.deafened k.deafened;
}

-- the first participant of that id is changed
abbrev pub change_first :
    ℕ → (VoiceParticipant → VoiceParticipant) → List VoiceParticipant → List VoiceParticipant
change_first u f [] = []
change_first u f (p ∷ ps) =
    let rest = change_first u f ps in if p.user_id == u then f p ∷ ps else p ∷ rest

abbrev pub change_in :
    ℕ
    → ℕ
    → (VoiceParticipant → VoiceParticipant)
    → List (ℕ × List VoiceParticipant)
    → List (ℕ × List VoiceParticipant)
change_in c u f lists =
    if has_user u (entry [] c lists)
    then set_entry c (change_first u f (entry [] c lists)) lists
    else lists

-- `onVoiceStatusChanged`
unfoldable pub status_changed : ℕ → VoiceParticipant → VoiceState → VoiceState
status_changed c p s = record s {
  participants = change_in c p.user_id (merge_participant p) s.participants;
}

-- `onVoiceUserDetached`, `onVoiceUserResumed` and `onSfuActiveSpeakers`
unfoldable pub user_detached : ℕ → ℕ → VoiceState → VoiceState
user_detached c u s =
    if not (c == s.voice_channel) || includes u s.detached
    then s
    else record s { detached = s.detached ++ u ∷ [] }

unfoldable pub user_resumed : ℕ → ℕ → VoiceState → VoiceState
user_resumed c u s =
    if c == s.voice_channel then record s { detached = keep (λ x. not (x == u)) s.detached } else s

unfoldable pub speakers_changed : ℕ → List ℕ → VoiceState → VoiceState
speakers_changed c users s = if c == s.voice_channel then record s { speakers = users } else s

abbrev pub drop_self :
    ℕ
    → Option (List VoiceParticipant)
    → ℕ
    → List (ℕ × List VoiceParticipant)
    → List (ℕ × List VoiceParticipant)
drop_self c none self lists = lists
drop_self c (some current) self lists = put_or_drop c (without self current) lists

abbrev self_participant : VoiceState → VoiceParticipant
self_participant s = record s.profile {
  user_id = s.user_id;
  mic_enabled = some true;
  deafened = some false;
}

-- `handleJoinVoice`, begun in the channel `previous`, when `join` has returned the channel and its
-- participants
unfoldable pub voice_joined : ℕ → ℕ → List VoiceParticipant → VoiceState → VoiceState
voice_joined previous c users s =
    let left =
      if previous == 0 || previous == c
      then s.participants
      else drop_self previous (get_entry previous s.participants) s.user_id s.participants in
    record s {
      voice_channel = c;
      is_mic_enabled = true;
      is_deafened = false;
      is_camera_enabled = false;
      is_camera_starting = false;
      is_switching_camera = false;
      is_screen_sharing = false;
      is_toggling_screen = false;
      detached = [];
      speakers = [];
      call_status = connected;
      error = "";
      participants =
          if s.user_id == 0
          then s.participants
          else set_entry c (self_participant s ∷ without s.user_id users) left;
    }

-- `handleLeaveVoice`, begun in a channel, when `leave` has returned
unfoldable pub voice_left : ℕ → VoiceState → VoiceState
voice_left channel s = record s {
  voice_channel = 0;
  streams = [];
  detached = [];
  speakers = [];
  call_status = connected;
  is_mic_enabled = true;
  is_deafened = false;
  is_camera_enabled = false;
  is_camera_starting = false;
  is_switching_camera = false;
  is_screen_sharing = false;
  is_toggling_screen = false;
  participants =
      if channel == 0 || s.user_id == 0
      then s.participants
      else put_or_drop channel (without s.user_id (entry [] channel s.participants)) s.participants;
}

-- `onParticipantStream` and `onParticipantLeft`: whose stream is shown, the latest last
unfoldable pub participant_stream : ℕ → VoiceState → VoiceState
participant_stream u s = record s { streams = keep (λ x. not (x == u)) s.streams ++ u ∷ [] }

unfoldable pub participant_left : ℕ → VoiceState → VoiceState
participant_left u s = record s { streams = keep (λ x. not (x == u)) s.streams }

abbrev with_status : Bool → Bool → VoiceParticipant → VoiceParticipant
with_status mic deafened p = record p { mic_enabled = some mic; deafened = some deafened }

abbrev with_mic : Bool → VoiceParticipant → VoiceParticipant
with_mic mic p = record p { mic_enabled = some mic }

abbrev in_channel : VoiceState → Bool
in_channel s = not (s.user_id == 0) && not (s.voice_channel == 0)

-- the call client's microphone, the server, and the user's own entry are told
abbrev tell_status : Bool → Bool → (VoiceParticipant → VoiceParticipant) → VoiceState → VoiceState
tell_status mic deafened f s =
    let set = if s.has_client then s.asked ++ set_microphone mic ∷ [] else s.asked in
    record s {
      asked =
          if in_channel s && s.has_socket
          then set ++ change_voice_status s.user_id mic deafened ∷ []
          else set;
      participants =
          if in_channel s
          then change_in s.voice_channel s.user_id f s.participants
          else s.participants;
    }

unfoldable pub toggle_microphone : VoiceState → VoiceState
toggle_microphone s =
    let next = not s.is_mic_enabled in
    if s.is_deafened
    then s
    else tell_status next false (with_mic next) (record s { is_mic_enabled = next })

unfoldable pub toggle_deafen : VoiceState → VoiceState
toggle_deafen s =
    if s.is_deafened
    then tell_status s.mic_before_deafen false (with_status s.mic_before_deafen false)
        (record s { is_deafened = false; is_mic_enabled = s.mic_before_deafen })
    else tell_status false true (with_status false true) (record s {
      mic_before_deafen = s.is_mic_enabled;
      is_deafened = true;
      is_mic_enabled = false;
    })
