-- ===== src/Tests/Voice.antt =====
-- A user's voice room on short series of events.
use mini_discord.Prelude.{ℕ, ◌≡◌, refl, Bool, true, false, List, [], ◌∷◌, none}
use mini_discord.Wire.{VoiceParticipant}
use mini_discord.Call.State.{connected}
use mini_discord.Voice.{VoiceState, voice_user_left, voice_joined, voice_user_joined}
use mini_discord.Voice.Lists.{present}
use mini_discord.Voice.Presence.{
  VoiceEvent, Calling, joins, leaves, self_begins, self_joins, react_all, Rooms, enter_all, Shows,
  react_all-Shows,
}
use mini_discord.Voice.Microphone.{press_all, Agrees, press_all-Agrees}

abbrev person : ℕ → VoiceParticipant
person u = record {
  user_id = u;
  first_name = none;
  last_name = none;
  nickname = none;
  avatar_url = none;
  mic_enabled = none;
  deafened = none;
}

-- User 1 is in channel 4, alone.
abbrev alone : VoiceState
alone = record {
  user_id = 1;
  profile = person 1;
  has_client = true;
  has_socket = true;
  voice_channel = 4;
  streams = [];
  participants = (4, person 1 ∷ []) ∷ [];
  detached = [];
  speakers = [];
  call_status = connected;
  is_deafened = false;
  is_mic_enabled = true;
  is_camera_enabled = false;
  is_camera_starting = false;
  is_screen_sharing = false;
  is_switching_camera = false;
  is_toggling_screen = false;
  mic_before_deafen = true;
  error = "";
  asked = [];
}

abbrev rooms : Rooms
rooms = record { is_in = λ c u. present c u ((4, person 1 ∷ []) ∷ []); here = 4; begun_in = [] }

abbrev calling : Calling
calling = record { voice = alone; begun_in = [] }

abbrev events : List VoiceEvent
events =
    joins 4 (person 2)
    ∷ joins 5 (person 3)
    ∷ self_begins
    ∷ self_begins
    ∷ self_joins 0 5 (person 1 ∷ person 3 ∷ [])
    ∷ self_joins 1 6 (person 1 ∷ [])
    ∷ leaves 4 2
    ∷ []

-- Two calls overlap: the answer to the second leaves the user in the channel of the first.
moved : present 5 1 (react_all events calling).voice.participants ≡ true
unfolding react_all voice_user_left voice_joined voice_user_joined
moved = refl

react_all-Shows_example : Shows (enter_all 1 events rooms) (react_all events calling)
react_all-Shows_example =
    react_all-Shows 1 events rooms calling refl ((λ c u. refl), refl, refl, refl)

-- The microphone is turned off, the user deafened and back.
abbrev presses : List Bool
presses = false ∷ true ∷ true ∷ []

press_all-Agrees_example : Agrees (press_all presses alone)
press_all-Agrees_example = press_all-Agrees presses alone (refl, refl, refl)
