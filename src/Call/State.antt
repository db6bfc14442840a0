-- ===== src/Call/State.antt =====
-- The fields of `SfuCallClient` and the types they hold (frontend/src/services/sfuCallClient.ts).
-- Session ids are positive numbers, 0 is the empty text. A track, a stream and a description stand
-- for themselves by a number.
pub mod Keys
use mini_discord.Prelude.{
  String, ℕ, ◌==◌, Bool, true, false, ◌&&◌, List, [], ◌∷◌, ◌++◌, Option, none, some, if◌then◌else◌,
  keep, not,
}
use mini_discord.Wire.{VoiceParticipant}

-- The sources that the protocol names; a track event may hold another text.
pub data Source : Type 0 where
  mic camera screen screen_audio : Source
  unknown : ℕ → Source

abbrev pub source_eq : Source → Source → Bool
source_eq mic mic = true
source_eq camera camera = true
source_eq screen screen = true
source_eq screen_audio screen_audio = true
source_eq (unknown n) (unknown m) = n == m
source_eq s t = false

pub data Kind : Type 0 where
  audio video : Kind

abbrev pub is_video : Kind → Bool
is_video audio = false
is_video video = true

abbrev pub is_camera : Source → Bool
is_camera camera = true
is_camera s = false

-- `screen` or `camera`
abbrev pub is_tile_source : Source → Bool
is_tile_source screen = true
is_tile_source camera = true
is_tile_source s = false

pub data Tier : Type 0 where
  low high : Tier

-- `${userID}:${source}`
abbrev pub Key : Type 0
Key = ℕ × Source

abbrev pub key_eq : Key → Key → Bool
key_eq a b = a.0 == b.0 && source_eq a.1 b.1

abbrev pub has_key : Key → List Key → Bool
has_key k [] = false
has_key k (x ∷ xs) = if key_eq x k then true else has_key k xs

-- `set.add(k)` and `set.delete(k)`
abbrev pub add_key : Key → List Key → List Key
add_key k ks = if has_key k ks then ks else ks ++ k ∷ []

abbrev pub delete_key : Key → List Key → List Key
delete_key k = keep (λ x. not (key_eq x k))

-- the keys that start with `${userID}:`
abbrev pub delete_user : ℕ → List Key → List Key
delete_user u = keep (λ x. not (x.0 == u))

pub data CallStatus : Type 0 where
  connected reconnecting lost : CallStatus

-- A remote participant's `MediaStream`.
pub record Tile : Type 0 where
  pub audio_tracks : List ℕ
  pub video_tracks : List ℕ

-- an entry of `remoteVideoTracks`
pub record VideoSlots : Type 0 where
  pub camera_track : Option ℕ
  pub screen_track : Option ℕ

pub record Slot : Type 0 where
  pub kind : Kind
  pub source : Source

-- The `RTCPeerConnection`: whether it has a remote description, the candidates that it was given,
-- and the slots' senders.
pub record Peer : Type 0 where
  pub id : ℕ
  pub described : Bool
  pub ice : List ℕ
  pub senders : List Source

pub data Command : Type 0 where
  resume_session : ℕ → Command
  join_channel : ℕ → Command
  leave_channel : Command
  offer : ℕ → List Slot → Command
  answer : ℕ → Command
  subscribe : ℕ → Key → Tier → Command
  publish_state : ℕ → Source → Bool → Command

-- What the client tells its owner.
pub data Notice : Type 0 where
  status : CallStatus → Notice
  remote_stream : ℕ → Notice
  remote_left : ℕ → Notice
  local_stream : Bool → Notice
  local_screen : Option ℕ → Notice
  quality_cleared : Notice
  listen_only : String → Notice
  voice_error : String → Notice

pub record CallClient : Type 0 where
  pub self_user_id : ℕ
  pub channel_id : ℕ
  pub session_id : ℕ
  pub participants : List (ℕ × VoiceParticipant)
  pub tiles : List (ℕ × Tile)
  pub video_slots : List (ℕ × VideoSlots)
  pub hidden : List Key
  pub subscribed : List Key
  pub pending_subscriptions : List Key
  pub debouncing : Bool
  pub speakers : List ℕ
  pub pc : Option Peer
  pub next_pc : ℕ
  pub publish_slots : List Slot
  pub pending_candidates : List ℕ
  pub session_lost_handled : Bool
  pub recovery_generation : ℕ
  pub has_stream : Bool
  pub camera_track : Option ℕ
  pub camera_enabled : Bool
  pub screen_stream : Option ℕ
  pub sampling : Bool
  pub sent : List Command
  pub emitted : List Notice

abbrev pub send : Command → CallClient → CallClient
send c s = record s { sent = s.sent ++ c ∷ [] }

abbrev pub emit : Notice → CallClient → CallClient
emit e s = record s { emitted = s.emitted ++ e ∷ [] }

-- `new SfuCallClient(…)`
unfoldable pub new : ℕ → CallClient
new self = record {
  self_user_id = self;
  channel_id = 0;
  session_id = 0;
  participants = [];
  tiles = [];
  video_slots = [];
  hidden = [];
  subscribed = [];
  pending_subscriptions = [];
  debouncing = false;
  speakers = [];
  pc = none;
  next_pc = 0;
  publish_slots = [];
  pending_candidates = [];
  session_lost_handled = false;
  recovery_generation = 0;
  has_stream = false;
  camera_track = none;
  camera_enabled = false;
  screen_stream = none;
  sampling = false;
  sent = [];
  emitted = [];
}
