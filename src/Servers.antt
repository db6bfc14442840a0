-- ===== src/Servers.antt =====
-- The hook useServers (frontend/src/hooks/useServers.ts): the state, and `syncServersAndChannels`
-- once the server has answered. The effects that store the state run with each change, and the ref
-- of the selected server holds the selected server.
pub mod Sync
pub mod Flows
pub mod Run
pub mod Dms
pub mod Busy
use mini_discord.Prelude.{
  String, ℕ, ◌==◌, Bool, true, false, not, ◌&&◌, ◌||◌, List, [], ◌∷◌, ◌++◌, Option, none, some,
  if◌then◌else◌, any, set_entry, get_entry, entry, includes,
}
use mini_discord.Wire.{
  Server, Channel, ChannelType, text, voice, VoiceParticipant, VoiceChannelParticipants, Message,
}
use mini_discord.Wire.Responses.Rows.{ServerChannels}

pub data Toast : Type 0 where
  success : List ℕ → Toast
  failure : String → Toast

-- A text that is typed is a list of code points. `stored_…` are the entries of `localStorage`.
pub record ServersState : Type 0 where
  pub has_socket : Bool
  pub is_connected : Bool
  pub servers : List Server
  pub channels_by_server : List (ℕ × List Channel)
  pub voice_by_channel : List (ℕ × List VoiceParticipant)
  pub messages_by_channel : List (ℕ × List Message)
  pub selected_server : ℕ
  pub selected_channel : ℕ
  pub stored_servers : List Server
  pub stored_channels : List (ℕ × List Channel)
  pub stored_selected : Option ℕ
  pub dm_channel_ids : List ℕ
  pub is_creating_server : Bool
  pub is_creating_channel : Bool
  pub is_create_server_open : Bool
  pub new_server_name : List ℕ
  pub is_create_channel_open : Bool
  pub new_channel_name : List ℕ
  pub new_channel_type : ChannelType
  pub is_join_open : Bool
  pub join_query : List ℕ
  pub join_results : List (ℕ × String)
  pub is_searching : Bool
  pub search_timer : Option (List ℕ)
  pub search_request : ℕ
  pub error : String
  pub toasts : List Toast

abbrev pub has_server : ℕ → List Server → Bool
has_server id = any (λ server. server.id == id)

abbrev pub has_channel : ℕ → List Channel → Bool
has_channel id = any (λ channel. channel.id == id)

-- `syncServersAndChannels` when the user is in no server
unfoldable pub clear_servers : ServersState → ServersState
clear_servers s = record s {
  servers = [];
  channels_by_server = [];
  voice_by_channel = [];
  messages_by_channel = [];
  selected_server = 0;
  selected_channel = 0;
  stored_servers = [];
  stored_channels = [];
  stored_selected = none;
}

-- `preferredServerId && remoteServers.some(…) && preferredServerId`, 0 for the rest
abbrev if_present : ℕ → List Server → ℕ
if_present id servers = if not (id == 0) && has_server id servers then id else 0

abbrev first_server : List Server → ℕ
first_server [] = 0
first_server (server ∷ rest) = server.id

abbrev or_else : ℕ → ℕ → ℕ
or_else a b = if a == 0 then b else a

abbrev pub preferred_or_zero : Option ℕ → ℕ
preferred_or_zero none = 0
preferred_or_zero (some id) = id

unfoldable pub active_server : Option ℕ → ℕ → List Server → ℕ
active_server preferred from_state servers =
    or_else (if_present (preferred_or_zero preferred) servers)
      (or_else (if_present from_state servers) (first_server servers))

abbrev pub all_channels : List (ℕ × List Channel) → List Channel
all_channels [] = []
all_channels (kv ∷ rest) = kv.1 ++ all_channels rest

abbrev pub channels_of : List (ℕ × ServerChannels) → List (ℕ × List Channel)
channels_of [] = []
channels_of (kv ∷ rest) = (kv.0, kv.1.channels) ∷ channels_of rest

abbrev set_voice :
    List Channel
    → List VoiceChannelParticipants
    → List (ℕ × List VoiceParticipant)
    → List (ℕ × List VoiceParticipant)
set_voice valid [] next = next
set_voice valid (e ∷ es) next =
    set_voice valid es
      (if has_channel e.channel_id valid then set_entry e.channel_id e.participants next else next)

-- `nextVoiceParticipantsByChannel`
unfoldable pub voice_of :
    List Channel
    → List (ℕ × ServerChannels)
    → List (ℕ × List VoiceParticipant)
    → List (ℕ × List VoiceParticipant)
voice_of valid [] next = next
voice_of valid (kv ∷ rest) next = voice_of valid rest (set_voice valid kv.1.voice_participants next)

abbrev first_channel : List Channel → ℕ
first_channel [] = 0
first_channel (channel ∷ rest) = channel.id

unfoldable pub next_channel : List ℕ → List Channel → ℕ → ℕ
next_channel dms channels prev =
    if has_channel prev channels || includes prev dms then prev else first_channel channels

abbrev add_missing : Option (List Message) → ℕ → List (ℕ × List Message) → List (ℕ × List Message)
add_missing none c next = set_entry c [] next
add_missing (some messages) c next = next

-- `if (!next[channel.id]) next[channel.id] = []` for each channel
unfoldable pub with_channels : List Channel → List (ℕ × List Message) → List (ℕ × List Message)
with_channels [] next = next
with_channels (c ∷ cs) next = with_channels cs (add_missing (get_entry c.id next) c.id next)

-- `syncServersAndChannels` with the servers and the state of each, in their order
unfoldable pub sync_arrived :
    Option ℕ → List Server → List (ℕ × ServerChannels) → ServersState → ServersState
unfolding active_server voice_of next_channel with_channels
sync_arrived preferred remote states s =
    let channels = channels_of states in
    let active = active_server preferred s.selected_server remote in
    record s {
      servers = remote;
      channels_by_server = channels;
      voice_by_channel = voice_of (all_channels channels) states [];
      selected_server = active;
      selected_channel =
          next_channel s.dm_channel_ids (entry [] active channels) s.selected_channel;
      messages_by_channel = with_channels (all_channels channels) s.messages_by_channel;
      stored_servers = remote;
      stored_channels = channels;
      stored_selected = some active;
    }

abbrev holds : ℕ → List (ℕ × List Channel) → Bool
holds c [] = false
holds c (kv ∷ rest) = has_channel c kv.1 || holds c rest

-- the listener of `onMessage`; the name of the new channel is its number in decimal digits
unfoldable pub message_arrived : (ℕ → String) → ℕ → ServersState → ServersState
message_arrived digits c s =
    if holds c s.channels_by_server || (s.selected_server == 0 || includes c s.dm_channel_ids)
    then s
    else let channel : Channel = record {
      id = c;
      server_id = s.selected_server;
      name = digits c;
      type = text;
    } in
      let channels =
        set_entry s.selected_server
          (entry [] s.selected_server s.channels_by_server ++ channel ∷ []) s.channels_by_server in
      record s { channels_by_server = channels; stored_channels = channels }
