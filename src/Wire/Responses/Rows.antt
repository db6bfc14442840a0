-- ===== src/Wire/Responses/Rows.antt =====
-- The methods of `ChatSocket` whose replies hold rows (frontend/src/services/chatSocket.ts):
-- servers, channels, members, unread counters, users, and the voice and direct-message replies.
pub mod Laws
use mini_discord.Prelude.{
  ℕ, String, str_eq, Bool, true, false, not, ◌&&◌, ◌||◌, List, [], ◌∷◌, any, Option, none, some,
  if◌then◌else◌, is_some,
}
use mini_discord.Json.{
  Json, Fields, num, str, end, field, get, as_number, as_string, as_bool, as_array, is_number,
}
use mini_discord.Wire.{
  DmChannel, Channel, Server, VoiceParticipant, VoiceChannelParticipants, ServerMember,
  ChannelUnread,
}
use mini_discord.Wire.Decode.{◌>>=◌, or_default, text_of, filter_map, to_dm_channel}
use mini_discord.Wire.Responses.{
  Result, ok, invalid, type_error, Method, decode_rows, readable, array_or_empty, channel_type,
  or_invalid,
}

abbrev to_server : Json → Option Server
to_server row = as_number (get "id" row) >>= λ id. as_string (get "name" row) >>= λ name.
    as_number (get "owner_id" row) >>= λ owner.
    some (record { id = id; name = name; owner_id = owner })

-- `if (!Array.isArray(rows)) return []`
unfoldable pub get_servers : Method (List Server)
get_servers = record {
  action = "get_servers";
  payload = end;
  decode = λ v. decode_rows to_server (array_or_empty (get "servers" v));
}

abbrev found_server : Json → Option (ℕ × String)
found_server row =
    as_number (get "id" row) >>= λ id. as_string (get "name" row) >>= λ name. some (id, name)

unfoldable pub search_servers : String → ℕ → Method (List (ℕ × String))
search_servers query limit = record {
  action = "search_servers";
  payload = field "query" (str query) (field "limit" (num limit) end);
  decode = λ v. decode_rows found_server (array_or_empty (get "servers" v));
}

abbrev to_channel : Json → Option Channel
to_channel row = as_number (get "id" row) >>= λ id. as_number (get "server_id" row) >>= λ server.
    as_string (get "name" row) >>= λ name.
    some (record { id = id; server_id = server; name = name; type = channel_type (get "type" row) })

abbrev to_participant : Json → Option VoiceParticipant
to_participant row = as_number (get "user_id" row) >>= λ id. some (record {
  user_id = id;
  first_name = as_string (get "first_name" row);
  last_name = as_string (get "last_name" row);
  nickname = as_string (get "nickname" row);
  avatar_url = as_string (get "avatar_url" row);
  mic_enabled = as_bool (get "mic_enabled" row);
  deafened = as_bool (get "deafened" row);
})

abbrev to_voice_channel : Json → Option VoiceChannelParticipants
to_voice_channel row = as_number (get "channel_id" row) >>= λ id. some (record {
  channel_id = id;
  participants = filter_map to_participant (array_or_empty (get "participants" row));
})

pub record ServerChannels : Type 0 where
  pub channels : List Channel
  pub voice_participants : List VoiceChannelParticipants

abbrev with_voice : List VoiceChannelParticipants → Result (List Channel) → Result ServerChannels
with_voice voice (ok channels) = ok (record { channels = channels; voice_participants = voice })
with_voice voice (invalid e) = invalid e
with_voice voice type_error = type_error

-- `entry?.channel_id` and `participant?.user_id` read no property of `null`; `channel.id` does.
unfoldable pub get_server_channels_state : ℕ → Method ServerChannels
get_server_channels_state server = record {
  action = "get_server_channels";
  payload = field "server_id" (num server) end;
  decode = λ v.
      with_voice (filter_map to_voice_channel (array_or_empty (get "voice_participants" v)))
        (decode_rows to_channel (array_or_empty (get "channels" v)));
}

pub record OnlineUser : Type 0 where
  pub first_name : Option String
  pub last_name : Option String
  pub nickname : Option String
  pub user_id : Option ℕ
  pub avatar_url : Option String
  pub email : Option String

abbrev to_online_user : Json → Option OnlineUser
to_online_user row =
    let user : OnlineUser = record {
      first_name = as_string (get "first_name" row);
      last_name = as_string (get "last_name" row);
      nickname = as_string (get "nickname" row);
      user_id = as_number (get "user_id" row);
      avatar_url = as_string (get "avatar_url" row);
      email = as_string (get "email" row);
    } in
    if is_some user.nickname
      || is_some user.first_name
      || is_some user.last_name
      || is_some user.email
    then some user
    else none

unfoldable pub get_users_online : ℕ → Method (List OnlineUser)
get_users_online server = record {
  action = "get_users_online";
  payload = field "server_id" (num server) end;
  decode = λ v. decode_rows to_online_user (array_or_empty (get "users" v));
}

abbrev to_member : Json → Option ServerMember
to_member row = as_number (get "user_id" row) >>= λ id. some (record {
  user_id = id;
  first_name = as_string (get "first_name" row);
  last_name = as_string (get "last_name" row);
  nickname = as_string (get "nickname" row);
  avatar_url = as_string (get "avatar_url" row);
})

unfoldable pub get_server_members : ℕ → Method (List ServerMember)
get_server_members server = record {
  action = "get_server_members";
  payload = field "server_id" (num server) end;
  decode = λ v. decode_rows to_member (array_or_empty (get "members" v));
}

abbrev to_unread : Json → Option ChannelUnread
to_unread row = as_number (get "channel_id" row) >>= λ id.
    as_number (get "unread_count" row) >>= λ count. some (record {
      channel_id = id;
      server_id = or_default (as_number (get "server_id" row)) 0;
      unread_count = count;
    })

unfoldable pub get_unread : Method (List ChannelUnread)
get_unread = record {
  action = "get_unread";
  payload = end;
  decode = λ v. decode_rows to_unread (array_or_empty (get "channels" v));
}

abbrev sfu_transport : Json → Bool
sfu_transport (str s) = str_eq s "sfu"
sfu_transport v = false

-- What the caller gets is the reply itself.
unfoldable pub join_voice_channel : ℕ → Method Json
join_voice_channel channel = record {
  action = "join_voice_channel";
  payload = field "channel_id" (num channel) end;
  decode = λ v.
      if not (is_number (get "channel_id" v)) || not (is_some (as_array (get "participants" v)))
      then invalid "Invalid join voice response"
      else if not (sfu_transport (get "transport_mode" v))
      then invalid "Invalid join voice response: unexpected transport_mode"
      else ok v;
}

unfoldable pub send_sfu_resume : String → Method Json
send_sfu_resume session = record {
  action = "sfu_resume";
  payload = field "session_id" (str session) end;
  decode = λ v.
      if not (is_some (as_bool (get "ok" v))) || not (is_some (as_array (get "participants" v)))
      then invalid "Invalid sfu_resume response"
      else ok v;
}

pub record UserProfile : Type 0 where
  pub user_id : ℕ
  pub first_name : String
  pub last_name : String
  pub nickname : Option String
  pub avatar_url : String

-- `payload.user_id` reads a property of the reply itself.
unfoldable pub get_user_info : ℕ → Method UserProfile
get_user_info user = record {
  action = "get_user_info";
  payload = field "user_id" (num user) end;
  decode = λ v.
      if readable v
      then ok (record {
        user_id = or_default (as_number (get "user_id" v)) user;
        first_name = text_of (get "first_name" v);
        last_name = text_of (get "last_name" v);
        nickname = as_string (get "nickname" v);
        avatar_url = text_of (get "avatar_url" v);
      })
      else type_error;
}

unfoldable pub open_dm : ℕ → Method DmChannel
unfolding to_dm_channel
open_dm peer = record {
  action = "open_dm";
  payload = field "peer_user_id" (num peer) end;
  decode = λ v. or_invalid "Invalid open_dm response" (to_dm_channel v);
}

unfoldable pub list_dms : Method (List DmChannel)
unfolding to_dm_channel
list_dms = record {
  action = "list_dms";
  payload = end;
  decode = λ v. ok (filter_map to_dm_channel (array_or_empty (get "channels" v)));
}

pub record UserSearchHit : Type 0 where
  pub user_id : ℕ
  pub nickname : String
  pub avatar_url : Option String

abbrev to_user_hit : Json → Option UserSearchHit
to_user_hit row = as_number (get "user_id" row) >>= λ id.
    as_string (get "nickname" row) >>= λ nickname.
    some
      (record { user_id = id; nickname = nickname; avatar_url = as_string (get "avatar_url" row) })

unfoldable pub search_users : String → ℕ → Method (List UserSearchHit)
search_users query limit = record {
  action = "search_users";
  payload = field "query" (str query) (field "limit" (num limit) end);
  decode = λ v. decode_rows to_user_hit (array_or_empty (get "users" v));
}
