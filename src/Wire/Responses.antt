-- ===== src/Wire/Responses.antt =====
-- The methods of `ChatSocket` that send a command and decode its reply
-- (frontend/src/services/chatSocket.ts): the command's name, its payload, and what the promise's
-- value is made of. A reply is any value.
pub mod Rows
pub mod Commands
use mini_discord.Prelude.{
  ℕ, String, str_eq, Bool, true, false, not, ◌&&◌, ◌||◌, List, [], ◌∷◌, map, any, Option, none,
  some, if◌then◌else◌, is_some,
}
use mini_discord.Json.{
  Json, Fields, undefined, null, bool, num, str, arr, obj, end, field, get, as_number, as_string,
  as_bool, as_array, of_list, truthy,
}
use mini_discord.Wire.{
  Message, DmChannel, Channel, ChannelType, text, voice, dm, Server, VoiceParticipant,
  VoiceChannelParticipants, ServerMember, ChannelUnread,
}
use mini_discord.Wire.Decode.{◌>>=◌, or_default, text_of, filter_map, to_message, to_dm_channel}

-- `invalid` is an `Error` that the method throws itself, `type_error` the one of a property read
-- of `null` or `undefined`.
pub data Result (A : Type 0) : Type 0 where
  ok : A → Result A
  invalid : String → Result A
  type_error : Result A

pub record Method (A : Type 0) : Type 0 where
  pub action : String
  pub payload : Fields
  pub decode : Json → Result A

-- A property of this value can be read.
abbrev pub readable : Json → Bool
readable undefined = false
readable null = false
readable v = true

-- `rows.filter(row => … row.key …).map(…)`: reads a property of every row.
abbrev pub decode_rows : {A : Type 0} → (Json → Option A) → List Json → Result (List A)
decode_rows f rows = if any (λ v. not (readable v)) rows then type_error else ok (filter_map f rows)

-- `Array.isArray(rows) ? … : []`
abbrev pub array_or_empty : Json → List Json
array_or_empty v = or_default (as_array v) []

-- `v === true`
abbrev pub is_true : Json → Bool
is_true (bool b) = b
is_true v = false

abbrev channel_type : Json → ChannelType
channel_type (str s) = if str_eq s "voice" then voice else text
channel_type v = text

-- `type` must be one of the two.
abbrev strict_channel_type : Json → Option ChannelType
strict_channel_type (str s) =
    if str_eq s "text" then some text else if str_eq s "voice" then some voice else none
strict_channel_type v = none

abbrev type_text : ChannelType → String
type_text text = "text"
type_text voice = "voice"
type_text dm = "dm"

abbrev or_invalid : {A : Type 0} → String → Option A → Result A
or_invalid message none = invalid message
or_invalid message (some a) = ok a

abbrev created_channel : Json → Option Channel
created_channel v = as_number (get "channel_id" v) >>= λ id.
    as_number (get "server_id" v) >>= λ server. as_string (get "name" v) >>= λ name.
    strict_channel_type (get "type" v) >>= λ type.
    some (record { id = id; server_id = server; name = name; type = type })

unfoldable pub create_channel : ℕ → String → ChannelType → Method Channel
create_channel server name type = record {
  action = "create_channel";
  payload =
      field "server_id" (num server)
        (field "name" (str name) (field "type" (str (type_text type)) end));
  decode = λ v.
      or_invalid "The server returned an invalid response when creating a channel."
        (created_channel v);
}

abbrev created_server : Json → Option (ℕ × String)
created_server v =
    as_number (get "server_id" v) >>= λ id. as_string (get "name" v) >>= λ name. some (id, name)

unfoldable pub create_server : String → Method (ℕ × String)
create_server name = record {
  action = "create_server";
  payload = field "name" (str name) end;
  decode = λ v.
      or_invalid "The server returned an invalid response while creating the server."
        (created_server v);
}

-- `sendMessage`: the two optional fields are left out when they say nothing. `num` ids.
abbrev attachment_field : List ℕ → Fields → Fields
attachment_field [] rest = rest
attachment_field (id ∷ ids) rest =
    field "attachment_ids" (arr (of_list (map (λ n. num n) (id ∷ ids)))) rest

abbrev reply_field : Option ℕ → Fields
reply_field none = end
reply_field (some id) = field "reply_to_id" (num id) end

unfoldable pub send_message : ℕ → String → List ℕ → Option ℕ → Method (Unit {0})
send_message channel content attachment_ids reply_to_id = record {
  action = "send_message";
  payload =
      field "channel_id" (num channel)
        (field "content" (str content) (attachment_field attachment_ids (reply_field reply_to_id)));
  decode = λ v. ok tt;
}

pub record Page : Type 0 where
  pub messages : List Message
  pub next_cursor : String
  pub has_more : Bool

unfoldable pub decode_page : String → Json → Page
unfolding to_message
decode_page now v = record {
  messages = filter_map (to_message now) (array_or_empty (get "messages" v));
  next_cursor = text_of (get "next_cursor" v);
  has_more = is_true (get "has_more" v);
}

-- `if (cursor) requestPayload.cursor = cursor`
abbrev cursor_field : String → Fields
cursor_field cursor = if str_eq cursor "" then end else field "cursor" (str cursor) end

unfoldable pub get_messages : String → ℕ → ℕ → String → Method Page
unfolding decode_page
get_messages now channel limit cursor = record {
  action = "get_messages";
  payload = field "channel_id" (num channel) (field "limit" (num limit) (cursor_field cursor));
  decode = λ v. ok (decode_page now v);
}

unfoldable pub get_messages_after : String → ℕ → String → ℕ → Method Page
unfolding decode_page
get_messages_after now channel cursor limit = record {
  action = "get_messages_after";
  payload =
      field "channel_id" (num channel)
        (field "cursor" (str cursor) (field "limit" (num limit) end));
  decode = λ v. ok (decode_page now v);
}

pub record Window : Type 0 where
  pub messages : List Message
  pub older_cursor : String
  pub newer_cursor : String
  pub has_more_older : Bool
  pub has_more_newer : Bool

unfoldable pub get_messages_around : String → ℕ → ℕ → ℕ → Method Window
unfolding to_message
get_messages_around now channel message limit = record {
  action = "get_messages_around";
  payload =
      field "channel_id" (num channel)
        (field "message_id" (num message) (field "limit" (num limit) end));
  decode = λ v. ok (record {
    messages = filter_map (to_message now) (array_or_empty (get "messages" v));
    older_cursor = text_of (get "older_cursor" v);
    newer_cursor = text_of (get "newer_cursor" v);
    has_more_older = is_true (get "has_more_older" v);
    has_more_newer = is_true (get "has_more_newer" v);
  });
}
